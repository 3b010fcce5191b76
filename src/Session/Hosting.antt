-- ===== src/Session/Hosting.antt =====
-- Every scene that SessionServer/SessionSceneManager.cpp knows of runs on a server that it knows.
use rpg_server.Base.{
  ℕ, ◌≡◌, inl, inr, true, false, ◌&&◌, [], ◌∷◌, arith, ◌==◌, ==_iff, Bool-cases, Option-cases,
  nat_eq, Table, find, insert, erase, find-insert, find-erase, Every, insert-Every, erase-Every,
  erase_if-sifts, map-Every,
}
use rpg_server.Session.{
  SessionScene, ServerNode, SessionSceneManager, SceneRegisterReq, CopyCreateReq, bind_scene_server,
  drop_server, unbind_conn, adjust_server, register_scene, is_there, unregister_scene,
  create_copy_record, generate_copy_instance_id, report_map_player_count,
  report_server_player_count, set_counts, count_up, count_down,
}

abbrev pub Hosts : Table ℕ ServerNode → ℕ → Type 0
Hosts servers id = is_there (find id servers) ≡ true

pub record IsHosted (m : SessionSceneManager) : Type 0 where
  pub normals : Every (λ i s. Hosts m.scene_servers s.scene_server_id) m.normal_scenes
  pub copies : Every (λ i c. Hosts m.scene_servers c.scene_server_id) m.copy_scenes

insert-Hosts :
    (servers : Table ℕ ServerNode) (id : ℕ) (node : ServerNode) (other : ℕ)
    → Hosts servers other
    → Hosts (insert id node servers) other
insert-Hosts servers id node other h = ground (arith, find-insert id other node servers, h)

new_Hosts :
    (servers : Table ℕ ServerNode) (id : ℕ) (node : ServerNode) → Hosts (insert id node servers) id
new_Hosts servers id node = ground (arith, find-insert id id node servers, ==_iff id id)

-- One more server, or a changed one, leaves the scenes hosted.
more_servers :
    (m : SessionSceneManager) (id : ℕ) (node : ServerNode)
    → IsHosted m
    → IsHosted (record m { scene_servers = insert id node m.scene_servers })
more_servers m id node w = record {
  normals =
      map-Every _ _ m.normal_scenes (λ i s. insert-Hosts m.scene_servers id node s.scene_server_id)
        w.normals;
  copies =
      map-Every _ _ m.copy_scenes (λ i c. insert-Hosts m.scene_servers id node c.scene_server_id)
        w.copies;
}

adjust-IsHosted :
    (m : SessionSceneManager) (id : ℕ) (change : ServerNode → ServerNode)
    → IsHosted m
    → IsHosted (adjust_server m id change)
unfolding adjust_server
adjust-IsHosted m id change w = elim (Option-cases (find id m.scene_servers)) [
  | inl e ↦ rw (e, adjust_server) w
  | inr (node, e) ↦ rw (e, adjust_server) (more_servers m id (change node) w)
]

bind-IsHosted :
    (m : SessionSceneManager) (conn id : ℕ) → IsHosted m → IsHosted (bind_scene_server m conn id)
unfolding bind_scene_server
bind-IsHosted m conn id w =
    let w' = more_servers m id _ w in record { normals = w'.normals; copies = w'.copies }

bind-Hosts :
    (m : SessionSceneManager) (conn id : ℕ) → Hosts (bind_scene_server m conn id).scene_servers id
unfolding bind_scene_server
bind-Hosts m conn id = new_Hosts m.scene_servers id _

register-IsHosted :
    (m : SessionSceneManager) (conn : ℕ) (req : SceneRegisterReq)
    → IsHosted m
    → IsHosted (register_scene m conn req)
unfolding register_scene
register-IsHosted m conn req w =
    let bound = bind_scene_server m conn req.scene_server_id in
    let w' = bind-IsHosted m conn req.scene_server_id w in
    adjust-IsHosted _ req.scene_server_id count_up (record {
      normals =
          insert-Every (λ i s. Hosts bound.scene_servers s.scene_server_id) req.scene_instance_id _
            bound.normal_scenes (bind-Hosts m conn req.scene_server_id) w'.normals;
      copies = w'.copies;
    })

other_Hosts :
    (servers : Table ℕ ServerNode) (id other : ℕ)
    → Hosts servers other
    → other == id ≡ false
    → Hosts (erase id servers) other
other_Hosts servers id other h differs =
    ground (arith, find-erase id other servers, ==_iff id other, ==_iff other id, h, differs)

drop-IsHosted :
    (m : SessionSceneManager) (conn id : ℕ) → IsHosted m → IsHosted (drop_server m conn id)
unfolding drop_server
drop-IsHosted m conn id w = record {
  normals =
      erase_if-sifts _ _ (λ s. s.scene_server_id == id) m.normal_scenes
        (λ i s. other_Hosts m.scene_servers id s.scene_server_id) w.normals;
  copies =
      erase_if-sifts _ _ (λ c. c.scene_server_id == id) m.copy_scenes
        (λ i c. other_Hosts m.scene_servers id c.scene_server_id) w.copies;
}

unbind-IsHosted : (m : SessionSceneManager) (conn : ℕ) → IsHosted m → IsHosted (unbind_conn m conn)
unfolding unbind_conn
unbind-IsHosted m conn w = elim (Option-cases (find conn m.conn_to_server_id)) [
  | inl e ↦ rw (e, unbind_conn) w
  | inr (id, e) ↦ rw (e, unbind_conn) (drop-IsHosted m conn id w)
]

unregister-IsHosted :
    (m : SessionSceneManager) (instance_id server_id : ℕ)
    → IsHosted m
    → IsHosted (unregister_scene m instance_id server_id).1
unfolding unregister_scene
unregister-IsHosted m instance_id server_id w =
    elim (Bool-cases (is_there (find instance_id m.normal_scenes))) [
      | inl normal ↦ rw normal (
          adjust-IsHosted _ server_id count_down (record {
            normals = erase-Every _ instance_id m.normal_scenes w.normals;
            copies = w.copies;
          }))
      | inr other ↦ elim (Bool-cases (is_there (find instance_id m.copy_scenes))) [
        | inl there ↦
            rw (other, there)
              (adjust-IsHosted _ server_id count_down (record {
                normals = w.normals;
                copies = erase-Every _ instance_id m.copy_scenes w.copies;
              }))
        | inr nowhere ↦ rw (other, nowhere) w
      ]
    ]

create_copy_record-IsHosted :
    (m : SessionSceneManager) (server_id copy_id : ℕ) (req : CopyCreateReq)
    → IsHosted m
    → Hosts m.scene_servers server_id
    → IsHosted (create_copy_record m server_id copy_id req)
unfolding create_copy_record
create_copy_record-IsHosted m server_id copy_id req w h =
    adjust-IsHosted _ server_id count_up (record {
      normals = w.normals;
      copies =
          insert-Every (λ i c. Hosts m.scene_servers c.scene_server_id) copy_id _ m.copy_scenes h
            w.copies;
    })

set_counts-Every :
    (servers : Table ℕ ServerNode) (server_id map_id n : ℕ) (scenes : Table ℕ SessionScene)
    → Every (λ i s. Hosts servers s.scene_server_id) scenes
    → Every (λ i s. Hosts servers s.scene_server_id) (set_counts server_id map_id n scenes)
unfolding set_counts
set_counts-Every servers server_id map_id n [] h = tt
set_counts-Every servers server_id map_id n ((id, s) ∷ m) h =
    let later = set_counts-Every servers server_id map_id n m h.1 in
    elim (Bool-cases (s.scene_server_id == server_id && s.map_id == map_id)) [
      | inl chosen ↦ rw chosen (h.0, later)
      | inr other ↦ rw other (h.0, later)
    ]

pub data Call : Type 0 where
  binds : ℕ → ℕ → Call
  unbinds : ℕ → Call
  registers : ℕ → SceneRegisterReq → Call
  unregisters : ℕ → ℕ → Call
  creates : ℕ → ℕ → CopyCreateReq → Call
  generates : Call
  reports_map : ℕ → ℕ → ℕ → Call
  reports_server : ℕ → ℕ → Call

abbrev pub serve : SessionSceneManager → Call → SessionSceneManager
serve m (binds conn id) = bind_scene_server m conn id
serve m (unbinds conn) = unbind_conn m conn
serve m (registers conn req) = register_scene m conn req
serve m (unregisters instance_id server_id) = (unregister_scene m instance_id server_id).1
serve m (creates server_id copy_id req) = create_copy_record m server_id copy_id req
serve m generates = (generate_copy_instance_id m).1
serve m (reports_map server_id map_id n) = report_map_player_count m server_id map_id n
serve m (reports_server server_id n) = report_server_player_count m server_id n

-- A copy is recorded for a server that is known.
abbrev pub IsPlaceable : SessionSceneManager → Call → Type 0
IsPlaceable m (creates server_id copy_id req) = Hosts m.scene_servers server_id
IsPlaceable m _ = Unit {0}

-- Every call leaves every scene, normal or copy, on a server that is known, where it was so before
-- and a copy is recorded for a known server.
pub serve-IsHosted :
    (m : SessionSceneManager) (call : Call)
    → IsPlaceable m call
    → IsHosted m
    → IsHosted (serve m call)
unfolding generate_copy_instance_id report_map_player_count report_server_player_count
serve-IsHosted m (binds conn id) h w = bind-IsHosted m conn id w
serve-IsHosted m (unbinds conn) h w = unbind-IsHosted m conn w
serve-IsHosted m (registers conn req) h w = register-IsHosted m conn req w
serve-IsHosted m (unregisters instance_id server_id) h w =
    unregister-IsHosted m instance_id server_id w
serve-IsHosted m (creates server_id copy_id req) h w =
    create_copy_record-IsHosted m server_id copy_id req w h
serve-IsHosted m generates h w = record { normals = w.normals; copies = w.copies }
serve-IsHosted m (reports_map server_id map_id n) h w = adjust-IsHosted _ server_id _ (record {
  normals = set_counts-Every m.scene_servers server_id map_id n m.normal_scenes w.normals;
  copies = w.copies;
})
serve-IsHosted m (reports_server server_id n) h w = adjust-IsHosted m server_id _ w
