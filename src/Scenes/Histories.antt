-- ===== src/Scenes/Histories.antt =====
-- Whole histories of calls on SceneServer/SceneManager.cpp, and what a lookup by map gives.
use rpg_server.Base.{
  ℕ, ◌≡◌, subst, ◌≢◌, inl, inr, Bool, true, Option, none, some, List, [], ◌∷◌, ◌==◌, Bool-cases,
  Option-cases, nat_eq, find,
}
use rpg_server.Scenes.Scene.{Scene, normal, MapConfig, new_scene, is_normal}
use rpg_server.Scenes.Manager.{
  SceneManager, find_normal_scene_by_map_id, remove_scene, is_some, create_copy_scene,
  create_normal, create_normal_scenes_from_config, Maps, CopySceneDef,
  make_normal_scene_instance_id, resolved, admitted,
}
use rpg_server.Scenes.Index.{IsIndexed, remove_scene-IsIndexed, start_and_add-IsIndexed}

create_normal-IsIndexed :
    (m : SceneManager) (server_id : ℕ) (maps : Maps) (c : MapConfig)
    → IsIndexed m
    → IsIndexed (create_normal m server_id maps c).1
unfolding create_normal
create_normal-IsIndexed m server_id maps c w = elim (Option-cases (admitted maps c.map_id)) [
  | inl e ↦ rw (e, create_normal) w
  | inr (b, e) ↦ elim (Bool-cases b) [
    | inr off ↦ rw (e, off, create_normal) w
    | inl on ↦ elim (Bool-cases (maps.dir_exists c.map_id)) [
      | inr no_dir ↦ rw (e, on, no_dir, create_normal) w
      | inl dir ↦
          rw (e, on, dir, create_normal)
            (start_and_add-IsIndexed m
              (new_scene normal server_id (make_normal_scene_instance_id server_id c.map_id)
                (resolved maps c))
              (maps.loads c.map_id) w)
    ]
  ]
]

config-IsIndexed :
    (m : SceneManager) (server_id : ℕ) (maps : Maps) (cs : List MapConfig)
    → IsIndexed m
    → IsIndexed (create_normal_scenes_from_config m server_id maps cs).1
unfolding create_normal_scenes_from_config
config-IsIndexed m server_id maps [] w = w
config-IsIndexed m server_id maps (c ∷ cs) w =
    config-IsIndexed (create_normal m server_id maps c).1 server_id maps cs
      (create_normal-IsIndexed m server_id maps c w)

create_copy-IsIndexed :
    (m : SceneManager) (server_id : ℕ) (d : CopySceneDef) (table_max : Option ℕ) (loads : Bool)
    → IsIndexed m
    → IsIndexed (create_copy_scene m server_id d table_max loads).1
unfolding create_copy_scene
create_copy-IsIndexed m server_id d table_max loads w =
    elim (Bool-cases (d.copy_instance_id == 0)) [
      | inl none_given ↦ rw none_given w
      | inr given ↦ elim (Bool-cases (is_some (find d.copy_instance_id m.scenes))) [
        | inl there ↦ rw (given, there) w
        | inr new ↦ rw (given, new) (start_and_add-IsIndexed m _ loads w)
      ]
    ]

pub data Call : Type 0 where
  configures : ℕ → Maps → List MapConfig → Call
  creates_copy : ℕ → CopySceneDef → Option ℕ → Bool → Call
  removes : ℕ → Call

abbrev pub serve : SceneManager → Call → SceneManager
serve m (configures server_id maps cs) = (create_normal_scenes_from_config m server_id maps cs).1
serve m (creates_copy server_id d table_max loads) =
    (create_copy_scene m server_id d table_max loads).1
serve m (removes instance_id) = (remove_scene m instance_id).1

abbrev pub serve_all : SceneManager → List Call → SceneManager
serve_all m [] = m
serve_all m (call ∷ calls) = serve_all (serve m call) calls

serve-IsIndexed : (m : SceneManager) (call : Call) → IsIndexed m → IsIndexed (serve m call)
serve-IsIndexed m (configures server_id maps cs) w = config-IsIndexed m server_id maps cs w
serve-IsIndexed m (creates_copy server_id d table_max loads) w =
    create_copy-IsIndexed m server_id d table_max loads w
serve-IsIndexed m (removes instance_id) w = remove_scene-IsIndexed m instance_id w

-- Through any history of calls of SceneManager, whatever files there are and whatever fails to load,
-- the index by map names exactly the normal scenes of the table, each under its own map.
pub serve_all-IsIndexed :
    (calls : List Call) (m : SceneManager) → IsIndexed m → IsIndexed (serve_all m calls)
serve_all-IsIndexed [] m w = w
serve_all-IsIndexed (call ∷ calls) m w =
    serve_all-IsIndexed calls (serve m call) (serve-IsIndexed m call w)

-- What a lookup by map should give: a normal scene of that map, which is in the table; or none,
-- where the table has no such scene.
abbrev pub Looks : SceneManager → ℕ → Option Scene → Type 0
Looks m map_id none =
    (i : ℕ) (s : Scene) → find i m.scenes ≡ some s → is_normal s.kind ≡ true → s.map_id ≢ map_id
Looks m map_id (some s) =
    (is_normal s.kind ≡ true) × (s.map_id ≡ map_id) × ((i : ℕ) × (find i m.scenes ≡ some s))

-- Where the index is right, findNormalSceneByMapId finds a normal scene of the map exactly where
-- there is one.
find_normal-Looks :
    (m : SceneManager) (map_id : ℕ)
    → IsIndexed m
    → Looks m map_id (find_normal_scene_by_map_id m map_id)
unfolding find_normal_scene_by_map_id
find_normal-Looks m map_id w = elim (Option-cases (find map_id m.map_id_to_instance)) [
  | inl e ↦
      rw (e, find_normal_scene_by_map_id)
        (λ i s found kind same.
          let q : find s.map_id m.map_id_to_instance ≡ some i = w.full i s found kind in
          let r : find map_id m.map_id_to_instance ≡ some i =
            subst (λ x. find x m.map_id_to_instance ≡ some i) same q in
          cc (e, r))
  | inr (i, e) ↦
      let (s, found, kind, same) = w.sound map_id i e in
      rw (e, found, kind, find_normal_scene_by_map_id) (kind, same, (i, found))
]
