-- ===== src/Session/Copies.antt =====
-- Copies, their numbers and lost connections in SessionServer/SessionSceneManager.cpp.
use rpg_server.Base.{
  ℕ, ◌+◌, ◌*◌, ◌<◌, ◌≡◌, refl, subst, ◌≢◌, inl, inr, Bool, true, false, Option, none, some, [], ◌∷◌,
  arith, ◌==◌, ==_iff, Bool-cases, nat_eq, Table, find, insert, find-insert, find-erase, u32_mod,
}
use rpg_server.Scenes.Scene.{Scene, is_running, is_normal}
use rpg_server.Scenes.Manager.{
  SceneManager, make_normal_scene_instance_id, create_copy_scene, find_copy_scene, find_scene,
}
use rpg_server.Session.{
  same_copy_type, bound_node, SessionCopyScene, CopyType, can_reuse, ServerNode,
  SessionSceneManager, bind_scene_server, drop_server, unbind_conn, find_conn_by_scene_server_id,
  first_reusable, find_reusable_copy, generate_copy_instance_id,
}

bound_node-conn :
    (o : Option ServerNode) (conn id : ℕ)
    → ((bound_node conn id o).conn_id ≡ conn) × ((bound_node conn id o).alive ≡ true)
bound_node-conn none conn id = (refl, refl)
bound_node-conn (some node) conn id = (refl, refl)

find-inserted : {V : Type 0} (k : ℕ) (v : V) (m : Table ℕ V) → find k (insert k v m) ≡ some v
find-inserted k v m = ground (arith, find-insert k k v m, ==_iff k k)

-- The last connection that a server was bound to is the one that it is found by.
pub find_conn-bind :
    (m : SessionSceneManager) (conn id : ℕ)
    → find_conn_by_scene_server_id (bind_scene_server m conn id) id ≡ conn
unfolding find_conn_by_scene_server_id bind_scene_server
find_conn-bind m conn id =
    let node = bound_node conn id (find id m.scene_servers) in
    let found : find id (insert id node m.scene_servers) ≡ some node =
      find-inserted id node m.scene_servers in
    let (same, live) = bound_node-conn (find id m.scene_servers) conn id in
    rw (found, live, find_conn_by_scene_server_id, bind_scene_server) same

dropped-conn :
    (m : SessionSceneManager) (conn id : ℕ)
    → find conn m.conn_to_server_id ≡ some id
    → find_conn_by_scene_server_id (unbind_conn m conn) id ≡ 0
unfolding find_conn_by_scene_server_id unbind_conn drop_server
dropped-conn m conn id e =
    rw (e, unbind_conn) (ground (arith, find-erase id id m.scene_servers, ==_iff id id))

-- A server that reconnects before its old connection is reported lost is dropped then: it was found by
-- its new connection, and is not found any more.
unbind_stale :
    (m : SessionSceneManager) (old new id : ℕ)
    → old ≢ new
    → (find_conn_by_scene_server_id (bind_scene_server (bind_scene_server m old id) new id) id
        ≡ new)
      × (find_conn_by_scene_server_id
            (unbind_conn (bind_scene_server (bind_scene_server m old id) new id) old)
            id
          ≡ 0)
unfolding bind_scene_server
unbind_stale m old new id h =
    let once = bind_scene_server m old id in
    let twice = bind_scene_server once new id in
    let first : find old once.conn_to_server_id ≡ some id =
      find-inserted old id m.conn_to_server_id in
    let here : find old twice.conn_to_server_id ≡ some id =
      ground (arith, find-insert new old id once.conn_to_server_id, ==_iff new old, h, first) in
    (find_conn-bind (bind_scene_server m old id) new id, dropped-conn twice old id here)

first_reusable-fits :
    (type : CopyType) (map_id owner : ℕ) (m : Table ℕ SessionCopyScene) (c : SessionCopyScene)
    → first_reusable type map_id owner m ≡ some c
    → can_reuse c type map_id owner ≡ true
unfolding first_reusable
first_reusable-fits type map_id owner [] c h = cc
first_reusable-fits type map_id owner ((id, d) ∷ m) c h =
    elim (Bool-cases (can_reuse d type map_id owner)) [
      | inl fits ↦
          let same : some d ≡ some c = rw fits at h in
          subst (λ o. elim o [ none ↦ Unit {0} | some x ↦ can_reuse x type map_id owner ≡ true ])
            same fits
      | inr other ↦ first_reusable-fits type map_id owner m c (rw other at h)
    ]

-- A copy that is used again is of the type, the map and the owner that were asked for, runs, and has
-- room for a player.
find_reusable_lem :
    (m : SessionSceneManager) (type : CopyType) (map_id owner : ℕ) (c : SessionCopyScene)
    → find_reusable_copy m type map_id owner ≡ some c
    → (is_running c.state ≡ true)
      × (same_copy_type c.copy_type type ≡ true)
      × (c.map_id ≡ map_id)
      × (c.owner_id ≡ owner)
      × (c.player_count < c.max_player)
unfolding find_reusable_copy can_reuse
find_reusable_lem m type map_id owner c h =
    let fits = first_reusable-fits type map_id owner m.copy_scenes c h in
    (ground arith, ground arith, ground arith, ground arith, ground arith)

-- Numbers of copies start at 2^32, and number 2^32 + map is also that of the normal scene of a map on
-- server 1: when generateCopyInstanceId comes to it, the server that runs that scene creates no copy.
copy_id_taken :
    (m : SessionSceneManager) (scenes : SceneManager) (s : Scene) (map_id limit : ℕ) (loads : Bool)
    → map_id < u32_mod
    → m.next_copy_instance_id ≡ 4294967296 + map_id
    → find (make_normal_scene_instance_id 1 map_id) scenes.scenes ≡ some s
    → is_normal s.kind ≡ true
    → create_copy_scene scenes 1
        (record {
          copy_instance_id = (generate_copy_instance_id m).0;
          map_id = map_id;
          max_player = limit;
        })
        none
        loads
      ≡ (none, scenes, [])
unfolding generate_copy_instance_id make_normal_scene_instance_id create_copy_scene find_copy_scene
    find_scene
copy_id_taken m scenes s map_id limit loads h next there kind =
    let same : 1 * 4294967296 + map_id ≡ m.next_copy_instance_id = omega arith in
    let found : find m.next_copy_instance_id scenes.scenes ≡ some s =
      subst (λ i. find i scenes.scenes ≡ some s) same there in
    let real : m.next_copy_instance_id == 0 ≡ false = ground arith in
    rw (found, real, kind, create_copy_scene, find_copy_scene) refl
