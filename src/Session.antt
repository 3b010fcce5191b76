-- ===== src/Session.antt =====
-- SessionServer/SessionSceneManager.cpp, with SessionScene.h and SessionCopyScene.h: which SceneServer
-- runs which scenes, on which connection. Map names are left out. A walk over a table that looks for
-- the least loaded server is `least_from` over what each entry offers.
pub mod Hosting
pub mod Choice
pub mod Copies
mod Tests
use rpg_server.Base.{
  ℕ, ◌+◌, ◌-◌, ◌*◌, ◌/◌, Bool, true, false, not, ◌&&◌, ◌||◌, Option, none, some, [], ◌∷◌, arith,
  ltb, leb, ◌==◌, if◌then◌else◌, Eq, nat_eq, Table, find, insert, erase, erase_if, u32, u64,
}
use rpg_server.Scenes.Scene.{SceneState, creating, running, is_running}

pub record SessionScene : Type 0 where
  pub scene_instance_id : ℕ
  pub scene_server_id : ℕ
  pub map_id : ℕ
  pub max_player : ℕ
  pub player_count : ℕ
  pub state : SceneState

pub data CopyType : Type 0 where
  team solo guild : CopyType

abbrev pub same_copy_type : CopyType → CopyType → Bool
same_copy_type team team = true
same_copy_type solo solo = true
same_copy_type guild guild = true
same_copy_type _ _ = false

pub record SessionCopyScene : Type 0 where
  pub copy_instance_id : ℕ
  pub scene_server_id : ℕ
  pub copy_type : CopyType
  pub map_id : ℕ
  pub owner_id : ℕ
  pub max_player : ℕ
  pub player_count : ℕ
  pub state : SceneState

abbrev pub is_full : SessionCopyScene → Bool
is_full c = leb c.max_player c.player_count

unfoldable pub can_reuse : SessionCopyScene → CopyType → ℕ → ℕ → Bool
can_reuse c type map_id owner =
    is_running c.state
    && same_copy_type c.copy_type type
    && c.map_id == map_id
    && c.owner_id == owner
    && not (is_full c)

pub record ServerNode : Type 0 where
  pub conn_id : ℕ
  pub scene_server_id : ℕ
  pub scene_count : ℕ
  pub player_count : ℕ
  pub alive : Bool

pub record SessionSceneManager : Type 0 where
  pub scene_servers : Table ℕ ServerNode
  pub conn_to_server_id : Table ℕ ℕ
  pub normal_scenes : Table ℕ SessionScene
  pub copy_scenes : Table ℕ SessionCopyScene
  pub next_copy_instance_id : ℕ

pub record SceneRegisterReq : Type 0 where
  pub scene_server_id : ℕ
  pub scene_instance_id : ℕ
  pub map_id : ℕ
  pub max_player : ℕ

pub record CopyCreateReq : Type 0 where
  pub copy_type : CopyType
  pub map_id : ℕ
  pub owner_id : ℕ
  pub max_player : ℕ

-- The node of a server that is bound to a connection, given the one that it had.
abbrev pub bound_node : ℕ → ℕ → Option ServerNode → ServerNode
bound_node conn id (some old) = record old { conn_id = conn; alive = true }
bound_node conn id none = record {
  conn_id = conn;
  scene_server_id = id;
  scene_count = 0;
  player_count = 0;
  alive = true;
}

unfoldable pub bind_scene_server : SessionSceneManager → ℕ → ℕ → SessionSceneManager
bind_scene_server m conn id = record m {
  scene_servers = insert id (bound_node conn id (find id m.scene_servers)) m.scene_servers;
  conn_to_server_id = insert conn id m.conn_to_server_id;
}

-- What unbindConn does once it has found the server.
unfoldable pub drop_server : SessionSceneManager → ℕ → ℕ → SessionSceneManager
drop_server m conn id = record m {
  scene_servers = erase id m.scene_servers;
  conn_to_server_id = erase conn m.conn_to_server_id;
  normal_scenes = erase_if (λ s. s.scene_server_id == id) m.normal_scenes;
  copy_scenes = erase_if (λ c. c.scene_server_id == id) m.copy_scenes;
}

unfoldable pub unbind_conn : SessionSceneManager → ℕ → SessionSceneManager
unbind_conn m conn = elim (find conn m.conn_to_server_id) [
  | none ↦ m
  | some id ↦ drop_server m conn id
]

-- INVALID_CONN_ID is 0.
unfoldable pub find_conn_by_scene_server_id : SessionSceneManager → ℕ → ℕ
find_conn_by_scene_server_id m id = elim (find id m.scene_servers) [
  | none ↦ 0
  | some node ↦ if node.alive then node.conn_id else 0
]

-- adjustServerSceneCount with a delta of 1 and of -1.
abbrev pub count_up : ServerNode → ServerNode
count_up node = record node { scene_count = u32 (node.scene_count + 1) }

abbrev pub count_down : ServerNode → ServerNode
count_down node = record node { scene_count = node.scene_count - 1 }

unfoldable pub adjust_server :
    SessionSceneManager → ℕ → (ServerNode → ServerNode) → SessionSceneManager
adjust_server m id change = elim (find id m.scene_servers) [
  | none ↦ m
  | some node ↦ record m { scene_servers = insert id (change node) m.scene_servers }
]

unfoldable pub register_scene : SessionSceneManager → ℕ → SceneRegisterReq → SessionSceneManager
register_scene m conn req =
    let bound = bind_scene_server m conn req.scene_server_id in
    let scene : SessionScene = record {
      scene_instance_id = req.scene_instance_id;
      scene_server_id = req.scene_server_id;
      map_id = req.map_id;
      max_player = req.max_player;
      player_count = 0;
      state = running;
    } in
    adjust_server
      (record bound { normal_scenes = insert req.scene_instance_id scene bound.normal_scenes })
      req.scene_server_id count_up

abbrev pub is_there {ℓ} : {A : Type ℓ} → Option A → Bool
is_there none = false
is_there (some a) = true

unfoldable pub unregister_scene : SessionSceneManager → ℕ → ℕ → Bool × SessionSceneManager
unregister_scene m instance_id server_id =
    if is_there (find instance_id m.normal_scenes)
    then (
      true,
      adjust_server (record m { normal_scenes = erase instance_id m.normal_scenes }) server_id
          count_down,
    )
    else if is_there (find instance_id m.copy_scenes)
    then (
      true,
      adjust_server (record m { copy_scenes = erase instance_id m.copy_scenes }) server_id
          count_down,
    )
    else (false, m)

-- The first copy of the table that can be used again.
unfoldable pub first_reusable :
    CopyType → ℕ → ℕ → Table ℕ SessionCopyScene → Option SessionCopyScene
unfolding can_reuse
first_reusable type map_id owner [] = none
first_reusable type map_id owner ((id, c) ∷ m) =
    let rest = first_reusable type map_id owner m in
    if can_reuse c type map_id owner then some c else rest

unfoldable pub find_reusable_copy : SessionSceneManager → CopyType → ℕ → ℕ → Option SessionCopyScene
unfolding first_reusable
find_reusable_copy m type map_id owner = first_reusable type map_id owner m.copy_scenes

unfoldable pub create_copy_record :
    SessionSceneManager → ℕ → ℕ → CopyCreateReq → SessionSceneManager
create_copy_record m server_id copy_id req =
    let c : SessionCopyScene = record {
      copy_instance_id = copy_id;
      scene_server_id = server_id;
      copy_type = req.copy_type;
      map_id = req.map_id;
      owner_id = req.owner_id;
      max_player = req.max_player;
      player_count = 0;
      state = running;
    } in
    adjust_server (record m { copy_scenes = insert copy_id c m.copy_scenes }) server_id count_up

-- The better of an offer, a server and its weight, and the one at hand, which wins a tie.
abbrev pub next_best : Option (ℕ × ℕ) → ℕ × ℕ → ℕ × ℕ
next_best none best = best
next_best (some (server_id, weight)) best = if ltb weight best.1 then (server_id, weight) else best

-- The best that the entries of a table offer.
unfoldable pub least_from {ℓ} : {V : Type ℓ} → (V → Option (ℕ × ℕ)) → ℕ × ℕ → Table ℕ V → ℕ × ℕ
least_from offer best [] = best
least_from offer best ((k, v) ∷ m) = least_from offer (next_best (offer v) best) m

-- What a scene offers to resolveSceneServerByMapId.
unfoldable pub scene_offer : SessionSceneManager → ℕ → SessionScene → Option (ℕ × ℕ)
scene_offer m map_id s =
    if not (s.map_id == map_id) || not (is_running s.state)
    then none
    else elim (find s.scene_server_id m.scene_servers) [
      | none ↦ none
      | some node ↦ if node.alive then some (s.scene_server_id, s.player_count) else none
    ]

unfoldable pub resolve_scene_server_by_map_id : SessionSceneManager → ℕ → ℕ
unfolding least_from scene_offer
resolve_scene_server_by_map_id m map_id =
    (least_from (scene_offer m map_id) (0, 4294967295) m.normal_scenes).0

-- What a server offers to pickSceneServerId.
unfoldable pub server_offer : ServerNode → Option (ℕ × ℕ)
server_offer node =
    if not node.alive || node.conn_id == 0
    then none
    else some (node.scene_server_id, u32 (node.scene_count * 10 + node.player_count))

unfoldable pub pick_scene_server_id : SessionSceneManager → ℕ
unfolding least_from server_offer
pick_scene_server_id m = (least_from server_offer (0, 4294967295) m.scene_servers).0

unfoldable pub generate_copy_instance_id : SessionSceneManager → ℕ × SessionSceneManager
generate_copy_instance_id m = (
  m.next_copy_instance_id,
  record m { next_copy_instance_id = u64 (m.next_copy_instance_id + 1) },
)

unfoldable pub set_counts : ℕ → ℕ → ℕ → Table ℕ SessionScene → Table ℕ SessionScene
set_counts server_id map_id n [] = []
set_counts server_id map_id n ((id, s) ∷ m) =
    let rest = set_counts server_id map_id n m in
    if s.scene_server_id == server_id && s.map_id == map_id
    then (id, record s { player_count = n }) ∷ rest
    else (id, s) ∷ rest

unfoldable pub report_map_player_count : SessionSceneManager → ℕ → ℕ → ℕ → SessionSceneManager
unfolding set_counts
report_map_player_count m server_id map_id n =
    adjust_server (record m { normal_scenes = set_counts server_id map_id n m.normal_scenes })
      server_id
      (λ node. record node {
        player_count = if ltb node.player_count n then n else node.player_count;
      })

unfoldable pub report_server_player_count : SessionSceneManager → ℕ → ℕ → SessionSceneManager
report_server_player_count m server_id n =
    adjust_server m server_id (λ node. record node { player_count = n })
