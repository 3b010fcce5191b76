-- ===== src/Scenes/Scene.antt =====
-- SceneServer/Scene.{h,cpp}: a scene's life and its players. Whether the map's geometry loads is what
-- the files say, an argument. The callbacks onStarted and onStopped are events in the result. Names,
-- versions and the geometry itself are left out.
use rpg_server.Base.{
  ℕ, Bool, true, false, not, List, [], ◌∷◌, ◌++◌, ltb, leb, ◌==◌, if◌then◌else◌, nat_eq, contains,
  length,
}

pub data SceneKind : Type 0 where
  normal copy : SceneKind

pub data SceneState : Type 0 where
  creating running closing closed : SceneState

pub record MapConfig : Type 0 where
  pub map_id : ℕ
  pub max_player : ℕ

pub record Scene : Type 0 where
  pub kind : SceneKind
  pub scene_server_id : ℕ
  pub scene_instance_id : ℕ
  pub map_id : ℕ
  pub max_player : ℕ
  pub state : SceneState
  pub players : List ℕ

pub data Event : Type 0 where
  started stopped : ℕ → Event

abbrev pub is_running : SceneState → Bool
is_running running = true
is_running _ = false

abbrev pub is_ending : SceneState → Bool
is_ending closing = true
is_ending closed = true
is_ending _ = false

abbrev pub is_normal : SceneKind → Bool
is_normal normal = true
is_normal copy = false

-- Scene::Scene.
unfoldable pub new_scene : SceneKind → ℕ → ℕ → MapConfig → Scene
new_scene kind server_id instance_id cfg = record {
  kind = kind;
  scene_server_id = server_id;
  scene_instance_id = instance_id;
  map_id = cfg.map_id;
  max_player = if ltb 0 cfg.max_player then cfg.max_player else 200;
  state = creating;
  players = [];
}

unfoldable pub load_resources : Scene → Bool → Bool × Scene
load_resources s loads = (loads, record s { state = creating })

unfoldable pub start : Scene → Bool → Bool × Scene × List Event
unfolding load_resources
start s loads =
    let (loaded, s') = load_resources s loads in
    if is_running s.state
    then (true, s, [])
    else if not loaded
    then (false, s', [])
    else (true, record s' { state = running }, started s.scene_instance_id ∷ [])

unfoldable pub shutdown : Scene → Scene × List Event
shutdown s =
    if is_ending s.state
    then (s, [])
    else (record s { state = closed; players = [] }, stopped s.scene_instance_id ∷ [])

-- `players.erase(it)`, at the first place that `std::find` gives.
unfoldable pub erase_first : ℕ → List ℕ → List ℕ
erase_first x [] = []
erase_first x (y ∷ ys) = if y == x then ys else y ∷ erase_first x ys

-- `std::find(players.begin(), players.end(), userId) != players.end()`.
unfoldable pub has_player : Scene → ℕ → Bool
unfolding contains
has_player s user_id = contains user_id s.players

unfoldable pub add_player : Scene → ℕ → Bool × Scene
unfolding has_player
add_player s user_id =
    if has_player s user_id
    then (false, s)
    else if leb s.max_player (length s.players)
    then (false, s)
    else (true, record s { players = s.players ++ user_id ∷ [] })

unfoldable pub remove_player : Scene → ℕ → Bool × Scene
unfolding contains erase_first
remove_player s user_id =
    if contains user_id s.players
    then (true, record s { players = erase_first user_id s.players })
    else (false, s)
