-- ===== src/Scenes/Manager.antt =====
-- SceneServer/SceneManager.cpp: the scenes of a process by instance, and its normal scenes by map.
-- What the map table, the map directories and the geometry files hold are functions of the map's
-- number. A scene that is removed is shut down and dropped.
use rpg_server.Base.{
  ℕ, ◌+◌, ◌*◌, Bool, true, false, not, ◌&&◌, Option, none, some, List, [], ◌∷◌, ◌++◌, ◌==◌,
  if◌then◌else◌, nat_eq, Table, find, insert, erase,
}
use rpg_server.Scenes.Scene.{
  Scene, SceneKind, normal, copy, MapConfig, Event, new_scene, start, shutdown, is_normal,
}

pub record SceneManager : Type 0 where
  pub scenes : Table ℕ Scene
  pub map_id_to_instance : Table ℕ ℕ

-- makeNormalSceneInstanceId of protocal/InternalMsg.h; the map's number has 32 bits, so `|` is `+`.
unfoldable pub make_normal_scene_instance_id : ℕ → ℕ → ℕ
make_normal_scene_instance_id scene_server_id map_id = scene_server_id * 4294967296 + map_id

abbrev pub is_some {ℓ} : {A : Type ℓ} → Option A → Bool
is_some none = false
is_some (some a) = true

unfoldable pub find_scene : SceneManager → ℕ → Option Scene
find_scene m instance_id = find instance_id m.scenes

abbrev pub of_kind : SceneKind → Option Scene → Option Scene
of_kind k none = none
of_kind normal (some s) = if is_normal s.kind then some s else none
of_kind copy (some s) = if is_normal s.kind then none else some s

unfoldable pub find_normal_scene_by_map_id : SceneManager → ℕ → Option Scene
unfolding find_scene
find_normal_scene_by_map_id m map_id = elim (find map_id m.map_id_to_instance) [
  | none ↦ none
  | some instance_id ↦ of_kind normal (find_scene m instance_id)
]

unfoldable pub find_copy_scene : SceneManager → ℕ → Option Scene
unfolding find_scene
find_copy_scene m instance_id = of_kind copy (find_scene m instance_id)

unfoldable pub add_scene : SceneManager → Scene → Bool × SceneManager
add_scene m s =
    let id = s.scene_instance_id in
    if is_some (find id m.scenes)
    then (false, m)
    else if not (is_normal s.kind)
    then (true, record m { scenes = insert id s m.scenes })
    else if is_some (find s.map_id m.map_id_to_instance)
    then (false, m)
    else (
      true,
      record {
        scenes = insert id s m.scenes;
        map_id_to_instance = insert s.map_id id m.map_id_to_instance;
      },
    )

unfoldable pub remove_scene : SceneManager → ℕ → Bool × SceneManager × List Event
unfolding shutdown
remove_scene m instance_id = elim (find instance_id m.scenes) [
  | none ↦ (false, m, [])
  | some s ↦ (
    true,
    record {
      scenes = erase instance_id m.scenes;
      map_id_to_instance =
          if is_normal s.kind then erase s.map_id m.map_id_to_instance else m.map_id_to_instance;
    },
    (shutdown s).1,
  )
]

-- A new scene is started and, if that works, put into the tables.
unfoldable pub start_and_add : SceneManager → Scene → Bool → Bool × SceneManager × List Event
unfolding start
start_and_add m s loads =
    let (ok, s', events) = start s loads in
    let (added, m') = add_scene m s' in if not ok then (false, m, events) else (added, m', events)

pub record CopySceneDef : Type 0 where
  pub copy_instance_id : ℕ
  pub map_id : ℕ
  pub max_player : ℕ

-- createCopyScene: the copy that is there, or a new one; `table_max` is the map table's entry, taken
-- where the request gives no limit.
unfoldable pub create_copy_scene :
    SceneManager → ℕ → CopySceneDef → Option ℕ → Bool → Option Scene × SceneManager × List Event
create_copy_scene m server_id d table_max loads =
    let limit : ℕ = elim table_max [
      | none ↦ d.max_player
      | some n ↦ if d.max_player == 0 then n else d.max_player
    ] in
    let fresh =
      new_scene copy server_id d.copy_instance_id
        (record { map_id = d.map_id; max_player = limit }) in
    let (done, m', events) = start_and_add m fresh loads in
    if d.copy_instance_id == 0
    then (none, m, [])
    else if is_some (find d.copy_instance_id m.scenes)
    then (find_copy_scene m d.copy_instance_id, m, [])
    else (if done then find_copy_scene m' d.copy_instance_id else none, m', events)

-- An entry of the map table.
pub record MapTableEntry : Type 0 where
  pub max_player : ℕ
  pub enabled : Bool

-- What createNormalScenesFromConfig learns from outside: whether the map table was read, its entries,
-- the map directories, the geometry files.
pub record Maps : Type 0 where
  pub is_loaded : Bool
  pub entry : ℕ → Option MapTableEntry
  pub dir_exists : ℕ → Bool
  pub loads : ℕ → Bool

-- mergeMapConfig, and the default of 200.
abbrev pub resolved : Maps → MapConfig → MapConfig
resolved maps c =
    let table : ℕ = elim (maps.entry c.map_id) [ none ↦ 0 | some e ↦ e.max_player ] in
    let limit = if c.max_player == 0 then table else c.max_player in
    record c { max_player = if limit == 0 then 200 else limit }

-- Whether the map table lets a map be created: `none` for a map that is not in it.
abbrev pub admitted : Maps → ℕ → Option Bool
admitted maps id =
    if maps.is_loaded
    then elim (maps.entry id) [ none ↦ none | some e ↦ some e.enabled ]
    else some true

-- One round of createNormalScenesFromConfig: whether all is well, and the manager.
unfoldable pub create_normal :
    SceneManager → ℕ → Maps → MapConfig → Bool × SceneManager × List Event
create_normal m server_id maps c =
    let id = make_normal_scene_instance_id server_id c.map_id in
    let made =
      start_and_add m (new_scene normal server_id id (resolved maps c)) (maps.loads c.map_id) in
    elim (admitted maps c.map_id) [
      | none ↦ (false, m, [])
      | some false ↦ (true, m, [])
      | some true ↦ if maps.dir_exists c.map_id then made else (false, m, [])
    ]

unfoldable pub create_normal_scenes_from_config :
    SceneManager → ℕ → Maps → List MapConfig → Bool × SceneManager × List Event
create_normal_scenes_from_config m server_id maps [] = (true, m, [])
create_normal_scenes_from_config m server_id maps (c ∷ cs) =
    let (ok, m', events) = create_normal m server_id maps c in
    let (rest_ok, m'', events') = create_normal_scenes_from_config m' server_id maps cs in
    (ok && rest_ok, m'', events ++ events')
