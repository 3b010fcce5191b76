-- ===== src/Session/Tests.antt =====
-- Two scene servers with their scenes, and calls on them.
use rpg_server.Base.{refl, true, [], ◌∷◌, nat_eq, find}
use rpg_server.Scenes.Scene.{Scene, normal, running}
use rpg_server.Scenes.Manager.{SceneManager}
use rpg_server.Session.{
  SessionScene, SessionCopyScene, ServerNode, SessionSceneManager, solo,
  resolve_scene_server_by_map_id,
}
use rpg_server.Session.Hosting.{IsHosted, unbinds, serve, serve-IsHosted}
use rpg_server.Session.Choice.{IsEmptiest, resolve-IsEmptiest}

abbrev busy : ServerNode
busy = record {
  conn_id = 11;
  scene_server_id = 1;
  scene_count = 2;
  player_count = 30;
  alive = true;
}

abbrev calm : ServerNode
calm = record { conn_id = 12; scene_server_id = 2; scene_count = 1; player_count = 5; alive = true }

abbrev town : SessionScene
town = record {
  scene_instance_id = 4294967301;
  scene_server_id = 1;
  map_id = 5;
  max_player = 50;
  player_count = 30;
  state = running;
}

abbrev cave : SessionCopyScene
cave = record {
  copy_instance_id = 4294967296;
  scene_server_id = 2;
  copy_type = solo;
  map_id = 8;
  owner_id = 700;
  max_player = 5;
  player_count = 1;
  state = running;
}

abbrev zone : SessionSceneManager
zone = record {
  scene_servers = (1, busy) ∷ (2, calm) ∷ [];
  conn_to_server_id = (11, 1) ∷ (12, 2) ∷ [];
  normal_scenes = (4294967301, town) ∷ [];
  copy_scenes = (4294967296, cave) ∷ [];
  next_copy_instance_id = 4294967301;
}

zone-IsHosted : IsHosted zone
unfolding find
zone-IsHosted = record { normals = (refl, tt); copies = (refl, tt) }

serve-IsHosted_example : IsHosted (serve zone (unbinds 12))
serve-IsHosted_example = serve-IsHosted zone (unbinds 12) tt zone-IsHosted

resolve-IsEmptiest_example : IsEmptiest zone 5 (resolve_scene_server_by_map_id zone 5)
resolve-IsEmptiest_example = resolve-IsEmptiest zone 5

abbrev main_scene : Scene
main_scene = record {
  kind = normal;
  scene_server_id = 1;
  scene_instance_id = 4294967301;
  map_id = 5;
  max_player = 50;
  state = running;
  players = [];
}

abbrev server_one : SceneManager
server_one = record {
  scenes = (4294967301, main_scene) ∷ [];
  map_id_to_instance = (5, 4294967301) ∷ [];
}
