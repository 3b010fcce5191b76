-- ===== src/Scenes/Tests.antt =====
-- A scene with players and a manager with scenes, and calls on them.
use rpg_server.Base.{refl, true, none, some, List, [], ◌∷◌, arith, ◌==◌, nat_eq, contains}
use rpg_server.Scenes.Scene.{Scene, normal, running}
use rpg_server.Scenes.Players.{IsSeated}
use rpg_server.Scenes.Manager.{SceneManager, Maps, CopySceneDef}
use rpg_server.Scenes.Index.{IsIndexed, empty-IsIndexed}
use rpg_server.Scenes.Histories.{
  Call, configures, creates_copy, removes, serve_all, serve_all-IsIndexed,
}

abbrev town : Scene
town = record {
  kind = normal;
  scene_server_id = 1;
  scene_instance_id = 4294967301;
  map_id = 5;
  max_player = 3;
  state = running;
  players = 10 ∷ 11 ∷ [];
}

town-IsSeated : IsSeated town
unfolding contains
town-IsSeated = record { once = (refl, (refl, tt)); bounded = omega arith }

-- Maps 5 and 6 are open, the geometry of 6 does not load.
abbrev maps : Maps
maps = record {
  is_loaded = true;
  entry = λ id. some (record { max_player = 50; enabled = true });
  dir_exists = λ id. true;
  loads = λ id. id == 5;
}

abbrev nothing_yet : SceneManager
nothing_yet = record { scenes = []; map_id_to_instance = [] }

abbrev team : CopySceneDef
team = record { copy_instance_id = 99; map_id = 5; max_player = 5 }

abbrev evening : List Call
evening =
    configures 1 maps
      (record { map_id = 5; max_player = 0 } ∷ record { map_id = 6; max_player = 0 } ∷ [])
    ∷ creates_copy 1 team none true
    ∷ removes 99
    ∷ []

serve_all-IsIndexed_example : IsIndexed (serve_all nothing_yet evening)
serve_all-IsIndexed_example = serve_all-IsIndexed evening nothing_yet empty-IsIndexed
