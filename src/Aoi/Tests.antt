-- ===== src/Aoi/Tests.antt =====
-- A server with whole numbers for coordinates, and messages to it.
use rpg_server.Base.{ℕ, ◌/◌, refl, some, [], ltb, ◌==◌, if◌then◌else◌, nat_eq, contains, find}
use rpg_server.Aoi.{pos, Floats, Grid, MoveMsg, Server, enter}
use rpg_server.Aoi.Placed.{IsPlaced, enter-IsPlaced}
use rpg_server.Aoi.Histories.{enters, serve, serve-IsPlaced}

abbrev whole : Floats
whole = record {
  Coord = ℕ;
  is_positive = λ n. ltb 0 n;
  cell = λ size x. pos (if size == 0 then 0 else x / size);
}

abbrev bare : Server whole
bare = record {
  entities = [];
  scenes = [];
  entity_grid = [];
  grid_map = [];
  default_grid_size = 200;
  map_grid_size = [];
}

bare-IsPlaced : IsPlaced bare
unfolding contains find
bare-IsPlaced = record { cells = λ k id. refl; named = λ id e h. cc; gridded = λ id. refl }

abbrev arrive : MoveMsg whole
arrive = record { entity_id = 9; map_id = 1; x = 250; y = 0; z = 10; entity_type = 0 }

abbrev depart : MoveMsg whole
depart = record { entity_id = 9; map_id = 1; x = 850; y = 0; z = 10; entity_type = 0 }

serve-IsPlaced_example : IsPlaced (serve bare (enters 3 (some arrive)))
unfolding find
serve-IsPlaced_example = serve-IsPlaced bare (enters 3 (some arrive)) refl bare-IsPlaced

abbrev one : Server whole
one = enter whole bare 3 arrive

one-IsPlaced : IsPlaced one
unfolding find
one-IsPlaced = enter-IsPlaced bare 3 arrive bare-IsPlaced refl

abbrev spot : Grid
spot = record { gx = pos 1; gz = pos 0 }

abbrev far : Grid
far = record { gx = pos 65537; gz = pos 0 }

abbrev map_one : ℕ
map_one = 1
