-- ===== src/Aoi.antt =====
-- AOIServer/AOIServer.{h,cpp}: which entities stand in which cell of which map. Coordinates and cell
-- sizes are floats: their type, the test `> 0` and the cell of a coordinate are a parameter. A message
-- that is too short for its struct is `none`. What the server sends is part of the result.
pub mod Keys
pub mod Cells
pub mod Placed
pub mod Disconnect
pub mod Histories
mod Tests
use rpg_server.Base.{
  nat_eq, pos, negsuc, ℕ, ◌+◌, ◌*◌, ◌%◌, Bool, true, false, ◌&&◌, Option, none, some, List, [], ◌∷◌,
  ◌++◌, ◌==◌, if◌then◌else◌, set_insert, set_erase, ℤ, ◌+ℤ◌, eq_ℤ, low16, low32, Table, find,
  insert, erase,
}

-- Floats as the server uses them: `cell size x` is `(int)floorf(x / size)`.
pub record Floats : Type 1 where
  pub Coord : Type 0
  pub is_positive : Coord → Bool
  pub cell : Coord → Coord → ℤ

pub record Grid : Type 0 where
  pub gx : ℤ
  pub gz : ℤ

abbrev pub same_grid : Grid → Grid → Bool
same_grid g h = eq_ℤ g.gx h.gx && eq_ℤ g.gz h.gz

-- The key of a cell: 32 bits of map, 16 of gx, 16 of gz. The parts do not overlap, so `|` is `+`.
unfoldable pub key : ℕ → Grid → ℕ
key map_id g = map_id * 4294967296 + low16 g.gx * 65536 + low16 g.gz

-- The key that GetEntitiesInGrid makes, which casts gx to 32 bits before the shift.
unfoldable pub query_key : ℕ → Grid → ℕ
query_key map_id g = map_id * 4294967296 + (low32 g.gx * 65536) % 4294967296 + low16 g.gz

abbrev pub cell_of : ℕ → Table ℕ (List ℕ) → List ℕ
cell_of k m = elim (find k m) [ none ↦ [] | some ids ↦ ids ]

-- `m_gridMap[key].insert(id)` and `m_gridMap[key].erase(id)`.
unfoldable pub put_in : ℕ → ℕ → Table ℕ (List ℕ) → Table ℕ (List ℕ)
put_in k id m = insert k (set_insert id (cell_of k m)) m

unfoldable pub take_out : ℕ → ℕ → Table ℕ (List ℕ) → Table ℕ (List ℕ)
take_out k id m = insert k (set_erase id (cell_of k m)) m

-- The same without making a missing cell.
unfoldable pub take_out_if : ℕ → ℕ → Table ℕ (List ℕ) → Table ℕ (List ℕ)
take_out_if k id m = elim (find k m) [ none ↦ m | some ids ↦ insert k (set_erase id ids) m ]

-- GetNeighborGrids.
abbrev pub steps : List ℤ
steps = negsuc 0 ∷ pos 0 ∷ pos 1 ∷ []

unfoldable pub row : Grid → ℤ → List ℤ → List Grid
row g dz [] = []
row g dz (dx ∷ dxs) = record { gx = g.gx +ℤ dx; gz = g.gz +ℤ dz } ∷ row g dz dxs

unfoldable pub rows : Grid → List ℤ → List Grid
rows g [] = []
rows g (dz ∷ dzs) = row g dz steps ++ rows g dzs

unfoldable pub get_neighbor_grids : Grid → List Grid
unfolding row rows ◌+ℤ◌
get_neighbor_grids g = rows g steps

module _ (f : Floats) where
  open f use {Coord, is_positive, cell}

  pub record Entity : Type 0 where
    pub entity_id : ℕ
    pub map_id : ℕ
    pub x : Coord
    pub y : Coord
    pub z : Coord
    pub is_player : Bool
    pub scene_conn_id : ℕ

  -- Msg_AOI_Move, without the direction.
  pub record MoveMsg : Type 0 where
    pub entity_id : ℕ
    pub map_id : ℕ
    pub x : Coord
    pub y : Coord
    pub z : Coord
    pub entity_type : ℕ

  pub record SceneRegister : Type 0 where
    pub scene_instance_id : ℕ
    pub map_id : ℕ
    pub aoi_grid_size : Coord

  pub record Server : Type 0 where
    pub entities : Table ℕ Entity
    pub scenes : Table ℕ SceneRegister
    pub entity_grid : Table ℕ Grid
    pub grid_map : Table ℕ (List ℕ)
    pub default_grid_size : Coord
    pub map_grid_size : Table ℕ Coord

  -- AOI_VIEW_NOTIFY to a connection: an entity comes or goes, or a move is passed on.
  pub data Notice : Type 0 where
    view : ℕ → ℕ → Bool → Notice
    moved : ℕ → MoveMsg → Notice

  unfoldable pub grid_size_for_map : Server → ℕ → Coord
  grid_size_for_map s map_id = elim (find map_id s.map_grid_size) [
    | none ↦ s.default_grid_size
    | some size ↦ if is_positive size then size else s.default_grid_size
  ]

  unfoldable pub world_to_grid : Server → ℕ → Coord → Coord → Grid
  unfolding grid_size_for_map
  world_to_grid s map_id x z = record {
    gx = cell (grid_size_for_map s map_id) x;
    gz = cell (grid_size_for_map s map_id) z;
  }

  unfoldable pub get_entities_in_grid : Server → ℕ → Grid → List ℕ
  unfolding query_key
  get_entities_in_grid s map_id g = cell_of (query_key map_id g) s.grid_map

  unfoldable pub notify_view_change : Server → ℕ → Bool → List Notice
  notify_view_change s id enter = elim (find id s.entities) [
    | none ↦ []
    | some e ↦ view e.scene_conn_id id enter ∷ []
  ]

  -- `m_entityGrid[id]`: a missing entry is made, with the cell (0, 0).
  abbrev pub grid_of : Server → ℕ → Grid
  grid_of s id = elim (find id s.entity_grid) [
    | none ↦ record { gx = pos 0; gz = pos 0 }
    | some g ↦ g
  ]

  abbrev pub entity_from : ℕ → MoveMsg → Entity
  entity_from conn req = record {
    entity_id = req.entity_id;
    map_id = req.map_id;
    x = req.x;
    y = req.y;
    z = req.z;
    is_player = req.entity_type == 0;
    scene_conn_id = conn;
  }

  -- onEnter, for a whole message.
  unfoldable pub enter : Server → ℕ → MoveMsg → Server
  enter s conn req =
      let g = world_to_grid s req.map_id req.x req.z in
      record s {
        entities = insert req.entity_id (entity_from conn req) s.entities;
        grid_map = put_in (key req.map_id g) req.entity_id s.grid_map;
        entity_grid = insert req.entity_id g s.entity_grid;
      }

  unfoldable pub on_enter : Server → ℕ → Option MoveMsg → Server × List Notice
  unfolding enter notify_view_change
  on_enter s conn none = (s, [])
  on_enter s conn (some req) =
      (enter s conn req, notify_view_change (enter s conn req) req.entity_id true)

  -- The three tables without an entity.
  unfoldable pub leave : Server → ℕ → Entity → Server
  leave s id e = record s {
    entities = erase id s.entities;
    grid_map = take_out (key e.map_id (grid_of s id)) id s.grid_map;
    entity_grid = erase id s.entity_grid;
  }

  unfoldable pub remove_entity : Server → ℕ → Server
  remove_entity s id = elim (find id s.entities) [ none ↦ s | some e ↦ leave s id e ]

  unfoldable pub on_leave : Server → Option ℕ → Server × List Notice
  unfolding remove_entity notify_view_change
  on_leave s none = (s, [])
  on_leave s (some id) = (remove_entity s id, notify_view_change s id false)

  -- onMove, for an entity that is there.
  unfoldable pub move : Server → Entity → MoveMsg → Server
  move s e req =
      let old = grid_of s e.entity_id in
      let new = world_to_grid s e.map_id req.x req.z in
      let placed = insert req.entity_id (record e { x = req.x; y = req.y; z = req.z }) s.entities in
      if same_grid old new then record s { entities = placed } else record s {
        entities = placed;
        grid_map =
            put_in (key e.map_id new) e.entity_id
              (take_out (key e.map_id old) e.entity_id s.grid_map);
        entity_grid = insert e.entity_id new s.entity_grid;
      }

  unfoldable pub on_move : Server → ℕ → Option MoveMsg → Server × List Notice
  on_move s conn none = (s, [])
  on_move s conn (some req) = elim (find req.entity_id s.entities) [
    | none ↦ (s, [])
    | some e ↦ (move s e req, moved conn req ∷ [])
  ]

  -- The entities of a connection.
  unfoldable pub ids_of : ℕ → Table ℕ Entity → List ℕ
  ids_of conn [] = []
  ids_of conn ((id, e) ∷ m) =
      let rest = ids_of conn m in if e.scene_conn_id == conn then id ∷ rest else rest

  -- What OnDisconnect does to one entity: a missing cell is not made.
  unfoldable pub drop_cell : Server → ℕ → Entity → Server
  drop_cell s id e = elim (find id s.entity_grid) [
    | none ↦ s
    | some g ↦ record s {
      grid_map = take_out_if (key e.map_id g) id s.grid_map;
      entity_grid = erase id s.entity_grid;
    }
  ]

  unfoldable pub drop_entity : Server → ℕ → Server
  unfolding drop_cell
  drop_entity s id = elim (find id s.entities) [
    | none ↦ s
    | some e ↦ let s' = drop_cell s id e in record s' { entities = erase id s'.entities }
  ]

  unfoldable pub remove_all : Server → List ℕ → Server × List Notice
  unfolding drop_entity notify_view_change
  remove_all s [] = (s, [])
  remove_all s (id ∷ ids) =
      let (s', notices) = remove_all (drop_entity s id) ids in
      (s', notify_view_change s id false ++ notices)

  unfoldable pub on_disconnect : Server → ℕ → Server × List Notice
  unfolding ids_of remove_all
  on_disconnect s conn = remove_all s (ids_of conn s.entities)

  unfoldable pub on_scene_register : Server → Option SceneRegister → Server
  on_scene_register s none = s
  on_scene_register s (some req) = record s {
    scenes = insert req.scene_instance_id req s.scenes;
    map_grid_size =
        if is_positive req.aoi_grid_size
        then insert req.map_id req.aoi_grid_size s.map_grid_size
        else s.map_grid_size;
  }

  unfoldable pub on_scene_unregister : Server → Option ℕ → Server
  on_scene_unregister s none = s
  on_scene_unregister s (some id) = record s { scenes = erase id s.scenes }
