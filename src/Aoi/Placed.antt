-- ===== src/Aoi/Placed.antt =====
-- The tables of AOIServer.cpp agree: an entity stands in its cell and in no other.
use rpg_server.Base.{
  ℕ, ◌≡◌, inl, inr, Bool, true, false, Option, none, some, arith, ◌==◌, ==_iff, Bool-cases, nat_eq,
  contains, find, insert, find-insert, find-erase,
}
use rpg_server.Aoi.{
  Floats, Grid, same_grid, key, cell_of, put_in, take_out, Entity, MoveMsg, Server, grid_of,
  world_to_grid, entity_from, enter, leave, move,
}
use rpg_server.Aoi.Cells.{contains-put_in, contains-take_out}

abbrev pub present {ℓ} : {A : Type ℓ} → Option A → Bool
present none = false
present (some a) = true

module _ {f : Floats} where
  -- Whether the two tables of entities put an entity into the cell of a key.
  abbrev pub stands_in : ℕ → Option (Entity f) → Option Grid → Bool
  stands_in k none g = false
  stands_in k (some e) none = false
  stands_in k (some e) (some g) = key e.map_id g == k

  abbrev pub stands : Server f → ℕ → ℕ → Bool
  stands s id k = stands_in k (find id s.entities) (find id s.entity_grid)

  pub record IsPlaced (s : Server f) : Type 0 where
    pub cells : (k id : ℕ) → contains id (cell_of k s.grid_map) ≡ stands s id k
    pub named : (id : ℕ) (e : Entity f) → find id s.entities ≡ some e → e.entity_id ≡ id
    pub gridded : (id : ℕ) → present (find id s.entity_grid) ≡ present (find id s.entities)

  pub enter-IsPlaced :
      (s : Server f) (conn : ℕ) (req : MoveMsg f)
      → IsPlaced s
      → find req.entity_id s.entities ≡ none
      → IsPlaced (enter f s conn req)
  unfolding enter
  enter-IsPlaced s conn req p fresh = record {
    cells = λ k id.
        let g = world_to_grid f s req.map_id req.x req.z in
        let at = key req.map_id g in
        ground (
          arith,
          contains-put_in at k req.entity_id id s.grid_map,
          p.cells k id,
          find-insert req.entity_id id (entity_from f conn req) s.entities,
          find-insert req.entity_id id g s.entity_grid,
          ==_iff req.entity_id id,
          fresh,
        );
    named = λ id e h.
        ground (
          arith,
          find-insert req.entity_id id (entity_from f conn req) s.entities,
          p.named id e,
          h,
        );
    gridded = λ id. ground (
      arith,
      find-insert req.entity_id id (entity_from f conn req) s.entities,
      find-insert req.entity_id id (world_to_grid f s req.map_id req.x req.z) s.entity_grid,
      p.gridded id,
    );
  }

  pub leave-IsPlaced :
      (s : Server f) (id : ℕ) (e : Entity f)
      → IsPlaced s
      → find id s.entities ≡ some e
      → IsPlaced (leave f s id e)
  unfolding leave
  leave-IsPlaced s id e p here = record {
    cells = λ k other. ground (
      arith,
      contains-take_out (key e.map_id (grid_of f s id)) k id other s.grid_map,
      p.cells k other,
      find-erase id other s.entities,
      find-erase id other s.entity_grid,
      ==_iff id other,
      here,
      p.gridded id,
    );
    named = λ other x h. ground (arith, find-erase id other s.entities, p.named other x, h);
    gridded = λ other.
        ground (
          arith,
          find-erase id other s.entities,
          find-erase id other s.entity_grid,
          p.gridded other,
        );
  }

  abbrev stayed : Server f → Entity f → MoveMsg f → Server f
  stayed s e req = record s {
    entities = insert req.entity_id (record e { x = req.x; y = req.y; z = req.z }) s.entities;
  }

  abbrev gone : Server f → Entity f → MoveMsg f → Grid → Server f
  gone s e req new = record s {
    entities = insert req.entity_id (record e { x = req.x; y = req.y; z = req.z }) s.entities;
    grid_map =
        put_in (key e.map_id new) e.entity_id
          (take_out (key e.map_id (grid_of f s e.entity_id)) e.entity_id s.grid_map);
    entity_grid = insert e.entity_id new s.entity_grid;
  }

  stayed-IsPlaced :
      (s : Server f) (e : Entity f) (req : MoveMsg f)
      → IsPlaced s
      → find req.entity_id s.entities ≡ some e
      → IsPlaced (stayed s e req)
  stayed-IsPlaced s e req p here =
      let moved : Entity f = record e { x = req.x; y = req.y; z = req.z } in
      record {
        cells = λ k id. ground (
          arith,
          p.cells k id,
          find-insert req.entity_id id moved s.entities,
          ==_iff req.entity_id id,
          here,
        );
        named = λ id x h. ground (
          arith,
          find-insert req.entity_id id moved s.entities,
          ==_iff req.entity_id id,
          p.named id x,
          p.named req.entity_id e here,
          h,
        );
        gridded = λ id. ground (
          arith,
          find-insert req.entity_id id moved s.entities,
          ==_iff req.entity_id id,
          p.gridded id,
          here,
        );
      }

  gone-IsPlaced :
      (s : Server f) (e : Entity f) (req : MoveMsg f) (new : Grid)
      → IsPlaced s
      → find req.entity_id s.entities ≡ some e
      → IsPlaced (gone s e req new)
  gone-IsPlaced s e req new p here =
      let moved : Entity f = record e { x = req.x; y = req.y; z = req.z } in
      let old = key e.map_id (grid_of f s e.entity_id) in
      let named_here = p.named req.entity_id e here in
      record {
        cells = λ k id. ground (
          arith,
          contains-put_in (key e.map_id new) k e.entity_id id (take_out old e.entity_id s.grid_map),
          contains-take_out old k e.entity_id id s.grid_map,
          p.cells k id,
          find-insert req.entity_id id moved s.entities,
          find-insert e.entity_id id new s.entity_grid,
          ==_iff req.entity_id id,
          ==_iff e.entity_id id,
          p.gridded id,
          named_here,
          here,
        );
        named = λ id x h. ground (
          arith,
          find-insert req.entity_id id moved s.entities,
          ==_iff req.entity_id id,
          p.named id x,
          named_here,
          h,
        );
        gridded = λ id. ground (
          arith,
          find-insert req.entity_id id moved s.entities,
          find-insert e.entity_id id new s.entity_grid,
          ==_iff req.entity_id id,
          named_here,
          p.gridded id,
          here,
        );
      }

  pub move-IsPlaced :
      (s : Server f) (e : Entity f) (req : MoveMsg f)
      → IsPlaced s
      → find req.entity_id s.entities ≡ some e
      → IsPlaced (move f s e req)
  unfolding move
  move-IsPlaced s e req p here =
      let old = grid_of f s e.entity_id in
      let new = world_to_grid f s e.map_id req.x req.z in
      elim (Bool-cases (same_grid old new)) [
        | inl same ↦ rw same (stayed-IsPlaced s e req p here)
        | inr other ↦ rw other (gone-IsPlaced s e req new p here)
      ]
