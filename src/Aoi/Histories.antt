-- ===== src/Aoi/Histories.antt =====
-- The messages that AOIServer.cpp serves, one after another, and an entity that enters twice.
use rpg_server.Base.{
  ℕ, ◌≡◌, refl, sym, ap, ◌∙◌, ◌≢◌, inl, inr, true, false, Option, none, some, arith, ==_iff,
  Option-cases, nat_eq, contains, find, find-insert,
}
use rpg_server.Aoi.{
  Floats, Grid, key, cell_of, MoveMsg, SceneRegister, Server, world_to_grid, entity_from,
  get_entities_in_grid, enter, on_enter, remove_entity, on_leave, on_move, on_disconnect,
  on_scene_register, on_scene_unregister,
}
use rpg_server.Aoi.Keys.{query_key_lem}
use rpg_server.Aoi.Cells.{contains-put_in}
use rpg_server.Aoi.Placed.{IsPlaced, stands, enter-IsPlaced, leave-IsPlaced, move-IsPlaced}
use rpg_server.Aoi.Disconnect.{on_disconnect-IsPlaced}

pub data Call (f : Floats) : Type 0 where
  enters moves : ℕ → Option (MoveMsg f) → Call f
  leaves : Option ℕ → Call f
  disconnects : ℕ → Call f
  registers : Option (SceneRegister f) → Call f
  unregisters : Option ℕ → Call f

module _ {f : Floats} where
  abbrev pub serve : Server f → Call f → Server f
  serve s (enters conn msg) = (on_enter f s conn msg).0
  serve s (moves conn msg) = (on_move f s conn msg).0
  serve s (leaves msg) = (on_leave f s msg).0
  serve s (disconnects conn) = (on_disconnect f s conn).0
  serve s (registers msg) = on_scene_register f s msg
  serve s (unregisters msg) = on_scene_unregister f s msg

  -- An entity enters where it is not yet.
  abbrev pub IsFresh : Server f → Call f → Type 0
  IsFresh s (enters conn (some req)) = find req.entity_id s.entities ≡ none
  IsFresh s _ = Unit

  same_tables :
      (s s' : Server f)
      → s'.entities ≡ s.entities
      → s'.entity_grid ≡ s.entity_grid
      → s'.grid_map ≡ s.grid_map
      → IsPlaced s
      → IsPlaced s'
  same_tables s s' e g m p = record {
    cells = λ k id. rw (e, g, m) (p.cells k id);
    named = λ id x h. p.named id x (ap (find id) (sym e) ∙ h);
    gridded = λ id. rw (e, g) (p.gridded id);
  }

  remove_entity-IsPlaced : (s : Server f) (id : ℕ) → IsPlaced s → IsPlaced (remove_entity f s id)
  unfolding remove_entity
  remove_entity-IsPlaced s id p = elim (Option-cases (find id s.entities)) [
    | inl e ↦ rw (e, remove_entity) p
    | inr (e, here) ↦ rw (here, remove_entity) (leave-IsPlaced s id e p here)
  ]

  on_move-IsPlaced :
      (s : Server f) (conn : ℕ) (req : MoveMsg f)
      → IsPlaced s
      → IsPlaced (on_move f s conn (some req)).0
  unfolding on_move
  on_move-IsPlaced s conn req p = elim (Option-cases (find req.entity_id s.entities)) [
    | inl e ↦ rw (e, on_move) p
    | inr (e, here) ↦ rw (here, on_move) (move-IsPlaced s e req p here)
  ]

  -- Every message keeps the tables in agreement, an entity entering where it is not yet: it stands in
  -- its cell and in no other, and a cell holds nobody else.
  pub serve-IsPlaced :
      (s : Server f) (call : Call f) → IsFresh s call → IsPlaced s → IsPlaced (serve s call)
  unfolding on_enter on_leave on_scene_register on_scene_unregister on_move
  serve-IsPlaced s (enters conn none) fresh p = p
  serve-IsPlaced s (enters conn (some req)) fresh p = enter-IsPlaced s conn req p fresh
  serve-IsPlaced s (moves conn none) fresh p = p
  serve-IsPlaced s (moves conn (some req)) fresh p = on_move-IsPlaced s conn req p
  serve-IsPlaced s (leaves none) fresh p = p
  serve-IsPlaced s (leaves (some id)) fresh p = remove_entity-IsPlaced s id p
  serve-IsPlaced s (disconnects conn) fresh p = on_disconnect-IsPlaced s conn p
  serve-IsPlaced s (registers none) fresh p = p
  serve-IsPlaced s (registers (some req)) fresh p = same_tables s _ refl refl refl p
  serve-IsPlaced s (unregisters none) fresh p = p
  serve-IsPlaced s (unregisters (some id)) fresh p = same_tables s _ refl refl refl p

  -- Where the tables agree, GetEntitiesInGrid gives exactly the entities that stand in a cell with
  -- the same key as the one asked for.
  get_entities_lem :
      (s : Server f) (map_id id : ℕ) (g : Grid)
      → IsPlaced s
      → contains id (get_entities_in_grid f s map_id g) ≡ stands s id (key map_id g)
  unfolding get_entities_in_grid
  get_entities_lem s map_id id g p =
      ap (λ k. contains id (cell_of k s.grid_map)) (query_key_lem map_id g)
      ∙ p.cells (key map_id g) id

  -- Where the tables agree, an entity that enters again in another cell, without having left, stays
  -- listed in the cell where it stood, although it stands there no longer.
  enter_stale :
      (s : Server f) (conn k : ℕ) (req : MoveMsg f)
      → IsPlaced s
      → stands s req.entity_id k ≡ true
      → key req.map_id (world_to_grid f s req.map_id req.x req.z) ≢ k
      → (contains req.entity_id (cell_of k (enter f s conn req).grid_map) ≡ true)
        × (stands (enter f s conn req) req.entity_id k ≡ false)
  unfolding enter
  enter_stale s conn k req p before elsewhere =
      let g = world_to_grid f s req.map_id req.x req.z in
      (
        ground (
          arith,
          contains-put_in (key req.map_id g) k req.entity_id req.entity_id s.grid_map,
          p.cells k req.entity_id,
          before,
        ),
        ground (
          arith,
          find-insert req.entity_id req.entity_id (entity_from f conn req) s.entities,
          find-insert req.entity_id req.entity_id g s.entity_grid,
          ==_iff req.entity_id req.entity_id,
          ==_iff (key req.map_id g) k,
          elsewhere,
        ),
      )
