-- ===== src/Aoi/Disconnect.antt =====
-- OnDisconnect of AOIServer.cpp: what it leaves of the entities of a connection.
use rpg_server.Base.{
  ℕ, ◌≡◌, refl, sym, ap, subst, ◌∙◌, inl, inr, Bool, true, false, Option, none, some, List, [], ◌∷◌,
  arith, ◌==◌, if◌then◌else◌, ==_iff, Option-cases, nat_eq, contains, Table, find, erase,
  find-erase, Distinct,
}
use rpg_server.Aoi.{
  Floats, Grid, key, Entity, Server, take_out_if, drop_cell, drop_entity, remove_all, ids_of,
  on_disconnect,
}
use rpg_server.Aoi.Cells.{contains-take_out_if}
use rpg_server.Aoi.Placed.{IsPlaced, present}

is_there : (o : Option Grid) → present o ≡ true → (g : Grid) × (o ≡ some g)
is_there none h = ground (arith, h)
is_there (some g) h = (g, refl)

module _ {f : Floats} where
  abbrev dropped : Server f → ℕ → Entity f → Grid → Server f
  dropped s id e g = record s {
    entities = erase id s.entities;
    grid_map = take_out_if (key e.map_id g) id s.grid_map;
    entity_grid = erase id s.entity_grid;
  }

  dropped-IsPlaced :
      (s : Server f) (id : ℕ) (e : Entity f) (g : Grid)
      → IsPlaced s
      → find id s.entities ≡ some e
      → find id s.entity_grid ≡ some g
      → IsPlaced (dropped s id e g)
  dropped-IsPlaced s id e g p here there = record {
    cells = λ k other. ground (
      arith,
      contains-take_out_if (key e.map_id g) k id other s.grid_map,
      p.cells k other,
      find-erase id other s.entities,
      find-erase id other s.entity_grid,
      ==_iff id other,
      here,
      there,
    );
    named = λ other x h. ground (arith, find-erase id other s.entities, p.named other x, h);
    gridded = λ other.
        ground (
          arith,
          find-erase id other s.entities,
          find-erase id other s.entity_grid,
          p.gridded other,
        );
  }

  drop_entity_missing : (s : Server f) (id : ℕ) → find id s.entities ≡ none → drop_entity f s id ≡ s
  unfolding drop_entity
  drop_entity_missing s id e = rw (e, drop_entity) refl

  drop_entity_there :
      (s : Server f) (id : ℕ) (e : Entity f) (g : Grid)
      → find id s.entities ≡ some e
      → find id s.entity_grid ≡ some g
      → drop_entity f s id ≡ dropped s id e g
  unfolding drop_entity drop_cell
  drop_entity_there s id e g here there = rw (here, there, drop_entity, drop_cell) refl

  cell_there :
      (s : Server f) (id : ℕ) (e : Entity f)
      → IsPlaced s
      → find id s.entities ≡ some e
      → (g : Grid) × (find id s.entity_grid ≡ some g)
  cell_there s id e p here = is_there (find id s.entity_grid) (p.gridded id ∙ ap present here)

  drop_entity-IsPlaced : (s : Server f) (id : ℕ) → IsPlaced s → IsPlaced (drop_entity f s id)
  drop_entity-IsPlaced s id p = elim (Option-cases (find id s.entities)) [
    | inl e ↦ subst IsPlaced (sym (drop_entity_missing s id e)) p
    | inr (e, here) ↦
        let (g, there) = cell_there s id e p here in
        subst IsPlaced (sym (drop_entity_there s id e g here there))
          (dropped-IsPlaced s id e g p here there)
  ]

  find-drop_entity :
      (s : Server f) (id other : ℕ)
      → find other (drop_entity f s id).entities
        ≡ (if id == other then none else find other s.entities)
  unfolding drop_entity drop_cell
  find-drop_entity s id other = ground (arith, find-erase id other s.entities, ==_iff id other)

  pub remove_all-IsPlaced :
      (ids : List ℕ) (s : Server f) → IsPlaced s → IsPlaced (remove_all f s ids).0
  unfolding remove_all
  remove_all-IsPlaced [] s p = p
  remove_all-IsPlaced (id ∷ ids) s p =
      remove_all-IsPlaced ids (drop_entity f s id) (drop_entity-IsPlaced s id p)

  find-remove_all :
      (ids : List ℕ) (s : Server f) (other : ℕ)
      → find other (remove_all f s ids).0.entities
        ≡ (if contains other ids then none else find other s.entities)
  unfolding remove_all contains
  find-remove_all [] s other = refl
  find-remove_all (id ∷ ids) s other =
      ground (arith, find-remove_all ids (drop_entity f s id) other, find-drop_entity s id other)

  abbrev pub of_conn : ℕ → Option (Entity f) → Bool
  of_conn conn none = false
  of_conn conn (some e) = e.scene_conn_id == conn

  missing-ids_of :
      (conn : ℕ) (m : Table ℕ (Entity f)) (other : ℕ)
      → find other m ≡ none
      → contains other (ids_of f conn m) ≡ false
  unfolding ids_of contains find
  missing-ids_of conn [] other h = refl
  missing-ids_of conn ((id, e) ∷ m) other h = ground (arith, missing-ids_of conn m other, h)

  contains-ids_of :
      (conn : ℕ) (m : Table ℕ (Entity f)) (other : ℕ)
      → Distinct m
      → contains other (ids_of f conn m) ≡ of_conn conn (find other m)
  unfolding ids_of contains find
  contains-ids_of conn [] other d = refl
  contains-ids_of conn ((id, e) ∷ m) other d =
      ground
        (arith, contains-ids_of conn m other d.1, missing-ids_of conn m other, d.0, ==_iff id other)

  pub on_disconnect-IsPlaced :
      (s : Server f) (conn : ℕ) → IsPlaced s → IsPlaced (on_disconnect f s conn).0
  unfolding on_disconnect
  on_disconnect-IsPlaced s conn p = remove_all-IsPlaced (ids_of f conn s.entities) s p

  -- A lost connection takes all its entities with it, and no other, where the table has one entry
  -- for an entity.
  on_disconnect_clears :
      (s : Server f) (conn id : ℕ)
      → Distinct s.entities
      → find id (on_disconnect f s conn).0.entities
        ≡ (if of_conn conn (find id s.entities) then none else find id s.entities)
  unfolding on_disconnect
  on_disconnect_clears s conn id d =
      ground (
        arith,
        find-remove_all (ids_of f conn s.entities) s id,
        contains-ids_of conn s.entities id d,
      )
