-- ===== src/Roles/Buffs.antt =====
-- SceneServer/BuffManager.{h,cpp}: the buffs of a player and when they run out.
use rpg_server.Base.{
  ℕ, ◌+◌, ◌≤◌, ◌<◌, ◌≡◌, refl, ap, ◌∙◌, inl, inr, Bool, true, false, ◌&&◌, ◌||◌, none, some, [],
  ◌∷◌, arith, ltb, leb, ◌==◌, if◌then◌else◌, Bool-cases, nat_eq, length, Table, find, insert, erase,
  find-insert, beq_refl, unless, Distinct, insert-Distinct, erase_if, find-erase_if, u64_mod, u64,
}

pub record BuffState : Type 0 where
  pub expire_at_ms : ℕ

pub record BuffManager : Type 0 where
  pub buff_map : Table ℕ BuffState
  pub dirty : Bool

unfoldable pub init : BuffManager → BuffManager
init m = record { buff_map = []; dirty = false }

unfoldable pub save : BuffManager → BuffManager
save m = record m { dirty = false }

-- The test of `loop`: 0 stands for a buff that does not run out.
abbrev pub has_expired : ℕ → BuffState → Bool
has_expired now_ms s = ltb 0 s.expire_at_ms && leb s.expire_at_ms now_ms

unfoldable pub loop_from : ℕ → Table ℕ BuffState → Bool → Table ℕ BuffState × Bool
loop_from now_ms [] dirty = ([], dirty)
loop_from now_ms ((id, s) ∷ m) dirty =
    let rest = loop_from now_ms m (if has_expired now_ms s then true else dirty) in
    (if has_expired now_ms s then rest.0 else (id, s) ∷ rest.0, rest.1)

unfoldable pub loop : BuffManager → ℕ → BuffManager
unfolding loop_from
loop m now_ms =
    let (left, dirty) = loop_from now_ms m.buff_map m.dirty in
    record { buff_map = left; dirty = dirty }

unfoldable pub add : BuffManager → ℕ → ℕ → ℕ → Bool × BuffManager
add m buff_id duration_ms now_ms =
    let state : BuffState = record {
      expire_at_ms = if ltb 0 duration_ms then u64 (now_ms + duration_ms) else 0;
    } in
    if buff_id == 0
    then (false, m)
    else (true, record { buff_map = insert buff_id state m.buff_map; dirty = true })

unfoldable pub remove : BuffManager → ℕ → Bool × BuffManager
remove m buff_id = elim (find buff_id m.buff_map) [
  | none ↦ (false, m)
  | some _ ↦ (true, record { buff_map = erase buff_id m.buff_map; dirty = true })
]

loop_from-erase_if :
    (now_ms : ℕ) (m : Table ℕ BuffState) (dirty : Bool)
    → (loop_from now_ms m dirty).0 ≡ erase_if (has_expired now_ms) m
unfolding loop_from erase_if
loop_from-erase_if now_ms [] dirty = refl
loop_from-erase_if now_ms ((id, s) ∷ m) dirty = elim (Bool-cases (has_expired now_ms s)) [
  | inl gone ↦ rw gone (loop_from-erase_if now_ms m true)
  | inr stays ↦ rw stays (ap (λ x. (id, s) ∷ x) (loop_from-erase_if now_ms m dirty))
]

-- Where the table has one entry for a buff, one pass of `loop` removes exactly the buffs whose time
-- has come and keeps all others as they were; one that lasts until removed never goes.
find-loop :
    (m : BuffManager) (now_ms buff_id : ℕ)
    → Distinct m.buff_map
    → find buff_id (loop m now_ms).buff_map ≡ unless (has_expired now_ms) (find buff_id m.buff_map)
unfolding loop
find-loop m now_ms buff_id d =
    ap (find buff_id) (loop_from-erase_if now_ms m.buff_map m.dirty)
    ∙ find-erase_if (has_expired now_ms) buff_id m.buff_map d

length-erase_if :
    (now_ms : ℕ) (m : Table ℕ BuffState) → length (erase_if (has_expired now_ms) m) ≤ length m
unfolding erase_if
length-erase_if now_ms [] = omega arith
length-erase_if now_ms ((id, s) ∷ m) = ground (arith, length-erase_if now_ms m)

loop_from-dirty :
    (now_ms : ℕ) (m : Table ℕ BuffState) (dirty : Bool)
    → (loop_from now_ms m dirty).1 ≡ dirty || ltb (length (loop_from now_ms m dirty).0) (length m)
unfolding loop_from
loop_from-dirty now_ms [] dirty = ground arith
loop_from-dirty now_ms ((id, s) ∷ m) dirty = elim (Bool-cases (has_expired now_ms s)) [
  | inl gone ↦ rw gone (
      ground (
        arith,
        loop_from-dirty now_ms m true,
        loop_from-erase_if now_ms m true,
        length-erase_if now_ms m,
      ))
  | inr stays ↦ rw stays (ground (arith, loop_from-dirty now_ms m dirty))
]

-- `loop` sets the dirty flag exactly where it has removed a buff, and never clears it.
loop-dirty :
    (m : BuffManager) (now_ms : ℕ)
    → (loop m now_ms).dirty ≡ m.dirty || ltb (length (loop m now_ms).buff_map) (length m.buff_map)
unfolding loop
loop-dirty m now_ms = loop_from-dirty now_ms m.buff_map m.dirty

-- A buff above 0 that is added for a positive time, to a table with one entry for a buff, is there
-- until that time has passed and gone from then on, for a pass of `loop` at any moment; one added
-- for 0 stays. The end of that time is below 2^64.
loop-add :
    (m : BuffManager) (buff_id duration_ms now_ms later_ms : ℕ)
    → Distinct m.buff_map
    → 0 < buff_id
    → now_ms + duration_ms < u64_mod
    → find buff_id (loop (add m buff_id duration_ms now_ms).1 later_ms).buff_map ≡ (
        if ltb 0 duration_ms && leb (now_ms + duration_ms) later_ms
        then none
        else some (record { expire_at_ms = if ltb 0 duration_ms then now_ms + duration_ms else 0 }))
unfolding add
loop-add m buff_id duration_ms now_ms later_ms d i fits =
    let state : BuffState = record {
      expire_at_ms = if ltb 0 duration_ms then u64 (now_ms + duration_ms) else 0;
    } in
    let there : find buff_id (insert buff_id state m.buff_map) ≡ some state =
      find-insert buff_id buff_id state m.buff_map ∙ (rw (beq_refl buff_id)) in
    let zero_id : (buff_id == 0) ≡ false = ground arith in
    rw zero_id (
      find-loop (record { buff_map = insert buff_id state m.buff_map; dirty = true }) later_ms
        buff_id (insert-Distinct buff_id state m.buff_map d)
      ∙ ap (unless (has_expired later_ms)) there
      ∙ (ground arith))
