-- ===== src/Roles/Spells.antt =====
-- SceneServer/SpellManager.cpp: the spells that a player has learnt, with their levels.
use rpg_server.Base.{
  ℕ, ◌<◌, inl, inr, Bool, true, false, ◌||◌, none, some, [], arith, ◌==◌, if◌then◌else◌, Bool-cases,
  Option-cases, nat_eq, Table, find, insert, erase, Distinct, insert-Distinct, erase-Distinct,
  Every, insert-Every, erase-Every,
}

pub record SpellManager : Type 0 where
  pub spell_levels : Table ℕ ℕ
  pub dirty : Bool

unfoldable pub init : SpellManager → SpellManager
init m = record { spell_levels = []; dirty = false }

unfoldable pub save : SpellManager → SpellManager
save m = record m { dirty = false }

unfoldable pub add : SpellManager → ℕ → ℕ → Bool × SpellManager
add m spell_id level =
    if spell_id == 0 || level == 0
    then (false, m)
    else (true, record { spell_levels = insert spell_id level m.spell_levels; dirty = true })

unfoldable pub remove : SpellManager → ℕ → Bool × SpellManager
remove m spell_id = elim (find spell_id m.spell_levels) [
  | none ↦ (false, m)
  | some _ ↦ (true, record { spell_levels = erase spell_id m.spell_levels; dirty = true })
]

pub data Call : Type 0 where
  adds : ℕ → ℕ → Call
  removes : ℕ → Call
  inits saves : Call

abbrev pub serve : SpellManager → Call → SpellManager
serve m (adds spell_id level) = (add m spell_id level).1
serve m (removes spell_id) = (remove m spell_id).1
serve m inits = init m
serve m saves = save m

-- One level for a spell, and neither spell 0 nor level 0.
pub record IsLearnt (m : SpellManager) : Type 0 where
  pub distinct : Distinct m.spell_levels
  pub real : Every (λ spell_id level. (0 < spell_id) × (0 < level)) m.spell_levels

add-IsLearnt :
    (m : SpellManager) (spell_id level : ℕ) → IsLearnt m → IsLearnt (add m spell_id level).1
unfolding add
add-IsLearnt m spell_id level w = elim (Bool-cases (spell_id == 0 || level == 0)) [
  | inl bad ↦ rw bad w
  | inr fine ↦ rw fine (record {
    distinct = insert-Distinct spell_id level m.spell_levels w.distinct;
    real =
        insert-Every (λ i l. (0 < i) × (0 < l)) spell_id level m.spell_levels
          (ground arith, ground arith) w.real;
  })
]

remove-IsLearnt : (m : SpellManager) (spell_id : ℕ) → IsLearnt m → IsLearnt (remove m spell_id).1
unfolding remove
remove-IsLearnt m spell_id w = elim (Option-cases (find spell_id m.spell_levels)) [
  | inl e ↦ rw (e, remove) w
  | inr (l, e) ↦
      rw (e, remove)
        (record {
          distinct = erase-Distinct spell_id m.spell_levels w.distinct;
          real = erase-Every (λ i l. (0 < i) × (0 < l)) spell_id m.spell_levels w.real;
        })
]

-- Every call keeps the spells sound, where they are: no spell 0, no level 0, one level for a spell.
serve-IsLearnt : (m : SpellManager) (call : Call) → IsLearnt m → IsLearnt (serve m call)
unfolding init save
serve-IsLearnt m (adds spell_id level) w = add-IsLearnt m spell_id level w
serve-IsLearnt m (removes spell_id) w = remove-IsLearnt m spell_id w
serve-IsLearnt m inits w = record { distinct = tt; real = tt }
serve-IsLearnt m saves w = record { distinct = w.distinct; real = w.real }
