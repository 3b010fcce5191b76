-- ===== src/Roles/Items.antt =====
-- SceneServer/ItemManager.cpp: how many of each item a player has.
use rpg_server.Base.{
  ℕ, ◌+◌, ◌-◌, ◌<◌, ◌≡◌, inl, inr, Bool, true, false, not, ◌&&◌, ◌||◌, Option, none, some, [],
  arith, ltb, leb, ◌==◌, if◌then◌else◌, Option-cases, nat_eq, Table, find, insert, erase,
  find-insert, find-erase, u32_mod, u32,
}

pub record ItemManager : Type 0 where
  pub item_map : Table ℕ ℕ
  pub dirty : Bool

unfoldable pub init : ItemManager → ItemManager
init m = record { item_map = []; dirty = false }

unfoldable pub save : ItemManager → ItemManager
save m = record m { dirty = false }

-- `itemMap[itemId]`: a missing entry is made, with 0.
abbrev pub amount : Option ℕ → ℕ
amount none = 0
amount (some n) = n

-- The count is a uint32_t, and its sum wraps.
unfoldable pub add : ItemManager → ℕ → ℕ → Bool × ItemManager
add m item_id count = if item_id == 0 || count == 0 then (false, m) else (
  true,
  record {
    item_map = insert item_id (u32 (amount (find item_id m.item_map) + count)) m.item_map;
    dirty = true;
  },
)

unfoldable pub take_from : ItemManager → ℕ → ℕ → ℕ → Bool × ItemManager
take_from m item_id have count =
    let left = insert item_id (have - count) m.item_map in
    if count == 0 || ltb have count then (false, m) else (
      true,
      record { item_map = if have - count == 0 then erase item_id left else left; dirty = true },
    )

unfoldable pub remove : ItemManager → ℕ → ℕ → Bool × ItemManager
unfolding take_from
remove m item_id count = elim (find item_id m.item_map) [
  | none ↦ (false, m)
  | some have ↦ take_from m item_id have count
]

-- How many of an item there are.
abbrev pub has : ItemManager → ℕ → ℕ
has m id = amount (find id m.item_map)

-- `add` answers false exactly for item 0 or a count of 0, and then changes nothing; otherwise it adds
-- the count, modulo 2^32, to that item and leaves every other item as it was.
add_lem :
    (m : ItemManager) (item_id count id : ℕ)
    → ((add m item_id count).0 ≡ not (item_id == 0 || count == 0))
      × (has (add m item_id count).1 id
          ≡ (if (add m item_id count).0 && item_id == id then u32 (has m id + count) else has m id))
unfolding add
add_lem m item_id count id = (
  ground arith,
  ground
      (arith, find-insert item_id id (u32 (amount (find item_id m.item_map) + count)) m.item_map),
)

-- `remove` of a positive count answers true exactly where the player has that many; it then takes
-- them from that item and leaves every other item as it was, and otherwise it changes nothing.
remove_lem :
    (m : ItemManager) (item_id count id : ℕ)
    → 0 < count
    → ((remove m item_id count).0 ≡ leb count (has m item_id))
      × (has (remove m item_id count).1 id
          ≡ (if leb count (has m item_id) && item_id == id then has m id - count else has m id))
unfolding remove
remove_lem m item_id count id h = elim (Option-cases (find item_id m.item_map)) [
  | inl e ↦ (ground (arith, e), ground (arith, e))
  | inr (have, e) ↦ (
    ground (arith, e),
    ground (
      arith,
      e,
      find-insert item_id id (have - count) m.item_map,
      find-erase item_id id (insert item_id (have - count) m.item_map),
    ),
  )
]

-- Adding items and removing as many again, where the count stays below 2^32, answers true twice and
-- gives back the amount of every item.
remove-add :
    (m : ItemManager) (item_id count id : ℕ)
    → 0 < item_id
    → 0 < count
    → has m item_id + count < u32_mod
    → has m id < u32_mod
    → ((add m item_id count).0 ≡ true)
      × ((remove (add m item_id count).1 item_id count).0 ≡ true)
      × (has (remove (add m item_id count).1 item_id count).1 id ≡ has m id)
remove-add m item_id count id i c fits small =
    let (done, _) = add_lem m item_id count item_id in
    let (_, there) = add_lem m item_id count item_id in
    let (_, after) = add_lem m item_id count id in
    let (taken, left) = remove_lem (add m item_id count).1 item_id count id c in
    (ground arith, ground arith, ground arith)
