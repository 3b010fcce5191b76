-- ===== src/Bags.antt =====
-- The bags of a player: SceneServer/Bag.{h,cpp}, EquipBag, StoreBag and BagManager.cpp. A bag's slots
-- are a table from slot to item; the manager holds its bags in a list and finds one by its type. A
-- pointer into a bag is a lookup followed by a write at the same place.
pub mod Totals
pub mod Invariant
pub mod Operations
pub mod Moves
pub mod Histories
mod Tests
use rpg_server.Base.{
  nat_eq, ℕ, ◌+◌, ◌-◌, Bool, true, false, not, ◌||◌, Option, none, some, List, [], ◌∷◌, ltb, leb,
  ◌==◌, if◌then◌else◌, Table, find, insert, erase, u16, u32,
}

pub data BagType : Type 0 where
  equip store : BagType

abbrev pub same_type : BagType → BagType → Bool
same_type equip equip = true
same_type store store = true
same_type _ _ = false

pub record BagSlotItem : Type 0 where
  pub item_id : ℕ
  pub count : ℕ

pub record Bag : Type 0 where
  pub bag_type : BagType
  pub max_slot : ℕ
  pub slot_items : Table ℕ BagSlotItem

abbrev pub equip_bag_max_slot : ℕ
equip_bag_max_slot = 16

abbrev pub store_bag_max_slot : ℕ
store_bag_max_slot = 120

-- Bag::Bag.
unfoldable pub new_bag : BagType → ℕ → Bag
new_bag t max_slot = record {
  bag_type = t;
  max_slot = if ltb 0 max_slot then max_slot else 1;
  slot_items = [];
}

-- EquipBag::EquipBag and StoreBag::StoreBag.
unfoldable pub equip_bag : Bag
unfolding new_bag
equip_bag = new_bag equip equip_bag_max_slot

unfoldable pub store_bag : Bag
unfolding new_bag
store_bag = new_bag store store_bag_max_slot

unfoldable pub init_bag : Bag → Bag
init_bag b = record b { slot_items = [] }

unfoldable pub is_valid_slot : Bag → ℕ → Bool
is_valid_slot b slot = ltb slot b.max_slot

unfoldable pub get_item_by_slot : Bag → ℕ → Option BagSlotItem
unfolding is_valid_slot
get_item_by_slot b slot = if is_valid_slot b slot then find slot b.slot_items else none

unfoldable pub set_item_by_slot : Bag → ℕ → ℕ → ℕ → Bool × Bag
unfolding is_valid_slot
set_item_by_slot b slot item_id count =
    if not (is_valid_slot b slot) || item_id == 0 || count == 0 then (false, b) else (
      true,
      record b {
        slot_items = insert slot (record { item_id = item_id; count = count }) b.slot_items;
      },
    )

unfoldable pub clear_item_by_slot : Bag → ℕ → Bool × Bag
unfolding is_valid_slot
clear_item_by_slot b slot =
    if is_valid_slot b slot
    then (true, record b { slot_items = erase slot b.slot_items })
    else (false, b)

-- A write through the pointer that getItemBySlot returned.
unfoldable pub write_item : Bag → ℕ → BagSlotItem → Bag
write_item b slot item = record b { slot_items = insert slot item b.slot_items }

pub record BagManager : Type 0 where
  pub bag_list : List Bag
  pub dirty : Bool

unfoldable pub find_bag_by_type : BagType → List Bag → Option Bag
find_bag_by_type t [] = none
find_bag_by_type t (b ∷ bs) = if same_type b.bag_type t then some b else find_bag_by_type t bs

-- A write through the pointer that findBagByType returned.
unfoldable pub write_bag : BagType → Bag → List Bag → List Bag
write_bag t b [] = []
write_bag t b (c ∷ cs) = if same_type c.bag_type t then b ∷ cs else c ∷ write_bag t b cs

-- The manager once an operation has written a bag: dirty.
unfoldable pub store_bag_in : BagManager → BagType → Bag → BagManager
store_bag_in m t b = record { bag_list = write_bag t b m.bag_list; dirty = true }

unfoldable pub init : BagManager → BagManager
unfolding init_bag equip_bag store_bag
init m = record { bag_list = init_bag equip_bag ∷ init_bag store_bag ∷ []; dirty = false }

unfoldable pub save : BagManager → BagManager
save m = record m { dirty = false }

unfoldable pub load : BagManager → BagManager
unfolding init
load m = init m

-- addItem, from the bag that was found.
unfoldable pub add_to_bag : Bag → ℕ → ℕ → ℕ → Option Bag
add_to_bag b slot item_id count =
    if not (is_valid_slot b slot) || item_id == 0 || count == 0
    then none
    else elim (get_item_by_slot b slot) [
      | none ↦ some (set_item_by_slot b slot item_id count).1
      | some exist ↦
          if not (exist.item_id == item_id)
          then none
          else if ltb 4294967295 (exist.count + count)
          then none
          else some (write_item b slot (record exist { count = exist.count + count }))
    ]

-- removeItem, from the bag that was found.
unfoldable pub remove_from_bag : Bag → ℕ → ℕ → Option Bag
remove_from_bag b slot count =
    if not (is_valid_slot b slot) || count == 0 then none else elim (get_item_by_slot b slot) [
      | none ↦ none
      | some item ↦
          let left = write_item b slot (record item { count = item.count - count }) in
          if ltb item.count count
          then none
          else some (if item.count - count == 0 then (clear_item_by_slot left slot).1 else left)
    ]

-- mergeItem, from the bag and the two items that were found. `dst->count += src->count` wraps.
unfoldable pub merge_items : Bag → ℕ → ℕ → BagSlotItem → BagSlotItem → Option Bag
merge_items b src_slot dst_slot src dst =
    if not (src.item_id == dst.item_id)
    then none
    else some
        (clear_item_by_slot
          (write_item b dst_slot (record dst { count = u32 (dst.count + src.count) })) src_slot).1

unfoldable pub merge_in_bag : Bag → ℕ → ℕ → Option Bag
merge_in_bag b src_slot dst_slot = elim (get_item_by_slot b src_slot) [
  | none ↦ none
  | some src ↦ elim (get_item_by_slot b dst_slot) [
    | none ↦ none
    | some dst ↦ merge_items b src_slot dst_slot src dst
  ]
]

-- splitItem, from the bag that was found.
unfoldable pub split_in_bag : Bag → ℕ → ℕ → ℕ → Option Bag
split_in_bag b src_slot dst_slot split_count =
    if not (is_valid_slot b src_slot) || not (is_valid_slot b dst_slot)
    then none
    else elim (get_item_by_slot b src_slot) [
      | none ↦ none
      | some src ↦ if leb src.count split_count then none else elim (get_item_by_slot b dst_slot) [
        | some _ ↦ none
        | none ↦
            some
              (set_item_by_slot
                (write_item b src_slot (record src { count = src.count - split_count })) dst_slot
                src.item_id split_count).1
      ]
    ]

-- An operation on the bag of a type: false, and no change, where there is none or it is refused.
unfoldable pub on_bag : BagManager → BagType → (Bag → Option Bag) → Bool × BagManager
on_bag m t op = elim (find_bag_by_type t m.bag_list) [
  | none ↦ (false, m)
  | some b ↦ elim (op b) [ none ↦ (false, m) | some b' ↦ (true, store_bag_in m t b') ]
]

unfoldable pub add_item : BagManager → BagType → ℕ → ℕ → ℕ → Bool × BagManager
unfolding on_bag
add_item m t slot item_id count = on_bag m t (λ b. add_to_bag b slot item_id count)

unfoldable pub remove_item : BagManager → BagType → ℕ → ℕ → Bool × BagManager
unfolding on_bag
remove_item m t slot count = on_bag m t (λ b. remove_from_bag b slot count)

unfoldable pub merge_item : BagManager → BagType → ℕ → ℕ → Bool × BagManager
unfolding on_bag
merge_item m t src_slot dst_slot =
    if src_slot == dst_slot then (false, m) else on_bag m t (λ b. merge_in_bag b src_slot dst_slot)

unfoldable pub split_item : BagManager → BagType → ℕ → ℕ → ℕ → Bool × BagManager
unfolding on_bag
split_item m t src_slot dst_slot split_count =
    if src_slot == dst_slot || split_count == 0
    then (false, m)
    else on_bag m t (λ b. split_in_bag b src_slot dst_slot split_count)

abbrev pub to_bag_type : ℕ → BagType
to_bag_type n = if n == 2 then store else equip

-- add and remove take a bag's number and a slot of 32 bits, and one item at a time.
unfoldable pub add : BagManager → ℕ → ℕ → ℕ → Bool × BagManager
unfolding add_item
add m bag_type item_id slot = add_item m (to_bag_type bag_type) (u16 slot) item_id 1

unfoldable pub remove : BagManager → ℕ → ℕ → ℕ → Bool × BagManager
unfolding remove_item
remove m bag_type item_id slot = remove_item m (to_bag_type bag_type) (u16 slot) 1
