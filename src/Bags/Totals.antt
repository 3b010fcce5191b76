-- ===== src/Bags/Totals.antt =====
-- How many of an item a bag holds, before and after each operation on the bag.
use rpg_server.Base.{
  ℕ, ◌+◌, ◌-◌, ◌<◌, ◌≡◌, ap, ◌∙◌, ◌≢◌, inl, inr, none, some, List, arith, ◌==◌, if◌then◌else◌,
  Option-cases, nat_eq, find, insert, find-insert, Distinct, insert-Distinct, total, total-insert,
  total-erase, u32,
}
use rpg_server.Bags.{
  merge_in_bag, merge_items, split_in_bag, Bag, BagSlotItem, is_valid_slot, get_item_by_slot,
  set_item_by_slot, clear_item_by_slot, write_item, add_to_bag, remove_from_bag,
}

-- What an entry counts for, of an item.
abbrev pub share : ℕ → BagSlotItem → ℕ
share id it = if it.item_id == id then it.count else 0

abbrev pub held : ℕ → Bag → ℕ
held id b = total (share id) b.slot_items

pub get_item-find :
    (b : Bag) (slot : ℕ) (it : BagSlotItem)
    → get_item_by_slot b slot ≡ some it
    → (find slot b.slot_items ≡ some it) × (slot < b.max_slot)
unfolding get_item_by_slot
get_item-find b slot it h = ground arith

pub get_item-find-none :
    (b : Bag) (slot : ℕ)
    → get_item_by_slot b slot ≡ none
    → slot < b.max_slot
    → find slot b.slot_items ≡ none
unfolding get_item_by_slot
get_item-find-none b slot h k = ground arith

pub held-add_to_bag :
    (b : Bag) (slot item_id count id : ℕ) {b' : Bag}
    → add_to_bag b slot item_id count ≡ some b'
    → held id b' ≡ held id b + (if item_id == id then count else 0)
unfolding add_to_bag set_item_by_slot write_item is_valid_slot
held-add_to_bag b slot item_id count id h = elim (Option-cases (get_item_by_slot b slot)) [
  | inl e ↦ ground (
    arith,
    e,
    get_item-find-none b slot e,
    total-insert (share id) slot (record { item_id = item_id; count = count }) b.slot_items,
  )
  | inr (it, e) ↦ ground (
    arith,
    e,
    get_item-find b slot it e,
    total-insert (share id) slot (record it { count = it.count + count }) b.slot_items,
  )
]

pub held-remove_from_bag :
    (b : Bag) (slot count id : ℕ) (it : BagSlotItem) {b' : Bag}
    → Distinct b.slot_items
    → get_item_by_slot b slot ≡ some it
    → remove_from_bag b slot count ≡ some b'
    → held id b' + (if it.item_id == id then count else 0) ≡ held id b
unfolding remove_from_bag clear_item_by_slot write_item is_valid_slot
held-remove_from_bag b slot count id it d e h =
    let left : BagSlotItem = record it { count = it.count - count } in
    ground (
      arith,
      e,
      get_item-find b slot it e,
      total-insert (share id) slot left b.slot_items,
      insert-Distinct slot left b.slot_items d,
      find-insert slot slot left b.slot_items,
      total-erase (share id) slot (insert slot left b.slot_items),
    )

-- `dst->count += src->count` keeps its sum below 2^32.
abbrev pub merged : BagSlotItem → BagSlotItem → BagSlotItem
merged src dst = record dst { count = u32 (dst.count + src.count) }

-- What a merge leaves in the bag, and what is lost of it where the sum of the counts wraps.
pub held-merge_items :
    (b : Bag) (src_slot dst_slot id : ℕ) (src dst : BagSlotItem) {b' : Bag}
    → Distinct b.slot_items
    → src_slot ≢ dst_slot
    → get_item_by_slot b src_slot ≡ some src
    → get_item_by_slot b dst_slot ≡ some dst
    → merge_items b src_slot dst_slot src dst ≡ some b'
    → held id b' + (share id dst + share id src) ≡ held id b + share id (merged src dst)
unfolding merge_items clear_item_by_slot write_item is_valid_slot
held-merge_items b src_slot dst_slot id src dst d ne es ed h = ground (
  arith,
  get_item-find b src_slot src es,
  get_item-find b dst_slot dst ed,
  total-insert (share id) dst_slot (merged src dst) b.slot_items,
  insert-Distinct dst_slot (merged src dst) b.slot_items d,
  find-insert dst_slot src_slot (merged src dst) b.slot_items,
  total-erase (share id) src_slot (insert dst_slot (merged src dst) b.slot_items),
)

same_item :
    (b : Bag) (src_slot dst_slot : ℕ) (src dst : BagSlotItem) {b' : Bag}
    → merge_items b src_slot dst_slot src dst ≡ some b'
    → src.item_id ≡ dst.item_id
unfolding merge_items
same_item b src_slot dst_slot src dst h = ground arith

pub held-merge_in_bag :
    (b : Bag) (src_slot dst_slot id : ℕ) (src dst : BagSlotItem) {b' : Bag}
    → Distinct b.slot_items
    → src_slot ≢ dst_slot
    → get_item_by_slot b src_slot ≡ some src
    → get_item_by_slot b dst_slot ≡ some dst
    → merge_in_bag b src_slot dst_slot ≡ some b'
    → (src.item_id ≡ dst.item_id)
      × (held id b' + (share id dst + share id src) ≡ held id b + share id (merged src dst))
unfolding merge_in_bag
held-merge_in_bag b src_slot dst_slot id src dst {b'} d ne es ed h =
    let q : merge_items b src_slot dst_slot src dst ≡ some b' = ground (arith, es, ed, h) in
    (
      same_item b src_slot dst_slot src dst q,
      held-merge_items b src_slot dst_slot id src dst d ne es ed q,
    )

-- What splitItem takes from and what it makes.
abbrev pub remaining : BagSlotItem → ℕ → BagSlotItem
remaining src split_count = record src { count = src.count - split_count }

abbrev pub part : BagSlotItem → ℕ → BagSlotItem
part src split_count = record { item_id = src.item_id; count = split_count }

pub split_slots :
    (b : Bag) (src_slot dst_slot split_count : ℕ) (src : BagSlotItem) {b' : Bag}
    → get_item_by_slot b src_slot ≡ some src
    → 0 < src.item_id
    → 0 < split_count
    → split_in_bag b src_slot dst_slot split_count ≡ some b'
    → (get_item_by_slot b dst_slot ≡ none)
      × (dst_slot < b.max_slot)
      × (split_count < src.count)
      × (b' ≡ record b {
        slot_items =
            insert dst_slot
              (part src split_count)
              (insert src_slot (remaining src split_count) b.slot_items);
      })
unfolding split_in_bag set_item_by_slot write_item is_valid_slot
split_slots b src_slot dst_slot split_count src e i k h =
    elim (Option-cases (get_item_by_slot b dst_slot)) [
      | inr (dst, f) ↦ ground (arith, e, f)
      | inl f ↦ ground (arith, e, f)
    ]

pub held-split_in_bag :
    (b : Bag) (src_slot dst_slot split_count id : ℕ) (src : BagSlotItem) {b' : Bag}
    → src_slot ≢ dst_slot
    → get_item_by_slot b src_slot ≡ some src
    → 0 < src.item_id
    → 0 < split_count
    → split_in_bag b src_slot dst_slot split_count ≡ some b'
    → held id b' ≡ held id b
held-split_in_bag b src_slot dst_slot split_count id src {b'} ne e i k h =
    let (f, valid, less, r) = split_slots b src_slot dst_slot split_count src e i k h in
    let first : List (ℕ × BagSlotItem) = insert src_slot (remaining src split_count) b.slot_items in
    let free : find dst_slot first ≡ none = ground (
      arith,
      find-insert src_slot dst_slot (remaining src split_count) b.slot_items,
      get_item-find-none b dst_slot f,
    ) in
    let found = (get_item-find b src_slot src e).0 in
    let one = total-insert (share id) src_slot (remaining src split_count) b.slot_items in
    let two = total-insert (share id) dst_slot (part src split_count) first in
    let one' = rw found at one in
    let two' = rw free at two in
    let s : share id (remaining src split_count) + share id (part src split_count) ≡ share id src =
      ground arith in
    ap (held id) r ∙ (omega (arith, one', two', s))
