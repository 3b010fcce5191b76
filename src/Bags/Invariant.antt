-- ===== src/Bags/Invariant.antt =====
-- What every bag keeps: one entry for a slot, slots in range, no item 0 and no empty stack.
use rpg_server.Base.{
  ℕ, ◌+◌, ◌<◌, ◌≡◌, refl, sym, subst, ◌⊎◌, inl, inr, none, some, arith, Option-cases, nat_eq,
  insert, erase, Distinct, insert-Distinct, erase-Distinct, Every, insert-Every, erase-Every,
  find-Every, erase-insert, u32_mod,
}
use rpg_server.Bags.{
  Bag, BagSlotItem, is_valid_slot, get_item_by_slot, set_item_by_slot, clear_item_by_slot,
  write_item, add_to_bag, remove_from_bag, merge_items, split_in_bag,
}
use rpg_server.Bags.Totals.{get_item-find, merged, remaining, part, split_slots}

abbrev pub IsStack : ℕ → ℕ → BagSlotItem → Type 0
IsStack max_slot slot it =
    (slot < max_slot) × (0 < it.item_id) × (0 < it.count) × (it.count < u32_mod)

pub record IsWell (b : Bag) : Type 0 where
  pub distinct : Distinct b.slot_items
  pub stacks : Every (IsStack b.max_slot) b.slot_items

abbrev pub put_item : Bag → ℕ → BagSlotItem → Bag
put_item b slot it = record b { slot_items = insert slot it b.slot_items }

abbrev pub drop_item : Bag → ℕ → Bag
drop_item b slot = record b { slot_items = erase slot b.slot_items }

put_item-IsWell :
    (b : Bag) (slot : ℕ) (it : BagSlotItem)
    → IsWell b
    → IsStack b.max_slot slot it
    → IsWell (put_item b slot it)
put_item-IsWell b slot it w s = record {
  distinct = insert-Distinct slot it b.slot_items w.distinct;
  stacks = insert-Every (IsStack b.max_slot) slot it b.slot_items s w.stacks;
}

drop_item-IsWell : (b : Bag) (slot : ℕ) → IsWell b → IsWell (drop_item b slot)
drop_item-IsWell b slot w = record {
  distinct = erase-Distinct slot b.slot_items w.distinct;
  stacks = erase-Every (IsStack b.max_slot) slot b.slot_items w.stacks;
}

-- An item that a lookup gives.
pub get_item-IsStack :
    (b : Bag) (slot : ℕ) (it : BagSlotItem)
    → IsWell b
    → get_item_by_slot b slot ≡ some it
    → IsStack b.max_slot slot it
get_item-IsStack b slot it w e =
    find-Every (IsStack b.max_slot) slot b.slot_items w.stacks (get_item-find b slot it e).0

-- A bag that an operation leaves: well formed and of the same type.
abbrev pub Keeps : Bag → Bag → Type 0
Keeps b b' = IsWell b' × (b'.bag_type ≡ b.bag_type)

add_slots_new :
    (b : Bag) (slot item_id count : ℕ) {b' : Bag}
    → get_item_by_slot b slot ≡ none
    → add_to_bag b slot item_id count ≡ some b'
    → (b' ≡ put_item b slot (record { item_id = item_id; count = count }))
      × (slot < b.max_slot)
      × (0 < item_id)
      × (0 < count)
unfolding add_to_bag set_item_by_slot write_item is_valid_slot
add_slots_new b slot item_id count e h = ground (arith, e)

add_slots_old :
    (b : Bag) (slot item_id count : ℕ) (it : BagSlotItem) {b' : Bag}
    → get_item_by_slot b slot ≡ some it
    → add_to_bag b slot item_id count ≡ some b'
    → (b' ≡ put_item b slot (record it { count = it.count + count })) × (it.count + count < u32_mod)
unfolding add_to_bag set_item_by_slot write_item is_valid_slot
add_slots_old b slot item_id count it e h = ground (arith, e)

pub add_to_bag-Keeps :
    (b : Bag) (slot item_id count : ℕ) {b' : Bag}
    → IsWell b
    → count < u32_mod
    → add_to_bag b slot item_id count ≡ some b'
    → Keeps b b'
add_to_bag-Keeps b slot item_id count w k h = elim (Option-cases (get_item_by_slot b slot)) [
  | inl e ↦
      let (r, valid, i, c) = add_slots_new b slot item_id count e h in
      subst (Keeps b) (sym r) (put_item-IsWell b slot _ w (valid, i, c, k), refl)
  | inr (it, e) ↦
      let (r, fits) = add_slots_old b slot item_id count it e h in
      let (valid, i, c, _) = get_item-IsStack b slot it w e in
      subst (Keeps b) (sym r) (put_item-IsWell b slot _ w (valid, i, omega arith, fits), refl)
]

remove_slots :
    (b : Bag) (slot count : ℕ) (it : BagSlotItem) {b' : Bag}
    → get_item_by_slot b slot ≡ some it
    → remove_from_bag b slot count ≡ some b'
    → ((b' ≡ put_item b slot (remaining it count)) × (count < it.count))
      ⊎ ((b' ≡ drop_item (put_item b slot (remaining it count)) slot) × (count ≡ it.count))
unfolding remove_from_bag clear_item_by_slot write_item is_valid_slot
remove_slots b slot count it e h = ground (arith, e)

pub remove_needs_item :
    (b : Bag) (slot count : ℕ) {b' : Bag}
    → remove_from_bag b slot count ≡ some b'
    → (it : BagSlotItem) × (get_item_by_slot b slot ≡ some it)
unfolding remove_from_bag
remove_needs_item b slot count h = elim (Option-cases (get_item_by_slot b slot)) [
  | inl e ↦ absurd (ground (arith, e))
  | inr found ↦ found
]

pub remove_from_bag-Keeps :
    (b : Bag) (slot count : ℕ) {b' : Bag}
    → IsWell b
    → remove_from_bag b slot count ≡ some b'
    → Keeps b b'
remove_from_bag-Keeps b slot count w h =
    let (it, e) = remove_needs_item b slot count h in
    let (valid, i, c, k) = get_item-IsStack b slot it w e in
    elim (remove_slots b slot count it e h) [
      | inl (r, less) ↦
          subst (Keeps b) (sym r)
            (put_item-IsWell b slot _ w (valid, i, omega arith, omega arith), refl)
      | inr (r, _) ↦ subst (Keeps b) (sym r) (
        rw (erase-insert slot (remaining it count) b.slot_items) (drop_item-IsWell b slot w),
        refl,
      )
    ]

merge_slots :
    (b : Bag) (src_slot dst_slot : ℕ) (src dst : BagSlotItem) {b' : Bag}
    → src_slot < b.max_slot
    → merge_items b src_slot dst_slot src dst ≡ some b'
    → b' ≡ drop_item (put_item b dst_slot (merged src dst)) src_slot
unfolding merge_items clear_item_by_slot write_item is_valid_slot
merge_slots b src_slot dst_slot src dst v h = ground arith

-- mergeItem, where the sum of the two stacks is below 2^32.
pub merge_items-Keeps :
    (b : Bag) (src_slot dst_slot : ℕ) (src dst : BagSlotItem) {b' : Bag}
    → IsWell b
    → get_item_by_slot b src_slot ≡ some src
    → get_item_by_slot b dst_slot ≡ some dst
    → src.count + dst.count < u32_mod
    → merge_items b src_slot dst_slot src dst ≡ some b'
    → Keeps b b'
merge_items-Keeps b src_slot dst_slot src dst w es ed k h =
    let (valid, i, c, _) = get_item-IsStack b dst_slot dst w ed in
    let (valid', _, _, _) = get_item-IsStack b src_slot src w es in
    subst (Keeps b) (sym (merge_slots b src_slot dst_slot src dst valid' h)) (
      drop_item-IsWell (put_item b dst_slot (merged src dst)) src_slot
          (put_item-IsWell b dst_slot (merged src dst) w (valid, i, omega arith, omega arith)),
      refl,
    )

pub split_needs_item :
    (b : Bag) (src_slot dst_slot split_count : ℕ) {b' : Bag}
    → split_in_bag b src_slot dst_slot split_count ≡ some b'
    → (it : BagSlotItem) × (get_item_by_slot b src_slot ≡ some it)
unfolding split_in_bag
split_needs_item b src_slot dst_slot split_count h =
    elim (Option-cases (get_item_by_slot b src_slot)) [
      | inl e ↦ absurd (ground (arith, e))
      | inr found ↦ found
    ]

pub split_in_bag-Keeps :
    (b : Bag) (src_slot dst_slot split_count : ℕ) {b' : Bag}
    → IsWell b
    → 0 < split_count
    → split_in_bag b src_slot dst_slot split_count ≡ some b'
    → Keeps b b'
split_in_bag-Keeps b src_slot dst_slot split_count w k h =
    let (src, e) = split_needs_item b src_slot dst_slot split_count h in
    let (valid, i, c, n) = get_item-IsStack b src_slot src w e in
    let (_, valid', less, r) = split_slots b src_slot dst_slot split_count src e i k h in
    let first : Bag = put_item b src_slot (remaining src split_count) in
    subst (Keeps b) (sym r) (
      put_item-IsWell first dst_slot (part src split_count)
          (put_item-IsWell b src_slot (remaining src split_count) w
            (valid, i, omega arith, omega arith))
          (valid', i, k, omega arith),
      refl,
    )
