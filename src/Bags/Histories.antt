-- ===== src/Bags/Histories.antt =====
-- Whole histories of calls on a player's bags, SceneServer/BagManager.cpp.
use rpg_server.Base.{
  ℕ, ◌+◌, ◌<◌, ◌≡◌, refl, sym, ap, subst, inl, inr, Bool, true, false, ◌||◌, Option, some, arith,
  ◌==◌, Bool-cases, Option-cases, nat_eq, keep, u32_mod,
}
use rpg_server.Bags.{
  Bag, BagSlotItem, BagType, BagManager, find_bag_by_type, store_bag_in, on_bag, add_item,
  remove_item, merge_item, split_item, add_to_bag, remove_from_bag, merge_in_bag, merge_items,
  split_in_bag, get_item_by_slot, init, save, load,
}
use rpg_server.Bags.Invariant.{
  IsWell, add_to_bag-Keeps, remove_from_bag-Keeps, merge_items-Keeps, split_in_bag-Keeps,
}
use rpg_server.Bags.Operations.{AllWell, find_bag-All, write_bag-All, on_bag_done, on_bag_refused}

pub data Call : Type 0 where
  adds : BagType → ℕ → ℕ → ℕ → Call
  removes : BagType → ℕ → ℕ → Call
  merges : BagType → ℕ → ℕ → Call
  splits : BagType → ℕ → ℕ → ℕ → Call
  inits saves loads : Call

abbrev pub serve : BagManager → Call → Bool × BagManager
serve m (adds t slot item_id count) = add_item m t slot item_id count
serve m (removes t slot count) = remove_item m t slot count
serve m (merges t src_slot dst_slot) = merge_item m t src_slot dst_slot
serve m (splits t src_slot dst_slot split_count) = split_item m t src_slot dst_slot split_count
serve m inits = (true, init m)
serve m saves = (true, save m)
serve m loads = (true, load m)

-- A call with a count of 32 bits, and whose merge stays below 2^32.
abbrev pub IsSafe : BagManager → Call → Type 0
IsSafe m (adds t slot item_id count) = count < u32_mod
IsSafe m (merges t src_slot dst_slot) =
    (b : Bag) (src dst : BagSlotItem)
    → find_bag_by_type t m.bag_list ≡ some b
    → get_item_by_slot b src_slot ≡ some src
    → get_item_by_slot b dst_slot ≡ some dst
    → src.count + dst.count < u32_mod
IsSafe m _ = Unit {0}

on_bag-AllWell :
    (m : BagManager) (t : BagType) (op : Bag → Option Bag)
    → AllWell m
    → ((b : Bag) (b' : Bag)
        → IsWell b
        → find_bag_by_type t m.bag_list ≡ some b
        → op b ≡ some b'
        → IsWell b')
    → AllWell (on_bag m t op).1
unfolding store_bag_in
on_bag-AllWell m t op w keep = elim (Bool-cases (on_bag m t op).0) [
  | inr refused ↦ subst AllWell (sym (on_bag_refused m t op refused)) w
  | inl done ↦
      let (b, b', e, f, r) = on_bag_done m t op done in
      subst AllWell (sym r)
        (write_bag-All t b' m.bag_list (keep b b' (find_bag-All t m.bag_list w e) e f) w)
]

merge_parts :
    (b : Bag) (src_slot dst_slot : ℕ) {b' : Bag}
    → merge_in_bag b src_slot dst_slot ≡ some b'
    → (src : BagSlotItem) × (dst : BagSlotItem) × (get_item_by_slot b src_slot ≡ some src)
      × (get_item_by_slot b dst_slot ≡ some dst)
      × (merge_items b src_slot dst_slot src dst ≡ some b')
unfolding merge_in_bag
merge_parts b src_slot dst_slot h = elim (Option-cases (get_item_by_slot b src_slot)) [
  | inl e ↦ absurd (ground (arith, e))
  | inr (src, e) ↦ elim (Option-cases (get_item_by_slot b dst_slot)) [
    | inl f ↦ absurd (ground (arith, e, f))
    | inr (dst, f) ↦ (src, dst, e, f, ground (arith, e, f))
  ]
]

-- Every call of BagManager keeps all bags well formed, adding a count of 32 bits and merging stacks
-- whose sum is below 2^32: one stack for a slot, slots below the bag's limit, no item 0, no empty
-- stack, no count of 2^32 or more.
pub serve-AllWell :
    (m : BagManager) (call : Call) → IsSafe m call → AllWell m → AllWell (serve m call).1
unfolding add_item remove_item merge_item split_item init save load
serve-AllWell m (adds t slot item_id count) s w =
    on_bag-AllWell m t (λ b. add_to_bag b slot item_id count) w
      (λ b b' v _ h. (add_to_bag-Keeps b slot item_id count v s h).0)
serve-AllWell m (removes t slot count) s w =
    on_bag-AllWell m t (λ b. remove_from_bag b slot count) w
      (λ b b' v _ h. (remove_from_bag-Keeps b slot count v h).0)
serve-AllWell m (merges t src_slot dst_slot) s w = elim (Bool-cases (src_slot == dst_slot)) [
  | inl same ↦ rw same w
  | inr other ↦ rw other (
      on_bag-AllWell m t (λ b. merge_in_bag b src_slot dst_slot) w
        (λ b b' v found h.
          let (src, dst, es, ed, f) = merge_parts b src_slot dst_slot h in
          (merge_items-Keeps b src_slot dst_slot src dst v es ed (s b src dst found es ed) f).0))
]
serve-AllWell m (splits t src_slot dst_slot split_count) s w =
    elim (Bool-cases (src_slot == dst_slot || split_count == 0)) [
      | inl bad ↦ rw bad w
      | inr fine ↦ rw fine (
          on_bag-AllWell m t (λ b. split_in_bag b src_slot dst_slot split_count) w
            (λ b b' v _ h.
              (split_in_bag-Keeps b src_slot dst_slot split_count v (ground arith) h).0))
    ]
serve-AllWell m inits s w =
    (record { distinct = tt; stacks = tt }, (record { distinct = tt; stacks = tt }, tt))
serve-AllWell m saves s w = w
serve-AllWell m loads s w =
    (record { distinct = tt; stacks = tt }, (record { distinct = tt; stacks = tt }, tt))

-- What a call that is accepted leaves in the dirty flag.
abbrev pub dirties : Call → Bool
dirties inits = false
dirties saves = false
dirties loads = false
dirties _ = true

abbrev pub Reports : BagManager → Bool → Bool × BagManager → Type 0
Reports m flag (done, m') = (done ≡ false → m' ≡ m) × (done ≡ true → m'.dirty ≡ flag)

on_bag-Reports :
    (m : BagManager) (t : BagType) (op : Bag → Option Bag) → Reports m true (on_bag m t op)
unfolding store_bag_in
on_bag-Reports m t op = (
  on_bag_refused m t op,
  λ done. let (b, b', e, f, r) = on_bag_done m t op done in ap (λ (x : BagManager). x.dirty) r,
)

refused-Reports : (m : BagManager) → Reports m true (false, m)
refused-Reports m = (λ _. refl, λ h. cc)

-- A call that answers false changes nothing, not even the dirty flag. One that answers true leaves
-- the flag set if it is addItem, removeItem, mergeItem or splitItem, and clear if it is init, save
-- or load.
serve-Reports : (m : BagManager) (call : Call) → Reports m (dirties call) (serve m call)
unfolding add_item remove_item merge_item split_item init save load
serve-Reports m (adds t slot item_id count) =
    on_bag-Reports m t (λ b. add_to_bag b slot item_id count)
serve-Reports m (removes t slot count) = on_bag-Reports m t (λ b. remove_from_bag b slot count)
serve-Reports m (merges t src_slot dst_slot) = elim (Bool-cases (src_slot == dst_slot)) [
  | inl same ↦ rw same (refused-Reports m)
  | inr other ↦ rw other (on_bag-Reports m t (λ b. merge_in_bag b src_slot dst_slot))
]
serve-Reports m (splits t src_slot dst_slot split_count) =
    elim (Bool-cases (src_slot == dst_slot || split_count == 0)) [
      | inl bad ↦ rw bad (refused-Reports m)
      | inr fine ↦ rw fine (on_bag-Reports m t (λ b. split_in_bag b src_slot dst_slot split_count))
    ]
serve-Reports m inits = (λ h. cc, λ _. refl)
serve-Reports m saves = (λ h. cc, λ _. refl)
serve-Reports m loads = (λ h. cc, λ _. refl)
