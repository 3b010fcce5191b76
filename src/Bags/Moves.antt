-- ===== src/Bags/Moves.antt =====
-- Moving items between the slots of a bag, mergeItem and splitItem of BagManager.cpp: what the player
-- owns before and after.
use rpg_server.Base.{ℕ, ◌+◌, ◌≤◌, ◌<◌, ◌≡◌, ◌≢◌, true, some, arith, nat_eq, u32_mod}
use rpg_server.Bags.{
  merge_items, split_in_bag, merge_in_bag, get_item_by_slot, split_item, merge_item, BagSlotItem,
  Bag, BagType, BagManager, find_bag_by_type, store_bag_in, on_bag,
}
use rpg_server.Bags.Totals.{held-merge_in_bag, held-split_in_bag, merged, share}
use rpg_server.Bags.Invariant.{split_needs_item, get_item-IsStack, IsWell}
use rpg_server.Bags.Operations.{
  owned, AllWell, find_bag-All, owned-write_bag, on_bag_done, same_bag,
}

pub merge_done :
    (m : BagManager) (t : BagType) (src_slot dst_slot : ℕ)
    → (merge_item m t src_slot dst_slot).0 ≡ true
    → (src_slot ≢ dst_slot)
      × ((on_bag m t (λ b. merge_in_bag b src_slot dst_slot)).0 ≡ true)
      × (merge_item m t src_slot dst_slot ≡ on_bag m t (λ b. merge_in_bag b src_slot dst_slot))
unfolding merge_item
merge_done m t src_slot dst_slot h = ground arith

merge_succeeds :
    (m : BagManager) (t : BagType) (src_slot dst_slot : ℕ) (b : Bag) (src dst : BagSlotItem)
    → find_bag_by_type t m.bag_list ≡ some b
    → get_item_by_slot b src_slot ≡ some src
    → get_item_by_slot b dst_slot ≡ some dst
    → src_slot ≢ dst_slot
    → src.item_id ≡ dst.item_id
    → (merge_item m t src_slot dst_slot).0 ≡ true
unfolding merge_item merge_in_bag merge_items
merge_succeeds m t src_slot dst_slot b src dst found es ed ne item = ground (arith, found, es, ed)

-- What mergeItem changes of what the player has: the two stacks go, their wrapped sum comes.
merge_item_balance :
    (m : BagManager) (t : BagType) (src_slot dst_slot id : ℕ) (b : Bag) (src dst : BagSlotItem)
    → AllWell m
    → find_bag_by_type t m.bag_list ≡ some b
    → get_item_by_slot b src_slot ≡ some src
    → get_item_by_slot b dst_slot ≡ some dst
    → (merge_item m t src_slot dst_slot).0 ≡ true
    → (src.item_id ≡ dst.item_id)
      × (owned id (merge_item m t src_slot dst_slot).1 + (share id dst + share id src)
          ≡ owned id m + share id (merged src dst))
unfolding store_bag_in
merge_item_balance m t src_slot dst_slot id b src dst w found es ed h =
    let (ne, done, whole) = merge_done m t src_slot dst_slot h in
    let (c, b', e, f, r) = on_bag_done m t (λ b. merge_in_bag b src_slot dst_slot) done in
    let f' : merge_in_bag b src_slot dst_slot ≡ some b' = rw (same_bag m t found e) f in
    let well : IsWell b = find_bag-All t m.bag_list w found in
    let (same, taken) =
      held-merge_in_bag b src_slot dst_slot id src dst well.distinct ne es ed f' in
    let moved = owned-write_bag id t b b' m.bag_list found in
    (same, rw (whole, r) (omega (arith, moved, taken)))

-- mergeItem on well-formed bags, when it answers true and the two stacks together stay below 2^32,
-- leaves what the player has of every item as it was.
pub merge_item_conserves :
    (m : BagManager) (t : BagType) (src_slot dst_slot id : ℕ) (b : Bag) (src dst : BagSlotItem)
    → AllWell m
    → find_bag_by_type t m.bag_list ≡ some b
    → get_item_by_slot b src_slot ≡ some src
    → get_item_by_slot b dst_slot ≡ some dst
    → src.count + dst.count < u32_mod
    → (merge_item m t src_slot dst_slot).0 ≡ true
    → owned id (merge_item m t src_slot dst_slot).1 ≡ owned id m
merge_item_conserves m t src_slot dst_slot id b src dst w found es ed fits h =
    let (same, moved) = merge_item_balance m t src_slot dst_slot id b src dst w found es ed h in
    let kept : share id (merged src dst) ≡ share id dst + share id src = ground arith in
    omega (arith, moved, kept)

-- mergeItem does not look at the sum: where two stacks of one item in different slots of a
-- well-formed bag together reach 2^32, it answers true and the player has lost 2^32 of that item.
merge_item_loses :
    (m : BagManager) (t : BagType) (src_slot dst_slot : ℕ) (b : Bag) (src dst : BagSlotItem)
    → AllWell m
    → find_bag_by_type t m.bag_list ≡ some b
    → get_item_by_slot b src_slot ≡ some src
    → get_item_by_slot b dst_slot ≡ some dst
    → src_slot ≢ dst_slot
    → src.item_id ≡ dst.item_id
    → u32_mod ≤ src.count + dst.count
    → ((merge_item m t src_slot dst_slot).0 ≡ true)
      × (owned src.item_id (merge_item m t src_slot dst_slot).1 + u32_mod ≡ owned src.item_id m)
merge_item_loses m t src_slot dst_slot b src dst w found es ed ne item wraps =
    let well : IsWell b = find_bag-All t m.bag_list w found in
    let (_, _, _, ks) = get_item-IsStack b src_slot src well es in
    let (_, _, _, kd) = get_item-IsStack b dst_slot dst well ed in
    let h : (merge_item m t src_slot dst_slot).0 ≡ true =
      merge_succeeds m t src_slot dst_slot b src dst found es ed ne item in
    let (_, moved) =
      merge_item_balance m t src_slot dst_slot src.item_id b src dst w found es ed h in
    let lost : share src.item_id (merged src dst) + u32_mod
        ≡ share src.item_id dst + share src.item_id src =
      ground arith in
    (h, omega (arith, moved, lost))

pub split_done :
    (m : BagManager) (t : BagType) (src_slot dst_slot split_count : ℕ)
    → (split_item m t src_slot dst_slot split_count).0 ≡ true
    → (src_slot ≢ dst_slot)
      × (0 < split_count)
      × ((on_bag m t (λ b. split_in_bag b src_slot dst_slot split_count)).0 ≡ true)
      × (split_item m t src_slot dst_slot split_count
          ≡ on_bag m t (λ b. split_in_bag b src_slot dst_slot split_count))
unfolding split_item
split_done m t src_slot dst_slot split_count h = ground arith

-- splitItem on well-formed bags, when it answers true, leaves what the player has of every item as
-- it was.
pub split_item_conserves :
    (m : BagManager) (t : BagType) (src_slot dst_slot split_count id : ℕ)
    → AllWell m
    → (split_item m t src_slot dst_slot split_count).0 ≡ true
    → owned id (split_item m t src_slot dst_slot split_count).1 ≡ owned id m
unfolding store_bag_in
split_item_conserves m t src_slot dst_slot split_count id w h =
    let (ne, k, done, whole) = split_done m t src_slot dst_slot split_count h in
    let (b, b', e, f, r) =
      on_bag_done m t (λ b. split_in_bag b src_slot dst_slot split_count) done in
    let (src, es) = split_needs_item b src_slot dst_slot split_count f in
    let (_, i, _, _) = get_item-IsStack b src_slot src (find_bag-All t m.bag_list w e) es in
    let same = held-split_in_bag b src_slot dst_slot split_count id src ne es i k f in
    let moved = owned-write_bag id t b b' m.bag_list e in rw (whole, r) (omega (arith, moved, same))
