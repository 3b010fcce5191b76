-- ===== src/Bags/Operations.antt =====
-- The operations of BagManager.cpp on the whole list of bags: what they refuse, and what a player
-- owns before and after.
use rpg_server.Base.{
  ℕ, ◌+◌, ◌≡◌, ap, subst, ◌∙◌, inl, inr, true, false, Option, some, List, [], ◌∷◌, arith, ◌==◌,
  if◌then◌else◌, Bool-cases, Option-cases, nat_eq,
}
use rpg_server.Bags.{
  remove_from_bag, get_item_by_slot, remove_item, BagSlotItem, Bag, BagType, BagManager, same_type,
  find_bag_by_type, write_bag, store_bag_in, on_bag, add_item, add_to_bag,
}
use rpg_server.Bags.Totals.{held-remove_from_bag, held, held-add_to_bag}
use rpg_server.Bags.Invariant.{IsWell}

abbrev pub owned_in : ℕ → List Bag → ℕ
owned_in id [] = 0
owned_in id (b ∷ bs) = held id b + owned_in id bs

-- How many of an item the player has, in all bags.
abbrev pub owned : ℕ → BagManager → ℕ
owned id m = owned_in id m.bag_list

abbrev pub All {ℓ κ} : {A : Type ℓ} → (A → Type κ) → List A → Type κ
All P [] = Unit
All P (x ∷ xs) = P x × All P xs

abbrev pub AllWell : BagManager → Type 0
AllWell m = All IsWell m.bag_list

pub find_bag-All :
    (t : BagType) (bs : List Bag) {b : Bag}
    → All IsWell bs
    → find_bag_by_type t bs ≡ some b
    → IsWell b
unfolding find_bag_by_type
find_bag-All t [] w h = cc
find_bag-All t (c ∷ cs) {b} w h = elim (Bool-cases (same_type c.bag_type t)) [
  | inl same ↦ subst IsWell (cc (rw same at h)) w.0
  | inr other ↦ find_bag-All t cs w.1 (rw other at h)
]

pub write_bag-All :
    (t : BagType) (b : Bag) (bs : List Bag)
    → IsWell b
    → All IsWell bs
    → All IsWell (write_bag t b bs)
unfolding write_bag
write_bag-All t b [] w a = tt
write_bag-All t b (c ∷ cs) w a = elim (Bool-cases (same_type c.bag_type t)) [
  | inl same ↦ rw same (w, a.1)
  | inr other ↦ rw other (a.0, write_bag-All t b cs w a.1)
]

pub owned-write_bag :
    (id : ℕ) (t : BagType) (b b' : Bag) (bs : List Bag)
    → find_bag_by_type t bs ≡ some b
    → owned_in id (write_bag t b' bs) + held id b ≡ owned_in id bs + held id b'
unfolding write_bag find_bag_by_type
owned-write_bag id t b b' [] h = cc
owned-write_bag id t b b' (c ∷ cs) h = elim (Bool-cases (same_type c.bag_type t)) [
  | inl same ↦ let q : c ≡ b = cc (rw same at h) in rw same (omega (arith, ap (held id) q))
  | inr other ↦ rw other (omega (arith, owned-write_bag id t b b' cs (rw other at h)))
]

-- A successful operation found a bag, and put its result in the bag's place.
pub on_bag_done :
    (m : BagManager) (t : BagType) (op : Bag → Option Bag)
    → (on_bag m t op).0 ≡ true
    → (b : Bag) × (b' : Bag) × (find_bag_by_type t m.bag_list ≡ some b)
      × (op b ≡ some b')
      × ((on_bag m t op).1 ≡ store_bag_in m t b')
unfolding on_bag
on_bag_done m t op h = elim (Option-cases (find_bag_by_type t m.bag_list)) [
  | inl e ↦ absurd (ground (arith, e))
  | inr (b, e) ↦ elim (Option-cases (op b)) [
    | inl f ↦ absurd (ground (arith, e, f))
    | inr (b', f) ↦ (b, b', e, f, ground (arith, e, f))
  ]
]

pub on_bag_refused :
    (m : BagManager) (t : BagType) (op : Bag → Option Bag)
    → (on_bag m t op).0 ≡ false
    → (on_bag m t op).1 ≡ m
unfolding on_bag
on_bag_refused m t op h = elim (Option-cases (find_bag_by_type t m.bag_list)) [
  | inl e ↦ ground (arith, e)
  | inr (b, e) ↦ elim (Option-cases (op b)) [
    | inl f ↦ ground (arith, e, f)
    | inr (b', f) ↦ absurd (ground (arith, e, f))
  ]
]

-- addItem, when it answers true, adds `count` of the item to what the player has, and nothing else.
pub add_item_accounts :
    (m : BagManager) (t : BagType) (slot item_id count id : ℕ)
    → (add_item m t slot item_id count).0 ≡ true
    → owned id (add_item m t slot item_id count).1
      ≡ owned id m + (if item_id == id then count else 0)
unfolding add_item store_bag_in
add_item_accounts m t slot item_id count id h =
    let (b, b', e, f, r) = on_bag_done m t (λ b. add_to_bag b slot item_id count) h in
    ap (owned id) r
    ∙ (omega
        (arith, owned-write_bag id t b b' m.bag_list e, held-add_to_bag b slot item_id count id f))

pub same_bag :
    (m : BagManager) (t : BagType) {b c : Bag}
    → find_bag_by_type t m.bag_list ≡ some b
    → find_bag_by_type t m.bag_list ≡ some c
    → b ≡ c
same_bag m t p q = cc

pub same_stack :
    (b : Bag) (slot : ℕ) {x y : BagSlotItem}
    → get_item_by_slot b slot ≡ some x
    → get_item_by_slot b slot ≡ some y
    → x ≡ y
same_stack b slot p q = cc

-- removeItem on well-formed bags, when it answers true, takes `count` of the item in that slot from
-- what the player has, and nothing else. `it` is the item in the slot of the bag of that type.
remove_item_accounts :
    (m : BagManager) (t : BagType) (slot count id : ℕ) (b : Bag) (it : BagSlotItem)
    → AllWell m
    → find_bag_by_type t m.bag_list ≡ some b
    → get_item_by_slot b slot ≡ some it
    → (remove_item m t slot count).0 ≡ true
    → owned id (remove_item m t slot count).1 + (if it.item_id == id then count else 0) ≡ owned id m
unfolding remove_item store_bag_in
remove_item_accounts m t slot count id b it w found at h =
    let (c, b', e, f, r) = on_bag_done m t (λ b. remove_from_bag b slot count) h in
    let f' : remove_from_bag b slot count ≡ some b' = rw (same_bag m t found e) f in
    let well : IsWell b = find_bag-All t m.bag_list w found in
    let taken = held-remove_from_bag b slot count id it well.distinct at f' in
    let moved = owned-write_bag id t b b' m.bag_list found in rw r (omega (arith, moved, taken))
