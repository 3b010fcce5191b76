-- ===== src/Registry/Walks.antt =====
-- The walks of pickByZone in LoginServer/LoginGatewayRegistry.cpp over the gateways of a zone.
use rpg_server.Base.{
  ℕ, zero, suc, ◌%◌, ◌≤◌, ◌<◌, ◌≡◌, refl, sym, ap, subst, inl, inr, true, Option, none, some, List,
  [], ◌∷◌, arith, ltb, ◌==◌, if◌then◌else◌, ltb→lt, ==_iff, Bool-cases, Option-cases, nat_eq,
  length, Table, find,
}
use native.Mathlib.Nat.{mod-lt}
use rpg_server.Registry.{GatewayEntry, Best, best_of, tied_of, take_turn, nth}

abbrev pub AllOf {ℓ} : (ℕ → Type ℓ) → List ℕ → Type ℓ
AllOf P [] = Unit
AllOf P (x ∷ xs) = P x × AllOf P xs

-- No entry of these numbers has fewer clients.
abbrev pub AtMost : Table ℕ GatewayEntry → ℕ → List ℕ → Type 0
AtMost m n ids = AllOf (λ id. (e : GatewayEntry) → find id m ≡ some e → n ≤ e.online_count) ids

-- The next of a walk that looks for the best.
abbrev next_best : ℕ → Option GatewayEntry → Best → Best
next_best id none b = b
next_best id (some e) b =
    if ltb e.online_count b.online
    then record { id = id; online = e.online_count; has = true }
    else b

best_of_next :
    (m : Table ℕ GatewayEntry) (id : ℕ) (ids : List ℕ) (b : Best)
    → best_of m ids (next_best id (find id m) b) ≡ best_of m (id ∷ ids) b
unfolding best_of
best_of_next m id ids b = elim (Option-cases (find id m)) [
  | inl gone ↦ rw (gone, best_of) refl
  | inr (e, there) ↦ elim (Bool-cases (ltb e.online_count b.online)) [
    | inl better ↦ rw (there, best_of, better) refl
    | inr worse ↦ rw (there, best_of, worse) refl
  ]
]

next_best_online :
    (id : ℕ) (found : Option GatewayEntry) (b : Best)
    → ((next_best id found b).online ≤ b.online)
      × ((e : GatewayEntry) → found ≡ some e → (next_best id found b).online ≤ e.online_count)
next_best_online id none b = (omega arith, λ e there. cc)
next_best_online id (some e) b = elim (Bool-cases (ltb e.online_count b.online)) [
  | inl better ↦ rw better (
    omega (arith, ltb→lt e.online_count b.online better),
    λ e' there.
        let q : e ≡ e' = cc there in omega (arith, ap (λ (x : GatewayEntry). x.online_count) q),
  )
  | inr worse ↦
      let no_less : b.online ≤ e.online_count = ground (arith, worse) in
      rw worse (
        omega arith,
        λ e' there.
            let q : e ≡ e' = cc there in
            omega (arith, no_less, ap (λ (x : GatewayEntry). x.online_count) q),
      )
]

-- The best of a walk is as good as the best before it and as each entry walked over.
pub best_of-AtMost :
    (m : Table ℕ GatewayEntry) (ids : List ℕ) (b : Best)
    → ((best_of m ids b).online ≤ b.online) × AtMost m (best_of m ids b).online ids
unfolding best_of
best_of-AtMost m [] b = (omega arith, tt)
best_of-AtMost m (id ∷ ids) b =
    let step = next_best_online id (find id m) b in
    let ih = best_of-AtMost m ids (next_best id (find id m) b) in
    subst (λ r. (r.online ≤ b.online) × AtMost m r.online (id ∷ ids)) (best_of_next m id ids b)
      (omega (arith, ih.0, step.0), (λ e there. omega (arith, ih.0, step.1 e there), ih.1))

nth-AllOf {ℓ} :
    (P : ℕ → Type ℓ) (n : ℕ) (x : ℕ) (xs : List ℕ)
    → n < length (x ∷ xs)
    → AllOf P (x ∷ xs)
    → P (nth n (x ∷ xs))
nth-AllOf P zero x xs h w = w.0
nth-AllOf P (suc n) x [] h w = absurd (omega (arith, h))
nth-AllOf P (suc n) x (y ∷ ys) h w = nth-AllOf P n y ys (omega (arith, h)) w.1

-- An entry with this number of clients, whose number has a property.
abbrev pub IsTied : (ℕ → Type 0) → Table ℕ GatewayEntry → ℕ → ℕ → Type 0
IsTied P m online id =
    P id × ((e : GatewayEntry) × (find id m ≡ some e) × (e.online_count ≡ online))

next_best-IsTied :
    (P : ℕ → Type 0) (m : Table ℕ GatewayEntry) (id : ℕ) (found : Option GatewayEntry) (b : Best)
    → find id m ≡ found
    → P id
    → (b.has ≡ true → IsTied P m b.online b.id)
    → (next_best id found b).has ≡ true
    → IsTied P m (next_best id found b).online (next_best id found b).id
next_best-IsTied P m id none b there p good = good
next_best-IsTied P m id (some e) b there p good = elim (Bool-cases (ltb e.online_count b.online)) [
  | inl better ↦ rw better (λ has. (p, (e, there, refl)))
  | inr worse ↦ rw worse good
]

pub best_of-IsTied :
    (P : ℕ → Type 0) (m : Table ℕ GatewayEntry) (ids : List ℕ) (b : Best)
    → AllOf P ids
    → (b.has ≡ true → IsTied P m b.online b.id)
    → (best_of m ids b).has ≡ true
    → IsTied P m (best_of m ids b).online (best_of m ids b).id
unfolding best_of
best_of-IsTied P m [] b w good has = good has
best_of-IsTied P m (id ∷ ids) b w good has =
    let found = find id m in
    let good' = next_best-IsTied P m id found b refl w.0 good in
    subst (λ r. IsTied P m r.online r.id) (best_of_next m id ids b)
      (best_of-IsTied P m ids (next_best id found b) w.1 good'
        (subst (λ r. r.has ≡ true) (sym (best_of_next m id ids b)) has))

-- The tied have the number of clients looked for, and are among those walked over.
pub tied_of-AllOf :
    (P : ℕ → Type 0) (m : Table ℕ GatewayEntry) (online : ℕ) (ids : List ℕ)
    → AllOf P ids
    → AllOf (IsTied P m online) (tied_of m online ids)
unfolding tied_of
tied_of-AllOf P m online [] w = tt
tied_of-AllOf P m online (id ∷ ids) w =
    let rest = tied_of-AllOf P m online ids w.1 in
    elim (Option-cases (find id m)) [
      | inl gone ↦ rw (gone, tied_of) rest
      | inr (e, there) ↦ elim (Bool-cases (e.online_count == online)) [
        | inl tie ↦
            rw (there, tied_of, tie) ((w.0, (e, there, (==_iff e.online_count online).0 tie)), rest)
        | inr other ↦ rw (there, tied_of, other) rest
      ]
    ]

pub take_turn-AllOf :
    (Q : ℕ → Type 0) (best rr : ℕ) (ids : List ℕ)
    → Q best
    → AllOf Q ids
    → Q (take_turn best rr ids).0
unfolding take_turn
take_turn-AllOf Q best rr [] q w = q
take_turn-AllOf Q best rr (id ∷ []) q w = w.0
take_turn-AllOf Q best rr (id ∷ id' ∷ ids) q w =
    nth-AllOf Q (rr % length (id ∷ id' ∷ ids)) id (id' ∷ ids) (mod-lt rr (omega arith)) w
