-- ===== src/Registry/Choice.antt =====
-- Which gateway pickByZone of LoginServer/LoginGatewayRegistry.cpp chooses.
use rpg_server.Base.{
  ℕ, ◌≤◌, ◌≡◌, refl, sym, ap, subst, ◌∙◌, inl, inr, true, false, none, some, [], ◌∷◌, arith, ◌==◌,
  ==_iff, Bool-cases, nat_eq, Table, find, beq_refl, Distinct, Every, map-Every,
}
use rpg_server.Registry.{
  GatewayEntry, Registry, serves, zone_ids, zone_key, Best, best_of, tied_of, take_turn,
  pick_by_zone,
}
use rpg_server.Registry.Walks.{
  AllOf, AtMost, IsTied, best_of-AtMost, best_of-IsTied, tied_of-AllOf, take_turn-AllOf,
}

-- The entry of a number serves the zone.
abbrev Serves : ℕ → ℕ → Table ℕ GatewayEntry → ℕ → Type 0
Serves zone kind m id = (e : GatewayEntry) × (find id m ≡ some e) × (serves zone kind e ≡ true)

-- What is true of all numbers of a zone's gateways, in a larger table.
zone_ids-AllOf :
    (P : ℕ → Type 0) (zone kind : ℕ) (m : Table ℕ GatewayEntry)
    → Every (λ id e. serves zone kind e ≡ true → P id) m
    → AllOf P (zone_ids zone kind m)
unfolding zone_ids
zone_ids-AllOf P zone kind [] w = tt
zone_ids-AllOf P zone kind ((id, e) ∷ m) w = elim (Bool-cases (serves zone kind e)) [
  | inl there ↦ rw there (w.0 there, zone_ids-AllOf P zone kind m w.1)
  | inr other ↦ rw other (zone_ids-AllOf P zone kind m w.1)
]

AllOf-zone_ids :
    (P : ℕ → Type 0) (zone kind : ℕ) (m : Table ℕ GatewayEntry) (id : ℕ) (e : GatewayEntry)
    → AllOf P (zone_ids zone kind m)
    → find id m ≡ some e
    → serves zone kind e ≡ true
    → P id
unfolding zone_ids find
AllOf-zone_ids P zone kind [] id e w there here = cc
AllOf-zone_ids P zone kind ((k, v) ∷ m) id e w there here = elim (Bool-cases (k == id)) [
  | inl same ↦
      let q : some v ≡ some e = rw same at there in
      let r : v ≡ e = cc q in
      let good : serves zone kind v ≡ true = subst (λ x. serves zone kind x ≡ true) (sym r) here in
      let w' = rw good at w in subst P ((==_iff k id).0 same) w'.0
  | inr apart ↦
      let there' = rw apart at there in
      elim (Bool-cases (serves zone kind v)) [
        | inl good ↦ let w' = rw good at w in AllOf-zone_ids P zone kind m id e w'.1 there' here
        | inr bad ↦ let w' = rw bad at w in AllOf-zone_ids P zone kind m id e w' there' here
      ]
]

-- The entries of a table are found.
all_found : (m : Table ℕ GatewayEntry) → Distinct m → Every (λ id e. find id m ≡ some e) m
unfolding find
all_found [] d = tt
all_found ((k, v) ∷ m) d = (
  rw (beq_refl k) refl,
  map-Every _ _ m
      (λ id e there. elim (Bool-cases (k == id)) [
        | inl same ↦ let gone = subst (λ x. find x m ≡ none) ((==_iff k id).0 same) d.0 in absurd cc
        | inr apart ↦ rw apart there
      ])
      (all_found m d.1),
)

chosen_least :
    (zone kind : ℕ) (m : Table ℕ GatewayEntry) (n k : ℕ) (e : GatewayEntry)
    → find k m ≡ some e
    → IsTied (Serves zone kind m) m n k
    → AtMost m n (zone_ids zone kind m)
    → (serves zone kind e ≡ true)
      × ((id : ℕ)
          → (o : GatewayEntry) → find id m ≡ some o
          → serves zone kind o ≡ true
          → e.online_count ≤ o.online_count)
chosen_least zone kind m n k e there tied low =
    let ((e1, there1, here1), (e2, there2, online)) = tied in
    let q1 : some e1 ≡ some e = sym there1 ∙ there in
    let q2 : some e2 ≡ some e = sym there2 ∙ there in
    let same1 : e1 ≡ e = cc q1 in
    let same2 : e2 ≡ e = cc q2 in
    (
      subst (λ x. serves zone kind x ≡ true) same1 here1,
      λ id o at good. omega (
        arith,
        AllOf-zone_ids (λ j. (x : GatewayEntry) → find j m ≡ some x → n ≤ x.online_count) zone kind
            m id o low at good o at,
        online,
        ap (λ (x : GatewayEntry). x.online_count) same2,
      ),
    )

-- pickByZone chooses a gateway of the zone and of the kind of game, and none of these has fewer clients.
pub pick_by_zone_least :
    (zone kind : ℕ) (r : Registry) (e : GatewayEntry)
    → Distinct r.entries
    → (pick_by_zone zone kind r).0 ≡ some e
    → (serves zone kind e ≡ true)
      × ((id : ℕ)
          → (o : GatewayEntry) → find id r.entries ≡ some o
          → serves zone kind o ≡ true
          → e.online_count ≤ o.online_count)
unfolding pick_by_zone
pick_by_zone_least zone kind r e d picked =
    let m = r.entries in
    let ids = zone_ids zone kind m in
    let b0 : Best = record { id = 0; online = 4294967295; has = false } in
    let best = best_of m ids b0 in
    let rr = elim (find (zone_key zone kind) r.zone_rr_index) as (λ _. ℕ) [
      | none ↦ 0
      | some n ↦ n
    ] in
    let turn = take_turn best.id rr (tied_of m best.online ids) in
    let all : AllOf (Serves zone kind m) ids =
      zone_ids-AllOf _ zone kind m
        (map-Every _ _ m (λ id o there here. (o, there, here)) (all_found m d)) in
    elim (Bool-cases best.has) [
      | inr nobody ↦ absurd (let q = rw nobody at picked in cc)
      | inl some_best ↦
          let there : find turn.0 m ≡ some e = rw some_best at picked in
          let tied : IsTied (Serves zone kind m) m best.online turn.0 =
            take_turn-AllOf (IsTied (Serves zone kind m) m best.online) best.id rr
              (tied_of m best.online ids)
              (best_of-IsTied (Serves zone kind m) m ids b0 all (λ h. cc) some_best)
              (tied_of-AllOf (Serves zone kind m) m best.online ids all) in
          chosen_least zone kind m best.online turn.0 e there tied (best_of-AtMost m ids b0).1
    ]
