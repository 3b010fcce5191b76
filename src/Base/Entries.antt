-- ===== src/Base/Entries.antt =====
-- Tables whose keys are distinct: sums over their entries, removal by a test, predicates.
use Prim.Native.Nat.{ℕ, ◌+◌}
use mathlib.Core.Path.{◌≡◌, refl, sym, ap, subst, subst₂, ◌∙◌}
use mathlib.Core.Logic.{inl, inr}
use mathlib.Core.Bool.{false, Bool}
use mathlib.Core.List.{[], ◌∷◌}
use mathlib.Core.Option.{Option, none, some}
use native.Mathlib.Omega.{arith}
use rpg_server.Base.Tests.{if◌then◌else◌, Eq, Bool-cases}
use rpg_server.Base.Maps.{Table, find, insert, erase, find-insert, find-erase}

abbrev pub weigh {ℓ} : {V : Type ℓ} → (V → ℕ) → Option V → ℕ
weigh w none = 0
weigh w (some v) = w v

-- What `find` gives where the entries that pass a test have been removed.
abbrev pub unless {ℓ} : {V : Type ℓ} → (V → Bool) → Option V → Option V
unless p none = none
unless p (some v) = if p v then none else some v

module _ {ℓ κ} {K : Type ℓ} {V : Type κ} ⦃e : Eq K⦄ where
  abbrev pub Distinct : Table K V → Type κ
  Distinct [] = Unit
  Distinct ((k, v) ∷ m) = (find k m ≡ none) × Distinct m

  pub insert-Distinct : (k : K) (v : V) (m : Table K V) → Distinct m → Distinct (insert k v m)
  unfolding find insert
  insert-Distinct k v [] d = (refl, tt)
  insert-Distinct k v ((j, w) ∷ m) d = elim (Bool-cases (e.beq j k)) [
    | inl same ↦ rw same d
    | inr other ↦ rw other (
      ground (arith, find-insert k j v m, d.0, e.beq_iff j k, e.beq_iff k j),
      insert-Distinct k v m d.1,
    )
  ]

  pub erase-Distinct : (k : K) (m : Table K V) → Distinct m → Distinct (erase k m)
  unfolding find erase
  erase-Distinct k [] d = tt
  erase-Distinct k ((j, w) ∷ m) d = elim (Bool-cases (e.beq j k)) [
    | inl same ↦ rw same (erase-Distinct k m d.1)
    | inr other ↦ rw other (ground (arith, find-erase k j m, d.0), erase-Distinct k m d.1)
  ]

  -- The sum of a weight over the entries.
  unfoldable pub total : (V → ℕ) → Table K V → ℕ
  total w [] = 0
  total w ((k, v) ∷ m) = w v + total w m

  pub total-insert :
      (w : V → ℕ) (k : K) (v : V) (m : Table K V)
      → total w (insert k v m) + weigh w (find k m) ≡ total w m + w v
  unfolding total insert find
  total-insert w k v [] = omega arith
  total-insert w k v ((j, u) ∷ m) = elim (Bool-cases (e.beq j k)) [
    | inl same ↦ rw same (omega arith)
    | inr other ↦ rw other (omega (arith, total-insert w k v m))
  ]

  erase_missing : (k : K) (m : Table K V) → find k m ≡ none → erase k m ≡ m
  unfolding find erase
  erase_missing k [] h = refl
  erase_missing k ((j, u) ∷ m) h = elim (Bool-cases (e.beq j k)) [
    | inl same ↦ ground (arith, same)
    | inr other ↦ ground (arith, other, erase_missing k m)
  ]

  pub total-erase :
      (w : V → ℕ) (k : K) (m : Table K V)
      → Distinct m
      → total w (erase k m) + weigh w (find k m) ≡ total w m
  unfolding total erase find
  total-erase w k [] d = omega arith
  total-erase w k ((j, u) ∷ m) d = elim (Bool-cases (e.beq j k)) [
    | inl same ↦
        let q : find k m ≡ none = subst (λ x. find x m ≡ none) ((e.beq_iff j k).0 same) d.0 in
        rw (same, erase_missing k m q) (omega arith)
    | inr other ↦ rw other (omega (arith, total-erase w k m d.1))
  ]

  -- The loop `if (p(it->second)) it = m.erase(it); else ++it;`.
  unfoldable pub erase_if : (V → Bool) → Table K V → Table K V
  erase_if p [] = []
  erase_if p ((k, v) ∷ m) = let rest = erase_if p m in if p v then rest else (k, v) ∷ rest

  pub find-erase_if :
      (p : V → Bool) (k : K) (m : Table K V)
      → Distinct m
      → find k (erase_if p m) ≡ unless p (find k m)
  unfolding find erase_if
  find-erase_if p k [] d = refl
  find-erase_if p k ((j, v) ∷ m) d = elim (Bool-cases (e.beq j k)) [
    | inl same ↦
        let q : find k m ≡ none = subst (λ x. find x m ≡ none) ((e.beq_iff j k).0 same) d.0 in
        let r : find k (erase_if p m) ≡ none = find-erase_if p k m d.1 ∙ ap (unless p) q in
        elim (Bool-cases (p v)) [
          | inl drop ↦ rw (same, drop) r
          | inr stay ↦ rw (same, stay) (rw same)
        ]
    | inr other ↦
        let r : find k (erase_if p m) ≡ unless p (find k m) = find-erase_if p k m d.1 in
        elim (Bool-cases (p v)) [
          | inl drop ↦ rw (other, drop) r
          | inr stay ↦ rw (other, stay) (rw other r)
        ]
  ]

  pub erase_if-Distinct : (p : V → Bool) (m : Table K V) → Distinct m → Distinct (erase_if p m)
  unfolding erase_if
  erase_if-Distinct p [] d = tt
  erase_if-Distinct p ((j, v) ∷ m) d = elim (Bool-cases (p v)) [
    | inl drop ↦ rw drop (erase_if-Distinct p m d.1)
    | inr stay ↦ rw stay (find-erase_if p j m d.1 ∙ ap (unless p) d.0, erase_if-Distinct p m d.1)
  ]

  -- Every entry has a property.
  abbrev pub Every {μ} : (K → V → Type μ) → Table K V → Type μ
  Every P [] = Unit
  Every P ((k, v) ∷ m) = P k v × Every P m

  pub insert-Every {μ} :
      (P : K → V → Type μ) (k : K) (v : V) (m : Table K V)
      → P k v
      → Every P m
      → Every P (insert k v m)
  unfolding insert
  insert-Every P k v [] p h = (p, tt)
  insert-Every P k v ((j, w) ∷ m) p h = elim (Bool-cases (e.beq j k)) [
    | inl same ↦ rw same (subst (λ x. P x v) (sym ((e.beq_iff j k).0 same)) p, h.1)
    | inr other ↦ rw other (h.0, insert-Every P k v m p h.1)
  ]

  pub erase-Every {μ} :
      (P : K → V → Type μ) (k : K) (m : Table K V) → Every P m → Every P (erase k m)
  unfolding erase
  erase-Every P k [] h = tt
  erase-Every P k ((j, w) ∷ m) h = elim (Bool-cases (e.beq j k)) [
    | inl same ↦ rw same (erase-Every P k m h.1)
    | inr other ↦ rw other (h.0, erase-Every P k m h.1)
  ]

  pub erase_if-Every {μ} :
      (P : K → V → Type μ) (p : V → Bool) (m : Table K V) → Every P m → Every P (erase_if p m)
  unfolding erase_if
  erase_if-Every P p [] h = tt
  erase_if-Every P p ((j, v) ∷ m) h = elim (Bool-cases (p v)) [
    | inl drop ↦ rw drop (erase_if-Every P p m h.1)
    | inr stay ↦ rw stay (h.0, erase_if-Every P p m h.1)
  ]

  -- What a removal by a test leaves: the entries that fail the test.
  pub erase_if-sifts {μ ν} :
      (P : K → V → Type μ) (Q : K → V → Type ν) (p : V → Bool) (m : Table K V)
      → ((k : K) (v : V) → P k v → p v ≡ false → Q k v)
      → Every P m
      → Every Q (erase_if p m)
  unfolding erase_if
  erase_if-sifts P Q p [] f h = tt
  erase_if-sifts P Q p ((j, v) ∷ m) f h = elim (Bool-cases (p v)) [
    | inl drop ↦ rw drop (erase_if-sifts P Q p m f h.1)
    | inr stay ↦ rw stay (f j v h.0 stay, erase_if-sifts P Q p m f h.1)
  ]

  pub map-Every {μ ν} :
      (P : K → V → Type μ) (Q : K → V → Type ν) (m : Table K V)
      → ((k : K) (v : V) → P k v → Q k v)
      → Every P m
      → Every Q m
  map-Every P Q [] f h = tt
  map-Every P Q ((k, v) ∷ m) f h = (f k v h.0, map-Every P Q m f h.1)

  pub find-Every {μ} :
      (P : K → V → Type μ) (k : K) (m : Table K V) {v : V} → Every P m → find k m ≡ some v → P k v
  unfolding find
  find-Every P k [] h f = cc
  find-Every P k ((j, w) ∷ m) {v} h f = elim (Bool-cases (e.beq j k)) [
    | inl same ↦
        let q : some w ≡ some v = rw same at f in
        let r : w ≡ v = cc q in subst₂ P ((e.beq_iff j k).0 same) r h.0
    | inr other ↦ find-Every P k m h.1 (rw other at f)
  ]

  pub erase-insert : (k : K) (v : V) (m : Table K V) → erase k (insert k v m) ≡ erase k m
  unfolding erase insert
  erase-insert k v [] = ground (arith, e.beq_iff k k)
  erase-insert k v ((j, w) ∷ m) = elim (Bool-cases (e.beq j k)) [
    | inl same ↦ rw same (rw same)
    | inr other ↦ rw other (rw other (ap (λ x. (j, w) ∷ x) (erase-insert k v m)))
  ]
