-- ===== src/Base/Lists.antt =====
-- Lists measured and indexed by native numbers, under the library's names.
use Prim.Native.Nat.{ℕ, zero, suc, ◌+◌, ◌-◌, ◌≤◌, ◌<◌}
use mathlib.Core.Path.{◌≡◌, refl, ap, ap₂, ◌∙◌}
use mathlib.Core.Logic.{◌⊎◌, inl, inr}
use mathlib.Core.Bool.{Bool}
use mathlib.Core.List.{List, [], ◌∷◌, ◌++◌}
use native.Mathlib.Omega.{arith}
use rpg_server.Base.Tests.{if◌then◌else◌, ◌==◌}

module _ {ℓ} {A : Type ℓ} where
  abbrev pub length : List A → ℕ
  length [] = 0
  length (x ∷ xs) = suc (length xs)

  abbrev pub get_or : List A → ℕ → A → A
  get_or [] i d = d
  get_or (x ∷ xs) zero d = x
  get_or (x ∷ xs) (suc i) d = get_or xs i d

  abbrev pub set : List A → ℕ → A → List A
  set [] i v = []
  set (x ∷ xs) zero v = v ∷ xs
  set (x ∷ xs) (suc i) v = x ∷ set xs i v

  abbrev pub take : ℕ → List A → List A
  take zero xs = []
  take (suc n) [] = []
  take (suc n) (x ∷ xs) = x ∷ take n xs

  abbrev pub drop : ℕ → List A → List A
  drop zero xs = xs
  drop (suc n) [] = []
  drop (suc n) (x ∷ xs) = drop n xs

  abbrev pub replicate : ℕ → A → List A
  replicate zero a = []
  replicate (suc n) a = a ∷ replicate n a

  -- The elements that pass a Boolean test, in order.
  abbrev pub keep : (A → Bool) → List A → List A
  keep p [] = []
  keep p (x ∷ xs) = let rest = keep p xs in if p x then x ∷ rest else rest

  pub length-append : (xs ys : List A) → length (xs ++ ys) ≡ length xs + length ys
  length-append [] ys = omega arith
  length-append (x ∷ xs) ys = omega (arith, length-append xs ys)

  pub length-replicate : (n : ℕ) (a : A) → length (replicate n a) ≡ n
  length-replicate zero a = refl
  length-replicate (suc n) a = ap suc (length-replicate n a)

  pub take_all : (xs : List A) → take (length xs) xs ≡ xs
  take_all [] = refl
  take_all (x ∷ xs) = ap (λ ys. x ∷ ys) (take_all xs)

  pub take-length-append : (xs ys : List A) → take (length xs) (xs ++ ys) ≡ xs
  take-length-append [] ys = refl
  take-length-append (x ∷ xs) ys = ap (λ zs. x ∷ zs) (take-length-append xs ys)

  pub drop-length-append : (xs ys : List A) → drop (length xs) (xs ++ ys) ≡ ys
  drop-length-append [] ys = refl
  drop-length-append (x ∷ xs) ys = drop-length-append xs ys

module _ {ℓ} {A : Type ℓ} where
  pub length-set : (xs : List A) (i : ℕ) (v : A) → length (set xs i v) ≡ length xs
  length-set [] i v = refl
  length-set (x ∷ xs) zero v = refl
  length-set (x ∷ xs) (suc i) v = ap suc (length-set xs i v)

  pub length-take : (n : ℕ) (xs : List A) → n ≤ length xs → length (take n xs) ≡ n
  length-take zero xs h = refl
  length-take (suc n) [] h = omega arith
  length-take (suc n) (x ∷ xs) h = omega (arith, length-take n xs)

  pub length-drop : (n : ℕ) (xs : List A) → length (drop n xs) ≡ length xs - n
  length-drop zero xs = omega arith
  length-drop (suc n) [] = omega arith
  length-drop (suc n) (x ∷ xs) = omega (arith, length-drop n xs)

  -- The list of `f 0`, `f 1`, …, `f (n - 1)`.
  abbrev pub tabulate : ℕ → (ℕ → A) → List A
  tabulate zero f = []
  tabulate (suc n) f = f 0 ∷ tabulate n (λ i. f (suc i))

  pub length-tabulate : (n : ℕ) (f : ℕ → A) → length (tabulate n f) ≡ n
  length-tabulate zero f = refl
  length-tabulate (suc n) f = ap suc (length-tabulate n (λ i. f (suc i)))

  pub tabulate_ext :
      (n : ℕ) (f g : ℕ → A) → ((i : ℕ) → i < n → f i ≡ g i) → tabulate n f ≡ tabulate n g
  tabulate_ext zero f g h = refl
  tabulate_ext (suc n) f g h =
      ap₂ (λ x xs. x ∷ xs) (h 0 (omega arith))
        (tabulate_ext n (λ i. f (suc i)) (λ i. g (suc i)) (λ i k. h (suc i) (omega arith)))

  pub tabulate-add :
      (a b : ℕ) (f : ℕ → A) → tabulate (a + b) f ≡ tabulate a f ++ tabulate b (λ i. f (a + i))
  tabulate-add zero b f =
      let p : zero + b ≡ b = omega arith in
      rw p (tabulate_ext b f (λ i. f (zero + i)) (λ i _. ap f (omega arith)))
  tabulate-add (suc a) b f =
      let p : suc a + b ≡ suc (a + b) = omega arith in
      rw p (
        ap (λ xs. f 0 ∷ xs)
          (tabulate-add a b (λ i. f (suc i))
            ∙ ap (λ xs. tabulate a (λ i. f (suc i)) ++ xs)
                (tabulate_ext b (λ i. f (suc (a + i))) (λ i. f (suc a + i))
                  (λ i _. ap f (omega arith)))))

  pub take-tabulate : (n m : ℕ) (f : ℕ → A) → n ≤ m → take n (tabulate m f) ≡ tabulate n f
  take-tabulate zero m f h = refl
  take-tabulate (suc n) zero f h = elim h [ ]
  take-tabulate (suc n) (suc m) f h =
      ap (λ xs. f 0 ∷ xs) (take-tabulate n m (λ i. f (suc i)) (omega arith))

  pub drop-tabulate :
      (n m : ℕ) (f : ℕ → A) → drop n (tabulate (n + m) f) ≡ tabulate m (λ i. f (n + i))
  drop-tabulate zero m f =
      let p : zero + m ≡ m = omega arith in
      rw p (tabulate_ext m f (λ i. f (zero + i)) (λ i _. ap f (omega arith)))
  drop-tabulate (suc n) m f =
      let p : suc n + m ≡ suc (n + m) = omega arith in
      rw p (
        drop-tabulate n m (λ i. f (suc i))
        ∙ tabulate_ext m (λ i. f (suc (n + i))) (λ i. f (suc n + i)) (λ i _. ap f (omega arith)))

  -- A segment of a list, by positions.
  pub take-drop-tabulate :
      (p n : ℕ) (xs : List A) (d : A)
      → p + n ≤ length xs
      → take n (drop p xs) ≡ tabulate n (λ i. get_or xs (p + i) d)
  take-drop-tabulate zero zero xs d h = refl
  take-drop-tabulate zero (suc n) [] d h = absurd (omega arith)
  take-drop-tabulate zero (suc n) (x ∷ xs) d h =
      ap₂ (λ y ys. y ∷ ys) refl
        (take-drop-tabulate zero n xs d (omega arith)
          ∙ tabulate_ext n (λ i. get_or xs (zero + i) d) (λ i. get_or (x ∷ xs) (zero + suc i) d)
              (λ i _.
                let a : zero + i ≡ i = omega arith in
                let b : zero + suc i ≡ suc i = omega arith in rw (a, b)))
  take-drop-tabulate (suc p) zero [] d h = refl
  take-drop-tabulate (suc p) (suc n) [] d h = absurd (omega arith)
  take-drop-tabulate (suc p) n (x ∷ xs) d h =
      take-drop-tabulate p n xs d (omega arith)
      ∙ tabulate_ext n (λ i. get_or xs (p + i) d) (λ i. get_or (x ∷ xs) (suc p + i) d)
          (λ i _. let a : suc p + i ≡ suc (p + i) = omega arith in rw a)

  pub tabulate-get_or : (xs : List A) (d : A) → tabulate (length xs) (λ i. get_or xs i d) ≡ xs
  tabulate-get_or [] d = refl
  tabulate-get_or (x ∷ xs) d = ap (λ ys. x ∷ ys) (tabulate-get_or xs d)

  pub get_or-set :
      (xs : List A) (i j : ℕ) (v d : A)
      → i < length xs
      → get_or (set xs i v) j d ≡ (if i == j then v else get_or xs j d)
  get_or-set [] i j v d h = elim h [ ]
  get_or-set (x ∷ xs) zero zero v d h = refl
  get_or-set (x ∷ xs) zero (suc j) v d h = ground arith
  get_or-set (x ∷ xs) (suc i) zero v d h = ground arith
  get_or-set (x ∷ xs) (suc i) (suc j) v d h = ground (arith, get_or-set xs i j v d)

  pub get_or-take :
      (n : ℕ) (xs : List A) (i : ℕ) (d : A) → i < n → get_or (take n xs) i d ≡ get_or xs i d
  get_or-take zero xs i d h = elim h [ ]
  get_or-take (suc n) [] i d h = refl
  get_or-take (suc n) (x ∷ xs) zero d h = refl
  get_or-take (suc n) (x ∷ xs) (suc i) d h = get_or-take n xs i d (omega arith)

  pub get_or-drop :
      (n : ℕ) (xs : List A) (i : ℕ) (d : A) → get_or (drop n xs) i d ≡ get_or xs (n + i) d
  get_or-drop zero xs i d = let p : zero + i ≡ i = omega arith in rw p
  get_or-drop (suc n) [] i d = refl
  get_or-drop (suc n) (x ∷ xs) i d =
      let p : suc n + i ≡ suc (n + i) = omega arith in rw p (get_or-drop n xs i d)

  pub get_or-cons :
      (x : A) (xs : List A) (n : ℕ) (d : A) → 0 < n → get_or (x ∷ xs) n d ≡ get_or xs (n - 1) d
  get_or-cons x xs zero d h = elim h [ ]
  get_or-cons x xs (suc n) d h = let e : suc n - 1 ≡ n = omega arith in rw e

  pub take-append-drop : (n : ℕ) (xs : List A) → take n xs ++ drop n xs ≡ xs
  take-append-drop zero xs = refl
  take-append-drop (suc n) [] = refl
  take-append-drop (suc n) (x ∷ xs) = ap (λ ys. x ∷ ys) (take-append-drop n xs)

  pub take-take : (n k : ℕ) (xs : List A) → n ≤ k → take n (take k xs) ≡ take n xs
  take-take zero k xs h = refl
  take-take (suc n) zero xs h = elim h [ ]
  take-take (suc n) (suc k) [] h = refl
  take-take (suc n) (suc k) (x ∷ xs) h = ap (λ ys. x ∷ ys) (take-take n k xs (omega arith))

pub List-cases {ℓ} :
    {A : Type ℓ} (xs : List A) → (xs ≡ []) ⊎ ((x : A) × (rest : List A) × (xs ≡ x ∷ rest))
List-cases [] = inl refl
List-cases (x ∷ rest) = inr (x, rest, refl)
