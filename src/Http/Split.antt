-- ===== src/Http/Split.antt =====
-- What splitLines of sdk/http/HttpParser.cpp makes of lines.
use rpg_server.Base.{
  ℕ, zero, suc, ◌≤◌, ◌≡◌, refl, ap, ◌∙◌, false, List, [], ◌∷◌, ◌++◌, arith, ◌==◌, nat_eq, length,
  drop, length-append,
}
use rpg_server.Http.Lines.{take_line, push_line, split_from, split_lines}

-- Bytes of a line: at least one, and no CR.
abbrev pub HasNoCr : List ℕ → Type 0
HasNoCr [] = Unit {0}
HasNoCr (c ∷ s) = (c == 13 ≡ false) × HasNoCr s

abbrev pub IsLine : List ℕ → Type 0
IsLine [] = ⊥
IsLine (c ∷ s) = HasNoCr (c ∷ s)

abbrev pub AllLines : List (List ℕ) → Type 0
AllLines [] = Unit {0}
AllLines (line ∷ lines) = IsLine line × AllLines lines

-- The lines with a CR and a LF after each, but for the last in `join`.
abbrev pub join_all : List (List ℕ) → List ℕ
join_all [] = []
join_all (line ∷ lines) = line ++ 13 ∷ 10 ∷ join_all lines

abbrev pub join : List (List ℕ) → List ℕ → List ℕ
join [] last = last
join (line ∷ lines) last = line ++ 13 ∷ 10 ∷ join lines last

abbrev pub but_last : List ℕ → List ℕ
but_last [] = []
but_last (c ∷ []) = []
but_last (c ∷ d ∷ s) = c ∷ but_last (d ∷ s)

take-line :
    (c : ℕ) (s rest : List ℕ)
    → HasNoCr (c ∷ s)
    → take_line (c ∷ s ++ 13 ∷ 10 ∷ rest) ≡ (c ∷ s, 13 ∷ 10 ∷ rest)
unfolding take_line
take-line c [] rest h = rw h.0 refl
take-line c (d ∷ s) rest h =
    rw h.0 (ap (λ (p : List ℕ × List ℕ). (c ∷ p.0, p.1)) (take-line d s rest h.1))

take-last :
    (c : ℕ) (s : List ℕ)
    → HasNoCr (c ∷ s)
    → (take_line (c ∷ s)).0 ≡ but_last (c ∷ s) × (length (take_line (c ∷ s)).1 ≡ 1)
unfolding take_line
take-last c [] h = (refl, refl)
take-last c (d ∷ s) h = let rest = take-last d s h.1 in rw h.0 (ap (λ t. c ∷ t) rest.0, rest.1)

split-line :
    (n : ℕ) (line rest : List ℕ)
    → IsLine line
    → split_from (suc n) (line ++ 13 ∷ 10 ∷ rest) ≡ line ∷ split_from n rest
unfolding split_from
split-line n [] rest h = elim h [ ]
split-line n (c ∷ s) rest h = rw (take-line c s rest h) refl

split_nil : (n : ℕ) → split_from n [] ≡ []
unfolding split_from
split_nil zero = refl
split_nil (suc n) = refl

split-last :
    (n : ℕ) (last : List ℕ) → IsLine last → split_from (suc n) last ≡ push_line (but_last last) []
unfolding split_from
split-last n [] h = elim h [ ]
split-last n (c ∷ s) h =
    let (line, one) = take-last c s h in
    let nothing : drop 2 (take_line (c ∷ s)).1 ≡ [] = drop_short (take_line (c ∷ s)).1 one in
    rw (line, nothing, split_nil n) refl
  where
    drop_short : (xs : List ℕ) → length xs ≡ 1 → drop 2 xs ≡ []
    drop_short [] h = refl
    drop_short (x ∷ []) h = refl
    drop_short (x ∷ y ∷ xs) h = ground (arith, h)

from_all :
    (n : ℕ) (lines : List (List ℕ))
    → AllLines lines
    → length (join_all lines) ≤ n
    → split_from n (join_all lines) ≡ lines
from_all n [] h k = split_nil n
from_all zero ([] ∷ lines) h k = elim h.0 [ ]
from_all zero ((c ∷ s) ∷ lines) h k = ground (arith, k)
from_all (suc n) (line ∷ lines) h k =
    split-line n line (join_all lines) h.0
    ∙ ap (λ t. line ∷ t)
        (from_all n lines h.1 (omega (arith, k, length-append line (13 ∷ 10 ∷ join_all lines))))

from_some :
    (n : ℕ) (lines : List (List ℕ)) (last : List ℕ)
    → AllLines lines
    → IsLine last
    → length (join lines last) ≤ n
    → split_from n (join lines last) ≡ lines ++ push_line (but_last last) []
from_some zero [] [] h l k = elim l [ ]
from_some zero ([] ∷ lines) last h l k = elim h.0 [ ]
from_some zero [] (c ∷ s) h l k = ground (arith, k)
from_some (suc n) [] last h l k = split-last n last l
from_some zero ((c ∷ s) ∷ lines) last h l k = ground (arith, k)
from_some (suc n) (line ∷ lines) last h l k =
    split-line n line (join lines last) h.0
    ∙ ap (λ t. line ∷ t)
        (from_some n lines last h.1 l
          (omega (arith, k, length-append line (13 ∷ 10 ∷ join lines last))))

-- Lines without a CR and of at least one byte, with a CR and a LF after each, are split into those lines;
-- where the last has none after it, as parseMessage passes them, the last line loses its last byte, and
-- is left out if it has no other.
pub split_lines_cuts :
    (lines : List (List ℕ)) (last : List ℕ)
    → AllLines lines
    → IsLine last
    → (split_lines (join_all lines) ≡ lines)
      × (split_lines (join lines last) ≡ lines ++ push_line (but_last last) [])
unfolding split_lines
split_lines_cuts lines last h l = (
  from_all (length (join_all lines)) lines h (omega arith),
  from_some (length (join lines last)) lines last h l (omega arith),
)
