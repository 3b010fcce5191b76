-- ===== src/Base/Sets.antt =====
-- std::unordered_set of numbers as a list without repetition, and a Boolean membership test.
use Prim.Native.Nat.{ℕ}
use mathlib.Core.Path.{◌≡◌}
use mathlib.Core.Bool.{Bool, false, not, ◌&&◌, ◌||◌}
use mathlib.Core.List.{List, [], ◌∷◌}
use native.Mathlib.Omega.{arith}
use rpg_server.Base.Tests.{if◌then◌else◌, ◌==◌, ==_iff}

unfoldable pub contains : ℕ → List ℕ → Bool
contains x [] = false
contains x (y ∷ ys) = y == x || contains x ys

unfoldable pub set_insert : ℕ → List ℕ → List ℕ
set_insert x xs = if contains x xs then xs else x ∷ xs

unfoldable pub set_erase : ℕ → List ℕ → List ℕ
set_erase x [] = []
set_erase x (y ∷ ys) = let rest = set_erase x ys in if y == x then rest else y ∷ rest

pub contains-set_insert :
    (x y : ℕ) (xs : List ℕ) → contains y (set_insert x xs) ≡ x == y || contains y xs
unfolding contains set_insert
contains-set_insert x y xs = ground (arith, ==_iff x y)

pub contains-set_erase :
    (x y : ℕ) (xs : List ℕ) → contains y (set_erase x xs) ≡ not (x == y) && contains y xs
unfolding contains set_erase
contains-set_erase x y [] = ground arith
contains-set_erase x y (z ∷ zs) = ground (arith, contains-set_erase x y zs)
