-- ===== src/RoleName.antt =====
-- sdk/util/RoleNameUtil.cpp: the test of a new character's name. A name is the bytes before its NUL.
pub mod Utf8
pub mod Accepted
mod Tests
use rpg_server.Base.{
  ℕ, zero, suc, ◌+◌, ◌-◌, ◌*◌, ◌/◌, ◌%◌, Bool, false, not, ◌&&◌, ◌||◌, Option, none, some, List, [],
  ◌∷◌, arith, ltb, leb, ◌==◌, if◌then◌else◌, Eq, nat_eq, length, drop,
}

-- The number that two, three or more bytes stand for; `b & 0xE0` and the like are quotients and
-- remainders of the byte.
abbrev pub is_tail : ℕ → Bool
is_tail b = b / 64 == 2

unfoldable pub decode_two : ℕ → List ℕ → Option (ℕ × ℕ)
decode_two b0 [] = none
decode_two b0 (b1 ∷ s) =
    let cp = b0 % 32 * 64 + b1 % 64 in
    if not (is_tail b1) then none else if ltb cp 128 then none else some (cp, 2)

unfoldable pub decode_three : ℕ → List ℕ → Option (ℕ × ℕ)
decode_three b0 [] = none
decode_three b0 (b1 ∷ []) = none
decode_three b0 (b1 ∷ b2 ∷ s) =
    let cp = b0 % 16 * 4096 + b1 % 64 * 64 + b2 % 64 in
    if not (is_tail b1) || not (is_tail b2)
    then none
    else if ltb cp 2048
    then none
    else some (cp, 3)

-- decodeUtf8Codepoint: the code point, and how many bytes it took.
unfoldable pub decode : List ℕ → Option (ℕ × ℕ)
unfolding decode_two decode_three
decode [] = none
decode (b0 ∷ s) =
    if ltb b0 128
    then some (b0, 1)
    else if b0 / 32 == 6
    then decode_two b0 s
    else if b0 / 16 == 14
    then decode_three b0 s
    else none

abbrev pub within : ℕ → ℕ → ℕ → Bool
within low high n = leb low n && leb n high

-- isAllowedRoleNameCodepoint.
unfoldable pub is_allowed : ℕ → Bool
is_allowed cp =
    if leb cp 127
    then within 97 122 cp || within 65 90 cp || within 48 57 cp || cp == 95
    else within 19968 40959 cp

-- How the loop ends: with a count, with an early `return false`, or without fuel.
pub data Scan : Type 0 where
  counted : ℕ → Scan
  refused unfinished : Scan

-- The loop of isValidRoleNameUtf8 over the bytes that are left.
unfoldable pub scan : ℕ → List ℕ → ℕ → Scan
scan fuel [] n = counted n
scan zero (b ∷ s) n = unfinished
scan (suc fuel) (b ∷ s) n = elim (decode (b ∷ s)) [
  | none ↦ refused
  | some (cp, consumed) ↦
      let rest = scan fuel (drop consumed (b ∷ s)) (n + 1) in
      if is_allowed cp then rest else refused
]

abbrev pub is_counted : Scan → Bool
is_counted (counted n) = within 2 12 n
is_counted refused = false
is_counted unfinished = false

-- isValidRoleNameUtf8; a null pointer is `none`.
unfoldable pub is_valid : Option (List ℕ) → Bool
is_valid none = false
is_valid (some []) = false
is_valid (some (b ∷ s)) =
    if not (leb (length (b ∷ s)) 31) then false else is_counted (scan (length (b ∷ s)) (b ∷ s) 0)
