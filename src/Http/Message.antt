-- ===== src/Http/Message.antt =====
-- parseStartLine, parseHeaderLine and parseMessage of sdk/http/HttpParser.cpp. A string is its bytes.
use rpg_server.Base.{
  negsuc, pos, ℕ, zero, suc, ◌+◌, ◌-◌, ◌*◌, ◌≡◌, refl, ◌↔◌, Bool, true, false, ◌&&◌, ◌||◌, Option,
  none, some, List, [], ◌∷◌, map, arith, ltb, leb, ◌==◌, if◌then◌else◌, Eq, nat_eq, length, take,
  drop, ℤ, pos_part, low32, Table, find, insert, total, u64_mod, u64,
}
use rpg_server.Http.Lines.{find_header_end, split_lines}

abbrev pub space : ℕ
space = 32

abbrev pub colon : ℕ
colon = 58

-- What stands before the first byte of a kind, and after it, where there is one.
unfoldable pub split_at : ℕ → List ℕ → Option (List ℕ × List ℕ)
split_at mark [] = none
split_at mark (c ∷ s) =
    let rest = split_at mark s in
    if c == mark then some ([], s) else elim rest [ none ↦ none | some p ↦ some (c ∷ p.0, p.1) ]

abbrev pub Words : Type 0
Words = List ℕ × List ℕ × List ℕ

-- parseStartLine: the three words of a line, where it has two spaces.
unfoldable pub parse_start_line : List ℕ → Option Words
unfolding split_at
parse_start_line line = elim (split_at space line) [
  | none ↦ none
  | some p ↦ elim (split_at space p.1) [ none ↦ none | some q ↦ some (p.0, q.0, q.1) ]
]

abbrev pub to_lower : List ℕ → List ℕ
to_lower = map (λ c. if leb 65 c && leb c 90 then c + 32 else c)

abbrev pub is_space : ℕ → Bool
is_space c = c == 32 || leb 9 c && leb c 13

unfoldable pub trim_front : List ℕ → List ℕ
trim_front [] = []
trim_front (c ∷ s) = let rest = trim_front s in if is_space c then rest else c ∷ s

-- Names that a table can compare.
unfoldable pub same_name : List ℕ → List ℕ → Bool
same_name [] [] = true
same_name (a ∷ s) (b ∷ t) = a == b && same_name s t
same_name _ _ = false

pub same_name_iff : (s t : List ℕ) → (same_name s t ≡ true) ↔ (s ≡ t)
unfolding same_name
same_name_iff [] [] = (λ h. refl, λ h. refl)
same_name_iff [] (b ∷ t) = ground arith
same_name_iff (a ∷ s) [] = ground arith
same_name_iff (a ∷ s) (b ∷ t) = ground (arith, same_name_iff s t)

instance abbrev pub name_eq : Eq (List ℕ)
name_eq = record { beq = same_name; beq_iff = same_name_iff }

abbrev pub Headers : Type 0
Headers = Table (List ℕ) (List ℕ)

unfoldable pub parse_header_line : List ℕ → Headers → Headers
unfolding split_at trim_front
parse_header_line line headers = elim (split_at colon line) [
  | none ↦ headers
  | some p ↦ insert (to_lower p.0) (trim_front p.1) headers
]

abbrev pub parse_header_lines : List (List ℕ) → Headers → Headers
parse_header_lines [] headers = headers
parse_header_lines (line ∷ lines) headers =
    parse_header_lines lines (parse_header_line line headers)

abbrev pub is_digit : ℕ → Bool
is_digit c = leb 48 c && leb c 57

-- The digits at the front, after those read so far.
unfoldable pub digits : ℕ → List ℕ → ℕ
digits n [] = n
digits n (c ∷ s) = let rest = digits (10 * n + (c - 48)) s in if is_digit c then rest else n

abbrev pub negated : ℕ → ℤ
negated zero = pos 0
negated (suc n) = negsuc n

-- A sign and digits, of any size.
abbrev pub signed : List ℕ → ℤ
signed [] = pos 0
signed (c ∷ s) =
    if c == 45
    then negated (digits 0 s)
    else if c == 43
    then pos (digits 0 s)
    else pos (digits 0 (c ∷ s))

-- The range of a `long`, where strtol stops.
abbrev pub clamp : ℤ → ℤ
clamp (pos n) = if ltb 9223372036854775807 n then pos 9223372036854775807 else pos n
clamp (negsuc n) = if ltb 9223372036854775807 n then negsuc 9223372036854775807 else negsuc n

-- The cast to an `int` of 32 bits.
abbrev pub to_int : ℤ → ℤ
to_int z = if ltb (low32 z) 2147483648 then pos (low32 z) else negsuc (4294967295 - low32 z)

-- atoi, which is strtol cast to an `int`; C leaves open what it is out of an `int`'s range.
unfoldable pub atoi : List ℕ → ℤ
unfolding trim_front digits
atoi s = to_int (clamp (signed (trim_front s)))

-- "content-length".
abbrev pub content_length : List ℕ
content_length =
    99 ∷ 111 ∷ 110 ∷ 116 ∷ 101 ∷ 110 ∷ 116 ∷ 45 ∷ 108 ∷ 101 ∷ 110 ∷ 103 ∷ 116 ∷ 104 ∷ []

unfoldable pub parse_content_length : Headers → ℤ
unfolding atoi
parse_content_length headers = elim (find content_length headers) [ none ↦ pos 0 | some s ↦ atoi s ]

-- `static_cast<size_t>` of an int.
abbrev pub size_of : ℤ → ℕ
size_of (pos n) = n
size_of (negsuc n) = u64_mod - suc n

pub data Outcome : Type 0 where
  need_more : Outcome
  error : Outcome
  ok : ℕ → Option Words → Headers → List ℕ → Outcome

-- The part of parseMessage after the header: how much is consumed, and the body.
unfoldable pub take_body : List ℕ → ℕ → Option Words → Headers → ℤ → Outcome
take_body bytes total words headers n =
    if ltb (length bytes) (u64 (total + size_of n))
    then need_more
    else ok (u64 (total + size_of n)) words headers (take (pos_part n) (drop total bytes))

abbrev pub take_lines : List ℕ → ℕ → List (List ℕ) → Outcome
take_lines bytes total [] = error
take_lines bytes total (line ∷ lines) =
    let headers = parse_header_lines lines [] in
    take_body bytes total (parse_start_line line) headers (parse_content_length headers)

unfoldable pub parse_message : List ℕ → Outcome
unfolding find_header_end split_lines parse_start_line parse_header_line parse_content_length
    take_body
parse_message bytes = elim (find_header_end bytes) [
  | none ↦ need_more
  | some i ↦ take_lines bytes (i + 4) (split_lines (take i bytes))
]
