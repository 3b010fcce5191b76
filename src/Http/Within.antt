-- ===== src/Http/Within.antt =====
-- What parseMessage of sdk/http/HttpParser.cpp takes off its input.
use rpg_server.Base.{
  pos, negsuc, ℕ, suc, ◌+◌, ◌-◌, ◌≤◌, ◌<◌, ◌≡◌, refl, inl, inr, true, Option, none, some, List, [],
  ◌∷◌, arith, ltb, Bool-cases, Option-cases, nat_eq, length, take, drop, length-take, length-drop,
  List-cases, ℤ, find, u64_mod, u64,
}
use rpg_server.Http.Lines.{at_crlf, at_header_end, find_header_end, split_lines}
use rpg_server.Http.Message.{
  Words, Headers, parse_header_lines, parse_content_length, Outcome, need_more, error, ok,
  take_body, parse_message,
}

-- The header that a message has, and the length that it gives for its body.
abbrev pub headers_of : List (List ℕ) → Headers
headers_of [] = []
headers_of (line ∷ lines) = parse_header_lines lines []

abbrev pub length_at : List ℕ → ℕ → ℤ
length_at bytes i = parse_content_length (headers_of (split_lines (take i bytes)))

at_crlf_long : (xs : List ℕ) → at_crlf xs ≡ true → 2 ≤ length xs
at_crlf_long [] h = cc h
at_crlf_long (a ∷ []) h = cc h
at_crlf_long (a ∷ b ∷ xs) h = omega arith

header_long : (xs : List ℕ) → at_header_end xs ≡ true → 4 ≤ length xs
header_long [] h = cc h
header_long (a ∷ []) h = cc h
header_long (a ∷ b ∷ xs) h = ground (arith, at_crlf_long xs)

-- The end of the header lies within the bytes.
find_header_end_within :
    (bytes : List ℕ) (i : ℕ) → find_header_end bytes ≡ some i → i + 4 ≤ length bytes
unfolding find_header_end
find_header_end_within [] i e = cc e
find_header_end_within (x ∷ xs) i e = elim (Bool-cases (at_header_end (x ∷ xs))) [
  | inl here ↦
      let q : some 0 ≡ some i = rw here at e in
      let z : 0 ≡ i = cc q in ground (arith, header_long (x ∷ xs) here, z)
  | inr later ↦ elim (Option-cases (find_header_end xs)) [
    | inl none_yet ↦ let q : none ≡ some i = rw none_yet at (rw later at e) in cc q
    | inr (j, f) ↦
        let q : some (suc j) ≡ some i = rw f at (rw later at e) in
        let z : suc j ≡ i = cc q in omega (arith, find_header_end_within xs j f, z)
  ]
]

-- What the outcome on some bytes claims, given where the header ends and the length of the body.
abbrev pub Fits : List ℕ → ℕ → ℕ → Outcome → Type 0
Fits bytes i n need_more = length bytes < i + 4 + n
Fits bytes i n error = split_lines (take i bytes) ≡ []
Fits bytes i n (ok consumed words headers body) =
    (consumed ≡ i + 4 + n)
    × (consumed ≤ length bytes)
    × (body ≡ take n (drop (i + 4) bytes))
    × (length body ≡ n)

take_body-Fits :
    (bytes : List ℕ) (i n : ℕ) (words : Option Words) (headers : Headers)
    → i + 4 + n < u64_mod
    → i + 4 ≤ length bytes
    → Fits bytes i n (take_body bytes (i + 4) words headers (pos n))
unfolding take_body
take_body-Fits bytes i n words headers small within =
    let exact : u64 (i + 4 + n) ≡ i + 4 + n = omega (arith, small) in
    elim (Bool-cases (ltb (length bytes) (u64 (i + 4 + n)))) [
      | inl short ↦ rw short (ground (arith, exact, short))
      | inr enough ↦
          let fits : i + 4 + n ≤ length bytes = ground (arith, exact, enough) in
          rw enough (
            exact,
            omega (arith, exact, fits),
            refl,
            length-take n (drop (i + 4) bytes) (omega (arith, length-drop (i + 4) bytes, fits)),
          )
    ]

-- On bytes whose header ends at a place and gives no length of a body, or one that is not negative as an
-- int of 32 bits, and small enough for a size_t, a message is complete exactly when its header and its body have come: then
-- what is consumed is the two together, within the bytes, and the body is what follows the header. It is
-- an error only where the header has no line.
pub parse_message-Fits :
    (bytes : List ℕ) (i n : ℕ)
    → find_header_end bytes ≡ some i
    → length_at bytes i ≡ pos n
    → i + 4 + n < u64_mod
    → Fits bytes i n (parse_message bytes)
unfolding parse_message
parse_message-Fits bytes i n e len small =
    let within = find_header_end_within bytes i e in
    elim (List-cases (split_lines (take i bytes))) [
      | inl empty ↦ rw (e, parse_message) (rw empty empty)
      | inr (line, lines, q) ↦
          let known : parse_content_length (parse_header_lines lines []) ≡ pos n = rw q at len in
          rw (e, parse_message) (rw q (rw known (take_body-Fits bytes i n _ _ small within)))
    ]

-- What is left of a message whose length is negative.
abbrev pub Shrinks : ℕ → ℕ → Outcome → Type 0
Shrinks i m need_more = ⊥
Shrinks i m error = ⊥
Shrinks i m (ok consumed words headers body) = (consumed ≡ i + 4 - suc m) × (body ≡ [])

take_body-Shrinks :
    (bytes : List ℕ) (i m : ℕ) (words : Option Words) (headers : Headers)
    → i + 4 ≤ length bytes
    → i + 4 < u64_mod
    → suc m ≤ i + 4
    → Shrinks i m (take_body bytes (i + 4) words headers (negsuc m))
unfolding take_body
take_body-Shrinks bytes i m words headers within small h =
    let exact : u64 (i + 4 + (u64_mod - suc m)) ≡ i + 4 - suc m = omega (arith, small, h) in
    elim (Bool-cases (ltb (length bytes) (u64 (i + 4 + (u64_mod - suc m))))) [
      | inl short ↦ ground (arith, exact, short, within)
      | inr enough ↦ rw enough (exact, refl)
    ]

-- On bytes whose header ends at a place and gives a negative length of the body, at most as long as the
-- header, a message is complete, without a body, and fewer bytes are consumed than the header has: none
-- where the length is minus that of the header.
pub negative_length-Shrinks :
    (bytes : List ℕ) (i m : ℕ)
    → find_header_end bytes ≡ some i
    → length_at bytes i ≡ negsuc m
    → i + 4 < u64_mod
    → suc m ≤ i + 4
    → Shrinks i m (parse_message bytes)
unfolding parse_message parse_content_length find
negative_length-Shrinks bytes i m e len small h =
    let within = find_header_end_within bytes i e in
    elim (List-cases (split_lines (take i bytes))) [
      | inl empty ↦ let q : pos 0 ≡ negsuc m = rw empty at len in cc q
      | inr (line, lines, q) ↦
          let known : parse_content_length (parse_header_lines lines []) ≡ negsuc m = rw q at len in
          rw (e, parse_message) (rw q (rw known (take_body-Shrinks bytes i m _ _ within small h)))
    ]
