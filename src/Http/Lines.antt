-- ===== src/Http/Lines.antt =====
-- The end of the header and its lines in sdk/http/HttpParser.cpp. CR is 13 and LF is 10.
use rpg_server.Base.{
  ℕ, zero, suc, Bool, false, ◌&&◌, Option, none, some, List, [], ◌∷◌, ◌==◌, if◌then◌else◌, nat_eq,
  length, drop,
}

-- The bytes begin with a CR and a LF.
abbrev pub at_crlf : List ℕ → Bool
at_crlf (a ∷ b ∷ xs) = a == 13 && b == 10
at_crlf _ = false

abbrev pub at_header_end : List ℕ → Bool
at_header_end (a ∷ b ∷ xs) = a == 13 && b == 10 && at_crlf xs
at_header_end _ = false

-- findHeaderEnd, where std::string::npos is `none`.
unfoldable pub find_header_end : List ℕ → Option ℕ
find_header_end [] = none
find_header_end (x ∷ xs) =
    let rest = find_header_end xs in
    if at_header_end (x ∷ xs) then some 0 else elim rest [ none ↦ none | some i ↦ some (suc i) ]

-- The inner loop of splitLines: the bytes before `end`, and those from it on. It stops one byte before
-- the end of the block.
unfoldable pub take_line : List ℕ → List ℕ × List ℕ
take_line [] = ([], [])
take_line (x ∷ []) = ([], x ∷ [])
take_line (x ∷ y ∷ xs) =
    let rest = take_line (y ∷ xs) in
    if x == 13 && y == 10 then ([], x ∷ y ∷ xs) else (x ∷ rest.0, rest.1)

abbrev pub push_line : List ℕ → List (List ℕ) → List (List ℕ)
push_line [] lines = lines
push_line (c ∷ line) lines = (c ∷ line) ∷ lines

-- splitLines, whose outer loop runs on fuel.
unfoldable pub split_from : ℕ → List ℕ → List (List ℕ)
unfolding take_line
split_from zero block = []
split_from (suc n) [] = []
split_from (suc n) (c ∷ block) =
    let (line, rest) = take_line (c ∷ block) in push_line line (split_from n (drop 2 rest))

-- A round takes two bytes or ends the loop, so the number of bytes is enough.
unfoldable pub split_lines : List ℕ → List (List ℕ)
unfolding split_from
split_lines block = split_from (length block) block
