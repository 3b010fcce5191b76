-- ===== src/Http/Tests.antt =====
-- Messages of HTTP, and what is made of them.
use rpg_server.Base.{negsuc, pos, ℕ, ◌≡◌, refl, List, [], ◌∷◌, ◌++◌, arith, nat_eq, find, insert}
use rpg_server.Http.Lines.{push_line, take_line, find_header_end, split_from, split_lines}
use rpg_server.Http.Message.{
  split_at, trim_front, parse_header_line, same_name, digits, atoi, parse_content_length,
  parse_message,
}
use rpg_server.Http.Split.{join_all, join, but_last, split_lines_cuts}
use rpg_server.Http.Within.{Fits, parse_message-Fits, Shrinks, negative_length-Shrinks}

-- "GET / HTTP/1.1".
abbrev get_line : List ℕ
get_line = 71 ∷ 69 ∷ 84 ∷ 32 ∷ 47 ∷ 32 ∷ 72 ∷ 84 ∷ 84 ∷ 80 ∷ 47 ∷ 49 ∷ 46 ∷ 49 ∷ []

-- "a:7".
abbrev field_line : List ℕ
field_line = 97 ∷ 58 ∷ 55 ∷ []

split_lines_cuts_example :
    (split_lines (join_all (get_line ∷ [])) ≡ get_line ∷ [])
    × (split_lines (join (get_line ∷ []) field_line)
        ≡ (get_line ∷ []) ++ push_line (but_last field_line) [])
split_lines_cuts_example =
    split_lines_cuts (get_line ∷ []) field_line
      (
        (
          refl,
          (
            refl,
            (
              refl,
              (
                refl,
                (refl, (refl, (refl, (refl, (refl, (refl, (refl, (refl, (refl, (refl, tt)))))))))),
              ),
            ),
          ),
        ),
        tt,
      )
      (refl, (refl, (refl, tt)))

-- "content-length:".
abbrev length_name : List ℕ
length_name =
    99 ∷ 111 ∷ 110 ∷ 116 ∷ 101 ∷ 110 ∷ 116 ∷ 45 ∷ 108 ∷ 101 ∷ 110 ∷ 103 ∷ 116 ∷ 104 ∷ 58 ∷ []

abbrev ends : List ℕ
ends = 13 ∷ 10 ∷ 13 ∷ 10 ∷ []

-- A length of 2, with one more digit that is cut off, and a body.
abbrev post : List ℕ
post = 80 ∷ 13 ∷ 10 ∷ length_name ++ 50 ∷ 57 ∷ ends ++ 104 ∷ 105 ∷ []

parse_message-Fits_example : Fits post 20 2 (parse_message post)
unfolding find_header_end split_lines split_from take_line parse_content_length find same_name
    parse_header_line split_at trim_front atoi digits insert
parse_message-Fits_example = parse_message-Fits post 20 2 refl refl (omega arith)

-- A length of minus 9.
abbrev minus : List ℕ
minus = 80 ∷ 13 ∷ 10 ∷ length_name ++ 45 ∷ 57 ∷ 57 ∷ ends

negative_length-Shrinks_example : Shrinks 21 8 (parse_message minus)
unfolding find_header_end split_lines split_from take_line parse_content_length find same_name
    parse_header_line split_at trim_front atoi digits insert
negative_length-Shrinks_example =
    negative_length-Shrinks minus 21 8 refl refl (omega arith) (omega arith)

-- "2147483648" and "4294967298".
int_max_next : atoi (50 ∷ 49 ∷ 52 ∷ 55 ∷ 52 ∷ 56 ∷ 51 ∷ 54 ∷ 52 ∷ 56 ∷ []) ≡ negsuc 2147483647
unfolding atoi trim_front digits
int_max_next = refl

wrapped_round : atoi (52 ∷ 50 ∷ 57 ∷ 52 ∷ 57 ∷ 54 ∷ 55 ∷ 50 ∷ 57 ∷ 56 ∷ []) ≡ pos 2
unfolding atoi trim_front digits
wrapped_round = refl
