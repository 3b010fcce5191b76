-- ===== src/RoleName/Tests.antt =====
-- Names for sdk/util/RoleNameUtil.cpp.
use rpg_server.Base.{ℕ, ◌≡◌, refl, ◌↔◌, true, false, some, List, [], ◌∷◌, nat_eq}
use rpg_server.RoleName.{decode, decode_two, decode_three, scan, is_valid, is_allowed}
use rpg_server.RoleName.Accepted.{encode_all, IsRoleName, is_valid_lem}

-- U+4E2D and U+6587.
abbrev two_han : List ℕ
two_han = 228 ∷ 184 ∷ 173 ∷ 230 ∷ 150 ∷ 135 ∷ []

two_han_valid : is_valid (some two_han) ≡ true
unfolding is_valid scan decode decode_three is_allowed
two_han_valid = refl

-- An overlong form, a byte that is cut off, and one letter.
bad_names :
    (is_valid (some (193 ∷ 129 ∷ 65 ∷ [])) ≡ false)
    × (is_valid (some (65 ∷ 228 ∷ 184 ∷ [])) ≡ false)
    × (is_valid (some (65 ∷ [])) ≡ false)
unfolding is_valid scan decode decode_two decode_three is_allowed
bad_names = (refl, refl, refl)

is_valid_lem_example :
    is_valid (some two_han) ≡ true
    ↔ ((cps : List ℕ) × IsRoleName cps × (some two_han ≡ some (encode_all cps)))
is_valid_lem_example = is_valid_lem (some two_han)
