-- ===== src/RoleName/Utf8.antt =====
-- The decoder of sdk/util/RoleNameUtil.cpp against UTF-8 as it is written.
use rpg_server.Base.{
  ℕ, ◌+◌, ◌*◌, ◌/◌, ◌%◌, ◌≤◌, ◌<◌, ◌≡◌, refl, subst, ◌≢◌, inl, inr, Bool, true, false, some, List,
  [], ◌∷◌, ◌++◌, arith, ltb, ◌==◌, if◌then◌else◌, ltb→lt, lt→ltb, ==_iff, Bool-cases, nat_eq,
  length, drop,
}
use rpg_server.RoleName.{decode, decode_two, decode_three, is_tail}

-- The bytes of a code point below 0x10000.
unfoldable pub encode : ℕ → List ℕ
encode cp =
    if ltb cp 128
    then cp ∷ []
    else if ltb cp 2048
    then (192 + cp / 64) ∷ (128 + cp % 64) ∷ []
    else (224 + cp / 4096) ∷ (128 + cp / 64 % 64) ∷ (128 + cp % 64) ∷ []

false_of : (b : Bool) → ¬ (b ≡ true) → b ≡ false
false_of true h = absurd (h refl)
false_of false h = refl

ltb_over : {m n : ℕ} → n ≤ m → ltb m n ≡ false
ltb_over {m} {n} h = false_of (ltb m n) (λ e. omega (arith, ltb→lt m n e, h))

differs : {m n : ℕ} → m ≢ n → (m == n) ≡ false
differs {m} {n} h = false_of (m == n) (λ e. h ((==_iff m n).0 e))

equals : {m n : ℕ} → m ≡ n → (m == n) ≡ true
equals {m} {n} h = (==_iff m n).1 h

decode_two-tail :
    (cp : ℕ) (s : List ℕ)
    → 128 ≤ cp
    → cp < 2048
    → decode ((192 + cp / 64) ∷ (128 + cp % 64) ∷ s) ≡ some (cp, 2)
unfolding decode decode_two
decode_two-tail cp s low high =
    let c : (192 + cp / 64) % 32 * 64 + (128 + cp % 64) % 64 ≡ cp = omega (arith, low, high) in
    let h1 : ltb (192 + cp / 64) 128 ≡ false = ltb_over (omega arith) in
    let h2 : ((192 + cp / 64) / 32 == 6) ≡ true = equals (omega (arith, high)) in
    let h3 : ((128 + cp % 64) / 64 == 2) ≡ true = equals (omega arith) in
    let h4 : ltb cp 128 ≡ false = ltb_over low in rw (h1, h2, h3, c, h4) refl

decode_three-tail :
    (cp : ℕ) (s : List ℕ)
    → 2048 ≤ cp
    → cp < 65536
    → decode ((224 + cp / 4096) ∷ (128 + cp / 64 % 64) ∷ (128 + cp % 64) ∷ s) ≡ some (cp, 3)
unfolding decode decode_three
decode_three-tail cp s low high =
    let c : (224 + cp / 4096) % 16 * 4096 + (128 + cp / 64 % 64) % 64 * 64 + (128 + cp % 64) % 64
        ≡ cp =
      omega (arith, low, high) in
    let h1 : ltb (224 + cp / 4096) 128 ≡ false = ltb_over (omega arith) in
    let h2 : ((224 + cp / 4096) / 32 == 6) ≡ false = differs (omega (arith, high)) in
    let h3 : ((224 + cp / 4096) / 16 == 14) ≡ true = equals (omega (arith, high)) in
    let h4 : ((128 + cp / 64 % 64) / 64 == 2) ≡ true = equals (omega arith) in
    let h5 : ((128 + cp % 64) / 64 == 2) ≡ true = equals (omega arith) in
    let h6 : ltb cp 2048 ≡ false = ltb_over low in rw (h1, h2, h3, h4, h5, c, h6) refl

-- What is encoded is decoded: the code point, and as many bytes as it has.
pub decode-encode :
    (cp : ℕ) (s : List ℕ) → cp < 65536 → decode (encode cp ++ s) ≡ some (cp, length (encode cp))
unfolding decode encode
decode-encode cp s h = elim (Bool-cases (ltb cp 128)) [
  | inl one ↦ rw one (rw one refl)
  | inr more ↦ elim (Bool-cases (ltb cp 2048)) [
    | inl two ↦ rw (more, two) (decode_two-tail cp s (ground (arith, more)) (ltb→lt cp 2048 two))
    | inr three ↦ rw (more, three) (decode_three-tail cp s (ground (arith, three)) h)
  ]
]

-- The bytes of a decoded code point, and what stands behind them.
abbrev pub Encodes : List ℕ → ℕ × ℕ → Type 0
Encodes s p = s ≡ encode p.0 ++ drop p.1 s

decoded : (s : List ℕ) (p q : ℕ × ℕ) → Encodes s p → some p ≡ some q → Encodes s q
decoded s p q h e = subst (Encodes s) (cc e) h

two_encoded :
    (b0 b1 : ℕ) (s : List ℕ)
    → b0 / 32 ≡ 6
    → b1 / 64 ≡ 2
    → 128 ≤ b0 % 32 * 64 + b1 % 64
    → Encodes (b0 ∷ b1 ∷ s) (b0 % 32 * 64 + b1 % 64, 2)
unfolding encode
two_encoded b0 b1 s lead tail low =
    let cp = b0 % 32 * 64 + b1 % 64 in
    let h1 : ltb cp 128 ≡ false = ltb_over low in
    let h2 : ltb cp 2048 ≡ true = lt→ltb cp 2048 (omega arith) in
    let c0 : 192 + cp / 64 ≡ b0 = omega (arith, lead) in
    let c1 : 128 + cp % 64 ≡ b1 = omega (arith, tail) in rw (h1, h2, c0, c1) refl

three_encoded :
    (b0 b1 b2 : ℕ) (s : List ℕ)
    → b0 / 16 ≡ 14
    → b1 / 64 ≡ 2
    → b2 / 64 ≡ 2
    → 2048 ≤ b0 % 16 * 4096 + b1 % 64 * 64 + b2 % 64
    → Encodes (b0 ∷ b1 ∷ b2 ∷ s) (b0 % 16 * 4096 + b1 % 64 * 64 + b2 % 64, 3)
unfolding encode
three_encoded b0 b1 b2 s lead tail tail2 low =
    let cp = b0 % 16 * 4096 + b1 % 64 * 64 + b2 % 64 in
    let h1 : ltb cp 128 ≡ false = ltb_over (omega (arith, low)) in
    let h2 : ltb cp 2048 ≡ false = ltb_over low in
    let c0 : 224 + cp / 4096 ≡ b0 = omega (arith, lead) in
    let c1 : 128 + cp / 64 % 64 ≡ b1 = omega (arith, tail) in
    let c2 : 128 + cp % 64 ≡ b2 = omega (arith, tail2) in rw (h1, h2, c0, c1, c2) refl

decode_two-Encodes :
    (b0 : ℕ) (s : List ℕ) (p : ℕ × ℕ) → b0 / 32 ≡ 6 → decode_two b0 s ≡ some p → Encodes (b0 ∷ s) p
unfolding decode_two
decode_two-Encodes b0 [] p lead h = cc
decode_two-Encodes b0 (b1 ∷ s) p lead h =
    let cp = b0 % 32 * 64 + b1 % 64 in
    elim (Bool-cases (is_tail b1)) [
      | inr other ↦ absurd (let q = rw other at h in cc)
      | inl tail ↦ elim (Bool-cases (ltb cp 128)) [
        | inl short ↦ absurd (let q = rw (tail, short) at h in cc)
        | inr low ↦
            decoded (b0 ∷ b1 ∷ s) (cp, 2) p
              (two_encoded b0 b1 s lead ((==_iff (b1 / 64) 2).0 tail) (ground (arith, low)))
              (rw (tail, low) at h)
      ]
    ]

decode_three-Encodes :
    (b0 : ℕ) (s : List ℕ) (p : ℕ × ℕ)
    → b0 / 16 ≡ 14
    → decode_three b0 s ≡ some p
    → Encodes (b0 ∷ s) p
unfolding decode_three
decode_three-Encodes b0 [] p lead h = cc
decode_three-Encodes b0 (b1 ∷ []) p lead h = cc
decode_three-Encodes b0 (b1 ∷ b2 ∷ s) p lead h =
    let cp = b0 % 16 * 4096 + b1 % 64 * 64 + b2 % 64 in
    elim (Bool-cases (is_tail b1)) [
      | inr other ↦ absurd (let q = rw other at h in cc)
      | inl tail ↦ elim (Bool-cases (is_tail b2)) [
        | inr other ↦ absurd (let q = rw (tail, other) at h in cc)
        | inl tail2 ↦ elim (Bool-cases (ltb cp 2048)) [
          | inl short ↦ absurd (let q = rw (tail, tail2, short) at h in cc)
          | inr low ↦
              decoded (b0 ∷ b1 ∷ b2 ∷ s) (cp, 3) p
                (three_encoded b0 b1 b2 s lead ((==_iff (b1 / 64) 2).0 tail)
                  ((==_iff (b2 / 64) 2).0 tail2) (ground (arith, low)))
                (rw (tail, tail2, low) at h)
        ]
      ]
    ]

-- What is decoded was encoded.
pub encode-decode : (s : List ℕ) (p : ℕ × ℕ) → decode s ≡ some p → Encodes s p
unfolding decode encode
encode-decode [] p h = cc
encode-decode (b ∷ s) p h = elim (Bool-cases (ltb b 128)) [
  | inl one ↦ decoded (b ∷ s) (b, 1) p (rw one refl) (rw one at h)
  | inr more ↦ elim (Bool-cases (b / 32 == 6)) [
    | inl two ↦ decode_two-Encodes b s p ((==_iff (b / 32) 6).0 two) (rw (more, two) at h)
    | inr not_two ↦ elim (Bool-cases (b / 16 == 14)) [
      | inl three ↦
          decode_three-Encodes b s p ((==_iff (b / 16) 14).0 three) (rw (more, not_two, three) at h)
      | inr other ↦ absurd (let q = rw (more, not_two, other) at h in cc)
    ]
  ]
]
