-- ===== src/RoleName/Accepted.antt =====
-- Which names isValidRoleNameUtf8 of sdk/util/RoleNameUtil.cpp accepts.
use rpg_server.Base.{
  ℕ, zero, suc, ◌+◌, ◌≤◌, ◌<◌, ◌≡◌, refl, sym, ap, subst, ◌∙◌, ◌≢◌, ◌↔◌, inl, inr, true, Option,
  none, some, List, [], ◌∷◌, ◌++◌, arith, leb, leb→le, le→leb, Bool-cases, Option-cases, nat_eq,
  length, drop, length-append, drop-length-append,
}
use rpg_server.RoleName.{
  decode, is_allowed, Scan, counted, refused, unfinished, scan, is_counted, is_valid,
}
use rpg_server.RoleName.Utf8.{encode, Encodes, decode-encode, encode-decode}

-- The bytes of a text.
abbrev pub encode_all : List ℕ → List ℕ
encode_all [] = []
encode_all (cp ∷ cps) = encode cp ++ encode_all cps

abbrev pub AllAllowed : List ℕ → Type 0
AllAllowed [] = Unit {0}
AllAllowed (cp ∷ cps) = (is_allowed cp ≡ true) × AllAllowed cps

-- The names that the header file describes.
pub record IsRoleName (cps : List ℕ) : Type 0 where
  pub allowed : AllAllowed cps
  pub two : 2 ≤ length cps
  pub twelve : length cps ≤ 12
  pub fits : length (encode_all cps) ≤ 31

is_allowed-small : (cp : ℕ) → is_allowed cp ≡ true → cp < 65536
unfolding is_allowed
is_allowed-small cp h = ground (arith, h)

length-encode : (cp : ℕ) → 1 ≤ length (encode cp)
unfolding encode
length-encode cp = ground arith

drop-shrinks : (s : List ℕ) (cp k : ℕ) → Encodes s (cp, k) → length (drop k s) < length s
drop-shrinks s cp k h =
    omega (arith, ap length h, length-append (encode cp) (drop k s), length-encode cp)

-- The loop of isValidRoleNameUtf8 comes to its end, with a count or an early return, where it has fuel for
-- each byte.
scan_ends : (fuel : ℕ) (s : List ℕ) (n : ℕ) → length s ≤ fuel → scan fuel s n ≢ unfinished
unfolding scan
scan_ends fuel [] n h = λ e. cc
scan_ends zero (b ∷ s) n h = absurd (omega (arith, h))
scan_ends (suc fuel) (b ∷ s) n h = elim (Option-cases (decode (b ∷ s))) [
  | inl e ↦ rw (e, scan) (λ q. cc)
  | inr ((cp, k), e) ↦ elim (Bool-cases (is_allowed cp)) [
    | inl good ↦
        rw (e, scan, good)
          (scan_ends fuel (drop k (b ∷ s)) (n + 1)
            (omega (arith, drop-shrinks (b ∷ s) cp k (encode-decode (b ∷ s) (cp, k) e), h)))
    | inr bad ↦ rw (e, scan, bad) (λ q. cc)
  ]
]

decode-nil : (p : ℕ × ℕ) → decode [] ≢ some p
unfolding decode
decode-nil p = λ e. cc

scan_step :
    (fuel n : ℕ) (s : List ℕ) (cp k : ℕ)
    → decode s ≡ some (cp, k)
    → is_allowed cp ≡ true
    → scan (suc fuel) s n ≡ scan fuel (drop k s) (n + 1)
unfolding scan
scan_step fuel n [] cp k h good = absurd (decode-nil (cp, k) h)
scan_step fuel n (b ∷ s) cp k h good = rw (h, scan, good) refl

scan_all :
    (fuel n : ℕ) (cps : List ℕ)
    → AllAllowed cps
    → length (encode_all cps) ≤ fuel
    → scan fuel (encode_all cps) n ≡ counted (n + length cps)
unfolding scan
scan_all fuel n [] good h = ap counted (omega arith)
scan_all zero n (cp ∷ cps) good h =
    absurd (omega (arith, h, length-append (encode cp) (encode_all cps), length-encode cp))
scan_all (suc fuel) n (cp ∷ cps) good h =
    let rest = encode_all cps in
    let d = decode-encode cp rest (is_allowed-small cp good.0) in
    let step = scan_step fuel n (encode cp ++ rest) cp (length (encode cp)) d good.0 in
    let left = drop-length-append (encode cp) rest in
    let less : length rest ≤ fuel =
      omega (arith, h, length-append (encode cp) rest, length-encode cp) in
    let more : counted (n + 1 + length cps) ≡ counted (n + suc (length cps)) =
      ap counted (omega arith) in
    step ∙ (rw left (scan_all fuel (n + 1) cps good.1 less) ∙ more)

scan_counts :
    (fuel : ℕ) (s : List ℕ) (n m : ℕ)
    → scan fuel s n ≡ counted m
    → (cps : List ℕ) × AllAllowed cps × (encode_all cps ≡ s) × (m ≡ n + length cps)
unfolding scan
scan_counts fuel [] n m h = ([], tt, refl, (let q : n ≡ m = cc h in omega (arith, q)))
scan_counts zero (b ∷ s) n m h = cc
scan_counts (suc fuel) (b ∷ s) n m h = elim (Option-cases (decode (b ∷ s))) [
  | inl e ↦ absurd (let q = rw (e, scan) at h in cc)
  | inr ((cp, k), e) ↦ elim (Bool-cases (is_allowed cp)) [
    | inr bad ↦ absurd (let q = rw (e, scan, bad) at h in cc)
    | inl good ↦
        let (cps, more, same, count) =
          scan_counts fuel (drop k (b ∷ s)) (n + 1) m (rw (e, scan, good) at h) in
        (
          cp ∷ cps,
          (good, more),
          ap (λ t. encode cp ++ t) same ∙ sym (encode-decode (b ∷ s) (cp, k) e),
          omega (arith, count),
        )
  ]
]

is_counted-counted :
    (r : Scan) → is_counted r ≡ true → (m : ℕ) × (r ≡ counted m) × (2 ≤ m) × (m ≤ 12)
is_counted-counted (counted m) h = (m, refl, ground (arith, h), ground (arith, h))
is_counted-counted refused h = cc
is_counted-counted unfinished h = cc

valid_name :
    (s : List ℕ)
    → is_valid (some s) ≡ true
    → (cps : List ℕ) × IsRoleName cps × (some s ≡ some (encode_all cps))
unfolding is_valid
valid_name [] h = cc
valid_name (b ∷ s) h = elim (Bool-cases (leb (length (b ∷ s)) 31)) [
  | inr long ↦ absurd (let q = rw long at h in cc)
  | inl short ↦
      let (m, end, low, high) =
        is_counted-counted (scan (length (b ∷ s)) (b ∷ s) 0) (rw short at h) in
      let (cps, good, same, count) = scan_counts (length (b ∷ s)) (b ∷ s) 0 m end in
      (
        cps,
        record {
          allowed = good;
          two = omega (arith, low, count);
          twelve = omega (arith, high, count);
          fits = omega (arith, leb→le (length (b ∷ s)) 31 short, ap length same);
        },
        ap some (sym same),
      )
]

scanned_valid :
    (s : List ℕ)
    → 1 ≤ length s
    → length s ≤ 31
    → is_counted (scan (length s) s 0) ≡ true
    → is_valid (some s) ≡ true
unfolding is_valid
scanned_valid [] some_byte short h = absurd (omega (arith, some_byte))
scanned_valid (b ∷ s) some_byte short h = rw (le→leb (length (b ∷ s)) 31 short) h

name_valid : (cps : List ℕ) → IsRoleName cps → is_valid (some (encode_all cps)) ≡ true
name_valid [] w = absurd (omega (arith, w.two))
name_valid (cp ∷ cps) w =
    let s = encode_all (cp ∷ cps) in
    let end = scan_all (length s) 0 (cp ∷ cps) w.allowed (omega arith) in
    scanned_valid s (omega (arith, length-append (encode cp) (encode_all cps), length-encode cp))
      w.fits (rw end (ground (arith, w.two, w.twelve)))

-- A name is accepted exactly when it is the UTF-8 bytes of two to twelve allowed code points and no
-- more than 31 bytes.
pub is_valid_lem :
    (name : Option (List ℕ))
    → is_valid name ≡ true ↔ ((cps : List ℕ) × IsRoleName cps × (name ≡ some (encode_all cps)))
unfolding is_valid
is_valid_lem none = (λ h. cc, λ (cps, w, e). cc)
is_valid_lem (some s) =
    (valid_name s, λ (cps, w, e). subst (λ x. is_valid x ≡ true) (sym e) (name_valid cps w))
