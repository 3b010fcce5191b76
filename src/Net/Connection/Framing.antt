-- ===== src/Net/Connection/Framing.antt =====
-- The frames of sdk/net/TcpConnection.cpp: what processMessages finds in a buffer of whole frames.
use rpg_server.Base.{
  length-append, ap, ℕ, ◌+◌, ◌*◌, ◌/◌, ◌%◌, ◌≤◌, ◌<◌, ◌≡◌, refl, sym, ◌∙◌, ◌⊎◌, inl, inr, false,
  some, List, [], ◌∷◌, ◌++◌, arith, ◌==◌, le→leb, Bool-cases, nat_eq, length, drop,
  take-length-append, drop-length-append,
}
use rpg_server.Net.Ring.{RingBuffer, peek, consume}
use rpg_server.Net.Ring.Contents.{
  contents, length-contents, peek-contents, consume-contents, read-contents,
}
use rpg_server.Net.Ring.Invariant.{IsValid, consume-IsValid, read-IsValid}
use rpg_server.Net.Connection.{
  Message, header, body_len, msg_header_size, header_module, header_sub, take_message,
}

-- A message on the wire.
unfoldable pub frame : Message → List ℕ
unfolding header
frame m = header (length m.body) m.module_id m.sub_id ++ m.body

unfoldable pub frames : List Message → List ℕ
frames [] = []
frames (m ∷ ms) = frame m ++ frames ms

-- The bytes of an unfinished frame.
abbrev pub IsIncomplete : List ℕ → Type 0
IsIncomplete xs = (length xs < msg_header_size) ⊎ (length xs < msg_header_size + body_len xs)

length_field : (n : ℕ) → n % 256 + 256 * (n / 256) ≡ n
length_field n = omega arith

pub length-frame : (m : Message) → length (frame m) ≡ msg_header_size + length m.body
unfolding frame
length-frame m = omega (arith, length-append (header (length m.body) m.module_id m.sub_id) m.body)

pub front_size :
    (r : RingBuffer) (m : Message) (rest : List ℕ)
    → contents r ≡ frame m ++ rest
    → r.size ≡ msg_header_size + length m.body + length rest
front_size r m rest e =
    omega (arith, length-contents r, ap length e, length-append (frame m) rest, length-frame m)

pub peek-header :
    {r : RingBuffer} (m : Message) (rest : List ℕ)
    → IsValid r
    → contents r ≡ frame m ++ rest
    → peek r msg_header_size ≡ some (header (length m.body) m.module_id m.sub_id)
unfolding frame
peek-header {r} m rest v e =
    peek-contents msg_header_size v
    ∙ (rw (le→leb msg_header_size r.size (omega (arith, front_size r m rest e))) (rw e))

after_header :
    {r : RingBuffer} (m : Message) (rest : List ℕ)
    → IsValid r
    → contents r ≡ frame m ++ rest
    → contents (consume r msg_header_size) ≡ m.body ++ rest
unfolding frame
after_header {r} m rest v e =
    consume-contents msg_header_size v (omega (arith, front_size r m rest e)) ∙ (rw e)

pub nil_of_length {ℓ} : {A : Type ℓ} (xs : List A) → length xs ≡ 0 → [] ≡ xs
nil_of_length [] h = refl
nil_of_length (x ∷ xs) h = absurd (omega arith)

pub header_fields :
    (n m s : ℕ)
    → (body_len (header n m s) ≡ n)
      × (header_module (header n m s) ≡ m)
      × (header_sub (header n m s) ≡ s)
unfolding header
header_fields n m s = (length_field n, refl, refl)

-- What `take_message` should find in front of `rest`.
abbrev pub TakesOff : RingBuffer → Message → List ℕ → Type 0
TakesOff r m rest =
    ((take_message r).0 ≡ m) × (contents (take_message r).1 ≡ rest) × IsValid (take_message r).1

take_empty :
    {r : RingBuffer} (m : Message) (rest : List ℕ)
    → IsValid r
    → contents r ≡ frame m ++ rest
    → [] ≡ m.body
    → TakesOff r m rest
unfolding take_message
take_empty {r} m rest v e b =
    let (n, domain, sub) = header_fields (length m.body) m.module_id m.sub_id in
    let z : length m.body ≡ 0 = ap length (sym b) in
    rw (peek-header m rest v e) (
      rw (n, domain, sub)
        (rw z (
          λ i. record { module_id = m.module_id; sub_id = m.sub_id; body = b i },
          after_header m rest v e ∙ ap (λ xs. xs ++ rest) (sym b),
          consume-IsValid msg_header_size v,
        )))

take_body :
    {r : RingBuffer} (m : Message) (rest : List ℕ)
    → IsValid r
    → contents r ≡ frame m ++ rest
    → 0 < length m.body
    → TakesOff r m rest
unfolding take_message
take_body {r} m rest v e b =
    let (n, domain, sub) = header_fields (length m.body) m.module_id m.sub_id in
    let v' : IsValid (consume r msg_header_size) = consume-IsValid msg_header_size v in
    let e' : contents (consume r msg_header_size) ≡ m.body ++ rest = after_header m rest v e in
    let z : (length m.body == 0) ≡ false = ground arith in
    let enough : length m.body ≤ (consume r msg_header_size).size = omega (
      arith,
      length-contents (consume r msg_header_size),
      ap length e',
      length-append m.body rest,
    ) in
    let (got, left) = read-contents (length m.body) v' enough in
    rw (peek-header m rest v e) (
      rw (n, domain, sub)
        (rw z (
          (rw (got, e', take-length-append m.body rest)),
          left ∙ ap (drop (length m.body)) e' ∙ drop-length-append m.body rest,
          read-IsValid (length m.body) v',
        )))

pub take_front :
    {r : RingBuffer} (m : Message) (rest : List ℕ)
    → IsValid r
    → contents r ≡ frame m ++ rest
    → TakesOff r m rest
take_front m rest v e = elim (Bool-cases (length m.body == 0)) [
  | inl z ↦ take_empty m rest v e (nil_of_length m.body (ground arith))
  | inr b ↦ take_body m rest v e (ground arith)
]
