-- ===== src/Net/Connection/Delivery.antt =====
-- processMessages of sdk/net/TcpConnection.cpp hands on the messages that were framed, in order.
use rpg_server.Base.{
  ℕ, zero, suc, ◌+◌, ◌≤◌, ◌<◌, ◌≡◌, refl, ap, ap₂, ◌∙◌, inl, inr, true, false, some, List, [], ◌∷◌,
  ◌++◌, arith, ltb, Bool-cases, nat_eq, length, take, length-append,
}
use mathlib.Core.List.{append_assoc}
use rpg_server.Net.Ring.{RingBuffer, peek}
use rpg_server.Net.Ring.Contents.{contents, length-contents, peek-contents}
use rpg_server.Net.Ring.Invariant.{IsValid}
use rpg_server.Net.Connection.{
  Message, header, body_len, take_message, process_messages, msg_header_size,
}
use rpg_server.Net.Connection.Framing.{
  frame, frames, length-frame, front_size, peek-header, header_fields, take_front, IsIncomplete,
}

-- The length field stands in the first four bytes.
body_len-take : (xs : List ℕ) → body_len (take msg_header_size xs) ≡ body_len xs
body_len-take [] = refl
body_len-take (a ∷ []) = refl
body_len-take (a ∷ b ∷ xs) = refl

process_messages_stops :
    (fuel : ℕ) {r : RingBuffer}
    → IsValid r
    → IsIncomplete (contents r)
    → process_messages fuel r ≡ ([], r)
unfolding process_messages
process_messages_stops zero v i = refl
process_messages_stops (suc fuel) {r} v i = elim (Bool-cases (ltb r.size msg_header_size)) [
  | inl short ↦ rw short
  | inr long ↦
      let e : peek r msg_header_size ≡ some (take msg_header_size (contents r)) =
        ground (arith, peek-contents msg_header_size v) in
      let n : length (contents r) ≡ r.size = length-contents r in
      let t : ltb r.size (msg_header_size + body_len (contents r)) ≡ true = ground arith in
      rw (long, e) (rw (body_len-take (contents r)) (rw t))
]

-- What a run of processMessages should leave: the messages handed on, and the unfinished rest.
abbrev pub Delivers : List Message × RingBuffer → List Message → List ℕ → Type 0
Delivers out ms rest = (out.0 ≡ ms) × (contents out.1 ≡ rest) × IsValid out.1

process_messages-frames :
    (fuel : ℕ) (ms : List Message) (rest : List ℕ) {r : RingBuffer}
    → length ms < fuel
    → IsValid r
    → contents r ≡ frames ms ++ rest
    → IsIncomplete rest
    → Delivers (process_messages fuel r) ms rest
unfolding process_messages frames
process_messages-frames zero ms rest h v e i = elim h [ ]
process_messages-frames (suc fuel) [] rest {r} h v e i =
    rw (process_messages_stops (suc fuel) v (rw e i)) (refl, e, v)
process_messages-frames (suc fuel) (m ∷ ms) rest {r} h v e i =
    let later = frames ms ++ rest in
    let f : contents r ≡ frame m ++ later = e ∙ append_assoc (frame m) (frames ms) rest in
    let (same, left, v') = take_front m later v f in
    let (got, left', v'') =
      process_messages-frames fuel ms rest {r = (take_message r).1} (omega arith) v' left i in
    let n : r.size ≡ msg_header_size + length m.body + length later = front_size r m later f in
    let s : ltb r.size msg_header_size ≡ false = ground arith in
    let t : ltb r.size (msg_header_size + length m.body) ≡ false = ground arith in
    let b : body_len (header (length m.body) m.module_id m.sub_id) ≡ length m.body =
      (header_fields (length m.body) m.module_id m.sub_id).0 in
    rw (peek-header m later v f) (rw b (rw (s, t) (ap₂ (λ x xs. x ∷ xs) same got, left', v'')))

length-frames : (ms : List Message) → length ms ≤ length (frames ms)
unfolding frames
length-frames [] = omega arith
length-frames (m ∷ ms) =
    omega (arith, length-frames ms, length-append (frame m) (frames ms), length-frame m)

-- processMessages on a valid receive buffer that holds whole frames and then an unfinished one hands
-- on exactly the framed messages, in order, and leaves the unfinished bytes; one round more than the
-- buffer has bytes is fuel enough.
pub process_messages-Delivers :
    (ms : List Message) (rest : List ℕ) {r : RingBuffer}
    → IsValid r
    → contents r ≡ frames ms ++ rest
    → IsIncomplete rest
    → Delivers (process_messages (suc r.size) r) ms rest
process_messages-Delivers ms rest {r} v e i =
    process_messages-frames (suc r.size) ms rest
      (omega
        (arith, length-contents r, ap length e, length-append (frames ms) rest, length-frames ms))
      v e i
