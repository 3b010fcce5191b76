-- ===== src/Net/Connection/Sending.antt =====
-- SendMsg and the write loops of sdk/net/TcpConnection.cpp: frames go into the send buffer whole,
-- and leave it in order.
use rpg_server.Base.{
  ℕ, ◌+◌, ◌≤◌, ◌<◌, ◌≡◌, refl, sym, ap, ap₂, subst, ◌∙◌, ◌⊎◌, inl, inr, Bool, true, false, Option,
  none, some, List, [], ◌∷◌, ◌++◌, arith, ltb, ◌==◌, le→leb, Bool-cases, nat_eq, length, take,
  length-append, take-append-drop, take-take,
}
use Prim.Native.Nat.{min}
use mathlib.Core.List.{append_assoc, append-nil}
use rpg_server.Net.Ring.{RingBuffer, writable_bytes, readable_bytes, write, peek, consume}
use rpg_server.Net.Ring.Contents.{contents, length-contents, peek-contents, consume-contents}
use rpg_server.Net.Ring.Write.{write-contents}
use rpg_server.Net.Ring.Invariant.{IsValid, write_fits, write_full, write-IsValid, consume-IsValid}
use rpg_server.Net.Connection.{
  Message, Connection, SendOutcome, sent, send_again, send_failed, header, payload, queue_msg,
  write_out, msg_header_size, max_packet_size,
}
use rpg_server.Net.Connection.Framing.{frame, nil_of_length}

-- A connection that SendMsg can use.
pub record IsOpen (c : Connection) : Type 0 where
  pub not_closed : c.closed ≡ false
  pub is_ready : c.ready ≡ true
  pub send_valid : IsValid c.send_buf

-- The connection once SendMsg has queued bytes.
abbrev pub Queued : Connection → List ℕ → Bool × Connection → Type 0
Queued c bytes (done, c') =
    (done ≡ true)
    × (contents c'.send_buf ≡ contents c.send_buf ++ bytes)
    × IsValid c'.send_buf
    × (c'.send_buf.capacity ≡ c.send_buf.capacity)

write-capacity : (r : RingBuffer) (bytes : List ℕ) → (write r bytes).1.capacity ≡ r.capacity
unfolding write
write-capacity r bytes = ground arith

length-header : (n m s : ℕ) → length (header n m s) ≡ msg_header_size
unfolding header
length-header n m s = refl

-- The size of the buffer behind an append.
pub size_after :
    (r r' : RingBuffer) (bytes : List ℕ)
    → contents r' ≡ contents r ++ bytes
    → r'.size ≡ r.size + length bytes
size_after r r' bytes e =
    omega
      (arith, length-contents r, length-contents r', ap length e, length-append (contents r) bytes)

queue_parts :
    (c : Connection) (module_id sub_id len : ℕ) (bytes : Option (List ℕ))
    → IsOpen c
    → len ≤ max_packet_size
    → c.send_buf.size + msg_header_size + length (payload len bytes) ≤ c.send_buf.capacity
    → Queued c
        (header len module_id sub_id ++ payload len bytes)
        (queue_msg c module_id sub_id bytes len)
unfolding queue_msg
queue_parts c module_id sub_id len bytes o h k =
    let head : List ℕ = header len module_id sub_id in
    let body : List ℕ = payload len bytes in
    let n : length head ≡ msg_header_size = length-header len module_id sub_id in
    let (first, e) = write-contents head o.send_valid (omega arith) in
    let v' : IsValid (write c.send_buf head).1 = write-IsValid head o.send_valid in
    let cap : (write c.send_buf head).1.capacity ≡ c.send_buf.capacity =
      write-capacity c.send_buf head in
    let size = size_after c.send_buf (write c.send_buf head).1 head e in
    let (second, f) = write-contents body v' (omega arith) in
    let len_ok : ltb max_packet_size len ≡ false = ground arith in
    let room : ltb (writable_bytes c.send_buf) (msg_header_size + length body) ≡ false =
      write_fits (msg_header_size + length body) o.send_valid (omega arith) in
    rw (o.not_closed, o.is_ready, len_ok, room, first)
      (elim (Bool-cases (length body == 0)) [
        | inl z ↦ rw z (
          refl,
          e
              ∙ ap (λ ys. contents c.send_buf ++ ys)
                  (sym (append-nil head)
                    ∙ ap (λ ys. head ++ ys) (nil_of_length body (ground arith))),
          v',
          cap,
        )
        | inr some_body ↦
            rw (some_body, second)
              (
                refl,
                f ∙ ap (λ ys. ys ++ body) e ∙ append_assoc (contents c.send_buf) head body,
                write-IsValid body v',
                write-capacity (write c.send_buf head).1 body ∙ cap,
              )
      ])

payload_body : (xs : List ℕ) → payload (length xs) (some xs) ≡ xs
payload_body [] = refl
payload_body (x ∷ xs) = ground arith

-- SendMsg of a body of at most MAX_PACKET_SIZE bytes, on an open connection whose send buffer has
-- room for the header and the body, appends exactly the frame of the message to that buffer.
pub queue_msg-frame :
    (m : Message) (c : Connection)
    → IsOpen c
    → length m.body ≤ max_packet_size
    → c.send_buf.size + msg_header_size + length m.body ≤ c.send_buf.capacity
    → Queued c (frame m) (queue_msg c m.module_id m.sub_id (some m.body) (length m.body))
unfolding frame
queue_msg-frame m c o h k =
    let e : payload (length m.body) (some m.body) ≡ m.body = payload_body m.body in
    subst
      (λ ys.
        Queued c (header (length m.body) m.module_id m.sub_id ++ ys)
          (queue_msg c m.module_id m.sub_id (some m.body) (length m.body)))
      e (queue_parts c m.module_id m.sub_id (length m.body) (some m.body) o h (rw e k))

-- With a valid send buffer, without room for the header and the body, or past MAX_PACKET_SIZE, or on
-- a closed connection or one that is not ready, SendMsg answers false and queues nothing, not even a
-- header.
queue_msg_refused :
    (c : Connection) (module_id sub_id len : ℕ) (bytes : Option (List ℕ))
    → IsValid c.send_buf
    → (c.closed ≡ true)
      ⊎ (c.ready ≡ false)
      ⊎ (max_packet_size < len)
      ⊎ (c.send_buf.capacity < c.send_buf.size + (msg_header_size + length (payload len bytes)))
    → queue_msg c module_id sub_id bytes len ≡ (false, c)
unfolding queue_msg
queue_msg_refused c module_id sub_id len bytes v why =
    ground (arith, write_full (msg_header_size + length (payload len bytes)) v)

-- With a null body pointer and `len` at most MAX_PACKET_SIZE, SendMsg on an open connection with room
-- for a header queues a header that announces `len` bytes and none of them.
queue_msg_null :
    (c : Connection) (module_id sub_id len : ℕ)
    → IsOpen c
    → len ≤ max_packet_size
    → c.send_buf.size + msg_header_size ≤ c.send_buf.capacity
    → Queued c (header len module_id sub_id) (queue_msg c module_id sub_id none len)
queue_msg_null c module_id sub_id len o h k =
    subst (λ ys. Queued c ys (queue_msg c module_id sub_id none len))
      (append-nil (header len module_id sub_id))
      (queue_parts c module_id sub_id len none o h (omega arith))

-- What the socket may answer: it takes no more than it is offered.
abbrev pub Answers : List SendOutcome → RingBuffer → Type 0
Answers [] r = Unit {0}
Answers (send_again ∷ os) r = Unit {0}
Answers (send_failed ∷ os) r = Unit {0}
Answers (sent n ∷ os) r = (n ≤ min (readable_bytes r) 4096) × Answers os (consume r n)

offered : (n : ℕ) (r : RingBuffer) → n ≤ min (readable_bytes r) 4096 → n ≤ r.size
unfolding readable_bytes
offered n r h = omega arith

front_peek :
    {r : RingBuffer}
    → IsValid r
    → peek r (min (readable_bytes r) 4096) ≡ some (take (min (readable_bytes r) 4096) (contents r))
unfolding readable_bytes
front_peek {r} v =
    peek-contents (min r.size 4096) v ∙ (rw (le→leb (min r.size 4096) r.size (omega arith)))

-- The write loops send the front of a valid send buffer and keep the rest, whatever the socket
-- answers, taking no more than it is offered.
pub write_out-contents :
    (os : List SendOutcome) (c : Connection)
    → IsValid c.send_buf
    → Answers os c.send_buf
    → (write_out os c).0 ++ contents (write_out os c).1.send_buf ≡ contents c.send_buf
unfolding write_out
write_out-contents [] c v a = refl
write_out-contents (send_again ∷ os) c v a = refl
write_out-contents (send_failed ∷ os) c v a = ground arith
write_out-contents (sent n ∷ os) c v a =
    let c' : Connection = record c { send_buf = consume c.send_buf n } in
    let later : (write_out os c').0 ++ contents (write_out os c').1.send_buf
        ≡ contents c'.send_buf =
      write_out-contents os c' (consume-IsValid n v) a.1 in
    let k : ℕ = min (readable_bytes c.send_buf) 4096 in
    let q : List ℕ = contents c.send_buf in
    let p : peek c.send_buf k ≡ some (take k q) = front_peek v in
    elim (Bool-cases (readable_bytes c.send_buf == 0)) [
      | inl done ↦ rw done
      | inr more ↦
          rw (more, p)
            (append_assoc (take n (take k q)) (write_out os c').0
                (contents (write_out os c').1.send_buf)
              ∙ ap₂ (λ xs ys. xs ++ ys) (take-take n k q a.0)
                  (later ∙ consume-contents n v (offered n c.send_buf a.0))
              ∙ take-append-drop n q)
    ]
