-- ===== src/Net/Connection/Transfer.antt =====
-- From SendMsg on one side to OnMessage on the other, sdk/net/TcpConnection.cpp: through both ring
-- buffers, and whatever the pieces in which the bytes travel.
use rpg_server.Base.{
  ℕ, suc, ◌+◌, ◌≤◌, ◌≡◌, sym, ap, ap₂, ◌∙◌, inl, some, List, [], ◌∷◌, ◌++◌, arith, nat_eq, length,
  length-append,
}
use mathlib.Core.List.{append_assoc, append-nil}
use rpg_server.Net.Ring.Contents.{contents, length-contents}
use rpg_server.Net.Ring.Invariant.{IsValid}
use rpg_server.Net.Connection.{
  Message, Connection, SendOutcome, queue_msg, write_out, read_in, process_messages,
  max_packet_size,
}
use rpg_server.Net.Connection.Framing.{frame, frames, length-frame}
use rpg_server.Net.Connection.Delivery.{Delivers, process_messages-Delivers}
use rpg_server.Net.Connection.Sending.{
  IsOpen, queue_msg-frame, size_after, Answers, write_out-contents,
}
use rpg_server.Net.Connection.Receiving.{joined, arrivals, read_in-joined}

-- Several calls of SendMsg, before the loop writes.
unfoldable pub queue_all : List Message → Connection → Connection
queue_all [] c = c
queue_all (m ∷ ms) c =
    queue_all ms (queue_msg c m.module_id m.sub_id (some m.body) (length m.body)).1

abbrev pub AllSmall : List Message → Type 0
AllSmall [] = Unit {0}
AllSmall (m ∷ ms) = (length m.body ≤ max_packet_size) × AllSmall ms

queue_msg-flags :
    (m : Message) (c : Connection)
    → ((queue_msg c m.module_id m.sub_id (some m.body) (length m.body)).1.closed ≡ c.closed)
      × ((queue_msg c m.module_id m.sub_id (some m.body) (length m.body)).1.ready ≡ c.ready)
unfolding queue_msg
queue_msg-flags m c = (ground arith, ground arith)

queue_all-frames :
    (ms : List Message) (c : Connection)
    → IsOpen c
    → AllSmall ms
    → c.send_buf.size + length (frames ms) ≤ c.send_buf.capacity
    → (contents (queue_all ms c).send_buf ≡ contents c.send_buf ++ frames ms)
      × IsValid (queue_all ms c).send_buf
unfolding queue_all frames
queue_all-frames [] c o a h = (sym (append-nil (contents c.send_buf)), o.send_valid)
queue_all-frames (m ∷ ms) c o a h =
    let n : length (frame m ++ frames ms) ≡ length (frame m) + length (frames ms) =
      length-append (frame m) (frames ms) in
    let len = length-frame m in
    let step = queue_msg c m.module_id m.sub_id (some m.body) (length m.body) in
    let (_, e, v, cap) = queue_msg-frame m c o a.0 (omega arith) in
    let (closed', ready') = queue_msg-flags m c in
    let o' : IsOpen step.1 = record {
      not_closed = closed' ∙ o.not_closed;
      is_ready = ready' ∙ o.is_ready;
      send_valid = v;
    } in
    let size = size_after c.send_buf step.1.send_buf (frame m) e in
    let (f, v') = queue_all-frames ms step.1 o' a.1 (omega arith) in
    (
      f ∙ ap (λ ys. ys ++ frames ms) e ∙ append_assoc (contents c.send_buf) (frame m) (frames ms),
      v',
    )

-- Messages of at most MAX_PACKET_SIZE bytes each, queued on an open connection whose send buffer is
-- empty and has room for their frames, then written by a loop that empties that buffer, and read
-- in any pieces into an empty receive buffer with as much room: processMessages hands on exactly
-- those messages, in order, and nothing is left over.
pub transfer-Delivers :
    (ms : List Message) (a b : Connection) (os : List SendOutcome) (chunks : List (List ℕ))
    → IsOpen a
    → IsValid b.recv_buf
    → contents a.send_buf ≡ []
    → contents b.recv_buf ≡ []
    → AllSmall ms
    → length (frames ms) ≤ a.send_buf.capacity
    → length (frames ms) ≤ b.recv_buf.capacity
    → Answers os (queue_all ms a).send_buf
    → contents (write_out os (queue_all ms a)).1.send_buf ≡ []
    → joined chunks ≡ (write_out os (queue_all ms a)).0
    → Delivers
        (process_messages
          (suc (read_in (arrivals chunks) b).recv_buf.size)
          (read_in (arrivals chunks) b).recv_buf)
        ms
        []
transfer-Delivers ms a b os chunks o v ea eb small ha hb ans out cut =
    let sa : a.send_buf.size ≡ 0 = omega (arith, length-contents a.send_buf, ap length ea) in
    let sb : b.recv_buf.size ≡ 0 = omega (arith, length-contents b.recv_buf, ap length eb) in
    let (queued, v') = queue_all-frames ms a o small (omega arith) in
    let wire : (write_out os (queue_all ms a)).0 ≡ frames ms =
      sym (append-nil (write_out os (queue_all ms a)).0)
      ∙ ap (λ ys. (write_out os (queue_all ms a)).0 ++ ys) (sym out)
      ∙ write_out-contents os (queue_all ms a) v' ans
      ∙ queued
      ∙ ap (λ ys. ys ++ frames ms) ea in
    let all : joined chunks ≡ frames ms = cut ∙ wire in
    let (e, w) = read_in-joined chunks b v (omega (arith, ap length all)) in
    process_messages-Delivers ms [] w
      (e ∙ ap₂ (λ xs ys. xs ++ ys) eb all ∙ sym (append-nil (frames ms))) (inl (omega arith))
