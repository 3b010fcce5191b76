-- ===== src/Net/Connection.antt =====
-- sdk/net/TcpConnection.cpp: SendMsg, the write loop, the read loop and processMessages, over the
-- ring buffers of Net/Ring. What the socket or the TLS library answers to each call of it is a list
-- of outcomes, one for each turn of a loop; where the list ends the call would block. writePlain and
-- writeTls, and readPlain and readTls, differ only in how they come to an outcome. `ready` is
-- isTlsReady(). The handlers behind m_cb are outside this module: the messages that are handed to
-- them are a result.
pub mod Framing
pub mod Delivery
pub mod Sending
pub mod Receiving
pub mod Transfer
use rpg_server.Base.{
  List, ℕ, zero, suc, ◌+◌, ◌*◌, ◌/◌, ◌%◌, Bool, true, false, not, ◌||◌, Option, none, some, [], ◌∷◌,
  ◌++◌, ltb, ◌==◌, if◌then◌else◌, length, take,
}
use Prim.Native.Nat.{min}
use rpg_server.Net.Ring.{
  RingBuffer, new, writable_bytes, readable_bytes, write, peek, consume, read,
}

abbrev pub max_packet_size : ℕ
max_packet_size = 65535

abbrev pub recv_buffer_size : ℕ
recv_buffer_size = 131072

abbrev pub send_buffer_size : ℕ
send_buffer_size = 131072

abbrev pub msg_header_size : ℕ
msg_header_size = 4

-- MsgHeader, in its byte order on the wire.
unfoldable pub header : ℕ → ℕ → ℕ → List ℕ
header len module_id sub_id = (len % 256) ∷ (len / 256) ∷ module_id ∷ sub_id ∷ []

pub record Message : Type 0 where
  pub module_id : ℕ
  pub sub_id : ℕ
  pub body : List ℕ

pub record Connection : Type 0 where
  pub recv_buf : RingBuffer
  pub send_buf : RingBuffer
  pub ready : Bool
  pub closed : Bool
  pub in_read_handler : Bool

-- What one call of send() or SSL_write() gives: bytes taken, nothing for now, or a failure.
pub data SendOutcome : Type 0 where
  sent : ℕ → SendOutcome
  send_again send_failed : SendOutcome

-- What one call of recv() or SSL_read() gives.
pub data RecvOutcome : Type 0 where
  received : List ℕ → RecvOutcome
  recv_closed recv_again recv_failed : RecvOutcome

unfoldable pub close : Connection → Connection
close c = record c { closed = true }

abbrev pub or_nothing : Option (List ℕ) → List ℕ
or_nothing none = []
or_nothing (some bytes) = bytes

-- writePlain and writeTls: the bytes that go out, and the connection that is left.
unfoldable pub write_out : List SendOutcome → Connection → List ℕ × Connection
unfolding close readable_bytes
write_out [] c = ([], c)
write_out (send_again ∷ os) c = ([], c)
write_out (send_failed ∷ os) c = if readable_bytes c.send_buf == 0 then ([], c) else ([], close c)
write_out (sent n ∷ os) c =
    let to_send = min (readable_bytes c.send_buf) 4096 in
    let rest = write_out os (record c { send_buf = consume c.send_buf n }) in
    if readable_bytes c.send_buf == 0
    then ([], c)
    else (take n (or_nothing (peek c.send_buf to_send)) ++ rest.0, rest.1)

-- OnWritable, past the handshake.
unfoldable pub on_writable : List SendOutcome → Connection → List ℕ × Connection
on_writable os c = if c.closed || not c.ready then ([], c) else write_out os c

-- The bytes that SendMsg queues behind the header: none where `data` is null.
abbrev pub payload : ℕ → Option (List ℕ) → List ℕ
payload len none = []
payload len (some bytes) = if len == 0 then [] else bytes

-- SendMsg up to its flush. `data` is null or points to `len` bytes.
unfoldable pub queue_msg : Connection → ℕ → ℕ → Option (List ℕ) → ℕ → Bool × Connection
queue_msg c module_id sub_id bytes len =
    let head = write c.send_buf (header len module_id sub_id) in
    let tail = write head.1 (payload len bytes) in
    if c.closed || not c.ready
    then (false, c)
    else if ltb max_packet_size len
    then (false, c)
    else if ltb (writable_bytes c.send_buf) (msg_header_size + length (payload len bytes))
    then (false, c)
    else if not head.0
    then (false, c)
    else if length (payload len bytes) == 0
    then (true, record c { send_buf = head.1 })
    else if not tail.0
    then (false, record c { send_buf = consume head.1 msg_header_size })
    else (true, record c { send_buf = tail.1 })

-- SendMsg: the answer, the bytes that go out at once, the connection.
unfoldable pub send_msg :
    List SendOutcome → Connection → ℕ → ℕ → Option (List ℕ) → ℕ → Bool × List ℕ × Connection
send_msg os c module_id sub_id bytes len =
    let (done, c') = queue_msg c module_id sub_id bytes len in
    let (wire, c'') = on_writable os c' in
    if not done
    then (false, [], c')
    else if c'.in_read_handler
    then (true, [], c')
    else (true, wire, c'')

-- readPlain and readTls: the answer of Write is not looked at.
unfoldable pub read_in : List RecvOutcome → Connection → Connection
unfolding close
read_in [] c = c
read_in (recv_again ∷ os) c = c
read_in (recv_closed ∷ os) c = close c
read_in (recv_failed ∷ os) c = close c
read_in (received bytes ∷ os) c = read_in os (record c { recv_buf = (write c.recv_buf bytes).1 })

-- The length field of a header.
abbrev pub body_len : List ℕ → ℕ
body_len (a ∷ b ∷ _) = a + 256 * b
body_len _ = 0

abbrev pub header_module : List ℕ → ℕ
header_module (a ∷ b ∷ m ∷ _) = m
header_module _ = 0

abbrev pub header_sub : List ℕ → ℕ
header_sub (a ∷ b ∷ m ∷ s ∷ _) = s
header_sub _ = 0

-- One round of processMessages: the body is read unless it is empty, and the message handed on.
unfoldable pub take_message : RingBuffer → Message × RingBuffer
take_message r =
    let hdr = or_nothing (peek r msg_header_size) in
    let r' = consume r msg_header_size in
    let out = read r' (body_len hdr) in
    if body_len hdr == 0
    then (record { module_id = header_module hdr; sub_id = header_sub hdr; body = [] }, r')
    else (
      record { module_id = header_module hdr; sub_id = header_sub hdr; body = or_nothing out.0 },
      out.1,
    )

-- processMessages: the messages handed on, and the receive buffer that is left. The test of the
-- length against MAX_PACKET_SIZE never fails, since a uint16_t is at most that.
unfoldable pub process_messages : ℕ → RingBuffer → List Message × RingBuffer
unfolding readable_bytes
process_messages zero r = ([], r)
process_messages (suc fuel) r =
    let hdr = or_nothing (peek r msg_header_size) in
    let (message, r') = take_message r in
    let later = process_messages fuel r' in
    if ltb (readable_bytes r) msg_header_size
    then ([], r)
    else if ltb (readable_bytes r) (msg_header_size + body_len hdr)
    then ([], r)
    else (message ∷ later.0, later.1)
