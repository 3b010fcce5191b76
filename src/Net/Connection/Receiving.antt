-- ===== src/Net/Connection/Receiving.antt =====
-- The read loops of sdk/net/TcpConnection.cpp.
use rpg_server.Base.{
  ℕ, ◌+◌, ◌≤◌, ◌<◌, ◌≡◌, sym, ap, ◌∙◌, List, [], ◌∷◌, ◌++◌, arith, nat_eq, length, length-append,
}
use mathlib.Core.List.{append_assoc, append-nil}
use rpg_server.Net.Ring.{RingBuffer, write}
use rpg_server.Net.Ring.Contents.{contents, length-contents}
use rpg_server.Net.Ring.Write.{write-contents, write_refused}
use rpg_server.Net.Ring.Invariant.{IsValid, write-IsValid}
use rpg_server.Net.Connection.{Connection, RecvOutcome, received, read_in}

-- The bytes of chunks, joined.
abbrev pub joined : List (List ℕ) → List ℕ
joined [] = []
joined (xs ∷ xss) = xs ++ joined xss

abbrev pub arrivals : List (List ℕ) → List RecvOutcome
arrivals [] = []
arrivals (xs ∷ xss) = received xs ∷ arrivals xss

write-capacity : (r : RingBuffer) (bytes : List ℕ) → (write r bytes).1.capacity ≡ r.capacity
unfolding write
write-capacity r bytes = ground arith

-- The receive buffer once bytes have been read into it.
abbrev pub Gathers : Connection → List ℕ → Connection → Type 0
Gathers c bytes c' = (contents c'.recv_buf ≡ contents c.recv_buf ++ bytes) × IsValid c'.recv_buf

-- The read loops put all that arrives into a valid receive buffer, in order, when it fits, and the
-- buffer stays valid.
pub read_in-joined :
    (chunks : List (List ℕ)) (c : Connection)
    → IsValid c.recv_buf
    → c.recv_buf.size + length (joined chunks) ≤ c.recv_buf.capacity
    → Gathers c (joined chunks) (read_in (arrivals chunks) c)
unfolding read_in
read_in-joined [] c v h = (sym (append-nil (contents c.recv_buf)), v)
read_in-joined (xs ∷ xss) c v h =
    let n : length (xs ++ joined xss) ≡ length xs + length (joined xss) =
      length-append xs (joined xss) in
    let (done, e) = write-contents xs v (omega arith) in
    let c' : Connection = record c { recv_buf = (write c.recv_buf xs).1 } in
    let cap : (write c.recv_buf xs).1.capacity ≡ c.recv_buf.capacity =
      write-capacity c.recv_buf xs in
    let size : (write c.recv_buf xs).1.size ≡ c.recv_buf.size + length xs = omega (
      arith,
      length-contents (write c.recv_buf xs).1,
      length-contents c.recv_buf,
      ap length e,
      length-append (contents c.recv_buf) xs,
    ) in
    let (f, v') = read_in-joined xss c' (write-IsValid xs v) (omega arith) in
    (f ∙ ap (λ ys. ys ++ joined xss) e ∙ append_assoc (contents c.recv_buf) xs (joined xss), v')

-- A chunk that does not fit into a valid receive buffer is lost as a whole: the loop goes on as if
-- it had not arrived.
pub read_in_loses :
    (bytes : List ℕ) (os : List RecvOutcome) (c : Connection)
    → IsValid c.recv_buf
    → c.recv_buf.capacity < c.recv_buf.size + length bytes
    → read_in (received bytes ∷ os) c ≡ read_in os c
unfolding read_in
read_in_loses bytes os c v h =
    ap (λ r. read_in os (record c { recv_buf = r })) (ap (λ p. p.1) (write_refused bytes v h))
