-- ===== src/Net/Ring/Refine.antt =====
-- The contract of the ring buffer: a queue of bytes with a bound, which the operations of
-- RingBuffer.h implement whatever the order in which they are called.
use rpg_server.Base.{
  ap₂, ℕ, ◌+◌, ◌≤◌, ◌<◌, ◌≡◌, refl, ap, ◌∙◌, inl, inr, Bool, true, false, Option, none, some, List,
  [], ◌∷◌, ◌++◌, arith, leb, if◌then◌else◌, leb→le, Bool-cases, nat_eq, length, take, drop,
}
use rpg_server.Net.Ring.{RingBuffer, new, write, peek, consume, read, clear}
use rpg_server.Net.Ring.Contents.{
  contents, length-contents, peek-contents, consume-contents, read-contents, read_short,
  contents-new, contents-clear,
}
use rpg_server.Net.Ring.Write.{write-contents, write_refused}
use rpg_server.Net.Ring.Invariant.{
  IsValid, new-IsValid, write-IsValid, consume-IsValid, read-IsValid, clear-IsValid,
}

pub data Op : Type 0 where
  writes : List ℕ → Op
  peeks reads consumes : ℕ → Op
  clears : Op

pub data Reply : Type 0 where
  accepted : Bool → Reply
  copied : Option (List ℕ) → Reply
  silent : Reply

-- A call of the code.
abbrev pub call : RingBuffer → Op → Reply × RingBuffer
call r (writes bytes) = (accepted (write r bytes).0, (write r bytes).1)
call r (peeks n) = (copied (peek r n), r)
call r (reads n) = (copied (read r n).0, (read r n).1)
call r (consumes n) = (silent, consume r n)
call r clears = (silent, clear r)

-- The same call on a bounded queue.
abbrev pub queue_call : ℕ → List ℕ → Op → Reply × List ℕ
queue_call c q (writes bytes) =
    if leb (length q + length bytes) c then (accepted true, q ++ bytes) else (accepted false, q)
queue_call c q (peeks n) = (copied (if leb n (length q) then some (take n q) else none), q)
queue_call c q (reads n) =
    if leb n (length q) then (copied (some (take n q)), drop n q) else (copied none, q)
queue_call c q (consumes n) = (silent, if leb n (length q) then drop n q else q)
queue_call c q clears = (silent, [])

pub call-IsValid : {r : RingBuffer} (op : Op) → IsValid r → IsValid (call r op).1
call-IsValid (writes bytes) v = write-IsValid bytes v
call-IsValid (peeks n) v = v
call-IsValid (reads n) v = read-IsValid n v
call-IsValid (consumes n) v = consume-IsValid n v
call-IsValid clears v = clear-IsValid v

consume_short : (r : RingBuffer) (n : ℕ) → r.size < n → consume r n ≡ r
unfolding consume
consume_short r n h = ground arith

call-capacity : (r : RingBuffer) (op : Op) → (call r op).1.capacity ≡ r.capacity
unfolding write consume read clear
call-capacity r (writes bytes) = ground arith
call-capacity r (peeks n) = refl
call-capacity r (reads n) = ground arith
call-capacity r (consumes n) = ground arith
call-capacity r clears = refl

call_refines :
    {r : RingBuffer} (op : Op)
    → IsValid r
    → ((call r op).0 ≡ (queue_call r.capacity (contents r) op).0)
      × (contents (call r op).1 ≡ (queue_call r.capacity (contents r) op).1)
call_refines {r} (writes bytes) v =
    rw (length-contents r) (elim (Bool-cases (leb (r.size + length bytes) r.capacity)) [
      | inl fits ↦
          let (a, b) = write-contents bytes v (leb→le _ _ fits) in rw fits (ap accepted a, b)
      | inr full ↦
          let e : write r bytes ≡ (false, r) = write_refused bytes v (ground arith) in
          rw (full, e) (refl, refl)
    ])
call_refines {r} (peeks n) v = rw (length-contents r) (ap copied (peek-contents n v), refl)
call_refines {r} (reads n) v = rw (length-contents r) (elim (Bool-cases (leb n r.size)) [
  | inl enough ↦ let (a, b) = read-contents n v (leb→le _ _ enough) in rw enough (ap copied a, b)
  | inr short ↦
      let e : read r n ≡ (none, r) = read_short n v (ground arith) in rw (short, e) (refl, refl)
])
call_refines {r} (consumes n) v = rw (length-contents r) (elim (Bool-cases (leb n r.size)) [
  | inl enough ↦ rw enough (refl, consume-contents n v (leb→le _ _ enough))
  | inr short ↦ rw short (refl, ap contents (consume_short r n (ground arith)))
])
call_refines {r} clears v = (refl, contents-clear r)

-- The replies to a sequence of calls.
pub run : RingBuffer → List Op → List Reply
run r [] = []
run r (op ∷ ops) = (call r op).0 ∷ run (call r op).1 ops

pub queue_run : ℕ → List ℕ → List Op → List Reply
queue_run c q [] = []
queue_run c q (op ∷ ops) = (queue_call c q op).0 ∷ queue_run c (queue_call c q op).1 ops

run_refines_from :
    {r : RingBuffer} (ops : List Op) → IsValid r → run r ops ≡ queue_run r.capacity (contents r) ops
unfolding run queue_run
run_refines_from [] v = refl
run_refines_from {r} (op ∷ ops) v =
    let (same, next) = call_refines op v in
    ap₂ (λ x xs. x ∷ xs) same
      (run_refines_from {r = (call r op).1} ops (call-IsValid op v)
        ∙ ap₂ (λ c q. queue_run c q ops) (call-capacity r op) next)

-- A fresh RingBuffer of positive capacity at most 2^31 gives, to every sequence of calls of Write,
-- Peek, Read, Consume and Clear, the replies of an empty queue of bytes with that bound.
pub run-new_refines :
    (capacity : ℕ) (ops : List Op)
    → 0 < capacity
    → capacity ≤ 2147483648
    → run (new capacity) ops ≡ queue_run capacity [] ops
unfolding new
run-new_refines capacity ops h k =
    run_refines_from ops (new-IsValid capacity h k)
    ∙ ap (λ q. queue_run capacity q ops) (contents-new capacity)
