-- ===== src/Net/Ring/Contents.antt =====
-- The ring buffer as a queue of bytes: Write appends, Peek and Read take from the front, Consume
-- drops from the front.
use rpg_server.Base.{
  ap₂, sub32_exact, ap, ℕ, ◌+◌, ◌-◌, ◌%◌, ◌≤◌, ◌<◌, ◌≡◌, refl, sym, ◌∙◌, false, none, some, List,
  [], ◌++◌, arith, ltb, leb, if◌then◌else◌, nat_eq, length, get_or, take, drop, tabulate,
  length-tabulate, tabulate_ext, tabulate-add, take-tabulate, drop-tabulate, take-drop-tabulate,
  u32, sub32,
}
use native.Mathlib.Nat.{mod-eq_of_lt, add-mod_left, mod-add-mod, add_assoc}
use rpg_server.Net.Ring.{consume, new, clear, read, RingBuffer, copy_out, peek}
use rpg_server.Net.Ring.Invariant.{IsValid}

-- The byte that stands `i` places behind the read cursor.
abbrev pub at : RingBuffer → ℕ → ℕ
at r i = get_or r.buf ((r.read_pos + i) % r.capacity) 0

-- The bytes to be read, in order.
unfoldable pub contents : RingBuffer → List ℕ
contents r = tabulate r.size (at r)

pub length-contents : (r : RingBuffer) → length (contents r) ≡ r.size
unfolding contents
length-contents r = length-tabulate r.size (at r)

low : (p i c : ℕ) → p + i < c → (p + i) % c ≡ p + i
low p i c h = mod-eq_of_lt h

high : (p i c : ℕ) → p ≤ c → i < c → (p + (c - p + i)) % c ≡ i
high p i c h k =
    let e : p + (c - p + i) ≡ c + i = omega arith in rw e (add-mod_left c i ∙ mod-eq_of_lt k)

copy_out-tabulate :
    (buf : List ℕ) (p n : ℕ)
    → p + n ≤ length buf
    → copy_out buf p n ≡ tabulate n (λ i. get_or buf (p + i) 0)
unfolding copy_out
copy_out-tabulate buf p n h = take-drop-tabulate p n buf 0 h

peek_straight :
    {r : RingBuffer} (len : ℕ)
    → IsValid r
    → len ≤ r.capacity - r.read_pos
    → copy_out r.buf r.read_pos len ≡ tabulate len (at r)
peek_straight {r} len v h =
    copy_out-tabulate r.buf r.read_pos len (omega arith)
    ∙ tabulate_ext len (λ i. get_or r.buf (r.read_pos + i) 0) (at r)
        (λ i k. ap (λ j. get_or r.buf j 0) (sym (low r.read_pos i r.capacity (omega arith))))

peek_wrapped :
    {r : RingBuffer} (len : ℕ)
    → IsValid r
    → len ≤ r.size
    → r.capacity - r.read_pos ≤ len
    → copy_out r.buf r.read_pos (r.capacity - r.read_pos)
        ++ copy_out r.buf 0 (len - (r.capacity - r.read_pos))
      ≡ tabulate len (at r)
peek_wrapped {r} len v h k =
    let first = r.capacity - r.read_pos in
    let e : len ≡ first + (len - first) = omega arith in
    ap₂ (λ xs ys. xs ++ ys) (peek_straight first v (omega arith))
      (copy_out-tabulate r.buf 0 (len - first) (omega arith)
        ∙ tabulate_ext (len - first) (λ i. get_or r.buf (0 + i) 0) (λ i. at r (first + i))
            (λ i l.
              ap (λ j. get_or r.buf j 0)
                (omega (arith, high r.read_pos i r.capacity (omega arith) (omega arith)))))
    ∙ sym (tabulate-add first (len - first) (at r))
    ∙ ap (λ n. tabulate n (at r)) (sym e)

peek_enough :
    {r : RingBuffer} (len : ℕ) → IsValid r → len ≤ r.size → peek r len ≡ some (tabulate len (at r))
unfolding peek
peek_enough {r} len v h =
    let f : sub32 r.capacity r.read_pos ≡ r.capacity - r.read_pos =
      sub32_exact r.capacity r.read_pos (omega arith) (omega arith) in
    rw f (
      ground (
        arith,
        sub32_exact len (r.capacity - r.read_pos),
        peek_straight len v,
        peek_wrapped len v h,
      ))

-- Peek copies out exactly the first bytes of the queue, whether or not they are wrapped.
pub peek-contents :
    {r : RingBuffer} (len : ℕ)
    → IsValid r
    → peek r len ≡ (if leb len r.size then some (take len (contents r)) else none)
unfolding peek contents
peek-contents {r} len v = ground (arith, peek_enough len v, take-tabulate len r.size (at r))

-- Consume drops bytes from the front of the queue.
pub consume-contents :
    {r : RingBuffer} (len : ℕ)
    → IsValid r
    → len ≤ r.size
    → contents (consume r len) ≡ drop len (contents r)
unfolding consume contents
consume-contents {r} len v h =
    let a : ltb r.size len ≡ false = ground arith in
    let b : sub32 r.size len ≡ r.size - len = sub32_exact r.size len h (omega arith) in
    let c : u32 (r.read_pos + len) ≡ r.read_pos + len = omega arith in
    let d : r.size ≡ len + (r.size - len) = omega arith in
    rw a (
      rw (b, c)
        (tabulate_ext (r.size - len) _ (λ i. at r (len + i))
            (λ i k.
              ap (λ j. get_or r.buf j 0)
                (mod-add-mod (r.read_pos + len) r.capacity i
                  ∙ ap (λ x. x % r.capacity) (add_assoc r.read_pos len i)))
          ∙ sym (drop-tabulate len (r.size - len) (at r))
          ∙ ap (λ n. drop len (tabulate n (at r))) (sym d)))

-- Read is Peek and Consume together: it takes the front of the queue off, or nothing.
pub read-contents :
    {r : RingBuffer} (len : ℕ)
    → IsValid r
    → len ≤ r.size
    → ((read r len).0 ≡ some (take len (contents r)))
      × (contents (read r len).1 ≡ drop len (contents r))
unfolding read
read-contents {r} len v h =
    let e : peek r len ≡ some (take len (contents r)) = ground (arith, peek-contents len v) in
    rw (e, read) (refl, consume-contents len v h)

pub read_short : {r : RingBuffer} (len : ℕ) → IsValid r → r.size < len → read r len ≡ (none, r)
unfolding read
read_short {r} len v h =
    let e : peek r len ≡ none = ground (arith, peek-contents len v) in rw (e, read)

pub contents-new : (capacity : ℕ) → contents (new capacity) ≡ []
unfolding contents new
contents-new capacity = refl

pub contents-clear : (r : RingBuffer) → contents (clear r) ≡ []
unfolding contents clear
contents-clear r = refl
