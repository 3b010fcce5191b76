-- ===== src/Net/Ring/Invariant.antt =====
-- The invariant of the ring buffer, and that every operation of RingBuffer.h keeps it.
use rpg_server.Base.{
  false, true, ℕ, suc, ◌+◌, ◌-◌, ◌%◌, ◌≤◌, ◌<◌, ◌≡◌, refl, ◌∙◌, List, [], ◌∷◌, arith, length,
  length-set, length-replicate, take, drop, inl, inr, Bool-cases, ltb, set, u32, sub32, sub32_exact,
  Option-cases,
}
use native.Mathlib.Nat.{mod-add-mod, mod-lt, add_assoc}
use rpg_server.Net.Ring.{
  RingBuffer, new, writable_bytes, copy_in, put, write, peek, consume, read, clear,
}

-- The cursors stand in the array, the write cursor `size` bytes ahead of the read cursor. With
-- the capacity at most 2^31 no uint32_t sum of the code wraps.
pub record IsValid (r : RingBuffer) : Type 0 where
  pub has_room : 0 < r.capacity
  pub no_wrap : r.capacity ≤ 2147483648
  pub stored : length r.buf ≡ r.capacity
  pub read_in : r.read_pos < r.capacity
  pub fits : r.size ≤ r.capacity
  pub ahead : r.write_pos ≡ (r.read_pos + r.size) % r.capacity

pub new-IsValid : (capacity : ℕ) → 0 < capacity → capacity ≤ 2147483648 → IsValid (new capacity)
unfolding new
new-IsValid capacity h k = record {
  has_room = h;
  no_wrap = k;
  stored = length-replicate capacity 0;
  read_in = h;
  fits = omega arith;
  ahead = omega arith;
}

pub write_in : {r : RingBuffer} → IsValid r → r.write_pos < r.capacity
write_in {r} v = rw v.ahead (mod-lt (r.read_pos + r.size) v.has_room)

pub length-copy_in : (buf : List ℕ) (p : ℕ) (xs : List ℕ) → length (copy_in buf p xs) ≡ length buf
unfolding copy_in
length-copy_in buf p [] = refl
length-copy_in buf p (x ∷ xs) = length-copy_in (set buf p x) (suc p) xs ∙ length-set buf p x

pub length-put : (r : RingBuffer) (bytes : List ℕ) → length (put r bytes) ≡ length r.buf
unfolding put
length-put r bytes = ground (
  arith,
  length-copy_in r.buf r.write_pos bytes,
  length-copy_in (copy_in r.buf r.write_pos (take (sub32 r.capacity r.write_pos) bytes)) 0
      (drop (sub32 r.capacity r.write_pos) bytes),
  length-copy_in r.buf r.write_pos (take (sub32 r.capacity r.write_pos) bytes),
)

-- A cursor moved on twice.
pub move_twice : (a b c n : ℕ) → a ≡ b % n → (a + c) % n ≡ (b + c) % n
move_twice a b c n e = rw e (mod-add-mod b n c)

pub writable_bytes_lem : {r : RingBuffer} → IsValid r → writable_bytes r ≡ r.capacity - r.size
unfolding writable_bytes
writable_bytes_lem {r} v = sub32_exact r.capacity r.size v.fits (omega arith)

-- The free space is what Write tests.
pub write_room :
    {r : RingBuffer} (n : ℕ)
    → IsValid r
    → ltb (writable_bytes r) n ≡ false
    → n ≤ r.capacity - r.size
write_room {r} n v h = ground (arith, writable_bytes_lem v)

pub write_full :
    {r : RingBuffer} (n : ℕ) → IsValid r → r.capacity < r.size + n → ltb (writable_bytes r) n ≡ true
write_full {r} n v h = ground (arith, writable_bytes_lem v)

pub write_fits :
    {r : RingBuffer} (n : ℕ)
    → IsValid r
    → r.size + n ≤ r.capacity
    → ltb (writable_bytes r) n ≡ false
write_fits {r} n v h = ground (arith, writable_bytes_lem v)

ahead_write :
    {r : RingBuffer} (n : ℕ)
    → IsValid r
    → n ≤ r.capacity - r.size
    → u32 (r.write_pos + n) % r.capacity ≡ (r.read_pos + u32 (r.size + n)) % r.capacity
ahead_write {r} n v h =
    let a : u32 (r.write_pos + n) ≡ r.write_pos + n = omega (arith, write_in v) in
    let b : u32 (r.size + n) ≡ r.size + n = omega arith in
    rw (a, b)
      (rw (← add_assoc r.read_pos r.size n)
        (move_twice r.write_pos (r.read_pos + r.size) n r.capacity v.ahead))

pub write-IsValid : {r : RingBuffer} (bytes : List ℕ) → IsValid r → IsValid (write r bytes).1
unfolding write
write-IsValid {r} bytes v = elim (Bool-cases (ltb (writable_bytes r) (length bytes))) [
  | inl full ↦ rw full v
  | inr room ↦ rw room (record {
    has_room = v.has_room;
    no_wrap = v.no_wrap;
    stored = length-put r bytes ∙ v.stored;
    read_in = v.read_in;
    fits = omega (arith, write_room (length bytes) v room);
    ahead = ahead_write (length bytes) v (write_room (length bytes) v room);
  })
]

ahead_consume :
    {r : RingBuffer} (n : ℕ)
    → IsValid r
    → n ≤ r.size
    → r.write_pos ≡ (u32 (r.read_pos + n) % r.capacity + sub32 r.size n) % r.capacity
ahead_consume {r} n v h =
    let a : u32 (r.read_pos + n) ≡ r.read_pos + n = omega arith in
    let b : sub32 r.size n ≡ r.size - n = sub32_exact r.size n h (omega arith) in
    let c : r.read_pos + n + (r.size - n) ≡ r.read_pos + r.size = omega arith in
    rw (a, b) (rw (mod-add-mod (r.read_pos + n) r.capacity (r.size - n)) (rw c v.ahead))

pub consume-IsValid : {r : RingBuffer} (len : ℕ) → IsValid r → IsValid (consume r len)
unfolding consume
consume-IsValid {r} len v = elim (Bool-cases (ltb r.size len)) [
  | inl short ↦ rw short v
  | inr enough ↦ rw enough (record {
    has_room = v.has_room;
    no_wrap = v.no_wrap;
    stored = v.stored;
    read_in = mod-lt (u32 (r.read_pos + len)) v.has_room;
    fits = ground (arith, sub32_exact r.size len);
    ahead = ahead_consume len v (ground arith);
  })
]

pub read-IsValid : {r : RingBuffer} (len : ℕ) → IsValid r → IsValid (read r len).1
unfolding read
read-IsValid {r} len v = elim (Option-cases (peek r len)) [
  | inl e ↦ rw (e, read) v
  | inr (out, e) ↦ rw (e, read) (consume-IsValid len v)
]

pub clear-IsValid : {r : RingBuffer} → IsValid r → IsValid (clear r)
unfolding clear
clear-IsValid v = record {
  has_room = v.has_room;
  no_wrap = v.no_wrap;
  stored = v.stored;
  read_in = v.has_room;
  fits = omega arith;
  ahead = omega arith;
}
