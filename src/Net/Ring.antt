-- ===== src/Net/Ring.antt =====
-- sdk/net/RingBuffer.h. The array is a list of `capacity` bytes, the cursors are uint32_t: sums and
-- differences are taken mod 2^32. `len` of Write is the length of the data that it is given.
pub mod Invariant
pub mod Contents
pub mod Write
pub mod Refine
use rpg_server.Base.{
  ℕ, zero, suc, ◌+◌, ◌%◌, List, [], ◌∷◌, ◌++◌, Bool, true, false, Option, none, some, if◌then◌else◌,
  ltb, leb, length, set, take, drop, replicate, u32, sub32,
}

pub record RingBuffer : Type 0 where
  pub buf : List ℕ
  pub capacity : ℕ
  pub read_pos : ℕ
  pub write_pos : ℕ
  pub size : ℕ

unfoldable pub new : ℕ → RingBuffer
new capacity = record {
  buf = replicate capacity 0;
  capacity = capacity;
  read_pos = 0;
  write_pos = 0;
  size = 0;
}

unfoldable pub writable_bytes : RingBuffer → ℕ
writable_bytes r = sub32 r.capacity r.size

unfoldable pub readable_bytes : RingBuffer → ℕ
readable_bytes r = r.size

-- `memcpy` into the array at a position.
unfoldable pub copy_in : List ℕ → ℕ → List ℕ → List ℕ
copy_in buf p [] = buf
copy_in buf p (x ∷ xs) = copy_in (set buf p x) (suc p) xs

-- `memcpy` out of the array, from a position.
unfoldable pub copy_out : List ℕ → ℕ → ℕ → List ℕ
copy_out buf p n = take n (drop p buf)

-- The bytes that Write leaves in the array: in one piece, or wrapped round its end.
unfoldable pub put : RingBuffer → List ℕ → List ℕ
put r bytes =
    let first = sub32 r.capacity r.write_pos in
    if leb (length bytes) first
    then copy_in r.buf r.write_pos bytes
    else copy_in (copy_in r.buf r.write_pos (take first bytes)) 0 (drop first bytes)

unfoldable pub write : RingBuffer → List ℕ → Bool × RingBuffer
write r bytes = if ltb (writable_bytes r) (length bytes) then (false, r) else (
  true,
  record r {
    buf = put r bytes;
    write_pos = u32 (r.write_pos + length bytes) % r.capacity;
    size = u32 (r.size + length bytes);
  },
)

-- What Peek copies out; `none` when it returns false.
unfoldable pub peek : RingBuffer → ℕ → Option (List ℕ)
peek r len =
    let first = sub32 r.capacity r.read_pos in
    if ltb r.size len
    then none
    else if leb len first
    then some (copy_out r.buf r.read_pos len)
    else some (copy_out r.buf r.read_pos first ++ copy_out r.buf 0 (sub32 len first))

unfoldable pub consume : RingBuffer → ℕ → RingBuffer
consume r len =
    if ltb r.size len
    then r
    else record r { read_pos = u32 (r.read_pos + len) % r.capacity; size = sub32 r.size len }

unfoldable pub read : RingBuffer → ℕ → Option (List ℕ) × RingBuffer
read r len = elim (peek r len) [ none ↦ (none, r) | some out ↦ (some out, consume r len) ]

unfoldable pub clear : RingBuffer → RingBuffer
clear r = record r { read_pos = 0; write_pos = 0; size = 0 }
