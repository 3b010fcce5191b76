-- ===== src/Net/Ring/Write.antt =====
-- What Write leaves in the array of the ring buffer, and that it appends to the queue.
use rpg_server.Base.{
  get_or-drop, get_or-take, get_or-cons, length-drop, length-take, get_or-set, length-set,
  tabulate-add, sub32_exact, ℕ, suc, ◌+◌, ◌-◌, ◌%◌, ◌≤◌, ◌<◌, ◌≡◌, refl, ap₂, ◌∙◌, true, false,
  ◌&&◌, List, [], ◌∷◌, ◌++◌, arith, ltb, leb, if◌then◌else◌, nat_eq, length, get_or, set, take,
  drop, tabulate_ext, tabulate-get_or, u32, sub32,
}
use native.Mathlib.Nat.{mod-eq_of_lt, mod-lt, mod-eq-sub-mod}
use rpg_server.Net.Ring.{RingBuffer, copy_in, put, write}
use rpg_server.Net.Ring.Contents.{at, contents}
use rpg_server.Net.Ring.Invariant.{IsValid, write_in, write_full, write_fits, length-copy_in}

get_or-copy_in :
    (buf : List ℕ) (p : ℕ) (xs : List ℕ) (j : ℕ)
    → p + length xs ≤ length buf
    → get_or (copy_in buf p xs) j 0
      ≡ (if leb p j && ltb j (p + length xs) then get_or xs (j - p) 0 else get_or buf j 0)
unfolding copy_in
get_or-copy_in buf p [] j h = ground arith
get_or-copy_in buf p (x ∷ xs) j h = ground (
  arith,
  length-set buf p x,
  get_or-copy_in (set buf p x) (suc p) xs j,
  get_or-set buf p j x 0,
  get_or-cons x xs (j - p) 0,
)

-- How far a position stands behind the write cursor.
abbrev offset : RingBuffer → ℕ → ℕ
offset r j = if leb r.write_pos j then j - r.write_pos else j + r.capacity - r.write_pos

get_or-put :
    {r : RingBuffer} (bytes : List ℕ) (j : ℕ)
    → IsValid r
    → length bytes ≤ r.capacity
    → j < r.capacity
    → get_or (put r bytes) j 0
      ≡ (if ltb (offset r j) (length bytes) then get_or bytes (offset r j) 0 else get_or r.buf j 0)
unfolding put
get_or-put {r} bytes j v h k =
    let first = r.capacity - r.write_pos in
    let f : sub32 r.capacity r.write_pos ≡ first =
      sub32_exact r.capacity r.write_pos (omega (arith, write_in v)) (omega arith) in
    rw f (
      ground (
        arith,
        write_in v,
        get_or-copy_in r.buf r.write_pos bytes j,
        get_or-copy_in (copy_in r.buf r.write_pos (take first bytes)) 0 (drop first bytes) j,
        get_or-copy_in r.buf r.write_pos (take first bytes) j,
        length-copy_in r.buf r.write_pos (take first bytes),
        length-take first bytes,
        length-drop first bytes,
        get_or-take first bytes (j - r.write_pos) 0,
        get_or-drop first bytes (j - 0) 0,
      ))

-- A remainder of what is below twice the divisor.
mod_once : (x c : ℕ) → x < c + c → x % c ≡ (if ltb x c then x else x - c)
mod_once x c h = ground (
  arith,
  mod-eq_of_lt {n = x} {m = c},
  mod-eq-sub-mod {n = x} {m = c},
  mod-eq_of_lt {n = x - c} {m = c},
)

-- The bytes that were there before lie outside what Write stores.
offset_old :
    {r : RingBuffer} (n i : ℕ)
    → IsValid r
    → r.size + n ≤ r.capacity
    → i < r.size
    → n ≤ offset r ((r.read_pos + i) % r.capacity)
offset_old {r} n i v h k =
    ground (arith, mod_once (r.read_pos + r.size) r.capacity, mod_once (r.read_pos + i) r.capacity)

offset_new :
    {r : RingBuffer} (i : ℕ)
    → IsValid r
    → r.size + i < r.capacity
    → offset r ((r.read_pos + (r.size + i)) % r.capacity) ≡ i
offset_new {r} i v h = ground (
  arith,
  mod_once (r.read_pos + r.size) r.capacity,
  mod_once (r.read_pos + (r.size + i)) r.capacity,
)

-- The bytes that were there before are where they were.
old_bytes :
    {r : RingBuffer} (bytes : List ℕ) (i : ℕ)
    → IsValid r
    → r.size + length bytes ≤ r.capacity
    → i < r.size
    → get_or (put r bytes) ((r.read_pos + i) % r.capacity) 0 ≡ at r i
old_bytes {r} bytes i v h k = ground (
  arith,
  get_or-put bytes ((r.read_pos + i) % r.capacity) v,
  mod-lt (r.read_pos + i) v.has_room,
  offset_old (length bytes) i v h k,
)

-- The bytes of the data come behind them.
new_bytes :
    {r : RingBuffer} (bytes : List ℕ) (i : ℕ)
    → IsValid r
    → r.size + length bytes ≤ r.capacity
    → i < length bytes
    → get_or (put r bytes) ((r.read_pos + (r.size + i)) % r.capacity) 0 ≡ get_or bytes i 0
new_bytes {r} bytes i v h k =
    rw
      (get_or-put bytes ((r.read_pos + (r.size + i)) % r.capacity) v (omega arith)
        (mod-lt (r.read_pos + (r.size + i)) v.has_room))
      (rw (offset_new i v (omega arith)) (ground arith))

-- Write appends all its bytes to the queue when they fit.
pub write-contents :
    {r : RingBuffer} (bytes : List ℕ)
    → IsValid r
    → r.size + length bytes ≤ r.capacity
    → ((write r bytes).0 ≡ true) × (contents (write r bytes).1 ≡ contents r ++ bytes)
unfolding write contents
write-contents {r} bytes v h = rw (write_fits (length bytes) v h) (
  refl,
  let e : u32 (r.size + length bytes) ≡ r.size + length bytes = omega arith in
      rw e (
        tabulate-add r.size (length bytes)
          (λ i. get_or (put r bytes) ((r.read_pos + i) % r.capacity) 0)
        ∙ ap₂ (λ xs ys. xs ++ ys) (tabulate_ext r.size _ (at r) (λ i k. old_bytes bytes i v h k))
            (tabulate_ext (length bytes) _ (λ i. get_or bytes i 0) (λ i k. new_bytes bytes i v h k)
              ∙ tabulate-get_or bytes 0)),
)

-- Write refuses what does not fit, and changes nothing then.
pub write_refused :
    {r : RingBuffer} (bytes : List ℕ)
    → IsValid r
    → r.capacity < r.size + length bytes
    → write r bytes ≡ (false, r)
unfolding write
write_refused {r} bytes v h = rw (write_full (length bytes) v h)
