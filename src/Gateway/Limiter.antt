-- ===== src/Gateway/Limiter.antt =====
-- sdk/util/ConnRateLimiter.h. `allow` and `allowKey` are the same over two tables; here the key is a
-- number.
use rpg_server.Base.{
  ℕ, ◌+◌, Bool, true, false, ◌||◌, none, some, leb, ◌==◌, if◌then◌else◌, nat_eq, Table, find,
  insert, erase, u32, sub64,
}

pub record Slot : Type 0 where
  pub window_start_ms : ℕ
  pub count : ℕ

pub record Limiter : Type 0 where
  pub max_per_window : ℕ
  pub window_ms : ℕ
  pub slots : Table ℕ Slot

-- The slot that operator[] finds or makes.
abbrev pub slot_of : ℕ → Table ℕ Slot → Slot
slot_of conn slots = elim (find conn slots) [
  | none ↦ record { window_start_ms = 0; count = 0 }
  | some s ↦ s
]

-- What a request at `now_ms` makes of its slot.
unfoldable pub admit : ℕ → ℕ → ℕ → Slot → Bool × Slot
admit max window now_ms s =
    if s.window_start_ms == 0 || leb window (sub64 now_ms s.window_start_ms)
    then (true, record { window_start_ms = now_ms; count = 1 })
    else if leb max s.count
    then (false, s)
    else (true, record s { count = u32 (s.count + 1) })

unfoldable pub allow : ℕ → ℕ → Limiter → Bool × Limiter
unfolding admit
allow now_ms conn r =
    let (good, s) = admit r.max_per_window r.window_ms now_ms (slot_of conn r.slots) in
    (good, record r { slots = insert conn s r.slots })

unfoldable pub forget : ℕ → Limiter → Limiter
forget conn r = record r { slots = erase conn r.slots }
