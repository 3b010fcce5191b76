-- ===== src/Gateway/Rates.antt =====
-- How many requests sdk/util/ConnRateLimiter.h lets through.
use rpg_server.Base.{
  ℕ, ◌+◌, ◌≤◌, ◌<◌, ◌≡◌, ◌≢◌, inl, inr, false, ◌||◌, List, [], ◌∷◌, arith, leb, ◌==◌, if◌then◌else◌,
  Bool-cases, nat_eq, u32_mod, u64_mod, u32, sub64, sub64_exact,
}
use rpg_server.Gateway.Limiter.{Slot, admit}

-- The requests of one connection at these times: how many are let through.
abbrev pub admitted : ℕ → ℕ → List ℕ → Slot → ℕ
admitted max window [] s = 0
admitted max window (t ∷ times) s =
    let (good, s') = admit max window t s in
    let rest = admitted max window times s' in if good then 1 + rest else rest

abbrev pub AllWithin : ℕ → ℕ → List ℕ → Type 0
AllWithin start window [] = Unit {0}
AllWithin start window (t ∷ times) =
    (start ≤ t) × (t < start + window) × (t < u64_mod) × AllWithin start window times

in_window :
    (start window t : ℕ)
    → start ≢ 0
    → start ≤ t
    → t < start + window
    → t < u64_mod
    → (start == 0 || leb window (sub64 t start)) ≡ false
in_window start window t opened after before small =
    ground (arith, sub64_exact t start after small, opened, after, before)

no_wrap : (max n : ℕ) → max < u32_mod → n < max → u32 (n + 1) ≡ n + 1
no_wrap max n small below = omega (arith, small, below)

below_max : {max n : ℕ} → leb max n ≡ false → n < max
below_max {max} {n} h = ground (arith, h)

-- Of the requests that come before a window is over, no more are let through than the maximum leaves
-- after those that the slot has counted.
pub admitted_within :
    (max window : ℕ) (times : List ℕ) (s : Slot)
    → s.window_start_ms ≢ 0
    → s.count ≤ max
    → max < u32_mod
    → AllWithin s.window_start_ms window times
    → admitted max window times s + s.count ≤ max
unfolding admit
admitted_within max window [] s opened low small within = omega (arith, low)
admitted_within max window (t ∷ times) s opened low small within =
    let shut : (s.window_start_ms == 0 || leb window (sub64 t s.window_start_ms)) ≡ false =
      in_window s.window_start_ms window t opened within.0 within.1 within.2 in
    elim (Bool-cases (leb max s.count)) [
      | inl full ↦ rw (shut, full) (admitted_within max window times s opened low small within.3)
      | inr room ↦
          let s' : Slot = record s { count = u32 (s.count + 1) } in
          let more : u32 (s.count + 1) ≡ s.count + 1 = no_wrap max s.count small (below_max room) in
          rw (shut, room)
            (omega (
              arith,
              more,
              admitted_within max window times s' opened (omega (arith, more, below_max room)) small
                  within.3,
            ))
    ]
