-- ===== src/Reconnect/Spaced.antt =====
-- How often tryReconnectSuper of RecordServer/RecordServer.cpp tries.
use rpg_server.Base.{
  ℕ, ◌+◌, ◌*◌, ◌≤◌, ◌<◌, ◌≡◌, refl, subst, inl, inr, Bool, true, false, ◌&&◌, List, [], ◌∷◌, arith,
  ltb, if◌then◌else◌, Bool-cases, nat_eq, u64_mod, u32, sub64,
}
use rpg_server.Reconnect.{
  external_tls_stuck_ms, min_delay, max_delay, Link, Seen, retry, stuck_since, try_reconnect_super,
}

-- The delay before the next try is within its bounds.
abbrev pub IsPaced : Link → Type 0
IsPaced l = (min_delay ≤ l.retry_delay_ms) × (l.retry_delay_ms ≤ max_delay)

-- What a call leaves: the next try stays where it is, or a try has been made in time and the next one is
-- between the two bounds later.
abbrev pub Waits : Link → ℕ → Link → Bool → Type 0
Waits l now l' false = l'.next_retry_ms ≡ l.next_retry_ms
Waits l now l' true =
    (l.next_retry_ms ≤ now)
    × (now + min_delay ≤ l'.next_retry_ms)
    × (l'.next_retry_ms ≤ now + max_delay)

abbrev Steps : Link → ℕ → Link × Bool → Type 0
Steps l now r = IsPaced r.0 × Waits l now r.0 r.1

retry-Steps :
    (l : Link) (t : Seen)
    → IsPaced l
    → t.now_ms + max_delay < u64_mod
    → Steps l t.now_ms (retry l t)
unfolding retry
retry-Steps l t paced small = elim (Bool-cases (ltb t.now_ms l.next_retry_ms)) [
  | inl early ↦ rw early (paced, refl)
  | inr time ↦
      let come : l.next_retry_ms ≤ t.now_ms = ground (arith, time) in
      elim (Bool-cases t.connects) [
        | inl up ↦
            rw time (
              rw up
                ((omega arith, omega arith), (come, omega (arith, small), omega (arith, small))))
        | inr down ↦ elim (Bool-cases (ltb (u32 (l.retry_delay_ms * 2)) max_delay)) [
          | inl short ↦
              let h : l.retry_delay_ms * 2 < max_delay = ground (arith, short, paced) in
              rw time (
                rw (down, short)
                  (
                    (omega (arith, h, paced), omega (arith, h)),
                    (come, omega (arith, h, paced, small), omega (arith, h, small)),
                  ))
          | inr long ↦ rw time (
              rw (down, long)
                ((omega arith, omega arith), (come, omega (arith, small), omega (arith, small))))
        ]
      ]
]

try-Steps :
    (l : Link) (t : Seen)
    → IsPaced l
    → t.now_ms + max_delay < u64_mod
    → Steps l t.now_ms (try_reconnect_super l t)
unfolding try_reconnect_super
try-Steps l t paced small = elim (Bool-cases (t.connected && t.can_send)) [
  | inl fine ↦ rw fine ((omega arith, omega arith), refl)
  | inr broken ↦ elim (Bool-cases t.connected) [
    | inr gone ↦ rw gone (retry-Steps l t paced small)
    | inl half ↦ elim (Bool-cases (ltb (sub64 t.now_ms (stuck_since l t)) external_tls_stuck_ms)) [
      | inl young ↦ rw broken (rw half (rw young (paced, refl)))
      | inr old ↦
          rw broken
            (rw half (rw old (retry-Steps (record l { tls_stuck_since_ms = 0 }) t paced small)))
    ]
  ]
]

-- The times of the tries that a sequence of calls makes.
abbrev pub tries : Link → List Seen → List ℕ
tries l [] = []
tries l (t ∷ ts) =
    let (l', tried) = try_reconnect_super l t in
    let rest = tries l' ts in if tried then t.now_ms ∷ rest else rest

-- Every time is at least the one before it and a second.
abbrev pub AreSpaced : ℕ → List ℕ → Type 0
AreSpaced start [] = Unit {0}
AreSpaced start (t ∷ ts) = (start ≤ t) × AreSpaced (t + min_delay) ts

abbrev pub AllTimely : List Seen → Type 0
AllTimely [] = Unit {0}
AllTimely (t ∷ ts) = (t.now_ms + max_delay < u64_mod) × AllTimely ts

weaken : (a b : ℕ) (ts : List ℕ) → b ≤ a → AreSpaced a ts → AreSpaced b ts
weaken a b [] h s = tt
weaken a b (t ∷ ts) h s = (omega (arith, h, s.0), s.1)

-- From a link whose delay is within its bounds, whatever a sequence of calls finds at clocks that do not
-- reach the end of 64 bits, no new connection to SuperServer is tried before the next retry that the link
-- holds, nor within a second of the try before.
pub tries-AreSpaced :
    (l : Link) (ts : List Seen) → IsPaced l → AllTimely ts → AreSpaced l.next_retry_ms (tries l ts)
tries-AreSpaced l [] paced timely = tt
tries-AreSpaced l (t ∷ ts) paced timely =
    let l' = (try_reconnect_super l t).0 in
    let (paced', waits) = try-Steps l t paced timely.0 in
    let rest = tries-AreSpaced l' ts paced' timely.1 in
    elim (Bool-cases (try_reconnect_super l t).1) [
      | inl tried ↦
          let w : Waits l t.now_ms l' true = subst (Waits l t.now_ms l') tried waits in
          rw tried (w.0, weaken l'.next_retry_ms (t.now_ms + min_delay) _ w.1 rest)
      | inr quiet ↦
          let w : Waits l t.now_ms l' false = subst (Waits l t.now_ms l') quiet waits in
          rw quiet (subst (λ n. AreSpaced n (tries l' ts)) w rest)
    ]
