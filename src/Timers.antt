-- ===== src/Timers.antt =====
-- sdk/timer/TimerMgr.h. What a callback does to the timers is a parameter, as is the clock.
pub mod Ends
mod Tests
use rpg_server.Base.{
  ℕ, zero, suc, ◌+◌, ◌-◌, ◌/◌, List, [], ◌∷◌, arith, ltb, ◌==◌, if◌then◌else◌, Eq, nat_eq, u64,
}

pub record TimerEntry (Action : Type 0) : Type 0 where
  pub id : ℕ
  pub next_tick : ℕ
  pub repeat_ms : ℕ
  pub cb : Action

-- The multimap is a list in the order of the times.
pub record TimerMgr (Action : Type 0) : Type 0 where
  pub next_id : ℕ
  pub timers : List (TimerEntry Action)

module _ {Action : Type 0} where
  -- multimap::emplace: behind those of the same time.
  unfoldable pub emplace : TimerEntry Action → List (TimerEntry Action) → List (TimerEntry Action)
  emplace e [] = e ∷ []
  emplace e (x ∷ xs) =
      let rest = emplace e xs in if ltb e.next_tick x.next_tick then e ∷ (x ∷ xs) else x ∷ rest

  unfoldable pub register : ℕ → ℕ → ℕ → Action → TimerMgr Action → ℕ × TimerMgr Action
  unfolding emplace
  register now interval repeat cb m =
      let number = u64 (m.next_id + 1) in
      (
        number,
        record {
          next_id = number;
          timers =
              emplace
                (record {
                  id = number;
                  next_tick = u64 (now + interval);
                  repeat_ms = repeat;
                  cb = cb;
                })
                m.timers;
        },
      )

  unfoldable pub cancel_in : ℕ → List (TimerEntry Action) → List (TimerEntry Action)
  cancel_in number [] = []
  cancel_in number (x ∷ xs) =
      let rest = cancel_in number xs in if x.id == number then rest else x ∷ rest

  unfoldable pub cancel : ℕ → TimerMgr Action → TimerMgr Action
  unfolding cancel_in
  cancel number m = record m { timers = cancel_in number m.timers }

  -- The end of a turn of Update's loop: a timer that repeats is put back.
  unfoldable pub put_back : ℕ → TimerEntry Action → TimerMgr Action → TimerMgr Action
  unfolding emplace
  put_back now e m =
      if ltb 0 e.repeat_ms
      then record m { timers = emplace (record e { next_tick = u64 (now + e.repeat_ms) }) m.timers }
      else m

  module _ (call : Action → TimerMgr Action → TimerMgr Action) where
    unfoldable pub fire :
        ℕ → TimerEntry Action → List (TimerEntry Action) → TimerMgr Action → TimerMgr Action
    unfolding put_back
    fire now e rest m = put_back now e (call e.cb (record m { timers = rest }))

    -- Update's loop.
    unfoldable pub update : ℕ → ℕ → TimerMgr Action → TimerMgr Action
    update zero now m = m
    update (suc fuel) now m = elim m.timers [
      | [] ↦ m
      | e ∷ rest ↦
          let done = update fuel now (fire now e rest m) in if ltb now e.next_tick then m else done
    ]
