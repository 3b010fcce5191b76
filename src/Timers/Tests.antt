-- ===== src/Timers/Tests.antt =====
-- Timers of sdk/timer/TimerMgr.h whose callbacks do nothing or cancel a timer.
use rpg_server.Base.{ℕ, ◌≡◌, refl, true, Option, none, some, [], ◌∷◌, arith, nat_eq}
use rpg_server.Timers.{TimerEntry, TimerMgr, emplace, register, cancel, fire, update}
use rpg_server.Timers.Ends.{is_settled, has_timer, update_settled, fire-cancel}

abbrev does : Option ℕ → TimerMgr (Option ℕ) → TimerMgr (Option ℕ)
does none m = m
does (some number) m = cancel number m

abbrev ignores : Option ℕ → TimerMgr (Option ℕ) → TimerMgr (Option ℕ)
ignores a m = m

abbrev second : TimerEntry (Option ℕ)
second = record { id = 2; next_tick = 900; repeat_ms = 50; cb = some 2 }

abbrev pair : TimerMgr (Option ℕ)
pair = record {
  next_id = 2;
  timers = record { id = 1; next_tick = 800; repeat_ms = 0; cb = none } ∷ second ∷ [];
}

registered :
    (register 700 30 5 none pair).1.timers
    ≡ record { id = 3; next_tick = 730; repeat_ms = 5; cb = none } ∷ pair.timers
unfolding register emplace
registered = refl

update_settled_example : is_settled 1000 (update ignores 2 1000 pair).timers ≡ true
update_settled_example =
    update_settled ignores 2 1000 pair (λ a m short. (omega arith, short))
      (omega arith, (omega arith, tt)) (omega arith)

fire-cancel_example :
    (fire does 1000 second [] pair ≡ fire ignores 1000 second [] pair)
    × (has_timer 2 (fire does 1000 second [] pair).timers ≡ true)
fire-cancel_example = fire-cancel does ignores 1000 second [] pair (omega arith) refl refl
