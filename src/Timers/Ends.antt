-- ===== src/Timers/Ends.antt =====
-- Update of sdk/timer/TimerMgr.h comes to an end, and what a callback cannot cancel.
use rpg_server.Base.{
  ℕ, zero, suc, ◌+◌, ◌≤◌, ◌<◌, ◌≡◌, refl, ap, ◌∙◌, inl, inr, Bool, true, false, ◌||◌, List, [], ◌∷◌,
  arith, ltb, ◌==◌, if◌then◌else◌, ltb→lt, lt→ltb, ==_iff, Bool-cases, nat_eq, u64_mod, u64,
}
use rpg_server.Timers.{
  cancel_in, put_back, TimerEntry, TimerMgr, emplace, cancel, put_back, fire, update,
}

module _ {Action : Type 0} where
  -- How many timers are due.
  abbrev pub due : ℕ → List (TimerEntry Action) → ℕ
  due now [] = 0
  due now (e ∷ es) = if ltb now e.next_tick then due now es else 1 + due now es

  -- No timer repeats beyond the end of the clock.
  abbrev pub AllShort : ℕ → List (TimerEntry Action) → Type 0
  AllShort now [] = Unit {0}
  AllShort now (e ∷ es) = (now + e.repeat_ms < u64_mod) × AllShort now es

  -- Whether the loop of Update ends here.
  abbrev pub is_settled : ℕ → List (TimerEntry Action) → Bool
  is_settled now [] = true
  is_settled now (e ∷ es) = ltb now e.next_tick

  -- A callback that makes no further timer due.
  abbrev pub IsCalm : ℕ → (Action → TimerMgr Action → TimerMgr Action) → Type 0
  IsCalm now call =
      (a : Action)
      → (m : TimerMgr Action) → AllShort now m.timers
      → (due now (call a m).timers ≤ due now m.timers) × AllShort now (call a m).timers

  due-emplace :
      (now : ℕ) (e : TimerEntry Action) (es : List (TimerEntry Action))
      → ltb now e.next_tick ≡ true
      → due now (emplace e es) ≡ due now es
  unfolding emplace
  due-emplace now e [] h = rw h refl
  due-emplace now e (x ∷ es) h = ground (arith, h, due-emplace now e es h)

  emplace-AllShort :
      (now : ℕ) (e : TimerEntry Action) (es : List (TimerEntry Action))
      → now + e.repeat_ms < u64_mod
      → AllShort now es
      → AllShort now (emplace e es)
  unfolding emplace
  emplace-AllShort now e [] h w = (h, tt)
  emplace-AllShort now e (x ∷ es) h w = elim (Bool-cases (ltb e.next_tick x.next_tick)) [
    | inl before ↦ rw before (h, w)
    | inr behind ↦ rw behind (w.0, emplace-AllShort now e es h w.1)
  ]

  put_back-due :
      (now : ℕ) (e : TimerEntry Action) (m : TimerMgr Action)
      → now + e.repeat_ms < u64_mod
      → AllShort now m.timers
      → (due now (put_back now e m).timers ≡ due now m.timers)
        × AllShort now (put_back now e m).timers
  unfolding put_back
  put_back-due now e m h w = elim (Bool-cases (ltb 0 e.repeat_ms)) [
    | inr once ↦ rw once (refl, w)
    | inl again ↦
        let e' : TimerEntry Action = record e { next_tick = u64 (now + e.repeat_ms) } in
        let later : ltb now (u64 (now + e.repeat_ms)) ≡ true =
          lt→ltb now _ (omega (arith, h, ltb→lt 0 e.repeat_ms again)) in
        rw again (due-emplace now e' m.timers later, emplace-AllShort now e' m.timers h w)
  ]

  -- Whether a timer of this number is there.
  abbrev pub has_timer : ℕ → List (TimerEntry Action) → Bool
  has_timer number [] = false
  has_timer number (e ∷ es) = e.id == number || has_timer number es

  has_timer-emplace :
      (e : TimerEntry Action) (es : List (TimerEntry Action)) → has_timer e.id (emplace e es) ≡ true
  unfolding emplace
  has_timer-emplace e [] = ground (arith, ==_iff e.id e.id)
  has_timer-emplace e (x ∷ es) = ground (arith, ==_iff e.id e.id, has_timer-emplace e es)

  cancel_missing :
      (number : ℕ) (es : List (TimerEntry Action))
      → has_timer number es ≡ false
      → cancel_in number es ≡ es
  unfolding cancel_in
  cancel_missing number [] h = refl
  cancel_missing number (e ∷ es) h = elim (Bool-cases (e.id == number)) [
    | inl same ↦ ground (arith, h, same)
    | inr differs ↦
        rw differs (ap (λ xs. e ∷ xs) (cancel_missing number es (ground (arith, h, differs))))
  ]

  module _ (call : Action → TimerMgr Action → TimerMgr Action) where
    update_list_settled :
        (fuel now n : ℕ) (es : List (TimerEntry Action))
        → IsCalm now call
        → AllShort now es
        → due now es ≤ fuel
        → is_settled now (update call fuel now (record { next_id = n; timers = es })).timers ≡ true
    unfolding update fire
    update_list_settled zero now n [] calm short h = refl
    update_list_settled zero now n (e ∷ es) calm short h = elim (Bool-cases (ltb now e.next_tick)) [
      | inl later ↦ later
      | inr due_now ↦ absurd (ground (arith, h, due_now))
    ]
    update_list_settled (suc fuel) now n [] calm short h = refl
    update_list_settled (suc fuel) now n (e ∷ es) calm short h =
        let m : TimerMgr Action = record { next_id = n; timers = es } in
        let (less, short') = calm e.cb m short.1 in
        let (same, short'') = put_back-due now e (call e.cb m) short.0 short' in
        let m' = fire call now e es m in
        elim (Bool-cases (ltb now e.next_tick)) [
          | inl later ↦ rw later later
          | inr due_now ↦
              let due_one = rw due_now at h in
              rw due_now (
                update_list_settled fuel now m'.next_id m'.timers calm short''
                  (omega (arith, less, same, due_one)))
        ]

    -- With callbacks that make no further timer due, and no timer that repeats beyond the end of the
    -- clock, Update ends after as many turns as there are timers due: the first timer left is not due.
    pub update_settled :
        (fuel now : ℕ) (m : TimerMgr Action)
        → IsCalm now call
        → AllShort now m.timers
        → due now m.timers ≤ fuel
        → is_settled now (update call fuel now m).timers ≡ true
    update_settled fuel now m calm short h =
        update_list_settled fuel now m.next_id m.timers calm short h

  -- A timer that repeats, and whose callback ends by cancelling it where the rest of the callback leaves no
  -- timer under its number: its turn in Update leaves the timers that the rest of the callback alone would
  -- leave, and it is among them. The cancellation has no effect.
  pub fire-cancel :
      (call rest_of : Action → TimerMgr Action → TimerMgr Action) (now : ℕ) (e : TimerEntry Action)
      (rest : List (TimerEntry Action)) (m : TimerMgr Action)
      → 0 < e.repeat_ms
      → call e.cb (record m { timers = rest })
        ≡ cancel e.id (rest_of e.cb (record m { timers = rest }))
      → has_timer e.id (rest_of e.cb (record m { timers = rest })).timers ≡ false
      → (fire call now e rest m ≡ fire rest_of now e rest m)
        × (has_timer e.id (fire call now e rest m).timers ≡ true)
  unfolding fire put_back cancel
  fire-cancel call rest_of now e rest m again cancels gone =
      let done = rest_of e.cb (record m { timers = rest }) in
      let same : cancel e.id done ≡ done =
        ap (λ ts. record done { timers = ts }) (cancel_missing e.id done.timers gone) in
      (
        ap (put_back now e) (cancels ∙ same),
        rw (cancels ∙ same, lt→ltb 0 e.repeat_ms again)
            (has_timer-emplace (record e { next_tick = u64 (now + e.repeat_ms) }) done.timers),
      )
