-- ===== src/Outbox/Kept.antt =====
-- The parts of a tick of SuperServer/LoginExternOutbox.cpp: what each owes before and after, and that
-- the table of the verifications in flight keeps its form.
use rpg_server.Base.{
  ℕ, ◌+◌, ◌≡◌, refl, inl, inr, true, false, not, ◌&&◌, List, [], ◌∷◌, ◌++◌, arith, Bool-cases,
  nat_eq, Table, Distinct, insert-Distinct, total, erase_if-Distinct, Every, insert-Every,
  erase_if-Every,
}
use rpg_server.Outbox.Queue.{
  VerifyReq, Payload, verify_token, gateway_register, gateway_heartbeat, update_last_user,
  zone_status_report, extern_game_zone_fwd, Item, Pending, Outbox, Event, sent, requeue,
  expire_in_flight, expire_queue,
}
use rpg_server.Outbox.Flush.{
  LoginClient, flush, attempt, Attempt, settle, send_once, send_raw, send_payload, attempt_cases,
}
use rpg_server.Outbox.Serve.{Clock, on_lost, on_idle, watch, expire}
use rpg_server.Outbox.Owed.{
  owed, answers, answers-append, requeue_conserves, queued-reset, expire_in_flight_conserves,
  expire_queue_conserves, expire_in_flight-erase_if,
}

abbrev pub KeptTable : Table ℕ Pending → Type 0
KeptTable m = Every (λ seq (p : Pending). p.verify_req.request_seq ≡ seq) m × Distinct m

module _ (l : LoginClient) where
  pub watch_conserves :
      (q : ℕ) (t : Clock) (c : l.Client) (o : Outbox)
      → owed q (watch l t c o).0 + answers q (watch l t c o).1 ≡ owed q o
  unfolding watch on_lost on_idle total
  watch_conserves q t c o = ground (
    arith,
    requeue_conserves q t.requeue_ms o.in_flight o.queue,
    queued-reset q (requeue t.requeue_ms o.in_flight o.queue).0,
  )

  pub expire_conserves :
      (q now_ms : ℕ) (o : Outbox)
      → owed q (expire l now_ms o).0 + answers q (expire l now_ms o).1 ≡ owed q o
  unfolding expire
  expire_conserves q now_ms o = omega (
    arith,
    expire_in_flight_conserves q now_ms o.in_flight,
    expire_queue_conserves q now_ms o.queue,
    answers-append q (expire_in_flight now_ms o.in_flight).1 (expire_queue now_ms o.queue).1,
  )

  pub watch-KeptTable :
      (t : Clock) (c : l.Client) (o : Outbox)
      → KeptTable o.in_flight
      → KeptTable (watch l t c o).0.in_flight
  unfolding watch on_lost on_idle
  watch-KeptTable t c o k = elim (Bool-cases (l.is_connected c)) [
    | inr lost ↦ rw lost (tt, tt)
    | inl here ↦ elim (Bool-cases (l.can_send c && not (l.has_pending_send c))) [
      | inl idle ↦ rw (here, idle) k
      | inr busy ↦ rw (here, busy) k
    ]
  ]

  pub expire-KeptTable :
      (now_ms : ℕ) (o : Outbox) → KeptTable o.in_flight → KeptTable (expire l now_ms o).0.in_flight
  unfolding expire
  expire-KeptTable now_ms o k =
      rw (expire_in_flight-erase_if now_ms o.in_flight)
        (erase_if-Every _ _ o.in_flight k.0, erase_if-Distinct _ o.in_flight k.1)

  settle-KeptTable :
      (ms : ℕ) (item : Item) (conn : ℕ) (req : VerifyReq) (m : Table ℕ Pending) (c : l.Client)
      → (events : List Event) → KeptTable m
      → KeptTable (settle l ms item conn req m c events).in_flight
  unfolding settle
  settle-KeptTable ms item conn req m c events k = elim (Bool-cases (l.has_pending_send c)) [
    | inl pending ↦ rw pending k
    | inr clear ↦
        rw clear
          (insert-Every _ req.request_seq _ m refl k.0, insert-Distinct req.request_seq _ m k.1)
  ]

  raw-KeptTable :
      (item : Item) (bytes : List ℕ) (m : Table ℕ Pending) (c : l.Client)
      → KeptTable m
      → KeptTable (send_raw l item bytes m c).in_flight
  unfolding send_raw send_once
  raw-KeptTable item [] m c k = k
  raw-KeptTable item (b ∷ bytes) m c k = k

  payload-KeptTable :
      (ms : ℕ) (item : Item) (m : Table ℕ Pending) (c : l.Client) (p : Payload)
      → KeptTable m
      → KeptTable (send_payload l ms item m c p).in_flight
  unfolding send_payload send_once send_raw
  payload-KeptTable ms item m c (verify_token conn req true) k =
      settle-KeptTable ms item conn req m c [] k
  payload-KeptTable ms item m c (verify_token conn req false) k =
      elim (Bool-cases (l.send_msg c item.payload).0) [
        | inl ok ↦ rw ok (settle-KeptTable ms item conn req m _ (sent item.payload ∷ []) k)
        | inr failed ↦ rw failed k
      ]
  payload-KeptTable ms item m c (gateway_register conn body) k = k
  payload-KeptTable ms item m c (gateway_heartbeat bytes) k = raw-KeptTable item bytes m c k
  payload-KeptTable ms item m c (update_last_user bytes) k = raw-KeptTable item bytes m c k
  payload-KeptTable ms item m c (zone_status_report report) k = k
  payload-KeptTable ms item m c (extern_game_zone_fwd bytes) k = raw-KeptTable item bytes m c k

  attempt-KeptTable :
      (ready ms : ℕ) (queue : List Item) (item : Item) (m : Table ℕ Pending) (c : l.Client)
      → KeptTable m
      → KeptTable (attempt l ready ms queue item m c).in_flight
  attempt-KeptTable ready ms queue item m c k =
      attempt_cases l (λ a. KeptTable a.in_flight) ready ms queue item m c k
        (λ _ _. payload-KeptTable ms item m c item.payload k)

  pub flush-KeptTable :
      (ready ms : ℕ) (kept items : List Item) (m : Table ℕ Pending) (c : l.Client)
      → KeptTable m
      → KeptTable (flush l ready ms kept items m c).in_flight
  unfolding flush
  flush-KeptTable ready ms kept [] m c k = k
  flush-KeptTable ready ms kept (item ∷ items) m c k =
      let a : Attempt l = attempt l ready ms (kept ++ item ∷ items) item m c in
      let k' = attempt-KeptTable ready ms (kept ++ item ∷ items) item m c k in
      elim (Bool-cases a.done) [
        | inl done ↦ rw done k'
        | inr waits ↦
            rw waits (flush-KeptTable ready ms (kept ++ a.item ∷ []) items a.in_flight a.client k')
      ]
