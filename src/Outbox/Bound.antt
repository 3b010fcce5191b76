-- ===== src/Outbox/Bound.antt =====
-- The queue of SuperServer/LoginExternOutbox.cpp never holds more than 256 items.
use rpg_server.Base.{
  ℕ, suc, ◌+◌, ◌≤◌, ◌≡◌, refl, ap, inl, inr, Option, none, some, List, [], ◌∷◌, ◌++◌, arith,
  Bool-cases, nat_eq, length, length-append, Table,
}
use rpg_server.Outbox.Queue.{
  zone_status_report, gateway_register, Payload, Item, Pending, Outbox, is_full, requeue,
  reset_send_state, expire_queue, enqueue_verify_token, enqueue_gateway_register, enqueue_raw,
  enqueue_zone_status_report, complete_verify_rsp, max_outbox_size,
}
use rpg_server.Outbox.Flush.{LoginClient, flush, attempt, Attempt}
use rpg_server.Outbox.Serve.{
  Clock, on_lost, on_idle, watch, expire, on_extern_tick, Call, verifies, registers, heartbeats,
  updates, forwards, reports, completes, ticks, serve,
}

abbrev pub IsBounded : List Item → Type 0
IsBounded q = length q ≤ max_outbox_size

requeue-IsBounded :
    (ms : ℕ) (m : Table ℕ Pending) (q : List Item) → IsBounded q → IsBounded (requeue ms m q).0
unfolding requeue
requeue-IsBounded ms [] q h = h
requeue-IsBounded ms ((seq, p) ∷ m) q h = elim (Bool-cases (is_full q)) [
  | inl full ↦ rw full (requeue-IsBounded ms m q h)
  | inr room ↦ rw room (requeue-IsBounded ms m (_ ∷ q) (ground arith))
]

length-reset : (q : List Item) → length (reset_send_state q) ≡ length q
unfolding reset_send_state
length-reset [] = refl
length-reset (item ∷ q) = ap suc (length-reset q)

length-expire : (now_ms : ℕ) (q : List Item) → length (expire_queue now_ms q).0 ≤ length q
unfolding expire_queue
length-expire now_ms [] = omega arith
length-expire now_ms (item ∷ q) = ground (arith, length-expire now_ms q)

enqueue_raw-IsBounded :
    (kind : List ℕ → Payload) (ms : ℕ) (bytes : Option (List ℕ)) (o : Outbox)
    → IsBounded o.queue
    → IsBounded (enqueue_raw kind ms bytes o).queue
unfolding enqueue_raw
enqueue_raw-IsBounded kind ms none o h = h
enqueue_raw-IsBounded kind ms (some []) o h = h
enqueue_raw-IsBounded kind ms (some (b ∷ bytes)) o h = ground (
  arith,
  length-append o.queue (record { enqueued_at_ms = ms; payload = kind (b ∷ bytes) } ∷ []),
  h,
)

module _ (l : LoginClient) where
  length-flush :
      (ready ms : ℕ) (kept items : List Item) (m : Table ℕ Pending) (c : l.Client)
      → length (flush l ready ms kept items m c).queue ≤ length kept + length items
  unfolding flush
  length-flush ready ms kept [] m c = omega arith
  length-flush ready ms kept (item ∷ items) m c =
      let a : Attempt l = attempt l ready ms (kept ++ item ∷ items) item m c in
      ground (
        arith,
        length-flush ready ms (kept ++ a.item ∷ []) items a.in_flight a.client,
        length-append kept (a.item ∷ []),
        length-append kept items,
      )

  tick-IsBounded :
      (t : Clock) (c : l.Client) (o : Outbox)
      → IsBounded o.queue
      → IsBounded (on_extern_tick l t c o).0.queue
  unfolding on_extern_tick watch expire on_lost on_idle
  tick-IsBounded t c o h =
      let o1 = (watch l t c o).0 in
      let o2 = (expire l t.now_ms o1).0 in
      ground (
        arith,
        length-flush o2.login_conn_ready_ms t.send_ms [] o2.queue o2.in_flight c,
        length-expire t.now_ms o1.queue,
        length-reset (requeue t.requeue_ms o.in_flight o.queue).0,
        requeue-IsBounded t.requeue_ms o.in_flight o.queue,
        h,
      )

  -- Every call keeps the queue at 256 items or fewer.
  serve-IsBounded :
      (o : Outbox) (call : Call l) → IsBounded o.queue → IsBounded (serve l o call).0.queue
  unfolding enqueue_verify_token enqueue_gateway_register enqueue_zone_status_report
      complete_verify_rsp
  serve-IsBounded o (verifies ms conn req) h = ground (arith, h)
  serve-IsBounded o (registers ms conn body) h = ground (
    arith,
    length-append o.queue
        (record { enqueued_at_ms = ms; payload = gateway_register conn body } ∷ []),
    h,
  )
  serve-IsBounded o (heartbeats ms bytes) h = enqueue_raw-IsBounded _ ms bytes o h
  serve-IsBounded o (updates ms bytes) h = enqueue_raw-IsBounded _ ms bytes o h
  serve-IsBounded o (forwards ms bytes) h = enqueue_raw-IsBounded _ ms bytes o h
  serve-IsBounded o (reports ms report) h = ground (
    arith,
    length-append o.queue
        (record { enqueued_at_ms = ms; payload = zone_status_report report } ∷ []),
    h,
  )
  serve-IsBounded o (completes seq rest) h = ground (arith, h)
  serve-IsBounded o (ticks t c) h = tick-IsBounded t c o h
