-- ===== src/Outbox/Clocks.antt =====
-- A lost connection in onExternTick of SuperServer/LoginExternOutbox.cpp, where the clock goes on
-- between the start of the tick and requeueInFlightVerifyOnDisconnect.
use rpg_server.Base.{
  ℕ, ◌+◌, ◌≤◌, ◌<◌, ◌≡◌, refl, inl, inr, true, false, List, [], ◌∷◌, ◌++◌, arith, le→leb,
  Bool-cases, nat_eq, Table, total, u64_mod, sub64,
}
use rpg_server.Outbox.Queue.{
  gateway_register, gateway_heartbeat, update_last_user, zone_status_report, extern_game_zone_fwd,
  deferred_verify_timeout_ms, expire_in_flight, unstarted, Payload, verify_token, Item, Pending,
  Outbox, is_verify, is_late, is_full, requeue, reset_send_state, expire_queue,
}
use rpg_server.Outbox.Flush.{LoginClient, flush}
use rpg_server.Outbox.Serve.{Clock, watch, expire, on_lost, on_extern_tick}
use rpg_server.Outbox.Owed.{flying, queued, owed, answers, answers-append}
use rpg_server.Outbox.Kept.{watch_conserves, expire_conserves}

-- Verifications all, put into the queue at one time.
abbrev pub IsRequeued : ℕ → List Item → Type 0
IsRequeued ms [] = Unit {0}
IsRequeued ms (item ∷ items) =
    (is_verify item.payload ≡ true) × (item.enqueued_at_ms ≡ ms) × IsRequeued ms items

requeue-IsRequeued :
    (ms : ℕ) (m : Table ℕ Pending) (q : List Item)
    → IsRequeued ms q
    → IsRequeued ms (requeue ms m q).0
unfolding requeue
requeue-IsRequeued ms [] q h = h
requeue-IsRequeued ms ((seq, p) ∷ m) q h = elim (Bool-cases (is_full q)) [
  | inl full ↦ rw full (requeue-IsRequeued ms m q h)
  | inr room ↦ rw room (requeue-IsRequeued ms m (_ ∷ q) (refl, refl, h))
]

is_verify-unstarted : (p : Payload) → is_verify p ≡ true → is_verify (unstarted p) ≡ true
is_verify-unstarted (verify_token conn req started) h = refl
is_verify-unstarted (gateway_register conn body) h = cc
is_verify-unstarted (gateway_heartbeat bytes) h = cc
is_verify-unstarted (update_last_user bytes) h = cc
is_verify-unstarted (zone_status_report report) h = cc
is_verify-unstarted (extern_game_zone_fwd bytes) h = cc

reset-IsRequeued : (ms : ℕ) (q : List Item) → IsRequeued ms q → IsRequeued ms (reset_send_state q)
unfolding reset_send_state
reset-IsRequeued ms [] h = tt
reset-IsRequeued ms (item ∷ q) h =
    (is_verify-unstarted item.payload h.0, h.1, reset-IsRequeued ms q h.2)

late_all :
    (now_ms ms : ℕ) (q : List Item)
    → is_late now_ms ms ≡ true
    → IsRequeued ms q
    → (expire_queue now_ms q).0 ≡ []
unfolding expire_queue
late_all now_ms ms [] late h = refl
late_all now_ms ms (item ∷ q) late h = ground (arith, late_all now_ms ms q late h.2, h.0, h.1, late)

-- A time before: the difference wraps around.
is_late_before :
    (now_ms ms : ℕ) → now_ms < ms → ms ≤ now_ms + 1000 → ms < u64_mod → is_late now_ms ms ≡ true
unfolding sub64
is_late_before now_ms ms before soon small = le→leb deferred_verify_timeout_ms _ (omega arith)

module _ (l : LoginClient) where
  lost_empties :
      (t : Clock) (c : l.Client) (o : Outbox)
      → o.queue ≡ []
      → l.is_connected c ≡ false
      → is_late t.now_ms t.requeue_ms ≡ true
      → (expire l t.now_ms (watch l t c o).0).0.queue ≡ []
  unfolding expire watch on_lost
  lost_empties t c o empty lost late =
      let back = requeue-IsRequeued t.requeue_ms o.in_flight o.queue (rw empty tt) in
      rw lost (late_all t.now_ms t.requeue_ms _ late (reset-IsRequeued t.requeue_ms _ back))

  flush-nothing :
      (q ready ms : ℕ) (items : List Item) (m : Table ℕ Pending) (c : l.Client)
      → items ≡ []
      → m ≡ []
      → (queued q (flush l ready ms [] items m c).queue
            + flying q (flush l ready ms [] items m c).in_flight
          ≡ 0)
        × (answers q (flush l ready ms [] items m c).events ≡ 0)
  unfolding flush total
  flush-nothing q ready ms items m c e f = rw (e, f) (refl, refl)

  lost_lands :
      (t : Clock) (c : l.Client) (o : Outbox)
      → l.is_connected c ≡ false
      → (expire l t.now_ms (watch l t c o).0).0.in_flight ≡ []
  unfolding expire watch on_lost expire_in_flight
  lost_lands t c o lost = rw lost refl

  -- Where the connection is lost, the queue is empty, and the clock has gone on by up to a second between
  -- the start of the tick and the requeueing, the tick fails every verification that was in flight at
  -- once: it owes nothing afterwards, and has answered as many times as it owed.
  lost_fails :
      (q : ℕ) (t : Clock) (c : l.Client) (o : Outbox)
      → o.queue ≡ []
      → l.is_connected c ≡ false
      → t.now_ms < t.requeue_ms
      → t.requeue_ms ≤ t.now_ms + 1000
      → t.requeue_ms < u64_mod
      → (owed q (on_extern_tick l t c o).0 ≡ 0) × (answers q (on_extern_tick l t c o).2 ≡ owed q o)
  unfolding on_extern_tick flush total
  lost_fails q t c o empty lost before soon small =
      let late = is_late_before t.now_ms t.requeue_ms before soon small in
      let o1 = (watch l t c o).0 in
      let o2 = (expire l t.now_ms o1).0 in
      let none_left : o2.queue ≡ [] = lost_empties t c o empty lost late in
      let none_flies : o2.in_flight ≡ [] = lost_lands t c o lost in
      let all = watch_conserves l q t c o in
      let all' = expire_conserves l q t.now_ms o1 in
      let quiet =
        flush-nothing q o2.login_conn_ready_ms t.send_ms o2.queue o2.in_flight c none_left
          none_flies in
      let f = flush l o2.login_conn_ready_ms t.send_ms [] o2.queue o2.in_flight c in
      let was : owed q o2 ≡ 0 = rw (none_left, none_flies) refl in
      omega (
        arith,
        quiet,
        was,
        all,
        all',
        answers-append q (watch l t c o).1 ((expire l t.now_ms o1).1 ++ f.events),
        answers-append q (expire l t.now_ms o1).1 f.events,
      )
