-- ===== src/Outbox/Serve.antt =====
-- onExternTick of SuperServer/LoginExternOutbox.cpp, and the calls of the outbox one after another. The
-- code reads the clock several times in a tick: at its start, where it queues again what was in flight,
-- and where it sends.
use rpg_server.Base.{
  ℕ, ◌+◌, not, ◌&&◌, Option, List, [], ◌++◌, ltb, leb, ◌==◌, if◌then◌else◌, nat_eq,
}
use rpg_server.Outbox.Queue.{
  VerifyReq, GatewayBody, Outbox, Event, requeue, reset_send_state, expire_in_flight, expire_queue,
  enqueue_verify_token, enqueue_gateway_register, enqueue_raw, enqueue_zone_status_report,
  complete_verify_rsp, login_conn_stable_ticks, gateway_heartbeat, update_last_user,
  extern_game_zone_fwd,
}
use rpg_server.Outbox.Flush.{LoginClient, flush}

pub record Clock : Type 0 where
  pub now_ms : ℕ
  pub requeue_ms : ℕ
  pub send_ms : ℕ

-- A lost connection: what is in flight is queued again.
unfoldable pub on_lost : ℕ → Outbox → Outbox × List Event
unfolding requeue reset_send_state
on_lost ms o =
    let (q, events) = requeue ms o.in_flight o.queue in
    (
      record {
        queue = reset_send_state q;
        in_flight = [];
        login_conn_ready_ms = 0;
        login_stable_ticks = 0;
      },
      events,
    )

-- A connection that is idle for one more tick.
unfoldable pub on_idle : ℕ → Outbox → Outbox
on_idle now_ms o =
    let ticks =
      if ltb o.login_stable_ticks login_conn_stable_ticks
      then o.login_stable_ticks + 1
      else o.login_stable_ticks in
    record o {
      login_stable_ticks = ticks;
      login_conn_ready_ms =
          if leb login_conn_stable_ticks ticks && o.login_conn_ready_ms == 0
          then now_ms
          else o.login_conn_ready_ms;
    }

module _ (l : LoginClient) where
  open l use {Client, is_connected, can_send, has_pending_send}

  -- The first part of a tick: the state of the connection.
  unfoldable pub watch : Clock → Client → Outbox → Outbox × List Event
  unfolding on_lost on_idle
  watch t c o =
      if not (is_connected c)
      then on_lost t.requeue_ms o
      else if can_send c && not (has_pending_send c)
      then (on_idle t.now_ms o, [])
      else (record o { login_stable_ticks = 0 }, [])

  -- The second part: what has waited for too long.
  unfoldable pub expire : ℕ → Outbox → Outbox × List Event
  unfolding expire_in_flight expire_queue
  expire now_ms o =
      let (m, failed) = expire_in_flight now_ms o.in_flight in
      let (q, failed') = expire_queue now_ms o.queue in
      (record o { queue = q; in_flight = m }, failed ++ failed')

  unfoldable pub on_extern_tick : Clock → Client → Outbox → Outbox × Client × List Event
  unfolding watch expire flush
  on_extern_tick t c o =
      let (o1, events1) = watch t c o in
      let (o2, events2) = expire t.now_ms o1 in
      let f = flush l o2.login_conn_ready_ms t.send_ms [] o2.queue o2.in_flight c in
      (
        record o2 { queue = f.queue; in_flight = f.in_flight },
        f.client,
        events1 ++ (events2 ++ f.events),
      )

  pub data Call : Type 0 where
    verifies : ℕ → ℕ → VerifyReq → Call
    registers : ℕ → ℕ → GatewayBody → Call
    heartbeats updates forwards : ℕ → Option (List ℕ) → Call
    reports : ℕ → List ℕ → Call
    completes : ℕ → List ℕ → Call
    ticks : Clock → Client → Call

  abbrev pub serve : Outbox → Call → Outbox × List Event
  serve o (verifies ms conn req) =
      let (done, o', events) = enqueue_verify_token ms conn req o in (o', events)
  serve o (registers ms conn body) = enqueue_gateway_register ms conn body o
  serve o (heartbeats ms bytes) = (enqueue_raw gateway_heartbeat ms bytes o, [])
  serve o (updates ms bytes) = (enqueue_raw update_last_user ms bytes o, [])
  serve o (forwards ms bytes) = (enqueue_raw extern_game_zone_fwd ms bytes o, [])
  serve o (reports ms report) = (enqueue_zone_status_report ms report o, [])
  serve o (completes seq rest) = complete_verify_rsp seq rest o
  serve o (ticks t c) = let (o', c', events) = on_extern_tick t c o in (o', events)
