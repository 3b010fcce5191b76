-- ===== src/Outbox/Queue.antt =====
-- The data of SuperServer/LoginExternOutbox.cpp, and the loops that walk the queue or the verifications
-- in flight. Of a request only its sequence number is told from the other bytes. The answer of SendMsg
-- to a Record or a Gateway is not looked at by the code: such a message is an event.
use rpg_server.Base.{
  ℕ, Bool, true, false, not, ◌&&◌, ◌||◌, Option, none, some, List, [], ◌∷◌, ◌++◌, leb, ◌==◌,
  if◌then◌else◌, nat_eq, length, Table, find, erase, sub64,
}

pub record VerifyReq : Type 0 where
  pub request_seq : ℕ
  pub rest : List ℕ

pub record GatewayBody : Type 0 where
  pub gateway_server_id : ℕ
  pub rest : List ℕ

-- OutboxItem by its kind, each with the fields that the kind uses. The flag is `sendStarted`.
pub data Payload : Type 0 where
  verify_token : ℕ → VerifyReq → Bool → Payload
  gateway_register : ℕ → GatewayBody → Payload
  gateway_heartbeat update_last_user zone_status_report extern_game_zone_fwd : List ℕ → Payload

pub record Item : Type 0 where
  pub enqueued_at_ms : ℕ
  pub payload : Payload

-- PendingVerifyForward.
pub record Pending : Type 0 where
  pub record_conn : ℕ
  pub verify_req : VerifyReq
  pub sent_at_ms : ℕ

pub record Outbox : Type 0 where
  pub queue : List Item
  pub in_flight : Table ℕ Pending
  pub login_conn_ready_ms : ℕ
  pub login_stable_ticks : ℕ

-- What goes out: an item to the login server, an answer to the Record or the Gateway that asked.
pub data Event : Type 0 where
  sent : Payload → Event
  verify_failed : ℕ → ℕ → Event
  verify_answered : ℕ → ℕ → List ℕ → Event
  register_failed : ℕ → ℕ → Event

abbrev pub max_outbox_size : ℕ
max_outbox_size = 256

abbrev pub login_conn_warmup_ms : ℕ
login_conn_warmup_ms = 2500

abbrev pub login_conn_stable_ticks : ℕ
login_conn_stable_ticks = 3

abbrev pub deferred_verify_timeout_ms : ℕ
deferred_verify_timeout_ms = 17000

abbrev pub is_verify : Payload → Bool
is_verify (verify_token conn req started) = true
is_verify _ = false

abbrev pub is_started : Payload → Bool
is_started (verify_token conn req started) = started
is_started _ = false

abbrev pub is_full : List Item → Bool
is_full q = leb max_outbox_size (length q)

-- The loop of requeueInFlightVerifyOnDisconnect, at the time `ms`.
unfoldable pub requeue : ℕ → Table ℕ Pending → List Item → List Item × List Event
requeue ms [] q = (q, [])
requeue ms ((seq, p) ∷ m) q =
    let back : Item = record {
      enqueued_at_ms = ms;
      payload = verify_token p.record_conn p.verify_req false;
    } in
    let (q', events) = requeue ms m (if is_full q then q else back ∷ q) in
    (
      q',
      if is_full q then verify_failed p.record_conn p.verify_req.request_seq ∷ events else events,
    )

abbrev pub unstarted : Payload → Payload
unstarted (verify_token conn req started) = verify_token conn req false
unstarted p = p

-- resetQueuedVerifySendState.
unfoldable pub reset_send_state : List Item → List Item
reset_send_state [] = []
reset_send_state (item ∷ items) =
    record item { payload = unstarted item.payload } ∷ reset_send_state items

-- canSendVerifyNow, at the time `ms`.
unfoldable pub can_send_verify : ℕ → ℕ → Bool
can_send_verify ready ms = not (ready == 0) && leb login_conn_warmup_ms (sub64 ms ready)

unfoldable pub any_started : List Item → Bool
any_started [] = false
any_started (item ∷ items) = is_started item.payload || any_started items

abbrev pub is_empty {ℓ} : {A : Type ℓ} → List A → Bool
is_empty [] = true
is_empty (x ∷ xs) = false

-- isVerifyTransportBusy.
unfoldable pub is_verify_transport_busy : Table ℕ Pending → List Item → Bool
unfolding any_started
is_verify_transport_busy in_flight q = not (is_empty in_flight) || any_started q

unfoldable pub any_verify : List Item → Bool
any_verify [] = false
any_verify (item ∷ items) = is_verify item.payload || any_verify items

unfoldable pub has_pending_verify : Outbox → Bool
unfolding any_verify
has_pending_verify o = not (is_empty o.in_flight) || any_verify o.queue

abbrev pub is_late : ℕ → ℕ → Bool
is_late now_ms since_ms = leb deferred_verify_timeout_ms (sub64 now_ms since_ms)

-- The loop of onExternTick over the verifications in flight.
unfoldable pub expire_in_flight : ℕ → Table ℕ Pending → Table ℕ Pending × List Event
expire_in_flight now_ms [] = ([], [])
expire_in_flight now_ms ((seq, p) ∷ m) =
    let rest = expire_in_flight now_ms m in
    if is_late now_ms p.sent_at_ms
    then (rest.0, verify_failed p.record_conn p.verify_req.request_seq ∷ rest.1)
    else ((seq, p) ∷ rest.0, rest.1)

-- The loop of onExternTick over the queue.
unfoldable pub expire_queue : ℕ → List Item → List Item × List Event
expire_queue now_ms [] = ([], [])
expire_queue now_ms (item ∷ items) =
    let rest = expire_queue now_ms items in
    elim item.payload [
      | verify_token conn req started ↦
          if is_late now_ms item.enqueued_at_ms
          then (rest.0, verify_failed conn req.request_seq ∷ rest.1)
          else (item ∷ rest.0, rest.1)
      | other ↦ (item ∷ rest.0, rest.1)
    ]

abbrev pub push_back : ℕ → Payload → Outbox → Outbox
push_back ms p o = record o { queue = o.queue ++ record { enqueued_at_ms = ms; payload = p } ∷ [] }

unfoldable pub enqueue_verify_token : ℕ → ℕ → VerifyReq → Outbox → Bool × Outbox × List Event
enqueue_verify_token ms conn req o =
    if is_full o.queue then (false, o, verify_failed conn req.request_seq ∷ []) else (
      true,
      record o {
        queue = record { enqueued_at_ms = ms; payload = verify_token conn req false } ∷ o.queue;
      },
      [],
    )

unfoldable pub enqueue_gateway_register : ℕ → ℕ → GatewayBody → Outbox → Outbox × List Event
enqueue_gateway_register ms conn body o =
    if is_full o.queue
    then (o, register_failed conn body.gateway_server_id ∷ [])
    else (push_back ms (gateway_register conn body) o, [])

-- enqueueGatewayHeartbeat, enqueueUpdateLastUser and enqueueExternGameZoneFwd: the bytes of a null
-- pointer are `none`.
unfoldable pub enqueue_raw : (List ℕ → Payload) → ℕ → Option (List ℕ) → Outbox → Outbox
enqueue_raw kind ms none o = o
enqueue_raw kind ms (some []) o = o
enqueue_raw kind ms (some (b ∷ bytes)) o =
    if is_full o.queue then o else push_back ms (kind (b ∷ bytes)) o

unfoldable pub enqueue_zone_status_report : ℕ → List ℕ → Outbox → Outbox
enqueue_zone_status_report ms report o =
    if is_full o.queue then o else push_back ms (zone_status_report report) o

-- completeVerifyRsp.
unfoldable pub complete_verify_rsp : ℕ → List ℕ → Outbox → Outbox × List Event
complete_verify_rsp seq rest o = elim (find seq o.in_flight) [
  | none ↦ (o, [])
  | some p ↦
      (record o { in_flight = erase seq o.in_flight }, verify_answered p.record_conn seq rest ∷ [])
]
