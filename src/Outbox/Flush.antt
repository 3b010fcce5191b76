-- ===== src/Outbox/Flush.antt =====
-- The walk of SuperServer/LoginExternOutbox.cpp over its queue that sends: trySendItem and the last
-- loop of onExternTick. The connection to the login server is an interface; where there is none, its
-- client is one that is not connected and cannot send.
use rpg_server.Base.{
  ℕ, ◌≡◌, inl, inr, Bool, true, false, not, ◌&&◌, ◌||◌, List, [], ◌∷◌, ◌++◌, if◌then◌else◌,
  Bool-cases, nat_eq, Table, insert,
}
use rpg_server.Outbox.Queue.{
  VerifyReq, Payload, verify_token, gateway_register, gateway_heartbeat, update_last_user,
  zone_status_report, extern_game_zone_fwd, Item, Pending, Event, sent, register_failed, is_verify,
  can_send_verify, is_verify_transport_busy, is_empty,
}

-- TcpClient, as the outbox uses it: SendMsg may answer false, and changes what is pending.
pub record LoginClient : Type 1 where
  pub Client : Type 0
  pub is_connected : Client → Bool
  pub can_send : Client → Bool
  pub has_pending_send : Client → Bool
  pub send_msg : Client → Payload → Bool × Client

module _ (l : LoginClient) where
  open l use {Client, is_connected, can_send, has_pending_send, send_msg}

  -- What trySendItem leaves: whether the item is done with, and everything that it may change.
  pub record Attempt : Type 0 where
    pub done : Bool
    pub item : Item
    pub in_flight : Table ℕ Pending
    pub client : Client
    pub events : List Event

  abbrev pub refused : Item → Table ℕ Pending → Client → Attempt
  refused item m c = record { done = false; item = item; in_flight = m; client = c; events = [] }

  -- A verification whose message is out: it waits until nothing is pending, then it is in flight.
  unfoldable pub settle : ℕ → Item → ℕ → VerifyReq → Table ℕ Pending → Client → List Event → Attempt
  settle ms item conn req m c events = record {
    done = not (has_pending_send c);
    item = record item { payload = verify_token conn req true };
    in_flight =
        if has_pending_send c
        then m
        else insert req.request_seq
            (record { record_conn = conn; verify_req = req; sent_at_ms = ms }) m;
    client = c;
    events = events;
  }

  -- An item that is sent once and then done with, also where the send fails if `drops` is set.
  unfoldable pub send_once : Item → Table ℕ Pending → Client → Bool → List Event → Attempt
  send_once item m c drops failure =
      let (ok, c') = send_msg c item.payload in
      record {
        done = ok || drops;
        item = item;
        in_flight = m;
        client = c';
        events = if ok then sent item.payload ∷ [] else failure;
      }

  -- The cases of HEARTBEAT, LAST_USER and GAMEZONE_FWD: without bytes there is nothing to send.
  unfoldable pub send_raw : Item → List ℕ → Table ℕ Pending → Client → Attempt
  unfolding send_once
  send_raw item bytes m c =
      if is_empty bytes
      then record { done = true; item = item; in_flight = m; client = c; events = [] }
      else send_once item m c false []

  -- The cases of trySendItem, once the client can send and, for all but a verification, the transport
  -- is not busy.
  unfoldable pub send_payload : ℕ → Item → Table ℕ Pending → Client → Payload → Attempt
  unfolding settle send_once send_raw
  send_payload ms item m c (verify_token conn req true) = settle ms item conn req m c []
  send_payload ms item m c (verify_token conn req false) =
      let (ok, c') = send_msg c item.payload in
      if ok then settle ms item conn req m c' (sent item.payload ∷ []) else refused item m c'
  send_payload ms item m c (gateway_register conn body) =
      send_once item m c true (register_failed conn body.gateway_server_id ∷ [])
  send_payload ms item m c (gateway_heartbeat bytes) = send_raw item bytes m c
  send_payload ms item m c (update_last_user bytes) = send_raw item bytes m c
  send_payload ms item m c (zone_status_report report) = send_once item m c false []
  send_payload ms item m c (extern_game_zone_fwd bytes) = send_raw item bytes m c

  -- One turn of the loop: the two guards of the loop, which are also those of trySendItem, and
  -- trySendItem. `queue` is the whole queue, with the item in it.
  unfoldable pub attempt : ℕ → ℕ → List Item → Item → Table ℕ Pending → Client → Attempt
  unfolding send_payload
  attempt ready ms queue item m c =
      if is_verify item.payload && not (can_send_verify ready ms)
      then refused item m c
      else if not (is_verify item.payload) && is_verify_transport_busy m queue
      then refused item m c
      else if not (can_send c)
      then refused item m c
      else send_payload ms item m c item.payload

  -- An attempt is refused, or gets past the guards.
  pub attempt_cases {μ} :
      (P : Attempt → Type μ) (ready ms : ℕ) (queue : List Item) (item : Item) (m : Table ℕ Pending)
      → (c : Client) → P (refused item m c)
      → ((is_verify item.payload && not (can_send_verify ready ms)) ≡ false
          → (not (is_verify item.payload) && is_verify_transport_busy m queue) ≡ false
          → P (send_payload ms item m c item.payload))
      → P (attempt ready ms queue item m c)
  unfolding attempt
  attempt_cases P ready ms queue item m c stays goes =
      elim (Bool-cases (is_verify item.payload && not (can_send_verify ready ms))) [
        | inl early ↦ rw early stays
        | inr in_time ↦
            elim (Bool-cases (not (is_verify item.payload) && is_verify_transport_busy m queue)) [
              | inl busy ↦ rw (in_time, busy) stays
              | inr free ↦ elim (Bool-cases (can_send c)) [
                | inl can ↦ rw (in_time, free, can) (goes in_time free)
                | inr cannot ↦ rw (in_time, free, cannot) stays
              ]
            ]
      ]

  pub record Flushed : Type 0 where
    pub queue : List Item
    pub in_flight : Table ℕ Pending
    pub client : Client
    pub events : List Event

  -- The loop: `kept` stands before the item at hand. It ends with the first item that is done with,
  -- MAX_FLUSH_PER_TICK being 1.
  unfoldable pub flush : ℕ → ℕ → List Item → List Item → Table ℕ Pending → Client → Flushed
  unfolding attempt
  flush ready ms kept [] m c = record { queue = kept; in_flight = m; client = c; events = [] }
  flush ready ms kept (item ∷ items) m c =
      let a = attempt ready ms (kept ++ item ∷ items) item m c in
      let rest = flush ready ms (kept ++ a.item ∷ []) items a.in_flight a.client in
      if a.done
      then record {
        queue = kept ++ items;
        in_flight = a.in_flight;
        client = a.client;
        events = a.events;
      }
      else record rest { events = a.events ++ rest.events }
