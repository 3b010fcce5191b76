-- ===== src/Outbox/Tests.antt =====
-- The outbox of SuperServer/LoginExternOutbox.cpp on concrete calls.
use rpg_server.Base.{
  find, insert, erase, sub64, ℕ, ◌≡◌, refl, Bool, true, false, some, List, [], ◌∷◌, nat_eq, find,
  insert, erase, total, sub64,
}
use rpg_server.Outbox.Queue.{
  enqueue_raw, complete_verify_rsp, enqueue_verify_token, VerifyReq, verify_token,
  gateway_heartbeat, Item, Pending, Outbox, can_send_verify, is_verify_transport_busy,
}
use rpg_server.Outbox.Flush.{LoginClient}
use rpg_server.Outbox.Serve.{Clock, on_extern_tick, Call, verifies, heartbeats, completes, ticks}
use rpg_server.Outbox.Owed.{owed}
use rpg_server.Outbox.Answered.{run}

-- A client that sends at once while it is connected.
abbrev wire : LoginClient
wire = record {
  Client = Bool;
  is_connected = λ c. c;
  can_send = λ c. c;
  has_pending_send = λ c. false;
  send_msg = λ c p. (c, c);
}

abbrev request : ℕ → VerifyReq
request seq = record { request_seq = seq; rest = [] }

abbrev fresh : Outbox
fresh = record { queue = []; in_flight = []; login_conn_ready_ms = 1000; login_stable_ticks = 3 }

abbrev tick : ℕ → Bool → Call wire
tick ms up = ticks (record { now_ms = ms; requeue_ms = ms; send_ms = ms }) up

-- Two verifications, of which one is answered and the connection lost with the other in flight.
abbrev day : List (Call wire)
day =
    verifies 4000 8 (request 1)
    ∷ tick 4001 true
    ∷ verifies 4002 9 (request 2)
    ∷ completes 1 (5 ∷ [])
    ∷ tick 4003 true
    ∷ heartbeats 4004 (some (7 ∷ []))
    ∷ tick 4005 false
    ∷ []

day_after : (owed 1 (run wire fresh day).0 ≡ 0) × (owed 2 (run wire fresh day).0 ≡ 1)
unfolding on_extern_tick enqueue_raw complete_verify_rsp find enqueue_verify_token sub64
    can_send_verify insert erase is_verify_transport_busy total
day_after = (refl, refl)

abbrev waiting : List Item
waiting =
    record { enqueued_at_ms = 5; payload = verify_token 8 (request 1) false }
    ∷ record { enqueued_at_ms = 6; payload = gateway_heartbeat (7 ∷ []) }
    ∷ []

abbrev pending : Pending
pending = record { record_conn = 9; verify_req = request 2; sent_at_ms = 4000 }

abbrev flying_one : Outbox
flying_one = record {
  queue = [];
  in_flight = (2, pending) ∷ [];
  login_conn_ready_ms = 1000;
  login_stable_ticks = 3;
}

abbrev torn : Clock
torn = record { now_ms = 5000; requeue_ms = 5001; send_ms = 5002 }
