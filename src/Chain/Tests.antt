-- ===== src/Chain/Tests.antt =====
-- A login asked for twice, before a Record server with another user in its queue.
use rpg_server.Base.{
  pos, ℕ, ◌≡◌, refl, true, [], ◌∷◌, ◌++◌, map, arith, nat_eq, contains, Table, find, insert, sub64,
}
use rpg_server.Super.State.{Super, UserBaseWire, default_wire}
use rpg_server.Super.Messages.{UserEnterReq, LoadUserBody, whole}
use rpg_server.Super.Logins.{find_sub_server}
use rpg_server.Super.Serve.{logs_in, loaded, serve, run}
use rpg_server.Super.Steps.{begun, ask_load}
use rpg_server.Record.Users.{Database, Record, on_load_user}
use rpg_server.Record.Loads.{IsQueued}
use rpg_server.Record.Drained.{answer_id, item_id, drain_times}
use rpg_server.Chain.{retry_stalls}

abbrev tables : Database
tables = record {
  State = Table ℕ UserBaseWire;
  select = λ db user. find user db;
  upsert = λ db user base. insert user base db;
}

abbrev store : Record
store = record {
  user_manager = [];
  load_queue = record { user_id = 800; request_seq = 4 } ∷ [];
  pending_load_users = 800 ∷ [];
  save_queue = [];
}

abbrev zone : Super
zone = record {
  servers =
      (
        2,
        record {
          conn_id = 2;
          type = 2;
          server_id = 20;
          ip = [];
          port = 9000;
          name = [];
          alive = true;
          last_heartbeat = 1000;
        },
      )
      ∷ [];
  users = [];
  pending_logins = [];
  gateway_online = [];
  load_user_seq = 6;
}

abbrev ask : UserEnterReq
ask = record { user_id = 700; gateway_client_conn_id = 56; login_txn_id = 9 }

abbrev answer : LoadUserBody
answer = whole (record { code = pos 0; user_id = 700; request_seq = 7 }) default_wire

store-IsQueued : IsQueued store
unfolding contains
store-IsQueued = record {
  once = λ u. ground arith;
  loads_bounded = omega arith;
  saves_bounded = omega arith;
}

-- The Record server comes to user 800 between the two requests.
retry_stalls_example :
    let asked = run zone (logs_in 1000 1 ask ∷ logs_in 2000 1 ask ∷ []) in
    let first = on_load_user store 700 7 in
    let between = drain_times tables ([] ∷ []) first.0 in
    let second = on_load_user between.0 700 8 in
    (asked.1 ≡ ask_load zone ask ∷ ask_load (begun 1000 zone 1 ask) ask ∷ [])
    × (first.1 ++ second.1 ≡ [])
    × (map answer_id (between.1 ++ (drain_times tables ([] ∷ []) second.0).1)
        ≡ map item_id store.load_queue ++ (700, 7) ∷ [])
    × (serve asked.0 (loaded answer) ≡ (asked.0, []))
unfolding find contains find_sub_server sub64
retry_stalls_example =
    retry_stalls tables ([] ∷ []) ([] ∷ []) store 1000 2000 zone 1 1 ask answer (refl, refl) refl
      refl refl refl store-IsQueued refl refl refl (omega arith) refl refl
