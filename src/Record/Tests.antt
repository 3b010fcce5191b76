-- ===== src/Record/Tests.antt =====
-- A Record server with one user cached and one in its queue, before a database that is a table.
use rpg_server.Base.{
  pos, ℕ, ◌+◌, ◌≡◌, refl, true, false, some, [], ◌∷◌, map, arith, nat_eq, contains, Table, find,
  insert,
}
use rpg_server.Super.State.{UserBaseWire, default_wire}
use rpg_server.Super.Messages.{whole}
use rpg_server.Record.Users.{Database, Record, on_load_user, on_save_user}
use rpg_server.Record.Loads.{IsQueued, asks, serve, serve-IsQueued}
use rpg_server.Record.Drained.{answer_id, item_id, drain_times, drain_times_answers}
use rpg_server.Record.Saves.{IsWire, save-load, drains, saves_all, writes, save_uncached_lost}
use rpg_server.Record.Tokens.{Tokens, validates, cleans}
use rpg_server.Record.Verified.{waiting, replies, run, all_asks, run_verifies}

abbrev tables : Database
tables = record {
  State = Table ℕ UserBaseWire;
  select = λ db user. find user db;
  upsert = λ db user base. insert user base db;
}

abbrev hero : UserBaseWire
hero = record default_wire { user_id = 700; name = 104 ∷ 105 ∷ []; map_id = 3; level = 8 }

abbrev stored : Table ℕ UserBaseWire
stored = (700, default_wire) ∷ (800, default_wire) ∷ []

abbrev server : Record
server = record {
  user_manager = (700, record { base = default_wire; dirty = false }) ∷ [];
  load_queue = record { user_id = 800; request_seq = 4 } ∷ [];
  pending_load_users = 800 ∷ [];
  save_queue = [];
}

server-IsQueued : IsQueued server
unfolding contains
server-IsQueued = record {
  once = λ u. ground arith;
  loads_bounded = omega arith;
  saves_bounded = omega arith;
}

serve-IsQueued_example : IsQueued (serve tables server (asks 900 5))
serve-IsQueued_example = serve-IsQueued tables server (asks 900 5) server-IsQueued

drain_times_answers_example :
    ((drain_times tables (stored ∷ []) server).0.load_queue ≡ [])
    × (map answer_id (drain_times tables (stored ∷ []) server).1 ≡ map item_id server.load_queue)
drain_times_answers_example = drain_times_answers tables (stored ∷ []) server refl

hero-IsWire : IsWire hero
hero-IsWire = record { named = (refl, (refl, tt)); fits = omega arith; on_map = refl }

save-load_example :
    (on_load_user (on_save_user server 9 700 (some hero)).0 700 5).1
    ≡ whole (record { code = pos 0; user_id = 700; request_seq = 5 }) hero ∷ []
save-load_example = save-load server 9 700 5 hero hero-IsWire

save_uncached_lost_example :
    (writes tables stored (on_save_user server 9 800 (some hero)).0 (drains ∷ saves_all ∷ [])).0
    ≡ stored
unfolding find
save_uncached_lost_example =
    save_uncached_lost tables stored server 9 800 hero (drains ∷ saves_all ∷ []) (refl, tt) refl

abbrev tokens : Tokens
tokens = record {
  login_verify_seq = 3;
  pending_verify_token =
      (3, record { reply_conn = 1; gateway_conn_id = 55; created_at_ms = 1000 }) ∷ [];
}

run_verifies_example :
    waiting 1 55 (run tokens (validates 2000 true 1 56 ∷ cleans 16500 ∷ [])).0
      + replies 1 55 (run tokens (validates 2000 true 1 56 ∷ cleans 16500 ∷ [])).1
    ≡ waiting 1 55 tokens + all_asks 1 55 (validates 2000 true 1 56 ∷ cleans 16500 ∷ [])
unfolding find
run_verifies_example =
    run_verifies 1 55 tokens (validates 2000 true 1 56 ∷ cleans 16500 ∷ []) (refl, tt)
      (refl, (tt, tt))
