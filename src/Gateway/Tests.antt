-- ===== src/Gateway/Tests.antt =====
-- A client that logs in at a gateway with GatewayServer/GatewayServer.cpp.
use rpg_server.Base.{
  pos, ℕ, ◌+◌, ◌≤◌, ◌≡◌, refl, true, Option, none, some, List, [], ◌∷◌, ◌++◌, arith, ltb, nat_eq,
  contains, find, insert, sub64,
}
use rpg_server.Gateway.User.{account_ok, in_world, GatewayUser, new_user}
use rpg_server.Gateway.Messages.{
  logout, gateway_auth, select_user, move, Links, Proto, SelectReq, return_login, ok,
}
use rpg_server.Gateway.Validator.{check}
use rpg_server.Gateway.Limiter.{Slot, admit}
use rpg_server.Gateway.Replies.{on_list_characters_rsp, on_validate_token_rsp, on_user_login_rsp}
use rpg_server.Gateway.Server.{
  at_conn, on_connect, hang_up, login_answers, Gateway, handle_client_msg, Call, connects, says,
  token_answers, list_answers, serve,
}
use rpg_server.Gateway.Flow.{Continues}
use rpg_server.Gateway.Histories.{serve-Continues, IsOrderly, run, run-IsOrderly}
use rpg_server.Gateway.World.{handle_client_msg-forwards, late_login_plays}
use rpg_server.Gateway.Rates.{admitted, admitted_within}

abbrev two : List ℕ → Option SelectReq
two (a ∷ b ∷ []) = some (record { user_id = a; login_txn_id = b })
two _ = none

-- A parser that reads a number a byte.
abbrev plain : Proto
plain = record {
  Coord = ℕ;
  is_beyond = λ x. ltb 100 x;
  module_no = λ t. 1;
  sub_no = λ t. 255;
  parse_auth =
      λ body. some (record { account = body; login_token = body; zone_id = 1; game_type = 0 });
  parse_create = λ body. some (record { name = body; vocation = 1; sex = 0; model_id = 1 });
  parse_select = two;
  parse_logout = λ body. some return_login;
  parse_move = λ body. some (record { user_id = 77; pos = some (1, 2, 3) });
  parse_chat = λ body. some (record { channel_known = true; content = body });
  parse_npc_talk = λ body. some 3;
  parse_heartbeat = λ body. some 9;
}

abbrev up : ℕ → Links
up ms = record {
  now_ms = ms;
  zone_id = 1;
  game_type = 0;
  upstream_ready = true;
  record_can_send = true;
  record_connected = true;
  record_takes = true;
  super_connected = true;
  super_takes = true;
  scene_connected = λ s. true;
  scene_takes = λ s. true;
  client_takes = true;
}

abbrev idle : Gateway
idle = record { users = []; limiter = record { max_per_window = 40; window_ms = 1000; slots = [] } }

abbrev hello : List (Links × Call)
hello = (up 5000, connects 4) ∷ (up 5001, says 4 0 gateway_auth (6 ∷ [])) ∷ []

abbrev arrival : List (Links × Call)
arrival =
    (up 5002, token_answers 4 (record { code = pos 0; accid = 31 }))
    ∷ (up 5003, list_answers 4 (record { code = pos 0; count = 1; role_ids = 8 ∷ []; len = 58 }))
    ∷ (up 5004, says 4 17 select_user (8 ∷ 0 ∷ []))
    ∷ []

idle-IsOrderly : IsOrderly idle.users
unfolding find
idle-IsOrderly = record { distinct = tt; identified = λ conn u e. cc }

run-IsOrderly_example : IsOrderly (run plain idle (hello ++ arrival)).0.users
unfolding find
run-IsOrderly_example =
    run-IsOrderly plain idle (hello ++ arrival) (refl, (tt, (tt, (tt, (tt, tt))))) idle-IsOrderly

serve-Continues_example :
    Continues (find 4 idle.users) (find 4 (serve plain (up 5000) idle (connects 4)).0.users)
unfolding find
serve-Continues_example = serve-Continues plain (up 5000) idle (connects 4) 4 tt refl

-- A session in the world.
abbrev player : GatewayUser
player = record (new_user 5000) {
  client_state = in_world;
  user_id = 77;
  accid = 31;
  scene_server_id = 2;
}

abbrev busy : Gateway
busy = record idle { users = (4, player) ∷ [] }

handle_client_msg-forwards_example :
    (u : GatewayUser) × (find 4 busy.users ≡ some u) × (u.client_state ≡ in_world)
unfolding handle_client_msg find
handle_client_msg-forwards_example =
    handle_client_msg-forwards plain (up 6000) 4 0 move (1 ∷ []) busy refl

-- A session after a logout, when the answer to its login comes.
abbrev returned : GatewayUser
returned = record (new_user 5000) { client_state = account_ok; accid = 31 }

late_login_plays_example :
    (v : GatewayUser) × ((on_user_login_rsp 4
        (record { code = pos 0; user_id = 8; scene_server_id = 2 })
        (some returned)).0
      ≡ some v)
    × (v.client_state ≡ in_world)
    × (v.user_id ≡ 0)
    × (check plain v move (1 ∷ []) ≡ ok)
late_login_plays_example =
    late_login_plays plain 4 (record { code = pos 0; user_id = 8; scene_server_id = 2 }) returned
      (1 ∷ []) (record { user_id = 77; pos = some (1, 2, 3) }) (1, 2, 3) refl refl refl refl refl
      (omega arith) (omega arith)

-- The client logs out before the answer to its login comes.
abbrev late : List (Links × Call)
late =
    (up 5005, says 4 0 logout (1 ∷ []))
    ∷ (up 5006, login_answers 4 (record { code = pos 0; user_id = 8; scene_server_id = 2 }))
    ∷ []

abbrev played : Option GatewayUser
played = find 4 (run plain idle (hello ++ (arrival ++ late))).0.users

late_session :
    played
    ≡ some (record (new_user 5000) {
      client_state = in_world;
      accid = 31;
      zone_id = 1;
      scene_server_id = 2;
      last_heartbeat = 5005;
      auth_started_at_ms = 5001;
    })
unfolding find at_conn on_user_login_rsp handle_client_msg on_list_characters_rsp
    on_validate_token_rsp on_connect insert hang_up sub64 contains
late_session = refl

abbrev opened : Slot
opened = record { window_start_ms = 5000; count = 1 }

admitted_within_example : admitted 2 1000 (5001 ∷ 5002 ∷ 5999 ∷ []) opened + opened.count ≤ 2
admitted_within_example =
    admitted_within 2 1000 (5001 ∷ 5002 ∷ 5999 ∷ []) opened (omega arith) (omega arith)
      (omega arith)
      (
        omega arith,
        omega arith,
        omega arith,
        (omega arith, omega arith, omega arith, (omega arith, omega arith, omega arith, tt)),
      )

-- A new window begins while the last requests of the old one are two milliseconds old.
admitted_twice : admitted 2 1000 (5999 ∷ 6000 ∷ 6001 ∷ []) opened ≡ 3
unfolding admit sub64
admitted_twice = refl
