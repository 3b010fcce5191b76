-- ===== src/Super/Tests.antt =====
-- A zone with four servers and a login under way, and logins in it.
use rpg_server.Base.{
  pos, ℕ, ◌+◌, ◌≡◌, refl, Bool, true, false, none, some, List, [], ◌∷◌, nat_eq, find, insert, erase,
  sub64,
}
use rpg_server.Super.State.{
  resolve_map, SubServerInfo, UserProxy, PendingLogin, Super, UserBaseWire, enter_scene,
  default_wire, session_type,
}
use rpg_server.Super.Messages.{
  UserEnterReq, SceneEnterRsp, user_login_rsp, kick_client, user_leave, resolve_map_req,
  user_enter_req,
}
use rpg_server.Super.Logins.{
  is_retry, on_user_login_req, find_sub_server, find_sub_server_by_server_id,
}
use rpg_server.Super.Entry.{enter_req, login_rsp}
use rpg_server.Super.Cases.{opened, map_of}
use rpg_server.Super.Routes.{
  check_pending_login_timeouts, remove_sub_server, type_of, zone_status, count_online,
}
use rpg_server.Super.Serve.{
  Event, logs_in, leaves, disconnects, checks_logins, beats, entered, serve, run,
}
use rpg_server.Super.Sound.{IsSound, serve-IsSound}
use rpg_server.Super.Owed.{waiting, answers}
use rpg_server.Super.Answered.{all_asks, all_given_up, run-answers}
use rpg_server.Super.Phases.{Moves, view, serve-Moves}
use rpg_server.Super.Ended.{left_after, timeouts_end_late, left_without, remove_ends_dependent}
use rpg_server.Super.Steps.{ask_load, answers_of, last_pending}
use rpg_server.Super.Path.{proxy_of, login_completes}
use rpg_server.Super.Kicked.{first_entry, retry_entering}
use rpg_server.Super.Late.{alive_at, late_stays}

abbrev server : ℕ → ℕ → ℕ → Bool → SubServerInfo
server conn type id alive = record {
  conn_id = conn;
  type = type;
  server_id = id;
  ip = [];
  port = 9000;
  name = [];
  alive = alive;
  last_heartbeat = 1000;
}

-- User 700 waits for a map.
abbrev resolving_700 : PendingLogin
resolving_700 = record {
  user_id = 700;
  gateway_conn_id = 1;
  gateway_client_conn_id = 55;
  login_txn_id = 9;
  scene_conn_id = 0;
  map_id = 1001;
  phase = resolve_map;
  awaiting_map_resolve = true;
  started_at_ms = 5000;
  load_request_seq = 6;
  user_data = default_wire;
}

abbrev zone : Super
zone = record {
  servers =
      (1, server 1 5 50 true)
      ∷ (2, server 2 2 20 true)
      ∷ (3, server 3 1 10 true)
      ∷ (4, server 4 4 40 true)
      ∷ (5, server 5 5 51 false)
      ∷ [];
  users = [];
  pending_logins = (700, resolving_700) ∷ [];
  gateway_online = (50, 12) ∷ [];
  load_user_seq = 6;
}

zone-IsSound : IsSound zone
unfolding find
zone-IsSound = (((refl, tt), ((refl, refl), tt)), (tt, tt))

abbrev ask_800 : UserEnterReq
ask_800 = record { user_id = 800; gateway_client_conn_id = 56; login_txn_id = 0 }

abbrev wire_800 : UserBaseWire
wire_800 = record default_wire { user_id = 800; map_id = 3 }

-- User 800 asks twice and enters a scene, user 700 leaves, and then user 800 asks once more and is late.
abbrev entry_800 : SceneEnterRsp
entry_800 = record { code = pos 0; user_id = 800; gateway_client_conn_id = 56; map_id = 3 }

abbrev day : List Event
day =
    logs_in 6000 1 ask_800
    ∷ logs_in 7000 1 ask_800
    ∷ entered entry_800
    ∷ leaves 700
    ∷ logs_in 9000 1 ask_800
    ∷ checks_logins 90000
    ∷ []

run-answers_example :
    waiting 1 56 (run zone day).0 + answers 1 56 (run zone day).1 + all_given_up 1 56 zone day
    ≡ waiting 1 56 zone + all_asks 1 56 day
unfolding find find_sub_server on_user_login_req insert sub64 erase
run-answers_example =
    run-answers 1 56 zone day zone-IsSound (tt, (tt, (refl, (tt, (tt, (tt, tt))))))

serve-IsSound_example : IsSound (serve zone (logs_in 6000 1 ask_800)).0
serve-IsSound_example = serve-IsSound zone (logs_in 6000 1 ask_800) zone-IsSound

serve-Moves_example :
    Moves
      (disconnects 3)
      700
      (view 700 zone.pending_logins)
      (view 700 (serve zone (disconnects 3)).0.pending_logins)
serve-Moves_example = serve-Moves zone (disconnects 3) 700 zone-IsSound

timeouts_end_late_example :
    find 700 (check_pending_login_timeouts 65000 zone).0.pending_logins
    ≡ left_after 65000 (find 700 zone.pending_logins)
timeouts_end_late_example = timeouts_end_late 65000 700 zone zone-IsSound

remove_ends_dependent_example :
    find 700 (remove_sub_server zone 3).0.pending_logins
    ≡ left_without (type_of (find 3 zone.servers)) (find 700 zone.pending_logins)
remove_ends_dependent_example = remove_ends_dependent 3 700 zone zone-IsSound

login_completes_example :
    let r = run zone (logs_in 6000 1 ask_800 ∷ answers_of zone ask_800 wire_800 40) in
    let p = last_pending 6000 zone 1 ask_800 wire_800 40 in
    (r.1
      ≡ ask_load zone ask_800
        ∷ resolve_map_req
            (find_sub_server zone.servers session_type)
            (record { user_id = 800; map_id = map_of wire_800 })
        ∷ user_enter_req p.scene_conn_id (enter_req p)
        ∷ user_login_rsp 1 (
            login_rsp zone
              (record {
                code = pos 0;
                user_id = 800;
                gateway_client_conn_id = 56;
                map_id = map_of wire_800;
              })
              p)
        ∷ [])
    × (find 800 r.0.pending_logins ≡ none)
    × (find 800 r.0.users ≡ some (proxy_of 1 ask_800 wire_800 p.scene_conn_id))
unfolding find find_sub_server find_sub_server_by_server_id
login_completes_example =
    login_completes 6000 zone 1 ask_800 wire_800 40 (refl, refl) refl refl refl refl refl refl

-- User 800 is entering a scene, and online.
abbrev entering_800 : PendingLogin
entering_800 = record resolving_700 {
  user_id = 800;
  gateway_client_conn_id = 56;
  login_txn_id = 9;
  scene_conn_id = 4;
  phase = enter_scene;
  awaiting_map_resolve = false;
  user_data = wire_800;
}

abbrev proxy_800 : UserProxy
proxy_800 = record {
  user_id = 800;
  gateway_conn_id = 1;
  scene_conn_id = 4;
  gateway_client_conn_id = 56;
}

abbrev entering_zone : Super
entering_zone = record zone {
  pending_logins = (800, entering_800) ∷ [];
  users = (800, proxy_800) ∷ [];
}

-- The same transaction, from another client.
abbrev ask_again : UserEnterReq
ask_again = record { user_id = 800; gateway_client_conn_id = 58; login_txn_id = 9 }

retry_entering_example :
    let r =
      run entering_zone
        (logs_in 6000 1 ask_again ∷ entered (first_entry ask_again entering_800 3) ∷ []) in
    (r.1
      ≡ kick_client 1 56
        ∷ user_leave 4 800
        ∷ ask_load entering_zone ask_again
        ∷ user_login_rsp 1 (
            login_rsp entering_zone
              (first_entry ask_again entering_800 3)
              (opened 6000 entering_zone 1 ask_again))
        ∷ [])
    × (find 800 r.0.users ≡ none)
    × (find 800 r.0.pending_logins ≡ none)
unfolding find find_sub_server is_retry sub64
retry_entering_example =
    retry_entering 6000 entering_zone 1 ask_again entering_800 proxy_800 3 (refl, refl) refl refl
      refl refl refl

late_stays_example : alive_at 5 (serve zone (beats 2000 5 77 30)).0 ≡ some false
unfolding find
late_stays_example = late_stays zone (beats 2000 5 77 30) 5 refl refl

online_of_zone : zone_status zone ≡ record { online_count = 12; gateway_count = 1; alive = 1 }
unfolding zone_status count_online find
online_of_zone = refl
