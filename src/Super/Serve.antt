-- ===== src/Super/Serve.antt =====
-- The messages, lost connections and timers of SuperServer/SuperServer.cpp, one after another.
use rpg_server.Base.{ℕ, List, [], ◌∷◌, ◌++◌, nat_eq}
use rpg_server.Super.State.{Super}
use rpg_server.Super.Messages.{
  RegisterReq, UserEnterReq, LoadUserBody, ResolveMapRsp, SceneEnterRsp,
}
use rpg_server.Super.Logins.{Result, on_user_login_req, on_load_user_rsp}
use rpg_server.Super.Entry.{on_resolve_map_rsp, on_user_enter_rsp, on_user_leave_req}
use rpg_server.Super.Routes.{
  on_register, on_heartbeat, on_kick_user, check_heartbeat, check_pending_login_timeouts,
  remove_sub_server,
}

-- A number before a message is the clock; a connection comes next, where the handler reads it.
pub data Event : Type 0 where
  registers : ℕ → ℕ → RegisterReq → Event
  beats : ℕ → ℕ → ℕ → ℕ → Event
  logs_in : ℕ → ℕ → UserEnterReq → Event
  loaded : LoadUserBody → Event
  resolved : ResolveMapRsp → Event
  entered : SceneEnterRsp → Event
  leaves : ℕ → Event
  kicks : ℕ → Event
  disconnects : ℕ → Event
  checks_heartbeats : ℕ → Event
  checks_logins : ℕ → Event

abbrev pub serve : Super → Event → Result
serve s (registers now conn req) = on_register now s conn req
serve s (beats now conn seq online) = on_heartbeat now s conn seq online
serve s (logs_in now conn req) = on_user_login_req now s conn req
serve s (loaded body) = on_load_user_rsp s body
serve s (resolved rsp) = on_resolve_map_rsp s rsp
serve s (entered rsp) = on_user_enter_rsp s rsp
serve s (leaves user) = on_user_leave_req s user
serve s (kicks user) = on_kick_user s user
serve s (disconnects conn) = remove_sub_server s conn
serve s (checks_heartbeats now) = (check_heartbeat now s, [])
serve s (checks_logins now) = check_pending_login_timeouts now s

abbrev pub run : Super → List Event → Result
run s [] = (s, [])
run s (e ∷ events) =
    let (s', out) = serve s e in let rest = run s' events in (rest.0, out ++ rest.1)
