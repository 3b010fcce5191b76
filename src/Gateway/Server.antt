-- ===== src/Gateway/Server.antt =====
-- GatewayServer/GatewayServer.cpp as a whole: its sessions and its rate limiter, the way of a client's
-- message, and the calls one after another.
use rpg_server.Base.{
  ℕ, Bool, true, false, not, ◌&&◌, Option, none, some, List, [], ◌∷◌, ◌++◌, if◌then◌else◌, nat_eq,
  find, insert, erase,
}
use rpg_server.Gateway.User.{GatewayUser, Users, new_user}
use rpg_server.Gateway.Messages.{
  kick, Topic, gateway_auth, select_user, create_user, logout, heartbeat, move, chat_line, npc_talk,
  other, Proto, Links, ValidateResult, ok, unknown_msg, bad_state, rate_limited, legacy_error,
  Event, to_client, forward,
}
use rpg_server.Gateway.Validator.{
  check, looks_legacy, Target, local, to_scene, to_session, dropped, resolve,
}
use rpg_server.Gateway.Limiter.{Limiter, allow, forget}
use rpg_server.Gateway.Login.{
  Session, reject, on_gateway_auth, on_select_user, on_create_user, on_logout_req,
  on_client_heartbeat,
}
use rpg_server.Gateway.Replies.{
  TokenRsp, ListRsp, CreateRsp, LoginRsp, on_validate_token_rsp, on_list_characters_rsp,
  on_create_character_rsp, on_user_login_rsp, on_kick_client, on_disconnect, sweep_auth,
  sweep_entering, sweep_silent,
}

pub record Gateway : Type 0 where
  pub users : Users
  pub limiter : Limiter

abbrev pub is_ok : ValidateResult → Bool
is_ok ok = true
is_ok _ = false

-- A session is put back, or removed.
unfoldable pub put : ℕ → Option GatewayUser → Users → Users
put conn none users = erase conn users
put conn (some u) users = insert conn u users

unfoldable pub at_conn : ℕ → (Option GatewayUser → Session) → Users → Users × List Event
unfolding put
at_conn conn f users = let (user, events) = f (find conn users) in (put conn user users, events)

-- A loop over the sessions that may remove them.
unfoldable pub sweep : (ℕ → GatewayUser → Session) → Users → Users × List Event
sweep f [] = ([], [])
sweep f ((conn, u) ∷ users) =
    let rest = sweep f users in
    let (user, events) = f conn u in
    (elim user as (λ _. Users) [ none ↦ rest.0 | some u' ↦ (conn, u') ∷ rest.0 ], events ++ rest.1)

-- checkTimeout.
unfoldable pub check_timeout : Links → Users → Users × List Event
unfolding sweep sweep_auth sweep_entering sweep_silent
check_timeout l users =
    let late = sweep (sweep_auth l) users in
    let stuck = sweep (sweep_entering l) late.0 in
    let silent = sweep (sweep_silent l) stuck.0 in (silent.0, late.1 ++ (stuck.1 ++ silent.1))

module _ (p : Proto) where
  -- What MsgIngress::dispatchClient calls, by GatewayClientMsgRegister.cpp.
  unfoldable pub dispatch : Links → ℕ → ℕ → Topic → List ℕ → GatewayUser → Session
  unfolding on_gateway_auth on_select_user on_create_user on_logout_req on_client_heartbeat
  dispatch l conn fresh gateway_auth body u = on_gateway_auth p l conn body (some u)
  dispatch l conn fresh select_user body u = on_select_user p l conn fresh body (some u)
  dispatch l conn fresh create_user body u = on_create_user p l conn body (some u)
  dispatch l conn fresh logout body u = on_logout_req p l conn body (some u)
  dispatch l conn fresh heartbeat body u = on_client_heartbeat p l conn body (some u)
  dispatch l conn fresh move body u = reject conn u unknown_msg
  dispatch l conn fresh chat_line body u = reject conn u unknown_msg
  dispatch l conn fresh npc_talk body u = reject conn u unknown_msg
  dispatch l conn fresh (other d) body u = reject conn u unknown_msg

  unfoldable pub to_scene_server : Links → ℕ → Topic → List ℕ → GatewayUser → Session
  to_scene_server l conn topic body u =
      if not l.upstream_ready
      then reject conn u bad_state
      else if l.scene_connected u.scene_server_id && l.scene_takes u.scene_server_id
      then (some u, forward u.scene_server_id conn topic body ∷ [])
      else reject conn u bad_state

  unfoldable pub route : Links → ℕ → ℕ → Topic → List ℕ → GatewayUser → Target → Session
  unfolding dispatch to_scene_server
  route l conn fresh topic body u local = dispatch l conn fresh topic body u
  route l conn fresh topic body u to_scene = to_scene_server l conn topic body u
  route l conn fresh topic body u to_session = (some u, [])
  route l conn fresh topic body u dropped = reject conn u unknown_msg

  -- handleClientMsg, from the answer of the rate limiter on.
  unfoldable pub receive : Links → ℕ → ℕ → Topic → List ℕ → Bool → GatewayUser → Session
  unfolding check looks_legacy resolve route
  receive l conn fresh topic body good u =
      let awake : GatewayUser = record u { last_heartbeat = l.now_ms } in
      let verdict = check p awake topic body in
      if not good
      then reject conn awake rate_limited
      else if is_ok verdict
      then route l conn fresh topic body awake (resolve topic)
      else if looks_legacy p topic body
      then (some awake, to_client conn legacy_error ∷ [])
      else reject conn awake verdict

  unfoldable pub handle_client_msg : Links → ℕ → ℕ → Topic → List ℕ → Gateway → Gateway × List Event
  unfolding receive put allow
  handle_client_msg l conn fresh topic body g = elim (find conn g.users) [
    | none ↦ (g, [])
    | some u ↦
        let (good, limiter) = allow l.now_ms conn g.limiter in
        let (user, events) = receive l conn fresh topic body good u in
        (record { users = put conn user g.users; limiter = limiter }, events)
  ]

-- The calls of the server. A number that is made for a login transaction comes with the message.
pub data Call : Type 0 where
  connects : ℕ → Call
  disconnects : ℕ → Call
  says : ℕ → ℕ → Topic → List ℕ → Call
  token_answers : ℕ → TokenRsp → Call
  list_answers : ℕ → ListRsp → Call
  create_answers : ℕ → CreateRsp → Call
  login_answers : ℕ → LoginRsp → Call
  kicks : ℕ → Call
  times_out : Call

abbrev pub is_there : ℕ → Users → Bool
is_there conn users = elim (find conn users) as (λ _. Bool) [ none ↦ false | some u ↦ true ]

-- Kick closes the connection, which calls OnDisconnect: of a session that is there, the rate limiter
-- forgets the connection.
unfoldable pub hang_up : Users → List Event → Limiter → Limiter
hang_up users [] r = r
hang_up users (e ∷ es) r = hang_up users es (elim e as (λ _. Limiter) [
  | kick conn ↦ if is_there conn users then forget conn r else r
  | another ↦ r
])

abbrev pub over : Gateway → Users × List Event → Gateway × List Event
over g r = (record { users = r.0; limiter = hang_up g.users r.1 g.limiter }, r.1)

unfoldable pub on_connect : Links → ℕ → Gateway → Gateway
on_connect l conn g = record g { users = insert conn (new_user l.now_ms) g.users }

abbrev pub serve : Proto → Links → Gateway → Call → Gateway × List Event
serve p l g (connects conn) = (on_connect l conn g, [])
serve p l g (disconnects conn) = elim (find conn g.users) [
  | none ↦ (g, [])
  | some u ↦
      let r = at_conn conn (on_disconnect l conn) g.users in
      (record { users = r.0; limiter = forget conn g.limiter }, r.1)
]
serve p l g (says conn fresh topic body) = handle_client_msg p l conn fresh topic body g
serve p l g (token_answers conn rsp) =
    over g (at_conn conn (on_validate_token_rsp l conn rsp) g.users)
serve p l g (list_answers conn rsp) =
    over g (at_conn conn (on_list_characters_rsp l conn rsp) g.users)
serve p l g (create_answers conn rsp) =
    over g (at_conn conn (on_create_character_rsp l conn rsp) g.users)
serve p l g (login_answers conn rsp) = over g (at_conn conn (on_user_login_rsp conn rsp) g.users)
serve p l g (kicks conn) = over g (at_conn conn (on_kick_client l conn) g.users)
serve p l g times_out = over g (check_timeout l g.users)
