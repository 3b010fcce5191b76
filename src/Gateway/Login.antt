-- ===== src/Gateway/Login.antt =====
-- The handlers of GatewayServer/GatewayServer.cpp for what a client sends. Each takes the session that
-- findUser gives, and answers with the session that is left and what is sent.
use rpg_server.Base.{
  pos, negsuc, ℕ, ◌%◌, Bool, true, false, not, ◌&&◌, ◌||◌, Option, none, some, List, [], ◌∷◌, ◌++◌,
  ltb, ◌==◌, if◌then◌else◌, nat_eq, length, ℤ,
}
use rpg_server.Gateway.User.{
  connected, authing, account_ok, entering, GatewayUser, is_state, owns_role, reset_to_account,
}
use rpg_server.Gateway.Messages.{
  Proto, Links, AuthReq, CreateReq, SelectReq, Action, return_char_select, return_login,
  other_action, ValidateResult, bad_state, bad_payload, error, auth_rsp, user_list, create_rsp,
  logout_rsp, heartbeat_rsp, Event, to_client, validate_token, list_characters, create_character,
  user_enter, user_leave, scene_leave,
}

abbrev pub Session : Type 0
Session = Option GatewayUser × List Event

abbrev pub minus_one : ℤ
minus_one = negsuc 0

abbrev pub reject : ℕ → GatewayUser → ValidateResult → Session
reject conn u why = (some u, to_client conn (error why) ∷ [])

-- leaveWorldSession; the reason is only logged.
unfoldable pub leave_world : Links → ℕ → Bool → GatewayUser → List Event
leave_world l conn notify u =
    let in_scene =
      l.upstream_ready && not (u.scene_server_id == 0) && l.scene_connected u.scene_server_id in
    let at_super = notify && l.super_connected in
    if u.user_id == 0
    then []
    else (if in_scene then scene_leave u.scene_server_id u.user_id ∷ [] else [])
      ++ (if at_super then user_leave conn u.user_id ∷ [] else [])

-- sendUserListToClient: whether the Record is connected, and what is sent.
unfoldable pub send_user_list : Links → ℕ → ℕ → ℕ → Bool → Bool × List Event
send_user_list l conn accid zone_id notify =
    if l.record_connected
    then (true, list_characters conn accid zone_id ∷ [])
    else (false, if notify then to_client conn (user_list minus_one []) ∷ [] else [])

-- The number of a login transaction that a client has not numbered: `fresh` stands for the one that is
-- made of the clock, the connection and the user.
unfoldable pub txn_of : ℕ → GatewayUser → SelectReq → ℕ
txn_of fresh u req =
    if not (req.login_txn_id == 0)
    then req.login_txn_id
    else if u.user_id == req.user_id && not (u.login_txn_id == 0)
    then u.login_txn_id
    else fresh

unfoldable pub start_auth : Links → ℕ → AuthReq → GatewayUser → Session
start_auth l conn req u =
    let started : GatewayUser = record u {
      zone_id = req.zone_id;
      game_type = req.game_type % 256;
      client_state = authing;
      auth_started_at_ms = l.now_ms;
    } in
    if not (req.zone_id == l.zone_id) || not (req.game_type % 256 == l.game_type)
    then (some u, to_client conn (auth_rsp (pos 1) 0) ∷ [])
    else if l.record_takes
    then (some started, validate_token conn req.login_token req.zone_id (req.game_type % 256) ∷ [])
    else (
      some (record started { client_state = connected }),
      to_client conn (auth_rsp (pos 1) 0) ∷ [],
    )

unfoldable pub enter_with : Links → ℕ → ℕ → SelectReq → GatewayUser → Session
unfolding txn_of
enter_with l conn fresh req u =
    let txn = txn_of fresh u req in
    let chosen : GatewayUser = record u {
      user_id = req.user_id;
      login_txn_id = txn;
      entering_started_at_ms = l.now_ms;
      client_state = entering;
    } in
    if l.super_takes
    then (some chosen, user_enter conn req.user_id txn ∷ [])
    else reject conn (record chosen { client_state = account_ok }) bad_state

unfoldable pub select_role : Links → ℕ → ℕ → SelectReq → GatewayUser → Session
unfolding owns_role enter_with
select_role l conn fresh req u =
    if u.accid == 0
    then reject conn u bad_state
    else if not u.role_list_ready && not (owns_role u req.user_id)
    then reject conn u bad_state
    else if not (owns_role u req.user_id)
    then reject conn u bad_payload
    else enter_with l conn fresh req u

unfoldable pub create_role : Links → ℕ → CreateReq → GatewayUser → Session
create_role l conn req u =
    if u.accid == 0
    then (some u, to_client conn (create_rsp minus_one 0) ∷ [])
    else if not (is_state account_ok u.client_state)
    then reject conn u bad_state
    else if l.record_takes
    then (some u, create_character conn u.accid u.zone_id req ∷ [])
    else (some u, to_client conn (create_rsp minus_one 0) ∷ [])

unfoldable pub log_out : Links → ℕ → Action → GatewayUser → Session
unfolding leave_world reset_to_account send_user_list
log_out l conn (other_action n) u =
    (some u, to_client conn (logout_rsp (other_action n) minus_one) ∷ [])
log_out l conn return_login u = (
  some (reset_to_account u),
  leave_world l conn true u ++ to_client conn (logout_rsp return_login (pos 0)) ∷ [],
)
log_out l conn return_char_select u = (
  some (reset_to_account u),
  leave_world l conn true u
      ++ to_client conn (logout_rsp return_char_select (pos 0))
        ∷ (send_user_list l conn u.accid u.zone_id false).1,
)

module _ (p : Proto) where
  unfoldable pub on_gateway_auth : Links → ℕ → List ℕ → Option GatewayUser → Session
  unfolding start_auth
  on_gateway_auth l conn body user =
      if not l.record_can_send
      then (user, to_client conn (auth_rsp minus_one 0) ∷ [])
      else if ltb (length body) 1
      then (user, [])
      else elim (p.parse_auth body) [
        | none ↦ (user, [])
        | some req ↦ elim user [
          | none ↦ (none, to_client conn (error bad_state) ∷ [])
          | some u ↦ start_auth l conn req u
        ]
      ]

  unfoldable pub on_select_user : Links → ℕ → ℕ → List ℕ → Option GatewayUser → Session
  unfolding select_role
  on_select_user l conn fresh body user = elim (p.parse_select body) [
    | none ↦ (user, to_client conn (error bad_payload) ∷ [])
    | some req ↦ elim user [ none ↦ (none, []) | some u ↦ select_role l conn fresh req u ]
  ]

  unfoldable pub on_create_user : Links → ℕ → List ℕ → Option GatewayUser → Session
  unfolding create_role
  on_create_user l conn body user = elim (p.parse_create body) [
    | none ↦ (user, to_client conn (create_rsp (pos 3) 0) ∷ [])
    | some req ↦
        if not l.record_connected
        then (user, to_client conn (create_rsp minus_one 0) ∷ [])
        else elim user [
          | none ↦ (none, to_client conn (create_rsp minus_one 0) ∷ [])
          | some u ↦ create_role l conn req u
        ]
  ]

  unfoldable pub on_logout_req : Links → ℕ → List ℕ → Option GatewayUser → Session
  unfolding log_out
  on_logout_req l conn body user = elim (p.parse_logout body) [
    | none ↦ (user, [])
    | some action ↦ elim user [ none ↦ (none, []) | some u ↦ log_out l conn action u ]
  ]

  -- onClientHeartbeat: a body that cannot be parsed has the number 0.
  unfoldable pub on_client_heartbeat : Links → ℕ → List ℕ → Option GatewayUser → Session
  on_client_heartbeat l conn body user =
      let seq = elim (p.parse_heartbeat body) as (λ _. ℕ) [ none ↦ 0 | some n ↦ n ] in
      (user, to_client conn (heartbeat_rsp seq l.now_ms) ∷ [])
