-- ===== src/Gateway/Replies.antt =====
-- The handlers of GatewayServer/GatewayServer.cpp for what the Record, the Super and the scenes send.
use rpg_server.Base.{
  pos, ℕ, zero, ◌+◌, ◌-◌, ◌*◌, Bool, true, false, not, ◌&&◌, ◌||◌, Option, none, some, List, [],
  ◌∷◌, ◌++◌, ltb, leb, ◌==◌, if◌then◌else◌, nat_eq, set_insert, ℤ, sub64,
}
use rpg_server.Gateway.User.{
  connected, authing, account_ok, entering, in_world, GatewayUser, is_state, reset_to_account,
}
use rpg_server.Gateway.Messages.{
  Event, Links, auth_rsp, user_list, create_rsp, enter_world_rsp, enter_game, to_client, kick,
}
use rpg_server.Gateway.Login.{Session, minus_one, leave_world, send_user_list}

-- Msg_REC_ValidateTokenRsp.
pub record TokenRsp : Type 0 where
  pub code : ℤ
  pub accid : ℕ

-- The header of the list of characters, the list's numbers of users as far as the message has bytes for
-- them, and the length of the message.
pub record ListRsp : Type 0 where
  pub code : ℤ
  pub count : ℕ
  pub role_ids : List ℕ
  pub len : ℕ

-- Msg_REC_CreateCharacterRsp and Msg_GW_UserLoginRsp.
pub record CreateRsp : Type 0 where
  pub code : ℤ
  pub user_id : ℕ

pub record LoginRsp : Type 0 where
  pub code : ℤ
  pub user_id : ℕ
  pub scene_server_id : ℕ

abbrev pub is_zero : ℤ → Bool
is_zero (pos zero) = true
is_zero _ = false

-- Kick closes the connection and so calls OnDisconnect.
unfoldable pub hung_up : Links → ℕ → GatewayUser → List Event
unfolding leave_world
hung_up l conn u = kick conn ∷ leave_world l conn true u

-- onValidateTokenRsp, for a session that waits for it.
unfoldable pub token_checked : Links → ℕ → TokenRsp → GatewayUser → Session
unfolding send_user_list hung_up
token_checked l conn rsp u =
    let listed = send_user_list l conn rsp.accid u.zone_id true in
    if not (is_zero rsp.code)
    then (none, to_client conn (auth_rsp (pos 1) 0) ∷ hung_up l conn u)
    else if listed.0
    then (
      some (record u { role_list_ready = false; accid = rsp.accid; client_state = account_ok }),
      listed.1 ++ to_client conn (auth_rsp (pos 0) rsp.accid) ∷ [],
    )
    else (none, listed.1 ++ to_client conn (auth_rsp minus_one 0) ∷ hung_up l conn u)

unfoldable pub on_validate_token_rsp : Links → ℕ → TokenRsp → Option GatewayUser → Session
unfolding token_checked
on_validate_token_rsp l conn rsp none = (none, [])
on_validate_token_rsp l conn rsp (some u) =
    if is_state authing u.client_state then token_checked l conn rsp u else (some u, [])

-- The sizes of Msg_REC_ListCharactersRspHeader and of Msg_REC_CharacterEntryWire.
abbrev pub header_size : ℕ
header_size = 10

abbrev pub entry_size : ℕ
entry_size = 48

abbrev pub list_failed : ℕ → ℤ → GatewayUser → Session
list_failed conn code u =
    (some (record u { role_list_ready = false }), to_client conn (user_list code []) ∷ [])

unfoldable pub take_list : Links → ℕ → ListRsp → GatewayUser → Session
take_list l conn rsp u =
    if not (is_zero rsp.code)
    then list_failed conn rsp.code u
    else if ltb rsp.len (header_size + rsp.count * entry_size)
    then list_failed conn minus_one u
    else if ltb 0 rsp.count && ltb 65535 (rsp.count * entry_size)
    then list_failed conn minus_one u
    else if l.client_takes
    then (
      some (record u { owned_role_ids = rsp.role_ids; role_list_ready = true }),
      to_client conn (user_list (pos 0) rsp.role_ids) ∷ [],
    )
    else (some (record u { role_list_ready = false }), [])

unfoldable pub on_list_characters_rsp : Links → ℕ → ListRsp → Option GatewayUser → Session
unfolding take_list
on_list_characters_rsp l conn rsp none = (none, [])
on_list_characters_rsp l conn rsp (some u) =
    if ltb rsp.len header_size then (some u, []) else take_list l conn rsp u

unfoldable pub on_create_character_rsp : Links → ℕ → CreateRsp → Option GatewayUser → Session
unfolding send_user_list
on_create_character_rsp l conn rsp none = (none, [])
on_create_character_rsp l conn rsp (some u) =
    let told = to_client conn (create_rsp rsp.code rsp.user_id) in
    let owned =
      if rsp.user_id == 0 then u.owned_role_ids else set_insert rsp.user_id u.owned_role_ids in
    if is_zero rsp.code
    then (
      some (record u { owned_role_ids = owned; role_list_ready = false }),
      told ∷ (send_user_list l conn u.accid u.zone_id true).1,
    )
    else (some u, told ∷ [])

unfoldable pub on_user_login_rsp : ℕ → LoginRsp → Option GatewayUser → Session
on_user_login_rsp conn rsp none = (none, [])
on_user_login_rsp conn rsp (some u) =
    if is_zero rsp.code
    then (
      some (record u { client_state = in_world; scene_server_id = rsp.scene_server_id }),
      to_client conn (enter_world_rsp (pos 0) rsp.user_id)
          ∷ to_client conn (enter_game rsp.user_id)
          ∷ [],
    )
    else (
      some (record u { client_state = account_ok }),
      to_client conn (enter_world_rsp rsp.code rsp.user_id) ∷ [],
    )

-- onKickClient.
unfoldable pub on_kick_client : Links → ℕ → Option GatewayUser → Session
unfolding leave_world
on_kick_client l conn none = (none, kick conn ∷ [])
on_kick_client l conn (some u) = (none, leave_world l conn true u ++ kick conn ∷ [])

-- OnDisconnect.
unfoldable pub on_disconnect : Links → ℕ → Option GatewayUser → Session
unfolding leave_world
on_disconnect l conn none = (none, [])
on_disconnect l conn (some u) = (none, leave_world l conn true u)

-- checkTimeout, the three sweeps: a client that is not authenticated in time, one that does not enter
-- the world in time, and one that is silent.
unfoldable pub is_auth_late : ℕ → GatewayUser → Bool
is_auth_late now u =
    is_state connected u.client_state
      && ltb u.connected_at_ms now
      && leb 10000 (now - u.connected_at_ms)
    || is_state authing u.client_state
      && not (u.auth_started_at_ms == 0)
      && leb 17000 (sub64 now u.auth_started_at_ms)

unfoldable pub is_entering_late : ℕ → GatewayUser → Bool
is_entering_late now u =
    is_state entering u.client_state
    && not (u.entering_started_at_ms == 0)
    && leb 60000 (sub64 now u.entering_started_at_ms)

unfoldable pub is_silent : ℕ → GatewayUser → Bool
is_silent now u = ltb 60000 (sub64 now u.last_heartbeat)

unfoldable pub sweep_auth : Links → ℕ → GatewayUser → Session
unfolding is_auth_late hung_up
sweep_auth l conn u = if is_auth_late l.now_ms u then (none, hung_up l conn u) else (some u, [])

unfoldable pub sweep_entering : Links → ℕ → GatewayUser → Session
unfolding is_entering_late leave_world reset_to_account
sweep_entering l conn u =
    if is_entering_late l.now_ms u
    then (
      some (reset_to_account u),
      leave_world l conn true u ++ to_client conn (enter_world_rsp (pos 1) 0) ∷ [],
    )
    else (some u, [])

unfoldable pub sweep_silent : Links → ℕ → GatewayUser → Session
unfolding is_silent leave_world
sweep_silent l conn u =
    if is_silent l.now_ms u
    then (none, leave_world l conn true u ++ kick conn ∷ [])
    else (some u, [])
