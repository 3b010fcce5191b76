-- ===== src/Gateway/World.antt =====
-- What of a client GatewayServer/GatewayServer.cpp lets through to a scene.
use rpg_server.Base.{
  pos, ℕ, ◌≤◌, ◌≡◌, refl, inl, inr, Bool, true, false, ◌||◌, some, List, [], ◌∷◌, arith, ltb,
  Bool-cases, Option-cases, nat_eq, length, find,
}
use rpg_server.Gateway.User.{in_world, GatewayUser}
use rpg_server.Gateway.Messages.{
  Topic, gateway_auth, select_user, create_user, logout, heartbeat, move, chat_line, npc_talk,
  other, Links, Proto, AuthReq, CreateReq, SelectReq, Action, return_char_select, return_login,
  other_action, MoveReq, ok, Event, to_client, validate_token, list_characters, create_character,
  user_enter, user_leave, scene_leave, forward, kick,
}
use rpg_server.Gateway.Validator.{
  check_body, validate_move, find_rule, check, check_body, validate_move, find_rule, looks_legacy,
  resolve,
}
use rpg_server.Gateway.Limiter.{allow}
use rpg_server.Gateway.Login.{
  leave_world, send_user_list, start_auth, enter_with, select_role, create_role, log_out,
  on_gateway_auth, on_select_user, on_create_user, on_logout_req, on_client_heartbeat,
}
use rpg_server.Gateway.Replies.{LoginRsp, on_user_login_rsp}
use rpg_server.Gateway.Server.{Gateway, is_ok, dispatch, route, receive, handle_client_msg}
use rpg_server.Gateway.Followed.{check-Needs}

-- Whether something goes to a scene for the client.
abbrev pub forwards : List Event → Bool
forwards [] = false
forwards (forward id conn topic body ∷ es) = true
forwards (to_client conn r ∷ es) = forwards es
forwards (validate_token conn token zone kind ∷ es) = forwards es
forwards (list_characters conn accid zone ∷ es) = forwards es
forwards (create_character conn accid zone req ∷ es) = forwards es
forwards (user_enter conn id txn ∷ es) = forwards es
forwards (user_leave conn id ∷ es) = forwards es
forwards (scene_leave scene_id id ∷ es) = forwards es
forwards (kick conn ∷ es) = forwards es

start_auth-forwards :
    (l : Links) (conn : ℕ) (req : AuthReq) (u : GatewayUser)
    → forwards (start_auth l conn req u).1 ≡ false
unfolding start_auth
start_auth-forwards l conn req u = ground arith

select_role-forwards :
    (l : Links) (conn fresh : ℕ) (req : SelectReq) (u : GatewayUser)
    → forwards (select_role l conn fresh req u).1 ≡ false
unfolding select_role enter_with
select_role-forwards l conn fresh req u = ground arith

create_role-forwards :
    (l : Links) (conn : ℕ) (req : CreateReq) (u : GatewayUser)
    → forwards (create_role l conn req u).1 ≡ false
unfolding create_role
create_role-forwards l conn req u = ground arith

log_out-forwards :
    (l : Links) (conn : ℕ) (action : Action) (u : GatewayUser)
    → forwards (log_out l conn action u).1 ≡ false
unfolding log_out leave_world send_user_list
log_out-forwards l conn (other_action n) u = refl
log_out-forwards l conn return_login u = ground arith
log_out-forwards l conn return_char_select u = ground arith

module _ (p : Proto) where
  dispatch-forwards :
      (l : Links) (conn fresh : ℕ) (topic : Topic) (body : List ℕ) (u : GatewayUser)
      → forwards (dispatch p l conn fresh topic body u).1 ≡ false
  unfolding dispatch on_gateway_auth on_select_user on_create_user on_logout_req on_client_heartbeat
  dispatch-forwards l conn fresh gateway_auth body u = elim (Bool-cases l.record_can_send) [
    | inr down ↦ rw down refl
    | inl up ↦ elim (Bool-cases (ltb (length body) 1)) [
      | inl empty ↦ rw (up, empty) refl
      | inr some_byte ↦ elim (Option-cases (p.parse_auth body)) [
        | inl e ↦ rw (up, some_byte, e) refl
        | inr (req, e) ↦ rw (up, some_byte, e) (start_auth-forwards l conn req u)
      ]
    ]
  ]
  dispatch-forwards l conn fresh select_user body u = elim (Option-cases (p.parse_select body)) [
    | inl e ↦ rw (e, on_select_user) refl
    | inr (req, e) ↦ rw (e, on_select_user) (select_role-forwards l conn fresh req u)
  ]
  dispatch-forwards l conn fresh create_user body u = elim (Option-cases (p.parse_create body)) [
    | inl e ↦ rw (e, on_create_user) refl
    | inr (req, e) ↦ elim (Bool-cases l.record_connected) [
      | inr down ↦ rw (e, on_create_user, down) refl
      | inl up ↦ rw (e, on_create_user, up) (create_role-forwards l conn req u)
    ]
  ]
  dispatch-forwards l conn fresh logout body u = elim (Option-cases (p.parse_logout body)) [
    | inl e ↦ rw (e, on_logout_req) refl
    | inr (action, e) ↦ rw (e, on_logout_req) (log_out-forwards l conn action u)
  ]
  dispatch-forwards l conn fresh heartbeat body u = refl
  dispatch-forwards l conn fresh move body u = refl
  dispatch-forwards l conn fresh chat_line body u = refl
  dispatch-forwards l conn fresh npc_talk body u = refl
  dispatch-forwards l conn fresh (other d) body u = refl

  route-forwards :
      (l : Links) (conn fresh : ℕ) (topic : Topic) (body : List ℕ) (u : GatewayUser)
      → is_ok (check p u topic body) ≡ true
      → forwards (route p l conn fresh topic body u (resolve topic)).1 ≡ true
      → u.client_state ≡ in_world
  unfolding route resolve
  route-forwards l conn fresh move body u h f = check-Needs p u move body h
  route-forwards l conn fresh chat_line body u h f = check-Needs p u chat_line body h
  route-forwards l conn fresh npc_talk body u h f = check-Needs p u npc_talk body h
  route-forwards l conn fresh (other d) body u h f = absurd (check-Needs p u (other d) body h)
  route-forwards l conn fresh topic body u h f =
      absurd (let q = dispatch-forwards l conn fresh topic body u in cc)

  receive-forwards :
      (l : Links) (conn fresh : ℕ) (topic : Topic) (body : List ℕ) (good : Bool) (u : GatewayUser)
      → forwards (receive p l conn fresh topic body good u).1 ≡ true
      → u.client_state ≡ in_world
  unfolding receive
  receive-forwards l conn fresh topic body false u f = cc
  receive-forwards l conn fresh topic body true u f =
      let awake : GatewayUser = record u { last_heartbeat = l.now_ms } in
      elim (Bool-cases (is_ok (check p awake topic body))) [
        | inl passes ↦ route-forwards l conn fresh topic body awake passes (rw passes at f)
        | inr fails ↦ elim (Bool-cases (looks_legacy p topic body)) [
          | inl old ↦ absurd (let q = rw (fails, old) at f in cc)
          | inr new ↦ absurd (let q = rw (fails, new) at f in cc)
        ]
      ]

  -- A message of a client goes to a scene only if the client has a session that is in the world.
  pub handle_client_msg-forwards :
      (l : Links) (conn fresh : ℕ) (topic : Topic) (body : List ℕ) (g : Gateway)
      → forwards (handle_client_msg p l conn fresh topic body g).1 ≡ true
      → (u : GatewayUser) × (find conn g.users ≡ some u) × (u.client_state ≡ in_world)
  unfolding handle_client_msg
  handle_client_msg-forwards l conn fresh topic body g f = elim (Option-cases (find conn g.users)) [
    | inl e ↦ absurd (let q = rw (e, handle_client_msg) at f in cc)
    | inr (u, e) ↦ (
      u,
      e,
      receive-forwards l conn fresh topic body (allow l.now_ms conn g.limiter).0 u
          (rw (e, handle_client_msg) at f),
    )
  ]

  move-ok :
      (v : GatewayUser) (body : List ℕ) (req : MoveReq p.Coord) (at : p.Coord × p.Coord × p.Coord)
      → v.client_state ≡ in_world
      → v.user_id ≡ 0
      → p.parse_move body ≡ some req
      → req.pos ≡ some at
      → (p.is_beyond at.0 || p.is_beyond at.1 || p.is_beyond at.2) ≡ false
      → (ltb (length body) 1 || ltb 65535 (length body)) ≡ false
      → check p v move body ≡ ok
  unfolding check find_rule check_body
  move-ok v body req at playing nobody parsed placed near fits =
      let passes : validate_move p v body ≡ ok =
        rw (parsed, validate_move, placed, nobody, near) refl in
      rw (playing, fits) passes

  -- Where a good login answer comes for a session that has no role, as after a logout, in whatever state,
  -- and then a move of 1 to 65535 bytes that parse, with a position within the bounds: the answer puts the
  -- session into the world, still without a role, and the move passes its check, whatever role it names.
  pub late_login_plays :
      (conn : ℕ) (rsp : LoginRsp) (u : GatewayUser) (body : List ℕ) (req : MoveReq p.Coord)
      → (at : p.Coord × p.Coord × p.Coord) → u.user_id ≡ 0
      → rsp.code ≡ pos 0
      → p.parse_move body ≡ some req
      → req.pos ≡ some at
      → (p.is_beyond at.0 || p.is_beyond at.1 || p.is_beyond at.2) ≡ false
      → 1 ≤ length body
      → length body ≤ 65535
      → (v : GatewayUser) × ((on_user_login_rsp conn rsp (some u)).0 ≡ some v)
        × (v.client_state ≡ in_world)
        × (v.user_id ≡ 0)
        × (check p v move body ≡ ok)
  unfolding on_user_login_rsp
  late_login_plays conn rsp u body req at nobody good parsed placed near some_byte short =
      let v : GatewayUser = record u {
        client_state = in_world;
        scene_server_id = rsp.scene_server_id;
      } in
      (
        v,
        rw good refl,
        refl,
        nobody,
        move-ok v body req at refl nobody parsed placed near (ground (arith, some_byte, short)),
      )
