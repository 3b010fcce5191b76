-- ===== src/Gateway/Followed.antt =====
-- GatewayServer/GatewayServer.cpp as a whole takes every session along the states of a login.
use rpg_server.Base.{
  ℕ, ◌≡◌, refl, ◌≢◌, inl, inr, Bool, true, false, not, ◌&&◌, ◌||◌, some, List, arith, ltb, ◌==◌,
  if◌then◌else◌, Bool-cases, Option-cases, nat_eq, length,
}
use rpg_server.Gateway.User.{ClientState, connected, account_ok, in_world, GatewayUser, is_state}
use rpg_server.Gateway.Messages.{
  Domain, bad_state, Topic, gateway_auth, select_user, create_user, logout, heartbeat, move,
  chat_line, npc_talk, other, Links, Proto, SelectReq, ValidateResult, bad_payload, bad_length,
}
use rpg_server.Gateway.Validator.{
  MsgRule, find_rule, check, check_body, validate_select, looks_legacy, Target, local, to_scene,
  to_session, dropped, resolve,
}
use rpg_server.Gateway.Login.{
  on_gateway_auth, on_select_user, on_create_user, on_logout_req, on_client_heartbeat,
}
use rpg_server.Gateway.Server.{is_ok, dispatch, to_scene_server, route, receive}
use rpg_server.Gateway.Flow.{
  stays, is_playing, Follows, state_is, start_auth-Follows, select_role-Follows,
  create_role-Follows, log_out-Follows,
}

-- The state of a session that a message needs.
abbrev pub Needs : Topic → ClientState → Type 0
Needs gateway_auth s = s ≡ connected
Needs select_user s = s ≡ account_ok
Needs create_user s = s ≡ account_ok
Needs logout s = is_playing s ≡ true
Needs heartbeat s = Unit {0}
Needs move s = s ≡ in_world
Needs chat_line s = s ≡ in_world
Needs npc_talk s = s ≡ in_world
Needs (other d) s = ⊥

-- A guard that a good verdict has passed.
pub guard_held :
    (b : Bool) (why r : ValidateResult)
    → is_ok why ≡ false
    → is_ok (if not b then why else r) ≡ true
    → b ≡ true
guard_held true why r bad h = refl
guard_held false why r bad h = cc

pub guard_passed :
    (b : Bool) (why r : ValidateResult)
    → is_ok why ≡ false
    → is_ok (if b then why else r) ≡ true
    → is_ok r ≡ true
guard_passed true why r bad h = cc
guard_passed false why r bad h = h

module _ (p : Proto) where
  check-check_body :
      (u : GatewayUser) (topic : Topic) (body : List ℕ) (r : MsgRule)
      → find_rule topic ≡ some r
      → is_ok (check p u topic body) ≡ true
      → (r.allowed_states u.client_state ≡ true) × (is_ok (check_body p u topic body) ≡ true)
  unfolding check
  check-check_body u topic body r e h =
      let h' = rw (e, check) at h in
      let h1 = guard_passed (not (r.allowed_states u.client_state)) bad_state _ refl h' in
      let h2 =
        guard_passed (ltb (length body) r.min_len || ltb r.max_len (length body)) bad_length _ refl
          h1 in
      (
        guard_held (r.allowed_states u.client_state) bad_state _ refl h',
        guard_passed (r.needs_in_world && not (is_state in_world u.client_state)) bad_state _ refl
            h2,
      )

  no_rule : (u : GatewayUser) (d : Domain) (body : List ℕ) → is_ok (check p u (other d) body) ≢ true
  unfolding check find_rule
  no_rule u d body = λ h. cc

  -- A message that passes has a session in the state that it needs.
  pub check-Needs :
      (u : GatewayUser) (topic : Topic) (body : List ℕ)
      → is_ok (check p u topic body) ≡ true
      → Needs topic u.client_state
  unfolding find_rule
  check-Needs u gateway_auth body h =
      state_is connected u.client_state (check-check_body u gateway_auth body _ refl h).0
  check-Needs u select_user body h =
      state_is account_ok u.client_state (check-check_body u select_user body _ refl h).0
  check-Needs u create_user body h =
      state_is account_ok u.client_state (check-check_body u create_user body _ refl h).0
  check-Needs u logout body h = (check-check_body u logout body _ refl h).0
  check-Needs u heartbeat body h = tt
  check-Needs u move body h =
      state_is in_world u.client_state (check-check_body u move body _ refl h).0
  check-Needs u chat_line body h =
      state_is in_world u.client_state (check-check_body u chat_line body _ refl h).0
  check-Needs u npc_talk body h =
      state_is in_world u.client_state (check-check_body u npc_talk body _ refl h).0
  check-Needs u (other d) body h = no_rule u d body h

  check-user_id :
      (u : GatewayUser) (body : List ℕ) (req : SelectReq)
      → is_ok (check p u select_user body) ≡ true
      → p.parse_select body ≡ some req
      → req.user_id ≢ 0
  unfolding find_rule check_body validate_select
  check-user_id u body req h e =
      let good = (check-check_body u select_user body _ refl h).1 in
      let parsed = guard_passed (looks_legacy p select_user body) bad_payload _ refl good in
      let named = rw e at parsed in
      elim (Bool-cases (req.user_id == 0)) [
        | inl zero_id ↦ absurd (let q = rw zero_id at named in cc)
        | inr some_id ↦ ground (arith, some_id)
      ]

  dispatch-Follows :
      (l : Links) (conn fresh : ℕ) (topic : Topic) (body : List ℕ) (u : GatewayUser)
      → is_ok (check p u topic body) ≡ true
      → Follows u (dispatch p l conn fresh topic body u).0
  unfolding dispatch on_gateway_auth on_select_user on_create_user on_logout_req on_client_heartbeat
  dispatch-Follows l conn fresh gateway_auth body u h = elim (Bool-cases l.record_can_send) [
    | inr down ↦ rw down (stays, λ w. w)
    | inl up ↦ elim (Bool-cases (ltb (length body) 1)) [
      | inl empty ↦ rw (up, empty) (stays, λ w. w)
      | inr some_byte ↦ elim (Option-cases (p.parse_auth body)) [
        | inl e ↦ rw (up, some_byte, e) (stays, λ w. w)
        | inr (req, e) ↦
            rw (up, some_byte, e)
              (start_auth-Follows l conn req u (check-Needs u gateway_auth body h))
      ]
    ]
  ]
  dispatch-Follows l conn fresh select_user body u h = elim (Option-cases (p.parse_select body)) [
    | inl e ↦ rw (e, on_select_user) (stays, λ w. w)
    | inr (req, e) ↦
        rw (e, on_select_user)
          (select_role-Follows l conn fresh req u (check-Needs u select_user body h)
            (check-user_id u body req h e))
  ]
  dispatch-Follows l conn fresh create_user body u h = elim (Option-cases (p.parse_create body)) [
    | inl e ↦ rw (e, on_create_user) (stays, λ w. w)
    | inr (req, e) ↦ elim (Bool-cases l.record_connected) [
      | inr down ↦ rw (e, on_create_user, down) (stays, λ w. w)
      | inl up ↦ rw (e, on_create_user, up) (create_role-Follows l conn req u)
    ]
  ]
  dispatch-Follows l conn fresh logout body u h = elim (Option-cases (p.parse_logout body)) [
    | inl e ↦ rw (e, on_logout_req) (stays, λ w. w)
    | inr (action, e) ↦
        rw (e, on_logout_req) (log_out-Follows l conn action u (check-Needs u logout body h))
  ]
  dispatch-Follows l conn fresh heartbeat body u h = (stays, λ w. w)
  dispatch-Follows l conn fresh move body u h = (stays, λ w. w)
  dispatch-Follows l conn fresh chat_line body u h = (stays, λ w. w)
  dispatch-Follows l conn fresh npc_talk body u h = (stays, λ w. w)
  dispatch-Follows l conn fresh (other d) body u h = (stays, λ w. w)

  to_scene_server-Follows :
      (l : Links) (conn : ℕ) (topic : Topic) (body : List ℕ) (u : GatewayUser)
      → Follows u (to_scene_server p l conn topic body u).0
  unfolding to_scene_server
  to_scene_server-Follows l conn topic body u = elim (Bool-cases l.upstream_ready) [
    | inr down ↦ rw down (stays, λ w. w)
    | inl up ↦
        elim (Bool-cases (l.scene_connected u.scene_server_id && l.scene_takes u.scene_server_id)) [
          | inl goes ↦ rw (up, goes) (stays, λ w. w)
          | inr fails ↦ rw (up, fails) (stays, λ w. w)
        ]
  ]

  route-Follows :
      (l : Links) (conn fresh : ℕ) (topic : Topic) (body : List ℕ) (u : GatewayUser) (t : Target)
      → is_ok (check p u topic body) ≡ true
      → Follows u (route p l conn fresh topic body u t).0
  unfolding route
  route-Follows l conn fresh topic body u local h = dispatch-Follows l conn fresh topic body u h
  route-Follows l conn fresh topic body u to_scene h = to_scene_server-Follows l conn topic body u
  route-Follows l conn fresh topic body u to_session h = (stays, λ w. w)
  route-Follows l conn fresh topic body u dropped h = (stays, λ w. w)

  pub receive-Follows :
      (l : Links) (conn fresh : ℕ) (topic : Topic) (body : List ℕ) (good : Bool) (u : GatewayUser)
      → Follows u (receive p l conn fresh topic body good u).0
  unfolding receive
  receive-Follows l conn fresh topic body false u = (stays, λ w. w)
  receive-Follows l conn fresh topic body true u =
      let awake : GatewayUser = record u { last_heartbeat = l.now_ms } in
      elim (Bool-cases (is_ok (check p awake topic body))) [
        | inl passes ↦
            rw passes (route-Follows l conn fresh topic body awake (resolve topic) passes)
        | inr fails ↦ elim (Bool-cases (looks_legacy p topic body)) [
          | inl old ↦ rw (fails, old) (stays, λ w. w)
          | inr new ↦ rw (fails, new) (stays, λ w. w)
        ]
      ]
