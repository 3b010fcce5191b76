-- ===== src/Super/Answered.antt =====
-- What becomes of the logins that the clients of the Gateways ask of SuperServer/SuperServer.cpp,
-- counted for each client of a Gateway's connection: answered, under way, or given up.
use rpg_server.Base.{
  ℕ, ◌+◌, ◌≡◌, refl, sym, inl, inr, ◌||◌, Option, none, some, List, [], ◌∷◌, arith, ◌==◌,
  Bool-cases, Option-cases, nat_eq, ℤ, find,
}
use rpg_server.Super.State.{PendingLogin, Super, UserBaseWire, session_type, record_type}
use rpg_server.Super.Messages.{
  SceneEnterRsp, LoadUserRsp, ResolveMapRsp, UserEnterReq, short, header, whole,
}
use rpg_server.Super.Logins.{
  is_zero, end_login, fail_login, kick_existing_user_session, take_login, on_user_login_req,
  on_load_user, send_login_fail,
}
use rpg_server.Super.Entry.{
  login_rsp, on_resolve_map_rsp, send_user_enter_to_scene, on_user_enter_rsp, on_user_leave_req,
}
use rpg_server.Super.Cases.{resolving, entering, load_elim, resolve_elim}
use rpg_server.Super.Routes.{
  on_register, on_heartbeat, on_kick_user, check_heartbeat, fail_each, check_pending_login_timeouts,
  fail_pending_logins_on_sub_server_disconnect, type_of, remove_sub_server,
}
use rpg_server.Super.Serve.{
  Event, registers, beats, logs_in, loaded, resolved, entered, leaves, kicks, disconnects,
  checks_heartbeats, checks_logins, serve, run,
}
use rpg_server.Super.Sound.{IsSound, kick-IsSound, end-IsSound, serve-IsSound}
use rpg_server.Super.Owed.{
  same_client, waiting, answers, asks, gives_up, Adds, end_waiting, end_some, fail_conserves,
  keep_waiting, take_conserves, kick_answers, kick_waiting, answers-append,
}

-- The client that a Scene server returns is that of the login under way, if there is one.
abbrev pub Returns : ℕ → Option PendingLogin → Type 0
Returns client none = Unit
Returns client (some p) = client ≡ p.gateway_client_conn_id

-- What an answer of a Scene server returns; other events have nothing to return.
abbrev pub Echoes : Super → Event → Type 0
Echoes s (entered rsp) = Returns rsp.gateway_client_conn_id (find rsp.user_id s.pending_logins)
Echoes s _ = Unit

abbrev pub AllEcho : Super → List Event → Type 0
AllEcho s [] = Unit
AllEcho s (e ∷ events) = Echoes s e × AllEcho (serve s e).0 events

module _ (g : ℕ) (c : ℕ) where
  login_conserves :
      (now : ℕ) (s : Super) (conn : ℕ) (req : UserEnterReq)
      → IsSound s
      → Adds g c s
          (same_client g c conn req.gateway_client_conn_id)
          (gives_up g c s (logs_in now conn req))
          (on_user_login_req now s conn req)
  unfolding on_user_login_req send_login_fail
  login_conserves now s conn req w = elim (Bool-cases (req.user_id == 0)) [
    | inl bad ↦ rw bad (omega arith)
    | inr good ↦
        let kicked = kick_existing_user_session s req.user_id in
        let same = kick_waiting g c s req.user_id in
        let took =
          rw same at (take_conserves g c now kicked.0 conn req (kick-IsSound s req.user_id w)) in
        rw good (
          omega (
            arith,
            took,
            answers-append g c kicked.1 (take_login now kicked.0 conn req).1,
            kick_answers g c s req.user_id,
          ))
  ]

  load_conserves :
      (s : Super) (rsp : LoadUserRsp) (wire : Option UserBaseWire)
      → IsSound s
      → Adds g c s 0 0 (on_load_user s rsp wire)
  load_conserves s rsp wire w =
      load_elim (Adds g c s 0 0) s rsp wire (omega arith)
        (λ p code e. fail_conserves g c rsp.user_id s p code w e)
        (λ p data_of session e.
          omega (arith, keep_waiting g c rsp.user_id s p (resolving p data_of) e refl refl))

  resolve_conserves :
      (s : Super) (rsp : ResolveMapRsp) → IsSound s → Adds g c s 0 0 (on_resolve_map_rsp s rsp)
  unfolding send_user_enter_to_scene
  resolve_conserves s rsp w =
      resolve_elim (Adds g c s 0 0) s rsp (omega arith)
        (λ p code e. fail_conserves g c rsp.user_id s p code w e)
        (λ p scene e waits h.
          omega (arith, keep_waiting g c rsp.user_id s p (entering p scene) e refl refl))

  enter_conserves :
      (s : Super) (rsp : SceneEnterRsp)
      → IsSound s
      → Echoes s (entered rsp)
      → Adds g c s 0 0 (on_user_enter_rsp s rsp)
  unfolding on_user_enter_rsp login_rsp
  enter_conserves s rsp w echo = elim (Option-cases (find rsp.user_id s.pending_logins)) [
    | inl e ↦ rw (e, on_user_enter_rsp) (omega arith)
    | inr (p, e) ↦
        let client : rsp.gateway_client_conn_id ≡ p.gateway_client_conn_id = rw e at echo in
        let sum = rw (sym client) at (end_some g c rsp.user_id s p w e) in
        elim (Bool-cases (is_zero rsp.code)) [
          | inl good ↦ rw (e, on_user_enter_rsp) (rw good (omega (arith, sum)))
          | inr bad ↦ rw (e, on_user_enter_rsp) (rw bad (omega (arith, sum)))
        ]
  ]

  leave_conserves :
      (s : Super) (user : ℕ)
      → IsSound s
      → Adds g c s 0 (gives_up g c s (leaves user)) (on_user_leave_req s user)
  unfolding on_user_leave_req
  leave_conserves s user w = elim (Bool-cases (user == 0)) [
    | inl bad ↦ rw bad (omega arith)
    | inr good ↦ elim (Option-cases (find user s.pending_logins)) [
      | inl e ↦ let left = rw e at (end_waiting g c user s w) in rw (good, e) (omega (arith, left))
      | inr (p, e) ↦
          let left = end_some g c user s p w e in
          elim (Bool-cases (p.scene_conn_id == 0)) [
            | inl outside ↦ rw good (rw e (rw outside (omega (arith, left))))
            | inr inside ↦ rw good (rw e (rw inside (omega (arith, left))))
          ]
    ]
  ]

  kick_user_conserves : (s : Super) (user : ℕ) → Adds g c s 0 0 (on_kick_user s user)
  unfolding on_kick_user
  kick_user_conserves s user = elim (Option-cases (find user s.users)) [
    | inl e ↦ rw (e, on_kick_user) (omega arith)
    | inr (proxy, e) ↦ rw (e, on_kick_user) (omega arith)
  ]

  each_conserves :
      (code : ℤ) (users : List ℕ) (s : Super) → IsSound s → Adds g c s 0 0 (fail_each code users s)
  unfolding fail_each fail_login send_login_fail
  each_conserves code [] s w = omega arith
  each_conserves code (user ∷ users) s w = elim (Option-cases (find user s.pending_logins)) [
    | inl e ↦ rw (e, fail_each) (each_conserves code users s w)
    | inr (p, e) ↦
        let rest = each_conserves code users (end_login user s) (end-IsSound user s w) in
        rw (e, fail_each) (omega (arith, rest, end_some g c user s p w e))
  ]

  remove_conserves : (s : Super) (conn : ℕ) → IsSound s → Adds g c s 0 0 (remove_sub_server s conn)
  unfolding remove_sub_server fail_pending_logins_on_sub_server_disconnect
  remove_conserves s conn w =
      let type = type_of (find conn s.servers) in
      elim (Bool-cases (type == record_type || type == session_type)) [
        | inl needed ↦ rw needed (each_conserves _ _ _ w)
        | inr other_type ↦ rw other_type (omega arith)
      ]

  serve_conserves :
      (s : Super) (e : Event)
      → IsSound s
      → Echoes s e
      → Adds g c s (asks g c e) (gives_up g c s e) (serve s e)
  unfolding on_register on_heartbeat check_heartbeat check_pending_login_timeouts
  serve_conserves s (registers now conn req) w echo = omega arith
  serve_conserves s (beats now conn seq online) w echo = elim (Option-cases (find conn s.servers)) [
    | inl e ↦ rw (e, on_heartbeat) (omega arith)
    | inr (info, e) ↦ rw (e, on_heartbeat) (omega arith)
  ]
  serve_conserves s (logs_in now conn req) w echo = login_conserves now s conn req w
  serve_conserves s (loaded short) w echo = omega arith
  serve_conserves s (loaded (header rsp)) w echo = load_conserves s rsp none w
  serve_conserves s (loaded (whole rsp wire)) w echo = load_conserves s rsp (some wire) w
  serve_conserves s (resolved rsp) w echo = resolve_conserves s rsp w
  serve_conserves s (entered rsp) w echo = enter_conserves s rsp w echo
  serve_conserves s (leaves user) w echo = leave_conserves s user w
  serve_conserves s (kicks user) w echo = kick_user_conserves s user
  serve_conserves s (disconnects conn) w echo = remove_conserves s conn w
  serve_conserves s (checks_heartbeats now) w echo = omega arith
  serve_conserves s (checks_logins now) w echo = each_conserves _ _ s w

  abbrev pub all_asks : List Event → ℕ
  all_asks [] = 0
  all_asks (e ∷ events) = asks g c e + all_asks events

  abbrev pub all_given_up : Super → List Event → ℕ
  all_given_up s [] = 0
  all_given_up s (e ∷ events) = gives_up g c s e + all_given_up (serve s e).0 events

  -- Where a SuperServer with sound tables serves any messages, lost connections and timers, and each
  -- answer of a Scene server for a user whose login is under way returns that login's client: for each
  -- client of each Gateway's connection, the answers sent to it, its logins still under way at the end, and
  -- those given up because a repeated request took their place or their user left, are together as many as
  -- the logins that it asked for and those it had under way at the start.
  pub run-answers :
      (s : Super) (events : List Event)
      → IsSound s
      → AllEcho s events
      → waiting g c (run s events).0 + answers g c (run s events).1 + all_given_up s events
        ≡ waiting g c s + all_asks events
  run-answers s [] w echoes = omega arith
  run-answers s (e ∷ events) w echoes =
      let (s', out) = serve s e in
      omega (
        arith,
        serve_conserves s e w echoes.0,
        run-answers s' events (serve-IsSound s e w) echoes.1,
        answers-append g c out (run s' events).1,
      )
