-- ===== src/Super/Phases.antt =====
-- The login of one user as SuperServer/SuperServer.cpp moves it: an abstract machine of phases, which
-- every message, lost connection and timer obeys.
use rpg_server.Base.{
  ℕ, ◌≡◌, refl, ap, subst, ◌∙◌, ◌⊎◌, inl, inr, Bool, true, ◌||◌, Option, none, some, List, [], ◌∷◌,
  ◌==◌, ==_iff, Bool-cases, Option-cases, nat_eq, ℤ, Table, find, insert, erase, find-insert,
  find-erase, find-Every,
}
use rpg_server.Super.State.{
  LoginTxnPhase, load_user, resolve_map, enter_scene, PendingLogin, Super, UserBaseWire,
  session_type, record_type,
}
use rpg_server.Super.Messages.{
  SceneEnterRsp, LoadUserRsp, LoadUserBody, ResolveMapRsp, UserEnterReq, short, header, whole,
}
use rpg_server.Super.Logins.{
  end_login, kick_existing_user_session, begin_login, take_login, on_user_login_req, on_load_user,
}
use rpg_server.Super.Entry.{
  on_resolve_map_rsp, send_user_enter_to_scene, on_user_enter_rsp, on_user_leave_req,
}
use rpg_server.Super.Cases.{begin_elim, take_elim, load_elim, resolve_elim}
use rpg_server.Super.Routes.{
  on_register, on_heartbeat, on_kick_user, check_heartbeat, fail_each, check_pending_login_timeouts,
  fail_pending_logins_on_sub_server_disconnect, type_of, remove_sub_server,
}
use rpg_server.Super.Serve.{
  Event, registers, beats, logs_in, loaded, resolved, entered, leaves, kicks, disconnects,
  checks_heartbeats, checks_logins, serve,
}
use rpg_server.Super.Sound.{IsSound, IsStaged, Stage}
use rpg_server.Super.Owed.{kick_waiting}

abbrev pub phase_of : Option PendingLogin → Option LoginTxnPhase
phase_of none = none
phase_of (some p) = some p.phase

-- The phase of a user's login, if one is under way.
abbrev pub view : ℕ → Table ℕ PendingLogin → Option LoginTxnPhase
view user m = phase_of (find user m)

abbrev body_user : LoadUserBody → Option ℕ
body_user short = none
body_user (header rsp) = some rsp.user_id
body_user (whole rsp wire) = some rsp.user_id

-- Whom an event asks a login for, brings from the Record server, and brings a scene server for.
abbrev pub asker : Event → Option ℕ
asker (logs_in now conn req) = some req.user_id
asker _ = none

abbrev pub loaded_user : Event → Option ℕ
loaded_user (loaded body) = body_user body
loaded_user _ = none

abbrev pub resolved_user : Event → Option ℕ
resolved_user (resolved rsp) = some rsp.user_id
resolved_user _ = none

-- What an event may do to the phase of a user's login.
pub data Moves (e : Event) (user : ℕ) (x : Option LoginTxnPhase) (y : Option LoginTxnPhase)
    : Type 0 where
  stays : y ≡ x → Moves e user x y
  begins : asker e ≡ some user → y ≡ some load_user → Moves e user x y
  loads :
      (p : LoginTxnPhase)
      → loaded_user e ≡ some user
      → x ≡ some p
      → y ≡ some resolve_map
      → Moves e user x y
  enters :
      resolved_user e ≡ some user → x ≡ some resolve_map → y ≡ some enter_scene → Moves e user x y
  ends : y ≡ none → Moves e user x y

awaiting-Stage :
    (phase : LoginTxnPhase) (waits : Bool) (scene : ℕ)
    → Stage phase waits scene
    → waits ≡ true
    → phase ≡ resolve_map
awaiting-Stage load_user waits scene (idle, _) h = cc
awaiting-Stage resolve_map waits scene st h = refl
awaiting-Stage enter_scene waits scene (idle, _) h = cc

awaiting_phase :
    (p : PendingLogin)
    → Stage p.phase p.awaiting_map_resolve p.scene_conn_id
    → p.awaiting_map_resolve ≡ true
    → p.phase ≡ resolve_map
awaiting_phase p st waits = awaiting-Stage p.phase _ _ st waits

module _ (e : Event) (u : ℕ) where
  abbrev Keeps : Table ℕ PendingLogin → Table ℕ PendingLogin → Type 0
  Keeps m m' = (view u m' ≡ view u m) ⊎ (view u m' ≡ none)

  Keeps-Moves : (m m' : Table ℕ PendingLogin) → Keeps m m' → Moves e u (view u m) (view u m')
  Keeps-Moves m m' (inl q) = stays q
  Keeps-Moves m m' (inr q) = ends q

  erase-Keeps : (k : ℕ) (m : Table ℕ PendingLogin) → Keeps m (erase k m)
  erase-Keeps k m = elim (Bool-cases (k == u)) [
    | inl same ↦ inr (ap phase_of (find-erase k u m) ∙ rw same refl)
    | inr differs ↦ inl (ap phase_of (find-erase k u m) ∙ rw differs refl)
  ]

  -- A table that has kept the user's login, or lost it, and then gets another entry.
  insert-Moves :
      (k : ℕ) (q : PendingLogin) (m m' : Table ℕ PendingLogin)
      → Keeps m m'
      → (k ≡ u → Moves e u (view u m) (some q.phase))
      → Moves e u (view u m) (view u (insert k q m'))
  insert-Moves k q m m' kept h = elim (Bool-cases (k == u)) [
    | inl same ↦
        let r : view u (insert k q m') ≡ some q.phase =
          ap phase_of (find-insert k u q m') ∙ rw same refl in
        rw r (h ((==_iff k u).0 same))
    | inr differs ↦
        let r : view u (insert k q m') ≡ view u m' =
          ap phase_of (find-insert k u q m') ∙ rw differs refl in
        rw r (Keeps-Moves m m' kept)
  ]

  begin-Moves :
      (now : ℕ) (s t : Super) (conn : ℕ) (req : UserEnterReq)
      → asker e ≡ some req.user_id
      → Keeps s.pending_logins t.pending_logins
      → ((k : ℕ) → Keeps s.pending_logins (erase k t.pending_logins))
      → Moves e u (view u s.pending_logins) (view u (begin_login now t conn req).0.pending_logins)
  begin-Moves now s t conn req a kept erased =
      let m = s.pending_logins in
      begin_elim (λ r. Moves e u (view u m) (view u r.0.pending_logins)) t now conn req
        (Keeps-Moves m _ (erased req.user_id))
        (λ c h.
          insert-Moves req.user_id _ m t.pending_logins kept (λ q. begins (a ∙ ap some q) refl))

  erase_twice : (j k : ℕ) (m : Table ℕ PendingLogin) → Keeps m (erase j (erase k m))
  erase_twice j k m = elim (erase-Keeps j (erase k m)) [
    | inr q ↦ inr q
    | inl q ↦ elim (erase-Keeps k m) [ inl r ↦ inl (q ∙ r) | inr r ↦ inr (q ∙ r) ]
  ]

  take-Moves :
      (now : ℕ) (s : Super) (conn : ℕ) (req : UserEnterReq)
      → asker e ≡ some req.user_id
      → Moves e u (view u s.pending_logins) (view u (take_login now s conn req).0.pending_logins)
  take-Moves now s conn req a =
      let m = s.pending_logins in
      let again =
        begin-Moves now s (end_login req.user_id s) conn req a (erase-Keeps req.user_id m)
          (λ k. erase_twice k req.user_id m) in
      take_elim (λ r. Moves e u (view u m) (view u r.0.pending_logins)) s now conn req
        (λ q. begin-Moves now s s conn req a (inl refl) (λ k. erase-Keeps k m)) (λ p q late. again)
        (λ p q early same. again) (λ p q early differs. stays refl)

  login-Moves :
      (now : ℕ) (s : Super) (conn : ℕ) (req : UserEnterReq)
      → asker e ≡ some req.user_id
      → Moves e u
          (view u s.pending_logins)
          (view u (on_user_login_req now s conn req).0.pending_logins)
  unfolding on_user_login_req
  login-Moves now s conn req a = elim (Bool-cases (req.user_id == 0)) [
    | inl bad ↦ rw bad (stays refl)
    | inr good ↦
        let kicked = (kick_existing_user_session s req.user_id).0 in
        rw good (rw (kick_waiting 0 0 s req.user_id) at (take-Moves now kicked conn req a))
  ]

  load-Moves :
      (s : Super) (rsp : LoadUserRsp) (wire : Option UserBaseWire)
      → loaded_user e ≡ some rsp.user_id
      → Moves e u (view u s.pending_logins) (view u (on_load_user s rsp wire).0.pending_logins)
  load-Moves s rsp wire a =
      let m = s.pending_logins in
      load_elim (λ r. Moves e u (view u m) (view u r.0.pending_logins)) s rsp wire (stays refl)
        (λ p code q. Keeps-Moves m _ (erase-Keeps rsp.user_id m))
        (λ p w session q. insert-Moves rsp.user_id _ m m (inl refl) (λ r.
          loads p.phase (a ∙ ap some r) (ap phase_of (subst (λ k. find k m ≡ some p) r q)) refl))

  resolve-Moves :
      (s : Super) (rsp : ResolveMapRsp)
      → IsSound s
      → resolved_user e ≡ some rsp.user_id
      → Moves e u (view u s.pending_logins) (view u (on_resolve_map_rsp s rsp).0.pending_logins)
  unfolding send_user_enter_to_scene
  resolve-Moves s rsp w a =
      let m = s.pending_logins in
      resolve_elim (λ r. Moves e u (view u m) (view u r.0.pending_logins)) s rsp (stays refl)
        (λ p code q. Keeps-Moves m _ (erase-Keeps rsp.user_id m))
        (λ p scene q waits h. insert-Moves rsp.user_id _ m m (inl refl) (λ r.
          enters (a ∙ ap some r)
            (ap phase_of (subst (λ k. find k m ≡ some p) r q)
              ∙ ap some (awaiting_phase p (find-Every IsStaged rsp.user_id m w.0.1 q).1 waits))
            refl))

  enter-Keeps :
      (s : Super) (rsp : SceneEnterRsp)
      → Keeps s.pending_logins (on_user_enter_rsp s rsp).0.pending_logins
  unfolding on_user_enter_rsp
  enter-Keeps s rsp = elim (Option-cases (find rsp.user_id s.pending_logins)) [
    | inl q ↦ rw (q, on_user_enter_rsp) (inl refl)
    | inr (p, q) ↦ rw (q, on_user_enter_rsp) (erase-Keeps rsp.user_id s.pending_logins)
  ]

  each-Keeps :
      (code : ℤ) (users : List ℕ) (s : Super)
      → Keeps s.pending_logins (fail_each code users s).0.pending_logins
  unfolding fail_each
  each-Keeps code [] s = inl refl
  each-Keeps code (user ∷ users) s = elim (Option-cases (find user s.pending_logins)) [
    | inl q ↦ rw (q, fail_each) (each-Keeps code users s)
    | inr (p, q) ↦
        rw (q, fail_each)
          (elim (each-Keeps code users (end_login user s)) [
            | inr gone ↦ inr gone
            | inl same ↦ elim (erase-Keeps user s.pending_logins) [
              | inl r ↦ inl (same ∙ r)
              | inr r ↦ inr (same ∙ r)
            ]
          ])
  ]

-- A SuperServer whose tables are sound moves the login of every user by the machine: a login begins only
-- where it is asked for, is loaded only by an answer of the Record server for that user, enters a scene
-- only from RESOLVE_MAP and by an answer of the Session server for that user, and otherwise stays as it
-- is or ends.
pub serve-Moves :
    (s : Super) (e : Event) (u : ℕ)
    → IsSound s
    → Moves e u (view u s.pending_logins) (view u (serve s e).0.pending_logins)
unfolding on_register on_heartbeat check_heartbeat check_pending_login_timeouts remove_sub_server
    fail_pending_logins_on_sub_server_disconnect on_user_leave_req on_kick_user
serve-Moves s (registers now conn req) u w = stays refl
serve-Moves s (beats now conn seq online) u w = elim (Option-cases (find conn s.servers)) [
  | inl q ↦ rw (q, on_heartbeat) (stays refl)
  | inr (info, q) ↦ rw (q, on_heartbeat) (stays refl)
]
serve-Moves s (logs_in now conn req) u w = login-Moves _ u now s conn req refl
serve-Moves s (loaded short) u w = stays refl
serve-Moves s (loaded (header rsp)) u w = load-Moves _ u s rsp none refl
serve-Moves s (loaded (whole rsp wire)) u w = load-Moves _ u s rsp (some wire) refl
serve-Moves s (resolved rsp) u w = resolve-Moves _ u s rsp w refl
serve-Moves s (entered rsp) u w =
    Keeps-Moves _ u s.pending_logins _ (enter-Keeps (entered rsp) u s rsp)
serve-Moves s (leaves user) u w = elim (Bool-cases (user == 0)) [
  | inl bad ↦ rw bad (stays refl)
  | inr good ↦
      rw good
        (Keeps-Moves _ u s.pending_logins _ (erase-Keeps (leaves user) u user s.pending_logins))
]
serve-Moves s (kicks user) u w = elim (Option-cases (find user s.users)) [
  | inl q ↦ rw (q, on_kick_user) (stays refl)
  | inr (proxy, q) ↦ rw (q, on_kick_user) (stays refl)
]
serve-Moves s (disconnects conn) u w =
    let type = type_of (find conn s.servers) in
    elim (Bool-cases (type == record_type || type == session_type)) [
      | inl needed ↦
          rw needed (Keeps-Moves _ u s.pending_logins _ (each-Keeps (disconnects conn) u _ _ _))
      | inr unneeded ↦ rw unneeded (stays refl)
    ]
serve-Moves s (checks_heartbeats now) u w = stays refl
serve-Moves s (checks_logins now) u w =
    Keeps-Moves _ u s.pending_logins _ (each-Keeps (checks_logins now) u _ _ s)
