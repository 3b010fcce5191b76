-- ===== src/Super/Late.antt =====
-- A server that SuperServer/SuperServer.cpp has marked as late.
use rpg_server.Base.{
  ℕ, ◌≡◌, refl, ap, subst, ◌∙◌, inl, inr, Bool, false, ◌||◌, Option, none, some, List, [], ◌∷◌,
  ◌==◌, ==_iff, Bool-cases, Option-cases, nat_eq, ℤ, Table, find, erase, find-insert, find-erase,
}
use rpg_server.Super.State.{SubServerInfo, Super, UserBaseWire, session_type, record_type}
use rpg_server.Super.Messages.{
  UserEnterReq, LoadUserRsp, ResolveMapRsp, SceneEnterRsp, short, header, whole,
}
use rpg_server.Super.Logins.{
  Result, end_login, kick_existing_user_session, take_login, on_user_login_req, on_load_user,
}
use rpg_server.Super.Entry.{
  on_resolve_map_rsp, send_user_enter_to_scene, on_user_enter_rsp, on_user_leave_req,
}
use rpg_server.Super.Cases.{begin_elim, take_elim, load_elim, resolve_elim}
use rpg_server.Super.Routes.{
  on_register, on_heartbeat, on_kick_user, check_heartbeat, heartbeat_late, mark_late, fail_each,
  check_pending_login_timeouts, fail_pending_logins_on_sub_server_disconnect, type_of,
  remove_sub_server,
}
use rpg_server.Super.Serve.{
  Event, registers, beats, logs_in, loaded, resolved, entered, leaves, kicks, disconnects,
  checks_heartbeats, checks_logins, serve,
}

abbrev alive_of : Option SubServerInfo → Option Bool
alive_of none = none
alive_of (some info) = some info.alive

-- Whether a server is known on a connection, and counts as alive.
abbrev pub alive_at : ℕ → Super → Option Bool
alive_at conn s = alive_of (find conn s.servers)

-- A registration on the connection, or its loss.
abbrev pub is_about : ℕ → Event → Bool
is_about conn (registers now c req) = c == conn
is_about conn (disconnects c) = c == conn
is_about conn _ = false

take_servers :
    (now : ℕ) (s : Super) (conn : ℕ) (req : UserEnterReq)
    → (take_login now s conn req).0.servers ≡ s.servers
take_servers now s conn req =
    let same = λ (t : Super) (q : t.servers ≡ s.servers).
      begin_elim (λ (r : Result). r.0.servers ≡ s.servers) t now conn req q (λ c h. q) in
    take_elim (λ (r : Result). r.0.servers ≡ s.servers) s now conn req (λ e. same s refl)
      (λ p e late. same (end_login req.user_id s) refl)
      (λ p e early again. same (end_login req.user_id s) refl) (λ p e early clash. refl)

kick_servers : (s : Super) (user : ℕ) → (kick_existing_user_session s user).0.servers ≡ s.servers
unfolding kick_existing_user_session
kick_servers s user = elim (Option-cases (find user s.users)) [
  | inl e ↦ rw (e, kick_existing_user_session) refl
  | inr (proxy, e) ↦ rw (e, kick_existing_user_session) refl
]

login_servers :
    (now : ℕ) (s : Super) (conn : ℕ) (req : UserEnterReq)
    → (on_user_login_req now s conn req).0.servers ≡ s.servers
unfolding on_user_login_req
login_servers now s conn req = elim (Bool-cases (req.user_id == 0)) [
  | inl bad ↦ rw bad refl
  | inr good ↦
      let kicked = (kick_existing_user_session s req.user_id).0 in
      rw good (take_servers now kicked conn req ∙ kick_servers s req.user_id)
]

load_servers :
    (s : Super) (rsp : LoadUserRsp) (wire : Option UserBaseWire)
    → (on_load_user s rsp wire).0.servers ≡ s.servers
load_servers s rsp wire =
    load_elim (λ (r : Result). r.0.servers ≡ s.servers) s rsp wire refl (λ p code e. refl)
      (λ p w session e. refl)

resolve_servers :
    (s : Super) (rsp : ResolveMapRsp) → (on_resolve_map_rsp s rsp).0.servers ≡ s.servers
unfolding send_user_enter_to_scene
resolve_servers s rsp =
    resolve_elim (λ (r : Result). r.0.servers ≡ s.servers) s rsp refl (λ p code e. refl)
      (λ p scene e waits h. refl)

enter_servers : (s : Super) (rsp : SceneEnterRsp) → (on_user_enter_rsp s rsp).0.servers ≡ s.servers
unfolding on_user_enter_rsp
enter_servers s rsp = elim (Option-cases (find rsp.user_id s.pending_logins)) [
  | inl e ↦ rw (e, on_user_enter_rsp) refl
  | inr (p, e) ↦ rw (e, on_user_enter_rsp) refl
]

each_servers :
    (code : ℤ) (users : List ℕ) (s : Super) → (fail_each code users s).0.servers ≡ s.servers
unfolding fail_each
each_servers code [] s = refl
each_servers code (user ∷ users) s = elim (Option-cases (find user s.pending_logins)) [
  | inl e ↦ rw (e, fail_each) (each_servers code users s)
  | inr (p, e) ↦ rw (e, fail_each) (each_servers code users (end_login user s))
]

leave_servers : (s : Super) (user : ℕ) → (on_user_leave_req s user).0.servers ≡ s.servers
unfolding on_user_leave_req
leave_servers s user = elim (Bool-cases (user == 0)) [
  | inl bad ↦ rw bad refl
  | inr good ↦ rw good refl
]

kick_user_servers : (s : Super) (user : ℕ) → (on_kick_user s user).0.servers ≡ s.servers
unfolding on_kick_user
kick_user_servers s user = elim (Option-cases (find user s.users)) [
  | inl e ↦ rw (e, on_kick_user) refl
  | inr (proxy, e) ↦ rw (e, on_kick_user) refl
]

remove_servers : (s : Super) (c : ℕ) → (remove_sub_server s c).0.servers ≡ erase c s.servers
unfolding remove_sub_server fail_pending_logins_on_sub_server_disconnect
remove_servers s c =
    let type = type_of (find c s.servers) in
    elim (Bool-cases (type == record_type || type == session_type)) [
      | inl needed ↦ rw needed (each_servers _ _ _)
      | inr unneeded ↦ rw unneeded refl
    ]

mark_alive :
    (now conn : ℕ) (m : Table ℕ SubServerInfo)
    → alive_of (find conn m) ≡ some false
    → alive_of (find conn (mark_late now m)) ≡ some false
unfolding mark_late find
mark_alive now conn [] h = h
mark_alive now conn ((c, info) ∷ m) h = elim (Bool-cases (c == conn)) [
  | inl same ↦
      let dead : some info.alive ≡ some false = rw same at h in
      elim (Bool-cases (heartbeat_late now info)) [
        | inl late ↦ rw late (rw same refl)
        | inr fresh ↦ rw fresh (rw same dead)
      ]
  | inr differs ↦
      let rest = mark_alive now conn m (rw differs at h) in
      elim (Bool-cases (heartbeat_late now info)) [
        | inl late ↦ rw late (rw differs rest)
        | inr fresh ↦ rw fresh (rw differs rest)
      ]
]

beat_alive :
    (now : ℕ) (s : Super) (c seq online conn : ℕ)
    → alive_at conn s ≡ some false
    → alive_at conn (on_heartbeat now s c seq online).0 ≡ some false
unfolding on_heartbeat
beat_alive now s c seq online conn h = elim (Option-cases (find c s.servers)) [
  | inl e ↦ rw (e, on_heartbeat) h
  | inr (info, e) ↦
      let put = find-insert c conn (record info { last_heartbeat = now }) s.servers in
      elim (Bool-cases (c == conn)) [
        | inl same ↦
            let q : find conn s.servers ≡ some info =
              subst (λ k. find k s.servers ≡ some info) ((==_iff c conn).0 same) e in
            rw (e, on_heartbeat) (ap alive_of put ∙ rw same (rw q at h))
        | inr differs ↦ rw (e, on_heartbeat) (ap alive_of put ∙ rw differs h)
      ]
]

-- A server that counts as late on a connection keeps to count as late after any message, lost connection
-- or timer, its own heartbeats among them, but for a new registration on that connection or its loss.
pub late_stays :
    (s : Super) (e : Event) (conn : ℕ)
    → alive_at conn s ≡ some false
    → is_about conn e ≡ false
    → alive_at conn (serve s e).0 ≡ some false
unfolding on_register check_heartbeat check_pending_login_timeouts
late_stays s (registers now c req) conn h a = ap alive_of (find-insert c conn _ s.servers) ∙ rw a h
late_stays s (beats now c seq online) conn h a = beat_alive now s c seq online conn h
late_stays s (logs_in now c req) conn h a =
    ap (λ m. alive_of (find conn m)) (login_servers now s c req) ∙ h
late_stays s (loaded short) conn h a = h
late_stays s (loaded (header rsp)) conn h a =
    ap (λ m. alive_of (find conn m)) (load_servers s rsp none) ∙ h
late_stays s (loaded (whole rsp wire)) conn h a =
    ap (λ m. alive_of (find conn m)) (load_servers s rsp (some wire)) ∙ h
late_stays s (resolved rsp) conn h a = ap (λ m. alive_of (find conn m)) (resolve_servers s rsp) ∙ h
late_stays s (entered rsp) conn h a = ap (λ m. alive_of (find conn m)) (enter_servers s rsp) ∙ h
late_stays s (leaves user) conn h a = ap (λ m. alive_of (find conn m)) (leave_servers s user) ∙ h
late_stays s (kicks user) conn h a = ap (λ m. alive_of (find conn m)) (kick_user_servers s user) ∙ h
late_stays s (disconnects c) conn h a =
    ap (λ m. alive_of (find conn m)) (remove_servers s c)
    ∙ ap alive_of (find-erase c conn s.servers)
    ∙ rw a h
late_stays s (checks_heartbeats now) conn h a = mark_alive now conn s.servers h
late_stays s (checks_logins now) conn h a =
    ap (λ m. alive_of (find conn m)) (each_servers _ _ s) ∙ h
