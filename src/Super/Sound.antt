-- ===== src/Super/Sound.antt =====
-- What the tables of SuperServer/SuperServer.cpp keep to: one transaction for a user, its phase in step
-- with the map resolution that it waits for and with the scene connection that it was given.
use rpg_server.Base.{
  ℕ, ◌≡◌, refl, ◌≢◌, inl, inr, Bool, true, false, ◌||◌, Option, none, some, List, [], ◌∷◌, ◌==◌,
  Bool-cases, Option-cases, nat_eq, ℤ, Table, find, insert, erase, Distinct, insert-Distinct,
  erase-Distinct, Every, insert-Every, erase-Every, find-Every,
}
use rpg_server.Super.State.{
  LoginTxnPhase, load_user, resolve_map, enter_scene, UserProxy, PendingLogin, Super, UserBaseWire,
  session_type, record_type,
}
use rpg_server.Super.Messages.{
  SceneEnterRsp, LoadUserRsp, ResolveMapRsp, UserEnterReq, short, header, whole,
}
use rpg_server.Super.Logins.{
  is_zero, end_login, kick_existing_user_session, begin_login, take_login, on_user_login_req,
  on_load_user,
}
use rpg_server.Super.Entry.{
  on_resolve_map_rsp, send_user_enter_to_scene, on_user_enter_rsp, on_user_leave_req,
}
use rpg_server.Super.Cases.{begin_elim, take_elim, load_elim, resolve_elim}
use rpg_server.Super.Routes.{
  on_register, on_heartbeat, on_kick_user, check_heartbeat, fail_each, check_pending_login_timeouts,
  fail_pending_logins_on_sub_server_disconnect, type_of, remove_sub_server,
}
use rpg_server.Super.Serve.{
  Event, registers, beats, logs_in, loaded, resolved, entered, leaves, kicks, disconnects,
  checks_heartbeats, checks_logins, serve,
}

-- A phase, whether a map resolution is awaited, and the scene connection.
abbrev pub Stage : LoginTxnPhase → Bool → ℕ → Type 0
Stage load_user waits scene = (waits ≡ false) × (scene ≡ 0)
Stage resolve_map waits scene = waits ≡ true
Stage enter_scene waits scene = (waits ≡ false) × (scene ≢ 0)

abbrev pub IsStaged : ℕ → PendingLogin → Type 0
IsStaged user p = (p.user_id ≡ user) × Stage p.phase p.awaiting_map_resolve p.scene_conn_id

abbrev pub IsProxy : ℕ → UserProxy → Type 0
IsProxy user proxy = (proxy.user_id ≡ user) × (proxy.scene_conn_id ≢ 0)

abbrev pub SoundLogins : Table ℕ PendingLogin → Type 0
SoundLogins m = Distinct m × Every IsStaged m

abbrev pub SoundUsers : Table ℕ UserProxy → Type 0
SoundUsers m = Distinct m × Every IsProxy m

abbrev pub IsSound : Super → Type 0
IsSound s = SoundLogins s.pending_logins × SoundUsers s.users

insert-SoundLogins :
    (user : ℕ) (p : PendingLogin) (m : Table ℕ PendingLogin)
    → IsStaged user p
    → SoundLogins m
    → SoundLogins (insert user p m)
insert-SoundLogins user p m h w =
    (insert-Distinct user p m w.0, insert-Every IsStaged user p m h w.1)

erase-SoundLogins :
    (user : ℕ) (m : Table ℕ PendingLogin) → SoundLogins m → SoundLogins (erase user m)
erase-SoundLogins user m w = (erase-Distinct user m w.0, erase-Every IsStaged user m w.1)

erase-SoundUsers : (user : ℕ) (m : Table ℕ UserProxy) → SoundUsers m → SoundUsers (erase user m)
erase-SoundUsers user m w = (erase-Distinct user m w.0, erase-Every IsProxy user m w.1)

pub end-IsSound : (user : ℕ) (s : Super) → IsSound s → IsSound (end_login user s)
end-IsSound user s w = (erase-SoundLogins user s.pending_logins w.0, w.1)

pub kick-IsSound :
    (s : Super) (user : ℕ) → IsSound s → IsSound (kick_existing_user_session s user).0
unfolding kick_existing_user_session
kick-IsSound s user w = elim (Option-cases (find user s.users)) [
  | inl e ↦ rw (e, kick_existing_user_session) w
  | inr (proxy, e) ↦ rw (e, kick_existing_user_session) (w.0, erase-SoundUsers user s.users w.1)
]

begin-IsSound :
    (now : ℕ) (s : Super) (conn : ℕ) (req : UserEnterReq)
    → IsSound s
    → IsSound (begin_login now s conn req).0
begin-IsSound now s conn req w =
    begin_elim (λ r. IsSound r.0) s now conn req (end-IsSound req.user_id s w)
      (λ c h. (insert-SoundLogins req.user_id _ s.pending_logins (refl, (refl, refl)) w.0, w.1))

take-IsSound :
    (now : ℕ) (s : Super) (conn : ℕ) (req : UserEnterReq)
    → IsSound s
    → IsSound (take_login now s conn req).0
take-IsSound now s conn req w =
    let fresh =
      begin-IsSound now (end_login req.user_id s) conn req (end-IsSound req.user_id s w) in
    take_elim (λ r. IsSound r.0) s now conn req (λ e. begin-IsSound now s conn req w)
      (λ p e late. fresh) (λ p e early again. fresh) (λ p e early clash. w)

login-IsSound :
    (now : ℕ) (s : Super) (conn : ℕ) (req : UserEnterReq)
    → IsSound s
    → IsSound (on_user_login_req now s conn req).0
unfolding on_user_login_req
login-IsSound now s conn req w = elim (Bool-cases (req.user_id == 0)) [
  | inl bad ↦ rw bad w
  | inr good ↦ rw good (
      take-IsSound now (kick_existing_user_session s req.user_id).0 conn req
        (kick-IsSound s req.user_id w))
]

load-IsSound :
    (s : Super) (rsp : LoadUserRsp) (wire : Option UserBaseWire)
    → IsSound s
    → IsSound (on_load_user s rsp wire).0
load-IsSound s rsp wire w =
    load_elim (λ r. IsSound r.0) s rsp wire w (λ p code e. end-IsSound rsp.user_id s w)
      (λ p wire session e.
        let own = find-Every IsStaged rsp.user_id s.pending_logins w.0.1 e in
        (insert-SoundLogins rsp.user_id _ s.pending_logins (own.0, refl) w.0, w.1))

scene-IsSound :
    (s : Super) (user : ℕ) (p : PendingLogin)
    → p.scene_conn_id ≢ 0
    → IsStaged user p
    → IsSound s
    → IsSound
        (send_user_enter_to_scene
          (record s { pending_logins = insert user p s.pending_logins })
          p).0
unfolding send_user_enter_to_scene
scene-IsSound s user p h own w = (
  insert-SoundLogins user p s.pending_logins own w.0,
  (
    insert-Distinct p.user_data.user_id _ s.users w.1.0,
    insert-Every IsProxy p.user_data.user_id _ s.users (refl, h) w.1.1,
  ),
)

resolve-IsSound :
    (s : Super) (rsp : ResolveMapRsp) → IsSound s → IsSound (on_resolve_map_rsp s rsp).0
resolve-IsSound s rsp w =
    resolve_elim (λ r. IsSound r.0) s rsp w (λ p code e. end-IsSound rsp.user_id s w)
      (λ p scene e waits h.
        let own = find-Every IsStaged rsp.user_id s.pending_logins w.0.1 e in
        scene-IsSound s rsp.user_id _ h (own.0, (refl, h)) w)

enter-IsSound : (s : Super) (rsp : SceneEnterRsp) → IsSound s → IsSound (on_user_enter_rsp s rsp).0
unfolding on_user_enter_rsp
enter-IsSound s rsp w = elim (Option-cases (find rsp.user_id s.pending_logins)) [
  | inl e ↦ rw (e, on_user_enter_rsp) w
  | inr (p, e) ↦
      let over = erase-SoundLogins rsp.user_id s.pending_logins w.0 in
      elim (Bool-cases (is_zero rsp.code)) [
        | inl fine ↦ rw (e, on_user_enter_rsp) (rw fine (over, w.1))
        | inr failed ↦
            rw (e, on_user_enter_rsp) (rw failed (over, erase-SoundUsers rsp.user_id s.users w.1))
      ]
]

leave-IsSound : (s : Super) (user : ℕ) → IsSound s → IsSound (on_user_leave_req s user).0
unfolding on_user_leave_req
leave-IsSound s user w = elim (Bool-cases (user == 0)) [
  | inl bad ↦ rw bad w
  | inr good ↦
      rw good (erase-SoundLogins user s.pending_logins w.0, erase-SoundUsers user s.users w.1)
]

kick_user-IsSound : (s : Super) (user : ℕ) → IsSound s → IsSound (on_kick_user s user).0
unfolding on_kick_user
kick_user-IsSound s user w = elim (Option-cases (find user s.users)) [
  | inl e ↦ rw (e, on_kick_user) w
  | inr (proxy, e) ↦ rw (e, on_kick_user) (w.0, erase-SoundUsers user s.users w.1)
]

fail-IsSound :
    (code : ℤ) (users : List ℕ) (s : Super) → IsSound s → IsSound (fail_each code users s).0
unfolding fail_each
fail-IsSound code [] s w = w
fail-IsSound code (user ∷ users) s w = elim (Option-cases (find user s.pending_logins)) [
  | inl e ↦ rw (e, fail_each) (fail-IsSound code users s w)
  | inr (p, e) ↦
      rw (e, fail_each) (fail-IsSound code users (end_login user s) (end-IsSound user s w))
]

remove-IsSound : (s : Super) (conn : ℕ) → IsSound s → IsSound (remove_sub_server s conn).0
unfolding remove_sub_server fail_pending_logins_on_sub_server_disconnect
remove-IsSound s conn w =
    let type = type_of (find conn s.servers) in
    elim (Bool-cases (type == record_type || type == session_type)) [
      | inl needed ↦ rw needed (fail-IsSound _ _ _ w)
      | inr other ↦ rw other w
    ]

-- A SuperServer whose tables are sound still has sound tables after any message, lost connection or
-- timer: one transaction for a user and one proxy, each under its own user; a transaction awaits a map
-- resolution in the phase RESOLVE_MAP alone, has a scene connection in ENTER_SCENE and none in LOAD_USER;
-- and every online user has a scene connection.
pub serve-IsSound : (s : Super) (e : Event) → IsSound s → IsSound (serve s e).0
unfolding on_register on_heartbeat check_heartbeat check_pending_login_timeouts
serve-IsSound s (registers now conn req) w = w
serve-IsSound s (beats now conn seq online) w = elim (Option-cases (find conn s.servers)) [
  | inl e ↦ rw (e, on_heartbeat) w
  | inr (info, e) ↦ rw (e, on_heartbeat) w
]
serve-IsSound s (logs_in now conn req) w = login-IsSound now s conn req w
serve-IsSound s (loaded short) w = w
serve-IsSound s (loaded (header rsp)) w = load-IsSound s rsp none w
serve-IsSound s (loaded (whole rsp wire)) w = load-IsSound s rsp (some wire) w
serve-IsSound s (resolved rsp) w = resolve-IsSound s rsp w
serve-IsSound s (entered rsp) w = enter-IsSound s rsp w
serve-IsSound s (leaves user) w = leave-IsSound s user w
serve-IsSound s (kicks user) w = kick_user-IsSound s user w
serve-IsSound s (disconnects conn) w = remove-IsSound s conn w
serve-IsSound s (checks_heartbeats now) w = w
serve-IsSound s (checks_logins now) w = fail-IsSound _ _ s w
