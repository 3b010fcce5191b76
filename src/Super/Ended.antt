-- ===== src/Super/Ended.antt =====
-- Which logins the clock and the loss of a server end in SuperServer/SuperServer.cpp: the two loops of
-- checkPendingLoginTimeouts and of failPendingLoginsOnSubServerDisconnect against a filter.
use rpg_server.Base.{
  ℕ, ◌≡◌, refl, sym, subst, ◌∙◌, inl, inr, Bool, false, ◌||◌, Option, none, some, List, [], ◌∷◌,
  arith, leb, ◌==◌, if◌then◌else◌, ==_iff, Bool-cases, Option-cases, nat_eq, contains, ℤ, Table,
  find, find-erase, unless, Distinct, find-Every, sub64,
}
use rpg_server.Super.State.{
  LoginTxnPhase, is_resolve_map, load_user, resolve_map, enter_scene, PendingLogin, Super,
  session_type, record_type, txn_timeout,
}
use rpg_server.Super.Logins.{is_late, end_login}
use rpg_server.Super.Routes.{
  users_where, fail_each, check_pending_login_timeouts, depends_on,
  fail_pending_logins_on_sub_server_disconnect, type_of, remove_sub_server,
}
use rpg_server.Super.Sound.{Stage, IsStaged, IsSound}

find-fail_each :
    (code : ℤ) (u : ℕ) (users : List ℕ) (s : Super)
    → find u (fail_each code users s).0.pending_logins
      ≡ (if contains u users then none else find u s.pending_logins)
unfolding fail_each contains
find-fail_each code u [] s = refl
find-fail_each code u (user ∷ users) s = elim (Option-cases (find user s.pending_logins)) [
  | inl e ↦
      rw (e, fail_each)
        (find-fail_each code u users s ∙ elim (Bool-cases (user == u)) [
          | inl same ↦
              let q : find u s.pending_logins ≡ none =
                subst (λ k. find k s.pending_logins ≡ none) ((==_iff user u).0 same) e in
              ground (arith, same, q)
          | inr differs ↦ rw differs refl
        ])
  | inr (p, e) ↦
      rw (e, fail_each)
        (rw (find-fail_each code u users (end_login user s), find-erase user u s.pending_logins)
          (ground arith))
]

abbrev passes : (PendingLogin → Bool) → Option PendingLogin → Bool
passes test none = false
passes test (some p) = test p

contains-users_where :
    (test : PendingLogin → Bool) (u : ℕ) (m : Table ℕ PendingLogin)
    → Distinct m
    → contains u (users_where test m) ≡ passes test (find u m)
unfolding users_where contains find
contains-users_where test u [] d = refl
contains-users_where test u ((k, p) ∷ m) d =
    let rest = contains-users_where test u m d.1 in
    elim (Bool-cases (k == u)) [
      | inl same ↦
          let q : find u m ≡ none = subst (λ x. find x m ≡ none) ((==_iff k u).0 same) d.0 in
          elim (Bool-cases (test p)) [
            | inl hit ↦ rw hit (rw same (rw hit refl))
            | inr miss ↦ rw miss (rw same (rw miss (rest ∙ rw q refl)))
          ]
      | inr differs ↦ elim (Bool-cases (test p)) [
        | inl hit ↦ rw hit (rw differs rest)
        | inr miss ↦ rw miss (rw differs rest)
      ]
    ]

filter_each :
    (code : ℤ) (test : PendingLogin → Bool) (u : ℕ) (s : Super)
    → Distinct s.pending_logins
    → find u (fail_each code (users_where test s.pending_logins) s).0.pending_logins
      ≡ unless test (find u s.pending_logins)
filter_each code test u s d =
    find-fail_each code u (users_where test s.pending_logins) s
    ∙ rw (contains-users_where test u s.pending_logins d) (by_cases (find u s.pending_logins))
  where
    by_cases : (o : Option PendingLogin) → (if passes test o then none else o) ≡ unless test o
    by_cases none = refl
    by_cases (some p) = refl

-- What the timer leaves of a login: the milliseconds since its start are a number of 64 bits.
abbrev pub left_after : ℕ → Option PendingLogin → Option PendingLogin
left_after now none = none
left_after now (some p) = if leb 60000 (sub64 now p.started_at_ms) then none else some p

unless-is_late : (now : ℕ) (o : Option PendingLogin) → unless (is_late now) o ≡ left_after now o
unless-is_late now none = refl
unless-is_late now (some p) = refl

-- The timer of a SuperServer whose tables are sound ends exactly the logins that have lasted for 60
-- seconds or more: any other user's login is as it was, and none that is late is left.
pub timeouts_end_late :
    (now u : ℕ) (s : Super)
    → IsSound s
    → find u (check_pending_login_timeouts now s).0.pending_logins
      ≡ left_after now (find u s.pending_logins)
unfolding check_pending_login_timeouts
timeouts_end_late now u s w =
    filter_each txn_timeout (is_late now) u s w.0.0 ∙ unless-is_late now (find u s.pending_logins)

-- What the loss of a Session server leaves of a login.
abbrev pub without_session : LoginTxnPhase → PendingLogin → Option PendingLogin
without_session load_user p = some p
without_session resolve_map p = none
without_session enter_scene p = some p

-- What the loss of a server of a type leaves of a login: 1 is a Session server, 2 a Record server.
abbrev pub left_without : ℕ → Option PendingLogin → Option PendingLogin
left_without type none = none
left_without type (some p) =
    if type == 2 then none else if type == 1 then without_session p.phase p else some p

phase_depends :
    (phase : LoginTxnPhase) (waits : Bool) (scene : ℕ) (p : PendingLogin)
    → Stage phase waits scene
    → (if waits || is_resolve_map phase then none else some p) ≡ without_session phase p
phase_depends load_user waits scene p h = rw (h.0) refl
phase_depends resolve_map waits scene p h = rw h refl
phase_depends enter_scene waits scene p h = rw (h.0) refl

unless-IsStaged :
    (type user : ℕ) (p : PendingLogin)
    → IsStaged user p
    → unless (depends_on type) (some p) ≡ left_without type (some p)
unfolding depends_on
unless-IsStaged type user p h = elim (Bool-cases (type == 2)) [
  | inl record_lost ↦ rw record_lost refl
  | inr other ↦ elim (Bool-cases (type == 1)) [
    | inl session_lost ↦
        rw (other, session_lost)
          (phase_depends p.phase p.awaiting_map_resolve p.scene_conn_id p h.1)
    | inr unneeded ↦ rw (other, unneeded) refl
  ]
]

unless-depends_on :
    (type user : ℕ) (s : Super)
    → IsSound s
    → unless (depends_on type) (find user s.pending_logins)
      ≡ left_without type (find user s.pending_logins)
unless-depends_on type user s w = elim (Option-cases (find user s.pending_logins)) [
  | inl e ↦ rw e refl
  | inr (p, e) ↦
      let own = find-Every IsStaged user s.pending_logins w.0.1 e in
      rw e (unless-IsStaged type user p own)
]

left_unneeded :
    (type : ℕ) (o : Option PendingLogin) → type == 2 || type == 1 ≡ false → left_without type o ≡ o
left_unneeded type none h = refl
left_unneeded type (some p) h = ground (arith, h)

-- Where a SuperServer with sound tables loses a connection: if it was a Record server's, every login ends;
-- if it was a Session server's, those in RESOLVE_MAP end, and those in LOAD_USER or ENTER_SCENE stay as
-- they were; if it was another server's or no server's, every login stays as it was.
pub remove_ends_dependent :
    (conn u : ℕ) (s : Super)
    → IsSound s
    → find u (remove_sub_server s conn).0.pending_logins
      ≡ left_without (type_of (find conn s.servers)) (find u s.pending_logins)
unfolding remove_sub_server fail_pending_logins_on_sub_server_disconnect
remove_ends_dependent conn u s w =
    let type = type_of (find conn s.servers) in
    elim (Bool-cases (type == record_type || type == session_type)) [
      | inl needed ↦
          rw needed (filter_each _ (depends_on type) u _ w.0.0 ∙ unless-depends_on type u s w)
      | inr unneeded ↦ rw unneeded (sym (left_unneeded type _ unneeded))
    ]
