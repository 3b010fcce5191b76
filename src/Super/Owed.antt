-- ===== src/Super/Owed.antt =====
-- How the logins are counted that the clients of the Gateways ask of SuperServer/SuperServer.cpp, for
-- each client of a Gateway's connection: answered, under way, or given up.
use rpg_server.Base.{
  ℕ, ◌+◌, ◌≡◌, refl, ap₂, ◌∙◌, inl, inr, not, ◌&&◌, Option, none, some, List, [], ◌∷◌, ◌++◌, arith,
  ◌==◌, if◌then◌else◌, Bool-cases, Option-cases, nat_eq, ℤ, find, insert, find-erase, beq_refl,
  weigh, erase-Distinct, total, total-insert, total-erase, erase-Every,
}
use rpg_server.Outbox.Owed.{one_if}
use rpg_server.Super.State.{PendingLogin, Super}
use rpg_server.Super.Messages.{UserEnterReq, Sent, user_login_rsp}
use rpg_server.Super.Logins.{
  Result, is_late, is_retry, end_login, fail_login, kick_existing_user_session, begin_login,
  take_login, send_login_fail,
}
use rpg_server.Super.Cases.{opened, begin_elim, take_elim}
use rpg_server.Super.Serve.{Event, logs_in, leaves}
use rpg_server.Super.Sound.{IsSound}

-- Whose logins are counted: the client c of the Gateway's connection g.
module _ (g : ℕ) (c : ℕ) where
  abbrev pub same_client : ℕ → ℕ → ℕ
  same_client conn client = one_if (conn == g && client == c)

  abbrev pub is_of : PendingLogin → ℕ
  is_of p = same_client p.gateway_conn_id p.gateway_client_conn_id

  -- The logins that the client has under way.
  abbrev pub waiting : Super → ℕ
  waiting s = total is_of s.pending_logins

  -- The answers to the client, by way of its Gateway.
  abbrev pub answers_one : Sent → ℕ
  answers_one (user_login_rsp conn rsp) = same_client conn rsp.gateway_client_conn_id
  answers_one _ = 0

  abbrev pub answers : List Sent → ℕ
  answers [] = 0
  answers (x ∷ out) = answers_one x + answers out

  -- The logins of the client that an event asks for.
  abbrev pub asks : Event → ℕ
  asks (logs_in now conn req) = same_client conn req.gateway_client_conn_id
  asks _ = 0

  -- A login is given up without an answer where a repeated request takes its place, and where its user
  -- leaves.
  abbrev pub replaced : ℕ → UserEnterReq → Option PendingLogin → ℕ
  replaced now req none = 0
  replaced now req (some p) = if not (is_late now p) && is_retry req p then is_of p else 0

  abbrev pub gives_up : Super → Event → ℕ
  gives_up s (logs_in now conn req) =
      if req.user_id == 0 then 0 else replaced now req (find req.user_id s.pending_logins)
  gives_up s (leaves user) = if user == 0 then 0 else weigh is_of (find user s.pending_logins)
  gives_up s _ = 0

  pub answers-append : (xs ys : List Sent) → answers (xs ++ ys) ≡ answers xs + answers ys
  answers-append [] ys = omega arith
  answers-append (x ∷ xs) ys = omega (arith, answers-append xs ys)

  -- A result owes as much as a state, with some logins more and some given up.
  abbrev pub Adds : Super → ℕ → ℕ → Result → Type 0
  Adds s more less r = waiting r.0 + answers r.1 + less ≡ waiting s + more

  pub end_waiting :
      (user : ℕ) (s : Super)
      → IsSound s
      → waiting (end_login user s) + weigh is_of (find user s.pending_logins) ≡ waiting s
  end_waiting user s w = total-erase is_of user s.pending_logins w.0.0

  pub end_some :
      (user : ℕ) (s : Super) (p : PendingLogin)
      → IsSound s
      → find user s.pending_logins ≡ some p
      → waiting (end_login user s) + is_of p ≡ waiting s
  end_some user s p w e = rw e at (end_waiting user s w)

  pub fail_conserves :
      (user : ℕ) (s : Super) (p : PendingLogin) (code : ℤ)
      → IsSound s
      → find user s.pending_logins ≡ some p
      → Adds s 0 0 (end_login user s, fail_login p code ∷ [])
  unfolding fail_login send_login_fail
  fail_conserves user s p code w e = omega (arith, end_some user s p w e)

  -- A transaction that keeps its Gateway and its client.
  pub keep_waiting :
      (user : ℕ) (s : Super) (p q : PendingLogin)
      → find user s.pending_logins ≡ some p
      → q.gateway_conn_id ≡ p.gateway_conn_id
      → q.gateway_client_conn_id ≡ p.gateway_client_conn_id
      → total is_of (insert user q s.pending_logins) ≡ waiting s
  keep_waiting user s p q e same same' =
      let sum = rw e at (total-insert is_of user q s.pending_logins) in
      let h : is_of q ≡ is_of p = ap₂ same_client same same' in omega (arith, sum, h)

  begin_conserves :
      (now : ℕ) (s : Super) (conn : ℕ) (req : UserEnterReq)
      → IsSound s
      → find req.user_id s.pending_logins ≡ none
      → Adds s (same_client conn req.gateway_client_conn_id) 0 (begin_login now s conn req)
  unfolding send_login_fail
  begin_conserves now s conn req w e =
      let gone = rw e at (end_waiting req.user_id s w) in
      let come =
        rw e at (total-insert is_of req.user_id (opened now s conn req) s.pending_logins) in
      begin_elim (Adds s (same_client conn req.gateway_client_conn_id) 0) s now conn req
        (omega (arith, gone)) (λ record_conn h. omega (arith, come))

  -- The same after a transaction of the user has ended.
  again_conserves :
      (now : ℕ) (s : Super) (conn : ℕ) (req : UserEnterReq)
      → IsSound s
      → Adds
          (end_login req.user_id s)
          (same_client conn req.gateway_client_conn_id)
          0
          (begin_login now (end_login req.user_id s) conn req)
  again_conserves now s conn req w =
      let user = req.user_id in
      begin_conserves now (end_login user s) conn req
        (
          (erase-Distinct user s.pending_logins w.0.0, erase-Every _ user s.pending_logins w.0.1),
          w.1,
        )
        (find-erase user user s.pending_logins ∙ rw (beq_refl user) refl)

  pub take_conserves :
      (now : ℕ) (s : Super) (conn : ℕ) (req : UserEnterReq)
      → IsSound s
      → Adds s
          (same_client conn req.gateway_client_conn_id)
          (replaced now req (find req.user_id s.pending_logins))
          (take_login now s conn req)
  unfolding send_login_fail fail_login
  take_conserves now s conn req w =
      let user = req.user_id in
      let less = replaced now req (find user s.pending_logins) in
      let fresh = again_conserves now s conn req w in
      take_elim (Adds s (same_client conn req.gateway_client_conn_id) less) s now conn req
        (λ e. rw e (begin_conserves now s conn req w e))
        (λ p e late. rw (e, late) (omega (arith, fresh, end_some user s p w e)))
        (λ p e early same. rw (e, early, same) (omega (arith, fresh, end_some user s p w e)))
        (λ p e early differs. rw (e, early, differs) (omega arith))

  pub kick_waiting :
      (s : Super) (user : ℕ)
      → (kick_existing_user_session s user).0.pending_logins ≡ s.pending_logins
  unfolding kick_existing_user_session
  kick_waiting s user = elim (Option-cases (find user s.users)) [
    | inl e ↦ rw (e, kick_existing_user_session) refl
    | inr (proxy, e) ↦ rw (e, kick_existing_user_session) refl
  ]

  pub kick_answers : (s : Super) (user : ℕ) → answers (kick_existing_user_session s user).1 ≡ 0
  unfolding kick_existing_user_session
  kick_answers s user = elim (Option-cases (find user s.users)) [
    | inl e ↦ rw (e, kick_existing_user_session) refl
    | inr (proxy, e) ↦ elim (Bool-cases (proxy.scene_conn_id == 0)) [
      | inl none_yet ↦ rw (e, kick_existing_user_session) (rw none_yet refl)
      | inr there ↦ rw (e, kick_existing_user_session) (rw there refl)
    ]
  ]
