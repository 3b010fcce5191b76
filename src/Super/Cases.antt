-- ===== src/Super/Cases.antt =====
-- The ways that the handlers of SuperServer/SuperServer.cpp can end, each once: a property that holds of
-- every one holds of the handler.
use rpg_server.Base.{
  ℕ, ◌+◌, ◌≡◌, ◌≢◌, inl, inr, true, false, not, ◌&&◌, ◌||◌, Option, none, some, [], ◌∷◌, arith,
  ◌==◌, if◌then◌else◌, Bool-cases, Option-cases, nat_eq, ℤ, find, insert, u32,
}
use rpg_server.Super.State.{
  load_user, resolve_map, enter_scene, PendingLogin, Super, UserBaseWire, session_type, record_type,
  scene_type, default_newbie_map_id, default_wire, no_session, load_user_failed, map_not_registered,
  scene_offline, no_record, txn_timeout, txn_in_progress,
}
use rpg_server.Super.Messages.{
  LoadUserRsp, ResolveMapRsp, UserEnterReq, load_user_req, resolve_map_req,
}
use rpg_server.Super.Logins.{
  Result, prefix, is_zero, is_late, is_retry, end_login, find_sub_server,
  find_sub_server_by_server_id, begin_login, take_login, on_load_user, send_login_fail, fail_login,
}
use rpg_server.Super.Entry.{on_resolve_map_rsp, send_user_enter_to_scene}

-- The transaction that a login request opens.
abbrev pub opened : ℕ → Super → ℕ → UserEnterReq → PendingLogin
opened now s conn req = record {
  user_id = req.user_id;
  gateway_conn_id = conn;
  gateway_client_conn_id = req.gateway_client_conn_id;
  login_txn_id = req.login_txn_id;
  scene_conn_id = 0;
  map_id = 0;
  phase = load_user;
  awaiting_map_resolve = false;
  started_at_ms = now;
  load_request_seq = u32 (s.load_user_seq + 1);
  user_data = default_wire;
}

-- A transaction whose user has been loaded, and one whose scene server is known.
abbrev pub map_of : UserBaseWire → ℕ
map_of wire = if wire.map_id == 0 then default_newbie_map_id else wire.map_id

abbrev pub resolving : PendingLogin → UserBaseWire → PendingLogin
resolving p wire = record p {
  user_data = wire;
  map_id = map_of wire;
  phase = resolve_map;
  awaiting_map_resolve = true;
}

abbrev pub entering : PendingLogin → ℕ → PendingLogin
entering p scene = record p {
  awaiting_map_resolve = false;
  scene_conn_id = scene;
  phase = enter_scene;
}

module _ {ℓ} (P : Result → Type ℓ) (s : Super) where
  pub begin_elim :
      (now conn : ℕ) (req : UserEnterReq)
      → P (end_login req.user_id s, send_login_fail conn req.gateway_client_conn_id no_record ∷ [])
      → ((record_conn : ℕ)
          → record_conn ≢ 0
          → P (
            record s {
              pending_logins = insert req.user_id (opened now s conn req) s.pending_logins;
              load_user_seq = u32 (s.load_user_seq + 1);
            },
            load_user_req record_conn
                  (record { user_id = req.user_id; request_seq = u32 (s.load_user_seq + 1) })
                ∷ [],
          ))
      → P (begin_login now s conn req)
  unfolding begin_login
  begin_elim now conn req gone here =
      elim (Bool-cases (find_sub_server s.servers record_type == 0)) [
        | inl e ↦ rw e gone
        | inr e ↦ rw e (here _ (λ q. ground (arith, e, q)))
      ]

  pub take_elim :
      (now conn : ℕ) (req : UserEnterReq)
      → (find req.user_id s.pending_logins ≡ none → P (begin_login now s conn req))
      → ((p : PendingLogin)
          → find req.user_id s.pending_logins ≡ some p
          → is_late now p ≡ true
          → P (
              prefix
                (fail_login p txn_timeout ∷ [])
                (begin_login now (end_login req.user_id s) conn req)))
      → ((p : PendingLogin)
          → find req.user_id s.pending_logins ≡ some p
          → is_late now p ≡ false
          → is_retry req p ≡ true
          → P (begin_login now (end_login req.user_id s) conn req))
      → ((p : PendingLogin)
          → find req.user_id s.pending_logins ≡ some p
          → is_late now p ≡ false
          → is_retry req p ≡ false
          → P (s, send_login_fail conn req.gateway_client_conn_id txn_in_progress ∷ []))
      → P (take_login now s conn req)
  unfolding take_login
  take_elim now conn req new late again clash =
      elim (Option-cases (find req.user_id s.pending_logins)) [
        | inl e ↦ rw (e, take_login) (new e)
        | inr (p, e) ↦ elim (Bool-cases (is_late now p)) [
          | inl old ↦ rw (e, take_login) (rw old (late p e old))
          | inr young ↦ elim (Bool-cases (is_retry req p)) [
            | inl same ↦ rw (e, take_login) (rw (young, same) (again p e young same))
            | inr differs ↦ rw (e, take_login) (rw (young, differs) (clash p e young differs))
          ]
        ]
      ]

  pub load_elim :
      (rsp : LoadUserRsp) (wire : Option UserBaseWire)
      → P (s, [])
      → ((p : PendingLogin) (code : ℤ)
          → find rsp.user_id s.pending_logins ≡ some p
          → P (end_login rsp.user_id s, fail_login p code ∷ []))
      → ((p : PendingLogin) (w : UserBaseWire) (session : ℕ)
          → find rsp.user_id s.pending_logins ≡ some p
          → P (
            record s { pending_logins = insert rsp.user_id (resolving p w) s.pending_logins },
            resolve_map_req session (record { user_id = rsp.user_id; map_id = map_of w }) ∷ [],
          ))
      → P (on_load_user s rsp wire)
  unfolding on_load_user
  load_elim rsp wire same fails goes = elim (Option-cases (find rsp.user_id s.pending_logins)) [
    | inl e ↦ rw (e, on_load_user) same
    | inr (p, e) ↦
        elim (Bool-cases
          (not (rsp.request_seq == 0) && not (rsp.request_seq == p.load_request_seq))) [
            | inl stale ↦ rw (e, on_load_user) (rw stale same)
            | inr mine ↦ elim (Bool-cases (is_zero rsp.code)) [
              | inr failed ↦ rw (e, on_load_user) (rw (mine, failed) (fails p rsp.code e))
              | inl fine ↦ elim (Option-cases wire) [
                | inl bare ↦
                    rw (e, bare, on_load_user) (rw (mine, fine) (fails p load_user_failed e))
                | inr (w, body) ↦ elim (Bool-cases (find_sub_server s.servers session_type == 0)) [
                  | inl gone ↦
                      rw (e, body, on_load_user) (rw (mine, fine, gone) (fails p no_session e))
                  | inr here ↦ rw (e, body, on_load_user) (rw (mine, fine, here) (goes p w _ e))
                ]
              ]
            ]
          ]
  ]

  pub resolve_elim :
      (rsp : ResolveMapRsp)
      → P (s, [])
      → ((p : PendingLogin) (code : ℤ)
          → find rsp.user_id s.pending_logins ≡ some p
          → P (end_login rsp.user_id s, fail_login p code ∷ []))
      → ((p : PendingLogin) (scene : ℕ)
          → find rsp.user_id s.pending_logins ≡ some p
          → p.awaiting_map_resolve ≡ true
          → scene ≢ 0
          → P (
              send_user_enter_to_scene
                (record s {
                  pending_logins = insert rsp.user_id (entering p scene) s.pending_logins;
                })
                (entering p scene)))
      → P (on_resolve_map_rsp s rsp)
  unfolding on_resolve_map_rsp
  resolve_elim rsp same fails goes =
      let scene = find_sub_server_by_server_id s.servers scene_type rsp.scene_server_id in
      elim (Option-cases (find rsp.user_id s.pending_logins)) [
        | inl e ↦ rw (e, on_resolve_map_rsp) same
        | inr (p, e) ↦ elim (Bool-cases p.awaiting_map_resolve) [
          | inr idle ↦ rw (e, on_resolve_map_rsp) (rw idle same)
          | inl waits ↦ elim (Bool-cases (not (is_zero rsp.code) || rsp.scene_server_id == 0)) [
            | inl failed ↦
                rw (e, on_resolve_map_rsp) (rw (waits, failed) (fails p map_not_registered e))
            | inr fine ↦ elim (Bool-cases (scene == 0)) [
              | inl gone ↦
                  rw (e, on_resolve_map_rsp) (rw (waits, fine, gone) (fails p scene_offline e))
              | inr here ↦
                  let h : scene ≢ 0 = λ q. ground (arith, here, q) in
                  rw (e, on_resolve_map_rsp) (rw (waits, fine, here) (goes p scene e waits h))
            ]
          ]
        ]
      ]
