-- ===== src/Super/Logins.antt =====
-- The login transactions of SuperServer/SuperServer.cpp, from a Gateway's request to the answer. A handler
-- returns the tables after it and what it sends, in order. Logging is left out.
use rpg_server.Base.{
  pos, ℕ, zero, suc, ◌+◌, Bool, true, false, not, ◌&&◌, ◌||◌, Option, none, some, List, [], ◌∷◌,
  ◌++◌, leb, ◌==◌, if◌then◌else◌, nat_eq, ℤ, eq_ℤ, Table, find, insert, erase, u32, sub64,
}
use rpg_server.Super.State.{
  session_type, record_type, no_record, no_session, load_user_failed, txn_timeout, txn_in_progress,
  login_txn_lock_timeout_ms, default_newbie_map_id, SubServerInfo, load_user, resolve_map,
  UserBaseWire, default_wire, PendingLogin, Super,
}
use rpg_server.Super.Messages.{
  UserEnterReq, LoadUserRsp, LoadUserBody, short, header, whole, default_rsp, Sent, load_user_req,
  resolve_map_req, user_leave, user_login_rsp, kick_client,
}

abbrev pub Result : Type 0
Result = Super × List Sent

abbrev pub is_zero : ℤ → Bool
is_zero code = eq_ℤ code (pos 0)

-- copyToWire into a field of 32 bytes: what stands before the first zero, 31 bytes at most.
unfoldable pub copy_to_wire : ℕ → List ℕ → List ℕ
copy_to_wire zero src = []
copy_to_wire (suc room) [] = []
copy_to_wire (suc room) (c ∷ src) =
    let rest = copy_to_wire room src in if c == 0 then [] else c ∷ rest

-- Searches of the routing table; INVALID_CONN_ID is 0.
unfoldable pub find_sub_server : Table ℕ SubServerInfo → ℕ → ℕ
find_sub_server [] type = 0
find_sub_server ((cid, info) ∷ m) type =
    let rest = find_sub_server m type in if info.type == type && info.alive then cid else rest

unfoldable pub find_sub_server_by_server_id : Table ℕ SubServerInfo → ℕ → ℕ → ℕ
find_sub_server_by_server_id [] type id = 0
find_sub_server_by_server_id ((cid, info) ∷ m) type id =
    let rest = find_sub_server_by_server_id m type id in
    if info.type == type && info.server_id == id && info.alive then cid else rest

unfoldable pub send_login_fail : ℕ → ℕ → ℤ → Sent
send_login_fail gateway client code =
    user_login_rsp gateway (record default_rsp { code = code; gateway_client_conn_id = client })

unfoldable pub fail_login : PendingLogin → ℤ → Sent
unfolding send_login_fail
fail_login p code = send_login_fail p.gateway_conn_id p.gateway_client_conn_id code

unfoldable pub kick_existing_user_session : Super → ℕ → Result
kick_existing_user_session s user = elim (find user s.users) [
  | none ↦ (s, [])
  | some proxy ↦ (
    record s { users = erase user s.users },
    kick_client proxy.gateway_conn_id proxy.gateway_client_conn_id
        ∷ (if proxy.scene_conn_id == 0 then [] else user_leave proxy.scene_conn_id user ∷ []),
  )
]

-- The last part of onUserLoginReq: a new transaction, for a user who has none.
unfoldable pub begin_login : ℕ → Super → ℕ → UserEnterReq → Result
unfolding find_sub_server send_login_fail
begin_login now s conn req =
    let record_conn = find_sub_server s.servers record_type in
    let seq = u32 (s.load_user_seq + 1) in
    let pending : PendingLogin = record {
      user_id = req.user_id;
      gateway_conn_id = conn;
      gateway_client_conn_id = req.gateway_client_conn_id;
      login_txn_id = req.login_txn_id;
      scene_conn_id = 0;
      map_id = 0;
      phase = load_user;
      awaiting_map_resolve = false;
      started_at_ms = now;
      load_request_seq = seq;
      user_data = default_wire;
    } in
    if record_conn == 0
    then (
      record s { pending_logins = erase req.user_id s.pending_logins },
      send_login_fail conn req.gateway_client_conn_id no_record ∷ [],
    )
    else (
      record s {
        pending_logins = insert req.user_id pending s.pending_logins;
        load_user_seq = seq;
      },
      load_user_req record_conn (record { user_id = req.user_id; request_seq = seq }) ∷ [],
    )

-- The request repeats the one that is pending: the same transaction, or the same client without one.
unfoldable pub is_retry : UserEnterReq → PendingLogin → Bool
is_retry req p =
    (not (req.login_txn_id == 0) && p.login_txn_id == req.login_txn_id)
    || (req.login_txn_id == 0 && p.gateway_client_conn_id == req.gateway_client_conn_id)

abbrev pub end_login : ℕ → Super → Super
end_login user s = record s { pending_logins = erase user s.pending_logins }

abbrev pub prefix : List Sent → Result → Result
prefix out (s, out') = (s, out ++ out')

abbrev pub is_late : ℕ → PendingLogin → Bool
is_late now p = leb login_txn_lock_timeout_ms (sub64 now p.started_at_ms)

-- onUserLoginReq once the old session is gone.
unfoldable pub take_login : ℕ → Super → ℕ → UserEnterReq → Result
unfolding begin_login is_retry fail_login send_login_fail
take_login now s conn req = elim (find req.user_id s.pending_logins) [
  | none ↦ begin_login now s conn req
  | some p ↦
      if not (is_late now p)
      then if is_retry req p
        then begin_login now (end_login req.user_id s) conn req
        else (s, send_login_fail conn req.gateway_client_conn_id txn_in_progress ∷ [])
      else prefix (fail_login p txn_timeout ∷ [])
          (begin_login now (end_login req.user_id s) conn req)
]

unfoldable pub on_user_login_req : ℕ → Super → ℕ → UserEnterReq → Result
unfolding kick_existing_user_session take_login send_login_fail
on_user_login_req now s conn req =
    if req.user_id == 0
    then (s, send_login_fail conn req.gateway_client_conn_id no_record ∷ [])
    else let (s', kicks) = kick_existing_user_session s req.user_id in
      prefix kicks (take_login now s' conn req)

unfoldable pub on_load_user : Super → LoadUserRsp → Option UserBaseWire → Result
unfolding find_sub_server fail_login
on_load_user s rsp wire = elim (find rsp.user_id s.pending_logins) [
  | none ↦ (s, [])
  | some p ↦
      if not (rsp.request_seq == 0) && not (rsp.request_seq == p.load_request_seq)
      then (s, [])
      else if not (is_zero rsp.code)
      then (end_login rsp.user_id s, fail_login p rsp.code ∷ [])
      else elim wire [
        | none ↦ (end_login rsp.user_id s, fail_login p load_user_failed ∷ [])
        | some w ↦
            let session = find_sub_server s.servers session_type in
            let map_id = if w.map_id == 0 then default_newbie_map_id else w.map_id in
            if session == 0 then (end_login rsp.user_id s, fail_login p no_session ∷ []) else (
              record s {
                pending_logins =
                    insert rsp.user_id
                      (record p {
                        user_data = w;
                        map_id = map_id;
                        phase = resolve_map;
                        awaiting_map_resolve = true;
                      })
                      s.pending_logins;
              },
              resolve_map_req session (record { user_id = rsp.user_id; map_id = map_id }) ∷ [],
            )
      ]
]

abbrev pub on_load_user_rsp : Super → LoadUserBody → Result
on_load_user_rsp s short = (s, [])
on_load_user_rsp s (header rsp) = on_load_user s rsp none
on_load_user_rsp s (whole rsp w) = on_load_user s rsp (some w)
