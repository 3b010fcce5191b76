-- ===== src/Super/Steps.antt =====
-- The handlers of SuperServer/SuperServer.cpp where a login goes through, and whole logins made of them.
use rpg_server.Base.{
  pos, ℕ, ◌+◌, ◌≡◌, refl, ◌∙◌, inl, inr, true, false, none, some, List, [], ◌∷◌, ◌==◌, Bool-cases,
  nat_eq, Table, find, insert, erase, find-insert, find-erase, beq_refl, u32,
}
use rpg_server.Super.State.{
  UserProxy, PendingLogin, Super, UserBaseWire, session_type, record_type, scene_type,
}
use rpg_server.Super.Messages.{
  SceneEnterRsp, ResolveMapRsp, UserEnterReq, whole, Sent, load_user_req, resolve_map_req,
  user_leave, user_login_rsp, kick_client,
}
use rpg_server.Super.Logins.{
  is_zero, is_late, is_retry, end_login, find_sub_server, find_sub_server_by_server_id,
  kick_existing_user_session, begin_login, take_login, on_user_login_req, on_load_user,
}
use rpg_server.Super.Entry.{
  on_resolve_map_rsp, send_user_enter_to_scene, login_rsp, on_user_enter_rsp,
}
use rpg_server.Super.Cases.{opened, map_of, resolving, entering}
use rpg_server.Super.Serve.{Event, loaded, resolved, entered}

-- The state in which a login request leaves the tables.
abbrev pub begun : ℕ → Super → ℕ → UserEnterReq → Super
begun now s conn req = record s {
  pending_logins = insert req.user_id (opened now s conn req) s.pending_logins;
  load_user_seq = u32 (s.load_user_seq + 1);
}

abbrev pub ask_load : Super → UserEnterReq → Sent
ask_load s req =
    load_user_req (find_sub_server s.servers record_type)
      (record { user_id = req.user_id; request_seq = u32 (s.load_user_seq + 1) })

-- A user who may ask, and a Record server that is there.
abbrev pub MayBegin : Super → UserEnterReq → Type 0
MayBegin s req = (req.user_id == 0 ≡ false) × (find_sub_server s.servers record_type == 0 ≡ false)

pub find_inserted : {A : Type 0} (k : ℕ) (v : A) (m : Table ℕ A) → find k (insert k v m) ≡ some v
find_inserted k v m = find-insert k k v m ∙ rw (beq_refl k) refl

pub find_erased : {A : Type 0} (k : ℕ) (m : Table ℕ A) → find k (erase k m) ≡ none
find_erased k m = find-erase k k m ∙ rw (beq_refl k) refl

pub begin_here :
    (now : ℕ) (s : Super) (conn : ℕ) (req : UserEnterReq)
    → MayBegin s req
    → begin_login now s conn req ≡ (begun now s conn req, ask_load s req ∷ [])
unfolding begin_login
begin_here now s conn req may = rw may.1 refl

pub login_new :
    (now : ℕ) (s : Super) (conn : ℕ) (req : UserEnterReq)
    → MayBegin s req
    → find req.user_id s.users ≡ none
    → find req.user_id s.pending_logins ≡ none
    → on_user_login_req now s conn req ≡ (begun now s conn req, ask_load s req ∷ [])
unfolding on_user_login_req
login_new now s conn req may offline new = rw may.0 (
    rw (offline, kick_existing_user_session) (rw (new, take_login) (begin_here now s conn req may)))

-- A request that repeats a login under way, of a user who is not online.
pub login_again :
    (now : ℕ) (s : Super) (conn : ℕ) (req : UserEnterReq) (p : PendingLogin)
    → MayBegin s req
    → find req.user_id s.users ≡ none
    → find req.user_id s.pending_logins ≡ some p
    → is_late now p ≡ false
    → is_retry req p ≡ true
    → on_user_login_req now s conn req
      ≡ (begun now (end_login req.user_id s) conn req, ask_load s req ∷ [])
unfolding on_user_login_req
login_again now s conn req p may offline e early same = rw may.0 (
    rw (offline, kick_existing_user_session)
      (rw (e, take_login)
        (rw (early, same) (begin_here now (end_login req.user_id s) conn req may))))

-- The same for a user who is online already.
pub login_again_online :
    (now : ℕ) (s : Super) (conn : ℕ) (req : UserEnterReq) (p : PendingLogin) (proxy : UserProxy)
    → MayBegin s req
    → find req.user_id s.users ≡ some proxy
    → proxy.scene_conn_id == 0 ≡ false
    → find req.user_id s.pending_logins ≡ some p
    → is_late now p ≡ false
    → is_retry req p ≡ true
    → on_user_login_req now s conn req ≡ (
      begun now (end_login req.user_id (record s { users = erase req.user_id s.users })) conn req,
      kick_client proxy.gateway_conn_id proxy.gateway_client_conn_id
          ∷ user_leave proxy.scene_conn_id req.user_id
          ∷ ask_load s req
          ∷ [],
    )
unfolding on_user_login_req
login_again_online now s conn req p proxy may online inside e early same =
    let s1 = record s { users = erase req.user_id s.users } in
    rw may.0 (
      rw (online, kick_existing_user_session)
        (rw inside (
          rw (e, take_login)
            (rw (early, same) (rw (begin_here now (end_login req.user_id s1) conn req may) refl)))))

pub load_here :
    (s : Super) (user seq : ℕ) (wire : UserBaseWire) (p : PendingLogin)
    → find user s.pending_logins ≡ some p
    → seq == p.load_request_seq ≡ true
    → find_sub_server s.servers session_type == 0 ≡ false
    → on_load_user s (record { code = pos 0; user_id = user; request_seq = seq }) (some wire) ≡ (
      record s { pending_logins = insert user (resolving p wire) s.pending_logins },
      resolve_map_req
            (find_sub_server s.servers session_type)
            (record { user_id = user; map_id = map_of wire })
          ∷ [],
    )
unfolding on_load_user
load_here s user seq wire p e same session =
    rw (e, on_load_user)
      (elim (Bool-cases (seq == 0)) [
        | inl old ↦ rw old (rw session refl)
        | inr new ↦ rw (new, same) (rw session refl)
      ])

pub resolve_here :
    (s : Super) (rsp : ResolveMapRsp) (p : PendingLogin)
    → find rsp.user_id s.pending_logins ≡ some p
    → p.awaiting_map_resolve ≡ true
    → is_zero rsp.code ≡ true
    → rsp.scene_server_id == 0 ≡ false
    → find_sub_server_by_server_id s.servers scene_type rsp.scene_server_id == 0 ≡ false
    → on_resolve_map_rsp s rsp ≡ (
        let q =
          entering p (find_sub_server_by_server_id s.servers scene_type rsp.scene_server_id) in
        send_user_enter_to_scene
          (record s { pending_logins = insert rsp.user_id q s.pending_logins })
          q)
unfolding on_resolve_map_rsp
resolve_here s rsp p e waits fine server scene =
    rw (e, on_resolve_map_rsp) (rw waits (rw (fine, server) (rw scene refl)))

pub enter_here :
    (s : Super) (rsp : SceneEnterRsp) (p : PendingLogin)
    → find rsp.user_id s.pending_logins ≡ some p
    → is_zero rsp.code ≡ true
    → on_user_enter_rsp s rsp
      ≡ (end_login rsp.user_id s, user_login_rsp p.gateway_conn_id (login_rsp s rsp p) ∷ [])
unfolding on_user_enter_rsp
enter_here s rsp p e fine = rw (e, on_user_enter_rsp) (rw fine refl)

-- What the other servers answer to a login of a user that goes through.
abbrev pub answers_of : Super → UserEnterReq → UserBaseWire → ℕ → List Event
answers_of s req wire scene_server =
    loaded (
      whole
        (record { code = pos 0; user_id = req.user_id; request_seq = u32 (s.load_user_seq + 1) })
        wire)
    ∷ resolved (record {
      code = pos 0;
      user_id = req.user_id;
      map_id = map_of wire;
      scene_server_id = scene_server;
    })
    ∷ entered (record {
      code = pos 0;
      user_id = req.user_id;
      gateway_client_conn_id = req.gateway_client_conn_id;
      map_id = map_of wire;
    })
    ∷ []

-- The transaction at its end.
abbrev pub last_pending : ℕ → Super → ℕ → UserEnterReq → UserBaseWire → ℕ → PendingLogin
last_pending now s conn req wire scene_server =
    entering (resolving (opened now s conn req) wire)
      (find_sub_server_by_server_id s.servers scene_type scene_server)
