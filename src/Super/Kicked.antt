-- ===== src/Super/Kicked.antt =====
-- A login of SuperServer/SuperServer.cpp that is asked for again while its user enters a scene, and so is
-- online already: the old session that it kicks is its own.
use rpg_server.Base.{
  pos, ℕ, ◌≡◌, refl, ap, ◌∙◌, true, false, none, some, [], ◌∷◌, map, ◌==◌, nat_eq, find, erase,
}
use rpg_server.Super.State.{UserProxy, PendingLogin, Super}
use rpg_server.Super.Messages.{UserEnterReq, SceneEnterRsp, kick_client, user_leave, user_login_rsp}
use rpg_server.Super.Logins.{Result, end_login, is_late, is_retry}
use rpg_server.Super.Entry.{login_rsp}
use rpg_server.Super.Cases.{opened}
use rpg_server.Super.Serve.{logs_in, entered, run}
use rpg_server.Super.Steps.{
  begun, ask_load, MayBegin, find_inserted, find_erased, login_again_online, enter_here,
}
use rpg_server.Super.Path.{run-cons}

-- What the Scene server answers to the first request: it returns the client of the login under way.
abbrev pub first_entry : UserEnterReq → PendingLogin → ℕ → SceneEnterRsp
first_entry req p map = record {
  code = pos 0;
  user_id = req.user_id;
  gateway_client_conn_id = p.gateway_client_conn_id;
  map_id = map;
}

-- A user, not 0, who is online, with a scene, and whose login is under way for less than 60 seconds, asks
-- to log in again by a request that counts as a repetition, while a Record server is there, and then the
-- Scene server confirms the first entry, with the client of the first request. SuperServer kicks the
-- client that is online, makes the user leave the scene, asks the Record server for the user, and then
-- tells the Gateway of the second request that the login of the first request's client has succeeded, with
-- the default data of a user who was never loaded; after this the user is neither online nor logging in.
pub retry_entering :
    (now : ℕ) (s : Super) (conn : ℕ) (req : UserEnterReq) (p : PendingLogin) (proxy : UserProxy)
    (map : ℕ)
    → MayBegin s req
    → find req.user_id s.users ≡ some proxy
    → proxy.scene_conn_id == 0 ≡ false
    → find req.user_id s.pending_logins ≡ some p
    → is_late now p ≡ false
    → is_retry req p ≡ true
    → let r = run s (logs_in now conn req ∷ entered (first_entry req p map) ∷ []) in
      (r.1
        ≡ kick_client proxy.gateway_conn_id proxy.gateway_client_conn_id
          ∷ user_leave proxy.scene_conn_id req.user_id
          ∷ ask_load s req
          ∷ user_login_rsp conn (login_rsp s (first_entry req p map) (opened now s conn req))
          ∷ [])
      × (find req.user_id r.0.users ≡ none)
      × (find req.user_id r.0.pending_logins ≡ none)
unfolding login_rsp
retry_entering now s conn req p proxy map may online inside e early same =
    let user = req.user_id in
    let s1 = end_login user (record s { users = erase user s.users }) in
    let s2 = begun now s1 conn req in
    let e1 = login_again_online now s conn req p proxy may online inside e early same in
    let e2 =
      enter_here s2 (first_entry req p map) (opened now s1 conn req)
        (find_inserted user _ s1.pending_logins) refl in
    let k2 = run-cons s2 (entered (first_entry req p map)) [] e2 refl in
    let k1 = run-cons s (logs_in now conn req) (entered (first_entry req p map) ∷ []) e1 k2 in
    (
      ap (λ (x : Result). x.1) k1,
      ap (λ (x : Result). find user x.0.users) k1 ∙ find_erased user s.users,
      ap (λ (x : Result). find user x.0.pending_logins) k1 ∙ find_erased user s2.pending_logins,
    )
