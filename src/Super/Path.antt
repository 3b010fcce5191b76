-- ===== src/Super/Path.antt =====
-- A login of SuperServer/SuperServer.cpp from the request to the answer.
use rpg_server.Base.{
  pos, ℕ, ◌+◌, ◌≡◌, refl, ap, subst, ◌∙◌, false, none, some, List, [], ◌∷◌, ◌++◌, ◌==◌, ==_iff,
  nat_eq, find, insert, u32,
}
use rpg_server.Super.State.{UserProxy, Super, UserBaseWire, session_type, scene_type}
use rpg_server.Super.Messages.{
  UserEnterReq, ResolveMapRsp, SceneEnterRsp, whole, Sent, resolve_map_req, user_enter_req,
  user_login_rsp,
}
use rpg_server.Super.Logins.{Result, find_sub_server, find_sub_server_by_server_id}
use rpg_server.Super.Entry.{enter_req, login_rsp, send_user_enter_to_scene}
use rpg_server.Super.Cases.{opened, map_of, resolving}
use rpg_server.Super.Serve.{Event, logs_in, loaded, resolved, entered, serve, run}
use rpg_server.Super.Steps.{
  begun, ask_load, MayBegin, find_inserted, find_erased, login_new, load_here, resolve_here,
  enter_here, answers_of, last_pending,
}

pub run-cons :
    (s : Super) (e : Event) (events : List Event) {s' t : Super} {out rest : List Sent}
    → serve s e ≡ (s', out)
    → run s' events ≡ (t, rest)
    → run s (e ∷ events) ≡ (t, out ++ rest)
run-cons s e events {s'} {t} {out} {rest} h k = rw (h, run) (rw k refl)

-- How a user is online after a login.
abbrev pub proxy_of : ℕ → UserEnterReq → UserBaseWire → ℕ → UserProxy
proxy_of conn req wire scene = record {
  user_id = wire.user_id;
  gateway_conn_id = conn;
  scene_conn_id = scene;
  gateway_client_conn_id = req.gateway_client_conn_id;
}

-- The tables of a login on its way, and at its end.
abbrev at_map : ℕ → Super → ℕ → UserEnterReq → UserBaseWire → Super
at_map now s conn req wire =
    let s1 = begun now s conn req in
    record s1 {
      pending_logins =
          insert req.user_id (resolving (opened now s conn req) wire) s1.pending_logins;
    }

abbrev at_scene : ℕ → Super → ℕ → UserEnterReq → UserBaseWire → ℕ → Super
at_scene now s conn req wire scene_server =
    let s2 = at_map now s conn req wire in
    let p = last_pending now s conn req wire scene_server in
    record s2 {
      pending_logins = insert req.user_id p s2.pending_logins;
      users = insert wire.user_id (proxy_of conn req wire p.scene_conn_id) s.users;
    }

-- A login of a user who is neither online nor logging in, in a zone where a Record server, a Session
-- server and the Scene server of the user's map are there, goes through: the other servers' answers make
-- SuperServer load the user, resolve the map, enter the scene and tell the Gateway of success, in this
-- order and with nothing else sent; the transaction has then ended, and the user is online at this client
-- and in this scene.
pub login_completes :
    (now : ℕ) (s : Super) (conn : ℕ) (req : UserEnterReq) (wire : UserBaseWire) (scene_server : ℕ)
    → MayBegin s req
    → find req.user_id s.users ≡ none
    → find req.user_id s.pending_logins ≡ none
    → wire.user_id ≡ req.user_id
    → find_sub_server s.servers session_type == 0 ≡ false
    → scene_server == 0 ≡ false
    → find_sub_server_by_server_id s.servers scene_type scene_server == 0 ≡ false
    → let r = run s (logs_in now conn req ∷ answers_of s req wire scene_server) in
      let p = last_pending now s conn req wire scene_server in
      (r.1
        ≡ ask_load s req
          ∷ resolve_map_req
              (find_sub_server s.servers session_type)
              (record { user_id = req.user_id; map_id = map_of wire })
          ∷ user_enter_req p.scene_conn_id (enter_req p)
          ∷ user_login_rsp conn (
              login_rsp s
                (record {
                  code = pos 0;
                  user_id = req.user_id;
                  gateway_client_conn_id = req.gateway_client_conn_id;
                  map_id = map_of wire;
                })
                p)
          ∷ [])
      × (find req.user_id r.0.pending_logins ≡ none)
      × (find req.user_id r.0.users ≡ some (proxy_of conn req wire p.scene_conn_id))
unfolding login_rsp send_user_enter_to_scene
login_completes now s conn req wire scene_server may offline new same session server scene =
    let user = req.user_id in
    let seq = u32 (s.load_user_seq + 1) in
    let p1 = opened now s conn req in
    let p2 = resolving p1 wire in
    let s1 = begun now s conn req in
    let s2 = at_map now s conn req wire in
    let s3 = at_scene now s conn req wire scene_server in
    let e1 = login_new now s conn req may offline new in
    let b2 = loaded (whole (record { code = pos 0; user_id = user; request_seq = seq }) wire) in
    let rsp3 : ResolveMapRsp = record {
      code = pos 0;
      user_id = user;
      map_id = map_of wire;
      scene_server_id = scene_server;
    } in
    let rsp4 : SceneEnterRsp = record {
      code = pos 0;
      user_id = user;
      gateway_client_conn_id = req.gateway_client_conn_id;
      map_id = map_of wire;
    } in
    let p3 = last_pending now s conn req wire scene_server in
    let e2 =
      load_here s1 user seq wire p1 (find_inserted user p1 s.pending_logins)
        ((==_iff seq seq).1 refl) session in
    let e3 =
      resolve_here s2 rsp3 p2 (find_inserted user p2 s1.pending_logins) refl refl server scene in
    let e4 = enter_here s3 rsp4 p3 (find_inserted user p3 s2.pending_logins) refl in
    let k4 = run-cons s3 (entered rsp4) [] e4 refl in
    let k3 = run-cons s2 (resolved rsp3) (entered rsp4 ∷ []) e3 k4 in
    let k2 = run-cons s1 b2 (resolved rsp3 ∷ entered rsp4 ∷ []) e2 k3 in
    let k1 = run-cons s (logs_in now conn req) (b2 ∷ resolved rsp3 ∷ entered rsp4 ∷ []) e1 k2 in
    (
      ap (λ (x : Result). x.1) k1,
      ap (λ (x : Result). find user x.0.pending_logins) k1 ∙ find_erased user s3.pending_logins,
      ap (λ (x : Result). find user x.0.users) k1
          ∙ subst (λ k. find k s3.users ≡ some (proxy_of conn req wire p3.scene_conn_id)) same
              (find_inserted wire.user_id _ s.users),
    )
