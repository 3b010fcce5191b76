-- ===== src/Super/Entry.antt =====
-- The later part of a login in SuperServer/SuperServer.cpp: the map, the scene and the answer, and a user
-- who leaves.
use rpg_server.Base.{
  ℕ, false, not, ◌||◌, Option, none, some, [], ◌∷◌, ◌==◌, if◌then◌else◌, nat_eq, find, insert,
  erase,
}
use rpg_server.Super.State.{
  scene_type, map_not_registered, scene_offline, SubServerInfo, UserProxy, enter_scene,
  PendingLogin, Super,
}
use rpg_server.Super.Messages.{
  ResolveMapRsp, SceneEnterRsp, SceneEnterReq, LoginRsp, default_rsp, user_enter_req, user_leave,
  user_login_rsp,
}
use rpg_server.Super.Logins.{
  Result, is_zero, end_login, copy_to_wire, find_sub_server_by_server_id, fail_login,
}

unfoldable pub enter_req : PendingLogin → SceneEnterReq
unfolding copy_to_wire
enter_req p = record {
  user_id = p.user_data.user_id;
  map_id = p.map_id;
  x = p.user_data.pos_x;
  y = p.user_data.pos_y;
  z = p.user_data.pos_z;
  gateway_client_conn_id = p.gateway_client_conn_id;
  name = copy_to_wire 31 p.user_data.name;
  level = p.user_data.level;
  vocation = p.user_data.vocation;
  sex = p.user_data.sex;
  hp = p.user_data.hp;
  max_hp = p.user_data.max_hp;
  mp = p.user_data.mp;
  max_mp = p.user_data.max_mp;
  gold = p.user_data.gold;
  model_id = p.user_data.model_id;
}

unfoldable pub send_user_enter_to_scene : Super → PendingLogin → Result
unfolding enter_req
send_user_enter_to_scene s p =
    let proxy : UserProxy = record {
      user_id = p.user_data.user_id;
      gateway_conn_id = p.gateway_conn_id;
      scene_conn_id = p.scene_conn_id;
      gateway_client_conn_id = p.gateway_client_conn_id;
    } in
    (
      record s { users = insert p.user_data.user_id proxy s.users },
      user_enter_req p.scene_conn_id (enter_req p) ∷ [],
    )

unfoldable pub on_resolve_map_rsp : Super → ResolveMapRsp → Result
unfolding find_sub_server_by_server_id fail_login send_user_enter_to_scene
on_resolve_map_rsp s rsp = elim (find rsp.user_id s.pending_logins) [
  | none ↦ (s, [])
  | some p ↦
      let scene = find_sub_server_by_server_id s.servers scene_type rsp.scene_server_id in
      let entering = record p {
        awaiting_map_resolve = false;
        scene_conn_id = scene;
        phase = enter_scene;
      } in
      if not p.awaiting_map_resolve
      then (s, [])
      else if not (is_zero rsp.code) || rsp.scene_server_id == 0
      then (end_login rsp.user_id s, fail_login p map_not_registered ∷ [])
      else if scene == 0
      then (end_login rsp.user_id s, fail_login p scene_offline ∷ [])
      else send_user_enter_to_scene
          (record s { pending_logins = insert rsp.user_id entering s.pending_logins }) entering
]

-- The serverID that m_servers gives for a connection, or 0.
abbrev pub server_id_of : Option SubServerInfo → ℕ
server_id_of none = 0
server_id_of (some info) = info.server_id

unfoldable pub login_rsp : Super → SceneEnterRsp → PendingLogin → LoginRsp
unfolding copy_to_wire
login_rsp s rsp p =
    let base = record default_rsp {
      code = rsp.code;
      gateway_client_conn_id = rsp.gateway_client_conn_id;
      user_id = rsp.user_id;
      map_id = rsp.map_id;
    } in
    if is_zero rsp.code
    then record base {
      x = p.user_data.pos_x;
      y = p.user_data.pos_y;
      z = p.user_data.pos_z;
      level = p.user_data.level;
      hp = p.user_data.hp;
      max_hp = p.user_data.max_hp;
      mp = p.user_data.mp;
      max_mp = p.user_data.max_mp;
      model_id = p.user_data.model_id;
      name = copy_to_wire 31 p.user_data.name;
      scene_server_id = server_id_of (find p.scene_conn_id s.servers);
    }
    else base

unfoldable pub on_user_enter_rsp : Super → SceneEnterRsp → Result
unfolding login_rsp
on_user_enter_rsp s rsp = elim (find rsp.user_id s.pending_logins) [
  | none ↦ (s, [])
  | some p ↦ (
    record (end_login rsp.user_id s) {
      users = if is_zero rsp.code then s.users else erase rsp.user_id s.users;
    },
    user_login_rsp p.gateway_conn_id (login_rsp s rsp p) ∷ [],
  )
]

-- onUserLeaveReq: the entry of m_pendingLogins, and then the one of m_users.
unfoldable pub on_user_leave_req : Super → ℕ → Result
on_user_leave_req s user = if user == 0 then (s, []) else (
  record s { pending_logins = erase user s.pending_logins; users = erase user s.users },
  elim (find user s.pending_logins) [
    | none ↦ []
    | some p ↦ if p.scene_conn_id == 0 then [] else user_leave p.scene_conn_id user ∷ []
  ],
)
