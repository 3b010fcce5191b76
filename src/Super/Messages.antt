-- ===== src/Super/Messages.antt =====
-- The messages of protocal/InternalMsg.h that SuperServer/SuperServer.cpp takes and sends in a login.
use rpg_server.Base.{pos, ℕ, List, [], nat_eq, ℤ}
use rpg_server.Super.State.{UserBaseWire}

pub record RegisterReq : Type 0 where
  pub server_type : ℕ
  pub server_id : ℕ
  pub ip : List ℕ
  pub port : ℕ
  pub name : List ℕ

pub record UserEnterReq : Type 0 where
  pub user_id : ℕ
  pub gateway_client_conn_id : ℕ
  pub login_txn_id : ℕ

pub record LoadUserReq : Type 0 where
  pub user_id : ℕ
  pub request_seq : ℕ

pub record LoadUserRsp : Type 0 where
  pub code : ℤ
  pub user_id : ℕ
  pub request_seq : ℕ

-- A REC_LOAD_USER_RSP as it arrives: too short for its header, a header alone, or a header and a user.
pub data LoadUserBody : Type 0 where
  short : LoadUserBody
  header : LoadUserRsp → LoadUserBody
  whole : LoadUserRsp → UserBaseWire → LoadUserBody

pub record ResolveMapReq : Type 0 where
  pub user_id : ℕ
  pub map_id : ℕ

pub record ResolveMapRsp : Type 0 where
  pub code : ℤ
  pub user_id : ℕ
  pub map_id : ℕ
  pub scene_server_id : ℕ

pub record SceneEnterReq : Type 0 where
  pub user_id : ℕ
  pub map_id : ℕ
  pub x : ℕ
  pub y : ℕ
  pub z : ℕ
  pub gateway_client_conn_id : ℕ
  pub name : List ℕ
  pub level : ℕ
  pub vocation : ℕ
  pub sex : ℕ
  pub hp : ℕ
  pub max_hp : ℕ
  pub mp : ℕ
  pub max_mp : ℕ
  pub gold : ℕ
  pub model_id : ℕ

pub record SceneEnterRsp : Type 0 where
  pub code : ℤ
  pub user_id : ℕ
  pub gateway_client_conn_id : ℕ
  pub map_id : ℕ

pub record LoginRsp : Type 0 where
  pub code : ℤ
  pub gateway_client_conn_id : ℕ
  pub user_id : ℕ
  pub map_id : ℕ
  pub x : ℕ
  pub y : ℕ
  pub z : ℕ
  pub name : List ℕ
  pub level : ℕ
  pub hp : ℕ
  pub max_hp : ℕ
  pub mp : ℕ
  pub max_mp : ℕ
  pub scene_server_id : ℕ
  pub model_id : ℕ

-- `Msg_GW_UserLoginRsp gwRsp{}`.
abbrev pub default_rsp : LoginRsp
default_rsp = record {
  code = pos 0;
  gateway_client_conn_id = 0;
  user_id = 0;
  map_id = 0;
  x = 0;
  y = 0;
  z = 0;
  name = [];
  level = 1;
  hp = 100;
  max_hp = 100;
  mp = 100;
  max_mp = 100;
  scene_server_id = 0;
  model_id = 1;
}

-- What a SuperServer sends; the first number is the connection.
pub data Sent : Type 0 where
  register_rsp : ℕ → Sent
  heartbeat_ack : ℕ → ℕ → ℕ → Sent
  load_user_req : ℕ → LoadUserReq → Sent
  resolve_map_req : ℕ → ResolveMapReq → Sent
  user_enter_req : ℕ → SceneEnterReq → Sent
  user_leave : ℕ → ℕ → Sent
  user_login_rsp : ℕ → LoginRsp → Sent
  kick_client : ℕ → ℕ → Sent
