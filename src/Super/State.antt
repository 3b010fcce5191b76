-- ===== src/Super/State.antt =====
-- SuperServer/SuperServer.h: the tables of a SuperServer, with the codes and the user data of a login. A
-- float is its 32 bits, a wire name is its bytes.
use rpg_server.Base.{negsuc, ℕ, Bool, true, false, List, [], nat_eq, ℤ, Table}

-- SubServerType.
abbrev pub unknown_type : ℕ
unknown_type = 0

abbrev pub session_type : ℕ
session_type = 1

abbrev pub record_type : ℕ
record_type = 2

abbrev pub scene_type : ℕ
scene_type = 4

abbrev pub gateway_type : ℕ
gateway_type = 5

-- SuperEnterError.
abbrev pub no_record : ℤ
no_record = negsuc 0

abbrev pub no_session : ℤ
no_session = negsuc 1

abbrev pub map_not_registered : ℤ
map_not_registered = negsuc 2

abbrev pub scene_offline : ℤ
scene_offline = negsuc 3

abbrev pub load_user_failed : ℤ
load_user_failed = negsuc 4

abbrev pub txn_timeout : ℤ
txn_timeout = negsuc 9

abbrev pub txn_in_progress : ℤ
txn_in_progress = negsuc 10

abbrev pub login_txn_lock_timeout_ms : ℕ
login_txn_lock_timeout_ms = 60000

abbrev pub default_newbie_map_id : ℕ
default_newbie_map_id = 1001

pub record SubServerInfo : Type 0 where
  pub conn_id : ℕ
  pub type : ℕ
  pub server_id : ℕ
  pub ip : List ℕ
  pub port : ℕ
  pub name : List ℕ
  pub alive : Bool
  pub last_heartbeat : ℕ

pub record UserProxy : Type 0 where
  pub user_id : ℕ
  pub gateway_conn_id : ℕ
  pub scene_conn_id : ℕ
  pub gateway_client_conn_id : ℕ

pub data LoginTxnPhase : Type 0 where
  load_user resolve_map enter_scene : LoginTxnPhase

abbrev pub is_resolve_map : LoginTxnPhase → Bool
is_resolve_map resolve_map = true
is_resolve_map _ = false

pub record UserBaseWire : Type 0 where
  pub user_id : ℕ
  pub name : List ℕ
  pub level : ℕ
  pub vocation : ℕ
  pub sex : ℕ
  pub map_id : ℕ
  pub pos_x : ℕ
  pub pos_y : ℕ
  pub pos_z : ℕ
  pub hp : ℕ
  pub max_hp : ℕ
  pub mp : ℕ
  pub max_mp : ℕ
  pub gold : ℕ
  pub model_id : ℕ

-- `UserBaseWire userData{}`.
abbrev pub default_wire : UserBaseWire
default_wire = record {
  user_id = 0;
  name = [];
  level = 1;
  vocation = 0;
  sex = 0;
  map_id = 0;
  pos_x = 0;
  pos_y = 0;
  pos_z = 0;
  hp = 100;
  max_hp = 100;
  mp = 100;
  max_mp = 100;
  gold = 0;
  model_id = 1;
}

pub record PendingLogin : Type 0 where
  pub user_id : ℕ
  pub gateway_conn_id : ℕ
  pub gateway_client_conn_id : ℕ
  pub login_txn_id : ℕ
  pub scene_conn_id : ℕ
  pub map_id : ℕ
  pub phase : LoginTxnPhase
  pub awaiting_map_resolve : Bool
  pub started_at_ms : ℕ
  pub load_request_seq : ℕ
  pub user_data : UserBaseWire

pub record Super : Type 0 where
  pub servers : Table ℕ SubServerInfo
  pub users : Table ℕ UserProxy
  pub pending_logins : Table ℕ PendingLogin
  pub gateway_online : Table ℕ ℕ
  pub load_user_seq : ℕ
