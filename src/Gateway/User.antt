-- ===== src/Gateway/User.antt =====
-- GatewayServer/GatewayUser.h: the session of a client.
use rpg_server.Base.{ℕ, Bool, true, false, List, [], nat_eq, contains, Table}

pub data ClientState : Type 0 where
  connected authing account_ok entering in_world : ClientState

pub record GatewayUser : Type 0 where
  pub client_state : ClientState
  pub user_id : ℕ
  pub accid : ℕ
  pub zone_id : ℕ
  pub game_type : ℕ
  pub scene_server_id : ℕ
  pub login_txn_id : ℕ
  pub owned_role_ids : List ℕ
  pub role_list_ready : Bool
  pub last_heartbeat : ℕ
  pub connected_at_ms : ℕ
  pub auth_started_at_ms : ℕ
  pub entering_started_at_ms : ℕ

abbrev pub Users : Type 0
Users = Table ℕ GatewayUser

-- GatewayUser(connId), at a time.
abbrev pub new_user : ℕ → GatewayUser
new_user now_ms = record {
  client_state = connected;
  user_id = 0;
  accid = 0;
  zone_id = 0;
  game_type = 0;
  scene_server_id = 0;
  login_txn_id = 0;
  owned_role_ids = [];
  role_list_ready = false;
  last_heartbeat = now_ms;
  connected_at_ms = now_ms;
  auth_started_at_ms = 0;
  entering_started_at_ms = 0;
}

-- ownsRole.
unfoldable pub owns_role : GatewayUser → ℕ → Bool
owns_role u role_id = contains role_id u.owned_role_ids

-- clearInWorldUserState.
unfoldable pub clear_in_world : GatewayUser → GatewayUser
clear_in_world u = record u {
  user_id = 0;
  scene_server_id = 0;
  login_txn_id = 0;
  entering_started_at_ms = 0;
}

-- resetToAccountSession.
unfoldable pub reset_to_account : GatewayUser → GatewayUser
unfolding clear_in_world
reset_to_account u = record (clear_in_world u) {
  owned_role_ids = [];
  role_list_ready = false;
  client_state = account_ok;
}

abbrev pub is_state : ClientState → ClientState → Bool
is_state connected connected = true
is_state authing authing = true
is_state account_ok account_ok = true
is_state entering entering = true
is_state in_world in_world = true
is_state _ _ = false
