-- ===== src/Gateway/Messages.antt =====
-- The messages of a client to GatewayServer/GatewayServer.cpp and what the gateway sends. The Protobuf
-- messages and their numbers are generated code: what parses them is an interface.
use rpg_server.Base.{ℕ, Bool, Option, List, nat_eq, ℤ}

-- A module of client messages, and a pair of module and sub-number: those for which there is a rule,
-- and any other.
pub data Domain : Type 0 where
  login system scene npc chat elsewhere : Domain

pub data Topic : Type 0 where
  gateway_auth select_user create_user logout heartbeat move chat_line npc_talk : Topic
  other : Domain → Topic

pub record AuthReq : Type 0 where
  pub account : List ℕ
  pub login_token : List ℕ
  pub zone_id : ℕ
  pub game_type : ℕ

pub record CreateReq : Type 0 where
  pub name : List ℕ
  pub vocation : ℕ
  pub sex : ℕ
  pub model_id : ℕ

pub record SelectReq : Type 0 where
  pub user_id : ℕ
  pub login_txn_id : ℕ

pub data Action : Type 0 where
  return_char_select return_login : Action
  other_action : ℕ → Action

-- The coordinates are floats; whether one is beyond a bound is the interface's.
pub record MoveReq (Coord : Type 0) : Type 0 where
  pub user_id : ℕ
  pub pos : Option (Coord × Coord × Coord)

pub record ChatReq : Type 0 where
  pub channel_known : Bool
  pub content : List ℕ

pub record Proto : Type 1 where
  pub Coord : Type 0
  pub is_beyond : Coord → Bool
  pub module_no : Topic → ℕ
  pub sub_no : Topic → ℕ
  pub parse_auth : List ℕ → Option AuthReq
  pub parse_create : List ℕ → Option CreateReq
  pub parse_select : List ℕ → Option SelectReq
  pub parse_logout : List ℕ → Option Action
  pub parse_move : List ℕ → Option (MoveReq Coord)
  pub parse_chat : List ℕ → Option ChatReq
  pub parse_npc_talk : List ℕ → Option ℕ
  pub parse_heartbeat : List ℕ → Option ℕ

pub data ValidateResult : Type 0 where
  ok unknown_msg bad_length bad_state bad_payload rate_limited : ValidateResult

-- What goes to the client.
pub data Reply : Type 0 where
  error : ValidateResult → Reply
  legacy_error : Reply
  auth_rsp : ℤ → ℕ → Reply
  user_list : ℤ → List ℕ → Reply
  create_rsp : ℤ → ℕ → Reply
  logout_rsp : Action → ℤ → Reply
  enter_world_rsp : ℤ → ℕ → Reply
  enter_game : ℕ → Reply
  heartbeat_rsp : ℕ → ℕ → Reply
  relayed : List ℕ → Reply

-- What the gateway sends, or hands to a connection whose answer it does not look at.
pub data Event : Type 0 where
  to_client : ℕ → Reply → Event
  validate_token : ℕ → List ℕ → ℕ → ℕ → Event
  list_characters : ℕ → ℕ → ℕ → Event
  create_character : ℕ → ℕ → ℕ → CreateReq → Event
  user_enter : ℕ → ℕ → ℕ → Event
  user_leave : ℕ → ℕ → Event
  scene_leave : ℕ → ℕ → Event
  forward : ℕ → ℕ → Topic → List ℕ → Event
  kick : ℕ → Event

-- The gateway's connections, at the moment of a call: whether they can send, are connected, and take
-- what is sent; the clock; the gateway's own numbers and whether it regards the others as ready.
pub record Links : Type 0 where
  pub now_ms : ℕ
  pub zone_id : ℕ
  pub game_type : ℕ
  pub upstream_ready : Bool
  pub record_can_send : Bool
  pub record_connected : Bool
  pub record_takes : Bool
  pub super_connected : Bool
  pub super_takes : Bool
  pub scene_connected : ℕ → Bool
  pub scene_takes : ℕ → Bool
  pub client_takes : Bool
