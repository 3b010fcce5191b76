-- ===== src/Gateway/Validator.antt =====
-- GatewayServer/ClientMsgValidator.h and ClientMsgRouter.h: which messages of a client are let through,
-- and where they go.
use rpg_server.Base.{
  ℕ, zero, suc, Bool, true, false, not, ◌&&◌, ◌||◌, Option, none, some, List, [], ◌∷◌, ltb, ◌==◌,
  if◌then◌else◌, nat_eq, length,
}
use rpg_server.Gateway.User.{
  ClientState, connected, account_ok, entering, in_world, GatewayUser, is_state,
}
use rpg_server.Gateway.Messages.{
  Domain, login, system, scene, npc, chat, elsewhere, Topic, gateway_auth, select_user, create_user,
  logout, heartbeat, move, chat_line, npc_talk, other, Proto, Action, other_action, ValidateResult,
  ok, unknown_msg, bad_length, bad_state, bad_payload,
}
use rpg_server.RoleName.{is_valid}

-- A rule, its mask of states as a test.
pub record MsgRule : Type 0 where
  pub min_len : ℕ
  pub max_len : ℕ
  pub allowed_states : ClientState → Bool
  pub needs_in_world : Bool

abbrev pub client_proto_max_body : ℕ
client_proto_max_body = 65535

abbrev pub rule : (ClientState → Bool) → Bool → Option MsgRule
rule states world = some (record {
  min_len = 1;
  max_len = client_proto_max_body;
  allowed_states = states;
  needs_in_world = world;
})

-- findRule.
unfoldable pub find_rule : Topic → Option MsgRule
find_rule gateway_auth = rule (is_state connected) false
find_rule select_user = rule (is_state account_ok) false
find_rule create_user = rule (is_state account_ok) false
find_rule logout = rule (λ s. is_state entering s || is_state in_world s) false
find_rule heartbeat = rule (λ s. true) false
find_rule move = rule (is_state in_world) true
find_rule chat_line = rule (is_state in_world) true
find_rule npc_talk = rule (is_state in_world) true
find_rule (other d) = none

abbrev pub legacy_len : Topic → Option ℕ
legacy_len gateway_auth = some 107
legacy_len create_user = some 38
legacy_len select_user = some 18
legacy_len _ = none

abbrev pub has_len : Option ℕ → ℕ → Bool
has_len none n = false
has_len (some k) n = n == k

-- The name without what stands behind a NUL, as c_str() shows it to strlen.
abbrev pub c_str : List ℕ → List ℕ
c_str [] = []
c_str (zero ∷ s) = []
c_str (suc b ∷ s) = suc b ∷ c_str s

abbrev pub is_nil : List ℕ → Bool
is_nil [] = true
is_nil (b ∷ s) = false

module _ (p : Proto) where
  -- looksLikeLegacyWireV2.
  unfoldable pub looks_legacy : Topic → List ℕ → Bool
  looks_legacy topic (b0 ∷ b1 ∷ body) =
      b0 == p.module_no topic
      && b1 == p.sub_no topic
      && has_len (legacy_len topic) (length (b0 ∷ b1 ∷ body))
  looks_legacy topic _ = false

  unfoldable pub validate_auth : List ℕ → ValidateResult
  unfolding looks_legacy
  validate_auth body =
      if looks_legacy gateway_auth body then bad_payload else elim (p.parse_auth body) [
        | none ↦ bad_length
        | some req ↦ if is_nil req.account || is_nil req.login_token then bad_payload else ok
      ]

  unfoldable pub validate_create : List ℕ → ValidateResult
  unfolding looks_legacy is_valid
  validate_create body =
      if looks_legacy create_user body then bad_payload else elim (p.parse_create body) [
        | none ↦ bad_length
        | some req ↦
            if is_nil req.name
            then bad_payload
            else if not (is_valid (some (c_str req.name)))
            then bad_payload
            else if ltb 3 req.vocation || ltb 1 req.sex
            then bad_payload
            else if ltb req.model_id 1 || ltb 4 req.model_id
            then bad_payload
            else ok
      ]

  unfoldable pub validate_select : List ℕ → ValidateResult
  unfolding looks_legacy
  validate_select body =
      if looks_legacy select_user body then bad_payload else elim (p.parse_select body) [
        | none ↦ bad_length
        | some req ↦ if req.user_id == 0 then bad_payload else ok
      ]

  abbrev pub is_return : Action → Bool
  is_return (other_action n) = false
  is_return _ = true

  unfoldable pub validate_logout : List ℕ → ValidateResult
  validate_logout body = elim (p.parse_logout body) [
    | none ↦ bad_length
    | some action ↦ if is_return action then ok else bad_payload
  ]

  unfoldable pub validate_move : GatewayUser → List ℕ → ValidateResult
  validate_move u body = elim (p.parse_move body) [
    | none ↦ bad_length
    | some req ↦ elim req.pos [
      | none ↦ bad_payload
      | some at ↦
          if not (u.user_id == 0) && not (req.user_id == u.user_id)
          then bad_payload
          else if p.is_beyond at.0 || p.is_beyond at.1 || p.is_beyond at.2
          then bad_payload
          else ok
    ]
  ]

  unfoldable pub validate_chat : List ℕ → ValidateResult
  validate_chat body = elim (p.parse_chat body) [
    | none ↦ bad_length
    | some req ↦
        if not req.channel_known
        then bad_payload
        else if is_nil req.content || ltb 256 (length req.content)
        then bad_payload
        else ok
  ]

  unfoldable pub validate_npc_talk : GatewayUser → List ℕ → ValidateResult
  validate_npc_talk u body = elim (p.parse_npc_talk body) [
    | none ↦ bad_length
    | some npc_id ↦ if not (u.user_id == 0) && npc_id == 0 then bad_payload else ok
  ]

  -- The tests of the body, by the kind of message.
  unfoldable pub check_body : GatewayUser → Topic → List ℕ → ValidateResult
  unfolding validate_auth validate_create validate_select validate_logout validate_move
      validate_chat validate_npc_talk
  check_body u gateway_auth body = validate_auth body
  check_body u create_user body = validate_create body
  check_body u select_user body = validate_select body
  check_body u logout body = validate_logout body
  check_body u move body = validate_move u body
  check_body u chat_line body = validate_chat body
  check_body u npc_talk body = validate_npc_talk u body
  check_body u heartbeat body = ok
  check_body u (other d) body = ok

  -- ClientMsgValidator::check.
  unfoldable pub check : GatewayUser → Topic → List ℕ → ValidateResult
  unfolding find_rule check_body
  check u topic body = elim (find_rule topic) [
    | none ↦ unknown_msg
    | some r ↦
        if not (r.allowed_states u.client_state)
        then bad_state
        else if ltb (length body) r.min_len || ltb r.max_len (length body)
        then bad_length
        else if r.needs_in_world && not (is_state in_world u.client_state)
        then bad_state
        else check_body u topic body
  ]

pub data Target : Type 0 where
  local to_scene to_session dropped : Target

-- ClientMsgRouter::resolve, by module.
abbrev pub domain_of : Topic → Domain
domain_of gateway_auth = login
domain_of select_user = login
domain_of create_user = login
domain_of logout = login
domain_of heartbeat = system
domain_of move = scene
domain_of chat_line = chat
domain_of npc_talk = npc
domain_of (other d) = d

unfoldable pub resolve : Topic → Target
resolve topic = elim (domain_of topic) [
  | login ↦ local
  | system ↦ local
  | scene ↦ to_scene
  | npc ↦ to_scene
  | chat ↦ to_scene
  | elsewhere ↦ dropped
]
