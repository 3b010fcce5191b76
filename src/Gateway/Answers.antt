-- ===== src/Gateway/Answers.antt =====
-- The handlers of GatewayServer/GatewayServer.cpp for what other servers send, and its timeouts, take a
-- session along the states of a login.
use rpg_server.Base.{
  ℕ, ◌+◌, ◌*◌, ◌≡◌, refl, inl, inr, true, ◌&&◌, Option, none, some, arith, ltb, Bool-cases, nat_eq,
}
use rpg_server.Gateway.User.{
  authing, entering, GatewayUser, is_state, clear_in_world, reset_to_account,
}
use rpg_server.Gateway.Messages.{Links}
use rpg_server.Gateway.Login.{send_user_list}
use rpg_server.Gateway.Replies.{
  header_size, entry_size, is_auth_late, is_entering_late, is_silent, TokenRsp, ListRsp, CreateRsp,
  LoginRsp, on_validate_token_rsp, token_checked, take_list, on_list_characters_rsp,
  on_create_character_rsp, on_user_login_rsp, sweep_auth, sweep_entering, sweep_silent, is_zero,
}
use rpg_server.Gateway.Flow.{stays, accepted, arrives, bounced, Follows, Continues, state_is, from}

token_checked-Follows :
    (l : Links) (conn : ℕ) (rsp : TokenRsp) (u : GatewayUser)
    → u.client_state ≡ authing
    → Follows u (token_checked l conn rsp u).0
unfolding token_checked
token_checked-Follows l conn rsp u h = elim (Bool-cases (is_zero rsp.code)) [
  | inr bad ↦ rw bad tt
  | inl good ↦ elim (Bool-cases (send_user_list l conn rsp.accid u.zone_id true).0) [
    | inl listed ↦ rw (good, listed) ((from h accepted, λ _ playing. cc))
    | inr unlisted ↦ rw (good, unlisted) tt
  ]
]

pub on_validate_token_rsp-Continues :
    (l : Links) (conn : ℕ) (rsp : TokenRsp) (user : Option GatewayUser)
    → Continues user (on_validate_token_rsp l conn rsp user).0
unfolding on_validate_token_rsp
on_validate_token_rsp-Continues l conn rsp none = tt
on_validate_token_rsp-Continues l conn rsp (some u) =
    elim (Bool-cases (is_state authing u.client_state)) [
      | inl waits ↦
          rw waits (token_checked-Follows l conn rsp u (state_is authing u.client_state waits))
      | inr other ↦ rw other (stays, λ w. w)
    ]

take_list-Follows :
    (l : Links) (conn : ℕ) (rsp : ListRsp) (u : GatewayUser) → Follows u (take_list l conn rsp u).0
unfolding take_list
take_list-Follows l conn rsp u = elim (Bool-cases (is_zero rsp.code)) [
  | inr bad ↦ rw bad (stays, λ w. w)
  | inl good ↦ elim (Bool-cases (ltb rsp.len (header_size + rsp.count * entry_size))) [
    | inl short ↦ rw (good, short) (stays, λ w. w)
    | inr long ↦ elim (Bool-cases (ltb 0 rsp.count && ltb 65535 (rsp.count * entry_size))) [
      | inl large ↦ rw (good, long, large) (stays, λ w. w)
      | inr small ↦ elim (Bool-cases l.client_takes) [
        | inl taken ↦ rw (good, long, small, taken) (stays, λ w. w)
        | inr refused ↦ rw (good, long, small, refused) (stays, λ w. w)
      ]
    ]
  ]
]

pub on_list_characters_rsp-Continues :
    (l : Links) (conn : ℕ) (rsp : ListRsp) (user : Option GatewayUser)
    → Continues user (on_list_characters_rsp l conn rsp user).0
unfolding on_list_characters_rsp
on_list_characters_rsp-Continues l conn rsp none = tt
on_list_characters_rsp-Continues l conn rsp (some u) = elim (Bool-cases (ltb rsp.len header_size)) [
  | inl short ↦ rw short (stays, λ w. w)
  | inr long ↦ rw long (take_list-Follows l conn rsp u)
]

pub on_create_character_rsp-Continues :
    (l : Links) (conn : ℕ) (rsp : CreateRsp) (user : Option GatewayUser)
    → Continues user (on_create_character_rsp l conn rsp user).0
unfolding on_create_character_rsp
on_create_character_rsp-Continues l conn rsp none = tt
on_create_character_rsp-Continues l conn rsp (some u) = elim (Bool-cases (is_zero rsp.code)) [
  | inl good ↦ rw good (stays, λ w. w)
  | inr bad ↦ rw bad (stays, λ w. w)
]

pub on_user_login_rsp-Follows :
    (conn : ℕ) (rsp : LoginRsp) (u : GatewayUser)
    → u.client_state ≡ entering
    → Follows u (on_user_login_rsp conn rsp (some u)).0
unfolding on_user_login_rsp
on_user_login_rsp-Follows conn rsp u h = elim (Bool-cases (is_zero rsp.code)) [
  | inl good ↦ rw good (from h arrives, λ w _. w (rw h refl))
  | inr bad ↦ rw bad ((from h bounced, λ _ playing. cc))
]

pub sweep_auth-Follows :
    (l : Links) (conn : ℕ) (u : GatewayUser) → Follows u (sweep_auth l conn u).0
unfolding sweep_auth
sweep_auth-Follows l conn u = elim (Bool-cases (is_auth_late l.now_ms u)) [
  | inl late ↦ rw late tt
  | inr early ↦ rw early (stays, λ w. w)
]

is_entering_late-entering :
    (now : ℕ) (u : GatewayUser) → is_entering_late now u ≡ true → u.client_state ≡ entering
unfolding is_entering_late
is_entering_late-entering now u h = state_is entering u.client_state (ground (arith, h))

pub sweep_entering-Follows :
    (l : Links) (conn : ℕ) (u : GatewayUser) → Follows u (sweep_entering l conn u).0
unfolding sweep_entering reset_to_account clear_in_world
sweep_entering-Follows l conn u = elim (Bool-cases (is_entering_late l.now_ms u)) [
  | inl late ↦ rw late ((from (is_entering_late-entering l.now_ms u late) bounced, λ _ playing. cc))
  | inr early ↦ rw early (stays, λ w. w)
]

pub sweep_silent-Follows :
    (l : Links) (conn : ℕ) (u : GatewayUser) → Follows u (sweep_silent l conn u).0
unfolding sweep_silent
sweep_silent-Follows l conn u = elim (Bool-cases (is_silent l.now_ms u)) [
  | inl late ↦ rw late tt
  | inr early ↦ rw early (stays, λ w. w)
]
