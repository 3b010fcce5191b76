-- ===== src/Gateway/Flow.antt =====
-- The states of a client's login on the gateway, and that each handler of GatewayServer/GatewayServer.cpp
-- takes a session along them.
use rpg_server.Base.{
  ℕ, ◌%◌, ◌≡◌, refl, sym, subst, ◌≢◌, inl, inr, Bool, true, not, ◌&&◌, ◌||◌, Option, none, some,
  arith, ◌==◌, Bool-cases, nat_eq,
}
use rpg_server.Gateway.User.{
  ClientState, connected, authing, account_ok, entering, in_world, GatewayUser, is_state, owns_role,
  clear_in_world, reset_to_account,
}
use rpg_server.Gateway.Messages.{
  Links, AuthReq, CreateReq, SelectReq, Action, return_char_select, return_login, other_action,
}
use rpg_server.Gateway.Login.{start_auth, enter_with, select_role, create_role, log_out}

-- The state machine of a login.
pub data Allowed : ClientState → ClientState → Type 0 where
  stays : {s : ClientState} → Allowed s s
  begins : Allowed connected authing
  fails : Allowed authing connected
  accepted : Allowed authing account_ok
  chooses : Allowed account_ok entering
  arrives : Allowed entering in_world
  bounced : Allowed entering account_ok
  leaves : Allowed in_world account_ok

abbrev pub is_playing : ClientState → Bool
is_playing s = is_state entering s || is_state in_world s

-- Who is in the world, or on the way there, has an account and a role.
abbrev pub IsIdentified : GatewayUser → Type 0
IsIdentified u = is_playing u.client_state ≡ true → (u.accid ≢ 0) × (u.user_id ≢ 0)

-- What may become of a session.
abbrev pub Follows : GatewayUser → Option GatewayUser → Type 0
Follows u none = Unit {0}
Follows u (some v) = Allowed u.client_state v.client_state × (IsIdentified u → IsIdentified v)

pub state_is : (s t : ClientState) → is_state s t ≡ true → t ≡ s
state_is connected connected h = refl
state_is authing authing h = refl
state_is account_ok account_ok h = refl
state_is entering entering h = refl
state_is in_world in_world h = refl
state_is s t h = cc

pub from : {r s t : ClientState} → r ≡ s → Allowed s t → Allowed r t
from {t = t} e step = subst (λ s. Allowed s t) (sym e) step

leaves_play : (s : ClientState) → is_playing s ≡ true → Allowed s account_ok
leaves_play entering h = bounced
leaves_play in_world h = leaves
leaves_play s h = cc

pub start_auth-Follows :
    (l : Links) (conn : ℕ) (req : AuthReq) (u : GatewayUser)
    → u.client_state ≡ connected
    → Follows u (start_auth l conn req u).0
unfolding start_auth
start_auth-Follows l conn req u h =
    elim (Bool-cases (not (req.zone_id == l.zone_id) || not (req.game_type % 256 == l.game_type))) [
      | inl wrong ↦ rw wrong (stays, λ w. w)
      | inr right ↦ elim (Bool-cases l.record_takes) [
        | inl taken ↦ rw (right, taken) ((from h begins, λ _ playing. cc))
        | inr refused ↦ rw (right, refused) ((from h stays, λ _ playing. cc))
      ]
    ]

enter_with-Follows :
    (l : Links) (conn fresh : ℕ) (req : SelectReq) (u : GatewayUser)
    → u.client_state ≡ account_ok
    → u.accid ≢ 0
    → req.user_id ≢ 0
    → Follows u (enter_with l conn fresh req u).0
unfolding enter_with
enter_with-Follows l conn fresh req u h account role = elim (Bool-cases l.super_takes) [
  | inl taken ↦ rw taken (from h chooses, λ _ _. (account, role))
  | inr refused ↦ rw refused ((from h stays, λ _ playing. cc))
]

pub select_role-Follows :
    (l : Links) (conn fresh : ℕ) (req : SelectReq) (u : GatewayUser)
    → u.client_state ≡ account_ok
    → req.user_id ≢ 0
    → Follows u (select_role l conn fresh req u).0
unfolding select_role
select_role-Follows l conn fresh req u h role =
    let owns = owns_role u req.user_id in
    elim (Bool-cases (u.accid == 0)) [
      | inl nobody ↦ rw nobody (stays, λ w. w)
      | inr account ↦ elim (Bool-cases (not u.role_list_ready && not owns)) [
        | inl unready ↦ rw (account, unready) (stays, λ w. w)
        | inr listed ↦ elim (Bool-cases owns) [
          | inr stranger ↦ rw (account, listed, stranger) (stays, λ w. w)
          | inl owner ↦
              rw (account, listed, owner)
                (enter_with-Follows l conn fresh req u h (ground (arith, account)) role)
        ]
      ]
    ]

pub create_role-Follows :
    (l : Links) (conn : ℕ) (req : CreateReq) (u : GatewayUser)
    → Follows u (create_role l conn req u).0
unfolding create_role
create_role-Follows l conn req u = elim (Bool-cases (u.accid == 0)) [
  | inl nobody ↦ rw nobody (stays, λ w. w)
  | inr account ↦ elim (Bool-cases (is_state account_ok u.client_state)) [
    | inr elsewhere ↦ rw (account, elsewhere) (stays, λ w. w)
    | inl here ↦ elim (Bool-cases l.record_takes) [
      | inl taken ↦ rw (account, here, taken) (stays, λ w. w)
      | inr refused ↦ rw (account, here, refused) (stays, λ w. w)
    ]
  ]
]

pub log_out-Follows :
    (l : Links) (conn : ℕ) (action : Action) (u : GatewayUser)
    → is_playing u.client_state ≡ true
    → Follows u (log_out l conn action u).0
unfolding log_out reset_to_account clear_in_world
log_out-Follows l conn (other_action n) u h = (stays, λ w. w)
log_out-Follows l conn return_login u h = (leaves_play u.client_state h, λ _ playing. cc)
log_out-Follows l conn return_char_select u h = (leaves_play u.client_state h, λ _ playing. cc)

-- What may become of a session that may not be there: a new one begins at its start.
abbrev pub Continues : Option GatewayUser → Option GatewayUser → Type 0
Continues none none = Unit {0}
Continues none (some v) = v.client_state ≡ connected
Continues (some u) v = Follows u v
