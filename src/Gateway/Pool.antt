-- ===== src/Gateway/Pool.antt =====
-- GatewayServer/GatewayScenePool.cpp: a gateway's connections to the Scene servers. A client is what can be
-- asked of its TcpClient; whether a connection can be made is an argument.
use rpg_server.Base.{
  ℕ, ◌≡◌, refl, subst, inl, inr, Bool, true, false, ◌&&◌, ◌||◌, Option, none, some, List, [], ◌∷◌,
  arith, ◌==◌, if◌then◌else◌, Bool-cases, nat_eq,
}

pub record SceneClient : Type 0 where
  pub scene_server_id : ℕ
  pub connected : Bool
  pub can_send : Bool

-- connectAll over the Scene servers of the list, each with whether `connect` takes it.
unfoldable pub connect_all : List (SceneClient × Bool) → List SceneClient
connect_all [] = []
connect_all ((link, takes) ∷ scenes) =
    let rest = connect_all scenes in if takes then link ∷ rest else rest

unfoldable pub client_for : ℕ → List SceneClient → Option SceneClient
client_for id [] = none
client_for id (c ∷ clients) =
    let rest = client_for id clients in
    if c.scene_server_id == id && c.connected then some c else rest

unfoldable pub first_connected : List SceneClient → Option SceneClient
first_connected [] = none
first_connected (c ∷ clients) =
    let rest = first_connected clients in if c.connected then some c else rest

unfoldable pub has_any_connected : List SceneClient → Bool
has_any_connected [] = false
has_any_connected (c ∷ clients) = c.connected || has_any_connected clients

unfoldable pub has_any_can_send : List SceneClient → Bool
has_any_can_send [] = false
has_any_can_send (c ∷ clients) = c.can_send || has_any_can_send clients

abbrev is_some {ℓ} : {A : Type ℓ} → Option A → Bool
is_some none = false
is_some (some a) = true

-- A client that is found has the number that was asked for, and is connected.
client_for_lem :
    (id : ℕ) (clients : List SceneClient) (c : SceneClient)
    → client_for id clients ≡ some c
    → (c.scene_server_id ≡ id) × (c.connected ≡ true)
unfolding client_for
client_for_lem id [] c e = cc e
client_for_lem id (x ∷ clients) c e = elim (Bool-cases (x.scene_server_id == id && x.connected)) [
  | inl hit ↦
      let q : some x ≡ some c = rw hit at e in
      let r : x ≡ c = cc q in
      let at_x : (x.scene_server_id ≡ id) × (x.connected ≡ true) = ground (arith, hit) in
      subst (λ (y : SceneClient). (y.scene_server_id ≡ id) × (y.connected ≡ true)) r at_x
  | inr miss ↦ client_for_lem id clients c (rw miss at e)
]

-- There is a connected client exactly where a first one is found.
has_any_connected_lem :
    (clients : List SceneClient) → has_any_connected clients ≡ is_some (first_connected clients)
unfolding has_any_connected first_connected
has_any_connected_lem [] = refl
has_any_connected_lem (c ∷ clients) = elim (Bool-cases c.connected) [
  | inl up ↦ rw up refl
  | inr down ↦ rw down (has_any_connected_lem clients)
]

-- A gateway that finds a client for any number has a connected client.
client_for-has_any_connected :
    (id : ℕ) (clients : List SceneClient)
    → is_some (client_for id clients) ≡ true
    → has_any_connected clients ≡ true
unfolding client_for has_any_connected
client_for-has_any_connected id [] h = h
client_for-has_any_connected id (c ∷ clients) h =
    elim (Bool-cases (c.scene_server_id == id && c.connected)) [
      | inl hit ↦ ground (arith, hit)
      | inr miss ↦
          let rest = client_for-has_any_connected id clients (rw miss at h) in
          elim (Bool-cases c.connected) [ inl up ↦ rw up refl | inr down ↦ rw down rest ]
    ]
