-- ===== src/Session/Choice.antt =====
-- The choice of a server by SessionServer/SessionSceneManager.cpp: one with the least load.
use rpg_server.Base.{
  ℕ, ◌≤◌, ◌≡◌, refl, sym, ap, subst, ◌∙◌, ◌⊎◌, inl, inr, true, false, Option, none, some, [], ◌∷◌,
  arith, ltb, ◌==◌, ==_iff, Bool-cases, Option-cases, nat_eq, Table, find, Every, map-Every,
}
use rpg_server.Scenes.Scene.{SceneState, creating, running, closing, closed, is_running}
use rpg_server.Session.{
  SessionScene, ServerNode, SessionSceneManager, least_from, next_best, scene_offer,
  resolve_scene_server_by_map_id, server_offer, pick_scene_server_id,
}

-- Some entry of a table has a property.
abbrev pub Some {ℓ} : {V : Type ℓ} → (ℕ → V → Type 0) → Table ℕ V → Type 0
Some P [] = ⊥
Some P ((k, v) ∷ m) = P k v ⊎ Some P m

-- An offer is no better than a weight.
abbrev pub IsAtLeast : ℕ → Option (ℕ × ℕ) → Type 0
IsAtLeast w none = Unit {0}
IsAtLeast w (some (id, weight)) = w ≤ weight

next_best-below : (o : Option (ℕ × ℕ)) (best : ℕ × ℕ) → (next_best o best).1 ≤ best.1
next_best-below none best = omega arith
next_best-below (some (id, weight)) best = ground arith

next_best-IsAtLeast :
    (o : Option (ℕ × ℕ)) (best : ℕ × ℕ) (w : ℕ) → w ≤ (next_best o best).1 → IsAtLeast w o
next_best-IsAtLeast none best w h = tt
next_best-IsAtLeast (some (id, weight)) best w h = ground arith

next_best_cases :
    (o : Option (ℕ × ℕ)) (best : ℕ × ℕ) → (next_best o best ≡ best) ⊎ (o ≡ some (next_best o best))
next_best_cases none best = inl refl
next_best_cases (some (id, weight)) best = elim (Bool-cases (ltb weight best.1)) [
  | inl less ↦ rw less (inr refl)
  | inr more ↦ rw more (inl refl)
]

module _ {ℓ} {V : Type ℓ} (offer : V → Option (ℕ × ℕ)) where
  least_from-below : (best : ℕ × ℕ) (m : Table ℕ V) → (least_from offer best m).1 ≤ best.1
  unfolding least_from
  least_from-below best [] = omega arith
  least_from-below best ((k, v) ∷ m) =
      omega (arith, least_from-below (next_best (offer v) best) m, next_best-below (offer v) best)

  least_from-least :
      (best : ℕ × ℕ) (m : Table ℕ V)
      → Every (λ k v. IsAtLeast (least_from offer best m).1 (offer v)) m
  unfolding least_from
  least_from-least best [] = tt
  least_from-least best ((k, v) ∷ m) = (
    next_best-IsAtLeast (offer v) best _ (least_from-below (next_best (offer v) best) m),
    least_from-least (next_best (offer v) best) m,
  )

  least_from-offered :
      (best : ℕ × ℕ) (m : Table ℕ V)
      → (least_from offer best m ≡ best) ⊎ Some (λ k v. offer v ≡ some (least_from offer best m)) m
  unfolding least_from
  least_from-offered best [] = inl refl
  least_from-offered best ((k, v) ∷ m) = elim (least_from-offered (next_best (offer v) best) m) [
    | inr later ↦ inr (inr later)
    | inl same ↦ elim (next_best_cases (offer v) best) [
      | inl kept ↦ inl (same ∙ kept)
      | inr taken ↦ inr (inl (taken ∙ ap some (sym same)))
    ]
  ]

-- A server that a walk over a table gives: one that an entry offers with a weight that no entry
-- undercuts; or server 0, where no entry offers a weight below 2^32 - 1.
abbrev pub IsLeast {ℓ} : {V : Type ℓ} → (V → Option (ℕ × ℕ)) → Table ℕ V → ℕ → Type 0
IsLeast offer m id =
    ((id ≡ 0) × Every (λ k v. IsAtLeast 4294967295 (offer v)) m)
    ⊎ ((weight : ℕ) × Every (λ k v. IsAtLeast weight (offer v)) m
        × Some (λ k v. offer v ≡ some (id, weight)) m)

least_from-IsLeast {ℓ} :
    {V : Type ℓ} (offer : V → Option (ℕ × ℕ)) (m : Table ℕ V)
    → IsLeast offer m (least_from offer (0, 4294967295) m).0
least_from-IsLeast offer m = elim (least_from-offered offer (0, 4294967295) m) [
  | inl none_better ↦ inl (
    ap (λ (p : ℕ × ℕ). p.0) none_better,
    subst (λ (p : ℕ × ℕ). Every (λ k v. IsAtLeast p.1 (offer v)) m) none_better
        (least_from-least offer (0, 4294967295) m),
  )
  | inr offered ↦
      inr
        ((least_from offer (0, 4294967295) m).1, least_from-least offer (0, 4294967295) m, offered)
]

-- pickSceneServerId gives a server that is alive and connected and whose load, ten for each scene
-- and one for each player modulo 2^32, no other such server undercuts; or 0, where all their loads
-- are 2^32 - 1.
pick-IsLeast :
    (m : SessionSceneManager) → IsLeast server_offer m.scene_servers (pick_scene_server_id m)
unfolding pick_scene_server_id
pick-IsLeast m = least_from-IsLeast server_offer m.scene_servers

-- A scene of a map that a player can be sent to: it is running, on a server that is known and alive.
abbrev pub IsOpen : SessionSceneManager → ℕ → SessionScene → Type 0
IsOpen m map_id s =
    (s.map_id ≡ map_id)
    × (s.state ≡ running)
    × ((node : ServerNode) × (find s.scene_server_id m.scene_servers ≡ some node)
        × (node.alive ≡ true))

-- The server of an open scene of the map with the fewest players; or 0, where every open scene of the map
-- has 2^32 - 1 players or more.
abbrev pub IsEmptiest : SessionSceneManager → ℕ → ℕ → Type 0
IsEmptiest m map_id id =
    ((id ≡ 0)
      × Every (λ k s. (¬ IsOpen m map_id s) ⊎ (4294967295 ≤ s.player_count)) m.normal_scenes)
    ⊎ ((players : ℕ) × Every (λ k s. (¬ IsOpen m map_id s) ⊎ (players ≤ s.player_count))
          m.normal_scenes
        × Some (λ k s. IsOpen m map_id s × (s.scene_server_id ≡ id) × (s.player_count ≡ players))
            m.normal_scenes)

running_state : (s : SceneState) → is_running s ≡ true → s ≡ running
running_state creating h = cc h
running_state running h = refl
running_state closing h = cc h
running_state closed h = cc h

-- A scene is offered where it is open, with its server and its players.
offer_cases :
    (m : SessionSceneManager) (map_id : ℕ) (s : SessionScene)
    → ((scene_offer m map_id s ≡ none) × (¬ IsOpen m map_id s))
      ⊎ ((scene_offer m map_id s ≡ some (s.scene_server_id, s.player_count)) × IsOpen m map_id s)
unfolding scene_offer
offer_cases m map_id s = elim (Bool-cases (s.map_id == map_id)) [
  | inr away ↦ inl (rw away refl, λ o. ground (arith, away, o.0))
  | inl here ↦ elim (Bool-cases (is_running s.state)) [
    | inr stopped ↦ inl (
      rw (here, stopped) refl,
      λ o.
          let q : is_running running ≡ false = subst (λ x. is_running x ≡ false) o.1 stopped in
          cc q,
    )
    | inl runs ↦ elim (Option-cases (find s.scene_server_id m.scene_servers)) [
      | inl lost ↦ inl (
        rw (here, runs) (rw lost refl),
        λ o. let q : none ≡ some o.2.0 = sym lost ∙ o.2.1 in cc q,
      )
      | inr (node, known) ↦ elim (Bool-cases node.alive) [
        | inr dead ↦ inl (
          rw (here, runs) (rw known (rw dead refl)),
          λ o.
              let q : some node ≡ some o.2.0 = sym known ∙ o.2.1 in
              let r : node ≡ o.2.0 = cc q in
              let a : node.alive ≡ true = ap (λ (n : ServerNode). n.alive) r ∙ o.2.2 in
              ground (arith, dead, a),
        )
        | inl alive ↦ inr (
          rw (here, runs) (rw known (rw alive refl)),
          ((==_iff s.map_id map_id).0 here, running_state s.state runs, (node, known, alive)),
        )
      ]
    ]
  ]
]

offer-above :
    (m : SessionSceneManager) (map_id w : ℕ) (s : SessionScene)
    → IsAtLeast w (scene_offer m map_id s)
    → (¬ IsOpen m map_id s) ⊎ (w ≤ s.player_count)
offer-above m map_id w s h = elim (offer_cases m map_id s) [
  | inl shut ↦ inl shut.1
  | inr open_one ↦ inr (rw open_one.0 at h)
]

all_above :
    (m : SessionSceneManager) (map_id w : ℕ) (t : Table ℕ SessionScene)
    → Every (λ k s. IsAtLeast w (scene_offer m map_id s)) t
    → Every (λ k s. (¬ IsOpen m map_id s) ⊎ (w ≤ s.player_count)) t
all_above m map_id w t h =
    map-Every (λ k s. IsAtLeast w (scene_offer m map_id s))
      (λ k s. (¬ IsOpen m map_id s) ⊎ (w ≤ s.player_count)) t (λ k s. offer-above m map_id w s) h

some-IsOpen :
    (m : SessionSceneManager) (map_id id w : ℕ) (t : Table ℕ SessionScene)
    → Some (λ k s. scene_offer m map_id s ≡ some (id, w)) t
    → Some (λ k s. IsOpen m map_id s × (s.scene_server_id ≡ id) × (s.player_count ≡ w)) t
some-IsOpen m map_id id w [] h = h
some-IsOpen m map_id id w ((k, s) ∷ t) (inr later) = inr (some-IsOpen m map_id id w t later)
some-IsOpen m map_id id w ((k, s) ∷ t) (inl e) = elim (offer_cases m map_id s) [
  | inl shut ↦ let q : none ≡ some (id, w) = sym shut.0 ∙ e in cc q
  | inr open_one ↦
      let q : some (s.scene_server_id, s.player_count) ≡ some (id, w) = sym open_one.0 ∙ e in
      let r : ◌≡◌ {A = ℕ × ℕ} (s.scene_server_id, s.player_count) (id, w) = cc q in
      inl (open_one.1, ap (λ (x : ℕ × ℕ). x.0) r, ap (λ (x : ℕ × ℕ). x.1) r)
]

-- resolveSceneServerByMapId gives the server of a running scene of the map, on a server that is known
-- and alive, whose players no other such scene undercuts; or 0, where there is none with less than
-- 2^32 - 1 players.
pub resolve-IsEmptiest :
    (m : SessionSceneManager) (map_id : ℕ)
    → IsEmptiest m map_id (resolve_scene_server_by_map_id m map_id)
unfolding resolve_scene_server_by_map_id
resolve-IsEmptiest m map_id = elim (least_from-IsLeast (scene_offer m map_id) m.normal_scenes) [
  | inl (zero_id, above) ↦ inl (zero_id, all_above m map_id 4294967295 m.normal_scenes above)
  | inr (w, above, offered) ↦ inr (
    w,
    all_above m map_id w m.normal_scenes above,
    some-IsOpen m map_id _ w m.normal_scenes offered,
  )
]
