-- ===== src/Scenes/Index.antt =====
-- The two tables of SceneServer/SceneManager.cpp agree.
use rpg_server.Base.{
  ℕ, ◌≡◌, inl, inr, Bool, true, false, none, some, [], arith, ◌==◌, Bool-cases, Option-cases,
  nat_eq, find, insert, erase, find-insert, find-erase,
}
use rpg_server.Scenes.Scene.{Scene, start, is_normal}
use rpg_server.Scenes.Manager.{SceneManager, add_scene, remove_scene, start_and_add}

-- The map index names exactly the normal scenes of the table, each under its own map.
pub record IsIndexed (m : SceneManager) : Type 0 where
  pub sound :
      (map_id instance_id : ℕ)
      → find map_id m.map_id_to_instance ≡ some instance_id
      → (s : Scene) × (find instance_id m.scenes ≡ some s)
        × (is_normal s.kind ≡ true)
        × (s.map_id ≡ map_id)
  pub full :
      (instance_id : ℕ) (s : Scene)
      → find instance_id m.scenes ≡ some s
      → is_normal s.kind ≡ true
      → find s.map_id m.map_id_to_instance ≡ some instance_id

pub empty-IsIndexed : IsIndexed (record { scenes = []; map_id_to_instance = [] })
unfolding find
empty-IsIndexed = record { sound = λ a b h. cc; full = λ a s h. cc }

abbrev with_copy : SceneManager → Scene → SceneManager
with_copy m s = record m { scenes = insert s.scene_instance_id s m.scenes }

abbrev with_normal : SceneManager → Scene → SceneManager
with_normal m s = record {
  scenes = insert s.scene_instance_id s m.scenes;
  map_id_to_instance = insert s.map_id s.scene_instance_id m.map_id_to_instance;
}

with_copy-IsIndexed :
    (m : SceneManager) (s : Scene)
    → IsIndexed m
    → find s.scene_instance_id m.scenes ≡ none
    → is_normal s.kind ≡ false
    → IsIndexed (with_copy m s)
with_copy-IsIndexed m s w free kind = record {
  sound = λ map_id instance_id h.
      let (t, e, n, same) = w.sound map_id instance_id h in
      (t, ground (arith, find-insert s.scene_instance_id instance_id s m.scenes), n, same);
  full = λ instance_id t h n.
      w.full instance_id t (ground (arith, find-insert s.scene_instance_id instance_id s m.scenes))
        n;
}

with_normal-IsIndexed :
    (m : SceneManager) (s : Scene)
    → IsIndexed m
    → find s.scene_instance_id m.scenes ≡ none
    → find s.map_id m.map_id_to_instance ≡ none
    → is_normal s.kind ≡ true
    → IsIndexed (with_normal m s)
with_normal-IsIndexed m s w free unmapped kind = record {
  sound = λ map_id instance_id h. elim (Bool-cases (s.map_id == map_id)) [
    | inl same ↦ (
      s,
      ground (
        arith,
        find-insert s.map_id map_id s.scene_instance_id m.map_id_to_instance,
        find-insert s.scene_instance_id instance_id s m.scenes,
      ),
      kind,
      ground arith,
    )
    | inr other ↦
        let old : find map_id m.map_id_to_instance ≡ some instance_id =
          ground (arith, find-insert s.map_id map_id s.scene_instance_id m.map_id_to_instance) in
        let (t, e, n, q) = w.sound map_id instance_id old in
        (t, ground (arith, find-insert s.scene_instance_id instance_id s m.scenes), n, q)
  ];
  full = λ instance_id t h n. elim (Bool-cases (s.scene_instance_id == instance_id)) [
    | inl same ↦ ground (
      arith,
      find-insert s.scene_instance_id instance_id s m.scenes,
      find-insert s.map_id t.map_id s.scene_instance_id m.map_id_to_instance,
    )
    | inr other ↦
        let old : find instance_id m.scenes ≡ some t =
          ground (arith, find-insert s.scene_instance_id instance_id s m.scenes) in
        ground (
          arith,
          w.full instance_id t old n,
          find-insert s.map_id t.map_id s.scene_instance_id m.map_id_to_instance,
        )
  ];
}

pub add_scene-IsIndexed : (m : SceneManager) (s : Scene) → IsIndexed m → IsIndexed (add_scene m s).1
unfolding add_scene
add_scene-IsIndexed m s w = elim (Option-cases (find s.scene_instance_id m.scenes)) [
  | inr (t, e) ↦ rw e w
  | inl free ↦ elim (Bool-cases (is_normal s.kind)) [
    | inr kind ↦ rw (free, kind) (with_copy-IsIndexed m s w free kind)
    | inl kind ↦ elim (Option-cases (find s.map_id m.map_id_to_instance)) [
      | inr (i, e) ↦ rw (free, kind, e) w
      | inl unmapped ↦ rw (free, kind, unmapped) (with_normal-IsIndexed m s w free unmapped kind)
    ]
  ]
]

abbrev without_copy : SceneManager → ℕ → SceneManager
without_copy m instance_id = record m { scenes = erase instance_id m.scenes }

abbrev without_normal : SceneManager → ℕ → ℕ → SceneManager
without_normal m instance_id map_id = record {
  scenes = erase instance_id m.scenes;
  map_id_to_instance = erase map_id m.map_id_to_instance;
}

without_copy-IsIndexed :
    (m : SceneManager) (instance_id : ℕ) (s : Scene)
    → IsIndexed m
    → find instance_id m.scenes ≡ some s
    → is_normal s.kind ≡ false
    → IsIndexed (without_copy m instance_id)
without_copy-IsIndexed m instance_id s w found kind = record {
  sound = λ map_id i h.
      let (t, e, n, same) = w.sound map_id i h in
      (t, ground (arith, find-erase instance_id i m.scenes), n, same);
  full = λ i t h n. w.full i t (ground (arith, find-erase instance_id i m.scenes)) n;
}

without_normal-IsIndexed :
    (m : SceneManager) (instance_id : ℕ) (s : Scene)
    → IsIndexed m
    → find instance_id m.scenes ≡ some s
    → is_normal s.kind ≡ true
    → IsIndexed (without_normal m instance_id s.map_id)
without_normal-IsIndexed m instance_id s w found kind =
    let here : find s.map_id m.map_id_to_instance ≡ some instance_id =
      w.full instance_id s found kind in
    record {
      sound = λ map_id i h.
          let old : find map_id m.map_id_to_instance ≡ some i =
            ground (arith, find-erase s.map_id map_id m.map_id_to_instance) in
          let (t, e, n, same) = w.sound map_id i old in
          (
            t,
            ground (
              arith,
              find-erase instance_id i m.scenes,
              find-erase s.map_id map_id m.map_id_to_instance,
            ),
            n,
            same,
          );
      full = λ i t h n.
          let old : find i m.scenes ≡ some t = ground (arith, find-erase instance_id i m.scenes) in
          ground (
            arith,
            w.full i t old n,
            find-erase instance_id i m.scenes,
            find-erase s.map_id t.map_id m.map_id_to_instance,
          );
    }

pub remove_scene-IsIndexed :
    (m : SceneManager) (instance_id : ℕ) → IsIndexed m → IsIndexed (remove_scene m instance_id).1
unfolding remove_scene
remove_scene-IsIndexed m instance_id w = elim (Option-cases (find instance_id m.scenes)) [
  | inl e ↦ rw (e, remove_scene) w
  | inr (s, e) ↦ elim (Bool-cases (is_normal s.kind)) [
    | inl kind ↦ rw (e, kind, remove_scene) (without_normal-IsIndexed m instance_id s w e kind)
    | inr kind ↦ rw (e, kind, remove_scene) (without_copy-IsIndexed m instance_id s w e kind)
  ]
]

pub start_and_add-IsIndexed :
    (m : SceneManager) (s : Scene) (loads : Bool)
    → IsIndexed m
    → IsIndexed (start_and_add m s loads).1
unfolding start_and_add
start_and_add-IsIndexed m s loads w = elim (Bool-cases (start s loads).0) [
  | inl ok ↦ rw ok (add_scene-IsIndexed m (start s loads).1 w)
  | inr failed ↦ rw failed w
]
