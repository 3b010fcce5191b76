-- ===== src/Scenes/Players.antt =====
-- The players of a scene, SceneServer/Scene.cpp: never twice, never more than the scene takes.
use rpg_server.Base.{
  ℕ, ◌≤◌, ◌<◌, ◌≡◌, refl, inl, inr, Bool, true, false, not, ◌&&◌, ◌||◌, List, [], ◌∷◌, ◌++◌, arith,
  ltb, leb, ◌==◌, if◌then◌else◌, Bool-cases, nat_eq, contains, length, length-append,
}
use rpg_server.Scenes.Scene.{
  Scene, closed, erase_first, has_player, add_player, remove_player, start, shutdown, is_ending,
}

abbrev pub NoRepeat : List ℕ → Type 0
NoRepeat [] = Unit {0}
NoRepeat (x ∷ xs) = (contains x xs ≡ false) × NoRepeat xs

pub record IsSeated (s : Scene) : Type 0 where
  pub once : NoRepeat s.players
  pub bounded : length s.players ≤ s.max_player

contains-append : (x y : ℕ) (xs : List ℕ) → contains x (xs ++ y ∷ []) ≡ contains x xs || y == x
unfolding contains
contains-append x y [] = ground arith
contains-append x y (z ∷ xs) = ground (arith, contains-append x y xs)

append-NoRepeat :
    (x : ℕ) (xs : List ℕ) → NoRepeat xs → contains x xs ≡ false → NoRepeat (xs ++ x ∷ [])
unfolding contains
append-NoRepeat x [] n h = (refl, tt)
append-NoRepeat x (y ∷ xs) n h =
    (ground (arith, contains-append y x xs), append-NoRepeat x xs n.1 (ground arith))

contains-erase_first :
    (x y : ℕ) (xs : List ℕ)
    → NoRepeat xs
    → contains y (erase_first x xs) ≡ (if x == y then false else contains y xs)
unfolding contains erase_first
contains-erase_first x y [] n = ground arith
contains-erase_first x y (z ∷ xs) n = ground (arith, contains-erase_first x y xs n.1)

erase_first-NoRepeat : (x : ℕ) (xs : List ℕ) → NoRepeat xs → NoRepeat (erase_first x xs)
unfolding erase_first
erase_first-NoRepeat x [] n = tt
erase_first-NoRepeat x (y ∷ xs) n = elim (Bool-cases (y == x)) [
  | inl here ↦ rw here n.1
  | inr on ↦ rw on (ground (arith, contains-erase_first x y xs n.1), erase_first-NoRepeat x xs n.1)
]

length-erase_first : (x : ℕ) (xs : List ℕ) → length (erase_first x xs) ≤ length xs
unfolding erase_first
length-erase_first x [] = omega arith
length-erase_first x (y ∷ xs) = ground (arith, length-erase_first x xs)

-- The calls on a scene; `starts` with whether the map loads.
pub data Call : Type 0 where
  adds removes : ℕ → Call
  starts : Bool → Call
  shuts : Call

abbrev pub serve : Scene → Call → Scene
serve s (adds user_id) = (add_player s user_id).1
serve s (removes user_id) = (remove_player s user_id).1
serve s (starts loads) = (start s loads).1
serve s shuts = (shutdown s).0

add_player-IsSeated : (s : Scene) (user_id : ℕ) → IsSeated s → IsSeated (add_player s user_id).1
unfolding add_player
add_player-IsSeated s user_id w = elim (Bool-cases (has_player s user_id)) [
  | inl there ↦ rw there w
  | inr new ↦ elim (Bool-cases (leb s.max_player (length s.players))) [
    | inl full ↦ rw (new, full) w
    | inr room ↦
        rw (new, room)
          (record {
            once = append-NoRepeat user_id s.players w.once new;
            bounded = ground (arith, length-append s.players (user_id ∷ []));
          })
  ]
]

remove_player-IsSeated :
    (s : Scene) (user_id : ℕ) → IsSeated s → IsSeated (remove_player s user_id).1
unfolding remove_player
remove_player-IsSeated s user_id w = elim (Bool-cases (contains user_id s.players)) [
  | inr gone ↦ rw gone w
  | inl there ↦ rw there (record {
    once = erase_first-NoRepeat user_id s.players w.once;
    bounded = omega (arith, length-erase_first user_id s.players, w.bounded);
  })
]

start-IsSeated : (s : Scene) (loads : Bool) → IsSeated s → IsSeated (start s loads).1
unfolding start
start-IsSeated s loads w = ground arith

shutdown-IsSeated : (s : Scene) → IsSeated s → IsSeated (shutdown s).0
unfolding shutdown
shutdown-IsSeated s w = elim (Bool-cases (is_ending s.state)) [
  | inl e ↦ rw e w
  | inr e ↦ rw e (record { once = tt; bounded = omega arith })
]

-- Every call keeps the players without repetition and at most `max_player`.
serve-IsSeated : (s : Scene) (call : Call) → IsSeated s → IsSeated (serve s call)
serve-IsSeated s (adds user_id) w = add_player-IsSeated s user_id w
serve-IsSeated s (removes user_id) w = remove_player-IsSeated s user_id w
serve-IsSeated s (starts loads) w = start-IsSeated s loads w
serve-IsSeated s shuts w = shutdown-IsSeated s w

-- addPlayer answers true exactly for a player who is not there while there is room; then that player
-- is there and nobody else has come or gone.
add_player_lem :
    (s : Scene) (user_id other : ℕ)
    → ((add_player s user_id).0 ≡ not (has_player s user_id) && ltb (length s.players) s.max_player)
      × (has_player (add_player s user_id).1 other
          ≡ has_player s other || ((add_player s user_id).0 && user_id == other))
unfolding add_player
add_player_lem s user_id other =
    (ground arith, ground (arith, contains-append other user_id s.players))

-- In a scene whose players are without repetition, removePlayer answers whether the player was
-- there, who then is gone; all others stay.
remove_player_lem :
    (s : Scene) (user_id other : ℕ)
    → IsSeated s
    → ((remove_player s user_id).0 ≡ has_player s user_id)
      × (has_player (remove_player s user_id).1 other
          ≡ (if user_id == other then false else has_player s other))
unfolding remove_player has_player
remove_player_lem s user_id other w =
    (ground arith, ground (arith, contains-erase_first user_id other s.players w.once))

-- addPlayer does not look at the scene's state: a scene that has been shut down, with room for one,
-- takes a new player.
add_player_closed :
    (s : Scene) (user_id : ℕ)
    → is_ending s.state ≡ false
    → 0 < s.max_player
    → ((add_player (shutdown s).0 user_id).0 ≡ true)
      × ((add_player (shutdown s).0 user_id).1.state ≡ closed)
unfolding add_player shutdown has_player contains
add_player_closed s user_id e h = ground (arith, e)
