-- ===== src/Registry/Tests.antt =====
-- Two gateways of a zone, for LoginServer/LoginGatewayRegistry.cpp.
use rpg_server.Base.{ℕ, ◌≤◌, ◌≡◌, refl, true, some, [], ◌∷◌, nat_eq, find, insert}
use rpg_server.Registry.{
  GatewayEntry, Registry, pick_by_zone, serves, zone_ids, best_of, tied_of, take_turn,
}
use rpg_server.Registry.Choice.{pick_by_zone_least}

abbrev gateway : ℕ → ℕ → GatewayEntry
gateway id online = record {
  gateway_server_id = id;
  zone_id = 1;
  game_type = 0;
  last_heartbeat_ms = 1000;
  online_count = online;
  address = [];
}

abbrev three : Registry
three = record {
  entries = (5, gateway 5 30) ∷ (6, gateway 6 10) ∷ (7, gateway 7 10) ∷ [];
  order = 5 ∷ 6 ∷ 7 ∷ [];
  zone_rr_index = [];
  rr_index = 0;
}

picked_six : (pick_by_zone 1 0 three).0 ≡ some (gateway 6 10)
unfolding pick_by_zone zone_ids best_of tied_of take_turn find insert
picked_six = refl

then_seven : (pick_by_zone 1 0 (pick_by_zone 1 0 three).1).0 ≡ some (gateway 7 10)
unfolding pick_by_zone zone_ids best_of tied_of take_turn find insert
then_seven = refl

pick_by_zone_least_example :
    (serves 1 0 (gateway 6 10) ≡ true)
    × ((id : ℕ)
        → (o : GatewayEntry) → find id three.entries ≡ some o
        → serves 1 0 o ≡ true
        → 10 ≤ o.online_count)
unfolding find
pick_by_zone_least_example =
    pick_by_zone_least 1 0 three (gateway 6 10) (refl, (refl, (refl, tt))) picked_six
