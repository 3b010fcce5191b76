-- ===== src/Bags/Tests.antt =====
-- A player with two bags, and calls on them.
use rpg_server.Base.{◌+◌, ◌≡◌, refl, false, [], ◌∷◌, arith, nat_eq, find}
use rpg_server.Bags.{
  is_valid_slot, merge_items, split_in_bag, add_to_bag, merge_in_bag, get_item_by_slot,
  find_bag_by_type, on_bag, equip, store, Bag, BagSlotItem, BagManager, add_item, merge_item,
  split_item,
}
use rpg_server.Bags.Invariant.{IsWell}
use rpg_server.Bags.Operations.{owned, AllWell, add_item_accounts}
use rpg_server.Bags.Moves.{merge_item_conserves, split_item_conserves}
use rpg_server.Bags.Histories.{splits, serve, serve-AllWell}

abbrev potions : BagSlotItem
potions = record { item_id = 7; count = 20 }

abbrev spare : BagSlotItem
spare = record { item_id = 7; count = 5 }

abbrev worn : Bag
worn = record { bag_type = equip; max_slot = 16; slot_items = [] }

abbrev stored : Bag
stored = record { bag_type = store; max_slot = 120; slot_items = (3, potions) ∷ (4, spare) ∷ [] }

abbrev player : BagManager
player = record { bag_list = worn ∷ stored ∷ []; dirty = false }

worn-IsWell : IsWell worn
worn-IsWell = record { distinct = tt; stacks = tt }

stored-IsWell : IsWell stored
unfolding find
stored-IsWell = record {
  distinct = (refl, (refl, tt));
  stacks = (
    (omega arith, omega arith, omega arith, omega arith),
    ((omega arith, omega arith, omega arith, omega arith), tt),
  );
}

player-AllWell : AllWell player
player-AllWell = (worn-IsWell, (stored-IsWell, tt))

serve-AllWell_example : AllWell (serve player (splits store 3 9 6)).1
serve-AllWell_example = serve-AllWell player (splits store 3 9 6) tt player-AllWell

add_item_accounts_example : owned 7 (add_item player store 3 7 10).1 ≡ owned 7 player + 10
unfolding add_item on_bag find_bag_by_type add_to_bag get_item_by_slot is_valid_slot find
add_item_accounts_example = add_item_accounts player store 3 7 10 7 refl

merge_item_conserves_example : owned 7 (merge_item player store 3 4).1 ≡ owned 7 player
unfolding merge_item on_bag find_bag_by_type merge_in_bag merge_items get_item_by_slot is_valid_slot
    find
merge_item_conserves_example =
    merge_item_conserves player store 3 4 7 stored potions spare player-AllWell refl refl refl
      (omega arith) refl

split_item_conserves_example : owned 7 (split_item player store 3 9 6).1 ≡ owned 7 player
unfolding split_item on_bag find_bag_by_type split_in_bag get_item_by_slot is_valid_slot find
split_item_conserves_example = split_item_conserves player store 3 9 6 7 player-AllWell refl

-- Two stacks of 3 * 2^30 each.
abbrev half : BagSlotItem
half = record { item_id = 7; count = 3221225472 }

abbrev hoard : Bag
hoard = record { bag_type = store; max_slot = 120; slot_items = (3, half) ∷ (4, half) ∷ [] }

abbrev rich : BagManager
rich = record { bag_list = hoard ∷ []; dirty = false }

rich-AllWell : AllWell rich
unfolding find
rich-AllWell = (
  record {
    distinct = (refl, (refl, tt));
    stacks = (
      (omega arith, omega arith, omega arith, omega arith),
      ((omega arith, omega arith, omega arith, omega arith), tt),
    );
  },
  tt,
)
