-- ===== src/Roles/Tests.antt =====
-- A player's items, buffs, tasks and spells, with calls on them.
use rpg_server.Base.{◌≡◌, refl, false, some, [], ◌∷◌, arith, nat_eq, find}
use rpg_server.Roles.Items.{ItemManager}
use rpg_server.Roles.Buffs.{BuffState, BuffManager}
use rpg_server.Roles.Tasks.{TaskState, TaskManager, add_restarts}
use rpg_server.Roles.Tasks
use rpg_server.Roles.Spells.{SpellManager, IsLearnt}

abbrev items : ItemManager
items = record { item_map = (7, 20) ∷ []; dirty = false }

abbrev shield : BuffState
shield = record { expire_at_ms = 5000 }

abbrev blessing : BuffState
blessing = record { expire_at_ms = 0 }

abbrev buffs : BuffManager
buffs = record { buff_map = (1, shield) ∷ (2, blessing) ∷ []; dirty = false }

abbrev tasks : TaskManager
tasks = record { task_map = (9, record { status = 1; progress = 10 }) ∷ []; dirty = false }

add_restarts_example :
    find 9 (Tasks.add tasks 9 0).1.task_map ≡ some (record { status = 0; progress = 0 })
add_restarts_example = add_restarts tasks 9 0 9

abbrev spells : SpellManager
spells = record { spell_levels = (4, 2) ∷ []; dirty = false }

spells-IsLearnt : IsLearnt spells
unfolding find
spells-IsLearnt = record { distinct = (refl, tt); real = ((omega arith, omega arith), tt) }
