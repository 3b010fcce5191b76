-- ===== src/Roles.antt =====
-- The managers of a player's state beside the bags: ItemManager, BuffManager, TaskManager and
-- SpellManager of SceneServer. Each is a table with a dirty flag; times are uint64_t milliseconds.
pub mod Items
pub mod Buffs
pub mod Tasks
pub mod Spells
mod Tests
