-- ===== src/Roles/Tasks.antt =====
-- SceneServer/TaskManager.{h,cpp}: the tasks that a player has taken.
use rpg_server.Base.{
  ℕ, ◌≡◌, inl, inr, Bool, true, false, not, ◌&&◌, none, some, [], arith, ◌==◌, if◌then◌else◌,
  Option-cases, nat_eq, Table, find, insert, erase, find-insert, find-erase,
}

pub record TaskState : Type 0 where
  pub status : ℕ
  pub progress : ℕ

pub record TaskManager : Type 0 where
  pub task_map : Table ℕ TaskState
  pub dirty : Bool

unfoldable pub init : TaskManager → TaskManager
init m = record { task_map = []; dirty = false }

unfoldable pub save : TaskManager → TaskManager
save m = record m { dirty = false }

unfoldable pub add : TaskManager → ℕ → ℕ → Bool × TaskManager
add m task_id init_progress = if task_id == 0 then (false, m) else (
  true,
  record {
    task_map = insert task_id (record { status = 0; progress = init_progress }) m.task_map;
    dirty = true;
  },
)

unfoldable pub remove : TaskManager → ℕ → Bool × TaskManager
remove m task_id = elim (find task_id m.task_map) [
  | none ↦ (false, m)
  | some _ ↦ (true, record { task_map = erase task_id m.task_map; dirty = true })
]

-- Taking a task again starts it over: its status goes back to 0, whatever it was, and its progress to
-- the one given; all other tasks stay. Task 0 is refused and changes nothing.
pub add_restarts :
    (m : TaskManager) (task_id init_progress id : ℕ)
    → find id (add m task_id init_progress).1.task_map ≡ (
        if not (task_id == 0) && task_id == id
        then some (record { status = 0; progress = init_progress })
        else find id m.task_map)
unfolding add
add_restarts m task_id init_progress id =
    ground
      (arith, find-insert task_id id (record { status = 0; progress = init_progress }) m.task_map)

-- A removed task is gone, all others stay, and the answer tells whether it was there.
pub remove_task_lem :
    (m : TaskManager) (task_id id : ℕ)
    → (find id (remove m task_id).1.task_map ≡ (if task_id == id then none else find id m.task_map))
      × ((remove m task_id).0 ≡ false → find task_id m.task_map ≡ none)
unfolding remove
remove_task_lem m task_id id = elim (Option-cases (find task_id m.task_map)) [
  | inl e ↦ (ground (arith, e), λ h. e)
  | inr (s, e) ↦ (ground (arith, e, find-erase task_id id m.task_map), ground (arith, e))
]
