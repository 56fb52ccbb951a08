-- ===== src/Batch/Scheduler.antt =====
-- What task_scheduler of class TaskMgr in src/master/taskmgr.py decides of one task, and which of its
-- vnodes get which worker.
pub mod Assign
pub mod Room
use docklet.Common.{
  ℕ, zero, suc, ◌≡◌, Bool, true, false, not, ◌&&◌, ◌||◌, Option, none, some, List, [], ◌∷◌,
  if◌then◌else◌, String, str_eq, contains, length,
}
use docklet.Batch.Task.{SubTask, Task, is_waiting}
use docklet.Batch.Placement.{NodeInfo, Usage, has_waiting, find_proper_workers}

-- pass: go on with the next task; defer: go on, but tasks for the same kind of gpu wait; block:
-- `return None, None`; crash: `len(None)` raises TypeError, where no worker runs; start: the subtasks
-- with their workers, and the indices of those to start.
pub data Decision : Type 0 where
  pass defer block crash : Decision
  start : List SubTask → List ℕ → Decision

-- `sub_task.worker = worker`
unfoldable pub set_worker : SubTask → String → SubTask
set_worker s worker = record s { worker = some worker }

-- `task.subtask_list[i].worker = workers[i]`, for every i below len(workers)
unfoldable pub assign : List SubTask → List String → List SubTask
unfolding set_worker
assign [] workers = []
assign (s ∷ subs) [] = s ∷ subs
assign (s ∷ subs) (worker ∷ workers) = set_worker s worker ∷ assign subs workers

-- The indices i, i + 1, … of a list
unfoldable pub indices {ℓ} : {A : Type ℓ} → ℕ → List A → List ℕ
indices i [] = []
indices i (x ∷ l) = i ∷ indices (suc i) l

-- What follows where no worker is proper
unfoldable pub unplaced : Task → Decision
unplaced t = if not (str_eq t.gpu_preference "null") then defer else block

-- The branch of parallel tasks
unfoldable pub schedule_parallel : Task → Usage → List (String × NodeInfo) → List String → Decision
unfolding find_proper_workers has_waiting assign unplaced contains indices
schedule_parallel t u nodes gpu_has_pending_task =
    if not (has_waiting t.subtask_list) || contains str_eq t.gpu_preference gpu_has_pending_task
    then pass
    else elim (find_proper_workers t.subtask_list false u nodes) [
      | none ↦ crash
      | some [] ↦ unplaced t
      | some (worker ∷ workers) ↦
          start (assign t.subtask_list (worker ∷ workers)) (indices 0 t.subtask_list)
    ]

-- The loop over the subtasks of a traditional task, from the index i on: the subtasks with the worker
-- that one of them gets and its index, or none where the loop ends, or a crash.
pub data Found : Type 0 where
  nothing crash : Found
  placed : List SubTask → ℕ → Found

abbrev pub behind : SubTask → Found → Found
behind s nothing = nothing
behind s crash = crash
behind s (placed subs i) = placed (s ∷ subs) i

unfoldable pub place_one : ℕ → List SubTask → Usage → List (String × NodeInfo) → List String → Found
unfolding find_proper_workers set_worker contains
place_one i [] u nodes gpu_has_pending_task = nothing
place_one i (s ∷ subs) u nodes gpu_has_pending_task =
    let rest = behind s (place_one (suc i) subs u nodes gpu_has_pending_task) in
    if not (is_waiting s.status) || contains str_eq s.gpu_preference gpu_has_pending_task
    then rest
    else elim (find_proper_workers (s ∷ []) false u nodes) [
      | none ↦ crash
      | some [] ↦ rest
      | some (worker ∷ workers) ↦ placed (set_worker s worker ∷ subs) i
    ]

-- What follows the loop
unfoldable pub after_loop : Task → Found → Decision
unfolding has_waiting unplaced
after_loop t nothing = if has_waiting t.subtask_list then unplaced t else pass
after_loop t crash = crash
after_loop t (placed subs i) = start subs (i ∷ [])

-- The branch of traditional tasks
unfoldable pub schedule_traditional :
    Task → Usage → List (String × NodeInfo) → List String → Decision
unfolding place_one after_loop
schedule_traditional t u nodes gpu_has_pending_task =
    after_loop t (place_one 0 t.subtask_list u nodes gpu_has_pending_task)

-- What the loop of task_scheduler does with a task that is not completed
unfoldable pub schedule_task : Task → Usage → List (String × NodeInfo) → List String → Decision
unfolding schedule_parallel schedule_traditional
schedule_task t u nodes gpu_has_pending_task =
    if t.at_same_time
    then schedule_parallel t u nodes gpu_has_pending_task
    else schedule_traditional t u nodes gpu_has_pending_task
