-- ===== src/Batch/Intake.antt =====
-- What add_task of class TaskMgr in src/master/taskmgr.py makes of the text of a task, and whether the
-- running workers could ever hold it. The image, the mounts and the command are left out.
use docklet.Common.{
  ℕ, zero, suc, Bool, true, false, ◌||◌, Option, none, some, List, [], ◌∷◌, ltb, ◌==◌,
  if◌then◌else◌, String,
}
use docklet.Batch.Task.{Instance, SubTask, Task, new_subtask, new_task}
use docklet.Batch.Placement.{NodeInfo, Usage, find_proper_workers}

-- json_task, with its numbers read: `at_same_time` is whether it has the key atSameTime, `run_on_all`
-- whether `runon` is "all".
pub record TaskJson : Type 0 where
  pub vnode_count : ℕ
  pub instance : Instance
  pub retry_count : ℕ
  pub gpu_preference : String
  pub at_same_time : Bool
  pub run_on_all : Bool

-- gpuPreference counts only where gpus are asked for.
unfoldable pub preference : TaskJson → String
preference json = if ltb 0 json.instance.gpu then json.gpu_preference else "null"

-- `for vnode_index in range(vnodeCount)`: n subtasks from the index i on
unfoldable pub subtasks_from : TaskJson → ℕ → ℕ → List SubTask
unfolding preference new_subtask
subtasks_from json zero i = []
subtasks_from json (suc n) i =
    new_subtask json.instance (json.run_on_all || i == 0) json.retry_count (preference json)
    ∷ subtasks_from json n (suc i)

-- Task(...), where `none` is the IndexError of a task without vnodes
unfoldable pub make_task : String → String → TaskJson → ℕ → ℕ → ℕ → Option Task
unfolding subtasks_from new_task preference
make_task username taskid json priority size now = elim (subtasks_from json json.vnode_count 0) [
  | [] ↦ none
  | s ∷ subs ↦
      some
        (new_task taskid username json.at_same_time priority size (preference json) (s ∷ subs) now)
]

-- Whether a choice among all resources finds workers; `none` is the TypeError of `len(None)`.
unfoldable pub has_workers : List SubTask → Usage → List (String × NodeInfo) → Option Bool
unfolding find_proper_workers
has_workers subs u nodes = elim (find_proper_workers subs true u nodes) [
  | none ↦ none
  | some [] ↦ some false
  | some (worker ∷ workers) ↦ some true
]

-- The same for each subtask alone
unfoldable pub each_has_workers : List SubTask → Usage → List (String × NodeInfo) → Option Bool
unfolding has_workers
each_has_workers [] u nodes = some true
each_has_workers (s ∷ subs) u nodes = elim (has_workers (s ∷ []) u nodes) [
  | none ↦ none
  | some false ↦ some false
  | some true ↦ each_has_workers subs u nodes
]

unfoldable pub is_feasible : Task → Usage → List (String × NodeInfo) → Option Bool
unfolding has_workers each_has_workers
is_feasible t u nodes =
    if t.at_same_time
    then has_workers t.subtask_list u nodes
    else each_has_workers t.subtask_list u nodes
