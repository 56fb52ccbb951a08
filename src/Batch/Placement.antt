-- ===== src/Batch/Placement.antt =====
-- The choice of workers in class TaskMgr of src/master/taskmgr.py. What a worker offers is read anew
-- for each choice: `nodes` are the running workers with what their monitors say.
pub mod Capacity
pub mod FirstFit
use docklet.Common.{
  ℕ, ◌+◌, ◌-◌, Bool, true, false, not, ◌&&◌, ◌||◌, Option, none, some, List, [], ◌∷◌, ◌++◌, leb,
  ltb, if◌then◌else◌, String, str_eq,
}
use docklet.Batch.Task.{Instance, SubTask, is_waiting}

-- get_worker_resource_info(worker_ip), in whole MB
pub record NodeInfo : Type 0 where
  pub cpu : ℕ
  pub memory : ℕ
  pub disk : ℕ
  pub gpu : ℕ
  pub gpu_name : String

-- cpu_usage and gpu_usage: 0 where a worker has no entry, as get_cpu_usage and get_gpu_usage give.
pub record Usage : Type 0 where
  pub cpu_usage : Option String → ℕ
  pub gpu_usage : Option String → ℕ

-- The tests of the inner loop, all passed.
unfoldable pub is_proper : SubTask → Bool → Usage → String → NodeInfo → Bool
is_proper s all_res u ip info =
    let needs = s.instance_needs in
    not (
      ltb 0 needs.gpu
      && not (str_eq s.gpu_preference "null")
      && not (str_eq s.gpu_preference info.gpu_name))
    && leb (needs.cpu + (if all_res then 0 else u.cpu_usage (some ip))) info.cpu
    && leb needs.memory info.memory
    && leb needs.disk info.disk
    && leb (needs.gpu + (if all_res then 0 else u.gpu_usage (some ip))) info.gpu

-- `worker_info['cpu'] -= needs.cpu`, and so on
unfoldable pub take : Instance → NodeInfo → NodeInfo
take needs info = record info {
  cpu = info.cpu - needs.cpu;
  memory = info.memory - needs.memory;
  disk = info.disk - needs.disk;
  gpu = info.gpu - needs.gpu;
}

-- The inner loop: the first proper worker, and the nodes after it was chosen.
unfoldable pub choose :
    SubTask → Bool → Usage → List (String × NodeInfo) → Option (String × List (String × NodeInfo))
unfolding is_proper take
choose s all_res u [] = none
choose s all_res u ((ip, info) ∷ nodes) =
    let rest = choose s all_res u nodes in
    if is_proper s all_res u ip info
    then some (ip, (ip, take s.instance_needs info) ∷ nodes)
    else elim rest [ none ↦ none | some (worker, nodes') ↦ some (worker, (ip, info) ∷ nodes') ]

-- `sub_task.worker is not None and sub_task.vnode_started`
unfoldable pub keeps_worker : SubTask → Option String
keeps_worker s = if s.vnode_started then s.worker else none

-- The outer loop; `none` is its `return []`.
unfoldable pub choose_all :
    List SubTask → Bool → Usage → List (String × NodeInfo) → Option (List String)
unfolding choose keeps_worker
choose_all [] all_res u nodes = some []
choose_all (s ∷ subs) all_res u nodes = elim (keeps_worker s) [
  | some worker ↦ elim (choose_all subs all_res u nodes) [
    | none ↦ none
    | some workers ↦ some (worker ∷ workers)
  ]
  | none ↦ elim (choose s all_res u nodes) [
    | none ↦ none
    | some (worker, nodes') ↦ elim (choose_all subs all_res u nodes') [
      | none ↦ none
      | some workers ↦ some (worker ∷ workers)
    ]
  ]
]

-- has_waiting(sub_task_list)
unfoldable pub has_waiting : List SubTask → Bool
has_waiting [] = false
has_waiting (s ∷ subs) = is_waiting s.status || has_waiting subs

-- find_proper_workers(sub_task_list, all_res); `none` is Python's None
unfoldable pub find_proper_workers :
    List SubTask → Bool → Usage → List (String × NodeInfo) → Option (List String)
unfolding choose_all has_waiting
find_proper_workers subs all_res u [] = none
find_proper_workers subs all_res u (node ∷ nodes) =
    elim (choose_all subs all_res u (node ∷ nodes)) [
      | none ↦ some []
      | some workers ↦ if has_waiting subs then some workers else some []
    ]
