-- ===== src/Batch/Desk.antt =====
-- What class TaskMgr of src/master/taskmgr.py does with one task: start and stop its vnodes and
-- commands on the workers. The task and its subtasks are objects that these methods change; they are
-- handed in and back. The workers, the clock and the random tokens are a parameter.
pub mod Uses
pub mod Calls
pub mod Demand
pub mod Growth
pub mod Balance
pub mod Frame
pub mod Sound
use docklet.Common.{
  ◌≡◌, ℕ, zero, suc, ◌+◌, ◌-◌, Bool, true, false, not, ◌&&◌, ◌||◌, Option, none, some, List, [],
  ◌∷◌, ◌++◌, if◌then◌else◌, String, str_eq, get_elem?, modify,
}
use docklet.Batch.Task.{
  TaskStatus, SubTask, Task, Instance, is_waiting, is_running, is_failed, retry, waiting_for_retry,
  get_billing, gen_ips_from_base,
}
use docklet.Batch.TaskNets.{TaskNets, acquire_task_ips, release_task_ips}
use docklet.Batch.Placement.{NodeInfo, Usage}

-- The calls that a worker answers, for the vnode i of a task.
pub data Rpc : Type 0 where
  start_vnode_rpc stop_vnode_rpc start_task_rpc stop_task_rpc : String → ℕ → Option String → Rpc

-- An answer is `none` where it is ACCEPTED, and else the text of the exception. No worker is called
-- "None", the name that a vnode without a worker would be started on. `beans` is what get_billing charges
-- for a vnode by its needs and its running time, and `monitored` tells the workers for which
-- get_worker_resource_info raises no KeyError, which None is never one of.
pub record Cluster (W : Type 0) : Type 0 where
  pub rpc : Rpc → W → Option String × W
  pub time : W → ℕ × W
  pub token : W → String × W
  pub nodes : W → List (String × NodeInfo)
  pub beans : Instance → ℕ → ℕ
  pub monitored : String → W → Bool
  pub no_worker :
      (id : String) (i : ℕ) (w : W)
      → (e : String) × ((rpc (start_vnode_rpc id i none) w).0 ≡ some e)

pub data ReportStatus : Type 0 where
  running finished retrying failed stopped : ReportStatus

-- A call of jobmgr.report
pub record Report : Type 0 where
  pub user : String
  pub task_name : String
  pub status : ReportStatus
  pub reason : String
  pub tried_times : ℕ
  pub running_time : ℕ
  pub billing : ℕ

-- The calls of jobmgr.report so far stand in `sent`, in order.
pub record Desk (W : Type 0) : Type 0 where
  pub world : W
  pub usage : Usage
  pub nets : TaskNets
  pub sent : List Report

-- The defaults of `report`
abbrev pub report_of : Task → ReportStatus → String → ℕ → ℕ → ℕ → Report
report_of t status reason tried_times running_time billing = record {
  user = t.username;
  task_name = t.id;
  status = status;
  reason = reason;
  tried_times = tried_times;
  running_time = running_time;
  billing = billing;
}

abbrev pub same_worker : Option String → Option String → Bool
same_worker none none = true
same_worker none (some w) = false
same_worker (some v) none = false
same_worker (some v) (some w) = str_eq v w

-- `cpu_usage[worker] += n`, and `-= n`
unfoldable pub add_use : Option String → ℕ → (Option String → ℕ) → Option String → ℕ
add_use worker n u k = if same_worker worker k then u k + n else u k

unfoldable pub sub_use : Option String → ℕ → (Option String → ℕ) → Option String → ℕ
sub_use worker n u k = if same_worker worker k then u k - n else u k

unfoldable pub add_usage : SubTask → Usage → Usage
unfolding add_use
add_usage s u = record {
  cpu_usage = add_use s.worker s.instance_needs.cpu u.cpu_usage;
  gpu_usage = add_use s.worker s.instance_needs.gpu u.gpu_usage;
}

unfoldable pub sub_usage : SubTask → Usage → Usage
unfolding sub_use
sub_usage s u = record {
  cpu_usage = sub_use s.worker s.instance_needs.cpu u.cpu_usage;
  gpu_usage = sub_use s.worker s.instance_needs.gpu u.gpu_usage;
}

abbrev pub has_no_command : SubTask → Bool
has_no_command s = elim s.command_info [ none ↦ true | some token ↦ false ]

-- The test of check_task_completed over the subtasks.
unfoldable pub has_active : List SubTask → Bool
has_active [] = false
has_active (s ∷ l) =
    (not (has_no_command s) && (is_running s.status || is_waiting s.status)) || has_active l

unfoldable pub is_completed : Task → Bool
unfolding has_active
is_completed t = not ((is_running t.status || is_waiting t.status) && has_active t.subtask_list)

-- max_retry_count + 1 of the first subtask; every task has one
abbrev pub tries : List SubTask → ℕ
tries [] = 0
tries (s ∷ l) = s.max_retry_count + 1

module _ {W : Type 0} (cluster : Cluster W) where
  unfoldable pub send : Desk W → Report → Desk W
  send d r = record d { sent = d.sent ++ r ∷ [] }

  -- start_vnode(subtask), for the subtask i of the task `id`
  unfoldable pub start_vnode : String → ℕ → Desk W → SubTask → Bool × Desk W × SubTask
  start_vnode id i d s =
      let (answer, w) = cluster.rpc (start_vnode_rpc id i s.worker) d.world in
      let (now, w') = cluster.time w in
      elim answer [
        | some e ↦ (false, record d { world = w }, record s { status_reason = e })
        | none ↦ (
          true,
          record d { world = w'; usage = add_usage s d.usage },
          record s { vnode_started = true; start_at = now },
        )
      ]

  -- stop_vnode(subtask)
  unfoldable pub stop_vnode : String → ℕ → Desk W → SubTask → Bool × Desk W × SubTask
  stop_vnode id i d s =
      let (answer, w) = cluster.rpc (stop_vnode_rpc id i s.worker) d.world in
      let (now, w') = cluster.time w in
      if not s.vnode_started then (true, d, s) else elim answer [
        | some e ↦ (false, record d { world = w }, record s { status_reason = e })
        | none ↦ (
          true,
          record d { world = w'; usage = sub_usage s d.usage },
          record s {
            vnode_started = false;
            end_at = now;
            running_time = s.running_time + (now - s.start_at);
          },
        )
      ]

  -- start_subtask(subtask)
  unfoldable pub start_subtask : String → ℕ → Desk W → SubTask → Bool × Desk W × SubTask
  start_subtask id i d s =
      let (answer, w) = cluster.rpc (start_task_rpc id i s.worker) d.world in
      elim answer [
        | some e ↦ (false, record d { world = w }, record s { status_reason = e })
        | none ↦ (true, record d { world = w }, record s { task_started = true })
      ]

  -- stop_subtask(subtask)
  unfoldable pub stop_subtask : String → ℕ → Desk W → SubTask → Bool × Desk W × SubTask
  stop_subtask id i d s =
      let (answer, w) = cluster.rpc (stop_task_rpc id i s.worker) d.world in
      elim answer [
        | some e ↦ (
          false,
          record d { world = w },
          record s { status = TaskStatus.failed; status_reason = e },
        )
        | none ↦ (true, record d { world = w }, record s { task_started = false })
      ]

  -- `if sub_task.task_started: self.stop_subtask(sub_task)`
  unfoldable pub clear_command : String → ℕ → Desk W → SubTask → Desk W × SubTask
  unfolding stop_subtask
  clear_command id i d s =
      let (_, d', s') = stop_subtask id i d s in if s.task_started then (d', s') else (d, s)

  -- `if sub_task.vnode_started: self.stop_vnode(sub_task)`
  unfoldable pub clear_vnode : String → ℕ → Desk W → SubTask → Desk W × SubTask
  unfolding stop_vnode
  clear_vnode id i d s =
      let (_, d', s') = stop_vnode id i d s in if s.vnode_started then (d', s') else (d, s)

  -- clear_sub_task(sub_task)
  unfoldable pub clear_sub_task : String → ℕ → Desk W → SubTask → Desk W × SubTask
  unfolding clear_command clear_vnode
  clear_sub_task id i d s = let (d', s') = clear_command id i d s in clear_vnode id i d' s'

  -- clear_sub_tasks(sub_task_list), from the index i on
  unfoldable pub clear_sub_tasks : String → ℕ → Desk W → List SubTask → Desk W × List SubTask
  unfolding clear_sub_task
  clear_sub_tasks id i d [] = (d, [])
  clear_sub_tasks id i d (s ∷ l) =
      let (d', s') = clear_sub_task id i d s in
      let (d'', l') = clear_sub_tasks id (suc i) d' l in (d'', s' ∷ l')

  -- stop_remove_task(task)
  unfoldable pub stop_remove_task : Desk W → Task → Desk W × Task
  unfolding clear_sub_tasks
  stop_remove_task d t =
      let (d', l) = clear_sub_tasks t.id 0 d t.subtask_list in
      (
        record d' { nets = release_task_ips d'.nets t.task_base_ip },
        record t { subtask_list = l; task_base_ip = none },
      )

  -- The start of one vnode in task_processor; what comes first is whether it was not refused.
  unfoldable pub start_one : Desk W → Task → ℕ → SubTask → Bool × Desk W × Task
  unfolding start_vnode send
  start_one d t i s =
      let (success, d', s') = start_vnode t.id i d s in
      let t' = record t { subtask_list = modify i (λ _. s') t.subtask_list } in
      let t'' = retry t' i s' "Fail to start vnode." in
      let d'' =
        if is_waiting (waiting_for_retry s').status
        then send d' (report_of t retrying "Fail to start vnode." 1 0 0)
        else d' in
      if success then (true, d', t') else (
        false,
        d'',
        record t'' { subtask_list = modify i (λ x. record x { worker = none }) t''.subtask_list },
      )

  -- The first loop of task_processor, over the indices of its sub_task_list.
  unfoldable pub start_vnodes : Desk W → Task → List ℕ → Bool × Desk W × Task
  unfolding start_one
  start_vnodes d t [] = (true, d, t)
  start_vnodes d t (i ∷ is) = elim (get_elem? t.subtask_list i) [
    | none ↦ start_vnodes d t is
    | some s ↦
        let (success, d', t') = if s.vnode_started then (true, d, t) else start_one d t i s in
        let (all, d'', t'') = start_vnodes d' t' is in (success && all, d'', t'')
  ]

  -- The start of one command in task_processor.
  unfoldable pub command_one : Desk W → Task → ℕ → SubTask → Desk W × Task
  unfolding start_subtask send
  command_one d t i s =
      let (token, w) = cluster.token d.world in
      let s' = record s { command_info = some token } in
      let (success, d', s'') = start_subtask t.id i (record d { world = w }) s' in
      let t' = record t { subtask_list = modify i (λ _. s'') t.subtask_list } in
      let d'' =
        if is_waiting (waiting_for_retry s'').status
        then send d' (report_of t retrying "Fail to start task." 1 0 0)
        else d' in
      if success
      then (
        d',
        record t {
          subtask_list = modify i (λ _. record s'' { status = TaskStatus.running }) t.subtask_list;
        },
      )
      else (d'', retry t' i s'' "Fail to start task.")

  -- The second loop.
  unfoldable pub start_commands : Desk W → Task → List ℕ → Desk W × Task
  unfolding command_one
  start_commands d t [] = (d, t)
  start_commands d t (i ∷ is) = elim (get_elem? t.subtask_list i) [
    | none ↦ start_commands d t is
    | some s ↦
        let (d', t') =
          if has_no_command s || is_running s.status
          then (
            d,
            record t {
              subtask_list =
                  modify i (λ x. record x { status = TaskStatus.running }) t.subtask_list;
            },
          )
          else command_one d t i s in
        start_commands d' t' is
  ]

  -- task_processor(task, sub_task_list); false stands for the IndexError of an empty free_nets, after
  -- which the task is RUNNING without a net. The bridge, its gateway and the hosts file are left out.
  unfoldable pub task_processor : Desk W → Task → List ℕ → Bool × Desk W × Task
  unfolding start_vnodes start_commands send
  task_processor d t is =
      let t1 = record t { status = TaskStatus.running } in
      let d1 = send d (report_of t running "" 1 0 0) in
      elim (acquire_task_ips d1.nets t1.task_base_ip) [
        | none ↦ (false, d1, t1)
        | some (net, nets) ↦
            let t2 = gen_ips_from_base (record t1 { task_base_ip = some net }) nets.base_ip in
            let (all, d3, t3) = start_vnodes (record d1 { nets = nets }) t2 is in
            let (d4, t4) = start_commands d3 t3 is in if all then (true, d4, t4) else (true, d3, t3)
      ]

  -- task.get_billing() in the world as it is
  abbrev pub billing_of : Desk W → Task → Option (ℕ × ℕ)
  billing_of d t = get_billing cluster.beans (λ worker. cluster.monitored worker d.world) t

  -- check_task_completed(task), once the task is completed; false is the KeyError of get_billing, after
  -- which no report has been sent
  unfoldable pub complete : Desk W → Task → Bool × Desk W × Task
  unfolding stop_remove_task send
  complete d t =
      let (d', t') = stop_remove_task d t in
      elim (billing_of d' t') [
        | none ↦ (false, d', t')
        | some (running_time, billing) ↦ (
          true,
          send d' (
              if is_failed t'.status
              then report_of t' failed t'.failed_reason (tries t'.subtask_list) running_time billing
              else report_of t' finished "" 1 running_time billing),
          t',
        )
      ]
