-- ===== src/Batch/TaskReport.antt =====
-- on_task_report of class TaskMgr in src/master/taskmgr.py: what a worker says of a command.
pub mod Sound
pub mod Demand
use docklet.Common.{
  ◌≡◌, ℕ, Bool, true, false, Option, none, some, List, [], ◌∷◌, if◌then◌else◌, String, str_eq,
  get_elem?, modify,
}
use docklet.Batch.Task.{TaskStatus, SubTask, Task, is_waiting, retry, waiting_for_retry}
use docklet.Batch.Desk.{Cluster, Desk, retrying, send, report_of, clear_sub_task}

-- message TaskMsg of src/protos/rpc.proto
pub record TaskMsg : Type 0 where
  pub taskid : String
  pub vnodeid : ℕ
  pub sub_task_status : TaskStatus
  pub token : String
  pub errmsg : String

-- What happens to a report: it is taken over, the token is wrong, or an exception is raised, where
-- there is no such vnode or it has no command.
pub data Receipt : Type 0 where
  taken wrong_token no_command no_vnode : Receipt

module _ {W : Type 0} (cluster : Cluster W) where
  -- The branch for FAILED and TIMEOUT, for the subtask s of index i
  unfoldable pub report_failed : Desk W → Task → ℕ → SubTask → String → Desk W × Task
  unfolding clear_sub_task send
  report_failed d t i s errmsg =
      let (d', s') = clear_sub_task cluster t.id i d s in
      let t' = record t { subtask_list = modify i (λ _. s') t.subtask_list } in
      (
        if is_waiting (waiting_for_retry s').status
            then send cluster d' (report_of t retrying errmsg 1 0 0)
            else d',
        retry t' i s' errmsg,
      )

  -- The branch for OUTPUTERROR
  unfoldable pub report_output_error : Desk W → Task → ℕ → SubTask → String → Desk W × Task
  unfolding clear_sub_task
  report_output_error d t i s errmsg =
      let (d', s') = clear_sub_task cluster t.id i d s in
      (
        d',
        record t {
          subtask_list = modify i (λ _. record s' { status = TaskStatus.failed }) t.subtask_list;
          status = TaskStatus.failed;
          failed_reason = errmsg;
        },
      )

  -- The branch for COMPLETED
  unfoldable pub report_completed : Desk W → Task → ℕ → SubTask → Desk W × Task
  unfolding clear_sub_task
  report_completed d t i s =
      let (d', s') = clear_sub_task cluster t.id i d (record s { status = TaskStatus.completed }) in
      (d', record t { subtask_list = modify i (λ _. s') t.subtask_list })

  -- The four tests of the status that is reported
  unfoldable pub take_report : Desk W → Task → ℕ → SubTask → TaskStatus → String → Desk W × Task
  unfolding report_failed report_output_error report_completed
  take_report d t i s TaskStatus.waiting errmsg =
      (d, record t { subtask_list = modify i (λ _. s) t.subtask_list })
  take_report d t i s TaskStatus.running errmsg =
      (d, record t { subtask_list = modify i (λ _. s) t.subtask_list })
  take_report d t i s TaskStatus.completed errmsg = report_completed d t i s
  take_report d t i s TaskStatus.failed errmsg = report_failed d t i s errmsg
  take_report d t i s TaskStatus.timeout errmsg = report_failed d t i s errmsg
  take_report d t i s TaskStatus.output_error errmsg = report_output_error d t i s errmsg

  -- on_task_report(report), once get_task has found the task
  unfoldable pub on_task_report : Desk W → Task → TaskMsg → Receipt × Desk W × Task
  unfolding take_report
  on_task_report d t msg = elim (get_elem? t.subtask_list msg.vnodeid) [
    | none ↦ (no_vnode, d, t)
    | some s ↦ elim s.command_info [
      | none ↦ (no_command, d, t)
      | some token ↦
          let (d', t') =
            take_report d t msg.vnodeid
              (record s { status_reason = msg.errmsg; task_started = false }) msg.sub_task_status
              msg.errmsg in
          if str_eq token msg.token then (taken, d', t') else (wrong_token, d, t)
    ]
  ]
