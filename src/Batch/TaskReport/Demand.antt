-- ===== src/Batch/TaskReport/Demand.antt =====
-- The usage does not grow with a report of a worker.
use docklet.Common.{
  ℕ, ◌≤◌, inl, inr, false, some, Option-cases, String, str_eq, get_elem?, if_either, arith,
}
use docklet.Batch.Task.{TaskStatus, SubTask, Task, is_waiting, waiting_for_retry}
use docklet.Batch.Desk.{Cluster, Desk, send, clear_sub_task}
use docklet.Batch.Desk.Demand.{Measure, clear_sub_task_shrinks}
use docklet.Batch.TaskReport.{
  TaskMsg, Receipt, report_failed, report_output_error, report_completed, take_report,
  on_task_report,
}

module _ {W : Type 0} (cluster : Cluster W) (p : Measure) (ip : String) where
  abbrev on_ip : Desk W → ℕ
  on_ip d = p.used d.usage (some ip)

  report_failed_shrinks :
      (d : Desk W) (t : Task) (i : ℕ) (s : SubTask) (errmsg : String)
      → on_ip (report_failed cluster d t i s errmsg).0 ≤ on_ip d
  unfolding report_failed send
  report_failed_shrinks d t i s errmsg =
      let s' = (clear_sub_task cluster t.id i d s).1 in
      let h = clear_sub_task_shrinks cluster p ip t.id i d s in
      if_either (λ (x : Desk W). on_ip x ≤ on_ip d) (is_waiting (waiting_for_retry s').status) _ _
        (λ _. h) (λ _. h)

  take_report_shrinks :
      (d : Desk W) (t : Task) (i : ℕ) (s : SubTask) (status : TaskStatus) (errmsg : String)
      → on_ip (take_report cluster d t i s status errmsg).0 ≤ on_ip d
  unfolding take_report report_output_error report_completed
  take_report_shrinks d t i s TaskStatus.waiting errmsg = omega arith
  take_report_shrinks d t i s TaskStatus.running errmsg = omega arith
  take_report_shrinks d t i s TaskStatus.completed errmsg =
      clear_sub_task_shrinks cluster p ip t.id i d (record s { status = TaskStatus.completed })
  take_report_shrinks d t i s TaskStatus.failed errmsg = report_failed_shrinks d t i s errmsg
  take_report_shrinks d t i s TaskStatus.timeout errmsg = report_failed_shrinks d t i s errmsg
  take_report_shrinks d t i s TaskStatus.output_error errmsg =
      clear_sub_task_shrinks cluster p ip t.id i d s

  pub on_task_report_shrinks :
      (d : Desk W) (t : Task) (msg : TaskMsg) → on_ip (on_task_report cluster d t msg).1 ≤ on_ip d
  unfolding on_task_report
  on_task_report_shrinks d t msg = elim (Option-cases (get_elem? t.subtask_list msg.vnodeid)) [
    | inl gone ↦ rw (gone, on_task_report) (omega arith)
    | inr (s, e) ↦ elim (Option-cases s.command_info) [
      | inl silent ↦ rw (e, silent, on_task_report) (omega arith)
      | inr (token, has) ↦
          let s1 = record s { status_reason = msg.errmsg; task_started = false } in
          let h = take_report_shrinks d t msg.vnodeid s1 msg.sub_task_status msg.errmsg in
          rw (e, has, on_task_report)
            (if_either (λ (r : Receipt × Desk W × Task). on_ip r.1 ≤ on_ip d)
              (str_eq token msg.token) _ _ (λ _. h) (λ _. omega arith))
    ]
  ]
