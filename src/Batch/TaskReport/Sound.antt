-- ===== src/Batch/TaskReport/Sound.antt =====
-- The usage and the nets through a report of a worker.
use docklet.Common.{
  ℕ, ◌≡◌, refl, inl, inr, false, Option, some, Option-cases, String, str_eq, get_elem?, modify,
  get_elem?-modify, if_either,
}
use docklet.Batch.Task.{TaskStatus, SubTask, Task, is_waiting, retry, waiting_for_retry}
use docklet.Batch.Desk.{Cluster, Desk, send, clear_sub_task}
use docklet.Batch.Desk.Uses.{Uses, SameUse}
use docklet.Batch.Desk.Balance.{clear_one-Uses, retry-Uses, modify-Uses}
use docklet.Batch.Desk.Frame.{SameTask, refl-SameTask, Framed, clear_sub_task_nets, retry-Framed}
use docklet.Batch.Desk.Sound.{IsSound, carried}
use docklet.Batch.TaskReport.{
  TaskMsg, Receipt, report_failed, report_output_error, report_completed, take_report,
  on_task_report,
}

still : (x : SubTask) → SameUse x x
still x = record { needs = refl; started = refl; worker = refl }

module _ {W : Type 0} (cluster : Cluster W) (c g : Option String → ℕ) (held : ℕ → ℕ) where
  abbrev Kept : Task → Desk W × Task → Type 0
  Kept t r = IsSound cluster c g held r.0 r.1 × SameTask t r.1

  -- The subtask s1 is the subtask i of the task as the report changed it first.
  module _ (d : Desk W) (t : Task) (i : ℕ) (s s1 : SubTask)
      (e : get_elem? t.subtask_list i ≡ some s) (same : SameUse s s1)
      (h : IsSound cluster c g held d t) where
    kept :
        (d' : Desk W) (t' : Task)
        → Framed cluster d t d' t'
        → Uses c g d'.usage t'.subtask_list
        → Kept t (d', t')
    kept d' t' f u = (carried cluster c g held d d' t t' f u h.owned, f.task)

    report_failed-Kept : (errmsg : String) → Kept t (report_failed cluster d t i s1 errmsg)
    unfolding report_failed send
    report_failed-Kept errmsg =
        let (d', s') = clear_sub_task cluster t.id i d s1 in
        let t' = record t { subtask_list = modify i (λ _. s') t.subtask_list } in
        let there = get_elem?-modify i (λ _. s') t.subtask_list s e in
        let u =
          retry-Uses cluster c g d'.usage t' i s' errmsg there (
            clear_one-Uses cluster c g t.id i d t.subtask_list s s1 (λ x. x) e same still h.uses) in
        let f =
          retry-Framed cluster d d' t' i s' errmsg (clear_sub_task_nets cluster t.id i d s1) in
        let task : SameTask t (retry t' i s' errmsg) = record {
          id = f.task.id;
          created_at = f.task.created_at;
          priority = f.task.priority;
        } in
        if_either (λ (x : Desk W). Kept t (x, retry t' i s' errmsg))
          (is_waiting (waiting_for_retry s').status) _ _
          (λ _.
            kept _ _ (record { nets = f.nets; task_base_ip = f.task_base_ip; task = task })
              (record { cpu = u.cpu; gpu = u.gpu; nobody = u.nobody }))
          (λ _. kept _ _ (record { nets = f.nets; task_base_ip = f.task_base_ip; task = task }) u)

    cleared :
        (d' : Desk W) (t' : Task)
        → d'.nets ≡ d.nets
        → t'.task_base_ip ≡ t.task_base_ip
        → SameTask t t'
        → Framed cluster d t d' t'
    cleared d' t' n b k = record { nets = n; task_base_ip = b; task = k }

    report_output_error-Kept :
        (errmsg : String) → Kept t (report_output_error cluster d t i s1 errmsg)
    unfolding report_output_error
    report_output_error-Kept errmsg =
        kept _ _
          (cleared _ _ (clear_sub_task_nets cluster t.id i d s1) refl
            (record { id = refl; created_at = refl; priority = refl }))
          (clear_one-Uses cluster c g t.id i d t.subtask_list s s1
            (λ x. record x { status = TaskStatus.failed }) e same
            (λ x. record { needs = refl; started = refl; worker = refl }) h.uses)

    report_completed-Kept : Kept t (report_completed cluster d t i s1)
    unfolding report_completed
    report_completed-Kept =
        let s2 = record s1 { status = TaskStatus.completed } in
        kept _ _
          (cleared _ _ (clear_sub_task_nets cluster t.id i d s2) refl
            (record { id = refl; created_at = refl; priority = refl }))
          (clear_one-Uses cluster c g t.id i d t.subtask_list s s2 (λ x. x) e
            (record { needs = same.needs; started = same.started; worker = same.worker }) still
            h.uses)

    report_unknown-Kept : Kept t (d, record t { subtask_list = modify i (λ _. s1) t.subtask_list })
    report_unknown-Kept =
        kept _ _ (cleared _ _ refl refl (record { id = refl; created_at = refl; priority = refl }))
          (modify-Uses cluster c g d.usage t.subtask_list i s (λ _. s1) e same h.uses)

    take_report-Kept :
        (status : TaskStatus) (errmsg : String)
        → Kept t (take_report cluster d t i s1 status errmsg)
    unfolding take_report
    take_report-Kept TaskStatus.waiting errmsg = report_unknown-Kept
    take_report-Kept TaskStatus.running errmsg = report_unknown-Kept
    take_report-Kept TaskStatus.completed errmsg = report_completed-Kept
    take_report-Kept TaskStatus.failed errmsg = report_failed-Kept errmsg
    take_report-Kept TaskStatus.timeout errmsg = report_failed-Kept errmsg
    take_report-Kept TaskStatus.output_error errmsg = report_output_error-Kept errmsg

  pub on_task_report-IsSound :
      (d : Desk W) (t : Task) (msg : TaskMsg)
      → IsSound cluster c g held d t
      → IsSound cluster c g held
          (on_task_report cluster d t msg).1
          (on_task_report cluster d t msg).2
        × SameTask t (on_task_report cluster d t msg).2
  unfolding on_task_report
  on_task_report-IsSound d t msg h =
      let same : Kept t (d, t) = (h, refl-SameTask t) in
      elim (Option-cases (get_elem? t.subtask_list msg.vnodeid)) [
        | inl gone ↦ rw (gone, on_task_report) same
        | inr (s, e) ↦ elim (Option-cases s.command_info) [
          | inl silent ↦ rw (e, silent, on_task_report) same
          | inr (token, has) ↦
              let s1 = record s { status_reason = msg.errmsg; task_started = false } in
              let taken =
                take_report-Kept d t msg.vnodeid s s1 e
                  (record { needs = refl; started = refl; worker = refl }) h msg.sub_task_status
                  msg.errmsg in
              rw (e, has, on_task_report)
                (if_either (λ (r : Receipt × Desk W × Task). Kept t (r.1, r.2))
                  (str_eq token msg.token) _ _ (λ _. taken) (λ _. same))
        ]
      ]
