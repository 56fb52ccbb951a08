-- ===== src/Batch/JobMgr.antt =====
-- Class JobMgr of src/master/jobmgr.py: the jobs that are not over, and what it does when the task
-- manager reports. The POST that charges a user and the task manager's add_task are parameters.
pub mod Invoice
use docklet.Common.{
  ℕ, ◌+◌, Bool, true, false, not, ◌&&◌, ◌||◌, Option, none, some, List, [], ◌∷◌, ◌++◌, ltb,
  if◌then◌else◌, String, str_eq,
}
use docklet.Batch.Status.{JobStatus}
use docklet.Batch.Desk.{ReportStatus, running, finished, retrying, failed, stopped}
use docklet.Batch.Job.{
  BatchJob, Ready, ok, key_error, value_error, update_task_running, update_task_retrying,
  update_task_failed, update_task_stopped, finish_task, get_tasks_no_dependency,
}
use docklet.Batch.Job.Table.{find, alter}

-- A call of taskmgr.add_task for a user and a job's task
pub record Handed : Type 0 where
  pub user : String
  pub job_id : String
  pub task : Ready

-- What is called outside: the POST of charge_beans and taskmgr.add_task; false is an exception.
pub record Outside (W : Type 0) : Type 0 where
  pub post : String → ℕ → W → Bool × W
  pub add_task : Handed → W → Bool × W

-- `charged` are the charges that returned, `handed` the calls of add_task.
pub record JobMgr (W : Type 0) : Type 0 where
  pub job_map : List (String × BatchJob)
  pub world : W
  pub charged : List (String × ℕ)
  pub handed : List Handed

unfoldable pub put_job : {W : Type 0} → String → BatchJob → JobMgr W → JobMgr W
put_job job_id job m = record m { job_map = alter job_id (λ _. job) m.job_map }

abbrev pub is_charged : ReportStatus → Bool
is_charged failed = true
is_charged finished = true
is_charged s = false

abbrev pub is_closed : JobStatus → Bool
is_closed JobStatus.done = true
is_closed JobStatus.failed = true
is_closed JobStatus.stopped = true
is_closed s = false

-- `del self.job_map[job_id]`
unfoldable pub delete : String → List (String × BatchJob) → List (String × BatchJob)
delete job_id [] = []
delete job_id ((x, job) ∷ l) = if str_eq x job_id then l else (x, job) ∷ delete job_id l

-- What the branches of `report` do to the job: what it is afterwards, the tasks that are ready next,
-- and what is charged for a stopped task; `none` where an exception ends the call.
unfoldable pub update :
    BatchJob → String → ReportStatus → String → ℕ → ℕ → ℕ → BatchJob × Option (List Ready × ℕ)
unfolding update_task_running update_task_retrying update_task_failed update_task_stopped
    finish_task
update job idx running reason running_time billing now = elim (update_task_running job idx now) [
  | ok job' ↦ (job', some ([], 0))
  | _ ↦ (job, none)
]
update job idx finished reason running_time billing now =
    let (job', ready) = finish_task job idx running_time billing now in
    (job', elim ready [ none ↦ none | some tasks ↦ some (tasks, 0) ])
update job idx retrying reason running_time billing now =
    elim (update_task_retrying job idx reason now) [
      | ok job' ↦ (job', some ([], 0))
      | _ ↦ (job, none)
    ]
update job idx failed reason running_time billing now =
    elim (update_task_failed job idx reason running_time billing now) [
      | ok job' ↦ (job', some ([], 0))
      | _ ↦ (job, none)
    ]
update job idx stopped reason running_time billing now =
    elim (update_task_stopped job idx running_time billing now) [
      | ok (over, job') ↦ (job', some ([], if over then billing else 0))
      | _ ↦ (job, none)
    ]

module _ {W : Type 0} (o : Outside W) where
  -- charge_beans(username, billing); false is an exception, here and below
  unfoldable pub charge_beans : String → ℕ → JobMgr W → Bool × JobMgr W
  charge_beans username billing m =
      let (good, w) = o.post username billing m.world in
      (
        good,
        if good
            then record m { world = w; charged = m.charged ++ (username, billing) ∷ [] }
            else record m { world = w },
      )

  -- add_task_taskmgr(user, tasks), for tasks of one job; the loop ends at an empty task_info, whose text
  -- is "{}".
  unfoldable pub add_task_taskmgr : String → String → List Ready → JobMgr W → Bool × JobMgr W
  add_task_taskmgr user job_id [] m = (true, m)
  add_task_taskmgr user job_id (task ∷ tasks) m =
      let h : Handed = record { user = user; job_id = job_id; task = task } in
      let (good, w) = o.add_task h m.world in
      let m' = record m { world = w; handed = m.handed ++ h ∷ [] } in
      let rest = add_task_taskmgr user job_id tasks m' in
      if str_eq task.config "{}" then (true, m) else if good then rest else (false, m')

  -- process_job(job)
  unfoldable pub process_job : String → String → BatchJob → JobMgr W → Bool × JobMgr W
  unfolding add_task_taskmgr put_job
  process_job user job_id job m =
      let (job', tasks) = get_tasks_no_dependency job in
      add_task_taskmgr user job_id tasks (put_job job_id job' m)

  unfoldable pub charge_positive : String → ℕ → JobMgr W → Bool × JobMgr W
  unfolding charge_beans
  charge_positive user billing m = if ltb 0 billing then charge_beans user billing m else (true, m)

  -- The end of `report`, with the tasks that are ready next and what is charged for a stopped task
  unfoldable pub hand_over :
      String → String → BatchJob → List Ready → ℕ → JobMgr W → JobMgr W × Bool
  unfolding add_task_taskmgr charge_positive delete
  hand_over user job_id job tasks bill m =
      let (added, m1) = add_task_taskmgr user job_id tasks m in
      let (paid, m2) = charge_positive user bill m1 in
      if not added
      then (m1, false)
      else if not paid
      then (m2, false)
      else if is_closed job.job_db.status
      then (record m2 { job_map = delete job_id m2.job_map }, true)
      else (m2, true)

  -- report(user, task_name, status, ...) for a task_name of the two parts `job_id` and `idx`; false
  -- beside the manager is an exception. The row of a task whose job is gone is left out.
  unfoldable pub report :
      JobMgr W → String → String → String → ReportStatus → String → ℕ → ℕ → ℕ → JobMgr W × Bool
  unfolding charge_positive update put_job hand_over
  report m user job_id idx status reason running_time billing now =
      let (paid, m1) = if is_charged status then charge_positive user billing m else (true, m) in
      let told : JobMgr W × Bool = elim (find job_id m1.job_map) [
        | none ↦ (m1, true)
        | some job ↦
            let (job', result) = update job idx status reason running_time billing now in
            let m2 = put_job job_id job' m1 in
            elim result [
              | none ↦ (m2, false)
              | some (tasks, bill) ↦ hand_over user job_id job' tasks bill m2
            ]
      ] in
      if paid then told else (m1, false)
