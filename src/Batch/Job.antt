-- ===== src/Batch/Job.antt =====
-- class BatchJob of src/master/jobmgr.py: the tasks of a job, the counters of their statuses, and the
-- dependencies between them. Every method runs under the job's lock, so it is one step here. `now`
-- is the clock at the call.
pub mod Table
pub mod Counts
pub mod Verdict
pub mod History
pub mod Order
use docklet.Common.{
  ℕ, zero, suc, ◌+◌, ◌-◌, Bool, true, false, ◌&&◌, ◌||◌, Option, none, some, List, [], ◌∷◌, ◌++◌,
  length, if◌then◌else◌, ◌==◌, not, String, str_eq, ltb,
}
use docklet.Batch.Status.{Status, same, JobStatus, Batchtask, new_task, Batchjob, new_job}
use Table.{find, alter}

-- One entry of `self.tasks`; `config` is the task's JSON text.
pub record Task : Type 0 where
  pub config : String
  pub status : Status
  pub dependency : List String
  pub row : Batchtask

pub record BatchJob : Type 0 where
  pub priority : ℕ
  pub tasks : List (String × Task)
  pub dependency_out : List (String × List String)
  pub tasks_cnt : Status → ℕ
  pub job_db : Batchjob

-- A task handed to the task manager: its name is the job's id, "_" and `idx`.
pub record Ready : Type 0 where
  pub idx : String
  pub config : String
  pub priority : ℕ

pub data Result {ℓ} (A : Type ℓ) : Type ℓ where
  ok : A → Result A
  key_error value_error : Result A

-- A task as it is submitted; its dependency text "a, b" is taken apart at the commas, and the empty
-- text has no parts.
pub record RawTask : Type 0 where
  pub config : String
  pub dependency : List String

-- `d in names`
unfoldable pub mem : String → List String → Bool
mem d [] = false
mem d (x ∷ l) = str_eq x d || mem d l

-- `l.remove(d)`, the first one
unfoldable pub remove : String → List String → List String
remove d [] = []
remove d (x ∷ l) = if str_eq x d then l else x ∷ remove d l

unfoldable pub names : List (String × RawTask) → List String
names [] = []
names ((idx, _) ∷ raw) = idx ∷ names raw

-- `dependency_out[d].append(idx)`, after making the list if it is not there
unfoldable pub add_out : String → String → List (String × List String) → List (String × List String)
add_out d idx [] = (d, idx ∷ []) ∷ []
add_out d idx ((e, l) ∷ out) =
    if str_eq e d then (e, l ++ idx ∷ []) ∷ out else (e, l) ∷ add_out d idx out

-- The inner loop of the constructor.
unfoldable pub add_outs :
    List String
    → String
    → List String
    → List (String × List String)
    → Result (List (String × List String))
add_outs known idx [] out = ok out
add_outs known idx (d ∷ ds) out =
    let rest = add_outs known idx ds (add_out d idx out) in
    if mem d known then rest else value_error

unfoldable pub build :
    List String
    → List (String × RawTask)
    → List (String × Task)
    → List (String × List String)
    → Result (List (String × Task) × List (String × List String))
build known [] tasks out = ok (tasks, out)
build known ((idx, t) ∷ raw) tasks out = elim (add_outs known idx t.dependency out) [
  | ok out' ↦
      build known raw
        (tasks
          ++ (
            idx,
            record {
              config = t.config;
              status = Status.pending;
              dependency = t.dependency;
              row = new_task;
            },
          )
            ∷ [])
        out'
  | key_error ↦ key_error
  | value_error ↦ value_error
]

-- BatchJob(jobid, user, job_info)
unfoldable pub new : ℕ → List (String × RawTask) → Result BatchJob
new priority raw = elim (build (names raw) raw [] []) [
  | ok (tasks, out) ↦ ok (record {
    priority = priority;
    tasks = tasks;
    dependency_out = out;
    tasks_cnt = λ s. if same s Status.pending then length raw else 0;
    job_db = new_job;
  })
  | key_error ↦ key_error
  | value_error ↦ value_error
]

-- `tasks_cnt[s] -= 1`; below 0 Python would go on where this counter stays at 0.
unfoldable pub decrement : Status → (Status → ℕ) → Status → ℕ
decrement s cnt t = if same t s then cnt t - 1 else cnt t

-- `tasks_cnt[s] += 1`
unfoldable pub increment : Status → (Status → ℕ) → Status → ℕ
increment s cnt t = if same t s then cnt t + 1 else cnt t

-- An entry with a new status, and its row with the same.
abbrev pub set_status : Status → (Batchtask → Batchtask) → Task → Task
set_status s f t = record t { status = s; row = record (f t.row) { status = s } }

-- What every change of a task's status does: the counters, the entry's status and its row.
unfoldable pub change_status :
    BatchJob → String → Status → Status → (Batchtask → Batchtask) → BatchJob
unfolding decrement increment
change_status job idx old_status s f = record job {
  tasks = alter idx (set_status s f) job.tasks;
  tasks_cnt = increment s (decrement old_status job.tasks_cnt);
}

abbrev pub is_stopping : JobStatus → Bool
is_stopping JobStatus.stopping = true
is_stopping s = false

-- _update_job_status()
unfoldable pub update_job_status : BatchJob → ℕ → BatchJob
update_job_status job now =
    let cnt = job.tasks_cnt in
    let row = job.job_db in
    if not (cnt Status.failed == 0)
    then record job { job_db = record row { status = JobStatus.failed; end_time = some now } }
    else if cnt Status.finished == length job.tasks
    then record job { job_db = record row { status = JobStatus.done; end_time = some now } }
    else if is_stopping row.status
    then if cnt Status.running == 0 && cnt Status.scheduling == 0 && cnt Status.retrying == 0
      then record job { job_db = record row { status = JobStatus.stopped; end_time = some now } }
      else job
    else if not (cnt Status.running == 0) || not (cnt Status.retrying == 0)
    then record job { job_db = record row { status = JobStatus.running } }
    else record job { job_db = record row { status = JobStatus.pending } }

-- stop_job()
unfoldable pub stop_job : BatchJob → BatchJob
stop_job job = record job { job_db = record job.job_db { status = JobStatus.stopping } }

-- `self.job_db.billing += billing`
unfoldable pub charge : BatchJob → ℕ → BatchJob
charge job billing = record job {
  job_db = record job.job_db { billing = job.job_db.billing + billing };
}

-- The test of the updates for a task that was stopped.
abbrev pub unless_stopping : Status → BatchJob → BatchJob → BatchJob
unless_stopping s job job' = if same s Status.stopping then job else job'

-- What each report writes to the row of the task, beside the status.
abbrev pub start_row : ℕ → Batchtask → Batchtask
start_row now row = record row { start_time = some now }

abbrev pub retry_row : String → Batchtask → Batchtask
retry_row reason row = record row { failed_reason = reason; tried_times = row.tried_times + 1 }

abbrev pub fail_row : String → ℕ → ℕ → ℕ → Batchtask → Batchtask
fail_row reason running_time billing now row = record row {
  failed_reason = reason;
  tried_times = row.tried_times + 1;
  end_time = some now;
  running_time = running_time;
  billing = billing;
}

abbrev pub stop_row : ℕ → ℕ → ℕ → Batchtask → Batchtask
stop_row running_time billing now row = record row {
  end_time = some now;
  running_time = running_time;
  billing = billing;
}

abbrev pub finish_row : ℕ → ℕ → ℕ → Batchtask → Batchtask
finish_row running_time billing now row = record row {
  tried_times = row.tried_times + 1;
  running_time = running_time;
  end_time = some now;
  billing = billing;
  failed_reason = "";
}

-- update_task_running(task_idx)
unfoldable pub update_task_running : BatchJob → String → ℕ → Result BatchJob
update_task_running job idx now = elim (find idx job.tasks) [
  | none ↦ key_error
  | some t ↦ ok (
      unless_stopping t.status job
        (update_job_status (change_status job idx t.status Status.running (start_row now)) now))
]

-- update_task_retrying(task_idx, reason, tried_times)
unfoldable pub update_task_retrying : BatchJob → String → String → ℕ → Result BatchJob
update_task_retrying job idx reason now = elim (find idx job.tasks) [
  | none ↦ key_error
  | some t ↦ ok (
      unless_stopping t.status job
        (update_job_status (change_status job idx t.status Status.retrying (retry_row reason)) now))
]

-- update_task_failed(task_idx, reason, tried_times, running_time, billing)
unfoldable pub update_task_failed : BatchJob → String → String → ℕ → ℕ → ℕ → Result BatchJob
unfolding charge
update_task_failed job idx reason running_time billing now = elim (find idx job.tasks) [
  | none ↦ key_error
  | some t ↦ ok (
      update_job_status
        (charge
          (change_status job idx t.status Status.failed (fail_row reason running_time billing now))
          billing)
        now)
]

abbrev pub is_over : Status → Bool
is_over s = same s Status.failed || (same s Status.finished || same s Status.stopped)

-- update_task_stopped(task_idx, running_time, billing)
unfoldable pub update_task_stopped : BatchJob → String → ℕ → ℕ → ℕ → Result (Bool × BatchJob)
unfolding charge
update_task_stopped job idx running_time billing now = elim (find idx job.tasks) [
  | none ↦ key_error
  | some t ↦
      if is_over t.status
      then ok (false, job)
      else ok (
        true,
        update_job_status
            (charge
              (change_status job idx t.status Status.stopped (stop_row running_time billing now))
              billing)
            now,
      )
]

-- A pending task with no dependency left goes to the task manager.
abbrev pub is_ready : Task → Bool
is_ready t = same t.status Status.pending && elim t.dependency [ [] ↦ true | d ∷ ds ↦ false ]

unfoldable pub schedule : BatchJob → String → Task → BatchJob × List Ready
unfolding change_status
schedule job idx t = (
  change_status job idx Status.pending Status.scheduling (λ row. row),
  record { idx = idx; config = t.config; priority = job.priority } ∷ [],
)

-- get_tasks_no_dependency(True), the loop over the names
unfoldable pub schedule_one : BatchJob → String → BatchJob × List Ready
unfolding schedule
schedule_one job idx = elim (find idx job.tasks) [
  | none ↦ (job, [])
  | some t ↦ if is_ready t then schedule job idx t else (job, [])
]

unfoldable pub schedule_ready : List String → BatchJob → BatchJob × List Ready
unfolding schedule_one
schedule_ready [] job = (job, [])
schedule_ready (idx ∷ rest) job =
    let (job', here) = schedule_one job idx in
    let (job'', later) = schedule_ready rest job' in (job'', here ++ later)

unfoldable pub keys : List (String × Task) → List String
keys [] = []
keys ((idx, t) ∷ m) = idx ∷ keys m

unfoldable pub get_tasks_no_dependency : BatchJob → BatchJob × List Ready
unfolding schedule_ready keys
get_tasks_no_dependency job = schedule_ready (keys job.tasks) job

-- What the loop does to a task that waits for `idx`: the name leaves its dependencies.
abbrev pub lose : String → Task → Task
lose idx t = record t { dependency = remove idx t.dependency }

unfoldable pub drop_dependency : BatchJob → String → String → Task → BatchJob × List Ready
unfolding schedule
drop_dependency job idx out_idx t =
    let t' = lose idx t in
    let job' = record job { tasks = alter out_idx (lose idx) job.tasks } in
    if is_ready t' then schedule job' out_idx t' else (job', [])

-- One round of the loop of `finish_task` over the tasks that wait for `idx`. A name that is not among
-- the task's dependencies, or no task at all, is an exception that the loop passes over.
unfoldable pub release_one : BatchJob → String → String → BatchJob × List Ready
unfolding drop_dependency
release_one job idx out_idx = elim (find out_idx job.tasks) [
  | none ↦ (job, [])
  | some t ↦ if mem idx t.dependency then drop_dependency job idx out_idx t else (job, [])
]

unfoldable pub release_all : BatchJob → String → List String → BatchJob × List Ready
unfolding release_one
release_all job idx [] = (job, [])
release_all job idx (out_idx ∷ outs) =
    let (job', here) = release_one job idx out_idx in
    let (job'', later) = release_all job' idx outs in (job'', here ++ later)

-- `self.dependency_out[task_idx]`, empty where the key is missing: `finish_task` returns early there.
unfoldable pub waiting_for : BatchJob → String → List String
waiting_for job idx = elim (find idx job.dependency_out) [ none ↦ [] | some outs ↦ outs ]

-- finish_task(task_idx, running_time, billing); `none` beside the job is Python's None
unfoldable pub finish_task : BatchJob → String → ℕ → ℕ → ℕ → BatchJob × Option (List Ready)
unfolding release_all
finish_task job idx running_time billing now = elim (find idx job.tasks) [
  | none ↦ (job, some [])
  | some t ↦
      let job' =
        charge
          (change_status job idx t.status Status.finished (finish_row running_time billing now))
          billing in
      let (job'', ready) = release_all job' idx (waiting_for job idx) in
      if same t.status Status.stopping
      then (job, none)
      else (update_job_status job'' now, some ready)
]
