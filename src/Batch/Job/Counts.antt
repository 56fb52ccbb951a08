-- ===== src/Batch/Job/Counts.antt =====
-- The counters of a job and the number of its tasks by status.
pub mod Release
use docklet.Common.{
  ℕ, zero, suc, ◌+◌, ◌-◌, ◌≤◌, ◌<◌, ◌≡◌, ◌≢◌, refl, ap, sym, subst, ◌∙◌, inl, inr, Bool, true,
  false, ◌&&◌, ◌||◌, not, Option, none, some, List, [], ◌∷◌, ◌++◌, length, length-append,
  if◌then◌else◌, ◌==◌, String, str_eq, eq_iff, arith, Bool-cases, some_inj, eq_refl, Option-cases,
}
use docklet.Batch.Status.{
  Status, same, same_sound, same_refl, same_ne, JobStatus, Batchtask, Batchjob,
}
use docklet.Batch.Job.{
  BatchJob, Task, Ready, Result, ok, charge, is_over, is_ready, lose, mem, schedule_one, key_error,
  value_error, decrement, increment, set_status, change_status, update_job_status,
  update_task_running, update_task_retrying, update_task_failed, update_task_stopped, schedule,
  schedule_ready, get_tasks_no_dependency, drop_dependency, release_one, release_all, finish_task,
  stop_job,
}
use docklet.Batch.Job.Table.{find, alter, find-alter}

-- How many entries have the status `s`.
unfoldable pub number : Status → List (String × Task) → ℕ
number s [] = 0
number s ((idx, t) ∷ m) = (if same s t.status then 1 else 0) + number s m

-- The counters agree with the entries, and no entry is `stopping`, a word that no counter has.
pub record IsCounted (job : BatchJob) : Type 0 where
  pub counted : (s : Status) → s ≢ Status.stopping → job.tasks_cnt s ≡ number s job.tasks
  pub no_stopping : number Status.stopping job.tasks ≡ 0

pub number-alter :
    (s : Status) (idx : String) (t : Task) (f : Task → Task) (m : List (String × Task))
    → find idx m ≡ some t
    → number s (alter idx f m) + (if same s t.status then 1 else 0)
      ≡ number s m + (if same s (f t).status then 1 else 0)
unfolding number find alter
number-alter s idx t f [] e = cc
number-alter s idx t f ((j, v) ∷ m) e = elim (Bool-cases (str_eq j idx)) [
  | inl here ↦ let q : v ≡ t = some_inj (rw here at e) in rw here (rw q (omega arith))
  | inr other ↦ rw other (omega (arith, number-alter s idx t f m (rw other at e)))
]

-- An entry's status is counted.
pub number_found :
    (idx : String) (t : Task) (m : List (String × Task))
    → find idx m ≡ some t
    → 0 < number t.status m
unfolding number find
number_found idx t [] e = cc
number_found idx t ((j, v) ∷ m) e = ground (arith, same_refl t.status, number_found idx t m)

-- Counters that move with an entry from its old status to another.
moved :
    (cnt : Status → ℕ) (a b : ℕ) (s o n : Status)
    → cnt s ≡ a
    → (same s o ≡ true → 0 < a)
    → b + (if same s o then 1 else 0) ≡ a + (if same s n then 1 else 0)
    → increment n (decrement o cnt) s ≡ b
unfolding increment decrement
moved cnt a b s o n e pos h = ground (arith, pos)

pub change_status-IsCounted :
    (job : BatchJob) (idx : String) (t : Task) (s : Status) (f : Batchtask → Batchtask)
    → IsCounted job
    → find idx job.tasks ≡ some t
    → s ≢ Status.stopping
    → IsCounted (change_status job idx t.status s f)
unfolding change_status
change_status-IsCounted job idx t s f c e ne = record {
  counted = λ x nx.
      moved job.tasks_cnt (number x job.tasks) (number x (alter idx (set_status s f) job.tasks)) x
        t.status s (c.counted x nx)
        (λ h.
          subst (λ y. 0 < number y job.tasks) (sym (same_sound x t.status h))
            (number_found idx t job.tasks e))
        (number-alter x idx t (set_status s f) job.tasks e);
  no_stopping = ground (
    arith,
    number-alter Status.stopping idx t (set_status s f) job.tasks e,
    same_ne Status.stopping s (λ q. ne (sym q)),
    c.no_stopping,
  );
}

-- The invariant reads the entries and the counters alone.
pub same_table :
    (job job' : BatchJob)
    → job'.tasks ≡ job.tasks
    → job'.tasks_cnt ≡ job.tasks_cnt
    → IsCounted job
    → IsCounted job'
same_table job job' t n c = record {
  counted = λ s ne. ap (λ (cnt : Status → ℕ). cnt s) n ∙ c.counted s ne ∙ ap (number s) (sym t);
  no_stopping = ap (number Status.stopping) t ∙ c.no_stopping;
}

pub tasks-update_job_status :
    (job : BatchJob) (now : ℕ) → (update_job_status job now).tasks ≡ job.tasks
unfolding update_job_status
tasks-update_job_status job now = ground arith

counts-update_job_status :
    (job : BatchJob) (now : ℕ) → (update_job_status job now).tasks_cnt ≡ job.tasks_cnt
unfolding update_job_status
counts-update_job_status job now = ground arith

pub update_job_status-IsCounted :
    (job : BatchJob) (now : ℕ) → IsCounted job → IsCounted (update_job_status job now)
update_job_status-IsCounted job now =
    same_table job (update_job_status job now) (tasks-update_job_status job now)
      (counts-update_job_status job now)

-- The result of a method that may raise: an exception leaves the job as it was.
abbrev pub after : BatchJob → Result BatchJob → BatchJob
after job (ok job') = job'
after job key_error = job
after job value_error = job

abbrev pub after_stop : BatchJob → Result (Bool × BatchJob) → BatchJob
after_stop job (ok (done, job')) = job'
after_stop job key_error = job
after_stop job value_error = job

module _ (job : BatchJob) (idx : String) (now : ℕ) (c : IsCounted job) where
  -- The shape of the updates: the status changes and the job's status is computed again.
  changed :
      (t : Task) (s : Status) (f : Batchtask → Batchtask)
      → find idx job.tasks ≡ some t
      → s ≢ Status.stopping
      → IsCounted (update_job_status (change_status job idx t.status s f) now)
  changed t s f e ne =
      update_job_status-IsCounted _ now (change_status-IsCounted job idx t s f c e ne)

  charged :
      (t : Task) (s : Status) (f : Batchtask → Batchtask) (billing : ℕ)
      → find idx job.tasks ≡ some t
      → s ≢ Status.stopping
      → IsCounted (update_job_status (charge (change_status job idx t.status s f) billing) now)
  unfolding charge
  charged t s f billing e ne = update_job_status-IsCounted _ now (
      same_table (change_status job idx t.status s f) _ refl refl
        (change_status-IsCounted job idx t s f c e ne))

  pub running-IsCounted : IsCounted (after job (update_task_running job idx now))
  unfolding update_task_running
  running-IsCounted = elim (Option-cases (find idx job.tasks)) [
    | inl absent ↦ rw (absent, after) c
    | inr (t, e) ↦ elim (Bool-cases (same t.status Status.stopping)) [
      | inl stop ↦ rw (e, stop, after) c
      | inr go ↦ rw (e, go, after) (changed t Status.running _ e (λ q. cc))
    ]
  ]

  pub retrying-IsCounted :
      (reason : String) → IsCounted (after job (update_task_retrying job idx reason now))
  unfolding update_task_retrying
  retrying-IsCounted reason = elim (Option-cases (find idx job.tasks)) [
    | inl absent ↦ rw (absent, after) c
    | inr (t, e) ↦ elim (Bool-cases (same t.status Status.stopping)) [
      | inl stop ↦ rw (e, stop, after) c
      | inr go ↦ rw (e, go, after) (changed t Status.retrying _ e (λ q. cc))
    ]
  ]

  pub failed-IsCounted :
      (reason : String) (running_time billing : ℕ)
      → IsCounted (after job (update_task_failed job idx reason running_time billing now))
  unfolding update_task_failed
  failed-IsCounted reason running_time billing = elim (Option-cases (find idx job.tasks)) [
    | inl absent ↦ rw (absent, after) c
    | inr (t, e) ↦ rw (e, after) (charged t Status.failed _ billing e (λ q. cc))
  ]

  pub stopped-IsCounted :
      (running_time billing : ℕ)
      → IsCounted (after_stop job (update_task_stopped job idx running_time billing now))
  unfolding update_task_stopped
  stopped-IsCounted running_time billing = elim (Option-cases (find idx job.tasks)) [
    | inl absent ↦ rw (absent, after_stop) c
    | inr (t, e) ↦ elim (Bool-cases (is_over t.status)) [
      | inl over ↦ rw (e, over, after_stop) c
      | inr live ↦ rw (e, live, after_stop) (charged t Status.stopped _ billing e (λ q. cc))
    ]
  ]
