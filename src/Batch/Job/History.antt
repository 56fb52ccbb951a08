-- ===== src/Batch/Job/History.antt =====
-- A job from its submission through any reports: one call of a method after another.
use docklet.Common.{
  ℕ, ◌+◌, ◌≡◌, refl, subst, ap, inl, inr, List, [], ◌∷◌, ◌++◌, length, if◌then◌else◌, String, arith,
  ◌⊎◌,
}
use docklet.Batch.Status.{Status, same, same_ne, new_task}
use docklet.Batch.Job.{
  BatchJob, Task, RawTask, Result, ok, key_error, value_error, new, build, add_outs, names,
  stop_job, update_task_running, update_task_retrying, update_task_failed, update_task_stopped,
  finish_task, get_tasks_no_dependency, keys,
}
use docklet.Batch.Job.Counts.{
  IsCounted, number, after, after_stop, running-IsCounted, retrying-IsCounted, failed-IsCounted,
  stopped-IsCounted,
}
use docklet.Batch.Job.Counts.Release.{finish_task-IsCounted, schedule_ready-IsCounted}

number-append :
    (s : Status) (m m' : List (String × Task)) → number s (m ++ m') ≡ number s m + number s m'
unfolding number
number-append s [] m' = omega arith
number-append s ((idx, t) ∷ m) m' = omega (arith, number-append s m m')

pub Result-cases {ℓ} :
    {A : Type ℓ} (r : Result A) → ((a : A) × (r ≡ ok a)) ⊎ ((r ≡ key_error) ⊎ (r ≡ value_error))
Result-cases (ok a) = inl (a, refl)
Result-cases key_error = inr (inl refl)
Result-cases value_error = inr (inr refl)

pub ok-inj {ℓ} : {A : Type ℓ} {a b : A} → ok a ≡ ok b → a ≡ b
ok-inj e = cc

number-build :
    (s : Status) (known : List String) (raw : List (String × RawTask))
    (tasks : List (String × Task)) (out : List (String × List String))
    (built : List (String × Task) × List (String × List String))
    → build known raw tasks out ≡ ok built
    → number s built.0 ≡ number s tasks + (if same s Status.pending then length raw else 0)
unfolding build number
number-build s known [] tasks out built e = ground (
  arith,
  ap (λ (b : List (String × Task) × List (String × List String)). number s b.0) (ok-inj e),
)
number-build s known ((idx, t) ∷ raw) tasks out built e =
    elim (Result-cases (add_outs known idx t.dependency out)) [
      | inl (out', ok_out) ↦
          let rest =
            number-build s known raw
              (tasks
                ++ (
                  idx,
                  record {
                    config = t.config;
                    status = Status.pending;
                    dependency = t.dependency;
                    row = new_task;
                  },
                )
                  ∷ [])
              out' built (rw (ok_out, build) at e) in
          ground (
            arith,
            rest,
            number-append s tasks (
                (
                  idx,
                  record {
                    config = t.config;
                    status = Status.pending;
                    dependency = t.dependency;
                    row = new_task;
                  },
                )
                ∷ []),
          )
      | inr (inl bad) ↦ absurd (cc (rw (bad, build) at e))
      | inr (inr bad) ↦ absurd (cc (rw (bad, build) at e))
    ]

new-IsCounted :
    (priority : ℕ) (raw : List (String × RawTask)) (job : BatchJob)
    → new priority raw ≡ ok job
    → IsCounted job
unfolding new number
new-IsCounted priority raw job e = elim (Result-cases (build (names raw) raw [] [])) [
  | inl (built, ok_built) ↦ subst IsCounted (ok-inj (rw (ok_built, new) at e)) (record {
    counted = λ s ne. omega (arith, number-build s (names raw) raw [] [] built ok_built);
    no_stopping = ground (
      arith,
      number-build Status.stopping (names raw) raw [] [] built ok_built,
      same_ne Status.stopping Status.pending (λ q. cc),
    );
  })
  | inr (inl bad) ↦ absurd (cc (rw (bad, new) at e))
  | inr (inr bad) ↦ absurd (cc (rw (bad, new) at e))
]

-- A report of the task manager, a request of the user, or the hand-over of the tasks that wait for
-- nothing.
pub data Call : Type 0 where
  submits : Call
  stops_job : Call
  runs : String → Call
  retries : String → String → Call
  fails : String → String → ℕ → ℕ → Call
  finishes : String → ℕ → ℕ → Call
  stops : String → ℕ → ℕ → Call

-- The job after a call at the time `now`.
unfoldable pub step : BatchJob → ℕ × Call → BatchJob
step job (now, submits) = (get_tasks_no_dependency job).0
step job (now, stops_job) = stop_job job
step job (now, runs idx) = after job (update_task_running job idx now)
step job (now, retries idx reason) = after job (update_task_retrying job idx reason now)
step job (now, fails idx reason running_time billing) =
    after job (update_task_failed job idx reason running_time billing now)
step job (now, finishes idx running_time billing) = (finish_task job idx running_time billing now).0
step job (now, stops idx running_time billing) =
    after_stop job (update_task_stopped job idx running_time billing now)

unfoldable pub run : BatchJob → List (ℕ × Call) → BatchJob
unfolding step
run job [] = job
run job (c ∷ cs) = run (step job c) cs

step-IsCounted : (job : BatchJob) (c : ℕ × Call) → IsCounted job → IsCounted (step job c)
unfolding step get_tasks_no_dependency stop_job
step-IsCounted job (now, submits) c = schedule_ready-IsCounted (keys job.tasks) job c
step-IsCounted job (now, stops_job) c = record { counted = c.counted; no_stopping = c.no_stopping }
step-IsCounted job (now, runs idx) c = running-IsCounted job idx now c
step-IsCounted job (now, retries idx reason) c = retrying-IsCounted job idx now c reason
step-IsCounted job (now, fails idx reason t b) c = failed-IsCounted job idx now c reason t b
step-IsCounted job (now, finishes idx t b) c = finish_task-IsCounted job idx t b now c
step-IsCounted job (now, stops idx t b) c = stopped-IsCounted job idx now c t b

run-IsCounted_of : (job : BatchJob) (cs : List (ℕ × Call)) → IsCounted job → IsCounted (run job cs)
unfolding run
run-IsCounted_of job [] c = c
run-IsCounted_of job (x ∷ cs) c = run-IsCounted_of (step job x) cs (step-IsCounted job x c)

-- After any calls to a job that the constructor accepts, in any order and for any task names,
-- each counter is the number of tasks with its status, and no task is `stopping`.
pub run-IsCounted :
    (priority : ℕ) (raw : List (String × RawTask)) (job : BatchJob) (cs : List (ℕ × Call))
    → new priority raw ≡ ok job
    → IsCounted (run job cs)
run-IsCounted priority raw job cs e = run-IsCounted_of job cs (new-IsCounted priority raw job e)
