-- ===== src/Batch/Job/Order/Runs.antt =====
-- The dependencies between tasks over the whole life of a job.
use docklet.Common.{
  ℕ, ◌≡◌, ◌≢◌, refl, sym, subst, ap, ◌∙◌, inl, inr, true, List, [], ◌∷◌, ◌++◌, map, String, none,
  some, some_inj, Bool-cases, str_eq,
}
use mathlib.Core.List.{append_assoc, append-nil}
use docklet.Batch.Status.{Status, same, new_task}
use docklet.Batch.Job.{
  BatchJob, Task, RawTask, ok, new, build, add_outs, names, mem, keys, update_task_running,
  update_task_retrying, update_task_failed, update_task_stopped, get_tasks_no_dependency, stop_job,
  change_status, charge, is_over, start_row, retry_row, fail_row, stop_row, mem,
}
use docklet.Batch.Job.Table.{find}
use docklet.Batch.Job.Counts.{tasks-update_job_status, after, after_stop}
use docklet.Batch.Job.History.{
  Call, submits, stops_job, runs, retries, fails, finishes, stops, step, run, Result-cases, ok-inj,
}
use docklet.Batch.Job.Order.{IsFinished, IsOrdered, Dependencies}
use docklet.Batch.Job.Order.Steps.{
  is_active, report-IsOrdered, schedule_ready-IsOrdered, finish_task-IsOrdered,
}

-- The entry of a submitted task.
abbrev pub entry : String × RawTask → String × Task
entry (idx, t) = (
  idx,
  record { config = t.config; status = Status.pending; dependency = t.dependency; row = new_task },
)

build-map :
    (known : List String) (raw : List (String × RawTask)) (tasks : List (String × Task))
    (out : List (String × List String)) (built : List (String × Task) × List (String × List String))
    → build known raw tasks out ≡ ok built
    → built.0 ≡ tasks ++ map entry raw
unfolding build
build-map known [] tasks out built e =
    sym (ap (λ (b : List (String × Task) × List (String × List String)). b.0) (ok-inj e))
    ∙ sym (append-nil tasks)
build-map known ((idx, t) ∷ raw) tasks out built e =
    elim (Result-cases (add_outs known idx t.dependency out)) [
      | inl (out', ok_out) ↦
          build-map known raw (tasks ++ entry (idx, t) ∷ []) out' built (rw (ok_out, build) at e)
          ∙ append_assoc tasks (entry (idx, t) ∷ []) (map entry raw)
      | inr (inl bad) ↦ absurd (cc (rw (bad, build) at e))
      | inr (inr bad) ↦ absurd (cc (rw (bad, build) at e))
    ]

-- What a task was submitted to depend on.
unfoldable pub submitted : List (String × RawTask) → Dependencies
submitted raw idx = elim (find idx raw) [ none ↦ [] | some t ↦ t.dependency ]

find-entry :
    (raw : List (String × RawTask)) (idx : String) (t : Task)
    → find idx (map entry raw) ≡ some t
    → (t.status ≡ Status.pending) × (t.dependency ≡ submitted raw idx)
unfolding find submitted
find-entry [] idx t e = cc
find-entry ((j, r) ∷ raw) idx t e = elim (Bool-cases (str_eq j idx)) [
  | inl here ↦
      let q = some_inj (rw (here, find) at e) in
      (
        ap (λ (x : Task). x.status) (sym q),
        rw (submitted, find, here) (ap (λ (x : Task). x.dependency) (sym q)),
      )
  | inr other ↦ rw (submitted, find, other) (find-entry raw idx t (rw (other, find) at e))
]

new-IsOrdered :
    (priority : ℕ) (raw : List (String × RawTask)) (job : BatchJob)
    → new priority raw ≡ ok job
    → IsOrdered (submitted raw) job.tasks
unfolding new
new-IsOrdered priority raw job e = elim (Result-cases (build (names raw) raw [] [])) [
  | inl (built, ok_built) ↦
      let tasks : built.0 ≡ job.tasks =
        ap (λ (j : BatchJob). j.tasks) (ok-inj (rw (ok_built, new) at e)) in
      let all = sym (build-map (names raw) raw [] [] built ok_built) ∙ tasks in
      subst (IsOrdered (submitted raw)) all (record {
        waits = λ idx t there live. absurd (live (find-entry raw idx t there).0);
        dropped = λ idx t d there was gone.
            absurd (cc (was, gone, ap (mem d) (find-entry raw idx t there).1));
      })
  | inr (inl bad) ↦ absurd (cc (rw (bad, new) at e))
  | inr (inr bad) ↦ absurd (cc (rw (bad, new) at e))
]

-- A report is allowed about an active task: one that has been handed over and is not over.
abbrev pub IsActive : BatchJob → String → Type 0
IsActive job idx = (t : Task) × (find idx job.tasks ≡ some t) × (is_active t.status ≡ true)

abbrev pub IsAllowed : BatchJob → Call → Type 0
IsAllowed job submits = Unit
IsAllowed job stops_job = Unit
IsAllowed job (runs idx) = IsActive job idx
IsAllowed job (retries idx reason) = IsActive job idx
IsAllowed job (fails idx reason t b) = IsActive job idx
IsAllowed job (finishes idx t b) = IsActive job idx
IsAllowed job (stops idx t b) = IsActive job idx

abbrev pub AreAllowed : BatchJob → List (ℕ × Call) → Type 0
AreAllowed job [] = Unit
AreAllowed job (c ∷ cs) = IsAllowed job c.1 × AreAllowed (step job c) cs

step-IsOrdered :
    (orig : Dependencies) (job : BatchJob) (c : ℕ × Call)
    → IsAllowed job c.1
    → IsOrdered orig job.tasks
    → IsOrdered orig (step job c).tasks
unfolding step get_tasks_no_dependency stop_job update_task_running update_task_retrying
    update_task_failed update_task_stopped change_status charge
step-IsOrdered orig job (now, submits) a o = schedule_ready-IsOrdered orig (keys job.tasks) job o
step-IsOrdered orig job (now, stops_job) a o = o
step-IsOrdered orig job (now, runs idx) (t, e, active) o =
    elim (Bool-cases (same t.status Status.stopping)) [
      | inl stop ↦ rw (e, stop, after) o
      | inr go ↦
          rw (e, go, after)
            (rw tasks-update_job_status
              (report-IsOrdered orig job.tasks idx t Status.running (start_row now) o e active))
    ]
step-IsOrdered orig job (now, retries idx reason) (t, e, active) o =
    elim (Bool-cases (same t.status Status.stopping)) [
      | inl stop ↦ rw (e, stop, after) o
      | inr go ↦
          rw (e, go, after)
            (rw tasks-update_job_status
              (report-IsOrdered orig job.tasks idx t Status.retrying (retry_row reason) o e active))
    ]
step-IsOrdered orig job (now, fails idx reason time b) (t, e, active) o =
    rw (e, after)
      (rw tasks-update_job_status (
        report-IsOrdered orig job.tasks idx t Status.failed (fail_row reason time b now) o e
          active))
step-IsOrdered orig job (now, finishes idx time b) (t, e, active) o =
    finish_task-IsOrdered orig job idx t time b now o e active
step-IsOrdered orig job (now, stops idx time b) (t, e, active) o =
    elim (Bool-cases (is_over t.status)) [
      | inl over ↦ rw (e, over, after_stop) o
      | inr live ↦
          rw (e, live, after_stop)
            (rw tasks-update_job_status (
              report-IsOrdered orig job.tasks idx t Status.stopped (stop_row time b now) o e
                active))
    ]

run-IsOrdered_of :
    (orig : Dependencies) (job : BatchJob) (cs : List (ℕ × Call))
    → AreAllowed job cs
    → IsOrdered orig job.tasks
    → IsOrdered orig (run job cs).tasks
unfolding run
run-IsOrdered_of orig job [] a o = o
run-IsOrdered_of orig job (c ∷ cs) (a, later) o =
    run-IsOrdered_of orig (step job c) cs later (step-IsOrdered orig job c a o)

-- Take a job that the constructor accepts and calls of which each report is about a task that was
-- handed over and is not over. A task that is not pending after them was submitted with
-- dependencies that have all finished by then.
pub run-IsOrdered :
    (priority : ℕ) (raw : List (String × RawTask)) (job : BatchJob) (cs : List (ℕ × Call))
    (idx d : String) (t : Task)
    → new priority raw ≡ ok job
    → AreAllowed job cs
    → find idx (run job cs).tasks ≡ some t
    → t.status ≢ Status.pending
    → mem d (submitted raw idx) ≡ true
    → IsFinished (run job cs).tasks d
unfolding mem
run-IsOrdered priority raw job cs idx d t accepted allowed there live was =
    let o =
      run-IsOrdered_of (submitted raw) job cs allowed (new-IsOrdered priority raw job accepted) in
    o.dropped idx t d there was (rw (o.waits idx t there live) refl)
