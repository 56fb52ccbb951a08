-- ===== src/Batch/Job/Verdict.antt =====
-- What the job's own status says of its tasks.
use docklet.Common.{
  ℕ, ◌+◌, ◌≤◌, ◌<◌, ◌≡◌, ◌≢◌, refl, sym, List, [], ◌∷◌, length, String, arith, All, ◌↔◌,
}
use docklet.Batch.Status.{Status, same, same_sound, same_refl, JobStatus}
use docklet.Batch.Job.{BatchJob, Task, update_job_status}
use docklet.Batch.Job.Counts.{IsCounted, number}

-- Every entry has the status `s`.
abbrev pub AllAre : Status → List (String × Task) → Type 0
AllAre s m = All (λ e. e.1.status ≡ s) m

number-le : (s : Status) (m : List (String × Task)) → number s m ≤ length m
unfolding number
number-le s [] = omega arith
number-le s ((idx, t) ∷ m) = ground (arith, number-le s m)

number-AllAre : (s : Status) (m : List (String × Task)) → number s m ≡ length m → AllAre s m
unfolding number
number-AllAre s [] e = tt
number-AllAre s ((idx, t) ∷ m) e = (
  sym (same_sound s t.status (ground (arith, number-le s m))),
  number-AllAre s m (ground (arith, number-le s m)),
)

AllAre-number : (s : Status) (m : List (String × Task)) → AllAre s m → number s m ≡ length m
unfolding number
AllAre-number s [] a = refl
AllAre-number s ((idx, t) ∷ m) a = ground (arith, AllAre-number s m a.1, same_refl s)

two_numbers :
    (m : List (String × Task)) → number Status.failed m + number Status.finished m ≤ length m
unfolding number same
two_numbers [] = omega arith
two_numbers ((idx, t) ∷ m) = ground (arith, two_numbers m)

-- What the status of `after` says of the tasks of `before`.
abbrev pub IsVerdict : BatchJob → BatchJob → Type 0
IsVerdict before after =
    ((after.job_db.status ≡ JobStatus.failed) ↔ (0 < number Status.failed before.tasks))
    × ((after.job_db.status ≡ JobStatus.done) ↔ AllAre Status.finished before.tasks)
    × ((after.job_db.status ≡ JobStatus.stopped) ↔ (
        (before.job_db.status ≡ JobStatus.stopping)
        × (number Status.failed before.tasks ≡ 0)
        × (number Status.finished before.tasks ≢ length before.tasks)
        × (number Status.running before.tasks ≡ 0)
        × (number Status.scheduling before.tasks ≡ 0)
        × (number Status.retrying before.tasks ≡ 0)))

-- Where the counters of a job agree with its tasks, its status computed again is `failed` exactly if
-- some task has failed, `done` exactly if all have finished, and `stopped` exactly if it was
-- `stopping`, no task has failed, not all have finished and none is running, scheduling or retrying.
pub update_job_status_lem :
    (job : BatchJob) (now : ℕ) → IsCounted job → IsVerdict job (update_job_status job now)
unfolding update_job_status
update_job_status_lem job now c =
    let failed = c.counted Status.failed (λ q. cc) in
    let finished = c.counted Status.finished (λ q. cc) in
    let running = c.counted Status.running (λ q. cc) in
    let scheduling = c.counted Status.scheduling (λ q. cc) in
    let retrying = c.counted Status.retrying (λ q. cc) in
    let both = two_numbers job.tasks in
    (
      (λ e. ground (arith, failed), λ pos. ground (arith, failed)),
      (
        λ e. number-AllAre Status.finished job.tasks (ground (arith, failed, finished)),
        λ a. ground (arith, failed, finished, both, AllAre-number Status.finished job.tasks a),
      ),
      (
        λ e. ground (arith, failed, finished, running, scheduling, retrying),
        λ a. ground (arith, failed, finished, running, scheduling, retrying),
      ),
    )
