-- ===== src/Batch/Job/Counts/Release.antt =====
-- The counters while tasks are handed to the task manager.
use docklet.Common.{
  ℕ, ◌≡◌, refl, subst, ◌∙◌, inl, inr, true, some, List, [], ◌∷◌, String, arith, Bool-cases, eq_refl,
  Option-cases,
}
use docklet.Batch.Status.{Status, same, same_sound}
use docklet.Batch.Job.{
  BatchJob, Task, charge, is_ready, lose, mem, schedule_one, waiting_for, finish_row, change_status,
  schedule, schedule_ready, drop_dependency, release_one, release_all, finish_task,
}
use docklet.Batch.Job.Table.{find, alter, find-alter}
use docklet.Batch.Job.Counts.{
  IsCounted, number-alter, change_status-IsCounted, same_table, update_job_status-IsCounted,
}

schedule-IsCounted :
    (job : BatchJob) (idx : String) (t : Task)
    → IsCounted job
    → find idx job.tasks ≡ some t
    → is_ready t ≡ true
    → IsCounted (schedule job idx t).0
unfolding schedule
schedule-IsCounted job idx t c e ready =
    let was : t.status ≡ Status.pending = same_sound t.status Status.pending (ground arith) in
    subst (λ s. IsCounted (change_status job idx s Status.scheduling (λ row. row))) was
      (change_status-IsCounted job idx t Status.scheduling (λ row. row) c e (λ q. cc))

schedule_one-IsCounted :
    (job : BatchJob) (idx : String) → IsCounted job → IsCounted (schedule_one job idx).0
unfolding schedule_one
schedule_one-IsCounted job idx c = elim (Option-cases (find idx job.tasks)) [
  | inl absent ↦ rw (absent, schedule_one) c
  | inr (t, e) ↦ elim (Bool-cases (is_ready t)) [
    | inl ready ↦ rw (e, ready, schedule_one) (schedule-IsCounted job idx t c e ready)
    | inr waits ↦ rw (e, waits, schedule_one) c
  ]
]

pub schedule_ready-IsCounted :
    (idxs : List String) (job : BatchJob) → IsCounted job → IsCounted (schedule_ready idxs job).0
unfolding schedule_ready
schedule_ready-IsCounted [] job c = c
schedule_ready-IsCounted (idx ∷ rest) job c =
    schedule_ready-IsCounted rest (schedule_one job idx).0 (schedule_one-IsCounted job idx c)

lose-IsCounted :
    (job : BatchJob) (idx out_idx : String) (t : Task)
    → IsCounted job
    → find out_idx job.tasks ≡ some t
    → IsCounted (record job { tasks = alter out_idx (lose idx) job.tasks })
lose-IsCounted job idx out_idx t c e = record {
  counted = λ s ne. omega (arith, c.counted s ne, number-alter s out_idx t (lose idx) job.tasks e);
  no_stopping =
      omega (arith, c.no_stopping, number-alter Status.stopping out_idx t (lose idx) job.tasks e);
}

drop_dependency-IsCounted :
    (job : BatchJob) (idx out_idx : String) (t : Task)
    → IsCounted job
    → find out_idx job.tasks ≡ some t
    → IsCounted (drop_dependency job idx out_idx t).0
unfolding drop_dependency
drop_dependency-IsCounted job idx out_idx t c e =
    let c' = lose-IsCounted job idx out_idx t c e in
    elim (Bool-cases (is_ready (lose idx t))) [
      | inl ready ↦ rw ready (
          schedule-IsCounted _ out_idx (lose idx t) c'
            (find-alter out_idx out_idx (lose idx) job.tasks ∙ rw (eq_refl out_idx) (rw e)) ready)
      | inr waits ↦ rw waits c'
    ]

release_one-IsCounted :
    (job : BatchJob) (idx out_idx : String)
    → IsCounted job
    → IsCounted (release_one job idx out_idx).0
unfolding release_one
release_one-IsCounted job idx out_idx c = elim (Option-cases (find out_idx job.tasks)) [
  | inl absent ↦ rw (absent, release_one) c
  | inr (t, e) ↦ elim (Bool-cases (mem idx t.dependency)) [
    | inl waits ↦ rw (e, waits, release_one) (drop_dependency-IsCounted job idx out_idx t c e)
    | inr other ↦ rw (e, other, release_one) c
  ]
]

release_all-IsCounted :
    (outs : List String) (job : BatchJob) (idx : String)
    → IsCounted job
    → IsCounted (release_all job idx outs).0
unfolding release_all
release_all-IsCounted [] job idx c = c
release_all-IsCounted (out_idx ∷ outs) job idx c =
    release_all-IsCounted outs (release_one job idx out_idx).0 idx
      (release_one-IsCounted job idx out_idx c)

pub finish_task-IsCounted :
    (job : BatchJob) (idx : String) (running_time billing now : ℕ)
    → IsCounted job
    → IsCounted (finish_task job idx running_time billing now).0
unfolding finish_task charge
finish_task-IsCounted job idx running_time billing now c =
    elim (Option-cases (find idx job.tasks)) [
      | inl absent ↦ rw (absent, finish_task) c
      | inr (t, e) ↦ elim (Bool-cases (same t.status Status.stopping)) [
        | inl stop ↦ rw (e, stop, finish_task) c
        | inr go ↦
            rw (e, go, finish_task)
              (update_job_status-IsCounted _ now (
                release_all-IsCounted (waiting_for job idx) _ idx (
                  same_table
                    (change_status job idx t.status Status.finished
                      (finish_row running_time billing now))
                    _ refl refl
                    (change_status-IsCounted job idx t Status.finished
                      (finish_row running_time billing now) c e (λ q. cc)))))
      ]
    ]
