-- ===== src/Batch/Job/Order/Steps.antt =====
-- The methods of a job and the order of its tasks.
use docklet.Common.{
  ℕ, ◌≡◌, ◌≢◌, refl, sym, subst, ap, inl, inr, Bool, true, false, ◌||◌, List, [], ◌∷◌, String,
  arith, some, Bool-cases, Option-cases,
}
use docklet.Batch.Status.{Status, same, same_sound, Batchtask}
use docklet.Batch.Job.{
  BatchJob, Task, mem, set_status, lose, is_ready, schedule, schedule_one, schedule_ready,
  drop_dependency, release_one, release_all, waiting_for, charge, finish_task, finish_row,
  change_status,
}
use docklet.Batch.Job.Table.{find, alter}
use docklet.Batch.Job.Counts.{tasks-update_job_status}
use docklet.Batch.Job.Order.{
  Dependencies, IsFinished, IsOrdered, find-alter_self, Respects, IsFinished-alter, alter-IsOrdered,
  mem-remove,
}

-- A task that has been handed to the task manager and is not over.
abbrev pub is_active : Status → Bool
is_active s = same s Status.scheduling || (same s Status.running || same s Status.retrying)

active_ne : (s t : Status) → is_active s ≡ true → is_active t ≡ false → s ≢ t
active_ne s t a b e = cc (ap is_active e, a, b)

-- A report about an active task.
report-Respects :
    (orig : Dependencies) (m : List (String × Task)) (idx : String) (t : Task) (s : Status)
    (f : Batchtask → Batchtask)
    → IsOrdered orig m
    → find idx m ≡ some t
    → is_active t.status ≡ true
    → Respects m idx t (set_status s f t)
report-Respects orig m idx t s f o e active =
    let empty = o.waits idx t e (active_ne t.status Status.pending active (unfold same in refl)) in
    record {
      stays = λ done. absurd (active_ne t.status Status.finished active (unfold same in refl) done);
      waits = λ _. empty;
      drops = λ d was gone. absurd (cc (was, gone));
    }

schedule-IsOrdered :
    (orig : Dependencies) (job : BatchJob) (idx : String) (t : Task)
    → IsOrdered orig job.tasks
    → find idx job.tasks ≡ some t
    → is_ready t ≡ true
    → IsOrdered orig (schedule job idx t).0.tasks
unfolding schedule
schedule-IsOrdered orig job idx t o e ready =
    let was : t.status ≡ Status.pending = same_sound t.status Status.pending (ground arith) in
    let empty : t.dependency ≡ [] = ground arith in
    alter-IsOrdered orig job.tasks idx t (set_status Status.scheduling (λ row. row)) e
      (record {
        stays = λ done. absurd (cc (was, done));
        waits = λ _. empty;
        drops = λ d had gone. absurd (cc (had, gone));
      })
      o

schedule_one-IsOrdered :
    (orig : Dependencies) (job : BatchJob) (idx : String)
    → IsOrdered orig job.tasks
    → IsOrdered orig (schedule_one job idx).0.tasks
unfolding schedule_one
schedule_one-IsOrdered orig job idx o = elim (Option-cases (find idx job.tasks)) [
  | inl absent ↦ rw (absent, schedule_one) o
  | inr (t, e) ↦ elim (Bool-cases (is_ready t)) [
    | inl ready ↦ rw (e, ready, schedule_one) (schedule-IsOrdered orig job idx t o e ready)
    | inr waits ↦ rw (e, waits, schedule_one) o
  ]
]

pub schedule_ready-IsOrdered :
    (orig : Dependencies) (idxs : List String) (job : BatchJob)
    → IsOrdered orig job.tasks
    → IsOrdered orig (schedule_ready idxs job).0.tasks
unfolding schedule_ready
schedule_ready-IsOrdered orig [] job o = o
schedule_ready-IsOrdered orig (idx ∷ rest) job o =
    schedule_ready-IsOrdered orig rest (schedule_one job idx).0
      (schedule_one-IsOrdered orig job idx o)

module _ (orig : Dependencies) (idx : String) where
  -- While the loop of `finish_task` runs, `idx` has finished.
  record Holds (m : List (String × Task)) : Type 0 where
    ordered : IsOrdered orig m
    finished : IsFinished m idx

  drop_dependency-Holds :
      (job : BatchJob) (out_idx : String) (t : Task)
      → Holds job.tasks
      → find out_idx job.tasks ≡ some t
      → mem idx t.dependency ≡ true
      → Holds (drop_dependency job idx out_idx t).0.tasks
  unfolding drop_dependency schedule mem
  drop_dependency-Holds job out_idx t h e waiting =
      let m = alter out_idx (lose idx) job.tasks in
      let o =
        alter-IsOrdered orig job.tasks out_idx t (lose idx) e
          (record {
            stays = λ done. done;
            waits = λ live. absurd (cc (waiting, h.ordered.waits out_idx t e live));
            drops = λ d had gone.
                subst (IsFinished job.tasks) (sym (mem-remove d idx t.dependency had gone))
                  h.finished;
          })
          h.ordered in
      let f = IsFinished-alter job.tasks out_idx idx t (lose idx) e (λ done. done) h.finished in
      let there = find-alter_self out_idx (lose idx) job.tasks t e in
      elim (Bool-cases (is_ready (lose idx t))) [
        | inr waits ↦ rw waits (record { ordered = o; finished = f })
        | inl ready ↦
            let was : t.status ≡ Status.pending =
              same_sound t.status Status.pending (ground arith) in
            rw ready (record {
              ordered =
                  schedule-IsOrdered orig (record job { tasks = m }) out_idx (lose idx t) o there
                    ready;
              finished =
                  IsFinished-alter m out_idx idx (lose idx t)
                    (set_status Status.scheduling (λ row. row)) there
                    (λ done. absurd (cc (was, done))) f;
            })
      ]

  release_one-Holds :
      (job : BatchJob) (out_idx : String)
      → Holds job.tasks
      → Holds (release_one job idx out_idx).0.tasks
  unfolding release_one
  release_one-Holds job out_idx h = elim (Option-cases (find out_idx job.tasks)) [
    | inl absent ↦ rw (absent, release_one) h
    | inr (t, e) ↦ elim (Bool-cases (mem idx t.dependency)) [
      | inl waiting ↦ rw (e, waiting, release_one) (drop_dependency-Holds job out_idx t h e waiting)
      | inr other ↦ rw (e, other, release_one) h
    ]
  ]

  release_all-Holds :
      (outs : List String) (job : BatchJob)
      → Holds job.tasks
      → Holds (release_all job idx outs).0.tasks
  unfolding release_all
  release_all-Holds [] job h = h
  release_all-Holds (out_idx ∷ outs) job h =
      release_all-Holds outs (release_one job idx out_idx).0 (release_one-Holds job out_idx h)

-- A report about an active task keeps the order.
pub report-IsOrdered :
    (orig : Dependencies) (m : List (String × Task)) (idx : String) (t : Task) (s : Status)
    (f : Batchtask → Batchtask)
    → IsOrdered orig m
    → find idx m ≡ some t
    → is_active t.status ≡ true
    → IsOrdered orig (alter idx (set_status s f) m)
report-IsOrdered orig m idx t s f o e active =
    alter-IsOrdered orig m idx t (set_status s f) e (report-Respects orig m idx t s f o e active) o

pub finish_task-IsOrdered :
    (orig : Dependencies) (job : BatchJob) (idx : String) (t : Task) (running_time billing now : ℕ)
    → IsOrdered orig job.tasks
    → find idx job.tasks ≡ some t
    → is_active t.status ≡ true
    → IsOrdered orig (finish_task job idx running_time billing now).0.tasks
unfolding finish_task charge change_status
finish_task-IsOrdered orig job idx t running_time billing now o e active =
    let row = finish_row running_time billing now in
    let m = alter idx (set_status Status.finished row) job.tasks in
    let job' = charge (change_status job idx t.status Status.finished row) billing in
    let done : Holds orig idx job'.tasks = record {
      ordered = report-IsOrdered orig job.tasks idx t Status.finished row o e active;
      finished = (
        set_status Status.finished row t,
        find-alter_self idx (set_status Status.finished row) job.tasks t e,
        refl,
      );
    } in
    elim (Bool-cases (same t.status Status.stopping)) [
      | inl stop ↦ rw (e, stop, finish_task) o
      | inr go ↦
          rw (e, go, finish_task)
            (rw tasks-update_job_status
              (release_all-Holds orig idx (waiting_for job idx) job' done).ordered)
    ]
