-- ===== src/Batch/Examples.antt =====
-- Tests of the batch jobs and their theorems at a job of two tasks, where "b" waits for "a".
use docklet.Common.{true, str_eq, ℕ, ◌≡◌, refl, List, [], ◌∷◌, String, some, if◌then◌else◌}
use docklet.Batch.Status.{Status, same, new_job, new_task}
use docklet.Batch.JobMgr.{JobMgr, Outside}
use docklet.Batch.Job
use docklet.Batch.Job.{BatchJob, Task, RawTask, ok, mem}
use docklet.Batch.Job.Table.{find}
use docklet.Batch.Job.Counts.{IsCounted}
use docklet.Batch.Job.Verdict.{IsVerdict, update_job_status_lem}
use docklet.Batch.Job.History.{Call, submits, runs, finishes, step, run, run-IsCounted}
use docklet.Batch.Job.Order.{IsFinished}
use docklet.Batch.Job.Order.Runs.{AreAllowed, submitted, run-IsOrdered}

abbrev two_tasks : List (String × RawTask)
two_tasks =
    ("a", record { config = "{}"; dependency = [] })
    ∷ ("b", record { config = "{}"; dependency = "a" ∷ [] })
    ∷ []

abbrev waiting : String → List String → String × Task
waiting idx ds =
    (idx, record { config = "{}"; status = Status.pending; dependency = ds; row = new_task })

abbrev two_job : BatchJob
two_job = record {
  priority = 3;
  tasks = waiting "a" [] ∷ waiting "b" ("a" ∷ []) ∷ [];
  dependency_out = ("a", "b" ∷ []) ∷ [];
  tasks_cnt = λ s. if same s Status.pending then 2 else 0;
  job_db = new_job;
}

accepted : Job.new 3 two_tasks ≡ ok two_job
unfolding Job.new Job.build Job.add_outs Job.add_out mem Job.names
accepted = refl

abbrev first_done : List (ℕ × Call)
first_done = (1, submits) ∷ (2, runs "a") ∷ (5, finishes "a" 3 7) ∷ []

run-IsCounted_example : IsCounted (run two_job first_done)
run-IsCounted_example = run-IsCounted 3 two_tasks two_job first_done accepted

-- The job after "a" has been handed over, started and finished: "b" is handed over.
first_done_b :
    find "b" (run two_job first_done).tasks
    ≡ some (record {
      config = "{}";
      status = Status.scheduling;
      dependency = [];
      row = record new_task { status = Status.scheduling };
    })
unfolding run step Job.get_tasks_no_dependency Job.update_task_running Job.finish_task find same
    docklet.Batch.Job.Table.alter Job.update_job_status new_job new_task Job.waiting_for Job.charge
    mem Job.remove
first_done_b = refl

first_done_allowed : AreAllowed two_job first_done
unfolding run step Job.get_tasks_no_dependency Job.update_task_running Job.finish_task find same
    docklet.Batch.Job.Table.alter Job.update_job_status new_job new_task Job.waiting_for Job.charge
    mem Job.remove Job.keys
first_done_allowed = (tt, ((_, refl, refl), ((_, refl, refl), tt)))

run-IsOrdered_example : IsFinished (run two_job first_done).tasks "a"
unfolding mem submitted find
run-IsOrdered_example =
    run-IsOrdered 3 two_tasks two_job first_done "b" "a" _ accepted first_done_allowed first_done_b
      (λ e. cc) refl

update_job_status_lem_example :
    IsVerdict (run two_job first_done) (Job.update_job_status (run two_job first_done) 9)
update_job_status_lem_example =
    update_job_status_lem (run two_job first_done) 9
      (run-IsCounted 3 two_tasks two_job first_done accepted)

-- Users who can always pay, and a task manager that takes the tasks of "ann" alone.
abbrev outside : Outside (Unit {0})
outside = record {
  post = λ username billing w. (true, w);
  add_task = λ h w. (str_eq h.user "ann", w);
}

abbrev manager : JobMgr (Unit {0})
manager = record {
  job_map = ("j", two_job) ∷ [];
  world = tt;
  charged = ("ann", 2) ∷ [];
  handed = [];
}
