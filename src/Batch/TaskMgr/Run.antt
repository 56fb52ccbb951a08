-- ===== src/Batch/TaskMgr/Run.antt =====
-- The life of a task manager: rounds of its loop, and the requests that come between them. Each method
-- runs to its end before the next, as its locks make it but for the reports of workers.
use docklet.Common.{ℕ, ◌≤◌, refl, List, [], ◌∷◌, String, total}
use docklet.Net.Address.{Ip}
use docklet.Batch.TaskNets.Pool.{new-IsOwned}
use docklet.Batch.TaskNets
use docklet.Batch.Desk.{Cluster}
use docklet.Batch.TaskReport.{TaskMsg}
use docklet.Batch.Intake.{TaskJson}
use docklet.Batch.TaskMgr.{TaskMgr, new, run_once, report_task, add_task, lazy_stop_task}
use docklet.Batch.TaskMgr.Accounts.{IsAccounted}
use docklet.Batch.TaskMgr.Rounds.{run_once-Fair, report_task-Fair, add_task-Fair}

-- A round of run(), a report of a worker, add_task, lazy_stop_task, and what goes on elsewhere.
pub data Event (W : Type 0) : Type 0 where
  round : Event W
  report : TaskMsg → Event W
  add : String → String → TaskJson → ℕ → Event W
  stop : String → Event W
  elsewhere : W → Event W

module _ {W : Type 0} (cluster : Cluster W) where
  unfoldable pub happen : Event W → TaskMgr W → TaskMgr W
  unfolding run_once report_task add_task lazy_stop_task
  happen round m = let (_, m') = run_once cluster m in m'
  happen (report msg) m = report_task cluster m msg
  happen (add username taskid json priority) m =
      let (_, m') = add_task cluster m username taskid json priority in m'
  happen (stop taskid) m = lazy_stop_task m taskid
  happen (elsewhere w) m = record m { desk = record m.desk { world = w } }

  unfoldable pub live : List (Event W) → TaskMgr W → TaskMgr W
  unfolding happen
  live [] m = m
  live (e ∷ es) m = live es (happen e m)

  happen-Fair :
      (e : Event W) (m : TaskMgr W)
      → IsAccounted m.desk m.tasks
      → IsAccounted (happen e m).desk (happen e m).tasks
  unfolding happen lazy_stop_task
  happen-Fair round m h = run_once-Fair cluster m h
  happen-Fair (report msg) m h = report_task-Fair cluster m msg h
  happen-Fair (add username taskid json priority) m h =
      add_task-Fair cluster m username taskid json priority h
  happen-Fair (stop taskid) m h = record {
    cpu = h.cpu;
    gpu = h.gpu;
    nobody = h.nobody;
    owned = h.owned;
  }
  happen-Fair (elsewhere w) m h = record {
    cpu = h.cpu;
    gpu = h.gpu;
    nobody = h.nobody;
    owned = h.owned;
  }

  live-Fair :
      (es : List (Event W)) (m : TaskMgr W)
      → IsAccounted m.desk m.tasks
      → IsAccounted (live es m).desk (live es m).tasks
  unfolding live
  live-Fair [] m h = h
  live-Fair (e ∷ es) m h = live-Fair es (happen e m) (happen-Fair e m h)

  -- A task manager starts with the nets of a batch network of cidr at most 30. Whatever rounds, reports,
  -- new tasks and stops follow in whatever order, and whichever of its calls the workers refuse: the
  -- cores and gpus that it counts as used on each worker are those that the vnodes it holds for started
  -- there need, none are counted for no worker, and each net of the batch network is free or held by one
  -- task, never twice.
  pub live-IsAccounted :
      (world : W) (batch_net : Ip) (batch_cidr cidr : ℕ) (es : List (Event W))
      → batch_cidr ≤ 30
      → let m = live es (new world (TaskNets.new batch_net batch_cidr cidr)) in
        IsAccounted m.desk m.tasks
  unfolding new total
  live-IsAccounted world batch_net batch_cidr cidr es le =
      live-Fair es (new world (TaskNets.new batch_net batch_cidr cidr)) (record {
        cpu = λ k. refl;
        gpu = λ k. refl;
        nobody = (refl, refl);
        owned = new-IsOwned batch_net batch_cidr cidr le;
      })
