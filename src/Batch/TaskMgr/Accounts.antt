-- ===== src/Batch/TaskMgr/Accounts.antt =====
-- The usage of the workers and the nets, against all the tasks that the manager has ever made.
use docklet.Common.{
  ℕ, ◌-◌, ◌≡◌, inl, inr, Option, none, some, Option-cases, List, String, get_elem?, modify, total,
  total-modify, part-le_total, arith,
}
use docklet.Batch.Task.{Task}
use docklet.Batch.TaskNets.{TaskNets}
use docklet.Batch.TaskNets.Pool.{holds, IsOwned}
use docklet.Batch.Desk.{Cluster, Desk}
use docklet.Batch.Desk.Uses.{cpu_on, gpu_on}
use docklet.Batch.Desk.Sound.{IsSound}
use docklet.Batch.TaskMgr.{TaskMgr, treat}

-- What the vnodes of a task use on the worker k while they are started.
abbrev pub task_cpu : Option String → Task → ℕ
task_cpu k t = total (cpu_on k) t.subtask_list

abbrev pub task_gpu : Option String → Task → ℕ
task_gpu k t = total (gpu_on k) t.subtask_list

abbrev pub task_net : ℕ → Task → ℕ
task_net x t = holds x t.task_base_ip

-- The usage of each worker is what the vnodes that are started on it need; each net is free or held
-- by one task.
pub record IsAccounted {W : Type 0} (d : Desk W) (tasks : List Task) : Type 0 where
  pub cpu : (k : Option String) → d.usage.cpu_usage k ≡ total (task_cpu k) tasks
  pub gpu : (k : Option String) → d.usage.gpu_usage k ≡ total (task_gpu k) tasks
  pub nobody : (d.usage.cpu_usage none ≡ 0) × (d.usage.gpu_usage none ≡ 0)
  pub owned : IsOwned d.nets (λ x. total (task_net x) tasks)

pub weaken-IsOwned :
    (n : TaskNets) (held held' : ℕ → ℕ)
    → ((x : ℕ) → held' x ≡ held x)
    → IsOwned n held
    → IsOwned n held'
weaken-IsOwned n held held' e h = record {
  once = λ x. omega (arith, e x, h.once x);
  net = λ x pos.
      let k = h.net x (omega (arith, e x, pos)) in record { aligned = k.aligned; fits = k.fits };
  whole = λ x k. omega (arith, e x, h.whole x (record { aligned = k.aligned; fits = k.fits }));
}

module _ {W : Type 0} (cluster : Cluster W) where
  -- What all tasks but t use or hold
  abbrev others : {A : Type 0} → (A → Task → ℕ) → List Task → Task → A → ℕ
  others f tasks t k = total (f k) tasks - f k t

  abbrev pub Alone : List Task → Task → Desk W → Task → Type 0
  Alone tasks t d t' =
      IsSound cluster (others task_cpu tasks t) (others task_gpu tasks t) (others task_net tasks t)
        d t'

  pub alone :
      (d : Desk W) (tasks : List Task) (r : ℕ) (t : Task)
      → get_elem? tasks r ≡ some t
      → IsAccounted d tasks
      → Alone tasks t d t
  alone d tasks r t e h = record {
    uses = record {
      cpu = λ k. omega (arith, h.cpu k, part-le_total (task_cpu k) r tasks t e);
      gpu = λ k. omega (arith, h.gpu k, part-le_total (task_gpu k) r tasks t e);
      nobody = h.nobody;
    };
    owned =
        weaken-IsOwned d.nets _ _ (λ x. omega (arith, part-le_total (task_net x) r tasks t e))
          h.owned;
  }

  pub together :
      (d : Desk W) (tasks : List Task) (r : ℕ) (t : Task) (f : Task → Task)
      → get_elem? tasks r ≡ some t
      → Alone tasks t d (f t)
      → IsAccounted d (modify r f tasks)
  together d tasks r t f e h = record {
    cpu = λ k. omega (
      arith,
      h.uses.cpu k,
      part-le_total (task_cpu k) r tasks t e,
      total-modify (task_cpu k) r f tasks t e,
    );
    gpu = λ k. omega (
      arith,
      h.uses.gpu k,
      part-le_total (task_gpu k) r tasks t e,
      total-modify (task_gpu k) r f tasks t e,
    );
    nobody = h.uses.nobody;
    owned =
        weaken-IsOwned d.nets _ _
          (λ x. omega (
            arith,
            part-le_total (task_net x) r tasks t e,
            total-modify (task_net x) r f tasks t e,
          ))
          h.owned;
  }

  -- Where a method keeps one task sound, whatever the others use and hold, it keeps the accounts.
  pub treat-IsAccounted :
      (f : Desk W → Task → Desk W × Task) (r : ℕ) (m : TaskMgr W)
      → ((c g : Option String → ℕ) (held : ℕ → ℕ) (d : Desk W) (t : Task)
          → IsSound cluster c g held d t
          → IsSound cluster c g held (f d t).0 (f d t).1)
      → IsAccounted m.desk m.tasks
      → IsAccounted (treat f r m).desk (treat f r m).tasks
  unfolding treat
  treat-IsAccounted f r m keeps h = elim (Option-cases (get_elem? m.tasks r)) [
    | inl gone ↦ rw (gone, treat) h
    | inr (t, e) ↦
        let (d, t') = f m.desk t in
        rw (e, treat)
          (together d m.tasks r t (λ _. t') e (keeps _ _ _ m.desk t (alone m.desk m.tasks r t e h)))
  ]
