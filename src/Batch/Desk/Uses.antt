-- ===== src/Batch/Desk/Uses.antt =====
-- The usage that the task manager keeps for each worker, and the vnodes that are started there.
use docklet.Common.{
  ℕ, ◌+◌, ◌-◌, ◌≡◌, ◌&&◌, Option, none, some, List, if◌then◌else◌, String, get_elem?, modify, total,
  total-modify, part-le_total, arith,
}
use docklet.Batch.Task.{SubTask}
use docklet.Batch.Placement.{Usage}
use docklet.Batch.Desk.{same_worker}

-- What a vnode uses on the worker k while it is started: cores, and gpus.
abbrev pub on : Option String → SubTask → ℕ → ℕ
on k s n = if s.vnode_started && same_worker s.worker k then n else 0

abbrev pub cpu_on : Option String → SubTask → ℕ
cpu_on k s = on k s s.instance_needs.cpu

abbrev pub gpu_on : Option String → SubTask → ℕ
gpu_on k s = on k s s.instance_needs.gpu

-- The usage is what others use, c and g, and what these vnodes use.
pub record Uses (c g : Option String → ℕ) (u : Usage) (l : List SubTask) : Type 0 where
  pub cpu : (k : Option String) → u.cpu_usage k ≡ c k + total (cpu_on k) l
  pub gpu : (k : Option String) → u.gpu_usage k ≡ g k + total (gpu_on k) l
  pub nobody : (u.cpu_usage none ≡ 0) × (u.gpu_usage none ≡ 0)

pub record UsesOne (c g : Option String → ℕ) (u : Usage) (s : SubTask) : Type 0 where
  pub cpu : (k : Option String) → u.cpu_usage k ≡ c k + cpu_on k s
  pub gpu : (k : Option String) → u.gpu_usage k ≡ g k + gpu_on k s
  pub nobody : (u.cpu_usage none ≡ 0) × (u.gpu_usage none ≡ 0)

-- Two states of a subtask that use the same.
pub record SameUse (s s' : SubTask) : Type 0 where
  pub needs : s'.instance_needs ≡ s.instance_needs
  pub started : s'.vnode_started ≡ s.vnode_started
  pub worker : s'.worker ≡ s.worker

pub same_on :
    (s s' : SubTask) (k : Option String)
    → SameUse s s'
    → (cpu_on k s' ≡ cpu_on k s) × (gpu_on k s' ≡ gpu_on k s)
same_on s s' k e = (cc (e.needs, e.started, e.worker), cc (e.needs, e.started, e.worker))

abbrev pub others :
    (Option String → ℕ) → (Option String → SubTask → ℕ) → List SubTask → SubTask → Option String → ℕ
others c f l s k = c k + (total (f k) l - f k s)

pub focus :
    (c g : Option String → ℕ) (u : Usage) (l : List SubTask) (i : ℕ) (s : SubTask)
    → get_elem? l i ≡ some s
    → Uses c g u l
    → UsesOne (others c cpu_on l s) (others g gpu_on l s) u s
focus c g u l i s e h = record {
  cpu = λ k. omega (arith, h.cpu k, part-le_total (cpu_on k) i l s e);
  gpu = λ k. omega (arith, h.gpu k, part-le_total (gpu_on k) i l s e);
  nobody = h.nobody;
}

pub unfocus :
    (c g : Option String → ℕ) (u : Usage) (l : List SubTask) (i : ℕ) (s : SubTask)
    (f : SubTask → SubTask)
    → get_elem? l i ≡ some s
    → UsesOne (others c cpu_on l s) (others g gpu_on l s) u (f s)
    → Uses c g u (modify i f l)
unfocus c g u l i s f e h = record {
  cpu = λ k.
      omega (arith, h.cpu k, part-le_total (cpu_on k) i l s e, total-modify (cpu_on k) i f l s e);
  gpu = λ k.
      omega (arith, h.gpu k, part-le_total (gpu_on k) i l s e, total-modify (gpu_on k) i f l s e);
  nobody = h.nobody;
}

pub over_same :
    (c g : Option String → ℕ) (u : Usage) (s s' : SubTask)
    → SameUse s s'
    → UsesOne c g u s
    → UsesOne c g u s'
over_same c g u s s' e h = record {
  cpu = λ k. omega (arith, h.cpu k, (same_on s s' k e).0);
  gpu = λ k. omega (arith, h.gpu k, (same_on s s' k e).1);
  nobody = h.nobody;
}
