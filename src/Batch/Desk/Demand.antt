-- ===== src/Batch/Desk/Demand.antt =====
-- How far the usage of a worker can grow while the task manager starts and stops vnodes.
use docklet.Common.{
  ℕ, suc, ◌+◌, ◌≤◌, ◌≡◌, refl, ap, inl, inr, false, not, ◌&&◌, Option, some, Bool-cases,
  Option-cases, List, [], ◌∷◌, if◌then◌else◌, String, arith, if_either,
}
use docklet.Batch.Task.{SubTask, Task, Instance}
use docklet.Batch.Placement.{Usage}
use docklet.Batch.Desk.{
  Cluster, Desk, same_worker, add_use, sub_use, add_usage, sub_usage, send, start_vnode, stop_vnode,
  start_subtask, stop_subtask, clear_command, clear_vnode, clear_sub_task, clear_sub_tasks,
  start_vnode_rpc, stop_vnode_rpc, start_task_rpc, stop_task_rpc, stop_remove_task, complete,
  billing_of,
}

-- One of the two measures of the usage: cores or gpus.
pub record Measure : Type 0 where
  pub need : Instance → ℕ
  pub used : Usage → Option String → ℕ
  pub added :
      (s : SubTask) (u : Usage) (k : Option String)
      → used (add_usage s u) k
        ≡ used u k + (if same_worker s.worker k then need s.instance_needs else 0)
  pub subtracted : (s : SubTask) (u : Usage) (k : Option String) → used (sub_usage s u) k ≤ used u k

pub cpu_grows :
    (s : SubTask) (u : Usage) (k : Option String)
    → (add_usage s u).cpu_usage k
      ≡ u.cpu_usage k + (if same_worker s.worker k then s.instance_needs.cpu else 0)
unfolding add_usage add_use
cpu_grows s u k = ground arith

pub cpu_shrinks :
    (s : SubTask) (u : Usage) (k : Option String) → (sub_usage s u).cpu_usage k ≤ u.cpu_usage k
unfolding sub_usage sub_use
cpu_shrinks s u k = ground arith

pub gpu_grows :
    (s : SubTask) (u : Usage) (k : Option String)
    → (add_usage s u).gpu_usage k
      ≡ u.gpu_usage k + (if same_worker s.worker k then s.instance_needs.gpu else 0)
unfolding add_usage add_use
gpu_grows s u k = ground arith

pub gpu_shrinks :
    (s : SubTask) (u : Usage) (k : Option String) → (sub_usage s u).gpu_usage k ≤ u.gpu_usage k
unfolding sub_usage sub_use
gpu_shrinks s u k = ground arith

abbrev pub cores : Measure
cores = record {
  need = λ n. n.cpu;
  used = λ u. u.cpu_usage;
  added = cpu_grows;
  subtracted = cpu_shrinks;
}

abbrev pub gpus : Measure
gpus = record {
  need = λ n. n.gpu;
  used = λ u. u.gpu_usage;
  added = gpu_grows;
  subtracted = gpu_shrinks;
}

-- What a vnode will use on the worker ip once it is started.
abbrev pub wants : Measure → String → SubTask → ℕ
wants p ip s =
    if not s.vnode_started && same_worker s.worker (some ip) then p.need s.instance_needs else 0

module _ {W : Type 0} (cluster : Cluster W) (p : Measure) (ip : String) where
  abbrev on_ip : Desk W → ℕ
  on_ip d = p.used d.usage (some ip)

  pub start_vnode_grows :
      (id : String) (i : ℕ) (d : Desk W) (s : SubTask)
      → s.vnode_started ≡ false
      → on_ip (start_vnode cluster id i d s).1 + wants p ip (start_vnode cluster id i d s).2
        ≤ on_ip d + wants p ip s
  unfolding start_vnode
  start_vnode_grows id i d s idle =
      elim (Option-cases (cluster.rpc (start_vnode_rpc id i s.worker) d.world).0) [
        | inl accepted ↦
            rw (accepted, start_vnode) (ground (arith, p.added s d.usage (some ip), idle))
        | inr (e, refused) ↦ rw (refused, start_vnode) (omega arith)
      ]

  stop_vnode_shrinks :
      (id : String) (i : ℕ) (d : Desk W) (s : SubTask)
      → on_ip (stop_vnode cluster id i d s).1 ≤ on_ip d
  unfolding stop_vnode
  stop_vnode_shrinks id i d s = elim (Bool-cases s.vnode_started) [
    | inr idle ↦ rw (idle, stop_vnode) (omega arith)
    | inl started ↦ elim (Option-cases (cluster.rpc (stop_vnode_rpc id i s.worker) d.world).0) [
      | inl accepted ↦ rw (started, accepted, stop_vnode) (p.subtracted s d.usage (some ip))
      | inr (e, refused) ↦ rw (started, refused, stop_vnode) (omega arith)
    ]
  ]

  pub start_subtask_usage :
      (id : String) (i : ℕ) (d : Desk W) (s : SubTask)
      → (start_subtask cluster id i d s).1.usage ≡ d.usage
  unfolding start_subtask
  start_subtask_usage id i d s =
      elim (Option-cases (cluster.rpc (start_task_rpc id i s.worker) d.world).0) [
        | inl accepted ↦ rw (accepted, start_subtask) refl
        | inr (e, refused) ↦ rw (refused, start_subtask) refl
      ]

  stop_subtask_usage :
      (id : String) (i : ℕ) (d : Desk W) (s : SubTask)
      → (stop_subtask cluster id i d s).1.usage ≡ d.usage
  unfolding stop_subtask
  stop_subtask_usage id i d s =
      elim (Option-cases (cluster.rpc (stop_task_rpc id i s.worker) d.world).0) [
        | inl accepted ↦ rw (accepted, stop_subtask) refl
        | inr (e, refused) ↦ rw (refused, stop_subtask) refl
      ]

  pub clear_sub_task_shrinks :
      (id : String) (i : ℕ) (d : Desk W) (s : SubTask)
      → on_ip (clear_sub_task cluster id i d s).0 ≤ on_ip d
  unfolding clear_sub_task clear_command clear_vnode
  clear_sub_task_shrinks id i d s =
      let (d', s') = clear_command cluster id i d s in
      let first : on_ip d' ≤ on_ip d =
        if_either (λ (r : Desk W × SubTask). on_ip r.0 ≤ on_ip d) s.task_started _ _
          (λ _. omega (arith, ap (λ u. p.used u (some ip)) (stop_subtask_usage id i d s)))
          (λ _. omega arith) in
      if_either (λ (r : Desk W × SubTask). on_ip r.0 ≤ on_ip d) s'.vnode_started _ _
        (λ _. omega (arith, stop_vnode_shrinks id i d' s', first)) (λ _. first)

  clear_sub_tasks_shrinks :
      (id : String) (i : ℕ) (d : Desk W) (l : List SubTask)
      → on_ip (clear_sub_tasks cluster id i d l).0 ≤ on_ip d
  unfolding clear_sub_tasks
  clear_sub_tasks_shrinks id i d [] = omega arith
  clear_sub_tasks_shrinks id i d (s ∷ l) = omega (
    arith,
    clear_sub_task_shrinks id i d s,
    clear_sub_tasks_shrinks id (suc i) (clear_sub_task cluster id i d s).0 l,
  )

  pub stop_remove_task_shrinks :
      (d : Desk W) (t : Task) → on_ip (stop_remove_task cluster d t).0 ≤ on_ip d
  unfolding stop_remove_task
  stop_remove_task_shrinks d t = clear_sub_tasks_shrinks t.id 0 d t.subtask_list

  pub complete_shrinks : (d : Desk W) (t : Task) → on_ip (complete cluster d t).1 ≤ on_ip d
  unfolding complete send
  complete_shrinks d t =
      let (d', t') = stop_remove_task cluster d t in
      let shrinks = stop_remove_task_shrinks d t in
      elim (Option-cases (billing_of cluster d' t')) [
        | inl unknown ↦ rw (unknown, complete) shrinks
        | inr (bill, e) ↦ rw (e, complete) shrinks
      ]
