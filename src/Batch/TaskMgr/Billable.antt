-- ===== src/Batch/TaskMgr/Billable.antt =====
-- What get_billing of src/master/taskmgr.py needs in order to answer for a task that is stopped: a worker
-- for each of its subtasks that the monitor knows.
use docklet.Common.{
  ℕ, suc, ◌+◌, ◌≡◌, refl, sym, ap₂, subst, ◌∙◌, inl, inr, true, Option, some, Option-cases,
  Bool-cases, List, [], ◌∷◌, All, map, String, if_either,
}
use docklet.Batch.Task.{Task, SubTask, bill, get_billing}
use docklet.Batch.Desk.{
  Cluster, Desk, billing_of, stop_vnode, stop_subtask, clear_command, clear_vnode, clear_sub_task,
  clear_sub_tasks, stop_remove_task, stop_vnode_rpc, stop_task_rpc,
}
use docklet.Batch.TaskMgr.{stop_task}

-- The workers of a task's subtasks
abbrev pub workers_of : Task → List (Option String)
workers_of t = map (λ (s : SubTask). s.worker) t.subtask_list

module _ {W : Type 0} (cluster : Cluster W) where
  -- Each is a worker whose resources can always be read.
  abbrev pub AreMonitored : List (Option String) → Type 0
  AreMonitored l =
      All
        (λ worker.
          (name : String) × (worker ≡ some name) × ((w : W) → cluster.monitored name w ≡ true))
        l

  bill_answers :
      (w : W) (l : List SubTask) (r b : ℕ)
      → AreMonitored (map (λ (s : SubTask). s.worker) l)
      → (x : ℕ × ℕ) × (bill cluster.beans (λ worker. cluster.monitored worker w) l r b ≡ some x)
  unfolding bill
  bill_answers w [] r b a = ((r, b), refl)
  bill_answers w (s ∷ l) r b ((name, e, known), a) =
      let (x, q) =
        bill_answers w l (r + s.running_time) (b + cluster.beans s.instance_needs s.running_time)
          a in
      (x, rw (e, known w, bill) q)

  stop_vnode_worker :
      (id : String) (i : ℕ) (d : Desk W) (s : SubTask)
      → (stop_vnode cluster id i d s).2.worker ≡ s.worker
  unfolding stop_vnode
  stop_vnode_worker id i d s = elim (Bool-cases s.vnode_started) [
    | inr idle ↦ rw (idle, stop_vnode) refl
    | inl started ↦ elim (Option-cases (cluster.rpc (stop_vnode_rpc id i s.worker) d.world).0) [
      | inl accepted ↦ rw (started, accepted, stop_vnode) refl
      | inr (e, refused) ↦ rw (started, refused, stop_vnode) refl
    ]
  ]

  stop_subtask_worker :
      (id : String) (i : ℕ) (d : Desk W) (s : SubTask)
      → (stop_subtask cluster id i d s).2.worker ≡ s.worker
  unfolding stop_subtask
  stop_subtask_worker id i d s =
      elim (Option-cases (cluster.rpc (stop_task_rpc id i s.worker) d.world).0) [
        | inl accepted ↦ rw (accepted, stop_subtask) refl
        | inr (e, refused) ↦ rw (refused, stop_subtask) refl
      ]

  clear_sub_task_worker :
      (id : String) (i : ℕ) (d : Desk W) (s : SubTask)
      → (clear_sub_task cluster id i d s).1.worker ≡ s.worker
  unfolding clear_sub_task clear_command clear_vnode
  clear_sub_task_worker id i d s =
      let (d', s') = clear_command cluster id i d s in
      let first : s'.worker ≡ s.worker =
        if_either (λ (r : Desk W × SubTask). r.1.worker ≡ s.worker) s.task_started _ _
          (λ _. stop_subtask_worker id i d s) (λ _. refl) in
      if_either (λ (r : Desk W × SubTask). r.1.worker ≡ s.worker) s'.vnode_started _ _
        (λ _. stop_vnode_worker id i d' s' ∙ first) (λ _. first)

  clear_sub_tasks_workers :
      (id : String) (i : ℕ) (d : Desk W) (l : List SubTask)
      → map (λ (s : SubTask). s.worker) (clear_sub_tasks cluster id i d l).1
        ≡ map (λ (s : SubTask). s.worker) l
  unfolding clear_sub_tasks
  clear_sub_tasks_workers id i d [] = refl
  clear_sub_tasks_workers id i d (s ∷ l) =
      ap₂ (λ x xs. x ∷ xs) (clear_sub_task_worker id i d s)
        (clear_sub_tasks_workers id (suc i) (clear_sub_task cluster id i d s).0 l)

  pub stop_remove_task_workers :
      (d : Desk W) (t : Task) → workers_of (stop_remove_task cluster d t).1 ≡ workers_of t
  unfolding stop_remove_task
  stop_remove_task_workers d t = clear_sub_tasks_workers t.id 0 d t.subtask_list

  pub stop_task_task :
      (d : Desk W) (t : Task) → (stop_task cluster d t).2 ≡ (stop_remove_task cluster d t).1
  unfolding stop_task
  stop_task_task d t =
      let (d', t') = stop_remove_task cluster d t in
      elim (Option-cases (billing_of cluster d' t')) [
        | inl unknown ↦ rw (unknown, stop_task) refl
        | inr (x, e) ↦ rw (e, stop_task) refl
      ]

  pub stop_task_fine :
      (d : Desk W) (t : Task) → AreMonitored (workers_of t) → (stop_task cluster d t).0 ≡ true
  unfolding stop_task get_billing
  stop_task_fine d t a =
      let (d', t') = stop_remove_task cluster d t in
      let (x, e) =
        bill_answers d'.world t'.subtask_list 0 0
          (subst AreMonitored (sym (stop_remove_task_workers d t)) a) in
      rw (e, stop_task, get_billing) refl
