-- ===== src/Batch/TaskMgr/Stuck.antt =====
-- sort_out_task_queue where get_billing raises the KeyError of a subtask without a worker.
use docklet.Common.{
  ℕ, zero, suc, ◌+◌, ◌<◌, ◌≡◌, refl, ap, ap₂, subst, ◌∙◌, inl, inr, Bool, true, false, Option, none,
  some, some_inj, Option-cases, Bool-cases, List, [], ◌∷◌, map, String, str_eq, if_either,
  get_elem?, get_elem?-map, contains, ==_iff, ◌==◌, arith,
}
use docklet.Batch.Task.{Task, SubTask, Instance, bill, get_billing}
use docklet.Batch.TaskNets.Pool.{times}
use docklet.Batch.Desk.{Cluster, Desk, stop_remove_task}
use docklet.Batch.TaskMgr.{TaskMgr, stop_task, stop_one, stop_all, sort_out_task_queue}
use docklet.Batch.TaskMgr.Billable.{workers_of, stop_remove_task_workers}
use docklet.Batch.TaskMgr.SortOut.{stop_one_lists, stop_all_lists, stop_one-same}

bill_unplaced :
    (beans : Instance → ℕ → ℕ) (monitored : String → Bool) (l : List SubTask) (r b i : ℕ)
    → get_elem? (map (λ (s : SubTask). s.worker) l) i ≡ some none
    → bill beans monitored l r b ≡ none
unfolding bill get_elem?
bill_unplaced beans monitored [] r b i e = cc
bill_unplaced beans monitored (s ∷ l) r b zero e = rw (some_inj e, bill) refl
bill_unplaced beans monitored (s ∷ l) r b (suc i) e =
    let rest =
      bill_unplaced beans monitored l (r + s.running_time)
        (b + beans s.instance_needs s.running_time) i e in
    elim (Option-cases s.worker) [
      | inl nowhere ↦ rw (nowhere, bill) refl
      | inr (worker, placed) ↦
          rw (placed, bill)
            (if_either (λ (x : Option (ℕ × ℕ)). x ≡ none) (monitored worker) _ _ (λ _. rest)
              (λ _. refl))
    ]

module _ {W : Type 0} (cluster : Cluster W) where
  stop_task_fails :
      (d : Desk W) (t : Task) (i : ℕ)
      → get_elem? (workers_of t) i ≡ some none
      → (stop_task cluster d t).0 ≡ false
  unfolding stop_task get_billing
  stop_task_fails d t i e =
      let (d', t') = stop_remove_task cluster d t in
      let q =
        bill_unplaced cluster.beans (λ worker. cluster.monitored worker d'.world) t'.subtask_list 0
          0 i (ap (λ l. get_elem? l i) (stop_remove_task_workers cluster d t) ∙ e) in
      rw (q, stop_task, get_billing) refl

  -- The task r is to be stopped and the vnode i of it has no worker.
  abbrev IsUnplaced : ℕ → ℕ → TaskMgr W → Type 0
  IsUnplaced r i m =
      (t : Task) × (get_elem? m.tasks r ≡ some t)
      × (contains str_eq t.id m.lazy_stop_list ≡ true)
      × (get_elem? (workers_of t) i ≡ some none)

  stop_one_fails : (r i : ℕ) (m : TaskMgr W) → IsUnplaced r i m → (stop_one cluster r m).0 ≡ false
  unfolding stop_one
  stop_one_fails r i m (t, e, stops, nowhere) =
      rw (e, stops, stop_one) (stop_task_fails m.desk t i nowhere)

  IsUnplaced-stop_one :
      (x r i : ℕ) (m : TaskMgr W) → IsUnplaced r i m → IsUnplaced r i (stop_one cluster x m).1
  IsUnplaced-stop_one x r i m (t, e, stops, nowhere) =
      let (u, there, id, at) = stop_one-same cluster x m r t e in
      (
        u,
        there,
        ap₂ (λ n l. contains str_eq n l) id (stop_one_lists cluster x m).2 ∙ stops,
        ap (λ l. get_elem? l i) at ∙ nowhere,
      )

  stop_all_fails :
      (rs : List ℕ) (r i : ℕ) (m : TaskMgr W)
      → 0 < times r rs
      → IsUnplaced r i m
      → (stop_all cluster rs m).0 ≡ false
  unfolding stop_all times
  stop_all_fails [] r i m there h = absurd (omega (arith, there))
  stop_all_fails (x ∷ rs) r i m there h =
      if_either (λ (y : Bool × TaskMgr W). y.0 ≡ false) (stop_one cluster x m).0 _ _
        (λ good. elim (Bool-cases (r == x)) [
          | inl here ↦
              let bad : (stop_one cluster x m).0 ≡ false =
                subst (λ y. (stop_one cluster y m).0 ≡ false) ((==_iff r x).0 here)
                  (stop_one_fails r i m h) in
              absurd (cc (good, bad))
          | inr other ↦
              stop_all_fails rs r i (stop_one cluster x m).1 (ground (arith, there, other))
                (IsUnplaced-stop_one x r i m h)
        ])
        (λ _. refl)

  -- Where a task in the queue is to be stopped and one of its vnodes has no worker, as before it is placed:
  -- sort_out_task_queue raises an exception, and the queue, the tasks to be appended and the tasks to be
  -- stopped are as before, so that the task still stands in the queue and is still to be stopped.
  pub sort_out_task_queue-stuck :
      (m : TaskMgr W) (r : ℕ) (t : Task) (i : ℕ) (s : SubTask)
      → 0 < times r m.task_queue
      → get_elem? m.tasks r ≡ some t
      → contains str_eq t.id m.lazy_stop_list ≡ true
      → get_elem? t.subtask_list i ≡ some s
      → s.worker ≡ none
      → let (fine, m') = sort_out_task_queue cluster m in
        (fine ≡ false)
        × (m'.task_queue ≡ m.task_queue)
        × (m'.lazy_append_list ≡ m.lazy_append_list)
        × (m'.lazy_stop_list ≡ m.lazy_stop_list)
  unfolding sort_out_task_queue
  sort_out_task_queue-stuck m r t i s queued e stops at nowhere =
      let (queue, append, stop) = stop_all_lists cluster m.task_queue m in
      let bad = stop_all_fails m.task_queue r i m queued (
        t,
        e,
        stops,
        get_elem?-map (λ (x : SubTask). x.worker) t.subtask_list i s at ∙ ap some nowhere,
      ) in
      rw (bad, sort_out_task_queue) (refl, queue, append, stop)
