-- ===== src/Batch/TaskMgr/SortOut.antt =====
-- sort_out_task_queue: the queue that it leaves.
use docklet.Common.{
  ℕ, ◌<◌, ◌≡◌, refl, ap, ap₂, ◌∙◌, inl, inr, Bool, true, Option, some, some_inj, Option-cases, List,
  [], ◌∷◌, String, str_eq, if_either, get_elem?, contains,
}
use docklet.Batch.Task.{Task, priority_of}
use docklet.Batch.TaskNets.Pool.{times}
use docklet.Batch.Desk.{Cluster, Desk, stop_remove_task}
use docklet.Batch.TaskMgr.{TaskMgr, treat, stop_task, stop_one, stop_all}
use docklet.Batch.TaskMgr.Billable.{
  workers_of, AreMonitored, stop_task_task, stop_remove_task_workers,
}
use docklet.Batch.TaskMgr.Seen.{seen, stop_one-seen}

module _ {W : Type 0} (cluster : Cluster W) where
  stop_task_kept :
      (d : Desk W) (t : Task)
      → ((stop_task cluster d t).2.id ≡ t.id)
        × (priority_of (stop_task cluster d t).2 ≡ priority_of t)
        × (workers_of (stop_task cluster d t).2 ≡ workers_of t)
  unfolding stop_remove_task
  stop_task_kept d t =
      let e = stop_task_task cluster d t in
      (
        ap (λ (u : Task). u.id) e,
        ap priority_of e,
        ap workers_of e ∙ stop_remove_task_workers cluster d t,
      )

  abbrev stopping : Desk W → Task → Desk W × Task
  stopping d t = let (_, d', t') = stop_task cluster d t in (d', t')

  treat_lists :
      (r : ℕ) (m : TaskMgr W)
      → let m' = treat stopping r m in
        (m'.task_queue ≡ m.task_queue)
        × (m'.lazy_append_list ≡ m.lazy_append_list)
        × (m'.lazy_stop_list ≡ m.lazy_stop_list)
        × (m'.lazy_delete_list ≡ m.lazy_delete_list)
  unfolding treat
  treat_lists r m = elim (Option-cases (get_elem? m.tasks r)) [
    | inl gone ↦ rw (gone, treat) (refl, refl, refl, refl)
    | inr (t, e) ↦ rw (e, treat) (refl, refl, refl, refl)
  ]

  -- The lists that the first loop leaves
  abbrev pub Kept : TaskMgr W → TaskMgr W → Type 0
  Kept m m' =
      (m'.task_queue ≡ m.task_queue)
      × (m'.lazy_append_list ≡ m.lazy_append_list)
      × (m'.lazy_stop_list ≡ m.lazy_stop_list)

  pub stop_one_lists : (r : ℕ) (m : TaskMgr W) → Kept m (stop_one cluster r m).1
  unfolding stop_one
  stop_one_lists r m = elim (Option-cases (get_elem? m.tasks r)) [
    | inl gone ↦ rw (gone, stop_one) (refl, refl, refl)
    | inr (t, e) ↦
        let (a, b, c, _) = treat_lists r m in
        rw (e, stop_one)
          (if_either (λ (x : Bool × TaskMgr W). Kept m x.1) (contains str_eq t.id m.lazy_stop_list)
            _ _ (λ _. (a, b, c)) (λ _. (refl, refl, refl)))
  ]

  pub stop_all_lists : (rs : List ℕ) (m : TaskMgr W) → Kept m (stop_all cluster rs m).1
  unfolding stop_all
  stop_all_lists [] m = (refl, refl, refl)
  stop_all_lists (r ∷ rs) m =
      let (a, b, c) = stop_one_lists r m in
      if_either (λ (x : Bool × TaskMgr W). Kept m x.1) (stop_one cluster r m).0 _ _
        (λ _.
          let (a', b', c') = stop_all_lists rs (stop_one cluster r m).1 in (a' ∙ a, b' ∙ b, c' ∙ c))
        (λ _. (a, b, c))

  -- The tasks of a list that are to be stopped have workers whose resources can be read.
  abbrev pub AreBillable : List ℕ → TaskMgr W → Type 0
  AreBillable rs m =
      (r : ℕ) (t : Task)
      → get_elem? m.tasks r ≡ some t
      → 0 < times r rs
      → contains str_eq t.id m.lazy_stop_list ≡ true
      → AreMonitored cluster (workers_of t)

  stop_one-kept :
      (r : ℕ) (m : TaskMgr W) (x : ℕ)
      → let g : Task → String × List (Option String) = λ t. (t.id, workers_of t) in
        seen g (stop_one cluster r m).1.tasks x ≡ seen g m.tasks x
  stop_one-kept r m x =
      stop_one-seen cluster (λ t. (t.id, workers_of t))
        (λ d t. let (a, _, b) = stop_task_kept d t in ap₂ (λ x y. (x, y)) a b) (λ t o. refl) r m x

  -- A task keeps its name and its workers.
  pub stop_one-same :
      (r : ℕ) (m : TaskMgr W) (x : ℕ) (t : Task)
      → get_elem? m.tasks x ≡ some t
      → (u : Task) × (get_elem? (stop_one cluster r m).1.tasks x ≡ some u)
        × (u.id ≡ t.id)
        × (workers_of u ≡ workers_of t)
  stop_one-same r m x t e =
      let m' = (stop_one cluster r m).1 in
      let g : Task → String × List (Option String) = λ t. (t.id, workers_of t) in
      let now : seen g m.tasks x ≡ some (g t) = rw (e, seen) refl in
      let after = stop_one-kept r m x ∙ now in
      elim (Option-cases (get_elem? m'.tasks x)) [
        | inl gone ↦ absurd (cc (rw (gone, seen) at after))
        | inr (u, e') ↦
            let same : g u ≡ g t = some_inj (rw (e', seen) at after) in
            (u, e', ap (λ p. p.0) same, ap (λ p. p.1) same)
      ]
