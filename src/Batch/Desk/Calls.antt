-- ===== src/Batch/Desk/Calls.antt =====
-- The usage through the calls of a worker: start_vnode, stop_vnode, start_subtask, stop_subtask and
-- clear_sub_task.
use docklet.Common.{
  ℕ, ◌≡◌, refl, sym, inl, inr, false, Option, none, some, Bool-cases, Option-cases, String, arith,
  if_either,
}
use docklet.Batch.Task.{SubTask}
use docklet.Batch.Desk.{
  Cluster, Desk, same_worker, add_use, sub_use, add_usage, sub_usage, start_vnode, stop_vnode,
  start_subtask, stop_subtask, clear_command, clear_vnode, clear_sub_task, start_vnode_rpc,
  stop_vnode_rpc, start_task_rpc, stop_task_rpc,
}
use docklet.Batch.Desk.Uses.{UsesOne, over_same}

-- A worker that has accepted a vnode is one.
worker_named :
    {W : Type 0} (cluster : Cluster W) (id : String) (i : ℕ) (w : W) (worker : Option String)
    → (cluster.rpc (start_vnode_rpc id i worker) w).0 ≡ none
    → same_worker worker none ≡ false
worker_named cluster id i w none e = let (m, refused) = cluster.no_worker id i w in cc (e, refused)
worker_named cluster id i w (some name) e = refl

module _ {W : Type 0} (cluster : Cluster W) (c g : Option String → ℕ) (id : String) (i : ℕ)
    (d : Desk W) (s : SubTask) (h : UsesOne c g d.usage s) where
  pub start_vnode-UsesOne :
      s.vnode_started ≡ false
      → UsesOne c g (start_vnode cluster id i d s).1.usage (start_vnode cluster id i d s).2
  unfolding start_vnode add_usage add_use
  start_vnode-UsesOne idle =
      elim (Option-cases (cluster.rpc (start_vnode_rpc id i s.worker) d.world).0) [
        | inl accepted ↦
            rw (accepted, start_vnode)
              (record {
                cpu = λ k. ground (arith, h.cpu k, idle);
                gpu = λ k. ground (arith, h.gpu k, idle);
                nobody =
                    ground (arith, h.nobody, worker_named cluster id i d.world s.worker accepted);
              })
        | inr (e, refused) ↦
            rw (refused, start_vnode)
              (over_same c g d.usage s _ (record { needs = refl; started = refl; worker = refl }) h)
      ]

  pub stop_vnode-UsesOne :
      UsesOne c g (stop_vnode cluster id i d s).1.usage (stop_vnode cluster id i d s).2
  unfolding stop_vnode sub_usage sub_use
  stop_vnode-UsesOne = elim (Bool-cases s.vnode_started) [
    | inr idle ↦
        rw (idle, stop_vnode)
          (over_same c g d.usage s _ (record { needs = refl; started = sym idle; worker = refl }) h)
    | inl started ↦ elim (Option-cases (cluster.rpc (stop_vnode_rpc id i s.worker) d.world).0) [
      | inl accepted ↦
          rw (started, accepted, stop_vnode)
            (record {
              cpu = λ k. ground (arith, h.cpu k, started);
              gpu = λ k. ground (arith, h.gpu k, started);
              nobody = ground (arith, h.nobody);
            })
      | inr (e, refused) ↦
          rw (started, refused, stop_vnode)
            (over_same c g d.usage s _ (record { needs = refl; started = refl; worker = refl }) h)
    ]
  ]

  pub start_subtask-UsesOne :
      UsesOne c g (start_subtask cluster id i d s).1.usage (start_subtask cluster id i d s).2
  unfolding start_subtask
  start_subtask-UsesOne =
      elim (Option-cases (cluster.rpc (start_task_rpc id i s.worker) d.world).0) [
        | inl accepted ↦
            rw (accepted, start_subtask)
              (over_same c g d.usage s _ (record { needs = refl; started = refl; worker = refl }) h)
        | inr (e, refused) ↦
            rw (refused, start_subtask)
              (over_same c g d.usage s _ (record { needs = refl; started = refl; worker = refl }) h)
      ]

  pub stop_subtask-UsesOne :
      UsesOne c g (stop_subtask cluster id i d s).1.usage (stop_subtask cluster id i d s).2
  unfolding stop_subtask
  stop_subtask-UsesOne = elim (Option-cases (cluster.rpc (stop_task_rpc id i s.worker) d.world).0) [
    | inl accepted ↦
        rw (accepted, stop_subtask)
          (over_same c g d.usage s _ (record { needs = refl; started = refl; worker = refl }) h)
    | inr (e, refused) ↦
        rw (refused, stop_subtask)
          (over_same c g d.usage s _ (record { needs = refl; started = refl; worker = refl }) h)
  ]

module _ {W : Type 0} (cluster : Cluster W) (c g : Option String → ℕ) where
  abbrev pub Left : Desk W × SubTask → Type 0
  Left r = UsesOne c g r.0.usage r.1

  pub clear_sub_task-UsesOne :
      (id : String) (i : ℕ) (d : Desk W) (s : SubTask)
      → UsesOne c g d.usage s
      → Left (clear_sub_task cluster id i d s)
  unfolding clear_sub_task clear_command clear_vnode
  clear_sub_task-UsesOne id i d s h =
      let first = stop_subtask cluster id i d s in
      let (d', s') = clear_command cluster id i d s in
      let h' : UsesOne c g d'.usage s' =
        if_either Left s.task_started (first.1, first.2) (d, s)
          (λ _. stop_subtask-UsesOne cluster c g id i d s h) (λ _. h) in
      let second = stop_vnode cluster id i d' s' in
      if_either Left s'.vnode_started (second.1, second.2) (d', s')
        (λ _. stop_vnode-UsesOne cluster c g id i d' s' h') (λ _. h')
