-- ===== src/Batch/Desk/Sound.antt =====
-- The usage, the nets and one task, through the methods of the task manager that treat the task.
use docklet.Common.{
  Option-cases, ℕ, ◌+◌, refl, sym, subst, inl, inr, Bool, Option, some, List, [], ◌∷◌, ◌++◌, String,
  if_either, arith,
}
use docklet.Batch.Task.{TaskStatus, Task, gen_ips_from_base}
use docklet.Batch.TaskNets.Pool.{holds, IsOwned, acquire_task_ips_lem, release_task_ips_lem}
use docklet.Batch.Desk.{
  Cluster, Desk, running, send, report_of, clear_sub_tasks, stop_remove_task, start_vnodes,
  start_commands, task_processor, complete, billing_of,
}
use docklet.Batch.Desk.Uses.{Uses}
use docklet.Batch.Desk.Balance.{
  UsesTask, clear_sub_tasks-Uses, start_vnodes-Uses, start_commands-Uses,
}
use docklet.Batch.Desk.Frame.{
  SameTask, trans-SameTask, Framed, clear_sub_tasks_nets, start_vnodes-Framed,
  start_commands-Framed,
}

module _ {W : Type 0} (cluster : Cluster W) (c g : Option String → ℕ) (held : ℕ → ℕ) where
  -- c, g and held are what the other tasks use and hold.
  pub record IsSound (d : Desk W) (t : Task) : Type 0 where
    pub uses : Uses c g d.usage t.subtask_list
    pub owned : IsOwned d.nets (λ x. held x + holds x t.task_base_ip)

  pub carried :
      (d d' : Desk W) (t t' : Task)
      → Framed cluster d t d' t'
      → Uses c g d'.usage t'.subtask_list
      → IsOwned d.nets (λ x. held x + holds x t.task_base_ip)
      → IsSound d' t'
  carried d d' t t' f u o = record {
    uses = u;
    owned =
        subst (λ n. IsOwned n (λ x. held x + holds x t'.task_base_ip)) (sym f.nets)
          (subst (λ b. IsOwned d.nets (λ x. held x + holds x b)) (sym f.task_base_ip) o);
  }

  pub stop_remove_task-IsSound :
      (d : Desk W) (t : Task)
      → IsSound d t
      → IsSound (stop_remove_task cluster d t).0 (stop_remove_task cluster d t).1
        × SameTask t (stop_remove_task cluster d t).1
  unfolding stop_remove_task
  stop_remove_task-IsSound d t h =
      let d' = (clear_sub_tasks cluster t.id 0 d t.subtask_list).0 in
      let e = clear_sub_tasks_nets cluster t.id 0 d t.subtask_list in
      let back =
        release_task_ips_lem d'.nets held t.task_base_ip
          (subst (λ n. IsOwned n (λ x. held x + holds x t.task_base_ip)) (sym e) h.owned) in
      (
        record {
          uses = clear_sub_tasks-Uses cluster c g t.id 0 d t.subtask_list h.uses;
          owned = record {
            once = λ x. omega (arith, back.1.once x);
            net = λ x pos. back.1.net x (omega (arith, pos));
            whole = λ x k.
                omega (arith, back.1.whole x (record { aligned = k.aligned; fits = k.fits }));
          };
        },
        record { id = refl; created_at = refl; priority = refl },
      )

  pub complete-IsSound :
      (d : Desk W) (t : Task)
      → IsSound d t
      → IsSound (complete cluster d t).1 (complete cluster d t).2
        × SameTask t (complete cluster d t).2
  unfolding complete send
  complete-IsSound d t h =
      let (d', t') = stop_remove_task cluster d t in
      let (s, same) = stop_remove_task-IsSound d t h in
      elim (Option-cases (billing_of cluster d' t')) [
        | inl unknown ↦ rw (unknown, complete) (record { uses = s.uses; owned = s.owned }, same)
        | inr (bill, e) ↦ rw (e, complete) (record { uses = s.uses; owned = s.owned }, same)
      ]

  -- Whether the loops end early or not, and where no net is free.
  pub task_processor-IsSound :
      (d : Desk W) (t : Task) (is : List ℕ)
      → IsSound d t
      → IsSound (task_processor cluster d t is).1 (task_processor cluster d t is).2
        × SameTask t (task_processor cluster d t is).2
  unfolding task_processor send gen_ips_from_base
  task_processor-IsSound d t is h = elim (acquire_task_ips_lem d.nets held t.task_base_ip h.owned) [
    | inl (short, _, _) ↦
        rw (short, task_processor)
          (
            record {
              uses = record { cpu = h.uses.cpu; gpu = h.uses.gpu; nobody = h.uses.nobody };
              owned = h.owned;
            },
            record { id = refl; created_at = refl; priority = refl },
          )
    | inr (net, nets, got, _, owned) ↦
        let d2 = record d { nets = nets; sent = d.sent ++ report_of t running "" 1 0 0 ∷ [] } in
        let t2 =
          gen_ips_from_base (record t { status = TaskStatus.running; task_base_ip = some net })
            nets.base_ip in
        let same : SameTask t t2 = record { id = refl; created_at = refl; priority = refl } in
        let (all, d3, t3) = start_vnodes cluster d2 t2 is in
        let (d4, t4) = start_commands cluster d3 t3 is in
        let begun : UsesTask cluster c g d2 t2 = record {
          cpu = h.uses.cpu;
          gpu = h.uses.gpu;
          nobody = h.uses.nobody;
        } in
        let u3 = start_vnodes-Uses cluster c g d2 t2 is begun in
        let f3 = start_vnodes-Framed cluster d2 t2 is in
        let s3 = carried d2 d3 t2 t3 f3 u3 owned in
        let f4 = start_commands-Framed cluster d3 t3 is in
        let s4 = carried d3 d4 t3 t4 f4 (start_commands-Uses cluster c g d3 t3 is u3) s3.owned in
        let to3 = trans-SameTask t t2 t3 same f3.task in
        rw (got, task_processor)
          (if_either (λ (r : Bool × Desk W × Task). IsSound r.1 r.2 × SameTask t r.2) all _ _
            (λ _. (s4, trans-SameTask t t3 t4 to3 f4.task)) (λ _. (s3, to3)))
  ]
