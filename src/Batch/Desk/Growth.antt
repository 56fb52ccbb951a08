-- ===== src/Batch/Desk/Growth.antt =====
-- How far the usage of a worker can grow while task_processor starts the vnodes of a task.
use docklet.Common.{
  ℕ, ◌+◌, ◌≤◌, ◌≡◌, refl, sym, ap, subst, ◌∙◌, inl, inr, ◌⊎◌, Bool, true, false, ◌||◌, none, some,
  Option-cases, List, [], ◌∷◌, ◌++◌, if◌then◌else◌, String, get_elem?, modify, total, total-modify,
  total-modify_le, arith, if_either,
}
use docklet.Batch.Task.{
  TaskStatus, SubTask, Task, is_waiting, is_running, is_failed, retry, waiting_for_retry,
  gen_ips_from_base,
}
use docklet.Batch.TaskNets.{acquire_task_ips}
use docklet.Batch.Placement.{Usage}
use docklet.Batch.Desk.{
  Cluster, Desk, send, start_vnode, start_subtask, start_one, start_vnodes, command_one, running,
  report_of, start_commands, has_no_command, task_processor,
}
use docklet.Batch.Desk.Demand.{Measure, wants, start_vnode_grows, start_subtask_usage}

-- A task has room on the worker ip: its vnodes that are not started, or the only one that will be
-- started, fit beside what is in use.
pub record IsAlone (p : Measure) (ip : String) (cap : ℕ) (u : Usage) (l : List SubTask)
    (is : List ℕ) : Type 0 where
  pub i : ℕ
  pub s : SubTask
  pub only : is ≡ i ∷ []
  pub there : get_elem? l i ≡ some s
  pub fits : p.used u (some ip) + wants p ip s ≤ cap

abbrev pub HasRoom : Measure → String → ℕ → Usage → List SubTask → List ℕ → Type 0
HasRoom p ip cap u l is =
    (p.used u (some ip) + total (wants p ip) l ≤ cap) ⊎ IsAlone p ip cap u l is

module _ {W : Type 0} (cluster : Cluster W) (p : Measure) (ip : String) where
  abbrev on_ip : Desk W → ℕ
  on_ip d = p.used d.usage (some ip)

  HasRoom-used :
      (cap : ℕ) (u : Usage) (l : List SubTask) (is : List ℕ)
      → HasRoom p ip cap u l is
      → p.used u (some ip) ≤ cap
  HasRoom-used cap u l is (inl fits) = omega (arith, fits)
  HasRoom-used cap u l is (inr alone) = omega (arith, alone.fits)

  retry_shrinks :
      (t : Task) (i : ℕ) (s : SubTask) (reason : String)
      → total (wants p ip) (retry t i s reason).subtask_list ≤ total (wants p ip) t.subtask_list
  unfolding retry waiting_for_retry
  retry_shrinks t i s reason =
      let h = total-modify_le (wants p ip) i waiting_for_retry t.subtask_list (λ x. omega arith) in
      if_either
        (λ (x : Task). total (wants p ip) x.subtask_list ≤ total (wants p ip) t.subtask_list)
        (is_failed (waiting_for_retry s).status) _ _ (λ _. h) (λ _. h)

  start_one_grows :
      (d : Desk W) (t : Task) (i : ℕ) (s : SubTask)
      → get_elem? t.subtask_list i ≡ some s
      → s.vnode_started ≡ false
      → (on_ip (start_one cluster d t i s).1 ≤ on_ip d + wants p ip s)
        × (on_ip (start_one cluster d t i s).1
              + total (wants p ip) (start_one cluster d t i s).2.subtask_list
            ≤ on_ip d + total (wants p ip) t.subtask_list)
  unfolding start_one send
  start_one_grows d t i s e idle =
      let (success, d', s') = start_vnode cluster t.id i d s in
      let t' = record t { subtask_list = modify i (λ _. s') t.subtask_list } in
      let t'' = retry t' i s' "Fail to start vnode." in
      let grows = start_vnode_grows cluster p ip t.id i d s idle in
      let swap = total-modify (wants p ip) i (λ _. s') t.subtask_list s e in
      let again = retry_shrinks t' i s' "Fail to start vnode." in
      let free =
        total-modify_le (wants p ip) i (λ (x : SubTask). record x { worker = none })
          t''.subtask_list (λ x. ground arith) in
      if_either
        (λ (r : Bool × Desk W × Task).
          (on_ip r.1 ≤ on_ip d + wants p ip s)
          × (on_ip r.1 + total (wants p ip) r.2.subtask_list
              ≤ on_ip d + total (wants p ip) t.subtask_list))
        success _ _ (λ _. (omega (arith, grows), omega (arith, grows, swap)))
        (λ _.
          if_either
            (λ (x : Desk W).
              (on_ip x ≤ on_ip d + wants p ip s)
              × (on_ip x
                    + total (wants p ip)
                        (modify i (λ (x : SubTask). record x { worker = none }) t''.subtask_list)
                  ≤ on_ip d + total (wants p ip) t.subtask_list))
            (is_waiting (waiting_for_retry s').status) _ _
            (λ _. (omega (arith, grows), omega (arith, grows, swap, again, free)))
            (λ _. (omega (arith, grows), omega (arith, grows, swap, again, free))))

  start_vnodes_grows :
      (d : Desk W) (t : Task) (is : List ℕ)
      → on_ip (start_vnodes cluster d t is).1
          + total (wants p ip) (start_vnodes cluster d t is).2.subtask_list
        ≤ on_ip d + total (wants p ip) t.subtask_list
  unfolding start_vnodes
  start_vnodes_grows d t [] = omega arith
  start_vnodes_grows d t (i ∷ is) = elim (Option-cases (get_elem? t.subtask_list i)) [
    | inl gone ↦ rw (gone, start_vnodes) (start_vnodes_grows d t is)
    | inr (s, e) ↦
        let r = if s.vnode_started then (true, d, t) else start_one cluster d t i s in
        let h =
          if_either
            (λ (r : Bool × Desk W × Task).
              on_ip r.1 + total (wants p ip) r.2.subtask_list
              ≤ on_ip d + total (wants p ip) t.subtask_list)
            s.vnode_started (true, d, t) (start_one cluster d t i s) (λ _. omega arith)
            (λ idle. (start_one_grows d t i s e idle).1) in
        rw (e, start_vnodes) (omega (arith, h, start_vnodes_grows r.1 r.2 is))
  ]

  -- A task with room fills a worker no further than the bound.
  start_vnodes_room :
      (cap : ℕ) (d : Desk W) (t : Task) (is : List ℕ)
      → HasRoom p ip cap d.usage t.subtask_list is
      → on_ip (start_vnodes cluster d t is).1 ≤ cap
  unfolding start_vnodes
  start_vnodes_room cap d t is (inl fits) = omega (arith, fits, start_vnodes_grows d t is)
  start_vnodes_room cap d t is (inr alone) =
      let e = alone.there in
      let one : on_ip (start_vnodes cluster d t (alone.i ∷ [])).1 ≤ cap =
        rw (e, start_vnodes)
          (if_either (λ (r : Bool × Desk W × Task). on_ip r.1 ≤ cap) alone.s.vnode_started
            (true, d, t) (start_one cluster d t alone.i alone.s) (λ _. omega (arith, alone.fits))
            (λ idle. omega (arith, alone.fits, (start_one_grows d t alone.i alone.s e idle).0))) in
      subst (λ l. on_ip (start_vnodes cluster d t l).1 ≤ cap) (sym alone.only) one

  command_one_usage :
      (d : Desk W) (t : Task) (i : ℕ) (s : SubTask)
      → (command_one cluster d t i s).0.usage ≡ d.usage
  unfolding command_one send
  command_one_usage d t i s =
      let (token, w) = cluster.token d.world in
      let s1 = record s { command_info = some token } in
      let (success, d', s') = start_subtask cluster t.id i (record d { world = w }) s1 in
      let e : d'.usage ≡ d.usage =
        start_subtask_usage cluster p ip t.id i (record d { world = w }) s1 in
      if_either (λ (r : Desk W × Task). r.0.usage ≡ d.usage) success _ _ (λ _. e)
        (λ _.
          if_either (λ (x : Desk W). x.usage ≡ d.usage) (is_waiting (waiting_for_retry s').status) _
            _ (λ _. e) (λ _. e))

  start_commands_usage :
      (d : Desk W) (t : Task) (is : List ℕ) → (start_commands cluster d t is).0.usage ≡ d.usage
  unfolding start_commands
  start_commands_usage d t [] = refl
  start_commands_usage d t (i ∷ is) = elim (Option-cases (get_elem? t.subtask_list i)) [
    | inl gone ↦ rw (gone, start_commands) (start_commands_usage d t is)
    | inr (s, e) ↦
        let run = λ (x : SubTask). record x { status = TaskStatus.running } in
        let t' = record t { subtask_list = modify i run t.subtask_list } in
        let r =
          if has_no_command s || is_running s.status
          then (d, t')
          else command_one cluster d t i s in
        let h =
          if_either (λ (r : Desk W × Task). r.0.usage ≡ d.usage)
            (has_no_command s || is_running s.status) (d, t') (command_one cluster d t i s)
            (λ _. refl) (λ _. command_one_usage d t i s) in
        rw (e, start_commands) (start_commands_usage r.0 r.1 is ∙ h)
  ]

  pub task_processor_room :
      (cap : ℕ) (d : Desk W) (t : Task) (is : List ℕ)
      → HasRoom p ip cap d.usage t.subtask_list is
      → on_ip (task_processor cluster d t is).1 ≤ cap
  unfolding task_processor send gen_ips_from_base
  task_processor_room cap d t is room =
      elim (Option-cases (acquire_task_ips d.nets t.task_base_ip)) [
        | inl short ↦ rw (short, task_processor) (HasRoom-used cap d.usage t.subtask_list is room)
        | inr ((net, nets), got) ↦
            let d2 = record d { nets = nets; sent = d.sent ++ report_of t running "" 1 0 0 ∷ [] } in
            let t2 =
              gen_ips_from_base (record t { status = TaskStatus.running; task_base_ip = some net })
                nets.base_ip in
            let (all, d3, t3) = start_vnodes cluster d2 t2 is in
            let h = start_vnodes_room cap d2 t2 is (room) in
            rw (got, task_processor)
              (if_either (λ (r : Bool × Desk W × Task). on_ip r.1 ≤ cap) all _ _
                (λ _.
                  omega (arith, h, ap (λ u. p.used u (some ip)) (start_commands_usage d3 t3 is)))
                (λ _. h))
      ]
