-- ===== src/Batch/Desk/Balance.antt =====
-- The usage through the loops over the vnodes of a task.
use docklet.Common.{
  ℕ, suc, ◌+◌, ◌≡◌, refl, ◌∙◌, inl, inr, Bool, true, false, ◌||◌, Option, none, some, Option-cases,
  List, [], ◌∷◌, if◌then◌else◌, String, get_elem?, modify, total, get_elem?-modify, arith,
  if_either,
}
use docklet.Batch.Task.{
  TaskStatus, SubTask, Task, is_waiting, is_running, is_failed, retry, waiting_for_retry,
}
use docklet.Batch.Placement.{Usage}
use docklet.Batch.Desk.{
  Cluster, Desk, send, start_vnode, start_subtask, clear_sub_task, clear_sub_tasks, start_one,
  start_vnodes, command_one, start_commands, start_vnode_rpc, has_no_command,
}
use docklet.Batch.Desk.Uses.{cpu_on, gpu_on, Uses, SameUse, others, focus, unfocus, over_same}
use docklet.Batch.Desk.Calls.{start_vnode-UsesOne, start_subtask-UsesOne, clear_sub_task-UsesOne}

-- The vnodes of `l` are used by others than those of `s ∷ l` by `s`.
module _ {W : Type 0} (cluster : Cluster W) where
  pub clear_sub_tasks-Uses :
      (c g : Option String → ℕ) (id : String) (i : ℕ) (d : Desk W) (l : List SubTask)
      → Uses c g d.usage l
      → Uses c g (clear_sub_tasks cluster id i d l).0.usage (clear_sub_tasks cluster id i d l).1
  unfolding clear_sub_tasks total
  clear_sub_tasks-Uses c g id i d [] h = h
  clear_sub_tasks-Uses c g id i d (s ∷ l) h =
      let (d', s') = clear_sub_task cluster id i d s in
      let one =
        clear_sub_task-UsesOne cluster (λ k. c k + total (cpu_on k) l)
          (λ k. g k + total (gpu_on k) l) id i d s
          (record {
            cpu = λ k. omega (arith, h.cpu k);
            gpu = λ k. omega (arith, h.gpu k);
            nobody = h.nobody;
          }) in
      let rest =
        clear_sub_tasks-Uses (λ k. c k + cpu_on k s') (λ k. g k + gpu_on k s') id (suc i) d' l
          (record {
            cpu = λ k. omega (arith, one.cpu k);
            gpu = λ k. omega (arith, one.gpu k);
            nobody = one.nobody;
          }) in
      record {
        cpu = λ k. omega (arith, rest.cpu k);
        gpu = λ k. omega (arith, rest.gpu k);
        nobody = rest.nobody;
      }

  waiting_for_retry-SameUse : (s : SubTask) → SameUse s (waiting_for_retry s)
  unfolding waiting_for_retry
  waiting_for_retry-SameUse s = record { needs = refl; started = refl; worker = refl }

  -- The usage reads the subtasks of a task, and nothing else of it.
  abbrev pub UsesTask : (Option String → ℕ) → (Option String → ℕ) → Desk W → Task → Type 0
  UsesTask c g d t = Uses c g d.usage t.subtask_list

  module _ (c g : Option String → ℕ) where
    pub modify-Uses :
        (u : Usage) (l : List SubTask) (i : ℕ) (s : SubTask) (f : SubTask → SubTask)
        → get_elem? l i ≡ some s
        → SameUse s (f s)
        → Uses c g u l
        → Uses c g u (modify i f l)
    modify-Uses u l i s f e same h = unfocus c g u l i s f e (
        over_same (others c cpu_on l s) (others g gpu_on l s) u s (f s) same
          (focus c g u l i s e h))

    pub retry-Uses :
        (u : Usage) (t : Task) (i : ℕ) (s : SubTask) (reason : String)
        → get_elem? t.subtask_list i ≡ some s
        → Uses c g u t.subtask_list
        → Uses c g u (retry t i s reason).subtask_list
    unfolding retry
    retry-Uses u t i s reason e h =
        let h' =
          modify-Uses u t.subtask_list i s waiting_for_retry e (waiting_for_retry-SameUse s) h in
        if_either (λ (x : Task). Uses c g u x.subtask_list) (is_failed (waiting_for_retry s).status)
          _ _ (λ _. h') (λ _. h')

    -- Where a vnode is not started before or after, the change of its subtask uses nothing.
    modify_idle-Uses :
        (u : Usage) (l : List SubTask) (i : ℕ) (s : SubTask) (f : SubTask → SubTask)
        → get_elem? l i ≡ some s
        → s.vnode_started ≡ false
        → (f s).vnode_started ≡ false
        → Uses c g u l
        → Uses c g u (modify i f l)
    modify_idle-Uses u l i s f e idle idle' h =
        let one = focus c g u l i s e h in
        unfocus c g u l i s f e (record {
          cpu = λ k. ground (arith, one.cpu k, idle, idle');
          gpu = λ k. ground (arith, one.gpu k, idle, idle');
          nobody = one.nobody;
        })

    retry_get :
        (t : Task) (i : ℕ) (s : SubTask) (reason : String)
        → get_elem? t.subtask_list i ≡ some s
        → get_elem? (retry t i s reason).subtask_list i ≡ some (waiting_for_retry s)
    unfolding retry
    retry_get t i s reason e =
        let there = get_elem?-modify i waiting_for_retry t.subtask_list s e in
        if_either (λ (x : Task). get_elem? x.subtask_list i ≡ some (waiting_for_retry s))
          (is_failed (waiting_for_retry s).status) _ _ (λ _. there) (λ _. there)

    start_vnode_refused :
        (id : String) (i : ℕ) (d : Desk W) (s : SubTask)
        → (start_vnode cluster id i d s).0 ≡ false
        → ((start_vnode cluster id i d s).1.usage ≡ d.usage)
          × ((start_vnode cluster id i d s).2.vnode_started ≡ s.vnode_started)
    unfolding start_vnode
    start_vnode_refused id i d s e =
        elim (Option-cases (cluster.rpc (start_vnode_rpc id i s.worker) d.world).0) [
          | inl accepted ↦ absurd (cc (rw (accepted, start_vnode) at e))
          | inr (m, refused) ↦ rw (refused, start_vnode) (refl, refl)
        ]

    abbrev BalancedPair : Desk W × Task → Type 0
    BalancedPair r = UsesTask c g r.0 r.1

    abbrev Balanced : Bool × Desk W × Task → Type 0
    Balanced r = UsesTask c g r.1 r.2

    start_one-Uses :
        (d : Desk W) (t : Task) (i : ℕ) (s : SubTask)
        → get_elem? t.subtask_list i ≡ some s
        → s.vnode_started ≡ false
        → UsesTask c g d t
        → Balanced (start_one cluster d t i s)
    unfolding start_one send waiting_for_retry
    start_one-Uses d t i s e idle h =
        let (success, d', s') = start_vnode cluster t.id i d s in
        let t' = record t { subtask_list = modify i (λ _. s') t.subtask_list } in
        let one =
          start_vnode-UsesOne cluster (others c cpu_on t.subtask_list s)
            (others g gpu_on t.subtask_list s) t.id i d s (focus c g d.usage t.subtask_list i s e h)
            idle in
        let h' : UsesTask c g d' t' = unfocus c g d'.usage t.subtask_list i s (λ _. s') e one in
        let there : get_elem? t'.subtask_list i ≡ some s' =
          get_elem?-modify i (λ _. s') t.subtask_list s e in
        let again = retry_get t' i s' "Fail to start vnode." there in
        if_either Balanced (start_vnode cluster t.id i d s).0 _ _ (λ _. h')
          (λ refused.
            let idle' = (start_vnode_refused t.id i d s refused).1 ∙ idle in
            let h'' =
              modify_idle-Uses d'.usage (retry t' i s' "Fail to start vnode.").subtask_list i
                (waiting_for_retry s') (λ x. record x { worker = none }) again idle' idle'
                (retry-Uses d'.usage t' i s' "Fail to start vnode." there h') in
            if_either
              (λ (x : Desk W). Uses c g x.usage (
                modify i (λ (y : SubTask). record y { worker = none })
                  (retry t' i s' "Fail to start vnode.").subtask_list))
              (is_waiting (waiting_for_retry s').status) _ _ (λ _. h'') (λ _. h''))

    pub start_vnodes-Uses :
        (d : Desk W) (t : Task) (is : List ℕ)
        → UsesTask c g d t
        → Balanced (start_vnodes cluster d t is)
    unfolding start_vnodes
    start_vnodes-Uses d t [] h = h
    start_vnodes-Uses d t (i ∷ is) h = elim (Option-cases (get_elem? t.subtask_list i)) [
      | inl gone ↦ rw (gone, start_vnodes) (start_vnodes-Uses d t is h)
      | inr (s, e) ↦
          let r = if s.vnode_started then (true, d, t) else start_one cluster d t i s in
          let h' =
            if_either Balanced s.vnode_started (true, d, t) (start_one cluster d t i s) (λ _. h)
              (λ idle. start_one-Uses d t i s e idle h) in
          rw (e, start_vnodes) (start_vnodes-Uses r.1 r.2 is h')
    ]

    command_one-Uses :
        (d : Desk W) (t : Task) (i : ℕ) (s : SubTask)
        → get_elem? t.subtask_list i ≡ some s
        → UsesTask c g d t
        → BalancedPair (command_one cluster d t i s)
    unfolding command_one send
    command_one-Uses d t i s e h =
        let l = t.subtask_list in
        let (token, w) = cluster.token d.world in
        let s1 = record s { command_info = some token } in
        let (success, d', s') = start_subtask cluster t.id i (record d { world = w }) s1 in
        let t' = record t { subtask_list = modify i (λ _. s') l } in
        let tokened =
          over_same (others c cpu_on l s) (others g gpu_on l s) d.usage s s1
            (record { needs = refl; started = refl; worker = refl })
            (focus c g d.usage l i s e h) in
        let one =
          start_subtask-UsesOne cluster (others c cpu_on l s) (others g gpu_on l s) t.id i
            (record d { world = w }) s1 tokened in
        let runs =
          over_same (others c cpu_on l s) (others g gpu_on l s) d'.usage s'
            (record s' { status = TaskStatus.running })
            (record { needs = refl; started = refl; worker = refl }) one in
        let h' : UsesTask c g d' t' = unfocus c g d'.usage l i s (λ _. s') e one in
        let there : get_elem? t'.subtask_list i ≡ some s' = get_elem?-modify i (λ _. s') l s e in
        let h'' = retry-Uses d'.usage t' i s' "Fail to start task." there h' in
        if_either BalancedPair success _ _
          (λ _. unfocus c g d'.usage l i s (λ _. record s' { status = TaskStatus.running }) e runs)
          (λ _.
            if_either
              (λ (x : Desk W). Uses c g x.usage (retry t' i s' "Fail to start task.").subtask_list)
              (is_waiting (waiting_for_retry s').status) _ _ (λ _. h'') (λ _. h''))

    pub start_commands-Uses :
        (d : Desk W) (t : Task) (is : List ℕ)
        → UsesTask c g d t
        → UsesTask c g (start_commands cluster d t is).0 (start_commands cluster d t is).1
    unfolding start_commands
    start_commands-Uses d t [] h = h
    start_commands-Uses d t (i ∷ is) h = elim (Option-cases (get_elem? t.subtask_list i)) [
      | inl gone ↦ rw (gone, start_commands) (start_commands-Uses d t is h)
      | inr (s, e) ↦
          let run = λ (x : SubTask). record x { status = TaskStatus.running } in
          let t' = record t { subtask_list = modify i run t.subtask_list } in
          let r =
            if has_no_command s || is_running s.status
            then (d, t')
            else command_one cluster d t i s in
          let h' =
            if_either BalancedPair (has_no_command s || is_running s.status) (d, t')
              (command_one cluster d t i s)
              (λ _.
                modify-Uses d.usage t.subtask_list i s run e
                  (record { needs = refl; started = refl; worker = refl }) h)
              (λ _. command_one-Uses d t i s e h) in
          rw (e, start_commands) (start_commands-Uses r.0 r.1 is h')
    ]

    -- The subtask i is cleared, with changes before and after that leave what it uses.
    pub clear_one-Uses :
        (id : String) (i : ℕ) (d : Desk W) (l : List SubTask) (s s1 : SubTask)
        (f : SubTask → SubTask)
        → get_elem? l i ≡ some s
        → SameUse s s1
        → ((x : SubTask) → SameUse x (f x))
        → Uses c g d.usage l
        → Uses c g
            (clear_sub_task cluster id i d s1).0.usage
            (modify i (λ _. f (clear_sub_task cluster id i d s1).1) l)
    clear_one-Uses id i d l s s1 f e same still h =
        let (d', s') = clear_sub_task cluster id i d s1 in
        unfocus c g d'.usage l i s (λ _. f s') e
          (over_same (others c cpu_on l s) (others g gpu_on l s) d'.usage s' (f s') (still s') (
            clear_sub_task-UsesOne cluster (others c cpu_on l s) (others g gpu_on l s) id i d s1 (
              over_same (others c cpu_on l s) (others g gpu_on l s) d.usage s s1 same
                (focus c g d.usage l i s e h))))
