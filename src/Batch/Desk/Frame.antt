-- ===== src/Batch/Desk/Frame.antt =====
-- What the loops over the vnodes of a task leave as it is: the nets, and the task's name, priority and
-- net.
use docklet.Common.{
  ℕ, suc, ◌≡◌, refl, ◌∙◌, inl, inr, Bool, true, ◌||◌, some, Bool-cases, Option-cases, List, [], ◌∷◌,
  if◌then◌else◌, String, get_elem?, modify, if_either,
}
use docklet.Batch.Task.{
  TaskStatus, SubTask, Task, is_waiting, is_running, is_failed, retry, waiting_for_retry,
}
use docklet.Batch.Desk.{
  Cluster, Desk, has_no_command, send, start_vnode, stop_vnode, start_subtask, stop_subtask,
  clear_command, clear_vnode, clear_sub_task, clear_sub_tasks, start_one, start_vnodes, command_one,
  start_commands, start_vnode_rpc, stop_vnode_rpc, start_task_rpc, stop_task_rpc,
}

pub record SameTask (t t' : Task) : Type 0 where
  pub id : t'.id ≡ t.id
  pub created_at : t'.created_at ≡ t.created_at
  pub priority : t'.priority ≡ t.priority

pub refl-SameTask : (t : Task) → SameTask t t
refl-SameTask t = record { id = refl; created_at = refl; priority = refl }

pub trans-SameTask : (s t u : Task) → SameTask s t → SameTask t u → SameTask s u
trans-SameTask s t u a b = record {
  id = b.id ∙ a.id;
  created_at = b.created_at ∙ a.created_at;
  priority = b.priority ∙ a.priority;
}

module _ {W : Type 0} (cluster : Cluster W) where
  pub record Framed (d : Desk W) (t : Task) (d' : Desk W) (t' : Task) : Type 0 where
    pub nets : d'.nets ≡ d.nets
    pub task_base_ip : t'.task_base_ip ≡ t.task_base_ip
    pub task : SameTask t t'

  frame : (d : Desk W) (t : Task) → Framed d t d t
  frame d t = record { nets = refl; task_base_ip = refl; task = refl-SameTask t }

  trans-Framed :
      (d d' d'' : Desk W) (t t' t'' : Task)
      → Framed d t d' t'
      → Framed d' t' d'' t''
      → Framed d t d'' t''
  trans-Framed d d' d'' t t' t'' a b = record {
    nets = b.nets ∙ a.nets;
    task_base_ip = b.task_base_ip ∙ a.task_base_ip;
    task = trans-SameTask t t' t'' a.task b.task;
  }

  module _ (id : String) (i : ℕ) (d : Desk W) (s : SubTask) where
    start_vnode_nets : (start_vnode cluster id i d s).1.nets ≡ d.nets
    unfolding start_vnode
    start_vnode_nets = elim (Option-cases (cluster.rpc (start_vnode_rpc id i s.worker) d.world).0) [
      | inl accepted ↦ rw (accepted, start_vnode) refl
      | inr (e, refused) ↦ rw (refused, start_vnode) refl
    ]

    stop_vnode_nets : (stop_vnode cluster id i d s).1.nets ≡ d.nets
    unfolding stop_vnode
    stop_vnode_nets = elim (Bool-cases s.vnode_started) [
      | inr idle ↦ rw (idle, stop_vnode) refl
      | inl started ↦ elim (Option-cases (cluster.rpc (stop_vnode_rpc id i s.worker) d.world).0) [
        | inl accepted ↦ rw (started, accepted, stop_vnode) refl
        | inr (e, refused) ↦ rw (started, refused, stop_vnode) refl
      ]
    ]

    start_subtask_nets : (start_subtask cluster id i d s).1.nets ≡ d.nets
    unfolding start_subtask
    start_subtask_nets =
        elim (Option-cases (cluster.rpc (start_task_rpc id i s.worker) d.world).0) [
          | inl accepted ↦ rw (accepted, start_subtask) refl
          | inr (e, refused) ↦ rw (refused, start_subtask) refl
        ]

    stop_subtask_nets : (stop_subtask cluster id i d s).1.nets ≡ d.nets
    unfolding stop_subtask
    stop_subtask_nets = elim (Option-cases (cluster.rpc (stop_task_rpc id i s.worker) d.world).0) [
      | inl accepted ↦ rw (accepted, stop_subtask) refl
      | inr (e, refused) ↦ rw (refused, stop_subtask) refl
    ]

  pub clear_sub_task_nets :
      (id : String) (i : ℕ) (d : Desk W) (s : SubTask)
      → (clear_sub_task cluster id i d s).0.nets ≡ d.nets
  unfolding clear_sub_task clear_command clear_vnode
  clear_sub_task_nets id i d s =
      let (d', s') = clear_command cluster id i d s in
      let first : d'.nets ≡ d.nets =
        if_either (λ (r : Desk W × SubTask). r.0.nets ≡ d.nets) s.task_started _ _
          (λ _. stop_subtask_nets id i d s) (λ _. refl) in
      if_either (λ (r : Desk W × SubTask). r.0.nets ≡ d.nets) s'.vnode_started _ _
        (λ _. stop_vnode_nets id i d' s' ∙ first) (λ _. first)

  pub clear_sub_tasks_nets :
      (id : String) (i : ℕ) (d : Desk W) (l : List SubTask)
      → (clear_sub_tasks cluster id i d l).0.nets ≡ d.nets
  unfolding clear_sub_tasks
  clear_sub_tasks_nets id i d [] = refl
  clear_sub_tasks_nets id i d (s ∷ l) =
      clear_sub_tasks_nets id (suc i) (clear_sub_task cluster id i d s).0 l
      ∙ clear_sub_task_nets id i d s

  pub retry-Framed :
      (d d' : Desk W) (t : Task) (i : ℕ) (s : SubTask) (reason : String)
      → d'.nets ≡ d.nets
      → Framed d t d' (retry t i s reason)
  unfolding retry
  retry-Framed d d' t i s reason e =
      if_either (Framed d t d') (is_failed (waiting_for_retry s).status) _ _
        (λ _. record {
          nets = e;
          task_base_ip = refl;
          task = record { id = refl; created_at = refl; priority = refl };
        })
        (λ _. record {
          nets = e;
          task_base_ip = refl;
          task = record { id = refl; created_at = refl; priority = refl };
        })

  start_one-Framed :
      (d : Desk W) (t : Task) (i : ℕ) (s : SubTask)
      → Framed d t (start_one cluster d t i s).1 (start_one cluster d t i s).2
  unfolding start_one send
  start_one-Framed d t i s =
      let (success, d', s') = start_vnode cluster t.id i d s in
      let t' = record t { subtask_list = modify i (λ _. s') t.subtask_list } in
      let e = start_vnode_nets t.id i d s in
      let f = retry-Framed d d' t' i s' "Fail to start vnode." e in
      if_either (λ (r : Bool × Desk W × Task). Framed d t r.1 r.2) success _ _
        (λ _. record {
          nets = e;
          task_base_ip = refl;
          task = record { id = refl; created_at = refl; priority = refl };
        })
        (λ _. record {
          nets =
              if_either (λ (x : Desk W). x.nets ≡ d.nets) (is_waiting (waiting_for_retry s').status)
                _ _ (λ _. e) (λ _. e);
          task_base_ip = f.task_base_ip;
          task = record {
            id = f.task.id;
            created_at = f.task.created_at;
            priority = f.task.priority;
          };
        })

  pub start_vnodes-Framed :
      (d : Desk W) (t : Task) (is : List ℕ)
      → Framed d t (start_vnodes cluster d t is).1 (start_vnodes cluster d t is).2
  unfolding start_vnodes
  start_vnodes-Framed d t [] = frame d t
  start_vnodes-Framed d t (i ∷ is) = elim (Option-cases (get_elem? t.subtask_list i)) [
    | inl gone ↦ rw (gone, start_vnodes) (start_vnodes-Framed d t is)
    | inr (s, e) ↦
        let r = if s.vnode_started then (true, d, t) else start_one cluster d t i s in
        let h =
          if_either (λ (r : Bool × Desk W × Task). Framed d t r.1 r.2) s.vnode_started (true, d, t)
            (start_one cluster d t i s) (λ _. frame d t) (λ _. start_one-Framed d t i s) in
        let q = start_vnodes cluster r.1 r.2 is in
        rw (e, start_vnodes) (trans-Framed d r.1 q.1 t r.2 q.2 h (start_vnodes-Framed r.1 r.2 is))
  ]

  command_one-Framed :
      (d : Desk W) (t : Task) (i : ℕ) (s : SubTask)
      → Framed d t (command_one cluster d t i s).0 (command_one cluster d t i s).1
  unfolding command_one send
  command_one-Framed d t i s =
      let (token, w) = cluster.token d.world in
      let s1 = record s { command_info = some token } in
      let d1 = record d { world = w } in
      let (success, d', s') = start_subtask cluster t.id i d1 s1 in
      let t' = record t { subtask_list = modify i (λ _. s') t.subtask_list } in
      let e : d'.nets ≡ d.nets = start_subtask_nets t.id i d1 s1 in
      let f = retry-Framed d d' t' i s' "Fail to start task." e in
      if_either (λ (r : Desk W × Task). Framed d t r.0 r.1) success _ _
        (λ _. record {
          nets = e;
          task_base_ip = refl;
          task = record { id = refl; created_at = refl; priority = refl };
        })
        (λ _. record {
          nets =
              if_either (λ (x : Desk W). x.nets ≡ d.nets) (is_waiting (waiting_for_retry s').status)
                _ _ (λ _. e) (λ _. e);
          task_base_ip = f.task_base_ip;
          task = record {
            id = f.task.id;
            created_at = f.task.created_at;
            priority = f.task.priority;
          };
        })

  pub start_commands-Framed :
      (d : Desk W) (t : Task) (is : List ℕ)
      → Framed d t (start_commands cluster d t is).0 (start_commands cluster d t is).1
  unfolding start_commands
  start_commands-Framed d t [] = frame d t
  start_commands-Framed d t (i ∷ is) = elim (Option-cases (get_elem? t.subtask_list i)) [
    | inl gone ↦ rw (gone, start_commands) (start_commands-Framed d t is)
    | inr (s, e) ↦
        let run = λ (x : SubTask). record x { status = TaskStatus.running } in
        let t' = record t { subtask_list = modify i run t.subtask_list } in
        let r =
          if has_no_command s || is_running s.status
          then (d, t')
          else command_one cluster d t i s in
        let h =
          if_either (λ (r : Desk W × Task). Framed d t r.0 r.1)
            (has_no_command s || is_running s.status) (d, t') (command_one cluster d t i s)
            (λ _. record {
              nets = refl;
              task_base_ip = refl;
              task = record { id = refl; created_at = refl; priority = refl };
            })
            (λ _. command_one-Framed d t i s) in
        let q = start_commands cluster r.0 r.1 is in
        rw (e, start_commands)
          (trans-Framed d r.0 q.0 t r.1 q.1 h (start_commands-Framed r.0 r.1 is))
  ]
