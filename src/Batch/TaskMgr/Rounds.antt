-- ===== src/Batch/TaskMgr/Rounds.antt =====
-- The accounts of the task manager through its methods.
use docklet.Common.{
  ℕ, zero, suc, ◌≡◌, refl, sym, ap, subst, ◌∙◌, inl, inr, Bool, true, false, ◌||◌, Option, none,
  some, some_inj, Option-cases, List-cases, List, [], ◌∷◌, ◌++◌, ltb, ◌==◌, String, str_eq,
  if◌then◌else◌, if_either, get_elem?, modify, total, total-append, total-modify_same, contains,
  arith,
}
use docklet.Batch.Task.{Task, SubTask, new_task, new_subtask}
use docklet.Batch.TaskNets.Pool.{holds}
use docklet.Batch.TaskNets.{max_size}
use docklet.Batch.Desk.{
  Cluster, Desk, stopped, report_of, send, complete, is_completed, billing_of, stop_remove_task,
}
use docklet.Batch.Desk.Uses.{cpu_on, gpu_on, Uses}
use docklet.Batch.Desk.Sound.{stop_remove_task-IsSound, complete-IsSound, task_processor-IsSound}
use docklet.Batch.TaskReport.{TaskMsg}
use docklet.Batch.TaskReport.Sound.{on_task_report-IsSound}
use docklet.Batch.Scheduler.{Decision, pass, defer, block, crash, start}
use docklet.Batch.Scheduler.Assign.{schedule_task-Uses, DecisionUses}
use docklet.Batch.Intake.{TaskJson, make_task, is_feasible, subtasks_from, preference}
use docklet.Batch.TaskMgr.{
  TaskMgr, Choice, idle, crashed, picked, Added, get_task, extend, count_pending, number, stop_task,
  stop_one, stop_all, keep_appended, enqueue, remove_all, drain, sort_out_task_queue, finish, act,
  schedule_from, task_scheduler, process, run_once, report_task, refuse, add_task,
}
use docklet.Batch.TaskMgr.Accounts.{
  IsAccounted, alone, together, treat-IsAccounted, task_cpu, task_gpu, task_net, weaken-IsOwned,
}

module _ {W : Type 0} (cluster : Cluster W) where
  abbrev Fair : TaskMgr W → Type 0
  Fair m = IsAccounted m.desk m.tasks

  -- A change of a task that leaves its subtasks and its net
  plain :
      (d : Desk W) (tasks : List Task) (r : ℕ) (f : Task → Task)
      → ((t : Task) → ((f t).subtask_list ≡ t.subtask_list) × ((f t).task_base_ip ≡ t.task_base_ip))
      → IsAccounted d tasks
      → IsAccounted d (modify r f tasks)
  plain d tasks r f same h =
      let c : (k : Option String)
          → total (task_cpu k) (modify r f tasks) ≡ total (task_cpu k) tasks =
        λ k. total-modify_same (task_cpu k) r f tasks (λ t. ap (total (cpu_on k)) (same t).0) in
      let g : (k : Option String)
          → total (task_gpu k) (modify r f tasks) ≡ total (task_gpu k) tasks =
        λ k. total-modify_same (task_gpu k) r f tasks (λ t. ap (total (gpu_on k)) (same t).0) in
      let n : (x : ℕ) → total (task_net x) (modify r f tasks) ≡ total (task_net x) tasks =
        λ x. total-modify_same (task_net x) r f tasks (λ t. ap (holds x) (same t).1) in
      record {
        cpu = λ k. omega (arith, h.cpu k, c k);
        gpu = λ k. omega (arith, h.gpu k, g k);
        nobody = h.nobody;
        owned = weaken-IsOwned d.nets _ _ n h.owned;
      }

  stop_one-Fair : (r : ℕ) (m : TaskMgr W) → Fair m → Fair (stop_one cluster r m).1
  unfolding stop_one stop_task send
  stop_one-Fair r m h = elim (Option-cases (get_elem? m.tasks r)) [
    | inl gone ↦ rw (gone, stop_one) h
    | inr (t, e) ↦
        let h' =
          treat-IsAccounted cluster (λ d u. let (_, d', u') = stop_task cluster d u in (d', u')) r m
            (λ c g held d u s.
              let (d', u') = stop_remove_task cluster d u in
              let (k, same) = stop_remove_task-IsSound cluster c g held d u s in
              elim (Option-cases (billing_of cluster d' u')) [
                | inl unknown ↦ rw (unknown, stop_task) (record { uses = k.uses; owned = k.owned })
                | inr (bill, q) ↦ rw (q, stop_task) (record { uses = k.uses; owned = k.owned })
              ])
            h in
        rw (e, stop_one)
          (if_either (λ (x : Bool × TaskMgr W). Fair x.1) (contains str_eq t.id m.lazy_stop_list) _
            _ (λ _. record { cpu = h'.cpu; gpu = h'.gpu; nobody = h'.nobody; owned = h'.owned })
            (λ _. h))
  ]

  stop_all-Fair : (rs : List ℕ) (m : TaskMgr W) → Fair m → Fair (stop_all cluster rs m).1
  unfolding stop_all
  stop_all-Fair [] m h = h
  stop_all-Fair (r ∷ rs) m h =
      let h' = stop_one-Fair r m h in
      if_either (λ (x : Bool × TaskMgr W). Fair x.1) (stop_one cluster r m).0 _ _
        (λ _. stop_all-Fair rs (stop_one cluster r m).1 h') (λ _. h')

  keep_appended-Fair : (rs : List ℕ) (m : TaskMgr W) → Fair m → Fair (keep_appended cluster rs m).1
  unfolding keep_appended send
  keep_appended-Fair [] m h = h
  keep_appended-Fair (r ∷ rs) m h = elim (Option-cases (get_elem? m.tasks r)) [
    | inl gone ↦ rw (gone, keep_appended) (keep_appended-Fair rs m h)
    | inr (t, e) ↦
        let stops = contains str_eq t.id m.lazy_stop_list in
        let m' =
          if stops
          then record m { desk = send cluster m.desk (report_of t stopped "" 1 0 0) }
          else m in
        rw (e, keep_appended)
          (keep_appended-Fair rs m' (
            if_either Fair stops _ _
              (λ _. record { cpu = h.cpu; gpu = h.gpu; nobody = h.nobody; owned = h.owned })
              (λ _. h)))
  ]

  number-Fair :
      (d : Desk W) (rs : List ℕ) (n : ℕ) (gpus : List (String × ℕ)) (tasks : List Task)
      → IsAccounted d tasks
      → IsAccounted d (number rs n gpus tasks).0
  unfolding number
  number-Fair d [] n gpus tasks h = h
  number-Fair d (r ∷ rs) n gpus tasks h = elim (Option-cases (get_elem? tasks r)) [
    | inl gone ↦ rw (gone, number) (number-Fair d rs n gpus tasks h)
    | inr (t, e) ↦
        rw (e, number)
          (if_either (λ (x : List Task × List (String × ℕ)). IsAccounted d x.0)
            (str_eq t.gpu_preference "null") _ _
            (λ _. number-Fair d rs (suc n) gpus _ (plain d tasks r _ (λ u. (refl, refl)) h))
            (λ _.
              number-Fair d rs n (count_pending t.gpu_preference gpus) _
                (plain d tasks r _ (λ u. (refl, refl)) h)))
  ]

  drain-Fair : (m : TaskMgr W) → Fair m → Fair (drain cluster m)
  unfolding drain enqueue
  drain-Fair m h =
      let m' = record m {
        task_queue = remove_all m.lazy_delete_list m.task_queue;
        lazy_delete_list = [];
      } in
      let (kept, m'') = keep_appended cluster m'.lazy_append_list m' in
      let h' =
        keep_appended-Fair m'.lazy_append_list m'
          (record { cpu = h.cpu; gpu = h.gpu; nobody = h.nobody; owned = h.owned }) in
      let k = number-Fair m''.desk (extend m''.tasks m''.task_queue kept) 0 [] m''.tasks h' in
      record { cpu = k.cpu; gpu = k.gpu; nobody = k.nobody; owned = k.owned }

  pub sort_out-Fair : (m : TaskMgr W) → Fair m → Fair (sort_out_task_queue cluster m).1
  unfolding sort_out_task_queue
  sort_out-Fair m h =
      let h' = stop_all-Fair m.task_queue m h in
      let (fine, m') = stop_all cluster m.task_queue m in
      if_either (λ (x : Bool × TaskMgr W). Fair x.1) fine _ _ (λ _. drain-Fair m' h') (λ _. h')

  finish-Fair : (r : ℕ) (m : TaskMgr W) → Fair m → Fair (finish cluster r m).1
  unfolding finish
  finish-Fair r m h =
      let h' =
        treat-IsAccounted cluster (λ d t. let (_, d', t') = complete cluster d t in (d', t')) r m
          (λ c g held d t s. (complete-IsSound cluster c g held d t s).0) h in
      record { cpu = h'.cpu; gpu = h'.gpu; nobody = h'.nobody; owned = h'.owned }

  -- The subtasks of the task r, where they use what they used before
  placed-Fair :
      (m : TaskMgr W) (r : ℕ) (t : Task) (subs : List SubTask)
      → get_elem? m.tasks r ≡ some t
      → Fair m
      → ((c g : Option String → ℕ)
          → Uses c g m.desk.usage t.subtask_list
          → Uses c g m.desk.usage subs)
      → IsAccounted m.desk (modify r (λ x. record x { subtask_list = subs }) m.tasks)
  placed-Fair m r t subs e h same =
      let a = alone cluster m.desk m.tasks r t e h in
      together cluster m.desk m.tasks r t (λ x. record x { subtask_list = subs }) e
        (record { uses = same _ _ a.uses; owned = a.owned })

  act-Fair :
      (r : ℕ) (t : Task) (m : TaskMgr W) (next deferred : Choice × TaskMgr W) (decision : Decision)
      → get_elem? m.tasks r ≡ some t
      → Fair m
      → Fair next.1
      → Fair deferred.1
      → ((c g : Option String → ℕ)
          → Uses c g m.desk.usage t.subtask_list
          → DecisionUses m.desk.usage c g decision)
      → Fair (act cluster r m next deferred decision).1
  unfolding act
  act-Fair r t m next deferred pass e h n f same = n
  act-Fair r t m next deferred defer e h n f same = f
  act-Fair r t m next deferred block e h n f same = h
  act-Fair r t m next deferred crash e h n f same = h
  act-Fair r t m next deferred (start subs is) e h n f same = placed-Fair m r t subs e h same

  pub schedule_from-Fair :
      (rs : List ℕ) (gpus : List String) (m : TaskMgr W)
      → Fair m
      → Fair (schedule_from cluster rs gpus m).1
  unfolding schedule_from
  schedule_from-Fair [] gpus m h = h
  schedule_from-Fair (r ∷ rs) gpus m h = elim (Option-cases (get_elem? m.tasks r)) [
    | inl gone ↦ rw (gone, schedule_from) (schedule_from-Fair rs gpus m h)
    | inr (t, e) ↦
        rw (e, schedule_from)
          (if_either (λ (x : Choice × TaskMgr W). Fair x.1)
            (contains (λ x y. x == y) r m.lazy_delete_list || contains str_eq t.id m.lazy_stop_list)
            _ _ (λ _. schedule_from-Fair rs gpus m h)
            (λ _.
              if_either (λ (x : Choice × TaskMgr W). Fair x.1) (is_completed t) _ _
                (λ _.
                  if_either (λ (x : Choice × TaskMgr W). Fair x.1) (finish cluster r m).0 _ _
                    (λ _. schedule_from-Fair rs gpus (finish cluster r m).1 (finish-Fair r m h))
                    (λ _. finish-Fair r m h))
                (λ _.
                  act-Fair r t m _ _ _ e h (schedule_from-Fair rs gpus m h)
                    (schedule_from-Fair rs (t.gpu_preference ∷ gpus) m h)
                    (λ c g u.
                      schedule_task-Uses m.desk.usage c g t m.desk.usage
                        (cluster.nodes m.desk.world) gpus u))))
  ]

  process-Fair : (choice : Choice) (m : TaskMgr W) → Fair m → Fair (process cluster choice m).1
  unfolding process
  process-Fair idle m h = h
  process-Fair crashed m h = h
  process-Fair (picked r is) m h =
      treat-IsAccounted cluster _ r m
        (λ c g held d t s. (task_processor-IsSound cluster c g held d t is s).0) h

  pub run_once-Fair : (m : TaskMgr W) → Fair m → Fair (run_once cluster m).1
  unfolding run_once task_scheduler
  run_once-Fair m h =
      let (fine, sorted_out) = sort_out_task_queue cluster m in
      let h' = sort_out-Fair m h in
      let (choice, m') = schedule_from cluster sorted_out.task_queue [] sorted_out in
      if_either (λ (x : Bool × TaskMgr W). Fair x.1) fine _ _
        (λ _. process-Fair choice m' (schedule_from-Fair sorted_out.task_queue [] sorted_out h'))
        (λ _. h')

  pub report_task-Fair : (m : TaskMgr W) (msg : TaskMsg) → Fair m → Fair (report_task cluster m msg)
  unfolding report_task
  report_task-Fair m msg h = elim (Option-cases (get_task msg.taskid m.tasks m.task_queue)) [
    | inl gone ↦ rw (gone, report_task) h
    | inr ((r, t), e) ↦
        rw (e, report_task)
          (treat-IsAccounted cluster _ r m
            (λ c g held d u s. (on_task_report-IsSound cluster c g held d u msg s).0) h)
  ]

  -- A task that is made has no vnode started and no net.
  fresh :
      (k : Option String) (json : TaskJson) (n i : ℕ)
      → (total (cpu_on k) (subtasks_from json n i) ≡ 0)
        × (total (gpu_on k) (subtasks_from json n i) ≡ 0)
  unfolding total subtasks_from new_subtask
  fresh k json zero i = (refl, refl)
  fresh k json (suc n) i =
      let (c, g) = fresh k json n (suc i) in (omega (arith, c), omega (arith, g))

  record IsIdle (t : Task) : Type 0 where
    cpu : (k : Option String) → task_cpu k t ≡ 0
    gpu : (k : Option String) → task_gpu k t ≡ 0
    net : t.task_base_ip ≡ none

  make_task-IsIdle :
      (username taskid : String) (json : TaskJson) (priority size now : ℕ) (t : Task)
      → make_task username taskid json priority size now ≡ some t
      → IsIdle t
  unfolding make_task new_task
  make_task-IsIdle username taskid json priority size now t e =
      elim (List-cases (subtasks_from json json.vnode_count 0)) [
        | inl no_vnodes ↦ absurd (cc (rw (no_vnodes, make_task) at e))
        | inr (s, subs, q) ↦
            let made =
              new_task taskid username json.at_same_time priority size (preference json) (s ∷ subs)
                now in
            let is : made ≡ t = some_inj (rw (q, make_task) at e) in
            subst IsIdle is (record {
              cpu = λ k. ap (total (cpu_on k)) (sym q) ∙ (fresh k json json.vnode_count 0).0;
              gpu = λ k. ap (total (gpu_on k)) (sym q) ∙ (fresh k json json.vnode_count 0).1;
              net = refl;
            })
      ]

  joined :
      (d : Desk W) (w : W) (tasks : List Task) (t : Task)
      → IsIdle t
      → IsAccounted d tasks
      → IsAccounted (record d { world = w }) (tasks ++ t ∷ [])
  unfolding total
  joined d w tasks t unused h = record {
    cpu = λ k. omega (arith, h.cpu k, total-append (task_cpu k) tasks (t ∷ []), unused.cpu k);
    gpu = λ k. omega (arith, h.gpu k, total-append (task_gpu k) tasks (t ∷ []), unused.gpu k);
    nobody = h.nobody;
    owned =
        weaken-IsOwned d.nets _ _
          (λ x. omega (arith, total-append (task_net x) tasks (t ∷ []), ap (holds x) unused.net))
          h.owned;
  }

  pub add_task-Fair :
      (m : TaskMgr W) (username taskid : String) (json : TaskJson) (priority : ℕ)
      → Fair m
      → Fair (add_task cluster m username taskid json priority).1
  unfolding add_task refuse send
  add_task-Fair m username taskid json priority h =
      let size = max_size m.desk.nets in
      let (now, w) = cluster.time m.desk.world in
      if_either (λ (r : Added × TaskMgr W). Fair r.1) (ltb size json.vnode_count) _ _
        (λ _. record { cpu = h.cpu; gpu = h.gpu; nobody = h.nobody; owned = h.owned })
        (λ _. elim (Option-cases (make_task username taskid json priority size now)) [
          | inl no_vnodes ↦
              rw no_vnodes (record { cpu = h.cpu; gpu = h.gpu; nobody = h.nobody; owned = h.owned })
          | inr (t, e) ↦ elim (Option-cases (is_feasible t m.desk.usage (cluster.nodes w))) [
            | inl no_nodes ↦
                rw (e, no_nodes)
                  (record { cpu = h.cpu; gpu = h.gpu; nobody = h.nobody; owned = h.owned })
            | inr (false, no_room) ↦
                rw (e, no_room)
                  (record { cpu = h.cpu; gpu = h.gpu; nobody = h.nobody; owned = h.owned })
            | inr (true, room) ↦
                let k =
                  joined m.desk w m.tasks t
                    (make_task-IsIdle username taskid json priority size now t e) h in
                rw (e, room)
                  (record { cpu = k.cpu; gpu = k.gpu; nobody = k.nobody; owned = k.owned })
          ]
        ])
