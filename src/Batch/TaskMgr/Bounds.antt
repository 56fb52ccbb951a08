-- ===== src/Batch/TaskMgr/Bounds.antt =====
-- The usage of a worker and what the worker offers, through the life of a task manager.
use docklet.Common.{
  ℕ, ◌≤◌, ◌≡◌, refl, sym, ap, subst, ◌∙◌, inl, inr, Bool, true, false, ◌||◌, some, some_inj,
  Option-cases, List, [], ◌∷◌, ltb, ◌==◌, String, str_eq, if◌then◌else◌, if_either, get_elem?,
  get_elem?-modify, total, contains, arith,
}
use docklet.Batch.Task.{Task, SubTask}
use docklet.Batch.TaskNets.{TaskNets, max_size}
use docklet.Batch.Placement.{Usage, NodeInfo}
use docklet.Batch.Placement.Capacity.{load, Within, IsDistinct, Fits}
use docklet.Batch.Job.Table.{find}
use docklet.Batch.Desk.{
  Cluster, Desk, stopped, report_of, send, complete, is_completed, billing_of, stop_remove_task,
}
use docklet.Batch.Desk.Demand.{Measure, cores, gpus, stop_remove_task_shrinks, complete_shrinks}
use docklet.Batch.Desk.Growth.{HasRoom, task_processor_room}
use docklet.Batch.TaskReport.{TaskMsg, on_task_report}
use docklet.Batch.TaskReport.Demand.{on_task_report_shrinks}
use docklet.Batch.Scheduler.{Decision, pass, defer, block, crash, start}
use docklet.Batch.Scheduler.Room.{RoomyDecision, schedule_task_roomy}
use docklet.Batch.Intake.{TaskJson, make_task, is_feasible}
use docklet.Batch.TaskMgr.{
  TaskMgr, Choice, idle, crashed, picked, Added, new, treat, get_task, stop_task, stop_one,
  stop_all, keep_appended, enqueue, remove_all, drain, sort_out_task_queue, finish, act,
  schedule_from, task_scheduler, process, run_once, report_task, refuse, add_task, lazy_stop_task,
}
use docklet.Batch.TaskMgr.Run.{
  Event, round, report, add, stop, elsewhere, happen, live, live-IsAccounted,
}
use docklet.Batch.TaskMgr.Accounts.{task_cpu, task_gpu}
use docklet.Net.Address.{Ip}
use docklet.Batch.TaskNets

module _ {W : Type 0} (cluster : Cluster W) (p : Measure) (ip : String) (offer : NodeInfo → ℕ)
    (cap : ℕ) (distinct : (w : W) → IsDistinct (cluster.nodes w))
    (offers : (w : W) (info : NodeInfo) → find ip (cluster.nodes w) ≡ some info → offer info ≤ cap)
    (fits : (u : Usage) (subs : List SubTask) (info : NodeInfo) (workers : List String)
      → Fits false u ip info subs workers
      → Within (load p.need ip subs workers) (p.used u (some ip)) (offer info)) where
  abbrev on_ip : Desk W → ℕ
  on_ip d = p.used d.usage (some ip)

  abbrev Under : TaskMgr W → Type 0
  Under m = on_ip m.desk ≤ cap

  treat-Under :
      (f : Desk W → Task → Desk W × Task) (r : ℕ) (m : TaskMgr W)
      → ((d : Desk W) (t : Task) → on_ip (f d t).0 ≤ on_ip d)
      → Under m
      → Under (treat f r m)
  unfolding treat
  treat-Under f r m shrinks h = elim (Option-cases (get_elem? m.tasks r)) [
    | inl gone ↦ rw (gone, treat) h
    | inr (t, e) ↦ rw (e, treat) (omega (arith, h, shrinks m.desk t))
  ]

  stop_one-Under : (r : ℕ) (m : TaskMgr W) → Under m → Under (stop_one cluster r m).1
  unfolding stop_one stop_task send
  stop_one-Under r m h = elim (Option-cases (get_elem? m.tasks r)) [
    | inl gone ↦ rw (gone, stop_one) h
    | inr (t, e) ↦
        let h' =
          treat-Under (λ d u. let (_, d', u') = stop_task cluster d u in (d', u')) r m
            (λ d u.
              let (d', u') = stop_remove_task cluster d u in
              let shrinks = stop_remove_task_shrinks cluster p ip d u in
              elim (Option-cases (billing_of cluster d' u')) [
                | inl unknown ↦ rw (unknown, stop_task) shrinks
                | inr (bill, q) ↦ rw (q, stop_task) shrinks
              ])
            h in
        rw (e, stop_one)
          (if_either (λ (x : Bool × TaskMgr W). Under x.1) (contains str_eq t.id m.lazy_stop_list) _
            _ (λ _. h') (λ _. h))
  ]

  stop_all-Under : (rs : List ℕ) (m : TaskMgr W) → Under m → Under (stop_all cluster rs m).1
  unfolding stop_all
  stop_all-Under [] m h = h
  stop_all-Under (r ∷ rs) m h =
      let h' = stop_one-Under r m h in
      if_either (λ (x : Bool × TaskMgr W). Under x.1) (stop_one cluster r m).0 _ _
        (λ _. stop_all-Under rs (stop_one cluster r m).1 h') (λ _. h')

  keep_appended-Under :
      (rs : List ℕ) (m : TaskMgr W) → Under m → Under (keep_appended cluster rs m).1
  unfolding keep_appended send
  keep_appended-Under [] m h = h
  keep_appended-Under (r ∷ rs) m h = elim (Option-cases (get_elem? m.tasks r)) [
    | inl gone ↦ rw (gone, keep_appended) (keep_appended-Under rs m h)
    | inr (t, e) ↦
        let stops = contains str_eq t.id m.lazy_stop_list in
        let m' =
          if stops
          then record m { desk = send cluster m.desk (report_of t stopped "" 1 0 0) }
          else m in
        rw (e, keep_appended)
          (keep_appended-Under rs m' (if_either Under stops _ _ (λ _. h) (λ _. h)))
  ]

  drain-Under : (m : TaskMgr W) → Under m → Under (drain cluster m)
  unfolding drain enqueue
  drain-Under m h =
      let m' = record m {
        task_queue = remove_all m.lazy_delete_list m.task_queue;
        lazy_delete_list = [];
      } in
      keep_appended-Under m'.lazy_append_list m' h

  sort_out-Under : (m : TaskMgr W) → Under m → Under (sort_out_task_queue cluster m).1
  unfolding sort_out_task_queue
  sort_out-Under m h =
      let h' = stop_all-Under m.task_queue m h in
      let (fine, m') = stop_all cluster m.task_queue m in
      if_either (λ (x : Bool × TaskMgr W). Under x.1) fine _ _ (λ _. drain-Under m' h') (λ _. h')

  finish-Under : (r : ℕ) (m : TaskMgr W) → Under m → Under (finish cluster r m).1
  unfolding finish
  finish-Under r m h =
      treat-Under (λ d t. let (_, d', t') = complete cluster d t in (d', t')) r m
        (λ d t. complete_shrinks cluster p ip d t) h

  -- What is picked has room.
  abbrev Ready : Choice × TaskMgr W → Type 0
  Ready (idle, m) = Under m
  Ready (crashed, m) = Under m
  Ready (picked r is, m) =
      Under m
      × ((t : Task)
          → get_elem? m.tasks r ≡ some t
          → HasRoom p ip cap m.desk.usage t.subtask_list is)

  act-Ready :
      (r : ℕ) (t : Task) (m : TaskMgr W) (next deferred : Choice × TaskMgr W) (decision : Decision)
      → get_elem? m.tasks r ≡ some t
      → Under m
      → Ready next
      → Ready deferred
      → RoomyDecision p ip cap m.desk.usage decision
      → Ready (act cluster r m next deferred decision)
  unfolding act
  act-Ready r t m next deferred pass e h n f room = n
  act-Ready r t m next deferred defer e h n f room = f
  act-Ready r t m next deferred block e h n f room = h
  act-Ready r t m next deferred crash e h n f room = h
  act-Ready r t m next deferred (start subs is) e h n f room = (
    h,
    λ t' e'.
        let same =
          some_inj
            (sym (get_elem?-modify r (λ x. record x { subtask_list = subs }) m.tasks t e) ∙ e') in
        subst (λ (x : Task). HasRoom p ip cap m.desk.usage x.subtask_list is) same room,
  )

  schedule_from-Ready :
      (rs : List ℕ) (gpus : List String) (m : TaskMgr W)
      → Under m
      → Ready (schedule_from cluster rs gpus m)
  unfolding schedule_from
  schedule_from-Ready [] gpus m h = h
  schedule_from-Ready (r ∷ rs) gpus m h = elim (Option-cases (get_elem? m.tasks r)) [
    | inl gone ↦ rw (gone, schedule_from) (schedule_from-Ready rs gpus m h)
    | inr (t, e) ↦
        rw (e, schedule_from)
          (if_either Ready
            (contains (λ x y. x == y) r m.lazy_delete_list || contains str_eq t.id m.lazy_stop_list)
            _ _ (λ _. schedule_from-Ready rs gpus m h)
            (λ _.
              if_either Ready (is_completed t) _ _
                (λ _.
                  if_either Ready (finish cluster r m).0 _ _
                    (λ _. schedule_from-Ready rs gpus (finish cluster r m).1 (finish-Under r m h))
                    (λ _. finish-Under r m h))
                (λ _.
                  act-Ready r t m _ _ _ e h (schedule_from-Ready rs gpus m h)
                    (schedule_from-Ready rs (t.gpu_preference ∷ gpus) m h)
                    (schedule_task_roomy p ip offer cap m.desk.usage (cluster.nodes m.desk.world)
                      (distinct m.desk.world) (offers m.desk.world) (fits m.desk.usage) h t gpus))))
  ]

  process-Under :
      (choice : Choice) (m : TaskMgr W) → Ready (choice, m) → Under (process cluster choice m).1
  unfolding process treat
  process-Under idle m h = h
  process-Under crashed m h = h
  process-Under (picked r is) m (h, room) = elim (Option-cases (get_elem? m.tasks r)) [
    | inl gone ↦ rw (gone, process, treat) h
    | inr (t, e) ↦
        rw (e, process, treat) (task_processor_room cluster p ip cap m.desk t is (room t e))
  ]

  run_once-Under : (m : TaskMgr W) → Under m → Under (run_once cluster m).1
  unfolding run_once task_scheduler
  run_once-Under m h =
      let (fine, sorted_out) = sort_out_task_queue cluster m in
      let h' = sort_out-Under m h in
      let (choice, m') = schedule_from cluster sorted_out.task_queue [] sorted_out in
      if_either (λ (x : Bool × TaskMgr W). Under x.1) fine _ _
        (λ _. process-Under choice m' (schedule_from-Ready sorted_out.task_queue [] sorted_out h'))
        (λ _. h')

  report_task-Under : (m : TaskMgr W) (msg : TaskMsg) → Under m → Under (report_task cluster m msg)
  unfolding report_task
  report_task-Under m msg h = elim (Option-cases (get_task msg.taskid m.tasks m.task_queue)) [
    | inl gone ↦ rw (gone, report_task) h
    | inr ((r, t), e) ↦
        rw (e, report_task)
          (treat-Under (λ d u. let (_, d', u') = on_task_report cluster d u msg in (d', u')) r m
            (λ d u. on_task_report_shrinks cluster p ip d u msg) h)
  ]

  add_task_usage :
      (m : TaskMgr W) (username taskid : String) (json : TaskJson) (priority : ℕ)
      → (add_task cluster m username taskid json priority).1.desk.usage ≡ m.desk.usage
  unfolding add_task refuse send
  add_task_usage m username taskid json priority =
      let size = max_size m.desk.nets in
      let (now, w) = cluster.time m.desk.world in
      if_either (λ (r : Added × TaskMgr W). r.1.desk.usage ≡ m.desk.usage)
        (ltb size json.vnode_count) _ _ (λ _. refl)
        (λ _. elim (Option-cases (make_task username taskid json priority size now)) [
          | inl no_vnodes ↦ rw no_vnodes refl
          | inr (t, e) ↦ elim (Option-cases (is_feasible t m.desk.usage (cluster.nodes w))) [
            | inl no_nodes ↦ rw (e, no_nodes) refl
            | inr (false, no_room) ↦ rw (e, no_room) refl
            | inr (true, room) ↦ rw (e, room) refl
          ]
        ])

  happen-Under : (e : Event W) (m : TaskMgr W) → Under m → Under (happen cluster e m)
  unfolding happen lazy_stop_task
  happen-Under round m h = run_once-Under m h
  happen-Under (report msg) m h = report_task-Under m msg h
  happen-Under (add username taskid json priority) m h =
      omega
        (arith, h, ap (λ u. p.used u (some ip)) (add_task_usage m username taskid json priority))
  happen-Under (stop taskid) m h = h
  happen-Under (elsewhere w) m h = h

  live-Under : (es : List (Event W)) (m : TaskMgr W) → Under m → Under (live cluster es m)
  unfolding live
  live-Under [] m h = h
  live-Under (e ∷ es) m h = live-Under es (happen cluster e m) (happen-Under e m h)

-- Workers with different names, of which `ip` never offers more than the given cores and gpus (a worker
-- that does not run offers none), and a task manager that starts with a batch network of cidr at most
-- 30. Whatever rounds, reports, new tasks and stops follow, the vnodes that it holds for started on that
-- worker never need more cores together than that, nor more gpus.
pub live_bounds :
    {W : Type 0} (cluster : Cluster W) (ip : String) (most_cores most_gpus : ℕ)
    → ((w : W) → IsDistinct (cluster.nodes w))
    → ((w : W) (info : NodeInfo)
        → find ip (cluster.nodes w) ≡ some info
        → (info.cpu ≤ most_cores) × (info.gpu ≤ most_gpus))
    → (world : W) (batch_net : Ip) (batch_cidr cidr : ℕ) (es : List (Event W)) → batch_cidr ≤ 30
    → let m = live cluster es (new world (TaskNets.new batch_net batch_cidr cidr)) in
      (total (task_cpu (some ip)) m.tasks ≤ most_cores)
      × (total (task_gpu (some ip)) m.tasks ≤ most_gpus)
unfolding new
live_bounds cluster ip most_cores most_gpus distinct offers world batch_net batch_cidr cidr es le =
    let start_up = new world (TaskNets.new batch_net batch_cidr cidr) in
    let counted = live-IsAccounted cluster world batch_net batch_cidr cidr es le in
    let c =
      live-Under cluster cores ip (λ n. n.cpu) most_cores distinct (λ w info e. (offers w info e).0)
        (λ u subs info workers f. f.cpu) es start_up (omega arith) in
    let g =
      live-Under cluster gpus ip (λ n. n.gpu) most_gpus distinct (λ w info e. (offers w info e).1)
        (λ u subs info workers f. f.gpu) es start_up (omega arith) in
    (omega (arith, c, counted.cpu (some ip)), omega (arith, g, counted.gpu (some ip)))
