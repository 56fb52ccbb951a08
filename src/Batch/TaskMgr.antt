-- ===== src/Batch/TaskMgr.antt =====
-- Class TaskMgr of src/master/taskmgr.py: the queue of tasks, its scheduler and the requests that
-- change it. A task is an object that several lists share, so the lists hold references to it.
pub mod Accounts
pub mod Rounds
pub mod Run
pub mod Bounds
pub mod Queue
pub mod Seen
pub mod Billable
pub mod SortOut
pub mod Stuck
use docklet.Common.{
  ℕ, zero, suc, ◌+◌, ◌≡◌, Bool, true, false, not, ◌&&◌, ◌||◌, Option, none, some, List, [], ◌∷◌,
  ◌++◌, ltb, ◌==◌, if◌then◌else◌, String, str_eq, get_elem?, modify, contains, length,
}
use docklet.Batch.Task.{Task, priority_of, no_later}
use docklet.Batch.TaskNets.{TaskNets, max_size}
use docklet.Batch.Placement.{NodeInfo, Usage}
use docklet.Batch.Desk.{
  Cluster, Desk, Report, billing_of, failed, stopped, send, report_of, stop_remove_task,
  is_completed, complete, task_processor,
}
use docklet.Batch.TaskReport.{TaskMsg, on_task_report}
use docklet.Batch.Scheduler.{Decision, pass, defer, block, crash, start, schedule_task}
use docklet.Batch.Intake.{TaskJson, make_task, is_feasible}

-- `tasks` are the task objects; the queue and the lazy lists hold their indices.
pub record TaskMgr (W : Type 0) : Type 0 where
  pub desk : Desk W
  pub tasks : List Task
  pub task_queue : List ℕ
  pub lazy_append_list : List ℕ
  pub lazy_delete_list : List ℕ
  pub lazy_stop_list : List String
  pub gpu_pending_tasks : List (String × ℕ)

-- TaskMgr(...), in a world and with the nets cut
unfoldable pub new : {W : Type 0} → W → TaskNets → TaskMgr W
new world nets = record {
  desk = record {
    world = world;
    usage = record { cpu_usage = λ worker. 0; gpu_usage = λ worker. 0 };
    nets = nets;
    sent = [];
  };
  tasks = [];
  task_queue = [];
  lazy_append_list = [];
  lazy_delete_list = [];
  lazy_stop_list = [];
  gpu_pending_tasks = [];
}

-- What a method does to the task r; a reference that is not one of a task changes nothing.
unfoldable pub treat : {W : Type 0} → (Desk W → Task → Desk W × Task) → ℕ → TaskMgr W → TaskMgr W
treat f r m = elim (get_elem? m.tasks r) [
  | none ↦ m
  | some t ↦ let (d, t') = f m.desk t in record m { desk = d; tasks = modify r (λ _. t') m.tasks }
]

-- `task_queue.remove(task)`, where a task that is not in the queue changes nothing
unfoldable pub remove_first : ℕ → List ℕ → List ℕ
remove_first r [] = []
remove_first r (x ∷ l) = if x == r then l else x ∷ remove_first r l

unfoldable pub remove_all : List ℕ → List ℕ → List ℕ
unfolding remove_first
remove_all [] l = l
remove_all (r ∷ rs) l = remove_all rs (remove_first r l)

-- `x.priority` of the task r
unfoldable pub rank : List Task → ℕ → Option (ℕ × ℕ)
rank tasks r = elim (get_elem? tasks r) [ none ↦ none | some t ↦ some (priority_of t) ]

abbrev pub not_after : Option (ℕ × ℕ) → Option (ℕ × ℕ) → Bool
not_after none q = true
not_after (some p) none = false
not_after (some p) (some q) = no_later p q

-- Whether r comes no later than s by the priorities of their tasks.
abbrev pub sooner : List Task → ℕ → ℕ → Bool
sooner tasks r s = not_after (rank tasks r) (rank tasks s)

-- `sorted(task_queue, key=lambda x: x.priority)`, which keeps the order of equals
unfoldable pub insert_by : List Task → ℕ → List ℕ → List ℕ
unfolding rank
insert_by tasks r [] = r ∷ []
insert_by tasks r (x ∷ l) = if sooner tasks r x then r ∷ x ∷ l else x ∷ insert_by tasks r l

unfoldable pub sorted : List Task → List ℕ → List ℕ
unfolding insert_by
sorted tasks [] = []
sorted tasks (r ∷ l) = insert_by tasks r (sorted tasks l)

-- The queue with the new tasks; it is sorted again only where there are some.
unfoldable pub extend : List Task → List ℕ → List ℕ → List ℕ
unfolding sorted
extend tasks task_queue [] = task_queue
extend tasks task_queue (r ∷ rs) = sorted tasks (task_queue ++ r ∷ rs)

-- gpu_pending_tasks[name], 0 where it is missing, and its increment
unfoldable pub pending : String → List (String × ℕ) → ℕ
pending name [] = 0
pending name ((x, n) ∷ l) = if str_eq x name then n else pending name l

unfoldable pub count_pending : String → List (String × ℕ) → List (String × ℕ)
count_pending name [] = (name, 1) ∷ []
count_pending name ((x, n) ∷ l) =
    if str_eq x name then (x, n + 1) ∷ l else (x, n) ∷ count_pending name l

-- The loop that numbers the queue: the tasks, and gpu_pending_tasks with the count for 'null' last.
unfoldable pub number : List ℕ → ℕ → List (String × ℕ) → List Task → List Task × List (String × ℕ)
unfolding pending count_pending
number [] no_pref gpus tasks = (tasks, gpus ++ ("null", no_pref) ∷ [])
number (r ∷ rs) no_pref gpus tasks = elim (get_elem? tasks r) [
  | none ↦ number rs no_pref gpus tasks
  | some t ↦
      let free =
        number rs (suc no_pref) gpus (modify r (λ x. record x { order = some no_pref }) tasks) in
      let bound = number rs no_pref (count_pending t.gpu_preference gpus) (
        modify r (λ x. record x { order = some (no_pref + pending t.gpu_preference gpus) })
          tasks) in
      if str_eq t.gpu_preference "null" then free else bound
]

-- get_task(taskid), as a reference
unfoldable pub get_task : String → List Task → List ℕ → Option (ℕ × Task)
get_task taskid tasks [] = none
get_task taskid tasks (r ∷ rs) =
    let rest = get_task taskid tasks rs in
    elim (get_elem? tasks r) [
      | none ↦ rest
      | some t ↦ if str_eq t.id taskid then some (r, t) else rest
    ]

-- get_task_order(taskid), `none` for -1
unfoldable pub get_task_order : {W : Type 0} → TaskMgr W → String → Option ℕ
unfolding get_task
get_task_order m taskid = elim (get_task taskid m.tasks m.task_queue) [
  | none ↦ none
  | some (r, t) ↦ t.order
]

-- lazy_stop_task(taskid)
unfoldable pub lazy_stop_task : {W : Type 0} → TaskMgr W → String → TaskMgr W
lazy_stop_task m taskid = record m { lazy_stop_list = m.lazy_stop_list ++ taskid ∷ [] }

-- What task_scheduler returns: nothing to start, a task with indices of its subtasks, or an exception.
pub data Choice : Type 0 where
  idle crashed : Choice
  picked : ℕ → List ℕ → Choice

-- What add_task returns, or that it raises an exception.
pub data Added : Type 0 where
  added refused raised : Added

module _ {W : Type 0} (cluster : Cluster W) where
  -- The first loop of sort_out_task_queue, for a task that is to be stopped; false is the KeyError of
  -- get_billing, here and below
  unfoldable pub stop_task : Desk W → Task → Bool × Desk W × Task
  unfolding stop_remove_task send
  stop_task d t =
      let (d', t') = stop_remove_task cluster d t in
      elim (billing_of cluster d' t') [
        | none ↦ (false, d', t')
        | some (running_time, billing) ↦
            (true, send cluster d' (report_of t' stopped "" 1 running_time billing), t')
      ]

  unfoldable pub stop_one : ℕ → TaskMgr W → Bool × TaskMgr W
  unfolding treat stop_task
  stop_one r m = elim (get_elem? m.tasks r) [
    | none ↦ (true, m)
    | some t ↦
        let (fine, _, _) = stop_task m.desk t in
        let m' = treat (λ d u. let (_, d', u') = stop_task d u in (d', u')) r m in
        if contains str_eq t.id m.lazy_stop_list
        then (fine, record m' { lazy_delete_list = m'.lazy_delete_list ++ r ∷ [] })
        else (true, m)
  ]

  unfoldable pub stop_all : List ℕ → TaskMgr W → Bool × TaskMgr W
  unfolding stop_one
  stop_all [] m = (true, m)
  stop_all (r ∷ rs) m =
      let (fine, m') = stop_one r m in
      let rest = stop_all rs m' in if fine then rest else (false, m')

  -- The loop over lazy_append_list: the tasks that are not to be stopped
  unfoldable pub keep_appended : List ℕ → TaskMgr W → List ℕ × TaskMgr W
  unfolding send
  keep_appended [] m = ([], m)
  keep_appended (r ∷ rs) m = elim (get_elem? m.tasks r) [
    | none ↦ keep_appended rs m
    | some t ↦
        let stops = contains str_eq t.id m.lazy_stop_list in
        let m' =
          if stops
          then record m { desk = send cluster m.desk (report_of t stopped "" 1 0 0) }
          else m in
        let (kept, m'') = keep_appended rs m' in (if stops then kept else r ∷ kept, m'')
  ]

  -- The end of sort_out_task_queue, from `self.lazy_append_list = new_append_list` on
  unfoldable pub enqueue : List ℕ → TaskMgr W → TaskMgr W
  unfolding extend number
  enqueue new_append_list m =
      let queue = extend m.tasks m.task_queue new_append_list in
      let (tasks, gpus) = number queue 0 [] m.tasks in
      record m {
        tasks = tasks;
        task_queue = queue;
        lazy_append_list = [];
        lazy_stop_list = [];
        gpu_pending_tasks = gpus;
      }

  -- What sort_out_task_queue does after its first loop
  unfoldable pub drain : TaskMgr W → TaskMgr W
  unfolding remove_all keep_appended enqueue
  drain m =
      let m' = record m {
        task_queue = remove_all m.lazy_delete_list m.task_queue;
        lazy_delete_list = [];
      } in
      let (new_append_list, m'') = keep_appended m'.lazy_append_list m' in
      enqueue new_append_list m''

  -- sort_out_task_queue()
  unfoldable pub sort_out_task_queue : TaskMgr W → Bool × TaskMgr W
  unfolding stop_all drain
  sort_out_task_queue m =
      let (fine, m') = stop_all m.task_queue m in if fine then (true, drain m') else (false, m')

  -- check_task_completed(task), where it is completed
  unfoldable pub finish : ℕ → TaskMgr W → Bool × TaskMgr W
  unfolding treat complete
  finish r m =
      let m' = treat (λ d t. let (_, d', t') = complete cluster d t in (d', t')) r m in
      (
        elim (get_elem? m.tasks r) [ none ↦ true | some t ↦ (complete cluster m.desk t).0 ],
        record m' { lazy_delete_list = m'.lazy_delete_list ++ r ∷ [] },
      )

  -- What follows the decision on the task r; `next` and `deferred` are the rest of the loop.
  unfoldable pub act :
      ℕ → TaskMgr W → Choice × TaskMgr W → Choice × TaskMgr W → Decision → Choice × TaskMgr W
  act r m next deferred pass = next
  act r m next deferred defer = deferred
  act r m next deferred block = (idle, m)
  act r m next deferred crash = (crashed, m)
  act r m next deferred (start subtasks is) = (
    picked r is,
    record m { tasks = modify r (λ x. record x { subtask_list = subtasks }) m.tasks },
  )

  -- The loop of task_scheduler, over what is left of the queue
  unfoldable pub schedule_from : List ℕ → List String → TaskMgr W → Choice × TaskMgr W
  unfolding finish is_completed schedule_task contains act
  schedule_from [] gpus m = (idle, m)
  schedule_from (r ∷ rs) gpus m = elim (get_elem? m.tasks r) [
    | none ↦ schedule_from rs gpus m
    | some t ↦
        let (fine, m') = finish r m in
        let rest = schedule_from rs gpus m' in
        let completed : Choice × TaskMgr W = if fine then rest else (crashed, m') in
        let next = schedule_from rs gpus m in
        let deferred = schedule_from rs (t.gpu_preference ∷ gpus) m in
        if contains (λ x y. x == y) r m.lazy_delete_list || contains str_eq t.id m.lazy_stop_list
        then next
        else if is_completed t
        then completed
        else act r m next deferred (schedule_task t m.desk.usage (cluster.nodes m.desk.world) gpus)
  ]

  -- task_scheduler()
  unfoldable pub task_scheduler : TaskMgr W → Choice × TaskMgr W
  unfolding schedule_from
  task_scheduler m = schedule_from m.task_queue [] m

  -- What run() does with the choice; false where an exception ends the thread.
  unfoldable pub process : Choice → TaskMgr W → Bool × TaskMgr W
  unfolding treat task_processor
  process idle m = (true, m)
  process crashed m = (false, m)
  process (picked r is) m = (
    elim (get_elem? m.tasks r) [ none ↦ true | some t ↦ (task_processor cluster m.desk t is).0 ],
    treat (λ d t. let (_, d', t') = task_processor cluster d t is in (d', t')) r m,
  )

  -- One round of the loop in run()
  unfoldable pub run_once : TaskMgr W → Bool × TaskMgr W
  unfolding sort_out_task_queue task_scheduler process
  run_once m =
      let (fine, sorted_out) = sort_out_task_queue m in
      let (choice, m') = task_scheduler sorted_out in
      if fine then process choice m' else (false, sorted_out)

  -- on_task_report(report); nothing happens where the task is not in the queue
  unfoldable pub report_task : TaskMgr W → TaskMsg → TaskMgr W
  unfolding get_task treat on_task_report
  report_task m msg = elim (get_task msg.taskid m.tasks m.task_queue) [
    | none ↦ m
    | some (r, t) ↦ treat (λ d t. let (_, d', t') = on_task_report cluster d t msg in (d', t')) r m
  ]

  -- A report "failed" of add_task to the job manager
  unfoldable pub refuse : TaskMgr W → String → String → String → TaskMgr W
  unfolding send
  refuse m username taskid reason = record m {
    desk = send cluster m.desk (record {
      user = username;
      task_name = taskid;
      status = failed;
      reason = reason;
      tried_times = 1;
      running_time = 0;
      billing = 0;
    });
  }

  -- add_task(username, taskid, json_task, task_priority)
  unfoldable pub add_task : TaskMgr W → String → String → TaskJson → ℕ → Added × TaskMgr W
  unfolding make_task is_feasible refuse
  add_task m username taskid json priority =
      let size = max_size m.desk.nets in
      let (now, w) = cluster.time m.desk.world in
      let m' = record m { desk = record m.desk { world = w } } in
      if ltb size json.vnode_count
      then (refused, refuse m username taskid "vnodeCount exceed limits.")
      else elim (make_task username taskid json priority size now) [
        | none ↦ (raised, m')
        | some t ↦ elim (is_feasible t m.desk.usage (cluster.nodes w)) [
          | none ↦ (raised, m')
          | some false ↦ (refused, refuse m' username taskid "Resources needs exceed limits")
          | some true ↦ (
            added,
            record m' {
              tasks = m.tasks ++ t ∷ [];
              lazy_append_list = m.lazy_append_list ++ length m.tasks ∷ [];
            },
          )
        ]
      ]
