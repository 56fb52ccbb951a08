-- ===== src/Batch/Task.antt =====
-- Classes Task and SubTask of src/master/taskmgr.py, the tasks of a job as the task manager runs them.
-- Times are whole seconds.
use docklet.Common.{
  ℕ, zero, suc, ◌+◌, ◌*◌, Bool, true, false, Option, none, some, List, [], ◌∷◌, if◌then◌else◌,
  String, leb, modify,
}
use docklet.Net.Address.{Ip, int_to_ip}

-- enum Status of src/protos/rpc.proto
pub data TaskStatus : Type 0 where
  waiting running completed failed timeout output_error : TaskStatus

abbrev pub is_waiting : TaskStatus → Bool
is_waiting TaskStatus.waiting = true
is_waiting s = false

abbrev pub is_running : TaskStatus → Bool
is_running TaskStatus.running = true
is_running s = false

abbrev pub is_failed : TaskStatus → Bool
is_failed TaskStatus.failed = true
is_failed s = false

-- `vnode_info.vnode.instance`: what a vnode needs
pub record Instance : Type 0 where
  pub cpu : ℕ
  pub memory : ℕ
  pub disk : ℕ
  pub gpu : ℕ

-- `command_info` is its token, `none` where the vnode has no command; `worker` is an address.
pub record SubTask : Type 0 where
  pub instance_needs : Instance
  pub command_info : Option String
  pub max_retry_count : ℕ
  pub gpu_preference : String
  pub vnode_started : Bool
  pub task_started : Bool
  pub start_at : ℕ
  pub end_at : ℕ
  pub running_time : ℕ
  pub status : TaskStatus
  pub status_reason : String
  pub try_count : ℕ
  pub worker : Option String

-- The priority is the hours at `created_at` less `priority`; `order` is `none` for -1.
pub record Task : Type 0 where
  pub id : String
  pub username : String
  pub status : TaskStatus
  pub failed_reason : String
  pub at_same_time : Bool
  pub created_at : ℕ
  pub priority : ℕ
  pub task_base_ip : Option ℕ
  pub ips : Option (List Ip)
  pub max_size : ℕ
  pub gpu_preference : String
  pub order : Option ℕ
  pub subtask_list : List SubTask

-- SubTask(...), where `command_info` has no token yet
unfoldable pub new_subtask : Instance → Bool → ℕ → String → SubTask
new_subtask needs has_command max_retry_count gpu_preference = record {
  instance_needs = needs;
  command_info = if has_command then some "" else none;
  max_retry_count = max_retry_count;
  gpu_preference = gpu_preference;
  vnode_started = false;
  task_started = false;
  start_at = 0;
  end_at = 0;
  running_time = 0;
  status = TaskStatus.waiting;
  status_reason = "";
  try_count = 0;
  worker = none;
}

-- Task(...), at the time `now`
unfoldable pub new_task : String → String → Bool → ℕ → ℕ → String → List SubTask → ℕ → Task
new_task id username at_same_time priority max_size gpu_preference subtasks now = record {
  id = id;
  username = username;
  status = TaskStatus.waiting;
  failed_reason = "";
  at_same_time = at_same_time;
  created_at = now;
  priority = priority;
  task_base_ip = none;
  ips = none;
  max_size = max_size;
  gpu_preference = gpu_preference;
  order = none;
  subtask_list = subtasks;
}

-- `self.priority`: the hours at `created_at` less the `priority` asked for, kept as the two numbers
abbrev pub priority_of : Task → ℕ × ℕ
priority_of t = (t.created_at, t.priority)

-- Whether the first priority is at most the second, compared as whole seconds.
abbrev pub no_later : ℕ × ℕ → ℕ × ℕ → Bool
no_later (at, priority) (at', priority') = leb (at + 3600 * priority') (at' + 3600 * priority)

-- waiting_for_retry(reason), as far as it changes the subtask
unfoldable pub waiting_for_retry : SubTask → SubTask
waiting_for_retry s = record s {
  try_count = s.try_count + 1;
  status =
      if leb (s.try_count + 1) s.max_retry_count then TaskStatus.waiting else TaskStatus.failed;
}

-- waiting_for_retry(reason) for the subtask s, which has the index i in the task t
unfoldable pub retry : Task → ℕ → SubTask → String → Task
unfolding waiting_for_retry
retry t i s reason =
    let s' = waiting_for_retry s in
    let t' = record t { subtask_list = modify i waiting_for_retry t.subtask_list } in
    if is_failed s'.status
    then record t' { status = TaskStatus.failed; failed_reason = reason }
    else t'

-- The loop of get_billing. `beans` is math.ceil of the price, a sum of floats, for what a vnode needs and
-- its running time; for a worker that is not `monitored`, None too, the reading of its gpu price, which
-- is not used, raises KeyError.
unfoldable pub bill : (Instance → ℕ → ℕ) → (String → Bool) → List SubTask → ℕ → ℕ → Option (ℕ × ℕ)
bill beans monitored [] running_time billing_beans = some (running_time, billing_beans)
bill beans monitored (s ∷ l) running_time billing_beans =
    let rest =
      bill beans monitored l (running_time + s.running_time)
        (billing_beans + beans s.instance_needs s.running_time) in
    elim s.worker [ none ↦ none | some worker ↦ if monitored worker then rest else none ]

-- get_billing(): the running time and the beans; `none` is the KeyError
unfoldable pub get_billing : (Instance → ℕ → ℕ) → (String → Bool) → Task → Option (ℕ × ℕ)
unfolding bill
get_billing beans monitored t = bill beans monitored t.subtask_list 0 0

-- int_to_ip(n), int_to_ip(n + 1), …, as many as there are rounds left
unfoldable pub ips_from : ℕ → ℕ → List Ip
ips_from zero n = []
ips_from (suc k) n = int_to_ip n ∷ ips_from k (suc n)

-- gen_ips_from_base(base_ip)
unfoldable pub gen_ips_from_base : Task → ℕ → Task
unfolding ips_from
gen_ips_from_base t base_ip = elim t.task_base_ip [
  | none ↦ t
  | some net ↦ record t { ips = some (ips_from t.max_size (base_ip + net + 2)) }
]
