-- ===== src/Batch/TaskNets.antt =====
-- The networks of tasks in class TaskMgr of src/master/taskmgr.py: the batch network is cut into nets
-- of 2^task_cidr addresses, each known by its offset in the batch network.
pub mod Pool
pub mod Addresses
use docklet.Common.{
  ℕ, zero, suc, ◌+◌, ◌-◌, ◌*◌, ◌/◌, ◌^◌, min, Bool, Option, none, some, List, [], ◌∷◌, ◌++◌, leb,
  if◌then◌else◌,
}
use docklet.Net.Address.{Ip, ip_to_int, int_to_ip}

abbrev pub max : ℕ → ℕ → ℕ
max a b = if leb a b then b else a

pub record TaskNets : Type 0 where
  pub batch_cidr : ℕ
  pub task_cidr : ℕ
  pub base_ip : ℕ
  pub free_nets : List ℕ

-- n numbers from `start` on, `step` apart
unfoldable pub range : ℕ → ℕ → ℕ → List ℕ
range zero start step = []
range (suc n) start step = start ∷ range n (start + step) step

-- The part of TaskMgr(...) that reads BATCH_NET and BATCH_TASK_CIDR. `range(0, stop, step)` has
-- (stop + step - 1) / step numbers. A batch_cidr of 32 or more, where Python takes 2 for any
-- task_cidr, gives the same here.
unfoldable pub new : Ip → ℕ → ℕ → TaskNets
unfolding range
new batch_net batch_cidr cidr =
    let task_cidr = max (min cidr (31 - batch_cidr)) 2 in
    let stop = 2 ^ (32 - batch_cidr) - 1 in
    let step = 2 ^ task_cidr in
    record {
      batch_cidr = batch_cidr;
      task_cidr = task_cidr;
      base_ip = ip_to_int batch_net;
      free_nets = range ((stop + (step - 1)) / step) 0 step;
    }

-- acquire_task_ips(task), for the task's `task_base_ip`; `none` is the IndexError of an empty list
unfoldable pub acquire_task_ips : TaskNets → Option ℕ → Option (ℕ × TaskNets)
acquire_task_ips n (some net) = some (net, n)
acquire_task_ips n none = elim n.free_nets [
  | [] ↦ none
  | net ∷ rest ↦ some (net, record n { free_nets = rest })
]

-- release_task_ips(task), for the task's `task_base_ip`, which is None afterwards
unfoldable pub release_task_ips : TaskNets → Option ℕ → TaskNets
release_task_ips n none = n
release_task_ips n (some net) = record n { free_nets = n.free_nets ++ net ∷ [] }

-- `(1 << self.task_cidr) - 2`, the most vnodes that a task can have
unfoldable pub max_size : TaskNets → ℕ
max_size n = 2 ^ n.task_cidr - 2

-- The gateway of a net, in setup_tasknet.
unfoldable pub gateway_ip : TaskNets → ℕ → Ip
gateway_ip n net = int_to_ip (n.base_ip + net + 1)
