-- ===== src/Batch/TaskExamples.antt =====
-- Tests of the task manager and its theorems at a cluster of one worker.
use docklet.Common.{
  ap, if◌then◌else◌, subst, some_inj, ℕ, suc, ◌≡◌, ◌≤◌, ◌≢◌, ◌+◌, ◌-◌, ◌*◌, ◌^◌, ◌%◌, refl, Bool,
  true, false, Option, none, some, List, [], ◌∷◌, ◌++◌, String, length, total, map, ◌==◌, ◌<◌,
  get_elem?, All, ◌⊎◌, arith,
}
use docklet.Net.Address.{Ip, ip_to_int, int_to_ip}
use docklet.Batch.Task.{
  TaskStatus, Task, SubTask, Instance, new_subtask, new_task, gen_ips_from_base, ips_from,
}
use docklet.Batch.TaskNets.{TaskNets, max_size}
use docklet.Batch.TaskNets
use docklet.Batch.TaskNets.Pool.{IsNet, times}
use docklet.Batch.TaskNets.Addresses.{ips_apart, gen_ips-broadcast}
use docklet.Batch.Placement.{
  NodeInfo, Usage, find_proper_workers, is_proper, choose_all, choose, take, has_waiting,
  keeps_worker,
}
use docklet.Batch.Job.Table.{find}
use docklet.Batch.Placement.FirstFit.{IsImproper, find_proper_workers_one}
use docklet.Batch.Placement.Capacity.{Fits, find_proper_workers-Fits}
use docklet.Batch.Desk.{Cluster, Desk, Rpc, Report, ReportStatus, start_vnode_rpc}
use docklet.Batch.Intake.{TaskJson}
use docklet.Batch.TaskMgr
use docklet.Batch.TaskMgr.{TaskMgr, sort_out_task_queue}
use docklet.Batch.TaskMgr.Stuck.{sort_out_task_queue-stuck}
use docklet.Batch.TaskMgr.Accounts.{IsAccounted, task_cpu, task_gpu}
use docklet.Batch.TaskMgr.Bounds.{live_bounds}
use docklet.Batch.TaskMgr.Run.{stop, elsewhere, Event, round, report, add, live, live-IsAccounted}

abbrev small : NodeInfo
small = record { cpu = 2; memory = 4096; disk = 10240; gpu = 0; gpu_name = "" }

abbrev large : NodeInfo
large = record { cpu = 8; memory = 16384; disk = 10240; gpu = 0; gpu_name = "" }

abbrev two_nodes : List (String × NodeInfo)
two_nodes = ("10.0.0.2", small) ∷ ("10.0.0.3", large) ∷ []

abbrev answer : Rpc → Option String
answer (start_vnode_rpc id i none) = some "no such host"
answer r = none

-- The world is a clock; every worker accepts what it is asked, and the monitor knows each. A vnode costs
-- a bean for each core and second.
abbrev willing : Cluster ℕ
willing = record {
  rpc = λ r now. (answer r, now);
  time = λ now. (now, suc now);
  token = λ now. ("t", now);
  nodes = λ now. two_nodes;
  beans = λ needs seconds. needs.cpu * seconds;
  monitored = λ name now. true;
  no_worker = λ id i now. ("no such host", refl);
}

abbrev needs : Instance
needs = record { cpu = 3; memory = 1024; disk = 1024; gpu = 0 }

abbrev json : TaskJson
json = record {
  vnode_count = 2;
  instance = needs;
  retry_count = 1;
  gpu_preference = "null";
  at_same_time = true;
  run_on_all = false;
}

abbrev base : Ip
base = record { a = 10; b = 16; c = 0; d = 0 }

abbrev started : List (Event ℕ)
started = add "ann" "j_1" json 1 ∷ round ∷ []

abbrev finished : List (Event ℕ)
finished =
    started
    ++ report (record {
      taskid = "j_1";
      vnodeid = 0;
      sub_task_status = TaskStatus.completed;
      token = "t";
      errmsg = "";
    })
      ∷ round
      ∷ []

live-IsAccounted_example :
    let m = live willing finished (TaskMgr.new 5 (TaskNets.new base 16 4)) in
    IsAccounted m.desk m.tasks
live-IsAccounted_example = live-IsAccounted willing 5 base 16 4 finished (omega arith)

abbrev vnode : SubTask
vnode = new_subtask needs true 1 "null"

abbrev unused : Usage
unused = record { cpu_usage = λ worker. 0; gpu_usage = λ worker. 0 }

two_vnodes :
    find_proper_workers (vnode ∷ vnode ∷ []) false unused two_nodes
    ≡ some ("10.0.0.3" ∷ "10.0.0.3" ∷ [])
unfolding find_proper_workers choose_all choose is_proper take has_waiting keeps_worker new_subtask
two_vnodes = refl

find_proper_workers-Fits_example :
    Fits false unused "10.0.0.3" large (vnode ∷ vnode ∷ []) ("10.0.0.3" ∷ "10.0.0.3" ∷ [])
unfolding find
find_proper_workers-Fits_example =
    find_proper_workers-Fits (vnode ∷ vnode ∷ []) false unused two_nodes
      ("10.0.0.3" ∷ "10.0.0.3" ∷ []) "10.0.0.3" large ((refl, tt), (tt, tt)) two_vnodes refl

find_proper_workers_one_example :
    ((find_proper_workers (vnode ∷ []) false unused two_nodes ≡ some [])
      × All (IsImproper vnode false unused) two_nodes)
    ⊎ ((worker : String) × (info : NodeInfo) × (before behind : List (String × NodeInfo))
        × (find_proper_workers (vnode ∷ []) false unused two_nodes ≡ some (worker ∷ []))
        × (two_nodes ≡ before ++ (worker, info) ∷ behind)
        × (is_proper vnode false unused worker info ≡ true)
        × All (IsImproper vnode false unused) before)
unfolding new_subtask
find_proper_workers_one_example =
    find_proper_workers_one vnode false unused ("10.0.0.2", small) (("10.0.0.3", large) ∷ []) refl
      refl

abbrev nets : TaskNets
nets = record { batch_cidr = 16; task_cidr = 4; base_ip = 168820736; free_nets = [] }

abbrev with_net : ℕ → Task
with_net x = record (new_task "j_1" "ann" true 1 14 "null" (vnode ∷ []) 5) { task_base_ip = some x }

is_net : (x : ℕ) → x % 16 ≡ 0 → x ≤ 65520 → IsNet nets x
is_net x m le = record { aligned = m; fits = omega (arith, le) }

ips_apart_example : get_elem? (ips_from 14 168820754) 0 ≢ some (int_to_ip 168820738)
unfolding max_size new_task gen_ips_from_base ips_from get_elem?
ips_apart_example =
    ips_apart nets (with_net 0) (with_net 16) 0 16 (omega arith) (is_net 0 refl (omega arith))
      (is_net 16 refl (omega arith)) (λ e. omega (arith, e)) refl refl refl refl
      (ips_from 14 168820738) (ips_from 14 168820754) 0 0 (int_to_ip 168820738) refl refl refl

gen_ips-broadcast_example :
    (l : List Ip) × (ip : Ip) × ((gen_ips_from_base (with_net 0) 168820736).ips ≡ some l)
    × (get_elem? l (max_size nets - 1) ≡ some ip)
    × (ip_to_int ip ≡ 168820736 + 0 + (2 ^ 4 - 1))
    × (ip_to_int ip % 2 ^ 4 ≡ 2 ^ 4 - 1)
unfolding max_size new_task
gen_ips-broadcast_example =
    gen_ips-broadcast nets (with_net 0) 0 (omega arith) (is_net 0 refl (omega arith)) refl refl
      (omega arith) refl

large_offers :
    (info : NodeInfo) → find "10.0.0.3" two_nodes ≡ some info → (info.cpu ≤ 8) × (info.gpu ≤ 0)
unfolding find
large_offers info e =
    subst (λ (n : NodeInfo). (n.cpu ≤ 8) × (n.gpu ≤ 0)) (some_inj e) (omega arith, omega arith)

live_bounds_example :
    let m = live willing finished (TaskMgr.new 5 (TaskNets.new base 26 4)) in
    (total (task_cpu (some "10.0.0.3")) m.tasks ≤ 8)
    × (total (task_gpu (some "10.0.0.3")) m.tasks ≤ 0)
live_bounds_example =
    live_bounds willing "10.0.0.3" 8 0 (λ now. ((refl, tt), (tt, tt))) (λ now. large_offers) 5 base
      26 4 finished (omega arith)

-- One task runs, another one has been added, and a third one was added; the first and the third are to be
-- stopped.
abbrev busy : TaskMgr ℕ
busy =
    live willing
      (started ++ add "bob" "k_1" json 2 ∷ add "bob" "k_2" json 1 ∷ stop "k_2" ∷ stop "j_1" ∷ [])
      (TaskMgr.new 5 (TaskNets.new base 26 4))

sorted_out_queue : (sort_out_task_queue willing busy).1.task_queue ≡ 1 ∷ []
unfolding live max_size TaskMgr.new TaskNets.new get_elem? docklet.Common.modify
    TaskNets.acquire_task_ips gen_ips_from_base docklet.Batch.Desk.add_usage
    docklet.Batch.Desk.sub_usage sort_out_task_queue docklet.Batch.Task.get_billing
sorted_out_queue = refl

-- The large node stops running after the time 5.
abbrev shrinking : Cluster ℕ
shrinking = record willing {
  nodes = λ now. if now == 5 then two_nodes else ("10.0.0.2", small) ∷ [];
}

-- The task has been put into the queue, but no node has room for it, and it is to be stopped.
abbrev stranded : TaskMgr ℕ
stranded =
    live shrinking (add "ann" "j_1" json 1 ∷ elsewhere 9 ∷ round ∷ stop "j_1" ∷ [])
      (TaskMgr.new 4 (TaskNets.new base 26 4))

abbrev first : Task
first =
    record (new_task "j_1" "ann" true 1 14 "null" (vnode ∷ new_subtask needs false 1 "null" ∷ [])
      4) { order = some 0 }

stranded_first : get_elem? stranded.tasks 0 ≡ some first
unfolding live max_size TaskMgr.new TaskNets.new get_elem? docklet.Common.modify new_task
    new_subtask docklet.Batch.Scheduler.schedule_task find_proper_workers choose_all choose
    is_proper take has_waiting keeps_worker
stranded_first = refl

stranded_queue : stranded.task_queue ≡ 0 ∷ []
unfolding live max_size TaskMgr.new TaskNets.new get_elem? docklet.Common.modify new_task
    new_subtask docklet.Batch.Scheduler.schedule_task find_proper_workers choose_all choose
    is_proper take has_waiting keeps_worker
stranded_queue = refl

sort_out_task_queue-stuck_example :
    let (fine, m') = sort_out_task_queue shrinking stranded in
    (fine ≡ false)
    × (m'.task_queue ≡ stranded.task_queue)
    × (m'.lazy_append_list ≡ stranded.lazy_append_list)
    × (m'.lazy_stop_list ≡ stranded.lazy_stop_list)
unfolding times live new_task new_subtask get_elem? max_size TaskMgr.new TaskNets.new
    docklet.Common.modify
sort_out_task_queue-stuck_example =
    sort_out_task_queue-stuck shrinking stranded 0 first 0 vnode
      (omega (arith, ap (times 0) stranded_queue)) stranded_first refl refl refl

-- The task of two vnodes is started on the large node, and has left it when its command is done.
started_usage :
    (live willing started (TaskMgr.new 5 (TaskNets.new base 26 4))).desk.usage.cpu_usage
      (some "10.0.0.3")
    ≡ 6
unfolding live max_size TaskMgr.new TaskNets.new get_elem? docklet.Common.modify
    TaskNets.acquire_task_ips gen_ips_from_base docklet.Batch.Desk.add_usage
started_usage = refl

finished_usage :
    (live willing finished (TaskMgr.new 5 (TaskNets.new base 26 4))).desk.usage.cpu_usage
      (some "10.0.0.3")
    ≡ 0
unfolding live max_size TaskMgr.new TaskNets.new get_elem? docklet.Common.modify
    TaskNets.acquire_task_ips gen_ips_from_base docklet.Batch.Desk.add_usage
    docklet.Batch.Desk.sub_usage docklet.Batch.Task.get_billing
finished_usage = refl

finished_reports :
    map
      (λ (r : Report). r.status)
      (live willing finished (TaskMgr.new 5 (TaskNets.new base 26 4))).desk.sent
    ≡ ReportStatus.running ∷ ReportStatus.finished ∷ []
unfolding live max_size TaskMgr.new TaskNets.new get_elem? docklet.Common.modify
    TaskNets.acquire_task_ips gen_ips_from_base docklet.Batch.Desk.add_usage
    docklet.Batch.Desk.sub_usage docklet.Batch.Task.get_billing
finished_reports = refl
