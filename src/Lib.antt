-- ===== src/Lib.antt =====
-- A model of parts of docklet, a system that gives its users virtual clusters of containers and
-- runs batch jobs on them.
--
-- The network pools (Net) model src/master/network.py. Net.Address has its address functions: an
-- address is four numbers, the parts of its dotted text. Net.IntervalPool is class IntervalPool,
-- the free blocks of a network by cidr, with `allocate`, `overlap`, `inrange` and `free`; its
-- dictionary is a function from the cidr to the list under that key. Net.EnumPool is class
-- EnumPool, the single addresses of a network, and Net.UserPool is class UserPool, which takes a
-- gateway out of them and has its own range test. A method takes the pool and returns its result
-- beside the pool after the call. Net.NetworkMgr is class NetworkMgr, which gives each user a
-- block of the center pool and keeps the users' pools in etcd; Net.Store is the interface that it
-- uses: a key that was set is read back, a deleted one is missing, and others are untouched.
-- Net.Etcdlib fills it with the key functions of src/utils/etcdlib.py over the etcd service, whose
-- answers to requests are a parameter of the model. A request is one step of the manager.
-- Net.Result has the results: a value, a refusal (Python's `[False, message]`), an exception.
--
-- The batch jobs (Batch) model class BatchJob of src/master/jobmgr.py. Batch.Status has the status
-- words and the rows Batchtask and Batchjob of src/utils/model.py, and Batch.Job the job's state
-- and methods. Each method runs under the job's lock and is one step; the clock is an argument.
-- The methods' names are those of the source, with `update_job_status` for `_update_job_status`.
-- Batch.Job.History has sequences of calls.
--
-- The tasks that the jobs are made of (Batch again) model src/master/taskmgr.py. Batch.Task has classes
-- Task and SubTask with the bills, Batch.TaskNets the networks of tasks, Batch.Placement the choice of
-- workers, Batch.Desk what class TaskMgr does with one task on the workers, Batch.TaskReport what a
-- worker reports, Batch.Scheduler the decision on one task, Batch.Intake what add_task reads, and
-- Batch.TaskMgr the queue, the scheduler and the loop of run(), with `drain` for what
-- sort_out_task_queue does after its first loop. The task objects stand in one list and
-- the queue and the lazy lists hold their indices, as the Python lists hold references. The workers,
-- their monitors, the clock and the random tokens are a parameter, and the calls of the job manager's
-- `report` are collected. Batch.TaskMgr.Run has sequences of rounds and requests, each run to its end.
--
-- Batch.JobMgr has `report` and `process_job` of class JobMgr of src/master/jobmgr.py over the map of
-- jobs; a task's name is given as its two parts. The charges of users and the calls of add_task are a
-- parameter, may raise an exception, and are collected.
--
-- The virtual clusters (Cluster) model class VclusterMgr of src/master/vclustermgr.py. Cluster.Rows has
-- the rows of src/utils/model.py, Cluster.Site what the class calls: the hosts, the proxies, the database's
-- commit and the random choice are a parameter, whose answers may be [True, ...], [False, ...] or an
-- exception, and the network manager is an interface that Cluster.Wiring fills with Net.NetworkMgr.
-- Cluster.Action is a method call as a small monad: it takes the state and returns how the call ended
-- beside the state after it, `fails` for [False, message] and `throws` for an exception. Cluster.Create
-- has create_cluster and scale_out_cluster, Cluster.Proxy the proxy's addresses, Cluster.Mappings the
-- port mappings, Cluster.Life the methods that start, stop, mount, detach, delete and scale in, and
-- Cluster.Recover the recovery with its queue. Each request runs to its end. Cluster.Registry is the
-- abstract view, the rows without their sizes, times, proxies and ports, and the steps a request may do
-- to it.
-- Cluster.Quiet, Cluster.Ends and Cluster.Runs have the rules for calls that leave it as it is, that
-- change it at their end, and that cannot fail.
--
-- Under each component stand the modules with its lemmas. IntervalPool.Cover has the abstract view
-- of an interval pool, the number of its intervals that hold an address; EnumPool.Ownership that
-- of an address pool, where an address is in the pool or with a holder; NetworkMgr.Shares that of
-- a network, the free blocks and one block for each holder; Job.Counts relates the counters of a
-- job to its tasks, and Job.Order the dependencies that were submitted to those that are left.
-- Net.Examples, Batch.Examples and Cluster.Examples run the code on small inputs.
--
-- Fuel: the loop `while(ip_to_int(cur_addr)<ip_to_int(last_addr))` of `overlap` has 2^32 + 1
-- rounds. Each of its rounds moves to a larger 32-bit number unless it wraps around, so that a
-- loop that needs more has come back to an address it has seen and never ends. `allocate` and the
-- merge loop of `free` are structural recursion on the cidr. The queue of recover_clusters has as many
-- rounds as there are rows of clusters, and one more: an entry that failed ends the loop when it comes
-- again.
--
-- Not modelled: the parsing of "address/cidr" and of a task's dependency text, the constructors
-- from stored copies, logging, and the database's transactions (a row is part of the state of its
-- job). The gateways of users, which the workers set up, are not modelled. Of JobMgr the creation,
-- stopping and recovery of jobs and the rows of tasks whose job is gone are left out. Of TaskMgr the
-- bridges, the hosts files, the images and mounts of vnodes and the commands' texts are left out. The
-- price of a vnode, a sum of floats that get_billing rounds up, is a parameter, and times are whole
-- seconds. Where a KeyError ends the scheduler thread, the life of a task manager may go on with further
-- rounds, so that what holds of any life holds of the ended one. What the job manager does on a report, such as adding the tasks that are
-- ready next, is a later request, and a report of a worker does not come in the middle of a round. Of
-- VclusterMgr the migration of containers, the images of containers, addproxy and deleteproxy, the loops
-- over the directories of all users, billing rows, times and the files of hosts are left out; what a
-- request changed in rows before it failed without a commit is not in the rows after it.
mod Common
pub mod Net
pub mod Cluster
pub mod Batch
