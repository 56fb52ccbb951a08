-- ===== src/Cluster/Examples.antt =====
-- Tests of the cluster manager of src/master/vclustermgr.py and its theorems, at one host that answers.
use docklet.Common.{
  ℕ, zero, suc, ◌+◌, ◌<◌, ◌≡◌, ◌≢◌, refl, Bool, true, false, ◌==◌, Option, none, some, List, [],
  ◌∷◌, String, length, arith,
}
use docklet.Net.Address.{Ip}
use docklet.Net.Result.{ok}
use docklet.Cluster.Rows.{Container, VCluster, running, stopped, pos, get_vcluster}
use docklet.Cluster.Site.{yes, Site, Network, Outside}
use docklet.Cluster.Action.{VclusterMgr, done, is_done}
use docklet.Cluster.Registry.{
  Form, Request, Step, create, grow, start, stop, destroy, shrink, in_status, find,
}
use docklet.Cluster.Quiet.{shape, registry}
use docklet.Cluster.Requests.{exec, run}
use docklet.Cluster.Recover.{recover_clusters}
use docklet.Cluster.Valid.{IsValid}
use docklet.Cluster.Runs.{Works}
use docklet.Cluster.Promises.{exec_refines, run-IsValid, stop-start}
use docklet.Cluster.Recovery.{recover_clusters-ends}

-- A user network of n addresses handed out
abbrev addresses : ℕ → ℕ → List (Ip × ℕ)
addresses n zero = []
addresses n (suc k) = (record { a = 10; b = 0; c = 0; d = n }, 24) ∷ addresses (n + 1) k

abbrev counted : Network ℕ
counted = record {
  has_user = λ n user. true;
  add_user = λ n user cidr. (ok tt, n);
  del_user = λ n user. (ok tt, n);
  acquire_userips_cidr = λ n user k. (ok (addresses n k), n + k);
  release_userips = λ n user ips. (ok tt, n);
}

-- One worker, which says yes to everything; the world counts the calls.
abbrev calm : Site ℕ
calm = record {
  call = λ host c w. (yes 0, w + 1);
  connected = λ host w. true;
  runnodes = λ w. "worker" ∷ [];
  usrgws = λ user w. some "master";
  public_ip = λ host w. some "public";
  pick = λ n w. (0, w);
  ceil_log2 = λ n. 4;
  commit = λ w. (true, w);
}

abbrev one_host : Outside ℕ ℕ
one_host = record {
  network = counted;
  site = calm;
  distributedgw = false;
  addr = "master";
  defaultsize = 2;
}

abbrev nothing : VclusterMgr ℕ ℕ
nothing = record { net = 2; clusters = []; nextid = 1; world = 0 }

abbrev form : Form
form = record {
  image = "base";
  image_size = 200;
  vnode = 8;
  setting = record { cpu = 1; memory = 100; disk = 500 };
}

abbrev box : ℕ → ℕ → Container
box cid d = record {
  containername = record { username = "ann"; clusterid = 1; cid = cid };
  ip = (record { a = 10; b = 0; c = 0; d = d }, 24);
  host = "worker";
  image = "base";
  setting = form.setting;
}

abbrev pair : VCluster
pair = record {
  clusterid = 1;
  clustername = "web";
  ownername = "ann";
  status = stopped;
  size = pos 2;
  nextcid = 2;
  is_warned = false;
  proxy_server_ip = "master";
  proxy_public_ip = "public";
  containers = box 0 2 ∷ box 1 3 ∷ [];
  port_mapping = [];
}

abbrev one_pair : VclusterMgr ℕ ℕ
one_pair = record { net = 4; clusters = pair ∷ []; nextid = 2; world = 2 }

created : exec one_host (create "web" "ann" form) nothing ≡ (done tt, one_pair)
unfolding exec docklet.Cluster.Create.create_cluster docklet.Cluster.Action.◌>>=◌
    docklet.Cluster.Action.gets docklet.Cluster.Action.require docklet.Common.contains
    docklet.Cluster.Action.pure docklet.Cluster.Action.on_net docklet.Cluster.Action.or_throw
    docklet.Common.get_elem? docklet.Cluster.Action.or_fail docklet.Cluster.Action.client
    docklet.Cluster.Action.demand docklet.Cluster.Action.send docklet.Cluster.Action.ignore
    docklet.Cluster.Action.db_commit
created = refl

-- A container that is not there is taken off the size.
miscounted :
    (run one_host
      (shrink "web" "ann" record { username = "ann"; clusterid = 1; cid = 7 } ∷ [])
      one_pair).clusters
    ≡ record pair { size = pos 1 } ∷ []
unfolding run docklet.Cluster.Life.scale_in_cluster docklet.Cluster.Action.◌>>=◌
    docklet.Cluster.Action.gets docklet.Cluster.Action.or_fail docklet.Cluster.Action.pure
    docklet.Cluster.Action.unless docklet.Cluster.Action.ignore docklet.Cluster.Action.db_commit
miscounted = refl

abbrev busy_day : List Request
busy_day =
    create "web" "ann" form
    ∷ start "web" "ann"
    ∷ grow "web" "ann" form
    ∷ shrink "web" "ann" record { username = "ann"; clusterid = 1; cid = 0 }
    ∷ create "db" "ann" form
    ∷ stop "web" "ann"
    ∷ destroy "db" "ann"
    ∷ []

-- A number that was in use is not used again.
regrown :
    (run one_host
      (shrink "web" "ann" record { username = "ann"; clusterid = 1; cid = 1 }
        ∷ grow "web" "ann" form
        ∷ [])
      one_pair).clusters
    ≡ record pair { nextcid = 3; containers = box 0 2 ∷ box 2 4 ∷ [] } ∷ []
unfolding run docklet.Cluster.Life.scale_in_cluster docklet.Cluster.Create.scale_out_cluster
    docklet.Cluster.Action.◌>>=◌ docklet.Cluster.Action.gets docklet.Cluster.Action.require
    docklet.Common.contains docklet.Cluster.Action.or_fail docklet.Cluster.Action.pure
    docklet.Cluster.Action.unless docklet.Cluster.Action.ignore docklet.Cluster.Action.db_commit
    docklet.Cluster.Action.on_net docklet.Cluster.Action.or_throw docklet.Common.get_elem?
    docklet.Cluster.Action.client docklet.Cluster.Action.worker docklet.Cluster.Action.call
    docklet.Cluster.Action.demand docklet.Cluster.Action.send
regrown = refl

exec_refines_example :
    Step 2
      (create "web" "ann" form)
      (is_done (exec one_host (create "web" "ann" form) nothing).0)
      record { clusters = []; nextid = 1 }
      (registry (exec one_host (create "web" "ann" form) nothing).1)
exec_refines_example = exec_refines one_host (create "web" "ann" form) nothing

nothing-IsValid : IsValid (registry nothing)
nothing-IsValid = record { below = tt; apart = tt; unique = tt }

run-IsValid_example : IsValid (registry (run one_host busy_day nothing))
run-IsValid_example = run-IsValid one_host busy_day nothing nothing-IsValid

one_host-Works : Works one_host
one_host-Works = record {
  answers = λ host c w e. cc;
  connected = λ host w. refl;
  commits = λ w. refl;
}

pair_there : get_vcluster "web" "ann" one_pair.clusters ≡ some pair
unfolding get_vcluster
pair_there = refl

stop-start_example :
    (is_done (exec one_host (start "web" "ann") one_pair).0 ≡ true)
    × (find "web" "ann" (registry (exec one_host (start "web" "ann") one_pair).1).clusters
        ≡ some (in_status running (shape pair)))
    × (is_done (exec one_host (stop "web" "ann") (exec one_host (start "web" "ann") one_pair).1).0
        ≡ true)
    × (find "web" "ann"
          (registry
            (exec one_host
              (stop "web" "ann")
              (exec one_host (start "web" "ann") one_pair).1).1).clusters
        ≡ some (in_status stopped (shape pair)))
unfolding docklet.Common.get_elem?
stop-start_example =
    stop-start one_host "web" "ann" one_pair pair (box 0 2) one_host-Works pair_there refl refl

one_enough : length one_pair.clusters < 2
one_enough = omega arith

recover_clusters-ends_example : (recover_clusters one_host 2 none one_pair).0 ≢ done false
recover_clusters-ends_example = recover_clusters-ends one_host none 2 one_pair one_enough
