-- ===== src/Cluster/Site.antt =====
-- What the cluster manager of src/master/vclustermgr.py calls: the workers and the proxies, the
-- database's commit, and the network manager of src/master/network.py.
use docklet.Common.{ℕ, Bool, Option, List, String}
use docklet.Net.Address.{Ip}
use docklet.Net.Result.{Result}
use docklet.Cluster.Rows.{Name}

-- A call of a worker, of a proxy or of a gateway. Arguments that only the callee reads are left out.
pub data Call : Type 0 where
  create_container start_container start_services recover_usernet recover_container stop_container
        delete_container detach_container mount_container create_image update_baseurl :
      Name → Call
  set_route delete_route : String → String → String → Call
  setup_usrgw : String → Option String → Call
  use_masterip check_usergw del_usrgwbr : String → Call
  check_usergre : String → String → Call
  acquire_port_mapping : Name → String → ℕ → Option ℕ → Call
  release_port_mapping : Name → String → ℕ → Call

-- `[True, port]`, `[False, message]`, or an exception; the port is 0 where a call has none.
pub data Answer : Type 0 where
  yes : ℕ → Answer
  no : String → Answer
  raised : Answer

-- `call host c` is the call c at a host. ip_to_rpc gives a client exactly for a host that is
-- `connected`; get_base_nodeips are `runnodes`; a user's gateway host is `usrgws`, and `public_ip` the
-- key machines/publicIP of a host in etcd. `pick n` is random.randint(0, n - 1), and `ceil_log2` the
-- rounding of math.log.
pub record Site (W : Type 0) : Type 0 where
  pub call : String → Call → W → Answer × W
  pub connected : String → W → Bool
  pub runnodes : W → List String
  pub usrgws : String → W → Option String
  pub public_ip : String → W → Option String
  pub pick : ℕ → W → ℕ × W
  pub ceil_log2 : ℕ → ℕ
  pub commit : W → Bool × W

-- The methods of the network manager that the cluster manager calls.
pub record Network (N : Type 0) : Type 0 where
  pub has_user : N → String → Bool
  pub add_user : N → String → ℕ → Result (Unit {0}) × N
  pub del_user : N → String → Result (Unit {0}) × N
  pub acquire_userips_cidr : N → String → ℕ → Result (List (Ip × ℕ)) × N
  pub release_userips : N → String → List (Ip × Option ℕ) → Result (Unit {0}) × N

-- All of it, with `distributedgw`, `addr`, and CLUSTER_SIZE
pub record Outside (N W : Type 0) : Type 0 where
  pub network : Network N
  pub site : Site W
  pub distributedgw : Bool
  pub addr : String
  pub defaultsize : ℕ
