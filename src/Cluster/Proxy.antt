-- ===== src/Cluster/Proxy.antt =====
-- The proxy of a cluster in src/master/vclustermgr.py: update_proxy_ipAndurl, update_cluster_baseurl,
-- check_public_ip, and the part that start_cluster and recover_cluster share.
use docklet.Common.{
  Bool, true, false, not, Option, none, some, List, [], ◌∷◌, get_elem?, if◌then◌else◌, String,
  str_eq,
}
use docklet.Cluster.Rows.{Container, VCluster, get_vcluster, change}
use docklet.Cluster.Site.{Call, update_baseurl, stop_container, set_route, Outside}
use docklet.Cluster.Action.{
  Action, text, pure, gets, or_fail, or_throw, ignore, try_or, require, demand, call, unless,
  db_commit, ◌>>=◌, ◌>>◌,
}

-- A host without a public address is its own.
abbrev pub public_or_self : String → Option String → String
public_or_self host none = host
public_or_self host (some ip) = ip

abbrev pub with_proxy : String → String → VCluster → VCluster
with_proxy proxy_server_ip proxy_public_ip v = record v {
  proxy_server_ip = proxy_server_ip;
  proxy_public_ip = proxy_public_ip;
}

abbrev pub is_same_ip : String → Option String → Bool
is_same_ip old none = false
is_same_ip old (some new) = str_eq old new

module _ {N W : Type 0} (o : Outside N W) where
  -- update_proxy_ipAndurl(clustername, username, proxy_server_ip)
  unfoldable pub update_proxy_ip_andurl : String → String → String → Action N W (Unit {0})
  unfolding get_vcluster change
  update_proxy_ip_andurl clustername username proxy_server_ip = do
    cluster ← gets (λ m. get_vcluster clustername username m.clusters)
    v ← or_fail cluster "cluster not found"
    public ← gets (λ m. o.site.public_ip proxy_server_ip m.world)
    good ← db_commit o (
        change clustername username
          (with_proxy proxy_server_ip (public_or_self proxy_server_ip public)))
    require good "Commit Errror"

  unfoldable pub update_baseurls : List Container → Action N W (Unit {0})
  update_baseurls [] = pure tt
  update_baseurls (c ∷ l) = do
    alive ← gets (λ m. o.site.connected c.host m.world)
    unless (not alive) (
        ignore (call o c.host (update_baseurl c.containername))
        >> ignore (call o c.host (stop_container c.containername)))
    update_baseurls l

  -- update_cluster_baseurl(clustername, username, oldip, newip)
  unfoldable pub update_cluster_baseurl : String → String → Action N W (Unit {0})
  unfolding get_vcluster update_baseurls
  update_cluster_baseurl clustername username = do
    cluster ← gets (λ m. get_vcluster clustername username m.clusters)
    info ← or_fail cluster "cluster not found"
    update_baseurls info.containers

  -- check_public_ip(clustername, username)
  unfoldable pub check_public_ip : String → String → Action N W Bool
  unfolding get_vcluster update_proxy_ip_andurl update_cluster_baseurl
  check_public_ip clustername username = do
    cluster ← gets (λ m. get_vcluster clustername username m.clusters)
    info ← or_throw cluster
    public ← gets (λ m. o.site.public_ip info.proxy_server_ip m.world)
    (if is_same_ip info.proxy_public_ip public
        then pure true
        else (ignore (update_proxy_ip_andurl clustername username info.proxy_server_ip)
            >> ignore (update_cluster_baseurl clustername username)
            >> pure false))

  -- get_clusterinfo again
  abbrev pub reread : String → String → Action N W VCluster
  unfolding get_vcluster
  reread clustername username =
      gets (λ m. get_vcluster clustername username m.clusters) >>= or_throw

  -- The row as check_public_ip leaves it
  unfoldable pub checked : String → String → VCluster → Action N W VCluster
  unfolding check_public_ip get_vcluster
  checked clustername username info = do
    same ← check_public_ip clustername username
    (if same then pure info else reread clustername username)

  -- set_route of a worker that was looked up before: recover_cluster goes through unless_function.
  abbrev pub route_at : Bool → Bool → String → Call → Action N W (Unit {0})
  route_at false alive host c = demand alive >> ignore (call o host c)
  route_at true alive host c =
      try_or (text "fail to set proxy on node") (if alive then ignore (call o host c) else pure tt)

  -- The body of the `try` in start_cluster, and for `recovers` of the one in recover_cluster.
  unfoldable pub set_proxy : Bool → String → String → VCluster → Action N W VCluster
  unfolding get_vcluster checked update_proxy_ip_andurl update_cluster_baseurl
  set_proxy recovers clustername username info = do
    target ← or_throw (get_elem? info.containers 0)
    alive ← gets (λ m. o.site.connected info.proxy_server_ip m.world)
    (if o.distributedgw
        then (do
          now ← checked clustername username info
          route_at recovers alive info.proxy_server_ip
              (set_route now.proxy_public_ip username clustername)
          pure now)
        else (do
          moved ←
              (if str_eq info.proxy_server_ip o.addr then pure info else (do
                ignore (update_proxy_ip_andurl clustername username o.addr)
                again ← reread clustername username
                ignore (update_cluster_baseurl clustername username)
                pure again))
          now ← checked clustername username moved
          ignore (call o o.addr (set_route now.proxy_public_ip username clustername))
          pure now))
