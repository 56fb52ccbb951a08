-- ===== src/Cluster/Life.antt =====
-- start_cluster, stop_cluster, detach_cluster, mount_cluster, delete_cluster and scale_in_cluster of
-- src/master/vclustermgr.py. The files of hosts are left out.
use docklet.Common.{ℕ, true, false, not, Option, some, List, [], ◌∷◌, map, length, ◌==◌, String}
use docklet.Net.Address.{Ip}
use docklet.Cluster.Rows.{
  Name, Container, VCluster, Status, running, stopped, is_running, is_stopped, get_vcluster, change,
  without, delete, list_clusters, same_name, down,
}
use docklet.Cluster.Site.{
  start_container, start_services, recover_usernet, recover_container, stop_container,
  delete_container, detach_container, mount_container, del_usrgwbr, check_usergw, check_usergre,
  delete_route, Outside,
}
use docklet.Cluster.Action.{
  Action, text, pure, gets, or_fail, or_throw, ignore, try_or, on_net, require, unless, call,
  worker, at_proxy, db_commit, ◌>>=◌, ◌>>◌,
}
use docklet.Cluster.Proxy.{set_proxy}
use docklet.Cluster.Mappings.{delete_all_port_mapping, recover_port_mapping}

abbrev pub set_status : Status → VCluster → VCluster
set_status s v = record v { status = s }

-- A start also clears the warning.
abbrev pub set_running : VCluster → VCluster
set_running v = record v { status = running; is_warned = false }

abbrev pub narrow : Name → VCluster → VCluster
narrow name v = record v { size = down v.size; containers = without name v.containers }

abbrev pub address : Container → Ip × Option ℕ
address c = (c.ip.0, some c.ip.1)

module _ {N W : Type 0} (o : Outside N W) where
  unfoldable pub each : (Container → Action N W (Unit {0})) → List Container → Action N W (Unit {0})
  each f [] = pure tt
  each f (c ∷ l) = f c >> each f l

  -- A vcluster is read again before its status is set.
  unfoldable pub save_status : String → String → (VCluster → VCluster) → Action N W (Unit {0})
  unfolding get_vcluster change
  save_status clustername username f = do
    cluster ← gets (λ m. get_vcluster clustername username m.clusters)
    v ← or_throw cluster
    good ← db_commit o (change clustername username f)
    require good "Commit Errror"

  abbrev pub start_one : String → Container → Action N W (Unit {0})
  start_one username c = do
    ignore (call o o.addr (check_usergre username c.host))
    worker o c.host
    ignore (call o c.host (start_container c.containername))
    ignore (call o c.host (start_services c.containername))
    ignore (call o c.host (recover_usernet c.containername))

  -- start_cluster(clustername, username, user_info)
  unfoldable pub start_cluster : String → String → Action N W (Unit {0})
  unfolding get_vcluster set_proxy each save_status
  start_cluster clustername username = do
    cluster ← gets (λ m. get_vcluster clustername username m.clusters)
    info ← or_fail cluster "cluster not found"
    require (not (is_running info.status)) "cluster is already running"
    proxied ←
        try_or (text "start cluster failed with setting proxy failed")
          (set_proxy o false clustername username info)
    ignore (call o o.addr (check_usergw username))
    each (start_one username) proxied.containers
    save_status clustername username set_running

  abbrev pub stop_one : String → String → Container → Action N W (Unit {0})
  stop_one clustername username c = do
    ignore (delete_all_port_mapping o username clustername c.containername)
    worker o c.host
    ignore (call o c.host (stop_container c.containername))

  -- stop_cluster(clustername, username)
  unfoldable pub stop_cluster : String → String → Action N W (Unit {0})
  unfolding get_vcluster delete_all_port_mapping each save_status
  stop_cluster clustername username = do
    cluster ← gets (λ m. get_vcluster clustername username m.clusters)
    info ← or_fail cluster "cluster not found"
    require (not (is_stopped info.status)) "cluster is already stopped"
    at_proxy o info.proxy_server_ip
        (λ host. ignore (call o host (delete_route info.proxy_public_ip username clustername)))
    each (stop_one clustername username) info.containers
    save_status clustername username (set_status stopped)

  -- detach_cluster(clustername, username)
  unfoldable pub detach_cluster : String → String → Action N W (Unit {0})
  unfolding get_vcluster each
  detach_cluster clustername username = do
    cluster ← gets (λ m. get_vcluster clustername username m.clusters)
    info ← or_fail cluster "cluster not found"
    require (not (is_running info.status)) "cluster is running, please stop it first"
    each (λ c. worker o c.host >> ignore (call o c.host (detach_container c.containername)))
        info.containers

  -- mount_cluster(clustername, username)
  unfoldable pub mount_cluster : String → String → Action N W (Unit {0})
  unfolding get_vcluster each
  mount_cluster clustername username = do
    cluster ← gets (λ m. get_vcluster clustername username m.clusters)
    info ← or_fail cluster "cluster not found"
    each (λ c. worker o c.host >> ignore (call o c.host (mount_container c.containername)))
        info.containers

  abbrev pub delete_one : Container → Action N W (Unit {0})
  delete_one c = worker o c.host >> ignore (call o c.host (delete_container c.containername))

  -- The last cluster of a user takes the network along.
  unfoldable pub forget_user : String → Action N W (Unit {0})
  unfolding list_clusters
  forget_user username = do
    left ← gets (λ m. list_clusters username m.clusters)
    unless (not (length left == 0)) (do
      ignore (on_net (λ n. o.network.del_user n username))
      ignore (call o o.addr (del_usrgwbr username)))

  -- delete_cluster(clustername, username, user_info)
  unfoldable pub delete_cluster : String → String → Action N W (Unit {0})
  unfolding get_vcluster each delete forget_user
  delete_cluster clustername username = do
    cluster ← gets (λ m. get_vcluster clustername username m.clusters)
    v ← or_fail cluster "cluster not found"
    require (not (is_running v.status))
        "cluster is still running, you need to stop it and then delete"
    each delete_one v.containers
    ignore (on_net (λ n. o.network.release_userips n username (map address v.containers)))
    ignore (db_commit o (delete clustername username))
    forget_user username

  abbrev pub delete_named : String → Name → Container → Action N W (Unit {0})
  delete_named username name c = unless (not (same_name c.containername name)) (do
    delete_one c
    ignore (on_net (λ n. o.network.release_userips n username (address c ∷ []))))

  -- scale_in_cluster(clustername, username, containername)
  unfoldable pub scale_in_cluster : String → String → Name → Action N W (Unit {0})
  unfolding get_vcluster each change without delete_all_port_mapping
  scale_in_cluster clustername username name = do
    cluster ← gets (λ m. get_vcluster clustername username m.clusters)
    v ← or_fail cluster "cluster not found"
    each (delete_named username name) v.containers
    ignore (db_commit o (change clustername username (narrow name)))
    delete_all_port_mapping o username clustername name

  -- One turn of the loop over containers in recover_cluster
  abbrev pub recover_one : String → Container → Action N W (Unit {0})
  recover_one username c = do
    ignore (call o o.addr (check_usergre username c.host))
    worker o c.host
    try_or (text "fail to recover container or usernet") (do
      ignore (call o c.host (recover_container c.containername))
      ignore (call o c.host (recover_usernet c.containername)))

  -- recover_cluster(clustername, username, uid, input_rate_limit, output_rate_limit)
  unfoldable pub recover_cluster : String → String → Action N W (Unit {0})
  unfolding get_vcluster set_proxy each recover_port_mapping
  recover_cluster clustername username = do
    cluster ← gets (λ m. get_vcluster clustername username m.clusters)
    info ← or_fail cluster "cluster not found"
    unless (is_stopped info.status) (do
      proxied ←
          try_or (text "start cluster failed with setting proxy failed")
            (set_proxy o true clustername username info)
      ignore (call o o.addr (check_usergw username))
      each (recover_one username) proxied.containers
      recover_port_mapping o username clustername)
