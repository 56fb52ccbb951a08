-- ===== src/Cluster/Create.antt =====
-- create_cluster and scale_out_cluster of src/master/vclustermgr.py. The files of hosts are left out.
use docklet.Common.{
  ℕ, zero, suc, ◌+◌, ◌-◌, Bool, true, false, not, Option, none, some, List, [], ◌∷◌, ◌++◌, length,
  get_elem?, leb, ◌==◌, String,
}
use docklet.Net.Address.{Ip}
use docklet.Cluster.Rows.{
  Name, Setting, Container, VCluster, is_running, new_vcluster, get_vcluster, change, is_cluster,
  up,
}
use docklet.Cluster.Site.{
  Answer, yes, no, raised, create_container, start_container, start_services, recover_usernet,
  setup_usrgw, use_masterip, check_usergre, Outside,
}
use docklet.Cluster.Action.{
  done, Action, text, pure, fail, throw, gets, or_fail, or_throw, ignore, on_net, require, unless,
  send, call, client, db_commit, ◌>>=◌, ◌>>◌,
}

module _ {N W : Type 0} (o : Outside N W) where
  -- `workers[random.randint(0, len(workers) - 1)]`
  unfoldable pub pick_worker : List String → Action N W String
  pick_worker workers = do
    i ← (λ m. (
      done (o.site.pick (length workers) m.world).0,
      record m { world = (o.site.pick (length workers) m.world).1 },
    ))
    or_throw (get_elem? workers i)

  unfoldable pub enter : String → ℕ → Bool → Option String → Action N W (Unit {0})
  enter username vnode false gateway = do
    ignore (on_net (λ n. o.network.add_user n username (32 - o.site.ceil_log2 (vnode + 3))))
    unless o.distributedgw (call o o.addr (setup_usrgw username none) >> pure tt)
  enter username vnode true none = ignore (call o o.addr (use_masterip username))
  enter username vnode true (some host) = pure tt

  -- Makes sure that the network manager knows the user, and where the user's gateway is.
  unfoldable pub ensure_user : String → ℕ → Action N W (Unit {0})
  unfolding enter
  ensure_user username vnode = do
    known ← gets (λ m. o.network.has_user m.net username)
    gateway ← gets (λ m. o.site.usrgws username m.world)
    enter username vnode known gateway

  unfoldable pub open_gateway : String → String → Option String → Action N W (Unit {0})
  open_gateway username workerip none =
      unless (not o.distributedgw)
        (call o workerip (setup_usrgw username (some workerip)) >> pure tt)
  open_gateway username workerip (some host) = pure tt

  -- What the first container's turn adds: the proxy's address and its public one.
  unfoldable pub proxy_ips : String → String → ℕ → String × String → Action N W (String × String)
  unfolding open_gateway
  proxy_ips username workerip zero proxies = do
    gateway ← gets (λ m. o.site.usrgws username m.world)
    open_gateway username workerip gateway
    found ← gets (λ m. o.site.usrgws username m.world)
    proxy_server_ip ← or_throw found
    public ← gets (λ m. o.site.public_ip proxy_server_ip m.world)
    proxy_public_ip ← or_fail public "Fail to get proxy server public IP."
    pure (proxy_server_ip, proxy_public_ip)
  proxy_ips username workerip (suc i) proxies = pure proxies

  -- A refused container gives its own address back.
  unfoldable pub created : String → Ip × ℕ → Answer → Action N W (Unit {0})
  created username ip (yes n) = pure tt
  created username ip (no e) =
      ignore (on_net (λ n. o.network.release_userips n username ((ip.0, some ip.1) ∷ [])))
      >> fail (text e)
  created username ip raised = throw

  -- create_container at a worker, and what its refusal undoes
  unfoldable pub make_container : String → Name → Ip × ℕ → String → Setting → Action N W Container
  unfolding created
  make_container workerip name ip image setting = do
    client o workerip
    answer ← send o workerip (create_container name)
    created name.username ip answer
    pure record { containername = name; ip = ip; host = workerip; image = image; setting = setting }

  -- The loop of create_cluster: k containers from the i-th on.
  unfoldable pub make_containers :
      List String
      → String
      → ℕ
      → String
      → Setting
      → ℕ
      → ℕ
      → String × String
      → List (Ip × ℕ)
      → Action N W ((String × String) × List Container)
  unfolding pick_worker proxy_ips make_container
  make_containers workers username clusterid image setting zero i proxies ips = pure (proxies, [])
  make_containers workers username clusterid image setting (suc k) i proxies [] = throw
  make_containers workers username clusterid image setting (suc k) i proxies (ip ∷ ips) = do
    workerip ← pick_worker workers
    found ← proxy_ips username workerip i proxies
    c ←
        make_container workerip record { username = username; clusterid = clusterid; cid = i } ip
          image setting
    (last, rest) ← make_containers workers username clusterid image setting k (i + 1) found ips
    pure (last, c ∷ rest)

  -- _acquire_id()
  unfoldable pub acquire_id : Action N W ℕ
  acquire_id m = (done m.nextid, record m { nextid = m.nextid + 1 })

  -- create_cluster(clustername, username, image, user_info, setting)
  unfoldable pub create_cluster : String → String → String → ℕ → ℕ → Setting → Action N W (Unit {0})
  unfolding is_cluster ensure_user make_containers acquire_id
  create_cluster clustername username image image_size vnode setting = do
    taken ← gets (λ m. is_cluster clustername username m.clusters)
    require (not taken) "cluster already exists"
    require (leb (image_size + 100) setting.disk) "the size of disk is not big enough for the image"
    workers ← gets (λ m. o.site.runnodes m.world)
    require (not (length workers == 0)) "no workers are running"
    ensure_user username vnode
    ips ← on_net (λ n. o.network.acquire_userips_cidr n username o.defaultsize)
    clusterid ← acquire_id
    ((proxy_server_ip, proxy_public_ip), containers) ←
        make_containers workers username clusterid image setting o.defaultsize 0 ("", "") ips
    ignore (
        db_commit o (λ rows.
          rows
          ++ new_vcluster clusterid clustername username o.defaultsize proxy_server_ip
              proxy_public_ip containers
            ∷ []))

  -- What scale_out_cluster does to a container of a running cluster
  unfoldable pub join_running : String → VCluster → Container → Action N W (Unit {0})
  join_running username info c = unless (not (is_running info.status)) (do
    ignore (call o o.addr (check_usergre username c.host))
    ignore (call o c.host (start_container c.containername))
    ignore (call o c.host (start_services c.containername))
    ignore (call o c.host (recover_usernet c.containername)))

  abbrev pub widen : Container → VCluster → VCluster
  widen c v = record v {
    nextcid = v.nextcid + 1;
    size = up v.size;
    containers = v.containers ++ c ∷ [];
  }

  -- scale_out_cluster(clustername, username, image, user_info, setting)
  unfoldable pub scale_out_cluster : String → String → String → ℕ → Setting → Action N W (Unit {0})
  unfolding is_cluster get_vcluster change pick_worker make_container join_running
  scale_out_cluster clustername username image image_size setting = do
    there ← gets (λ m. is_cluster clustername username m.clusters)
    require there "cluster not found"
    require (leb (image_size + 100) setting.disk) "the size of disk is not big enough for the image"
    workers ← gets (λ m. o.site.runnodes m.world)
    require (not (length workers == 0)) "no workers are running"
    ips ← on_net (λ n. o.network.acquire_userips_cidr n username 1)
    ip ← or_throw (get_elem? ips 0)
    cluster ← gets (λ m. get_vcluster clustername username m.clusters)
    info ← or_throw cluster
    workerip ← pick_worker workers
    c ←
        make_container workerip
          record { username = username; clusterid = info.clusterid; cid = info.nextcid } ip image
          setting
    join_running username info c
    ignore (db_commit o (change clustername username (widen c)))
