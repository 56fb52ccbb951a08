-- ===== src/Cluster/Mappings.antt =====
-- The port mappings of clusters in src/master/vclustermgr.py: count_, add_, recover_, delete_all_ and
-- delete_port_mapping.
use docklet.Common.{
  ℕ, Bool, true, false, not, ◌&&◌, Option, none, some, List, [], ◌∷◌, ◌++◌, length, total, ltb,
  ◌==◌, if◌then◌else◌, String,
}
use docklet.Cluster.Rows.{
  Name, PortMapping, VCluster, is_stopped, get_vcluster, change, list_clusters, same_name,
}
use docklet.Cluster.Site.{
  Answer, yes, no, raised, acquire_port_mapping, release_port_mapping, Outside,
}
use docklet.Cluster.Action.{
  Action, text, pure, fail, throw, gets, or_fail, or_throw, ignore, require, send, call, at_proxy,
  db_commit, ◌>>=◌, ◌>>◌,
}

-- count_port_mapping(username)
unfoldable pub count_port_mapping : String → List VCluster → ℕ
unfolding list_clusters get_vcluster
count_port_mapping username rows =
    total
      (λ cluster. elim (get_vcluster cluster username rows) [
        | none ↦ 0
        | some info ↦ length info.port_mapping
      ])
      (list_clusters username rows)

abbrev pub is_at : Name → ℕ → PortMapping → Bool
is_at node_name node_port item = same_name item.node_name node_name && (item.node_port == node_port)

unfoldable pub find_mapping : Name → ℕ → List PortMapping → Option PortMapping
find_mapping node_name node_port [] = none
find_mapping node_name node_port (item ∷ items) =
    if is_at node_name node_port item then some item else find_mapping node_name node_port items

unfoldable pub drop_mapping : Name → ℕ → List PortMapping → List PortMapping
drop_mapping node_name node_port [] = []
drop_mapping node_name node_port (item ∷ items) =
    if is_at node_name node_port item then items else item ∷ drop_mapping node_name node_port items

abbrev pub with_mappings : List PortMapping → VCluster → VCluster
with_mappings items v = record v { port_mapping = items }

module _ {N W : Type 0} (o : Outside N W) where
  -- The message of a refusal
  abbrev pub heard : Answer → Action N W (Option String)
  heard (yes n) = pure none
  heard (no e) = pure (some e)
  heard raised = throw

  abbrev pub report : Option String → Action N W (Unit {0})
  report none = pure tt
  report (some e) = fail (text e)

  abbrev pub add_mapping : PortMapping → VCluster → VCluster
  add_mapping item v = record v { port_mapping = v.port_mapping ++ item ∷ [] }

  -- add_port_mapping(username, clustername, node_name, node_ip, port, quota)
  unfoldable pub add_port_mapping : String → String → Name → String → ℕ → ℕ → Action N W (Unit {0})
  unfolding count_port_mapping get_vcluster change
  add_port_mapping username clustername node_name node_ip node_port quota = do
    count ← gets (λ m. count_port_mapping username m.clusters)
    require (ltb count quota) "Port mapping quota exceed."
    cluster ← gets (λ m. get_vcluster clustername username m.clusters)
    info ← or_throw cluster
    require (not (is_stopped info.status)) "Please start the clusters first."
    host_port ←
        at_proxy o info.proxy_server_ip
          (λ host. call o host (acquire_port_mapping node_name node_ip node_port none))
    ignore (
        db_commit o (
          change clustername username (
            add_mapping record {
              node_name = node_name;
              node_ip = node_ip;
              node_port = node_port;
              host_port = host_port;
            })))

  -- The loop of recover_port_mapping
  unfoldable pub recover_mappings : VCluster → List PortMapping → Action N W (Unit {0})
  recover_mappings info [] = pure tt
  recover_mappings info (item ∷ items) = do
    at_proxy o info.proxy_server_ip (λ host.
        call o host
          (acquire_port_mapping item.node_name item.node_ip item.node_port (some item.host_port)))
    recover_mappings info items

  unfoldable pub recover_port_mapping : String → String → Action N W (Unit {0})
  unfolding get_vcluster recover_mappings
  recover_port_mapping username clustername = do
    cluster ← gets (λ m. get_vcluster clustername username m.clusters)
    info ← or_throw cluster
    recover_mappings info info.port_mapping

  abbrev pub release : VCluster → PortMapping → Action N W (Option String)
  release v item = at_proxy o v.proxy_server_ip (λ host.
      send o host (release_port_mapping item.node_name item.node_ip item.node_port) >>= heard)

  -- What one turn of the loop adds to the rest of it.
  abbrev pub released :
      PortMapping
      → Option String
      → List PortMapping × Bool × Option String
      → List PortMapping × Bool × Option String
  released item none (kept, any, err) = (kept, true, err)
  released item (some e) (kept, any, none) = (item ∷ kept, any, some e)
  released item (some e) (kept, any, some last) = (item ∷ kept, any, some last)

  -- The loop of delete_all_port_mapping: the mappings that stay, whether one goes, the last message.
  unfoldable pub release_mappings :
      VCluster → Name → List PortMapping → Action N W (List PortMapping × Bool × Option String)
  release_mappings v node_name [] = pure ([], false, none)
  release_mappings v node_name (item ∷ items) =
      if same_name item.node_name node_name
      then (release v item >>= λ refused.
          release_mappings v node_name items >>= λ rest. pure (released item refused rest))
      else (release_mappings v node_name items >>= λ (kept, any, err). pure (item ∷ kept, any, err))

  -- Its end: rows are deleted, and a message reported, only where some mapping goes.
  unfoldable pub forget_mappings :
      String → String → List PortMapping × Bool × Option String → Action N W (Unit {0})
  unfolding change
  forget_mappings username clustername (kept, false, err) = pure tt
  forget_mappings username clustername (kept, true, none) =
      ignore (db_commit o (change clustername username (with_mappings kept)))
  forget_mappings username clustername (kept, true, some e) =
      ignore (db_commit o (change clustername username (with_mappings kept))) >> fail (text e)

  unfoldable pub delete_all_port_mapping : String → String → Name → Action N W (Unit {0})
  unfolding get_vcluster release_mappings forget_mappings
  delete_all_port_mapping username clustername node_name = do
    cluster ← gets (λ m. get_vcluster clustername username m.clusters)
    v ← or_fail cluster "VCluster not found."
    result ← release_mappings v node_name v.port_mapping
    forget_mappings username clustername result

  -- delete_port_mapping(username, clustername, node_name, node_port)
  unfoldable pub delete_port_mapping : String → String → Name → ℕ → Action N W (Unit {0})
  unfolding get_vcluster change find_mapping drop_mapping
  delete_port_mapping username clustername node_name node_port = do
    cluster ← gets (λ m. get_vcluster clustername username m.clusters)
    v ← or_fail cluster "VCluster not found."
    item ← or_fail (find_mapping node_name node_port v.port_mapping) "No port mapping."
    refused ← release v item
    ignore (
        db_commit o (
          change clustername username
            (with_mappings (drop_mapping node_name node_port v.port_mapping))))
    report refused
