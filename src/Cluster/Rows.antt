-- ===== src/Cluster/Rows.antt =====
-- The rows Container, PortMapping and VCluster of src/utils/model.py and the queries on them in
-- src/master/vclustermgr.py. Billing rows and the texts of times are left out.
use docklet.Common.{
  ℕ, zero, suc, ◌+◌, Bool, true, false, ◌&&◌, Option, none, some, List, [], ◌∷◌, ◌==◌,
  if◌then◌else◌, String, str_eq, contains,
}
use docklet.Net.Address.{Ip}

-- `username + "-" + str(clusterid) + "-" + str(cid)`
pub record Name : Type 0 where
  pub username : String
  pub clusterid : ℕ
  pub cid : ℕ

abbrev pub same_name : Name → Name → Bool
same_name x y = str_eq x.username y.username && (x.clusterid == y.clusterid && x.cid == y.cid)

-- setting: what a container may use
pub record Setting : Type 0 where
  pub cpu : ℕ
  pub memory : ℕ
  pub disk : ℕ

-- `ip` is the text "address/cidr".
pub record Container : Type 0 where
  pub containername : Name
  pub ip : Ip × ℕ
  pub host : String
  pub image : String
  pub setting : Setting

pub record PortMapping : Type 0 where
  pub node_name : Name
  pub node_ip : String
  pub node_port : ℕ
  pub host_port : ℕ

pub data Status : Type 0 where
  stopped running error : Status

-- A count that may be taken below zero
pub data ℤ : Type 0 where
  pos negsuc : ℕ → ℤ

abbrev pub up : ℤ → ℤ
up (pos n) = pos (suc n)
up (negsuc zero) = pos 0
up (negsuc (suc n)) = negsuc n

abbrev pub down : ℤ → ℤ
down (pos zero) = negsuc 0
down (pos (suc n)) = pos n
down (negsuc n) = negsuc (suc n)

pub record VCluster : Type 0 where
  pub clusterid : ℕ
  pub clustername : String
  pub ownername : String
  pub status : Status
  pub size : ℤ
  pub nextcid : ℕ
  pub is_warned : Bool
  pub proxy_server_ip : String
  pub proxy_public_ip : String
  pub containers : List Container
  pub port_mapping : List PortMapping

-- VCluster(...)
abbrev pub new_vcluster : ℕ → String → String → ℕ → String → String → List Container → VCluster
new_vcluster clusterid clustername ownername size proxy_server_ip proxy_public_ip containers =
    record {
      clusterid = clusterid;
      clustername = clustername;
      ownername = ownername;
      status = stopped;
      size = pos size;
      nextcid = size;
      is_warned = false;
      proxy_server_ip = proxy_server_ip;
      proxy_public_ip = proxy_public_ip;
      containers = containers;
      port_mapping = [];
    }

-- `filter_by(ownername=username, clustername=clustername)`, for one row
abbrev pub is_named : String → String → VCluster → Bool
is_named clustername username c = str_eq c.ownername username && str_eq c.clustername clustername

-- get_vcluster(clustername, username): the first of the rows
unfoldable pub get_vcluster : String → String → List VCluster → Option VCluster
get_vcluster clustername username [] = none
get_vcluster clustername username (c ∷ l) =
    if is_named clustername username c then some c else get_vcluster clustername username l

-- A change of that row
unfoldable pub change : String → String → (VCluster → VCluster) → List VCluster → List VCluster
change clustername username f [] = []
change clustername username f (c ∷ l) =
    if is_named clustername username c then f c ∷ l else c ∷ change clustername username f l

-- `db.session.delete(vcluster)`
unfoldable pub delete : String → String → List VCluster → List VCluster
delete clustername username [] = []
delete clustername username (c ∷ l) =
    if is_named clustername username c then l else c ∷ delete clustername username l

-- list_clusters(user)
unfoldable pub list_clusters : String → List VCluster → List String
list_clusters user [] = []
list_clusters user (c ∷ l) =
    let rest = list_clusters user l in
    if str_eq c.ownername user then c.clustername ∷ rest else rest

-- is_cluster(clustername, username)
unfoldable pub is_cluster : String → String → List VCluster → Bool
unfolding list_clusters
is_cluster clustername username l = contains str_eq clustername (list_clusters username l)

-- The sums of get_clustersetting(clustername, username, containername, allcontainer); `none` sums over
-- all containers.
unfoldable pub settings : Option Name → List Container → Setting
settings name [] = record { cpu = 0; memory = 0; disk = 0 }
settings name (c ∷ l) =
    let rest = settings name l in
    let counts : Bool = elim name [ none ↦ true | some n ↦ same_name c.containername n ] in
    if counts
    then record {
      cpu = c.setting.cpu + rest.cpu;
      memory = c.setting.memory + rest.memory;
      disk = c.setting.disk + rest.disk;
    }
    else rest

unfoldable pub get_clustersetting : String → String → Option Name → List VCluster → Option Setting
unfolding get_vcluster settings
get_clustersetting clustername username name l = elim (get_vcluster clustername username l) [
  | none ↦ none
  | some c ↦ some (settings name c.containers)
]

abbrev pub is_running : Status → Bool
is_running running = true
is_running stopped = false
is_running error = false

abbrev pub is_stopped : Status → Bool
is_stopped stopped = true
is_stopped running = false
is_stopped error = false

-- The containers that stay when one is deleted
unfoldable pub without : Name → List Container → List Container
without name [] = []
without name (c ∷ l) = if same_name c.containername name then without name l else c ∷ without name l
