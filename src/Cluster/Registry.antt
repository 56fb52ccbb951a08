-- ===== src/Cluster/Registry.antt =====
-- What the rows of class VclusterMgr of src/master/vclustermgr.py promise: which cluster names are in
-- use, in which status, and how clusters and containers are numbered.
use docklet.Common.{
  ℕ, ◌+◌, ◌≡◌, Bool, true, false, Option, none, some, List, [], ◌∷◌, ◌++◌, if◌then◌else◌, String,
  str_eq, ◌&&◌, zero, suc, map,
}
use docklet.Cluster.Rows.{
  Name, Status, stopped, running, is_running, is_stopped, same_name, Setting, Container, without,
}

-- A cluster without its size, its time of creation, its proxies and its mapped ports. `names` are the
-- names of its containers.
pub record Shape : Type 0 where
  pub clusterid : ℕ
  pub clustername : String
  pub ownername : String
  pub status : Status
  pub nextcid : ℕ
  pub names : List Name
  pub containers : List Container

pub record Registry : Type 0 where
  pub clusters : List Shape
  pub nextid : ℕ

abbrev pub names_it : String → String → Shape → Bool
names_it clustername username c = str_eq c.ownername username && str_eq c.clustername clustername

unfoldable pub find : String → String → List Shape → Option Shape
find clustername username [] = none
find clustername username (c ∷ l) =
    if names_it clustername username c then some c else find clustername username l

unfoldable pub on : String → String → (Shape → Shape) → List Shape → List Shape
on clustername username f [] = []
on clustername username f (c ∷ l) =
    if names_it clustername username c then f c ∷ l else c ∷ on clustername username f l

unfoldable pub remove : String → String → List Shape → List Shape
remove clustername username [] = []
remove clustername username (c ∷ l) =
    if names_it clustername username c then l else c ∷ remove clustername username l

-- The names k, ..., k + n - 1 of a cluster's first containers
unfoldable pub numbered : String → ℕ → ℕ → ℕ → List Name
numbered username clusterid i zero = []
numbered username clusterid i (suc k) =
    record { username = username; clusterid = clusterid; cid = i }
    ∷ numbered username clusterid (i + 1) k

abbrev pub new_shape : ℕ → String → String → ℕ → List Container → Shape
new_shape clusterid clustername username size containers = record {
  clusterid = clusterid;
  clustername = clustername;
  ownername = username;
  status = stopped;
  nextcid = size;
  names = numbered username clusterid 0 size;
  containers = containers;
}

abbrev pub next_name : String → Shape → Name
next_name username c = record { username = username; clusterid = c.clusterid; cid = c.nextcid }

abbrev pub in_status : Status → Shape → Shape
in_status s c = record c { status = s }

abbrev pub grown : Container → Shape → Shape
grown con c = record c {
  nextcid = c.nextcid + 1;
  names = c.names ++ con.containername ∷ [];
  containers = c.containers ++ con ∷ [];
}

unfoldable pub except : Name → List Name → List Name
except name [] = []
except name (x ∷ l) = if same_name x name then except name l else x ∷ except name l

abbrev pub shrunk : Name → Shape → Shape
shrunk name c = record c { names = except name c.names; containers = without name c.containers }

-- What a user asks for a new container: an image and its size, the quota of containers, a setting.
pub record Form : Type 0 where
  pub image : String
  pub image_size : ℕ
  pub vnode : ℕ
  pub setting : Setting

-- A request, by the cluster's name and its owner's
pub data Request : Type 0 where
  create grow : String → String → Form → Request
  start stop destroy mount detach recover : String → String → Request
  map_port : String → String → Name → String → ℕ → ℕ → Request
  unmap_port : String → String → Name → ℕ → Request
  shrink : String → String → Name → Request

-- Requests that return [True, ...] also where nothing could be saved
pub data IsLenient : Request → Type 0 where
  delete_is : (n u : String) → IsLenient (destroy n u)
  mount_is : (n u : String) → IsLenient (mount n u)
  detach_is : (n u : String) → IsLenient (detach n u)
  map_is :
      (n u : String) (x : Name) (ip : String) (p quota : ℕ) → IsLenient (map_port n u x ip p quota)
  unmap_is : (n u : String) (x : Name) (p : ℕ) → IsLenient (unmap_port n u x p)
  grow_is : (n u : String) (f : Form) → IsLenient (grow n u f)
  shrink_is : (n u : String) (x : Name) → IsLenient (shrink n u x)
  recover_is : (n u : String) → IsLenient (recover n u)

abbrev pub with_clusters : List Shape → Registry → Registry
with_clusters l r = record r { clusters = l }

abbrev pub id_taken : Registry → Registry
id_taken r = record r { nextid = r.nextid + 1 }

-- What a request may do, by whether it returns [True, ...]; clusters are created with `size` containers.
pub data Step (size : ℕ) : Request → Bool → Registry → Registry → Type 0 where
  failed : (q : Request) (r : Registry) → Step size q false r r
  idle : {q : Request} (r : Registry) → IsLenient q → Step size q true r r
  wasted :
      (n u : String) (f : Form) (b : Bool) (r : Registry)
      → Step size (create n u f) b r (id_taken r)
  created :
      (n u : String) (f : Form) (l : List Container) (r : Registry)
      → find n u r.clusters ≡ none
      → map (λ (k : Container). k.containername) l ≡ numbered u r.nextid 0 size
      → Step size (create n u f) true r record {
        clusters = r.clusters ++ new_shape r.nextid n u size l ∷ [];
        nextid = r.nextid + 1;
      }
  started :
      (n u : String) (c : Shape) (r : Registry)
      → find n u r.clusters ≡ some c
      → is_running c.status ≡ false
      → Step size (start n u) true r (with_clusters (on n u (in_status running) r.clusters) r)
  halted :
      (n u : String) (c : Shape) (r : Registry)
      → find n u r.clusters ≡ some c
      → is_stopped c.status ≡ false
      → Step size (stop n u) true r (with_clusters (on n u (in_status stopped) r.clusters) r)
  deleted :
      (n u : String) (b : Bool) (c : Shape) (r : Registry)
      → find n u r.clusters ≡ some c
      → is_running c.status ≡ false
      → Step size (destroy n u) b r (with_clusters (remove n u r.clusters) r)
  enlarged :
      (n u : String) (f : Form) (k : Container) (c : Shape) (r : Registry)
      → find n u r.clusters ≡ some c
      → k.containername ≡ next_name u c
      → Step size (grow n u f) true r (with_clusters (on n u (grown k) r.clusters) r)
  reduced :
      (n u : String) (x : Name) (b : Bool) (c : Shape) (r : Registry)
      → find n u r.clusters ≡ some c
      → Step size (shrink n u x) b r (with_clusters (on n u (shrunk x) r.clusters) r)
  settled :
      (n u : String) (b : Bool) (s : Status) (c : Shape) (r : Registry)
      → find n u r.clusters ≡ some c
      → is_stopped s ≡ false
      → Step size (recover n u) b r (with_clusters (on n u (in_status s) r.clusters) r)
