-- ===== src/Cluster/Promises.antt =====
-- What the requests of src/master/vclustermgr.py promise together: against the registry, over runs, and
-- while every host answers.
use docklet.Common.{
  ℕ, ◌≡◌, refl, sym, ap, ◌∙◌, subst, Bool, true, false, some, some_inj, inl, inr, Bool-cases, List,
  [], ◌∷◌, String, get_elem?,
}
use docklet.Cluster.Rows.{
  Container, VCluster, running, stopped, is_running, is_stopped, get_vcluster,
}
use docklet.Cluster.Site.{Outside}
use docklet.Cluster.Action.{
  VclusterMgr, Action, Reply, done, fails, throws, is_done, proceed, gets, or_fail, or_throw, pure,
  require, db_commit, ◌>>=◌,
}
use docklet.Cluster.Registry.{
  Shape, Registry, Request, Step, started, halted, failed, idle, start, stop, find, on, in_status,
  names_it,
}
use docklet.Cluster.Quiet.{shape, registry}
use docklet.Cluster.Shapes.{find-get_vcluster}
use docklet.Cluster.Requests.{exec, run}
use docklet.Cluster.Refine.{exec-Step}
use docklet.Cluster.Valid.{IsValid}
use docklet.Cluster.Numbering.{Step-IsValid}
use docklet.Cluster.Runs.{
  Works, Fits, Runs, Runs-try_or, Runs-poke, Runs-at_proxy, get_vcluster-find,
}
use docklet.Cluster.Alive.{Runs-each, Runs-start_one, Runs-stop_one, Runs-set_proxy}
use docklet.Cluster.Life.{save_status, start_cluster, stop_cluster}

module _ {N W : Type 0} (o : Outside N W) where
  -- Every request does to the registry (the rows as cluster numbers, names, statuses, numbers of the next
  -- container and containers, with the next cluster number) what Step allows for it and for
  -- whether it returns [True, ...], whatever the network manager, the hosts and the database answer. A
  -- failed request or an exception leaves the registry as it is, except that a creation may use up a
  -- number, and that deletion, scale in and recovery may fail after they saved. A creation that returns
  -- [True, ...] adds nothing, or, where the name was free, one stopped cluster with the default number of
  -- containers, numbered from 0. A start or a stop that returns [True, ...] found the cluster not running,
  -- or not stopped, and made it so. Deletion takes a cluster away that does not run, scale out adds the
  -- container of the next number, scale in takes the named one away, recovery sets running or error.
  pub exec_refines :
      (q : Request) (m : VclusterMgr N W)
      → Step o.defaultsize q (is_done (exec o q m).0) (registry m) (registry (exec o q m).1)
  exec_refines q m = (exec-Step o (registry m) q).ends m refl

  -- Any sequence of requests, whatever they return, leads from a valid registry to a valid one: the numbers
  -- of clusters differ and are below the next one, no user has two clusters of the same name, each
  -- container bears its cluster's owner and number, and the numbers of the containers of a cluster differ
  -- and are below its next one.
  pub run-IsValid :
      (qs : List Request) (m : VclusterMgr N W)
      → IsValid (registry m)
      → IsValid (registry (run o qs m))
  unfolding run
  run-IsValid [] m h = h
  run-IsValid (q ∷ qs) m h =
      run-IsValid qs (exec o q m).1 (Step-IsValid o.defaultsize (exec_refines q m) h)

-- A request that returns [True, ...]
record Done {N W : Type 0} (x : Action N W (Unit {0})) (r : Registry) : Type 0 where
  well : (m : VclusterMgr N W) → registry m ≡ r → is_done (x m).0 ≡ true

module _ {N W : Type 0} {r : Registry} where
  go_on :
      {A : Type 0} (f : A → Action N W (Unit {0}))
      → ((a : A) → Done (f a) r)
      → (t : Reply A) (m : VclusterMgr N W) → Fits false t
      → registry m ≡ r
      → is_done (proceed f t m).0 ≡ true
  go_on f k (done a) m h g = (k a).well m g
  go_on f k (fails t) m h g = cc
  go_on f k throws m h g = cc

  Done-bind :
      {A : Type 0} {x : Action N W A} {f : A → Action N W (Unit {0})}
      → Runs false x r
      → ((a : A) → Done (f a) r)
      → Done (x >>= f) r
  unfolding ◌>>=◌
  Done-bind {A} {x} {f} h k = record {
    well = λ m g. go_on f k (x m).0 (x m).1 (h.fits m g) (h.stays m g);
  }

  Done-save_status :
      (o : Outside N W)
      → Works o
      → (n u : String) (f : VCluster → VCluster) (c : Shape) → find n u r.clusters ≡ some c
      → Done (save_status o n u f) r
  unfolding save_status ◌>>=◌ gets or_throw pure db_commit require
  Done-save_status o works n u f c there = record {
    well = λ m g.
        let p : (v : VCluster) × (get_vcluster n u m.clusters ≡ some v) =
          get_vcluster-find n u m.clusters c
            (subst (λ (x : Registry). find n u x.clusters ≡ some c) (sym g) there) in
        rw p.1 (rw (works.commits m.world) refl);
  }

find-on :
    (n u : String) (f : Shape → Shape) (l : List Shape) (c : Shape)
    → ((x : Shape) → names_it n u (f x) ≡ names_it n u x)
    → find n u l ≡ some c
    → find n u (on n u f l) ≡ some (f c)
unfolding find on
find-on n u f [] c h e = cc
find-on n u f (x ∷ l) c h e = elim (Bool-cases (names_it n u x)) [
  | inl p ↦ rw p (rw (h x, p) (let q : x ≡ c = some_inj (rw p at e) in rw q refl))
  | inr p ↦ rw (p, p) (find-on n u f l c h (rw p at e))
]

module _ {N W : Type 0} (o : Outside N W) (works : Works o) (n u : String) (m : VclusterMgr N W)
    (v : VCluster) (there : get_vcluster n u m.clusters ≡ some v) where
  known : find n u (registry m).clusters ≡ some (shape v)
  known = find-get_vcluster n u v m.clusters there

  start_cluster-done :
      (k : Container)
      → is_running v.status ≡ false
      → get_elem? v.containers 0 ≡ some k
      → is_done (start_cluster o n u m).0 ≡ true
  unfolding start_cluster ◌>>=◌ gets or_fail pure require
  start_cluster-done k rest first = rw there (
      rw rest (
        (Done-bind (Runs-try_or _ (Runs-set_proxy o works n u (shape v) known v k first)) (λ now.
            Done-bind (Runs-poke o works _ _) (λ a.
              Done-bind (Runs-each o works n u now.containers (Runs-start_one o works n u))
                (λ b. Done-save_status o works n u _ (shape v) known)))).well
          m refl))

  stop_cluster-done : is_stopped v.status ≡ false → is_done (stop_cluster o n u m).0 ≡ true
  unfolding stop_cluster ◌>>=◌ gets or_fail pure require
  stop_cluster-done busy = rw there (
      rw busy (
        (Done-bind (Runs-at_proxy o works v.proxy_server_ip (λ host. Runs-poke o works host _))
            (λ a.
              Done-bind (Runs-each o works n u v.containers (Runs-stop_one o works n u))
                (λ b. Done-save_status o works n u _ (shape v) known))).well
          m refl))

-- What a start and a stop that return [True, ...] have done
module _ (size : ℕ) (n u : String) (c : Shape) where
  start_effect :
      (b : Bool) (r r' : Registry)
      → Step size (start n u) b r r'
      → find n u r.clusters ≡ some c
      → b ≡ true
      → find n u r'.clusters ≡ some (in_status running c)
  start_effect b r r' (failed q r0) e h = cc
  start_effect b r r' (idle r0 k) e h = elim k [ ]
  start_effect b r r' (started n0 u0 c' r0 e' k) e h =
      find-on n u (in_status running) r.clusters c (λ x. refl) e

  stop_effect :
      (b : Bool) (r r' : Registry)
      → Step size (stop n u) b r r'
      → find n u r.clusters ≡ some c
      → b ≡ true
      → find n u r'.clusters ≡ some (in_status stopped c)
  stop_effect b r r' (failed q r0) e h = cc
  stop_effect b r r' (idle r0 k) e h = elim k [ ]
  stop_effect b r r' (halted n0 u0 c' r0 e' k) e h =
      find-on n u (in_status stopped) r.clusters c (λ x. refl) e

module _ {N W : Type 0} (o : Outside N W) (works : Works o) (n u : String)
    (m : VclusterMgr N W) where
  start_runs :
      (v : VCluster) (k : Container)
      → get_vcluster n u m.clusters ≡ some v
      → is_running v.status ≡ false
      → get_elem? v.containers 0 ≡ some k
      → (is_done (exec o (start n u) m).0 ≡ true)
        × (find n u (registry (exec o (start n u) m).1).clusters
            ≡ some (in_status running (shape v)))
  unfolding exec
  start_runs v k there rest first =
      let d : is_done (exec o (start n u) m).0 ≡ true =
        start_cluster-done o works n u m v there k rest first in
      (
        d,
        start_effect o.defaultsize n u (shape v) (is_done (exec o (start n u) m).0) (registry m)
            (registry (exec o (start n u) m).1) (exec_refines o (start n u) m)
            (find-get_vcluster n u v m.clusters there) d,
      )

  stop_stops :
      (c : Shape)
      → find n u (registry m).clusters ≡ some c
      → is_stopped c.status ≡ false
      → (is_done (exec o (stop n u) m).0 ≡ true)
        × (find n u (registry (exec o (stop n u) m).1).clusters ≡ some (in_status stopped c))
  unfolding exec
  stop_stops c there busy =
      let p : (v : VCluster) × (get_vcluster n u m.clusters ≡ some v) =
        get_vcluster-find n u m.clusters c there in
      let same : shape p.0 ≡ c =
        some_inj (sym (find-get_vcluster n u p.0 m.clusters p.1) ∙ there) in
      let d : is_done (exec o (stop n u) m).0 ≡ true =
        stop_cluster-done o works n u m p.0 p.1
          (ap (λ (x : Shape). is_stopped x.status) same ∙ busy) in
      (
        d,
        stop_effect o.defaultsize n u c (is_done (exec o (stop n u) m).0) (registry m)
            (registry (exec o (stop n u) m).1) (exec_refines o (stop n u) m) there d,
      )

-- While every host has a client, no call raises an exception (it may answer [False, ...]) and every
-- commit succeeds, a cluster that is there, does not run and has a container is started with [True, ...]
-- and then stands as running; a stop right after it returns [True, ...] and leaves it as stopped. Its
-- number, its names, its next container number and its containers (their names, addresses, hosts, images
-- and settings) are as before.
pub stop-start :
    {N W : Type 0} (o : Outside N W) (n u : String) (m : VclusterMgr N W) (v : VCluster)
    (k : Container)
    → Works o
    → get_vcluster n u m.clusters ≡ some v
    → is_running v.status ≡ false
    → get_elem? v.containers 0 ≡ some k
    → let m1 = (exec o (start n u) m).1 in
      let m2 = (exec o (stop n u) m1).1 in
      (is_done (exec o (start n u) m).0 ≡ true)
      × (find n u (registry m1).clusters ≡ some (in_status running (shape v)))
      × (is_done (exec o (stop n u) m1).0 ≡ true)
      × (find n u (registry m2).clusters ≡ some (in_status stopped (shape v)))
stop-start o n u m v k works there rest first =
    let a : (is_done (exec o (start n u) m).0 ≡ true)
        × (find n u (registry (exec o (start n u) m).1).clusters
            ≡ some (in_status running (shape v))) =
      start_runs o works n u m v k there rest first in
    let b : (is_done (exec o (stop n u) (exec o (start n u) m).1).0 ≡ true)
        × (find n u (registry (exec o (stop n u) (exec o (start n u) m).1).1).clusters
            ≡ some (in_status stopped (shape v))) =
      stop_stops o works n u (exec o (start n u) m).1 (in_status running (shape v)) a.1 refl in
    (a.0, a.1, b.0, b.1)
