-- ===== src/Cluster/Alive.antt =====
-- start_cluster, stop_cluster and delete_cluster of src/master/vclustermgr.py while every host answers.
use docklet.Common.{
  ◌≡◌, ◌≢◌, refl, Bool, true, false, not, Option, none, some, List, [], ◌∷◌, String, str_eq,
  get_elem?,
}
use docklet.Cluster.Rows.{Name, Container, PortMapping, VCluster, get_vcluster, change, same_name}
use docklet.Cluster.Site.{Answer, yes, no, raised, Outside, Call}
use docklet.Cluster.Action.{Action, ignore, db_commit, gets, or_throw, worker, call, ◌>>=◌, ◌>>◌}
use docklet.Cluster.Registry.{Shape, Registry, find}
use docklet.Cluster.Shapes.{map-change_same}
use docklet.Cluster.Runs.{
  Works, Runs, Runs-bind, Runs-then, Runs-pure, Runs-gets, Runs-if, Runs-require_any, Runs-demand,
  Runs-unless, Runs-ignore, Runs-or_fail, Runs-fail, Runs-poke, Runs-worker, Runs-at_proxy,
  Runs-db_commit, Runs-answer, Runs-lookup, Runs-look, Runs-or_throw,
}
use docklet.Cluster.Proxy.{
  is_same_ip, update_proxy_ip_andurl, update_baseurls, update_cluster_baseurl, check_public_ip,
  checked, set_proxy,
}
use docklet.Cluster.Mappings.{
  heard, release, release_mappings, forget_mappings, delete_all_port_mapping, with_mappings,
}
use docklet.Cluster.Life.{each, start_one, stop_one, delete_one}

module _ {N W : Type 0} (o : Outside N W) (works : Works o) {r : Registry} where
  -- A host that has a client is found to have one.
  Runs-alive :
      {e : Bool} {B : Type 0} (f : Bool → Action N W B) (host : String)
      → Runs e (f true) r
      → Runs e (gets (λ m. o.site.connected host m.world) >>= f) r
  unfolding ◌>>=◌ gets
  Runs-alive f host k = record {
    fits = λ m g. rw (works.connected host m.world) (k.fits m g);
    stays = λ m g. rw (works.connected host m.world) (k.stays m g);
  }

module _ {N W : Type 0} (o : Outside N W) (works : Works o) (n u : String) {r : Registry} where
  Runs-update_proxy_ip_andurl : (host : String) → Runs true (update_proxy_ip_andurl o n u host) r
  unfolding update_proxy_ip_andurl
  Runs-update_proxy_ip_andurl host = Runs-bind (Runs-gets _) (λ c.
      Runs-bind (Runs-or_fail c _) (λ v. Runs-bind (Runs-gets _) (λ public.
        Runs-bind (Runs-db_commit o works _ (λ rows. map-change_same n u _ rows (λ x. refl)))
          (λ good. Runs-require_any good _))))

  Runs-update_baseurls : (l : List Container) → Runs true (update_baseurls o l) r
  unfolding update_baseurls
  Runs-update_baseurls [] = Runs-pure tt
  Runs-update_baseurls (c ∷ l) = Runs-bind (Runs-gets _) (λ alive.
      Runs-then
        (Runs-unless (not alive) (Runs-then (Runs-poke o works _ _) (Runs-poke o works _ _)))
        (Runs-update_baseurls l))

  Runs-update_cluster_baseurl : Runs true (update_cluster_baseurl o n u) r
  unfolding update_cluster_baseurl
  Runs-update_cluster_baseurl =
      Runs-bind (Runs-gets _)
        (λ c. Runs-bind (Runs-or_fail c _) (λ v. Runs-update_baseurls v.containers))

  Runs-heard : {e : Bool} (a : Answer) → a ≢ raised → Runs e (heard o a) r
  Runs-heard (yes k) h = Runs-pure none
  Runs-heard (no t) h = Runs-pure (some t)
  Runs-heard raised h = absurd (h refl)

  Runs-release : (v : VCluster) (item : PortMapping) → Runs true (release o v item) r
  Runs-release v item =
      Runs-at_proxy o works v.proxy_server_ip (λ host. Runs-answer o works host _ Runs-heard)

  Runs-release_mappings :
      (v : VCluster) (x : Name) (l : List PortMapping) → Runs true (release_mappings o v x l) r
  unfolding release_mappings
  Runs-release_mappings v x [] = Runs-pure _
  Runs-release_mappings v x (item ∷ l) =
      Runs-if (same_name item.node_name x)
        (Runs-bind (Runs-release v item)
          (λ a. Runs-bind (Runs-release_mappings v x l) (λ rest. Runs-pure _)))
        (Runs-bind (Runs-release_mappings v x l) (λ rest. Runs-pure _))

  Runs-rewrite :
      (l : List PortMapping) → Runs true (ignore (db_commit o (change n u (with_mappings l)))) r
  Runs-rewrite l =
      Runs-ignore (Runs-db_commit o works _ (λ rows. map-change_same n u _ rows (λ x. refl)))

  Runs-forget_mappings :
      (l : List PortMapping) (b : Bool) (t : Option String)
      → Runs true (forget_mappings o u n (l, b, t)) r
  unfolding forget_mappings
  Runs-forget_mappings l false t = Runs-pure tt
  Runs-forget_mappings l true none = Runs-rewrite l
  Runs-forget_mappings l true (some t) = Runs-then (Runs-rewrite l) (Runs-fail _)

  Runs-delete_all_port_mapping : (x : Name) → Runs true (delete_all_port_mapping o u n x) r
  unfolding delete_all_port_mapping
  Runs-delete_all_port_mapping x = Runs-bind (Runs-gets _) (λ c. Runs-bind (Runs-or_fail c _) (λ v.
      Runs-bind (Runs-release_mappings v x v.port_mapping)
        (λ (l, b, t). Runs-forget_mappings l b t)))

  pub Runs-each :
      {f : Container → Action N W (Unit {0})} (l : List Container)
      → ((c : Container) → Runs false (f c) r)
      → Runs false (each o f l) r
  unfolding each
  Runs-each [] h = Runs-pure tt
  Runs-each (c ∷ l) h = Runs-then (h c) (Runs-each l h)

  Runs-visit : (host : String) (c : Call) → Runs false (worker o host >> ignore (call o host c)) r
  Runs-visit host c = Runs-then (Runs-worker o works host) (Runs-poke o works host c)

  pub Runs-start_one : (c : Container) → Runs false (start_one o u c) r
  Runs-start_one c = Runs-then (Runs-poke o works _ _) (
      Runs-then (Runs-worker o works _) (
        Runs-then (Runs-poke o works _ _)
          (Runs-then (Runs-poke o works _ _) (Runs-poke o works _ _))))

  pub Runs-stop_one : (c : Container) → Runs false (stop_one o n u c) r
  Runs-stop_one c =
      Runs-then (Runs-ignore (Runs-delete_all_port_mapping c.containername)) (Runs-visit c.host _)

  pub Runs-delete_one : (c : Container) → Runs false (delete_one o c) r
  Runs-delete_one c = Runs-visit c.host _

  module _ (c : Shape) (there : find n u r.clusters ≡ some c) where
    Runs-check_public_ip : Runs false (check_public_ip o n u) r
    unfolding check_public_ip
    Runs-check_public_ip = Runs-lookup n u c there (λ v. Runs-bind (Runs-gets _) (λ public.
        Runs-if (is_same_ip v.proxy_public_ip public) (Runs-pure true) (
          Runs-then
            (Runs-then (Runs-ignore (Runs-update_proxy_ip_andurl v.proxy_server_ip))
              (Runs-ignore Runs-update_cluster_baseurl))
            (Runs-pure false))))

    Runs-reread :
        Runs false (gets {N = N} {W = W} (λ m. get_vcluster n u m.clusters) >>= or_throw) r
    Runs-reread = Runs-look n u _ c there (λ v. Runs-or_throw (some v) v refl)

    Runs-checked : (v : VCluster) → Runs false (checked o n u v) r
    unfolding checked
    Runs-checked v = Runs-bind Runs-check_public_ip (λ same. Runs-if same (Runs-pure v) Runs-reread)

    pub Runs-set_proxy :
        (v : VCluster) (k : Container)
        → get_elem? v.containers 0 ≡ some k
        → Runs false (set_proxy o false n u v) r
    unfolding set_proxy
    Runs-set_proxy v k first = Runs-bind (Runs-or_throw _ k first) (λ target.
        Runs-alive o works _ v.proxy_server_ip (
          Runs-if o.distributedgw
            (Runs-bind (Runs-checked v) (λ now.
              Runs-then (Runs-then (Runs-demand true refl) (Runs-poke o works _ _))
                (Runs-pure now)))
            (Runs-bind
              (Runs-if (str_eq v.proxy_server_ip o.addr) (Runs-pure v) (
                Runs-then (Runs-ignore (Runs-update_proxy_ip_andurl o.addr)) (
                  Runs-bind Runs-reread (λ again.
                    Runs-then (Runs-ignore Runs-update_cluster_baseurl) (Runs-pure again)))))
              (λ moved.
                Runs-bind (Runs-checked moved)
                  (λ now. Runs-then (Runs-poke o works _ _) (Runs-pure now))))))
