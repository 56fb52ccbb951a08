-- ===== src/Cluster/Quiet/Proxies.antt =====
-- The proxy of a cluster and its port mappings in src/master/vclustermgr.py, against the registry.
use docklet.Common.{
  ℕ, refl, Bool, true, false, not, Option, none, some, List, [], ◌∷◌, String, str_eq, get_elem?,
}
use docklet.Cluster.Rows.{Name, Container, PortMapping, VCluster, get_vcluster, same_name, change}
use docklet.Cluster.Site.{Answer, yes, no, raised, Call, Outside}
use docklet.Cluster.Action.{Action, gets, or_throw, ignore, ◌>>=◌, db_commit}
use docklet.Cluster.Quiet.{
  Quiet, Quiet-pure, Quiet-fail, Quiet-throw, Quiet-require, Quiet-demand, Quiet-send, Quiet-if,
  Quiet-or_fail, Quiet-or_throw, Quiet-ignore, Quiet-try_or, Quiet-gets, Quiet-bind, Quiet-then,
  Quiet-unless, Quiet-call, Quiet-poke, Quiet-at_proxy, Quiet-db_commit,
}
use docklet.Cluster.Shapes.{map-change_same}
use docklet.Cluster.Proxy.{
  is_same_ip, update_proxy_ip_andurl, update_baseurls, update_cluster_baseurl, check_public_ip,
  checked, route_at, set_proxy,
}
use docklet.Cluster.Mappings.{
  add_port_mapping, recover_mappings, recover_port_mapping, heard, release, release_mappings,
  forget_mappings, delete_all_port_mapping, delete_port_mapping, with_mappings, find_mapping,
  report,
}

module _ {N W : Type 0} (o : Outside N W) (n u : String) where
  -- The row that a method looks up, as it goes on with it
  pub Quiet-lookup :
      {A B : Type 0} {k : Option VCluster → Action N W A} {f : A → Action N W B}
      → ((c : Option VCluster) → Quiet (k c))
      → ((a : A) → Quiet (f a))
      → Quiet (gets (λ m. get_vcluster n u m.clusters) >>= λ c. k c >>= f)
  unfolding get_vcluster
  Quiet-lookup h j = Quiet-bind (Quiet-gets _) (λ c. Quiet-bind (h c) j)

  pub Quiet-update_proxy_ip_andurl : (host : String) → Quiet (update_proxy_ip_andurl o n u host)
  unfolding update_proxy_ip_andurl
  Quiet-update_proxy_ip_andurl host =
      Quiet-lookup (λ c. Quiet-or_fail c _)
        (λ v. Quiet-bind (Quiet-gets _) (λ public.
          Quiet-bind (Quiet-db_commit o _ (λ rows. map-change_same n u _ rows (λ c. refl)))
            (λ good. Quiet-require good _)))

  Quiet-update_baseurls : (l : List Container) → Quiet (update_baseurls o l)
  unfolding update_baseurls
  Quiet-update_baseurls [] = Quiet-pure tt
  Quiet-update_baseurls (c ∷ l) = Quiet-bind (Quiet-gets _) (λ alive.
      Quiet-then (Quiet-unless (not alive) (Quiet-then (Quiet-poke o _ _) (Quiet-poke o _ _)))
        (Quiet-update_baseurls l))

  Quiet-update_cluster_baseurl : Quiet (update_cluster_baseurl o n u)
  unfolding update_cluster_baseurl
  Quiet-update_cluster_baseurl =
      Quiet-lookup (λ c. Quiet-or_fail c _) (λ v. Quiet-update_baseurls v.containers)

  Quiet-check_public_ip : Quiet (check_public_ip o n u)
  unfolding check_public_ip
  Quiet-check_public_ip = Quiet-lookup Quiet-or_throw (λ v. Quiet-bind (Quiet-gets _) (λ public.
      Quiet-if (is_same_ip v.proxy_public_ip public) (Quiet-pure _) (
        Quiet-then
          (Quiet-then (Quiet-ignore (Quiet-update_proxy_ip_andurl v.proxy_server_ip))
            (Quiet-ignore Quiet-update_cluster_baseurl))
          (Quiet-pure _))))

  Quiet-reread : Quiet (gets {N = N} {W = W} (λ m. get_vcluster n u m.clusters) >>= or_throw)
  Quiet-reread = Quiet-bind (Quiet-gets _) Quiet-or_throw

  Quiet-checked : (v : VCluster) → Quiet (checked o n u v)
  unfolding checked
  Quiet-checked v =
      Quiet-bind Quiet-check_public_ip (λ same. Quiet-if same (Quiet-pure _) Quiet-reread)

  Quiet-route_at : (r alive : Bool) (host : String) (c : Call) → Quiet (route_at o r alive host c)
  Quiet-route_at false alive host c = Quiet-then (Quiet-demand alive) (Quiet-poke o host c)
  Quiet-route_at true alive host c =
      Quiet-try_or _ (Quiet-if alive (Quiet-poke o host c) (Quiet-pure _))

  pub Quiet-set_proxy : (r : Bool) (v : VCluster) → Quiet (set_proxy o r n u v)
  unfolding set_proxy
  Quiet-set_proxy r v = Quiet-bind (Quiet-or_throw (get_elem? v.containers 0)) (λ target.
      Quiet-bind (Quiet-gets _) (λ alive.
        Quiet-if o.distributedgw
          (Quiet-bind (Quiet-checked v)
            (λ now. Quiet-then (Quiet-route_at r alive _ _) (Quiet-pure _)))
          (Quiet-bind
            (Quiet-if (str_eq v.proxy_server_ip o.addr) (Quiet-pure _) (
              Quiet-then (Quiet-ignore (Quiet-update_proxy_ip_andurl o.addr)) (
                Quiet-bind Quiet-reread (λ again.
                  Quiet-then (Quiet-ignore Quiet-update_cluster_baseurl) (Quiet-pure _)))))
            (λ moved.
              Quiet-bind (Quiet-checked moved)
                (λ now. Quiet-then (Quiet-poke o _ _) (Quiet-pure _))))))

  Quiet-heard : (a : Answer) → Quiet (heard o a)
  Quiet-heard (yes k) = Quiet-pure none
  Quiet-heard (no e) = Quiet-pure (some e)
  Quiet-heard raised = Quiet-throw

  Quiet-report : (r : Option String) → Quiet (report o r)
  Quiet-report none = Quiet-pure tt
  Quiet-report (some e) = Quiet-fail _

  Quiet-release : (v : VCluster) (item : PortMapping) → Quiet (release o v item)
  Quiet-release v item =
      Quiet-at_proxy o v.proxy_server_ip (λ host. Quiet-bind (Quiet-send o host _) Quiet-heard)

  Quiet-release_mappings :
      (v : VCluster) (x : Name) (l : List PortMapping) → Quiet (release_mappings o v x l)
  unfolding release_mappings
  Quiet-release_mappings v x [] = Quiet-pure _
  Quiet-release_mappings v x (item ∷ l) =
      Quiet-if (same_name item.node_name x)
        (Quiet-bind (Quiet-release v item)
          (λ r. Quiet-bind (Quiet-release_mappings v x l) (λ rest. Quiet-pure _)))
        (Quiet-bind (Quiet-release_mappings v x l) (λ rest. Quiet-pure _))

  Quiet-rewrite :
      (l : List PortMapping) → Quiet (ignore (db_commit o (change n u (with_mappings l))))
  Quiet-rewrite l =
      Quiet-ignore (Quiet-db_commit o _ (λ rows. map-change_same n u _ rows (λ c. refl)))

  Quiet-forget_mappings :
      (l : List PortMapping) (b : Bool) (e : Option String)
      → Quiet (forget_mappings o u n (l, b, e))
  unfolding forget_mappings
  Quiet-forget_mappings l false e = Quiet-pure tt
  Quiet-forget_mappings l true none = Quiet-rewrite l
  Quiet-forget_mappings l true (some e) = Quiet-then (Quiet-rewrite l) (Quiet-fail _)

  pub Quiet-delete_all_port_mapping : (x : Name) → Quiet (delete_all_port_mapping o u n x)
  unfolding delete_all_port_mapping
  Quiet-delete_all_port_mapping x =
      Quiet-lookup (λ c. Quiet-or_fail c _)
        (λ v.
          Quiet-bind (Quiet-release_mappings v x v.port_mapping)
            (λ (l, b, e). Quiet-forget_mappings l b e))

  pub Quiet-delete_port_mapping : (x : Name) (p : ℕ) → Quiet (delete_port_mapping o u n x p)
  unfolding delete_port_mapping
  Quiet-delete_port_mapping x p =
      Quiet-lookup (λ c. Quiet-or_fail c _)
        (λ v. Quiet-bind (Quiet-or_fail (find_mapping x p v.port_mapping) _) (λ item.
          Quiet-bind (Quiet-release v item) (λ r. Quiet-then (Quiet-rewrite _) (Quiet-report r))))

  pub Quiet-add_port_mapping :
      (x : Name) (ip : String) (p quota : ℕ) → Quiet (add_port_mapping o u n x ip p quota)
  unfolding add_port_mapping
  Quiet-add_port_mapping x ip p quota = Quiet-bind (Quiet-gets _) (λ count.
      Quiet-then (Quiet-require _ _) (
        Quiet-lookup Quiet-or_throw (λ v. Quiet-then (Quiet-require _ _) (
          Quiet-bind (Quiet-at_proxy o v.proxy_server_ip (λ host. Quiet-call o host _)) (λ k.
            Quiet-ignore (Quiet-db_commit o _ (λ rows. map-change_same n u _ rows (λ c. refl))))))))

  Quiet-recover_mappings : (v : VCluster) (l : List PortMapping) → Quiet (recover_mappings o v l)
  unfolding recover_mappings
  Quiet-recover_mappings v [] = Quiet-pure tt
  Quiet-recover_mappings v (item ∷ l) =
      Quiet-then (Quiet-at_proxy o v.proxy_server_ip (λ host. Quiet-call o host _))
        (Quiet-recover_mappings v l)

  pub Quiet-recover_port_mapping : Quiet (recover_port_mapping o u n)
  unfolding recover_port_mapping
  Quiet-recover_port_mapping =
      Quiet-lookup Quiet-or_throw (λ v. Quiet-recover_mappings v v.port_mapping)
