-- ===== src/Cluster/Quiet/Hosts.antt =====
-- What the methods of src/master/vclustermgr.py do at hosts before they write rows, against the registry.
use docklet.Common.{
  ℕ, zero, suc, ◌+◌, ◌≡◌, refl, Bool, true, false, not, Option, none, some, List, [], ◌∷◌, map,
  String, get_elem?,
}
use docklet.Net.Address.{Ip}
use docklet.Cluster.Rows.{Name, Setting, Container, VCluster, is_running, is_stopped, same_name}
use docklet.Cluster.Site.{Answer, yes, no, raised, Call, Outside}
use docklet.Cluster.Action.{Action, ignore, worker, call, ◌>>◌}
use docklet.Cluster.Registry.{numbered}
use docklet.Cluster.Quiet.{
  Gives, Quiet, quiet, Gives-pure, Gives-bind, Quiet-pure, Quiet-fail, Quiet-throw, Quiet-or_fail,
  Quiet-or_throw, Quiet-ignore, Quiet-try_or, Quiet-gets, Quiet-on_net, Quiet-require, Quiet-client,
  Quiet-send, Quiet-bind, Quiet-then, Quiet-unless, Quiet-call, Quiet-poke, Quiet-worker,
  Gives-throw,
}
use docklet.Cluster.Quiet.Proxies.{
  Quiet-lookup, Quiet-set_proxy, Quiet-delete_all_port_mapping, Quiet-recover_port_mapping,
}
use docklet.Cluster.Create.{
  pick_worker, enter, ensure_user, open_gateway, proxy_ips, created, make_container,
  make_containers, join_running,
}
use docklet.Cluster.Life.{
  each, start_one, stop_one, delete_one, delete_named, detach_cluster, mount_cluster, recover_one,
  recover_cluster, forget_user,
}

module _ {N W : Type 0} (o : Outside N W) where
  pub Quiet-each :
      {f : Container → Action N W (Unit {0})} (l : List Container)
      → ((c : Container) → Quiet (f c))
      → Quiet (each o f l)
  unfolding each
  Quiet-each [] h = Quiet-pure tt
  Quiet-each (c ∷ l) h = Quiet-then (h c) (Quiet-each l h)

  -- A call of a container's worker, if the host has one
  Quiet-visit : (host : String) (c : Call) → Quiet (worker o host >> ignore (call o host c))
  Quiet-visit host c = Quiet-then (Quiet-worker o host) (Quiet-poke o host c)

  pub Quiet-start_one : (u : String) (c : Container) → Quiet (start_one o u c)
  Quiet-start_one u c = Quiet-then (Quiet-poke o _ _) (
      Quiet-then (Quiet-worker o _)
        (Quiet-then (Quiet-poke o _ _) (Quiet-then (Quiet-poke o _ _) (Quiet-poke o _ _))))

  pub Quiet-stop_one : (n u : String) (c : Container) → Quiet (stop_one o n u c)
  Quiet-stop_one n u c =
      Quiet-then (Quiet-ignore (Quiet-delete_all_port_mapping o n u c.containername))
        (Quiet-visit c.host _)

  pub Quiet-delete_one : (c : Container) → Quiet (delete_one o c)
  Quiet-delete_one c = Quiet-visit c.host _

  pub Quiet-delete_named : (u : String) (x : Name) (c : Container) → Quiet (delete_named o u x c)
  Quiet-delete_named u x c =
      Quiet-unless (not (same_name c.containername x))
        (Quiet-then (Quiet-delete_one c) (Quiet-ignore (Quiet-on_net _)))

  Quiet-recover_one : (u : String) (c : Container) → Quiet (recover_one o u c)
  Quiet-recover_one u c = Quiet-then (Quiet-poke o _ _) (
      Quiet-then (Quiet-worker o _)
        (Quiet-try_or _ (Quiet-then (Quiet-poke o _ _) (Quiet-poke o _ _))))

  pub Quiet-recover_cluster : (n u : String) → Quiet (recover_cluster o n u)
  unfolding recover_cluster
  Quiet-recover_cluster n u =
      Quiet-lookup o n u (λ c. Quiet-or_fail c _)
        (λ info. Quiet-unless (is_stopped info.status) (
          Quiet-bind (Quiet-try_or _ (Quiet-set_proxy o n u true info)) (λ v.
            Quiet-then (Quiet-poke o _ _) (
              Quiet-then (Quiet-each v.containers (Quiet-recover_one u))
                (Quiet-recover_port_mapping o n u)))))

  pub Quiet-detach_cluster : (n u : String) → Quiet (detach_cluster o n u)
  unfolding detach_cluster
  Quiet-detach_cluster n u =
      Quiet-lookup o n u (λ c. Quiet-or_fail c _)
        (λ info.
          Quiet-then (Quiet-require _ _) (Quiet-each info.containers (λ c. Quiet-visit c.host _)))

  pub Quiet-mount_cluster : (n u : String) → Quiet (mount_cluster o n u)
  unfolding mount_cluster
  Quiet-mount_cluster n u =
      Quiet-lookup o n u (λ c. Quiet-or_fail c _)
        (λ info. Quiet-each info.containers (λ c. Quiet-visit c.host _))

  pub Quiet-pick_worker : (l : List String) → Quiet (pick_worker o l)
  unfolding pick_worker
  Quiet-pick_worker l = Quiet-bind (quiet (λ m. refl)) (λ i. Quiet-or_throw (get_elem? l i))

  Quiet-enter :
      (u : String) (vnode : ℕ) (known : Bool) (g : Option String) → Quiet (enter o u vnode known g)
  unfolding enter
  Quiet-enter u vnode false g =
      Quiet-then (Quiet-ignore (Quiet-on_net _))
        (Quiet-unless o.distributedgw (Quiet-then (Quiet-call o _ _) (Quiet-pure tt)))
  Quiet-enter u vnode true none = Quiet-poke o _ _
  Quiet-enter u vnode true (some host) = Quiet-pure tt

  pub Quiet-ensure_user : (u : String) (vnode : ℕ) → Quiet (ensure_user o u vnode)
  unfolding ensure_user
  Quiet-ensure_user u vnode =
      Quiet-bind (Quiet-gets _)
        (λ known. Quiet-bind (Quiet-gets _) (λ gateway. Quiet-enter u vnode known gateway))

  Quiet-open_gateway : (u host : String) (g : Option String) → Quiet (open_gateway o u host g)
  unfolding open_gateway
  Quiet-open_gateway u host none =
      Quiet-unless (not o.distributedgw) (Quiet-then (Quiet-call o _ _) (Quiet-pure tt))
  Quiet-open_gateway u host (some g) = Quiet-pure tt

  Quiet-proxy_ips : (u host : String) (i : ℕ) (p : String × String) → Quiet (proxy_ips o u host i p)
  unfolding proxy_ips
  Quiet-proxy_ips u host zero p = Quiet-bind (Quiet-gets _) (λ gateway.
      Quiet-then (Quiet-open_gateway u host gateway) (
        Quiet-bind (Quiet-gets _) (λ found. Quiet-bind (Quiet-or_throw found) (λ ip.
          Quiet-bind (Quiet-gets _)
            (λ public. Quiet-bind (Quiet-or_fail public _) (λ pip. Quiet-pure _))))))
  Quiet-proxy_ips u host (suc i) p = Quiet-pure p

  Quiet-created : (u : String) (ip : Ip × ℕ) (a : Answer) → Quiet (created o u ip a)
  unfolding created
  Quiet-created u ip (yes k) = Quiet-pure tt
  Quiet-created u ip (no e) = Quiet-then (Quiet-ignore (Quiet-on_net _)) (Quiet-fail _)
  Quiet-created u ip raised = Quiet-throw

  -- The container that is made has the name that was asked for.
  pub Gives-make_container :
      (host : String) (x : Name) (ip : Ip × ℕ) (image : String) (s : Setting)
      → Gives (λ c. c.containername ≡ x) (make_container o host x ip image s)
  unfolding make_container
  Gives-make_container host x ip image s = Gives-bind (Quiet-client o host) (λ a p.
      Gives-bind (Quiet-send o host _)
        (λ answer q. Gives-bind (Quiet-created x.username ip answer) (λ b r. Gives-pure _ refl)))

  -- The containers of a new cluster are numbered one after the other.
  pub Gives-make_containers :
      (workers : List String) (u : String) (id : ℕ) (image : String) (s : Setting) (k i : ℕ)
      (p : String × String) (ips : List (Ip × ℕ))
      → Gives
          (λ (last, l). map (λ (c : Container). c.containername) l ≡ numbered u id i k)
          (make_containers o workers u id image s k i p ips)
  unfolding make_containers numbered
  Gives-make_containers workers u id image s zero i p ips = Gives-pure _ refl
  Gives-make_containers workers u id image s (suc k) i p [] = Gives-throw
  Gives-make_containers workers u id image s (suc k) i p (ip ∷ ips) =
      Gives-bind (Quiet-pick_worker workers) (λ host a.
        Gives-bind (Quiet-proxy_ips u host i p) (λ found b.
          Gives-bind (Gives-make_container host _ ip image s) (λ c e.
            Gives-bind (Gives-make_containers workers u id image s k (i + 1) found ips)
              (λ (last, l) f. Gives-pure _ (rw (e, f) refl)))))

  pub Quiet-join_running :
      (u : String) (v : VCluster) (c : Container) → Quiet (join_running o u v c)
  unfolding join_running
  Quiet-join_running u v c = Quiet-unless (not (is_running v.status)) (
      Quiet-then (Quiet-poke o _ _)
        (Quiet-then (Quiet-poke o _ _) (Quiet-then (Quiet-poke o _ _) (Quiet-poke o _ _))))

  pub Quiet-forget_user : (u : String) → Quiet (forget_user o u)
  unfolding forget_user
  Quiet-forget_user u =
      Quiet-bind (Quiet-gets _)
        (λ left. Quiet-unless _ (Quiet-then (Quiet-ignore (Quiet-on_net _)) (Quiet-poke o _ _)))
