-- ===== src/Cluster/Refine.antt =====
-- The methods of src/master/vclustermgr.py against the registry.
use docklet.Cluster.Requests.{exec}
use docklet.Cluster.Recover.{recover_entry, conclude, outcome}
use docklet.Cluster.Create.{widen, create_cluster, scale_out_cluster}
use docklet.Common.{
  subst, ◌≡◌, refl, Bool, true, false, not, Option, none, some, [], ◌∷◌, ◌++◌, String,
}
use docklet.Cluster.Rows.{
  Name, Container, VCluster, Status, running, stopped, is_running, is_stopped, new_vcluster,
  is_cluster, get_vcluster,
}
use docklet.Cluster.Site.{Outside}
use docklet.Cluster.Action.{VclusterMgr, ◌>>◌, pure}
use docklet.Cluster.Registry.{
  Registry, Form, Request, create, grow, start, stop, destroy, mount, detach, recover, map_port,
  unmap_port, shrink, find, on, remove, shrunk, grown, in_status, new_shape, IsLenient, delete_is,
  mount_is, detach_is, map_is, unmap_is, grow_is, shrink_is, recover_is, Step, failed, idle, wasted,
  created, started, halted, deleted, enlarged, reduced, settled, id_taken,
}
use docklet.Cluster.Quiet.{
  shape, registry, Ends, Ends-bind, Quiet-Ends, Quiet-gets, Quiet-on_net, Quiet-ignore,
  Quiet-try_or, Quiet-attempt, Quiet-poke, Quiet-at_proxy, Quiet-or_throw, Ends-then, Quiet-require,
  Quiet-pure,
}
use docklet.Cluster.Quiet.Proxies.{
  Quiet-set_proxy, Quiet-delete_all_port_mapping, Quiet-add_port_mapping, Quiet-delete_port_mapping,
}
use docklet.Cluster.Quiet.Hosts.{
  Quiet-each, Quiet-start_one, Quiet-stop_one, Quiet-delete_one, Quiet-delete_named,
  Quiet-recover_cluster, Quiet-detach_cluster, Quiet-mount_cluster, Quiet-pick_worker,
  Quiet-ensure_user, Gives-make_container, Gives-make_containers, Quiet-join_running,
  Quiet-forget_user,
}
use docklet.Cluster.Ends.{
  Ends-gets, Ends-require, Ends-info, Ends-info_or_throw, Ends-acquire_id, Ends-save,
  Ends-save_then, Ends-save_status, Ends-drop,
}
use docklet.Cluster.Shapes.{
  map-change, map-delete, find-is_cluster, map-without, map-append, find-get_vcluster,
}
use docklet.Cluster.Life.{
  start_cluster, stop_cluster, delete_cluster, scale_in_cluster, narrow, set_status,
}

not-true : (b : Bool) → not b ≡ true → b ≡ false
not-true true e = cc
not-true false e = refl

module _ {N W : Type 0} (o : Outside N W) (r : Registry) where
  -- What a request that begins at r may come to
  abbrev May : Request → Bool → Registry → Type 0
  May q b r' = Step o.defaultsize q b r r'

  unchanged : {q : Request} → IsLenient q → (b : Bool) → May q b r
  unchanged h true = idle r h
  unchanged {q} h false = failed q r

  start_cluster-Step : (n u : String) → Ends (May (start n u)) (start_cluster o n u) r
  unfolding start_cluster
  start_cluster-Step n u =
      let z : May (start n u) false r = failed _ r in
      Ends-info r n u z
        (λ v there. Ends-require r (not (is_running v.status)) _ z (λ idle.
          Ends-bind r (Quiet-try_or _ (Quiet-set_proxy o n u false v)) z (λ now a.
            Ends-then r (Quiet-poke o _ _) z (
              Ends-then r (Quiet-each o now.containers (Quiet-start_one o u)) z (
                Ends-save_status o r n u _ (in_status running) (λ v'. refl) z
                  (started n u (shape v) r there (not-true _ idle)))))))
        _

  stop_cluster-Step : (n u : String) → Ends (May (stop n u)) (stop_cluster o n u) r
  unfolding stop_cluster
  stop_cluster-Step n u =
      let z : May (stop n u) false r = failed _ r in
      Ends-info r n u z
        (λ v there. Ends-require r (not (is_stopped v.status)) _ z (λ busy.
          Ends-then r (Quiet-at_proxy o v.proxy_server_ip (λ host. Quiet-poke o host _)) z (
            Ends-then r (Quiet-each o v.containers (Quiet-stop_one o n u)) z (
              Ends-save_status o r n u _ (in_status stopped) (λ v'. refl) z
                (halted n u (shape v) r there (not-true _ busy))))))
        _

  delete_cluster-Step : (n u : String) → Ends (May (destroy n u)) (delete_cluster o n u) r
  unfolding delete_cluster
  delete_cluster-Step n u =
      let z : May (destroy n u) false r = failed _ r in
      Ends-info r n u z
        (λ v there. Ends-require r (not (is_running v.status)) _ z (λ idle.
          Ends-then r (Quiet-each o v.containers (Quiet-delete_one o)) z (
            Ends-then r (Quiet-ignore (Quiet-on_net _)) z (
              Ends-save_then o r _ (remove n u) (map-delete n u)
                (Quiet-Ends r (Quiet-forget_user o u) (unchanged (delete_is n u)))
                (Quiet-Ends _ (Quiet-forget_user o u)
                  (λ b. deleted n u b (shape v) r there (not-true _ idle)))))))
        _

  scale_in_cluster-Step :
      (n u : String) (x : Name) → Ends (May (shrink n u x)) (scale_in_cluster o n u x) r
  unfolding scale_in_cluster
  scale_in_cluster-Step n u x =
      let z : May (shrink n u x) false r = failed _ r in
      Ends-info r n u z
        (λ v there. Ends-then r (Quiet-each o v.containers (Quiet-delete_named o u x)) z (
          Ends-save_then o r _ (on n u (shrunk x))
            (λ rows.
              map-change n u (narrow x) (shrunk x) rows (λ w. rw (map-without x w.containers) refl))
            (Quiet-Ends r (Quiet-delete_all_port_mapping o n u x) (unchanged (shrink_is n u x)))
            (Quiet-Ends _ (Quiet-delete_all_port_mapping o n u x)
              (λ b. reduced n u x b (shape v) r there))))
        _

  scale_out_cluster-Step :
      (n u : String) (f : Form)
      → Ends (May (grow n u f)) (scale_out_cluster o n u f.image f.image_size f.setting) r
  unfolding scale_out_cluster
  scale_out_cluster-Step n u f =
      let z : May (grow n u f) false r = failed _ r in
      Ends-bind r (Quiet-gets _) z (λ there a. Ends-then r (Quiet-require _ _) z (
        Ends-then r (Quiet-require _ _) z (
          Ends-bind r (Quiet-gets _) z (λ workers b. Ends-then r (Quiet-require _ _) z (
            Ends-bind r (Quiet-on_net _) z (λ ips c. Ends-bind r (Quiet-or_throw _) z (λ ip d.
              Ends-info_or_throw r n u z (λ v found.
                Ends-bind r (Quiet-pick_worker o workers) z (λ host e.
                  Ends-bind r (Gives-make_container o host _ ip f.image f.setting) z (λ c' name.
                    Ends-then r (Quiet-join_running o u v c') z (
                      Ends-save o r _ (on n u (grown c'))
                        (λ rows. map-change n u (widen o c') (grown c') rows (λ w.
                          rw
                            (
                              map-append (λ (c'' : Container). c''.containername) w.containers
                                  (c' ∷ []),
                              name,
                            )
                            refl))
                        (idle r (grow_is n u f))
                        (enlarged n u f c' (shape v) r found name))))))))))))

  create_cluster-Step :
      (n u : String) (f : Form)
      → Ends (May (create n u f)) (create_cluster o n u f.image f.image_size f.vnode f.setting) r
  unfolding create_cluster
  create_cluster-Step n u f =
      let z : May (create n u f) false r = failed _ r in
      let w : May (create n u f) false (id_taken r) = wasted n u f false r in
      Ends-gets r _ _ (λ m h. Ends-require r (not (is_cluster n u m.clusters)) _ z (λ free.
        Ends-then r (Quiet-require _ _) z (
          Ends-bind r (Quiet-gets _) z (λ workers b. Ends-then r (Quiet-require _ _) z (
            Ends-then r (Quiet-ensure_user o u f.vnode) z (
              Ends-bind r (Quiet-on_net _) z (λ ips c. Ends-acquire_id o r _ (
                Ends-bind (id_taken r)
                  (Gives-make_containers o workers u r.nextid f.image f.setting o.defaultsize 0 _
                    ips)
                  w
                  (λ ((sip, pip), l) names.
                    Ends-save o (id_taken r) _
                      (λ l'. l' ++ new_shape r.nextid n u o.defaultsize l ∷ [])
                      (λ rows.
                        rw
                          (
                            map-append shape rows
                                (new_vcluster r.nextid n u o.defaultsize sip pip l ∷ []),
                            names,
                          )
                          refl)
                      (wasted n u f true r)
                      (created n u f l r
                        (subst (λ (x : Registry). find n u x.clusters ≡ none) h
                          (find-is_cluster n u m.clusters (not-true _ free)))
                        names))))))))))

  outcome_busy : (b : Bool) → is_stopped (outcome o b) ≡ false
  outcome_busy true = refl
  outcome_busy false = refl

  conclude-Step :
      (n u : String) (good : Bool) (m : VclusterMgr N W) (c : Option VCluster)
      → registry m ≡ r
      → get_vcluster n u m.clusters ≡ c
      → Ends
          (May (recover n u))
          (conclude o good record { user = u; vcluster = n; times = 0 } [] c)
          r
  unfolding conclude
  conclude-Step n u good m none h e = Quiet-Ends r (Quiet-pure _) (unchanged (recover_is n u))
  conclude-Step n u good m (some v) h e =
      let s : Status = outcome o good in
      let found : find n u r.clusters ≡ some (shape v) =
        subst (λ (x : Registry). find n u x.clusters ≡ some (shape v)) h
          (find-get_vcluster n u v m.clusters e) in
      Ends-save_then o r _ (on n u (in_status s))
        (λ rows. map-change n u (set_status s) (in_status s) rows (λ w. refl))
        (Quiet-Ends r (Quiet-pure _) (unchanged (recover_is n u)))
        (Quiet-Ends _ (Quiet-pure _) (λ b. settled n u b s (shape v) r found (outcome_busy good)))

  recover_entry-Step :
      (n u : String)
      → Ends
          (May (recover n u))
          (recover_entry o record { user = u; vcluster = n; times = 0 } [] >> pure tt)
          r
  unfolding recover_entry
  recover_entry-Step n u =
      let z : May (recover n u) false r = failed _ r in
      Ends-drop r (
        Ends-bind r (Quiet-attempt (Quiet-recover_cluster o n u)) z (λ good a.
          Ends-gets r _ _ (λ m h. conclude-Step n u good m (get_vcluster n u m.clusters) h refl)))

  -- The refinement
  pub exec-Step : (q : Request) → Ends (May q) (exec o q) r
  unfolding exec
  exec-Step (create n u f) = create_cluster-Step n u f
  exec-Step (grow n u f) = scale_out_cluster-Step n u f
  exec-Step (start n u) = start_cluster-Step n u
  exec-Step (stop n u) = stop_cluster-Step n u
  exec-Step (destroy n u) = delete_cluster-Step n u
  exec-Step (mount n u) = Quiet-Ends r (Quiet-mount_cluster o n u) (unchanged (mount_is n u))
  exec-Step (detach n u) = Quiet-Ends r (Quiet-detach_cluster o n u) (unchanged (detach_is n u))
  exec-Step (recover n u) = recover_entry-Step n u
  exec-Step (map_port n u x ip p quota) =
      Quiet-Ends r (Quiet-add_port_mapping o n u x ip p quota) (unchanged (map_is n u x ip p quota))
  exec-Step (unmap_port n u x p) =
      Quiet-Ends r (Quiet-delete_port_mapping o n u x p) (unchanged (unmap_is n u x p))
  exec-Step (shrink n u x) = scale_in_cluster-Step n u x
