-- ===== src/Cluster/Requests.antt =====
-- A request to class VclusterMgr of src/master/vclustermgr.py, and runs of several.
use docklet.Common.{List, [], ◌∷◌}
use docklet.Cluster.Site.{Outside}
use docklet.Cluster.Action.{VclusterMgr, Action, pure, ◌>>◌}
use docklet.Cluster.Registry.{
  Request, create, grow, start, stop, destroy, mount, detach, recover, map_port, unmap_port, shrink,
}
use docklet.Cluster.Create.{create_cluster, scale_out_cluster}
use docklet.Cluster.Life.{
  start_cluster, stop_cluster, detach_cluster, mount_cluster, delete_cluster, scale_in_cluster,
}
use docklet.Cluster.Mappings.{add_port_mapping, delete_port_mapping}
use docklet.Cluster.Recover.{recover_entry}

module _ {N W : Type 0} (o : Outside N W) where
  unfoldable pub exec : Request → Action N W (Unit {0})
  exec (create n u f) = create_cluster o n u f.image f.image_size f.vnode f.setting
  exec (grow n u f) = scale_out_cluster o n u f.image f.image_size f.setting
  exec (start n u) = start_cluster o n u
  exec (stop n u) = stop_cluster o n u
  exec (destroy n u) = delete_cluster o n u
  exec (mount n u) = mount_cluster o n u
  exec (detach n u) = detach_cluster o n u
  exec (recover n u) = recover_entry o record { user = u; vcluster = n; times = 0 } [] >> pure tt
  exec (map_port n u x ip p quota) = add_port_mapping o u n x ip p quota
  exec (unmap_port n u x p) = delete_port_mapping o u n x p
  exec (shrink n u x) = scale_in_cluster o n u x

  -- Requests one after the other, whatever they return
  unfoldable pub run : List Request → VclusterMgr N W → VclusterMgr N W
  unfolding exec
  run [] m = m
  run (q ∷ qs) m = run qs (exec q m).1
