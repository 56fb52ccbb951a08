-- ===== src/Cluster/Wiring.antt =====
-- The network manager of src/master/network.py, as src/master/httprest.py hands it to the cluster manager.
use docklet.Net.Store.{Etcd}
use docklet.Net.NetworkMgr.{
  NetworkMgr, has_user, add_user, del_user, acquire_userips_cidr, release_userips,
}
use docklet.Cluster.Site.{Network}

abbrev pub networkmgr : {S : Type 0} → Etcd S → Network (NetworkMgr S)
networkmgr etcd = record {
  has_user = has_user etcd;
  add_user = add_user etcd;
  del_user = del_user etcd;
  acquire_userips_cidr = acquire_userips_cidr etcd;
  release_userips = release_userips etcd;
}
