-- ===== src/Cluster/Recover.antt =====
-- recover_allclusters, recover_cluster_on and recover_clusters of src/master/vclustermgr.py. What the
-- user server answers, the sleeps and the logs are left out.
use docklet.Common.{
  ℕ, zero, suc, ◌+◌, Bool, true, false, not, ◌&&◌, Option, none, some, List, [], ◌∷◌, ◌++◌, leb,
  if◌then◌else◌, String, str_eq,
}
use docklet.Cluster.Rows.{
  Container, VCluster, Status, running, error, is_stopped, get_vcluster, change,
}
use docklet.Cluster.Site.{Outside}
use docklet.Cluster.Action.{Action, pure, gets, ignore, attempt, db_commit, ◌>>=◌, ◌>>◌}
use docklet.Cluster.Life.{recover_cluster, set_status}

-- An entry of recover_queue
pub record Entry : Type 0 where
  pub user : String
  pub vcluster : String
  pub times : ℕ

abbrev pub max_times : ℕ
max_times = 1

unfoldable pub has_container_on : String → List Container → Bool
has_container_on host [] = false
has_container_on host (c ∷ l) = if str_eq c.host host then true else has_container_on host l

-- The clusters that are not stopped, with a container on the host where one is given
unfoldable pub need_recovers : Option String → List VCluster → List Entry
unfolding has_container_on
need_recovers host [] = []
need_recovers host (v ∷ rows) =
    let rest = need_recovers host rows in
    let counts : Bool = elim host [ none ↦ true | some h ↦ has_container_on h v.containers ] in
    if not (is_stopped v.status) && counts
    then record { user = v.ownername; vcluster = v.clustername; times = 0 } ∷ rest
    else rest

module _ {N W : Type 0} (o : Outside N W) where
  -- What a turn leaves to do: a failed entry goes to the end of the queue.
  abbrev pub requeue : Bool → Entry → List Entry → List Entry
  requeue true q queue = queue
  requeue false q queue = queue ++ record q { times = q.times + 1 } ∷ []

  abbrev pub outcome : Bool → Status
  outcome true = running
  outcome false = error

  unfoldable pub conclude : Bool → Entry → List Entry → Option VCluster → Action N W (List Entry)
  unfolding change
  conclude good q queue none = pure queue
  conclude good q queue (some v) = do
    ignore (db_commit o (change q.vcluster q.user (set_status (outcome good))))
    pure (requeue good q queue)

  -- One entry: whether recover_cluster succeeds is written into the row, if there still is one.
  unfoldable pub recover_entry : Entry → List Entry → Action N W (List Entry)
  unfolding recover_cluster get_vcluster conclude
  recover_entry q queue = do
    good ← attempt (recover_cluster o q.vcluster q.user)
    cludb ← gets (λ m. get_vcluster q.vcluster q.user m.clusters)
    conclude good q queue cludb

  -- The loop over the queue: true where it ends within the fuel.
  unfoldable pub recover_queue : ℕ → List Entry → Action N W Bool
  unfolding recover_entry
  recover_queue fuel [] = pure true
  recover_queue zero (q ∷ queue) = pure false
  recover_queue (suc fuel) (q ∷ queue) =
      if leb max_times q.times then pure true else (recover_entry q queue >>= recover_queue fuel)

  -- recover_allclusters() and recover_cluster_on(host)
  unfoldable pub recover_clusters : ℕ → Option String → Action N W Bool
  unfolding need_recovers recover_queue
  recover_clusters fuel host = gets (λ m. need_recovers host m.clusters) >>= recover_queue fuel
