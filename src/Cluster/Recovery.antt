-- ===== src/Cluster/Recovery.antt =====
-- How the loop of recover_clusters of src/master/vclustermgr.py ends.
use docklet.Common.{
  ℕ, zero, suc, ◌+◌, ◌<◌, ◌≤◌, ◌≡◌, ◌≢◌, refl, Bool, true, false, Option, none, some, inl, inr,
  Bool-cases, List, [], ◌∷◌, ◌++◌, length, leb, if◌then◌else◌, String, arith,
}
use docklet.Cluster.Rows.{VCluster, get_vcluster}
use docklet.Cluster.Site.{Outside}
use docklet.Cluster.Action.{
  VclusterMgr, Reply, done, fails, throws, proceed, pure, gets, ignore, attempt, db_commit, ◌>>=◌,
}
use docklet.Cluster.Quiet.{Ensures}
use docklet.Cluster.Life.{recover_cluster}
use docklet.Cluster.Recover.{
  Entry, max_times, need_recovers, requeue, conclude, recover_entry, recover_queue,
  recover_clusters,
}

-- The entries that have not been tried
unfoldable untried : List Entry → ℕ
untried [] = 0
untried (q ∷ l) = let rest = untried l in if leb max_times q.times then rest else suc rest

untried-append :
    (l : List Entry) (q : Entry) → untried (l ++ record q { times = q.times + 1 } ∷ []) ≡ untried l
unfolding untried
untried-append [] q = let e : leb 1 (q.times + 1) ≡ true = ground arith in rw e refl
untried-append (x ∷ l) q = rw (untried-append l q) refl

module _ {N W : Type 0} (o : Outside N W) where
  untried-requeue : (b : Bool) (q : Entry) (l : List Entry) → untried (requeue o b q l) ≡ untried l
  untried-requeue true q l = refl
  untried-requeue false q l = untried-append l q

  untried-conclude :
      (b : Bool) (q : Entry) (l : List Entry) (c : Option VCluster) (m : VclusterMgr N W)
      → Ensures (λ l'. untried l' ≡ untried l) (conclude o b q l c m).0
  unfolding conclude pure ignore db_commit ◌>>=◌
  untried-conclude b q l none m = refl
  untried-conclude b q l (some v) m = untried-requeue b q l

  concluded :
      (q : Entry) (l : List Entry) (t : Reply Bool) (m : VclusterMgr N W)
      → Ensures
          (λ l'. untried l' ≡ untried l)
          (proceed
            (λ good. gets (λ m. get_vcluster q.vcluster q.user m.clusters) >>= conclude o good q l)
            t
            m).0
  unfolding ◌>>=◌ gets
  concluded q l (done b) m = untried-conclude b q l (get_vcluster q.vcluster q.user m.clusters) m
  concluded q l (fails e) m = tt
  concluded q l throws m = tt

  untried-recover_entry :
      (q : Entry) (l : List Entry) (m : VclusterMgr N W)
      → Ensures (λ l'. untried l' ≡ untried l) (recover_entry o q l m).0
  unfolding recover_entry ◌>>=◌
  untried-recover_entry q l m =
      concluded q l (attempt (recover_cluster o q.vcluster q.user) m).0
        (attempt (recover_cluster o q.vcluster q.user) m).1

  next_turn :
      (fuel : ℕ) (k : ℕ) (t : Reply (List Entry)) (m : VclusterMgr N W)
      → ((l : List Entry) (m : VclusterMgr N W)
          → untried l < fuel
          → (recover_queue o fuel l m).0 ≢ done false)
      → k < fuel
      → Ensures (λ l'. untried l' ≡ k) t
      → (proceed (recover_queue o fuel) t m).0 ≢ done false
  next_turn fuel k (done l) m ih lt h = ih l m (rw h lt)
  next_turn fuel k (fails e) m ih lt h = λ x. cc
  next_turn fuel k throws m ih lt h = λ x. cc

  -- The queue is left before the fuel is used up.
  recover_queue-ends :
      (fuel : ℕ) (l : List Entry) (m : VclusterMgr N W)
      → untried l < fuel
      → (recover_queue o fuel l m).0 ≢ done false
  unfolding recover_queue pure ◌>>=◌ untried
  recover_queue-ends fuel [] m lt = λ x. cc
  recover_queue-ends zero (q ∷ l) m lt = absurd (omega (arith, lt))
  recover_queue-ends (suc fuel) (q ∷ l) m lt = elim (Bool-cases (leb max_times q.times)) [
    | inl e ↦ rw e (λ x. cc)
    | inr e ↦
        let left : untried l < fuel = omega (arith, rw e at lt) in
        rw e (
          next_turn fuel (untried l) (recover_entry o q l m).0 (recover_entry o q l m).1
            (recover_queue-ends fuel) left (untried-recover_entry q l m))
  ]

untried-need_recovers :
    (host : Option String) (rows : List VCluster) → untried (need_recovers host rows) ≤ length rows
unfolding untried need_recovers
untried-need_recovers host [] = omega arith
untried-need_recovers host (v ∷ rows) = ground (arith, untried-need_recovers host rows)

-- With more fuel than there are rows of clusters the loop of recover_clusters does not run out of it,
-- for all the entries that fail and go back into the queue.
pub recover_clusters-ends :
    {N W : Type 0} (o : Outside N W) (host : Option String) (fuel : ℕ) (m : VclusterMgr N W)
    → length m.clusters < fuel
    → (recover_clusters o fuel host m).0 ≢ done false
unfolding recover_clusters ◌>>=◌ gets
recover_clusters-ends o host fuel m lt =
    recover_queue-ends o fuel (need_recovers host m.clusters) m
      (omega (arith, lt, untried-need_recovers host m.clusters))
