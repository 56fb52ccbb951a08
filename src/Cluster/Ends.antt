-- ===== src/Cluster/Ends.antt =====
-- How the methods of src/master/vclustermgr.py end: rules for lookups, guards and commits.
use docklet.Common.{
  subst, Bool-cases, sym, ℕ, ◌+◌, ◌≡◌, refl, ◌∙◌, ap, Bool, true, false, Option, none, some, inl,
  inr, List, map, String,
}
use docklet.Cluster.Rows.{VCluster, get_vcluster}
use docklet.Cluster.Site.{Outside}
use docklet.Cluster.Action.{
  VclusterMgr, Action, is_done, pure, fail, throw, gets, or_fail, or_throw, ignore, require,
  db_commit, ◌>>=◌, ◌>>◌, Reply, done, fails, throws, proceed,
}
use docklet.Cluster.Registry.{Shape, Registry, find, on, with_clusters, id_taken}
use docklet.Cluster.Quiet.{shape, registry, Ends}
use docklet.Cluster.Shapes.{find-get_vcluster, map-change}
use docklet.Cluster.Create.{acquire_id}
use docklet.Cluster.Life.{save_status}

module _ {N W : Type 0} {A : Type 0} {R : Bool → Registry → Type 0} (r : Registry) where
  -- A value that is read: what is known of the registry is known of it.
  pub Ends-gets :
      {B : Type 0} (h : VclusterMgr N W → B) (f : B → Action N W A)
      → ((m : VclusterMgr N W) → registry m ≡ r → Ends R (f (h m)) r)
      → Ends R (gets h >>= f) r
  unfolding ◌>>=◌ gets
  Ends-gets h f k = record { ends = λ m e. (k m e).ends m e }

  pub Ends-require :
      {y : Action N W A} (b : Bool) (e : String)
      → R false r
      → (b ≡ true → Ends R y r)
      → Ends R (require b e >> y) r
  unfolding ◌>>=◌ require
  Ends-require {y} true e z k = record { ends = λ m h. (k refl).ends m h }
  Ends-require {y} false e z k = record { ends = λ m h. rw h z }

  module _ (n u : String) {f : VCluster → Action N W A} (z : R false r)
      (k : (v : VCluster) → find n u r.clusters ≡ some (shape v) → Ends R (f v) r) where
    known :
        (m : VclusterMgr N W) (v : VCluster)
        → registry m ≡ r
        → get_vcluster n u m.clusters ≡ some v
        → find n u r.clusters ≡ some (shape v)
    known m v e g =
        ap (λ (x : Registry). find n u x.clusters) (sym e) ∙ find-get_vcluster n u v m.clusters g

    failed_or :
        (e : String) (m : VclusterMgr N W) (c : Option VCluster)
        → registry m ≡ r
        → get_vcluster n u m.clusters ≡ c
        → Ends R (or_fail c e >>= f) r
    unfolding ◌>>=◌ or_fail fail pure
    failed_or e m none h g = record { ends = λ m' h'. rw h' z }
    failed_or e m (some v) h g = record { ends = λ m' h'. (k v (known m v h g)).ends m' h' }

    thrown_or :
        (m : VclusterMgr N W) (c : Option VCluster)
        → registry m ≡ r
        → get_vcluster n u m.clusters ≡ c
        → Ends R (or_throw c >>= f) r
    unfolding ◌>>=◌ or_throw throw pure
    thrown_or m none h g = record { ends = λ m' h'. rw h' z }
    thrown_or m (some v) h g = record { ends = λ m' h'. (k v (known m v h g)).ends m' h' }

    -- The row that a method looks up, and what the registry says of it
    pub Ends-info :
        (e : String) → Ends R (gets (λ m. get_vcluster n u m.clusters) >>= λ c. or_fail c e >>= f) r
    Ends-info e = Ends-gets _ _ (λ m h. failed_or e m (get_vcluster n u m.clusters) h refl)

    pub Ends-info_or_throw :
        Ends R (gets (λ m. get_vcluster n u m.clusters) >>= λ c. or_throw c >>= f) r
    Ends-info_or_throw = Ends-gets _ _ (λ m h. thrown_or m (get_vcluster n u m.clusters) h refl)

same_end :
    {N W A : Type 0} (R : Bool → Registry → Type 0) (t : Reply A) (m : VclusterMgr N W)
    → R (is_done t) (registry m)
    → R
        (is_done (proceed (λ (a : A). pure tt) t m).0)
        (registry (proceed (λ (a : A). pure tt) t m).1)
unfolding pure
same_end R (done a) m h = h
same_end R (fails e) m h = h
same_end R throws m h = h

module _ {N W : Type 0} {A : Type 0} {R : Bool → Registry → Type 0} where
  pub Ends-drop : {x : Action N W A} (r : Registry) → Ends R x r → Ends R (x >> pure tt) r
  unfolding ◌>>=◌ pure
  Ends-drop {x} r h = record { ends = λ m e. same_end R (x m).0 (x m).1 (h.ends m e) }

module _ {N W : Type 0} (o : Outside N W) where
  pub Ends-acquire_id :
      {A : Type 0} {R : Bool → Registry → Type 0} (r : Registry) (f : ℕ → Action N W A)
      → Ends R (f r.nextid) (id_taken r)
      → Ends R (acquire_id o >>= f) r
  unfolding ◌>>=◌ acquire_id
  Ends-acquire_id {A} {R} r f h = record {
    ends = λ m e.
        (subst (λ k. Ends R (f k) (id_taken r)) (ap Registry.nextid (sym e)) h).ends
          (record m { nextid = m.nextid + 1 }) (ap id_taken e);
  }

  module _ (r : Registry) (f : List VCluster → List VCluster) (g : List Shape → List Shape)
      (same : (rows : List VCluster) → map shape (f rows) ≡ g (map shape rows)) where
    -- The rows that a commit saves
    moved :
        (P : Registry → Type 0) (m : VclusterMgr N W) (w : W)
        → registry m ≡ r
        → P (with_clusters (g r.clusters) r)
        → P (registry (record m { world = w; clusters = f m.clusters }))
    moved P m w e new =
        rw (same m.clusters)
          (subst (λ (x : Registry). P (with_clusters (g x.clusters) x)) (sym e) new)

    -- A commit whose answer is not read
    pub Ends-save :
        {R : Bool → Registry → Type 0}
        → R true r
        → R true (with_clusters (g r.clusters) r)
        → Ends R (ignore (db_commit o f)) r
    unfolding ignore db_commit
    Ends-save {R} old new = record {
      ends = λ m e. elim (Bool-cases (o.site.commit m.world).0) [
        | inl p ↦ rw p (moved (R true) m (o.site.commit m.world).1 e new)
        | inr p ↦ rw p (rw e old)
      ];
    }

    -- ... with more to do after it
    pub Ends-save_then :
        {A : Type 0} {R : Bool → Registry → Type 0} {y : Action N W A}
        → Ends R y r
        → Ends R y (with_clusters (g r.clusters) r)
        → Ends R (ignore (db_commit o f) >> y) r
    unfolding ignore db_commit ◌>>=◌
    Ends-save_then {A} {R} {y} old new = record {
      ends = λ m e. elim (Bool-cases (o.site.commit m.world).0) [
        | inl p ↦ rw p (
            new.ends (record m { world = (o.site.commit m.world).1; clusters = f m.clusters })
              (moved (λ x. x ≡ with_clusters (g r.clusters) r) m (o.site.commit m.world).1 e refl))
        | inr p ↦ rw p (old.ends (record m { world = (o.site.commit m.world).1 }) e)
      ];
    }

    -- ... and one whose answer is read
    pub Ends-commit :
        {R : Bool → Registry → Type 0} (text : String)
        → R false r
        → R true (with_clusters (g r.clusters) r)
        → Ends R (db_commit o f >>= λ good. require good text) r
    unfolding db_commit ◌>>=◌ require
    Ends-commit {R} text z new = record {
      ends = λ m e. elim (Bool-cases (o.site.commit m.world).0) [
        | inl p ↦ rw p (moved (R true) m (o.site.commit m.world).1 e new)
        | inr p ↦ rw p (rw e z)
      ];
    }

  -- A status is saved for a row that is there.
  pub Ends-save_status :
      {R : Bool → Registry → Type 0} (r : Registry) (n u : String) (f : VCluster → VCluster)
      (g : Shape → Shape)
      → ((v : VCluster) → shape (f v) ≡ g (shape v))
      → R false r
      → R true (with_clusters (on n u g r.clusters) r)
      → Ends R (save_status o n u f) r
  unfolding save_status
  Ends-save_status {R} r n u f g e z new =
      Ends-info_or_throw r n u z
        (λ v h. Ends-commit r _ (on n u g) (λ rows. map-change n u f g rows e) _ z new)
