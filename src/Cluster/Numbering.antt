-- ===== src/Cluster/Numbering.antt =====
-- What a request of src/master/vclustermgr.py does to the numbering of clusters and containers.
use docklet.Common.{
  ℕ, zero, suc, ◌+◌, ◌<◌, ◌≤◌, ◌≡◌, ◌≢◌, refl, ap, Bool, none, some, List, [], ◌∷◌, ◌++◌, All,
  All-append, String, Bool-cases, inl, inr, arith,
}
use docklet.Cluster.Rows.{Name, Container, Status, running, stopped, same_name}
use docklet.Cluster.Registry.{
  Shape, Registry, find, on, except, numbered, new_shape, next_name, grown, shrunk, in_status,
  id_taken, with_clusters, Request, Step, failed, idle, wasted, created, started, halted, deleted,
  enlarged, reduced, settled,
}
use docklet.Cluster.Valid.{
  Distinct, Belongs, IsNumbered, Below, IsValid, All-weaken, Distinct-snoc, find-owner, All-find,
  All-on, All-remove, Distinct-on, Distinct-remove, Unique-on, Unique-remove, Unique-snoc,
}

module _ (u : String) (id : ℕ) where
  -- Numbers from i on are not below it, nor past the last one.
  All-numbered :
      (P : Name → Type 0) (i k : ℕ)
      → ((j : ℕ) → i ≤ j → j < i + k → P record { username = u; clusterid = id; cid = j })
      → All P (numbered u id i k)
  unfolding numbered
  All-numbered P i zero h = tt
  All-numbered P i (suc k) h = (
    h i (omega arith) (omega arith),
    All-numbered P (i + 1) k (λ j le lt. h j (omega (arith, le)) (omega (arith, lt))),
  )

  Distinct-numbered : (i k : ℕ) → Distinct Name.cid (numbered u id i k)
  unfolding numbered
  Distinct-numbered i zero = tt
  Distinct-numbered i (suc k) = (
    All-numbered (λ y. i ≢ y.cid) (i + 1) k (λ j le lt e. omega (arith, le, e)),
    Distinct-numbered (i + 1) k,
  )

new_shape-IsNumbered :
    (id : ℕ) (n u : String) (size : ℕ) (l : List Container) → IsNumbered (new_shape id n u size l)
new_shape-IsNumbered id n u size l = record {
  belongs =
      All-numbered u id (Belongs (new_shape id n u size l)) 0 size
        (λ j le lt. (refl, refl, omega (arith, lt)));
  distinct = Distinct-numbered u id 0 size;
}

module _ (x : Name) where
  All-except : (P : Name → Type 0) (l : List Name) → All P l → All P (except x l)
  unfolding except
  All-except P [] a = tt
  All-except P (y ∷ l) a = elim (Bool-cases (same_name y x)) [
    | inl p ↦ rw p (All-except P l a.1)
    | inr p ↦ rw p (a.0, All-except P l a.1)
  ]

  Distinct-except : (l : List Name) → Distinct Name.cid l → Distinct Name.cid (except x l)
  unfolding except
  Distinct-except [] d = tt
  Distinct-except (y ∷ l) d = elim (Bool-cases (same_name y x)) [
    | inl p ↦ rw p (Distinct-except l d.1)
    | inr p ↦ rw p (All-except (λ z. y.cid ≢ z.cid) l d.0, Distinct-except l d.1)
  ]

  shrunk-IsNumbered : (c : Shape) → IsNumbered c → IsNumbered (shrunk x c)
  shrunk-IsNumbered c h = record {
    belongs = All-except (Belongs c) c.names h.belongs;
    distinct = Distinct-except c.names h.distinct;
  }

grown-IsNumbered :
    (u : String) (k : Container) (c : Shape)
    → k.containername ≡ next_name u c
    → u ≡ c.ownername
    → IsNumbered c
    → IsNumbered (grown k c)
grown-IsNumbered u k c q e h = record {
  belongs =
      All-append (Belongs (grown k c)) c.names (k.containername ∷ [])
        (All-weaken c.names (λ y b. (b.0, b.1, omega (arith, b.2))) h.belongs)
        (rw q (e, refl, omega arith), tt);
  distinct =
      Distinct-snoc Name.cid c.names k.containername
        (All-weaken c.names (λ y b same. omega (arith, b.2, same, ap Name.cid q)) h.belongs)
        h.distinct;
}

module _ (n u : String) (r : Registry) (h : IsValid r) where
  -- A change of one row that keeps its names and its number
  on-IsValid :
      (f : Shape → Shape) (c : Shape)
      → find n u r.clusters ≡ some c
      → ((x : Shape) → (f x).clusterid ≡ x.clusterid)
      → ((x : Shape) → (f x).clustername ≡ x.clustername)
      → ((x : Shape) → (f x).ownername ≡ x.ownername)
      → (IsNumbered c → IsNumbered (f c))
      → IsValid (with_clusters (on n u f r.clusters) r)
  on-IsValid f c e same name owner k =
      let b : Below r.nextid c = All-find n u (Below r.nextid) r.clusters c e h.below in
      record {
        below = All-on n u (Below r.nextid) f r.clusters c e (rw (same c) b.0, k b.1) h.below;
        apart = Distinct-on n u f r.clusters same h.apart;
        unique = Unique-on n u f r.clusters name owner h.unique;
      }

  in_status-IsValid :
      (s : Status) (c : Shape)
      → find n u r.clusters ≡ some c
      → IsValid (with_clusters (on n u (in_status s) r.clusters) r)
  in_status-IsValid s c e =
      on-IsValid (in_status s) c e (λ x. refl) (λ x. refl) (λ x. refl)
        (λ k. record { belongs = k.belongs; distinct = k.distinct })

id_taken-IsValid : (r : Registry) → IsValid r → IsValid (id_taken r)
id_taken-IsValid r h = record {
  below = All-weaken r.clusters (λ c b. (omega (arith, b.0), b.1)) h.below;
  apart = h.apart;
  unique = h.unique;
}

created-IsValid :
    (n u : String) (size : ℕ) (l : List Container) (r : Registry)
    → find n u r.clusters ≡ none
    → IsValid r
    → IsValid record {
      clusters = r.clusters ++ new_shape r.nextid n u size l ∷ [];
      nextid = r.nextid + 1;
    }
created-IsValid n u size l r free h = record {
  below =
      All-append (Below (r.nextid + 1)) r.clusters (new_shape r.nextid n u size l ∷ [])
        (id_taken-IsValid r h).below ((omega arith, new_shape-IsNumbered r.nextid n u size l), tt);
  apart =
      Distinct-snoc Shape.clusterid r.clusters (new_shape r.nextid n u size l)
        (All-weaken r.clusters (λ c b same. omega (arith, b.0, same)) h.below) h.apart;
  unique = Unique-snoc r.clusters (new_shape r.nextid n u size l) free h.unique;
}

-- A request keeps the numbering.
pub Step-IsValid :
    (size : ℕ) {q : Request} {b : Bool} {r r' : Registry}
    → Step size q b r r'
    → IsValid r
    → IsValid r'
Step-IsValid size (failed q r) h = h
Step-IsValid size (idle r k) h = h
Step-IsValid size (wasted n u f b r) h = id_taken-IsValid r h
Step-IsValid size (created n u f l r e q) h = created-IsValid n u size l r e h
Step-IsValid size (started n u c r e k) h = in_status-IsValid n u r h running c e
Step-IsValid size (halted n u c r e k) h = in_status-IsValid n u r h stopped c e
Step-IsValid size (deleted n u b c r e k) h = record {
  below = All-remove n u (Below r.nextid) r.clusters h.below;
  apart = Distinct-remove n u r.clusters h.apart;
  unique = Unique-remove n u r.clusters h.unique;
}
Step-IsValid size (enlarged n u f k c r e q) h =
    on-IsValid n u r h (grown k) c e (λ x. refl) (λ x. refl) (λ x. refl)
      (grown-IsNumbered u k c q (find-owner n u r.clusters c e))
Step-IsValid size (reduced n u x b c r e) h =
    on-IsValid n u r h (shrunk x) c e (λ y. refl) (λ y. refl) (λ y. refl) (shrunk-IsNumbered x c)
Step-IsValid size (settled n u b s c r e k) h = in_status-IsValid n u r h s c e
