-- ===== src/Cluster/Runs.antt =====
-- Calls of src/master/vclustermgr.py while every host answers: what cannot fail or raise an exception.
use docklet.Common.{
  ◌≡◌, ◌≢◌, refl, sym, subst, Bool, true, false, Option, none, some, inl, inr, Bool-cases, List, [],
  ◌∷◌, map, String, if◌then◌else◌,
}
use docklet.Cluster.Rows.{VCluster, is_named, get_vcluster}
use docklet.Cluster.Site.{Answer, yes, no, raised, Call, Outside}
use docklet.Cluster.Action.{
  VclusterMgr, Action, Reply, done, fails, throws, Message, proceed, pure, fail, gets, or_fail,
  or_throw, try_or, ignore, require, demand, unless, send, call, client, worker, at_proxy,
  db_commit, dropped, answered, caught, ◌>>=◌, ◌>>◌,
}
use docklet.Cluster.Registry.{Shape, Registry, find}
use docklet.Cluster.Quiet.{shape, registry}

-- Every host has a client, no call raises an exception, and every commit succeeds.
pub record Works {N W : Type 0} (o : Outside N W) : Type 0 where
  pub answers : (host : String) (c : Call) (w : W) → (o.site.call host c w).0 ≢ raised
  pub connected : (host : String) (w : W) → o.site.connected host w ≡ true
  pub commits : (w : W) → (o.site.commit w).0 ≡ true

-- A reply that is no exception, and a failure only where one is allowed
abbrev pub Fits : {A : Type 0} → Bool → Reply A → Type 0
Fits e (done a) = Unit
Fits e (fails m) = e ≡ true
Fits e throws = Path Bool true false

caught-Fits : {A : Type 0} (e : Bool) (t : Message) (a : Reply A) → Fits e a → Fits e (caught t a)
caught-Fits e t (done a) h = h
caught-Fits e t (fails t') h = h
caught-Fits e t throws h = cc

dropped-Fits : {A : Type 0} (e : Bool) (a : Reply A) → Fits true a → Fits e (dropped a)
dropped-Fits e (done a) h = tt
dropped-Fits e (fails t) h = tt
dropped-Fits e throws h = cc

answered-Fits : (a : Answer) → a ≢ raised → Fits true (answered a)
answered-Fits (yes n) h = tt
answered-Fits (no t) h = refl
answered-Fits raised h = absurd (h refl)

-- A row that the registry knows is there.
module _ (n u : String) where
  pub get_vcluster-find :
      (rows : List VCluster) (c : Shape)
      → find n u (map shape rows) ≡ some c
      → (v : VCluster) × (get_vcluster n u rows ≡ some v)
  unfolding get_vcluster find
  get_vcluster-find [] c e = cc
  get_vcluster-find (x ∷ l) c e = elim (Bool-cases (is_named n u x)) [
    | inl p ↦ (x, rw p refl)
    | inr p ↦ rw p (get_vcluster-find l c (rw p at e))
  ]

module _ {N W : Type 0} where
  pub record Runs {A : Type 0} (e : Bool) (x : Action N W A) (r : Registry) : Type 0 where
    pub fits : (m : VclusterMgr N W) → registry m ≡ r → Fits e (x m).0
    pub stays : (m : VclusterMgr N W) → registry m ≡ r → registry (x m).1 ≡ r

  module _ {e : Bool} {r : Registry} where
    module _ {A B : Type 0} where
      on_to :
          (f : A → Action N W B)
          → ((a : A) → Runs e (f a) r)
          → (t : Reply A) (m : VclusterMgr N W) → Fits e t
          → registry m ≡ r
          → Fits e (proceed f t m).0 × (registry (proceed f t m).1 ≡ r)
      on_to f k (done a) m h g = ((k a).fits m g, (k a).stays m g)
      on_to f k (fails t) m h g = (h, g)
      on_to f k throws m h g = (h, g)

      pub Runs-bind :
          {x : Action N W A} {f : A → Action N W B}
          → Runs e x r
          → ((a : A) → Runs e (f a) r)
          → Runs e (x >>= f) r
      unfolding ◌>>=◌
      Runs-bind {x} {f} h k = record {
        fits = λ m g. (on_to f k (x m).0 (x m).1 (h.fits m g) (h.stays m g)).0;
        stays = λ m g. (on_to f k (x m).0 (x m).1 (h.fits m g) (h.stays m g)).1;
      }

      pub Runs-then :
          {x : Action N W A} {y : Action N W B} → Runs e x r → Runs e y r → Runs e (x >> y) r
      Runs-then h k = Runs-bind h (λ a. k)

    module _ {A : Type 0} where
      pub Runs-pure : (a : A) → Runs e (pure a) r
      unfolding pure
      Runs-pure a = record { fits = λ m g. tt; stays = λ m g. g }

      pub Runs-gets : (f : VclusterMgr N W → A) → Runs e (gets f) r
      unfolding gets
      Runs-gets f = record { fits = λ m g. tt; stays = λ m g. g }

      pub Runs-if :
          {x y : Action N W A} (b : Bool) → Runs e x r → Runs e y r → Runs e (if b then x else y) r
      Runs-if true h k = h
      Runs-if false h k = k

      pub Runs-or_throw : (a : Option A) (v : A) → a ≡ some v → Runs e (or_throw a) r
      unfolding or_throw pure
      Runs-or_throw a v h = rw h record { fits = λ m g. tt; stays = λ m g. g }

      pub Runs-try_or : {x : Action N W A} (t : Message) → Runs e x r → Runs e (try_or t x) r
      unfolding try_or
      Runs-try_or {x} t h = record {
        fits = λ m g. caught-Fits e t (x m).0 (h.fits m g);
        stays = h.stays;
      }

    pub Runs-require : (b : Bool) (t : String) → b ≡ true → Runs e (require b t) r
    unfolding require
    Runs-require b t h = record { fits = λ m g. rw h tt; stays = λ m g. g }

    pub Runs-demand : (b : Bool) → b ≡ true → Runs e (demand b) r
    unfolding demand
    Runs-demand b h = record { fits = λ m g. rw h tt; stays = λ m g. g }

    pub Runs-unless : {x : Action N W (Unit {0})} (b : Bool) → Runs e x r → Runs e (unless b x) r
    unfolding unless pure
    Runs-unless true h = record { fits = λ m g. tt; stays = λ m g. g }
    Runs-unless false h = h

  module _ {A : Type 0} {r : Registry} where
    -- What is ignored may fail.
    pub Runs-ignore : {e : Bool} {x : Action N W A} → Runs true x r → Runs e (ignore x) r
    unfolding ignore
    Runs-ignore {e} {x} h = record {
      fits = λ m g. dropped-Fits e (x m).0 (h.fits m g);
      stays = h.stays;
    }

    pub Runs-or_fail : (a : Option A) (t : String) → Runs true (or_fail a t) r
    unfolding or_fail fail pure
    Runs-or_fail none t = record { fits = λ m g. refl; stays = λ m g. g }
    Runs-or_fail (some a) t = record { fits = λ m g. tt; stays = λ m g. g }

    pub Runs-fail : (t : Message) → Runs true (fail {A = A} t) r
    unfolding fail
    Runs-fail t = record { fits = λ m g. refl; stays = λ m g. g }

  pub Runs-require_any : {r : Registry} (b : Bool) (t : String) → Runs true (require b t) r
  unfolding require
  Runs-require_any true t = record { fits = λ m g. tt; stays = λ m g. g }
  Runs-require_any false t = record { fits = λ m g. refl; stays = λ m g. g }

  module _ (o : Outside N W) (works : Works o) {r : Registry} where
    pub Runs-call : (host : String) (c : Call) → Runs true (call o host c) r
    unfolding call
    Runs-call host c = record {
      fits = λ m g. answered-Fits _ (works.answers host c m.world);
      stays = λ m g. g;
    }

    pub Runs-poke : {e : Bool} (host : String) (c : Call) → Runs e (ignore (call o host c)) r
    Runs-poke host c = Runs-ignore (Runs-call host c)

    pub Runs-client : {e : Bool} (host : String) → Runs e (client o host) r
    unfolding client demand
    Runs-client host = record {
      fits = λ m g. rw (works.connected host m.world) tt;
      stays = λ m g. g;
    }

    pub Runs-worker : {e : Bool} (host : String) → Runs e (worker o host) r
    unfolding worker require
    Runs-worker host = record {
      fits = λ m g. rw (works.connected host m.world) tt;
      stays = λ m g. g;
    }

    pub Runs-at_proxy :
        {A : Type 0} {e : Bool} {f : String → Action N W A} (host : String)
        → ((h : String) → Runs e (f h) r)
        → Runs e (at_proxy o host f) r
    unfolding at_proxy
    Runs-at_proxy host h =
        Runs-if o.distributedgw (Runs-then (Runs-client host) (h host)) (h o.addr)

    pub Runs-db_commit :
        {e : Bool} (f : List VCluster → List VCluster)
        → ((rows : List VCluster) → map shape (f rows) ≡ map shape rows)
        → Runs e (db_commit o f) r
    unfolding db_commit
    Runs-db_commit f same = record {
      fits = λ m g. tt;
      stays = λ m g. rw (works.commits m.world) (rw (same m.clusters) g);
    }

    -- An answer that a call goes on with
    pub Runs-answer :
        {A : Type 0} {e : Bool} {f : Answer → Action N W A} (host : String) (c : Call)
        → ((a : Answer) → a ≢ raised → Runs e (f a) r)
        → Runs e (send o host c >>= f) r
    unfolding ◌>>=◌ send
    Runs-answer {f = f} host c k = record {
      fits = λ m g.
          (k _ (works.answers host c m.world)).fits
            (record m { world = (o.site.call host c m.world).1 }) g;
      stays = λ m g.
          (k _ (works.answers host c m.world)).stays
            (record m { world = (o.site.call host c m.world).1 }) g;
    }

  module _ (n u : String) where
    looked :
        {r : Registry} (c : Shape)
        → find n u r.clusters ≡ some c
        → (m : VclusterMgr N W) → registry m ≡ r
        → (v : VCluster) × (get_vcluster n u m.clusters ≡ some v)
    looked c there m g =
        get_vcluster-find n u m.clusters c
          (subst (λ (x : Registry). find n u x.clusters ≡ some c) (sym g) there)

    -- A look at that row
    pub Runs-look :
        {e : Bool} {r : Registry} {B : Type 0} (f : Option VCluster → Action N W B) (c : Shape)
        → find n u r.clusters ≡ some c
        → ((v : VCluster) → Runs e (f (some v)) r)
        → Runs e (gets (λ m. get_vcluster n u m.clusters) >>= f) r
    unfolding ◌>>=◌ gets
    Runs-look f c there k = record {
      fits = λ m g.
          let p : (v : VCluster) × (get_vcluster n u m.clusters ≡ some v) = looked c there m g in
          rw p.1 ((k p.0).fits m g);
      stays = λ m g.
          let p : (v : VCluster) × (get_vcluster n u m.clusters ≡ some v) = looked c there m g in
          rw p.1 ((k p.0).stays m g);
    }

    pub Runs-lookup :
        {e : Bool} {r : Registry} {B : Type 0} {f : VCluster → Action N W B} (c : Shape)
        → find n u r.clusters ≡ some c
        → ((v : VCluster) → Runs e (f v) r)
        → Runs e (gets (λ m. get_vcluster n u m.clusters) >>= λ a. or_throw a >>= f) r
    Runs-lookup c there k = Runs-look _ c there (λ v. Runs-bind (Runs-or_throw (some v) v refl) k)
