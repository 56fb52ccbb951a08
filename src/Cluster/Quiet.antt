-- ===== src/Cluster/Quiet.antt =====
-- Calls of class VclusterMgr of src/master/vclustermgr.py that leave the registry as it is, and the
-- rules for them.
pub mod Proxies
pub mod Hosts
use docklet.Common.{
  ℕ, ◌≡◌, refl, ◌∙◌, ap, Bool, true, false, Option, none, some, List, [], ◌∷◌, map, if◌then◌else◌,
  String,
}
use docklet.Net.Result.{Result, ok, refused}
use docklet.Cluster.Rows.{Container, VCluster}
use docklet.Cluster.Site.{Call, Outside}
use docklet.Cluster.Action.{
  VclusterMgr, Action, Reply, done, fails, throws, Message, is_done, pure, fail, throw, gets,
  or_fail, or_throw, caught, try_or, ignore, attempt, on_net, require, demand, unless, send,
  answered, call, client, worker, at_proxy, db_commit, ◌>>=◌, ◌>>◌, proceed,
}
use docklet.Cluster.Registry.{Shape, Registry}

abbrev pub shape : VCluster → Shape
shape v = record {
  clusterid = v.clusterid;
  clustername = v.clustername;
  ownername = v.ownername;
  status = v.status;
  nextcid = v.nextcid;
  names = map (λ (c : Container). c.containername) v.containers;
  containers = v.containers;
}

abbrev pub Ensures : {A : Type 0} → (A → Type 0) → Reply A → Type 0
Ensures Q (done a) = Q a
Ensures Q (fails e) = Unit
Ensures Q throws = Unit

any : {A : Type 0} (r : Reply A) → Ensures (λ _. Unit) r
any (done a) = tt
any (fails e) = tt
any throws = tt

module _ {N W : Type 0} where
  abbrev pub registry : VclusterMgr N W → Registry
  registry m = record { clusters = map shape m.clusters; nextid = m.nextid }

  -- The registry stays as it is, and what the call returns satisfies Q.
  pub record Gives {A : Type 0} (Q : A → Type 0) (x : Action N W A) : Type 0 where
    pub keep : (m : VclusterMgr N W) → registry (x m).1 ≡ registry m
    pub sure : (m : VclusterMgr N W) → Ensures Q (x m).0

  abbrev pub Quiet : {A : Type 0} → Action N W A → Type 0
  Quiet x = Gives (λ _. Unit) x

  -- How a call that begins at the registry r ends
  pub record Ends {A : Type 0} (P : Bool → Registry → Type 0) (x : Action N W A) (r : Registry)
      : Type 0 where
    pub ends : (m : VclusterMgr N W) → registry m ≡ r → P (is_done (x m).0) (registry (x m).1)

  module _ {A : Type 0} where
    pub quiet :
        {x : Action N W A} → ((m : VclusterMgr N W) → registry (x m).1 ≡ registry m) → Quiet x
    quiet {x} k = record { keep = k; sure = λ m. any (x m).0 }

    pub Gives-pure : {Q : A → Type 0} (a : A) → Q a → Gives Q (pure a)
    unfolding pure
    Gives-pure a q = record { keep = λ m. refl; sure = λ m. q }

    pub Gives-throw : {Q : A → Type 0} → Gives Q throw
    unfolding throw
    Gives-throw = record { keep = λ m. refl; sure = λ m. tt }

    pub Quiet-if : {x y : Action N W A} (b : Bool) → Quiet x → Quiet y → Quiet (if b then x else y)
    Quiet-if true p q = p
    Quiet-if false p q = q

  module _ {A B : Type 0} {P : A → Type 0} {Q : B → Type 0} where
    go :
        (f : A → Action N W B)
        → ((a : A) → P a → Gives Q (f a))
        → (r : Reply A) (m : VclusterMgr N W) → Ensures P r
        → (registry (proceed f r m).1 ≡ registry m) × Ensures Q (proceed f r m).0
    go f k (done a) m p = ((k a p).keep m, (k a p).sure m)
    go f k (fails e) m p = (refl, tt)
    go f k throws m p = (refl, tt)

    pub Gives-bind :
        {x : Action N W A} {f : A → Action N W B}
        → Gives P x
        → ((a : A) → P a → Gives Q (f a))
        → Gives Q (x >>= f)
    unfolding ◌>>=◌
    Gives-bind {x} {f} h k = record {
      keep = λ m. (go f k (x m).0 (x m).1 (h.sure m)).0 ∙ h.keep m;
      sure = λ m. (go f k (x m).0 (x m).1 (h.sure m)).1;
    }

  module _ {A B : Type 0} {P : A → Type 0} {R : Bool → Registry → Type 0} where
    stop_or :
        (f : A → Action N W B) (r : Registry)
        → R false r
        → ((a : A) → P a → Ends R (f a) r)
        → (t : Reply A) (m : VclusterMgr N W) → Ensures P t
        → registry m ≡ r
        → R (is_done (proceed f t m).0) (registry (proceed f t m).1)
    stop_or f r z k (done a) m p e = (k a p).ends m e
    stop_or f r z k (fails e') m p e = rw e z
    stop_or f r z k throws m p e = rw e z

    pub Ends-bind :
        {x : Action N W A} {f : A → Action N W B} (r : Registry)
        → Gives P x
        → R false r
        → ((a : A) → P a → Ends R (f a) r)
        → Ends R (x >>= f) r
    unfolding ◌>>=◌
    Ends-bind {x} {f} r h z k = record {
      ends = λ m e. stop_or f r z k (x m).0 (x m).1 (h.sure m) (h.keep m ∙ e);
    }

  pub Ends-then :
      {A B : Type 0} {R : Bool → Registry → Type 0} {x : Action N W A} {y : Action N W B}
      (r : Registry)
      → Quiet x
      → R false r
      → Ends R y r
      → Ends R (x >> y) r
  Ends-then r h z k = Ends-bind r h z (λ a p. k)

  -- A call that leaves the registry as it is does what a request may do without a change.
  pub Quiet-Ends :
      {A : Type 0} {P : Bool → Registry → Type 0} {x : Action N W A} (r : Registry)
      → Quiet x
      → ((b : Bool) → P b r)
      → Ends P x r
  Quiet-Ends {A} {P} {x} r h z = record { ends = λ m e. rw (h.keep m ∙ e) (z (is_done (x m).0)) }

  module _ {A : Type 0} where
    pub Quiet-or_fail : (a : Option A) (e : String) → Quiet (or_fail a e)
    unfolding or_fail fail pure
    Quiet-or_fail none e = quiet (λ m. refl)
    Quiet-or_fail (some a) e = quiet (λ m. refl)

    pub Quiet-or_throw : (a : Option A) → Quiet (or_throw a)
    unfolding or_throw throw pure
    Quiet-or_throw none = quiet (λ m. refl)
    Quiet-or_throw (some a) = quiet (λ m. refl)

    pub Quiet-pure : (a : A) → Quiet (pure a)
    unfolding pure
    Quiet-pure a = quiet (λ m. refl)

    pub Quiet-fail : (e : Message) → Quiet (fail {A = A} e)
    unfolding fail
    Quiet-fail e = quiet (λ m. refl)

    pub Quiet-throw : Quiet (throw {A = A})
    unfolding throw
    Quiet-throw = quiet (λ m. refl)

    pub Quiet-ignore : {x : Action N W A} → Quiet x → Quiet (ignore x)
    unfolding ignore
    Quiet-ignore h = quiet h.keep

    pub Quiet-try_or : {x : Action N W A} (e : Message) → Quiet x → Quiet (try_or e x)
    unfolding try_or
    Quiet-try_or e h = quiet h.keep

    pub Quiet-attempt : {x : Action N W A} → Quiet x → Quiet (attempt x)
    unfolding attempt
    Quiet-attempt h = quiet h.keep

    pub Quiet-on_net : (f : N → Result A × N) → Quiet (on_net f)
    unfolding on_net
    Quiet-on_net f = quiet (λ m. refl)

    pub Quiet-gets : (f : VclusterMgr N W → A) → Quiet (gets f)
    unfolding gets
    Quiet-gets f = quiet (λ m. refl)

    -- The steps of a call, one after the other
    pub Quiet-bind :
        {B : Type 0} {x : Action N W A} {f : A → Action N W B}
        → Quiet x
        → ((a : A) → Quiet (f a))
        → Quiet (x >>= f)
    Quiet-bind h k = Gives-bind h (λ a p. k a)

    pub Quiet-then :
        {B : Type 0} {x : Action N W A} {y : Action N W B} → Quiet x → Quiet y → Quiet (x >> y)
    Quiet-then h k = Gives-bind h (λ a p. k)

  pub Quiet-require : (b : Bool) (e : String) → Quiet (require b e)
  unfolding require
  Quiet-require b e = quiet (λ m. refl)

  pub Quiet-demand : (b : Bool) → Quiet (demand b)
  unfolding demand
  Quiet-demand b = quiet (λ m. refl)

  pub Quiet-unless : {x : Action N W (Unit {0})} (b : Bool) → Quiet x → Quiet (unless b x)
  unfolding unless pure
  Quiet-unless true h = quiet (λ m. refl)
  Quiet-unless false h = h

  saved :
      (f : List VCluster → List VCluster)
      → ((rows : List VCluster) → map shape (f rows) ≡ map shape rows)
      → (m : VclusterMgr N W) (good : Bool) (w : W)
      → registry (record m { world = w; clusters = if good then f m.clusters else m.clusters })
        ≡ registry m
  saved f same m true w = rw (same m.clusters) refl
  saved f same m false w = refl

  module _ (o : Outside N W) where
    pub Quiet-call : (host : String) (c : Call) → Quiet (call o host c)
    unfolding call
    Quiet-call host c = quiet (λ m. refl)

    pub Quiet-poke : (host : String) (c : Call) → Quiet (ignore (call o host c))
    unfolding call ignore
    Quiet-poke host c = quiet (λ m. refl)

    pub Quiet-send : (host : String) (c : Call) → Quiet (send o host c)
    unfolding send
    Quiet-send host c = quiet (λ m. refl)

    pub Quiet-client : (host : String) → Quiet (client o host)
    unfolding client demand
    Quiet-client host = quiet (λ m. refl)

    pub Quiet-worker : (host : String) → Quiet (worker o host)
    unfolding worker require
    Quiet-worker host = quiet (λ m. refl)

    pub Quiet-db_commit :
        (f : List VCluster → List VCluster)
        → ((rows : List VCluster) → map shape (f rows) ≡ map shape rows)
        → Quiet (db_commit o f)
    unfolding db_commit
    Quiet-db_commit f same =
        quiet (λ m. saved f same m (o.site.commit m.world).0 (o.site.commit m.world).1)

    pub Quiet-at_proxy :
        {A : Type 0} {f : String → Action N W A} (host : String)
        → ((h : String) → Quiet (f h))
        → Quiet (at_proxy o host f)
    unfolding at_proxy
    Quiet-at_proxy host h =
        Quiet-if o.distributedgw (Quiet-then (Quiet-client host) (h host)) (h o.addr)
