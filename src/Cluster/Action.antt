-- ===== src/Cluster/Action.antt =====
-- A method call of class VclusterMgr of src/master/vclustermgr.py: the state, and how it returns.
use docklet.Common.{ℕ, Bool, true, false, Option, none, some, List, String, if◌then◌else◌}
use docklet.Net.Result.{Result, ok, refused, Refusal}
use docklet.Cluster.Rows.{VCluster}
use docklet.Cluster.Site.{Call, Answer, yes, no, raised, Outside}

-- The network manager, the database's rows, the key vcluster/nextid of etcd, and what lies outside.
pub record VclusterMgr (N W : Type 0) : Type 0 where
  pub net : N
  pub clusters : List VCluster
  pub nextid : ℕ
  pub world : W

-- The second part of `[False, message]`; the names put into a text are left out.
pub data Message : Type 0 where
  text : String → Message
  refusal : Refusal → Message

-- `[True, a]`, `[False, message]`, or an exception that leaves the method
pub data Reply (A : Type 0) : Type 0 where
  done : A → Reply A
  fails : Message → Reply A
  throws : Reply A

abbrev pub is_done : {A : Type 0} → Reply A → Bool
is_done (done a) = true
is_done (fails e) = false
is_done throws = false

module _ {A : Type 0} where
  abbrev pub caught : Message → Reply A → Reply A
  caught e (done a) = done a
  caught e (fails e') = fails e'
  caught e throws = fails e

  abbrev pub dropped : Reply A → Reply (Unit {0})
  dropped (done a) = done tt
  dropped (fails e) = done tt
  dropped throws = throws

  abbrev pub tried : Reply A → Reply Bool
  tried (done a) = done true
  tried (fails e) = done false
  tried throws = throws

  abbrev pub reply : Result A → Reply A
  reply (ok a) = done a
  reply (refused e) = fails (refusal e)
  reply (Result.raises e) = throws

abbrev pub answered : Answer → Reply ℕ
answered (yes n) = done n
answered (no e) = fails (text e)
answered raised = throws

abbrev pub Action : Type 0 → Type 0 → Type 0 → Type 0
Action N W A = VclusterMgr N W → Reply A × VclusterMgr N W

module _ {N W : Type 0} where
  module _ {A : Type 0} where
    unfoldable pub pure : A → Action N W A
    pure a m = (done a, m)

    unfoldable pub fail : Message → Action N W A
    fail e m = (fails e, m)

    unfoldable pub throw : Action N W A
    throw m = (throws, m)

    unfoldable pub gets : (VclusterMgr N W → A) → Action N W A
    gets f m = (done (f m), m)

    unfoldable pub or_fail : Option A → String → Action N W A
    or_fail none e = fail (text e)
    or_fail (some a) e = pure a

    unfoldable pub or_throw : Option A → Action N W A
    or_throw none = throw
    or_throw (some a) = pure a

    -- try: ... except: return [False, e]
    unfoldable pub try_or : Message → Action N W A → Action N W A
    try_or e x m = (caught e (x m).0, (x m).1)

    -- A call whose `[success, message]` nothing reads
    unfoldable pub ignore : Action N W A → Action N W (Unit {0})
    ignore x m = (dropped (x m).0, (x m).1)

    -- A method of the network manager
    unfoldable pub on_net : (N → Result A × N) → Action N W A
    on_net f m = (reply (f m.net).0, record m { net = (f m.net).1 })

  -- The `success` of a call, whose message is only logged
  unfoldable pub attempt : {A : Type 0} → Action N W A → Action N W Bool
  attempt x m = (tried (x m).0, (x m).1)

  unfoldable pub require : Bool → String → Action N W (Unit {0})
  require b e m = (if b then done tt else fails (text e), m)

  unfoldable pub demand : Bool → Action N W (Unit {0})
  demand b m = (if b then done tt else throws, m)

  unfoldable pub unless : Bool → Action N W (Unit {0}) → Action N W (Unit {0})
  unless b x = if b then pure tt else x

  module _ {A B : Type 0} where
    abbrev pub proceed : (A → Action N W B) → Reply A → VclusterMgr N W → Reply B × VclusterMgr N W
    proceed f (done a) m = f a m
    proceed f (fails e) m = (fails e, m)
    proceed f throws m = (throws, m)

    infixl 5 ◌>>=◌ ◌>>◌
    unfoldable pub ◌>>=◌ : Action N W A → (A → Action N W B) → Action N W B
    ◌>>=◌ x f m = proceed f (x m).0 (x m).1

    abbrev pub ◌>>◌ : Action N W A → Action N W B → Action N W B
    x >> y = x >>= λ _. y

  -- A call, and what it answers
  unfoldable pub send : Outside N W → String → Call → Action N W Answer
  send o host c m =
      (done (o.site.call host c m.world).0, record m { world = (o.site.call host c m.world).1 })

  -- `if not success: return [False, message]`
  unfoldable pub call : Outside N W → String → Call → Action N W ℕ
  call o host c m =
      (answered (o.site.call host c m.world).0, record m { world = (o.site.call host c m.world).1 })

  -- The client of a host: `None` has no methods.
  unfoldable pub client : Outside N W → String → Action N W (Unit {0})
  client o host m = demand (o.site.connected host m.world) m

  -- `if worker is None: return [False, ...]`
  unfoldable pub worker : Outside N W → String → Action N W (Unit {0})
  worker o host m =
      require (o.site.connected host m.world) "The worker can't be found or has been stopped." m

  -- The host that keeps a cluster's proxy: through its client with distributed gateways, else here.
  unfoldable pub at_proxy :
      {A : Type 0} → Outside N W → String → (String → Action N W A) → Action N W A
  at_proxy o proxy_server_ip f =
      if o.distributedgw then client o proxy_server_ip >> f proxy_server_ip else f o.addr

  -- Saves the rows as a change leaves them; after a rollback they are as they were.
  unfoldable pub db_commit : Outside N W → (List VCluster → List VCluster) → Action N W Bool
  db_commit o f m = (
    done (o.site.commit m.world).0,
    record m {
      world = (o.site.commit m.world).1;
      clusters = if (o.site.commit m.world).0 then f m.clusters else m.clusters;
    },
  )
