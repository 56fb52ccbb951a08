-- ===== src/Net/Etcdlib.antt =====
-- The key functions of class Client in src/utils/etcdlib.py over the etcd service, and the interface of
-- Net.Store that they fill. The service is a parameter: what it answers to a request, and its state
-- afterwards.
use docklet.Common.{◌≡◌, ◌≢◌, ap, Option, none, some}
use docklet.Net.Store.{Key, Stored, Etcd}

-- dorequest's url, data and method, for the key k
pub data HttpRequest (k : Key) : Type 0 where
  get_request delete_request : HttpRequest k
  put_request : Stored k → HttpRequest k

-- The answer `out`: without an 'action', or with a node and its value. No key of the manager is a
-- directory, whose node has no value.
pub data Answer (k : Key) : Type 0 where
  no_action : Answer k
  node : Stored k → Answer k

-- What etcd documents: a key that was put is read back, a key that was deleted is not found, a
-- request leaves the other keys alone, and reading changes nothing.
pub record Service (S : Type 0) : Type 0 where
  pub dorequest : (k : Key) → HttpRequest k → S → Answer k × S
  pub get_keeps : (k : Key) (s : S) → (dorequest k get_request s).1 ≡ s
  pub put_get :
      (k : Key) (v : Stored k) (s : S)
      → (dorequest k get_request (dorequest k (put_request v) s).1).0 ≡ node v
  pub put_get_other :
      (k j : Key) (v : Stored k) (s : S)
      → k ≢ j
      → (dorequest j get_request (dorequest k (put_request v) s).1).0
        ≡ (dorequest j get_request s).0
  pub delete_get :
      (k : Key) (s : S) → (dorequest k get_request (dorequest k delete_request s).1).0 ≡ no_action
  pub delete_get_other :
      (k j : Key) (s : S)
      → k ≢ j
      → (dorequest j get_request (dorequest k delete_request s).1).0 ≡ (dorequest j get_request s).0

-- `[True, value]` or `[False, message]`
abbrev pub value_of : {k : Key} → Answer k → Option (Stored k)
value_of no_action = none
value_of (node v) = some v

module _ {S : Type 0} (service : Service S) where
  -- The state after a read is the state before it.
  unfoldable pub getkey : (k : Key) → S → Option (Stored k)
  getkey k s = value_of (service.dorequest k get_request s).0

  unfoldable pub setkey : (k : Key) → Stored k → S → S
  setkey k v s = (service.dorequest k (put_request v) s).1

  unfoldable pub deldir : Key → S → S
  deldir k s = (service.dorequest k delete_request s).1

  -- The client as the store of the network manager.
  unfoldable pub client : Etcd S
  unfolding getkey setkey deldir
  client = record {
    getkey = getkey;
    setkey = setkey;
    deldir = deldir;
    get_set = λ k v s. ap value_of (service.put_get k v s);
    get_set_other = λ k j v s ne. ap value_of (service.put_get_other k j v s ne);
    get_del = λ k s. ap value_of (service.delete_get k s);
    get_del_other = λ k j s ne. ap value_of (service.delete_get_other k j s ne);
  }
