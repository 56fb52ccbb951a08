-- ===== src/Net/NetworkMgr/Examples.antt =====
-- A store that answers as etcd does, and the theorems on managers at 10.0.0.0/24.
use docklet.Common.{
  subst, sym, ◌∙◌, ◌⊎◌, ◌++◌, length, ℕ, ◌^◌, ◌+◌, ◌<◌, ◌≤◌, ◌≡◌, ◌≢◌, refl, ap, inl, inr, false,
  Bool-cases, Option, none, some, List, [], ◌∷◌, String, str_eq, eq_iff, eq_refl, if◌then◌else◌,
  arith,
}
use docklet.Net.Address.{Ip, ip_to_int, int_to_ip, block_size, fix_ip, next_interval}
use docklet.Net.Result.{ok-injective, not_enough, ok, refused, failed, index_error}
use docklet.Net.IntervalPool
use docklet.Net.IntervalPool.{IntervalPool, allocate, find_up, split, at, put, remove}
use docklet.Net.IntervalPool.Cover.{cover, inside}
use docklet.Net.IntervalPool.Held.{Returned}
use docklet.Net.EnumPool
use docklet.Net.EnumPool.{EnumPool, hosts}
use docklet.Net.UserPool
use docklet.Net.UserPool.{UserPool}
use docklet.Net.Store.{Key, center_key, system_key, user_key, Stored, Etcd}
use docklet.Net.NetworkMgr
use docklet.Net.NetworkMgr.{
  NetworkMgr, add_user, del_user, has_user, acquire_userips, release_userips,
}
use docklet.Net.NetworkMgr.Users.{IsManaged, add_user-IsManaged, del_user_ok}
use docklet.Net.Etcdlib.{
  Service, Answer, no_action, node, HttpRequest, get_request, delete_request, put_request, client,
  getkey, setkey,
}
use docklet.Net.UserPool.Gateway.{new_ok}
use docklet.Net.EnumPool.Count.{count}
use docklet.Net.EnumPool.Ownership.{Conserved}
use docklet.Net.NetworkMgr.Ownership.{Keeps, acquire_userips-Keeps, release_userips-Keeps}
use docklet.Net.NetworkMgr.Accounts.{del_user-add_user, add_user-leak}
use docklet.Net.NetworkMgr.History.{IsFresh, Request, adds, acquires, deletes, run, run-IsManaged}

record Table : Type 0 where
  center : Option IntervalPool
  system : Option EnumPool
  users : String → Option UserPool

abbrev get_table : (k : Key) → Table → Option (Stored k)
get_table center_key s = s.center
get_table system_key s = s.system
get_table (user_key n) s = s.users n

abbrev set_table : (k : Key) → Stored k → Table → Table
set_table center_key v s = record s { center = some v }
set_table system_key v s = record s { system = some v }
set_table (user_key n) v s = record s { users = λ k. if str_eq n k then some v else s.users k }

abbrev del_table : Key → Table → Table
del_table center_key s = record s { center = none }
del_table system_key s = record s { system = none }
del_table (user_key n) s = record s { users = λ k. if str_eq n k then none else s.users k }

other_name : (n k : String) → user_key n ≢ user_key k → str_eq n k ≡ false
other_name n k ne = elim (Bool-cases (str_eq n k)) [
  | inl same ↦ absurd (ne (ap user_key ((eq_iff n k).0 same)))
  | inr other ↦ other
]

get_set_table : (k : Key) (v : Stored k) (s : Table) → get_table k (set_table k v s) ≡ some v
get_set_table center_key v s = refl
get_set_table system_key v s = refl
get_set_table (user_key n) v s = rw (eq_refl n) refl

get_set_table_other :
    (k j : Key) (v : Stored k) (s : Table) → k ≢ j → get_table j (set_table k v s) ≡ get_table j s
get_set_table_other center_key center_key v s ne = absurd (ne refl)
get_set_table_other center_key system_key v s ne = refl
get_set_table_other center_key (user_key n) v s ne = refl
get_set_table_other system_key center_key v s ne = refl
get_set_table_other system_key system_key v s ne = absurd (ne refl)
get_set_table_other system_key (user_key n) v s ne = refl
get_set_table_other (user_key n) center_key v s ne = refl
get_set_table_other (user_key n) system_key v s ne = refl
get_set_table_other (user_key n) (user_key k) v s ne = rw (other_name n k ne) refl

get_del_table : (k : Key) (s : Table) → get_table k (del_table k s) ≡ none
get_del_table center_key s = refl
get_del_table system_key s = refl
get_del_table (user_key n) s = rw (eq_refl n) refl

get_del_table_other : (k j : Key) (s : Table) → k ≢ j → get_table j (del_table k s) ≡ get_table j s
get_del_table_other center_key center_key s ne = absurd (ne refl)
get_del_table_other center_key system_key s ne = refl
get_del_table_other center_key (user_key n) s ne = refl
get_del_table_other system_key center_key s ne = refl
get_del_table_other system_key system_key s ne = absurd (ne refl)
get_del_table_other system_key (user_key n) s ne = refl
get_del_table_other (user_key n) center_key s ne = refl
get_del_table_other (user_key n) system_key s ne = refl
get_del_table_other (user_key n) (user_key k) s ne = rw (other_name n k ne) refl

abbrev table_etcd : Etcd Table
table_etcd = record {
  getkey = get_table;
  setkey = set_table;
  deldir = del_table;
  get_set = get_set_table;
  get_set_other = get_set_table_other;
  get_del = get_del_table;
  get_del_other = get_del_table_other;
}

abbrev answer_of : {k : Key} → Option (Stored k) → Answer k
answer_of none = no_action
answer_of (some v) = node v

abbrev ask_table : (k : Key) → HttpRequest k → Table → Answer k × Table
ask_table k get_request s = (answer_of (get_table k s), s)
ask_table k delete_request s = (no_action, del_table k s)
ask_table k (put_request v) s = (node v, set_table k v s)

-- The same table as a service that answers requests.
abbrev table_service : Service Table
table_service = record {
  dorequest = ask_table;
  get_keeps = λ k s. refl;
  put_get = λ k v s. ap answer_of (get_set_table k v s);
  put_get_other = λ k j v s ne. ap answer_of (get_set_table_other k j v s ne);
  delete_get = λ k s. ap answer_of (get_del_table k s);
  delete_get_other = λ k j s ne. ap answer_of (get_del_table_other k j s ne);
}

abbrev empty : Table
empty = record { center = none; system = none; users = λ k. none }

abbrev addr : Ip
addr = record { a = 10; b = 0; c = 0; d = 64 }

abbrev base : Ip
base = record { a = 10; b = 0; c = 0; d = 0 }

abbrev center : IntervalPool
center = (allocate (IntervalPool.new addr 24) 27).1

abbrev start : NetworkMgr Table
start = record {
  store = set_table system_key (EnumPool.new base 27) (set_table center_key center empty);
  center = center;
  system = EnumPool.new base 27;
}

starts : NetworkMgr.new table_etcd addr 24 empty ≡ ok start
unfolding NetworkMgr.new NetworkMgr.dump_center NetworkMgr.dump_system allocate find_up
    IntervalPool.new fix_ip ip_to_int int_to_ip block_size
starts = refl

top : IntervalPool.Cover.end (IntervalPool.new addr 24) < 2 ^ 32
top = unfold IntervalPool.new fix_ip ip_to_int int_to_ip block_size in omega arith

abbrev requests : List Request
requests = adds "eve" 28 ∷ acquires "eve" 3 ∷ adds "bob" 31 ∷ deletes "eve" ∷ []

client_starts : NetworkMgr.new (client table_service) addr 24 empty ≡ ok start
unfolding client setkey NetworkMgr.new NetworkMgr.dump_center NetworkMgr.dump_system allocate
    find_up IntervalPool.new fix_ip ip_to_int int_to_ip block_size
client_starts = refl

client-IsFresh : IsFresh (client table_service) empty
unfolding client getkey
client-IsFresh = λ n. refl

run-IsManaged_example : IsManaged (client table_service) (run (client table_service) start requests)
run-IsManaged_example =
    run-IsManaged (client table_service) addr 24 empty start requests (omega arith) (omega arith)
      top client-IsFresh client_starts

start-IsManaged : IsManaged table_etcd start
unfolding run
start-IsManaged =
    run-IsManaged table_etcd addr 24 empty start [] (omega arith) (omega arith) top (λ n. refl)
      starts

-- 10.0.0.32
abbrev next : Ip
next = record { a = 10; b = 0; c = 0; d = 32 }

grants : (allocate start.center 28).0 ≡ ok next
unfolding allocate find_up split at put IntervalPool.new fix_ip ip_to_int int_to_ip block_size
    next_interval
grants = refl

-- a block of two addresses
grants_two : (allocate start.center 31).0 ≡ ok next
unfolding allocate find_up split at put IntervalPool.new fix_ip ip_to_int int_to_ip block_size
    next_interval
grants_two = refl

unknown : has_user table_etcd start "eve" ≡ false
unfolding has_user
unknown = refl

del_user-add_user_example :
    ((add_user table_etcd start "eve" 28).0 ≡ ok tt)
    × ((del_user table_etcd (add_user table_etcd start "eve" 28).1 "eve").0 ≡ ok tt)
    × ((x : ℕ)
        → cover (del_user table_etcd (add_user table_etcd start "eve" 28).1 "eve").1.center x
          ≡ cover start.center x)
del_user-add_user_example =
    del_user-add_user table_etcd start start-IsManaged "eve" 28 next unknown grants (omega arith)

add_user-leak_example :
    ((add_user table_etcd start "eve" 31).0 ≡ refused (failed index_error))
    × (has_user table_etcd (add_user table_etcd start "eve" 31).1 "eve" ≡ false)
    × ((x : ℕ)
        → cover start.center x
          ≡ cover (add_user table_etcd start "eve" 31).1.center x + inside (ip_to_int next) 31 x)
add_user-leak_example =
    add_user-leak table_etcd start start-IsManaged "eve" 31 next unknown grants_two (omega arith)

abbrev with_eve : NetworkMgr Table
with_eve = (add_user table_etcd start "eve" 28).1

abbrev eve : UserPool
eve = record {
  enum = record { info_addr = next; info_cidr = 28; pool = hosts (ip_to_int next) 2 13 };
  gateway = record { a = 10; b = 0; c = 0; d = 33 };
}

eve_there : get_table (user_key "eve") with_eve.store ≡ some eve
unfolding add_user has_user NetworkMgr.settle NetworkMgr.dump_user allocate find_up split at put
    IntervalPool.new fix_ip ip_to_int int_to_ip block_size next_interval UserPool.new EnumPool.new
    hosts IntervalPool.sort IntervalPool.insert remove
eve_there = refl

with_eve-IsManaged : IsManaged table_etcd with_eve
with_eve-IsManaged = add_user-IsManaged table_etcd start "eve" 28 start-IsManaged

del_user_ok_example :
    ((del_user table_etcd with_eve "eve").0 ≡ ok tt)
    × Returned with_eve.center (del_user table_etcd with_eve "eve").1.center next 28
    × (has_user table_etcd (del_user table_etcd with_eve "eve").1 "eve" ≡ false)
    × IsManaged table_etcd (del_user table_etcd with_eve "eve").1
del_user_ok_example = del_user_ok table_etcd with_eve "eve" eve with_eve-IsManaged eve_there

eve_made : UserPool.new next 28 ≡ ok eve
unfolding UserPool.new EnumPool.new UserPool.set_gateway hosts fix_ip ip_to_int int_to_ip block_size
    IntervalPool.sort IntervalPool.insert remove
eve_made = refl

eve_Keeps : Keeps table_etcd with_eve "eve" []
eve_Keeps =
    let (u, made, _, _, c) = new_ok next 28 (omega arith) (omega arith) in
    record {
      user = eve;
      there = eve_there;
      conserved =
          subst (λ v. Conserved (UserPool.inrange v) v.enum []) (ok-injective (sym made ∙ eve_made))
            c;
    }

abbrev eve_one : NetworkMgr Table
eve_one = (acquire_userips table_etcd with_eve "eve" 1).1

acquire_userips-Keeps_example :
    ((length eve_Keeps.user.pool < 1)
      × ((acquire_userips table_etcd with_eve "eve" 1).0 ≡ refused not_enough)
      × Keeps table_etcd eve_one "eve" [])
    ⊎ ((ips : List Ip) × (1 ≤ length eve_Keeps.user.pool)
        × ((acquire_userips table_etcd with_eve "eve" 1).0 ≡ ok ips)
        × (length ips ≡ 1)
        × Keeps table_etcd eve_one "eve" (ips ++ []))
acquire_userips-Keeps_example = acquire_userips-Keeps table_etcd with_eve "eve" [] eve_Keeps 1

-- 10.0.0.46, the last address but one
abbrev last_host : Ip
last_host = record { a = 10; b = 0; c = 0; d = 46 }

eve_took : (acquire_userips table_etcd with_eve "eve" 1).0 ≡ ok (last_host ∷ [])
unfolding acquire_userips NetworkMgr.on_user add_user has_user allocate find_up IntervalPool.new
    split put at UserPool.new IntervalPool.sort EnumPool.new hosts block_size IntervalPool.insert
    ip_to_int int_to_ip fix_ip next_interval EnumPool.acquire EnumPool.pop EnumPool.pops remove
    NetworkMgr.dump_user NetworkMgr.settle UserPool.acquire UserPool.set_gateway
eve_took = refl

one_Keeps : Keeps table_etcd eve_one "eve" (last_host ∷ [])
one_Keeps = elim (acquire_userips-Keeps table_etcd with_eve "eve" [] eve_Keeps 1) [
  | inl (_, bad, _) ↦ absurd (cc (bad, eve_took))
  | inr (ips, _, e, _, k) ↦
      subst (λ t. Keeps table_etcd eve_one "eve" (t ++ [])) (ok-injective (sym e ∙ eve_took)) k
]

release_userips-Keeps_example :
    ((release_userips table_etcd eve_one "eve" ((last_host, some 28) ∷ [])).0 ≡ ok tt)
    × Keeps table_etcd
        (release_userips table_etcd eve_one "eve" ((last_host, some 28) ∷ [])).1
        "eve"
        []
release_userips-Keeps_example =
    release_userips-Keeps table_etcd eve_one "eve" (last_host ∷ []) one_Keeps
      ((last_host, some 28) ∷ []) [] (omega arith) (λ x. unfold count in omega arith)
