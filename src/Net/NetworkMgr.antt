-- ===== src/Net/NetworkMgr.antt =====
-- class NetworkMgr of src/master/network.py: the center pool of network blocks, the system's addresses
-- and the users' pools, which are kept in etcd. A method is one step. The dictionary `users` is left
-- out: a method that reads a user's entry has loaded it from etcd just before. The gateways of users,
-- which the workers set up, are left out too.
pub mod Shares
pub mod Info
pub mod Users
pub mod Accounts
pub mod Ownership
pub mod History
mod Examples
use docklet.Common.{ℕ, Bool, true, false, Option, none, some, String, List, if◌then◌else◌}
use docklet.Net.Address.{Ip}
use docklet.Net.Result.{Result, ok, refused, raises, failed, user_exists, no_user, value_error}
use docklet.Net.IntervalPool
use docklet.Net.IntervalPool.{IntervalPool, allocate, free}
use docklet.Net.EnumPool
use docklet.Net.EnumPool.{EnumPool}
use docklet.Net.UserPool
use docklet.Net.UserPool.{UserPool, get_gateway, get_gateway_cidr}
use docklet.Net.Store.{Key, center_key, system_key, user_key, Stored, Etcd}

pub record NetworkMgr (S : Type 0) : Type 0 where
  pub store : S
  pub center : IntervalPool
  pub system : EnumPool

module _ {S : Type 0} (etcd : Etcd S) where
  unfoldable pub dump_center : NetworkMgr S → NetworkMgr S
  dump_center m = record m { store = etcd.setkey center_key m.center m.store }

  unfoldable pub dump_system : NetworkMgr S → NetworkMgr S
  dump_system m = record m { store = etcd.setkey system_key m.system m.store }

  -- dump_user(username), where `self.users[username]` is `u`
  unfoldable pub dump_user : NetworkMgr S → String → UserPool → NetworkMgr S
  dump_user m username u = record m { store = etcd.setkey (user_key username) u m.store }

  -- NetworkMgr(addr_cidr, etcdclient, 'new', masterip); a refusal is the program's exit
  unfoldable pub new : Ip → ℕ → S → Result (NetworkMgr S)
  unfolding dump_center dump_system
  new addr cidr store =
      let (r, center) = allocate (IntervalPool.new addr cidr) 27 in
      elim r [
        | ok sysaddr ↦ ok (
            dump_system (
              dump_center
                (record { store = store; center = center; system = EnumPool.new sysaddr 27 })))
        | refused e ↦ refused e
        | raises e ↦ raises e
      ]

  -- the mode 'recovery'
  unfoldable pub recover : S → Result (NetworkMgr S)
  recover store = elim (etcd.getkey center_key store) [
    | none ↦ raises value_error
    | some center ↦ elim (etcd.getkey system_key store) [
      | none ↦ raises value_error
      | some system ↦ ok (record { store = store; center = center; system = system })
    ]
  ]

  unfoldable pub has_user : NetworkMgr S → String → Bool
  has_user m username = elim (etcd.getkey (user_key username) m.store) [
    | none ↦ false
    | some u ↦ true
  ]

  -- The end of `add_user`, from the block b on.
  unfoldable pub settle : NetworkMgr S → String → Ip → ℕ → Result (Unit {0}) × NetworkMgr S
  unfolding dump_user
  settle m username b cidr = elim (UserPool.new b cidr) [
    | ok u ↦ (ok tt, dump_user m username u)
    | refused e ↦ (refused e, m)
    | raises e ↦ (refused (failed e), m)
  ]

  -- add_user(username, cidr)
  unfoldable pub add_user : NetworkMgr S → String → ℕ → Result (Unit {0}) × NetworkMgr S
  unfolding settle
  add_user m username cidr =
      let (r, center) = allocate m.center cidr in
      let m' = dump_center (record m { center = center }) in
      if has_user m username then (refused user_exists, m) else elim r [
        | ok b ↦ settle m' username b cidr
        | refused e ↦ (refused e, m')
        | raises e ↦ (refused (failed e), m')
      ]

  -- The end of `del_user`, with the center pool after `free`.
  unfoldable pub forget : NetworkMgr S → String → IntervalPool → NetworkMgr S
  forget m username center =
      let m' = dump_center (record m { center = center }) in
      record m' { store = etcd.deldir (user_key username) m'.store }

  -- del_user(username), which goes on whatever `free` returns
  unfoldable pub del_user : NetworkMgr S → String → Result (Unit {0}) × NetworkMgr S
  unfolding forget
  del_user m username = elim (etcd.getkey (user_key username) m.store) [
    | none ↦ (refused no_user, m)
    | some u ↦ elim (free m.center u.info_addr u.info_cidr) [
      | ok center ↦ (ok tt, forget m username center)
      | refused _ ↦ (ok tt, forget m username m.center)
      | raises e ↦ (refused (failed e), m)
    ]
  ]

  -- What the methods on a user's pool have in common: load it, call it, dump it.
  unfoldable pub on_user :
      {A : Type 0}
      → NetworkMgr S
      → String
      → (UserPool → Result A × UserPool)
      → Result A × NetworkMgr S
  unfolding dump_user
  on_user m username f = elim (etcd.getkey (user_key username) m.store) [
    | none ↦ (refused no_user, m)
    | some u ↦ let (r, u') = f u in (r, dump_user m username u')
  ]

  unfoldable pub acquire_userips : NetworkMgr S → String → ℕ → Result (List Ip) × NetworkMgr S
  acquire_userips m username num = on_user m username (λ u. UserPool.acquire u num)

  unfoldable pub acquire_userips_cidr :
      NetworkMgr S → String → ℕ → Result (List (Ip × ℕ)) × NetworkMgr S
  acquire_userips_cidr m username num = on_user m username (λ u. UserPool.acquire_cidr u num)

  unfoldable pub release_userips :
      NetworkMgr S → String → List (Ip × Option ℕ) → Result (Unit {0}) × NetworkMgr S
  release_userips m username ips = on_user m username (λ u. UserPool.release u ips)

  unfoldable pub get_usergw : NetworkMgr S → String → Result Ip × NetworkMgr S
  get_usergw m username = on_user m username (λ u. (ok (get_gateway u), u))

  unfoldable pub get_usergw_cidr : NetworkMgr S → String → Result (Ip × ℕ) × NetworkMgr S
  get_usergw_cidr m username = on_user m username (λ u. (ok (get_gateway_cidr u), u))

  unfoldable pub acquire_sysips : NetworkMgr S → ℕ → Result (List Ip) × NetworkMgr S
  acquire_sysips m num =
      let (r, e) = EnumPool.acquire m.system num in (r, dump_system (record m { system = e }))

  unfoldable pub acquire_sysips_cidr : NetworkMgr S → ℕ → Result (List (Ip × ℕ)) × NetworkMgr S
  acquire_sysips_cidr m num =
      let (r, e) = EnumPool.acquire_cidr m.system num in (r, dump_system (record m { system = e }))

  unfoldable pub release_sysips :
      NetworkMgr S → List (Ip × Option ℕ) → Result (Unit {0}) × NetworkMgr S
  release_sysips m ips =
      let (r, e) = EnumPool.release m.system ips in (r, dump_system (record m { system = e }))
