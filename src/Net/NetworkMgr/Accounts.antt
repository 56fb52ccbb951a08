-- ===== src/Net/NetworkMgr/Accounts.antt =====
-- A user who is added and deleted again, and a user whose network is too small.
use docklet.Common.{
  ℕ, zero, suc, ◌^◌, ◌+◌, ◌-◌, ◌≤◌, ◌<◌, ◌≡◌, refl, ap, ap₂, ◌∙◌, some, [], String, arith, false,
}
use docklet.Net.Address.{Ip, ip_to_int, fix_ip, block_size}
use docklet.Net.Address.Laws.{fix_ip_aligned}
use docklet.Net.Result.{ok, refused, raises, failed, index_error}
use docklet.Net.IntervalPool.{allocate, sort}
use docklet.Net.IntervalPool.Cover.{cover, inside}
use docklet.Net.IntervalPool.Allocate.{Allocated, allocate_ok}
use docklet.Net.EnumPool
use docklet.Net.EnumPool.{hosts}
use docklet.Net.UserPool
use docklet.Net.UserPool.{UserPool, set_gateway}
use docklet.Net.UserPool.Gateway.{new_ok}
use docklet.Net.Store.{user_key, Etcd, center_key}
use docklet.Net.NetworkMgr.{
  NetworkMgr, dump_center, dump_user, has_user, settle, add_user, del_user,
}
use docklet.Net.NetworkMgr.Info.{new_info}
use docklet.Net.NetworkMgr.Users.{IsManaged, add_user-IsManaged, del_user_ok, with_center}

pow_small : (k : ℕ) → k ≤ 1 → 2 ^ k ≤ 2
pow_small zero le = omega arith
pow_small (suc zero) le = omega arith
pow_small (suc (suc k)) le = absurd (omega arith)

small_hosts : (b : ℕ) (c : ℕ) → 30 < c → hosts b 1 (block_size c - 2) ≡ []
unfolding hosts block_size
small_hosts b c big =
    let none_left : block_size c - 2 ≡ 0 = omega (arith, pow_small (32 - c) (omega arith)) in
    rw none_left refl

new_small : (b : Ip) (c : ℕ) → 30 < c → UserPool.new b c ≡ raises index_error
unfolding UserPool.new EnumPool.new set_gateway sort
new_small b c big = rw (small_hosts (ip_to_int (fix_ip b c)) c big) refl

module _ {S : Type 0} (etcd : Etcd S) (m : NetworkMgr S) (s : IsManaged etcd m) (n : String) (c : ℕ)
    (b : Ip) (absent : has_user etcd m n ≡ false) (good : (allocate m.center c).0 ≡ ok b) where
  abbrev taken : NetworkMgr S
  taken = with_center etcd m (allocate m.center c).1

  given : Allocated m.center (allocate m.center c).1 c b
  given = allocate_ok m.center c b s.valid good

  added :
      (u : UserPool)
      → UserPool.new b c ≡ ok u
      → add_user etcd m n c ≡ (ok tt, dump_user etcd taken n u)
  unfolding add_user settle
  added u made = rw (absent, good, made, add_user, settle) refl

  -- Where the network is shared, the user is unknown and the center pool grants a block for a
  -- cidr of at most 30, adding and then deleting the user both succeed, and the same addresses
  -- are free as before.
  pub del_user-add_user :
      c ≤ 30
      → ((add_user etcd m n c).0 ≡ ok tt)
        × ((del_user etcd (add_user etcd m n c).1 n).0 ≡ ok tt)
        × ((x : ℕ) → cover (del_user etcd (add_user etcd m n c).1 n).1.center x ≡ cover m.center x)
  unfolding dump_user dump_center
  del_user-add_user le =
      let (u, made, _, _, _) = new_ok b c given.block.quad le in
      let (addr, cidr) = new_info b c u made in
      let same = addr ∙ fix_ip_aligned b c given.block.quad given.block.aligned in
      let m' = (add_user etcd m n c).1 in
      let state : m' ≡ dump_user etcd taken n u = ap (λ r. r.1) (added u made) in
      let there : etcd.getkey (user_key n) m'.store ≡ some u =
        ap (λ (k : NetworkMgr S). etcd.getkey (user_key n) k.store) state
        ∙ etcd.get_set (user_key n) u taken.store in
      let (deleted, back, _, _) = del_user_ok etcd m' n u (add_user-IsManaged etcd m n c s) there in
      (
        ap (λ r. r.0) (added u made),
        deleted,
        λ x. omega (
          arith,
          back.gain x,
          given.loses x,
          ap (λ (k : NetworkMgr S). cover k.center x) state,
          ap₂ (λ a k. inside (ip_to_int a) k x) same cidr,
        ),
      )

  -- Where the network is shared, the user is unknown and the center pool grants a block for a
  -- cidr above 30, adding the user is refused with the text of an exception, the user is still
  -- unknown, and the block is no longer free.
  pub add_user-leak :
      30 < c
      → ((add_user etcd m n c).0 ≡ refused (failed index_error))
        × (has_user etcd (add_user etcd m n c).1 n ≡ false)
        × ((x : ℕ)
            → cover m.center x ≡ cover (add_user etcd m n c).1.center x + inside (ip_to_int b) c x)
  unfolding add_user settle dump_center has_user
  add_user-leak big =
      rw (absent, good, new_small b c big, add_user, settle)
        (
          refl,
          rw
              (
                etcd.get_set_other center_key (user_key n) (allocate m.center c).1 m.store
                    (λ e. cc),
                has_user,
              )
              absent,
          given.loses,
        )
