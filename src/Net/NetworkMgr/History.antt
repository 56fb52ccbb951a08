-- ===== src/Net/NetworkMgr/History.antt =====
-- A manager from its start through any requests, one after another.
use docklet.Common.{
  ℕ, ◌≤◌, ◌<◌, ◌^◌, ◌≡◌, ◌≢◌, refl, ap, subst, ◌∙◌, inl, inr, Option, none, some, List, [], ◌∷◌,
  String,
}
use docklet.Net.Address.{Ip}
use docklet.Net.Address.Laws.{IsQuad, fix_ip_aligned}
use docklet.Net.Result.{ok, ok-injective}
use docklet.Net.IntervalPool
use docklet.Net.IntervalPool.{IntervalPool, allocate}
use docklet.Net.IntervalPool.Cover.{end}
use docklet.Net.IntervalPool.New.{new-IsValid}
use docklet.Net.IntervalPool.Allocate.{allocate_ok}
use docklet.Net.EnumPool
use docklet.Net.EnumPool.{EnumPool}
use docklet.Net.UserPool
use docklet.Net.UserPool.{UserPool}
use docklet.Net.Store.{Key, center_key, system_key, user_key, Etcd}
use docklet.Net.NetworkMgr
use docklet.Net.NetworkMgr.{
  NetworkMgr, add_user, del_user, acquire_userips, acquire_userips_cidr, release_userips,
  get_usergw, get_usergw_cidr, acquire_sysips, acquire_sysips_cidr, release_sysips, dump_center,
  dump_system,
}
use docklet.Net.NetworkMgr.Shares.{give-IsShared, nobody, nobody-IsShared}
use docklet.Net.NetworkMgr.Info.{
  refl-SameNet, acquire-SameNet, acquire_cidr-SameNet, release_by-SameNet, allocate-kept,
}
use docklet.Net.NetworkMgr.Users.{
  network_of, holding, IsManaged, add_user-IsManaged, del_user-IsManaged, on_user-IsManaged,
  system-IsManaged,
}

pub data Request : Type 0 where
  adds : String → ℕ → Request
  deletes : String → Request
  acquires acquires_cidr : String → ℕ → Request
  releases : String → List (Ip × Option ℕ) → Request
  gets_gw gets_gw_cidr : String → Request
  acquires_sys acquires_sys_cidr : ℕ → Request
  releases_sys : List (Ip × Option ℕ) → Request

module _ {S : Type 0} (etcd : Etcd S) where
  -- The manager after a request.
  unfoldable pub step : NetworkMgr S → Request → NetworkMgr S
  step m (adds n cidr) = (add_user etcd m n cidr).1
  step m (deletes n) = (del_user etcd m n).1
  step m (acquires n num) = (acquire_userips etcd m n num).1
  step m (acquires_cidr n num) = (acquire_userips_cidr etcd m n num).1
  step m (releases n ips) = (release_userips etcd m n ips).1
  step m (gets_gw n) = (get_usergw etcd m n).1
  step m (gets_gw_cidr n) = (get_usergw_cidr etcd m n).1
  step m (acquires_sys num) = (acquire_sysips etcd m num).1
  step m (acquires_sys_cidr num) = (acquire_sysips_cidr etcd m num).1
  step m (releases_sys ips) = (release_sysips etcd m ips).1

  unfoldable pub run : NetworkMgr S → List Request → NetworkMgr S
  unfolding step
  run m [] = m
  run m (r ∷ rs) = run (step m r) rs

  step-IsManaged : (m : NetworkMgr S) (r : Request) → IsManaged etcd m → IsManaged etcd (step m r)
  unfolding step acquire_userips acquire_userips_cidr release_userips get_usergw get_usergw_cidr
      acquire_sysips acquire_sysips_cidr release_sysips UserPool.acquire UserPool.acquire_cidr
      UserPool.release EnumPool.release
  step-IsManaged m (adds n cidr) s = add_user-IsManaged etcd m n cidr s
  step-IsManaged m (deletes n) s = del_user-IsManaged etcd m n s
  step-IsManaged m (acquires n num) s =
      on_user-IsManaged etcd m n (λ u. UserPool.acquire u num) (λ u. acquire-SameNet u.enum num) s
  step-IsManaged m (acquires_cidr n num) s =
      on_user-IsManaged etcd m n (λ u. UserPool.acquire_cidr u num)
        (λ u. acquire_cidr-SameNet u.enum num) s
  step-IsManaged m (releases n ips) s =
      on_user-IsManaged etcd m n (λ u. UserPool.release u ips)
        (λ u. release_by-SameNet (UserPool.inrange u) u.enum ips) s
  step-IsManaged m (gets_gw n) s = on_user-IsManaged etcd m n _ (λ u. refl-SameNet u.enum) s
  step-IsManaged m (gets_gw_cidr n) s = on_user-IsManaged etcd m n _ (λ u. refl-SameNet u.enum) s
  step-IsManaged m (acquires_sys num) s = system-IsManaged etcd m _ (acquire-SameNet m.system num) s
  step-IsManaged m (acquires_sys_cidr num) s =
      system-IsManaged etcd m _ (acquire_cidr-SameNet m.system num) s
  step-IsManaged m (releases_sys ips) s =
      system-IsManaged etcd m _ (release_by-SameNet (EnumPool.inrange m.system) m.system ips) s

  run-IsManaged_of :
      (m : NetworkMgr S) (rs : List Request) → IsManaged etcd m → IsManaged etcd (run m rs)
  unfolding run
  run-IsManaged_of m [] s = s
  run-IsManaged_of m (r ∷ rs) s = run-IsManaged_of (step m r) rs (step-IsManaged m r s)

  -- No user is stored yet.
  abbrev pub IsFresh : S → Type 0
  IsFresh store = (n : String) → etcd.getkey (user_key n) store ≡ none

  abbrev started : S → IntervalPool → Ip → NetworkMgr S
  started store center b =
      dump_system etcd
        (dump_center etcd (record { store = store; center = center; system = EnumPool.new b 27 }))

  holding-started :
      (store : S) (center : IntervalPool) (b : Ip) (j : Key)
      → IsFresh store
      → system_key ≢ j
      → holding etcd (started store center b) j ≡ none
  unfolding holding dump_center dump_system
  holding-started store center b center_key fresh ne = refl
  holding-started store center b system_key fresh ne = absurd (ne refl)
  holding-started store center b (user_key n) fresh ne = ap network_of (
      etcd.get_set_other system_key (user_key n) (EnumPool.new b 27)
        (etcd.setkey center_key center store) (λ e. cc)
      ∙ (etcd.get_set_other center_key (user_key n) center store (λ e. cc) ∙ fresh n))

  new-IsManaged :
      (addr : Ip) (cidr : ℕ) (store : S) (m : NetworkMgr S)
      → IsQuad addr
      → cidr ≤ 32
      → end (IntervalPool.new addr cidr) < 2 ^ 32
      → IsFresh store
      → NetworkMgr.new etcd addr cidr store ≡ ok m
      → IsManaged etcd m
  unfolding NetworkMgr.new holding dump_center dump_system EnumPool.new
  new-IsManaged addr cidr store m q le below fresh e =
      let p = IntervalPool.new addr cidr in
      let v = (new-IsValid addr cidr q le).0 in
      elim (allocate-kept p 27) [
        | inr (bad, same) ↦ absurd (cc (rw (bad, NetworkMgr.new) at e))
        | inl (b, good) ↦
            let center = (allocate p 27).1 in
            let a = allocate_ok p 27 b v good in
            let same = fix_ip_aligned b 27 a.block.quad a.block.aligned in
            subst (IsManaged etcd) (ok-injective (rw (good, NetworkMgr.new) at e)) (
              give-IsShared p center nobody (holding etcd (started store center b))
                (nobody-IsShared p v below) system_key b 27 a (ap (λ x. some (x, 27)) same)
                (λ j ne. holding-started store center b j fresh ne))
      ]

  -- For an address of four bytes, a cidr of at most 32, a network that ends below 2^32 and a
  -- store with no user, take the manager that the constructor starts. After any requests the
  -- center pool is valid, the blocks of the users and of the system are aligned blocks of the
  -- network, no two of them meet, and none of them has a free address.
  pub run-IsManaged :
      (addr : Ip) (cidr : ℕ) (store : S) (m : NetworkMgr S) (rs : List Request)
      → IsQuad addr
      → cidr ≤ 32
      → end (IntervalPool.new addr cidr) < 2 ^ 32
      → IsFresh store
      → NetworkMgr.new etcd addr cidr store ≡ ok m
      → IsManaged etcd (run m rs)
  run-IsManaged addr cidr store m rs q le below fresh e =
      run-IsManaged_of m rs (new-IsManaged addr cidr store m q le below fresh e)
