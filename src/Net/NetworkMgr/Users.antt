-- ===== src/Net/NetworkMgr/Users.antt =====
-- The methods of class NetworkMgr and the sharing of the network between free blocks, the system and
-- the users.
use docklet.Common.{
  ℕ, ◌≡◌, ◌≢◌, refl, sym, ap, ap₂, subst, ◌∙◌, inl, inr, Option, none, some, Option-cases, false,
  Bool-cases, String,
}
use docklet.Net.Address.{Ip}
use docklet.Net.Address.Laws.{fix_ip_aligned}
use docklet.Net.Result.{Result, ok, Result-cases}
use docklet.Net.IntervalPool.{IntervalPool, allocate, free}
use docklet.Net.IntervalPool.Allocate.{Allocated, allocate_ok}
use docklet.Net.IntervalPool.Held.{Returned, free_held}
use docklet.Net.EnumPool.{EnumPool}
use docklet.Net.UserPool
use docklet.Net.UserPool.{UserPool}
use docklet.Net.Store.{Key, center_key, system_key, user_key, Etcd, Key-cases}
use docklet.Net.NetworkMgr.{
  NetworkMgr, dump_center, dump_system, dump_user, has_user, settle, add_user, forget, del_user,
  on_user,
}
use docklet.Net.NetworkMgr.Shares.{
  Holders, IsShared, give-IsShared, leak-IsShared, return-IsShared, kept-IsShared,
}
use docklet.Net.NetworkMgr.Info.{SameNet, new_info, allocate-kept}

abbrev pub network_of : Option UserPool → Option (Ip × ℕ)
network_of none = none
network_of (some u) = some (u.info_addr, u.info_cidr)

module _ {S : Type 0} (etcd : Etcd S) where
  -- The system holds its pool's network, and a user the network of the pool that etcd has.
  unfoldable pub holding : NetworkMgr S → Holders
  holding m center_key = none
  holding m system_key = some (m.system.info_addr, m.system.info_cidr)
  holding m (user_key username) = network_of (etcd.getkey (user_key username) m.store)

  abbrev pub IsManaged : NetworkMgr S → Type 0
  IsManaged m = IsShared m.center (holding m)

  abbrev pub with_center : NetworkMgr S → IntervalPool → NetworkMgr S
  with_center m center = dump_center etcd (record m { center = center })

  holding-dump_center :
      (m : NetworkMgr S) (center : IntervalPool) (j : Key)
      → holding (with_center m center) j ≡ holding m j
  unfolding holding dump_center
  holding-dump_center m center center_key = refl
  holding-dump_center m center system_key = refl
  holding-dump_center m center (user_key n) =
      ap network_of (etcd.get_set_other center_key (user_key n) center m.store (λ e. cc))

  holding-dump_user :
      (m : NetworkMgr S) (n : String) (u : UserPool)
      → holding (dump_user etcd m n u) (user_key n) ≡ some (u.info_addr, u.info_cidr)
  unfolding holding dump_user
  holding-dump_user m n u = ap network_of (etcd.get_set (user_key n) u m.store)

  holding-dump_user_other :
      (m : NetworkMgr S) (n : String) (u : UserPool) (j : Key)
      → user_key n ≢ j
      → holding (dump_user etcd m n u) j ≡ holding m j
  unfolding holding dump_user
  holding-dump_user_other m n u center_key ne = refl
  holding-dump_user_other m n u system_key ne = refl
  holding-dump_user_other m n u (user_key k) ne =
      ap network_of (etcd.get_set_other (user_key n) (user_key k) u m.store ne)

  holding-forget :
      (m : NetworkMgr S) (n : String) (center : IntervalPool)
      → holding (forget etcd m n center) (user_key n) ≡ none
  unfolding holding forget
  holding-forget m n center = ap network_of (etcd.get_del (user_key n) (with_center m center).store)

  holding-forget_other :
      (m : NetworkMgr S) (n : String) (center : IntervalPool) (j : Key)
      → user_key n ≢ j
      → holding (forget etcd m n center) j ≡ holding m j
  unfolding holding forget dump_center
  holding-forget_other m n center center_key ne = refl
  holding-forget_other m n center system_key ne = refl
  holding-forget_other m n center (user_key k) ne = ap network_of (
      etcd.get_del_other (user_key n) (user_key k) (with_center m center).store ne
      ∙ etcd.get_set_other center_key (user_key k) center m.store (λ e. cc))

  settle-IsManaged :
      (m : NetworkMgr S) (center : IntervalPool) (n : String) (b : Ip) (c : ℕ)
      → IsManaged m
      → Allocated m.center center c b
      → IsManaged (settle etcd (with_center m center) n b c).1
  unfolding settle dump_user dump_center
  settle-IsManaged m center n b c s a =
      let leaked =
        leak-IsShared m.center center (holding m) (holding (with_center m center)) s b c a
          (holding-dump_center m center) in
      elim (Result-cases (UserPool.new b c)) [
        | inr (inl (e, bad)) ↦ rw (bad, settle) leaked
        | inr (inr (e, bad)) ↦ rw (bad, settle) leaked
        | inl (u, made) ↦
            let (addr, cidr) = new_info b c u made in
            let same = addr ∙ fix_ip_aligned b c a.block.quad a.block.aligned in
            let m' = with_center m center in
            rw (made, settle)
              (give-IsShared m.center center (holding m) (holding (dump_user etcd m' n u)) s
                (user_key n) b c a (holding-dump_user m' n u ∙ ap₂ (λ x y. some (x, y)) same cidr)
                (λ j ne. holding-dump_user_other m' n u j ne ∙ holding-dump_center m center j))
      ]

  -- Adding a user keeps the network shared, whether the call succeeds or fails.
  pub add_user-IsManaged :
      (m : NetworkMgr S) (n : String) (c : ℕ) → IsManaged m → IsManaged (add_user etcd m n c).1
  unfolding add_user dump_center
  add_user-IsManaged m n c s = elim (Bool-cases (has_user etcd m n)) [
    | inl there ↦ rw (there, add_user) s
    | inr new ↦ elim (allocate-kept m.center c) [
      | inl (b, good) ↦
          rw (new, good, add_user)
            (settle-IsManaged m (allocate m.center c).1 n b c s
              (allocate_ok m.center c b s.valid good))
      | inr (bad, same) ↦
          rw (new, bad, add_user)
            (kept-IsShared m.center (allocate m.center c).1 (holding m) _ same
              (holding-dump_center m (allocate m.center c).1) s)
    ]
  ]

  forget-IsManaged :
      (m : NetworkMgr S) (n : String) (u : UserPool)
      → IsManaged m
      → etcd.getkey (user_key n) m.store ≡ some u
      → (q : IntervalPool) × (free m.center u.info_addr u.info_cidr ≡ ok q)
        × Returned m.center q u.info_addr u.info_cidr
        × IsManaged (forget etcd m n q)
  unfolding holding forget dump_center
  forget-IsManaged m n u s there =
      let held : holding m (user_key n) ≡ some (u.info_addr, u.info_cidr) = ap network_of there in
      let mine = s.own (user_key n) u.info_addr u.info_cidr held in
      let (q, freed, r) = free_held m.center u.info_addr u.info_cidr s.valid s.below mine in
      (
        q,
        freed,
        r,
        return-IsShared m.center q (holding m) (holding (forget etcd m n q)) s (user_key n)
            u.info_addr u.info_cidr held r (holding-forget m n q) (holding-forget_other m n q),
      )

  -- Where the network is shared and the user is stored, deleting the user succeeds: the center
  -- pool is over the same network, still valid, and gains the user's block and nothing else, the
  -- user is unknown afterwards, and the network stays shared.
  pub del_user_ok :
      (m : NetworkMgr S) (n : String) (u : UserPool)
      → IsManaged m
      → etcd.getkey (user_key n) m.store ≡ some u
      → ((del_user etcd m n).0 ≡ ok tt)
        × Returned m.center (del_user etcd m n).1.center u.info_addr u.info_cidr
        × (has_user etcd (del_user etcd m n).1 n ≡ false)
        × IsManaged (del_user etcd m n).1
  unfolding del_user forget has_user dump_center
  del_user_ok m n u s there =
      let (q, freed, r, after) = forget-IsManaged m n u s there in
      rw (there, freed, del_user)
        (refl, r, rw (etcd.get_del (user_key n) (with_center m q).store, has_user) refl, after)

  pub del_user-IsManaged :
      (m : NetworkMgr S) (n : String) → IsManaged m → IsManaged (del_user etcd m n).1
  unfolding del_user
  del_user-IsManaged m n s = elim (Option-cases (etcd.getkey (user_key n) m.store)) [
    | inl absent ↦ rw (absent, del_user) s
    | inr (u, there) ↦ let (_, _, _, after) = del_user_ok m n u s there in after
  ]

  -- A method on a user's pool that leaves the pool's network as it was keeps the network shared.
  pub on_user-IsManaged :
      {A : Type 0} (m : NetworkMgr S) (n : String) (f : UserPool → Result A × UserPool)
      → ((u : UserPool) → SameNet u.enum (f u).1.enum)
      → IsManaged m
      → IsManaged (on_user etcd m n f).1
  unfolding on_user holding dump_user
  on_user-IsManaged m n f same s = elim (Option-cases (etcd.getkey (user_key n) m.store)) [
    | inl absent ↦ rw (absent, on_user) s
    | inr (u, there) ↦
        rw (there, on_user)
          (kept-IsShared m.center m.center (holding m) _ refl
            (λ j. elim (Key-cases (user_key n) j) [
              | inl here ↦
                  let keeps = same u in
                  subst (λ k. holding (dump_user etcd m n (f u).1) k ≡ holding m k) here
                    (holding-dump_user m n (f u).1
                      ∙ (ap₂ (λ x y. some (x, y)) keeps.same_addr keeps.same_cidr
                          ∙ sym (ap network_of there)))
              | inr ne ↦ holding-dump_user_other m n (f u).1 j ne
            ])
            s)
  ]

  holding-dump_system :
      (m : NetworkMgr S) (e : EnumPool)
      → SameNet m.system e
      → (j : Key) → holding (dump_system etcd (record m { system = e })) j ≡ holding m j
  unfolding holding dump_system
  holding-dump_system m e same center_key = refl
  holding-dump_system m e same system_key = ap₂ (λ x y. some (x, y)) same.same_addr same.same_cidr
  holding-dump_system m e same (user_key n) =
      ap network_of (etcd.get_set_other system_key (user_key n) e m.store (λ q. cc))

  pub system-IsManaged :
      (m : NetworkMgr S) (e : EnumPool)
      → SameNet m.system e
      → IsManaged m
      → IsManaged (dump_system etcd (record m { system = e }))
  unfolding dump_system
  system-IsManaged m e same s =
      kept-IsShared m.center m.center (holding m) _ refl (holding-dump_system m e same) s
