-- ===== src/Net/NetworkMgr/Ownership.antt =====
-- Who has the addresses of a user's network: the pool that etcd has, or a holder.
use docklet.Common.{
  ℕ, ◌+◌, ◌<◌, ◌≤◌, ◌≡◌, refl, sym, ap, ap₂, subst, ◌∙◌, ◌⊎◌, inl, inr, Option, some, Bool-cases,
  List, ◌++◌, length, All, String, ltb, ltb→lt, ltb→le, if◌then◌else◌, leb, ◌&&◌,
}
use docklet.Net.Address.{Ip, ip_to_int, block_size}
use docklet.Net.Address.Laws.{IsQuad}
use docklet.Net.Result.{Result, ok, refused, not_enough}
use docklet.Net.EnumPool.Acquire.{acquire_refused}
use docklet.Net.EnumPool.Count.{count}
use docklet.Net.EnumPool.Release.{named}
use docklet.Net.EnumPool.Ownership.{Conserved, acquire-Conserved, release-Conserved}
use docklet.Net.UserPool
use docklet.Net.UserPool.{UserPool}
use docklet.Net.Store.{user_key, Etcd}
use docklet.Net.NetworkMgr.{NetworkMgr, dump_user, on_user, acquire_userips, release_userips}
use docklet.Net.NetworkMgr.Info.{SameNet, acquire-SameNet, release_by-SameNet}

inrange-SameNet :
    (u u' : UserPool) (x : Ip)
    → SameNet u.enum u'.enum
    → UserPool.inrange u' x ≡ UserPool.inrange u x
unfolding UserPool.inrange
inrange-SameNet u u' x same =
    ap₂
      (λ a c.
        leb (ip_to_int a + 2) (ip_to_int x) && leb (ip_to_int x + 2) (ip_to_int a + block_size c))
      same.same_addr same.same_cidr

over-Conserved :
    (u u' : UserPool) (held : List Ip)
    → SameNet u.enum u'.enum
    → Conserved (UserPool.inrange u) u'.enum held
    → Conserved (UserPool.inrange u') u'.enum held
over-Conserved u u' held same c = record {
  once = λ x q. c.once x q ∙ ap (λ b. if b then 1 else 0) (sym (inrange-SameNet u u' x same));
}

module _ {S : Type 0} (etcd : Etcd S) where
  -- The user is stored, and the stored pool and the holders have each address of the range once.
  pub record Keeps (m : NetworkMgr S) (n : String) (held : List Ip) : Type 0 where
    pub user : UserPool
    pub there : etcd.getkey (user_key n) m.store ≡ some user
    pub conserved : Conserved (UserPool.inrange user) user.enum held

  on_user_result :
      {A : Type 0} (m : NetworkMgr S) (n : String) (f : UserPool → Result A × UserPool)
      (u : UserPool)
      → etcd.getkey (user_key n) m.store ≡ some u
      → ((on_user etcd m n f).0 ≡ (f u).0)
        × (etcd.getkey (user_key n) (on_user etcd m n f).1.store ≡ some (f u).1)
  unfolding on_user dump_user
  on_user_result m n f u there =
      rw (there, on_user) (refl, etcd.get_set (user_key n) (f u).1 m.store)

  module _ (m : NetworkMgr S) (n : String) (held : List Ip) (k : Keeps m n held) where
    -- Where a user's stored pool and the holders have each address of the user's range once: if fewer
    -- addresses are free than were asked for, the request is refused and they still have each once, and
    -- if not, it gets as many as were asked for, and with these among the held ones the stored pool and
    -- the holders have each address once.
    pub acquire_userips-Keeps :
        (num : ℕ)
        → ((length k.user.pool < num)
            × ((acquire_userips etcd m n num).0 ≡ refused not_enough)
            × Keeps (acquire_userips etcd m n num).1 n held)
          ⊎ ((ips : List Ip) × (num ≤ length k.user.pool)
              × ((acquire_userips etcd m n num).0 ≡ ok ips)
              × (length ips ≡ num)
              × Keeps (acquire_userips etcd m n num).1 n (ips ++ held))
    unfolding acquire_userips UserPool.acquire
    acquire_userips-Keeps num =
        let u = k.user in
        let r = on_user_result m n (λ v. UserPool.acquire v num) u k.there in
        let u' : UserPool = (UserPool.acquire u num).1 in
        let same = acquire-SameNet u.enum num in
        elim (Bool-cases (ltb (length u.pool) num)) [
          | inl few ↦
              let no = acquire_refused u.enum num (ltb→lt (length u.pool) num few) in
              inl (
                ltb→lt (length u.pool) num few,
                r.0 ∙ ap (λ x. x.0) no,
                record {
                  user = u';
                  there = r.1;
                  conserved = over-Conserved u u' held same (
                      subst (λ e. Conserved (UserPool.inrange u) e held) (sym (ap (λ x. x.1) no))
                        k.conserved);
                },
              )
          | inr enough ↦
              let (ips, e, len, c) =
                acquire-Conserved (UserPool.inrange u) u.enum held k.conserved num
                  (ltb→le (length u.pool) num enough) in
              inr (
                ips,
                ltb→le (length u.pool) num enough,
                r.0 ∙ e,
                len,
                record {
                  user = u';
                  there = r.1;
                  conserved = over-Conserved u u' (ips ++ held) same c;
                },
              )
        ]

    -- Where a user's stored pool and the holders have each address of the user's range once, a release
    -- of addresses of four bytes that are all held, each named at most as often as it is held, succeeds,
    -- and the stored pool and the remaining holders have each address once.
    pub release_userips-Keeps :
        (ips : List (Ip × Option ℕ)) (rest : List Ip)
        → All IsQuad (named ips)
        → ((x : Ip) → count x held ≡ count x (named ips) + count x rest)
        → ((release_userips etcd m n ips).0 ≡ ok tt) × Keeps (release_userips etcd m n ips).1 n rest
    unfolding release_userips UserPool.release
    release_userips-Keeps ips rest q part =
        let u = k.user in
        let r = on_user_result m n (λ v. UserPool.release v ips) u k.there in
        let u' : UserPool = (UserPool.release u ips).1 in
        let (done, c) =
          release-Conserved (UserPool.inrange u) u.enum held k.conserved ips rest q part in
        (
          r.0 ∙ done,
          record {
            user = u';
            there = r.1;
            conserved =
                over-Conserved u u' rest (release_by-SameNet (UserPool.inrange u) u.enum ips) c;
          },
        )
