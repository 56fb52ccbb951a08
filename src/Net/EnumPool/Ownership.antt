-- ===== src/Net/EnumPool/Ownership.antt =====
-- Who has an address of a network: the pool or a holder.
use docklet.Common.{
  ℕ, ◌+◌, ◌≤◌, ◌≡◌, Bool, Option, List, [], ◌∷◌, ◌++◌, All, arith, if◌then◌else◌, length,
}
use docklet.Net.Address.{Ip}
use docklet.Net.Address.Laws.{IsQuad, eq_ip_refl}
use docklet.Net.Result.{ok}
use docklet.Net.EnumPool.{EnumPool, acquire, release_by}
use docklet.Net.EnumPool.Count.{count, count-append, mem_iff_count}
use docklet.Net.EnumPool.Acquire.{acquire_ok}
use docklet.Net.EnumPool.Release.{named, MayReturn, release_ok}

-- Every address of the range is in the pool or held, once; no other address is in either.
pub record Conserved (in_range : Ip → Bool) (p : EnumPool) (held : List Ip) : Type 0 where
  pub once : (x : Ip) → IsQuad x → count x p.pool + count x held ≡ (if in_range x then 1 else 0)

module _ (in_range : Ip → Bool) (p : EnumPool) (held : List Ip)
    (c : Conserved in_range p held) where
  -- Where the pool and the holders have each address of the range once, and at most as many
  -- addresses are asked for as the pool has, `acquire` returns that many, and with them among the
  -- held ones the pool and the holders still have each address of the range once.
  pub acquire-Conserved :
      (num : ℕ)
      → num ≤ length p.pool
      → (ips : List Ip) × ((acquire p num).0 ≡ ok ips)
        × (length ips ≡ num)
        × Conserved in_range (acquire p num).1 (ips ++ held)
  acquire-Conserved num le =
      let (ips, e, len, counts, _, _) = acquire_ok p num le in
      (
        ips,
        e,
        len,
        record { once = λ x q. omega (arith, counts x, count-append x ips held, c.once x q) },
      )

  held-MayReturn :
      (ips : List (Ip × Option ℕ))
      → All IsQuad (named ips)
      → ((x : Ip) → count x (named ips) ≤ count x held)
      → All (MayReturn in_range p.pool) ips
  unfolding count
  held-MayReturn [] q part = tt
  held-MayReturn ((ip, cidr) ∷ ips) q part = (
    ground (arith, part ip, c.once ip q.0, mem_iff_count ip p.pool, eq_ip_refl ip),
    held-MayReturn ips q.1 (λ x. omega (arith, part x)),
  )

  -- Where the pool and the holders have each address of the range once, a release of addresses of
  -- four bytes that are all held, each named at most as often as it is held, succeeds, and the
  -- pool and the remaining holders have each address of the range once.
  pub release-Conserved :
      (ips : List (Ip × Option ℕ)) (rest : List Ip)
      → All IsQuad (named ips)
      → ((x : Ip) → count x held ≡ count x (named ips) + count x rest)
      → ((release_by in_range p ips).0 ≡ ok tt)
        × Conserved in_range (release_by in_range p ips).1 rest
  release-Conserved ips rest q part =
      let r = release_ok in_range p ips (held-MayReturn ips q (λ x. omega (arith, part x))) in
      (r.0, record { once = λ x y. omega (arith, r.1 x, part x, c.once x y) })
