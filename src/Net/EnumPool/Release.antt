-- ===== src/Net/EnumPool/Release.antt =====
-- `release` of class EnumPool.
use docklet.Common.{
  ℕ, ◌+◌, ◌≡◌, refl, ◌⊎◌, Bool, true, false, Option, List, [], ◌∷◌, ◌++◌, map, All, arith,
}
use docklet.Net.Address.{Ip}
use docklet.Net.Address.Laws.{eq_ip_refl}
use docklet.Net.Result.{ok, refused, bad_release}
use docklet.Net.IntervalPool.{mem}
use docklet.Net.EnumPool.{EnumPool, releasable, append_all, release_by}
use docklet.Net.EnumPool.Count.{count, count-append, mem_iff_count}

-- The addresses that are named, without what stands behind a slash.
abbrev pub named : List (Ip × Option ℕ) → List Ip
named ips = map (λ i. i.0) ips

-- An address that may come back.
abbrev pub MayReturn : (Ip → Bool) → List Ip → Ip × Option ℕ → Type 0
MayReturn in_range pool i = (mem i.0 pool ≡ false) × (in_range i.0 ≡ true)

releasable-All :
    (in_range : Ip → Bool) (pool : List Ip) (ips : List (Ip × Option ℕ))
    → All (MayReturn in_range pool) ips
    → releasable in_range pool ips ≡ true
unfolding releasable
releasable-All in_range pool [] a = refl
releasable-All in_range pool ((ip, cidr) ∷ ips) a =
    ground (arith, releasable-All in_range pool ips a.1)

releasable_bad :
    (in_range : Ip → Bool) (pool : List Ip) (before after : List (Ip × Option ℕ)) (ip : Ip)
    (cidr : Option ℕ)
    → (mem ip pool ≡ true) ⊎ (in_range ip ≡ false)
    → releasable in_range pool (before ++ (ip, cidr) ∷ after) ≡ false
unfolding releasable
releasable_bad in_range pool [] after ip cidr bad = ground arith
releasable_bad in_range pool ((x, c) ∷ before) after ip cidr bad =
    ground (arith, releasable_bad in_range pool before after ip cidr bad)

count-append_all :
    (x : Ip) (pool : List Ip) (ips : List (Ip × Option ℕ))
    → count x (append_all pool ips) ≡ count x pool + count x (named ips)
unfolding append_all count
count-append_all x pool [] = omega arith
count-append_all x pool ((ip, cidr) ∷ ips) =
    omega (arith, count-append_all x (pool ++ ip ∷ []) ips, count-append x pool (ip ∷ []))

module _ (in_range : Ip → Bool) (p : EnumPool) where
  -- Addresses that are all in range and not in the pool are taken back: the pool gains each as often
  -- as it is named, and the network stays.
  pub release_ok :
      (ips : List (Ip × Option ℕ))
      → All (MayReturn in_range p.pool) ips
      → ((release_by in_range p ips).0 ≡ ok tt)
        × ((x : Ip)
            → count x (release_by in_range p ips).1.pool ≡ count x p.pool + count x (named ips))
        × ((release_by in_range p ips).1.info_addr ≡ p.info_addr)
        × ((release_by in_range p ips).1.info_cidr ≡ p.info_cidr)
  unfolding release_by
  release_ok ips a =
      let e = releasable-All in_range p.pool ips a in
      (rw e refl, λ x. rw e (count-append_all x p.pool ips), rw e refl, rw e refl)

  -- One address that is in the pool or out of range refuses the whole request, wherever it stands
  -- among the others, and the pool is unchanged.
  pub release_refused :
      (before after : List (Ip × Option ℕ)) (ip : Ip) (cidr : Option ℕ)
      → (mem ip p.pool ≡ true) ⊎ (in_range ip ≡ false)
      → release_by in_range p (before ++ (ip, cidr) ∷ after) ≡ (refused bad_release, p)
  unfolding release_by
  release_refused before after ip cidr bad =
      rw (releasable_bad in_range p.pool before after ip cidr bad) refl

  -- An address that is in range and not in the pool, named twice in one request, is accepted and
  -- is then in the pool twice.
  pub release_duplicate :
      (ip : Ip) (c d : Option ℕ)
      → MayReturn in_range p.pool (ip, c)
      → ((release_by in_range p ((ip, c) ∷ (ip, d) ∷ [])).0 ≡ ok tt)
        × (count ip (release_by in_range p ((ip, c) ∷ (ip, d) ∷ [])).1.pool ≡ 2)
  unfolding count
  release_duplicate ip c d h =
      let r = release_ok ((ip, c) ∷ (ip, d) ∷ []) (h, (h, tt)) in
      (r.0, ground (arith, r.1 ip, mem_iff_count ip p.pool, eq_ip_refl ip))
