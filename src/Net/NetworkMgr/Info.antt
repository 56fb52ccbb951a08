-- ===== src/Net/NetworkMgr/Info.antt =====
-- The methods on address pools and the network that a pool is of.
use docklet.Common.{
  ℕ, ◌≡◌, refl, sym, ap, inl, inr, Option, Option-cases, Bool, Bool-cases, ◌⊎◌, List, [], ◌∷◌,
  length, ltb,
}
use docklet.Net.Address.{Ip, fix_ip}
use docklet.Net.Result.{ok, refused, ok-injective, Result-cases, not_enough}
use docklet.Net.IntervalPool.{IntervalPool, allocate, find_up, sort}
use docklet.Net.EnumPool
use docklet.Net.EnumPool.{EnumPool, pops, releasable, release_by}
use docklet.Net.UserPool
use docklet.Net.UserPool.{UserPool, set_gateway}

-- Two pools of the same network.
pub record SameNet (e e' : EnumPool) : Type 0 where
  pub same_addr : e'.info_addr ≡ e.info_addr
  pub same_cidr : e'.info_cidr ≡ e.info_cidr

pub refl-SameNet : (e : EnumPool) → SameNet e e
refl-SameNet e = record { same_addr = refl; same_cidr = refl }

pub acquire-SameNet : (e : EnumPool) (num : ℕ) → SameNet e (EnumPool.acquire e num).1
unfolding EnumPool.acquire
acquire-SameNet e num = elim (Bool-cases (ltb (length e.pool) num)) [
  | inl few ↦ rw (few, EnumPool.acquire) (refl-SameNet e)
  | inr enough ↦ elim (Option-cases (pops num e.pool [])) [
    | inl short ↦ rw (enough, short, EnumPool.acquire) (refl-SameNet e)
    | inr (r, popped) ↦
        rw (enough, popped, EnumPool.acquire) (record { same_addr = refl; same_cidr = refl })
  ]
]

pub acquire_cidr-SameNet : (e : EnumPool) (num : ℕ) → SameNet e (EnumPool.acquire_cidr e num).1
unfolding EnumPool.acquire_cidr
acquire_cidr-SameNet e num = elim (Result-cases (EnumPool.acquire e num).0) [
  | inl (ips, good) ↦ rw (good, EnumPool.acquire_cidr) (acquire-SameNet e num)
  | inr (inl (m, bad)) ↦ rw (bad, EnumPool.acquire_cidr) (acquire-SameNet e num)
  | inr (inr (m, bad)) ↦ rw (bad, EnumPool.acquire_cidr) (acquire-SameNet e num)
]

pub release_by-SameNet :
    (in_range : Ip → Bool) (e : EnumPool) (ips : List (Ip × Option ℕ))
    → SameNet e (release_by in_range e ips).1
unfolding release_by
release_by-SameNet in_range e ips = elim (Bool-cases (releasable in_range e.pool ips)) [
  | inl good ↦ rw (good, release_by) (record { same_addr = refl; same_cidr = refl })
  | inr bad ↦ rw (bad, release_by) (refl-SameNet e)
]

set_gateway-SameNet :
    (e : EnumPool) (l : List Ip) (u : UserPool) → set_gateway e l ≡ ok u → SameNet e u.enum
unfolding set_gateway
set_gateway-SameNet e [] u made = cc
set_gateway-SameNet e (first ∷ rest) u made =
    let q = ap (λ (v : UserPool). v.enum) (ok-injective made) in
    record {
      same_addr = ap (λ (v : EnumPool). v.info_addr) (sym q);
      same_cidr = ap (λ (v : EnumPool). v.info_cidr) (sym q);
    }

-- A user's pool is of the network it was made for.
pub new_info :
    (b : Ip) (c : ℕ) (u : UserPool)
    → UserPool.new b c ≡ ok u
    → (u.info_addr ≡ fix_ip b c) × (u.info_cidr ≡ c)
unfolding UserPool.new EnumPool.new set_gateway
new_info b c u e =
    let n = set_gateway-SameNet (EnumPool.new b c) (sort (EnumPool.new b c).pool) u e in
    (n.same_addr, n.same_cidr)

-- A request that is not granted leaves the pool as it was.
pub allocate-kept :
    (p : IntervalPool) (c : ℕ)
    → ((b : Ip) × ((allocate p c).0 ≡ ok b))
      ⊎ (((allocate p c).0 ≡ refused not_enough) × ((allocate p c).1 ≡ p))
unfolding allocate
allocate-kept p c = elim (Option-cases (find_up p c)) [
  | inl absent ↦ rw (absent, allocate) (inr (refl, refl))
  | inr ((u, b, rest), found) ↦ inl (b, rw (found, allocate) refl)
]
