-- ===== src/Net/EnumPool.antt =====
-- class EnumPool of src/master/network.py: the free single addresses of a network.
pub mod Count
pub mod Acquire
pub mod Release
pub mod Ownership
pub mod New
use docklet.Common.{
  ℕ, zero, suc, ◌+◌, ◌-◌, ◌^◌, Bool, true, false, not, ◌&&◌, ◌||◌, Option, none, some, List, [],
  ◌∷◌, ◌++◌, map, length, ltb, leb, if◌then◌else◌,
}
use docklet.Net.Address.{Ip, ip_to_int, int_to_ip, fix_ip, block_size}
use docklet.Net.Result.{Result, ok, refused, raises, not_enough, bad_release, index_error}
use docklet.Net.IntervalPool.{mem}

-- `info` is the text "info_addr/info_cidr".
pub record EnumPool : Type 0 where
  pub info_addr : Ip
  pub info_cidr : ℕ
  pub pool : List Ip

-- The addresses base + i, base + i + 1, …, as many as there are rounds left.
unfoldable pub hosts : ℕ → ℕ → ℕ → List Ip
hosts base i zero = []
hosts base i (suc n) = int_to_ip (base + i) ∷ hosts base (suc i) n

-- EnumPool(addr_cidr="addr/cidr"): all but the first and the last address of the network,
-- `range(1, 2^(32-cidr) - 1)`.
unfoldable pub new : Ip → ℕ → EnumPool
new addr cidr =
    let base = fix_ip addr cidr in
    record {
      info_addr = base;
      info_cidr = cidr;
      pool = hosts (ip_to_int base) 1 (block_size cidr - 2);
    }

-- `l.pop()`: the last item and the others; `none` is Python's IndexError.
unfoldable pub pop : List Ip → Option (Ip × List Ip)
pop [] = none
pop (x ∷ l) = elim (pop l) [ none ↦ some (x, []) | some (y, rest) ↦ some (y, x ∷ rest) ]

-- `for i in range(0, num): result.append(self.pool.pop())`
unfoldable pub pops : ℕ → List Ip → List Ip → Option (List Ip × List Ip)
pops zero pool result = some (result, pool)
pops (suc num) pool result = elim (pop pool) [
  | none ↦ none
  | some (ip, rest) ↦ pops num rest (result ++ ip ∷ [])
]

-- acquire(num)
unfoldable pub acquire : EnumPool → ℕ → Result (List Ip) × EnumPool
acquire p num =
    if ltb (length p.pool) num then (refused not_enough, p) else elim (pops num p.pool []) [
      | none ↦ (raises index_error, p)
      | some (result, rest) ↦ (ok result, record p { pool = rest })
    ]

-- acquire_cidr(num): the addresses with the text "/cidr" behind each
unfoldable pub acquire_cidr : EnumPool → ℕ → Result (List (Ip × ℕ)) × EnumPool
acquire_cidr p num =
    let (r, p') = acquire p num in
    elim r [
      | ok ips ↦ (ok (map (λ ip. (ip, p'.info_cidr)) ips), p')
      | refused m ↦ (refused m, p')
      | raises e ↦ (raises e, p')
    ]

-- inrange(ip): from the first address but one to the last but one
unfoldable pub inrange : EnumPool → Ip → Bool
inrange p ip =
    let base = ip_to_int p.info_addr in
    leb (base + 1) (ip_to_int ip) && leb (ip_to_int ip + 2) (base + block_size p.info_cidr)

-- The first loop of `release`. An address may come as the text "ip/cidr"; what stands behind the
-- slash is dropped, here and in the second loop.
unfoldable pub releasable : (Ip → Bool) → List Ip → List (Ip × Option ℕ) → Bool
releasable in_range pool [] = true
releasable in_range pool ((ip, cidr) ∷ ips) =
    not (mem ip pool || not (in_range ip)) && releasable in_range pool ips

-- The second loop, `self.pool.append(ip)`.
unfoldable pub append_all : List Ip → List (Ip × Option ℕ) → List Ip
append_all pool [] = pool
append_all pool ((ip, cidr) ∷ ips) = append_all (pool ++ ip ∷ []) ips

-- release(ip_or_ips), by the class's own `inrange`; one address is a list of one
unfoldable pub release_by :
    (Ip → Bool) → EnumPool → List (Ip × Option ℕ) → Result (Unit {0}) × EnumPool
release_by in_range p ips =
    if releasable in_range p.pool ips
    then (ok tt, record p { pool = append_all p.pool ips })
    else (refused bad_release, p)

unfoldable pub release : EnumPool → List (Ip × Option ℕ) → Result (Unit {0}) × EnumPool
unfolding release_by
release p ips = release_by (inrange p) p ips
