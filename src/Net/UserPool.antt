-- ===== src/Net/UserPool.antt =====
-- class UserPool of src/master/network.py: a user's addresses, with the gateway set apart.
pub mod Gateway
use docklet.Common.{ℕ, ◌+◌, Bool, ◌&&◌, Option, List, [], ◌∷◌, leb}
use docklet.Net.Address.{Ip, ip_to_int, block_size}
use docklet.Net.Result.{Result, ok, raises, index_error}
use docklet.Net.IntervalPool.{remove, sort}
use docklet.Net.EnumPool
use docklet.Net.EnumPool.{EnumPool, release_by}

pub record UserPool : Type 0 where
  pub enum : EnumPool
  pub open enum use *
  pub gateway : Ip

-- `self.gateway = self.pool[0]; self.pool.remove(self.gateway)` on the sorted pool
unfoldable pub set_gateway : EnumPool → List Ip → Result UserPool
set_gateway e [] = raises index_error
set_gateway e (first ∷ rest) =
    ok (record { enum = record e { pool = remove first (first ∷ rest) }; gateway = first })

-- UserPool(addr_cidr="addr/cidr")
unfoldable pub new : Ip → ℕ → Result UserPool
unfolding set_gateway
new addr cidr = let e = EnumPool.new addr cidr in set_gateway e (sort e.pool)

-- inrange(ip): the second address is the gateway's
unfoldable pub inrange : UserPool → Ip → Bool
inrange p ip =
    let base = ip_to_int p.info_addr in
    leb (base + 2) (ip_to_int ip) && leb (ip_to_int ip + 2) (base + block_size p.info_cidr)

-- acquire(num), inherited
unfoldable pub acquire : UserPool → ℕ → Result (List Ip) × UserPool
acquire p num = let (r, e) = EnumPool.acquire p.enum num in (r, record p { enum = e })

-- acquire_cidr(num), inherited
unfoldable pub acquire_cidr : UserPool → ℕ → Result (List (Ip × ℕ)) × UserPool
acquire_cidr p num = let (r, e) = EnumPool.acquire_cidr p.enum num in (r, record p { enum = e })

-- release(ip_or_ips), inherited, by this class's `inrange`
unfoldable pub release : UserPool → List (Ip × Option ℕ) → Result (Unit {0}) × UserPool
release p ips = let (r, e) = release_by (inrange p) p.enum ips in (r, record p { enum = e })

-- get_gateway(), get_gateway_cidr()
unfoldable pub get_gateway : UserPool → Ip
get_gateway p = p.gateway

unfoldable pub get_gateway_cidr : UserPool → Ip × ℕ
get_gateway_cidr p = (p.gateway, p.info_cidr)
