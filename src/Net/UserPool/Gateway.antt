-- ===== src/Net/UserPool/Gateway.antt =====
-- The constructor of class UserPool: the gateway and the addresses that are left.
use docklet.Common.{
  ℕ, zero, suc, ◌+◌, ◌-◌, ◌^◌, ◌≤◌, ◌<◌, ◌≡◌, refl, ap, subst, ◌∙◌, true, false, List, [], ◌∷◌,
  arith, leb,
}
use docklet.Net.Address.{Ip, ip_to_int, int_to_ip, fix_ip, block_size}
use docklet.Net.Address.Laws.{IsQuad, ip_of_int, eq_ip_refl}
use docklet.Net.IntervalPool.Blocks.{block_size_below}
use docklet.Net.Result.{ok}
use docklet.Net.IntervalPool.{insert, remove, sort}
use docklet.Net.EnumPool
use docklet.Net.EnumPool.{EnumPool, hosts}
use docklet.Net.EnumPool.Count.{count}
use docklet.Net.EnumPool.New.{network_fits, count-hosts}
use docklet.Net.EnumPool.Ownership.{Conserved}
use docklet.Net.UserPool
use docklet.Net.UserPool.{UserPool, set_gateway}

insert_first :
    (base i n : ℕ)
    → base + i + suc n < 2 ^ 32
    → insert (int_to_ip (base + i)) (hosts base (suc i) n)
      ≡ int_to_ip (base + i) ∷ hosts base (suc i) n
unfolding hosts insert
insert_first base i zero h = refl
insert_first base i (suc n) h =
    let before : leb (ip_to_int (int_to_ip (base + i))) (ip_to_int (int_to_ip (base + suc i)))
        ≡ true =
      ground (arith, ip_of_int (base + i) (omega arith), ip_of_int (base + suc i) (omega arith)) in
    rw before

-- The first of a run of consecutive addresses sorts to the front.
sort-hosts : (base i n : ℕ) → base + i + n < 2 ^ 32 → sort (hosts base i n) ≡ hosts base i n
unfolding sort hosts insert
sort-hosts base i zero h = refl
sort-hosts base i (suc n) h =
    ap (insert (int_to_ip (base + i))) (sort-hosts base (suc i) n (omega arith))
    ∙ insert_first base i n h

four_fit : (cidr : ℕ) → cidr ≤ 30 → 4 ≤ block_size cidr
four_fit cidr le =
    let e : cidr + (30 - cidr) ≡ 30 = omega arith in
    let four : block_size 30 ≡ 4 = unfold block_size in refl in
    omega (
      arith,
      four,
      subst (λ t. block_size t ≤ block_size cidr) e
          (block_size_below cidr (30 - cidr) (omega arith)),
    )

remove_first : (x : Ip) (l : List Ip) → remove x (x ∷ l) ≡ l
unfolding remove
remove_first x l = rw eq_ip_refl

module _ (addr : Ip) (cidr : ℕ) (q : IsQuad addr) (le : cidr ≤ 30) where
  abbrev base : ℕ
  base = ip_to_int (fix_ip addr cidr)

  built : UserPool
  built = record {
    enum = record {
      info_addr = fix_ip addr cidr;
      info_cidr = cidr;
      pool = hosts base 2 (block_size cidr - 3);
    };
    gateway = int_to_ip (base + 1);
  }

  fits : base + block_size cidr ≤ 2 ^ 32
  fits = network_fits addr cidr q (omega arith)

  sorted_pool :
      sort (hosts base 1 (block_size cidr - 2))
      ≡ int_to_ip (base + 1) ∷ hosts base 2 (block_size cidr - 3)
  unfolding hosts
  sorted_pool =
      let four = four_fit cidr le in
      let n : block_size cidr - 2 ≡ suc (block_size cidr - 3) = omega arith in
      sort-hosts base 1 (block_size cidr - 2) (omega (arith, fits)) ∙ ap (hosts base 1) n

  new-built : UserPool.new addr cidr ≡ ok built
  unfolding UserPool.new EnumPool.new built
  new-built =
      rw (sorted_pool, set_gateway)
        (ap
          (λ l. ok (record {
            enum = record { info_addr = fix_ip addr cidr; info_cidr = cidr; pool = l };
            gateway = int_to_ip (base + 1);
          }))
          (remove_first (int_to_ip (base + 1)) (hosts base 2 (block_size cidr - 3))))

  gateway_value : ip_to_int (int_to_ip (base + 1)) ≡ base + 1
  gateway_value = ip_of_int (base + 1) (omega (arith, fits, four_fit cidr le))

  -- For an address of four bytes and a cidr of at most 30 a user's pool is built: its gateway is
  -- the network's second address, the pool's own range test refuses the gateway, and the pool
  -- holds every address of that range once and no other.
  pub new_ok :
      (u : UserPool) × (UserPool.new addr cidr ≡ ok u)
      × (ip_to_int u.gateway ≡ ip_to_int (fix_ip addr cidr) + 1)
      × (UserPool.inrange u u.gateway ≡ false)
      × Conserved (UserPool.inrange u) u.enum []
  unfolding UserPool.inrange built count
  new_ok = (
    built,
    new-built,
    gateway_value,
    ground (arith, gateway_value),
    record {
      once = λ x y. ground (
        arith,
        count-hosts x base 2 (block_size cidr - 3) y (omega (arith, fits, four_fit cidr le)),
        four_fit cidr le,
      );
    },
  )
