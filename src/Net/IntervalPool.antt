-- ===== src/Net/IntervalPool.antt =====
-- class IntervalPool of src/master/network.py: the free blocks of a network, by cidr.
-- The dictionary `pool` is a function from the cidr to the list under its key, `none` where the
-- key is missing. An update of a list stands for a write under a key that is there; the code makes
-- such writes only after it has looked the key up.
pub mod Cover
pub mod Blocks
pub mod Allocate
pub mod Search
pub mod Overlap
mod Merge
pub mod Free
pub mod Held
pub mod New
use docklet.Common.{
  ℕ, zero, suc, ◌+◌, ◌-◌, ◌^◌, min, Bool, true, false, ◌&&◌, ◌||◌, Option, none, some, List, [],
  ◌∷◌, ◌++◌, ltb, leb, ◌==◌, if◌then◌else◌,
}
use docklet.Net.Address.{Ip, eq_ip, ip_to_int, fix_ip, next_interval, before_interval}
use docklet.Net.Result.{
  Result, ok, refused, raises, not_enough, not_in_range, overlaps, cidr_not_in_pool, value_error,
  key_error, endless,
}

-- `info` is the text "info_addr/info_cidr".
pub record IntervalPool : Type 0 where
  pub info_addr : Ip
  pub info_cidr : ℕ
  pub pool : ℕ → Option (List Ip)

-- IntervalPool(addr_cidr="addr/cidr")
unfoldable pub new : Ip → ℕ → IntervalPool
new addr cidr =
    let base = fix_ip addr cidr in
    record {
      info_addr = base;
      info_cidr = cidr;
      pool = λ k.
          if k == cidr
          then some (base ∷ [])
          else if leb (cidr + 1) k && ltb k 33
          then some []
          else none;
    }

-- The list under a key.
unfoldable pub at : IntervalPool → ℕ → List Ip
at p k = elim (p.pool k) [ none ↦ [] | some l ↦ l ]

-- `self.pool[str(k)] = l`, where the key is there.
unfoldable pub put : IntervalPool → ℕ → List Ip → IntervalPool
put p k l = record p {
  pool = λ j. if j == k then elim (p.pool j) [ none ↦ none | some _ ↦ some l ] else p.pool j;
}

-- `addr in l`
unfoldable pub mem : Ip → List Ip → Bool
mem x [] = false
mem x (y ∷ l) = eq_ip x y || mem x l

-- `l.remove(addr)`, the first one
unfoldable pub remove : Ip → List Ip → List Ip
remove x [] = []
remove x (y ∷ l) = if eq_ip x y then l else y ∷ remove x l

-- `l.sort(key=ip_to_int)`, which is stable
unfoldable pub insert : Ip → List Ip → List Ip
insert x [] = x ∷ []
insert x (y ∷ l) = if leb (ip_to_int x) (ip_to_int y) then x ∷ y ∷ l else y ∷ insert x l

unfoldable pub sort : List Ip → List Ip
sort [] = []
sort (x ∷ l) = insert x (sort l)

-- The first loop of `allocate`: the nearest level at or above the request that has an interval,
-- with that interval and those behind it. Below cidr 0 there is no key.
unfoldable pub find_up : IntervalPool → ℕ → Option (ℕ × Ip × List Ip)
find_up p zero = elim (p.pool zero) [
  | none ↦ none
  | some [] ↦ none
  | some (b ∷ rest) ↦ some (zero, b, rest)
]
find_up p (suc k) = elim (p.pool (suc k)) [
  | none ↦ none
  | some [] ↦ find_up p k
  | some (b ∷ rest) ↦ some (suc k, b, rest)
]

-- The second loop, `for i in range(thiscidr, upcidr, -1)`, by the number of rounds left: the upper
-- half of what is left of the interval goes to level i.
unfoldable pub split : IntervalPool → Ip → ℕ → ℕ → IntervalPool
split p b upcidr zero = p
split p b upcidr (suc n) =
    let i = upcidr + suc n in split (put p i (at p i ++ next_interval b i ∷ [])) b upcidr n

-- allocate(thiscidr)
unfoldable pub allocate : IntervalPool → ℕ → Result Ip × IntervalPool
allocate p thiscidr = elim (find_up p thiscidr) [
  | none ↦ (refused not_enough, p)
  | some (upcidr, b, rest) ↦ (ok b, split (put p upcidr rest) b upcidr (thiscidr - upcidr))
]

-- The inner loop of `overlap`.
unfoldable pub search_level : ℕ → List Ip → ℕ → Ip → Ip → Result Bool
search_level zero l cur_cidr cur_addr last_addr = raises endless
search_level (suc fuel) l cur_cidr cur_addr last_addr =
    let rest = search_level fuel l cur_cidr (next_interval cur_addr cur_cidr) last_addr in
    if ltb (ip_to_int cur_addr) (ip_to_int last_addr)
    then if mem cur_addr l then ok true else rest
    else ok false

-- Every round moves to a larger 32-bit number, unless it wraps.
unfoldable pub overlap_fuel : ℕ
overlap_fuel = 2 ^ 32 + 1

-- One round of the outer loop, at an existing key with the list `l`. The shift by `32 - cidr`
-- raises when an interval is there to be compared.
unfoldable pub overlap_level : List Ip → Ip → ℕ → ℕ → Result Bool
overlap_level [] addr cidr cur_cidr = ok false
overlap_level (x ∷ l) addr cidr cur_cidr =
    let found =
      search_level overlap_fuel (x ∷ l) cur_cidr (fix_ip addr (min cidr cur_cidr))
        (next_interval addr cidr) in
    if ltb 32 cidr then raises value_error else found

-- The outer loop, by the number of levels left.
unfoldable pub overlap_from : IntervalPool → Ip → ℕ → ℕ → ℕ → Result Bool
overlap_from p addr cidr zero cur_cidr = ok false
overlap_from p addr cidr (suc n) cur_cidr = elim (p.pool cur_cidr) [
  | none ↦ raises key_error
  | some l ↦ elim (overlap_level l addr cidr cur_cidr) [
    | ok false ↦ overlap_from p addr cidr n (suc cur_cidr)
    | ok true ↦ ok true
    | refused r ↦ refused r
    | raises e ↦ raises e
  ]
]

-- overlap(addr, cidr)
unfoldable pub overlap : IntervalPool → Ip → ℕ → Result Bool
overlap p addr cidr = overlap_from p addr cidr (33 - p.info_cidr) p.info_cidr

-- inrange(addr, cidr)
unfoldable pub inrange : IntervalPool → Ip → ℕ → Bool
inrange p addr cidr = leb p.info_cidr cidr && eq_ip (fix_ip addr p.info_cidr) p.info_addr

-- The interval that `addr` at level `suc k` merges with, if that is free, and the address of the
-- merged interval.
unfoldable pub buddy : IntervalPool → Ip → ℕ → Option (Ip × Ip)
buddy p addr k =
    let next = next_interval addr (suc k) in
    if eq_ip addr (fix_ip addr k)
    then if mem next (at p (suc k)) then some (next, addr) else none
    else elim (before_interval addr (suc k)) [
      | none ↦ none
      | some before ↦ if mem before (at p (suc k)) then some (before, before) else none
    ]

-- The end of `free`: append and sort.
unfoldable pub place : IntervalPool → Ip → ℕ → IntervalPool
place p addr cidr = put p cidr (sort (at p cidr ++ addr ∷ []))

-- `while(True)` of `free`, then its end. There is no key "-1".
unfoldable pub merge : IntervalPool → Ip → ℕ → IntervalPool
merge p addr zero = place p addr zero
merge p addr (suc k) = elim (p.pool k) [
  | none ↦ place p addr (suc k)
  | some _ ↦ elim (buddy p addr k) [
    | none ↦ place p addr (suc k)
    | some (gone, merged) ↦ merge (put p (suc k) (remove gone (at p (suc k)))) merged k
  ]
]

-- free(addr, cidr); the value of a success is the new pool
unfoldable pub free : IntervalPool → Ip → ℕ → Result IntervalPool
free p addr cidr =
    if inrange p addr cidr
    then elim (overlap p addr cidr) [
      | ok true ↦ refused overlaps
      | ok false ↦ elim (p.pool cidr) [
        | none ↦ refused cidr_not_in_pool
        | some _ ↦ ok (merge p (fix_ip addr cidr) cidr)
      ]
      | refused r ↦ refused r
      | raises e ↦ raises e
    ]
    else refused not_in_range
