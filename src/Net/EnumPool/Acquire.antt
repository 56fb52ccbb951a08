-- ===== src/Net/EnumPool/Acquire.antt =====
-- `acquire` takes addresses out of the pool, and never fails inside its loop.
use docklet.Common.{
  ℕ, zero, suc, ◌+◌, ◌≤◌, ◌<◌, ◌≡◌, refl, ap, ◌∙◌, some, List, [], ◌∷◌, ◌++◌, arith, length,
  length-append, le→ltb, lt→ltb,
}
use mathlib.Core.List.{append-nil, append_assoc}
use docklet.Net.Address.{Ip}
use docklet.Net.Result.{ok, refused, not_enough}
use docklet.Net.EnumPool.{EnumPool, pop, pops, acquire}
use docklet.Net.EnumPool.Count.{count, count-append}

-- The last item with the others.
pop_lem :
    (l : List Ip)
    → 0 < length l
    → (y : Ip) × (rest : List Ip) × (pop l ≡ some (y, rest)) × (l ≡ rest ++ y ∷ [])
unfolding pop
pop_lem [] h = absurd (omega arith)
pop_lem (x ∷ []) h = (x, [], refl, refl)
pop_lem (x ∷ z ∷ l) h =
    let (y, rest, e, s) = pop_lem (z ∷ l) (omega arith) in
    (y, x ∷ rest, rw (e, pop), ap (λ t. x ∷ t) s)

pops_lem :
    (num : ℕ) (pool result : List Ip)
    → num ≤ length pool
    → (taken rest : List Ip) × (pops num pool result ≡ some (result ++ taken, rest))
      × (length taken ≡ num)
      × ((x : Ip) → count x pool ≡ count x rest + count x taken)
unfolding pops count
pops_lem zero pool result le = ([], pool, rw append-nil, refl, λ x. omega arith)
pops_lem (suc num) pool result le =
    let (y, others, e, s) = pop_lem pool (omega arith) in
    let size = ap length s ∙ length-append others (y ∷ []) in
    let (taken, rest, run, len, counts) = pops_lem num others (result ++ y ∷ []) (omega arith) in
    (
      y ∷ taken,
      rest,
      rw (e, pops) (run ∙ ap (λ t. some (t, rest)) (append_assoc result (y ∷ []) taken)),
      ap suc len,
      λ x. omega (arith, ap (count x) s, count-append x others (y ∷ []), counts x),
    )

-- `acquire(num)` succeeds whenever the pool has that many addresses: it hands out exactly `num`,
-- each as often as the pool loses it, and leaves the network as it was.
pub acquire_ok :
    (p : EnumPool) (num : ℕ)
    → num ≤ length p.pool
    → (ips : List Ip) × ((acquire p num).0 ≡ ok ips)
      × (length ips ≡ num)
      × ((x : Ip) → count x p.pool ≡ count x (acquire p num).1.pool + count x ips)
      × ((acquire p num).1.info_addr ≡ p.info_addr)
      × ((acquire p num).1.info_cidr ≡ p.info_cidr)
unfolding acquire
acquire_ok p num le =
    let (taken, rest, run, len, counts) = pops_lem num p.pool [] le in
    (
      taken,
      rw (le→ltb (length p.pool) num le, run) refl,
      len,
      rw (le→ltb (length p.pool) num le, run) counts,
      rw (le→ltb (length p.pool) num le, run) refl,
      rw (le→ltb (length p.pool) num le, run) refl,
    )

pub acquire_refused :
    (p : EnumPool) (num : ℕ) → length p.pool < num → acquire p num ≡ (refused not_enough, p)
unfolding acquire
acquire_refused p num lt = rw (lt→ltb (length p.pool) num lt)
