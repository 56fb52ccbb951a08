-- ===== src/Batch/TaskNets/Addresses.antt =====
-- The addresses of a task and the net that it holds.
use docklet.Common.{
  ℕ, zero, suc, ◌+◌, ◌-◌, ◌^◌, ◌≤◌, ◌<◌, ◌≡◌, ◌≢◌, refl, sym, ap, ◌∙◌, some, List, length,
  get_elem?, arith, some_inj, multiple_gap, multiples_mod, ◌%◌, ltb, ltb→lt, ltb→le, Bool-cases,
  inl, inr,
}
use native.Mathlib.Nat.{pow-le-pow_right}
use docklet.Net.Address.{Ip, ip_to_int, int_to_ip}
use docklet.Net.Address.Laws.{ip_to_int-int_to_ip}
use docklet.Batch.Task.{Task, ips_from, gen_ips_from_base}
use docklet.Batch.TaskNets.{TaskNets, max_size, gateway_ip}
use docklet.Batch.TaskNets.Pool.{IsNet}

ips_from-get_elem? :
    (k n i : ℕ) (ip : Ip)
    → get_elem? (ips_from k n) i ≡ some ip
    → (ip ≡ int_to_ip (n + i)) × (i < k)
unfolding ips_from get_elem?
ips_from-get_elem? zero n i ip e = cc
ips_from-get_elem? (suc k) n zero ip e =
    (sym (some_inj e) ∙ ap int_to_ip (omega arith), omega arith)
ips_from-get_elem? (suc k) n (suc i) ip e =
    let (same, lt) = ips_from-get_elem? k (suc n) i ip e in
    (same ∙ ap int_to_ip (omega arith), omega (arith, lt))

length-ips_from : (k n : ℕ) → length (ips_from k n) ≡ k
unfolding ips_from
length-ips_from zero n = refl
length-ips_from (suc k) n = omega (arith, length-ips_from k (suc n))

get_elem?-ips_from : (k n i : ℕ) → i < k → get_elem? (ips_from k n) i ≡ some (int_to_ip (n + i))
unfolding ips_from get_elem?
get_elem?-ips_from zero n i lt = absurd (omega arith)
get_elem?-ips_from (suc k) n zero lt = ap (λ m. some (int_to_ip m)) (omega arith)
get_elem?-ips_from (suc k) n (suc i) lt =
    get_elem?-ips_from k (suc n) i (omega arith) ∙ ap (λ m. some (int_to_ip m)) (omega arith)

-- A task manager whose batch network lies in the address space, and a task of it that holds a net.
module _ (n : TaskNets) (t : Task) (x : ℕ) (space : n.base_ip + 2 ^ (32 - n.batch_cidr) ≤ 2 ^ 32)
    (net : IsNet n x) (holds : t.task_base_ip ≡ some x) (full : t.max_size ≡ max_size n) where
  made : (gen_ips_from_base t n.base_ip).ips ≡ some (ips_from t.max_size (n.base_ip + x + 2))
  unfolding gen_ips_from_base
  made = rw holds refl

  -- A task of the largest size that holds a net gets an address for each vnode: the one at i is
  -- i + 2 above the first address of the net, so that all lie in the net, above its gateway.
  pub gen_ips_from_base_lem :
      (l : List Ip) × ((gen_ips_from_base t n.base_ip).ips ≡ some l)
      × (length l ≡ max_size n)
      × ((i : ℕ) (ip : Ip)
          → get_elem? l i ≡ some ip
          → (ip_to_int ip ≡ n.base_ip + x + 2 + i)
            × (ip_to_int (gateway_ip n x) < ip_to_int ip)
            × (ip_to_int ip < n.base_ip + x + 2 ^ n.task_cidr))
  unfolding max_size gateway_ip
  gen_ips_from_base_lem = (
    ips_from t.max_size (n.base_ip + x + 2),
    made,
    length-ips_from t.max_size (n.base_ip + x + 2) ∙ full,
    λ i ip e.
        let (same, lt) = ips_from-get_elem? t.max_size (n.base_ip + x + 2) i ip e in
        let value = ap ip_to_int same ∙ ip_to_int-int_to_ip (n.base_ip + x + 2 + i) in
        let gateway = ip_to_int-int_to_ip (n.base_ip + x + 1) in
        (
          omega (arith, value, lt, full, net.fits, space),
          omega (arith, value, gateway, lt, full, net.fits, space),
          omega (arith, value, lt, full, net.fits, space),
        ),
  )

  -- For a batch network that lies in the address space and whose base address is a multiple of the size
  -- of a task's net, with a task_cidr of at least 2: the last address of a task of the largest size that
  -- holds one of the nets is the last address of that net, with all its host bits set: the net's
  -- broadcast address.
  pub gen_ips-broadcast :
      2 ≤ n.task_cidr
      → n.base_ip % 2 ^ n.task_cidr ≡ 0
      → (l : List Ip) × (ip : Ip) × ((gen_ips_from_base t n.base_ip).ips ≡ some l)
        × (get_elem? l (max_size n - 1) ≡ some ip)
        × (ip_to_int ip ≡ n.base_ip + x + (2 ^ n.task_cidr - 1))
        × (ip_to_int ip % 2 ^ n.task_cidr ≡ 2 ^ n.task_cidr - 1)
  unfolding max_size
  gen_ips-broadcast two base =
      let four : 4 ≤ 2 ^ n.task_cidr = pow-le-pow_right {n = 2} (omega arith) two in
      let i = 2 ^ n.task_cidr - 2 - 1 in
      let ip = int_to_ip (n.base_ip + x + 2 + i) in
      let last : ip_to_int ip ≡ n.base_ip + x + (2 ^ n.task_cidr - 1) =
        omega (arith, ip_to_int-int_to_ip (n.base_ip + x + 2 + i), four, net.fits, space) in
      (
        ips_from t.max_size (n.base_ip + x + 2),
        ip,
        made,
        get_elem?-ips_from t.max_size (n.base_ip + x + 2) i (omega (arith, four, full)),
        last,
        ap (λ k. k % 2 ^ n.task_cidr) last
            ∙ multiples_mod (2 ^ n.task_cidr) n.base_ip x (2 ^ n.task_cidr - 1) base net.aligned
                (omega (arith, four)),
      )

-- In a batch network that lies in the address space, no address of a task of the largest size is an
-- address of a task of that size with another net.
pub ips_apart :
    (n : TaskNets) (s t : Task) (x y : ℕ)
    → n.base_ip + 2 ^ (32 - n.batch_cidr) ≤ 2 ^ 32
    → IsNet n x
    → IsNet n y
    → x ≢ y
    → s.task_base_ip ≡ some x
    → t.task_base_ip ≡ some y
    → s.max_size ≡ max_size n
    → t.max_size ≡ max_size n
    → (l m : List Ip) (i j : ℕ) (ip : Ip) → (gen_ips_from_base s n.base_ip).ips ≡ some l
    → (gen_ips_from_base t n.base_ip).ips ≡ some m
    → get_elem? l i ≡ some ip
    → get_elem? m j ≢ some ip
ips_apart n s t x y space nx ny ne hx hy fs ft l m i j ip el em here there =
    let (l', el', _, inx) = gen_ips_from_base_lem n s x space nx hx fs in
    let (m', em', _, iny) = gen_ips_from_base_lem n t y space ny hy ft in
    let (a, _, a') = inx i ip (ap (λ k. get_elem? k i) (some_inj (sym el' ∙ el)) ∙ here) in
    let (b, _, b') = iny j ip (ap (λ k. get_elem? k j) (some_inj (sym em' ∙ em)) ∙ there) in
    elim (Bool-cases (ltb x y)) [
      | inl below ↦
          let gap = multiple_gap (2 ^ n.task_cidr) x y nx.aligned ny.aligned (ltb→lt x y below) in
          absurd (omega (arith, a', b, gap))
      | inr above ↦
          let lt : y < x = omega (arith, ltb→le x y above, λ (e : y ≡ x). ne (sym e)) in
          let gap = multiple_gap (2 ^ n.task_cidr) y x ny.aligned nx.aligned lt in
          absurd (omega (arith, a, b', gap))
    ]
