-- ===== src/Net/EnumPool/New.antt =====
-- The pool that the constructor of class EnumPool builds.
use docklet.Common.{
  ℕ, zero, suc, ◌+◌, ◌-◌, ◌%◌, ◌^◌, ◌≤◌, ◌<◌, ◌≡◌, ap, sym, ◌∙◌, inl, inr, ◌&&◌, [], arith, leb,
  ltb, if◌then◌else◌, Bool-cases, multiple_gap, floor_to-multiple,
}
use native.Mathlib.Decide.{ℕ_discrete}
use docklet.Net.Address.{Ip, eq_ip, ip_to_int, int_to_ip, fix_ip, block_size}
use docklet.Net.Address.Laws.{
  IsQuad, int_to_ip-ip_to_int, ip_of_int, eq_ip_sound, eq_ip_refl, fix_ip-int, fix_ip-IsQuad,
  ip_to_int-lt, block_size-divides, block_size_pos,
}
use docklet.Net.EnumPool.{new, hosts, inrange}
use docklet.Net.EnumPool.Count.{count}
use docklet.Net.EnumPool.Ownership.{Conserved}

-- An address is the one of a number exactly if the number is its own.
eq_ip-int :
    (x : Ip) (n : ℕ)
    → IsQuad x
    → n < 2 ^ 32
    → eq_ip x (int_to_ip n) ≡ (leb n (ip_to_int x) && leb (ip_to_int x) n)
eq_ip-int x n q lt = elim (Bool-cases (eq_ip x (int_to_ip n))) [
  | inl e ↦
      let value = ap ip_to_int (eq_ip_sound x (int_to_ip n) e) ∙ ip_of_int n lt in
      rw e (ground (arith, value))
  | inr e ↦ elim (ℕ_discrete (ip_to_int x) n) [
    | yes same ↦
        let back = sym (int_to_ip-ip_to_int x q) ∙ ap int_to_ip same in
        cc (e, eq_ip_refl x, ap (eq_ip x) back)
    | no ne ↦ rw e (ground arith)
  ]
]

pub count-hosts :
    (x : Ip) (base i n : ℕ)
    → IsQuad x
    → base + i + n ≤ 2 ^ 32
    → count x (hosts base i n)
      ≡ (if leb (base + i) (ip_to_int x) && ltb (ip_to_int x) (base + i + n) then 1 else 0)
unfolding count hosts
count-hosts x base i zero q le = ground arith
count-hosts x base i (suc n) q le =
    rw (eq_ip-int x (base + i) q (omega arith))
      (ground (arith, count-hosts x base (suc i) n q (omega arith)))

pub network_fits :
    (addr : Ip) (cidr : ℕ)
    → IsQuad addr
    → cidr ≤ 32
    → ip_to_int (fix_ip addr cidr) + block_size cidr ≤ 2 ^ 32
network_fits addr cidr q bound =
    multiple_gap (block_size cidr) (ip_to_int (fix_ip addr cidr)) (2 ^ 32)
      (ap (λ n. n % block_size cidr) (fix_ip-int addr cidr q)
        ∙ floor_to-multiple (ip_to_int addr) (block_size cidr))
      (block_size-divides cidr bound) (ip_to_int-lt (fix_ip addr cidr) (fix_ip-IsQuad addr cidr))

-- For an address of four bytes and a cidr of at most 32, a new pool holds each address of its
-- range once and no other, while nobody holds any.
pub new-Conserved :
    (addr : Ip) (cidr : ℕ)
    → IsQuad addr
    → cidr ≤ 32
    → Conserved (inrange (new addr cidr)) (new addr cidr) []
unfolding new inrange count
new-Conserved addr cidr q bound = record {
  once = λ x y. ground (
    arith,
    count-hosts x (ip_to_int (fix_ip addr cidr)) 1 (block_size cidr - 2) y,
    network_fits addr cidr q bound,
    block_size_pos cidr,
  );
}
