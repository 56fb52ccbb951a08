-- ===== src/Net/IntervalPool/Held.antt =====
-- Blocks that somebody holds, and what `free` does with them.
use docklet.Common.{
  ℕ, zero, suc, ◌+◌, ◌≤◌, ◌<◌, ◌^◌, ◌≡◌, refl, sym, ap, ◌∙◌, inl, inr, Option-cases, true, false,
  Bool-cases, arith,
}
use docklet.Net.Address.{Ip, ip_to_int, fix_ip}
use docklet.Net.Address.Laws.{fix_ip_aligned, block_size_pos}
use docklet.Net.Result.{ok, ok-injective, Result-cases}
use docklet.Net.IntervalPool.{
  IntervalPool, at, put, remove, buddy, place, merge, free, overlap, inrange,
}
use docklet.Net.IntervalPool.Cover.{inside, cover, base, end, IsBlock, IsValid}
use docklet.Net.IntervalPool.Overlap.{InBlock}
use docklet.Net.IntervalPool.Free.{inrange_lem, free_lem}

-- b/c is a block of the network with no free address.
pub record IsHeld (p : IntervalPool) (b : Ip) (c : ℕ) : Type 0 where
  pub bound : c ≤ 32
  pub within : p.info_cidr ≤ c
  pub block : IsBlock (base p) (end p) c b
  pub taken : (x : ℕ) → cover p x + inside (ip_to_int b) c x ≤ 1

merge_info :
    (k : ℕ) (p : IntervalPool) (addr : Ip)
    → ((merge p addr k).info_addr ≡ p.info_addr) × ((merge p addr k).info_cidr ≡ p.info_cidr)
unfolding merge place put
merge_info zero p addr = (refl, refl)
merge_info (suc k) p addr = elim (Option-cases (p.pool k)) [
  | inl top ↦ rw (top, merge) (refl, refl)
  | inr (l, there) ↦ elim (Option-cases (buddy p addr k)) [
    | inl alone ↦ rw (there, alone, merge) (refl, refl)
    | inr ((gone, merged), found) ↦
        rw (there, found, merge) (merge_info k (put p (suc k) (remove gone (at p (suc k)))) merged)
  ]
]

free_info :
    (p q : IntervalPool) (addr : Ip) (c : ℕ)
    → free p addr c ≡ ok q
    → (q.info_addr ≡ p.info_addr) × (q.info_cidr ≡ p.info_cidr)
unfolding free
free_info p q addr c e = elim (Bool-cases (inrange p addr c)) [
  | inr out ↦ absurd (cc (rw (out, free) at e))
  | inl range ↦ elim (Result-cases (overlap p addr c)) [
    | inr (inl (r, bad)) ↦ absurd (cc (rw (range, bad, free) at e))
    | inr (inr (r, bad)) ↦ absurd (cc (rw (range, bad, free) at e))
    | inl (true, hit) ↦ absurd (cc (rw (range, hit, free) at e))
    | inl (false, clear) ↦ elim (Option-cases (p.pool c)) [
      | inl absent ↦ absurd (cc (rw (range, clear, absent, free) at e))
      | inr (l, there) ↦
          let m : merge p (fix_ip addr c) c ≡ q =
            ok-injective (rw (range, clear, there, free) at e) in
          let info = merge_info c p (fix_ip addr c) in
          (
            ap (λ (x : IntervalPool). x.info_addr) (sym m) ∙ info.0,
            ap (λ (x : IntervalPool). x.info_cidr) (sym m) ∙ info.1,
          )
    ]
  ]
]

-- The pool `q` is `p` with the block b/c added.
pub record Returned (p q : IntervalPool) (b : Ip) (c : ℕ) : Type 0 where
  pub valid : IsValid q
  pub same_addr : q.info_addr ≡ p.info_addr
  pub same_cidr : q.info_cidr ≡ p.info_cidr
  pub gain : (x : ℕ) → cover q x ≡ cover p x + inside (ip_to_int b) c x

pub free_held :
    (p : IntervalPool) (b : Ip) (c : ℕ)
    → IsValid p
    → end p < 2 ^ 32
    → IsHeld p b c
    → (q : IntervalPool) × (free p b c ≡ ok q) × Returned p q b c
free_held p b c v no_wrap h =
    let same : fix_ip b c ≡ b = fix_ip_aligned b c h.block.quad h.block.aligned in
    let range =
      inrange_lem p b c v.well_formed h.block.quad h.within h.block.above
        (omega (arith, h.block.below, block_size_pos c)) in
    let held : (x : ℕ) → InBlock b c x → cover p x ≡ 0 =
      λ x i. ground (arith, h.taken x, ap ip_to_int same, i.0, i.1) in
    let (q, freed, valid, gain) = free_lem p b c v h.block.quad h.bound range no_wrap held in
    let info = free_info p q b c freed in
    (
      q,
      freed,
      record {
        valid = valid;
        same_addr = info.0;
        same_cidr = info.1;
        gain = λ x. omega (arith, gain x, ap (λ y. inside (ip_to_int y) c x) same);
      },
    )
