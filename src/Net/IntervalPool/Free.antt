-- ===== src/Net/IntervalPool/Free.antt =====
-- `free` of class IntervalPool and the addresses that are free before and after it.
use docklet.Common.{
  ℕ, ◌+◌, ◌^◌, ◌≤◌, ◌<◌, ◌≡◌, ap, ap₂, ◌∙◌, inl, inr, true, false, arith, Option-cases, Bool-cases,
}
use docklet.Net.Address.{Ip, ip_to_int, block_size, fix_ip}
use docklet.Net.Address.Laws.{
  IsQuad, eq_ip_refl, fix_ip_aligned, block_size_pos, fix_ip-IsQuad, fix_ip_block,
}
use docklet.Net.Result.{ok, refused, overlaps}
use docklet.Net.IntervalPool.{IntervalPool, allocate, merge, inrange, overlap, free}
use docklet.Net.IntervalPool.Cover.{
  inside, cover, has_key, IsBlock, base, end, IsWellFormed, IsValid,
}
use docklet.Net.IntervalPool.Overlap.{
  InBlock, keyed, start_above, start_below, start_aligned, overlap-Answers, overlap_at_top,
}
use docklet.Net.IntervalPool.Merge.{merge-Gains}
use docklet.Net.IntervalPool.Allocate.{allocate_ok}

at_most_once :
    (start c x n : ℕ)
    → n ≤ 1
    → (start ≤ x → x < start + block_size c → n ≡ 0)
    → n + inside start c x ≤ 1
at_most_once start c x n le h = ground (arith, h)

module _ (p : IntervalPool) (addr : Ip) (cidr : ℕ) (v : IsValid p) (q : IsQuad addr)
    (bound : cidr ≤ 32) (range : inrange p addr cidr ≡ true) where
  block : IsBlock (base p) (end p) cidr (fix_ip addr cidr)
  block = record {
    quad = fix_ip-IsQuad addr cidr;
    aligned = start_aligned p addr cidr v.well_formed q bound range;
    above = start_above p addr cidr v.well_formed q bound range;
    below = start_below p addr cidr v.well_formed q bound range;
  }

  free_branch :
      overlap p addr cidr ≡ ok false
      → has_key p cidr ≡ true
      → free p addr cidr ≡ ok (merge p (fix_ip addr cidr) cidr)
  unfolding free
  free_branch clear key = elim (Option-cases (p.pool cidr)) [
    | inl absent ↦ absurd (cc (key, absent))
    | inr (l, there) ↦ rw (range, clear, there)
  ]

  -- In a valid pool, a block in range (four bytes, cidr at most 32) that ends with the address
  -- space is accepted whatever is free: each of its addresses is then free once more than before.
  pub free_unseen :
      ip_to_int (fix_ip addr cidr) + block_size cidr ≡ 2 ^ 32
      → (q' : IntervalPool) × (free p addr cidr ≡ ok q')
        × ((x : ℕ) → InBlock addr cidr x → cover q' x ≡ cover p x + 1)
  free_unseen last_block =
      let key = keyed p addr cidr v.well_formed q bound range in
      let g = merge-Gains cidr p (fix_ip addr cidr) v.well_formed key block in
      (
        merge p (fix_ip addr cidr) cidr,
        free_branch (overlap_at_top p addr cidr bound last_block v.well_formed) key,
        λ x i. ground (arith, g.gain x),
      )

  module _ (no_wrap : end p < 2 ^ 32) where
    -- In a valid pool whose network ends below 2^32, let a block in range (four bytes, cidr at
    -- most 32) have no free address: `free` succeeds, the pool stays valid, and the free
    -- addresses gain the block and nothing else.
    pub free_lem :
        ((x : ℕ) → InBlock addr cidr x → cover p x ≡ 0)
        → (q' : IntervalPool) × (free p addr cidr ≡ ok q')
          × IsValid q'
          × ((x : ℕ) → cover q' x ≡ cover p x + inside (ip_to_int (fix_ip addr cidr)) cidr x)
    free_lem held =
        let a = overlap-Answers p addr cidr v.well_formed q bound range no_wrap in
        elim (Bool-cases a.answer) [
          | inl hit ↦ let (x, i, pos) = a.if_true hit in absurd (omega (arith, held x i))
          | inr clear ↦
              let key = keyed p addr cidr v.well_formed q bound range in
              let g = merge-Gains cidr p (fix_ip addr cidr) v.well_formed key block in
              (
                merge p (fix_ip addr cidr) cidr,
                free_branch (a.returns ∙ ap ok clear) key,
                record {
                  well_formed = g.well_formed;
                  once = λ x. omega (
                    arith,
                    g.gain x,
                    at_most_once (ip_to_int (fix_ip addr cidr)) cidr x (cover p x) (v.once x)
                        (λ low high. held x (low, high)),
                  );
                },
                g.gain,
              )
        ]

    -- In a valid pool whose network ends below 2^32, `free` refuses a block in range (four bytes,
    -- cidr at most 32) that has a free address.
    pub free_twice :
        (x : ℕ) → InBlock addr cidr x → 0 < cover p x → free p addr cidr ≡ refused overlaps
    unfolding free
    free_twice x i hit =
        let a = overlap-Answers p addr cidr v.well_formed q bound range no_wrap in
        elim (Bool-cases a.answer) [
          | inl yes_hit ↦ rw (range, a.returns ∙ ap ok yes_hit)
          | inr clear ↦ absurd (omega (arith, a.if_false clear x i))
        ]

pub not_free_now :
    (start c x n m : ℕ)
    → n ≡ m + inside start c x
    → n ≤ 1
    → start ≤ x
    → x < start + block_size c
    → m ≡ 0
not_free_now start c x n m e le low high = ground arith

-- A block of the network, at most as large as it, is in range.
pub inrange_lem :
    (p : IntervalPool) (b : Ip) (c : ℕ)
    → IsWellFormed p
    → IsQuad b
    → p.info_cidr ≤ c
    → base p ≤ ip_to_int b
    → ip_to_int b < end p
    → inrange p b c ≡ true
unfolding inrange
inrange_lem p b c w q le low high =
    let same = fix_ip_block p.info_addr b p.info_cidr w.base_quad q w.base_aligned low high in
    rw same (ground (arith, eq_ip_refl p.info_addr))

-- In a valid pool whose network ends below 2^32, a block that was allocated can be given back,
-- and then the pool is valid and the same addresses are free as before.
pub free-allocate :
    (p : IntervalPool) (c : ℕ) (b : Ip)
    → IsValid p
    → end p < 2 ^ 32
    → (allocate p c).0 ≡ ok b
    → (q : IntervalPool) × (free (allocate p c).1 b c ≡ ok q)
      × IsValid q
      × ((x : ℕ) → cover q x ≡ cover p x)
free-allocate p c b v no_wrap e =
    let p' = (allocate p c).1 in
    let a = allocate_ok p c b v e in
    let same : fix_ip b c ≡ b = fix_ip_aligned b c a.block.quad a.block.aligned in
    let same_base = ap ip_to_int a.same_addr in
    let same_end : end p' ≡ end p =
      ap₂ (λ s n. ip_to_int s + block_size n) a.same_addr a.same_cidr in
    let range =
      inrange_lem p' b c a.valid.well_formed a.block.quad (omega (arith, a.same_cidr, a.within))
        (omega (arith, same_base, a.block.above))
        (omega (arith, same_end, a.block.below, block_size_pos c)) in
    let held : (x : ℕ) → InBlock b c x → cover p' x ≡ 0 = λ x i.
      not_free_now (ip_to_int b) c x (cover p x) (cover p' x) (a.loses x) (v.once x)
        (omega (arith, ap ip_to_int same, i.0)) (omega (arith, ap ip_to_int same, i.1)) in
    let (q, freed, valid, gain) =
      free_lem p' b c a.valid a.block.quad a.bound range (omega (arith, same_end)) held in
    (
      q,
      freed,
      valid,
      λ x. omega (arith, gain x, a.loses x, ap (λ y. inside (ip_to_int y) c x) same),
    )
