-- ===== src/Net/IntervalPool/Blocks.antt =====
-- Aligned blocks: a block is the disjoint union of its halves, and stays in its network.
use docklet.Common.{
  ℕ, zero, suc, ◌+◌, ◌-◌, ◌%◌, ◌^◌, ◌≤◌, ◌≡◌, sym, subst, ap, ◌∙◌, true, arith, leb, ◌&&◌,
  multiple_half, multiple_add, multiple_gap,
}
use native.Mathlib.Nat.{add-zero, add-suc}
use docklet.Net.Address.{block_size}
use docklet.Net.Address.Laws.{block_size_half, block_size-divides, ip_to_int-lt}
use docklet.Net.IntervalPool.{IntervalPool}
use docklet.Net.IntervalPool.Cover.{inside, has_key, base, end, IsWellFormed}

pub aligned_below : (k n a : ℕ) → k + n ≤ 32 → a % block_size k ≡ 0 → a % block_size (k + n) ≡ 0
aligned_below k zero a le h = rw (add-zero k) h
aligned_below k (suc n) a le h =
    let half = block_size_half (k + n) (omega arith) in
    rw (add-suc k n) (
      multiple_half (block_size (suc (k + n))) a
        (subst (λ t. a % t ≡ 0) half (aligned_below k n a (omega arith) h)))

-- What is aligned to a larger block is aligned to a smaller one.
pub aligned_mono : (k c a : ℕ) → k ≤ c → c ≤ 32 → a % block_size k ≡ 0 → a % block_size c ≡ 0
aligned_mono k c a le bound h =
    let e : k + (c - k) ≡ c = omega arith in
    subst (λ j. a % block_size j ≡ 0) e (aligned_below k (c - k) a (omega arith) h)

pub block_size_below : (k n : ℕ) → k + n ≤ 32 → block_size (k + n) ≤ block_size k
block_size_below k zero le = omega (arith, ap block_size (add-zero k))
block_size_below k (suc n) le =
    rw (add-suc k n)
      (omega (arith, block_size_half (k + n) (omega arith), block_size_below k n (omega arith)))

-- A block is the disjoint union of its halves.
pub inside_halves :
    (a k x : ℕ)
    → suc k ≤ 32
    → inside a k x ≡ inside a (suc k) x + inside (a + block_size (suc k)) (suc k) x
inside_halves a k x le = ground (arith, block_size_half k le)

pub halves_at :
    (a u n x : ℕ)
    → u + suc n ≤ 32
    → inside a (u + n) x
      ≡ inside a (u + suc n) x + inside (a + block_size (u + suc n)) (u + suc n) x
halves_at a u n x le = rw (add-suc u n) (inside_halves a (u + n) x (omega arith))

pub end-le : (p : IntervalPool) → IsWellFormed p → end p ≤ 2 ^ 32
end-le p w =
    multiple_gap (block_size p.info_cidr) (base p) (2 ^ 32) w.base_aligned
      (block_size-divides p.info_cidr w.top) (ip_to_int-lt p.info_addr w.base_quad)

pub key_range :
    (p : IntervalPool) (k : ℕ) → IsWellFormed p → has_key p k ≡ true → (p.info_cidr ≤ k) × (k ≤ 32)
key_range p k w h =
    let bounds : (leb p.info_cidr k && leb k 32) ≡ true = sym (w.keys k) ∙ h in ground arith

-- The network's ends are aligned to every cidr that is a key.
pub ends_aligned :
    (p : IntervalPool) (k : ℕ)
    → IsWellFormed p
    → has_key p k ≡ true
    → (base p % block_size k ≡ 0) × (end p % block_size k ≡ 0)
ends_aligned p k w h =
    let (low, high) = key_range p k w h in
    let n = k - p.info_cidr in
    let e : p.info_cidr + n ≡ k = omega arith in
    let le : p.info_cidr + n ≤ 32 = omega arith in
    subst (λ j. (base p % block_size j ≡ 0) × (end p % block_size j ≡ 0)) e
      (
        aligned_below p.info_cidr n (base p) le w.base_aligned,
        aligned_below p.info_cidr n (end p) le
            (multiple_add (block_size p.info_cidr) (base p) w.base_aligned),
      )
