-- ===== src/Net/NetworkMgr/Shares.antt =====
-- How a network is shared out: the free blocks of the center pool, and one block for each holder.
use docklet.Common.{
  ℕ, ◌+◌, ◌≤◌, ◌<◌, ◌^◌, ◌≡◌, ◌≢◌, sym, ap, ap₂, subst, ◌∙◌, inl, inr, Option, none, some, some_inj,
  arith,
}
use docklet.Net.Address.{Ip, ip_to_int, block_size}
use docklet.Net.IntervalPool.{IntervalPool}
use docklet.Net.IntervalPool.Cover.{inside, cover, base, end, IsBlock, IsValid}
use docklet.Net.IntervalPool.Allocate.{Allocated}
use docklet.Net.IntervalPool.Held.{IsHeld, Returned}
use docklet.Net.Store.{Key, Key-cases}

-- Who holds which block: its first address and its cidr.
abbrev pub Holders : Type 0
Holders = Key → Option (Ip × ℕ)

-- A valid pool, whose network ends below 2^32; every holder's block is a block of the network of which
-- no address is free, and no two holders' blocks meet.
pub record IsShared (p : IntervalPool) (h : Holders) : Type 0 where
  pub valid : IsValid p
  pub below : end p < 2 ^ 32
  pub own : (k : Key) (b : Ip) (c : ℕ) → h k ≡ some (b, c) → IsHeld p b c
  pub apart :
      (k j : Key) (b b' : Ip) (c c' x : ℕ)
      → k ≢ j
      → h k ≡ some (b, c)
      → h j ≡ some (b', c')
      → inside (ip_to_int b) c x + inside (ip_to_int b') c' x ≤ 1

module _ (p q : IntervalPool) (same_addr : q.info_addr ≡ p.info_addr)
    (same_cidr : q.info_cidr ≡ p.info_cidr) where
  pub same_base : base q ≡ base p
  same_base = ap ip_to_int same_addr

  pub same_end : end q ≡ end p
  same_end = ap₂ (λ s n. ip_to_int s + block_size n) same_addr same_cidr

  pub over-IsHeld :
      (b : Ip) (c : ℕ)
      → c ≤ 32
      → p.info_cidr ≤ c
      → IsBlock (base p) (end p) c b
      → ((x : ℕ) → cover q x + inside (ip_to_int b) c x ≤ 1)
      → IsHeld q b c
  over-IsHeld b c bound within block taken = record {
    bound = bound;
    within = omega (arith, within, same_cidr);
    block = record {
      quad = block.quad;
      aligned = block.aligned;
      above = omega (arith, block.above, same_base);
      below = omega (arith, block.below, same_end);
    };
    taken = taken;
  }

module _ (p q : IntervalPool) (h h' : Holders) (s : IsShared p h) where
  given-IsHeld : (b : Ip) (c : ℕ) → Allocated p q c b → IsHeld q b c
  given-IsHeld b c a =
      over-IsHeld p q a.same_addr a.same_cidr b c a.bound a.within a.block
        (λ x. omega (arith, s.valid.once x, a.loses x))

  given_apart :
      (j : Key) (b b' : Ip) (c c' x : ℕ)
      → Allocated p q c b
      → h j ≡ some (b', c')
      → inside (ip_to_int b) c x + inside (ip_to_int b') c' x ≤ 1
  given_apart j b b' c c' x a e = omega (arith, (s.own j b' c' e).taken x, a.loses x)

  block_at :
      (k j : Key) (b b' : Ip) (c c' : ℕ)
      → h' k ≡ some (b, c)
      → k ≡ j
      → h' j ≡ some (b', c')
      → ◌≡◌ {A = Ip × ℕ} (b, c) (b', c')
  block_at k j b b' c c' new here e = some_inj (sym new ∙ (ap h' here ∙ e))

  -- A block leaves the center pool for the holder k, instead of what k held before.
  pub give-IsShared :
      (k : Key) (b : Ip) (c : ℕ)
      → Allocated p q c b
      → h' k ≡ some (b, c)
      → ((j : Key) → k ≢ j → h' j ≡ h j)
      → IsShared q h'
  give-IsShared k b c a new others = record {
    valid = a.valid;
    below = omega (arith, s.below, same_end p q a.same_addr a.same_cidr);
    own = λ j b' c' e. elim (Key-cases k j) [
      | inl here ↦
          subst (λ (z : Ip × ℕ). IsHeld q z.0 z.1) (block_at k j b b' c c' new here e)
            (given-IsHeld b c a)
      | inr other ↦
          let old = s.own j b' c' (sym (others j other) ∙ e) in
          over-IsHeld p q a.same_addr a.same_cidr b' c' old.bound old.within old.block
            (λ x. omega (arith, old.taken x, a.loses x))
    ];
    apart = λ i j b' b'' c' c'' x ne e f. elim (Key-cases k i) [
      | inl here ↦
          let theirs = sym (others j (λ same. ne (sym here ∙ same))) ∙ f in
          subst (λ (z : Ip × ℕ). inside (ip_to_int z.0) z.1 x + inside (ip_to_int b'') c'' x ≤ 1)
            (block_at k i b b' c c' new here e) (given_apart j b b'' c c'' x a theirs)
      | inr other ↦ elim (Key-cases k j) [
        | inl here ↦
            let theirs = sym (others i other) ∙ e in
            subst (λ (z : Ip × ℕ). inside (ip_to_int b') c' x + inside (ip_to_int z.0) z.1 x ≤ 1)
              (block_at k j b b'' c c'' new here f)
              (omega (arith, given_apart i b b' c c' x a theirs))
        | inr other' ↦
            s.apart i j b' b'' c' c'' x ne (sym (others i other) ∙ e) (sym (others j other') ∙ f)
      ]
    ];
  }

  -- A block leaves the center pool for nobody.
  pub leak-IsShared :
      (b : Ip) (c : ℕ) → Allocated p q c b → ((j : Key) → h' j ≡ h j) → IsShared q h'
  leak-IsShared b c a all = record {
    valid = a.valid;
    below = omega (arith, s.below, same_end p q a.same_addr a.same_cidr);
    own = λ j b' c' e.
        let old = s.own j b' c' (sym (all j) ∙ e) in
        over-IsHeld p q a.same_addr a.same_cidr b' c' old.bound old.within old.block
          (λ x. omega (arith, old.taken x, a.loses x));
    apart = λ i j b' b'' c' c'' x ne e f.
        s.apart i j b' b'' c' c'' x ne (sym (all i) ∙ e) (sym (all j) ∙ f);
  }

  -- The block of k comes back.
  pub return-IsShared :
      (k : Key) (b : Ip) (c : ℕ)
      → h k ≡ some (b, c)
      → Returned p q b c
      → h' k ≡ none
      → ((j : Key) → k ≢ j → h' j ≡ h j)
      → IsShared q h'
  return-IsShared k b c old r gone others = record {
    valid = r.valid;
    below = omega (arith, s.below, same_end p q r.same_addr r.same_cidr);
    own = λ j b' c' e. elim (Key-cases k j) [
      | inl here ↦ absurd (cc (gone, here, e))
      | inr other ↦
          let before = sym (others j other) ∙ e in
          let theirs = s.own j b' c' before in
          over-IsHeld p q r.same_addr r.same_cidr b' c' theirs.bound theirs.within theirs.block
            (λ x. omega (
              arith,
              theirs.taken x,
              (s.own k b c old).taken x,
              s.apart k j b b' c c' x other old before,
              r.gain x,
            ))
    ];
    apart = λ i j b' b'' c' c'' x ne e f. elim (Key-cases k i) [
      | inl here ↦ absurd (cc (gone, here, e))
      | inr other ↦ elim (Key-cases k j) [
        | inl here ↦ absurd (cc (gone, here, f))
        | inr other' ↦
            s.apart i j b' b'' c' c'' x ne (sym (others i other) ∙ e) (sym (others j other') ∙ f)
      ]
    ];
  }

pub kept-IsShared :
    (p q : IntervalPool) (h h' : Holders)
    → q ≡ p
    → ((j : Key) → h' j ≡ h j)
    → IsShared p h
    → IsShared q h'
kept-IsShared p q h h' same all s =
    subst (λ r. IsShared r h') (sym same)
      (record {
        valid = s.valid;
        below = s.below;
        own = λ k b c e. s.own k b c (sym (all k) ∙ e);
        apart = λ k j b b' c c' x ne e f.
            s.apart k j b b' c c' x ne (sym (all k) ∙ e) (sym (all j) ∙ f);
      })

abbrev pub nobody : Holders
nobody k = none

pub nobody-IsShared : (p : IntervalPool) → IsValid p → end p < 2 ^ 32 → IsShared p nobody
nobody-IsShared p v below = record {
  valid = v;
  below = below;
  own = λ k b c e. absurd (cc e);
  apart = λ k j b b' c c' x ne e f. absurd (cc e);
}
