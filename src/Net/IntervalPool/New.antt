-- ===== src/Net/IntervalPool/New.antt =====
-- The pool that the constructor of class IntervalPool builds.
use docklet.Common.{
  ℕ, ◌+◌, ◌%◌, ◌≤◌, ◌≡◌, ◌≢◌, refl, subst, ap, sym, ◌∙◌, [], ◌∷◌, All, arith, sum_upto_change,
  sum_upto_zero, floor_to-multiple,
}
use native.Mathlib.Decide.{ℕ_discrete}
use docklet.Net.Address.{Ip, ip_to_int, block_size, fix_ip}
use docklet.Net.Address.Laws.{IsQuad, fix_ip-int, fix_ip-IsQuad}
use docklet.Net.IntervalPool.{new, at}
use docklet.Net.IntervalPool.Cover.{inside, hits, cover, IsBlock, base, end, IsWellFormed, IsValid}

module _ (addr : Ip) (cidr : ℕ) (q : IsQuad addr) (bound : cidr ≤ 32) where
  start : ℕ
  start = ip_to_int (fix_ip addr cidr)

  start_aligned : start % block_size cidr ≡ 0
  unfolding start
  start_aligned =
      ap (λ n. n % block_size cidr) (fix_ip-int addr cidr q)
      ∙ floor_to-multiple (ip_to_int addr) (block_size cidr)

  at-new_self : at (new addr cidr) cidr ≡ fix_ip addr cidr ∷ []
  unfolding new at
  at-new_self = ground arith

  at-new_ne : (k : ℕ) → k ≢ cidr → at (new addr cidr) k ≡ []
  unfolding new at
  at-new_ne k ne = ground arith

  block : IsBlock start (start + block_size cidr) cidr (fix_ip addr cidr)
  unfolding start
  block = record {
    quad = fix_ip-IsQuad addr cidr;
    aligned = start_aligned;
    above = omega arith;
    below = omega arith;
  }

  cover-new : (x : ℕ) → cover (new addr cidr) x ≡ inside (ip_to_int (fix_ip addr cidr)) cidr x
  unfolding cover hits
  cover-new x =
      let f = λ (j : ℕ). hits x j [] in
      omega (
        arith,
        sum_upto_change 32 cidr f (λ j. hits x j (at (new addr cidr) j)) bound
            (λ j ne. ap (hits x j) (at-new_ne j ne)),
        sum_upto_zero 32 f (λ j le. refl),
        ap (hits x cidr) at-new_self,
      )

  new-IsWellFormed : IsWellFormed (new addr cidr)
  unfolding new start
  new-IsWellFormed = record {
    top = bound;
    base_quad = fix_ip-IsQuad addr cidr;
    base_aligned = start_aligned;
    keys = λ k. ground arith;
    blocks = λ k. elim (ℕ_discrete k cidr) [
      | yes e ↦
          subst
            (λ j.
              All (IsBlock (base (new addr cidr)) (end (new addr cidr)) j) (at (new addr cidr) j))
            (sym e) (subst (All _) (sym at-new_self) (block, tt))
      | no ne ↦ subst (All _) (sym (at-new_ne k ne)) tt
    ];
  }

  -- For an address of four bytes and a cidr of at most 32, the new pool is valid, and its free
  -- addresses are those of the network, each once.
  pub new-IsValid :
      IsValid (new addr cidr)
      × ((x : ℕ) → cover (new addr cidr) x ≡ inside (ip_to_int (fix_ip addr cidr)) cidr x)
  new-IsValid = (
    record { well_formed = new-IsWellFormed; once = λ x. ground (arith, cover-new x) },
    cover-new,
  )
