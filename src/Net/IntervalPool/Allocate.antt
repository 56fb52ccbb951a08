-- ===== src/Net/IntervalPool/Allocate.antt =====
-- `allocate` of class IntervalPool and the addresses that are free before and after it.
use docklet.Common.{
  ℕ, zero, suc, ◌+◌, ◌-◌, ◌*◌, ◌%◌, ◌^◌, ◌≤◌, ◌<◌, ◌≡◌, refl, sym, subst, ap, ◌∙◌, inl, inr, true,
  none, some, List, [], ◌∷◌, ◌++◌, arith, All, All-append, Option-cases, multiple_add,
}
use native.Mathlib.Decide.{ℕ_discrete}
use native.Mathlib.Nat.{add-zero, add-suc}
use docklet.Net.Address.{Ip, ip_to_int, block_size, next_interval}
use docklet.Net.Address.Laws.{
  block_size_half, block_size_pos, next_interval-int, next_interval-IsQuad,
}
use docklet.Net.Result.{ok, ok-injective, refused, not_enough}
use docklet.Net.IntervalPool.{IntervalPool, at, put, find_up, split, allocate}
use docklet.Net.IntervalPool.Blocks.{aligned_below, block_size_below, halves_at, end-le, key_range}
use docklet.Net.IntervalPool.Cover.{
  inside, hits, hits-append, cover, cover-put, has_key, has_key-put, IsBlock, base, end,
  IsWellFormed, IsValid, put-IsWellFormed,
}

-- What the search for a level finds.
module _ (p : IntervalPool) where
  find_up_level :
      (c u : ℕ) (b : Ip) (rest : List Ip)
      → find_up p c ≡ some (u, b, rest)
      → (u ≤ c) × (has_key p u ≡ true) × (at p u ≡ b ∷ rest)
  unfolding find_up at
  find_up_level zero u b rest e = ground arith
  find_up_level (suc k) u b rest e = ground (arith, find_up_level k u b rest)

  find_up_between :
      (c u i : ℕ) (b : Ip) (rest : List Ip)
      → find_up p c ≡ some (u, b, rest)
      → u < i
      → i ≤ c
      → has_key p i ≡ true
  unfolding find_up
  find_up_between zero u i b rest e lt le = ground arith
  find_up_between (suc k) u i b rest e lt le = elim (ℕ_discrete i (suc k)) [
    | yes q ↦ rw q (ground arith)
    | no ne ↦ ground (arith, find_up_between k u i b rest)
  ]

  -- If nothing is found, either the request is no key or no level up to it has an interval.
  find_up-none :
      (c i : ℕ)
      → find_up p c ≡ none
      → ((j : ℕ) → j ≤ c → i ≤ j → has_key p j ≡ true)
      → i ≤ c
      → at p i ≡ []
  unfolding find_up at
  find_up-none zero i e keyed le = let z : i ≡ zero = omega arith in rw z (ground arith)
  find_up-none (suc k) i e keyed le =
      let here = keyed (suc k) (omega arith) le in
      elim (ℕ_discrete i (suc k)) [
        | yes q ↦ rw q (ground arith)
        | no ne ↦ find_up-none k i (ground arith) (λ j l. keyed j (omega arith)) (omega arith)
      ]

-- The upper half of an interval, as the address that the split hands back.
upper_half-IsBlock :
    (lo hi u n : ℕ) (b : Ip)
    → u + suc n ≤ 32
    → hi ≤ 2 ^ 32
    → IsBlock lo hi u b
    → IsBlock lo hi (u + suc n) (next_interval b (u + suc n))
      × (ip_to_int (next_interval b (u + suc n)) ≡ ip_to_int b + block_size (u + suc n))
upper_half-IsBlock lo hi u n b le fits k =
    let i = u + suc n in
    let aligned = aligned_below u (suc n) (ip_to_int b) le k.aligned in
    let double =
      subst (λ j. block_size (u + n) ≡ 2 * block_size j) (sym (add-suc u n))
        (block_size_half (u + n) (omega arith)) in
    let room : ip_to_int b + 2 * block_size i ≤ hi =
      omega (arith, double, block_size_below u n (omega arith), k.below) in
    let value = next_interval-int b i k.quad aligned (omega (arith, block_size_pos i)) in
    (
      record {
        quad = next_interval-IsQuad b i;
        aligned = rw value (multiple_add (block_size i) (ip_to_int b) aligned);
        above = rw value (omega (arith, k.above));
        below = rw value (omega arith);
      },
      value,
    )

module _ (u : ℕ) (b : Ip) where
  SplitGoal : IntervalPool → ℕ → Type 0
  SplitGoal p n =
      IsWellFormed (split p b u n)
      × ((x : ℕ)
          → cover (split p b u n) x + inside (ip_to_int b) (u + n) x
            ≡ cover p x + inside (ip_to_int b) u x)

  split_lem :
      (p : IntervalPool) (n : ℕ)
      → u + n ≤ 32
      → end p ≤ 2 ^ 32
      → IsWellFormed p
      → IsBlock (base p) (end p) u b
      → ((i : ℕ) → u < i → i ≤ u + n → has_key p i ≡ true)
      → SplitGoal p n
  unfolding SplitGoal split put hits
  split_lem p zero le fits w k keyed = (w, λ x. rw (add-zero u))
  split_lem p (suc n) le fits w k keyed =
      let i = u + suc n in
      let next = next_interval b i in
      let l = at p i ++ next ∷ [] in
      let (half, value) = upper_half-IsBlock (base p) (end p) u n b le fits k in
      let key = keyed i (omega arith) (omega arith) in
      let w' =
        put-IsWellFormed p i l w key (All-append _ (at p i) (next ∷ []) (w.blocks i) (half, tt)) in
      let (w'', count) =
        split_lem (put p i l) n (omega arith) fits w' k
          (λ j lt lj. has_key-put p i j l ∙ keyed j lt (omega arith)) in
      (
        w'',
        λ x. omega (
          arith,
          count x,
          cover-put p i x l le key,
          hits-append x i (at p i) (next ∷ []),
          ap (λ t. inside t i x) value,
          halves_at (ip_to_int b) u n x le,
        ),
      )

-- The state after the split, for a level, its first interval and the others behind it.
module _ (p : IntervalPool) (c u : ℕ) (b : Ip) (rest : List Ip) (v : IsValid p)
    (found : find_up p c ≡ some (u, b, rest)) where
  level : (u ≤ c) × (has_key p u ≡ true) × (at p u ≡ b ∷ rest)
  level = find_up_level p c u b rest found

  found_key : has_key p c ≡ true
  found_key = elim (ℕ_discrete u c) [
    | yes e ↦ subst (λ k. has_key p k ≡ true) e level.1
    | no ne ↦ find_up_between p c u c b rest found (omega (arith, level.0)) (omega arith)
  ]

  intervals : All (IsBlock (base p) (end p) u) (b ∷ rest)
  intervals = subst (All _) level.2 (v.well_formed.blocks u)

  taken : IntervalPool
  taken = split (put p u rest) b u (c - u)

  c_bound : c ≤ 32
  c_bound = (key_range p c v.well_formed found_key).1

  taken_split : SplitGoal u b (put p u rest) (c - u)
  unfolding put
  taken_split =
      split_lem u b (put p u rest) (c - u) (omega (arith, level.0, c_bound))
        (end-le p v.well_formed) (put-IsWellFormed p u rest v.well_formed level.1 intervals.1)
        intervals.0
        (λ i lt le.
          has_key-put p u i rest ∙ find_up_between p c u i b rest found lt (omega (arith, level.0)))

  sum_back : u + (c - u) ≡ c
  sum_back = omega (arith, level.0)

  taken-cover : (x : ℕ) → cover p x ≡ cover taken x + inside (ip_to_int b) c x
  unfolding taken hits SplitGoal
  taken-cover x = omega (
    arith,
    taken_split.1 x,
    ap (λ t. inside (ip_to_int b) t x) sum_back,
    cover-put p u x rest (key_range p u v.well_formed level.1).1 level.1,
    ap (hits x u) level.2,
  )

  taken-IsValid : IsValid taken
  unfolding taken SplitGoal
  taken-IsValid = record {
    well_formed = taken_split.0;
    once = λ x. omega (arith, taken-cover x, v.once x);
  }

  taken_aligned : ip_to_int b % block_size c ≡ 0
  taken_aligned =
      subst (λ t. ip_to_int b % block_size t ≡ 0) sum_back
        (aligned_below u (c - u) (ip_to_int b) (omega (arith, level.0, c_bound))
          intervals.0.aligned)

-- What `allocate` promises of the block `b` and of the pool `q` that it leaves.
pub record Allocated (p q : IntervalPool) (c : ℕ) (b : Ip) : Type 0 where
  pub bound : c ≤ 32
  pub within : p.info_cidr ≤ c
  pub block : IsBlock (base p) (end p) c b
  pub valid : IsValid q
  pub same_addr : q.info_addr ≡ p.info_addr
  pub same_cidr : q.info_cidr ≡ p.info_cidr
  pub loses : (x : ℕ) → cover p x ≡ cover q x + inside (ip_to_int b) c x

split_info :
    (p : IntervalPool) (b : Ip) (u n : ℕ)
    → ((split p b u n).info_addr ≡ p.info_addr) × ((split p b u n).info_cidr ≡ p.info_cidr)
unfolding split put
split_info p b u zero = (refl, refl)
split_info p b u (suc n) =
    split_info (put p (u + suc n) (at p (u + suc n) ++ next_interval b (u + suc n) ∷ [])) b u n

-- A block that a valid pool hands out is aligned to the cidr that was asked for and lies in the
-- network; it is exactly what the free addresses lose; the pool stays valid, over the same
-- network.
pub allocate_ok :
    (p : IntervalPool) (c : ℕ) (b : Ip)
    → IsValid p
    → (allocate p c).0 ≡ ok b
    → Allocated p (allocate p c).1 c b
unfolding allocate taken put
allocate_ok p c b v e = elim (Option-cases (find_up p c)) [
  | inl absent ↦ absurd (cc (rw (absent, allocate) at e))
  | inr ((u, b', rest), found) ↦
      let q : b' ≡ b = ok-injective (rw (found, allocate) at e) in
      let first = (intervals p c u b' rest v found).0 in
      let (same_addr, same_cidr) = split_info (put p u rest) b' u (c - u) in
      let back = sum_back p c u b' rest v found in
      let le = c_bound p c u b' rest v found in
      let smaller =
        subst (λ t. block_size t ≤ block_size u) back
          (block_size_below u (c - u) (subst (λ t. t ≤ 32) (sym back) le)) in
      rw (← q, found, allocate)
        (record {
          bound = le;
          within = (key_range p c v.well_formed (found_key p c u b' rest v found)).0;
          block = record {
            quad = first.quad;
            aligned = taken_aligned p c u b' rest v found;
            above = first.above;
            below = omega (arith, first.below, smaller);
          };
          valid = taken-IsValid p c u b' rest v found;
          same_addr = same_addr;
          same_cidr = same_cidr;
          loses = taken-cover p c u b' rest v found;
        })
]

-- Where a valid pool refuses a request for a cidr of at most 32, the pool is unchanged, and no
-- level from its own cidr to the request has an interval.
pub allocate_refused :
    (p : IntervalPool) (c k : ℕ)
    → IsValid p
    → c ≤ 32
    → (allocate p c).0 ≡ refused not_enough
    → p.info_cidr ≤ k
    → k ≤ c
    → (at p k ≡ []) × ((allocate p c).1 ≡ p)
unfolding allocate
allocate_refused p c k v le e low high = elim (Option-cases (find_up p c)) [
  | inl absent ↦
      rw (absent, allocate)
        (find_up-none p c k absent (λ j jc kj. v.well_formed.keys j ∙ ground arith) high, refl)
  | inr ((u, b, rest), found) ↦ absurd (cc (rw (found, allocate) at e))
]
