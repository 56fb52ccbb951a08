-- ===== src/Net/IntervalPool/Overlap.antt =====
-- `overlap` of class IntervalPool against the addresses that are free.
use docklet.Common.{
  ℕ, zero, suc, ◌+◌, ◌-◌, ◌%◌, ◌^◌, ◌≤◌, ◌<◌, ◌≡◌, refl, subst, ap, ◌∙◌, inl, inr, true, false,
  List, [], ◌∷◌, arith, ltb, All, Option-cases, multiple_gap, Bool-cases, le→ltb, floor_to-multiple,
  floor_to_near, min, floor_to, le-sum_upto, sum_upto_zero,
}
use native.Mathlib.Decide.{ℕ_discrete, dec_lt, dec_le}
use docklet.Net.Address.{Ip, ip_to_int, block_size, next_interval, fix_ip}
use docklet.Net.Address.Laws.{
  IsQuad, eq_ip_sound, block_size_pos, fix_ip-int, fix_ip-IsQuad, next_interval-fix_ip,
  next_interval_wraps,
}
use docklet.Net.Result.{ok}
use docklet.Net.IntervalPool.{
  IntervalPool, at, inrange, search_level, overlap_fuel, overlap_level, overlap_from, overlap,
}
use docklet.Net.IntervalPool.Cover.{
  hits, cover, has_key, IsBlock, base, end, IsWellFormed, at-some, at_no_key,
}
use docklet.Net.IntervalPool.Blocks.{key_range, ends_aligned, aligned_mono}
use docklet.Net.IntervalPool.Search.{Answers, search_level-Runs, level-Answers}

overlap_fuel_enough : 2 ^ 32 < overlap_fuel
unfolding overlap_fuel
overlap_fuel_enough = omega arith

-- The addresses of addr/cidr.
abbrev pub InBlock : Ip → ℕ → ℕ → Type 0
InBlock addr cidr x =
    (ip_to_int (fix_ip addr cidr) ≤ x) × (x < ip_to_int (fix_ip addr cidr) + block_size cidr)

search_level_empty :
    (fuel : ℕ) (l : List Ip) (c : ℕ) (cur last : Ip)
    → 0 < fuel
    → ip_to_int last ≡ 0
    → search_level fuel l c cur last ≡ ok false
unfolding search_level
search_level_empty zero l c cur last h e = absurd (omega arith)
search_level_empty (suc fuel) l c cur last h e =
    let over : ltb (ip_to_int cur) (ip_to_int last) ≡ false = le→ltb _ _ (omega arith) in
    rw (over, search_level)

-- The block that is asked about lies in the pool's network, below the top of the address space.
module _ (p : IntervalPool) (addr : Ip) (cidr : ℕ) (w : IsWellFormed p) (q : IsQuad addr)
    (bound : cidr ≤ 32) (range : inrange p addr cidr ≡ true) where
  abbrev pub start : ℕ
  start = ip_to_int (fix_ip addr cidr)

  start_floor : start ≡ floor_to (ip_to_int addr) (block_size cidr)
  start_floor = fix_ip-int addr cidr q

  pub keyed : has_key p cidr ≡ true
  unfolding inrange
  keyed = w.keys cidr ∙ ground arith

  same_network : fix_ip addr p.info_cidr ≡ p.info_addr
  unfolding inrange
  same_network = eq_ip_sound (fix_ip addr p.info_cidr) p.info_addr (ground arith)

  base-le : base p ≤ ip_to_int addr
  base-le = omega (
    arith,
    ap ip_to_int same_network,
    fix_ip-int addr p.info_cidr q,
    floor_to_near (ip_to_int addr) (block_size p.info_cidr) (block_size_pos p.info_cidr),
  )

  lt-end : ip_to_int addr < end p
  lt-end = omega (
    arith,
    ap ip_to_int same_network,
    fix_ip-int addr p.info_cidr q,
    floor_to_near (ip_to_int addr) (block_size p.info_cidr) (block_size_pos p.info_cidr),
  )

  start_near : (start ≤ ip_to_int addr) × (ip_to_int addr < start + block_size cidr)
  start_near =
      rw start_floor (floor_to_near (ip_to_int addr) (block_size cidr) (block_size_pos cidr))

  pub start_aligned : start % block_size cidr ≡ 0
  start_aligned = rw start_floor (floor_to-multiple (ip_to_int addr) (block_size cidr))

  pub start_above : base p ≤ start
  start_above = ground (
    arith,
    base-le,
    start_near,
    multiple_gap (block_size cidr) start (base p) start_aligned (ends_aligned p cidr w keyed).0,
  )

  pub start_below : start + block_size cidr ≤ end p
  start_below =
      multiple_gap (block_size cidr) start (end p) start_aligned (ends_aligned p cidr w keyed).1
        (omega (arith, start_near, lt-end))

  -- Where the network ends below the top of the address space no address wraps.
  module _ (no_wrap : end p < 2 ^ 32) where
    -- Where level k begins to look.
    module _ (k : ℕ) (key : has_key p k ≡ true) where
      abbrev first : ℕ
      first = ip_to_int (fix_ip addr (min cidr k))

      first_facts : (first % block_size k ≡ 0) × (first ≤ start) × (start < first + block_size k)
      first_facts = elim (dec_le k cidr) [
        | yes le ↦
            let e : min cidr k ≡ k = omega arith in
            let floor = ap (λ j. ip_to_int (fix_ip addr j)) e ∙ fix_ip-int addr k q in
            let m : first % block_size k ≡ 0 =
              rw floor (floor_to-multiple (ip_to_int addr) (block_size k)) in
            let near = floor_to_near (ip_to_int addr) (block_size k) (block_size_pos k) in
            let lower =
              multiple_gap (block_size cidr) start first start_aligned
                (aligned_mono k cidr first le bound m) in
            (
              m,
              ground (arith, lower, floor, near, start_near),
              omega (arith, floor, near, start_near),
            )
        | no gt ↦
            let e : min cidr k ≡ cidr = omega arith in
            let same : first ≡ start = ap (λ j. ip_to_int (fix_ip addr j)) e in
            (
              rw same
                  (aligned_mono cidr k start (omega arith) (key_range p k w key).1 start_aligned),
              omega arith,
              omega (arith, block_size_pos k),
            )
      ]

      -- The level's list is searched, and what the search says of its intervals holds.
      overlap_level-Answers :
          (l : List Ip)
          → All (IsBlock (base p) (end p) k) l
          → Answers
              ((x : ℕ) × (start ≤ x) × (x < start + block_size cidr) × (0 < hits x k l))
              ((x : ℕ) → start ≤ x → x < start + block_size cidr → hits x k l ≡ 0)
              (overlap_level l addr cidr k)
      unfolding overlap_level hits
      overlap_level-Answers [] a = record {
        answer = false;
        returns = refl;
        if_true = λ e. absurd (cc);
        if_false = λ e x low high. refl;
      }
      overlap_level-Answers (b ∷ l) a =
          let last : ip_to_int (next_interval addr cidr) ≡ start + block_size cidr =
            next_interval-fix_ip addr cidr (omega (arith, start_below)) in
          let runs =
            search_level-Runs (b ∷ l) k (next_interval addr cidr) (end p)
              (omega (arith, last, start_below)) no_wrap (ends_aligned p k w key).1 overlap_fuel
              (fix_ip addr (min cidr k)) (fix_ip-IsQuad addr (min cidr k)) first_facts.0
              (omega (arith, overlap_fuel_enough)) in
          rw (le→ltb 32 cidr bound, overlap_level)
            (level-Answers (b ∷ l) k (base p) (end p) start (block_size cidr)
              (fix_ip addr (min cidr k))
              (search_level overlap_fuel (b ∷ l) k (fix_ip addr (min cidr k))
                (next_interval addr cidr))
              a first_facts.0 first_facts.1 first_facts.2 (block_size_pos cidr) (rw last at runs))

    -- An address of the block that some level from k on, of n, holds.
    abbrev Meets : ℕ → ℕ → Type 0
    Meets n k =
        (x : ℕ) × InBlock addr cidr x × ((j : ℕ) × (k ≤ j) × (j < k + n) × (0 < hits x j (at p j)))

    abbrev Avoids : ℕ → ℕ → Type 0
    Avoids n k = (x : ℕ) → InBlock addr cidr x → (j : ℕ) → k ≤ j → j < k + n → hits x j (at p j) ≡ 0

    overlap_from-Answers :
        (n k : ℕ)
        → ((j : ℕ) → k ≤ j → j < k + n → has_key p j ≡ true)
        → Answers (Meets n k) (Avoids n k) (overlap_from p addr cidr n k)
    unfolding overlap_from
    overlap_from-Answers zero k keys = record {
      answer = false;
      returns = refl;
      if_true = λ e. absurd (cc);
      if_false = λ e x i j low high. absurd (omega arith);
    }
    overlap_from-Answers (suc n) k keys = elim (Option-cases (p.pool k)) [
      | inl absent ↦ absurd (cc (keys k (omega arith) (omega arith), absent))
      | inr (l, there) ↦
          let key = keys k (omega arith) (omega arith) in
          let same = at-some p k l there in
          let here = overlap_level-Answers k key l (subst (All _) same (w.blocks k)) in
          let rest =
            overlap_from-Answers n (suc k) (λ j low high. keys j (omega arith) (omega arith)) in
          elim (Bool-cases here.answer) [
            | inl found ↦
                rw (there, here.returns ∙ ap ok found, overlap_from)
                  (record {
                    answer = true;
                    returns = refl;
                    if_true = λ _.
                        let (x, low, high, hit) = here.if_true found in
                        (x, (low, high), (k, omega arith, omega arith, rw same hit));
                    if_false = λ e. absurd (cc);
                  })
            | inr clear ↦
                rw (there, here.returns ∙ ap ok clear, overlap_from)
                  (record {
                    answer = rest.answer;
                    returns = rest.returns;
                    if_true = λ e.
                        let (x, i, found) = rest.if_true e in
                        let (j, low, high, hit) = found in
                        (x, i, (j, omega arith, omega arith, hit));
                    if_false = λ e x i j low high. elim (ℕ_discrete j k) [
                      | yes here_j ↦ rw (here_j, same) (here.if_false clear x i.0 i.1)
                      | no ne ↦ rest.if_false e x i j (omega arith) (omega arith)
                    ];
                  })
          ]
    ]

    -- In a well-formed pool whose network ends below 2^32, for any block in range (four bytes,
    -- cidr at most 32), `overlap` ends and says exactly whether some address of the block is
    -- free.
    pub overlap-Answers :
        Answers
          ((x : ℕ) × InBlock addr cidr x × (0 < cover p x))
          ((x : ℕ) → InBlock addr cidr x → cover p x ≡ 0)
          (overlap p addr cidr)
    unfolding overlap cover hits
    overlap-Answers =
        let ends : p.info_cidr + (33 - p.info_cidr) ≡ 33 = omega (arith, w.top) in
        let all =
          overlap_from-Answers (33 - p.info_cidr) p.info_cidr
            (λ j low high. w.keys j ∙ ground arith) in
        record {
          answer = all.answer;
          returns = all.returns;
          if_true = λ e.
              let (x, i, found) = all.if_true e in
              let (j, low, high, hit) = found in
              (x, i, omega (arith, le-sum_upto 32 j (λ k. hits x k (at p k)) (omega arith)));
          if_false = λ e x i.
              sum_upto_zero 32 (λ k. hits x k (at p k))
                (λ j le. elim (dec_lt j p.info_cidr) [
                  | yes out ↦ rw (at_no_key p j (w.keys j ∙ ground arith), hits)
                  | no ge ↦ all.if_false e x i j (omega arith) (omega arith)
                ]);
        }

-- For a block that ends with the address space, the last address of the search wraps to 0.0.0.0,
-- so the search is empty at every level.
module _ (p : IntervalPool) (addr : Ip) (cidr : ℕ) (bound : cidr ≤ 32)
    (last_block : ip_to_int (fix_ip addr cidr) + block_size cidr ≡ 2 ^ 32) where
  wraps : ip_to_int (next_interval addr cidr) ≡ 0
  wraps = next_interval_wraps addr cidr last_block

  wrapped_level : (l : List Ip) (k : ℕ) → overlap_level l addr cidr k ≡ ok false
  unfolding overlap_level
  wrapped_level [] k = refl
  wrapped_level (b ∷ l) k =
      rw (le→ltb 32 cidr bound, overlap_level)
        (search_level_empty overlap_fuel (b ∷ l) k (fix_ip addr (min cidr k))
          (next_interval addr cidr) (omega (arith, overlap_fuel_enough)) wraps)

  wrapped_from :
      (n k : ℕ)
      → ((j : ℕ) → k ≤ j → j < k + n → has_key p j ≡ true)
      → overlap_from p addr cidr n k ≡ ok false
  unfolding overlap_from
  wrapped_from zero k keys = refl
  wrapped_from (suc n) k keys = elim (Option-cases (p.pool k)) [
    | inl absent ↦ absurd (cc (keys k (omega arith) (omega arith), absent))
    | inr (l, there) ↦
        rw (there, wrapped_level l k, overlap_from)
          (wrapped_from n (suc k) (λ j low high. keys j (omega arith) (omega arith)))
  ]

  -- Whatever is free, no overlap is seen of a block that ends with the address space.
  pub overlap_at_top : IsWellFormed p → overlap p addr cidr ≡ ok false
  unfolding overlap
  overlap_at_top w =
      wrapped_from (33 - p.info_cidr) p.info_cidr (λ j low high. w.keys j ∙ ground arith)
