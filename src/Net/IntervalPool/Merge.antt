-- ===== src/Net/IntervalPool/Merge.antt =====
-- The merge loop of `free`: with each buddy that leaves the pool the block grows by it.
use docklet.Common.{
  ℕ, zero, suc, ◌+◌, ◌-◌, ◌*◌, ◌%◌, ◌≤◌, ◌≡◌, ◌≢◌, sym, subst, ap, ◌∙◌, inl, inr, true, false, some,
  [], ◌∷◌, ◌++◌, arith, All-append, Option-cases, multiple_gap, multiple_odd, Bool-cases, some_inj,
  floor_to-multiple,
}
use docklet.Net.Address.{
  Ip, eq_ip, ip_to_int, int_to_ip, block_size, next_interval, fix_ip, before_interval,
}
use docklet.Net.Address.Laws.{
  IsQuad, int_to_ip-IsQuad, ip_of_int, eq_ip_sound, eq_ip_refl, fix_ip_aligned, block_size_half,
  block_size_pos, fix_ip-int, next_interval-int, before_interval-int, ip_to_int-lt,
}
use docklet.Net.IntervalPool.{IntervalPool, at, put, mem, remove, sort, buddy, place, merge}
use docklet.Net.IntervalPool.Cover.{
  inside, hits, hits-append, hits-remove, hits-sort, cover, cover-put, has_key, has_key-put,
  IsBlock, base, end, IsWellFormed, put-IsWellFormed, All-remove, All-sort,
}
use docklet.Net.IntervalPool.Blocks.{inside_halves, key_range, ends_aligned, end-le}

-- The pool `q` is `p` with the block of `c` at `start` added.
pub record Gains (p q : IntervalPool) (start c : ℕ) : Type 0 where
  pub well_formed : IsWellFormed q
  pub gain : (x : ℕ) → cover q x ≡ cover p x + inside start c x

place-Gains :
    (p : IntervalPool) (addr : Ip) (c : ℕ)
    → IsWellFormed p
    → has_key p c ≡ true
    → IsBlock (base p) (end p) c addr
    → Gains p (place p addr c) (ip_to_int addr) c
unfolding place hits
place-Gains p addr c w h b =
    let l = at p c ++ addr ∷ [] in
    record {
      well_formed =
          put-IsWellFormed p c (sort l) w h
            (All-sort _ l (All-append _ (at p c) (addr ∷ []) (w.blocks c) (b, tt)));
      gain = λ x. omega (
        arith,
        cover-put p c x (sort l) (key_range p c w h).1 h,
        hits-sort x c l,
        hits-append x c (at p c) (addr ∷ []),
      );
    }

-- What a merge with a neighbour needs to know of it.
record Merges (p : IntervalPool) (addr : Ip) (k : ℕ) (gone merged : Ip) : Type 0 where
  free_buddy : mem gone (at p (suc k)) ≡ true
  block : IsBlock (base p) (end p) k merged
  union :
      (x : ℕ)
      → inside (ip_to_int merged) k x
        ≡ inside (ip_to_int addr) (suc k) x + inside (ip_to_int gone) (suc k) x

-- addr is aligned to level k exactly if fixing it there leaves it
fixed_aligned :
    (x : Ip) (k : ℕ) → IsQuad x → eq_ip x (fix_ip x k) ≡ true → ip_to_int x % block_size k ≡ 0
fixed_aligned x k q e =
    ap (λ y. ip_to_int y % block_size k) (eq_ip_sound x (fix_ip x k) e)
    ∙ ap (λ n. n % block_size k) (fix_ip-int x k q)
    ∙ floor_to-multiple (ip_to_int x) (block_size k)

not_fixed :
    (x : Ip) (k : ℕ) → IsQuad x → eq_ip x (fix_ip x k) ≡ false → ip_to_int x % block_size k ≢ 0
not_fixed x k q e m = cc (e, eq_ip_refl x, ap (eq_ip x) (fix_ip_aligned x k q m))

module _ (p : IntervalPool) (addr : Ip) (k : ℕ) (w : IsWellFormed p) (key : has_key p k ≡ true)
    (key' : has_key p (suc k) ≡ true) (b : IsBlock (base p) (end p) (suc k) addr) where
  half : block_size k ≡ 2 * block_size (suc k)
  half = block_size_half k (key_range p (suc k) w key').1

  next-Merges :
      ip_to_int addr % block_size k ≡ 0
      → mem (next_interval addr (suc k)) (at p (suc k)) ≡ true
      → Merges p addr k (next_interval addr (suc k)) addr
  next-Merges m is_free =
      let room : ip_to_int addr + block_size k ≤ end p =
        multiple_gap (block_size k) (ip_to_int addr) (end p) m (ends_aligned p k w key).1
          (omega (arith, b.below, block_size_pos (suc k))) in
      let value =
        next_interval-int addr (suc k) b.quad b.aligned
          (omega (arith, end-le p w, half, room, block_size_pos (suc k))) in
      record {
        free_buddy = is_free;
        block = record { quad = b.quad; aligned = m; above = b.above; below = room };
        union = λ x. rw value (inside_halves (ip_to_int addr) k x (key_range p (suc k) w key').1);
      }

  lower_half :
      (x : ℕ)
      → suc k ≤ 32
      → block_size (suc k) ≤ ip_to_int addr
      → inside (ip_to_int addr - block_size (suc k)) k x
        ≡ inside (ip_to_int addr) (suc k) x + inside (ip_to_int addr - block_size (suc k)) (suc k) x
  lower_half x le room = ground (arith, inside_halves (ip_to_int addr - block_size (suc k)) k x le)

  before-Merges :
      (before : Ip)
      → ip_to_int addr % block_size k ≢ 0
      → before_interval addr (suc k) ≡ some before
      → mem before (at p (suc k)) ≡ true
      → Merges p addr k before before
  before-Merges before odd e is_free =
      let size = block_size (suc k) in
      let a = ip_to_int addr in
      let (le, m) =
        multiple_odd size a (block_size_pos (suc k)) b.aligned
          (λ z. odd (subst (λ t. a % t ≡ 0) (sym half) z)) in
      let m' : (a - size) % block_size k ≡ 0 = subst (λ t. (a - size) % t ≡ 0) (sym half) m in
      let same : int_to_ip (a - size) ≡ before =
        some_inj (sym (before_interval-int addr (suc k) b.quad b.aligned le) ∙ e) in
      let value : ip_to_int before ≡ a - size =
        ap ip_to_int (sym same) ∙ ip_of_int (a - size) (omega (arith, ip_to_int-lt addr b.quad)) in
      let low : base p ≤ a - size = ground (
        arith,
        half,
        b.above,
        le,
        block_size_pos (suc k),
        multiple_gap (block_size k) (a - size) (base p) m' (ends_aligned p k w key).0,
      ) in
      record {
        free_buddy = is_free;
        block = record {
          quad = subst IsQuad same (int_to_ip-IsQuad (a - size));
          aligned = rw value m';
          above = rw value low;
          below = omega (arith, value, half, b.below);
        };
        union = λ x. rw value (lower_half x (key_range p (suc k) w key').1 le);
      }

  buddy-Merges :
      (gone merged : Ip) → buddy p addr k ≡ some (gone, merged) → Merges p addr k gone merged
  unfolding buddy
  buddy-Merges gone merged e = elim (Bool-cases (eq_ip addr (fix_ip addr k))) [
    | inl fixed ↦ elim (Bool-cases (mem (next_interval addr (suc k)) (at p (suc k)))) [
      | inl is_free ↦
          subst (λ t. Merges p addr k t.0 t.1) (some_inj (rw (fixed, is_free, buddy) at e))
            (next-Merges (fixed_aligned addr k b.quad fixed) is_free)
      | inr taken ↦ absurd (cc (rw (fixed, taken, buddy) at e))
    ]
    | inr moved ↦ elim (Option-cases (before_interval addr (suc k))) [
      | inl absent ↦ absurd (cc (rw (moved, absent, buddy) at e))
      | inr (before, there) ↦ elim (Bool-cases (mem before (at p (suc k)))) [
        | inl is_free ↦
            subst (λ t. Merges p addr k t.0 t.1) (some_inj (rw (moved, there, is_free, buddy) at e))
              (before-Merges before (not_fixed addr k b.quad moved) there is_free)
        | inr taken ↦ absurd (cc (rw (moved, there, taken, buddy) at e))
      ]
    ]
  ]

-- One round of the loop: what remains to be merged is larger by the buddy that left the pool.
merge_step :
    (k : ℕ) (p : IntervalPool) (addr gone merged : Ip)
    → IsWellFormed p
    → has_key p (suc k) ≡ true
    → IsBlock (base p) (end p) (suc k) addr
    → has_key p k ≡ true
    → buddy p addr k ≡ some (gone, merged)
    → (IsWellFormed (put p (suc k) (remove gone (at p (suc k))))
        → has_key (put p (suc k) (remove gone (at p (suc k)))) k ≡ true
        → IsBlock (base p) (end p) k merged
        → Gains
            (put p (suc k) (remove gone (at p (suc k))))
            (merge (put p (suc k) (remove gone (at p (suc k)))) merged k)
            (ip_to_int merged)
            k)
    → Gains p (merge (put p (suc k) (remove gone (at p (suc k)))) merged k) (ip_to_int addr) (suc k)
merge_step k p addr gone merged w h b key found rest =
    let l = at p (suc k) in
    let m = buddy-Merges p addr k w key h b gone merged found in
    let g =
      rest (put-IsWellFormed p (suc k) (remove gone l) w h (All-remove _ gone l (w.blocks (suc k))))
        (has_key-put p (suc k) k (remove gone l) ∙ key) m.block in
    record {
      well_formed = g.well_formed;
      gain = λ x. omega (
        arith,
        g.gain x,
        m.union x,
        cover-put p (suc k) x (remove gone l) (key_range p (suc k) w h).1 h,
        hits-remove x (suc k) gone l m.free_buddy,
      );
    }

pub merge-Gains :
    (c : ℕ) (p : IntervalPool) (addr : Ip)
    → IsWellFormed p
    → has_key p c ≡ true
    → IsBlock (base p) (end p) c addr
    → Gains p (merge p addr c) (ip_to_int addr) c
unfolding merge put
merge-Gains zero p addr w h b = place-Gains p addr zero w h b
merge-Gains (suc k) p addr w h b = elim (Option-cases (p.pool k)) [
  | inl absent ↦ rw (absent, merge) (place-Gains p addr (suc k) w h b)
  | inr (l, there) ↦ elim (Option-cases (buddy p addr k)) [
    | inl alone ↦ rw (there, alone, merge) (place-Gains p addr (suc k) w h b)
    | inr ((gone, merged), found) ↦
        rw (there, found, merge)
          (merge_step k p addr gone merged w h b (rw (there, has_key)) found
            (merge-Gains k (put p (suc k) (remove gone (at p (suc k)))) merged))
  ]
]
