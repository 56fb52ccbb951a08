-- ===== src/Net/IntervalPool/Search.antt =====
-- The loop of `overlap` at one level of the pool.
use docklet.Common.{
  ℕ, zero, suc, ◌+◌, ◌%◌, ◌^◌, ◌≤◌, ◌<◌, ◌≡◌, refl, sym, subst, ap, ◌∙◌, inl, inr, Bool, true,
  false, List, [], ◌∷◌, arith, ltb, ◌||◌, All, multiple_add, multiple_gap, Bool-cases, ltb→lt,
  ltb→le,
}
use native.Mathlib.Decide.{ℕ_discrete, dec_lt}
use docklet.Net.Address.{Ip, eq_ip, ip_to_int, int_to_ip, block_size, next_interval}
use docklet.Net.Address.Laws.{
  IsQuad, int_to_ip-ip_to_int, eq_ip_refl, block_size_pos, next_interval-int, next_interval-IsQuad,
  ip_to_int-lt,
}
use docklet.Net.Result.{Result, ok}
use docklet.Net.IntervalPool.{mem, search_level}
use docklet.Net.IntervalPool.Cover.{hits, hits-remove, IsBlock}

-- What the loop at one level answers: whether an aligned address from `start` to `stop` is in the
-- level's list.
pub record Runs (l : List Ip) (c start stop : ℕ) (r : Result Bool) : Type 0 where
  pub answer : Bool
  pub returns : r ≡ ok answer
  pub miss :
      answer ≡ false
      → (y : Ip) → IsQuad y
      → ip_to_int y % block_size c ≡ 0
      → start ≤ ip_to_int y
      → ip_to_int y < stop
      → mem y l ≡ false
  pub hit :
      answer ≡ true
      → (y : Ip) × IsQuad y
        × (ip_to_int y % block_size c ≡ 0)
        × (start ≤ ip_to_int y)
        × (ip_to_int y < stop)
        × (mem y l ≡ true)

quad_same : (x y : Ip) → IsQuad x → IsQuad y → ip_to_int x ≡ ip_to_int y → x ≡ y
quad_same x y q r e = sym (int_to_ip-ip_to_int x q) ∙ ap int_to_ip e ∙ int_to_ip-ip_to_int y r

Runs-later :
    (l : List Ip) (c : ℕ) (cur : Ip) (stop : ℕ) (r : Result Bool)
    → IsQuad cur
    → ip_to_int cur % block_size c ≡ 0
    → mem cur l ≡ false
    → Runs l c (ip_to_int cur + block_size c) stop r
    → Runs l c (ip_to_int cur) stop r
Runs-later l c cur stop r q m not_here runs = record {
  answer = runs.answer;
  returns = runs.returns;
  miss = λ e y qy my low high. elim (ℕ_discrete (ip_to_int cur) (ip_to_int y)) [
    | yes same ↦ subst (λ z. mem z l ≡ false) (quad_same cur y q qy same) not_here
    | no ne ↦
        runs.miss e y qy my
          (multiple_gap (block_size c) (ip_to_int cur) (ip_to_int y) m my (omega arith)) high
  ];
  hit =
      λ e. let (y, qy, my, low, high, found) = runs.hit e in (y, qy, my, omega arith, high, found);
}

-- The loop ends where the addresses up to `hi` do not wrap around.
module _ (l : List Ip) (c : ℕ) (last : Ip) (hi : ℕ) (last_le : ip_to_int last ≤ hi)
    (no_wrap : hi < 2 ^ 32) (hi_aligned : hi % block_size c ≡ 0) where
  pub search_level-Runs :
      (fuel : ℕ) (cur : Ip)
      → IsQuad cur
      → ip_to_int cur % block_size c ≡ 0
      → 2 ^ 32 < fuel + ip_to_int cur
      → Runs l c (ip_to_int cur) (ip_to_int last) (search_level fuel l c cur last)
  unfolding search_level
  search_level-Runs zero cur q m enough = absurd (omega (arith, ip_to_int-lt cur q))
  search_level-Runs (suc fuel) cur q m enough =
      elim (Bool-cases (ltb (ip_to_int cur) (ip_to_int last))) [
        | inr over ↦
            rw (over, search_level)
              (record {
                answer = false;
                returns = refl;
                miss = λ _ y _ _ low high.
                    absurd (omega (arith, ltb→le (ip_to_int cur) (ip_to_int last) over));
                hit = λ e. absurd (cc);
              })
        | inl more ↦ elim (Bool-cases (mem cur l)) [
          | inl found ↦
              rw (more, found, search_level)
                (record {
                  answer = true;
                  returns = refl;
                  miss = λ e. absurd (cc);
                  hit = λ _.
                      (cur, q, m, omega arith, ltb→lt (ip_to_int cur) (ip_to_int last) more, found);
                })
          | inr not_here ↦
              let lt = ltb→lt (ip_to_int cur) (ip_to_int last) more in
              let room : ip_to_int cur + block_size c ≤ hi =
                multiple_gap (block_size c) (ip_to_int cur) hi m hi_aligned (omega arith) in
              let value : ip_to_int (next_interval cur c) ≡ ip_to_int cur + block_size c =
                next_interval-int cur c q m (omega arith) in
              let aligned : ip_to_int (next_interval cur c) % block_size c ≡ 0 =
                rw value (multiple_add (block_size c) (ip_to_int cur) m) in
              let rest =
                search_level-Runs fuel (next_interval cur c) (next_interval-IsQuad cur c) aligned
                  (omega (arith, value, block_size_pos c)) in
              rw (more, not_here, search_level)
                (Runs-later l c cur (ip_to_int last)
                  (search_level fuel l c (next_interval cur c) last) q m not_here
                  (subst
                    (λ t.
                      Runs l c t (ip_to_int last)
                        (search_level fuel l c (next_interval cur c) last))
                    value rest))
        ]
      ]

or_false : (b c : Bool) → (b || c) ≡ false → c ≡ false
or_false b c h = ground arith

hits_none :
    (x c : ℕ) (l : List Ip) (lo hi : ℕ)
    → All (IsBlock lo hi c) l
    → ((y : Ip)
        → IsQuad y
        → ip_to_int y % block_size c ≡ 0
        → ip_to_int y ≤ x
        → x < ip_to_int y + block_size c
        → mem y l ≡ false)
    → hits x c l ≡ 0
unfolding hits mem
hits_none x c [] lo hi a no_block = refl
hits_none x c (b ∷ l) lo hi a no_block = ground (
  arith,
  no_block b a.0.quad a.0.aligned,
  eq_ip_refl b,
  hits_none x c l lo hi a.1
      (λ y q m low high. or_false (eq_ip y b) (mem y l) (no_block y q m low high)),
)

hits_some :
    (x c : ℕ) (y : Ip) (l : List Ip)
    → mem y l ≡ true
    → ip_to_int y ≤ x
    → x < ip_to_int y + block_size c
    → 0 < hits x c l
hits_some x c y l found low high = ground (arith, hits-remove x c y l found)

-- A test that ends, with what each answer says.
pub record Answers (Yes Nay : Type 0) (r : Result Bool) : Type 0 where
  pub answer : Bool
  pub returns : r ≡ ok answer
  pub if_true : answer ≡ true → Yes
  pub if_false : answer ≡ false → Nay

-- The block that is asked about, from `a`, and the address `start` at which level `c` begins.
module _ (l : List Ip) (c : ℕ) (lo hi a size : ℕ) (start : Ip) (r : Result Bool)
    (blocks : All (IsBlock lo hi c) l) (start_aligned : ip_to_int start % block_size c ≡ 0)
    (start_le : ip_to_int start ≤ a) (near : a < ip_to_int start + block_size c)
    (some_size : 0 < size) where
  pub level-Answers :
      Runs l c (ip_to_int start) (a + size) r
      → Answers
          ((x : ℕ) × (a ≤ x) × (x < a + size) × (0 < hits x c l))
          ((x : ℕ) → a ≤ x → x < a + size → hits x c l ≡ 0)
          r
  level-Answers runs = record {
    answer = runs.answer;
    returns = runs.returns;
    if_true = λ e.
        let (y, q, m, low, high, found) = runs.hit e in
        elim (dec_lt (ip_to_int y) a) [
          | no ge ↦ (
            ip_to_int y,
            omega arith,
            high,
            hits_some (ip_to_int y) c y l found (omega arith) (omega (arith, block_size_pos c)),
          )
          | yes lt ↦ (
            a,
            omega arith,
            omega arith,
            hits_some a c y l found (omega arith) (
                ground (
                  arith,
                  multiple_gap (block_size c) (ip_to_int start) (ip_to_int y) start_aligned m,
                )),
          )
        ];
    if_false = λ e x low high. hits_none x c l lo hi blocks (λ y q m below above.
        runs.miss e y q m
          (ground
            (arith, multiple_gap (block_size c) (ip_to_int y) (ip_to_int start) m start_aligned))
          (omega arith));
  }
