-- ===== src/Common/Levels.antt =====
-- Sums over a range of levels, and a table that is changed at one level.
use Prim.Native.Nat.{ℕ, zero, suc, ◌+◌, ◌≤◌}
use mathlib.Core.Path.{◌≡◌, sym}
use mathlib.Core.Logic.{◌≢◌}
use native.Mathlib.Omega.{arith}
use native.Mathlib.Decide.{ℕ_discrete}

-- f 0 + … + f n
pub sum_upto : ℕ → (ℕ → ℕ) → ℕ
sum_upto zero f = f zero
sum_upto (suc n) f = sum_upto n f + f (suc n)

pub sum_upto_same :
    (n : ℕ) (f g : ℕ → ℕ) → ((j : ℕ) → j ≤ n → g j ≡ f j) → sum_upto n g ≡ sum_upto n f
unfolding sum_upto
sum_upto_same zero f g h = h zero (omega arith)
sum_upto_same (suc n) f g h =
    omega (arith, h (suc n) (omega arith), sum_upto_same n f g (λ j le. h j (omega arith)))

-- Two families that differ at `k` alone have sums that differ as they do there.
pub sum_upto_change :
    (n k : ℕ) (f g : ℕ → ℕ)
    → k ≤ n
    → ((j : ℕ) → j ≢ k → g j ≡ f j)
    → sum_upto n g + f k ≡ sum_upto n f + g k
unfolding sum_upto
sum_upto_change zero zero f g le h = omega arith
sum_upto_change zero (suc k) f g le h = absurd (omega arith)
sum_upto_change (suc n) k f g le h = elim (ℕ_discrete k (suc n)) [
  | yes e ↦ rw e (omega (arith, sum_upto_same n f g (λ j l. h j (λ q. omega arith))))
  | no ne ↦ omega (arith, h (suc n) (λ q. ne (sym q)), sum_upto_change n k f g (omega arith) h)
]

pub le-sum_upto : (n k : ℕ) (f : ℕ → ℕ) → k ≤ n → f k ≤ sum_upto n f
unfolding sum_upto
le-sum_upto zero zero f le = omega arith
le-sum_upto zero (suc k) f le = absurd (omega arith)
le-sum_upto (suc n) k f le = elim (ℕ_discrete k (suc n)) [
  | yes e ↦ rw e (omega arith)
  | no ne ↦ omega (arith, le-sum_upto n k f (omega arith))
]

pub sum_upto_zero : (n : ℕ) (f : ℕ → ℕ) → ((k : ℕ) → k ≤ n → f k ≡ 0) → sum_upto n f ≡ 0
unfolding sum_upto
sum_upto_zero zero f h = h zero (omega arith)
sum_upto_zero (suc n) f h =
    omega (arith, h (suc n) (omega arith), sum_upto_zero n f (λ k le. h k (omega arith)))
