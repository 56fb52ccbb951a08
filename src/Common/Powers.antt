-- ===== src/Common/Powers.antt =====
-- Multiples of a block size, and the powers of two that are block sizes.
use Prim.Native.Nat.{ℕ, suc, ◌+◌, ◌-◌, ◌*◌, ◌/◌, ◌%◌, ◌^◌, ◌≤◌, ◌<◌}
use mathlib.Core.Path.{◌≡◌, ap, ◌∙◌}
use mathlib.Core.Logic.{◌≢◌}
use native.Mathlib.Decide.{ℕ_discrete}
use native.Mathlib.Omega.{arith}
use native.Mathlib.Nat.{
  pow-suc, one-le-pow, div-add-mod, mod-lt, mul-mod_right, mod-mod_of_dvd, add-mod_right,
  mod-eq-sub-mod, dvd-mul_left, zero-mod, mul-add-mod_self_left, mod-eq_of_lt,
}

-- The largest multiple of `s` that is at most `n`: `n & (-s)` for a power of two `s`.
abbrev pub floor_to : ℕ → ℕ → ℕ
floor_to n s = n - n % s

pub pow_pos : (n : ℕ) → 0 < 2 ^ n
pow_pos n = one-le-pow n 2 (omega arith)

pub pow_double : (n : ℕ) → 2 ^ suc n ≡ 2 * 2 ^ n
pow_double n = omega (arith, pow-suc 2 n)

pub IsMultiple-quotient : (s n : ℕ) → n % s ≡ 0 → n ≡ s * (n / s)
IsMultiple-quotient s n h = omega (arith, div-add-mod n s)

-- Two multiples of `s`: the smaller is at least a whole `s` below the larger.
pub multiple_gap : (s x y : ℕ) → x % s ≡ 0 → y % s ≡ 0 → x < y → x + s ≤ y
multiple_gap s x y hx hy lt = grind (arith, IsMultiple-quotient s x hx, IsMultiple-quotient s y hy)

pub multiple_add : (s x : ℕ) → x % s ≡ 0 → (x + s) % s ≡ 0
multiple_add s x h = omega (arith, add-mod_right x s)

pub multiple_sub : (s x : ℕ) → s ≤ x → x % s ≡ 0 → (x - s) % s ≡ 0
multiple_sub s x le h = omega (arith, mod-eq-sub-mod le)

-- A multiple of the double is a multiple.
pub multiple_half : (s x : ℕ) → x % (2 * s) ≡ 0 → x % s ≡ 0
multiple_half s x h = omega (arith, mod-mod_of_dvd s x (dvd-mul_left s 2), zero-mod s)

double_quotient : (s x : ℕ) → x % s ≡ 0 → x / s % 2 ≡ 0 → x ≡ 2 * s * (x / s / 2)
double_quotient s x h even = grind (arith, IsMultiple-quotient s x h)

odd_quotient : (s x : ℕ) → x % s ≡ 0 → x / s % 2 ≡ 1 → x ≡ 2 * s * (x / s / 2) + s
odd_quotient s x h one =
    let q : x / s ≡ 2 * (x / s / 2) + 1 = omega arith in
    IsMultiple-quotient s x h ∙ ap (λ t. s * t) q ∙ omega arith

-- A multiple of `s` that is no multiple of the double lies `s` above one that is.
pub multiple_odd :
    (s x : ℕ) → 0 < s → x % s ≡ 0 → x % (2 * s) ≢ 0 → (s ≤ x) × ((x - s) % (2 * s) ≡ 0)
multiple_odd s x pos h odd = elim (ℕ_discrete (x / s % 2) 0) [
  | yes even ↦ absurd (odd (rw (double_quotient s x h even) (mul-mod_right (2 * s) (x / s / 2))))
  | no ne ↦
      let e = odd_quotient s x h (omega arith) in
      let below : x - s ≡ 2 * s * (x / s / 2) = omega arith in
      (omega arith, rw below (mul-mod_right (2 * s) (x / s / 2)))
]

pub floor_to-multiple : (n s : ℕ) → floor_to n s % s ≡ 0
floor_to-multiple n s = grind arith

pub floor_to_near : (n s : ℕ) → 0 < s → (floor_to n s ≤ n) × (n < floor_to n s + s)
floor_to_near n s pos = (omega arith, omega (arith, mod-lt n pos))

-- The multiple of `s` next below `n` is the only one within `s` of it.
pub floor_to_unique : (n s a : ℕ) → a % s ≡ 0 → a ≤ n → n < a + s → floor_to n s ≡ a
floor_to_unique n s a h le lt = ground (
  arith,
  multiple_gap s (floor_to n s) a (floor_to-multiple n s) h,
  multiple_gap s a (floor_to n s) h (floor_to-multiple n s),
  floor_to_near n s (omega arith),
)

pub multiples_mod : (s x y r : ℕ) → x % s ≡ 0 → y % s ≡ 0 → r < s → (x + y + r) % s ≡ r
multiples_mod s x y r hx hy lt =
    let e : x + y + r ≡ s * (x / s + y / s) + r =
      grind (arith, IsMultiple-quotient s x hx, IsMultiple-quotient s y hy) in
    ap (λ k. k % s) e ∙ (mul-add-mod_self_left s (x / s + y / s) r ∙ mod-eq_of_lt lt)
