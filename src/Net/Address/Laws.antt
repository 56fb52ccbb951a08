-- ===== src/Net/Address/Laws.antt =====
-- The address functions as arithmetic on 32-bit numbers.
use docklet.Common.{
  ℕ, zero, suc, refl, subst, multiple_half, ◌+◌, ◌-◌, ◌*◌, ◌%◌, ◌^◌, ◌≤◌, ◌<◌, ◌≡◌, true, some,
  arith, floor_to, pow_pos, pow_double, floor_to_near, floor_to_unique,
}
use docklet.Net.Address.{
  Ip, eq_ip, ip_to_int, int_to_ip, block_size, fix_ip, next_interval, before_interval,
}

-- Four numbers of one byte each.
pub record IsQuad (x : Ip) : Type 0 where
  pub a_byte : x.a < 256
  pub b_byte : x.b < 256
  pub c_byte : x.c < 256
  pub d_byte : x.d < 256

-- An address of four bytes reads back from its number.
pub int_to_ip-ip_to_int : (x : Ip) → IsQuad x → int_to_ip (ip_to_int x) ≡ x
unfolding int_to_ip ip_to_int
int_to_ip-ip_to_int x q = ground arith

pub ip_to_int-int_to_ip : (n : ℕ) → ip_to_int (int_to_ip n) ≡ n % 2 ^ 32
unfolding int_to_ip ip_to_int
ip_to_int-int_to_ip n = omega arith

pub int_to_ip-IsQuad : (n : ℕ) → IsQuad (int_to_ip n)
unfolding int_to_ip
int_to_ip-IsQuad n = omega arith

pub ip_to_int-lt : (x : Ip) → IsQuad x → ip_to_int x < 2 ^ 32
unfolding ip_to_int
ip_to_int-lt x q = omega arith

pub ip_of_int : (n : ℕ) → n < 2 ^ 32 → ip_to_int (int_to_ip n) ≡ n
ip_of_int n h = omega (arith, ip_to_int-int_to_ip n)

pub eq_ip_sound : (x y : Ip) → eq_ip x y ≡ true → x ≡ y
eq_ip_sound x y h = ground arith

pub eq_ip_refl : (x : Ip) → eq_ip x x ≡ true
eq_ip_refl x = ground arith

pub block_size_pos : (c : ℕ) → 0 < block_size c
unfolding block_size
block_size_pos c = pow_pos (32 - c)

-- One more bit of network halves the block.
pub block_size_half : (c : ℕ) → suc c ≤ 32 → block_size c ≡ 2 * block_size (suc c)
unfolding block_size
block_size_half c h =
    let e : 32 - c ≡ suc (32 - suc c) = omega arith in rw e (pow_double (32 - suc c))

pub block_size-divides : (c : ℕ) → c ≤ 32 → 2 ^ 32 % block_size c ≡ 0
block_size-divides zero le = unfold block_size in refl
block_size-divides (suc c) le =
    multiple_half (block_size (suc c)) (2 ^ 32)
      (subst (λ t. 2 ^ 32 % t ≡ 0) (block_size_half c le) (block_size-divides c (omega arith)))

-- An interval's address is the multiple of the block size next below; it lies in the block.
pub fix_ip-int :
    (x : Ip) (c : ℕ) → IsQuad x → ip_to_int (fix_ip x c) ≡ floor_to (ip_to_int x) (block_size c)
unfolding fix_ip
fix_ip-int x c q =
    ip_of_int _ (omega (arith, ip_to_int-lt x q, floor_to_near (ip_to_int x) _ (block_size_pos c)))

pub fix_ip-IsQuad : (x : Ip) (c : ℕ) → IsQuad (fix_ip x c)
unfolding fix_ip
fix_ip-IsQuad x c = int_to_ip-IsQuad _

pub next_interval-IsQuad : (x : Ip) (c : ℕ) → IsQuad (next_interval x c)
unfolding next_interval
next_interval-IsQuad x c = int_to_ip-IsQuad _

module _ (x : Ip) (c : ℕ) (q : IsQuad x) (m : ip_to_int x % block_size c ≡ 0) where
  floor_self : floor_to (ip_to_int x) (block_size c) ≡ ip_to_int x
  floor_self = omega arith

  pub fix_ip_aligned : fix_ip x c ≡ x
  unfolding fix_ip
  fix_ip_aligned = rw floor_self (int_to_ip-ip_to_int x q)

  pub next_interval-int :
      ip_to_int x + block_size c < 2 ^ 32
      → ip_to_int (next_interval x c) ≡ ip_to_int x + block_size c
  unfolding next_interval
  next_interval-int h = rw fix_ip_aligned (ip_of_int _ h)

  pub before_interval-int :
      block_size c ≤ ip_to_int x
      → before_interval x c ≡ some (int_to_ip (ip_to_int x - block_size c))
  unfolding before_interval
  before_interval-int h = rw fix_ip_aligned (ground arith)

pub next_interval-fix_ip :
    (x : Ip) (c : ℕ)
    → ip_to_int (fix_ip x c) + block_size c < 2 ^ 32
    → ip_to_int (next_interval x c) ≡ ip_to_int (fix_ip x c) + block_size c
unfolding next_interval
next_interval-fix_ip x c h = ip_of_int (ip_to_int (fix_ip x c) + block_size c) h

pub next_interval_wraps :
    (x : Ip) (c : ℕ)
    → ip_to_int (fix_ip x c) + block_size c ≡ 2 ^ 32
    → ip_to_int (next_interval x c) ≡ 0
unfolding next_interval
next_interval_wraps x c e = rw e (ip_to_int-int_to_ip (2 ^ 32))

-- Fixing is idempotent, and every address of a block fixes to the block's first.
pub fix_ip_block :
    (x y : Ip) (c : ℕ)
    → IsQuad x
    → IsQuad y
    → ip_to_int x % block_size c ≡ 0
    → ip_to_int x ≤ ip_to_int y
    → ip_to_int y < ip_to_int x + block_size c
    → fix_ip y c ≡ x
unfolding fix_ip
fix_ip_block x y c q r m le lt =
    rw (floor_to_unique (ip_to_int y) (block_size c) (ip_to_int x) m le lt)
      (int_to_ip-ip_to_int x q)
