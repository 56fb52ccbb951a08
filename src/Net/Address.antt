-- ===== src/Net/Address.antt =====
-- The address functions at the top of src/master/network.py. An `Ip` is the text "a.b.c.d" taken
-- apart at its dots, so two texts that the program compares are two records. The functions that
-- take a cidr are meant for 0 to 32: above that Python's shift raises, and the callers that can be
-- handed such a cidr test it themselves.
pub mod Laws
use docklet.Common.{
  ℕ, ◌+◌, ◌-◌, ◌*◌, ◌/◌, ◌%◌, ◌^◌, Bool, ◌&&◌, Option, none, some, ltb, ◌==◌, if◌then◌else◌,
  floor_to,
}

pub record Ip : Type 0 where
  pub a : ℕ
  pub b : ℕ
  pub c : ℕ
  pub d : ℕ

-- Equality of the two texts.
abbrev pub eq_ip : Ip → Ip → Bool
eq_ip x y = (x.a == y.a) && ((x.b == y.b) && ((x.c == y.c) && (x.d == y.d)))

unfoldable pub ip_to_int : Ip → ℕ
ip_to_int addr = addr.a * 2 ^ 24 + addr.b * 2 ^ 16 + addr.c * 2 ^ 8 + addr.d

unfoldable pub int_to_ip : ℕ → Ip
int_to_ip num = record {
  a = num / 2 ^ 24 % 256;
  b = num / 2 ^ 16 % 256;
  c = num / 2 ^ 8 % 256;
  d = num % 256;
}

-- `1 << (32 - cidr)`, the number of addresses of an interval.
unfoldable pub block_size : ℕ → ℕ
block_size cidr = 2 ^ (32 - cidr)

-- `& ((-1) << (32 - cidr))` clears the bits below the block size.
unfoldable pub fix_ip : Ip → ℕ → Ip
fix_ip addr cidr = int_to_ip (floor_to (ip_to_int addr) (block_size cidr))

unfoldable pub next_interval : Ip → ℕ → Ip
next_interval addr cidr = int_to_ip (ip_to_int (fix_ip addr cidr) + block_size cidr)

-- `none` is the text "-1.-1.-1.-1", which is no address of any pool.
unfoldable pub before_interval : Ip → ℕ → Option Ip
before_interval addr cidr =
    let n = ip_to_int (fix_ip addr cidr) in
    if ltb n (block_size cidr) then none else some (int_to_ip (n - block_size cidr))
