-- ===== src/Base/Ints.antt =====
-- Signed integers. A `ssize_t` is an integer; an `int` is its bit pattern below 2^32, whose
-- arithmetic wraps (two's complement).
use Prim.Native.Nat.{ℕ, ◌^◌}
use mathlib.Core.Bool.{Bool, ◌&&◌}
use http_proxy.Base.Booleans.{ltb, leb}

-- `negsuc n` is -(n + 1).
pub data ℤ : Type 0 where
  pos : ℕ → ℤ
  negsuc : ℕ → ℤ

abbrev pub int_mod : ℕ
int_mod = 2 ^ 32

-- The tests `n < 0` and `n > 0` of a bit pattern.
abbrev pub int_is_neg : ℕ → Bool
int_is_neg n = leb (2 ^ 31) n

abbrev pub int_is_pos : ℕ → Bool
int_is_pos n = ltb 0 n && ltb n (2 ^ 31)
