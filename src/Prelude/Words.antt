-- ===== src/Prelude/Words.antt =====
-- C's integers: `int` and `int64_t` are integers in range, `size_t` is a number below 2 ^ 64.
-- The conversions are those of the usual ABI (LP64, two's complement).
use Prim.Native.Nat.{ℕ, zero, suc, ◌-◌, ◌^◌, ◌%◌, ◌<◌}
use mathlib.Core.Path.{◌≡◌}
use mathlib.Core.Bool.{Bool, true, false}
use native.Mathlib.Omega.{arith}
use libstomp.Prelude.Tests.{ltb, if◌then◌else◌}

-- `negsuc n` is -(n + 1).
pub data ℤ : Type 0 where
  pos : ℕ → ℤ
  negsuc : ℕ → ℤ

abbrev pub int_mod : ℕ
int_mod = 2 ^ 32

abbrev pub size_mod : ℕ
size_mod = 2 ^ 64

-- The largest `int`, plus one.
abbrev pub int_limit : ℕ
int_limit = 2 ^ 31

-- `(int) n` for a `size_t` n.
unfoldable pub to_int : ℕ → ℤ
to_int n = let m = n % int_mod in if ltb m int_limit then pos m else negsuc (int_mod - m - 1)

-- `(size_t) z` for an `int` or an `int64_t` z.
unfoldable pub to_size : ℤ → ℕ
to_size (pos n) = n % size_mod
to_size (negsuc n) = size_mod - 1 - n % size_mod

-- z > 0
unfoldable pub is_positive : ℤ → Bool
is_positive (pos zero) = false
is_positive (pos (suc n)) = true
is_positive (negsuc n) = false

-- z > -1
unfoldable pub is_natural : ℤ → Bool
is_natural (pos n) = true
is_natural (negsuc n) = false

unfoldable pub is_zero : ℤ → Bool
is_zero (pos zero) = true
is_zero (pos (suc n)) = false
is_zero (negsuc n) = false

pub to_int_small : (n : ℕ) → n < int_limit → to_int n ≡ pos n
unfolding to_int
to_int_small n h = ground arith

pub to_size_small : (n : ℕ) → n < int_limit → to_size (pos n) ≡ n
unfolding to_size
to_size_small n h = omega arith
