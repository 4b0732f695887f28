-- ===== src/Prelude/Decimal.antt =====
-- Decimal digits, as printf writes them.
use Prim.Native.Nat.{ℕ, zero, suc, ◌+◌, ◌/◌, ◌%◌}
use mathlib.Core.Bool.{true, false}
use mathlib.Core.List.{[], ◌∷◌, ◌++◌}
use libstomp.Prelude.Tests.{ltb}
use libstomp.Prelude.Bytes.{Text}
use libstomp.Prelude.Words.{ℤ, pos, negsuc}

-- As many digits as there is fuel: 20 are enough for 64 bits.
digits : ℕ → ℕ → Text
digits zero n = []
digits (suc fuel) n = elim (ltb n 10) [
  | true ↦ (48 + n) ∷ []
  | false ↦ digits fuel (n / 10) ++ (48 + n % 10) ∷ []
]

unfoldable pub decimal : ℤ → Text
unfolding digits
decimal (pos n) = digits 20 n
decimal (negsuc n) = 45 ∷ digits 20 (n + 1)
