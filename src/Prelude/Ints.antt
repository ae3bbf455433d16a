-- ===== src/Prelude/Ints.antt =====
-- Tests on Go's signed integers.
use Prim.Native.Nat.{ℕ}
use mathlib.Core.Bool.{Bool, true, false}
use cable.Prelude.Tests.{ltb}
use cable.Prelude.Words.{ℤ, pos, negsuc}

-- `i < 0`
unfoldable pub is_negative : ℤ → Bool
is_negative (pos n) = false
is_negative (negsuc n) = true

-- `i < n`
unfoldable pub below : ℤ → ℕ → Bool
below (pos m) n = ltb m n
below (negsuc m) n = true
