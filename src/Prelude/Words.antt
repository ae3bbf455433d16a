-- ===== src/Prelude/Words.antt =====
-- Fixed-width integers: their ranges, and two's complement.
use cable.Prelude.Tests.{ltb, if◌then◌else◌}
use Prim.Native.Nat.{ℕ, suc, ◌+◌, ◌-◌, ◌%◌, ◌^◌, ◌<◌}
use mathlib.Core.Path.{◌≡◌}
use native.Mathlib.Nat.{mod-eq_of_lt}
use native.Mathlib.Omega.{arith}

abbrev pub IsByte : ℕ → Type 0
IsByte b = b < 256

abbrev pub IsU16 : ℕ → Type 0
IsU16 n = n < 65536

abbrev pub IsU32 : ℕ → Type 0
IsU32 n = n < 2 ^ 32

abbrev pub IsU64 : ℕ → Type 0
IsU64 n = n < 2 ^ 64

-- `negsuc n` is -(n + 1).
pub data ℤ : Type 0 where
  pos : ℕ → ℤ
  negsuc : ℕ → ℤ

-- The range of a signed integer whose sign bit is `half`.
abbrev pub Fits : ℕ → ℤ → Type 0
Fits half (pos n) = n < half
Fits half (negsuc n) = n < half

-- `uint8(i)` and the like: the bit pattern of `i`, at the modulus `m`.
unfoldable pub to_unsigned : ℕ → ℤ → ℕ
to_unsigned m (pos n) = n % m
to_unsigned m (negsuc n) = m - suc (n % m)

-- `int8(u)` and the like: the number that a bit pattern stands for; `half` is half of `m`.
unfoldable pub to_signed : ℕ → ℕ → ℕ → ℤ
to_signed m half u = if ltb u half then pos u else negsuc (m - suc u)

-- A signed integer in range survives the conversion to its bit pattern and back.
pub to_signed-to_unsigned :
    (half : ℕ) (i : ℤ)
    → Fits half i
    → to_signed (half + half) half (to_unsigned (half + half) i) ≡ i
unfolding to_signed to_unsigned
to_signed-to_unsigned half (pos n) h =
    let e : n % (half + half) ≡ n = mod-eq_of_lt (omega arith) in rw e (ground arith)
to_signed-to_unsigned half (negsuc n) h =
    let e : n % (half + half) ≡ n = mod-eq_of_lt (omega arith) in rw e (ground arith)

pub to_unsigned-lt : (half : ℕ) (i : ℤ) → Fits half i → to_unsigned (half + half) i < half + half
unfolding to_unsigned
to_unsigned-lt half (pos n) h = grind arith
to_unsigned-lt half (negsuc n) h = omega arith
