-- ===== src/Prelude/Bits.antt =====
-- `&` by a mask and `|` of operands that share no bit, as arithmetic.
use Prim.Native.Nat.{
  ℕ, zero, suc, ◌+◌, ◌<◌, ◌≤◌, ◌*◌, ◌/◌, ◌%◌, ◌^◌, max, bit_and, bit_or, digits, bit_or-bitwise,
}
use mathlib.Core.Path.{◌≡◌, refl, ◌∙◌}
use mathlib.Core.Bool.{Bool, true, false}
use mathlib.Core.Logic.{ite}
use native.Mathlib.Nat.{pow-suc}
use native.Mathlib.Decide.{ℕ_discrete}
use native.Mathlib.Omega.{arith}

-- The law for the lowest digit, from the definition that the native operation stands for.
abbrev or_digits : ℕ → ℕ → ℕ → ℕ
or_digits n a b = digits (λ b. b) max n a b

or_digits_fuel : (n m a b : ℕ) → a ≤ n → a ≤ m → or_digits n a b ≡ or_digits m a b
or_digits_fuel zero zero a b p q = refl
or_digits_fuel zero (suc m) zero b p q = refl
or_digits_fuel zero (suc m) (suc a) b p q = absurd (omega arith)
or_digits_fuel (suc n) zero zero b p q = refl
or_digits_fuel (suc n) zero (suc a) b p q = absurd (omega arith)
or_digits_fuel (suc n) (suc m) zero b p q = refl
or_digits_fuel (suc n) (suc m) (suc a) b p q =
    omega (arith, or_digits_fuel n m (suc a / 2) (b / 2) (omega arith) (omega arith))

pub zero-bit_or : (b : ℕ) → bit_or 0 b ≡ b
zero-bit_or b = bit_or-bitwise 0 b

pub bit_or_step : (a b : ℕ) → bit_or a b ≡ bit_or (a / 2) (b / 2) * 2 + max (a % 2) (b % 2)
bit_or_step zero b = omega (arith, zero-bit_or b, zero-bit_or (b / 2))
bit_or_step (suc a) b = omega (
  arith,
  bit_or-bitwise (suc a) b,
  bit_or-bitwise (suc a / 2) (b / 2),
  or_digits_fuel a (suc a / 2) (suc a / 2) (b / 2) (omega arith) (omega arith),
)

bit_or-zero_fuel : (n a : ℕ) → a ≤ n → bit_or a 0 ≡ a
bit_or-zero_fuel n zero h = refl
bit_or-zero_fuel zero (suc a) h = absurd (omega arith)
bit_or-zero_fuel (suc n) (suc a) h =
    omega (arith, bit_or_step (suc a) 0, bit_or-zero_fuel n (suc a / 2) (omega arith))

-- `n << k | b` for a `b` of `k` bits is the sum.
pub bit_or_disjoint : (k n b : ℕ) → b < 2 ^ k → bit_or (n * 2 ^ k) b ≡ n * 2 ^ k + b
bit_or_disjoint zero n b h =
    let e : n * 2 ^ 0 ≡ n = omega arith in
    let z : b ≡ 0 = omega arith in rw (e, z) (omega (arith, bit_or-zero_fuel n n (omega arith)))
bit_or_disjoint (suc k) n b h =
    let p : 2 ^ suc k ≡ 2 ^ k * 2 = pow-suc 2 k in
    let e : n * 2 ^ suc k ≡ n * 2 ^ k * 2 = rw p (omega arith) in
    let d : n * 2 ^ k * 2 / 2 ≡ n * 2 ^ k = omega arith in
    rw e (
      bit_or_step (n * 2 ^ k * 2) b
      ∙ rw d (omega (arith, bit_or_disjoint k n (b / 2) (omega arith))))

-- Two functions agree at every number below a bound; at a numeral it is settled by evaluation.
module _ (f g : ℕ → ℕ) where
  agrees_below : ℕ → Bool
  unfolding ℕ_discrete
  agrees_below zero = true
  agrees_below (suc n) = ite (ℕ_discrete (f n) (g n)) (agrees_below n) false

  agrees_below_sound : (n i : ℕ) → agrees_below n ≡ true → i < n → f i ≡ g i
  unfolding agrees_below
  agrees_below_sound zero i e h = absurd (omega arith)
  agrees_below_sound (suc n) i e h = ground (arith, agrees_below_sound n i)

-- `b & 0x03` on a byte.
pub bit_and_three : (b : ℕ) → b < 256 → bit_and b 0x03 ≡ b % 4
unfolding agrees_below
bit_and_three b = agrees_below_sound (λ n. bit_and n 0x03) (λ n. n % 4) 256 b refl
