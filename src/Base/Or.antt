-- ===== src/Base/Or.antt =====
-- The native `or` at a number whose low byte is zero.
use Prim.Native.Nat.{
  ℕ, zero, suc, ◌+◌, ◌*◌, ◌/◌, ◌%◌, ◌≤◌, ◌<◌, max, bit_or, digits, bit_or-bitwise,
}
use mathlib.Core.Path.{◌≡◌, refl}
use native.Mathlib.Omega.{arith}

abbrev or_digits : ℕ → ℕ → ℕ → ℕ
or_digits n a b = digits (λ b. b) max n a b

or_digits_fuel : (n m a b : ℕ) → a ≤ n → a ≤ m → or_digits n a b ≡ or_digits m a b
or_digits_fuel zero zero a b low high = refl
or_digits_fuel zero (suc m) zero b low high = refl
or_digits_fuel zero (suc m) (suc a) b low high = absurd (omega arith)
or_digits_fuel (suc n) zero zero b low high = refl
or_digits_fuel (suc n) zero (suc a) b low high = absurd (omega arith)
or_digits_fuel (suc n) (suc m) zero b low high = refl
or_digits_fuel (suc n) (suc m) (suc a) b low high =
    omega (arith, or_digits_fuel n m (suc a / 2) (b / 2) (omega arith) (omega arith))

zero-bit_or : (b : ℕ) → bit_or 0 b ≡ b
zero-bit_or b = bit_or-bitwise 0 b

bit_or_step : (a b : ℕ) → bit_or a b ≡ bit_or (a / 2) (b / 2) * 2 + max (a % 2) (b % 2)
bit_or_step zero b = omega (arith, zero-bit_or b, zero-bit_or (b / 2))
bit_or_step (suc a) b = omega (
  arith,
  bit_or-bitwise (suc a) b,
  bit_or-bitwise (suc a / 2) (b / 2),
  or_digits_fuel a (suc a / 2) (suc a / 2) (b / 2) (omega arith) (omega arith),
)

bit_or-zero_fuel : (n a : ℕ) → a ≤ n → bit_or a 0 ≡ a
bit_or-zero_fuel n zero h = refl
bit_or-zero_fuel zero (suc a) h = absurd (omega arith)
bit_or-zero_fuel (suc n) (suc a) h =
    omega (arith, bit_or_step (suc a) 0, bit_or-zero_fuel n (suc a / 2) (omega arith))

bit_or-zero : (a b : ℕ) → b ≡ 0 → bit_or a b ≡ a
bit_or-zero a b h = rw h (bit_or-zero_fuel a a (omega arith))

-- An even number leaves the lowest bit to the other.
bit_or_even : (a b : ℕ) → a % 2 ≡ 0 → bit_or a b ≡ bit_or (a / 2) (b / 2) * 2 + b % 2
bit_or_even a b h = omega (arith, bit_or_step a b)

-- `or` with a byte adds it to a number whose low byte is zero.
pub bit_or-add : (a b : ℕ) → a % 256 ≡ 0 → b < 256 → bit_or a b ≡ a + b
bit_or-add a b h l = omega (
  arith,
  bit_or_even a b,
  bit_or_even (a / 2) (b / 2),
  bit_or_even (a / 2 / 2) (b / 2 / 2),
  bit_or_even (a / 2 / 2 / 2) (b / 2 / 2 / 2),
  bit_or_even (a / 2 / 2 / 2 / 2) (b / 2 / 2 / 2 / 2),
  bit_or_even (a / 2 / 2 / 2 / 2 / 2) (b / 2 / 2 / 2 / 2 / 2),
  bit_or_even (a / 2 / 2 / 2 / 2 / 2 / 2) (b / 2 / 2 / 2 / 2 / 2 / 2),
  bit_or_even (a / 2 / 2 / 2 / 2 / 2 / 2 / 2) (b / 2 / 2 / 2 / 2 / 2 / 2 / 2),
  bit_or-zero (a / 2 / 2 / 2 / 2 / 2 / 2 / 2 / 2) (b / 2 / 2 / 2 / 2 / 2 / 2 / 2 / 2),
)
