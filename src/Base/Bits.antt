-- ===== src/Base/Bits.antt =====
-- `hi << k | lo` is a sum when `lo` has at most `k` bits.
use Prim.Native.Nat.{
  ℕ, zero, suc, ◌+◌, ◌*◌, ◌/◌, ◌%◌, ◌^◌, ◌<◌, ◌≤◌, max, bit_or, digits, bit_or-bitwise,
}
use mathlib.Core.Path.{◌≡◌, refl, ap}
use native.Mathlib.Nat.{pow-suc}
use native.Mathlib.Omega.{arith}

abbrev or_digits : ℕ → ℕ → ℕ → ℕ
or_digits = digits (λ b. b) max

-- More rounds than the first number has digits change nothing.
or_digits_rounds : (m n a b : ℕ) → a ≤ m → a ≤ n → or_digits m a b ≡ or_digits n a b
or_digits_rounds zero zero zero b p q = refl
or_digits_rounds zero (suc n) zero b p q = refl
or_digits_rounds (suc m) zero zero b p q = refl
or_digits_rounds (suc m) (suc n) zero b p q = refl
or_digits_rounds zero n (suc a) b p q = absurd (omega arith)
or_digits_rounds (suc m) zero (suc a) b p q = absurd (omega arith)
or_digits_rounds (suc m) (suc n) (suc a) b p q =
    omega (arith, or_digits_rounds m n (suc a / 2) (b / 2) (omega arith) (omega arith))

zero-bit_or : (b : ℕ) → bit_or 0 b ≡ b
zero-bit_or b = bit_or-bitwise 0 b

-- The lowest digit of `a | b`.
bit_or_digit : (a b : ℕ) → bit_or a b ≡ bit_or (a / 2) (b / 2) * 2 + max (a % 2) (b % 2)
bit_or_digit zero b = omega (arith, zero-bit_or b, zero-bit_or (b / 2))
bit_or_digit (suc a) b = omega (
  arith,
  bit_or-bitwise (suc a) b,
  bit_or-bitwise (suc a / 2) (b / 2),
  or_digits_rounds a (suc a / 2) (suc a / 2) (b / 2) (omega arith) (omega arith),
)

bit_or-zero_rounds : (n a : ℕ) → a ≤ n → bit_or a 0 ≡ a
bit_or-zero_rounds n zero h = zero-bit_or 0
bit_or-zero_rounds zero (suc a) h = absurd (omega arith)
bit_or-zero_rounds (suc n) (suc a) h =
    omega (arith, bit_or_digit (suc a) 0, bit_or-zero_rounds n (suc a / 2) (omega arith))

double-field : (hi k : ℕ) → hi * 2 ^ suc k ≡ 2 * (hi * 2 ^ k)
double-field hi k = omega (arith, ap (λ (t : ℕ). hi * t) (pow-suc 2 k))

pub bit_or_field : (k hi lo : ℕ) → lo < 2 ^ k → bit_or (hi * 2 ^ k) lo ≡ hi * 2 ^ k + lo
bit_or_field zero hi lo fits = omega (
  arith,
  ap (λ (t : ℕ). bit_or (hi * 1) t) {x = lo} {y = 0} (omega arith),
  bit_or-zero_rounds (hi * 1) (hi * 1) (omega arith),
)
bit_or_field (suc k) hi lo fits = omega (
  arith,
  bit_or_digit (hi * 2 ^ suc k) lo,
  ap (λ (t : ℕ). bit_or t (lo / 2)) {x = hi * 2 ^ suc k / 2} {y = hi * 2 ^ k}
      (omega (arith, double-field hi k)),
  double-field hi k,
  pow-suc 2 k,
  bit_or_field k hi (lo / 2) (omega (arith, pow-suc 2 k)),
)
