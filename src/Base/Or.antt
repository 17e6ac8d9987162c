-- ===== src/Base/Or.antt =====
-- The bitwise or of numbers, from its lowest digit on.
use Prim.Native.Nat.{ℕ, zero, suc, ◌+◌, ◌*◌, ◌/◌, ◌≤◌, ◌<◌, max, bit_or, digits, bit_or-bitwise}
use mathlib.Core.Path.{◌≡◌, refl, ap}
use native.Mathlib.Omega.{arith}

abbrev or_digits : ℕ → ℕ → ℕ → ℕ
or_digits n a b = digits (λ b. b) max n a b

or_digits-fuel : (n m a b : ℕ) → a ≤ n → a ≤ m → or_digits n a b ≡ or_digits m a b
or_digits-fuel zero zero a b p q = refl
or_digits-fuel zero (suc m) zero b p q = refl
or_digits-fuel zero (suc m) (suc a) b p q = absurd (omega arith)
or_digits-fuel (suc n) zero zero b p q = refl
or_digits-fuel (suc n) zero (suc a) b p q = absurd (omega arith)
or_digits-fuel (suc n) (suc m) zero b p q = refl
or_digits-fuel (suc n) (suc m) (suc a) b p q =
    omega (arith, or_digits-fuel n m (suc a / 2) (b / 2) (omega arith) (omega arith))

or_digits-zero : (n a : ℕ) → a ≤ n → or_digits n a 0 ≡ a
or_digits-zero zero zero h = refl
or_digits-zero zero (suc a) h = absurd (omega arith)
or_digits-zero (suc n) zero h = refl
or_digits-zero (suc n) (suc a) h = omega (arith, or_digits-zero n (suc a / 2) (omega arith))

pub bit_or-zero : (a : ℕ) → bit_or a 0 ≡ a
bit_or-zero a = omega (arith, bit_or-bitwise a 0, or_digits-zero a a (omega arith))

or_even : (a b c : ℕ) → a ≡ c * 2 → b < 2 → bit_or a b ≡ a + b
or_even zero b c e h = omega (arith, bit_or-bitwise 0 b)
or_even (suc a) b c e h =
    let none : b / 2 ≡ 0 = omega arith in
    omega (
      arith,
      bit_or-bitwise (suc a) b,
      ap (or_digits a (suc a / 2)) none,
      or_digits-zero a (suc a / 2) (omega arith),
    )

-- A number with room at its lowest digit, and a digit.
pub bit_or-even : (c b : ℕ) → b < 2 → bit_or (c * 2) b ≡ c * 2 + b
bit_or-even c b h = or_even (c * 2) b c refl h
