-- ===== src/Prelude/Bits.antt =====
-- Laws of the bitwise operations of C at numbers that are not literals, from the recursion on binary
-- digits that the native operations stand for.
use Prim.Native.Nat.{
  ℕ, zero, suc, ◌+◌, ◌*◌, ◌/◌, ◌%◌, ◌^◌, ◌≤◌, ◌<◌, min, max, bit_and, bit_or, digits,
  bit_and-bitwise, bit_or-bitwise,
}
use mathlib.Core.Path.{◌≡◌, refl, ap}
use native.Mathlib.Omega.{arith}
use paw.Prelude.Words.{two_pow_suc}

-- An operation on digits that also runs on after the first number has run out.
module _ (z : ℕ → ℕ) (f : ℕ → ℕ → ℕ) (run : (b : ℕ) → z b ≡ z (b / 2) * 2 + f 0 (b % 2)) where
  digits_enough : (n m a b : ℕ) → a ≤ n → a ≤ m → digits z f n a b ≡ digits z f m a b
  digits_enough zero zero a b p q = refl
  digits_enough zero (suc m) zero b p q = refl
  digits_enough zero (suc m) (suc a) b p q = absurd (omega arith)
  digits_enough (suc n) zero zero b p q = refl
  digits_enough (suc n) zero (suc a) b p q = absurd (omega arith)
  digits_enough (suc n) (suc m) zero b p q = refl
  digits_enough (suc n) (suc m) (suc a) b p q =
      ap (λ d. d * 2 + f (suc a % 2) (b % 2))
        (digits_enough n m (suc a / 2) (b / 2) (omega arith) (omega arith))

  -- One digit.
  pub digits_step :
      (a b : ℕ) → digits z f a a b ≡ digits z f (a / 2) (a / 2) (b / 2) * 2 + f (a % 2) (b % 2)
  digits_step zero b = run b
  digits_step (suc a) b =
      ap (λ d. d * 2 + f (suc a % 2) (b % 2))
        (digits_enough a (suc a / 2) (suc a / 2) (b / 2) (omega arith) (omega arith))

pub bit_and_halves : (a b : ℕ) → bit_and a b ≡ bit_and (a / 2) (b / 2) * 2 + min (a % 2) (b % 2)
bit_and_halves a b = omega (
  arith,
  bit_and-bitwise a b,
  bit_and-bitwise (a / 2) (b / 2),
  digits_step (λ b. zero) min (λ b. omega arith) a b,
)

pub bit_or_halves : (a b : ℕ) → bit_or a b ≡ bit_or (a / 2) (b / 2) * 2 + max (a % 2) (b % 2)
bit_or_halves a b = omega (
  arith,
  bit_or-bitwise a b,
  bit_or-bitwise (a / 2) (b / 2),
  digits_step (λ b. b) max (λ b. omega arith) a b,
)

pub bit_or-zero : (n a : ℕ) → a ≤ n → bit_or a 0 ≡ a
bit_or-zero n zero le = omega (arith, bit_or-bitwise 0 0)
bit_or-zero zero (suc a) le = absurd (omega arith)
bit_or-zero (suc n) (suc a) le =
    omega (arith, bit_or_halves (suc a) 0, bit_or-zero n (suc a / 2) (omega arith))

-- Two numbers with the same top bit keep it.
pub bit_and_top :
    (d a b : ℕ) → 2 ^ d ≤ a → a < 2 ^ suc d → 2 ^ d ≤ b → b < 2 ^ suc d → 2 ^ d ≤ bit_and a b
bit_and_top zero a b p q r s =
    let ea : a ≡ 1 = omega (arith, two_pow_suc zero) in
    let eb : b ≡ 1 = omega (arith, two_pow_suc zero) in rw (ea, eb) (omega arith)
bit_and_top (suc d) a b p q r s = omega (
  arith,
  two_pow_suc d,
  two_pow_suc (suc d),
  bit_and_halves a b,
  bit_and_top d (a / 2) (b / 2) (omega (arith, two_pow_suc d))
      (omega (arith, two_pow_suc (suc d), two_pow_suc d)) (omega (arith, two_pow_suc d))
      (omega (arith, two_pow_suc (suc d), two_pow_suc d)),
)
