-- ===== src/Prelude/Words.antt =====
-- C machine words as native numbers, with the wrap-around written out.
use Prim.Native.Nat.{zero, suc, ◌≤◌, ◌<◌, ℕ, ◌+◌, ◌-◌, ◌*◌, ◌%◌, ◌^◌}
use mathlib.Core.Path.{◌≡◌}
use native.Mathlib.Nat.{pow-suc, mod-eq_of_lt, mod-lt}
use native.Mathlib.Omega.{arith}
use mathlib.Core.Bool.{Bool}
use paw.Prelude.Tests.{leb, ltb, if◌then◌else◌}

abbrev pub u32 : ℕ → ℕ
u32 n = n % 2 ^ 32

abbrev pub u64 : ℕ → ℕ
u64 n = n % 2 ^ 64

-- `(size_t) n` for an int: its sign is extended.
abbrev pub size_of_int : ℕ → ℕ
size_of_int n = if ltb n (2 ^ 31) then n else n + 2 ^ 64 - 2 ^ 32

-- uint64_t `a + b` and `a - b`
abbrev pub add64 : ℕ → ℕ → ℕ
add64 a b = u64 (a + b)

abbrev pub sub64 : ℕ → ℕ → ℕ
sub64 a b = u64 (a + 2 ^ 64 - b)

-- the sign bit of a 64-bit word read as a `long`
abbrev pub is_negative64 : ℕ → Bool
is_negative64 n = leb (2 ^ 63) n

pub two_pow_suc : (n : ℕ) → 2 ^ suc n ≡ 2 * 2 ^ n
two_pow_suc n = omega (arith, pow-suc 2 n)

pub two_pow_pos : (n : ℕ) → 0 < 2 ^ n
two_pow_pos zero = omega arith
two_pow_pos (suc n) = omega (arith, two_pow_pos n, two_pow_suc n)

pub two_pow_mono : (a b : ℕ) → a ≤ b → 2 ^ a ≤ 2 ^ b
two_pow_mono zero b h = omega (arith, two_pow_pos b)
two_pow_mono (suc a) zero h = absurd (omega arith)
two_pow_mono (suc a) (suc b) h =
    omega (arith, two_pow_mono a b (omega arith), two_pow_suc a, two_pow_suc b)

pub two_pow_lt : (a b : ℕ) → a < b → 2 ^ a < 2 ^ b
two_pow_lt a b h = omega (arith, two_pow_mono (suc a) b h, two_pow_suc a, two_pow_pos a)

pub mod_twice : (v k : ℕ) → v % 2 ^ k % 2 ^ k ≡ v % 2 ^ k
mod_twice v k = mod-eq_of_lt (mod-lt v (two_pow_pos k))
