-- ===== src/Prelude/Int.antt =====
-- C integers that may be negative, over the native numbers.
use Prim.Native.Nat.{ℕ}
use mathlib.Core.Bool.{Bool, true, false}
use paw.Prelude.Tests.{ltb, ◌==◌, if◌then◌else◌}

-- `negsuc n` is -(n + 1).
pub data ℤ : Type 0 where
  pos : ℕ → ℤ
  negsuc : ℕ → ℤ

abbrev pub minus_one : ℤ
minus_one = negsuc 0

-- a > b
abbrev pub gtb_ℤ : ℤ → ℤ → Bool
gtb_ℤ (pos a) (pos b) = ltb b a
gtb_ℤ (pos a) (negsuc b) = true
gtb_ℤ (negsuc a) (pos b) = false
gtb_ℤ (negsuc a) (negsuc b) = ltb a b

abbrev pub eq_ℤ : ℤ → ℤ → Bool
eq_ℤ (pos a) (pos b) = a == b
eq_ℤ (pos a) (negsuc b) = false
eq_ℤ (negsuc a) (pos b) = false
eq_ℤ (negsuc a) (negsuc b) = a == b

-- MAX(a, b)
abbrev pub max_ℤ : ℤ → ℤ → ℤ
max_ℤ a b = if gtb_ℤ a b then a else b
