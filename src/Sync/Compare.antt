-- ===== src/Sync/Compare.antt =====
-- osss-ucx/src/shmemc/ucx/test.c: the comparisons on words, which are signed for every type.
use paw.Prelude.{ℕ, suc, ◌+◌, ◌-◌, ◌%◌, ◌^◌, ◌<◌, ◌≤◌, ◌≡◌, true, false, arith}
use native.Mathlib.Nat.{mod-eq_of_lt, mod-eq-sub-mod}
use paw.Prelude.Words.{two_pow_suc}
use paw.Sync.{compare_op, cmp_gt, cmp_lt}

half : (w : ℕ) → 2 ^ suc w ≡ 2 ^ w + 2 ^ w
half w = omega (arith, two_pow_suc w)

low_bias : (w b : ℕ) → b < 2 ^ w → (b + 2 ^ w) % 2 ^ suc w ≡ b + 2 ^ w
low_bias w b h = mod-eq_of_lt (omega (arith, half w))

high_bias : (w a : ℕ) → 2 ^ w ≤ a → a < 2 ^ suc w → (a + 2 ^ w) % 2 ^ suc w ≡ a - 2 ^ w
high_bias w a lo hi =
    let down : (a + 2 ^ w) % 2 ^ suc w ≡ (a + 2 ^ w - 2 ^ suc w) % 2 ^ suc w =
      mod-eq-sub-mod (omega (arith, half w)) in
    let small : (a + 2 ^ w - 2 ^ suc w) % 2 ^ suc w ≡ a + 2 ^ w - 2 ^ suc w =
      mod-eq_of_lt (omega (arith, half w)) in
    omega (arith, half w, down, small)

bit_less : (w : ℕ) → suc w - 1 ≡ w
bit_less w = omega arith

-- A word with its top bit set is never found greater than one without, and is always found less: for
-- an unsigned type both answers are wrong.
pub compare_top_bit :
    (w a b : ℕ)
    → 2 ^ w ≤ a
    → a < 2 ^ suc w
    → b < 2 ^ w
    → (compare_op (suc w) cmp_gt a b ≡ false) × (compare_op (suc w) cmp_lt a b ≡ true)
unfolding compare_op
compare_top_bit w a b lo hi h =
    rw (bit_less w, low_bias w b h, high_bias w a lo hi) (ground arith, ground arith)
