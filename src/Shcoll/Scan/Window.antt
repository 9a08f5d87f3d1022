-- ===== src/Shcoll/Scan/Window.antt =====
-- The sums that `exclusive_prefix_sum` computes: those of the values of the `2 ^ round` members up to
-- one, or of all up to it.
use paw.Prelude.{ℕ, zero, suc, ◌+◌, ◌-◌, ◌^◌, ◌≤◌, ◌<◌, ◌≡◌, refl, arith, dec_lt, ap}
use paw.Prelude.Words.{two_pow_suc}

-- The values of the members below `n`.
unfoldable pub sum_below : (ℕ → ℕ) → ℕ → ℕ
sum_below value zero = 0
sum_below value (suc n) = sum_below value n + value n

abbrev pub window : (ℕ → ℕ) → ℕ → ℕ → ℕ
window value me round = sum_below value (me + 1) - sum_below value (me + 1 - 2 ^ round)

module _ (value : ℕ → ℕ) where
  pub sum_below_mono : (a b : ℕ) → a ≤ b → sum_below value a ≤ sum_below value b
  unfolding sum_below
  sum_below_mono zero b h = omega arith
  sum_below_mono (suc a) zero h = absurd (omega arith)
  sum_below_mono (suc a) (suc b) h = elim (dec_lt a b) [
    | yes lt ↦ omega (arith, sum_below_mono (suc a) b lt)
    | no ge ↦
        let same : a ≡ b = omega arith in omega (arith, ap (sum_below value) same, ap value same)
  ]

  pub sum_below_next : (me : ℕ) → sum_below value (me + 1) ≡ sum_below value me + value me
  unfolding sum_below
  sum_below_next me = let e : me + 1 ≡ suc me = omega arith in rw e refl

  pub window_le : (n me round : ℕ) → me < n → window value me round ≤ sum_below value n
  window_le n me round lt = omega (arith, sum_below_mono (me + 1) n (omega arith))

  pub window-zero : (me : ℕ) → window value me 0 ≡ value me
  window-zero me = let e : me + 1 - 1 ≡ me = omega arith in rw e (omega (arith, sum_below_next me))

  -- A window that reaches the first member is the whole sum.
  pub window_whole :
      (me round : ℕ) → me < 2 ^ round → window value me round ≡ sum_below value (me + 1)
  unfolding sum_below
  window_whole me round lt = let e : me + 1 - 2 ^ round ≡ 0 = omega arith in rw e (omega arith)

  pub window_same :
      (me round : ℕ) → me < 2 ^ round → window value me (suc round) ≡ window value me round
  window_same me round lt = omega (
    arith,
    window_whole me round lt,
    window_whole me (suc round) (omega (arith, two_pow_suc round)),
  )

  -- Two windows that meet are one of twice the length.
  pub window_twice :
      (p round : ℕ)
      → window value (p + 2 ^ round) (suc round)
        ≡ window value (p + 2 ^ round) round + window value p round
  window_twice p round =
      let e : p + 2 ^ round + 1 - 2 ^ suc round ≡ p + 1 - 2 ^ round =
        omega (arith, two_pow_suc round) in
      let f : p + 2 ^ round + 1 - 2 ^ round ≡ p + 1 = omega arith in
      rw (e, f)
        (omega (
          arith,
          sum_below_mono (p + 1 - 2 ^ round) (p + 1) (omega arith),
          sum_below_mono (p + 1) (p + 2 ^ round + 1) (omega arith),
        ))
