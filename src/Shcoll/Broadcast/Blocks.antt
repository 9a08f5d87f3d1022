-- ===== src/Shcoll/Broadcast/Blocks.antt =====
-- osss-ucx/src/shcoll/src/broadcast.c: the blocks that the scatter cuts the bytes into.
use paw.Prelude.{ℕ, ◌+◌, ◌-◌, ◌*◌, ◌/◌, ◌^◌, ◌<◌, ◌≤◌, ◌≡◌, ap, ◌∙◌, arith}
use native.Mathlib.Nat
use paw.Shcoll.Broadcast.Scatter.{block_start}

module _ (n nbytes : ℕ) (some_pe : 0 < n) (fits : n * nbytes + n ≤ 2 ^ 64) where
  block_start_lem : (k : ℕ) → k ≤ n → block_start n nbytes k ≡ (k * nbytes + n - 1) / n
  unfolding block_start
  block_start_lem k le =
      let m : k * nbytes ≤ n * nbytes = grind arith in
      ap (λ x. x / n) (Nat.mod-eq_of_lt (omega (arith, m, fits, some_pe)))

  div_mono : (x y : ℕ) → x ≤ y → x / n ≤ y / n
  div_mono x y le =
      let q = Nat.div-mul-le_self x n in (Nat.le-div_iff_mul-le some_pe).1 (omega (arith, q, le))

  -- Where the bytes and the size of the set do not overflow a `size_t`, the starts of the blocks cut the
  -- bytes into `n` consecutive pieces: the first one starts at 0, the last one ends at the number of
  -- bytes, and each start is at or behind the one before it.
  pub scatter_blocks :
      (block_start n nbytes 0 ≡ 0)
      × (block_start n nbytes n ≡ nbytes)
      × ((k l : ℕ) → k ≤ l → l ≤ n → block_start n nbytes k ≤ block_start n nbytes l)
  scatter_blocks = (
    block_start_lem 0 (omega arith) ∙ Nat.div-eq_of_lt (omega (arith, some_pe)),
    block_start_lem n (omega arith)
        ∙ ap (λ x. x / n) {x = n * nbytes + n - 1} {y = n * nbytes + (n - 1)}
            (omega (arith, some_pe))
        ∙ Nat.mul-add-div some_pe nbytes (n - 1)
        ∙ (let z = Nat.div-eq_of_lt {n = n - 1} {m = n} (omega (arith, some_pe)) in
            omega (arith, z)),
    λ k l le le_n.
        let a = block_start_lem k (omega (arith, le, le_n)) in
        let b = block_start_lem l le_n in
        let m = Nat.mul-le-mul_right nbytes le in
        rw (a, b) (div_mono (k * nbytes + n - 1) (l * nbytes + n - 1) (omega (arith, m))),
  )
