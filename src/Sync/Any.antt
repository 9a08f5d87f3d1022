-- ===== src/Sync/Any.antt =====
-- osss-ucx/src/shmemc/ucx/test.c and waituntil.c: the first element that satisfies a test.
use paw.Prelude.{
  ap, ◌≢◌, ℕ, zero, suc, ◌+◌, ◌<◌, ◌≤◌, ◌≡◌, refl, sym, ◌∙◌, arith, true, false, Option, none, some,
  Bool-cases, inl, inr,
}
use paw.Sync.{
  Cmp, compare_op, Memory, skipped, ctx_test, wait_any_pass, wait_any_loop,
  ctx_wait_until_any_vector,
}

module _ (m : Memory) (size : ℕ) (op : Cmp) (status : Option (ℕ → ℕ)) (values : ℕ → ℕ) where
  open m use {State, read, progress, idle}

  -- Element `i` counts, and satisfies the test in state `w`.
  abbrev pub Holds : State → ℕ → Type 0
  Holds w i = (skipped status i ≡ false) × (compare_op size op (read w i) (values i) ≡ true)

  -- A round of the pass, by what element `i` is.
  pass_skip :
      (left i : ℕ) (w : State)
      → skipped status i ≡ true
      → wait_any_pass m size op status values (suc left) i w
        ≡ wait_any_pass m size op status values left (suc i) w
  unfolding wait_any_pass
  pass_skip left i w s = rw s refl

  pass_found :
      (left i : ℕ) (w : State)
      → Holds w i
      → wait_any_pass m size op status values (suc left) i w ≡ (some i, w)
  unfolding wait_any_pass ctx_test
  pass_found left i w (s, h) = rw (s, h) refl

  pass_miss :
      (left i : ℕ) (w : State)
      → skipped status i ≡ false
      → compare_op size op (read w i) (values i) ≡ false
      → wait_any_pass m size op status values (suc left) i w
        ≡ wait_any_pass m size op status values left (suc i) (idle (progress w))
  unfolding wait_any_pass ctx_test
  pass_miss left i w s h = rw (s, h) refl

  data Round (w : State) (i : ℕ) : Type 0 where
    skip : skipped status i ≡ true → Round w i
    found : Holds w i → Round w i
    miss : skipped status i ≡ false → compare_op size op (read w i) (values i) ≡ false → Round w i

  round_of : (w : State) (i : ℕ) → Round w i
  round_of w i = elim (Bool-cases (skipped status i)) [
    | inl s ↦ skip s
    | inr s ↦ elim (Bool-cases (compare_op size op (read w i) (values i))) [
      | inl h ↦ found (s, h)
      | inr h ↦ miss s h
    ]
  ]

  wait_any_pass_found :
      (left i k : ℕ) (w w' : State)
      → wait_any_pass m size op status values left i w ≡ (some k, w')
      → (i ≤ k) × (k < i + left) × Holds w' k
  unfolding wait_any_pass
  wait_any_pass_found zero i k w w' e = cc
  wait_any_pass_found (suc left) i k w w' e = elim (round_of w i) [
    | skip s ↦
        let (lo, hi, h) =
          wait_any_pass_found left (suc i) k w w' (sym (pass_skip left i w s) ∙ e) in
        (omega arith, omega arith, h)
    | found h ↦
        let q : ◌≡◌ {A = Option ℕ × State} (some i, w) (some k, w') =
          sym (pass_found left i w h) ∙ e in
        let at_k : i ≡ k = cc in
        let same : w ≡ w' = cc in (omega arith, omega arith, rw (← at_k, ← same) h)
    | miss s h ↦
        let (lo, hi, h) =
          wait_any_pass_found left (suc i) k (idle (progress w)) w'
            (sym (pass_miss left i w s h) ∙ e) in
        (omega arith, omega arith, h)
  ]

  pass_cases :
      (nelems fuel : ℕ) (w : State) (r : Option ℕ × State)
      → wait_any_pass m size op status values nelems 0 w ≡ r
      → wait_any_loop m size op status values (suc fuel) nelems w
        ≡ elim r.0 as (λ _. Option (ℕ × State)) [
          | some i ↦ some (i, r.1)
          | none ↦ wait_any_loop m size op status values fuel nelems r.1
        ]
  unfolding wait_any_loop
  pass_cases nelems fuel w r e =
      ap
        (λ (r : Option ℕ × State). elim r.0 as (λ _. Option (ℕ × State)) [
          | some i ↦ some (i, r.1)
          | none ↦ wait_any_loop m size op status values fuel nelems r.1
        ])
        e

  wait_any_loop-Holds :
      (fuel nelems k : ℕ) (w w' : State)
      → wait_any_loop m size op status values fuel nelems w ≡ some (k, w')
      → (k < nelems) × Holds w' k
  unfolding wait_any_loop
  wait_any_loop-Holds zero nelems k w w' e = cc
  wait_any_loop-Holds (suc fuel) nelems k w w' e =
      go (λ w1 q. wait_any_loop-Holds fuel nelems k w1 w' q)
        (wait_any_pass m size op status values nelems 0 w) refl
    where
      go :
          ((w1 : State)
            → wait_any_loop m size op status values fuel nelems w1 ≡ some (k, w')
            → (k < nelems) × Holds w' k)
          → (r : Option ℕ × State) → wait_any_pass m size op status values nelems 0 w ≡ r
          → (k < nelems) × Holds w' k
      go again (some i, w1) q =
          let found : ◌≡◌ {A = Option (ℕ × State)} (some (i, w1)) (some (k, w')) =
            sym (pass_cases nelems fuel w (some i, w1) q) ∙ e in
          let at_k : i ≡ k = cc in
          let same : w1 ≡ w' = cc in
          let (lo, hi, h) = wait_any_pass_found nelems 0 i w w1 q in
          (omega arith, rw (← at_k, ← same) h)
      go again (none, w1) q = again w1 (sym (pass_cases nelems fuel w (none, w1) q) ∙ e)

  -- The element that `wait_until_any` returns is one of the array that counts, and it satisfies the
  -- test in the state that the call leaves.
  pub ctx_wait_until_any-Holds :
      (fuel nelems k : ℕ) (w w' : State)
      → ctx_wait_until_any_vector m size op status values fuel nelems w ≡ some (k, w')
      → (k < nelems) × Holds w' k
  unfolding ctx_wait_until_any_vector
  ctx_wait_until_any-Holds = wait_any_loop-Holds

  -- Where an element that counts satisfies the test throughout, one pass finds an element.
  pass_returns :
      (left i k : ℕ) (w : State)
      → ((w : State) → Holds w k)
      → i ≤ k
      → k < i + left
      → (j : ℕ) × (w' : State) × (wait_any_pass m size op status values left i w ≡ (some j, w'))
  pass_returns zero i k w always lo hi = absurd (omega arith)
  pass_returns (suc left) i k w always lo hi = elim (round_of w i) [
    | found h ↦ (i, w, pass_found left i w h)
    | skip s ↦
        let (j, w', e) = pass_returns left (suc i) k w always (later_skip s) (omega arith) in
        (j, w', pass_skip left i w s ∙ e)
    | miss s h ↦
        let (j, w', e) =
          pass_returns left (suc i) k (idle (progress w)) always (later_miss h) (omega arith) in
        (j, w', pass_miss left i w s h ∙ e)
  ]
    where
      later : i ≢ k → suc i ≤ k
      later ne = omega arith

      later_skip : skipped status i ≡ true → suc i ≤ k
      later_skip s = later (λ e. let h = rw (← e) at ((always w).0) in cc)

      later_miss : compare_op size op (read w i) (values i) ≡ false → suc i ≤ k
      later_miss h = later (λ e. let g = rw (← e) at ((always w).1) in cc)

  -- `wait_until_any` returns, whatever else happens, where an element that counts satisfies the test
  -- throughout.
  pub ctx_wait_until_any_returns :
      (fuel nelems k : ℕ) (w : State)
      → ((w : State) → Holds w k)
      → k < nelems
      → (j : ℕ) × (w' : State) × (ctx_wait_until_any_vector m size op status values
            (suc fuel)
            nelems
            w
          ≡ some (j, w'))
  unfolding ctx_wait_until_any_vector
  ctx_wait_until_any_returns fuel nelems k w always lt =
      let (j, w', e) = pass_returns nelems 0 k w always (omega arith) (omega arith) in
      (j, w', pass_cases nelems fuel w (some j, w') e)
