-- ===== src/Sync/All.antt =====
-- osss-ucx/src/shmemc/ucx/test.c and waituntil.c: tests of all elements, and the wait for all.
use paw.Prelude.{
  ℕ, zero, suc, ◌+◌, ◌^◌, ◌<◌, ◌≤◌, ◌≡◌, ◌↔◌, refl, sym, ◌∙◌, arith, Bool, true, false, not, ◌&&◌,
  Option, some, ltb, if◌then◌else◌, Bool-cases, inl, inr, ==_iff, ℕ_discrete, lt→ltb, dec_lt,
}
use paw.Prelude.Words.{u32, size_of_int}
use paw.Sync.{
  Cmp, compare_op, Memory, skipped, ctx_test, test_all_loop, wait_all_pass, wait_all_loop,
  ctx_test_all_vector, ctx_wait_until_all_vector,
}
use paw.Sync.Any.{Holds}

module _ (m : Memory) (size : ℕ) (op : Cmp) (status : Option (ℕ → ℕ)) (values : ℕ → ℕ) where
  open m use {State, read, progress, idle}

  -- What a round adds to the count.
  abbrev counts : State → ℕ → Bool
  counts w i = not (skipped status i) && compare_op size op (read w i) (values i)

  counts_iff : (w : State) (i : ℕ) → (counts w i ≡ true) ↔ Holds m size op status values w i
  counts_iff w i = ground arith

  -- The state after a round of `test_all`, and of a pass of `wait_until_all`.
  after_test : State → ℕ → State
  after_test w i =
      if skipped status i
      then w
      else if compare_op size op (read w i) (values i)
      then w
      else progress w

  after_pass : State → ℕ → State
  after_pass w i =
      if skipped status i
      then w
      else idle (if compare_op size op (read w i) (values i) then w else progress w)

  test_round :
      (left i n : ℕ) (w : State)
      → test_all_loop m size op status values (suc left) i n w
        ≡ test_all_loop m size op status values left
            (suc i)
            (if counts w i then u32 (n + 1) else n)
            (after_test w i)
  unfolding test_all_loop ctx_test after_test
  test_round left i n w = elim (Bool-cases (skipped status i)) [
    | inl s ↦ rw s refl
    | inr s ↦ elim (Bool-cases (compare_op size op (read w i) (values i))) [
      | inl h ↦ rw (s, h) refl
      | inr h ↦ rw (s, h) refl
    ]
  ]

  pass_round :
      (left i n : ℕ) (w : State)
      → wait_all_pass m size op status values (suc left) i n w
        ≡ wait_all_pass m size op status values left
            (suc i)
            (if counts w i then n + 1 else n)
            (after_pass w i)
  unfolding wait_all_pass ctx_test after_pass
  pass_round left i n w = elim (Bool-cases (skipped status i)) [
    | inl s ↦ rw s refl
    | inr s ↦ elim (Bool-cases (compare_op size op (read w i) (values i))) [
      | inl h ↦ rw (s, h) refl
      | inr h ↦ rw (s, h) refl
    ]
  ]

  pass_ge : (left i n : ℕ) (w : State) → n ≤ (wait_all_pass m size op status values left i n w).0
  unfolding wait_all_pass
  pass_ge zero i n w = omega arith
  pass_ge (suc left) i n w =
      rw (pass_round left i n w)
        (ground (arith, pass_ge left (suc i) (if counts w i then n + 1 else n) (after_pass w i)))

  -- A pass over an element that satisfies the test throughout counts at least one.
  pass_gt :
      (left i n k : ℕ) (w : State)
      → ((w : State) → Holds m size op status values w k)
      → i ≤ k
      → k < i + left
      → n < (wait_all_pass m size op status values left i n w).0
  pass_gt zero i n k w always lo hi = absurd (omega arith)
  pass_gt (suc left) i n k w always lo hi = rw (pass_round left i n w) (elim (ℕ_discrete i k) [
    | yes same ↦
        let here : counts w i ≡ true = rw same ((counts_iff w k).1 (always w)) in
        rw here (omega (arith, pass_ge left (suc i) (n + 1) (after_pass w i)))
    | no ne ↦
        let more =
          pass_gt left (suc i) (if counts w i then n + 1 else n) k (after_pass w i) always
            (omega arith) (omega arith) in
        ground (arith, more)
  ])

  loop_done :
      (fuel nelems n : ℕ) (w : State)
      → nelems ≤ (wait_all_pass m size op status values nelems 0 n w).0
      → wait_all_loop m size op status values (suc fuel) nelems n w
        ≡ some (wait_all_pass m size op status values nelems 0 n w).1
  unfolding wait_all_loop
  loop_done fuel nelems n w h = rw (not_below _ nelems h) refl
    where
      not_below : (a b : ℕ) → b ≤ a → ltb a b ≡ false
      not_below a b h = ground arith

  loop_again :
      (fuel nelems n : ℕ) (w : State)
      → (wait_all_pass m size op status values nelems 0 n w).0 < nelems
      → wait_all_loop m size op status values (suc fuel) nelems n w
        ≡ wait_all_loop m size op status values fuel nelems
            (wait_all_pass m size op status values nelems 0 n w).0
            (wait_all_pass m size op status values nelems 0 n w).1
  unfolding wait_all_loop
  loop_again fuel nelems n w h = rw (lt→ltb _ nelems h) refl

  loop_early :
      (fuel nelems n k : ℕ) (w : State)
      → ((w : State) → Holds m size op status values w k)
      → k < nelems
      → nelems ≤ n + fuel
      → 0 < fuel
      → (w' : State) × (wait_all_loop m size op status values fuel nelems n w ≡ some w')
  loop_early zero nelems n k w always lt enough pos = absurd (omega arith)
  loop_early (suc fuel) nelems n k w always lt enough pos =
      let counted = pass_gt nelems 0 n k w always (omega arith) (omega arith) in
      elim (dec_lt (wait_all_pass m size op status values nelems 0 n w).0 nelems) [
        | no big ↦ (_, loop_done fuel nelems n w (omega arith))
        | yes small ↦
            let (w', e) =
              loop_early fuel nelems _ k (wait_all_pass m size op status values nelems 0 n w).1
                always lt (omega arith) (omega arith) in
            (w', loop_again fuel nelems n w small ∙ e)
      ]

  -- `wait_until_all` counts on from one pass to the next: where one element satisfies the test
  -- throughout, it returns after as many passes as there are elements, whatever the others hold.
  pub ctx_wait_until_all_early :
      (nelems k : ℕ) (w : State)
      → ((w : State) → Holds m size op status values w k)
      → k < nelems
      → (w' : State) × (ctx_wait_until_all_vector m size op status values nelems nelems w ≡ some w')
  unfolding ctx_wait_until_all_vector
  ctx_wait_until_all_early nelems k w always lt =
      loop_early nelems nelems 0 k w always lt (omega arith) (omega arith)

  module _ (still : (w : State) (i : ℕ) → read (progress w) i ≡ read w i) where
    -- Nothing arrives during the call, and the tests see one memory.
    after_test-read : (w : State) (i j : ℕ) → read (after_test w i) j ≡ read w j
    unfolding after_test
    after_test-read w i j = ground (arith, still w j)

    counts_after : (w : State) (i j : ℕ) → counts (after_test w i) j ≡ counts w j
    counts_after w i j = rw (after_test-read w i j)

    test_all_loop-le :
        (left i n : ℕ) (w : State)
        → n + left < 2 ^ 31
        → (test_all_loop m size op status values left i n w).0 ≤ n + left
    unfolding test_all_loop
    test_all_loop-le zero i n w few = omega arith
    test_all_loop-le (suc left) i n w few =
        rw (test_round left i n w) (elim (Bool-cases (counts w i)) [
          | inl here ↦
              let next : u32 (n + 1) ≡ n + 1 = omega arith in
              rw (here, next)
                (omega
                  (arith, test_all_loop-le left (suc i) (n + 1) (after_test w i) (omega arith)))
          | inr out ↦
              rw out (omega (arith, test_all_loop-le left (suc i) n (after_test w i) (omega arith)))
        ])

    as_size : {n : ℕ} (k : ℕ) → k ≤ n → n < 2 ^ 31 → size_of_int k ≡ k
    as_size k le few = ground (arith, le, few)

    full_of_all :
        (left i n : ℕ) (w : State)
        → n + left < 2 ^ 31
        → ((j : ℕ) → i ≤ j → j < i + left → counts w j ≡ true)
        → (test_all_loop m size op status values left i n w).0 ≡ n + left
    unfolding test_all_loop
    full_of_all zero i n w few all = omega arith
    full_of_all (suc left) i n w few all =
        let here : counts w i ≡ true = all i (omega arith) (omega arith) in
        let rest =
          full_of_all left (suc i) (n + 1) (after_test w i) (omega arith)
            (λ j lo hi. counts_after w i j ∙ all j (omega arith) (omega arith)) in
        let next : u32 (n + 1) ≡ n + 1 = omega arith in
        rw (test_round left i n w, here, next) (omega (arith, rest))

    all_of_full :
        (left i n j : ℕ) (w : State)
        → n + left < 2 ^ 31
        → (test_all_loop m size op status values left i n w).0 ≡ n + left
        → i ≤ j
        → j < i + left
        → counts w j ≡ true
    all_of_full zero i n j w few full lo hi = absurd (omega arith)
    all_of_full (suc left) i n j w few full lo hi =
        let full' = rw (test_round left i n w) at full in
        elim (Bool-cases (counts w i)) [
          | inr out ↦
              let short = rw out at full' in
              absurd (
                omega
                  (arith, short, test_all_loop-le left (suc i) n (after_test w i) (omega arith)))
          | inl here ↦ elim (ℕ_discrete i j) [
            | yes same ↦ rw (← same) here
            | no ne ↦
                let next : u32 (n + 1) ≡ n + 1 = omega arith in
                let rest = rw (here, next) at full' in
                sym (counts_after w i j)
                ∙ all_of_full left (suc i) (n + 1) j (after_test w i) (omega arith)
                    (omega (arith, rest)) (omega arith) (omega arith)
          ]
        ]

    -- Where nothing arrives during the call, on less than 2 ^ 31 elements, `test_all` answers 1 exactly if no element is left out by
    -- its status and all satisfy the test: with one left out it always answers 0.
    pub ctx_test_all_iff :
        (nelems : ℕ) (w : State)
        → nelems < 2 ^ 31
        → ((ctx_test_all_vector m size op status values nelems w).0 ≡ true)
          ↔ ((j : ℕ) → j < nelems → Holds m size op status values w j)
    unfolding ctx_test_all_vector
    ctx_test_all_iff nelems w few =
        let whole = as_size _ (test_all_loop-le nelems 0 0 w (omega arith)) (omega arith) in
        (
          λ e j lt. (counts_iff w j).0 (
              all_of_full nelems 0 0 j w (omega arith) (omega (arith, whole, (==_iff _ nelems).0 e))
                (omega arith) (omega arith)),
          λ all. (==_iff _ nelems).1 (
              omega (
                arith,
                whole,
                full_of_all nelems 0 0 w (omega arith)
                    (λ j lo hi. (counts_iff w j).1 (all j (omega arith))),
              )),
        )
