-- ===== src/Sync/Some.antt =====
-- osss-ucx/src/shmemc/ucx/test.c: the indices that `test_some` writes.
use paw.Prelude.{
  ℕ, zero, suc, ◌+◌, ◌≤◌, ◌≡◌, refl, arith, Bool, true, false, not, ◌&&◌, ◌||◌, Option, List, [],
  ◌∷◌, ltb, leb, ◌==◌, if◌then◌else◌, Bool-cases, inl, inr, ℕ_discrete,
}
use paw.Sync.{Cmp, compare_op, Memory, skipped, ctx_test, test_some_loop, ctx_test_some_vector}

abbrev pub member : ℕ → List ℕ → Bool
member k [] = false
member k (x ∷ xs) = k == x || member k xs

-- Each index of the list is above `bound` and above the one before it.
abbrev pub IsIncreasing : ℕ → List ℕ → Type 0
IsIncreasing bound [] = Unit
IsIncreasing bound (x ∷ xs) = (bound ≤ x) × IsIncreasing (suc x) xs

IsIncreasing-weaken : (b c : ℕ) (xs : List ℕ) → b ≤ c → IsIncreasing c xs → IsIncreasing b xs
IsIncreasing-weaken b c [] le h = tt
IsIncreasing-weaken b c (x ∷ xs) le h = (omega (arith, h.0), h.1)

module _ (m : Memory) (size : ℕ) (op : Cmp) (status : Option (ℕ → ℕ)) (values : ℕ → ℕ) where
  open m use {State, read, progress}

  abbrev pub satisfies : State → ℕ → Bool
  satisfies w i = not (skipped status i) && compare_op size op (read w i) (values i)

  next_state : State → ℕ → State
  next_state w i =
      if skipped status i
      then w
      else if compare_op size op (read w i) (values i)
      then w
      else progress w

  some_round :
      (left i : ℕ) (w : State)
      → (test_some_loop m size op status values (suc left) i w).0 ≡ (
          if satisfies w i
          then i ∷ (test_some_loop m size op status values left (suc i) (next_state w i)).0
          else (test_some_loop m size op status values left (suc i) (next_state w i)).0)
  unfolding test_some_loop ctx_test next_state
  some_round left i w = elim (Bool-cases (skipped status i)) [
    | inl s ↦ rw s refl
    | inr s ↦ elim (Bool-cases (compare_op size op (read w i) (values i))) [
      | inl h ↦ rw (s, h) refl
      | inr h ↦ rw (s, h) refl
    ]
  ]

  test_some_loop-IsIncreasing :
      (left i : ℕ) (w : State) → IsIncreasing i (test_some_loop m size op status values left i w).0
  unfolding test_some_loop
  test_some_loop-IsIncreasing zero i w = tt
  test_some_loop-IsIncreasing (suc left) i w =
      let rest = test_some_loop-IsIncreasing left (suc i) (next_state w i) in
      rw (some_round left i w) (elim (Bool-cases (satisfies w i)) [
        | inl h ↦ rw h (omega arith, rest)
        | inr h ↦ rw h (IsIncreasing-weaken i (suc i) _ (omega arith) rest)
      ])

  -- Which indices are in the list, from `i` on.
  member_step :
      (left i k : ℕ) (here there : Bool) (xs : List ℕ)
      → member k xs ≡ (leb (suc i) k && ltb k (suc i + left) && there)
      → (k ≡ i → there ≡ here)
      → member k (if here then i ∷ xs else xs) ≡ (leb i k && ltb k (i + suc left) && there)
  member_step left i k true there xs e same = elim (ℕ_discrete k i) [
    | yes eq ↦ let q : there ≡ true = same eq in ground (arith, e, q)
    | no ne ↦ ground (arith, e)
  ]
  member_step left i k false there xs e same = elim (ℕ_discrete k i) [
    | yes eq ↦ let q : there ≡ false = same eq in ground (arith, e, q)
    | no ne ↦ ground (arith, e)
  ]

  module _ (still : (w : State) (i : ℕ) → read (progress w) i ≡ read w i) where
    satisfies_next : (w : State) (i j : ℕ) → satisfies (next_state w i) j ≡ satisfies w j
    unfolding next_state
    satisfies_next w i j = ground (arith, still w j)

    test_some_loop-member :
        (left i k : ℕ) (w : State)
        → member k (test_some_loop m size op status values left i w).0
          ≡ (leb i k && ltb k (i + left) && satisfies w k)
    unfolding test_some_loop
    test_some_loop-member zero i k w = ground arith
    test_some_loop-member (suc left) i k w =
        let rest = test_some_loop-member left (suc i) k (next_state w i) in
        let rest' = rw (satisfies_next w i k) at rest in
        rw (some_round left i w)
          (member_step left i k (satisfies w i) (satisfies w k) _ rest' (λ e. rw e refl))

    -- Where nothing arrives during the call, `test_some` writes the indices of exactly those elements
    -- that count and satisfy the test, each once and in increasing order.
    pub ctx_test_some_lists :
        (nelems k : ℕ) (w : State)
        → (member k (ctx_test_some_vector m size op status values nelems w).0
            ≡ (ltb k nelems && satisfies w k))
          × IsIncreasing 0 (ctx_test_some_vector m size op status values nelems w).0
    unfolding ctx_test_some_vector
    ctx_test_some_lists nelems k w =
        (ground (arith, test_some_loop-member nelems 0 k w), test_some_loop-IsIncreasing nelems 0 w)
