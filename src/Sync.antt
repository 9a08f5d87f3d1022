-- ===== src/Sync.antt =====
-- osss-ucx/src/shmemc/ucx/test.c and waituntil.c: point-to-point synchronization on an array of
-- words. A word is kept as its bit pattern. The two loops of a test are macros over the size and the
-- operator; a list of values (`_vector`) is a function from index to value.
pub mod Api
pub mod Compare
pub mod All
pub mod Any
pub mod Some
mod Tests
use paw.Prelude.Words.{u32, size_of_int}
use paw.Prelude.{
  ℕ, zero, suc, ◌+◌, ◌-◌, ◌%◌, ◌^◌, Bool, true, false, not, ◌&&◌, Option, none, some, List, [], ◌∷◌,
  ◌++◌, ltb, leb, ◌==◌, if◌then◌else◌,
}

-- SHMEM_CMP_EQ to SHMEM_CMP_GE
pub data Cmp : Type 0 where
  cmp_eq cmp_ne cmp_gt cmp_le cmp_lt cmp_ge : Cmp

-- `a < b` between two `int##size##_t` with the given bit patterns.
pub slt : ℕ → ℕ → ℕ → Bool
slt size a b = ltb ((a + 2 ^ (size - 1)) % 2 ^ size) ((b + 2 ^ (size - 1)) % 2 ^ size)

-- `(*var) op (value)` of a pattern of `size` bits.
unfoldable pub compare_op : ℕ → Cmp → ℕ → ℕ → Bool
unfolding slt
compare_op size cmp_eq a b = a == b
compare_op size cmp_ne a b = not (a == b)
compare_op size cmp_gt a b = slt size b a
compare_op size cmp_le a b = not (slt size b a)
compare_op size cmp_lt a b = slt size a b
compare_op size cmp_ge a b = not (slt size a b)

-- The memory that others write to: `read` is an element of the array, `progress` is
-- `shmemc_progress`, and `idle` is `yielder`, or `ucp_worker_wait_mem` and then `yielder`.
pub record Memory : Type 1 where
  pub State : Type 0
  pub read : State → ℕ → ℕ
  pub progress : State → State
  pub idle : State → State

-- `(status != NULL) && (status[i] != 0)`
unfoldable pub skipped : Option (ℕ → ℕ) → ℕ → Bool
skipped none i = false
skipped (some status) i = not (status i == 0)

module _ (m : Memory) (size : ℕ) (op : Cmp) where
  open m use {State, read, progress, idle}

  -- `shmemc_ctx_test_<op><size>` on element `i`
  pub ctx_test : State → ℕ → ℕ → Bool × State
  ctx_test w i value =
      if compare_op size op (read w i) value then (true, w) else (false, progress w)

  -- `while (test == 0) { wait_mem; yielder; }`; `none` is a loop that still waits.
  pub ctx_wait_until : ℕ → State → ℕ → ℕ → Option State
  unfolding ctx_test
  ctx_wait_until zero w i value = none
  ctx_wait_until (suc fuel) w i value =
      let (found, w') = ctx_test w i value in
      let rest = ctx_wait_until fuel (idle w') i value in if found then some w' else rest

  module _ (status : Option (ℕ → ℕ)) (values : ℕ → ℕ) where
    -- `left` rounds of the loop of `test_all`, from element `i` on; `n` counts in an int.
    pub test_all_loop : ℕ → ℕ → ℕ → State → ℕ × State
    unfolding ctx_test
    test_all_loop zero i n w = (n, w)
    test_all_loop (suc left) i n w =
        let (found, w') = ctx_test w i (values i) in
        let next = if found then u32 (n + 1) else n in
        test_all_loop left (suc i) (if skipped status i then n else next)
          (if skipped status i then w else w')

    -- The indices that `test_some` writes to `idxs`, in the order of writing.
    pub test_some_loop : ℕ → ℕ → State → List ℕ × State
    unfolding ctx_test
    test_some_loop zero i w = ([], w)
    test_some_loop (suc left) i w =
        let (found, w') = ctx_test w i (values i) in
        let (rest, w'') = test_some_loop left (suc i) (if skipped status i then w else w') in
        (if skipped status i then rest else if found then i ∷ rest else rest, w'')

    -- The first index that `test_any` finds.
    pub test_any_loop : ℕ → ℕ → State → Option ℕ × State
    unfolding ctx_test
    test_any_loop zero i w = (none, w)
    test_any_loop (suc left) i w =
        let (found, w') = ctx_test w i (values i) in
        let rest = test_any_loop left (suc i) (if skipped status i then w else w') in
        if not (skipped status i) && found then (some i, w') else rest

    -- The same loops with `yielder` behind each test, as the waiting functions have them.
    pub wait_all_pass : ℕ → ℕ → ℕ → State → ℕ × State
    unfolding ctx_test
    wait_all_pass zero i n w = (n, w)
    wait_all_pass (suc left) i n w =
        let (found, w') = ctx_test w i (values i) in
        let next = if found then n + 1 else n in
        wait_all_pass left (suc i) (if skipped status i then n else next)
          (if skipped status i then w else idle w')

    pub wait_any_pass : ℕ → ℕ → State → Option ℕ × State
    unfolding ctx_test
    wait_any_pass zero i w = (none, w)
    wait_any_pass (suc left) i w =
        let (found, w') = ctx_test w i (values i) in
        let rest = wait_any_pass left (suc i) (if skipped status i then w else idle w') in
        if not (skipped status i) && found then (some i, w') else rest

    pub wait_some_pass : ℕ → ℕ → State → List ℕ × State
    unfolding ctx_test
    wait_some_pass zero i w = ([], w)
    wait_some_pass (suc left) i w =
        let (found, w') = ctx_test w i (values i) in
        let (rest, w'') = wait_some_pass left (suc i) (if skipped status i then w else idle w') in
        (if skipped status i then rest else if found then i ∷ rest else rest, w'')

    -- `do { pass } while (n < nelems)`: the count goes on from one pass to the next.
    pub wait_all_loop : ℕ → ℕ → ℕ → State → Option State
    wait_all_loop zero nelems n w = none
    wait_all_loop (suc fuel) nelems n w =
        let (n', w') = wait_all_pass nelems 0 n w in
        let rest = wait_all_loop fuel nelems n' w' in if ltb n' nelems then rest else some w'

    pub wait_any_loop : ℕ → ℕ → State → Option (ℕ × State)
    wait_any_loop zero nelems w = none
    wait_any_loop (suc fuel) nelems w =
        let (winner, w') = wait_any_pass nelems 0 w in
        let rest = wait_any_loop fuel nelems w' in
        elim winner [ some i ↦ some (i, w') | none ↦ rest ]

    -- The functions `..._all_vector`, `..._some_vector` and `..._any_vector`.
    pub ctx_test_all_vector : ℕ → State → Bool × State
    ctx_test_all_vector nelems w =
        let (n, w') = test_all_loop nelems 0 0 w in (size_of_int n == nelems, w')

    pub ctx_test_some_vector : ℕ → State → List ℕ × State
    ctx_test_some_vector nelems w = test_some_loop nelems 0 w

    pub ctx_test_any_vector : ℕ → State → ℕ × State
    ctx_test_any_vector nelems w =
        let (found, w') = test_any_loop nelems 0 w in
        (elim found as (λ _. ℕ) [ some i ↦ i | none ↦ 0 ], w')

    pub ctx_wait_until_all_vector : ℕ → ℕ → State → Option State
    ctx_wait_until_all_vector fuel nelems w = wait_all_loop fuel nelems 0 w

    pub ctx_wait_until_any_vector : ℕ → ℕ → State → Option (ℕ × State)
    ctx_wait_until_any_vector fuel nelems w = wait_any_loop fuel nelems w

    pub ctx_wait_until_some_vector : ℕ → ℕ → State → Option (List ℕ × State)
    ctx_wait_until_some_vector fuel nelems w = elim (wait_any_loop fuel nelems w) [
      | none ↦ none
      | some (i, w') ↦ some (wait_some_pass nelems 0 w')
    ]

  -- The same with one value for every element.
  pub ctx_test_all : Option (ℕ → ℕ) → ℕ → ℕ → State → Bool × State
  unfolding ctx_test_all_vector
  ctx_test_all status value nelems w = ctx_test_all_vector status (λ i. value) nelems w

  pub ctx_test_some : Option (ℕ → ℕ) → ℕ → ℕ → State → List ℕ × State
  unfolding ctx_test_some_vector
  ctx_test_some status value nelems w = ctx_test_some_vector status (λ i. value) nelems w

  pub ctx_test_any : Option (ℕ → ℕ) → ℕ → ℕ → State → ℕ × State
  unfolding ctx_test_any_vector
  ctx_test_any status value nelems w = ctx_test_any_vector status (λ i. value) nelems w

  pub ctx_wait_until_all : Option (ℕ → ℕ) → ℕ → ℕ → ℕ → State → Option State
  unfolding ctx_wait_until_all_vector
  ctx_wait_until_all status value fuel nelems w =
      ctx_wait_until_all_vector status (λ i. value) fuel nelems w

  pub ctx_wait_until_any : Option (ℕ → ℕ) → ℕ → ℕ → ℕ → State → Option (ℕ × State)
  unfolding ctx_wait_until_any_vector
  ctx_wait_until_any status value fuel nelems w =
      ctx_wait_until_any_vector status (λ i. value) fuel nelems w

  pub ctx_wait_until_some : Option (ℕ → ℕ) → ℕ → ℕ → ℕ → State → Option (List ℕ × State)
  unfolding ctx_wait_until_some_vector
  ctx_wait_until_some status value fuel nelems w =
      ctx_wait_until_some_vector status (λ i. value) fuel nelems w
