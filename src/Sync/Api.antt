-- ===== src/Sync/Api.antt =====
-- osss-ucx/src/api/test*.c, wait*.c: the typed functions, which choose the operator by its code. They
-- are macros over the type and its size.
use paw.Prelude.{ℕ, zero, suc, Bool, Option, none, some, List}
use paw.Sync.{
  Cmp, cmp_eq, cmp_ne, cmp_gt, cmp_le, cmp_lt, cmp_ge, Memory, ctx_test, ctx_test_all,
  ctx_test_some, ctx_test_any, ctx_test_all_vector, ctx_test_some_vector, ctx_test_any_vector,
  ctx_wait_until, ctx_wait_until_all, ctx_wait_until_some, ctx_wait_until_any,
  ctx_wait_until_all_vector, ctx_wait_until_some_vector, ctx_wait_until_any_vector,
}

-- SHMEM_CMP_EQ is 0, and the others follow.
unfoldable pub cmp_of_code : ℕ → Option Cmp
cmp_of_code zero = some cmp_eq
cmp_of_code (suc zero) = some cmp_ne
cmp_of_code (suc (suc zero)) = some cmp_gt
cmp_of_code (suc (suc (suc zero))) = some cmp_le
cmp_of_code (suc (suc (suc (suc zero)))) = some cmp_lt
cmp_of_code (suc (suc (suc (suc (suc zero))))) = some cmp_ge
cmp_of_code (suc (suc (suc (suc (suc (suc n)))))) = none

-- What a call comes to: an unknown code ends the program; a wait with too little fuel still waits.
pub data Result {ℓ} (A : Type ℓ) : Type ℓ where
  ok : A → Result A
  fatal : Result A
  waiting : Result A

abbrev pub waited {ℓ} : {A : Type ℓ} → Option A → Result A
waited none = waiting
waited (some a) = ok a

-- `switch (cmp)`
abbrev pub dispatch {ℓ} : {A : Type ℓ} → ℕ → (Cmp → Result A) → Result A
dispatch code f = elim (cmp_of_code code) [ none ↦ fatal | some op ↦ f op ]

module _ (m : Memory) (size : ℕ) where
  open m use {State, read}

  pub test : ℕ → State → ℕ → ℕ → Result (Bool × State)
  test cmp w ivar cmp_value = dispatch cmp (λ op. ok (ctx_test m size op w ivar cmp_value))

  pub test_all : Option (ℕ → ℕ) → ℕ → ℕ → ℕ → State → Result (Bool × State)
  test_all status cmp cmp_value nelems w =
      dispatch cmp (λ op. ok (ctx_test_all m size op status cmp_value nelems w))

  pub test_some : Option (ℕ → ℕ) → ℕ → ℕ → ℕ → State → Result (List ℕ × State)
  test_some status cmp cmp_value nelems w =
      dispatch cmp (λ op. ok (ctx_test_some m size op status cmp_value nelems w))

  pub test_any : Option (ℕ → ℕ) → ℕ → ℕ → ℕ → State → Result (ℕ × State)
  test_any status cmp cmp_value nelems w =
      dispatch cmp (λ op. ok (ctx_test_any m size op status cmp_value nelems w))

  pub test_all_vector : Option (ℕ → ℕ) → ℕ → (ℕ → ℕ) → ℕ → State → Result (Bool × State)
  test_all_vector status cmp cmp_values nelems w =
      dispatch cmp (λ op. ok (ctx_test_all_vector m size op status cmp_values nelems w))

  pub test_some_vector : Option (ℕ → ℕ) → ℕ → (ℕ → ℕ) → ℕ → State → Result (List ℕ × State)
  test_some_vector status cmp cmp_values nelems w =
      dispatch cmp (λ op. ok (ctx_test_some_vector m size op status cmp_values nelems w))

  pub test_any_vector : Option (ℕ → ℕ) → ℕ → (ℕ → ℕ) → ℕ → State → Result (ℕ × State)
  test_any_vector status cmp cmp_values nelems w =
      dispatch cmp (λ op. ok (ctx_test_any_vector m size op status cmp_values nelems w))

  pub wait_until : ℕ → ℕ → State → ℕ → ℕ → Result State
  wait_until cmp fuel w ivar cmp_value =
      dispatch cmp (λ op. waited (ctx_wait_until m size op fuel w ivar cmp_value))

  pub wait_until_all : Option (ℕ → ℕ) → ℕ → ℕ → ℕ → ℕ → State → Result State
  wait_until_all status cmp cmp_value fuel nelems w =
      dispatch cmp (λ op. waited (ctx_wait_until_all m size op status cmp_value fuel nelems w))

  pub wait_until_some : Option (ℕ → ℕ) → ℕ → ℕ → ℕ → ℕ → State → Result (List ℕ × State)
  wait_until_some status cmp cmp_value fuel nelems w =
      dispatch cmp (λ op. waited (ctx_wait_until_some m size op status cmp_value fuel nelems w))

  pub wait_until_any : Option (ℕ → ℕ) → ℕ → ℕ → ℕ → ℕ → State → Result (ℕ × State)
  wait_until_any status cmp cmp_value fuel nelems w =
      dispatch cmp (λ op. waited (ctx_wait_until_any m size op status cmp_value fuel nelems w))

  pub wait_until_all_vector : Option (ℕ → ℕ) → ℕ → (ℕ → ℕ) → ℕ → ℕ → State → Result State
  wait_until_all_vector status cmp cmp_values fuel nelems w =
      dispatch cmp
        (λ op. waited (ctx_wait_until_all_vector m size op status cmp_values fuel nelems w))

  pub wait_until_some_vector :
      Option (ℕ → ℕ) → ℕ → (ℕ → ℕ) → ℕ → ℕ → State → Result (List ℕ × State)
  wait_until_some_vector status cmp cmp_values fuel nelems w =
      dispatch cmp
        (λ op. waited (ctx_wait_until_some_vector m size op status cmp_values fuel nelems w))

  pub wait_until_any_vector : Option (ℕ → ℕ) → ℕ → (ℕ → ℕ) → ℕ → ℕ → State → Result (ℕ × State)
  wait_until_any_vector status cmp cmp_values fuel nelems w =
      dispatch cmp
        (λ op. waited (ctx_wait_until_any_vector m size op status cmp_values fuel nelems w))

-- `shmem_signal_wait_until`: the wait on a 64-bit word, and the word read behind it.
pub signal_wait_until : (m : Memory) → ℕ → ℕ → m.State → ℕ → ℕ → Result (ℕ × m.State)
unfolding wait_until
signal_wait_until m cmp fuel w sig_addr cmp_value =
    elim (wait_until m 64 cmp fuel w sig_addr cmp_value) [
      | ok w' ↦ ok (m.read w' sig_addr, w')
      | fatal ↦ fatal
      | waiting ↦ waiting
    ]
