-- ===== src/Comms/Ops.antt =====
-- osss-ucx/src/shmemc/ucx/comms.c: waiting, ordering, atomics, puts and gets, in the build with
-- ENABLE_DEBUG, HAVE_UCP_PUT_NBX, HAVE_UCP_GET_NBX, HAVE_UCP_WORKER_FLUSH_NBX and
-- HAVE_UCP_BITWISE_ATOMICS. A failed `shmemu_assert` and `shmemu_fatal` end the program.
pub mod Wait
pub mod Atomics
pub mod Effect
mod Tests
pub mod Rma
use paw.Prelude.{
  ℕ, zero, suc, ◌+◌, ◌*◌, ◌%◌, ◌^◌, ◌≡◌, Bool, true, false, Option, none, some, ◌==◌, if◌then◌else◌,
}
use paw.Comms.Address.{Proc, lookup_region, translate_region_address, ctx_ptr_self_check}
use paw.Comms.Ucx.{
  Ucx, Status, ucs_ok, ucs_inprogress, ucs_err, Request, completed, failed, pending, AtomicOp,
  op_add, op_swap, op_cswap, op_and, op_or, op_xor,
}

-- What a call comes to: it returns with a new state, or the program ends, or (with too little fuel)
-- the loop is still waiting.
pub data Outcome {ℓ} (A : Type ℓ) : Type ℓ where
  returns : A → Outcome A
  fatal : Outcome A
  waiting : Outcome A

infixl 5 ◌>>=◌
abbrev pub ◌>>=◌ {ℓ κ} : {A : Type ℓ} {B : Type κ} → Outcome A → (A → Outcome B) → Outcome B
returns a >>= f = f a
fatal >>= f = fatal
waiting >>= f = waiting

-- `shmemu_assert(s == UCS_OK, ...)`
abbrev pub assert_ok {ℓ} : {A : Type ℓ} → Status → A → Outcome A
assert_ok ucs_ok a = returns a
assert_ok ucs_inprogress a = fatal
assert_ok (ucs_err e) a = fatal

-- `shmemu_assert(s == UCS_OK || s == UCS_INPROGRESS, ...)`
abbrev pub assert_started {ℓ} : {A : Type ℓ} → Status → A → Outcome A
assert_started ucs_ok a = returns a
assert_started ucs_inprogress a = returns a
assert_started (ucs_err e) a = fatal

-- `shmemu_assert(! UCS_PTR_IS_ERR(sp), ...)`
abbrev pub assert_request {ℓ} : {A : Type ℓ} → Request → A → Outcome A
assert_request completed a = returns a
assert_request (failed s) a = fatal
assert_request (pending h) a = returns a

-- SHMEM_SIGNAL_SET, SHMEM_SIGNAL_ADD, or a code that is neither.
pub data SignalOp : Type 0 where
  signal_set signal_add unknown_signal : SignalOp

module _ (u : Ucx) where
  open u use {
    World, Ep, Rkey, fill_buffer, atomic_post, atomic_fetch_nb, put_nb, get_nb, put_nbi, get_nbi,
    worker_fence, worker_flush_nb, worker_progress, request_check_status, request_cancel,
    request_free, rkey_ptr,
  }

  -- `shmemc_context_t`: the endpoints, the remote keys by region and PE, and the attribute that
  -- ordering reads.
  pub record Context : Type 0 where
    pub eps : ℕ → Ep
    pub racc : ℕ → ℕ → Rkey
    pub nostore : Bool

  pub lookup_ucp_ep : Context → ℕ → Ep
  lookup_ucp_ep ch pe = ch.eps pe

  pub lookup_rkey : Context → ℕ → ℕ → Rkey
  lookup_rkey ch region pe = ch.racc region pe

  -- `do { progress; check } while (s == UCS_INPROGRESS)`
  pub wait_loop : ℕ → World → ℕ → Outcome (Status × World)
  wait_loop zero w h = waiting
  wait_loop (suc fuel) w h =
      let w' = worker_progress w in
      let rest = wait_loop fuel w' h in
      elim (request_check_status w' h) [
        | ucs_ok ↦ returns (ucs_ok, request_free w' h)
        | ucs_inprogress ↦ rest
        | ucs_err e ↦ returns (ucs_err e, request_free w' h)
      ]

  pub check_wait_for_request : ℕ → World → Request → Outcome (Status × World)
  unfolding wait_loop
  check_wait_for_request fuel w completed = returns (ucs_ok, w)
  check_wait_for_request fuel w (failed e) = returns (ucs_err e, request_cancel w (failed e))
  check_wait_for_request fuel w (pending h) = wait_loop fuel w h

  module _ (p : Proc) where
    -- The remote key and the address on PE `pe`; an address in no region fails the assertion.
    pub get_remote_key_and_addr : Context → ℕ → ℕ → Outcome (Rkey × ℕ)
    unfolding lookup_rkey
    get_remote_key_and_addr ch local_addr pe = elim (lookup_region p local_addr) [
      | none ↦ fatal
      | some r ↦ returns (lookup_rkey ch r pe, translate_region_address p local_addr r pe)
    ]

    pub helper_posted_amo : Context → AtomicOp → ℕ → ℕ → ℕ → ℕ → World → Outcome (Status × World)
    unfolding get_remote_key_and_addr lookup_ucp_ep
    helper_posted_amo ch op t value vs pe w = do
      (r_key, r_t) ← get_remote_key_and_addr ch t pe
      returns (atomic_post w (lookup_ucp_ep ch pe) op value vs r_t r_key)

    pub helper_fetching_amo_internal :
        Context → AtomicOp → ℕ → ℕ → ℕ → ℕ → ℕ → World → Outcome (Request × World)
    unfolding get_remote_key_and_addr lookup_ucp_ep
    helper_fetching_amo_internal ch op t value vs pe retp w = do
      (r_key, r_t) ← get_remote_key_and_addr ch t pe
      returns (atomic_fetch_nb w (lookup_ucp_ep ch pe) op value retp vs r_t r_key)

    pub helper_fetching_amo :
        ℕ → Context → AtomicOp → ℕ → ℕ → ℕ → ℕ → ℕ → World → Outcome (Status × World)
    unfolding helper_fetching_amo_internal check_wait_for_request
    helper_fetching_amo fuel ch op t value vs pe retp w = do
      (sp, w') ← helper_fetching_amo_internal ch op t value vs pe retp w
      check_wait_for_request fuel w' sp

    pub helper_fetching_amo_nbi :
        Context → AtomicOp → ℕ → ℕ → ℕ → ℕ → ℕ → World → Outcome (Request × World)
    unfolding helper_fetching_amo_internal
    helper_fetching_amo_nbi ch op t value vs pe retp w =
        helper_fetching_amo_internal ch op t value vs pe retp w
