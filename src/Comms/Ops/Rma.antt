-- ===== src/Comms/Ops/Rma.antt =====
-- osss-ucx/src/shmemc/ucx/comms.c: ordering, puts and gets, puts with a signal, and pointers to
-- remote memory.
use paw.Prelude.{ℕ, ◌==◌, Option, none, some, if◌then◌else◌}
use paw.Comms.Address.{Proc, ctx_ptr_self_check}
use paw.Comms.Ucx.{Ucx, ucs_ok, ucs_inprogress, ucs_err}
use paw.Comms.Ops.{
  Outcome, returns, fatal, ◌>>=◌, assert_ok, assert_started, Context, check_wait_for_request,
  get_remote_key_and_addr, lookup_ucp_ep, SignalOp, signal_set, signal_add, unknown_signal,
}
use paw.Comms.Ops.Atomics.{ctx_set, ctx_add}

module _ (u : Ucx) where
  open u use {World, worker_fence, worker_flush_nb, worker_progress}

  -- `none` is SHMEM_CTX_INVALID.
  pub ctx_fence : Option (Context u) → World → Outcome World
  ctx_fence none w = returns w
  ctx_fence (some ch) w =
      let (s, w') = worker_fence w in if ch.nostore then returns w else assert_ok s w'

  pub ctx_quiet : ℕ → Option (Context u) → World → Outcome World
  unfolding check_wait_for_request
  ctx_quiet fuel none w = returns w
  ctx_quiet fuel (some ch) w =
      let (sp, w') = worker_flush_nb w in
      let flushed = check_wait_for_request u fuel w' sp >>= λ r. assert_ok r.0 r.1 in
      if ch.nostore then returns w else flushed

  pub ctx_fence_test : Option (Context u) → World → Outcome (ℕ × World)
  unfolding ctx_fence
  ctx_fence_test ctx w = do w' ← ctx_fence ctx w; returns (1, w')

  pub ctx_quiet_test : ℕ → Option (Context u) → World → Outcome (ℕ × World)
  unfolding ctx_quiet
  ctx_quiet_test fuel ctx w = do w' ← ctx_quiet fuel ctx w; returns (1, w')

  -- `shmemc_ctx_progress`, and `shmemc_progress` on the default context
  pub ctx_progress : World → World
  ctx_progress w = worker_progress w

module _ (u : Ucx) (p : Proc) where
  open u use {World, put_nb, get_nb, put_nbi, get_nbi, rkey_ptr}

  pub ctx_ptr_remote_check : Context u → ℕ → ℕ → Outcome (Option ℕ)
  unfolding get_remote_key_and_addr
  ctx_ptr_remote_check ch addr pe = do
    (r_key, r_addr) ← get_remote_key_and_addr u p ch addr pe
    let found = rkey_ptr r_key r_addr
    returns (elim found.0 [ ucs_ok ↦ some found.1 | ucs_inprogress ↦ none | ucs_err e ↦ none ])

  pub ctx_ptr : Context u → ℕ → ℕ → Outcome (Option ℕ)
  unfolding ctx_ptr_remote_check
  ctx_ptr ch addr pe =
      if pe == p.rank then returns (ctx_ptr_self_check p addr) else ctx_ptr_remote_check ch addr pe

  pub ctx_put : ℕ → Context u → ℕ → ℕ → ℕ → ℕ → World → Outcome World
  unfolding get_remote_key_and_addr lookup_ucp_ep check_wait_for_request
  ctx_put fuel ch dest src nbytes pe w = do
    (r_key, r_dest) ← get_remote_key_and_addr u p ch dest pe
    let issued = put_nb w (lookup_ucp_ep u ch pe) src nbytes r_dest r_key
    (s, w') ← check_wait_for_request u fuel issued.1 issued.0
    assert_ok s w'

  pub ctx_get : ℕ → Context u → ℕ → ℕ → ℕ → ℕ → World → Outcome World
  unfolding get_remote_key_and_addr lookup_ucp_ep check_wait_for_request
  ctx_get fuel ch dest src nbytes pe w = do
    (r_key, r_src) ← get_remote_key_and_addr u p ch src pe
    let issued = get_nb w (lookup_ucp_ep u ch pe) dest nbytes r_src r_key
    (s, w') ← check_wait_for_request u fuel issued.1 issued.0
    assert_ok s w'

  pub ctx_put_nbi : Context u → ℕ → ℕ → ℕ → ℕ → World → Outcome World
  unfolding get_remote_key_and_addr lookup_ucp_ep
  ctx_put_nbi ch dest src nbytes pe w = do
    (r_key, r_dest) ← get_remote_key_and_addr u p ch dest pe
    let issued = put_nbi w (lookup_ucp_ep u ch pe) src nbytes r_dest r_key
    assert_started issued.0 issued.1

  pub ctx_get_nbi : Context u → ℕ → ℕ → ℕ → ℕ → World → Outcome World
  unfolding get_remote_key_and_addr lookup_ucp_ep
  ctx_get_nbi ch dest src nbytes pe w = do
    (r_key, r_src) ← get_remote_key_and_addr u p ch src pe
    let issued = get_nbi w (lookup_ucp_ep u ch pe) dest nbytes r_src r_key
    assert_started issued.0 issued.1

  -- The signal goes out behind the data: `zap` is the local word that `shmemc_ctx_set` drops into.
  pub ctx_put_signal : ℕ → Context u → ℕ → ℕ → ℕ → ℕ → ℕ → SignalOp → ℕ → ℕ → World → Outcome World
  ctx_put_signal fuel ch dest src nbytes sig_addr signal sig_op pe zap w = do
    w1 ← ctx_put fuel ch dest src nbytes pe w
    w2 ← ctx_fence u (some ch) w1
    elim sig_op [
      | signal_set ↦ ctx_set u p fuel ch sig_addr signal 8 pe zap w2
      | signal_add ↦ ctx_add u p ch sig_addr signal 8 pe w2
      | unknown_signal ↦ fatal
    ]

  -- "just use blocking implementation for testing"
  pub ctx_put_signal_nbi :
      ℕ → Context u → ℕ → ℕ → ℕ → ℕ → ℕ → SignalOp → ℕ → ℕ → World → Outcome World
  ctx_put_signal_nbi fuel ch dest src nbytes sig_addr signal sig_op pe zap w = do
    w1 ← ctx_put fuel ch dest src nbytes pe w
    w2 ← ctx_fence u (some ch) w1
    elim sig_op [
      | signal_set ↦ ctx_set u p fuel ch sig_addr signal 8 pe zap w2
      | signal_add ↦ ctx_add u p ch sig_addr signal 8 pe w2
      | unknown_signal ↦ fatal
    ]
