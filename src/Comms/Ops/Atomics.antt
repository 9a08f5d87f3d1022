-- ===== src/Comms/Ops/Atomics.antt =====
-- osss-ucx/src/shmemc/ucx/comms.c: the atomic operations of a context. Where a status is dropped, so
-- it is here.
use paw.Prelude.{ℕ}
use paw.Comms.Address.{Proc}
use paw.Comms.Ucx.{Ucx, AtomicOp, op_add, op_swap, op_cswap, op_and, op_or, op_xor}
use paw.Comms.Ops.{
  Outcome, returns, ◌>>=◌, assert_ok, assert_request, Context, helper_posted_amo,
  helper_fetching_amo, helper_fetching_amo_nbi,
}

-- `and`, `or` and `xor`, for which macros write the functions.
pub data Bitwise : Type 0 where
  bitwise_and bitwise_or bitwise_xor : Bitwise

abbrev pub bitwise_op : Bitwise → AtomicOp
bitwise_op bitwise_and = op_and
bitwise_op bitwise_or = op_or
bitwise_op bitwise_xor = op_xor

module _ (u : Ucx) (p : Proc) where
  open u use {World, fill_buffer}

  unfoldable pub ctx_add : Context u → ℕ → ℕ → ℕ → ℕ → World → Outcome World
  unfolding helper_posted_amo
  ctx_add ch t value vs pe w = do
    (s, w') ← helper_posted_amo u p ch op_add t value vs pe w
    returns w'

  unfoldable pub ctx_fadd : ℕ → Context u → ℕ → ℕ → ℕ → ℕ → ℕ → World → Outcome World
  unfolding helper_fetching_amo
  ctx_fadd fuel ch t value vs pe retp w = do
    (s, w') ← helper_fetching_amo u p fuel ch op_add t value vs pe retp w
    returns w'

  pub ctx_fadd_nbi : Context u → ℕ → ℕ → ℕ → ℕ → ℕ → World → Outcome World
  unfolding helper_fetching_amo_nbi
  ctx_fadd_nbi ch t value vs pe retp w = do
    (sp, w') ← helper_fetching_amo_nbi u p ch op_add t value vs pe retp w
    returns w'

  unfoldable pub ctx_swap : ℕ → Context u → ℕ → ℕ → ℕ → ℕ → ℕ → World → Outcome World
  unfolding helper_fetching_amo
  ctx_swap fuel ch t value vs pe retp w = do
    (s, w') ← helper_fetching_amo u p fuel ch op_swap t value vs pe retp w
    assert_ok s w'

  -- The result buffer is primed with the value to store; the operand is the word expected.
  unfoldable pub ctx_cswap : ℕ → Context u → ℕ → ℕ → ℕ → ℕ → ℕ → ℕ → World → Outcome World
  unfolding helper_fetching_amo
  ctx_cswap fuel ch t cond value vs pe retp w = do
    (s, w') ←
        helper_fetching_amo u p fuel ch op_cswap t cond vs pe retp (fill_buffer w retp value vs)
    assert_ok s w'

  pub ctx_swap_nbi : Context u → ℕ → ℕ → ℕ → ℕ → ℕ → World → Outcome World
  unfolding helper_fetching_amo_nbi
  ctx_swap_nbi ch t value vs pe retp w = do
    (sp, w') ← helper_fetching_amo_nbi u p ch op_swap t value vs pe retp w
    assert_request sp w'

  pub ctx_cswap_nbi : Context u → ℕ → ℕ → ℕ → ℕ → ℕ → ℕ → World → Outcome World
  unfolding helper_fetching_amo_nbi
  ctx_cswap_nbi ch t cond value vs pe retp w = do
    (sp, w') ←
        helper_fetching_amo_nbi u p ch op_cswap t cond vs pe retp (fill_buffer w retp value vs)
    assert_request sp w'

  pub helper_atomic_fetch_bitwise :
      Bitwise → ℕ → Context u → ℕ → ℕ → ℕ → ℕ → ℕ → World → Outcome World
  unfolding helper_fetching_amo
  helper_atomic_fetch_bitwise op fuel ch t value vs pe retp w = do
    (s, w') ← helper_fetching_amo u p fuel ch (bitwise_op op) t value vs pe retp w
    assert_ok s w'

  pub helper_atomic_fetch_bitwise_nbi :
      Bitwise → Context u → ℕ → ℕ → ℕ → ℕ → ℕ → World → Outcome World
  unfolding helper_fetching_amo_nbi
  helper_atomic_fetch_bitwise_nbi op ch t value vs pe retp w = do
    (sp, w') ← helper_fetching_amo_nbi u p ch (bitwise_op op) t value vs pe retp w
    assert_request sp w'

  pub helper_atomic_bitwise : Bitwise → Context u → ℕ → ℕ → ℕ → ℕ → World → Outcome World
  unfolding helper_posted_amo
  helper_atomic_bitwise op ch t value vs pe w = do
    (s, w') ← helper_posted_amo u p ch (bitwise_op op) t value vs pe w
    assert_ok s w'

  unfoldable pub ctx_fetch_bitwise :
      Bitwise → ℕ → Context u → ℕ → ℕ → ℕ → ℕ → ℕ → World → Outcome World
  unfolding helper_atomic_fetch_bitwise
  ctx_fetch_bitwise op fuel ch t value vs pe retp w =
      helper_atomic_fetch_bitwise op fuel ch t value vs pe retp w

  pub ctx_bitwise : Bitwise → Context u → ℕ → ℕ → ℕ → ℕ → World → Outcome World
  unfolding helper_atomic_bitwise
  ctx_bitwise op ch t value vs pe w = helper_atomic_bitwise op ch t value vs pe w

  -- A swap whose result goes to a local `zap`.
  unfoldable pub ctx_set : ℕ → Context u → ℕ → ℕ → ℕ → ℕ → ℕ → World → Outcome World
  unfolding ctx_swap
  ctx_set fuel ch tp value vs pe zap w = ctx_swap fuel ch tp value vs pe zap w

  unfoldable pub ctx_fetch : ℕ → Context u → ℕ → ℕ → ℕ → ℕ → World → Outcome World
  unfolding ctx_fadd
  ctx_fetch fuel ch tp ts pe valp w = ctx_fadd fuel ch tp 0 ts pe valp w

  pub ctx_fetch_nbi : Context u → ℕ → ℕ → ℕ → ℕ → World → Outcome World
  unfolding ctx_fadd_nbi
  ctx_fetch_nbi ch tp ts pe valp w = ctx_fadd_nbi ch tp 0 ts pe valp w
