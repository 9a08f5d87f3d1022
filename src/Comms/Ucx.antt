-- ===== src/Comms/Ucx.antt =====
-- What comms.c calls of UCX, as a parameter: the functions of ucp.h that it uses, over a state of all
-- memories and requests. `Documented` holds what the UCX manual promises of them.
use paw.Prelude.{
  ℕ, zero, suc, ◌+◌, ◌*◌, ◌%◌, ◌^◌, ◌≡◌, ◌==◌, if◌then◌else◌, bit_and, bit_or, bit_xor,
}

-- `ucs_status_t`
pub data Status : Type 0 where
  ucs_ok : Status
  ucs_inprogress : Status
  ucs_err : ℕ → Status

-- `ucs_status_ptr_t`: NULL, an error, or the handle of a request under way.
pub data Request : Type 0 where
  completed : Request
  failed : ℕ → Request
  pending : ℕ → Request

-- `ucp_atomic_fetch_op_t` and `ucp_atomic_post_op_t`
pub data AtomicOp : Type 0 where
  op_add op_swap op_cswap op_and op_or op_xor : AtomicOp

-- The word of `size` bytes that an atomic leaves, from the word before, the operand, and (for a
-- conditional swap, whose operand is the word expected) what the result buffer held.
abbrev pub apply : AtomicOp → ℕ → ℕ → ℕ → ℕ → ℕ
apply op_add size old value primed = (old + value) % 2 ^ (8 * size)
apply op_swap size old value primed = value % 2 ^ (8 * size)
apply op_cswap size old value primed =
    if old == value % 2 ^ (8 * size) then primed % 2 ^ (8 * size) else old
apply op_and size old value primed = bit_and old value % 2 ^ (8 * size)
apply op_or size old value primed = bit_or old value % 2 ^ (8 * size)
apply op_xor size old value primed = bit_xor old value % 2 ^ (8 * size)

pub record Ucx : Type 1 where
  pub World : Type 0
  -- the second state is not before the first
  pub Later : World → World → Type 0
  pub Ep : Type 0
  pub Rkey : Type 0
  -- the word of `size` bytes at an address of a PE, and in a buffer of this one
  pub word : World → ℕ → ℕ → ℕ → ℕ
  pub buffer : World → ℕ → ℕ → ℕ
  pub fill_buffer : World → ℕ → ℕ → ℕ → World
  -- the PE that an endpoint connects to
  pub peer : Ep → ℕ
  pub atomic_post : World → Ep → AtomicOp → ℕ → ℕ → ℕ → Rkey → Status × World
  pub atomic_fetch_nb : World → Ep → AtomicOp → ℕ → ℕ → ℕ → ℕ → Rkey → Request × World
  pub put_nb : World → Ep → ℕ → ℕ → ℕ → Rkey → Request × World
  pub get_nb : World → Ep → ℕ → ℕ → ℕ → Rkey → Request × World
  pub put_nbi : World → Ep → ℕ → ℕ → ℕ → Rkey → Status × World
  pub get_nbi : World → Ep → ℕ → ℕ → ℕ → Rkey → Status × World
  pub worker_fence : World → Status × World
  pub worker_flush_nb : World → Request × World
  pub worker_progress : World → World
  pub request_check_status : World → ℕ → Status
  pub request_cancel : World → Request → World
  pub request_free : World → ℕ → World
  pub rkey_ptr : Rkey → ℕ → Status × ℕ

module _ (u : Ucx) where
  open u use {
    World, Later, Ep, Rkey, word, buffer, fill_buffer, peer, atomic_post, atomic_fetch_nb,
    worker_progress, request_check_status, request_free,
  }

  abbrev pub rounds : ℕ → World → World
  rounds zero w = w
  rounds (suc n) w = rounds n (worker_progress w)

  -- The request is seen to have completed well, after the progress calls that lead to `w'`.
  abbrev pub Observed : World → Request → World → Type 0
  Observed w completed w' = w' ≡ w
  Observed w (failed s) w' = ⊥
  Observed w (pending h) w' = (n : ℕ) × (w' ≡ rounds n w) × (request_check_status w' h ≡ ucs_ok)

  -- The order of states in time, and what ucp.h promises of the calls. Other PEs change the words at any
  -- time.
  pub record Documented : Type 0 where
    pub later_refl : (w : World) → Later w w
    pub later_trans : (a b c : World) → Later a b → Later b c → Later a c
    pub filled_later : (w : World) (addr value size : ℕ) → Later w (fill_buffer w addr value size)
    pub freed_later : (w : World) (h : ℕ) → Later w (request_free w h)
    -- An atomic that has completed well was done on the word at one time between its issue and its
    -- completion, and delivered the word from just before.
    pub atomic_fetched :
        (w : World) (ep : Ep) (op : AtomicOp) (value retp size raddr : ℕ) (key : Rkey) (w' : World)
        → Observed
            (atomic_fetch_nb w ep op value retp size raddr key).1
            (atomic_fetch_nb w ep op value retp size raddr key).0
            w'
        → (v v' : World) × Later w v
          × Later v v'
          × Later v' w'
          × (word v' (peer ep) raddr size
              ≡ apply op size (word v (peer ep) raddr size) value (buffer w retp size))
          × (buffer w' retp size ≡ word v (peer ep) raddr size)
    pub freed_buffer :
        (w : World) (h addr size : ℕ) → buffer (request_free w h) addr size ≡ buffer w addr size
    pub filled_buffer :
        (w : World) (addr value size : ℕ)
        → buffer (fill_buffer w addr value size) addr size ≡ value % 2 ^ (8 * size)
