-- ===== src/Shcoll/Exchange.antt =====
-- osss-ucx/src/shcoll/src/alltoall.c and fcollect.c: the exchanges that count. Every member puts a
-- block to each peer, copies its own, fences, increments the word of each peer, and waits until its
-- own word has counted the others.
pub mod Memory
pub mod Pending
pub mod Counts
pub mod Invariant
pub mod Steps
pub mod Moves
pub mod Runs
pub mod Delivery
pub mod Results
use paw.Prelude.{ℕ, zero, suc, ◌+◌, ◌-◌, ◌*◌, List, [], ◌∷◌, ◌++◌}
use paw.Sync.{cmp_eq}
use paw.Shcoll.{Act, wait_until, long_p, atomic_inc, putmem_nbi, memcpy, fence, ActiveSet, pe_of}
use paw.Shcoll.Barrier.{for_each}

-- `src b` is where the block for member `b` starts on every member; `peer i a` is whom member `a`
-- meets in round `i`.
module _ (peer : ℕ → ℕ → ℕ) (dest nelems : ℕ → ℕ) (src : ℕ → ℕ) (active : ActiveSet) where
  abbrev pub put_to : ℕ → ℕ → Act
  put_to a i = putmem_nbi (dest a) (src (peer i a)) (nelems a) (pe_of active (peer i a))

  abbrev pub poke : ℕ → ℕ → Act
  poke a i = atomic_inc 0 (pe_of active (peer i a))

  abbrev pub after_fence : ℕ → List Act
  after_fence a =
      for_each (active.pe_size - 1) 1 (poke a)
      ++ (wait_until 0 cmp_eq (active.pe_size - 1) ∷ long_p 0 0 (pe_of active a) ∷ [])

  unfoldable pub counted_exchange : ℕ → List Act
  counted_exchange a =
      for_each (active.pe_size - 1) 1 (put_to a)
      ++ (memcpy (dest a) (src a) (nelems a) ∷ fence ∷ after_fence a)
