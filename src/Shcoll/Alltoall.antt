-- ===== src/Shcoll/Alltoall.antt =====
-- osss-ucx/src/shcoll/src/alltoall.c: each member of an active set sends a block to each other one.
-- The macros take a function for the peer of each round, and an assertion on the size of the set.
pub mod Peers
pub mod Counter
mod Tests
use paw.Prelude.{
  ℕ, zero, suc, ◌+◌, ◌-◌, ◌*◌, ◌/◌, ◌%◌, ◌^◌, Bool, true, false, ◌&&◌, Option, none, some, List, [],
  ◌∷◌, ◌++◌, bit_and, bit_xor, ltb, leb, ◌==◌, if◌then◌else◌,
}
use paw.Sync.{Cmp, cmp_eq, cmp_gt}
use paw.Shcoll.{
  Act, wait_until, long_p, atomic_inc, putmem_nbi, memcpy, fence, ActiveSet, pe_of, index_of,
  putmem_signal_nb,
}
use paw.Shcoll.Barrier.{for_each, shcoll_barrier, helper_binomial_tree}

-- -1 is `none`.
pub edge_color : ℕ → ℕ → ℕ → Option ℕ
edge_color i me npes =
    let chr_idx = if npes % 2 == 1 then npes else npes - 1 in
    let v =
      if ltb me chr_idx
      then (i + chr_idx - me) % chr_idx
      else if i % 2 == 1
      then (i + chr_idx) / 2 % chr_idx
      else i / 2 in
    if npes % 2 == 1 && v == me then none else if v == me then some chr_idx else some v

unfoldable pub shift_peer : ℕ → ℕ → ℕ → ℕ
shift_peer i me npes = (me + i) % npes

pub xor_peer : ℕ → ℕ → ℕ → ℕ
xor_peer i me npes = bit_xor i me

-- The assertion on the size keeps -1 out.
pub color_peer : ℕ → ℕ → ℕ → ℕ
unfolding edge_color
color_peer i me npes = elim (edge_color i me npes) [ none ↦ 0 | some peer ↦ peer ]

unfoldable pub shift_cond : ℕ → Bool
shift_cond npes = true

pub xor_cond : ℕ → Bool
xor_cond npes = bit_and (npes - 1) npes == 0

pub color_cond : ℕ → Bool
color_cond npes = npes % 2 == 0

-- What the signal variants assert further: SHCOLL_ALLTOALL_SYNC_SIZE is 64.
abbrev sync_size_cond : ℕ → Bool
sync_size_cond npes = leb (npes - 1) 64

-- One of the three helpers, with its sizes in bytes; `none` is a failed assertion.
module _ (peer : ℕ → ℕ → ℕ → ℕ) (cond : ℕ → Bool) (dest source nelems : ℕ) (active : ActiveSet)
    (me : ℕ) where
  me_as : ℕ
  me_as = index_of active me

  -- The put of round `i`, from the block of the peer to the place of this member.
  pub put_block : ℕ → Act
  unfolding me_as
  put_block i =
      let peer_as = peer i me_as active.pe_size in
      putmem_nbi (dest + me_as * nelems) (source + peer_as * nelems) nelems (pe_of active peer_as)

  pub own_block : Act
  unfolding me_as
  own_block = memcpy (dest + me_as * nelems) (source + me_as * nelems) nelems

  barrier_rounds : ℕ → ℕ → ℕ → List Act
  unfolding put_block
  barrier_rounds rounds_sync zero i = []
  barrier_rounds rounds_sync (suc left) i =
      put_block i
      ∷ ((if i % rounds_sync == 0 then shcoll_barrier helper_binomial_tree active me else [])
          ++ barrier_rounds rounds_sync left (suc i))

  pub alltoall_helper_barrier : ℕ → Option (List Act)
  unfolding barrier_rounds own_block
  alltoall_helper_barrier rounds_sync =
      if cond active.pe_size
      then some (
          own_block
          ∷ (barrier_rounds rounds_sync (active.pe_size - 1) 1
              ++ shcoll_barrier helper_binomial_tree active me))
      else none

  pub alltoall_helper_counter : Option (List Act)
  unfolding put_block own_block me_as
  alltoall_helper_counter =
      if cond active.pe_size
      then some (
          for_each (active.pe_size - 1) 1 put_block
          ++ (own_block
              ∷ fence
              ∷ (for_each (active.pe_size - 1) 1
                    (λ i. atomic_inc 0 (pe_of active (peer i me_as active.pe_size)))
                  ++ (wait_until 0 cmp_eq (active.pe_size - 1) ∷ long_p 0 0 me ∷ []))))
      else none

  signal_puts : ℕ → ℕ → List Act
  unfolding me_as putmem_signal_nb
  signal_puts zero i = []
  signal_puts (suc left) i =
      let peer_as = peer i me_as active.pe_size in
      putmem_signal_nb (dest + me_as * nelems) (source + peer_as * nelems) nelems (i - 1) 1
        (pe_of active peer_as)
      ++ signal_puts left (suc i)

  signal_waits : ℕ → ℕ → List Act
  signal_waits zero i = []
  signal_waits (suc left) i =
      wait_until (i - 1) cmp_gt 0 ∷ long_p (i - 1) 0 me ∷ signal_waits left (suc i)

  pub alltoall_helper_signal : Option (List Act)
  unfolding signal_puts signal_waits own_block
  alltoall_helper_signal =
      if cond active.pe_size && sync_size_cond active.pe_size
      then some
          (signal_puts (active.pe_size - 1) 1 ++ (own_block ∷ signal_waits (active.pe_size - 1) 1))
      else none

-- `shcoll_alltoall<size>_<name>`: a helper on `nelems` elements of `size` bits.
pub shcoll_alltoall : (ℕ → Option (List Act)) → ℕ → ℕ → Option (List Act)
shcoll_alltoall helper size nelems = helper (size / 8 * nelems)
