-- ===== src/Shcoll/Fcollect.antt =====
-- osss-ucx/src/shcoll/src/fcollect.c: a block of each member of an active set, in order, on all members.
-- `PE_start + index * stride` is `pe_of`; an index that goes down has the size added first.
pub mod Within
pub mod Bruck
pub mod Neighbor
pub mod Linear
mod Tests
use paw.Prelude.{
  ℕ, zero, suc, ◌+◌, ◌-◌, ◌*◌, ◌/◌, ◌%◌, ◌^◌, Bool, true, false, Option, none, some, List, [], ◌∷◌,
  ◌++◌, bit_and, bit_xor, ltb, leb, ◌==◌, if◌then◌else◌,
}
use paw.Sync.{Cmp, cmp_eq, cmp_ne, cmp_gt, cmp_ge}
use paw.Shcoll.{
  Act, wait_until, long_p, atomic_inc, putmem_nbi, memcpy, rotate, fence, ActiveSet, pe_of,
  index_of, putmem_signal_nb,
}
use paw.Shcoll.Barrier.{for_each, shcoll_barrier, helper_linear, helper_binomial_tree}
use paw.Shcoll.Broadcast.{broadcast_helper_linear}

module _ (dest source nbytes : ℕ) (active : ActiveSet) (me : ℕ) where
  abbrev pub n : ℕ
  n = active.pe_size

  pub me_as : ℕ
  me_as = index_of active me

  abbrev pub total_nbytes : ℕ
  total_nbytes = n * nbytes

  -- The broadcast has `pSync + 1`; `words_up` moves a list of actions to it. `n_pes` is
  -- `shmem_n_pes()`.
  abbrev pub words_up : List Act → List Act
  words_up [] = []
  words_up (wait_until slot cmp value ∷ rest) = wait_until (suc slot) cmp value ∷ words_up rest
  words_up (long_p slot value pe ∷ rest) = long_p (suc slot) value pe ∷ words_up rest
  words_up (atomic_inc slot pe ∷ rest) = atomic_inc (suc slot) pe ∷ words_up rest
  words_up (a ∷ rest) = a ∷ words_up rest

  pub fcollect_helper_linear : ℕ → List Act
  unfolding me_as
  fcollect_helper_linear n_pes =
      shcoll_barrier helper_linear active me
      ++ ((if me == active.pe_start
            then memcpy dest source nbytes
            else putmem_nbi (dest + me_as * nbytes) source nbytes active.pe_start)
          ∷ (shcoll_barrier helper_linear active me
              ++ words_up
                  (broadcast_helper_linear dest dest (nbytes * n_pes) active.pe_start active me)))

  abbrev linear_target : ℕ → ℕ
  unfolding me_as
  linear_target i = pe_of active ((i + me_as) % n)

  pub fcollect_helper_all_linear : List Act
  unfolding linear_target me_as
  fcollect_helper_all_linear =
      for_each (n - 1) 1 (λ i. putmem_nbi (dest + me_as * nbytes) source nbytes (linear_target i))
      ++ (memcpy (dest + me_as * nbytes) source nbytes
          ∷ fence
          ∷ (for_each (n - 1) 1 (λ i. atomic_inc 0 (linear_target i))
              ++ (wait_until 0 cmp_eq (n - 1) ∷ long_p 0 0 me ∷ [])))

  pub fcollect_helper_all_linear1 : List Act
  unfolding linear_target me_as
  fcollect_helper_all_linear1 =
      for_each (n - 1) 1 (λ i. putmem_nbi (dest + me_as * nbytes) source nbytes (linear_target i))
      ++ (memcpy (dest + me_as * nbytes) source nbytes
          ∷ shcoll_barrier helper_binomial_tree active me)

  -- `data_block &= ~mask` for the mask of one bit
  pub without_bit : ℕ → ℕ → ℕ
  without_bit block mask = if block / mask % 2 == 1 then block - mask else block

  -- `for (mask = 1, i = 0; mask < PE_size; mask <<= 1, i++)`; the mask doubles, so `PE_size` rounds are
  -- fuel enough here and for the distances below.
  pub rec_dbl_rounds : ℕ → ℕ → ℕ → List Act
  unfolding without_bit me_as
  rec_dbl_rounds zero i data_block = []
  rec_dbl_rounds (suc fuel) i data_block =
      let mask = 2 ^ i in
      let peer = pe_of active (bit_xor me_as mask) in
      let rest =
        putmem_nbi (dest + data_block * nbytes) (dest + data_block * nbytes) (nbytes * mask) peer
        ∷ fence
        ∷ long_p i 1 peer
        ∷ wait_until i cmp_ne 0
        ∷ long_p i 0 me
        ∷ rec_dbl_rounds fuel (suc i) (without_bit data_block mask) in
      if ltb mask n then rest else []

  -- `none` is the failed assertion on the size.
  pub fcollect_helper_rec_dbl : Option (List Act)
  unfolding rec_dbl_rounds me_as
  fcollect_helper_rec_dbl =
      if bit_and (n - 1) n == 0
      then some (memcpy (dest + me_as * nbytes) source nbytes ∷ rec_dbl_rounds n 0 me_as)
      else none

  pub ring_rounds : ℕ → ℕ → ℕ → List Act
  unfolding me_as
  ring_rounds zero i data_block = []
  ring_rounds (suc left) i data_block =
      let peer = pe_of active ((me_as + 1) % n) in
      putmem_nbi (dest + data_block * nbytes) (dest + data_block * nbytes) nbytes peer
      ∷ fence
      ∷ atomic_inc 0 peer
      ∷ wait_until 0 cmp_ge i
      ∷ ring_rounds left (suc i) ((data_block + n - 1) % n)

  pub fcollect_helper_ring : List Act
  unfolding ring_rounds me_as
  fcollect_helper_ring =
      memcpy (dest + me_as * nbytes) source nbytes
      ∷ (ring_rounds (n - 1) 1 me_as ++ (long_p 0 0 me ∷ []))

  abbrev pub bruck_peer : ℕ → ℕ
  unfolding me_as
  bruck_peer distance = pe_of active ((me_as + n - distance) % n)

  -- How much a round sends: what is there, or what is missing.
  pub bruck_to_send : ℕ → ℕ
  bruck_to_send sent_bytes =
      if leb (2 * sent_bytes) total_nbytes then sent_bytes else total_nbytes - sent_bytes

  -- The rounds of the Bruck helpers: `puts` are the puts of a round, with `sent_bytes`, and the word
  -- of the peer is written behind them.
  pub bruck_rounds : (ℕ → ℕ → List Act) → ℕ → ℕ → ℕ → List Act
  unfolding bruck_peer
  bruck_rounds puts zero round sent_bytes = []
  bruck_rounds puts (suc fuel) round sent_bytes =
      let distance = 2 ^ round in
      let peer = bruck_peer distance in
      let rest =
        puts sent_bytes peer
        ++ (fence
            ∷ long_p round 1 peer
            ∷ wait_until round cmp_ne 0
            ∷ long_p round 0 me
            ∷ bruck_rounds puts fuel (suc round) (sent_bytes + distance * nbytes)) in
      if ltb distance n then rest else []

  bruck_put : ℕ → ℕ → List Act
  unfolding bruck_to_send
  bruck_put sent_bytes peer =
      putmem_nbi (dest + sent_bytes) dest (bruck_to_send sent_bytes) peer ∷ []

  pub fcollect_helper_bruck : List Act
  unfolding bruck_rounds bruck_put me_as
  fcollect_helper_bruck =
      memcpy dest source nbytes
      ∷ (bruck_rounds bruck_put n 0 nbytes ++ (rotate dest total_nbytes (me_as * nbytes) ∷ []))

  bruck_put_no_rotate : ℕ → ℕ → List Act
  unfolding bruck_to_send me_as
  bruck_put_no_rotate sent_bytes peer =
      let my_offset_nbytes = nbytes * me_as in
      let to_send = bruck_to_send sent_bytes in
      let my_offset = dest + my_offset_nbytes in
      if leb (my_offset_nbytes + to_send) total_nbytes
      then putmem_nbi my_offset my_offset to_send peer ∷ []
      else putmem_nbi my_offset my_offset (total_nbytes - my_offset_nbytes) peer
        ∷ putmem_nbi dest dest (to_send - (total_nbytes - my_offset_nbytes)) peer
        ∷ []

  pub fcollect_helper_bruck_no_rotate : List Act
  unfolding bruck_rounds bruck_put_no_rotate me_as
  fcollect_helper_bruck_no_rotate =
      memcpy (dest + nbytes * me_as) source nbytes ∷ bruck_rounds bruck_put_no_rotate n 0 nbytes

  pub bruck_signal_rounds : ℕ → ℕ → ℕ → List Act
  unfolding bruck_to_send bruck_peer putmem_signal_nb
  bruck_signal_rounds zero round sent_bytes = []
  bruck_signal_rounds (suc fuel) round sent_bytes =
      let distance = 2 ^ round in
      let rest =
        putmem_signal_nb (dest + sent_bytes) dest (bruck_to_send sent_bytes) round 1
          (bruck_peer distance)
        ++ (wait_until round cmp_ne 0
            ∷ long_p round 0 me
            ∷ bruck_signal_rounds fuel (suc round) (sent_bytes + distance * nbytes)) in
      if ltb distance n then rest else []

  pub fcollect_helper_bruck_signal : List Act
  unfolding bruck_signal_rounds me_as
  fcollect_helper_bruck_signal =
      memcpy dest source nbytes
      ∷ (bruck_signal_rounds n 0 nbytes ++ (rotate dest total_nbytes (me_as * nbytes) ∷ []))

-- `shcoll_fcollect<size>_<name>`: a helper on `nelems` elements of `size` bits.
pub shcoll_fcollect : (ℕ → List Act) → ℕ → ℕ → List Act
shcoll_fcollect helper size nelems = helper (size / 8 * nelems)
