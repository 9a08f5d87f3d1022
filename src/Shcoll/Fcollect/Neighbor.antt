-- ===== src/Shcoll/Fcollect/Neighbor.antt =====
-- osss-ucx/src/shcoll/src/fcollect.c: the exchange with the two neighbours in turn.
use paw.Prelude.{
  ℕ, zero, suc, ◌+◌, ◌-◌, ◌*◌, ◌/◌, ◌%◌, Option, none, some, List, [], ◌∷◌, ◌++◌, ◌==◌,
  if◌then◌else◌,
}
use paw.Sync.{cmp_gt, cmp_ge}
use paw.Shcoll.{
  Act, wait_until, long_p, atomic_inc, putmem_nbi, memcpy, fence, ActiveSet, pe_of, index_of,
}

module _ (dest source nbytes : ℕ) (active : ActiveSet) (me : ℕ) where
  abbrev n : ℕ
  n = active.pe_size

  me_as : ℕ
  me_as = index_of active me

  -- `block & ~0x1`
  abbrev even_part : ℕ → ℕ
  even_part block = block - block % 2

  -- `neighbor_pe` and `send_offset`, by parity.
  pub neighbor_pe : ℕ → ℕ
  unfolding me_as
  neighbor_pe parity =
      if (me_as + parity) % 2 == 0
      then pe_of active ((me_as + 1) % n)
      else pe_of active ((me_as + n - 1) % n)

  abbrev first_offset : ℕ
  unfolding me_as
  first_offset =
      if me_as % 2 == 0 then even_part ((me_as + n - 2) % n) else even_part ((me_as + 2) % n)

  -- `for (i = 1; i < PE_size / 2; i++)`, with the two offsets and their difference.
  pub neighbor_rounds : ℕ → ℕ → ℕ → ℕ → ℕ → List Act
  unfolding neighbor_pe
  neighbor_rounds zero i offset0 offset1 diff = []
  neighbor_rounds (suc left) i offset0 offset1 diff =
      let parity = i % 2 in
      let offset = if parity == 0 then offset0 else offset1 in
      let block = dest + offset * nbytes in
      let moved = (offset + diff) % n in
      putmem_nbi block block (2 * nbytes) (neighbor_pe parity)
      ∷ fence
      ∷ atomic_inc parity (neighbor_pe parity)
      ∷ wait_until parity cmp_gt (i / 2)
      ∷ neighbor_rounds left (suc i) (if parity == 0 then moved else offset0)
          (if parity == 0 then offset1 else moved) (n - diff)

  -- The words are cleared by plain stores.
  pub fcollect_helper_neighbor_exchange : Option (List Act)
  unfolding neighbor_rounds neighbor_pe first_offset me_as
  fcollect_helper_neighbor_exchange =
      let block = dest + me_as * nbytes in
      if n % 2 == 0
      then some (
          memcpy block source nbytes
          ∷ putmem_nbi block block nbytes (neighbor_pe 0)
          ∷ fence
          ∷ atomic_inc 0 (neighbor_pe 0)
          ∷ wait_until 0 cmp_ge 1
          ∷ (neighbor_rounds (n / 2 - 1) 1 first_offset (even_part me_as)
                (if me_as % 2 == 0 then 2 else n - 2)
              ++ (long_p 0 0 me ∷ long_p 1 0 me ∷ [])))
      else none
