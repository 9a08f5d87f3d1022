-- ===== src/Shcoll/Broadcast/Scatter.antt =====
-- osss-ucx/src/shcoll/src/broadcast.c: the broadcast by a scatter along a binomial tree and a ring.
use paw.Prelude.{
  ℕ, zero, suc, ◌+◌, ◌-◌, ◌*◌, ◌/◌, ◌%◌, ◌^◌, not, ◌&&◌, List, [], ◌∷◌, ◌++◌, ltb, ◌==◌,
  if◌then◌else◌,
}
use paw.Sync.{cmp_gt, cmp_ne}
use paw.Shcoll.{Act, wait_until, long_p, atomic_inc, putmem_nbi, fence, ActiveSet, pe_of, index_of}

-- Where block `block` of `n` starts: `size_t` arithmetic.
unfoldable pub block_start : ℕ → ℕ → ℕ → ℕ
block_start n nbytes block = (block * nbytes + n - 1) % 2 ^ 64 / n

-- What the loops carry.
pub record Received : Type 0 where
  pub total_received : ℕ
  pub next_pe_nblocks : ℕ

module _ (target source nbytes PE_root : ℕ) (active : ActiveSet) (me : ℕ) where
  abbrev pub n : ℕ
  n = active.pe_size

  pub root_as : ℕ
  root_as = index_of active PE_root

  -- The index in the set, shifted so that the root's is 0.
  pub me_as : ℕ
  unfolding root_as
  me_as = (index_of active me + n - root_as) % n

  pub next_as : ℕ
  unfolding me_as
  next_as = (me_as + 1) % n

  -- The put of the blocks from `first` to before `stop`, a fence, and the increment of a word.
  send_blocks : ℕ → ℕ → ℕ → ℕ → List Act
  unfolding block_start me_as
  send_blocks first stop slot pe =
      let data_start = block_start n nbytes first in
      let data_end = block_start n nbytes stop in
      let from = if me_as == 0 then source else target in
      putmem_nbi (target + data_start) (from + data_start) (data_end - data_start) pe
      ∷ fence
      ∷ atomic_inc slot pe
      ∷ []

  -- `while (right - left > 1)`; the range shrinks in every round, so `PE_size` rounds are enough.
  pub scatter : ℕ → ℕ → ℕ → Received → List Act × Received
  unfolding me_as next_as root_as send_blocks
  scatter zero left right got = ([], got)
  scatter (suc fuel) left right got =
      let dist = (right - left) / 2 + (right - left) % 2 in
      let mid = left + dist in
      let sends = me_as == left && ltb (me_as + dist) right in
      let receives = me_as == left + dist in
      let now =
        (if sends
          then send_blocks mid right 0 (pe_of active ((root_as + me_as + dist) % n))
          else [])
        ++ (if receives then wait_until 0 cmp_ne 0 ∷ [] else []) in
      let got' : Received = record {
        total_received = if receives then right - mid else got.total_received;
        next_pe_nblocks = if next_as == left + dist then right - mid else got.next_pe_nblocks;
      } in
      let below = ltb me_as mid in
      let rest = scatter fuel (if below then left else mid) (if below then mid else right) got' in
      if ltb 1 (right - left) then (now ++ rest.0, rest.1) else ([], got)

  -- `while (total_received != PE_size)`; one block is received in every round.
  pub collect_rest : ℕ → ℕ → ℕ → List Act
  collect_rest zero total_received ring_received = []
  collect_rest (suc fuel) total_received ring_received =
      let rest =
        wait_until 1 cmp_gt ring_received
        ∷ collect_rest fuel (suc total_received) (suc ring_received) in
      if total_received == n then [] else rest

  -- `while (next_pe_nblocks != PE_size)`; one block is sent in every round.
  pub collect : ℕ → ℕ → ℕ → ℕ → ℕ → List Act
  unfolding root_as next_as send_blocks collect_rest
  collect zero next_block next_pe_nblocks total_received ring_received = []
  collect (suc fuel) next_block next_pe_nblocks total_received ring_received =
      let next_pe = pe_of active ((root_as + next_as) % n) in
      let waits = not (total_received == n) in
      let rest =
        send_blocks next_block (suc next_block) 1 next_pe
        ++ ((if waits then wait_until 1 cmp_gt ring_received ∷ [] else [])
            ++ collect fuel ((next_block + n - 1) % n) (suc next_pe_nblocks)
                (if waits then suc total_received else total_received)
                (if waits then suc ring_received else ring_received)) in
      if next_pe_nblocks == n then collect_rest n total_received ring_received else rest

  pub broadcast_helper_scatter_collect : List Act
  unfolding scatter collect me_as next_as
  broadcast_helper_scatter_collect =
      let start : Received = record {
        total_received = if me_as == 0 then n else 0;
        next_pe_nblocks = if next_as == 0 then n else 0;
      } in
      let (sent, got) = scatter n 0 n start in
      sent
      ++ (collect (suc n) me_as got.next_pe_nblocks got.total_received 0
          ++ (long_p 0 0 me ∷ long_p 1 0 me ∷ []))
