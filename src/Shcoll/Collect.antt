-- ===== src/Shcoll/Collect.antt =====
-- osss-ucx/src/shcoll/src/collect.c: the collects in which all put to all. Each first calls
-- `exclusive_prefix_sum` with the size of its block (Scan); what it does then depends on the
-- `block_offset` answered. The set starts at PE 0 with stride 1, as for the scan.
mod Tests
use paw.Prelude.{
  ℕ, zero, suc, ◌+◌, ◌-◌, ◌*◌, ◌%◌, ◌^◌, ◌<◌, ◌≤◌, ◌≡◌, ◌≢◌, refl, sym, ap, ◌∙◌, subst, arith, List,
  [], ◌∷◌, ◌++◌, ◌⊎◌, inl, inr, dec_lt,
}
use paw.Sync.{cmp_eq}
use paw.Shcoll.{
  Act, wait_until, long_p, atomic_inc, putmem_nbi, memcpy, fence, System, ActiveSet, pe_of,
  index_of, Reach,
}
use paw.Shcoll.Barrier.{for_each, shcoll_barrier, helper_binomial_tree, all_pes}
use paw.Shcoll.Indices.{index_of-pe_of}
use paw.Shcoll.Scan
use paw.Shcoll.Scan.Window.{sum_below, sum_below_mono}
use paw.Shcoll.Scan.Result.{exclusive_prefix_sum_lem}
use paw.Shcoll.Exchange.{counted_exchange}
use paw.Shcoll.Exchange.Memory.{Apart, Delivered}
use paw.Shcoll.Exchange.Results.{Calls, counted_delivers}
use paw.Shcoll.Fcollect.Linear.{linear_peer, linear_peer-Exchange}

module _ (dest source nbytes block_offset : ℕ) (active : ActiveSet) (me : ℕ) where
  my_index : ℕ
  my_index = index_of active me

  abbrev target : ℕ → ℕ
  unfolding my_index
  target i = pe_of active ((i + my_index) % active.pe_size)

  puts_to_all : List Act
  unfolding my_index
  puts_to_all =
      for_each (active.pe_size - 1) 1
        (λ i. putmem_nbi (dest + block_offset) source nbytes (target i))

  own_copy : Act
  own_copy = memcpy (dest + block_offset) source nbytes

  -- `collect_helper_all_linear` and `collect_helper_all_linear1` after the scan
  pub collect_all_linear : List Act
  unfolding puts_to_all own_copy my_index
  collect_all_linear =
      puts_to_all
      ++ (own_copy
          ∷ fence
          ∷ (for_each (active.pe_size - 1) 1 (λ i. atomic_inc 0 (target i))
              ++ (wait_until 0 cmp_eq (active.pe_size - 1) ∷ long_p 0 0 me ∷ [])))

  pub collect_all_linear1 : List Act
  unfolding puts_to_all own_copy
  collect_all_linear1 = puts_to_all ++ (own_copy ∷ shcoll_barrier helper_binomial_tree active me)

module _ (dest source n : ℕ) (nbytes : ℕ → ℕ) where
  abbrev active : ActiveSet
  active = all_pes n

  abbrev exchange : ℕ → List Act
  exchange =
      counted_exchange (λ i b. linear_peer i b n) (λ a. dest + sum_below nbytes a) nbytes
        (λ b. source) active

  all_linear_lem :
      (a : ℕ)
      → collect_all_linear dest source (nbytes a) (sum_below nbytes a) active (pe_of active a)
        ≡ exchange a
  unfolding collect_all_linear puts_to_all own_copy my_index counted_exchange linear_peer
  all_linear_lem a = rw (index_of-pe_of active a) refl

  blocks_apart :
      (a c : ℕ)
      → a ≢ c
      → (dest + sum_below nbytes a + nbytes a ≤ dest + sum_below nbytes c)
        ⊎ (dest + sum_below nbytes c + nbytes c ≤ dest + sum_below nbytes a)
  unfolding sum_below
  blocks_apart a c ne = elim (dec_lt a c) [
    | yes lt ↦ inl (omega (arith, sum_below_mono nbytes (suc a) c lt))
    | no ge ↦ inr (omega (arith, sum_below_mono nbytes (suc c) a (omega arith)))
  ]

  source_apart :
      (a c : ℕ)
      → a < n
      → (source + nbytes c ≤ dest) ⊎ (dest + sum_below nbytes n ≤ source)
      → (source + nbytes c ≤ dest + sum_below nbytes a)
        ⊎ (dest + sum_below nbytes a + nbytes a ≤ source)
  unfolding sum_below
  source_apart a c lt (inl h) = inl (omega (arith, h))
  source_apart a c lt (inr h) = inr (omega (arith, h, sum_below_mono nbytes (suc a) n lt))

  -- The collect in which all put to all delivers. The members 0 to `n - 1`, less than 2 ^ 64, whose
  -- sizes and 1 do not overflow, have finished the scan in some interleaving, and are about to do what
  -- follows with the offsets that it answered, on a word that is zero; no put is under way, the other PEs
  -- have nothing to do, and no block of `source` overlaps the bytes of `dest`. In any interleaving of their actions and of the
  -- arrivals of their puts, when a member `b` has returned, the block of each member `a` stands in its
  -- `dest` behind the blocks of the members before `a`, byte for byte as in the `source` of `a` before.
  pub collect_all_linear_delivers :
      {s t : System} (scan : Scan.System)
      → n < 2 ^ 64
      → sum_below nbytes n + 1 < 2 ^ 64
      → Scan.Reach (all_pes n) nbytes (Scan.initial nbytes) scan
      → ((a : ℕ) → a < n → scan.place a ≡ Scan.finished)
      → ((c : ℕ) → c < n → (source + nbytes c ≤ dest) ⊎ (dest + sum_below nbytes n ≤ source))
      → Calls
          (λ a. collect_all_linear dest source (nbytes a) (scan.dest a) active (pe_of active a))
          active
          s
      → Reach s t
      → (a b j : ℕ) → a < n
      → b < n
      → j < nbytes a
      → t.todo (pe_of active b) ≡ []
      → t.bytes (pe_of active b) (dest + sum_below nbytes a + j)
        ≡ s.bytes (pe_of active a) (source + j)
  unfolding Apart Delivered
  collect_all_linear_delivers {s} {t} scan few small ran all apart start run a b j lt lt_b lt_j
        returned =
      let calls : Calls exchange active s = record {
        called = λ k lt_k.
            start.called k lt_k
            ∙ ap (λ o. collect_all_linear dest source (nbytes k) o active (pe_of active k))
                (exclusive_prefix_sum_lem n nbytes small scan k ran lt_k (all k lt_k))
            ∙ all_linear_lem k;
        word_zero = start.word_zero;
        none_pending = start.none_pending;
        outside = start.outside;
      } in
      counted_delivers linear_peer (λ k. dest + sum_below nbytes k) nbytes (λ k. source) active
        (linear_peer-Exchange n) few {s = s} {t = t}
        (blocks_apart, λ c e d lt_c lt_e lt_d. source_apart c e lt_c (apart e lt_e)) calls run a b
        lt lt_b returned j lt_j
