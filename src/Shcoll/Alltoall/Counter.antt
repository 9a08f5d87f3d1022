-- ===== src/Shcoll/Alltoall/Counter.antt =====
-- osss-ucx/src/shcoll/src/alltoall.c: what the exchange that counts delivers, whatever the schedule.
use paw.Prelude.{
  ℕ, ◌+◌, ◌*◌, ◌^◌, ◌<◌, ◌≤◌, ◌≡◌, ◌≢◌, refl, fun_ext, ◌∙◌, Bool, true, some, [], ◌⊎◌,
}
use paw.Shcoll.{Act, System, ActiveSet, pe_of, index_of, Reach}
use paw.Shcoll.Indices.{index_of-pe_of}
use paw.Shcoll.Alltoall.{alltoall_helper_counter, put_block}
use paw.Shcoll.Alltoall.Peers.{Exchange}
use paw.Shcoll.Exchange.{counted_exchange, put_to}
use paw.Shcoll.Exchange.Memory.{Apart, Delivered, equal_blocks-apart, equal_blocks-outside}
use paw.Shcoll.Exchange.Results.{Calls, counted_delivers}

some_injective {ℓ} : {A : Type ℓ} {x y : A} → some x ≡ some y → x ≡ y
some_injective e = cc

module _ (peer : ℕ → ℕ → ℕ → ℕ) (cond : ℕ → Bool) (dest source nelems : ℕ)
    (active : ActiveSet) where
  put_block_lem :
      (a : ℕ)
      → put_block peer cond dest source nelems active (pe_of active a)
        ≡ put_to
            (λ i b. peer i b active.pe_size)
            (λ b. dest + b * nelems)
            (λ b. nelems)
            (λ b. source + b * nelems)
            active
            a
  unfolding put_block paw.Shcoll.Alltoall.me_as
  put_block_lem a = fun_ext (λ i. rw (index_of-pe_of active a) refl)

  -- Where the assertion holds, the helper is the exchange that counts, on this member's index.
  counter_lem :
      (a : ℕ)
      → cond active.pe_size ≡ true
      → alltoall_helper_counter peer cond dest source nelems active (pe_of active a)
        ≡ some (
            counted_exchange
              (λ i b. peer i b active.pe_size)
              (λ b. dest + b * nelems)
              (λ b. nelems)
              (λ b. source + b * nelems)
              active
              a)
  unfolding alltoall_helper_counter paw.Shcoll.Alltoall.own_block paw.Shcoll.Alltoall.me_as
      counted_exchange
  counter_lem a holds = rw (holds, put_block_lem a, index_of-pe_of active a) refl

  -- All members of an active set are about to call the helper on a word that is zero, the other PEs do
  -- nothing, and no put is under way.
  pub record Start (s : System) : Type 0 where
    pub called :
        (a : ℕ)
        → a < active.pe_size
        → some (s.todo (pe_of active a))
          ≡ alltoall_helper_counter peer cond dest source nelems active (pe_of active a)
    pub word_zero : (a : ℕ) → a < active.pe_size → s.sync (pe_of active a) 0 ≡ 0
    pub none_pending : (q : ℕ) → s.pending q ≡ []
    pub outside : (q : ℕ) → ((a : ℕ) → a < active.pe_size → pe_of active a ≢ q) → s.todo q ≡ []

  -- The exchange that counts delivers. All members of an active set of less than 2^64 run
  -- `alltoall_helper_counter`, in any interleaving of their actions and of the arrivals of their puts,
  -- on a schedule by which each member meets each other one once; `source` and `dest` do not overlap,
  -- and the assertion holds. When a member `b` has returned, block `a` of its `dest` holds, for every
  -- member `a`, byte for byte what block `b` of the `source` of `a` held before the call.
  pub alltoall_counter_delivers :
      {s t : System}
      → Exchange peer active.pe_size
      → cond active.pe_size ≡ true
      → active.pe_size < 2 ^ 64
      → ((b : ℕ)
          → b < active.pe_size
          → (source + b * nelems + nelems ≤ dest)
            ⊎ (dest + active.pe_size * nelems ≤ source + b * nelems))
      → Start s
      → Reach s t
      → (a b j : ℕ) → a < active.pe_size
      → b < active.pe_size
      → j < nelems
      → t.todo (pe_of active b) ≡ []
      → t.bytes (pe_of active b) (dest + a * nelems + j)
        ≡ s.bytes (pe_of active a) (source + b * nelems + j)
  unfolding Apart Delivered
  alltoall_counter_delivers {s} {t} exchange holds few apart start run a b j lt lt_b lt_j returned =
      let src = λ (k : ℕ). source + k * nelems in
      let calls : Calls
          (counted_exchange (λ i k. peer i k active.pe_size) (λ k. dest + k * nelems) (λ k. nelems)
            src active)
          active s =
        record {
          called = λ k lt_k. some_injective (start.called k lt_k ∙ counter_lem k holds);
          word_zero = start.word_zero;
          none_pending = start.none_pending;
          outside = start.outside;
        } in
      counted_delivers peer (λ k. dest + k * nelems) (λ k. nelems) src active exchange few {s = s}
        {t = t}
        (
          λ c d. equal_blocks-apart dest nelems c d,
          λ c e d lt_c lt_e lt_d.
              equal_blocks-outside dest nelems active.pe_size c (src d) lt_c (apart d lt_d),
        )
        calls run a b lt lt_b returned j lt_j
