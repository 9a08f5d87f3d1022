-- ===== src/Shcoll/Fcollect/Linear.antt =====
-- osss-ucx/src/shcoll/src/fcollect.c: what the collect in which all put to all delivers.
use paw.Prelude.{
  ℕ, ◌+◌, ◌*◌, ◌%◌, ◌^◌, ◌<◌, ◌≤◌, ◌≡◌, refl, ap, fun_ext, ◌∙◌, subst, arith, [], ◌⊎◌,
}
use paw.Shcoll.{Act, System, ActiveSet, pe_of, index_of, Reach}
use paw.Shcoll.Indices.{index_of-pe_of}
use paw.Shcoll.Alltoall.Peers.{Exchange}
use paw.Shcoll.Fcollect.{fcollect_helper_all_linear}
use paw.Shcoll.Exchange.{counted_exchange}
use paw.Shcoll.Exchange.Memory.{Apart, Delivered, equal_blocks-apart, equal_blocks-outside}
use paw.Shcoll.Exchange.Results.{Calls, counted_delivers}
use paw.Shcoll.Alltoall.Peers.{shift-Exchange}

unfoldable pub linear_peer : ℕ → ℕ → ℕ → ℕ
linear_peer i me n = (i + me) % n

pub linear_peer-Exchange : (n : ℕ) → Exchange linear_peer n
unfolding linear_peer paw.Shcoll.Alltoall.shift_peer
linear_peer-Exchange n =
    subst (λ f. Exchange f n)
      (fun_ext (λ i. fun_ext (λ me. fun_ext (λ m. ap (λ x. x % m) (omega arith)))))
      (shift-Exchange n)

module _ (dest source nbytes : ℕ) (active : ActiveSet) where
  all_linear_lem :
      (a : ℕ)
      → fcollect_helper_all_linear dest source nbytes active (pe_of active a)
        ≡ counted_exchange
            (λ i b. linear_peer i b active.pe_size)
            (λ b. dest + b * nbytes)
            (λ b. nbytes)
            (λ b. source)
            active
            a
  unfolding fcollect_helper_all_linear counted_exchange linear_peer
  all_linear_lem a = rw (index_of-pe_of active a) refl

  -- All members of an active set are about to call the collect on a word that is zero, the other PEs do
  -- nothing, and no put is under way.
  unfoldable pub Start : System → Type 0
  Start = Calls (λ a. fcollect_helper_all_linear dest source nbytes active (pe_of active a)) active

  -- The collect in which all put to all delivers. All members of an active set of less than 2^64 run
  -- `fcollect_helper_all_linear`, on a word that is zero and with no put under way and nothing to do
  -- for the other PEs, in any interleaving of their actions and of the arrivals of their puts, with a
  -- `source` that does not overlap the blocks of `dest`. When a member `b` has returned,
  -- block `a` of its `dest` holds, for every member `a`, byte for byte what the `source` of `a` held
  -- before the call.
  pub all_linear_delivers :
      {s t : System}
      → active.pe_size < 2 ^ 64
      → (source + nbytes ≤ dest) ⊎ (dest + active.pe_size * nbytes ≤ source)
      → Start s
      → Reach s t
      → (a b j : ℕ) → a < active.pe_size
      → b < active.pe_size
      → j < nbytes
      → t.todo (pe_of active b) ≡ []
      → t.bytes (pe_of active b) (dest + a * nbytes + j) ≡ s.bytes (pe_of active a) (source + j)
  unfolding Apart Delivered Start
  all_linear_delivers {s} {t} few apart start run a b j lt lt_b lt_j returned =
      let calls : Calls
          (counted_exchange (λ i k. linear_peer i k active.pe_size) (λ k. dest + k * nbytes)
            (λ k. nbytes) (λ k. source) active)
          active s =
        record {
          called = λ k lt_k. start.called k lt_k ∙ all_linear_lem k;
          word_zero = start.word_zero;
          none_pending = start.none_pending;
          outside = start.outside;
        } in
      counted_delivers linear_peer (λ k. dest + k * nbytes) (λ k. nbytes) (λ k. source) active
        (linear_peer-Exchange active.pe_size) few {s = s} {t = t}
        (
          λ c d. equal_blocks-apart dest nbytes c d,
          λ c e d lt_c lt_e lt_d.
              equal_blocks-outside dest nbytes active.pe_size c source lt_c apart,
        )
        calls run a b lt lt_b returned j lt_j
