-- ===== src/Comms/Ops/Effect.antt =====
-- osss-ucx/src/shmemc/ucx/comms.c: the atomic operations of a context and the word that they name, on
-- the PE that they name.
use paw.Prelude.{ℕ, ◌≡◌}
use paw.Comms.Address.{Proc, translate_region_address, translate_address}
use paw.Comms.Ucx.{Ucx, Request, AtomicOp, apply, Documented}
use paw.Comms.Ops.{Context}

module _ (u : Ucx) (doc : Documented u) (p : Proc) (ch : Context u) where
  open u use {World, Later, word, buffer, fill_buffer, peer, atomic_fetch_nb, atomic_post}

  -- The endpoint of each PE connects to that PE.
  abbrev pub IsWired : Type 0
  IsWired = (pe : ℕ) → peer (ch.eps pe) ≡ pe

  issued : AtomicOp → ℕ → ℕ → ℕ → ℕ → ℕ → ℕ → World → Request × World
  issued op t r value vs pe retp w =
      atomic_fetch_nb w (ch.eps pe) op value retp vs (translate_region_address p t r pe)
        (ch.racc r pe)

  -- The operation is done on the word of `vs` bytes at the translated address of `t` on PE `pe`, at one
  -- time between the states `w` and `w'`, from that of `v` to that of `v'`, with the operand and what
  -- the result buffer held in `w`; in `w'` the result buffer holds the word of `v`.
  abbrev pub Effect : AtomicOp → ℕ → ℕ → ℕ → ℕ → ℕ → World → World → Type 0
  Effect op t value vs pe retp w w' =
      (v v' : World) × Later w v
      × Later v v'
      × Later v' w'
      × (word v' pe (translate_address p t pe) vs
          ≡ apply op vs (word v pe (translate_address p t pe) vs) value (buffer w retp vs))
      × (buffer w' retp vs ≡ word v pe (translate_address p t pe) vs)
