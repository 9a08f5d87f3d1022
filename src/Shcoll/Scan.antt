-- ===== src/Shcoll/Scan.antt =====
-- osss-ucx/src/shcoll/src/util/scan.c: `exclusive_prefix_sum`, as a step relation over the PEs of an
-- active set. A step is one access of one PE to the words `scan_rounds`; the sums are those of `size_t`.
pub mod Unit
pub mod Offset
pub mod Window
pub mod Invariant
pub mod Moves
pub mod Writes
pub mod Advance
pub mod Result
use paw.Prelude.{
  ℕ, zero, suc, ◌+◌, ◌-◌, ◌*◌, ◌^◌, ◌%◌, ◌<◌, Bool, true, false, ltb, leb, ◌==◌, ◌&&◌,
  if◌then◌else◌,
}
use paw.Prelude.Words.{add64, sub64}
use paw.Shcoll.{write, set_at, ActiveSet, pe_of, index_of}

-- Where a PE is in the function, with its `round`.
pub data Place : Type 0 where
  notify : ℕ → Place  -- before the atomic add for this round, if there is a parent
  await : ℕ → Place  -- at the wait of this round, if it is waited for
  collect : ℕ → Place  -- before the word is read into the sum
  clear : ℕ → Place  -- before the word is set to 0
  settle : ℕ → Place  -- at the wait for the 0
  finished : Place

pub record System : Type 0 where
  pub words : ℕ → ℕ → ℕ  -- `scan_rounds` of each PE
  pub partial_scan : ℕ → ℕ
  pub dest : ℕ → ℕ
  pub place : ℕ → Place

abbrev pub go : System → ℕ → Place → System
go s me p = record s { place = set_at s.place me p }

-- The atomic add of a round: to the index `2 ^ round` further on, if there is a member of it, which is
-- taken for a PE number.
unfoldable pub send : ActiveSet → ℕ → ℕ → System → System
send active me round s =
    let parent = index_of active me + 2 ^ round in
    if ltb parent active.pe_size
    then record (go s me (await round)) {
      words =
          write s.words parent round (add64 (s.words parent round) (add64 (s.partial_scan me) 1));
    }
    else go s me (await round)

-- One step of PE `me`, which has `value`.
unfoldable pub scan_step : ActiveSet → (ℕ → ℕ) → ℕ → Place → System → System
unfolding send
scan_step active value me (notify round) s = send active me round s
scan_step active value me (await round) s =
    if ltb (2 ^ round) active.pe_size
    then (if leb (2 ^ round) (index_of active me)
        then (if s.words me round == 0 then s else go s me (collect round))
        else go s me (notify (suc round)))
    else record (go s me finished) {
      dest = set_at s.dest me (sub64 (s.partial_scan me) (value me));
    }
scan_step active value me (collect round) s = record (go s me (clear round)) {
  partial_scan = set_at s.partial_scan me (add64 (s.partial_scan me) (sub64 (s.words me round) 1));
}
scan_step active value me (clear round) s = record (go s me (settle round)) {
  words = write s.words me round 0;
}
scan_step active value me (settle round) s =
    if s.words me round == 0 then go s me (notify (suc round)) else s
scan_step active value me finished s = s

-- Before the call: every word is 0, which is SHCOLL_SYNC_VALUE.
unfoldable pub initial : (ℕ → ℕ) → System
initial value = record {
  words = λ me round. 0;
  partial_scan = value;
  dest = λ me. 0;
  place = λ me. notify 0;
}

-- The members of the set take steps in any order.
pub data Reach (active : ActiveSet) (value : ℕ → ℕ) (s : System) : System → Type 0 where
  begin : Reach active value s s
  step :
      {t : System} (a : ℕ)
      → a < active.pe_size
      → Reach active value s t
      → Reach active value s (scan_step active value (pe_of active a) (t.place (pe_of active a)) t)
