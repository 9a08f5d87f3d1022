-- ===== src/Shcoll/Scan/Unit.antt =====
-- The scan on the set of PEs 0 to `n - 1`, in which a member's index is its PE number.
use paw.Prelude.{
  ℕ, suc, ◌+◌, ◌^◌, ◌<◌, ◌≡◌, refl, sym, ap, ◌∙◌, arith, subst, ltb, leb, ◌==◌, if◌then◌else◌,
}
use paw.Prelude.Words.{add64, sub64}
use paw.Shcoll.{write, set_at, pe_of, index_of}
use paw.Shcoll.Barrier.{all_pes}
use paw.Shcoll.Indices.{index_of-pe_of}
use paw.Shcoll.Scan.{
  Place, notify, await, collect, clear, settle, finished, System, go, send, scan_step, Reach, step,
}

-- The atomic add of a round, on PEs 0 to `n - 1`.
unfoldable pub unit_send : ℕ → ℕ → ℕ → System → System
unit_send n me round s =
    let parent = me + 2 ^ round in
    if ltb parent n
    then record (go s me (await round)) {
      words =
          write s.words parent round (add64 (s.words parent round) (add64 (s.partial_scan me) 1));
    }
    else go s me (await round)

-- One step of PE `me` of these.
unfoldable pub unit_step : ℕ → (ℕ → ℕ) → ℕ → Place → System → System
unfolding unit_send
unit_step n value me (notify round) s = unit_send n me round s
unit_step n value me (await round) s =
    if ltb (2 ^ round) n
    then (if leb (2 ^ round) me
        then (if s.words me round == 0 then s else go s me (collect round))
        else go s me (notify (suc round)))
    else record (go s me finished) {
      dest = set_at s.dest me (sub64 (s.partial_scan me) (value me));
    }
unit_step n value me (collect round) s = record (go s me (clear round)) {
  partial_scan = set_at s.partial_scan me (add64 (s.partial_scan me) (sub64 (s.words me round) 1));
}
unit_step n value me (clear round) s = record (go s me (settle round)) {
  words = write s.words me round 0;
}
unit_step n value me (settle round) s =
    if s.words me round == 0 then go s me (notify (suc round)) else s
unit_step n value me finished s = s

own_pe : (n a : ℕ) → pe_of (all_pes n) a ≡ a
unfolding pe_of
own_pe n a = omega arith

own_index : (n a : ℕ) → index_of (all_pes n) a ≡ a
own_index n a = ap (index_of (all_pes n)) (sym (own_pe n a)) ∙ index_of-pe_of (all_pes n) a

scan_step_unit :
    (n : ℕ) (value : ℕ → ℕ) (me : ℕ) (p : Place) (s : System)
    → scan_step (all_pes n) value me p s ≡ unit_step n value me p s
unfolding scan_step send unit_step unit_send
scan_step_unit n value me (notify round) s = rw (own_index n me) refl
scan_step_unit n value me (await round) s = rw (own_index n me) refl
scan_step_unit n value me (collect round) s = refl
scan_step_unit n value me (clear round) s = refl
scan_step_unit n value me (settle round) s = refl
scan_step_unit n value me finished s = refl

pub member_step :
    (n : ℕ) (value : ℕ → ℕ) (a : ℕ) (t : System)
    → scan_step (all_pes n) value (pe_of (all_pes n) a) (t.place (pe_of (all_pes n) a)) t
      ≡ unit_step n value a (t.place a) t
member_step n value a t =
    ap (λ q. scan_step (all_pes n) value q (t.place q) t) (own_pe n a)
    ∙ scan_step_unit n value a (t.place a) t

pub unit_move :
    (n : ℕ) (value : ℕ → ℕ) (s t : System) (a : ℕ)
    → a < n
    → Reach (all_pes n) value s t
    → Reach (all_pes n) value s (unit_step n value a (t.place a) t)
unit_move n value s t a lt run =
    subst (λ u. Reach (all_pes n) value s u) (member_step n value a t) (step a lt run)
