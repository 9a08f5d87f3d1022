-- ===== src/Shcoll/Scan/Offset.antt =====
-- The scan on a set that starts behind the numbers of its indices: the sums go to PEs that are not
-- members of it.
use paw.Prelude.{
  ℕ, ◌+◌, ◌≤◌, ◌<◌, ◌≡◌, ◌≢◌, refl, ◌∙◌, arith, true, ltb, leb, ==_iff, ◌⊎◌, inl, inr, ℕ_discrete,
  Bool-cases, subst,
}
use paw.Shcoll.{ActiveSet, pe_of, index_of}
use paw.Shcoll.Indices.{index_of-pe_of}
use paw.Shcoll.Scan.{
  Place, notify, await, collect, clear, settle, finished, System, send, scan_step, initial, Reach,
  begin, step,
}

module _ (active : ActiveSet) (value : ℕ → ℕ) where
  -- No word of a PE from `pe_size` on is written with anything but 0.
  abbrev Unwritten : System → Type 0
  Unwritten s = (q r : ℕ) → active.pe_size ≤ q → s.words q r ≡ 0

  abbrev Waits : System → Type 0
  Waits s =
      (a : ℕ)
      → 1 ≤ a
      → a < active.pe_size
      → (s.place (pe_of active a) ≡ notify 0) ⊎ (s.place (pe_of active a) ≡ await 0)

  step-Unwritten :
      (me : ℕ) (p : Place) (s : System) → Unwritten s → Unwritten (scan_step active value me p s)
  unfolding scan_step send
  step-Unwritten me (notify k) s un q r far = ground (arith, un q r far)
  step-Unwritten me (await k) s un q r far = ground (arith, un q r far)
  step-Unwritten me (collect k) s un q r far = un q r far
  step-Unwritten me (clear k) s un q r far = ground (arith, un q r far)
  step-Unwritten me (settle k) s un q r far = ground (arith, un q r far)
  step-Unwritten me finished s un q r far = un q r far

  step-elsewhere :
      (me : ℕ) (p : Place) (s : System) (q : ℕ)
      → q ≢ me
      → (scan_step active value me p s).place q ≡ s.place q
  unfolding scan_step send
  step-elsewhere me (notify k) s q ne = ground arith
  step-elsewhere me (await k) s q ne = ground arith
  step-elsewhere me (collect k) s q ne = ground arith
  step-elsewhere me (clear k) s q ne = ground arith
  step-elsewhere me (settle k) s q ne = ground arith
  step-elsewhere me finished s q ne = refl

  -- Before the wait of round 0 a member goes to it, and there it stays.
  step_notify : (me : ℕ) (s : System) → (scan_step active value me (notify 0) s).place me ≡ await 0
  unfolding scan_step send
  step_notify me s =
      let self = (==_iff me me).1 refl in
      elim (Bool-cases (ltb (index_of active me + 1) active.pe_size)) [
        | inl parent ↦ rw (parent, self) refl
        | inr none_there ↦ rw (none_there, self) refl
      ]

  step_await :
      (me : ℕ) (s : System)
      → s.words me 0 ≡ 0
      → 1 ≤ index_of active me
      → 1 < active.pe_size
      → scan_step active value me (await 0) s ≡ s
  unfolding scan_step
  step_await me s z le lt =
      let more : ltb 1 active.pe_size ≡ true = ground (arith, lt) in
      let waits : leb 1 (index_of active me) ≡ true = ground (arith, le) in rw (more, waits, z) refl

  module _ (behind : active.pe_size ≤ active.pe_start) where
    high : (a : ℕ) → active.pe_size ≤ pe_of active a
    unfolding pe_of
    high a = omega (arith, behind)

    step-Waits :
        (b : ℕ) (s : System)
        → Unwritten s
        → Waits s
        → Waits (scan_step active value (pe_of active b) (s.place (pe_of active b)) s)
    step-Waits b s un waits a le lt = elim (ℕ_discrete (pe_of active a) (pe_of active b)) [
      | no ne ↦ elim (waits a le lt) [
        | inl e ↦ inl (step-elsewhere _ _ s _ ne ∙ e)
        | inr e ↦ inr (step-elsewhere _ _ s _ ne ∙ e)
      ]
      | yes same ↦
          subst
            (λ q.
              ((scan_step active value q (s.place q) s).place (pe_of active a) ≡ notify 0)
              ⊎ ((scan_step active value q (s.place q) s).place (pe_of active a) ≡ await 0))
            same
            (elim (waits a le lt) [
              | inl e ↦ inr (rw e (step_notify (pe_of active a) s))
              | inr e ↦ inr (
                  rw
                    (
                      e,
                      step_await (pe_of active a) s (un (pe_of active a) 0 (high a))
                          (omega (arith, index_of-pe_of active a, le)) (omega arith),
                    )
                    e)
            ])
    ]

    both : (s : System) → Reach active value (initial value) s → Unwritten s × Waits s
    unfolding initial
    both _ begin = (λ q r far. refl, λ a le lt. inl refl)
    both _ (step {t} b lt run) =
        let (un, waits) = both t run in
        (step-Unwritten (pe_of active b) _ t un, step-Waits b t un waits)

    -- Where the set starts at a PE whose number is not below the number of members, every member but
    -- the first is, in any interleaving of the steps, before the wait of round 0 or at it for ever.
    pub scan_stuck :
        (s : System)
        → Reach active value (initial value) s
        → (a : ℕ) → 1 ≤ a
        → a < active.pe_size
        → (s.place (pe_of active a) ≡ notify 0) ⊎ (s.place (pe_of active a) ≡ await 0)
    scan_stuck s run a le lt = (both s run).1 a le lt
