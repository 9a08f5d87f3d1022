-- ===== src/Shcoll/Scan/Result.antt =====
-- What the scan answers in any interleaving, and that it can always be completed.
use paw.Prelude.{
  ℕ, zero, suc, ◌+◌, ◌^◌, ◌≤◌, ◌<◌, ◌≡◌, ◌≢◌, refl, arith, subst, sym, ◌∙◌, ℕ_discrete, ◌⊎◌, inl,
  inr,
}
use paw.Shcoll.Scan.{
  Place, notify, await, collect, clear, settle, finished, System, initial, Reach, begin, step,
}
use paw.Shcoll.Scan.Unit.{unit_step, member_step, unit_move}
use paw.Shcoll.Barrier.{all_pes}
use paw.Shcoll.Scan.Window.{sum_below}
use paw.Shcoll.Scan.Invariant.{Local, Invariant, initial-Invariant}
use paw.Shcoll.Scan.Writes.{unit_step-Invariant}
use paw.Shcoll.Scan.Advance.{left_of, unit_step-place, advance}

finished_or_not : (p : Place) → (p ≡ finished) ⊎ (p ≢ finished)
finished_or_not (notify k) = inr (λ e. cc)
finished_or_not (await k) = inr (λ e. cc)
finished_or_not (collect k) = inr (λ e. cc)
finished_or_not (clear k) = inr (λ e. cc)
finished_or_not (settle k) = inr (λ e. cc)
finished_or_not finished = inl refl

module _ (n : ℕ) (value : ℕ → ℕ) (small : sum_below value n + 1 < 2 ^ 64) where
  Reach-Invariant :
      (s t : System) → Invariant n value s → Reach (all_pes n) value s t → Invariant n value t
  Reach-Invariant s _ inv begin = inv
  Reach-Invariant s _ inv (step {t} me lt run) =
      subst (λ u. Invariant n value u) (sym (member_step n value me t))
        (unit_step-Invariant n value t me lt small (Reach-Invariant s t inv run) (t.place me) refl)

  -- On the PEs from 0 with stride 1, where the sum of all values and 1 is below 2 ^ 64: a member that
  -- has finished, in any interleaving of the steps, has at `dest` the sum of the values of the members
  -- before it.
  pub exclusive_prefix_sum_lem :
      (s : System) (me : ℕ)
      → Reach (all_pes n) value (initial value) s
      → me < n
      → s.place me ≡ finished
      → s.dest me ≡ sum_below value me
  exclusive_prefix_sum_lem s me run lt e =
      let inv = Reach-Invariant (initial value) s (initial-Invariant n value) run in
      subst (λ p. Local value me (s.partial_scan me) (s.dest me) p) e (inv.local me lt)

  Reach_trans :
      (s t u : System)
      → Reach (all_pes n) value s t
      → Reach (all_pes n) value t u
      → Reach (all_pes n) value s u
  Reach_trans s t _ r begin = r
  Reach_trans s t _ r (step me lt q) = step me lt (Reach_trans s t _ r q)

  -- One member finishes while the others stand still.
  abbrev Finishes : System → ℕ → Type 0
  Finishes s me =
      (t : System) × Reach (all_pes n) value s t
      × (t.place me ≡ finished)
      × ((q : ℕ) → q ≢ me → t.place q ≡ s.place q)

  -- The rest of a run of one member, after a step of it.
  after_step :
      (me : ℕ) (s : System)
      → me < n
      → Finishes (unit_step n value me (s.place me) s) me
      → Finishes s me
  after_step me s lt (t, run, e, keep) = (
    t,
    Reach_trans s (unit_step n value me (s.place me) s) t (unit_move n value s s me lt begin) run,
    e,
    λ q ne. keep q ne ∙ unit_step-place n value me (s.place me) s q ne,
  )

  lone-Finishes :
      (fuel me : ℕ) (s : System)
      → me < n
      → Invariant n value s
      → ((p : ℕ) → p < me → s.place p ≡ finished)
      → left_of n (s.place me) ≤ fuel
      → Finishes s me
  lone-Finishes zero me s lt inv lower most = elim (finished_or_not (s.place me)) [
    | inl e ↦ (s, begin, e, λ q ne. refl)
    | inr ne ↦
        let (new, e, less) = advance n value s me lt inv lower (s.place me) refl ne in
        absurd (omega arith)
  ]
  lone-Finishes (suc fuel) me s lt inv lower most = elim (finished_or_not (s.place me)) [
    | inl e ↦ (s, begin, e, λ q ne. refl)
    | inr ne ↦
        let (new, e, less) = advance n value s me lt inv lower (s.place me) refl ne in
        after_step me s lt (
          lone-Finishes fuel me (unit_step n value me (s.place me) s) lt
            (unit_step-Invariant n value s me lt small inv (s.place me) refl)
            (λ p le. unit_step-place n value me (s.place me) s p (omega arith) ∙ lower p le)
            (rw e (omega arith)))
  ]

  first_finish :
      (m : ℕ) (s : System)
      → m ≤ n
      → Invariant n value s
      → (t : System) × Reach (all_pes n) value s t × ((p : ℕ) → p < m → t.place p ≡ finished)
  first_finish zero s le inv = (s, begin, λ p lt. absurd (omega arith))
  first_finish (suc m) s le inv =
      let (t, run, lower) = first_finish m s (omega arith) inv in
      let inv_t = Reach-Invariant s t inv run in
      let (u, more, e, keep) =
        lone-Finishes (left_of n (t.place m)) m t (omega arith) inv_t lower (omega arith) in
      (
        u,
        Reach_trans s t u run more,
        λ p lt. elim (ℕ_discrete p m) [
          | yes same ↦ rw same e
          | no ne ↦ keep p ne ∙ lower p (omega arith)
        ],
      )

  -- On the PEs from 0 with stride 1, where the sum of all values and 1 is below 2 ^ 64: from every state
  -- that is reached from the start, the members can go on until all have finished, each with the sum of
  -- the values before its own.
  pub scan_completes :
      (s : System)
      → Reach (all_pes n) value (initial value) s
      → (t : System) × Reach (all_pes n) value s t
        × ((me : ℕ) → me < n → (t.place me ≡ finished) × (t.dest me ≡ sum_below value me))
  scan_completes s run =
      let inv = Reach-Invariant (initial value) s (initial-Invariant n value) run in
      let (t, more, done) = first_finish n s (omega arith) inv in
      let all = Reach_trans (initial value) s t run more in
      (t, more, λ me lt. (done me lt, exclusive_prefix_sum_lem t me all lt (done me lt)))
