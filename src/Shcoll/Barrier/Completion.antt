-- ===== src/Shcoll/Barrier/Completion.antt =====
-- osss-ucx/src/shcoll/src/barrier.c: when PEs return from the dissemination barrier.
use paw.Prelude.{
  ℕ, zero, suc, ◌+◌, ◌-◌, ◌*◌, ◌^◌, ◌<◌, ◌≤◌, ◌≡◌, ◌≢◌, sym, ap, ◌∙◌, subst, arith, Option, none,
  some, List, [], ◌∷◌, inl, inr, ◌⊎◌, dec_lt, ℕ_discrete,
}
use paw.Prelude.Words.{two_pow_suc, two_pow_mono}
use paw.Shcoll.{Act, atomic_inc, System, ActiveSet, pe_of, step, move, Reach, here, next, set_at}
use paw.Shcoll.Barrier.{dissemination_rounds, helper_dissemination}
use paw.Shcoll.Barrier.Ring.{behind, below_two_pow, behind-lt}
use paw.Shcoll.Barrier.Words.{At, sending, awaiting, clearing, Inv, rounds_step, rounds_end}
use paw.Shcoll.Barrier.Dissemination.{finished, blocked, moved, outcome}
use paw.Shcoll.Barrier.Runs.{Reach-trans, Start, Reach-Inv}
use paw.Shcoll.Barrier.Ring.{back, back-behind, back_zero, back-gap}
use paw.Shcoll.Sums.{least, total, total-bound, total-bump}

-- The number of the word that a PE increments first.
first_slot : List Act → Option ℕ
first_slot (atomic_inc i pe ∷ rest) = some i
first_slot _ = none

not_empty : (x : Act) (xs : List Act) → x ∷ xs ≢ []
not_empty x xs e = cc

not_some : {i : ℕ} → none ≢ some i
not_some e = cc

module _ (active : ActiveSet) where
  At-finished :
      (me p : ℕ) (l : List Act)
      → At active me p l
      → l ≡ []
      → (r : ℕ) × (p ≡ 3 * r) × (active.pe_size ≤ 2 ^ r)
  At-finished me p l (sending r at few todo) e = elim (dec_lt (2 ^ r) active.pe_size) [
    | yes lt_r ↦ absurd (not_empty _ _ (sym (todo ∙ rounds_step active me r lt_r) ∙ e))
    | no le ↦ (r, at, omega (arith, le))
  ]
  At-finished me p l (awaiting r at lt_r todo) e = absurd (not_empty _ _ (sym todo ∙ e))
  At-finished me p l (clearing r at lt_r todo) e = absurd (not_empty _ _ (sym todo ∙ e))

  -- A PE that has come as far as a finished one has finished.
  At-last :
      (me p r : ℕ) (l : List Act) → At active me p l → 3 * r ≤ p → active.pe_size ≤ 2 ^ r → l ≡ []
  At-last me p r l (sending q at few todo) far le =
      todo
      ∙ rounds_end active me q _
          (let k = two_pow_mono r q (omega (arith, at, far)) in omega (arith, k, le))
  At-last me p r l (awaiting q at lt_q todo) far le =
      let k = two_pow_mono r q (omega (arith, at, far)) in absurd (omega (arith, k, le, lt_q))
  At-last me p r l (clearing q at lt_q todo) far le =
      let k = two_pow_mono r q (omega (arith, at, far)) in absurd (omega (arith, k, le, lt_q))

  slot_of_start :
      (me : ℕ) → 1 < active.pe_size → first_slot (helper_dissemination active me) ≡ some 0
  unfolding first_slot helper_dissemination
  slot_of_start me lt =
      let e : dissemination_rounds active.pe_size active me 0
          ≡ dissemination_rounds (active.pe_size - 0) active me 0 =
        ap (λ n. dissemination_rounds n active me 0) (omega arith) in
      ap first_slot (e ∙ rounds_step active me 0 lt)

  At-started : (me p : ℕ) (l : List Act) → At active me p l → 0 < p → first_slot l ≢ some 0
  unfolding first_slot
  At-started me p l (sending r at few todo) pos e = elim (dec_lt (2 ^ r) active.pe_size) [
    | yes lt_r ↦
        let k = sym (ap first_slot (todo ∙ rounds_step active me r lt_r)) ∙ e in ground (arith, k)
    | no le ↦
        not_some (sym (ap first_slot (todo ∙ rounds_end active me r _ (omega (arith, le)))) ∙ e)
  ]
  At-started me p l (awaiting r at lt_r todo) pos e = not_some (sym (ap first_slot todo) ∙ e)
  At-started me p l (clearing r at lt_r todo) pos e = not_some (sym (ap first_slot todo) ∙ e)

  -- After round `r` a PE knows that all members up to `2 ^ r` behind it have started.
  heard :
      {s : System} {pos : ℕ → ℕ} (inv : Inv active s pos) (r a d : ℕ)
      → a < active.pe_size
      → d < active.pe_size
      → d < 2 ^ r
      → 3 * r ≤ pos a
      → 0 < pos a
      → 0 < pos (back active.pe_size d a)
  heard {s} {pos} inv zero a d lt lt_d near far started =
      let e : d ≡ 0 = omega (arith, near) in
      subst (λ x. 0 < pos (back active.pe_size x a)) (sym e)
        (subst (λ x. 0 < pos x) (sym (back_zero active.pe_size a)) started)
  heard {s} {pos} inv (suc r) a d lt lt_d near far started = elim (dec_lt (2 ^ r) active.pe_size) [
    | no le ↦ heard inv r a d lt lt_d (omega (arith, lt_d, le)) (omega (arith, far)) started
    | yes lt_r ↦ elim (dec_lt d (2 ^ r)) [
      | yes below ↦ heard inv r a d lt lt_d below (omega (arith, far)) started
      | no above ↦
          let n = active.pe_size in
          let o = inv.order a r lt lt_r (omega (arith, far)) in
          let two = two_pow_suc r in
          subst (λ x. 0 < pos x) (back-behind n r d a lt lt_d (omega (arith, above)))
            (heard inv r (behind n r a) (d - 2 ^ r) (behind-lt n r a lt lt_r) (omega (arith, lt_d))
              (omega (arith, near, two, above)) (omega (arith, o)) (omega (arith, o)))
    ]
  ]

  -- The dissemination barrier holds: all PEs of an active set of at least two call
  -- `barrier_sync_helper_dissemination`, in any order of their actions, on words of `pSync` that are
  -- zero. As soon as one member has returned, no member has its whole call still before it.
  pub dissemination_waits :
      {s t : System}
      → 1 < active.pe_size
      → Start active s
      → Reach s t
      → (a b : ℕ) → a < active.pe_size
      → b < active.pe_size
      → t.todo (pe_of active a) ≡ []
      → t.todo (pe_of active b) ≢ helper_dissemination active (pe_of active b)
  dissemination_waits {s} {t} many start run a b lt_a lt_b over e =
      let (pos, inv) = Reach-Inv active start run in
      let (r, at, le) = At-finished (pe_of active a) (pos a) _ (inv.place a lt_a) over in
      let (d, lt_d, gap) = back-gap active.pe_size a b lt_a lt_b in
      let begun : 0 < pos a = elim (ℕ_discrete r 0) [
        | yes zero_r ↦
            let k : active.pe_size ≤ 2 ^ 0 = subst (λ x. active.pe_size ≤ 2 ^ x) zero_r le in
            absurd (omega (arith, k, many))
        | no ne ↦ omega (arith, ne, at)
      ] in
      let h =
        subst (λ x. 0 < pos x) gap
          (heard inv r a d lt_a lt_d (omega (arith, lt_d, le)) (omega (arith, at)) begun) in
      At-started (pe_of active b) (pos b) _ (inv.place b lt_b) h
        (ap first_slot e ∙ slot_of_start (pe_of active b) many)

  -- Nothing is left to do once each member is at the end of the rounds.
  goes_on :
      {s : System} {pos : ℕ → ℕ}
      → Inv active s pos
      → ((a : ℕ) → a < active.pe_size → s.todo (pe_of active a) ≡ [])
        ⊎ ((a : ℕ) × (a < active.pe_size)
            × Inv active (step (move (pe_of active a)) s) (set_at pos a (suc (pos a))))
  goes_on {s} {pos} inv = elim (ℕ_discrete active.pe_size 0) [
    | yes e ↦ inl (λ a lt. absurd (omega (arith, e, lt)))
    | no ne ↦
        let (a, small, le) = least pos (active.pe_size - 1) in
        let lt : a < active.pe_size = omega (arith, small, ne) in
        elim (outcome active inv a lt) [
          | finished todo r at size ↦ inl (λ b lt_b.
              At-last (pe_of active b) (pos b) r _ (inv.place b lt_b)
                (let k = le b (omega (arith, lt_b)) in omega (arith, k, at)) size)
          | blocked r at lt_r clear same ↦
              let w = inv.words a r lt lt_r in
              let k =
                le (behind active.pe_size r a)
                  (let q = behind-lt active.pe_size r a lt lt_r in omega (arith, q)) in
              absurd (ground (arith, w, k, at, clear))
          | moved after ↦ inr (a, lt, after)
        ]
  ]

  pos-bound : (me p : ℕ) (l : List Act) → At active me p l → p ≤ 3 * active.pe_size
  pos-bound me p l (sending r at few todo) = omega (arith, at, few)
  pos-bound me p l (awaiting r at lt_r todo) = let k = below_two_pow r in omega (arith, k, lt_r, at)
  pos-bound me p l (clearing r at lt_r todo) = let k = below_two_pow r in omega (arith, k, lt_r, at)

  run_on :
      (left : ℕ) {s : System} {pos : ℕ → ℕ}
      → Inv active s pos
      → active.pe_size * (3 * active.pe_size) ≤ total pos active.pe_size + left
      → (t : System) × Reach s t × ((a : ℕ) → a < active.pe_size → t.todo (pe_of active a) ≡ [])
  run_on zero {s} {pos} inv le = elim (goes_on inv) [
    | inl all ↦ (s, here, all)
    | inr (a, lt, after) ↦
        let k = total-bump pos active.pe_size a lt in
        let top =
          total-bound (set_at pos a (suc (pos a))) active.pe_size (3 * active.pe_size)
            (λ b lt_b. pos-bound (pe_of active b) _ _ (after.place b lt_b)) in
        absurd (omega (arith, k, le, top))
  ]
  run_on (suc left) {s} {pos} inv le = elim (goes_on inv) [
    | inl all ↦ (s, here, all)
    | inr (a, lt, after) ↦
        let (t, run, all) =
          run_on left after (let k = total-bump pos active.pe_size a lt in omega (arith, k, le)) in
        (t, Reach-trans (next (move (pe_of active a)) here) run, all)
  ]

  -- From every state that such a call can reach, some order of the remaining actions leads to a state
  -- in which all members have returned.
  pub dissemination_completes :
      {s t : System}
      → Start active s
      → Reach s t
      → (u : System) × Reach t u × ((a : ℕ) → a < active.pe_size → u.todo (pe_of active a) ≡ [])
  dissemination_completes start run =
      run_on (active.pe_size * (3 * active.pe_size)) (Reach-Inv active start run).1 (omega arith)

  -- A member that has returned from such a call has in every word of `pSync` that the rounds use the
  -- value that it had before.
  pub dissemination_resets :
      {s t : System}
      → Start active s
      → Reach s t
      → (a r : ℕ) → a < active.pe_size
      → 2 ^ r < active.pe_size
      → t.todo (pe_of active a) ≡ []
      → t.sync (pe_of active a) r ≡ s.sync (pe_of active a) r
  dissemination_resets {s} {t} start run a r lt lt_r over =
      let (pos, inv) = Reach-Inv active start run in
      let (last, at, le) = At-finished (pe_of active a) (pos a) _ (inv.place a lt) over in
      let below : r < last = elim (dec_lt r last) [
        | yes h ↦ h
        | no h ↦
            let k = two_pow_mono last r (omega (arith, h)) in absurd (omega (arith, k, le, lt_r))
      ] in
      let w = inv.words a r lt lt_r in
      let before = start.words_zero a r lt lt_r in ground (arith, w, at, below, before)
