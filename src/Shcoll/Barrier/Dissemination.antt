-- ===== src/Shcoll/Barrier/Dissemination.antt =====
-- osss-ucx/src/shcoll/src/barrier.c: the dissemination barrier, run by all PEs of an active set in any
-- order of their actions.
use paw.Prelude.{
  ℕ, suc, ◌+◌, ◌-◌, ◌*◌, ◌%◌, ◌^◌, ◌<◌, ◌≤◌, ◌≡◌, refl, sym, ap, ◌∙◌, subst, arith, [], ◌∷◌, dec_lt,
  ℕ_discrete,
}
use paw.Sync.{cmp_ne, compare_op}
use paw.Shcoll.{
  wait_until, atomic_inc, fetch_add, System, ActiveSet, pe_of, perform, act_next, step, move,
  set_at, done,
}
use paw.Shcoll.Indices.{index_of-pe_of}
use paw.Shcoll.Barrier.{dissemination_rounds}
use paw.Shcoll.Barrier.Ring.{behind, below_two_pow}
use paw.Shcoll.Barrier.Updates.{sent, cleared, words_kept}
use paw.Shcoll.Barrier.Words.{sending, awaiting, clearing, Inv, rounds_step, rounds_end, advance}

module _ (active : ActiveSet) where
  -- What the next action of a member does.
  pub data Outcome (s : System) (pos : ℕ → ℕ) (a : ℕ) : Type 0 where
    finished :
        s.todo (pe_of active a) ≡ []
        → (r : ℕ) → pos a ≡ 3 * r
        → active.pe_size ≤ 2 ^ r
        → Outcome s pos a
    blocked :
        (r : ℕ)
        → pos a ≡ 3 * r + 1
        → 2 ^ r < active.pe_size
        → s.sync (pe_of active a) r ≡ 0
        → step (move (pe_of active a)) s ≡ s
        → Outcome s pos a
    moved :
        Inv active (step (move (pe_of active a)) s) (set_at pos a (suc (pos a))) → Outcome s pos a

  module _ {s : System} {pos : ℕ → ℕ} (inv : Inv active s pos) (a : ℕ)
      (lt : a < active.pe_size) where
    sending-moved :
        (r : ℕ)
        → pos a ≡ 3 * r
        → 2 ^ r < active.pe_size
        → s.todo (pe_of active a)
          ≡ dissemination_rounds (active.pe_size - r) active (pe_of active a) r
        → Inv active (step (move (pe_of active a)) s) (set_at pos a (suc (pos a)))
    unfolding step act_next perform
    sending-moved r at lt_r todo =
        let me = pe_of active a in
        let e = rw (index_of-pe_of active a) at (todo ∙ rounds_step active me r lt_r) in
        let rest =
          wait_until r cmp_ne 0
          ∷ fetch_add r (2 ^ 64 - 1) me
          ∷ dissemination_rounds (active.pe_size - suc r) active me (suc r) in
        let t = perform me (atomic_inc r (pe_of active ((a + 2 ^ r) % active.pe_size))) rest s in
        subst (λ l. Inv active (act_next me l s) (set_at pos a (suc (pos a)))) (sym e)
          (advance active {t = t} a rest inv lt refl refl (awaiting r (omega (arith, at)) lt_r refl)
            (sent active inv a lt t r at lt_r refl) (λ q lt_q h. absurd (omega (arith, at, h))))

    awaiting-moved :
        (r : ℕ)
        → pos a ≡ 3 * r + 1
        → 2 ^ r < active.pe_size
        → s.todo (pe_of active a)
          ≡ wait_until r cmp_ne 0
            ∷ fetch_add r (2 ^ 64 - 1) (pe_of active a)
            ∷ dissemination_rounds (active.pe_size - suc r) active (pe_of active a) (suc r)
        → Outcome s pos a
    unfolding step act_next perform compare_op
    awaiting-moved r at lt_r todo =
        let me = pe_of active a in
        let rest =
          fetch_add r (2 ^ 64 - 1) me
          ∷ dissemination_rounds (active.pe_size - suc r) active me (suc r) in
        let w = inv.words a r lt lt_r in
        elim (ℕ_discrete (s.sync me r) 0) [
          | yes clear ↦ blocked r at lt_r clear (ap (λ l. act_next me l s) todo ∙ rw clear refl)
          | no set ↦
              let there : 3 * r < pos (behind active.pe_size r a) = ground (arith, w, at, set) in
              let e : act_next me (s.todo me) s ≡ done me rest s =
                ap (λ l. act_next me l s) todo ∙ ground (arith, set) in
              moved (
                subst (λ t. Inv active t (set_at pos a (suc (pos a)))) (sym e)
                  (advance active {t = done me rest s} a rest inv lt refl refl
                    (clearing r (omega (arith, at)) lt_r refl)
                    (λ b q lt_b lt_q.
                      words_kept active inv a lt (done me rest s) b q lt_b lt_q refl
                        (λ same h. omega (arith, at, h)) (λ same h. omega (arith, at, h)))
                    (λ q lt_q h.
                      let eq : r ≡ q = omega (arith, at, h) in
                      subst (λ x. 3 * x < pos (behind active.pe_size x a)) eq there)))
        ]

    clearing-moved :
        (r : ℕ)
        → pos a ≡ 3 * r + 2
        → 2 ^ r < active.pe_size
        → s.todo (pe_of active a)
          ≡ fetch_add r (2 ^ 64 - 1) (pe_of active a)
            ∷ dissemination_rounds (active.pe_size - suc r) active (pe_of active a) (suc r)
        → Inv active (step (move (pe_of active a)) s) (set_at pos a (suc (pos a)))
    unfolding step act_next perform
    clearing-moved r at lt_r todo =
        let me = pe_of active a in
        let rest = dissemination_rounds (active.pe_size - suc r) active me (suc r) in
        let t = perform me (fetch_add r (2 ^ 64 - 1) me) rest s in
        subst (λ l. Inv active (act_next me l s) (set_at pos a (suc (pos a)))) (sym todo)
          (advance active {t = t} a rest inv lt refl refl
            (sending (suc r) (omega (arith, at)) (let k = below_two_pow r in omega (arith, k, lt_r))
              refl)
            (cleared active inv a lt t r at lt_r refl) (λ q lt_q h. absurd (omega (arith, at, h))))

    pub outcome : Outcome s pos a
    outcome = elim (inv.place a lt) [
      | sending r at few todo ↦ elim (dec_lt (2 ^ r) active.pe_size) [
        | yes lt_r ↦ moved (sending-moved r at lt_r todo)
        | no nlt ↦
            finished (todo ∙ rounds_end active (pe_of active a) r _ (omega (arith, nlt))) r at
              (omega (arith, nlt))
      ]
      | awaiting r at lt_r todo ↦ awaiting-moved r at lt_r todo
      | clearing r at lt_r todo ↦ moved (clearing-moved r at lt_r todo)
    ]
