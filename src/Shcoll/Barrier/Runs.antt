-- ===== src/Shcoll/Barrier/Runs.antt =====
-- osss-ucx/src/shcoll/src/barrier.c: whole runs of the dissemination barrier.
use paw.Prelude.{ℕ, ◌^◌, ◌<◌, ◌≡◌, ◌≢◌, refl, sym, ap, ◌∙◌, subst, arith, [], inl, inr}
use paw.Shcoll.{
  System, ActiveSet, pe_of, act_next, step, Turn, move, delivery, Reach, here, next, arrive,
  to_front,
}
use paw.Shcoll.Indices.{member}
use paw.Shcoll.Barrier.{dissemination_rounds, helper_dissemination}
use paw.Shcoll.Barrier.Words.{sending, Inv}
use paw.Shcoll.Barrier.Dissemination.{finished, blocked, moved, outcome}

pub Reach-trans : {s t u : System} → Reach s t → Reach t u → Reach s u
Reach-trans r here = r
Reach-trans r (next turn k) = next turn (Reach-trans r k)

module _ (active : ActiveSet) where
  -- All members are about to call the barrier, the others do nothing, and no put is under way.
  pub record Start (s : System) : Type 0 where
    pub called :
        (a : ℕ)
        → a < active.pe_size
        → s.todo (pe_of active a) ≡ helper_dissemination active (pe_of active a)
    pub words_zero :
        (a r : ℕ) → a < active.pe_size → 2 ^ r < active.pe_size → s.sync (pe_of active a) r ≡ 0
    pub outside : (q : ℕ) → ((a : ℕ) → a < active.pe_size → pe_of active a ≢ q) → s.todo q ≡ []
    pub none_pending : (q : ℕ) → s.pending q ≡ []

  Start-Inv : {s : System} → Start s → Inv active s (λ a. 0)
  unfolding helper_dissemination
  Start-Inv {s} start = record {
    place = λ a lt. sending 0 refl (omega arith) (
        start.called a lt
        ∙ ap (λ n. dissemination_rounds n active (pe_of active a) 0) (omega arith));
    words = λ a r lt lt_r. let e = start.words_zero a r lt lt_r in ground (arith, e);
    order = λ a r lt lt_r h. absurd (omega (arith, h));
    outside = start.outside;
    none_pending = start.none_pending;
  }

  pub step-Inv :
      {s : System} {pos : ℕ → ℕ} (turn : Turn)
      → Inv active s pos
      → (p : ℕ → ℕ) × Inv active (step turn s) p
  unfolding step act_next arrive
  step-Inv {s} {pos} (move q) inv = elim (member active active.pe_size q) [
    | inl (a, lt, e) ↦
        subst (λ x. (p : ℕ → ℕ) × Inv active (step (move x) s) p) e
          (elim (outcome active inv a lt) [
            | finished todo r at le ↦ (
              pos,
              subst (λ t. Inv active t pos) (sym (ap (λ l. act_next (pe_of active a) l s) todo))
                  inv,
            )
            | blocked r at lt_r clear same ↦ (pos, subst (λ t. Inv active t pos) (sym same) inv)
            | moved after ↦ (_, after)
          ])
    | inr out ↦ (
      pos,
      subst (λ t. Inv active t pos) (sym (ap (λ l. act_next q l s) (inv.outside q out))) inv,
    )
  ]
  step-Inv {s} {pos} (delivery q k) inv = (
    pos,
    subst (λ t. Inv active t pos) (sym (ap (λ l. arrive q (to_front k l) s) (inv.none_pending q)))
        inv,
  )

  pub Reach-Inv : {s t : System} → Start s → Reach s t → (p : ℕ → ℕ) × Inv active t p
  Reach-Inv start here = (_, Start-Inv start)
  Reach-Inv start (next turn r) = step-Inv turn (Reach-Inv start r).1
