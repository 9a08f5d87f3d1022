-- ===== src/Shcoll/Barrier/Words.antt =====
-- osss-ucx/src/shcoll/src/barrier.c: what holds of `pSync` and of the PEs all through a dissemination
-- barrier.
use paw.Prelude.{
  ℕ, zero, suc, ◌+◌, ◌-◌, ◌*◌, ◌%◌, ◌^◌, ◌<◌, ◌≤◌, ◌≡◌, ◌≢◌, refl, ap, ◌∙◌, subst, arith, List, [],
  ◌∷◌, dec_lt, ℕ_discrete,
}
use paw.Sync.{cmp_ne}
use paw.Shcoll.{Act, wait_until, atomic_inc, fetch_add, System, ActiveSet, pe_of, index_of, set_at}
use paw.Shcoll.Indices.{pe_of-injective}
use paw.Shcoll.Barrier.{dissemination_rounds}
use paw.Shcoll.Barrier.Ring.{behind, past, below_two_pow, set_at_same, set_at_other, bump_lt}

module _ (active : ActiveSet) where
  -- What a member has left to do, after `p` of its actions.
  pub data At (me : ℕ) (p : ℕ) (todo : List Act) : Type 0 where
    sending :
        (r : ℕ)
        → p ≡ 3 * r
        → r ≤ active.pe_size
        → todo ≡ dissemination_rounds (active.pe_size - r) active me r
        → At me p todo
    awaiting :
        (r : ℕ)
        → p ≡ 3 * r + 1
        → 2 ^ r < active.pe_size
        → todo
          ≡ wait_until r cmp_ne 0
            ∷ fetch_add r (2 ^ 64 - 1) me
            ∷ dissemination_rounds (active.pe_size - suc r) active me (suc r)
        → At me p todo
    clearing :
        (r : ℕ)
        → p ≡ 3 * r + 2
        → 2 ^ r < active.pe_size
        → todo
          ≡ fetch_add r (2 ^ 64 - 1) me
            ∷ dissemination_rounds (active.pe_size - suc r) active me (suc r)
        → At me p todo

  -- `pos a` counts the actions that member `a` has done.
  pub record Inv (s : System) (pos : ℕ → ℕ) : Type 0 where
    pub place : (a : ℕ) → a < active.pe_size → At (pe_of active a) (pos a) (s.todo (pe_of active a))
    pub words :
        (a r : ℕ)
        → a < active.pe_size
        → 2 ^ r < active.pe_size
        → s.sync (pe_of active a) r + past (pos a) (3 * r + 2)
          ≡ past (pos (behind active.pe_size r a)) (3 * r)
    pub order :
        (a r : ℕ)
        → a < active.pe_size
        → 2 ^ r < active.pe_size
        → 3 * r + 1 < pos a
        → 3 * r < pos (behind active.pe_size r a)
    pub outside : (q : ℕ) → ((a : ℕ) → a < active.pe_size → pe_of active a ≢ q) → s.todo q ≡ []
    pub none_pending : (q : ℕ) → s.pending q ≡ []

  pub rounds_step :
      (me r : ℕ)
      → 2 ^ r < active.pe_size
      → dissemination_rounds (active.pe_size - r) active me r
        ≡ atomic_inc r (pe_of active ((index_of active me + 2 ^ r) % active.pe_size))
          ∷ wait_until r cmp_ne 0
          ∷ fetch_add r (2 ^ 64 - 1) me
          ∷ dissemination_rounds (active.pe_size - suc r) active me (suc r)
  unfolding dissemination_rounds
  rounds_step me r lt =
      let small = below_two_pow r in
      let e : active.pe_size - r ≡ suc (active.pe_size - suc r) = omega (arith, small, lt) in
      rw e (ground (arith, lt))

  pub rounds_end :
      (me r fuel : ℕ) → active.pe_size ≤ 2 ^ r → dissemination_rounds fuel active me r ≡ []
  unfolding dissemination_rounds
  rounds_end me r zero le = refl
  rounds_end me r (suc fuel) le = ground arith

  pub behind_first :
      {s : System} {pos : ℕ → ℕ} {a : ℕ}
      → Inv s pos
      → a < active.pe_size
      → ((r : ℕ)
          → 2 ^ r < active.pe_size
          → pos a ≡ 3 * r + 1
          → 3 * r < pos (behind active.pe_size r a))
      → (r : ℕ) → 2 ^ r < active.pe_size
      → 3 * r + 1 < suc (pos a)
      → 3 * r < pos (behind active.pe_size r a)
  behind_first {s} {pos} {a} inv lt first r lt_r h = elim (dec_lt (3 * r + 1) (pos a)) [
    | yes k ↦ inv.order a r lt lt_r k
    | no k ↦ first r lt_r (omega arith)
  ]

  -- Member `a` does one action, with `list` left to do.
  pub advance :
      {s : System} {pos : ℕ → ℕ} {t : System} (a : ℕ) (list : List Act)
      → Inv s pos
      → a < active.pe_size
      → t.todo ≡ set_at s.todo (pe_of active a) list
      → t.pending ≡ s.pending
      → At (pe_of active a) (suc (pos a)) list
      → ((b r : ℕ)
          → b < active.pe_size
          → 2 ^ r < active.pe_size
          → t.sync (pe_of active b) r + past (set_at pos a (suc (pos a)) b) (3 * r + 2)
            ≡ past (set_at pos a (suc (pos a)) (behind active.pe_size r b)) (3 * r))
      → ((r : ℕ)
          → 2 ^ r < active.pe_size
          → pos a ≡ 3 * r + 1
          → 3 * r < pos (behind active.pe_size r a))
      → Inv t (set_at pos a (suc (pos a)))
  advance {s} {pos} {t} a list inv lt todo pending at words first = record {
    place = λ b lt_b. elim (ℕ_discrete a b) [
      | yes e ↦
          subst (λ x. At (pe_of active x) (set_at pos a (suc (pos a)) x) (t.todo (pe_of active x)))
            e
            (rw (todo, set_at_same s.todo (pe_of active a) list, set_at_same pos a (suc (pos a)))
              at)
      | no ne ↦
          rw
            (
              todo,
              set_at_other s.todo (pe_of active a) (pe_of active b) list
                  (λ e. ne (pe_of-injective active a b e)),
              set_at_other pos a b (suc (pos a)) ne,
            )
            (inv.place b lt_b)
    ];
    words = words;
    order = λ b r lt_b lt_r h.
        bump_lt pos a (behind active.pe_size r b) (3 * r) (elim (ℕ_discrete a b) [
          | yes e ↦
              subst
                (λ x.
                  3 * r + 1 < set_at pos a (suc (pos a)) x
                  → 3 * r < pos (behind active.pe_size r x))
                e
                (λ k. behind_first inv lt first r lt_r (rw (set_at_same pos a (suc (pos a))) at k))
                h
          | no ne ↦ inv.order b r lt_b lt_r (rw (set_at_other pos a b (suc (pos a)) ne) at h)
        ]);
    outside = λ q out.
        ap (λ f. f q) todo
        ∙ set_at_other s.todo (pe_of active a) q list (out a lt)
        ∙ inv.outside q out;
    none_pending = λ q. ap (λ f. f q) pending ∙ inv.none_pending q;
  }
