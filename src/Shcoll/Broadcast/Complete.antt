-- ===== src/Shcoll/Broadcast/Complete.antt =====
-- osss-ucx/src/shcoll/src/broadcast.c: the complete tree on a set whose indices are no PE numbers.
use paw.Prelude.{
  ℕ, ◌<◌, ◌≡◌, ◌≢◌, refl, sym, ap, ◌∙◌, arith, false, List, [], ◌∷◌, inl, inr, ◌==◌, subst,
}
use paw.Sync.{cmp_ne}
use paw.Shcoll.{
  Act, wait_until, System, ActiveSet, pe_of, Turn, move, delivery, step, act_next, perform, arrive,
  to_front, Reach, here, next,
}
use paw.Shcoll.Indices.{member}
use paw.Shcoll.Broadcast.{broadcast_helper_complete_tree}

module _ (target source nbytes PE_root degree : ℕ) (active : ActiveSet) where
  abbrev program : ℕ → List Act
  program = λ me. broadcast_helper_complete_tree target source nbytes PE_root active me degree

  waits_first :
      (me : ℕ) → PE_root ≢ me → (rest : List Act) × (program me ≡ wait_until 0 cmp_ne 0 ∷ rest)
  unfolding broadcast_helper_complete_tree
  waits_first me ne = let e : (PE_root == me) ≡ false = ground (arith, ne) in rw e (_, refl)

  -- All members are about to call the broadcast on words that are zero, the others do nothing, and no
  -- put is under way.
  pub record Start (s : System) : Type 0 where
    pub called :
        (a : ℕ)
        → a < active.pe_size
        → s.todo (pe_of active a)
          ≡ broadcast_helper_complete_tree target source nbytes PE_root active
              (pe_of active a)
              degree
    pub word_zero : (a : ℕ) → a < active.pe_size → s.sync (pe_of active a) 0 ≡ 0
    pub outside : (q : ℕ) → ((a : ℕ) → a < active.pe_size → pe_of active a ≢ q) → s.todo q ≡ []
    pub none_pending : (q : ℕ) → s.pending q ≡ []

  step_stuck :
      {s : System}
      → Start s
      → ((a : ℕ) → a < active.pe_size → pe_of active a ≢ PE_root)
      → (turn : Turn) → step turn s ≡ s
  unfolding step act_next perform arrive paw.Sync.compare_op
  step_stuck {s} start no_root (move q) = elim (member active active.pe_size q) [
    | inl (a, lt, e) ↦
        let (rest, p) = waits_first (pe_of active a) (λ h. no_root a lt (sym h)) in
        let z = start.word_zero a lt in
        subst (λ x. step (move x) s ≡ s) e
          (ap (λ l. act_next (pe_of active a) l s) (start.called a lt ∙ p) ∙ rw z refl)
    | inr out ↦ ap (λ l. act_next q l s) (start.outside q out)
  ]
  step_stuck {s} start no_root (delivery q k) =
      ap (λ l. arrive q (to_front k l) s) (start.none_pending q)

  -- The complete-tree broadcast takes the index `PE_root` for a PE number: on an active set that has no
  -- PE of that number every member waits for a parent, and no turn ever changes the system.
  pub complete_tree_hangs :
      {s t : System}
      → Start s
      → ((a : ℕ) → a < active.pe_size → pe_of active a ≢ PE_root)
      → Reach s t
      → t ≡ s
  complete_tree_hangs start no_root here = refl
  complete_tree_hangs {s} start no_root (next turn r) =
      ap (step turn) (complete_tree_hangs start no_root r) ∙ step_stuck start no_root turn
