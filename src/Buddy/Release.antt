-- ===== src/Buddy/Release.antt =====
-- What `buddy_free` does to a well-formed tree, by recursion from the root: `free_at` marks the block
-- that `found` names and merges free halves on the way up. The loop of the source computes this.
use paw.Prelude.{
  ℕ, zero, suc, ◌+◌, ◌-◌, ◌*◌, ◌^◌, ◌≤◌, ◌<◌, ◌≡◌, refl, ◌∙◌, sym, arith, inl, inr, Option, none,
  some, ◌==◌, ==_iff, Bool-cases, subst, ap,
}
use paw.Prelude.Int.{ℤ, pos}
use paw.Buddy.{put, merge, get_parent_idx, ascend_merge}
use paw.Buddy.Nodes.{Fits}
use paw.Buddy.Subtree.{
  left-eq, right-eq, parent-left, parent-right, Fits-left, Fits-right, Fits_small,
}
use paw.Buddy.Loops.{parent-lt, suc_eq_zero}
use paw.Buddy.Find.{child_of, unit_of, child_of_both, found, found_unit, found_cases}

-- An entry merged from its children.
abbrev pub merge_up : (ℕ → ℤ) → ℕ → ℕ → ℕ → ℤ
merge_up t h idx = put t idx (merge (t (idx * 2 + 1)) (t (idx * 2 + 2)) (suc h))

-- Without a block further down the entry itself is given back.
abbrev mark_or_merge : Option (ℕ × ℕ) → (ℕ → ℤ) → (ℕ → ℤ) → ℕ → ℕ → ℕ → ℤ
mark_or_merge none t below h idx = put t idx (pos (suc h))
mark_or_merge (some x) t below h idx = merge_up below h idx

unfoldable pub free_at : (ℕ → ℤ) → ℕ → ℕ → ℕ → ℕ → ℤ
free_at t zero idx unit = put t idx (pos 0)
free_at t (suc h) idx unit =
    mark_or_merge (found t h (child_of h idx unit) (unit_of h unit)) t
      (free_at t h (child_of h idx unit) (unit_of h unit)) h idx

module _ (t : ℕ → ℤ) (h idx unit : ℕ) where
  pub free_at_here :
      found t h (child_of h idx unit) (unit_of h unit) ≡ none
      → free_at t (suc h) idx unit ≡ put t idx (pos (suc h))
  unfolding free_at
  free_at_here e =
      ap (λ x. mark_or_merge x t (free_at t h (child_of h idx unit) (unit_of h unit)) h idx) e

  pub free_at_below :
      (x : ℕ × ℕ)
      → found t h (child_of h idx unit) (unit_of h unit) ≡ some x
      → free_at t (suc h) idx unit
        ≡ merge_up (free_at t h (child_of h idx unit) (unit_of h unit)) h idx
  unfolding free_at
  free_at_below x e =
      ap (λ x. mark_or_merge x t (free_at t h (child_of h idx unit) (unit_of h unit)) h idx) e

ascend_fuel :
    (f g idx level : ℕ) (t : ℕ → ℤ)
    → idx < 2 ^ 31
    → idx ≤ f
    → idx ≤ g
    → ascend_merge f idx level t ≡ ascend_merge g idx level t
unfolding ascend_merge
ascend_fuel zero zero idx level t b p q = refl
ascend_fuel zero (suc g) idx level t b p q = rw ((==_iff idx 0).1 (omega arith))
ascend_fuel (suc f) zero idx level t b p q = rw ((==_iff idx 0).1 (omega arith))
ascend_fuel (suc f) (suc g) idx level t b p q = elim (Bool-cases (idx == 0)) [
  | inl e ↦ rw e
  | inr ne ↦
      let up = parent-lt idx b (ground arith) in
      rw ne (
        ascend_fuel f g (get_parent_idx idx) (level + 1) _ (omega arith) (omega arith)
          (omega arith))
]

-- One round up, from either child.
merge_round :
    (t : ℕ → ℤ) (h idx c : ℕ)
    → Fits (suc h) idx
    → get_parent_idx (suc c) ≡ idx
    → idx ≤ c
    → ascend_merge (suc c) (suc c) h t ≡ ascend_merge idx idx (suc h) (merge_up t h idx)
unfolding ascend_merge
merge_round t h idx c f e le =
    let up : h + 1 ≡ suc h = omega arith in
    rw (suc_eq_zero c, e, left-eq h idx f, right-eq h idx f, up)
      (ascend_fuel c idx idx (suc h) (merge_up t h idx) (omega (arith, Fits_small h idx f)) le
        (omega arith))

merge_from_child :
    (t : ℕ → ℤ) (h idx unit : ℕ)
    → Fits (suc h) idx
    → ascend_merge (child_of h idx unit) (child_of h idx unit) h t
      ≡ ascend_merge idx idx (suc h) (merge_up t h idx)
merge_from_child t h idx unit f =
    child_of_both (λ c u. ascend_merge c c h t ≡ ascend_merge idx idx (suc h) (merge_up t h idx)) h
      idx unit (λ l. up (idx * 2) (omega arith) (parent-left h idx f) (omega arith))
      (λ l. up (idx * 2 + 1) (omega arith) (parent-right h idx f) (omega arith))
  where
    up :
        (c : ℕ) {c' : ℕ}
        → c' ≡ suc c
        → get_parent_idx c' ≡ idx
        → idx ≤ c
        → ascend_merge c' c' h t ≡ ascend_merge idx idx (suc h) (merge_up t h idx)
    up c {c'} e p q =
        subst (λ d. ascend_merge d d h t ≡ ascend_merge idx idx (suc h) (merge_up t h idx)) (sym e)
          (merge_round t h idx c f (subst (λ d. get_parent_idx d ≡ idx) e p) q)

-- Where the search ends, and what the merging from there on does.
abbrev pub Merges : (ℕ → ℤ) → ℕ → ℕ → ℕ → ℕ → ℕ → Type 0
Merges t h idx unit i l =
    ascend_merge i i l (put t i (pos l)) ≡ ascend_merge idx idx h (free_at t h idx unit)

pub ascend_merge_lem :
    (t : ℕ → ℤ) (h idx unit i l : ℕ)
    → Fits h idx
    → found t h idx unit ≡ some (i, l)
    → Merges t h idx unit i l
unfolding free_at
ascend_merge_lem t zero idx unit i l f e = let (m, p, q) = found_unit t idx unit i l e in rw (p, q)
ascend_merge_lem t (suc h) idx unit i l f e = elim (found_cases t h idx unit i l e) [
  | inl b ↦
      child_of_both (λ c u. found t h c u ≡ some (i, l) → Merges t h c u i l) h idx unit
        (λ lt. ascend_merge_lem t h (idx * 2 + 1) unit i l (Fits-left h idx f))
        (λ ge. ascend_merge_lem t h (idx * 2 + 2) (unit - 2 ^ h) i l (Fits-right h idx f)) b
      ∙ merge_from_child (free_at t h (child_of h idx unit) (unit_of h unit)) h idx unit f
      ∙ ap (ascend_merge idx idx (suc h)) (sym (free_at_below t h idx unit (i, l) b))
  | inr (b, m, p, q) ↦
      rw (p, q) (ap (ascend_merge idx idx (suc h)) (sym (free_at_here t h idx unit b)))
]
