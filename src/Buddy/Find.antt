-- ===== src/Buddy/Find.antt =====
-- osss-ucx/src/api/allocator/memalloc.c: the two loops of `buddy_free`, by recursion from the root: the
-- block that a unit is in, and the tree after that block was given back.
use paw.Prelude.{
  ℕ, zero, suc, ◌+◌, ◌-◌, ◌*◌, ◌^◌, ◌≤◌, ◌<◌, ◌≡◌, refl, ◌∙◌, sym, arith, inl, inr, Option, none,
  some, ltb, ◌==◌, Bool-cases, if◌then◌else◌, ap, Bool, false, true, ◌⊎◌,
}
use paw.Prelude.Int.{ℤ, minus_one, eq_ℤ}
use paw.Buddy.{get_parent_idx, find_block}
use paw.Buddy.Nodes.{Fits}
use paw.Buddy.Subtree.{double, parent-left, parent-right, Fits-left, Fits-right}
use paw.Prelude.Words.{two_pow_suc, two_pow_pos}
use paw.Buddy.Alloc.{eq_ℤ-eq}

-- Unit `unit` of those below entry `idx` is below this child, as this unit of it.
abbrev pub child_of : ℕ → ℕ → ℕ → ℕ
child_of h idx unit = if ltb unit (2 ^ h) then idx * 2 + 1 else idx * 2 + 2

abbrev pub unit_of : ℕ → ℕ → ℕ
unit_of h unit = if ltb unit (2 ^ h) then unit else unit - 2 ^ h

-- The entry of a single unit.
abbrev pub leaf_of : ℕ → ℕ → ℕ → ℕ
leaf_of h idx unit = (idx + 1) * 2 ^ h - 1 + unit

abbrev pub or_else {ℓ} : {A : Type ℓ} → Option A → Option A → Option A
or_else none y = y
or_else (some x) y = some x

-- The lowest entry above a unit that is -1, with its level.
unfoldable pub found : (ℕ → ℤ) → ℕ → ℕ → ℕ → Option (ℕ × ℕ)
found t zero idx unit = if eq_ℤ (t idx) minus_one then some (idx, 0) else none
found t (suc h) idx unit =
    or_else (found t h (child_of h idx unit) (unit_of h unit))
      (if eq_ℤ (t idx) minus_one then some (idx, suc h) else none)

-- Where `find_block` goes on from an entry that is not -1.
abbrev after : ℕ → (ℕ → ℤ) → ℕ → ℕ → Option (ℕ × ℕ)
after zero t idx level = none
after (suc fuel) t idx level =
    if idx == 0 then none else find_block fuel t (get_parent_idx idx) (level + 1)

find_block_here :
    (fuel : ℕ) (t : ℕ → ℤ) (idx level : ℕ)
    → find_block fuel t idx level
      ≡ or_else
          (if eq_ℤ (t idx) minus_one then some (idx, level) else none)
          (after fuel t idx level)
unfolding find_block
find_block_here zero t idx level = ground arith
find_block_here (suc fuel) t idx level = ground arith

or_else_assoc {ℓ} :
    {A : Type ℓ} (x y z : Option A) → or_else (or_else x y) z ≡ or_else x (or_else y z)
or_else_assoc none y z = refl
or_else_assoc (some x) y z = refl

-- What holds of both children holds of the one that a unit is below.
pub child_of_both {ℓ} :
    (P : ℕ → ℕ → Type ℓ) (h idx unit : ℕ)
    → (unit < 2 ^ h → P (idx * 2 + 1) unit)
    → (2 ^ h ≤ unit → P (idx * 2 + 2) (unit - 2 ^ h))
    → P (child_of h idx unit) (unit_of h unit)
child_of_both P h idx unit l r = elim (Bool-cases (ltb unit (2 ^ h))) [
  | inl e ↦ rw e (l (ground arith))
  | inr e ↦ rw e (r (ground arith))
]

leaf_below :
    (h idx unit : ℕ)
    → unit < 2 ^ suc h
    → leaf_of (suc h) idx unit ≡ leaf_of h (child_of h idx unit) (unit_of h unit)
leaf_below h idx unit lt =
    child_of_both (λ c u. leaf_of (suc h) idx unit ≡ leaf_of h c u) h idx unit
      (λ l. omega (arith, double (idx + 1) h, one_more idx (2 ^ h), two_pow_pos h))
      (λ l. omega (arith, double (idx + 1) h, two_more idx (2 ^ h), two_pow_pos h))
  where
    one_more : (i c : ℕ) → (i * 2 + 1 + 1) * c ≡ (i + 1) * 2 * c
    one_more i c = omega arith

    two_more : (i c : ℕ) → (i * 2 + 2 + 1) * c ≡ (i + 1) * 2 * c + c
    two_more i c = omega arith

-- From a child the search goes on at the entry above it.
after_child :
    (fuel : ℕ) (t : ℕ → ℤ) (h idx unit : ℕ)
    → Fits (suc h) idx
    → after (suc fuel) t (child_of h idx unit) h ≡ find_block fuel t idx (suc h)
after_child fuel t h idx unit f =
    child_of_both (λ c u. after (suc fuel) t c h ≡ find_block fuel t idx (suc h)) h idx unit
      (λ l.
        rw (parent-left h idx f, below (idx * 2 + 1) (omega arith))
          (ap (find_block fuel t idx) (omega arith)))
      (λ l.
        rw (parent-right h idx f, below (idx * 2 + 2) (omega arith))
          (ap (find_block fuel t idx) (omega arith)))
  where
    below : (c : ℕ) → 0 < c → (c == 0) ≡ false
    below c lt = ground arith

-- The search from a unit's own entry finds what `found` names, or goes on above `idx`.
find_block-found :
    (t : ℕ → ℤ) (h idx unit fuel : ℕ)
    → Fits h idx
    → unit < 2 ^ h
    → find_block (h + fuel) t (leaf_of h idx unit) 0
      ≡ or_else (found t h idx unit) (after fuel t idx h)
unfolding found
find_block-found t zero idx unit fuel f lt =
    let at : leaf_of zero idx unit ≡ idx = omega arith in
    let enough : 0 + fuel ≡ fuel = omega arith in rw (at, enough) (find_block_here fuel t idx 0)
find_block-found t (suc h) idx unit fuel f lt =
    let enough : suc h + fuel ≡ h + suc fuel = omega arith in
    rw
      (
        enough,
        leaf_below h idx unit lt,
        child_of_both
            (λ c u.
              find_block (h + suc fuel) t (leaf_of h c u) 0
              ≡ or_else (found t h c u) (after (suc fuel) t c h))
            h idx unit
            (λ l. find_block-found t h (idx * 2 + 1) unit (suc fuel) (Fits-left h idx f) l)
            (λ l.
              find_block-found t h (idx * 2 + 2) (unit - 2 ^ h) (suc fuel) (Fits-right h idx f)
                (omega (arith, two_pow_suc h))),
        after_child fuel t h idx unit f,
        find_block_here fuel t idx (suc h),
      )
      (sym (or_else_assoc (found t h (child_of h idx unit) (unit_of h unit)) _ _))

-- From the root the fuel is enough: the search finds the lowest entry above the unit that is -1, or
-- fails at the root.
pub find_block_lem :
    (t : ℕ → ℤ) (h unit : ℕ)
    → Fits h 0
    → unit < 2 ^ h
    → find_block h t (2 ^ h - 1 + unit) 0 ≡ found t h 0 unit
find_block_lem t h unit f lt =
    let all : h + 0 ≡ h = omega arith in
    let at : (0 + 1) * 2 ^ h - 1 + unit ≡ 2 ^ h - 1 + unit = omega arith in
    sym (ap (λ n. find_block n t (2 ^ h - 1 + unit) 0) all)
    ∙ sym (ap (λ j. find_block (h + 0) t j 0) at)
    ∙ find_block-found t h 0 unit 0 f lt
    ∙ or_else-none (found t h 0 unit)
  where
    or_else-none : (x : Option (ℕ × ℕ)) → or_else x none ≡ x
    or_else-none none = refl
    or_else-none (some x) = refl

-- The two ways to find a block: below, or at the entry itself.
pub found_cases :
    (t : ℕ → ℤ) (h idx unit i l : ℕ)
    → found t (suc h) idx unit ≡ some (i, l)
    → (found t h (child_of h idx unit) (unit_of h unit) ≡ some (i, l))
      ⊎ ((found t h (child_of h idx unit) (unit_of h unit) ≡ none)
          × (t idx ≡ minus_one)
          × (i ≡ idx)
          × (l ≡ suc h))
unfolding found
found_cases t h idx unit i l e = by_child (found t h (child_of h idx unit) (unit_of h unit)) refl
  where
    own :
        (b : Bool)
        → eq_ℤ (t idx) minus_one ≡ b
        → if◌then◌else◌ {A = Option (ℕ × ℕ)} b (some (idx, suc h)) none ≡ some (i, l)
        → (t idx ≡ minus_one) × (i ≡ idx) × (l ≡ suc h)
    own true p q = (eq_ℤ-eq (t idx) minus_one p, cc, cc)
    own false p q = cc

    by_child :
        (x : Option (ℕ × ℕ))
        → found t h (child_of h idx unit) (unit_of h unit) ≡ x
        → (x ≡ some (i, l)) ⊎ ((x ≡ none) × (t idx ≡ minus_one) × (i ≡ idx) × (l ≡ suc h))
    by_child none p =
        let (m, q, r) = own (eq_ℤ (t idx) minus_one) refl (rw p at e) in inr (refl, m, q, r)
    by_child (some x) p = inl (rw p at e)

pub found_unit :
    (t : ℕ → ℤ) (idx unit i l : ℕ)
    → found t 0 idx unit ≡ some (i, l)
    → (t idx ≡ minus_one) × (i ≡ idx) × (l ≡ 0)
unfolding found
found_unit t idx unit i l e = elim (Bool-cases (eq_ℤ (t idx) minus_one)) [
  | inl p ↦ let q = rw p at e in (eq_ℤ-eq (t idx) minus_one p, cc, cc)
  | inr p ↦ let q = rw p at e in cc
]
