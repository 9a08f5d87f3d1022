-- ===== src/Buddy/Give.antt =====
-- Giving a block back, over the blocks of a well-formed tree: `block_of` names the block that a unit is
-- in, and `free_at` takes exactly this block off the list.
use paw.Prelude.{
  ℕ, zero, suc, ◌+◌, ◌-◌, ◌*◌, ◌^◌, ◌≤◌, ◌<◌, ◌≡◌, refl, ◌∙◌, sym, arith, inl, inr, Option, none,
  some, Bool-cases, if◌then◌else◌, ap₂, ltb, leb, ◌&&◌, not, List, [], ◌∷◌, ◌++◌, false, ◌≢◌,
}
use paw.Prelude.Int.{ℤ, minus_one, eq_ℤ}
use paw.Prelude.Words.{two_pow_suc}
use paw.Buddy.{merge}
use paw.Buddy.Nodes.{Free, Valid, blocks}
use paw.Buddy.Subtree.{Valid-Agree, blocks-Agree}
use paw.Buddy.Entry.{Bounded, Valid-Bounded}
use paw.Buddy.Alloc.{put_self, put-Agree_left, put-Agree_right, left_entry, right_entry}
use paw.Buddy.Spec.{Apart, blocks-Apart}
use paw.Buddy.Find.{child_of, unit_of, child_of_both, found, or_else}
use paw.Buddy.Release.{merge_up}

-- The first block of a list that holds a unit.
abbrev pub block_of : ℕ → List (ℕ × ℕ) → Option (ℕ × ℕ)
block_of unit [] = none
block_of unit ((first, e) ∷ rest) =
    if leb first unit && ltb unit (first + 2 ^ e) then some (first, e) else block_of unit rest

pub block_of-append :
    (unit : ℕ) (xs ys : List (ℕ × ℕ))
    → block_of unit (xs ++ ys) ≡ or_else (block_of unit xs) (block_of unit ys)
block_of-append unit [] ys = refl
block_of-append unit ((first, e) ∷ xs) ys =
    elim (Bool-cases (leb first unit && ltb unit (first + 2 ^ e))) [
      | inl h ↦ rw h
      | inr h ↦ rw h (block_of-append unit xs ys)
    ]

pub Apart_le : (lo hi : ℕ) (xs : List (ℕ × ℕ)) → Apart lo xs hi → lo ≤ hi
Apart_le lo hi [] a = a
Apart_le lo hi ((first, e) ∷ xs) a = omega (arith, a.0, Apart_le (first + 2 ^ e) hi xs a.1)

-- No block of a list that ends before a unit, or begins after it, holds the unit.
pub block_of_past :
    (unit lo hi : ℕ) (xs : List (ℕ × ℕ)) → Apart lo xs hi → hi ≤ unit → block_of unit xs ≡ none
block_of_past unit lo hi [] a h = refl
block_of_past unit lo hi ((first, e) ∷ xs) a h =
    let off : leb first unit && ltb unit (first + 2 ^ e) ≡ false =
      ground (arith, Apart_le (first + 2 ^ e) hi xs a.1) in
    rw off (block_of_past unit (first + 2 ^ e) hi xs a.1 h)

pub block_of_before :
    (unit lo hi : ℕ) (xs : List (ℕ × ℕ)) → Apart lo xs hi → unit < lo → block_of unit xs ≡ none
block_of_before unit lo hi [] a h = refl
block_of_before unit lo hi ((first, e) ∷ xs) a h =
    let off : leb first unit && ltb unit (first + 2 ^ e) ≡ false = ground (arith, a.0) in
    rw off (block_of_before unit (first + 2 ^ e) hi xs a.1 (omega (arith, a.0)))

merge-minus_one :
    (l r : ℤ) (h : ℕ)
    → Bounded l h
    → Bounded r h
    → eq_ℤ (merge l r (suc h)) minus_one && not (eq_ℤ l minus_one) ≡ false
unfolding merge
merge-minus_one l r h (inl e) b = rw e (ground arith)
merge-minus_one l r h (inr (k, p, e)) (inl f) = rw (e, f) (ground arith)
merge-minus_one l r h (inr (k, p, e)) (inr (m, q, f)) = ground arith

-- An entry merged from two well-formed halves: its blocks are those of the halves.
pub blocks_halves :
    (t : ℕ → ℤ) (h idx base : ℕ)
    → Valid t h (idx * 2 + 1)
    → Valid t h (idx * 2 + 2)
    → t idx ≡ merge (t (idx * 2 + 1)) (t (idx * 2 + 2)) (suc h)
    → blocks t (suc h) idx base
      ≡ blocks t h (idx * 2 + 1) base ++ blocks t h (idx * 2 + 2) (base + 2 ^ h)
blocks_halves t h idx base l r e = rw (
  e,
  merge-minus_one (t (idx * 2 + 1)) (t (idx * 2 + 2)) h (Valid-Bounded t h (idx * 2 + 1) l)
      (Valid-Bounded t h (idx * 2 + 2) r),
)

-- A search below free entries finds no block.
pub found-Free : (t : ℕ → ℤ) (h idx unit : ℕ) → Free t h idx → found t h idx unit ≡ none
unfolding found
found-Free t zero idx unit f = rw f
found-Free t (suc h) idx unit (e, l, r) = rw (
  child_of_both (λ c u. found t h c u ≡ none) h idx unit (λ lt. found-Free t h (idx * 2 + 1) unit l)
      (λ ge. found-Free t h (idx * 2 + 2) (unit - 2 ^ h) r),
  e,
)

module _ (t : ℕ → ℤ) (h idx : ℕ) (l : Valid t h (idx * 2 + 1)) (r : Valid t h (idx * 2 + 2)) where
  pub merge_up-Valid : Valid (merge_up t h idx) (suc h) idx
  merge_up-Valid = inr (
    Valid-Agree h (idx * 2 + 1) t (merge_up t h idx) (put-Agree_left t h idx _) l,
    Valid-Agree h (idx * 2 + 2) t (merge_up t h idx) (put-Agree_right t h idx _) r,
    put_self t idx _
        ∙ sym (ap₂ (λ x y. merge x y (suc h)) (left_entry t h idx _) (right_entry t h idx _)),
  )

  pub blocks-merge_up :
      (base : ℕ)
      → blocks (merge_up t h idx) (suc h) idx base
        ≡ blocks t h (idx * 2 + 1) base ++ blocks t h (idx * 2 + 2) (base + 2 ^ h)
  blocks-merge_up base = rw shown (
      ap₂ ◌++◌
        (sym (blocks-Agree h (idx * 2 + 1) base t (merge_up t h idx) (put-Agree_left t h idx _)))
        (sym (
          blocks-Agree h (idx * 2 + 2) (base + 2 ^ h) t (merge_up t h idx)
            (put-Agree_right t h idx _))))
    where
      shown :
          eq_ℤ (merge_up t h idx idx) minus_one
            && not (eq_ℤ (merge_up t h idx (idx * 2 + 1)) minus_one)
          ≡ false
      shown =
          ap₂ (λ x y. eq_ℤ x minus_one && not (eq_ℤ y minus_one)) (put_self t idx _)
            (left_entry t h idx _)
          ∙ merge-minus_one (t (idx * 2 + 1)) (t (idx * 2 + 2)) h
              (Valid-Bounded t h (idx * 2 + 1) l) (Valid-Bounded t h (idx * 2 + 2) r)

found-none_entry :
    (t : ℕ → ℤ) (h idx unit : ℕ) → found t h idx unit ≡ none → eq_ℤ (t idx) minus_one ≡ false
unfolding found
found-none_entry t zero idx unit e = elim (Bool-cases (eq_ℤ (t idx) minus_one)) [
  | inl p ↦ let q = rw p at e in cc
  | inr p ↦ p
]
found-none_entry t (suc h) idx unit e = elim (Bool-cases (eq_ℤ (t idx) minus_one)) [
  | inl p ↦ some_last (found t h (child_of h idx unit) (unit_of h unit)) (rw p at e)
  | inr p ↦ p
]
  where
    some_last :
        (x : Option (ℕ × ℕ)) → or_else x (some (idx, suc h)) ≡ none → eq_ℤ (t idx) minus_one ≡ false
    some_last none q = cc
    some_last (some x) q = cc

merge-taken :
    (l r : ℤ) (h : ℕ)
    → Bounded l h
    → Bounded r h
    → merge l r (suc h) ≡ minus_one
    → (l ≡ minus_one) × (r ≡ minus_one)
unfolding merge
merge-taken l r h (inl e) (inl f) g = (e, f)
merge-taken l r h (inl e) (inr (k, p, f)) g = ground arith
merge-taken l r h (inr (k, p, e)) (inl f) g = ground arith
merge-taken l r h (inr (k, p, e)) (inr (m, q, f)) g = ground arith

-- Where the search below a merged entry finds nothing, the entry is not -1.
pub found_merged :
    (t : ℕ → ℤ) (h idx unit : ℕ)
    → Valid t h (idx * 2 + 1)
    → Valid t h (idx * 2 + 2)
    → t idx ≡ merge (t (idx * 2 + 1)) (t (idx * 2 + 2)) (suc h)
    → found t h (child_of h idx unit) (unit_of h unit) ≡ none
    → t idx ≢ minus_one
found_merged t h idx unit l r e n m =
    let (el, er) =
      merge-taken (t (idx * 2 + 1)) (t (idx * 2 + 2)) h (Valid-Bounded t h (idx * 2 + 1) l)
        (Valid-Bounded t h (idx * 2 + 2) r) (sym e ∙ m) in
    child_of_both (λ c u. found t h c u ≡ none → ⊥) h idx unit
      (λ lt p. let q = found-none_entry t h (idx * 2 + 1) unit p in cc (el, q))
      (λ ge p. let q = found-none_entry t h (idx * 2 + 2) (unit - 2 ^ h) p in cc (er, q)) n

-- Where a well-formed tree is searched without result, no block holds the unit.
pub block_of-found-none :
    (t : ℕ → ℤ) (h idx unit base : ℕ)
    → Valid t h idx
    → unit < 2 ^ h
    → found t h idx unit ≡ none
    → block_of (base + unit) (blocks t h idx base) ≡ none
unfolding found
block_of-found-none t zero idx unit base v lt e = rw (found-none_entry t zero idx unit e)
block_of-found-none t (suc h) idx unit base (inl (m, l, r)) lt e =
    let q = found-none_entry t (suc h) idx unit e in cc (m, q)
block_of-found-none t (suc h) idx unit base (inr (l, r, m)) lt e =
    rw (blocks_halves t h idx base l r m, block_of-append (base + unit) _ _)
      (child_of_both
        (λ c u.
          found t h c u ≡ none
          → or_else (block_of (base + unit) (blocks t h (idx * 2 + 1) base))
              (block_of (base + unit) (blocks t h (idx * 2 + 2) (base + 2 ^ h)))
            ≡ none)
        h idx unit
        (λ small p. rw (
          block_of-found-none t h (idx * 2 + 1) unit base l small p,
          block_of_before (base + unit) (base + 2 ^ h) _ _
              (blocks-Apart t h (idx * 2 + 2) (base + 2 ^ h)) (omega arith),
        ))
        (λ big p.
          let at : base + unit ≡ base + 2 ^ h + (unit - 2 ^ h) = omega arith in
          rw (
            block_of_past (base + unit) base (base + 2 ^ h) _ (blocks-Apart t h (idx * 2 + 1) base)
                (omega arith),
            at,
            block_of-found-none t h (idx * 2 + 2) (unit - 2 ^ h) (base + 2 ^ h) r
                (omega (arith, two_pow_suc h)) p,
          ))
        (below (found t h (child_of h idx unit) (unit_of h unit)) _ e))
  where
    below : (x y : Option (ℕ × ℕ)) → or_else x y ≡ none → x ≡ none
    below none y q = refl
    below (some x) y q = cc
