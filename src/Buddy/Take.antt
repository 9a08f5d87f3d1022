-- ===== src/Buddy/Take.antt =====
-- Taking a block in one half of a split block, and the whole of `alloc_at`.
use paw.Prelude.{
  ℕ, zero, suc, ◌+◌, ◌*◌, ◌^◌, ◌≤◌, ◌≡◌, ◌∙◌, sym, arith, inl, inr, ◌++◌, true, false, ◌==◌,
  ℕ_discrete, subst,
}
use paw.Prelude.Int.{ℤ, pos}
use paw.Buddy.Nodes.{Free, Valid, blocks, Inserted, Inserted-append_left, Inserted-append_right}
use paw.Buddy.Subtree.{
  InSub, InSub-self, InSub-left, InSub-right, InSub-disjoint, Valid-Agree, blocks-Agree, Agree,
}
use paw.Buddy.Entry.{Valid-Bounded, Valid-full}
use paw.Buddy.Alloc.{
  has, unit_at, sum_up, alloc_at, Taken, TakenTo, put_ne, Taken-whole, sum_up-Valid, sum_up-smaller,
  blocks-sum_up, blocks-split, merge-has, has-level,
}

eq_suc-false : (e h : ℕ) → e ≤ h → (e == suc h) ≡ false
eq_suc-false e h le = ground arith

module _ (t : ℕ → ℤ) (h idx e k : ℕ) (ek : t idx ≡ pos k) (le : e ≤ h) (l : Valid t h (idx * 2 + 1))
    (r : Valid t h (idx * 2 + 2)) where
  module _ (go : has (t (idx * 2 + 1)) e ≡ true) (ih : Taken t h (idx * 2 + 1) e) where
    after_left : ℕ → ℤ
    after_left = alloc_at t h (idx * 2 + 1) e

    alloc_left : alloc_at t (suc h) idx e ≡ sum_up after_left idx
    unfolding alloc_at after_left
    alloc_left = rw (eq_suc-false e h le, go)

    unit_left : (base : ℕ) → unit_at t (suc h) idx e base ≡ unit_at t h (idx * 2 + 1) e base
    unfolding unit_at
    unit_left base = rw (eq_suc-false e h le, go)

    right_kept : Agree h (idx * 2 + 2) t after_left
    unfolding after_left
    right_kept j s = sym (ih.frame j (λ s'. InSub-disjoint h idx j s' s))

    Taken-left : Taken t (suc h) idx e
    unfolding after_left
    Taken-left =
        subst (λ T. TakenTo t T (suc h) idx e) (sym alloc_left)
          (record {
            valid = sum_up-Valid after_left h idx ih.valid r' part;
            frame = λ j out.
                put_ne after_left idx j _
                  (λ q. out (subst (InSub (suc h) idx) q (InSub-self (suc h) idx)))
                ∙ ih.frame j (λ s. out (InSub-left h idx j s));
            smaller = sum_up-smaller after_left h idx ih.valid r' part;
            handed = λ base.
                subst
                  (λ ys. Inserted (unit_at t (suc h) idx e base, e) (blocks t (suc h) idx base) ys)
                  (sym (blocks-sum_up after_left h idx ih.valid r' part base)) (inserted base);
          })
      where
        inserted :
            (base : ℕ)
            → Inserted
                (unit_at t (suc h) idx e base, e)
                (blocks t (suc h) idx base)
                (blocks after_left h (idx * 2 + 1) base
                  ++ blocks after_left h (idx * 2 + 2) (base + 2 ^ h))
        inserted base =
            rw
              (
                unit_left base,
                blocks-split t h idx base k ek,
                ← blocks-Agree h (idx * 2 + 2) (base + 2 ^ h) t after_left right_kept,
              )
              (Inserted-append_left _ (ih.handed base))

        r' : Valid after_left h (idx * 2 + 2)
        r' = Valid-Agree h (idx * 2 + 2) t after_left right_kept r

        part : (after_left (idx * 2 + 1) ≡ pos h) × (after_left (idx * 2 + 2) ≡ pos h) → ⊥
        part p = ih.smaller p.0

  module _ (skip : has (t (idx * 2 + 1)) e ≡ false) (ih : Taken t h (idx * 2 + 2) e) where
    after_right : ℕ → ℤ
    after_right = alloc_at t h (idx * 2 + 2) e

    alloc_right : alloc_at t (suc h) idx e ≡ sum_up after_right idx
    unfolding alloc_at after_right
    alloc_right = rw (eq_suc-false e h le, skip)

    unit_right :
        (base : ℕ) → unit_at t (suc h) idx e base ≡ unit_at t h (idx * 2 + 2) e (base + 2 ^ h)
    unfolding unit_at
    unit_right base = rw (eq_suc-false e h le, skip)

    left_kept : Agree h (idx * 2 + 1) t after_right
    unfolding after_right
    left_kept j s = sym (ih.frame j (λ s'. InSub-disjoint h idx j s s'))

    Taken-right : Taken t (suc h) idx e
    unfolding after_right
    Taken-right =
        subst (λ T. TakenTo t T (suc h) idx e) (sym alloc_right)
          (record {
            valid = sum_up-Valid after_right h idx l' ih.valid part;
            frame = λ j out.
                put_ne after_right idx j _
                  (λ q. out (subst (InSub (suc h) idx) q (InSub-self (suc h) idx)))
                ∙ ih.frame j (λ s. out (InSub-right h idx j s));
            smaller = sum_up-smaller after_right h idx l' ih.valid part;
            handed = λ base.
                subst
                  (λ ys. Inserted (unit_at t (suc h) idx e base, e) (blocks t (suc h) idx base) ys)
                  (sym (blocks-sum_up after_right h idx l' ih.valid part base)) (inserted base);
          })
      where
        inserted :
            (base : ℕ)
            → Inserted
                (unit_at t (suc h) idx e base, e)
                (blocks t (suc h) idx base)
                (blocks after_right h (idx * 2 + 1) base
                  ++ blocks after_right h (idx * 2 + 2) (base + 2 ^ h))
        inserted base =
            rw
              (
                unit_right base,
                blocks-split t h idx base k ek,
                ← blocks-Agree h (idx * 2 + 1) base t after_right left_kept,
              )
              (Inserted-append_right _ (ih.handed (base + 2 ^ h)))

        l' : Valid after_right h (idx * 2 + 1)
        l' = Valid-Agree h (idx * 2 + 1) t after_right left_kept l

        part : (after_right (idx * 2 + 1) ≡ pos h) × (after_right (idx * 2 + 2) ≡ pos h) → ⊥
        part p = ih.smaller p.1

entry_full : (t : ℕ → ℤ) (h idx k : ℕ) → Valid t h idx → t idx ≡ pos k → h ≤ k → Free t h idx
entry_full t h idx k v ek le = elim (Valid-Bounded t h idx v) [
  | inl e ↦ cc
  | inr (m, p, e) ↦ Valid-full t h idx v (ground arith)
]

-- Taking a block of level `e` below an entry that names at least that level: the tree stays well
-- formed, nothing outside the subtree changes, and exactly one block of that level is handed out.
pub Taken-alloc_at :
    (t : ℕ → ℤ) (h idx e k : ℕ) → Valid t h idx → t idx ≡ pos k → e ≤ k → e ≤ h → Taken t h idx e
Taken-alloc_at t zero idx e k v ek le lh =
    let z : zero ≡ e = omega arith in
    subst (λ e'. Taken t zero idx e') z
      (Taken-whole t zero idx (entry_full t zero idx k v ek (omega arith)))
Taken-alloc_at t (suc h) idx e k (inl (m, fl, fr)) ek le lh = cc
Taken-alloc_at t (suc h) idx e k (inr (l, r, m)) ek le lh = elim (ℕ_discrete (suc h) e) [
  | yes same ↦
      subst (λ e'. Taken t (suc h) idx e') same
        (Taken-whole t (suc h) idx (entry_full t (suc h) idx k (inr (l, r, m)) ek (omega arith)))
  | no less ↦
      elim (merge-has (t (idx * 2 + 1)) (t (idx * 2 + 2)) h e k (Valid-Bounded t h (idx * 2 + 1) l)
        (Valid-Bounded t h (idx * 2 + 2) r) (omega arith) (sym m ∙ ek) le) [
          | inl go ↦
              let (a, ea, la) = has-level (t (idx * 2 + 1)) e go in
              Taken-left t h idx e k ek (omega arith) l r go
                (Taken-alloc_at t h (idx * 2 + 1) e a l ea la (omega arith))
          | inr (skip, go) ↦
              let (a, ea, la) = has-level (t (idx * 2 + 2)) e go in
              Taken-right t h idx e k ek (omega arith) l r skip
                (Taken-alloc_at t h (idx * 2 + 2) e a r ea la (omega arith))
        ]
]
