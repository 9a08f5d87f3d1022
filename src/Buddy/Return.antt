-- ===== src/Buddy/Return.antt =====
-- `free_at` over a well-formed tree: the tree stays well formed, and the block that holds the unit is
-- the one block that the tree loses.
use paw.Prelude.{
  ℕ, suc, ◌+◌, ◌-◌, ◌*◌, ◌^◌, ◌≤◌, ◌<◌, ◌≡◌, refl, ◌∙◌, sym, arith, inr, some, ==_iff, subst, ltb,
  leb, ◌&&◌, [], ◌∷◌, true,
}
use paw.Prelude.Int.{ℤ, pos, minus_one}
use paw.Buddy.{put, merge}
use paw.Buddy.Nodes.{
  Free, Valid, blocks, Inserted, here, Inserted-append_left, Inserted-append_right,
}
use paw.Buddy.Subtree.{
  InSub, InSub-self, InSub-left, InSub-right, InSub-disjoint, Agree, Valid-Agree, blocks-Agree,
  Free-Agree,
}
use paw.Buddy.Entry.{Free-entry, Free-Valid, blocks-Free}
use paw.Buddy.Alloc.{put_self, put_ne, put-Agree_left, put-Agree_right}
use paw.Buddy.Spec.{blocks-Apart}
use paw.Buddy.Release.{merge_up}
use paw.Buddy.Give.{
  block_of, block_of-append, block_of_past, blocks_halves, merge_up-Valid, blocks-merge_up,
}

-- `t'` is `t` after the block of level `l` that holds `unit` was given back below entry `idx`; it
-- begins at unit `first` of those below `idx`.
pub record GivenTo (t t' : ℕ → ℤ) (h idx unit first l : ℕ) : Type 0 where
  pub valid : Valid t' h idx
  pub frame : (j : ℕ) → (InSub h idx j → ⊥) → t' j ≡ t j
  pub given : (base : ℕ) → Inserted (base + first, l) (blocks t' h idx base) (blocks t h idx base)
  pub holder : (base : ℕ) → block_of (base + unit) (blocks t h idx base) ≡ some (base + first, l)

module _ (t T : ℕ → ℤ) (h idx unit first level : ℕ) (l : Valid t h (idx * 2 + 1))
    (r : Valid t h (idx * 2 + 2))
    (e : t idx ≡ merge (t (idx * 2 + 1)) (t (idx * 2 + 2)) (suc h)) where
  -- Giving a block of the left half back.
  pub GivenTo-left :
      GivenTo t T h (idx * 2 + 1) unit first level
      → GivenTo t (merge_up T h idx) (suc h) idx unit first level
  GivenTo-left g = record {
    valid = merge_up-Valid T h idx g.valid kept;
    frame = λ j out.
        put_ne T idx j _ (λ e. out (subst (InSub (suc h) idx) e (InSub-self (suc h) idx)))
        ∙ g.frame j (λ s. out (InSub-left h idx j s));
    given = λ base.
        rw
          (
            blocks-merge_up T h idx g.valid kept base,
            blocks_halves t h idx base l r e,
            ← blocks-Agree h (idx * 2 + 2) (base + 2 ^ h) t T same,
          )
          (Inserted-append_left _ (g.given base));
    holder = λ base.
        rw (blocks_halves t h idx base l r e, block_of-append (base + unit) _ _, g.holder base);
  }
    where
      same : Agree h (idx * 2 + 2) t T
      same j s = sym (g.frame j (λ s'. InSub-disjoint h idx j s' s))

      kept : Valid T h (idx * 2 + 2)
      kept = Valid-Agree h (idx * 2 + 2) t T same r

  -- Giving a block of the right half back.
  pub GivenTo-right :
      2 ^ h ≤ unit
      → GivenTo t T h (idx * 2 + 2) (unit - 2 ^ h) first level
      → GivenTo t (merge_up T h idx) (suc h) idx unit (2 ^ h + first) level
  GivenTo-right ge g = record {
    valid = merge_up-Valid T h idx kept g.valid;
    frame = λ j out.
        put_ne T idx j _ (λ e. out (subst (InSub (suc h) idx) e (InSub-self (suc h) idx)))
        ∙ g.frame j (λ s. out (InSub-right h idx j s));
    given = λ base.
        rw
          (
            blocks-merge_up T h idx kept g.valid base,
            blocks_halves t h idx base l r e,
            ← blocks-Agree h (idx * 2 + 1) base t T same,
            from_base base,
          )
          (Inserted-append_right _ (g.given (base + 2 ^ h)));
    holder = λ base.
        rw
          (
            blocks_halves t h idx base l r e,
            block_of-append (base + unit) _ _,
            block_of_past (base + unit) base (base + 2 ^ h) _ (blocks-Apart t h (idx * 2 + 1) base)
                (omega arith),
            unit_base base,
            from_base base,
          )
          (g.holder (base + 2 ^ h));
  }
    where
      same : Agree h (idx * 2 + 1) t T
      same j s = sym (g.frame j (λ s'. InSub-disjoint h idx j s s'))

      kept : Valid T h (idx * 2 + 1)
      kept = Valid-Agree h (idx * 2 + 1) t T same l

      from_base : (base : ℕ) → base + (2 ^ h + first) ≡ base + 2 ^ h + first
      from_base base = omega arith

      unit_base : (base : ℕ) → base + unit ≡ base + 2 ^ h + (unit - 2 ^ h)
      unit_base base = omega arith

-- A whole block is given back.
pub GivenTo-whole :
    (t : ℕ → ℤ) (h idx unit : ℕ)
    → unit < 2 ^ suc h
    → t idx ≡ minus_one
    → Free t h (idx * 2 + 1)
    → Free t h (idx * 2 + 2)
    → GivenTo t (put t idx (pos (suc h))) (suc h) idx unit 0 (suc h)
GivenTo-whole t h idx unit lt m l r = record {
  valid = Free-Valid _ (suc h) idx free;
  frame =
      λ j out. put_ne t idx j _ (λ e. out (subst (InSub (suc h) idx) e (InSub-self (suc h) idx)));
  given = λ base. rw (blocks-Free _ (suc h) idx base free, whole base, none_more base) (here []);
  holder = λ base.
      let within : leb base (base + unit) && ltb (base + unit) (base + 2 ^ suc h) ≡ true =
        ground arith in
      rw (whole base, within, none_more base);
}
  where
    free : Free (put t idx (pos (suc h))) (suc h) idx
    free = (
      put_self t idx (pos (suc h)),
      Free-Agree h (idx * 2 + 1) t _ (put-Agree_left t h idx _) l,
      Free-Agree h (idx * 2 + 2) t _ (put-Agree_right t h idx _) r,
    )

    none_more : (base : ℕ) → base + 0 ≡ base
    none_more base = omega arith

    whole : (base : ℕ) → blocks t (suc h) idx base ≡ (base, suc h) ∷ []
    whole base = rw (m, Free-entry t h (idx * 2 + 1) l)

pub GivenTo-unit :
    (t : ℕ → ℤ) (idx unit : ℕ)
    → unit < 2 ^ 0
    → t idx ≡ minus_one
    → GivenTo t (put t idx (pos 0)) 0 idx unit 0 0
GivenTo-unit t idx unit lt m = record {
  valid = inr (put_self t idx (pos 0));
  frame = λ j out. put_ne t idx j _ (λ e. out (subst (InSub 0 idx) e (InSub-self 0 idx)));
  given = λ base. rw (m, (==_iff idx idx).1 refl, none_more base) (here []);
  holder = λ base.
      let within : leb base (base + unit) && ltb (base + unit) (base + 1) ≡ true = ground arith in
      rw (m, within, none_more base);
}
  where
    none_more : (base : ℕ) → base + 0 ≡ base
    none_more base = omega arith
