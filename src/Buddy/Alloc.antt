-- ===== src/Buddy/Alloc.antt =====
-- What taking a block does to a well-formed tree, by recursion from the root. The loops of
-- `buddy_alloc` compute this (Buddy/Loops).
use paw.Prelude.{
  ℕ, zero, suc, ◌+◌, ◌-◌, ◌*◌, ◌^◌, ◌≤◌, ◌≡◌, ◌≢◌, ◌⊎◌, refl, ◌∙◌, sym, arith, inl, inr, [], ◌∷◌,
  ◌++◌, Bool, true, false, ◌&&◌, not, leb, ◌==◌, ==_iff, Bool-cases, if◌then◌else◌, subst, ap₂, ap,
}
use paw.Prelude.Int.{ℤ, pos, negsuc, minus_one, max_ℤ, eq_ℤ}
use paw.Buddy.{merge, put}
use paw.Buddy.Nodes.{Free, Valid, blocks, Inserted, here}
use paw.Buddy.Subtree.{
  InSub, InSub-self, InSub-left_ne, InSub-right_ne, Agree, Valid-Agree, blocks-Agree, Free-Agree,
}
use paw.Buddy.Entry.{Bounded, Valid-Bounded, Free-entry, blocks-Free}

-- Below an entry `v` a block of level `e` is free.
abbrev pub has : ℤ → ℕ → Bool
has (pos k) e = leb e k
has (negsuc k) e = false

-- The child that the search goes on in, the entry it ends at, and the unit that this block begins with.
abbrev pub child : (ℕ → ℤ) → ℕ → ℕ → ℕ
child t idx e = if has (t (idx * 2 + 1)) e then idx * 2 + 1 else idx * 2 + 2

unfoldable pub leaf_at : (ℕ → ℤ) → ℕ → ℕ → ℕ → ℕ
leaf_at t zero idx e = idx
leaf_at t (suc h) idx e = if e == suc h then idx else leaf_at t h (child t idx e) e

unfoldable pub unit_at : (ℕ → ℤ) → ℕ → ℕ → ℕ → ℕ → ℕ
unit_at t zero idx e base = base
unit_at t (suc h) idx e base =
    if e == suc h
    then base
    else unit_at t h (child t idx e) e (if has (t (idx * 2 + 1)) e then base else base + 2 ^ h)

-- An entry summed up by the MAX of its children.
abbrev pub sum_up : (ℕ → ℤ) → ℕ → ℕ → ℤ
sum_up t idx = put t idx (max_ℤ (t (idx * 2 + 1)) (t (idx * 2 + 2)))

unfoldable pub alloc_at : (ℕ → ℤ) → ℕ → ℕ → ℕ → ℕ → ℤ
alloc_at t zero idx e = put t idx minus_one
alloc_at t (suc h) idx e =
    if e == suc h then put t idx minus_one else sum_up (alloc_at t h (child t idx e) e) idx

-- `t'` is `t` after a block of level `e` was taken below entry `idx`.
pub record TakenTo (t t' : ℕ → ℤ) (h idx e : ℕ) : Type 0 where
  pub valid : Valid t' h idx
  pub frame : (j : ℕ) → (InSub h idx j → ⊥) → t' j ≡ t j
  pub smaller : t' idx ≢ pos h
  pub handed :
      (base : ℕ) → Inserted (unit_at t h idx e base, e) (blocks t h idx base) (blocks t' h idx base)

abbrev pub Taken : (ℕ → ℤ) → ℕ → ℕ → ℕ → Type 0
Taken t h idx e = TakenTo t (alloc_at t h idx e) h idx e

pub put_self : (t : ℕ → ℤ) (i : ℕ) (v : ℤ) → put t i v i ≡ v
put_self t i v = rw ((==_iff i i).1 refl)

pub put_ne : (t : ℕ → ℤ) (i j : ℕ) (v : ℤ) → i ≢ j → put t i v j ≡ t j
put_ne t i j v ne = ground arith

-- Writing one entry leaves the subtrees below it.
pub put-Agree_left : (t : ℕ → ℤ) (h idx : ℕ) (v : ℤ) → Agree h (idx * 2 + 1) t (put t idx v)
put-Agree_left t h idx v j s = sym (put_ne t idx j v (InSub-left_ne h idx j s))

pub put-Agree_right : (t : ℕ → ℤ) (h idx : ℕ) (v : ℤ) → Agree h (idx * 2 + 2) t (put t idx v)
put-Agree_right t h idx v j s = sym (put_ne t idx j v (InSub-right_ne h idx j s))

module _ (t : ℕ → ℤ) where
  pub alloc_whole : (h idx : ℕ) → alloc_at t h idx h ≡ put t idx minus_one
  unfolding alloc_at
  alloc_whole zero idx = refl
  alloc_whole (suc h) idx = rw ((==_iff (suc h) (suc h)).1 refl)

  pub unit_whole : (h idx base : ℕ) → unit_at t h idx h base ≡ base
  unfolding unit_at
  unit_whole zero idx base = refl
  unit_whole (suc h) idx base = rw ((==_iff (suc h) (suc h)).1 refl)

  Valid-whole : (h idx : ℕ) → Free t h idx → Valid (put t idx minus_one) h idx
  Valid-whole zero idx f = inl (put_self t idx minus_one)
  Valid-whole (suc h) idx (e, l, r) = inl (
    put_self t idx minus_one,
    Free-Agree h (idx * 2 + 1) t (put t idx minus_one) (put-Agree_left t h idx minus_one) l,
    Free-Agree h (idx * 2 + 2) t (put t idx minus_one) (put-Agree_right t h idx minus_one) r,
  )

  pub left_entry : (h idx : ℕ) (v : ℤ) → put t idx v (idx * 2 + 1) ≡ t (idx * 2 + 1)
  left_entry h idx v = put_ne t idx (idx * 2 + 1) v (omega arith)

  pub right_entry : (h idx : ℕ) (v : ℤ) → put t idx v (idx * 2 + 2) ≡ t (idx * 2 + 2)
  right_entry h idx v = put_ne t idx (idx * 2 + 2) v (omega arith)

  blocks_whole :
      (h idx base : ℕ) → Free t h idx → blocks (put t idx minus_one) h idx base ≡ (base, h) ∷ []
  blocks_whole zero idx base f = rw ((==_iff idx idx).1 refl)
  blocks_whole (suc h) idx base (e, l, r) =
      rw ((==_iff idx idx).1 refl, left_entry h idx minus_one, Free-entry t h (idx * 2 + 1) l)

  -- A whole free block is taken.
  pub Taken-whole : (h idx : ℕ) → Free t h idx → Taken t h idx h
  Taken-whole h idx f = record {
    valid = rw (alloc_whole h idx) (Valid-whole h idx f);
    frame = λ j out.
        rw (alloc_whole h idx)
          (put_ne t idx j minus_one (λ e. out (subst (InSub h idx) e (InSub-self h idx))));
    smaller = rw (alloc_whole h idx) (λ e. cc (put_self t idx minus_one));
    handed = λ base.
        rw
          (
            alloc_whole h idx,
            unit_whole h idx base,
            blocks-Free t h idx base f,
            blocks_whole h idx base f,
          )
          (here []);
  }

pub eq_ℤ-eq : (a b : ℤ) → eq_ℤ a b ≡ true → a ≡ b
eq_ℤ-eq (pos a) (pos b) h = ap pos ((==_iff a b).0 h)
eq_ℤ-eq (pos a) (negsuc b) h = cc
eq_ℤ-eq (negsuc a) (pos b) h = cc
eq_ℤ-eq (negsuc a) (negsuc b) h = ap negsuc ((==_iff a b).0 h)

-- The MAX of two entries is -1 only if the first is.
max_minus_one :
    (l r : ℤ) (h : ℕ)
    → Bounded l h
    → Bounded r h
    → eq_ℤ (max_ℤ l r) minus_one && not (eq_ℤ l minus_one) ≡ false
max_minus_one l r h (inl e) b = rw e (ground arith)
max_minus_one l r h (inr (k, p, e)) (inl f) = rw (e, f)
max_minus_one l r h (inr (k, p, e)) (inr (m, q, f)) = ground arith

-- The MAX of two children, where not both are whole, is what `buddy_free` would write as well.
pub merge-max : (l r : ℤ) (h : ℕ) → ((l ≡ pos h) × (r ≡ pos h) → ⊥) → merge l r (suc h) ≡ max_ℤ l r
unfolding merge
merge-max l r h n = elim (Bool-cases (eq_ℤ l r && eq_ℤ l (pos (suc h - 1)))) [
  | inl c ↦ absurd (n (whole (eq_ℤ l r) (eq_ℤ l (pos (suc h - 1))) refl refl c))
  | inr c ↦ rw c
]
  where
    whole :
        (b c : Bool)
        → eq_ℤ l r ≡ b
        → eq_ℤ l (pos (suc h - 1)) ≡ c
        → b && c ≡ true
        → (l ≡ pos h) × (r ≡ pos h)
    whole true true p q e =
        let el = eq_ℤ-eq l (pos (suc h - 1)) q in
        let h' : suc h - 1 ≡ h = omega arith in
        (el ∙ ap pos h', sym (eq_ℤ-eq l r p) ∙ el ∙ ap pos h')
    whole true false p q e = cc
    whole false c p q e = cc

-- The entry above two children of at most level `h`, not both whole, does not name level `h + 1`.
max-smaller : (l r : ℤ) (h : ℕ) → Bounded l h → Bounded r h → max_ℤ l r ≢ pos (suc h)
max-smaller l r h (inl e) (inl f) = ground arith
max-smaller l r h (inl e) (inr (k, p, f)) = ground arith
max-smaller l r h (inr (k, p, e)) (inl f) = ground arith
max-smaller l r h (inr (k, p, e)) (inr (m, q, f)) = ground arith

-- Where both halves are well formed, and not both whole, so is the entry that `sum_up` writes, and
-- the blocks are those of the halves.
module _ (t : ℕ → ℤ) (h idx : ℕ) (l : Valid t h (idx * 2 + 1)) (r : Valid t h (idx * 2 + 2))
    (part : (t (idx * 2 + 1) ≡ pos h) × (t (idx * 2 + 2) ≡ pos h) → ⊥) where
  pub sum_up-Valid : Valid (sum_up t idx) (suc h) idx
  sum_up-Valid = inr (
    Valid-Agree h (idx * 2 + 1) t (sum_up t idx) (put-Agree_left t h idx _) l,
    Valid-Agree h (idx * 2 + 2) t (sum_up t idx) (put-Agree_right t h idx _) r,
    put_self t idx _
        ∙ sym (merge-max (t (idx * 2 + 1)) (t (idx * 2 + 2)) h part)
        ∙ sym (ap₂ (λ x y. merge x y (suc h)) (left_entry t h idx _) (right_entry t h idx _)),
  )

  pub sum_up-smaller : sum_up t idx idx ≢ pos (suc h)
  sum_up-smaller e =
      max-smaller (t (idx * 2 + 1)) (t (idx * 2 + 2)) h (Valid-Bounded t h (idx * 2 + 1) l)
        (Valid-Bounded t h (idx * 2 + 2) r) (sym (put_self t idx _) ∙ e)

  pub blocks-sum_up :
      (base : ℕ)
      → blocks (sum_up t idx) (suc h) idx base
        ≡ blocks t h (idx * 2 + 1) base ++ blocks t h (idx * 2 + 2) (base + 2 ^ h)
  blocks-sum_up base = rw shown (
      ap₂ ◌++◌ (sym (blocks-Agree h (idx * 2 + 1) base t (sum_up t idx) (put-Agree_left t h idx _)))
        (sym (
          blocks-Agree h (idx * 2 + 2) (base + 2 ^ h) t (sum_up t idx)
            (put-Agree_right t h idx _))))
    where
      shown :
          eq_ℤ (sum_up t idx idx) minus_one && not (eq_ℤ (sum_up t idx (idx * 2 + 1)) minus_one)
          ≡ false
      shown =
          ap₂ (λ x y. eq_ℤ x minus_one && not (eq_ℤ y minus_one)) (put_self t idx _)
            (left_entry t h idx _)
          ∙ max_minus_one (t (idx * 2 + 1)) (t (idx * 2 + 2)) h (Valid-Bounded t h (idx * 2 + 1) l)
              (Valid-Bounded t h (idx * 2 + 2) r)

-- Where the entry of a split block is well formed, its blocks are those of its halves.
pub blocks-split :
    (t : ℕ → ℤ) (h idx base k : ℕ)
    → t idx ≡ pos k
    → blocks t (suc h) idx base
      ≡ blocks t h (idx * 2 + 1) base ++ blocks t h (idx * 2 + 2) (base + 2 ^ h)
blocks-split t h idx base k e = rw e

-- The search goes on in a half that has a block of the level sought.
pub merge-has :
    (l r : ℤ) (h e k : ℕ)
    → Bounded l h
    → Bounded r h
    → e ≤ h
    → merge l r (suc h) ≡ pos k
    → e ≤ k
    → (has l e ≡ true) ⊎ ((has l e ≡ false) × (has r e ≡ true))
unfolding merge
merge-has l r h e k (inl el) (inl er) le m lk = ground arith
merge-has l r h e k (inl el) (inr (b, p, er)) le m lk = ground arith
merge-has l r h e k (inr (a, p, el)) (inl er) le m lk = ground arith
merge-has l r h e k (inr (a, p, el)) (inr (b, q, er)) le m lk = ground arith

pub has-level : (v : ℤ) (e : ℕ) → has v e ≡ true → (k : ℕ) × (v ≡ pos k) × (e ≤ k)
has-level (pos k) e h = (k, refl, ground arith)
has-level (negsuc k) e h = cc
