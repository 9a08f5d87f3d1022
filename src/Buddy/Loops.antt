-- ===== src/Buddy/Loops.antt =====
-- The loops of `buddy_alloc` compute what `alloc_at` says, with the fuel that they are given.
use paw.Prelude.{
  ℕ, zero, suc, ◌+◌, ◌*◌, ◌^◌, ◌≤◌, ◌<◌, ◌≡◌, ◌≢◌, ◌⊎◌, refl, ◌∙◌, sym, arith, inl, inr, true,
  false, ◌==◌, ==_iff, leb, ltb, lt→ltb, ℕ_discrete, dec_lt, Bool-cases, subst, ap,
}
use paw.Prelude.Int.{ℤ, pos}
use paw.Prelude.Words.{u32}
use paw.Buddy.{get_parent_idx, pow2, descend, ascend_max}
use paw.Buddy.Nodes.{Valid, Fits}
use paw.Buddy.Subtree.{Fits_small, left-eq, right-eq, Fits-left, Fits-right}
use paw.Prelude.Words.{two_pow_pos, two_pow_mono, two_pow_lt}
use paw.Buddy.Entry.{Bounded, Valid-Bounded}
use paw.Buddy.Alloc.{has, child, leaf_at, sum_up, merge-has, has-level}

leb_pow : (e k : ℕ) → leb (2 ^ e) (2 ^ k) ≡ leb e k
leb_pow e k = elim (dec_lt k e) [
  | yes lt ↦ ground (arith, two_pow_lt k e lt)
  | no ge ↦ ground (arith, two_pow_mono e k (omega arith))
]

pub pow_small : (k : ℕ) → k < 32 → u32 (2 ^ k) ≡ 2 ^ k
pow_small k h = omega (arith, two_pow_lt k 32 h)

-- The test `pow2(tree[i]) >= n_units` at a power of two compares exponents.
pub pow2-has : (v : ℤ) (h e : ℕ) → Bounded v h → h < 32 → leb (2 ^ e) (pow2 v) ≡ has v e
unfolding pow2
pow2-has v h e (inl m) lt = rw m (ground (arith, two_pow_pos e))
pow2-has v h e (inr (k, p, m)) lt = rw (m, pow_small k (omega arith)) (leb_pow e k)

pub ltb_pow_false : (e : ℕ) → e < 32 → ltb (2 ^ e) (u32 (2 ^ e)) ≡ false
ltb_pow_false e h = rw (pow_small e h) (ground arith)

pub ltb_pow_true : (e k : ℕ) → e < k → k < 32 → ltb (2 ^ e) (u32 (2 ^ k)) ≡ true
ltb_pow_true e k h l = rw (pow_small k l) (lt→ltb (2 ^ e) (2 ^ k) (two_pow_lt e k h))

pub eq_suc_ne : (e h : ℕ) → e ≢ suc h → (e == suc h) ≡ false
eq_suc_ne e h ne = ground arith

pub suc_eq_zero : (c : ℕ) → (suc c == 0) ≡ false
suc_eq_zero c = ground arith

pub has-Bounded : (v : ℤ) (h e : ℕ) → Bounded v h → has v e ≡ true → e ≤ h
has-Bounded v h e (inl m) g = absurd (ground arith)
has-Bounded v h e (inr (k, p, m)) g = ground arith

-- One round of the search, on a level above the one sought.
descend_round :
    (t : ℕ → ℤ) (h idx e : ℕ)
    → Fits (suc h) idx
    → Bounded (t (idx * 2 + 1)) h
    → e ≤ h
    → suc h < 32
    → descend (suc h) t (2 ^ e) idx (suc h) ≡ descend h t (2 ^ e) (child t idx e) h
unfolding descend
descend_round t h idx e f b le lt =
    rw
      (
        ltb_pow_true e (suc h) (omega arith) lt,
        left-eq h idx f,
        right-eq h idx f,
        pow2-has (t (idx * 2 + 1)) h e b (omega arith),
      )
      (ap (descend h t (2 ^ e) (child t idx e)) (omega arith))

descend_here : (t : ℕ → ℤ) (h idx : ℕ) → h < 32 → descend h t (2 ^ h) idx h ≡ (idx, h)
unfolding descend
descend_here t zero idx lt = refl
descend_here t (suc h) idx lt = rw (ltb_pow_false (suc h) lt)

pub leaf_here : (t : ℕ → ℤ) (h idx : ℕ) → leaf_at t h idx h ≡ idx
unfolding leaf_at
leaf_here t zero idx = refl
leaf_here t (suc h) idx = rw ((==_iff (suc h) (suc h)).1 refl)

pub leaf_below :
    (t : ℕ → ℤ) (h idx e : ℕ) → e ≤ h → leaf_at t (suc h) idx e ≡ leaf_at t h (child t idx e) e
unfolding leaf_at
leaf_below t h idx e le = rw (eq_suc_ne e h (omega arith))

abbrev Ends : (ℕ → ℤ) → ℕ → ℕ → ℕ → Type 0
Ends t h e c = descend h t (2 ^ e) c h ≡ (leaf_at t h c e, e)

-- The search ends at the entry of the first fitting block, at the level sought.
pub descend_lem :
    (t : ℕ → ℤ) (h idx e k : ℕ)
    → Fits h idx
    → h < 32
    → Valid t h idx
    → t idx ≡ pos k
    → e ≤ k
    → e ≤ h
    → descend h t (2 ^ e) idx h ≡ (leaf_at t h idx e, e)
descend_lem t zero idx e k f lt v ek le lh =
    let z : zero ≡ e = omega arith in
    subst (λ e'. descend zero t (2 ^ e') idx zero ≡ (leaf_at t zero idx e', e')) z
      (descend_here t zero idx lt ∙ ap (λ x. (x, zero)) (sym (leaf_here t zero idx)))
descend_lem t (suc h) idx e k f lt (inl (m, fl, fr)) ek le lh = cc
descend_lem t (suc h) idx e k f lt (inr (l, r, m)) ek le lh = elim (ℕ_discrete (suc h) e) [
  | yes same ↦
      subst (λ e'. descend (suc h) t (2 ^ e') idx (suc h) ≡ (leaf_at t (suc h) idx e', e')) same
        (descend_here t (suc h) idx lt ∙ ap (λ x. (x, suc h)) (sym (leaf_here t (suc h) idx)))
  | no less ↦
      descend_round t h idx e f (Valid-Bounded t h (idx * 2 + 1) l) (omega arith) lt
      ∙ below
          (merge-has (t (idx * 2 + 1)) (t (idx * 2 + 2)) h e k (Valid-Bounded t h (idx * 2 + 1) l)
            (Valid-Bounded t h (idx * 2 + 2) r) (omega arith) (sym m ∙ ek) le)
          (descend_lem t h (idx * 2 + 1) e) (descend_lem t h (idx * 2 + 2) e)
      ∙ ap (λ x. (x, e)) (sym (leaf_below t h idx e (omega arith)))
]
  where
    below :
        (has (t (idx * 2 + 1)) e ≡ true)
          ⊎ ((has (t (idx * 2 + 1)) e ≡ false) × (has (t (idx * 2 + 2)) e ≡ true))
        → ((a : ℕ)
            → Fits h (idx * 2 + 1)
            → h < 32
            → Valid t h (idx * 2 + 1)
            → t (idx * 2 + 1) ≡ pos a
            → e ≤ a
            → e ≤ h
            → Ends t h e (idx * 2 + 1))
        → ((a : ℕ)
            → Fits h (idx * 2 + 2)
            → h < 32
            → Valid t h (idx * 2 + 2)
            → t (idx * 2 + 2) ≡ pos a
            → e ≤ a
            → e ≤ h
            → Ends t h e (idx * 2 + 2))
        → Ends t h e (child t idx e)
    below (inl go) left_ends right_ends =
        let (a, ea, la) = has-level (t (idx * 2 + 1)) e go in
        rw go (
          left_ends a (Fits-left h idx f) (omega arith) l ea la
            (has-Bounded (t (idx * 2 + 1)) h e (Valid-Bounded t h (idx * 2 + 1) l) go))
    below (inr (skip, go)) left_ends right_ends =
        let (a, ea, la) = has-level (t (idx * 2 + 2)) e go in
        rw skip (
          right_ends a (Fits-right h idx f) (omega arith) r ea la
            (has-Bounded (t (idx * 2 + 2)) h e (Valid-Bounded t h (idx * 2 + 2) r) go))

pub parent-lt : (idx : ℕ) → idx < 2 ^ 31 → 0 < idx → get_parent_idx idx < idx
unfolding get_parent_idx
parent-lt idx b h = omega arith

ascend_fuel :
    (f g idx : ℕ) (t : ℕ → ℤ)
    → idx < 2 ^ 31
    → idx ≤ f
    → idx ≤ g
    → ascend_max f idx t ≡ ascend_max g idx t
unfolding ascend_max
ascend_fuel zero zero idx t b p q = refl
ascend_fuel zero (suc g) idx t b p q = rw ((==_iff idx 0).1 (omega arith))
ascend_fuel (suc f) zero idx t b p q = rw ((==_iff idx 0).1 (omega arith))
ascend_fuel (suc f) (suc g) idx t b p q = elim (Bool-cases (idx == 0)) [
  | inl e ↦ rw e
  | inr ne ↦
      let up = parent-lt idx b (ground arith) in
      rw ne (ascend_fuel f g (get_parent_idx idx) _ (omega arith) (omega arith) (omega arith))
]

-- One round up, from either child.
pub ascend_round :
    (t : ℕ → ℤ) (h idx c : ℕ)
    → Fits (suc h) idx
    → get_parent_idx (suc c) ≡ idx
    → idx ≤ c
    → ascend_max (suc c) (suc c) t ≡ ascend_max idx idx (sum_up t idx)
unfolding ascend_max
ascend_round t h idx c f e le =
    rw (suc_eq_zero c, e, left-eq h idx f, right-eq h idx f)
      (ascend_fuel c idx idx (sum_up t idx) (omega (arith, Fits_small h idx f)) le (omega arith))
