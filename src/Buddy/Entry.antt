-- ===== src/Buddy/Entry.antt =====
-- What one entry of a well-formed tree says of the blocks below it.
use paw.Prelude.{
  ℕ, zero, suc, ◌+◌, ◌-◌, ◌*◌, ◌^◌, ◌≤◌, ◌≡◌, ◌⊎◌, ◌∙◌, sym, arith, inl, inr, [], ◌&&◌, Bool-cases,
}
use paw.Prelude.Int.{ℤ, pos, minus_one, eq_ℤ, gtb_ℤ}
use paw.Buddy.{merge}
use paw.Buddy.Nodes.{Free, Valid, blocks}

-- An entry at level `h` is -1 or an exponent of at most `h`.
abbrev pub Bounded : ℤ → ℕ → Type 0
Bounded v h = (v ≡ minus_one) ⊎ ((k : ℕ) × (k ≤ h) × (v ≡ pos k))

pub merge-Bounded :
    (l r : ℤ) (h : ℕ) → Bounded l h → Bounded r h → Bounded (merge l r (suc h)) (suc h)
unfolding merge
merge-Bounded l r h (inl e) (inl f) = inl (ground arith)
merge-Bounded l r h (inl e) (inr (k, p, f)) = inr (k, omega arith, ground arith)
merge-Bounded l r h (inr (k, p, f)) (inl e) = inr (k, omega arith, ground arith)
merge-Bounded l r h (inr (k, p, e)) (inr (m, q, f)) =
    elim (Bool-cases (eq_ℤ l r && eq_ℤ l (pos (suc h - 1)))) [
      | inl c ↦ inr (suc h, omega arith, rw c)
      | inr c ↦ elim (Bool-cases (gtb_ℤ l r)) [
        | inl d ↦ inr (k, omega arith, rw (c, d) e)
        | inr d ↦ inr (m, omega arith, rw (c, d) f)
      ]
    ]

pub Valid-Bounded : (t : ℕ → ℤ) (h idx : ℕ) → Valid t h idx → Bounded (t idx) h
Valid-Bounded t zero idx (inl e) = inl e
Valid-Bounded t zero idx (inr e) = inr (0, omega arith, e)
Valid-Bounded t (suc h) idx (inl (e, l, r)) = inl e
Valid-Bounded t (suc h) idx (inr (l, r, e)) = rw e (
    merge-Bounded (t (idx * 2 + 1)) (t (idx * 2 + 2)) h (Valid-Bounded t h (idx * 2 + 1) l)
      (Valid-Bounded t h (idx * 2 + 2) r))

pub Free-entry : (t : ℕ → ℤ) (h idx : ℕ) → Free t h idx → t idx ≡ pos h
Free-entry t zero idx f = f
Free-entry t (suc h) idx f = f.0

merge-full :
    (l r : ℤ) (h : ℕ)
    → Bounded l h
    → Bounded r h
    → merge l r (suc h) ≡ pos (suc h)
    → (l ≡ pos h) × (r ≡ pos h)
unfolding merge
merge-full l r h (inl e) (inl f) g = ground arith
merge-full l r h (inl e) (inr (k, p, f)) g = ground arith
merge-full l r h (inr (k, p, e)) (inl f) g = ground arith
merge-full l r h (inr (k, p, e)) (inr (m, q, f)) g = ground arith

-- An entry that names its whole level stands above free blocks alone.
pub Valid-full : (t : ℕ → ℤ) (h idx : ℕ) → Valid t h idx → t idx ≡ pos h → Free t h idx
Valid-full t zero idx v e = e
Valid-full t (suc h) idx (inl (m, l, r)) e = cc
Valid-full t (suc h) idx (inr (l, r, m)) e =
    let (el, er) =
      merge-full (t (idx * 2 + 1)) (t (idx * 2 + 2)) h (Valid-Bounded t h (idx * 2 + 1) l)
        (Valid-Bounded t h (idx * 2 + 2) r) (sym m ∙ e) in
    (e, Valid-full t h (idx * 2 + 1) l el, Valid-full t h (idx * 2 + 2) r er)

pub Free-Valid : (t : ℕ → ℤ) (h idx : ℕ) → Free t h idx → Valid t h idx
unfolding merge
Free-Valid t zero idx f = inr f
Free-Valid t (suc h) idx (e, l, r) = inr (
  Free-Valid t h (idx * 2 + 1) l,
  Free-Valid t h (idx * 2 + 2) r,
  ground (arith, Free-entry t h (idx * 2 + 1) l, Free-entry t h (idx * 2 + 2) r),
)

-- A free block holds no block handed out.
pub blocks-Free : (t : ℕ → ℤ) (h idx base : ℕ) → Free t h idx → blocks t h idx base ≡ []
blocks-Free t zero idx base f = rw f
blocks-Free t (suc h) idx base (e, l, r) =
    rw (e, blocks-Free t h (idx * 2 + 1) base l, blocks-Free t h (idx * 2 + 2) (base + 2 ^ h) r)
