-- ===== src/Buddy/Subtree.antt =====
-- Which entries of the array stand below an entry, and that the two halves do not meet.
use paw.Prelude.{
  ℕ, zero, suc, ◌+◌, ◌*◌, ◌^◌, ◌≤◌, ◌<◌, ◌≡◌, ◌≢◌, ◌∙◌, sym, ap, arith, inl, inr, dec_lt,
}
use paw.Prelude.Int.{ℤ}
use paw.Buddy.{left, right, get_parent_idx}
use paw.Buddy.Nodes.{Free, Valid, blocks, Fits}
use paw.Prelude.Words.{two_pow_pos, two_pow_suc, two_pow_mono}

pub double : (a h : ℕ) → a * 2 ^ suc h ≡ a * 2 * 2 ^ h
double a h = rw two_pow_suc (omega arith)

pub grow : (a b c : ℕ) → a ≤ b → a * c ≤ b * c
grow a b c h = grind arith

module _ (h idx : ℕ) (f : Fits (suc h) idx) where
  pub Fits_small : idx * 2 + 4 ≤ 2 ^ 32
  Fits_small =
      let p : (idx + 2) * 2 * 1 ≤ (idx + 2) * 2 * 2 ^ h = grind (arith, two_pow_pos h) in
      omega (arith, p, double (idx + 2) h, f)

  pub left-eq : left idx ≡ idx * 2 + 1
  unfolding left
  left-eq = omega (arith, Fits_small)

  pub right-eq : right idx ≡ idx * 2 + 2
  unfolding right
  right-eq = omega (arith, Fits_small)

  pub parent-left : get_parent_idx (idx * 2 + 1) ≡ idx
  unfolding get_parent_idx
  parent-left = omega (arith, Fits_small)

  pub parent-right : get_parent_idx (idx * 2 + 2) ≡ idx
  unfolding get_parent_idx
  parent-right = omega (arith, Fits_small)

  pub Fits-left : Fits h (idx * 2 + 1)
  Fits-left =
      omega
        (arith, double (idx + 2) h, f, grow (idx * 2 + 1 + 2) ((idx + 2) * 2) (2 ^ h) (omega arith))

  pub Fits-right : Fits h (idx * 2 + 2)
  Fits-right =
      omega
        (arith, double (idx + 2) h, f, grow (idx * 2 + 2 + 2) ((idx + 2) * 2) (2 ^ h) (omega arith))

-- Entry `j` is entry `idx` or stands at most `h` levels below it.
abbrev pub InSub : ℕ → ℕ → ℕ → Type 0
InSub h idx j = (d : ℕ) × (d ≤ h) × ((idx + 1) * 2 ^ d ≤ j + 1) × (j + 1 < (idx + 2) * 2 ^ d)

pub InSub-self : (h idx : ℕ) → InSub h idx idx
InSub-self h idx = (0, omega arith, omega arith, omega arith)

pub InSub-left : (h idx j : ℕ) → InSub h (idx * 2 + 1) j → InSub (suc h) idx j
InSub-left h idx j (d, p, q, r) = (
  suc d,
  omega arith,
  omega (arith, double (idx + 1) d, grow ((idx + 1) * 2) (idx * 2 + 1 + 1) (2 ^ d) (omega arith)),
  omega (arith, double (idx + 2) d, grow (idx * 2 + 1 + 2) ((idx + 2) * 2) (2 ^ d) (omega arith)),
)

pub InSub-right : (h idx j : ℕ) → InSub h (idx * 2 + 2) j → InSub (suc h) idx j
InSub-right h idx j (d, p, q, r) = (
  suc d,
  omega arith,
  omega (arith, double (idx + 1) d, grow ((idx + 1) * 2) (idx * 2 + 2 + 1) (2 ^ d) (omega arith)),
  omega (arith, double (idx + 2) d, grow (idx * 2 + 2 + 2) ((idx + 2) * 2) (2 ^ d) (omega arith)),
)

InSub-ge : (h idx j : ℕ) → InSub h idx j → idx ≤ j
InSub-ge h idx j (d, p, q, r) =
    let m : (idx + 1) * 1 ≤ (idx + 1) * 2 ^ d = grind (arith, two_pow_pos d) in omega arith

pub InSub-left_ne : (h idx j : ℕ) → InSub h (idx * 2 + 1) j → idx ≢ j
InSub-left_ne h idx j s = omega (arith, InSub-ge h (idx * 2 + 1) j s)

pub InSub-right_ne : (h idx j : ℕ) → InSub h (idx * 2 + 2) j → idx ≢ j
InSub-right_ne h idx j s = omega (arith, InSub-ge h (idx * 2 + 2) j s)

scale : (a b c : ℕ) → b ≤ c → a * b ≤ a * c
scale a b c h = grind arith

pub InSub-disjoint : (h idx j : ℕ) → InSub h (idx * 2 + 1) j → InSub h (idx * 2 + 2) j → ⊥
InSub-disjoint h idx j (d, p, q, r) (e, p', q', r') = elim (dec_lt e d) [
  | yes lt ↦ omega (
    arith,
    scale (idx * 2 + 2) (2 ^ suc e) (2 ^ d) (two_pow_mono (suc e) d lt),
    two_pow_suc e,
    ap (λ (t : ℕ). idx * t) (two_pow_suc e),
    scale idx (2 ^ e) (2 * 2 ^ e) (omega arith),
  )
  | no ge ↦ omega (arith, scale (idx * 2 + 3) (2 ^ d) (2 ^ e) (two_pow_mono d e (omega arith)))
]

-- What is read of a subtree depends on its own entries alone.
abbrev pub Agree : ℕ → ℕ → (ℕ → ℤ) → (ℕ → ℤ) → Type 0
Agree h idx t t' = (j : ℕ) → InSub h idx j → t j ≡ t' j

pub Agree-left : (h idx : ℕ) (t t' : ℕ → ℤ) → Agree (suc h) idx t t' → Agree h (idx * 2 + 1) t t'
Agree-left h idx t t' a j s = a j (InSub-left h idx j s)

pub Agree-right : (h idx : ℕ) (t t' : ℕ → ℤ) → Agree (suc h) idx t t' → Agree h (idx * 2 + 2) t t'
Agree-right h idx t t' a j s = a j (InSub-right h idx j s)

pub Free-Agree : (h idx : ℕ) (t t' : ℕ → ℤ) → Agree h idx t t' → Free t h idx → Free t' h idx
Free-Agree zero idx t t' a f = sym (a idx (InSub-self zero idx)) ∙ f
Free-Agree (suc h) idx t t' a (e, l, r) = (
  sym (a idx (InSub-self (suc h) idx)) ∙ e,
  Free-Agree h (idx * 2 + 1) t t' (Agree-left h idx t t' a) l,
  Free-Agree h (idx * 2 + 2) t t' (Agree-right h idx t t' a) r,
)

pub Valid-Agree : (h idx : ℕ) (t t' : ℕ → ℤ) → Agree h idx t t' → Valid t h idx → Valid t' h idx
Valid-Agree zero idx t t' a (inl e) = inl (sym (a idx (InSub-self zero idx)) ∙ e)
Valid-Agree zero idx t t' a (inr e) = inr (sym (a idx (InSub-self zero idx)) ∙ e)
Valid-Agree (suc h) idx t t' a (inl (e, l, r)) = inl (
  sym (a idx (InSub-self (suc h) idx)) ∙ e,
  Free-Agree h (idx * 2 + 1) t t' (Agree-left h idx t t' a) l,
  Free-Agree h (idx * 2 + 2) t t' (Agree-right h idx t t' a) r,
)
Valid-Agree (suc h) idx t t' a (inr (l, r, e)) = inr (
  Valid-Agree h (idx * 2 + 1) t t' (Agree-left h idx t t' a) l,
  Valid-Agree h (idx * 2 + 2) t t' (Agree-right h idx t t' a) r,
  cc (
    e,
    a idx (InSub-self (suc h) idx),
    a (idx * 2 + 1) (InSub-left h idx (idx * 2 + 1) (InSub-self h (idx * 2 + 1))),
    a (idx * 2 + 2) (InSub-right h idx (idx * 2 + 2) (InSub-self h (idx * 2 + 2))),
  ),
)

pub blocks-Agree :
    (h idx base : ℕ) (t t' : ℕ → ℤ) → Agree h idx t t' → blocks t h idx base ≡ blocks t' h idx base
blocks-Agree zero idx base t t' a = rw (a idx (InSub-self zero idx))
blocks-Agree (suc h) idx base t t' a = rw (
  a idx (InSub-self (suc h) idx),
  a (idx * 2 + 1) (InSub-left h idx (idx * 2 + 1) (InSub-self h (idx * 2 + 1))),
  blocks-Agree h (idx * 2 + 1) base t t' (Agree-left h idx t t' a),
  blocks-Agree h (idx * 2 + 2) (base + 2 ^ h) t t' (Agree-right h idx t t' a),
)
