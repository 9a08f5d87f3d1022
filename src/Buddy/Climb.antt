-- ===== src/Buddy/Climb.antt =====
-- The way back up from the block taken, and the unit that it begins with.
use paw.Prelude.{
  ℕ, zero, suc, ◌+◌, ◌*◌, ◌^◌, ◌≤◌, ◌≡◌, refl, ◌∙◌, sym, arith, inl, inr, ℕ_discrete, Bool-cases,
  subst, ap, if◌then◌else◌,
}
use paw.Prelude.Int.{ℤ, minus_one}
use paw.Buddy.{get_parent_idx, ascend_max, put}
use paw.Buddy.Nodes.{Fits}
use paw.Buddy.Subtree.{double, parent-left, parent-right, Fits-left, Fits-right}
use paw.Prelude.Words.{two_pow_suc}
use paw.Buddy.Alloc.{has, child, leaf_at, unit_at, sum_up, alloc_at, alloc_whole, unit_whole}
use paw.Buddy.Loops.{ascend_round, eq_suc_ne, leaf_here, leaf_below}

alloc_below :
    (t : ℕ → ℤ) (h idx e : ℕ)
    → e ≤ h
    → alloc_at t (suc h) idx e ≡ sum_up (alloc_at t h (child t idx e) e) idx
unfolding alloc_at
alloc_below t h idx e le = rw (eq_suc_ne e h (omega arith))

unit_below :
    (t : ℕ → ℤ) (h idx e base : ℕ)
    → e ≤ h
    → unit_at t (suc h) idx e base
      ≡ unit_at t h (child t idx e) e (if has (t (idx * 2 + 1)) e then base else base + 2 ^ h)
unfolding unit_at
unit_below t h idx e base le = rw (eq_suc_ne e h (omega arith))

abbrev Climbs : (ℕ → ℤ) → ℕ → ℕ → ℕ → Type 0
Climbs t h e c =
    ascend_max (leaf_at t h c e) (leaf_at t h c e) (put t (leaf_at t h c e) minus_one)
    ≡ ascend_max c c (alloc_at t h c e)

Climbs-here : (t : ℕ → ℤ) (h idx : ℕ) → Climbs t h h idx
Climbs-here t h idx = rw (leaf_here t h idx, alloc_whole t h idx) refl

-- From either child the way goes on at the entry above.
Climbs-below :
    (t : ℕ → ℤ) (h idx e : ℕ)
    → Fits (suc h) idx
    → e ≤ h
    → Climbs t h e (idx * 2 + 1)
    → Climbs t h e (idx * 2 + 2)
    → Climbs t (suc h) e idx
Climbs-below t h idx e f le l r =
    rw (leaf_below t h idx e le, alloc_below t h idx e le)
      (elim (Bool-cases (has (t (idx * 2 + 1)) e)) [
        | inl go ↦ rw go (l ∙ up _ (idx * 2) (omega arith) (parent-left h idx f) (omega arith))
        | inr skip ↦
            rw skip (r ∙ up _ (idx * 2 + 1) (omega arith) (parent-right h idx f) (omega arith))
      ])
  where
    up :
        (T : ℕ → ℤ) (c : ℕ) {c' : ℕ}
        → c' ≡ suc c
        → get_parent_idx c' ≡ idx
        → idx ≤ c
        → ascend_max c' c' T ≡ ascend_max idx idx (sum_up T idx)
    up T c {c'} e p q =
        subst (λ d. ascend_max d d T ≡ ascend_max idx idx (sum_up T idx)) (sym e)
          (ascend_round T h idx c f (subst (λ d. get_parent_idx d ≡ idx) e p) q)

-- Marking the block and summing up on the way to the root is what `alloc_at` does below `idx`, and
-- the same way from `idx` on.
pub ascend_lem : (t : ℕ → ℤ) (h idx e : ℕ) → Fits h idx → e ≤ h → Climbs t h e idx
ascend_lem t zero idx e f le =
    let z : zero ≡ e = omega arith in subst (λ e'. Climbs t zero e' idx) z (Climbs-here t zero idx)
ascend_lem t (suc h) idx e f le = elim (ℕ_discrete (suc h) e) [
  | yes same ↦ subst (λ e'. Climbs t (suc h) e' idx) same (Climbs-here t (suc h) idx)
  | no less ↦
      Climbs-below t h idx e f (omega arith)
        (ascend_lem t h (idx * 2 + 1) e (Fits-left h idx f) (omega arith))
        (ascend_lem t h (idx * 2 + 2) e (Fits-right h idx f) (omega arith))
]

-- The block lies inside the units of `idx`, and its entry is the one that its first unit and level
-- belong to; `top` is `2 ^ height`.
abbrev pub Placed : (ℕ → ℤ) → ℕ → ℕ → ℕ → ℕ → ℕ → Type 0
Placed t h idx e base top =
    (base ≤ unit_at t h idx e base)
    × (unit_at t h idx e base + 2 ^ e ≤ base + 2 ^ h)
    × (unit_at t h idx e base + top ≡ (leaf_at t h idx e + 1) * 2 ^ e)

Placed-here :
    (t : ℕ → ℤ) (h idx base top : ℕ) → base + top ≡ (idx + 1) * 2 ^ h → Placed t h idx h base top
Placed-here t h idx base top p =
    rw (unit_whole t h idx base, leaf_here t h idx) (omega arith, omega arith, p)

Placed-below :
    (t : ℕ → ℤ) (h idx e base top : ℕ)
    → e ≤ h
    → Placed t h (idx * 2 + 1) e base top
    → Placed t h (idx * 2 + 2) e (base + 2 ^ h) top
    → Placed t (suc h) idx e base top
Placed-below t h idx e base top le l r =
    rw (leaf_below t h idx e le, unit_below t h idx e base le)
      (elim (Bool-cases (has (t (idx * 2 + 1)) e)) [
        | inl go ↦ rw go (l.0, omega (arith, l.1, two_pow_suc h), l.2)
        | inr skip ↦ rw skip (omega (arith, r.0), omega (arith, r.1, two_pow_suc h), r.2)
      ])

spread : (i c : ℕ) → (i * 2 + 2 + 1) * c ≡ (i + 1) * 2 * c + c
spread i c = omega arith

pub unit_at-Placed :
    (t : ℕ → ℤ) (h idx e base top : ℕ)
    → e ≤ h
    → base + top ≡ (idx + 1) * 2 ^ h
    → Placed t h idx e base top
unit_at-Placed t zero idx e base top le p =
    let z : zero ≡ e = omega arith in
    subst (λ e'. Placed t zero idx e' base top) z (Placed-here t zero idx base top p)
unit_at-Placed t (suc h) idx e base top le p = elim (ℕ_discrete (suc h) e) [
  | yes same ↦
      subst (λ e'. Placed t (suc h) idx e' base top) same (Placed-here t (suc h) idx base top p)
  | no less ↦
      Placed-below t h idx e base top (omega arith)
        (unit_at-Placed t h (idx * 2 + 1) e base top (omega arith)
          (omega (arith, double (idx + 1) h, ap (λ (c : ℕ). c * 2 ^ h) (twice idx))))
        (unit_at-Placed t h (idx * 2 + 2) e (base + 2 ^ h) top (omega arith)
          (omega (arith, double (idx + 1) h, spread idx (2 ^ h))))
]
  where
    twice : (i : ℕ) → (i + 1) * 2 ≡ i * 2 + 1 + 1
    twice i = omega arith
