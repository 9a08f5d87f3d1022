-- ===== src/Shcoll/Scan/Advance.antt =====
-- The scan does not stand still: a PE below which all have finished goes on at each of its steps.
use paw.Prelude.{
  ℕ, zero, suc, ◌+◌, ◌-◌, ◌*◌, ◌^◌, ◌≤◌, ◌<◌, ◌≡◌, ◌≢◌, refl, arith, Bool, true, false, ltb, leb,
  ◌==◌, ==_iff, subst, Bool-cases, inl, inr,
}
use paw.Prelude.Words.{two_pow_pos, two_pow_suc}
use paw.Shcoll.Scan.{Place, notify, await, collect, clear, settle, finished, System}
use paw.Shcoll.Scan.Unit.{unit_send, unit_step}
use paw.Shcoll.Scan.Window.{window}
use paw.Shcoll.Scan.Invariant.{seen, taken, Into, Word, waiting, over, Local, Invariant}

-- How many steps a PE in this place has before it.
abbrev pub left_of : ℕ → Place → ℕ
left_of n (notify k) = 5 * (n - k) + 3
left_of n (await k) = 5 * (n - k) + 2
left_of n (collect k) = 5 * (n - k) + 1
left_of n (clear k) = 5 * (n - k)
left_of n (settle k) = 5 * (n - k) - 1
left_of n finished = 0

below_two_pow : (k : ℕ) → k < 2 ^ k
below_two_pow zero = omega arith
below_two_pow (suc k) = omega (arith, two_pow_suc k, below_two_pow k)

arrived : (w x : ℕ) → Word w x true false false → (w == 0) ≡ false
arrived w x (waiting _ e) = ground arith

gone : (w x : ℕ) (b : Bool) → Word w x b true true → (w == 0) ≡ true
gone w x _ (over e) = ground arith

-- Other PEs stay where they are.
pub unit_step-place :
    (n : ℕ) (value : ℕ → ℕ) (me : ℕ) (p : Place) (s : System) (q : ℕ)
    → q ≢ me
    → (unit_step n value me p s).place q ≡ s.place q
unfolding unit_step unit_send
unit_step-place n value me (notify k) s q ne = ground arith
unit_step-place n value me (await k) s q ne = ground arith
unit_step-place n value me (collect k) s q ne = ground arith
unit_step-place n value me (clear k) s q ne = ground arith
unit_step-place n value me (settle k) s q ne = ground arith
unit_step-place n value me finished s q ne = refl

module _ (n : ℕ) (value : ℕ → ℕ) (s : System) (me : ℕ) (lt : me < n) (inv : Invariant n value s)
    (lower : (p : ℕ) → p < me → s.place p ≡ finished) where
  abbrev Advances : Place → Type 0
  Advances p =
      (new : Place) × ((unit_step n value me p s).place me ≡ new) × (left_of n new < left_of n p)

  self : (me == me) ≡ true
  self = (==_iff me me).1 refl

  sum_at : (p : Place) → s.place me ≡ p → Local value me (s.partial_scan me) (s.dest me) p
  sum_at p e = subst (λ a. Local value me (s.partial_scan me) (s.dest me) a) e (inv.local me lt)

  -- The word of a round that a lower PE sends.
  word_at :
      (k : ℕ) (p : Place)
      → s.place me ≡ p
      → 2 ^ k ≤ me
      → Word (s.words me k) (window value (me - 2 ^ k) k) true (seen p k) (taken p k)
  word_at k p e le =
      let at : me - 2 ^ k + 2 ^ k ≡ me = omega arith in
      let down = lower (me - 2 ^ k) (omega (arith, two_pow_pos k)) in
      rw (down, e) at
        (subst (λ q. Into value s (me - 2 ^ k) k q) at (inv.between (me - 2 ^ k) k (omega arith)))

  pub advance : (p : Place) → s.place me ≡ p → p ≢ finished → Advances p
  unfolding unit_step unit_send
  advance (notify k) e ne = elim (Bool-cases (ltb (me + 2 ^ k) n)) [
    | inl parent ↦ (await k, rw (parent, self) refl, omega arith)
    | inr no_parent ↦ (await k, rw (no_parent, self) refl, omega arith)
  ]
  advance (await k) e ne = elim (Bool-cases (ltb (2 ^ k) n)) [
    | inr last ↦ (finished, rw (last, self) refl, omega arith)
    | inl more ↦ elim (Bool-cases (leb (2 ^ k) me)) [
      | inr first ↦ (notify (suc k), rw (more, first, self) refl, ground (arith, below_two_pow k))
      | inl waits ↦
          let low : ltb k k ≡ false = ground arith in
          let here = arrived _ _ (rw low at (word_at k (await k) e (ground arith))) in
          (collect k, rw (more, waits, here, self) refl, omega arith)
    ]
  ]
  advance (collect k) e ne = (clear k, rw self refl, omega arith)
  advance (clear k) e ne =
      let le = (sum_at (clear k) e).0 in
      (settle k, rw self refl, omega (arith, below_two_pow k, le))
  advance (settle k) e ne =
      let le = (sum_at (settle k) e).0 in
      let high : leb k k ≡ true = ground arith in
      let empty = gone _ _ _ (rw high at (word_at k (settle k) e le)) in
      (notify (suc k), rw (empty, self) refl, omega (arith, below_two_pow k, le))
  advance finished e ne = absurd (ne refl)
