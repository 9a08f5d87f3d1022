-- ===== src/Shcoll/Indices.antt =====
-- osss-ucx/src/shcoll/src: PE numbers and indices in an active set, and the ring of its indices.
use paw.Prelude.{
  ℕ, zero, suc, ◌+◌, ◌-◌, ◌*◌, ◌/◌, ◌%◌, ◌^◌, ◌<◌, ◌≡◌, sym, ap, ◌∙◌, arith, ltb, if◌then◌else◌,
  dec_lt, inl, inr, ◌⊎◌, ℕ_discrete, ◌≢◌,
}
use native.Mathlib.Nat
use paw.Prelude.Words.{two_pow_pos}
use paw.Shcoll.{ActiveSet, pe_of, index_of}

pub mod_wrap : (x n : ℕ) → x < n + n → x % n ≡ (if ltb x n then x else x - n)
mod_wrap x n lt = elim (dec_lt x n) [
  | yes below ↦ let e = Nat.mod-eq_of_lt below in ground (arith, e)
  | no above ↦
      let e =
        Nat.mod-eq-sub-mod {n = x} {m = n} (omega arith)
        ∙ Nat.mod-eq_of_lt {n = x - n} {m = n} (omega arith) in
      ground (arith, e)
]

pub mod_wrap_twice :
    (x n : ℕ)
    → x < n + n + n
    → x % n ≡ (if ltb x n then x else if ltb (x - n) n then x - n else x - n - n)
mod_wrap_twice x n lt = elim (dec_lt x (n + n)) [
  | yes below ↦ let e = mod_wrap x n below in ground (arith, e)
  | no above ↦
      let e = Nat.mod-eq-sub-mod {n = x} {m = n} (omega arith) ∙ mod_wrap (x - n) n (omega arith) in
      ground (arith, e)
]

module _ (active : ActiveSet) where
  pub index_of-pe_of : (i : ℕ) → index_of active (pe_of active i) ≡ i
  unfolding index_of pe_of
  index_of-pe_of i =
      let e : active.pe_start + i * 2 ^ active.log_stride - active.pe_start
          ≡ i * 2 ^ active.log_stride =
        omega arith in
      ap (λ x. x / 2 ^ active.log_stride) e
      ∙ Nat.mul-div_cancel i {n = 2 ^ active.log_stride} (two_pow_pos active.log_stride)

  pub pe_of-injective : (i j : ℕ) → pe_of active i ≡ pe_of active j → i ≡ j
  pe_of-injective i j e = sym (index_of-pe_of i) ∙ ap (index_of active) e ∙ index_of-pe_of j

  -- Whether a PE is among the first `n` members.
  pub member :
      (n q : ℕ)
      → ((a : ℕ) × (a < n) × (pe_of active a ≡ q)) ⊎ ((a : ℕ) → a < n → pe_of active a ≢ q)
  member zero q = inr (λ a lt. absurd (omega (arith, lt)))
  member (suc n) q = elim (ℕ_discrete (pe_of active n) q) [
    | yes e ↦ inl (n, omega arith, e)
    | no ne ↦ elim (member n q) [
      | inl (a, lt, e) ↦ inl (a, omega (arith, lt), e)
      | inr no_one ↦ inr (λ a lt. elim (ℕ_discrete a n) [
        | yes e ↦ rw e ne
        | no other ↦ no_one a (omega (arith, lt, other))
      ])
    ]
  ]
