-- ===== src/Shcoll/Exchange/Memory.antt =====
-- osss-ucx/src/shcoll/src: the blocks in memory that an exchange reads and writes.
use paw.Prelude.{
  ℕ, suc, ◌+◌, ◌-◌, ◌*◌, ◌<◌, ◌≤◌, ◌≡◌, ◌≢◌, refl, ◌∙◌, subst, arith, true, ◌&&◌, ltb, leb, ◌==◌,
  dec_lt, ℕ_discrete, ◌⊎◌, inl, inr,
}
use native.Mathlib.Nat
use paw.Shcoll.{ActiveSet, pe_of, copy}
use paw.Shcoll.Indices.{pe_of-injective}

pub copy_hit :
    (f : ℕ → ℕ → ℕ) (from source to dest n j : ℕ)
    → j < n
    → copy f from source to dest n to (dest + j) ≡ f from (source + j)
copy_hit f from source to dest n j lt =
    let e : source + (dest + j) - dest ≡ source + j = omega arith in
    let t : (to == to && (leb dest (dest + j) && ltb (dest + j) (dest + n))) ≡ true =
      ground (arith, lt) in
    rw (t, e) refl

pub copy_other :
    (f : ℕ → ℕ → ℕ) (from source to dest n q k : ℕ)
    → (to ≢ q) ⊎ (k < dest) ⊎ (dest + n ≤ k)
    → copy f from source to dest n q k ≡ f q k
copy_other f from source to dest n q k h = ground (arith, h)

module _ (dest nelems : ℕ → ℕ) (src : ℕ → ℕ) (active : ActiveSet) (start : ℕ → ℕ → ℕ) where
  -- Member `b` has the block that member `a` has for it, as it was at the start.
  unfoldable pub Delivered : (ℕ → ℕ → ℕ) → ℕ → ℕ → Type 0
  Delivered bytes a b =
      (j : ℕ)
      → j < nelems a
      → bytes (pe_of active b) (dest a + j) ≡ start (pe_of active a) (src b + j)

  -- The blocks to send are as they were at the start.
  unfoldable pub Kept : (ℕ → ℕ → ℕ) → Type 0
  Kept bytes =
      (a b j : ℕ)
      → a < active.pe_size
      → b < active.pe_size
      → j < nelems a
      → bytes (pe_of active a) (src b + j) ≡ start (pe_of active a) (src b + j)

  -- The blocks received are apart from one another and from those to send.
  unfoldable pub Apart : Type 0
  Apart =
      ((a c : ℕ) → a ≢ c → (dest a + nelems a ≤ dest c) ⊎ (dest c + nelems c ≤ dest a))
      × ((a c d : ℕ)
          → a < active.pe_size
          → c < active.pe_size
          → d < active.pe_size
          → (src d + nelems c ≤ dest a) ⊎ (dest a + nelems a ≤ src d))

  abbrev pub copied : (ℕ → ℕ → ℕ) → ℕ → ℕ → ℕ → ℕ → ℕ
  copied bytes a b = copy bytes (pe_of active a) (src b) (pe_of active b) (dest a) (nelems a)

  pub copied-Delivered :
      (bytes : ℕ → ℕ → ℕ) (a b : ℕ)
      → a < active.pe_size
      → b < active.pe_size
      → Kept bytes
      → Delivered (copied bytes a b) a b
  unfolding Delivered Kept
  copied-Delivered bytes a b lt lt_b kept j lt_j =
      copy_hit bytes (pe_of active a) (src b) (pe_of active b) (dest a) (nelems a) j lt_j
      ∙ kept a b j lt lt_b lt_j

  pub copied-keeps :
      Apart
      → (bytes : ℕ → ℕ → ℕ) (a b c d : ℕ) → a < active.pe_size
      → b < active.pe_size
      → Kept bytes
      → Delivered bytes c d
      → Delivered (copied bytes a b) c d
  unfolding Delivered Kept Apart
  copied-keeps apart bytes a b c d lt lt_b kept there = elim (ℕ_discrete b d) [
    | no nb ↦ λ j lt_j.
        copy_other bytes _ _ _ _ _ _ _ (inl (λ e. nb (pe_of-injective active b d e))) ∙ there j lt_j
    | yes eb ↦ elim (ℕ_discrete a c) [
      | yes ea ↦
          subst (λ x. Delivered (copied bytes a b) x d) ea
            (subst (λ x. Delivered (copied bytes a b) a x) eb
              (copied-Delivered bytes a b lt lt_b kept))
      | no na ↦ λ j lt_j.
          copy_other bytes (pe_of active a) (src b) (pe_of active b) (dest a) (nelems a)
            (pe_of active d) (dest c + j)
            (inr (elim (apart.0 a c na) [
              | inl h ↦ inr (omega (arith, h))
              | inr h ↦ inl (omega (arith, h, lt_j))
            ]))
          ∙ there j lt_j
    ]
  ]

  pub copied-Kept :
      Apart
      → (bytes : ℕ → ℕ → ℕ) (a b : ℕ) → a < active.pe_size
      → Kept bytes
      → Kept (copied bytes a b)
  unfolding Kept Apart
  copied-Kept apart bytes a b lt kept c d j lt_c lt_d lt_j =
      copy_other bytes (pe_of active a) (src b) (pe_of active b) (dest a) (nelems a)
        (pe_of active c) (src d + j)
        (inr (elim (apart.1 a c d lt lt_c lt_d) [
          | inl h ↦ inl (omega (arith, h, lt_j))
          | inr h ↦ inr (omega (arith, h))
        ]))
      ∙ kept c d j lt_c lt_d lt_j

-- Blocks of one size that follow one another are apart.
pub equal_blocks-apart :
    (dest m a b : ℕ) → a ≢ b → (dest + a * m + m ≤ dest + b * m) ⊎ (dest + b * m + m ≤ dest + a * m)
equal_blocks-apart dest m a b ne = elim (dec_lt a b) [
  | yes below ↦ let k : suc a * m ≤ b * m = Nat.mul-le-mul_right m below in inl (omega (arith, k))
  | no above ↦
      let k : suc b * m ≤ a * m = Nat.mul-le-mul_right m (omega (arith, above, ne)) in
      inr (omega (arith, k))
]

-- They lie apart from what lies apart from all of them.
pub equal_blocks-outside :
    (dest m n a source : ℕ)
    → a < n
    → (source + m ≤ dest) ⊎ (dest + n * m ≤ source)
    → (source + m ≤ dest + a * m) ⊎ (dest + a * m + m ≤ source)
equal_blocks-outside dest m n a source lt (inl h) = inl (omega (arith, h))
equal_blocks-outside dest m n a source lt (inr h) =
    let k : suc a * m ≤ n * m = Nat.mul-le-mul_right m lt in inr (omega (arith, h, k))
