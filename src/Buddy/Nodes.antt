-- ===== src/Buddy/Nodes.antt =====
-- The tree of a buddy allocator read as blocks: which entries say that a block is free, what a
-- well-formed tree is, and which blocks it has handed out.
use paw.Prelude.{
  ℕ, zero, suc, ◌+◌, ◌*◌, ◌^◌, ◌≤◌, ◌≡◌, ◌⊎◌, List, [], ◌∷◌, ◌++◌, ◌&&◌, not, if◌then◌else◌,
}
use paw.Prelude.Int.{ℤ, pos, minus_one, eq_ℤ}
use paw.Buddy.{merge}

-- All of the `2 ^ h` units below entry `idx` are free, and no block below is split.
abbrev pub Free : (ℕ → ℤ) → ℕ → ℕ → Type 0
Free t zero idx = t idx ≡ pos 0
Free t (suc h) idx = (t idx ≡ pos (suc h)) × Free t h (idx * 2 + 1) × Free t h (idx * 2 + 2)

-- Entry `idx` at level `h` is a block handed out, or sums up its two well-formed children.
abbrev pub Valid : (ℕ → ℤ) → ℕ → ℕ → Type 0
Valid t zero idx = (t idx ≡ minus_one) ⊎ (t idx ≡ pos 0)
Valid t (suc h) idx =
    ((t idx ≡ minus_one) × Free t h (idx * 2 + 1) × Free t h (idx * 2 + 2))
    ⊎ (Valid t h (idx * 2 + 1)
        × Valid t h (idx * 2 + 2)
        × (t idx ≡ merge (t (idx * 2 + 1)) (t (idx * 2 + 2)) (suc h)))

-- The blocks handed out below entry `idx`, from the left: each with its first unit and its level,
-- where the units below `idx` begin at `base`.
abbrev pub blocks : (ℕ → ℤ) → ℕ → ℕ → ℕ → List (ℕ × ℕ)
blocks t zero idx base = if eq_ℤ (t idx) minus_one then (base, 0) ∷ [] else []
blocks t (suc h) idx base =
    if eq_ℤ (t idx) minus_one && not (eq_ℤ (t (idx * 2 + 1)) minus_one)
    then (base, suc h) ∷ []
    else blocks t h (idx * 2 + 1) base ++ blocks t h (idx * 2 + 2) (base + 2 ^ h)

-- No sum over the indices below `idx` wraps.
abbrev pub Fits : ℕ → ℕ → Type 0
Fits h idx = (idx + 2) * 2 ^ h ≤ 2 ^ 32

-- `ys` is `xs` with `x` at one more place.
pub data Inserted {ℓ} {A : Type ℓ} (x : A) : List A → List A → Type ℓ where
  here : (xs : List A) → Inserted x xs (x ∷ xs)
  there : {xs ys : List A} (y : A) → Inserted x xs ys → Inserted x (y ∷ xs) (y ∷ ys)

pub Inserted-append_left {ℓ} :
    {A : Type ℓ} {x : A} {xs ys : List A} (zs : List A)
    → Inserted x xs ys
    → Inserted x (xs ++ zs) (ys ++ zs)
Inserted-append_left zs (here xs) = here (xs ++ zs)
Inserted-append_left zs (there y h) = there y (Inserted-append_left zs h)

pub Inserted-append_right {ℓ} :
    {A : Type ℓ} {x : A} (zs : List A) {xs ys : List A}
    → Inserted x xs ys
    → Inserted x (zs ++ xs) (zs ++ ys)
Inserted-append_right [] h = h
Inserted-append_right (z ∷ zs) h = there z (Inserted-append_right zs h)
