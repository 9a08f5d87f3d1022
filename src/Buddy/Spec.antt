-- ===== src/Buddy/Spec.antt =====
-- osss-ucx/src/api/allocator/memalloc.c: `buddy_alloc` as a whole, over the blocks of a tree.
use paw.Prelude.{
  ℕ_discrete, if◌then◌else◌, ℕ, zero, suc, ◌+◌, ◌-◌, ◌*◌, ◌^◌, ◌≤◌, ◌<◌, ◌≡◌, refl, ◌∙◌, arith,
  true, false, Bool, ◌==◌, inl, inr, ◌||◌, ◌&&◌, not, Bool-cases, subst, List, [], ◌∷◌, ◌++◌, ltb,
  leb,
}
use paw.Prelude.Int.{ℤ, minus_one, eq_ℤ}
use paw.Prelude.Words.{u32}
use paw.Buddy.{Buddy, is_pow_of_2, pow2, get_idx_offset, buddy_alloc}
use paw.Buddy.Nodes.{Fits, blocks, Valid, Inserted}
use paw.Buddy.Subtree.{grow}
use paw.Prelude.Words.{two_pow_pos, two_pow_mono, two_pow_suc}
use paw.Buddy.Entry.{Bounded, Valid-Bounded}
use paw.Buddy.Alloc.{has, leaf_at, unit_at, alloc_at, has-level}
use paw.Buddy.Take.{Taken-alloc_at}
use paw.Buddy.Loops.{descend_lem, pow2-has, has-Bounded}
use paw.Buddy.Climb.{ascend_lem, unit_at-Placed}

-- The blocks stand one after the other between unit `lo` and unit `hi`.
abbrev pub Apart : ℕ → List (ℕ × ℕ) → ℕ → Type 0
Apart lo [] hi = lo ≤ hi
Apart lo ((first, e) ∷ rest) hi = (lo ≤ first) × Apart (first + 2 ^ e) rest hi

Apart-append :
    (lo mid hi : ℕ) (xs ys : List (ℕ × ℕ))
    → Apart lo xs mid
    → Apart mid ys hi
    → Apart lo (xs ++ ys) hi
Apart-append lo mid hi [] [] p q = omega arith
Apart-append lo mid hi [] ((first, e) ∷ ys) p q = (omega (arith, q.0), q.1)
Apart-append lo mid hi ((first, e) ∷ xs) ys p q =
    (p.0, Apart-append (first + 2 ^ e) mid hi xs ys p.1 q)

-- No two blocks handed out share a unit, and all lie inside the partition: the blocks of every tree
-- stand one after the other.
pub blocks-Apart : (t : ℕ → ℤ) (h idx base : ℕ) → Apart base (blocks t h idx base) (base + 2 ^ h)
blocks-Apart t zero idx base = elim (Bool-cases (eq_ℤ (t idx) minus_one)) [
  | inl e ↦ rw e (omega arith, omega arith)
  | inr e ↦ rw e (omega arith)
]
blocks-Apart t (suc h) idx base =
    elim (Bool-cases (eq_ℤ (t idx) minus_one && not (eq_ℤ (t (idx * 2 + 1)) minus_one))) [
      | inl e ↦ rw e (omega arith, omega arith)
      | inr e ↦ rw e (
          Apart-append base (base + 2 ^ h) (base + 2 ^ suc h) _ _
            (blocks-Apart t h (idx * 2 + 1) base)
            (subst (λ top. Apart (base + 2 ^ h) (blocks t h (idx * 2 + 2) (base + 2 ^ h)) top)
              (omega (arith, two_pow_suc h)) (blocks-Apart t h (idx * 2 + 2) (base + 2 ^ h))))
    ]

-- IS_POW_OF_2 at the powers of two below `2 ^ n`.
first_powers : ℕ → Bool
first_powers zero = true
first_powers (suc n) = if is_pow_of_2 (2 ^ n) then first_powers n else false

first_powers-lt : (n e : ℕ) → first_powers n ≡ true → e < n → is_pow_of_2 (2 ^ e) ≡ true
unfolding first_powers
first_powers-lt zero e h lt = absurd (omega arith)
first_powers-lt (suc n) e h lt = elim (ℕ_discrete e n) [
  | yes same ↦ rw same (ground arith)
  | no ne ↦ first_powers-lt n e (ground arith) (omega arith)
]

pub is_pow_of_2_pow : (e : ℕ) → e < 32 → is_pow_of_2 (2 ^ e) ≡ true
unfolding first_powers is_pow_of_2
is_pow_of_2_pow e h = first_powers-lt 32 e word_powers h
  where
    word_powers : first_powers 32 ≡ true
    word_powers = refl

-- The unit that the block of entry `leaf` begins with.
offset_lem :
    (leaf e h unit : ℕ)
    → h < 32
    → e ≤ h
    → unit + 2 ^ e ≤ 2 ^ h
    → unit + 2 ^ h ≡ (leaf + 1) * 2 ^ e
    → get_idx_offset leaf e h ≡ unit
unfolding get_idx_offset
offset_lem leaf e h unit lt le fit at =
    let top : 2 ^ h ≤ 2 ^ 31 = two_pow_mono h 31 (omega arith) in
    let wide : 1 * (leaf + 1) ≤ 2 ^ e * (leaf + 1) = grow 1 (2 ^ e) (leaf + 1) (two_pow_pos e) in
    let pos_e : 0 < 2 ^ e = two_pow_pos e in
    let whole : u32 (leaf + 1) ≡ leaf + 1 = omega arith in rw (whole, ← at) (omega arith)

pub root-Fits : (h : ℕ) → h < 32 → Fits h 0
root-Fits h lt = omega (arith, two_pow_mono h 31 (omega arith))

enough :
    (v : ℤ) (h e : ℕ)
    → Bounded v h
    → h < 32
    → has v e ≡ true
    → (ltb (pow2 v) (2 ^ e) || 2 ^ e == 0) ≡ false
enough v h e b lt g =
    let le : leb (2 ^ e) (pow2 v) ≡ true = pow2-has v h e b lt ∙ g in ground (arith, two_pow_pos e)

short :
    (v : ℤ) (h e : ℕ)
    → Bounded v h
    → h < 32
    → has v e ≡ false
    → (ltb (pow2 v) (2 ^ e) || 2 ^ e == 0) ≡ true
short v h e b lt g = let gt : leb (2 ^ e) (pow2 v) ≡ false = pow2-has v h e b lt ∙ g in ground arith

-- The loops together compute `alloc_at` from the root, and answer with the first unit of the block.
pub buddy_alloc-alloc_at :
    (b : Buddy) (e : ℕ)
    → b.height < 32
    → Valid b.tree b.height 0
    → has (b.tree 0) e ≡ true
    → buddy_alloc b (2 ^ e)
      ≡ (unit_at b.tree b.height 0 e 0, record b { tree = alloc_at b.tree b.height 0 e })
unfolding buddy_alloc
buddy_alloc-alloc_at b e lt v g =
    let bd = Valid-Bounded b.tree b.height 0 v in
    let le : e ≤ b.height = has-Bounded (b.tree 0) b.height e bd g in
    let (k, ek, lk) = has-level (b.tree 0) e g in
    let at = unit_at-Placed b.tree b.height 0 e 0 (2 ^ b.height) le (omega arith) in
    rw
      (
        enough (b.tree 0) b.height e bd lt g,
        is_pow_of_2_pow e (omega arith),
        descend_lem b.tree b.height 0 e k (root-Fits b.height lt) lt v ek lk le,
        offset_lem (leaf_at b.tree b.height 0 e) e b.height (unit_at b.tree b.height 0 e 0) lt le
            (omega (arith, at.1)) at.2,
        ascend_lem b.tree b.height 0 e (root-Fits b.height lt) le,
      )
      refl

-- A request for `2 ^ e` units from a well-formed tree whose root names a free block at least that
-- large is met: the tree stays well formed, exactly one block of `2 ^ e` units is handed out, at the
-- unit returned, and all blocks lie apart from one another inside the partition.
pub buddy_alloc_takes :
    (b : Buddy) (e : ℕ)
    → b.height < 32
    → Valid b.tree b.height 0
    → has (b.tree 0) e ≡ true
    → let (first, b') = buddy_alloc b (2 ^ e) in
      (b'.height ≡ b.height)
      × Valid b'.tree b.height 0
      × Inserted (first, e) (blocks b.tree b.height 0 0) (blocks b'.tree b.height 0 0)
      × Apart 0 (blocks b'.tree b.height 0 0) (2 ^ b.height)
buddy_alloc_takes b e lt v g =
    let bd = Valid-Bounded b.tree b.height 0 v in
    let (k, ek, lk) = has-level (b.tree 0) e g in
    let taken =
      Taken-alloc_at b.tree b.height 0 e k v ek lk (has-Bounded (b.tree 0) b.height e bd g) in
    rw (buddy_alloc-alloc_at b e lt v g) (
      refl,
      taken.valid,
      taken.handed 0,
      subst (λ top. Apart 0 (blocks (alloc_at b.tree b.height 0 e) b.height 0 0) top) (omega arith)
          (blocks-Apart (alloc_at b.tree b.height 0 e) b.height 0 0),
    )

-- A request for `2 ^ e` units that the root of a well-formed tree has no block for fails: the answer
-- is (uint32_t) -1, and the tree is unchanged.
pub buddy_alloc_full :
    (b : Buddy) (e : ℕ)
    → b.height < 32
    → Valid b.tree b.height 0
    → has (b.tree 0) e ≡ false
    → buddy_alloc b (2 ^ e) ≡ (2 ^ 32 - 1, b)
unfolding buddy_alloc
buddy_alloc_full b e lt v g =
    rw (short (b.tree 0) b.height e (Valid-Bounded b.tree b.height 0 v) lt g)
