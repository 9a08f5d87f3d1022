-- ===== src/Buddy/Full.antt =====
-- osss-ucx/src/api/allocator/memalloc.c: when `buddy_alloc` fails.
use paw.Prelude.{
  ℕ, zero, suc, ◌+◌, ◌-◌, ◌*◌, ◌^◌, ◌≤◌, ◌<◌, ◌≡◌, ◌≢◌, refl, sym, ◌∙◌, ap, subst, arith, true,
  false, List, [], ◌∷◌, ◌++◌, ◌⊎◌, inl, inr, dec_lt, ℕ_discrete, Bool-cases, leb,
}
use paw.Prelude.Int.{ℤ}
use paw.Prelude.Words.{two_pow_pos, two_pow_suc, two_pow_mono}
use paw.Buddy.{Buddy, merge, buddy_alloc}
use paw.Buddy.Nodes.{Valid, blocks, Inserted, here, there}
use paw.Buddy.Subtree.{grow}
use paw.Buddy.Entry.{Bounded, Valid-Bounded, Free-entry}
use paw.Buddy.Alloc.{has, unit_at}
use paw.Buddy.Climb.{unit_at-Placed}
use paw.Buddy.Give.{blocks_halves}
use paw.Buddy.Spec.{Apart, buddy_alloc_takes, buddy_alloc_full, buddy_alloc-alloc_at}

-- One of the blocks shares a unit with the `2 ^ e` units from `u` on.
abbrev pub IsTouched : ℕ → ℕ → List (ℕ × ℕ) → Type 0
IsTouched u e [] = ⊥
IsTouched u e ((first, l) ∷ rest) = ((first < u + 2 ^ e) × (u < first + 2 ^ l)) ⊎ IsTouched u e rest

IsTouched-append_left :
    (u e : ℕ) (xs ys : List (ℕ × ℕ)) → IsTouched u e xs → IsTouched u e (xs ++ ys)
IsTouched-append_left u e [] ys t = absurd t
IsTouched-append_left u e (x ∷ xs) ys (inl h) = inl h
IsTouched-append_left u e (x ∷ xs) ys (inr t) = inr (IsTouched-append_left u e xs ys t)

IsTouched-append_right :
    (u e : ℕ) (xs ys : List (ℕ × ℕ)) → IsTouched u e ys → IsTouched u e (xs ++ ys)
IsTouched-append_right u e [] ys t = t
IsTouched-append_right u e (x ∷ xs) ys t = inr (IsTouched-append_right u e xs ys t)

IsTouched-wider :
    (u e v d : ℕ) (xs : List (ℕ × ℕ))
    → v ≤ u
    → u + 2 ^ e ≤ v + 2 ^ d
    → IsTouched u e xs
    → IsTouched v d xs
IsTouched-wider u e v d [] lo hi t = t
IsTouched-wider u e v d ((first, l) ∷ xs) lo hi (inl (p, q)) =
    inl (omega (arith, p, hi), omega (arith, q, lo))
IsTouched-wider u e v d (x ∷ xs) lo hi (inr t) = inr (IsTouched-wider u e v d xs lo hi t)

-- An entry above two halves has no block of a level where neither half has one.
merge_no :
    (l r : ℤ) (h e : ℕ)
    → Bounded l h
    → Bounded r h
    → e ≤ h
    → has (merge l r (suc h)) e ≡ false
    → (has l e ≡ false) × (has r e ≡ false)
unfolding merge
merge_no l r h e (inl el) (inl er) le m = rw (el, er) (refl, refl)
merge_no l r h e (inl el) (inr (b, p, er)) le m = ground arith
merge_no l r h e (inr (a, p, el)) (inl er) le m = ground arith
merge_no l r h e (inr (a, p, el)) (inr (b, q, er)) le m = ground arith

merge_no_whole :
    (l r : ℤ) (h : ℕ)
    → Bounded l h
    → Bounded r h
    → has (merge l r (suc h)) (suc h) ≡ false
    → (has l h ≡ false) ⊎ (has r h ≡ false)
unfolding merge
merge_no_whole l r h (inl el) br m = inl (rw el refl)
merge_no_whole l r h (inr (a, p, el)) (inl er) m = inr (rw er refl)
merge_no_whole l r h (inr (a, p, el)) (inr (b, q, er)) m = ground arith

multiple : (e h : ℕ) → e ≤ h → (c : ℕ) × (2 ^ h ≡ c * 2 ^ e)
multiple zero zero le = (1, omega arith)
multiple (suc e) zero le = absurd (omega arith)
multiple e (suc h) le = elim (ℕ_discrete e (suc h)) [
  | yes same ↦ (1, rw same (omega arith))
  | no ne ↦
      let (c, at) = multiple e h (omega arith) in
      let twice : 2 * c * 2 ^ e ≡ 2 * (c * 2 ^ e) = grind arith in
      (2 * c, two_pow_suc h ∙ ap (λ (x : ℕ). 2 * x) at ∙ sym twice)
]

split_at : (k c w : ℕ) → c ≤ k → k * w ≡ (k - c) * w + c * w
split_at k c w le =
    let whole : k ≡ k - c + c = omega arith in ap (λ (x : ℕ). x * w) whole ∙ grind arith

-- Where the entry has no free block of a level, a block handed out touches every run of that many units
-- that begins at a multiple of them.
no_free-IsTouched :
    (t : ℕ → ℤ) (h idx base e k : ℕ)
    → Valid t h idx
    → has (t idx) e ≡ false
    → e ≤ h
    → k * 2 ^ e + 2 ^ e ≤ 2 ^ h
    → IsTouched (base + k * 2 ^ e) e (blocks t h idx base)
no_free-IsTouched t zero idx base e k (inl m) g le fit =
    rw m (inl (omega (arith, two_pow_pos e), omega (arith, two_pow_pos e, fit)))
no_free-IsTouched t zero idx base e k (inr z) g le fit =
    let gt : leb e 0 ≡ false = rw z at g in absurd (ground (arith, gt, le))
no_free-IsTouched t (suc h) idx base e k (inl (m, l, r)) g le fit =
    rw (m, Free-entry t h (idx * 2 + 1) l)
      (inl (omega (arith, two_pow_pos e), omega (arith, two_pow_pos e, fit)))
no_free-IsTouched t (suc h) idx base e k (inr (l, r, m)) g le fit =
    let bl = Valid-Bounded t h (idx * 2 + 1) l in
    let br = Valid-Bounded t h (idx * 2 + 2) r in
    let merged : has (merge (t (idx * 2 + 1)) (t (idx * 2 + 2)) (suc h)) e ≡ false = rw m at g in
    rw (blocks_halves t h idx base l r m) (elim (ℕ_discrete e (suc h)) [
      | yes same ↦
          let whole : 2 ^ e ≡ 2 ^ suc h = ap (λ (x : ℕ). 2 ^ x) same in
          let twice = two_pow_suc h in
          elim (merge_no_whole _ _ h bl br (rw same at merged)) [
            | inl gl ↦ IsTouched-append_left _ e _ _ (
                IsTouched-wider (base + 0 * 2 ^ h) h _ e _ (omega (arith, whole, fit))
                  (omega (arith, whole, twice, fit))
                  (no_free-IsTouched t h (idx * 2 + 1) base h 0 l gl (omega arith) (omega arith)))
            | inr gr ↦ IsTouched-append_right _ e _ _ (
                IsTouched-wider (base + 2 ^ h + 0 * 2 ^ h) h _ e _ (omega (arith, whole, fit))
                  (omega (arith, whole, twice, fit))
                  (no_free-IsTouched t h (idx * 2 + 2) (base + 2 ^ h) h 0 r gr (omega arith)
                    (omega arith)))
          ]
      | no ne ↦
          let (gl, gr) = merge_no _ _ h e bl br (omega arith) merged in
          let (c, at) = multiple e h (omega arith) in
          elim (dec_lt k c) [
            | yes lt ↦ IsTouched-append_left _ e _ _ (
                no_free-IsTouched t h (idx * 2 + 1) base e k l gl (omega arith)
                  (omega (arith, at, grow (suc k) c (2 ^ e) lt)))
            | no ge ↦
                let parts : k * 2 ^ e ≡ (k - c) * 2 ^ e + c * 2 ^ e =
                  split_at k c (2 ^ e) (omega arith) in
                IsTouched-append_right _ e _ _ (
                  subst (λ u. IsTouched u e (blocks t h (idx * 2 + 2) (base + 2 ^ h)))
                    (omega (arith, at, parts))
                    (no_free-IsTouched t h (idx * 2 + 2) (base + 2 ^ h) e (k - c) r gr (omega arith)
                      (omega (arith, at, parts, fit, two_pow_suc h))))
          ]
    ])

behind : (u e lo hi : ℕ) (xs : List (ℕ × ℕ)) → u + 2 ^ e ≤ lo → Apart lo xs hi → ¬ IsTouched u e xs
behind u e lo hi [] le a t = t
behind u e lo hi ((first, l) ∷ xs) le a (inl (p, q)) = omega (arith, le, a.0, p)
behind u e lo hi ((first, l) ∷ xs) le a (inr t) =
    behind u e (first + 2 ^ l) hi xs (omega (arith, le, a.0)) a.1 t

Inserted-from :
    (u e lo hi : ℕ) (xs ys : List (ℕ × ℕ)) → Inserted (u, e) xs ys → Apart lo ys hi → lo ≤ u
Inserted-from u e lo hi xs _ (here _) a = a.0
Inserted-from u e lo hi _ _ (there {xs} {ys} (first, l) i) a =
    omega (arith, a.0, Inserted-from u e (first + 2 ^ l) hi xs ys i a.1)

-- A block put among blocks that stand apart touches none of the others.
Inserted-untouched :
    (u e lo hi : ℕ) (xs ys : List (ℕ × ℕ))
    → Inserted (u, e) xs ys
    → Apart lo ys hi
    → ¬ IsTouched u e xs
Inserted-untouched u e lo hi xs _ (here _) a t = behind u e (u + 2 ^ e) hi xs (omega arith) a.1 t
Inserted-untouched u e lo hi _ _ (there {xs} {ys} (first, l) i) a (inl (p, q)) =
    omega (arith, q, Inserted-from u e (first + 2 ^ l) hi xs ys i a.1)
Inserted-untouched u e lo hi _ _ (there {xs} {ys} (first, l) i) a (inr t) =
    Inserted-untouched u e (first + 2 ^ l) hi xs ys i a.1 t

module _ (b : Buddy) (e : ℕ) (lt : b.height < 32) (v : Valid b.tree b.height 0)
    (le : e ≤ b.height) where
  -- A block of `2 ^ e` units handed out by `buddy_alloc` begins at a multiple of them.
  aligned :
      (first : ℕ)
      → (leaf : ℕ) → first + 2 ^ b.height ≡ (leaf + 1) * 2 ^ e
      → (k : ℕ) × (first ≡ k * 2 ^ e)
  aligned first leaf at =
      let (c, whole) = multiple e b.height le in
      (
        leaf + 1 - c,
        elim (dec_lt (leaf + 1) c) [
          | yes less ↦
              absurd (omega (arith, at, whole, grow (suc (leaf + 1)) c (2 ^ e) less, two_pow_pos e))
          | no ge ↦ omega (arith, at, whole, split_at (leaf + 1) c (2 ^ e) (omega arith))
        ],
      )

  abbrev pub AllTouched : Type 0
  AllTouched =
      (k : ℕ)
      → k * 2 ^ e + 2 ^ e ≤ 2 ^ b.height
      → IsTouched (k * 2 ^ e) e (blocks b.tree b.height 0 0)

  taken_not_full : has (b.tree 0) e ≡ true → ((buddy_alloc b (2 ^ e)).0 ≢ 2 ^ 32 - 1) × ¬ AllTouched
  taken_not_full g =
      let at = unit_at-Placed b.tree b.height 0 e 0 (2 ^ b.height) le (omega arith) in
      let top : 2 ^ b.height ≤ 2 ^ 31 = two_pow_mono b.height 31 (omega arith) in
      let is : (buddy_alloc b (2 ^ e)).0 ≡ unit_at b.tree b.height 0 e 0 =
        ap (λ r. r.0) (buddy_alloc-alloc_at b e lt v g) in
      let (k, multiple_of) = aligned _ _ at.2 in
      let (height, valid, inserted, apart) = buddy_alloc_takes b e lt v g in
      (
        λ f. omega (arith, is, f, at.1, top, two_pow_pos e),
        λ all. Inserted-untouched _ e 0 (2 ^ b.height) _ _ inserted apart (
            subst (λ u. IsTouched u e (blocks b.tree b.height 0 0)) (sym (is ∙ multiple_of))
              (all k (omega (arith, multiple_of, at.1)))),
      )

  -- On a well-formed tree, a request for `2 ^ e` units, not more than the partition has, has one of two
  -- ends: a block handed out touches every run of `2 ^ e` units that begins at a multiple of them, the
  -- answer is (uint32_t) -1, and the tree is unchanged; or there is a run that none touches, and the answer
  -- is not (uint32_t) -1.
  pub buddy_alloc_fails :
      (AllTouched × (buddy_alloc b (2 ^ e) ≡ (2 ^ 32 - 1, b)))
      ⊎ (¬ AllTouched × ((buddy_alloc b (2 ^ e)).0 ≢ 2 ^ 32 - 1))
  buddy_alloc_fails = elim (Bool-cases (has (b.tree 0) e)) [
    | inl g ↦ let (met, free) = taken_not_full g in inr (free, met)
    | inr g ↦ inl (
      λ k fit.
          subst (λ u. IsTouched u e (blocks b.tree b.height 0 0)) (omega arith)
            (no_free-IsTouched b.tree b.height 0 0 e k v g le fit),
      buddy_alloc_full b e lt v g,
    )
  ]
