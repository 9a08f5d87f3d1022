-- ===== src/Buddy/Restore.antt =====
-- osss-ucx/src/api/allocator/memalloc.c: `buddy_free` after `buddy_alloc`.
use paw.Prelude.{
  ℕ, ◌+◌, ◌^◌, ◌≤◌, ◌<◌, ◌≡◌, refl, sym, subst, arith, some, ap, ltb, leb, ◌&&◌, List, ◌∷◌, true,
  false,
}
use paw.Prelude.Int.{ℤ}
use paw.Prelude.Words.{two_pow_pos}
use paw.Buddy.{Buddy, buddy_alloc, buddy_free}
use paw.Buddy.Nodes.{Valid, blocks, Inserted, here, there}
use paw.Buddy.Alloc.{has}
use paw.Buddy.Spec.{Apart, buddy_alloc_takes}
use paw.Buddy.Give.{block_of, Apart_le}
use paw.Buddy.Freed.{buddy_free_gives_back}

-- A block of a list that stands apart from unit `lo` on begins at `lo` or later.
Inserted-Apart :
    (first e lo hi : ℕ) {xs ys : List (ℕ × ℕ)}
    → Apart lo ys hi
    → Inserted (first, e) xs ys
    → lo ≤ first
Inserted-Apart first e lo hi a (here xs) = a.0
Inserted-Apart first e lo hi a (there (f, k) i) =
    omega (arith, a.0, Inserted-Apart first e (f + 2 ^ k) hi a.1 i)

pub Inserted-Apart_end :
    (first e lo hi : ℕ) {xs ys : List (ℕ × ℕ)}
    → Apart lo ys hi
    → Inserted (first, e) xs ys
    → first + 2 ^ e ≤ hi
Inserted-Apart_end first e lo hi {ys = ys} a (here xs) = Apart_le (first + 2 ^ e) hi xs a.1
Inserted-Apart_end first e lo hi a (there (f, k) i) =
    Inserted-Apart_end first e (f + 2 ^ k) hi a.1 i

-- The first unit of a block names it.
block_of_first :
    (first e lo hi : ℕ) {xs ys : List (ℕ × ℕ)}
    → Apart lo ys hi
    → Inserted (first, e) xs ys
    → block_of first ys ≡ some (first, e)
block_of_first first e lo hi a (here xs) =
    let own : leb first first && ltb first (first + 2 ^ e) ≡ true = ground (arith, two_pow_pos e) in
    rw own
block_of_first first e lo hi a (there (f, k) i) =
    let other : leb f first && ltb first (f + 2 ^ k) ≡ false =
      ground (arith, Inserted-Apart first e (f + 2 ^ k) hi a.1 i) in
    rw other (block_of_first first e (f + 2 ^ k) hi a.1 i)

-- Blocks that stand apart leave the same list when the same block is taken off.
Inserted-unique :
    (first e first' e' lo hi : ℕ) {xs zs ys : List (ℕ × ℕ)}
    → first ≡ first'
    → Apart lo ys hi
    → Inserted (first, e) xs ys
    → Inserted (first', e') zs ys
    → xs ≡ zs
Inserted-unique first e first' e' lo hi q a (here xs) (here _) = refl
Inserted-unique first e first' e' lo hi q a (here xs) (there _ i) =
    absurd (omega (arith, two_pow_pos e, Inserted-Apart first' e' (first + 2 ^ e) hi a.1 i))
Inserted-unique first e first' e' lo hi q a (there y i) (here _) =
    absurd (omega (arith, two_pow_pos e', Inserted-Apart first e (first' + 2 ^ e') hi a.1 i))
Inserted-unique first e first' e' lo hi q a (there (f, k) i) (there _ j) =
    ap (◌∷◌ (f, k)) (Inserted-unique first e first' e' (f + 2 ^ k) hi q a.1 i j)

-- Where a well-formed tree has a free block of `2 ^ e` units, allocating so many units and freeing the
-- offset returned succeeds, and leaves a well-formed tree with the same blocks handed out as before.
pub free_after_alloc :
    (b : Buddy) (e : ℕ)
    → b.height < 32
    → Valid b.tree b.height 0
    → has (b.tree 0) e ≡ true
    → let (first, b') = buddy_alloc b (2 ^ e) in
      (t : ℕ → ℤ) × (buddy_free b' first ≡ some (record b' { tree = t }))
      × Valid t b.height 0
      × (blocks t b.height 0 0 ≡ blocks b.tree b.height 0 0)
free_after_alloc b e small v g =
    let (same, v', handed, apart) = buddy_alloc_takes b e small v g in
    let b' = (buddy_alloc b (2 ^ e)).1 in
    let first = (buddy_alloc b (2 ^ e)).0 in
    let keep : (P : ℕ → Type 0) → P b.height → P b'.height = λ P. subst P (sym same) in
    let (t, freed, vt, given) =
      buddy_free_gives_back b' first first e (keep (λ n. n < 32) small)
        (keep (λ n. Valid b'.tree n 0) v')
        (keep (λ n. block_of first (blocks b'.tree n 0 0) ≡ some (first, e))
          (block_of_first first e 0 (2 ^ b.height) apart handed)) in
    (
      t,
      freed,
      subst (λ n. Valid t n 0) same vt,
      Inserted-unique first e first e 0 (2 ^ b.height) refl apart
          (subst (λ n. Inserted (first, e) (blocks t n 0 0) (blocks b'.tree n 0 0)) same given)
          handed,
    )
