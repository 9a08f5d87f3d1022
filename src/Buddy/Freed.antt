-- ===== src/Buddy/Freed.antt =====
-- osss-ucx/src/api/allocator/memalloc.c: `buddy_free` as a whole, over the blocks of a tree.
use paw.Prelude.{
  ℕ, zero, suc, ◌+◌, ◌-◌, ◌*◌, ◌^◌, ◌<◌, ◌≡◌, refl, ◌∙◌, sym, arith, inl, inr, Option, none, some,
  Bool-cases, ltb, dec_lt, true,
}
use paw.Prelude.Int.{ℤ}
use paw.Prelude.Words.{two_pow_suc, two_pow_pos, two_pow_mono, u32}
use paw.Buddy.{Buddy, ascend_merge, buddy_free}
use paw.Buddy.Nodes.{Free, Valid, blocks, Inserted}
use paw.Buddy.Spec.{blocks-Apart, root-Fits}
use paw.Buddy.Find.{
  child_of, unit_of, child_of_both, found, found_unit, found_cases, find_block_lem,
}
use paw.Buddy.Release.{merge_up, free_at, free_at_here, free_at_below, ascend_merge_lem}
use paw.Buddy.Give.{block_of, block_of_past, found-Free, found_merged, block_of-found-none}
use paw.Buddy.Return.{GivenTo, GivenTo-left, GivenTo-right, GivenTo-whole, GivenTo-unit}

abbrev Given : (ℕ → ℤ) → ℕ → ℕ → ℕ → ℕ → Type 0
Given t h idx unit level = (first : ℕ) × GivenTo t (free_at t h idx unit) h idx unit first level

-- Giving the block back that the search finds.
Given-free_at :
    (t : ℕ → ℤ) (h idx unit i level : ℕ)
    → Valid t h idx
    → unit < 2 ^ h
    → found t h idx unit ≡ some (i, level)
    → Given t h idx unit level
unfolding free_at
Given-free_at t zero idx unit i level v lt e =
    let (m, p, q) = found_unit t idx unit i level e in (0, rw q (GivenTo-unit t idx unit lt m))
Given-free_at t (suc h) idx unit i level (inl (m, l, r)) lt e =
    elim (found_cases t h idx unit i level e) [
      | inl b ↦ absurd (none-some (sym (searched l r) ∙ b))
      | inr (b, m, p, q) ↦
          (0, rw (q, free_at_here t h idx unit b) (GivenTo-whole t h idx unit lt m l r))
    ]
  where
    none-some : ◌≡◌ {A = Option (ℕ × ℕ)} none (some (i, level)) → ⊥
    none-some p = cc

    searched :
        Free t h (idx * 2 + 1)
        → Free t h (idx * 2 + 2)
        → found t h (child_of h idx unit) (unit_of h unit) ≡ none
    searched l r =
        child_of_both (λ c u. found t h c u ≡ none) h idx unit
          (λ lt. found-Free t h (idx * 2 + 1) unit l)
          (λ ge. found-Free t h (idx * 2 + 2) (unit - 2 ^ h) r)
Given-free_at t (suc h) idx unit i level (inr (l, r, m)) lt e =
    elim (found_cases t h idx unit i level e) [
      | inl b ↦ rw (free_at_below t h idx unit (i, level) b) (
          child_of_both
            (λ c u.
              found t h c u ≡ some (i, level)
              → (first : ℕ) × GivenTo t (merge_up (free_at t h c u) h idx) (suc h) idx unit first
                  level)
            h idx unit
            (λ small p.
              let (first, g) = Given-free_at t h (idx * 2 + 1) unit i level l small p in
              (first, GivenTo-left t _ h idx unit first level l r m g))
            (λ big p.
              let (first, g) =
                Given-free_at t h (idx * 2 + 2) (unit - 2 ^ h) i level r
                  (omega (arith, two_pow_suc h)) p in
              (2 ^ h + first, GivenTo-right t _ h idx unit first level l r m big g))
            b)
      | inr (b, n, p, q) ↦ absurd (found_merged t h idx unit l r m b n)
    ]

module _ (b : Buddy) (offset : ℕ) (small : b.height < 32) (v : Valid b.tree b.height 0) where
  abbrev Found : Option (ℕ × ℕ) → Type 0
  Found x = found b.tree b.height 0 offset ≡ x

  -- Where the search of `buddy_free` begins.
  start :
      offset < 2 ^ b.height
      → u32 (u32 (2 ^ b.height) + 2 ^ 32 - 1 + offset) ≡ 2 ^ b.height - 1 + offset
  start lt = omega (arith, two_pow_mono b.height 31 (omega arith), two_pow_pos b.height)

  whole : u32 (2 ^ b.height) ≡ 2 ^ b.height
  whole = omega (arith, two_pow_mono b.height 31 (omega arith))

  buddy_free-free_at :
      (i level : ℕ)
      → offset < 2 ^ b.height
      → Found (some (i, level))
      → buddy_free b offset ≡ some (record b { tree = free_at b.tree b.height 0 offset })
  unfolding buddy_free ascend_merge
  buddy_free-free_at i level lt e =
      let in_range : ltb offset (u32 (2 ^ b.height)) ≡ true = ground (arith, whole) in
      rw
        (
          in_range,
          start lt,
          find_block_lem b.tree b.height offset (root-Fits b.height small) lt,
          e,
          ascend_merge_lem b.tree b.height 0 offset i level (root-Fits b.height small) e,
        )
        refl

-- Freeing any unit of a block that a well-formed tree has handed out succeeds: the tree stays well
-- formed, and exactly this block is given back.
pub buddy_free_gives_back :
    (b : Buddy) (offset first e : ℕ)
    → b.height < 32
    → Valid b.tree b.height 0
    → block_of offset (blocks b.tree b.height 0 0) ≡ some (first, e)
    → (t : ℕ → ℤ) × (buddy_free b offset ≡ some (record b { tree = t }))
      × Valid t b.height 0
      × Inserted (first, e) (blocks t b.height 0 0) (blocks b.tree b.height 0 0)
buddy_free_gives_back b offset first e small v held =
    by_search (found b.tree b.height 0 offset) refl
  where
    within : offset < 2 ^ b.height
    within = elim (dec_lt offset (2 ^ b.height)) [
      | yes lt ↦ lt
      | no ge ↦ past (
          block_of_past offset 0 (0 + 2 ^ b.height) _ (blocks-Apart b.tree b.height 0 0)
            (omega arith))
    ]
      where
        past : block_of offset (blocks b.tree b.height 0 0) ≡ none → offset < 2 ^ b.height
        past n = cc (n, held)

    by_search :
        (x : Option (ℕ × ℕ))
        → found b.tree b.height 0 offset ≡ x
        → (t : ℕ → ℤ) × (buddy_free b offset ≡ some (record b { tree = t }))
          × Valid t b.height 0
          × Inserted (first, e) (blocks t b.height 0 0) (blocks b.tree b.height 0 0)
    by_search none q =
        let n = block_of-found-none b.tree b.height 0 offset 0 v within q in
        let at : 0 + offset ≡ offset = omega arith in let n' = rw at at n in cc (n', held)
    by_search (some (i, level)) q =
        let (f, g) = Given-free_at b.tree b.height 0 offset i level v within q in
        let at : 0 + offset ≡ offset = omega arith in
        let h = rw at at (g.holder 0) in
        let (same_first, same_level) = some-pair (sym h ∙ held) in
        (
          free_at b.tree b.height 0 offset,
          buddy_free-free_at b offset small v i level within q,
          g.valid,
          rw (← same_first, ← same_level) (g.given 0),
        )
      where
        some-pair :
            {a c d k : ℕ} → ◌≡◌ {A = Option (ℕ × ℕ)} (some (a, c)) (some (d, k)) → (a ≡ d) × (c ≡ k)
        some-pair p = (cc, cc)

-- Freeing a unit that no block of a well-formed tree holds, also one outside the partition, fails an
-- assertion.
pub buddy_free_refuses :
    (b : Buddy) (offset : ℕ)
    → b.height < 32
    → Valid b.tree b.height 0
    → block_of offset (blocks b.tree b.height 0 0) ≡ none
    → buddy_free b offset ≡ none
unfolding buddy_free
buddy_free_refuses b offset small v n = elim (Bool-cases (ltb offset (u32 (2 ^ b.height)))) [
  | inr out ↦ rw out
  | inl in_range ↦
      let lt : offset < 2 ^ b.height = ground (arith, whole b offset small v) in
      rw (
        in_range,
        start b offset small v lt,
        find_block_lem b.tree b.height offset (root-Fits b.height small) lt,
        fails lt (found b.tree b.height 0 offset) refl,
      )
]
  where
    fails :
        offset < 2 ^ b.height → (x : Option (ℕ × ℕ)) → found b.tree b.height 0 offset ≡ x → x ≡ none
    fails lt none q = refl
    fails lt (some (i, level)) q =
        let (f, g) = Given-free_at b.tree b.height 0 offset i level v lt q in
        let at : 0 + offset ≡ offset = omega arith in let h = rw at at (g.holder 0) in cc (n, h)
