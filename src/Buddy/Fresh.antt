-- ===== src/Buddy/Fresh.antt =====
-- osss-ucx/src/api/allocator/memalloc.c: `buddy_new` writes a tree all of whose units are free.
use paw.Prelude.{
  ℕ, zero, suc, ◌+◌, ◌-◌, ◌*◌, ◌^◌, ◌≤◌, ◌<◌, ◌≡◌, ◌≢◌, refl, ◌∙◌, arith, inl, inr, ◌⊎◌, [], dec_lt,
  ℕ_discrete, if◌then◌else◌, ap,
}
use paw.Prelude.Int.{ℤ, pos, minus_one}
use paw.Prelude.Words.{two_pow_pos, two_pow_mono, two_pow_suc}
use paw.Buddy.{is_pow_of_2, put, buddy_new, buddy_new_loop}
use paw.Buddy.Nodes.{Free, Valid, blocks}
use paw.Buddy.Entry.{Free-Valid, blocks-Free}
use paw.Buddy.Alloc.{put_self, put_ne}
use paw.Buddy.Spec.{is_pow_of_2_pow}
use paw.Buddy.Sizes.{is_pow_of_2_between}

-- Entry `i` stands `d` levels below the root.
abbrev Depth : ℕ → ℕ → Type 0
Depth d i = (2 ^ d ≤ i + 1) × (i + 1 < 2 ^ suc d)

-- Entries before the loop's counter are kept.
loop-kept : (n i level j : ℕ) (t : ℕ → ℤ) → j < i → buddy_new_loop n i level t j ≡ t j
unfolding buddy_new_loop
loop-kept zero i level j t lt = refl
loop-kept (suc n) i level j t lt =
    loop-kept n (i + 1) _ j _ (omega arith) ∙ put_ne t i j _ (omega arith)

-- The level of the loop at entry `i`: one more than the entry's own at the start of a row.
abbrev Level : ℕ → ℕ → ℕ → ℕ → Type 0
Level h d i level = (i + 1 ≡ 2 ^ d → level ≡ suc h - d) × (i + 1 ≢ 2 ^ d → level ≡ h - d)

level_now :
    (h d i level : ℕ)
    → d ≤ h
    → d < 32
    → Depth d i
    → Level h d i level
    → (if is_pow_of_2 (i + 1) then level - 1 else level) ≡ h - d
level_now h d i level le lt (lo, hi) (first, later) = elim (ℕ_discrete (i + 1) (2 ^ d)) [
  | yes e ↦ rw (e, is_pow_of_2_pow d lt) (omega (arith, first e))
  | no ne ↦ rw (is_pow_of_2_between d (i + 1) lt (omega arith) hi) (later ne)
]

Depth_unique : (d e i : ℕ) → Depth d i → Depth e i → d ≡ e
Depth_unique d e i (p, q) (r, s) = elim (dec_lt d e) [
  | yes lt ↦ absurd (omega (arith, two_pow_mono (suc d) e lt))
  | no ge ↦ elim (dec_lt e d) [
    | yes gt ↦ absurd (omega (arith, two_pow_mono (suc e) d gt))
    | no le ↦ omega arith
  ]
]

loop_step :
    (n i level : ℕ) (t : ℕ → ℤ)
    → buddy_new_loop (suc n) i level t
      ≡ buddy_new_loop n
          (i + 1)
          (if is_pow_of_2 (i + 1) then level - 1 else level)
          (put t i (pos (if is_pow_of_2 (i + 1) then level - 1 else level)))
unfolding buddy_new_loop is_pow_of_2
loop_step n i level t = refl

Depth_le : (h d i : ℕ) → Depth d i → i + 1 < 2 ^ suc h → d ≤ h
Depth_le h d i (p, q) lt = elim (dec_lt h d) [
  | yes gt ↦ absurd (omega (arith, two_pow_mono (suc h) d gt))
  | no le ↦ omega arith
]

-- The next entry stands in the same row, or begins the next.
next :
    (h d i : ℕ)
    → Depth d i
    → (Depth d (i + 1) × Level h d (i + 1) (h - d))
      ⊎ (Depth (suc d) (i + 1) × Level h (suc d) (i + 1) (h - d))
next h d i (p, q) =
    let m = two_pow_suc (suc d) in
    let pos_d = two_pow_pos (suc d) in
    elim (dec_lt (i + 1 + 1) (2 ^ suc d)) [
      | yes lt ↦ inl ((omega arith, lt), (λ e. absurd (omega arith), λ ne. refl))
      | no ge ↦ inr ((omega arith, omega arith), (λ e. omega arith, λ ne. absurd (omega arith)))
    ]

-- What the loop writes: each entry names its own level.
loop-entry :
    (h n i d level j k : ℕ) (t : ℕ → ℤ)
    → h < 31
    → i + n < 2 ^ suc h
    → Depth d i
    → Level h d i level
    → i ≤ j
    → j < i + n
    → Depth k j
    → buddy_new_loop n i level t j ≡ pos (h - k)
loop-entry h zero i d level j k t small room at lv lo hi dk = absurd (omega arith)
loop-entry h (suc n) i d level j k t small room at lv lo hi dk =
    let le = Depth_le h d i at (omega arith) in
    rw (loop_step n i level t, level_now h d i level le (omega arith) at lv)
      (elim (ℕ_discrete i j) [
        | yes e ↦ rw (← e) (
            loop-kept n (i + 1) (h - d) i _ (omega arith)
            ∙ put_self t i _
            ∙ ap (λ m. pos (h - m)) (Depth_unique d k i at (rw e dk)))
        | no ne ↦ elim (next h d i at) [
          | inl (at', lv') ↦
              loop-entry h n (i + 1) d (h - d) j k _ small (omega arith) at' lv' (omega arith)
                (omega arith) dk
          | inr (at', lv') ↦
              loop-entry h n (i + 1) (suc d) (h - d) j k _ small (omega arith) at' lv' (omega arith)
                (omega arith) dk
        ]
      ])

-- Entries that name their levels are free.
levels-Free :
    (h : ℕ) (t : ℕ → ℤ)
    → ((j k : ℕ) → j + 1 < 2 ^ suc h → Depth k j → t j ≡ pos (h - k))
    → (l d i : ℕ) → l + d ≡ h
    → Depth d i
    → Free t l i
levels-Free h t all zero d i e (p, q) =
    let r = two_pow_mono (suc d) (suc h) (omega arith) in
    all i d (omega arith) (p, q) ∙ ap pos (omega arith)
levels-Free h t all (suc l) d i e (p, q) =
    let r = two_pow_mono (suc d) (suc h) (omega arith) in
    let m = two_pow_suc (suc d) in
    let m' = two_pow_suc d in
    (
      all i d (omega arith) (p, q) ∙ ap pos (omega arith),
      levels-Free h t all l (suc d) (i * 2 + 1) (omega arith) (omega arith, omega arith),
      levels-Free h t all l (suc d) (i * 2 + 2) (omega arith) (omega arith, omega arith),
    )

-- For a height below 31, `buddy_new` makes a well-formed tree of this height, all of whose units are
-- one free block: no block is handed out.
pub buddy_new-Free :
    (h : ℕ)
    → h < 31
    → ((buddy_new h).height ≡ h)
      × Free (buddy_new h).tree h 0
      × Valid (buddy_new h).tree h 0
      × (blocks (buddy_new h).tree h 0 0 ≡ [])
unfolding buddy_new
buddy_new-Free h lt = (refl, free, Free-Valid _ h 0 free, blocks-Free _ h 0 0 free)
  where
    written :
        (j k : ℕ)
        → j + 1 < 2 ^ suc h
        → Depth k j
        → buddy_new_loop (2 ^ (h + 1) - 1) 0 (h + 1) (λ _. minus_one) j ≡ pos (h - k)
    written j k small at =
        let e : h + 1 ≡ suc h = omega arith in
        rw e (
          loop-entry h (2 ^ suc h - 1) 0 0 (suc h) j k _ lt (omega (arith, two_pow_pos (suc h)))
            (omega arith, omega (arith, two_pow_suc 0)) (λ _. omega arith, λ ne. absurd (ne refl))
            (omega arith) (omega arith) at)

    free : Free (buddy_new h).tree h 0
    free = levels-Free h _ written h 0 0 (omega arith) (omega arith, omega (arith, two_pow_suc 0))
