-- ===== src/Buddy/Tests.antt =====
-- The buddy allocator at a partition of eight units.
use paw.Prelude.{
  ℕ, zero, suc, ◌+◌, ◌-◌, ◌*◌, ◌/◌, ◌^◌, ◌≤◌, ◌<◌, ◌≡◌, ◌≢◌, refl, [], some, none, arith, inl, inr,
  leb, ◌==◌, if◌then◌else◌, Bool-cases, ◌⊎◌,
}
use paw.Prelude.Int.{ℤ, pos, minus_one}
use paw.Prelude.Words.{two_pow_suc}
use paw.Buddy.{merge, Buddy, buddy_new, buddy_alloc, buddy_free}
use paw.Buddy.Nodes.{Free, Valid, blocks, Inserted}
use paw.Buddy.Entry.{Free-Valid}
use paw.Buddy.Spec.{Apart, buddy_alloc_takes, buddy_alloc_full}
use paw.Buddy.Full.{AllTouched, buddy_alloc_fails}
use paw.Buddy.Sizes.{buddy_alloc_rounds_up}
use paw.Buddy.Freed.{buddy_free_gives_back, buddy_free_refuses}
use paw.Buddy.Partition.{
  Partitions, shmema_buddy_init, units_of, partition_malloc, shmema_buddy_free,
}
use paw.Buddy.Partition.Memory.{partition_malloc_free, shmema_buddy_init_fits}

abbrev fresh : Buddy
fresh = buddy_new 3

fresh-Free : Free fresh.tree 3 0
unfolding buddy_new
fresh-Free = (
  refl,
  (refl, (refl, refl, refl), (refl, refl, refl)),
  (refl, (refl, refl, refl), (refl, refl, refl)),
)

fresh_height : fresh.height ≡ 3
unfolding buddy_new
fresh_height = refl

-- Three units are rounded up to four; then two units go to the other half; freeing restores it.
alloc_three : ((buddy_alloc fresh 3).0 ≡ 0) × ((buddy_alloc (buddy_alloc fresh 3).1 2).0 ≡ 4)
unfolding buddy_new buddy_alloc
alloc_three = (refl, refl)

free_again :
    (b : Buddy) × (buddy_free (buddy_alloc fresh 3).1 0 ≡ some b) × (blocks b.tree 3 0 0 ≡ [])
unfolding buddy_new buddy_alloc buddy_free
free_again = (_, refl, refl)

abbrev tree_of : ℕ → ℤ
tree_of i = fresh.tree i

buddy_alloc_takes_example :
    let (first, b') = buddy_alloc (record { height = 3; tree = tree_of }) (2 ^ 1) in
    (b'.height ≡ 3)
    × Valid b'.tree 3 0
    × Inserted (first, 1) (blocks tree_of 3 0 0) (blocks b'.tree 3 0 0)
    × Apart 0 (blocks b'.tree 3 0 0) (2 ^ 3)
unfolding buddy_new
buddy_alloc_takes_example =
    buddy_alloc_takes (record { height = 3; tree = tree_of }) 1 (omega arith)
      (Free-Valid tree_of 3 0 fresh-Free) refl

-- A partition of one unit, which is taken.
abbrev spent : Buddy
spent = record { height = 0; tree = λ i. minus_one }

spent_answer : buddy_alloc spent (2 ^ 0) ≡ (2 ^ 32 - 1, spent)
spent_answer = buddy_alloc_full spent 0 (omega arith) (inl refl) refl

-- A partition of two units, of which the first is handed out.
abbrev half : Buddy
half = record { height = 1; tree = λ i. if i == 1 then minus_one else pos 0 }

half-Valid : Valid half.tree 1 0
unfolding merge
half-Valid = inr (inl refl, inr refl, refl)

-- One unit is free, two that begin at a multiple of two are not.
buddy_alloc_fails_example :
    (AllTouched half 1 (omega arith) half-Valid (omega arith)
      × (buddy_alloc half (2 ^ 1) ≡ (2 ^ 32 - 1, half)))
    ⊎ (¬ AllTouched half 1 (omega arith) half-Valid (omega arith)
        × ((buddy_alloc half (2 ^ 1)).0 ≢ 2 ^ 32 - 1))
buddy_alloc_fails_example = buddy_alloc_fails half 1 (omega arith) half-Valid (omega arith)

buddy_free_gives_back_example :
    (t : ℕ → ℤ) × (buddy_free half 0 ≡ some (record half { tree = t }))
    × Valid t 1 0
    × Inserted (0, 0) (blocks t 1 0 0) (blocks half.tree 1 0 0)
buddy_free_gives_back_example = buddy_free_gives_back half 0 0 0 (omega arith) half-Valid refl

buddy_free_refuses_example : buddy_free half 1 ≡ none
buddy_free_refuses_example = buddy_free_refuses half 1 (omega arith) half-Valid refl

abbrev eight : Buddy
eight = record { height = 3; tree = tree_of }

eight-Valid : Valid tree_of 3 0
eight-Valid = Free-Valid tree_of 3 0 fresh-Free

buddy_alloc_rounds_up_example : buddy_alloc eight 3 ≡ buddy_alloc eight (2 ^ 2)
buddy_alloc_rounds_up_example =
    buddy_alloc_rounds_up 1 3 (omega arith) (omega arith) (omega arith) eight (omega arith)
      eight-Valid

-- Ten thousand bytes are three units, rounded up to four.
partition_malloc_free_example :
    let (addr, b') = partition_malloc 65536 eight 10000 in
    (65536 ≤ addr)
    × (addr + 10000 ≤ 65536 + 2 ^ 3 * 2 ^ 12)
    × ((t : ℕ → ℤ) × (shmema_buddy_free 65536 b' addr ≡ some (record b' { tree = t }))
        × Valid t 3 0
        × (blocks t 3 0 0 ≡ blocks tree_of 3 0 0))
unfolding buddy_new units_of
partition_malloc_free_example =
    partition_malloc_free 65536 eight 10000 2 (omega arith) (omega arith) eight-Valid refl
      (omega arith) (omega arith) (omega arith) (omega arith)

-- The exponent of the largest power of two below a number, by halving.
abbrev halvings : ℕ → ℕ → ℕ
halvings zero n = 0
halvings (suc fuel) n = if leb 2 n then suc (halvings fuel (n / 2)) else 0

halvings_floor :
    (fuel n : ℕ) → n ≤ fuel → 0 < n → (2 ^ halvings fuel n ≤ n) × (n < 2 ^ suc (halvings fuel n))
halvings_floor zero n le h = absurd (omega arith)
halvings_floor (suc fuel) n le h = elim (Bool-cases (leb 2 n)) [
  | inl e ↦
      let (p, q) = halvings_floor fuel (n / 2) (ground arith) (ground arith) in
      rw e (
        omega (arith, two_pow_suc (halvings fuel (n / 2))),
        omega (arith, two_pow_suc (suc (halvings fuel (n / 2)))),
      )
  | inr e ↦ rw e (omega arith, ground arith)
]

abbrev no_partitions : Partitions
no_partitions = record { bas = λ i. spent; bases = λ i. 0 }

shmema_buddy_init_fits_example :
    let ps' = shmema_buddy_init (λ n. halvings n n) no_partitions 65536 40000 1 in
    let b = ps'.bas 1 in
    Free b.tree b.height 0
    × Valid b.tree b.height 0
    × (blocks b.tree b.height 0 0 ≡ [])
    × (2 ^ b.height * 2 ^ 12 ≤ 40000)
    × (40000 < 2 ^ b.height * 2 ^ 12 * 2)
    × (ps'.bases 1 ≡ 65536)
    × ((i : ℕ) → i ≢ 1 → (ps'.bas i ≡ no_partitions.bas i) × (ps'.bases i ≡ no_partitions.bases i))
shmema_buddy_init_fits_example =
    shmema_buddy_init_fits (λ n. halvings n n) no_partitions 65536 40000 1
      (λ n h. halvings_floor n n (omega arith) h) (omega arith) (omega arith)
