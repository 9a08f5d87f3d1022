-- ===== src/Buddy/Partition/Memory.antt =====
-- osss-ucx/src/api/allocator/memalloc.c and osss-ucx/src/api/shmalloc.c: `shmem_partition_malloc` and
-- `shmem_partition_free` together, in bytes, on a partition of at most 4 GB.
use paw.Prelude.{
  ℕ, zero, suc, ◌+◌, ◌*◌, ◌/◌, ◌^◌, ◌≤◌, ◌<◌, ◌≡◌, refl, arith, true, false, ◌==◌, some, dec_lt,
  ℕ_discrete, [], ◌≢◌, ◌%◌, ◌-◌, ==_iff, false,
}
use paw.Prelude.Int.{ℤ}
use paw.Prelude.Words.{two_pow_pos, two_pow_mono, two_pow_suc}
use paw.Buddy.{Buddy, buddy_alloc}
use paw.Buddy.Fresh.{buddy_new-Free}
use paw.Buddy.Nodes.{Free, Valid, blocks}
use paw.Buddy.Alloc.{has}
use paw.Buddy.Spec.{buddy_alloc_takes}
use paw.Buddy.Sizes.{buddy_alloc_rounds_up}
use paw.Buddy.Restore.{free_after_alloc, Inserted-Apart_end}
use paw.Buddy.Partition.{
  Partitions, shmema_buddy_init, units_of, address_of, partition_malloc, shmema_buddy_malloc,
  shmema_buddy_free, address_round_trip, units_of_least,
}
use paw.Buddy.Loops.{has-Bounded}
use paw.Buddy.Entry.{Valid-Bounded}

-- Any request is one for the least power of two that holds it.
alloc_least :
    (b : Buddy) (e n : ℕ)
    → b.height < 32
    → Valid b.tree b.height 0
    → e < 32
    → n ≤ 2 ^ e
    → 2 ^ e < n * 2
    → buddy_alloc b n ≡ buddy_alloc b (2 ^ e)
alloc_least b zero n lt v small le gt = let one : n ≡ 1 = omega arith in rw one refl
alloc_least b (suc d) n lt v small le gt = elim (ℕ_discrete n (2 ^ suc d)) [
  | yes e ↦ rw e refl
  | no ne ↦ buddy_alloc_rounds_up d n small (omega (arith, two_pow_suc d)) (omega arith) b lt v
]

nonzero : (n : ℕ) → 0 < n → (n == 0) ≡ false
nonzero n h = ground arith

malloc_least :
    (base : ℕ) (b : Buddy) (size e : ℕ)
    → b.height < 32
    → Valid b.tree b.height 0
    → e < 32
    → 0 < size
    → units_of size ≤ 2 ^ e
    → 2 ^ e < units_of size * 2
    → partition_malloc base b size
      ≡ (address_of base (buddy_alloc b (2 ^ e)).0, (buddy_alloc b (2 ^ e)).1)
unfolding partition_malloc shmema_buddy_malloc
malloc_least base b size e lt v small some_size le gt =
    rw (nonzero size some_size, alloc_least b e (units_of size) lt v small le gt) refl

address_of_small :
    (base offset : ℕ)
    → base + 2 ^ 32 ≤ 2 ^ 64
    → offset < 2 ^ 20
    → address_of base offset ≡ base + offset * 2 ^ 12
unfolding address_of
address_of_small base offset fits lt = omega arith

-- On a well-formed partition of at most 4 GB, below the end of the address space, a request of `size`
-- bytes for which there is a free block of the least power of two of units is met by memory that lies
-- within the partition; freeing the address returned succeeds, and leaves a well-formed tree with the
-- same blocks handed out as before.
pub partition_malloc_free :
    (base : ℕ) (b : Buddy) (size e : ℕ)
    → base + 2 ^ 32 ≤ 2 ^ 64
    → b.height ≤ 20
    → Valid b.tree b.height 0
    → has (b.tree 0) e ≡ true
    → 0 < size
    → size ≤ 2 ^ 32 - 2 ^ 12
    → units_of size ≤ 2 ^ e
    → 2 ^ e < units_of size * 2
    → let (addr, b') = partition_malloc base b size in
      (base ≤ addr)
      × (addr + size ≤ base + 2 ^ b.height * 2 ^ 12)
      × ((t : ℕ → ℤ) × (shmema_buddy_free base b' addr ≡ some (record b' { tree = t }))
          × Valid t b.height 0
          × (blocks t b.height 0 0 ≡ blocks b.tree b.height 0 0))
unfolding shmema_buddy_free
partition_malloc_free base b size e fits low v g some_size most le gt =
    let small : b.height < 32 = omega arith in
    let e_le : e ≤ b.height =
      has-Bounded (b.tree 0) b.height e (Valid-Bounded b.tree b.height 0 v) g in
    let (same, v', handed, apart) = buddy_alloc_takes b e small v g in
    let first = (buddy_alloc b (2 ^ e)).0 in
    let inside : first + 2 ^ e ≤ 2 ^ b.height =
      Inserted-Apart_end first e 0 (2 ^ b.height) apart handed in
    let top = two_pow_mono b.height 20 low in
    let below : first < 2 ^ 20 = omega (arith, two_pow_pos e) in
    let (t, freed, vt, same_blocks) = free_after_alloc b e small v g in
    rw
      (
        malloc_least base b size e small v (omega arith) some_size le gt,
        address_round_trip base first fits below,
        address_of_small base first fits below,
      )
      (omega arith, omega (arith, (units_of_least size most).0), (t, freed, vt, same_blocks))

-- A partition of at least one unit and less than 2^31 units, where `log2` gives the exponent of the
-- largest power of two that is not larger: the new tree is well formed, hands out nothing, has one free
-- block over all of its units, and these units lie within the capacity, more than half of which they
-- fill. The other partitions are left as they are.
pub shmema_buddy_init_fits :
    (log2 : ℕ → ℕ) (ps : Partitions) (base capacity id : ℕ)
    → ((n : ℕ) → 0 < n → (2 ^ log2 n ≤ n) × (n < 2 ^ suc (log2 n)))
    → 2 ^ 12 ≤ capacity
    → capacity < 2 ^ 31 * 2 ^ 12
    → let ps' = shmema_buddy_init log2 ps base capacity id in
      let b = ps'.bas id in
      Free b.tree b.height 0
      × Valid b.tree b.height 0
      × (blocks b.tree b.height 0 0 ≡ [])
      × (2 ^ b.height * 2 ^ 12 ≤ capacity)
      × (capacity < 2 ^ b.height * 2 ^ 12 * 2)
      × (ps'.bases id ≡ base)
      × ((i : ℕ) → i ≢ id → (ps'.bas i ≡ ps.bas i) × (ps'.bases i ≡ ps.bases i))
unfolding shmema_buddy_init
shmema_buddy_init_fits log2 ps base capacity id floor lo hi =
    let units = capacity / 2 ^ 12 in
    let (at_most, at_least) = floor units (omega arith) in
    let low = small_log (log2 units) units at_most (omega arith) in
    let byte : log2 units % 2 ^ 8 ≡ log2 units = omega arith in
    let (same, free, valid, none_out) = buddy_new-Free (log2 units) low in
    rw ((==_iff id id).1 refl, byte, same)
      (
        free,
        valid,
        none_out,
        omega arith,
        omega (arith, two_pow_suc (log2 units)),
        refl,
        λ i ne. rw (differ i id ne) (refl, refl),
      )
  where
    small_log : (e n : ℕ) → 2 ^ e ≤ n → n < 2 ^ 31 → e < 31
    small_log e n p q = elim (dec_lt e 31) [
      | yes lt ↦ lt
      | no ge ↦ absurd (omega (arith, two_pow_mono 31 e (omega arith)))
    ]

    differ : (i j : ℕ) → i ≢ j → (i == j) ≡ false
    differ i j ne = ground arith
