-- ===== src/Buddy/Partition.antt =====
-- osss-ucx/src/api/allocator/memalloc.c, `shmema_buddy_malloc` and `shmema_buddy_free`, and
-- osss-ucx/src/api/shmalloc.c, `shmem_partition_malloc`: bytes and addresses over units of 4 KB.
pub mod Memory
use paw.Prelude.{
  ℕ, ◌+◌, ◌-◌, ◌*◌, ◌/◌, ◌%◌, ◌^◌, ◌≤◌, ◌<◌, ◌≡◌, refl, arith, false, ◌==◌, if◌then◌else◌, ltb,
  Option,
}
use paw.Prelude.Words.{u32, add64, sub64}
use paw.Buddy.{Buddy, buddy_new, buddy_alloc, buddy_free}
use paw.Buddy.Nodes.{Valid}
use paw.Buddy.Alloc.{has}
use paw.Buddy.Spec.{buddy_alloc_full}
use paw.Prelude.Words.{two_pow_pos, two_pow_lt}

abbrev pub buddy_grain_log : ℕ
buddy_grain_log = 12

-- The units asked for: `size >> 12`, one more if the 32-bit product falls short.
unfoldable pub units_of : ℕ → ℕ
units_of size =
    let units = u32 (size / 2 ^ buddy_grain_log) in
    if ltb (u32 (units * 2 ^ buddy_grain_log)) size then u32 (units + 1) else units

-- bases[id] + (offset << BUDDY_GRAIN_LOG), with a 32-bit shift
pub address_of : ℕ → ℕ → ℕ
address_of base offset = add64 base (u32 (offset * 2 ^ buddy_grain_log))

-- The tables `bas` and `bases`, by partition.
pub record Partitions : Type 0 where
  pub bas : ℕ → Buddy
  pub bases : ℕ → ℕ

-- `log2` is that of the C library, its result cut to uint8_t.
pub shmema_buddy_init : (ℕ → ℕ) → Partitions → ℕ → ℕ → ℕ → Partitions
shmema_buddy_init log2 ps base capacity id =
    let height = log2 (capacity / 2 ^ buddy_grain_log) % 2 ^ 8 in
    record {
      bas = λ i. if i == id then buddy_new height else ps.bas i;
      bases = λ i. if i == id then base else ps.bases i;
    }

pub shmema_buddy_malloc : ℕ → Buddy → ℕ → ℕ × Buddy
shmema_buddy_malloc base b size =
    let (offset, b') = buddy_alloc b (units_of size) in (address_of base offset, b')

pub shmema_buddy_free : ℕ → Buddy → ℕ → Option Buddy
shmema_buddy_free base b addr = buddy_free b (u32 (sub64 addr base / 2 ^ buddy_grain_log))

-- `shmem_partition_malloc`, on the PE's own partition; 0 is NULL.
pub partition_malloc : ℕ → Buddy → ℕ → ℕ × Buddy
partition_malloc base b size = if size == 0 then (0, b) else shmema_buddy_malloc base b size

-- For a size below 4 GB less a unit, the units asked for are as few as hold the size.
pub units_of_least :
    (size : ℕ)
    → size ≤ 2 ^ 32 - 2 ^ 12
    → (size ≤ units_of size * 2 ^ 12) × (units_of size * 2 ^ 12 < size + 2 ^ 12)
unfolding units_of
units_of_least size h = ground arith

-- From 4 GB on, a size that is a whole number of units is given one unit too many.
pub units_of_large :
    (units : ℕ) → 2 ^ 20 ≤ units → units < 2 ^ 32 - 1 → units_of (units * 2 ^ 12) ≡ units + 1
unfolding units_of
units_of_large units h l = ground arith

-- Below 4 GB the address of a unit gives the unit back.
pub address_round_trip :
    (base offset : ℕ)
    → base + 2 ^ 32 ≤ 2 ^ 64
    → offset < 2 ^ 20
    → u32 (sub64 (address_of base offset) base / 2 ^ buddy_grain_log) ≡ offset
unfolding address_of
address_round_trip base offset h l = omega arith

-- Units that are 4 GB apart are given one and the same address.
pub address_of_alias :
    (base offset : ℕ) → address_of base (offset + 2 ^ 20) ≡ address_of base offset
unfolding address_of
address_of_alias base offset = omega arith

units_of_whole : (units : ℕ) → units < 2 ^ 20 → units_of (units * 2 ^ 12) ≡ units
unfolding units_of
units_of_whole units h = ground arith

nonzero_size : (e : ℕ) → (2 ^ e * 2 ^ 12 == 0) ≡ false
nonzero_size e = ground (arith, two_pow_pos e)

failed_address : (base : ℕ) → address_of base (2 ^ 32 - 1) ≡ add64 base (2 ^ 32 - 2 ^ 12)
unfolding address_of
failed_address base = refl

-- A partition that has no block for a request of `2 ^ e` units does not answer NULL: the address
-- returned is the last page of the 4 GB above its base, and the tree is unchanged.
pub partition_malloc_full :
    (base : ℕ) (b : Buddy) (e : ℕ)
    → e < 20
    → b.height < 32
    → Valid b.tree b.height 0
    → has (b.tree 0) e ≡ false
    → partition_malloc base b (2 ^ e * 2 ^ 12) ≡ (add64 base (2 ^ 32 - 2 ^ 12), b)
unfolding partition_malloc shmema_buddy_malloc
partition_malloc_full base b e le lt v g =
    rw
      (
        nonzero_size e,
        units_of_whole (2 ^ e) (two_pow_lt e 20 le),
        buddy_alloc_full b e lt v g,
        failed_address base,
      )
      refl
