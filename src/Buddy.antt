-- ===== src/Buddy.antt =====
-- osss-ucx/src/api/allocator/memalloc.c: the buddy allocator of the memory partitions. The tree is a
-- heap-ordered array of int8_t: -1 where nothing below is free, else the exponent of the largest free
-- block below. Unsigned 32-bit sums keep their wrap-around.
pub mod Nodes
pub mod Subtree
pub mod Entry
pub mod Alloc
pub mod Take
pub mod Loops
pub mod Climb
pub mod Spec
pub mod Full
pub mod Round
pub mod Sizes
pub mod Fresh
pub mod Find
pub mod Release
pub mod Give
pub mod Return
pub mod Freed
pub mod Restore
pub mod Partition
mod Tests
use paw.Prelude.{
  ℕ, zero, suc, ◌+◌, ◌-◌, ◌*◌, ◌/◌, ◌%◌, ◌^◌, ◌<◌, ◌≤◌, ◌≡◌, Bool, true, false, ◌&&◌, ◌||◌, not,
  Option, none, some, ltb, leb, ◌==◌, if◌then◌else◌, bit_and, bit_or,
}
use paw.Prelude.Int.{ℤ, pos, negsuc, minus_one, gtb_ℤ, eq_ℤ, max_ℤ}
use paw.Prelude.Words.{u32, add64, sub64, u64}

-- `buddy_t`
pub record Buddy : Type 0 where
  pub height : ℕ
  pub tree : ℕ → ℤ

abbrev pub put : (ℕ → ℤ) → ℕ → ℤ → ℕ → ℤ
put t i v j = if i == j then v else t j

-- IS_POW_OF_2
pub is_pow_of_2 : ℕ → Bool
is_pow_of_2 n = bit_and n (u32 (n + 2 ^ 32 - 1)) == 0

-- (idx + 1) / 2 - 1, called at idx != 0 alone
pub get_parent_idx : ℕ → ℕ
get_parent_idx idx = u32 (u32 (idx + 1) / 2 + 2 ^ 32 - 1)

-- idx * 2 + 1 and idx * 2 + 2
pub left : ℕ → ℕ
left idx = u32 (idx * 2 + 1)

pub right : ℕ → ℕ
right idx = u32 (idx * 2 + 2)

pub pow2 : ℤ → ℕ
pow2 (pos e) = u32 (2 ^ e)
pow2 (negsuc e) = 0

pub get_idx_offset : ℕ → ℕ → ℕ → ℕ
get_idx_offset idx level_exp height =
    u32 (u32 (u32 (idx + 1) * 2 ^ level_exp) + 2 ^ 32 - u32 (2 ^ height))

-- The loop of `buddy_new`: `n` entries left, from entry `i` on.
pub buddy_new_loop : ℕ → ℕ → ℕ → (ℕ → ℤ) → ℕ → ℤ
unfolding is_pow_of_2
buddy_new_loop zero i level_exp t = t
buddy_new_loop (suc n) i level_exp t =
    let level_exp' = if is_pow_of_2 (i + 1) then level_exp - 1 else level_exp in
    buddy_new_loop n (i + 1) level_exp' (put t i (pos level_exp'))

-- The entries that `malloc` leaves unset, here -1, are all written by the loop.
pub buddy_new : ℕ → Buddy
unfolding buddy_new_loop
buddy_new height = record {
  height = height;
  tree = buddy_new_loop (2 ^ (height + 1) - 1) 0 (height + 1) (λ _. minus_one);
}

-- The smearing of the top bit, for a request that is no power of two.
pub round_up : ℕ → ℕ
round_up n =
    let a = bit_or n (n / 2 ^ 1) in
    let b = bit_or a (a / 2 ^ 2) in
    let c = bit_or b (b / 2 ^ 4) in
    let d = bit_or c (c / 2 ^ 8) in let e = bit_or d (d / 2 ^ 16) in u32 (e + 1)

-- `while ((1U << level_exp) > n_units)`; the fuel is `level_exp` itself, which falls each round.
pub descend : ℕ → (ℕ → ℤ) → ℕ → ℕ → ℕ → ℕ × ℕ
unfolding left right pow2
descend zero t n_units idx level_exp = (idx, level_exp)
descend (suc fuel) t n_units idx level_exp =
    let child = if leb n_units (pow2 (t (left idx))) then left idx else right idx in
    let rest = descend fuel t n_units child (level_exp - 1) in
    if ltb n_units (u32 (2 ^ level_exp)) then rest else (idx, level_exp)

-- `while (idx != 0)` of `buddy_alloc`; the fuel is `idx`, which falls each round.
pub ascend_max : ℕ → ℕ → (ℕ → ℤ) → ℕ → ℤ
unfolding get_parent_idx left right
ascend_max zero idx t = t
ascend_max (suc fuel) idx t =
    let p = get_parent_idx idx in
    let rest = ascend_max fuel p (put t p (max_ℤ (t (left p)) (t (right p)))) in
    if idx == 0 then t else rest

-- The offset of the block, or (uint32_t) -1, and the tree after the call.
pub buddy_alloc : Buddy → ℕ → ℕ × Buddy
unfolding pow2 is_pow_of_2 round_up descend ascend_max get_idx_offset
buddy_alloc b n =
    if ltb (pow2 (b.tree 0)) n || n == 0
    then (2 ^ 32 - 1, b)
    else let n_units = if is_pow_of_2 n then n else round_up n in
      let (idx, level_exp) = descend b.height b.tree n_units 0 b.height in
      (
        get_idx_offset idx level_exp b.height,
        record b { tree = ascend_max idx idx (put b.tree idx minus_one) },
      )

-- `while (bp->tree[idx] != -1)` of `buddy_free`; `none` is the failed `assert(idx != 0)`. Where the
-- loop stops: the entry and its level.
pub find_block : ℕ → (ℕ → ℤ) → ℕ → ℕ → Option (ℕ × ℕ)
unfolding get_parent_idx
find_block zero t idx level_exp = if eq_ℤ (t idx) minus_one then some (idx, level_exp) else none
find_block (suc fuel) t idx level_exp =
    let rest = find_block fuel t (get_parent_idx idx) (level_exp + 1) in
    if eq_ℤ (t idx) minus_one then some (idx, level_exp) else if idx == 0 then none else rest

-- The entry above two children, at level `level_exp`.
pub merge : ℤ → ℤ → ℕ → ℤ
merge max_l max_r level_exp =
    if eq_ℤ max_l max_r && eq_ℤ max_l (pos (level_exp - 1))
    then pos level_exp
    else max_ℤ max_l max_r

-- `while (idx != 0)` of `buddy_free`
pub ascend_merge : ℕ → ℕ → ℕ → (ℕ → ℤ) → ℕ → ℤ
unfolding get_parent_idx left right merge
ascend_merge zero idx level_exp t = t
ascend_merge (suc fuel) idx level_exp t =
    let p = get_parent_idx idx in
    let rest =
      ascend_merge fuel p (level_exp + 1)
        (put t p (merge (t (left p)) (t (right p)) (level_exp + 1))) in
    if idx == 0 then t else rest

-- `none` is a failed assertion.
pub buddy_free : Buddy → ℕ → Option Buddy
unfolding find_block ascend_merge
buddy_free b offset =
    if ltb offset (u32 (2 ^ b.height))
    then elim (find_block b.height b.tree (u32 (u32 (2 ^ b.height) + 2 ^ 32 - 1 + offset)) 0) [
      | none ↦ none
      | some (idx, level_exp) ↦
          some (record b { tree = ascend_merge idx idx level_exp (put b.tree idx (pos level_exp)) })
    ]
    else none
