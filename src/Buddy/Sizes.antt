-- ===== src/Buddy/Sizes.antt =====
-- osss-ucx/src/api/allocator/memalloc.c: requests of `buddy_alloc` that are no power of two.
use paw.Prelude.{
  ℕ, suc, ◌+◌, ◌-◌, ◌^◌, ◌<◌, ◌≡◌, refl, arith, inl, inr, false, ◌||◌, ltb, ◌==◌, dec_lt,
}
use paw.Prelude.Int.{ℤ}
use paw.Prelude.Words.{u32, two_pow_pos, two_pow_mono}
use paw.Prelude.Bits.{bit_and_top}
use paw.Buddy.{Buddy, is_pow_of_2, pow2, buddy_alloc}
use paw.Buddy.Nodes.{Valid}
use paw.Buddy.Entry.{Bounded, Valid-Bounded}
use paw.Buddy.Spec.{is_pow_of_2_pow}
use paw.Buddy.Round.{round_up_lem}

-- IS_POW_OF_2 fails between two powers of two.
pub is_pow_of_2_between : (d n : ℕ) → d < 32 → 2 ^ d < n → n < 2 ^ suc d → is_pow_of_2 n ≡ false
unfolding is_pow_of_2
is_pow_of_2_between d n lt lo hi =
    let m : u32 (n + 2 ^ 32 - 1) ≡ n - 1 = omega (arith, two_pow_mono (suc d) 32 lt) in
    rw m (
      ground (
        arith,
        two_pow_pos d,
        bit_and_top d n (n - 1) (omega arith) hi (omega arith) (omega arith),
      ))

module _ (d n : ℕ) (small : suc d < 32) (lo : 2 ^ d < n) (hi : n < 2 ^ suc d) where
  -- The root refuses a request just as it refuses the next power of two.
  refused :
      (v : ℤ) (h : ℕ)
      → Bounded v h
      → h < 32
      → (ltb (pow2 v) n || n == 0) ≡ (ltb (pow2 v) (2 ^ suc d) || 2 ^ suc d == 0)
  unfolding pow2
  refused v h (inl e) lt = rw e (ground (arith, two_pow_pos d))
  refused v h (inr (k, p, e)) lt = elim (dec_lt d k) [
    | yes more ↦ rw e (
        ground (arith, two_pow_pos d, two_pow_mono (suc d) k more, two_pow_mono k 31 (omega arith)))
    | no less ↦ rw e (
        ground
          (arith, two_pow_pos d, two_pow_mono k d (omega arith), two_pow_mono k 31 (omega arith)))
  ]

  -- A request between `2 ^ d` and `2 ^ (d + 1)` units is served as one of `2 ^ (d + 1)` units.
  pub buddy_alloc_rounds_up :
      (b : Buddy)
      → b.height < 32
      → Valid b.tree b.height 0
      → buddy_alloc b n ≡ buddy_alloc b (2 ^ suc d)
  unfolding buddy_alloc
  buddy_alloc_rounds_up b lt v =
      rw
        (
          refused (b.tree 0) b.height (Valid-Bounded b.tree b.height 0 v) lt,
          is_pow_of_2_between d n (omega arith) lo hi,
          is_pow_of_2_pow (suc d) small,
          round_up_lem d n (omega arith) (omega arith) hi,
        )
        refl
