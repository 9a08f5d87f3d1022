-- ===== src/Teams/World.antt =====
-- The maps of the world team.
use paw.Prelude.{
  ℕ, zero, suc, ◌+◌, ◌≡◌, arith, Bool, ◌&&◌, Option, none, some, leb, ltb, if◌then◌else◌,
  ℕ_discrete,
}
use paw.Teams.{KhMap, IsMap, Team, initialize_common_team, world_loop, initialize_team_world}

abbrev pub within : ℕ → ℕ → ℕ → Bool
within lo n k = leb lo k && ltb k (lo + n)

module _ (kh : KhMap) (laws : IsMap kh) where
  open kh use {Map, init, get, put}

  -- A put of `i` at `i` widens what is known of a map by one key.
  widen :
      (m : Map) (i n k : ℕ) (o : Option ℕ)
      → o ≡ (if within (suc i) n k then some k else get (put m i i) k)
      → o ≡ (if within i (suc n) k then some k else get m k)
  widen m i n k o e = elim (ℕ_discrete i k) [
    | yes same ↦ ground (arith, e, laws.get-put_self m i i)
    | no ne ↦ ground (arith, e, laws.get-put_ne m i i k ne)
  ]

  pub world_loop_fwd :
      (n i k : ℕ) (th : Team kh)
      → get (world_loop kh n i th).fwd k ≡ (if within i n k then some k else get th.fwd k)
  unfolding world_loop
  world_loop_fwd zero i k th = ground arith
  world_loop_fwd (suc n) i k th = widen th.fwd i n k _ (world_loop_fwd n (suc i) k _)

  pub world_loop_rev :
      (n i k : ℕ) (th : Team kh)
      → get (world_loop kh n i th).rev k ≡ (if within i n k then some k else get th.rev k)
  unfolding world_loop
  world_loop_rev zero i k th = ground arith
  world_loop_rev (suc n) i k th = widen th.rev i n k _ (world_loop_rev n (suc i) k _)

  from_empty :
      (n k : ℕ) (o : Option ℕ)
      → o ≡ (if within 0 n k then some k else get init k)
      → o ≡ (if ltb k n then some k else none)
  from_empty n k o e = ground (arith, laws.get-init k)

  -- The world team of `nranks` PEs maps each of its PEs to itself, both ways, and no other.
  pub world_maps :
      (rank nranks prealloc : ℕ) (th : Team kh) (k : ℕ)
      → let world = initialize_team_world kh rank nranks prealloc th in
        (get world.fwd k ≡ (if ltb k nranks then some k else none))
        × (get world.rev k ≡ (if ltb k nranks then some k else none))
  unfolding initialize_team_world initialize_common_team
  world_maps rank nranks prealloc th k = (
    from_empty nranks k _ (world_loop_fwd nranks 0 k _),
    from_empty nranks k _ (world_loop_rev nranks 0 k _),
  )
