-- ===== src/Teams.antt =====
-- osss-ucx/src/shmemc/teams.c: the rank maps of teams, the predefined teams, translation and splits.
-- The hash map of klib is a parameter; PE numbers given are not negative.
pub mod World
pub mod Split
pub mod Translate
mod Tests
use paw.Prelude.{
  ℕ, zero, suc, ◌+◌, ◌-◌, ◌*◌, ◌%◌, ◌≡◌, ◌≢◌, Bool, true, false, Option, none, some, leb, ltb, ◌==◌,
  if◌then◌else◌,
}
use paw.Prelude.Int.{ℤ, pos, minus_one}

-- What teams.c uses of `KHASH_MAP_INIT_INT(map, int)`: `put` is kh_put and the assignment to kh_val,
-- `get` is kh_get and kh_val, with `none` for kh_end.
pub record KhMap : Type 1 where
  pub Map : Type 0
  pub init : Map
  pub get : Map → ℕ → Option ℕ
  pub put : Map → ℕ → ℕ → Map

-- klib's promises: a new map is empty, and a put changes one key.
pub record IsMap (kh : KhMap) : Type 0 where
  pub get-init : (k : ℕ) → kh.get kh.init k ≡ none
  pub get-put_self : (m : kh.Map) (k v : ℕ) → kh.get (kh.put m k v) k ≡ some v
  pub get-put_ne : (m : kh.Map) (k v j : ℕ) → k ≢ j → kh.get (kh.put m k v) j ≡ kh.get m j

module _ (kh : KhMap) where
  open kh use {Map, init, get, put}

  -- `shmemc_team_t`, less its contexts and its synchronization memory.
  pub record Team : Type 0 where
    pub rank : ℤ
    pub nranks : ℕ
    pub fwd : Map
    pub rev : Map
    pub num_contexts : ℕ
    pub has_parent : Bool

  -- On a record that holds `th` before: the rank and the size are not set here.
  pub initialize_common_team : Team → ℕ → Team
  initialize_common_team th cfg_nctxts = record th {
    has_parent = false;
    num_contexts = cfg_nctxts;
    fwd = init;
    rev = init;
  }

  -- `n` rounds of `for (i = 0; ...)`, from `i` on.
  pub world_loop : ℕ → ℕ → Team → Team
  world_loop zero i th = th
  world_loop (suc n) i th =
      world_loop n (suc i) (record th { fwd = put th.fwd i i; rev = put th.rev i i })

  pub initialize_team_world : ℕ → ℕ → ℕ → Team → Team
  initialize_team_world rank nranks prealloc th =
      world_loop nranks 0
        (record (initialize_common_team th prealloc) { rank = pos rank; nranks = nranks })

  pub shared_loop : (ℕ → ℕ) → ℕ → ℕ → ℕ → Team → Team
  shared_loop peers rank zero i th = th
  shared_loop peers rank (suc n) i th = shared_loop peers rank n (suc i) (record th {
    rank = if rank == peers i then pos i else th.rank;
    fwd = put th.fwd i (peers i);
    rev = put th.rev (peers i) i;
  })

  pub initialize_team_shared : (ℕ → ℕ) → ℕ → ℕ → ℕ → Team → Team
  initialize_team_shared peers rank npeers nctxts th =
      shared_loop peers rank npeers 0
        (record (initialize_common_team th nctxts) { rank = minus_one; nranks = npeers })

  pub team_my_pe : Team → ℤ
  team_my_pe th = th.rank

  pub team_n_pes : Team → ℕ
  team_n_pes th = th.nranks

  -- `none` is -1.
  pub team_translate_pe : Team → ℕ → Team → Option ℕ
  team_translate_pe sh src_pe dh = elim (get sh.fwd src_pe) [
    | none ↦ none
    | some wpe ↦ get dh.rev wpe
  ]

  -- The remainder of C, whose sign does not matter to the test.
  pub is_member : ℕ → ℕ → ℕ → Bool
  is_member parent_pe start stride =
      (if leb start parent_pe then (parent_pe - start) % stride else (start - parent_pe) % stride)
      == 0

  -- A round of the loop of a split. A walk that leaves the parent's map reads past its table: `none`.
  pub split_round : Team → ℕ → ℕ → ℕ → ℕ → Team → Option Team
  split_round parh start size i walk newt = elim (get parh.fwd walk) [
    | none ↦ none
    | some up ↦ some (
        if is_member up start size
        then record newt { fwd = put newt.fwd i up; rev = put newt.rev up i }
        else newt)
  ]

  pub split_loop : Team → ℕ → ℕ → ℕ → ℕ → ℕ → ℕ → Team → Option Team
  split_loop parh start stride size zero i walk newt = some newt
  split_loop parh start stride size (suc n) i walk newt =
      elim (split_round parh start size i walk newt) [
        | none ↦ none
        | some newt' ↦ split_loop parh start stride size n (suc i) (walk + stride) newt'
      ]

  -- What a split comes to: -1, a read past the parent's table, or 0 with the new team.
  pub data SplitResult : Type 0 where
    no_memory : SplitResult
    out_of_table : SplitResult
    created : Team → SplitResult

  -- `allocated` is what malloc answers, with the junk that the memory holds.
  pub team_split_strided : Team → ℕ → ℕ → ℕ → ℕ → Option Team → SplitResult
  team_split_strided parh start stride size nc none = no_memory
  team_split_strided parh start stride size nc (some junk) =
      let newt = record (initialize_common_team junk nc) { has_parent = true; nranks = size } in
      elim (split_loop parh start stride size size 0 start newt) [
        | none ↦ out_of_table
        | some th ↦ created th
      ]
