-- ===== src/Comms/Address.antt =====
-- osss-ucx/src/shmemc/ucx/comms.c: memory regions and the translation of symmetric addresses, in the
-- build without ENABLE_ALIGNED_ADDRESSES. The table is `proc.comms.regions`, which every PE holds a
-- copy of; addresses are uint64_t.
pub mod Lookup
pub mod Translate
pub mod Tests
use paw.Prelude.{
  ℕ, zero, suc, ◌+◌, ◌-◌, ◌*◌, ◌%◌, ◌^◌, ◌<◌, ◌≤◌, ◌≡◌, Bool, true, false, ◌&&◌, Option, none, some,
  leb, ltb, ◌==◌, if◌then◌else◌,
}
use paw.Prelude.Words.{add64, sub64, is_negative64}

-- `mem_info_t`, the fields that addressing reads.
pub record MemInfo : Type 0 where
  pub base : ℕ
  pub end : ℕ

-- `thispe_info_t`: this PE's rank, the number of PEs, and regions[r].minfo[pe].
pub record Proc : Type 0 where
  pub rank : ℕ
  pub nranks : ℕ
  pub nregions : ℕ
  pub minfo : ℕ → ℕ → MemInfo

unfoldable pub in_region : Proc → ℕ → ℕ → Bool
in_region p addr region =
    leb (p.minfo region p.rank).base addr && ltb addr (p.minfo region p.rank).end

-- `for (r = n - 1; r >= 0; --r)`, with `n` the regions still to try; `none` is -1.
unfoldable pub lookup_from : Proc → ℕ → ℕ → Option ℕ
lookup_from p addr zero = none
lookup_from p addr (suc r) = if in_region p addr r then some r else lookup_from p addr r

unfoldable pub lookup_region : Proc → ℕ → Option ℕ
lookup_region p addr = lookup_from p addr p.nregions

unfoldable pub get_base : Proc → ℕ → ℕ → ℕ
get_base p region pe = (p.minfo region pe).base

-- The offset is a `long`: a word with its top bit set is negative.
unfoldable pub translate_region_address : Proc → ℕ → ℕ → ℕ → ℕ
unfolding get_base
translate_region_address p local_addr region pe =
    let my_offset = sub64 local_addr (get_base p region p.rank) in
    if region == 0
    then local_addr
    else if is_negative64 my_offset
    then 0
    else add64 my_offset (get_base p region pe)

pub translate_address : Proc → ℕ → ℕ → ℕ
translate_address p local_addr pe = elim (lookup_region p local_addr) [
  | none ↦ 0
  | some r ↦ translate_region_address p local_addr r pe
]

-- `lookup_region(addr) > 0`
pub managed_address : Proc → ℕ → Bool
managed_address p addr = elim (lookup_region p addr) [ none ↦ false | some r ↦ ltb 0 r ]

-- `lookup_region(addr) == 0`
pub global_address : Proc → ℕ → Bool
global_address p addr = elim (lookup_region p addr) [ none ↦ false | some r ↦ r == 0 ]

pub addr_accessible : Proc → ℕ → ℕ → Bool
addr_accessible p addr pe = ltb 0 (translate_address p addr pe)

-- `ctx_ptr_self_check`: `none` is NULL.
pub ctx_ptr_self_check : Proc → ℕ → Option ℕ
ctx_ptr_self_check p addr = elim (lookup_region p addr) [ none ↦ none | some r ↦ some addr ]

-- `shmemu_valid_pe_number`, and `shmemc_pe_accessible` that calls it, at a PE number that is not
-- negative.
pub valid_pe_number : Proc → ℕ → Bool
valid_pe_number p pe = ltb pe p.nranks

pub pe_accessible : Proc → ℕ → Bool
unfolding valid_pe_number
pe_accessible p pe = valid_pe_number p pe

-- `shmemu_shift`
pub shift : Proc → ℕ → ℕ
shift p pe = (pe + p.rank) % p.nranks

-- `MemInfo` holds `addr`.
abbrev pub Holds : MemInfo → ℕ → Type 0
Holds m addr = (m.base ≤ addr) × (addr < m.end)

-- The same table as another PE holds it.
abbrev pub at : Proc → ℕ → Proc
at p pe = record p { rank = pe }

-- What start-up establishes: a region has one size on every PE and lies in the lower half of the
-- address space, globals (region 0) lie at the same place everywhere, nothing lies at NULL, and the
-- regions of one PE do not overlap.
pub record IsValid (p : Proc) : Type 0 where
  pub low : (r pe : ℕ) → (p.minfo r pe).end < 2 ^ 63
  pub nonnull : (r pe : ℕ) → 0 < (p.minfo r pe).base
  pub sized :
      (r a b : ℕ) → (p.minfo r a).base + (p.minfo r b).end ≡ (p.minfo r b).base + (p.minfo r a).end
  pub globals : (a b : ℕ) → (p.minfo 0 a).base ≡ (p.minfo 0 b).base
  pub disjoint :
      (r s pe addr : ℕ)
      → r < p.nregions
      → s < p.nregions
      → Holds (p.minfo r pe) addr
      → Holds (p.minfo s pe) addr
      → r ≡ s
