-- ===== src/Comms/Address/Tests.antt =====
-- Address translation at concrete tables.
use paw.Prelude.{ℕ, zero, suc, ◌+◌, ◌<◌, ◌≡◌, refl, some, true, arith}
use paw.Comms.Address.{
  Proc, MemInfo, Holds, lookup_from, lookup_region, in_region, translate_region_address,
  translate_address, IsValid, at, shift, managed_address, global_address,
}
use paw.Comms.Address.Lookup.{Found, lookup_region-Found}
use paw.Comms.Address.Translate.{translate_address_region}

-- Two PEs; globals at 100 to 200 on both, one heap at 1000 on PE 0 and at 5000 on PE 1.
abbrev pub two_regions : ℕ → ℕ → MemInfo
two_regions zero pe = record { base = 100; end = 200 }
two_regions (suc r) zero = record { base = 1000; end = 1500 }
two_regions (suc r) (suc pe) = record { base = 5000; end = 5500 }

abbrev pub two_pes : Proc
two_pes = record { rank = 0; nranks = 2; nregions = 2; minfo = two_regions }

two_regions-low : (r pe : ℕ) → (two_regions r pe).end < 9223372036854775808
two_regions-low zero pe = omega arith
two_regions-low (suc r) zero = omega arith
two_regions-low (suc r) (suc pe) = omega arith

two_regions-nonnull : (r pe : ℕ) → 0 < (two_regions r pe).base
two_regions-nonnull zero pe = omega arith
two_regions-nonnull (suc r) zero = omega arith
two_regions-nonnull (suc r) (suc pe) = omega arith

two_regions-sized :
    (r a b : ℕ)
    → (two_regions r a).base + (two_regions r b).end
      ≡ (two_regions r b).base + (two_regions r a).end
two_regions-sized zero a b = refl
two_regions-sized (suc r) zero zero = refl
two_regions-sized (suc r) zero (suc b) = refl
two_regions-sized (suc r) (suc a) zero = refl
two_regions-sized (suc r) (suc a) (suc b) = refl

two_regions-disjoint :
    (r s pe addr : ℕ)
    → r < 2
    → s < 2
    → Holds (two_regions r pe) addr
    → Holds (two_regions s pe) addr
    → r ≡ s
two_regions-disjoint zero zero pe addr p q h k = refl
two_regions-disjoint zero (suc s) zero addr p q h k = absurd (omega arith)
two_regions-disjoint zero (suc s) (suc pe) addr p q h k = absurd (omega arith)
two_regions-disjoint (suc r) zero zero addr p q h k = absurd (omega arith)
two_regions-disjoint (suc r) zero (suc pe) addr p q h k = absurd (omega arith)
two_regions-disjoint (suc r) (suc s) pe addr p q h k = omega arith

pub two_pes-IsValid : IsValid two_pes
two_pes-IsValid = record {
  low = two_regions-low;
  nonnull = two_regions-nonnull;
  sized = two_regions-sized;
  globals = λ a b. refl;
  disjoint = two_regions-disjoint;
}

pub lookup_heap : lookup_region two_pes 1100 ≡ some 1
unfolding lookup_region lookup_from in_region
lookup_heap = refl

translate_heap : translate_address two_pes 1100 1 ≡ 5100
unfolding translate_address lookup_region lookup_from in_region translate_region_address
translate_heap = refl

classify :
    (managed_address two_pes 1100 ≡ true)
    × (global_address two_pes 150 ≡ true)
    × (translate_address two_pes 300 1 ≡ 0)
    × (shift (at two_pes 1) 1 ≡ 0)
unfolding translate_address managed_address global_address lookup_region lookup_from in_region shift
classify = (refl, refl, refl, refl)

translate_address_region_example :
    (lookup_region (at two_pes 1) (translate_address two_pes 1100 1) ≡ some 1)
    × (translate_address two_pes 1100 1 + 1000 ≡ 1100 + 5000)
translate_address_region_example =
    translate_address_region two_pes 1100 1 1 two_pes-IsValid lookup_heap

lookup_region-Found_example : Found two_pes 1100 2 (lookup_region two_pes 1100)
lookup_region-Found_example = lookup_region-Found two_pes 1100
