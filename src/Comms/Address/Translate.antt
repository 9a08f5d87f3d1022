-- ===== src/Comms/Address/Translate.antt =====
-- osss-ucx/src/shmemc/ucx/comms.c: translation of an address between PEs.
use paw.Prelude.{ℕ, ◌+◌, ◌≡◌, refl, Option, none, some, true, ltb, arith, ◌↔◌}
use paw.Comms.Address.{
  Proc, Holds, lookup_region, get_base, translate_region_address, translate_address,
  addr_accessible, IsValid, at,
}
use paw.Comms.Address.Lookup.{lookup_region_of_Holds, Holds-lookup_region}

-- The address keeps its offset from the start of the region.
pub translate_region_address_offset :
    (p : Proc) (addr r pe : ℕ)
    → IsValid p
    → Holds (p.minfo r p.rank) addr
    → translate_region_address p addr r pe + (p.minfo r p.rank).base ≡ addr + (p.minfo r pe).base
unfolding translate_region_address get_base
translate_region_address_offset p addr r pe v h =
    ground (arith, v.low r p.rank, v.low r pe, v.sized r p.rank pe, v.globals p.rank pe)

pub translate_region_address-Holds :
    (p : Proc) (addr r pe : ℕ)
    → IsValid p
    → Holds (p.minfo r p.rank) addr
    → Holds (p.minfo r pe) (translate_region_address p addr r pe)
translate_region_address-Holds p addr r pe v h =
    omega (arith, translate_region_address_offset p addr r pe v h, v.sized r p.rank pe)

pub translate_address_of_lookup :
    (p : Proc) (addr r pe : ℕ)
    → lookup_region p addr ≡ some r
    → translate_address p addr pe ≡ translate_region_address p addr r pe
unfolding translate_address
translate_address_of_lookup p addr r pe e = rw (e, translate_address)

translate_address_of_none :
    (p : Proc) (addr pe : ℕ) → lookup_region p addr ≡ none → translate_address p addr pe ≡ 0
unfolding translate_address
translate_address_of_none p addr pe e = rw (e, translate_address)

at-IsValid : (p : Proc) (pe : ℕ) → IsValid p → IsValid (at p pe)
at-IsValid p pe v = record {
  low = v.low;
  nonnull = v.nonnull;
  sized = v.sized;
  globals = v.globals;
  disjoint = v.disjoint;
}

module _ (p : Proc) (addr r pe : ℕ) (v : IsValid p) (e : lookup_region p addr ≡ some r) where
  -- A symmetric address is translated into the same region of the other PE, which finds it there,
  -- at the same offset.
  pub translate_address_region :
      (lookup_region (at p pe) (translate_address p addr pe) ≡ some r)
      × (translate_address p addr pe + (p.minfo r p.rank).base ≡ addr + (p.minfo r pe).base)
  translate_address_region =
      let (lt, h) = Holds-lookup_region p addr r e in
      rw (translate_address_of_lookup p addr r pe e) (
        lookup_region_of_Holds (at p pe) _ r (at-IsValid p pe v) lt
            (translate_region_address-Holds p addr r pe v h),
        translate_region_address_offset p addr r pe v h,
      )

-- An address is accessible on another PE exactly if it lies in a region of this one.
pub addr_accessible_iff :
    (p : Proc) (addr pe : ℕ)
    → IsValid p
    → (addr_accessible p addr pe ≡ true) ↔ ((r : ℕ) × (lookup_region p addr ≡ some r))
unfolding addr_accessible
addr_accessible_iff p addr pe v = (fwd (lookup_region p addr) refl, bwd)
  where
    fwd :
        (o : Option ℕ)
        → lookup_region p addr ≡ o
        → ltb 0 (translate_address p addr pe) ≡ true
        → (r : ℕ) × (lookup_region p addr ≡ some r)
    fwd none e h = ground (arith, translate_address_of_none p addr pe e)
    fwd (some r) e h = (r, e)

    bwd : (r : ℕ) × (lookup_region p addr ≡ some r) → ltb 0 (translate_address p addr pe) ≡ true
    bwd (r, e) =
        let (lt, held) = Holds-lookup_region p addr r e in
        let there = translate_region_address-Holds p addr r pe v held in
        ground (arith, translate_address_of_lookup p addr r pe e, there, v.nonnull r pe)

-- A global is at one address on every PE.
pub translate_global :
    (p : Proc) (addr pe : ℕ) → lookup_region p addr ≡ some 0 → translate_address p addr pe ≡ addr
unfolding translate_region_address
translate_global p addr pe e = translate_address_of_lookup p addr 0 pe e
