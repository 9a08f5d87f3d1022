-- ===== src/Comms/Address/Lookup.antt =====
-- Which region `lookup_region` finds.
use paw.Prelude.{
  ◌==◌, ℕ, zero, suc, ◌<◌, ◌≡◌, inl, inr, true, false, Option, none, some, arith, Bool-cases, ap,
  dec_lt,
}
use paw.Comms.Address.{global_address, Proc, Holds, in_region, lookup_from, lookup_region, IsValid}

pub in_region→Holds :
    (p : Proc) (addr r : ℕ) → in_region p addr r ≡ true → Holds (p.minfo r p.rank) addr
unfolding in_region
in_region→Holds p addr r h = ground arith

pub Holds→in_region :
    (p : Proc) (addr r : ℕ) → Holds (p.minfo r p.rank) addr → in_region p addr r ≡ true
unfolding in_region
Holds→in_region p addr r h = ground arith

-- The region found is the highest below `n` that holds the address.
abbrev pub Found : Proc → ℕ → ℕ → Option ℕ → Type 0
Found p addr n none = (r : ℕ) → r < n → ¬ Holds (p.minfo r p.rank) addr
Found p addr n (some r) =
    (r < n)
    × Holds (p.minfo r p.rank) addr
    × ((s : ℕ) → r < s → s < n → ¬ Holds (p.minfo s p.rank) addr)

Found-suc :
    (p : Proc) (addr n : ℕ) (o : Option ℕ)
    → ¬ Holds (p.minfo n p.rank) addr
    → Found p addr n o
    → Found p addr (suc n) o
Found-suc p addr n none out f = λ r h. elim (dec_lt r n) [
  | yes below ↦ f r below
  | no last ↦ let e : r ≡ n = omega arith in rw e out
]
Found-suc p addr n (some r) out (below, held, above) = (
  omega arith,
  held,
  λ s lo hi. elim (dec_lt s n) [
    | yes inside ↦ above s lo inside
    | no last ↦ let e : s ≡ n = omega arith in rw e out
  ],
)

in_region_out :
    (p : Proc) (addr r : ℕ) → in_region p addr r ≡ false → ¬ Holds (p.minfo r p.rank) addr
in_region_out p addr r out h = cc (Holds→in_region p addr r h)

lookup_from-Found : (p : Proc) (addr n : ℕ) → Found p addr n (lookup_from p addr n)
unfolding lookup_from
lookup_from-Found p addr zero = λ r h. elim h [ ]
lookup_from-Found p addr (suc n) = elim (Bool-cases (in_region p addr n)) [
  | inl held ↦ rw held (omega arith, in_region→Holds p addr n held, λ s lo hi. absurd (omega arith))
  | inr out ↦ rw out (
      Found-suc p addr n (lookup_from p addr n) (in_region_out p addr n out)
        (lookup_from-Found p addr n))
]

-- `lookup_region` answers with the highest region that holds the address on this PE, which is to lie
-- at or behind the region's base and before its end, and with none where no region holds it.
pub lookup_region-Found : (p : Proc) (addr : ℕ) → Found p addr p.nregions (lookup_region p addr)
unfolding lookup_region
lookup_region-Found p addr = lookup_from-Found p addr p.nregions

-- With regions that do not overlap, the region found is the one that holds the address.
pub lookup_region_of_Holds :
    (p : Proc) (addr r : ℕ)
    → IsValid p
    → r < p.nregions
    → Holds (p.minfo r p.rank) addr
    → lookup_region p addr ≡ some r
lookup_region_of_Holds p addr r v lt h = go (lookup_region p addr) (lookup_region-Found p addr)
  where
    go : (o : Option ℕ) → Found p addr p.nregions o → o ≡ some r
    go none f = absurd (f r lt h)
    go (some s) f = ap some (v.disjoint s r p.rank addr f.0 lt f.1 h)

pub Holds-lookup_region :
    (p : Proc) (addr r : ℕ)
    → lookup_region p addr ≡ some r
    → (r < p.nregions) × Holds (p.minfo r p.rank) addr
Holds-lookup_region p addr r e =
    let f : Found p addr p.nregions (some r) = rw e at (lookup_region-Found p addr) in (f.0, f.1)

pub global_address_of_lookup :
    (p : Proc) (addr r : ℕ) → lookup_region p addr ≡ some r → global_address p addr ≡ (r == 0)
unfolding global_address
global_address_of_lookup p addr r e = rw (e, global_address)
