-- ===== src/Lock/Owner.antt =====
-- osss-ucx/src/api/lock.c, `lock_owner`: the PE that keeps the lock word of an address.
use paw.Prelude.{
  false, ◌==◌, ℕ, zero, suc, ◌-◌, ◌/◌, ◌%◌, ◌^◌, ◌<◌, ◌≡◌, some, if◌then◌else◌, arith, Bool-cases,
  inl, inr,
}
use paw.Comms.Address.{Proc, IsValid, at, lookup_region, global_address, translate_address}
use paw.Comms.Address.Lookup.{global_address_of_lookup}
use paw.Comms.Address.Translate.{translate_global, translate_address_region}

-- (addr >> 3) % shmemc_n_pes()
pub get_owner_spread : Proc → ℕ → ℕ
get_owner_spread p addr = addr / 2 ^ 3 % p.nranks

pub lock_owner : Proc → ℕ → ℕ
unfolding get_owner_spread
lock_owner p la = if global_address p la then get_owner_spread p la else p.nranks - 1

-- The owner is a PE of the program.
pub lock_owner-lt : (p : Proc) (addr : ℕ) → 0 < p.nranks → lock_owner p addr < p.nranks
unfolding lock_owner get_owner_spread
lock_owner-lt p addr h = elim (Bool-cases (global_address p addr)) [
  | inl e ↦ rw e (omega arith)
  | inr e ↦ rw e (omega arith)
]

suc_eq_zero : (r : ℕ) → (suc r == 0) ≡ false
suc_eq_zero r = ground arith

-- All PEs agree on the owner of a lock: PE `pe`, at its own address of the symmetric variable,
-- computes the same owner as this PE at its address.
pub lock_owner_agrees :
    (p : Proc) (addr r pe : ℕ)
    → IsValid p
    → lookup_region p addr ≡ some r
    → lock_owner (at p pe) (translate_address p addr pe) ≡ lock_owner p addr
unfolding lock_owner get_owner_spread
lock_owner_agrees p addr zero pe v e =
    let there = (translate_address_region p addr zero pe v e).0 in
    rw (
      global_address_of_lookup (at p pe) (translate_address p addr pe) zero there,
      global_address_of_lookup p addr zero e,
      translate_global p addr pe e,
    )
lock_owner_agrees p addr (suc r) pe v e =
    let there = (translate_address_region p addr (suc r) pe v e).0 in
    rw (
      global_address_of_lookup (at p pe) (translate_address p addr pe) (suc r) there,
      global_address_of_lookup p addr (suc r) e,
      suc_eq_zero r,
    )
