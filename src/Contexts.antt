-- ===== src/Contexts.antt =====
-- osss-ucx/src/shmemc/contexts.c: the table of contexts of one team, and the list of the places in it
-- that can be used again. malloc and realloc end the program where they fail.
pub mod Ids
mod Tests
use paw.Prelude.{
  ℕ, zero, suc, ◌+◌, ◌≡◌, Bool, true, false, not, Option, none, some, List, [], ◌∷◌, ◌++◌, ◌==◌,
  if◌then◌else◌, bit_and,
}

-- `shmemc_context_t`: its attributes and its number.
pub record Context : Type 0 where
  pub serialized : Bool
  pub is_private : Bool
  pub nostore : Bool
  pub id : ℕ

-- `th->ctxts` with the number of places allocated, `th->nctxts`, the statics, and the free list from
-- its head; `booted` says that `get_usable_context` is no longer the function for the first call.
pub record Table : Type 0 where
  pub ctxts : ℕ → Context
  pub places : ℕ
  pub nctxts : ℕ
  pub spill_block : ℕ
  pub spill_ctxt : ℕ
  pub freelist : List ℕ
  pub booted : Bool

-- The number of the place, and whether it is used again. `slot` is the memory of a new context.
pub get_usable_context_run : Context → Table → ℕ × Bool × Table
get_usable_context_run slot th = elim th.freelist [
  | [] ↦
      let idx = th.nctxts in
      let grown =
        if idx == th.spill_ctxt
        then record th {
          spill_ctxt = th.spill_ctxt + th.spill_block;
          places = th.spill_ctxt + th.spill_block;
        }
        else th in
      (
        idx,
        false,
        record grown { ctxts = λ i. if i == idx then slot else th.ctxts i; nctxts = suc idx },
      )
  | idx ∷ rest ↦ (idx, true, record th { freelist = rest })
]

pub get_usable_context_boot : ℕ → Table → Table
get_usable_context_boot prealloc th = record th {
  freelist = [];
  spill_block = prealloc;
  places = prealloc;
  booted = true;
}

pub get_usable_context : ℕ → Context → Table → ℕ × Bool × Table
get_usable_context prealloc slot th =
    get_usable_context_run slot (if th.booted then th else get_usable_context_boot prealloc th)

pub context_deregister : ℕ → Table → Table
context_deregister id th = record th { freelist = th.freelist ++ (id ∷ []) }

pub context_set_options : ℕ → Context → Context
context_set_options options ch = record ch {
  serialized = not (bit_and options 1 == 0);
  is_private = not (bit_and options 2 == 0);
  nostore = not (bit_and options 4 == 0);
}

-- What `shmemc_context_create` comes to: 0 with a context, another value, or the end of the program.
pub data Created : Type 0 where
  created : ℕ → Table → Created
  not_created : ℕ → Table → Created
  fatal : Created

-- `progress` and `wired` are what `shmemc_ucx_context_progress` and `shmemc_ucx_worker_wireup` answer.
pub context_create : ℕ → Context → ℕ → ℕ → Bool → Table → Created
context_create prealloc slot options progress wired th =
    let (idx, reuse, th') = get_usable_context prealloc slot th in
    let ch = context_set_options options (th'.ctxts idx) in
    let with_options = record th' { ctxts = λ i. if i == idx then ch else th'.ctxts i } in
    let done =
      created idx
        (record th' { ctxts = λ i. if i == idx then record ch { id = idx } else th'.ctxts i }) in
    if reuse
    then done
    else if progress == 0
    then (if wired then done else fatal)
    else not_created progress with_options
