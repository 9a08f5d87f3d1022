-- ===== src/Contexts/Tests.antt =====
-- A table of contexts with two places allocated at a time.
use paw.Prelude.{ℕ, ◌<◌, ◌≡◌, refl, arith, Bool, true, false, [], ◌∷◌, ◌==◌}
use paw.Contexts.{Context, Table, get_usable_context_run, context_deregister}
use paw.Contexts.Ids.{
  assign, IsReady, reused, get_usable_context_run-IsReady, context_deregister-IsReady,
}

abbrev slot : Context
slot = record { serialized = false; is_private = false; nostore = false; id = 0 }

-- Two contexts were given out, and number 0 is free again.
abbrev table : Table
table = record {
  ctxts = λ i. slot;
  places = 2;
  nctxts = 2;
  spill_block = 2;
  spill_ctxt = 2;
  freelist = 0 ∷ [];
  booted = true;
}

abbrev live : ℕ → Bool
live i = i == 1

table-IsReady : IsReady table live
table-IsReady = record {
  counted = λ i. ground arith;
  block = omega arith;
  low = omega arith;
  room = omega arith;
}

get_usable_context_run-IsReady_example :
    let (idx, reuse, th') = get_usable_context_run slot table in
    (live idx ≡ false) × (idx < th'.places) × IsReady th' (assign live idx true)
get_usable_context_run-IsReady_example =
    get_usable_context_run-IsReady slot table live table-IsReady

context_deregister-IsReady_example :
    IsReady (context_deregister 1 table) (assign live 1 false)
    × (reused 2 slot (context_deregister 1 table) ≡ 0 ∷ 1 ∷ [])
context_deregister-IsReady_example = context_deregister-IsReady 1 table live table-IsReady refl slot
