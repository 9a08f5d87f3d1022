-- ===== src/Shcoll/Fcollect/Tests.antt =====
-- A collect of osss-ucx/src/shcoll/src/fcollect.c on two PEs.
use paw.Prelude.{
  ℕ, ◌+◌, ◌*◌, ◌<◌, ◌≡◌, ◌≢◌, refl, sym, ap, ◌∙◌, arith, true, List, [], ◌∷◌, ltb, if◌then◌else◌,
  inl,
}
use paw.Shcoll.{
  Act, System, ActiveSet, Turn, move, delivery, Reach, here, next, step, pe_of, index_of,
}
use paw.Shcoll.Turns.{run, run-Reach}
use paw.Shcoll.Fcollect.{fcollect_helper_all_linear}
use paw.Shcoll.Fcollect.Linear.{Start, all_linear_delivers}

-- PEs 0 and 1.
abbrev pair : ActiveSet
pair = record { pe_start = 0; log_stride = 0; pe_size = 2 }

abbrev program : ℕ → List Act
program q = fcollect_helper_all_linear 64 0 8 pair q

abbrev calling : System
calling = record {
  sync = λ q i. 0;
  bytes = λ q j. q + j;
  pending = λ q. [];
  todo = λ q. if ltb q 2 then program q else [];
}

pair-pe_of : (a : ℕ) → pe_of pair a ≡ a
unfolding pe_of
pair-pe_of a = omega arith

calling_member : (a : ℕ) → a < 2 → calling.todo (pe_of pair a) ≡ program a
calling_member a lt = rw (pair-pe_of a) (let t : ltb a 2 ≡ true = ground (arith, lt) in rw t refl)

calling-Start : Start 64 0 8 pair calling
unfolding Start
calling-Start = record {
  called = λ a lt.
      calling_member a lt ∙ ap (fcollect_helper_all_linear 64 0 8 pair) (sym (pair-pe_of a));
  word_zero = λ a lt. refl;
  none_pending = λ q. refl;
  outside = λ q no_one.
      let zero_out : 0 ≢ q = (λ e. no_one 0 (omega arith) (pair-pe_of 0 ∙ e)) in
      let one_out : 1 ≢ q = (λ e. no_one 1 (omega arith) (pair-pe_of 1 ∙ e)) in
      ground (arith, zero_out, one_out);
}

-- PE 0 does all that it can, then PE 1, and PE 0 returns.
abbrev turns_to_return : List Turn
turns_to_return =
    move 0
    ∷ move 0
    ∷ delivery 0 0
    ∷ move 0
    ∷ move 0
    ∷ move 0
    ∷ move 1
    ∷ move 1
    ∷ delivery 1 0
    ∷ move 1
    ∷ move 1
    ∷ move 0
    ∷ move 0
    ∷ []

returned_pe : (run turns_to_return calling).todo (pe_of pair 0) ≡ []
unfolding paw.Shcoll.step pe_of paw.Shcoll.index_of paw.Sync.compare_op fcollect_helper_all_linear
    paw.Shcoll.Fcollect.me_as
returned_pe = refl

all_linear_delivers_example :
    (run turns_to_return calling).bytes (pe_of pair 0) (64 + 1 * 8 + 3)
    ≡ calling.bytes (pe_of pair 1) (0 + 3)
all_linear_delivers_example =
    all_linear_delivers 64 0 8 pair (omega arith) (inl (omega arith)) calling-Start
      (run-Reach turns_to_return calling here) 1 0 3 (omega arith) (omega arith) (omega arith)
      returned_pe
