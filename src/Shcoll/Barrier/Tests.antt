-- ===== src/Shcoll/Barrier/Tests.antt =====
-- Runs of the barriers of osss-ucx/src/shcoll/src/barrier.c on small active sets.
use paw.Prelude.{
  ℕ, ◌<◌, ◌≡◌, ◌≢◌, refl, arith, ℕ_discrete, List, [], ◌∷◌, ◌==◌, ◌||◌, if◌then◌else◌,
}
use paw.Shcoll.{System, ActiveSet, Turn, move, Reach, here, next, step, pe_of}
use paw.Shcoll.Turns.{run, run-Reach}
use paw.Shcoll.Barrier.{helper_dissemination}
use paw.Shcoll.Barrier.Runs.{Start}
use paw.Shcoll.Barrier.Completion.{
  dissemination_waits, dissemination_completes, dissemination_resets,
}

-- PEs 1, 3 and 5.
abbrev three : ActiveSet
three = record { pe_start = 1; log_stride = 1; pe_size = 3 }

abbrev called_by_three : System
called_by_three = record {
  sync = λ q i. 0;
  bytes = λ q j. 0;
  pending = λ q. [];
  todo = λ q. if q == 1 || (q == 3 || q == 5) then helper_dissemination three q else [];
}

called_member :
    (a : ℕ)
    → a < 3
    → called_by_three.todo (pe_of three a) ≡ helper_dissemination three (pe_of three a)
unfolding pe_of
called_member a lt = elim (ℕ_discrete a 0) [
  | yes e ↦ rw e refl
  | no n0 ↦ elim (ℕ_discrete a 1) [
    | yes e ↦ rw e refl
    | no n1 ↦ let e : a ≡ 2 = omega (arith, lt, n0, n1) in rw e refl
  ]
]

called_by_three-Start : Start three called_by_three
unfolding pe_of
called_by_three-Start = record {
  called = λ a lt. called_member a lt;
  words_zero = λ a r lt lt_r. refl;
  outside = λ q no_one.
      let one : 1 ≢ q = no_one 0 (omega arith) in
      let two : 3 ≢ q = no_one 1 (omega arith) in
      let last : 5 ≢ q = no_one 2 (omega arith) in ground (arith, one, two, last);
  none_pending = λ q. refl;
}

-- PE 5 twice at a time, before the others.
abbrev turns_to_return : List Turn
turns_to_return =
    move 5
    ∷ move 1
    ∷ move 3
    ∷ move 5
    ∷ move 5
    ∷ move 3
    ∷ move 1
    ∷ move 3
    ∷ move 1
    ∷ move 5
    ∷ move 1
    ∷ move 3
    ∷ move 5
    ∷ move 5
    ∷ []

returned_pe : (run turns_to_return called_by_three).todo (pe_of three 2) ≡ []
unfolding step helper_dissemination paw.Sync.compare_op pe_of paw.Shcoll.index_of
returned_pe = refl

dissemination_waits_example :
    (run turns_to_return called_by_three).todo (pe_of three 0)
    ≢ helper_dissemination three (pe_of three 0)
dissemination_waits_example =
    dissemination_waits three (omega arith) called_by_three-Start
      (run-Reach turns_to_return called_by_three here) 2 0 (omega arith) (omega arith) returned_pe

dissemination_completes_example :
    (u : System) × Reach (run turns_to_return called_by_three) u
    × ((a : ℕ) → a < 3 → u.todo (pe_of three a) ≡ [])
dissemination_completes_example =
    dissemination_completes three called_by_three-Start
      (run-Reach turns_to_return called_by_three here)

dissemination_resets_example : (run turns_to_return called_by_three).sync (pe_of three 2) 1 ≡ 0
dissemination_resets_example =
    dissemination_resets three called_by_three-Start
      (run-Reach turns_to_return called_by_three here) 2 1 (omega arith) (omega arith) returned_pe
