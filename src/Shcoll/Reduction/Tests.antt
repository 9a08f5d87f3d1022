-- ===== src/Shcoll/Reduction/Tests.antt =====
-- The reductions of osss-ucx/src/shcoll/src/reduction.c on two and three members.
use paw.Prelude.{
  ℕ, ◌+◌, ◌-◌, ◌≤◌, ◌<◌, ◌≡◌, refl, arith, [], ◌++◌, ◌==◌, if◌then◌else◌, inr, none, some, true,
}
use paw.Shcoll.{System, ActiveSet, pe_of}
use paw.Shcoll.Turns.{run}
use paw.Shcoll.Reduction.{p2s_size, place_of, has_extra, outside_pairs}
use paw.Shcoll.Reduction.Linear.{reduce_root, turns_of, length, fold_members, reduce_root_folds}

size_of_seven : p2s_size 7 ≡ 4
unfolding p2s_size
size_of_seven = refl

second_is_outside : place_of 3 2 1 ≡ none
unfolding place_of
second_is_outside = refl

outside_pairs_example :
    (1 ≤ 1) × ((q : ℕ) × (place_of 3 2 (1 - 1) ≡ some q) × (has_extra 3 2 (1 - 1) q ≡ true))
outside_pairs_example =
    outside_pairs 3 2 (omega arith) (omega arith) (omega arith) 1 (omega arith) second_is_outside

-- PEs 1 and 3.
abbrev two_apart : ActiveSet
two_apart = record { pe_start = 1; log_stride = 1; pe_size = 2 }

abbrev adding : System
adding = record {
  sync = λ q i. 0;
  bytes = λ q j. q + j;
  pending = λ q. [];
  todo = λ q. if q == 1 then reduce_root ◌+◌ 100 0 4 200 two_apart 1 ++ [] else [];
}

root_is_one :
    adding.todo (pe_of two_apart 0)
    ≡ reduce_root ◌+◌ 100 0 4 200 two_apart (pe_of two_apart 0) ++ []
unfolding pe_of
root_is_one = refl

abbrev added : System
added =
    run
      (turns_of (pe_of two_apart 0)
        (length (reduce_root ◌+◌ 100 0 4 200 two_apart (pe_of two_apart 0))))
      adding

reduce_root_folds_example :
    (added.todo (pe_of two_apart 0) ≡ [])
    × ((j : ℕ)
        → j < 4
        → added.bytes (pe_of two_apart 0) (100 + j)
          ≡ fold_members ◌+◌
              (λ k. adding.bytes (pe_of two_apart k) (0 + j))
              1
              1
              (adding.bytes (pe_of two_apart 0) (0 + j)))
reduce_root_folds_example =
    reduce_root_folds ◌+◌ 100 0 4 200 two_apart [] adding (inr (omega arith)) root_is_one
