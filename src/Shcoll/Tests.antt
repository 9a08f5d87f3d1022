-- ===== src/Shcoll/Tests.antt =====
-- The exchanges, broadcasts and collects of osss-ucx/src/shcoll/src on small active sets.
use paw.Prelude.{
  ℕ, ◌+◌, ◌<◌, ◌≡◌, ◌≢◌, refl, arith, [], ltb, ◌&&◌, if◌then◌else◌, ◌↔◌, List, some, true, ◌*◌,
}
use paw.Shcoll.{Act, System, ActiveSet, move, delivery, Reach, here, next, step, pe_of}
use paw.Shcoll.Alltoall.{color_peer, shift_peer, shift_cond}
use paw.Shcoll.Alltoalls.{alltoalls_counter, alltoalls_counter-Within}
use paw.Shcoll.Alltoall.Peers.{Exchange, color-Exchange}
use paw.Shcoll.Broadcast.{broadcast_helper_complete_tree}
use paw.Shcoll.Broadcast.Complete.{Start}
use paw.Shcoll.Fcollect.{
  fcollect_helper_bruck, fcollect_helper_bruck_no_rotate, fcollect_helper_bruck_signal,
}
use paw.Shcoll.Fcollect.Within.{Within}
use paw.Shcoll.Fcollect.Bruck.{bruck_helpers-Within}

color-Exchange_example : Exchange color_peer 6
color-Exchange_example = color-Exchange 6 refl

-- PEs 1, 2 and 3.
abbrev from_one : ActiveSet
from_one = record { pe_start = 1; log_stride = 0; pe_size = 3 }

abbrev broadcasting : System
broadcasting = record {
  sync = λ q i. 0;
  bytes = λ q j. q + j;
  pending = λ q. [];
  todo =
      λ q. if ltb 0 q && ltb q 4 then broadcast_helper_complete_tree 0 64 8 0 from_one q 2 else [];
}

broadcasting-Start : Start 0 64 8 0 2 from_one broadcasting
unfolding pe_of
broadcasting-Start = record {
  called = λ a lt. ground (arith, lt);
  word_zero = λ a lt. refl;
  outside = λ q no_one.
      let one : 1 ≢ q = no_one 0 (omega arith) in
      let two : 2 ≢ q = no_one 1 (omega arith) in
      let last : 3 ≢ q = no_one 2 (omega arith) in ground (arith, one, two, last);
  none_pending = λ q. refl;
}

no_pe_zero : (a : ℕ) → a < 3 → pe_of from_one a ≢ 0
unfolding pe_of
no_pe_zero a lt e = omega (arith, e)

inside : paw.Shcoll.index_of from_one 2 < 3
unfolding paw.Shcoll.index_of
inside = omega arith

bruck_helpers-Within_example :
    Within 0 24 (fcollect_helper_bruck 0 64 8 from_one 2)
    × Within 0 24 (fcollect_helper_bruck_no_rotate 0 64 8 from_one 2)
    × Within 0 24 (fcollect_helper_bruck_signal 0 64 8 from_one 2)
bruck_helpers-Within_example = bruck_helpers-Within 0 64 8 from_one 2 (omega arith) inside

shift_holds : shift_cond 3 ≡ true
unfolding shift_cond
shift_holds = refl

-- The exchange with elements two apart, on PEs 1, 2 and 3: PE 2 stays within `dest`, PE 3 would not.
alltoalls_counter-Within_example :
    (list : List Act) × (alltoalls_counter shift_peer shift_cond 64 1000 0 2 2 4 from_one 2
      ≡ some list)
    × (Within 1000 (3 * 2 * 4 * 8) list ↔ (2 < 3))
alltoalls_counter-Within_example =
    alltoalls_counter-Within shift_peer shift_cond 64 1000 0 2 2 4 from_one 2 shift_holds
      (omega arith) (omega arith) (omega arith)
