-- ===== src/Shcoll/Collect/Tests.antt =====
-- The scan over two PEs, and the collect of blocks of 5 and 6 bytes on two PEs.
use paw.Prelude.{
  ℕ, ◌+◌, ◌<◌, ◌≡◌, ◌≢◌, refl, sym, ap, ◌∙◌, arith, true, List, [], ◌∷◌, ltb, if◌then◌else◌, inl,
  ◌&&◌, Bool, ℕ_discrete, ◌⊎◌,
}
use paw.Shcoll.{Act, System, ActiveSet, Turn, move, delivery, Reach, here, pe_of}
use paw.Shcoll.Turns.{run, run-Reach}
use paw.Shcoll.Barrier.{all_pes}
use paw.Shcoll.Scan
use paw.Shcoll.Scan.Window.{sum_below}
use paw.Shcoll.Scan.Offset.{scan_stuck}
use paw.Shcoll.Scan.Result.{exclusive_prefix_sum_lem, scan_completes}
use paw.Shcoll.Exchange.Results.{Calls}
use paw.Shcoll.Collect.{collect_all_linear, collect_all_linear_delivers}

abbrev sizes : ℕ → ℕ
sizes me = 5 + me

-- A step of the scan, the last first.
abbrev after : List ℕ → Scan.System
after [] = Scan.initial sizes
after (me ∷ before) =
    Scan.scan_step (all_pes 2) sizes (pe_of (all_pes 2) me)
      ((after before).place (pe_of (all_pes 2) me)) (after before)

abbrev below_two : List ℕ → Bool
below_two [] = true
below_two (me ∷ rest) = ltb me 2 && below_two rest

after-Reach :
    (turns : List ℕ)
    → below_two turns ≡ true
    → Scan.Reach (all_pes 2) sizes (Scan.initial sizes) (after turns)
after-Reach [] e = Scan.begin
after-Reach (me ∷ rest) e = Scan.step me (ground arith) (after-Reach rest (ground arith))

abbrev scanned : Scan.System
scanned = after (1 ∷ 1 ∷ 1 ∷ 1 ∷ 1 ∷ 0 ∷ 1 ∷ 0 ∷ 1 ∷ 0 ∷ 0 ∷ 1 ∷ [])

scanned_all : (a : ℕ) → a < 2 → scanned.place a ≡ Scan.finished
unfolding Scan.initial Scan.scan_step pe_of paw.Shcoll.index_of
scanned_all a lt = elim (ℕ_discrete a 0) [
  | yes zero_pe ↦ rw zero_pe refl
  | no ne ↦ let one_pe : a ≡ 1 = omega arith in rw one_pe refl
]

abbrev program : ℕ → List Act
program q = collect_all_linear 64 0 (sizes q) (scanned.dest q) (all_pes 2) q

abbrev calling : System
calling = record {
  sync = λ q i. 0;
  bytes = λ q j. q + j;
  pending = λ q. [];
  todo = λ q. if ltb q 2 then program q else [];
}

own_pe : (a : ℕ) → pe_of (all_pes 2) a ≡ a
unfolding pe_of
own_pe a = omega arith

calling_member : (a : ℕ) → a < 2 → calling.todo (pe_of (all_pes 2) a) ≡ program a
calling_member a lt = rw (own_pe a) (let t : ltb a 2 ≡ true = ground (arith, lt) in rw t refl)

calling-Calls :
    Calls
      (λ a. collect_all_linear 64 0 (sizes a) (scanned.dest a) (all_pes 2) (pe_of (all_pes 2) a))
      (all_pes 2)
      calling
calling-Calls = record {
  called = λ a lt.
      calling_member a lt
      ∙ ap (collect_all_linear 64 0 (sizes a) (scanned.dest a) (all_pes 2)) (sym (own_pe a));
  word_zero = λ a lt. refl;
  none_pending = λ q. refl;
  outside = λ q no_one.
      let zero_out : 0 ≢ q = (λ e. no_one 0 (omega arith) (own_pe 0 ∙ e)) in
      let one_out : 1 ≢ q = (λ e. no_one 1 (omega arith) (own_pe 1 ∙ e)) in
      ground (arith, zero_out, one_out);
}

-- PE 0 does all that it can, then PE 1, and PE 0 returns.
abbrev turns_to_return : List Turn
turns_to_return =
    move 0
    ∷ move 0
    ∷ delivery 0 0
    ∷ move 0
    ∷ move 0
    ∷ move 0
    ∷ move 1
    ∷ move 1
    ∷ delivery 1 0
    ∷ move 1
    ∷ move 1
    ∷ move 0
    ∷ move 0
    ∷ []

returned_pe : (run turns_to_return calling).todo (pe_of (all_pes 2) 0) ≡ []
unfolding paw.Shcoll.step pe_of paw.Shcoll.index_of paw.Sync.compare_op collect_all_linear
    Scan.initial Scan.scan_step
returned_pe = refl

collect_all_linear_delivers_example :
    (run turns_to_return calling).bytes (pe_of (all_pes 2) 0) (64 + sum_below sizes 1 + 3)
    ≡ calling.bytes (pe_of (all_pes 2) 1) (0 + 3)
unfolding sum_below
collect_all_linear_delivers_example =
    collect_all_linear_delivers 64 0 2 sizes scanned (omega arith) (omega arith)
      (after-Reach (1 ∷ 1 ∷ 1 ∷ 1 ∷ 1 ∷ 0 ∷ 1 ∷ 0 ∷ 1 ∷ 0 ∷ 0 ∷ 1 ∷ []) refl) scanned_all
      (λ c lt. inl (omega arith)) calling-Calls (run-Reach turns_to_return calling here) 1 0 3
      (omega arith) (omega arith) (omega arith) returned_pe

exclusive_prefix_sum_lem_example : scanned.dest 1 ≡ sum_below sizes 1
unfolding sum_below
exclusive_prefix_sum_lem_example =
    exclusive_prefix_sum_lem 2 sizes (omega arith) scanned 1
      (after-Reach (1 ∷ 1 ∷ 1 ∷ 1 ∷ 1 ∷ 0 ∷ 1 ∷ 0 ∷ 1 ∷ 0 ∷ 0 ∷ 1 ∷ []) refl) (omega arith)
      (scanned_all 1 (omega arith))

answer : scanned.dest 1 ≡ 5
unfolding Scan.initial Scan.scan_step pe_of paw.Shcoll.index_of
answer = refl

scan_completes_example :
    (t : Scan.System) × Scan.Reach (all_pes 2) sizes (Scan.initial sizes) t
    × ((me : ℕ) → me < 2 → (t.place me ≡ Scan.finished) × (t.dest me ≡ sum_below sizes me))
unfolding sum_below
scan_completes_example = scan_completes 2 sizes (omega arith) (Scan.initial sizes) Scan.begin

-- PEs 4 and 5.
abbrev behind : ActiveSet
behind = record { pe_start = 4; log_stride = 0; pe_size = 2 }

scan_stuck_example :
    ((Scan.initial sizes).place (pe_of behind 1) ≡ Scan.notify 0)
    ⊎ ((Scan.initial sizes).place (pe_of behind 1) ≡ Scan.await 0)
scan_stuck_example =
    scan_stuck behind sizes (omega arith) (Scan.initial sizes) Scan.begin 1 (omega arith)
      (omega arith)
