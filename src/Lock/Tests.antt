-- ===== src/Lock/Tests.antt =====
-- The lock at concrete schedules.
use paw.Prelude.{ℕ, ◌<◌, ◌≡◌, ◌≢◌, refl, true, arith, ◌⊎◌}
use paw.Lock.{
  LockWord, blob_reset, claim, idle, requesting, chain, waiting, held, cleared, System, Turn,
  set_lock, step, start, Reach, begin, turn, critical, dispatch, set_lock_request, set_lock_execute,
  set_lock_execute_locked, clear_lock_request, clear_lock_swap, try_request_lock, try_clear_lock,
  try_lock_action,
}
use paw.Comms.Address.{at, translate_address}
use paw.Comms.Address.Tests.{two_pes, two_pes-IsValid, lookup_heap}
use paw.Lock.Owner.{lock_owner, lock_owner-lt, lock_owner_agrees}
use paw.Lock.Invariant.{Owns}
use paw.Lock.Safety.{mutual_exclusion, never_chained, lock_not_lost, clear_lock_returns, alone}

abbrev nodes : ℕ → LockWord
nodes i = blob_reset

abbrev go : ℕ → Turn
go i = record { pe = i; call = set_lock; junk = blob_reset }

-- PE `i` takes four turns: it calls `set_lock`, and holds the lock.
abbrev locked : ℕ → System
locked i = step (go i) (step (go i) (step (go i) (step (go i) (start nodes))))

locked-Reach : (n i : ℕ) → i < n → Reach n nodes (locked i)
locked-Reach n i h = turn (go i) h (turn (go i) h (turn (go i) h (turn (go i) h begin)))

-- Then PE 1 calls and loops.
abbrev contended : System
contended = step (go 1) (step (go 1) (locked 0))

contended-Reach : Reach 2 nodes contended
contended-Reach =
    turn (go 1) (omega arith) (turn (go 1) (omega arith) (locked-Reach 2 0 (omega arith)))

contended_places :
    (contended.pc 0 ≡ held) × (contended.pc 1 ≡ requesting) × (contended.lock ≡ claim 0)
unfolding step dispatch set_lock_request set_lock_execute set_lock_execute_locked try_request_lock
    try_lock_action
contended_places = (refl, refl, refl)

mutual_exclusion_example : ◌≡◌ {A = ℕ} 0 0
mutual_exclusion_example =
    mutual_exclusion (omega arith) contended-Reach 0 0 (omega arith) (omega arith) in_it in_it
  where
    in_it : critical (contended.pc 0) ≡ true
    in_it = rw contended_places.0 refl

never_chained_example : (contended.pc 1 ≢ chain blob_reset) × (contended.pc 1 ≢ waiting)
never_chained_example = never_chained (omega arith) contended-Reach 1 blob_reset

lock_not_lost_example :
    (contended.lock ≡ blob_reset)
    ⊎ ((j : ℕ) × (j < 2) × (contended.lock ≡ claim j) × Owns (contended.pc j))
lock_not_lost_example = lock_not_lost (omega arith) contended-Reach

-- PE 0 has called `set_lock` and not yet tried the word.
still_reset : (step (go 0) (start nodes)).lock ≡ blob_reset
unfolding step dispatch
still_reset = refl

called-Reach : Reach 2 nodes (step (go 0) (start nodes))
called-Reach = turn (go 0) (omega arith) begin

clear_lock_returns_example :
    ((alone 0 blob_reset 3 contended).lock ≡ blob_reset)
    × ((alone 0 blob_reset 3 contended).pc 0 ≡ idle)
clear_lock_returns_example =
    clear_lock_returns (omega arith) contended-Reach 0 blob_reset (omega arith) contended_places.0

-- PE 32768 has swapped the lock out.
abbrev large : System
large = step (go 32768) (step (go 32768) (locked 32768))

large-Reach : Reach 65536 nodes large
large-Reach =
    turn (go 32768) (omega arith)
      (turn (go 32768) (omega arith) (locked-Reach 65536 32768 (omega arith)))

large_place : large.pc 32768 ≡ cleared (claim 32768)
unfolding step dispatch set_lock_request set_lock_execute set_lock_execute_locked try_request_lock
    try_lock_action clear_lock_request clear_lock_swap try_clear_lock
large_place = refl

lock_owner-lt_example : lock_owner two_pes 150 < 2
lock_owner-lt_example = lock_owner-lt two_pes 150 (omega arith)

lock_owner_agrees_example :
    lock_owner (at two_pes 1) (translate_address two_pes 1100 1) ≡ lock_owner two_pes 1100
lock_owner_agrees_example = lock_owner_agrees two_pes 1100 1 1 two_pes-IsValid lookup_heap
