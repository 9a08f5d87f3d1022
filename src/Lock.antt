-- ===== src/Lock.antt =====
-- osss-ucx/src/api/lock.c: the distributed lock, for any number of PEs, an access at a time.
pub mod Owner
pub mod Invariant
pub mod Safety
mod Tests
use paw.Prelude.{
  ℕ, zero, suc, ◌+◌, ◌%◌, ◌^◌, ◌<◌, Bool, true, false, ◌&&◌, not, List, [], ◌∷◌, ltb, ◌==◌,
  if◌then◌else◌,
}

-- An int16_t is kept as its bit pattern.
abbrev pub i16 : ℕ → ℕ
i16 n = n % 2 ^ 16

-- `next == me` compares the sign-extended int16_t with a PE number: a pattern with its top bit set
-- is negative, and equals none.
abbrev pub eq_int16_pe : ℕ → ℕ → Bool
eq_int16_pe x me = ltb x (2 ^ 15) && x == me

-- SHMEM_LOCK_FREE is -1.
abbrev pub lock_free : ℕ
lock_free = 0xffff

abbrev pub lock_reset : ℕ
lock_reset = 0

abbrev pub lock_acquired : ℕ
lock_acquired = 1

-- `shmem_lock_t`, by its two halves; the 32-bit `blob` is the pair of them.
pub record LockWord : Type 0 where
  pub locked : ℕ
  pub next : ℕ

abbrev pub blob_eq : LockWord → LockWord → Bool
blob_eq a b = a.locked == b.locked && a.next == b.next

abbrev pub blob_reset : LockWord
blob_reset = record { locked = 0; next = 0 }

-- What a PE writes to claim the lock: `tmp` of `try_request_lock` and `try_clear_lock`.
abbrev pub claim : ℕ → LockWord
claim me = record { locked = lock_acquired; next = i16 me }

-- Where a PE stands in `set_lock`, `test_lock` or `clear_lock`, with its local `cmp`.
pub data Pc : Type 0 where
  idle : Pc  -- outside, not holding the lock
  requesting : Pc  -- the loop of `set_lock_request`
  executing : LockWord → Pc  -- start of `set_lock_execute`
  tail : LockWord → Pc  -- after `node->d.next = SHMEM_LOCK_FREE`
  chain : LockWord → Pc  -- before `shmem_short_p` in `set_lock_execute`
  waiting : Pc  -- "sit here until unlocked"
  held : Pc  -- the lock is held; next comes `clear_lock`
  try_clear : Pc  -- before the compare-and-swap of `clear_lock_request`
  cleared : LockWord → Pc  -- start of `clear_lock_execute`
  signalling : Pc  -- "wait for a chainer PE to appear"

-- The lock word on its owner PE, each PE's node, and each PE's place in the code.
pub record System : Type 0 where
  pub lock : LockWord
  pub node : ℕ → LockWord
  pub pc : ℕ → Pc

abbrev pub update {ℓ} : {A : Type ℓ} → (ℕ → A) → ℕ → A → ℕ → A
update f i a j = if i == j then a else f j

-- What the user's program calls from `idle`.
pub data Call : Type 0 where
  set_lock test_lock no_call : Call

-- `shmem_int_atomic_compare_swap` at the owner: the lock word after it, and what it returns in `cmp`.
pub try_lock_action : LockWord → LockWord → LockWord → LockWord × LockWord
try_lock_action lock cond value = (if blob_eq lock cond then value else lock, lock)

pub try_request_lock : LockWord → ℕ → LockWord × LockWord
unfolding try_lock_action
try_request_lock lock me = try_lock_action lock blob_reset (claim me)

pub try_clear_lock : LockWord → ℕ → LockWord × LockWord
unfolding try_lock_action
try_clear_lock lock me = try_lock_action lock (claim me) blob_reset

-- One access of `set_lock_request`: round again while `cmp` is not SHMEM_LOCK_RESET.
pub set_lock_request : ℕ → System → System
unfolding try_request_lock
set_lock_request me s =
    let (lock', cmp) = try_request_lock s.lock me in
    record s {
      lock = lock';
      pc = update s.pc me (if blob_eq cmp blob_reset then executing cmp else requesting);
    }

-- `test_lock`: one attempt; it returns 1 (back to `idle`) if the lock was taken.
pub test_lock_step : ℕ → System → System
unfolding try_request_lock
test_lock_step me s =
    let (lock', cmp) = try_request_lock s.lock me in
    record s {
      lock = lock';
      pc = update s.pc me (if blob_eq cmp blob_reset then executing cmp else idle);
    }

-- `set_lock_execute`, an access at a time.
pub set_lock_execute : ℕ → LockWord → System → System
set_lock_execute me cmp s = record s {
  node = update s.node me (record (s.node me) { next = lock_free });
  pc = update s.pc me (tail cmp);
}

pub set_lock_execute_locked : ℕ → LockWord → System → System
set_lock_execute_locked me cmp s =
    if cmp.locked == lock_acquired
    then record s {
      node = update s.node me (record (s.node me) { locked = lock_acquired });
      pc = update s.pc me (chain cmp);
    }
    else record s { pc = update s.pc me held }

-- chain me on
pub set_lock_execute_chain : ℕ → LockWord → System → System
set_lock_execute_chain me cmp s = record s {
  node = update s.node cmp.next (record (s.node cmp.next) { next = i16 me });
  pc = update s.pc me waiting;
}

pub set_lock_execute_wait : ℕ → System → System
set_lock_execute_wait me s =
    if (s.node me).locked == lock_acquired then s else record s { pc = update s.pc me held }

-- `clear_lock_request`. Where it does not swap, `cmp` stays what the stack held, here `junk`.
pub clear_lock_request : ℕ → LockWord → System → System
clear_lock_request me junk s = record s {
  pc = update s.pc me (if (s.node me).next == lock_free then try_clear else cleared junk);
}

pub clear_lock_swap : ℕ → System → System
unfolding try_clear_lock
clear_lock_swap me s =
    let (lock', cmp) = try_clear_lock s.lock me in
    record s { lock = lock'; pc = update s.pc me (cleared cmp) }

-- `clear_lock_execute`: return if nobody has chained on, else wait for the chainer and wake it.
pub clear_lock_execute : ℕ → LockWord → System → System
clear_lock_execute me cmp s = record s {
  pc = update s.pc me (if eq_int16_pe cmp.next me then idle else signalling);
}

pub clear_lock_signal : ℕ → System → System
clear_lock_signal me s =
    let k = (s.node me).next in
    if k == lock_free then s else record s {
      node = update s.node k (record (s.node k) { locked = lock_reset });
      pc = update s.pc me idle;
    }

-- The next access of PE `me`, by where it stands.
pub dispatch : ℕ → Call → LockWord → System → Pc → System
dispatch me set_lock junk s idle = record s { pc = update s.pc me requesting }
dispatch me test_lock junk s idle = test_lock_step me s
dispatch me no_call junk s idle = s
dispatch me _ junk s requesting = set_lock_request me s
dispatch me _ junk s (executing cmp) = set_lock_execute me cmp s
dispatch me _ junk s (tail cmp) = set_lock_execute_locked me cmp s
dispatch me _ junk s (chain cmp) = set_lock_execute_chain me cmp s
dispatch me _ junk s waiting = set_lock_execute_wait me s
dispatch me _ junk s held = clear_lock_request me junk s
dispatch me _ junk s try_clear = clear_lock_swap me s
dispatch me _ junk s (cleared cmp) = clear_lock_execute me cmp s
dispatch me _ junk s signalling = clear_lock_signal me s

-- One turn of the schedule: which PE moves, what it calls from `idle`, and the junk on its stack.
pub record Turn : Type 0 where
  pub pe : ℕ
  pub call : Call
  pub junk : LockWord

pub step : Turn → System → System
step t s = dispatch t.pe t.call t.junk s (s.pc t.pe)

-- A lock that its user has set to zero, with every node in whatever state.
abbrev pub start : (ℕ → LockWord) → System
start nodes = record { lock = blob_reset; node = nodes; pc = λ _. idle }

-- `n` PEs in any interleaving.
pub data Reach (n : ℕ) (nodes : ℕ → LockWord) : System → Type 0 where
  begin : Reach n nodes (start nodes)
  turn : {s : System} (t : Turn) → t.pe < n → Reach n nodes s → Reach n nodes (step t s)

-- Between the return of `set_lock`, or of a `test_lock` that won, and the swap of `clear_lock`.
abbrev pub critical : Pc → Bool
critical held = true
critical try_clear = true
critical _ = false
