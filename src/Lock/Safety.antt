-- ===== src/Lock/Safety.antt =====
-- osss-ucx/src/api/lock.c: the reachable states of the lock, its release, and PE numbers beyond the
-- 16-bit half.
use paw.Prelude.{
  ℕ, zero, suc, ◌^◌, ◌<◌, ◌≤◌, ◌≡◌, ◌≢◌, refl, sym, ◌∙◌, true, false, ==_iff, arith, ◌⊎◌, inl, inr,
  Bool-cases, if◌then◌else◌, ℕ_discrete,
}
use paw.Lock.{
  LockWord, blob_reset, claim, lock_free, Pc, idle, requesting, executing, tail, chain, waiting,
  held, try_clear, cleared, signalling, System, update, Turn, Call, set_lock, test_lock, no_call,
  test_lock_step, set_lock_execute_chain, set_lock_execute_wait, step, dispatch, Reach, critical,
  eq_int16_pe, set_lock_request, set_lock_execute, set_lock_execute_locked, clear_lock_request,
  clear_lock_swap, clear_lock_execute, clear_lock_signal, try_clear_lock, try_lock_action,
}
use paw.Lock.Invariant.{Local, Owns, Reach-Inv, claim-injective, blob_eq_of_eq}

critical-claim :
    (lock node : LockWord) (i : ℕ) (p : Pc)
    → critical p ≡ true
    → Local lock node i p
    → lock ≡ claim i
critical-claim lock node i held c l = l.0
critical-claim lock node i try_clear c l = l.0
critical-claim lock node i idle c l = cc
critical-claim lock node i _ c l = cc

Owns-claim : (lock node : LockWord) (i : ℕ) (p : Pc) → Owns p → Local lock node i p → lock ≡ claim i
Owns-claim lock node i (executing _) c l = l.1
Owns-claim lock node i (tail _) c l = l.1
Owns-claim lock node i held c l = l.0
Owns-claim lock node i try_clear c l = l.0
Owns-claim lock node i idle c l = absurd c
Owns-claim lock node i _ c l = absurd c

module _ {n : ℕ} {nodes : ℕ → LockWord} {s : System} (few : n ≤ 2 ^ 16) (r : Reach n nodes s) where
  -- In every interleaving of up to 2^16 PEs, two are never between `set_lock` (or a `test_lock`
  -- that won) and the swap of `clear_lock` together.
  pub mutual_exclusion :
      (i j : ℕ) → i < n → j < n → critical (s.pc i) ≡ true → critical (s.pc j) ≡ true → i ≡ j
  mutual_exclusion i j hi hj ci cj =
      let inv = Reach-Inv few r in
      let ei = critical-claim s.lock (s.node i) i (s.pc i) ci (inv.local i) in
      let ej = critical-claim s.lock (s.node j) j (s.pc j) cj (inv.local j) in
      claim-injective i j (omega arith) (omega arith) (sym ei ∙ ej)

  -- The queue of waiters is never built: no reachable PE is about to chain itself on, or waits for
  -- a predecessor.
  pub never_chained : (i : ℕ) (cmp : LockWord) → (s.pc i ≢ chain cmp) × (s.pc i ≢ waiting)
  never_chained i cmp = (λ e. not_there (chain cmp) e (λ l. l), λ e. not_there waiting e (λ l. l))
    where
      not_there : (p : Pc) → s.pc i ≡ p → (Local s.lock (s.node i) i p → ⊥) → ⊥
      not_there p e k = k (rw e at ((Reach-Inv few r).local i))

  -- The lock is not lost: in every reachable state its word is reset, or it is the claim of a PE of
  -- the program that stands between winning the lock and clearing it.
  pub lock_not_lost :
      (s.lock ≡ blob_reset) ⊎ ((j : ℕ) × (j < n) × (s.lock ≡ claim j) × Owns (s.pc j))
  lock_not_lost = (Reach-Inv few r).owned

  -- While the lock word is reset, no PE is in the critical section.
  pub reset_word_free : s.lock ≡ blob_reset → (i : ℕ) → critical (s.pc i) ≡ false
  reset_word_free e i = elim (Bool-cases (critical (s.pc i))) [
    | inl c ↦
        absurd (clash (critical-claim s.lock (s.node i) i (s.pc i) c ((Reach-Inv few r).local i)))
    | inr c ↦ c
  ]
    where
      clash : s.lock ≡ claim i → ⊥
      clash b = cc

-- `k` turns of PE `i` in a row.
abbrev pub alone : ℕ → LockWord → ℕ → System → System
alone i junk zero s = s
alone i junk (suc k) s = alone i junk k (step (record { pe = i; call = no_call; junk = junk }) s)

step_at :
    (t : Turn) (s : System) (p : Pc) → s.pc t.pe ≡ p → step t s ≡ dispatch t.pe t.call t.junk s p
unfolding step
step_at t s p e = rw e

update_self : (pc : ℕ → Pc) (i : ℕ) (p : Pc) → update pc i p i ≡ p
update_self pc i p = rw ((==_iff i i).1 refl)

module _ (s : System) (i : ℕ) (junk : LockWord) where
  abbrev solo : Turn
  solo = record { pe = i; call = no_call; junk = junk }

  from_held :
      s.pc i ≡ held
      → (s.node i).next ≡ lock_free
      → step solo s ≡ record s { pc = update s.pc i try_clear }
  unfolding dispatch clear_lock_request
  from_held e f = step_at solo s held e ∙ rw ((==_iff (s.node i).next lock_free).1 f)

  from_try_clear :
      s.pc i ≡ try_clear
      → s.lock ≡ claim i
      → step solo s ≡ record s { lock = blob_reset; pc = update s.pc i (cleared s.lock) }
  unfolding dispatch clear_lock_swap try_clear_lock try_lock_action
  from_try_clear e f = step_at solo s try_clear e ∙ rw (blob_eq_of_eq s.lock (claim i) f)

  from_cleared :
      (cmp : LockWord)
      → s.pc i ≡ cleared cmp
      → step solo s
        ≡ record s { pc = update s.pc i (if eq_int16_pe cmp.next i then idle else signalling) }
  unfolding dispatch clear_lock_execute
  from_cleared cmp e = step_at solo s (cleared cmp) e

eq_int16_claim : (i : ℕ) → i < 2 ^ 15 → eq_int16_pe (claim i).next i ≡ true
eq_int16_claim i h = ground arith

-- `clear_lock` returns: in a reachable state of up to 2^15 PEs, three turns of the PE that holds the
-- lock reset the lock word and take that PE out of the call, whatever is on its stack.
pub clear_lock_returns :
    {n : ℕ} {nodes : ℕ → LockWord} {s : System}
    → n ≤ 2 ^ 15
    → Reach n nodes s
    → (i : ℕ) (junk : LockWord) → i < n
    → s.pc i ≡ held
    → ((alone i junk 3 s).lock ≡ blob_reset) × ((alone i junk 3 s).pc i ≡ idle)
clear_lock_returns {n} {nodes} {s} few r i junk lt e =
    let l : Local s.lock (s.node i) i held =
      rw e at ((Reach-Inv {n = n} {nodes = nodes} {s = s} (omega arith) r).local i) in
    let s1 : System = record s { pc = update s.pc i try_clear } in
    let s2 : System = record s1 { lock = blob_reset; pc = update s1.pc i (cleared s.lock) } in
    rw
      (
        from_held s i junk e l.1,
        from_try_clear s1 i junk (update_self s.pc i try_clear) l.0,
        from_cleared s2 i junk s.lock (update_self s1.pc i (cleared s.lock)),
        l.0,
        eq_int16_claim i (omega arith),
      )
      (refl, rw ((==_iff i i).1 refl))

-- A PE whose number has a 16-bit pattern that is negative, or is longer, never gets out.
abbrev pub IsStuck : Pc → Type 0
IsStuck (cleared _) = Unit
IsStuck signalling = Unit
IsStuck _ = ⊥

eq_int16_claim_large : (i : ℕ) → 2 ^ 15 ≤ i → eq_int16_pe (claim i).next i ≡ false
eq_int16_claim_large i h = ground arith

-- A turn of one PE leaves the place of every other.
dispatch-pc :
    (me : ℕ) (call : Call) (junk : LockWord) (s : System) (p : Pc) (i : ℕ)
    → me ≢ i
    → (dispatch me call junk s p).pc i ≡ s.pc i
unfolding dispatch
dispatch-pc me set_lock junk s idle i ne = ground arith
dispatch-pc me test_lock junk s idle i ne = unfold test_lock_step in ground arith
dispatch-pc me no_call junk s idle i ne = refl
dispatch-pc me _ junk s requesting i ne = unfold set_lock_request in ground arith
dispatch-pc me _ junk s (executing cmp) i ne = unfold set_lock_execute in ground arith
dispatch-pc me _ junk s (tail cmp) i ne = unfold set_lock_execute_locked in ground arith
dispatch-pc me _ junk s (chain cmp) i ne = unfold set_lock_execute_chain in ground arith
dispatch-pc me _ junk s waiting i ne = unfold set_lock_execute_wait in ground arith
dispatch-pc me _ junk s held i ne = unfold clear_lock_request in ground arith
dispatch-pc me _ junk s try_clear i ne = unfold clear_lock_swap in ground arith
dispatch-pc me _ junk s (cleared cmp) i ne = unfold clear_lock_execute in ground arith
dispatch-pc me _ junk s signalling i ne = unfold clear_lock_signal in ground arith

-- The turn of the stuck PE itself.
IsStuck-turn :
    (call : Call) (junk : LockWord) (s : System) (i : ℕ) (p : Pc)
    → 2 ^ 15 ≤ i
    → s.pc i ≡ p
    → Local s.lock (s.node i) i p
    → IsStuck p
    → IsStuck ((dispatch i call junk s p).pc i)
unfolding dispatch clear_lock_execute clear_lock_signal
IsStuck-turn call junk s i (cleared cmp) h e l k =
    rw (l.0, eq_int16_claim_large i h, (==_iff i i).1 refl) tt
IsStuck-turn call junk s i signalling h e l k = rw ((==_iff (s.node i).next lock_free).1 l, e) tt
IsStuck-turn call junk s i idle h e l k = absurd k
IsStuck-turn call junk s i _ h e l k = absurd k

-- A PE numbered 2^15 or above that has swapped the lock out in `clear_lock` never returns from it:
-- whichever PE moves next, it is still at the test or in the loop behind it.
pub large_pe-IsStuck :
    {n : ℕ} {nodes : ℕ → LockWord} {s : System}
    → n ≤ 2 ^ 16
    → Reach n nodes s
    → (i : ℕ) → 2 ^ 15 ≤ i
    → IsStuck (s.pc i)
    → (t : Turn) → IsStuck ((step t s).pc i)
unfolding step
large_pe-IsStuck {s} few r i h k t = elim (ℕ_discrete t.pe i) [
  | no ne ↦ rw (dispatch-pc t.pe t.call t.junk s (s.pc t.pe) i ne) k
  | yes e ↦ rw e (IsStuck-turn t.call t.junk s i (s.pc i) h refl ((Reach-Inv few r).local i) k)
]
