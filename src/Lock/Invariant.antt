-- ===== src/Lock/Invariant.antt =====
-- osss-ucx/src/api/lock.c: who owns the lock word, in the reachable states of up to 2^16 PEs.
use paw.Prelude.{
  ℕ, ◌^◌, ◌<◌, ◌≤◌, ◌≡◌, ◌≢◌, refl, true, ◌==◌, arith, ◌⊎◌, inl, inr, Bool-cases, ==_iff, dec_lt,
  sym, ◌∙◌,
}
use paw.Lock.{
  LockWord, blob_reset, blob_eq, claim, lock_free, Pc, idle, requesting, executing, tail, chain,
  waiting, held, try_clear, cleared, signalling, System, update, Call, set_lock, test_lock, no_call,
  Turn, step, dispatch, Reach, begin, turn, set_lock_request, test_lock_step, set_lock_execute,
  set_lock_execute_locked, clear_lock_request, clear_lock_swap, clear_lock_execute,
  clear_lock_signal, try_request_lock, try_clear_lock, try_lock_action, eq_int16_pe,
}

-- What PE `me` at a place of the code knows of the lock word and of its own node.
abbrev pub Local : LockWord → LockWord → ℕ → Pc → Type 0
Local lock node me idle = Unit
Local lock node me requesting = Unit
Local lock node me (executing cmp) = (cmp ≡ blob_reset) × (lock ≡ claim me)
Local lock node me (tail cmp) = (cmp ≡ blob_reset) × (lock ≡ claim me) × (node.next ≡ lock_free)
Local lock node me (chain cmp) = ⊥
Local lock node me waiting = ⊥
Local lock node me held = (lock ≡ claim me) × (node.next ≡ lock_free)
Local lock node me try_clear = (lock ≡ claim me) × (node.next ≡ lock_free)
Local lock node me (cleared cmp) = (cmp ≡ claim me) × (node.next ≡ lock_free)
Local lock node me signalling = node.next ≡ lock_free

-- The lock word is reset, or is the claim of a PE that is on its way to clear it.
abbrev pub Owns : Pc → Type 0
Owns (executing _) = Unit
Owns (tail _) = Unit
Owns held = Unit
Owns try_clear = Unit
Owns _ = ⊥

pub record Inv (n : ℕ) (s : System) : Type 0 where
  pub few : n ≤ 2 ^ 16
  pub local : (j : ℕ) → Local s.lock (s.node j) j (s.pc j)
  pub absent : (j : ℕ) → n ≤ j → s.pc j ≡ idle
  pub owned : (s.lock ≡ blob_reset) ⊎ ((j : ℕ) × (j < n) × (s.lock ≡ claim j) × Owns (s.pc j))

pub claim-injective : (i j : ℕ) → i < 2 ^ 16 → j < 2 ^ 16 → claim i ≡ claim j → i ≡ j
claim-injective i j p q e = ground arith

blob_eq-eq : (a b : LockWord) → blob_eq a b ≡ true → a ≡ b
blob_eq-eq a b h = ground arith

pub blob_eq_of_eq : (a b : LockWord) → a ≡ b → blob_eq a b ≡ true
blob_eq_of_eq a b e = ground arith

-- Another PE's view survives a change of the lock word that keeps its claim.
Local-keep :
    (lock lock' node : LockWord) (j : ℕ) (p : Pc)
    → (lock ≡ claim j → lock' ≡ claim j)
    → Local lock node j p
    → Local lock' node j p
Local-keep lock lock' node j idle k l = tt
Local-keep lock lock' node j requesting k l = tt
Local-keep lock lock' node j (executing cmp) k l = (l.0, k l.1)
Local-keep lock lock' node j (tail cmp) k l = (l.0, k l.1, l.2)
Local-keep lock lock' node j (chain cmp) k l = l
Local-keep lock lock' node j waiting k l = l
Local-keep lock lock' node j held k l = (k l.0, l.1)
Local-keep lock lock' node j try_clear k l = (k l.0, l.1)
Local-keep lock lock' node j (cleared cmp) k l = l
Local-keep lock lock' node j signalling k l = l

abbrev IsOwned : ℕ → LockWord → (ℕ → Pc) → Type 0
IsOwned n lock pc = (lock ≡ blob_reset) ⊎ ((j : ℕ) × (j < n) × (lock ≡ claim j) × Owns (pc j))

module _ {n : ℕ} {s : System} (inv : Inv n s) (i : ℕ) (lt : i < n) where
  -- PE `i` moves to `p`, and may change the lock word and its own node.
  Inv-move :
      (lock : LockWord) (node : ℕ → LockWord) (p : Pc)
      → Local lock (node i) i p
      → ((j : ℕ) → i ≢ j → node j ≡ s.node j)
      → ((j : ℕ) → j < n → i ≢ j → s.lock ≡ claim j → lock ≡ claim j)
      → IsOwned n lock (update s.pc i p)
      → Inv n (record { lock = lock; node = node; pc = update s.pc i p })
  Inv-move lock node p own others claims owned = record {
    few = inv.few;
    local = views;
    absent = λ j h. ground (arith, inv.absent j h);
    owned = owned;
  }
    where
      other : (j : ℕ) → i ≢ j → Local lock (node j) j (s.pc j)
      other j ne = elim (dec_lt j n) [
        | yes h ↦
            rw (others j ne)
              (Local-keep s.lock lock (s.node j) j (s.pc j) (claims j h ne) (inv.local j))
        | no h ↦ rw (inv.absent j (omega arith)) tt
      ]

      views : (j : ℕ) → Local lock (node j) j (update s.pc i p j)
      views j = elim (Bool-cases (i == j)) [
        | inl e ↦ let e' : i ≡ j = (==_iff i j).0 e in rw (e, ← e') own
        | inr ne ↦ rw ne (other j (λ e'. ground arith))
      ]

  -- Ownership is kept by a move that leaves the lock word, from an owner's place to an owner's.
  claim_stays : (p : Pc) → (Owns (s.pc i) → Owns p) → IsOwned n s.lock (update s.pc i p)
  claim_stays p k = elim inv.owned [ inl e ↦ inl e | inr (j, h, e, o) ↦ inr (j, h, e, owner j o) ]
    where
      owner : (j : ℕ) → Owns (s.pc j) → Owns (update s.pc i p j)
      owner j o = elim (Bool-cases (i == j)) [
        | inl e ↦ let e' : i ≡ j = (==_iff i j).0 e in rw e (k (rw e' o))
        | inr ne ↦ rw ne o
      ]

  -- A move that touches neither the lock word nor a node.
  Inv-stay :
      (p : Pc)
      → Local s.lock (s.node i) i p
      → (Owns (s.pc i) → Owns p)
      → Inv n (record s { pc = update s.pc i p })
  Inv-stay p own k = Inv-move s.lock s.node p own (λ j ne. refl) (λ j h ne c. c) (claim_stays p k)

  Owns-self : (p : Pc) → Owns p → Owns (update s.pc i p i)
  Owns-self p o = rw ((==_iff i i).1 refl) o

  -- The swap that claims a reset lock.
  Inv-claim :
      s.lock ≡ blob_reset
      → Inv n (record s { lock = claim i; pc = update s.pc i (executing s.lock) })
  Inv-claim e =
      Inv-move (claim i) s.node (executing s.lock) (e, refl) (λ j ne. refl) (λ j h ne c. cc)
        (inr (i, lt, refl, Owns-self (executing s.lock) tt))

  Inv-set_lock_request : s.pc i ≡ requesting → Inv n (set_lock_request i s)
  unfolding set_lock_request try_request_lock try_lock_action
  Inv-set_lock_request e = elim (Bool-cases (blob_eq s.lock blob_reset)) [
    | inl free ↦ rw free (Inv-claim (blob_eq-eq s.lock blob_reset free))
    | inr busy ↦ rw busy (Inv-stay requesting tt (λ o. rw e at o))
  ]

  Inv-test_lock_step : s.pc i ≡ idle → Inv n (test_lock_step i s)
  unfolding test_lock_step try_request_lock try_lock_action
  Inv-test_lock_step e = elim (Bool-cases (blob_eq s.lock blob_reset)) [
    | inl free ↦ rw free (Inv-claim (blob_eq-eq s.lock blob_reset free))
    | inr busy ↦ rw busy (Inv-stay idle tt (λ o. rw e at o))
  ]

  Inv-set_lock_execute :
      (cmp : LockWord)
      → s.pc i ≡ executing cmp
      → Local s.lock (s.node i) i (executing cmp)
      → Inv n (set_lock_execute i cmp s)
  unfolding set_lock_execute
  Inv-set_lock_execute cmp e l =
      Inv-move s.lock _ (tail cmp) (l.0, l.1, rw ((==_iff i i).1 refl)) (λ j ne. ground arith)
        (λ j h ne c. c) (claim_stays (tail cmp) (λ o. tt))

  Inv-set_lock_execute_locked :
      (cmp : LockWord)
      → s.pc i ≡ tail cmp
      → Local s.lock (s.node i) i (tail cmp)
      → Inv n (set_lock_execute_locked i cmp s)
  unfolding set_lock_execute_locked
  Inv-set_lock_execute_locked cmp e l = rw l.0 (Inv-stay held (l.1, l.2) (λ o. tt))

  Inv-clear_lock_request :
      (junk : LockWord)
      → s.pc i ≡ held
      → Local s.lock (s.node i) i held
      → Inv n (clear_lock_request i junk s)
  unfolding clear_lock_request
  Inv-clear_lock_request junk e l =
      rw ((==_iff (s.node i).next lock_free).1 l.1) (Inv-stay try_clear l (λ o. tt))

  Inv-clear_lock_swap :
      s.pc i ≡ try_clear → Local s.lock (s.node i) i try_clear → Inv n (clear_lock_swap i s)
  unfolding clear_lock_swap try_clear_lock try_lock_action
  Inv-clear_lock_swap e l = rw (blob_eq_of_eq s.lock (claim i) l.0) (
      Inv-move blob_reset s.node (cleared s.lock) l (λ j ne. refl)
        (λ j h ne c. absurd (
          ne (claim-injective i j (omega (arith, inv.few)) (omega (arith, inv.few)) (sym l.0 ∙ c))))
        (inl refl))

  Inv-clear_lock_execute :
      (cmp : LockWord)
      → s.pc i ≡ cleared cmp
      → Local s.lock (s.node i) i (cleared cmp)
      → Inv n (clear_lock_execute i cmp s)
  unfolding clear_lock_execute
  Inv-clear_lock_execute cmp e l = elim (Bool-cases (eq_int16_pe cmp.next i)) [
    | inl mine ↦ rw mine (Inv-stay idle tt (λ o. rw e at o))
    | inr other ↦ rw other (Inv-stay signalling l.1 (λ o. rw e at o))
  ]

  Inv-clear_lock_signal : Local s.lock (s.node i) i signalling → Inv n (clear_lock_signal i s)
  unfolding clear_lock_signal
  Inv-clear_lock_signal l = rw ((==_iff (s.node i).next lock_free).1 l) inv

  Inv-dispatch :
      (call : Call) (junk : LockWord) (p : Pc)
      → s.pc i ≡ p
      → Local s.lock (s.node i) i p
      → Inv n (dispatch i call junk s p)
  unfolding dispatch
  Inv-dispatch set_lock junk idle e l = Inv-stay requesting tt (λ o. rw e at o)
  Inv-dispatch test_lock junk idle e l = Inv-test_lock_step e
  Inv-dispatch no_call junk idle e l = inv
  Inv-dispatch _ junk requesting e l = Inv-set_lock_request e
  Inv-dispatch _ junk (executing cmp) e l = Inv-set_lock_execute cmp e l
  Inv-dispatch _ junk (tail cmp) e l = Inv-set_lock_execute_locked cmp e l
  Inv-dispatch _ junk (chain cmp) e l = absurd l
  Inv-dispatch _ junk waiting e l = absurd l
  Inv-dispatch _ junk held e l = Inv-clear_lock_request junk e l
  Inv-dispatch _ junk try_clear e l = Inv-clear_lock_swap e l
  Inv-dispatch _ junk (cleared cmp) e l = Inv-clear_lock_execute cmp e l
  Inv-dispatch _ junk signalling e l = Inv-clear_lock_signal l

-- Every access of every PE keeps the invariant.
pub step-Inv : {n : ℕ} {s : System} (t : Turn) → t.pe < n → Inv n s → Inv n (step t s)
unfolding step
step-Inv {n} {s} t lt inv = Inv-dispatch inv t.pe lt t.call t.junk (s.pc t.pe) refl (inv.local t.pe)

pub Reach-Inv : {n : ℕ} {nodes : ℕ → LockWord} {s : System} → n ≤ 2 ^ 16 → Reach n nodes s → Inv n s
Reach-Inv few begin = record { few = few; local = λ j. tt; absent = λ j h. refl; owned = inl refl }
Reach-Inv few (turn t lt r) = step-Inv t lt (Reach-Inv few r)
