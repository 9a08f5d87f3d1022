-- ===== src/Shcoll/Scan/Invariant.antt =====
-- What holds of every reachable state of the scan: the sum that each PE has, and what each word holds.
use paw.Prelude.{
  ℕ, suc, ◌+◌, ◌^◌, ◌≤◌, ◌<◌, ◌≡◌, ◌≢◌, refl, arith, Bool, true, false, ltb, leb, ◌==◌, ==_iff,
  subst, sym, ◌∙◌, ℕ_discrete,
}
use paw.Prelude.Words.{two_pow_pos}
use paw.Shcoll.{set_at}
use paw.Shcoll.Scan.{Place, notify, await, collect, clear, settle, finished, System, initial}
use paw.Shcoll.Scan.Window.{window, window-zero, sum_below}

-- A PE in this place has sent the word of a round.
abbrev pub sent : Place → ℕ → Bool
sent (notify k) r = ltb r k
sent (await k) r = leb r k
sent (collect k) r = leb r k
sent (clear k) r = leb r k
sent (settle k) r = leb r k
sent finished r = true

-- It has seen its own word of a round, and has set it back to 0.
abbrev pub seen : Place → ℕ → Bool
seen (notify k) r = ltb r k
seen (await k) r = ltb r k
seen (collect k) r = leb r k
seen (clear k) r = leb r k
seen (settle k) r = leb r k
seen finished r = true

abbrev pub taken : Place → ℕ → Bool
taken (notify k) r = ltb r k
taken (await k) r = ltb r k
taken (collect k) r = ltb r k
taken (clear k) r = ltb r k
taken (settle k) r = leb r k
taken finished r = true

-- What the word `w` holds for a sum `x`: nothing before it was sent and after it was taken.
pub data Word (w x : ℕ) : Bool → Bool → Bool → Type 0 where
  unsent : w ≡ 0 → Word w x false false false
  waiting : (b : Bool) → w ≡ x + 1 → Word w x true b false
  over : w ≡ 0 → Word w x true true true

-- The word of a round between two PEs that are `2 ^ round` apart.
abbrev pub Into : (ℕ → ℕ) → System → ℕ → ℕ → ℕ → Type 0
Into value s p r q =
    Word (s.words q r) (window value p r) (sent (s.place p) r) (seen (s.place q) r)
      (taken (s.place q) r)

abbrev pub Between : (ℕ → ℕ) → System → ℕ → ℕ → Type 0
Between value s p r = Into value s p r (p + 2 ^ r)

-- The sum of a PE in each place.
abbrev pub Local : (ℕ → ℕ) → ℕ → ℕ → ℕ → Place → Type 0
Local value me sum dest (notify k) = sum ≡ window value me k
Local value me sum dest (await k) = sum ≡ window value me k
Local value me sum dest (collect k) = (2 ^ k ≤ me) × (sum ≡ window value me k)
Local value me sum dest (clear k) = (2 ^ k ≤ me) × (sum ≡ window value me (suc k))
Local value me sum dest (settle k) = (2 ^ k ≤ me) × (sum ≡ window value me (suc k))
Local value me sum dest finished = dest ≡ sum_below value me

pub record Invariant (n : ℕ) (value : ℕ → ℕ) (s : System) : Type 0 where
  pub between : (p r : ℕ) → p + 2 ^ r < n → Between value s p r
  pub local : (me : ℕ) → me < n → Local value me (s.partial_scan me) (s.dest me) (s.place me)

pub initial-Invariant : (n : ℕ) (value : ℕ → ℕ) → Invariant n value (initial value)
unfolding initial
initial-Invariant n value = record {
  between = λ p r lt. let none_yet : ltb r 0 ≡ false = ground arith in rw none_yet (unsent refl);
  local = λ me lt. sym (window-zero value me);
}

-- A step of PE `me` that goes from place `old` to place `new`: the words that it reads, those that it
-- writes, and all others.
pub record Moves (n : ℕ) (value : ℕ → ℕ) (s t : System) (me : ℕ) (old new : Place) : Type 0 where
  pub was : s.place me ≡ old
  pub placed : (q : ℕ) → t.place q ≡ set_at s.place me new q
  pub own : Local value me (t.partial_scan me) (t.dest me) new
  pub others : (q : ℕ) → q ≢ me → (t.partial_scan q ≡ s.partial_scan q) × (t.dest q ≡ s.dest q)
  pub received :
      (p r : ℕ)
      → p + 2 ^ r ≡ me
      → Word (s.words me r) (window value p r) (sent (s.place p) r) (seen old r) (taken old r)
      → Word (t.words me r) (window value p r) (sent (s.place p) r) (seen new r) (taken new r)
  pub notified :
      (r : ℕ)
      → me + 2 ^ r < n
      → Word
          (s.words (me + 2 ^ r) r)
          (window value me r)
          (sent old r)
          (seen (s.place (me + 2 ^ r)) r)
          (taken (s.place (me + 2 ^ r)) r)
      → Word
          (t.words (me + 2 ^ r) r)
          (window value me r)
          (sent new r)
          (seen (s.place (me + 2 ^ r)) r)
          (taken (s.place (me + 2 ^ r)) r)
  pub kept : (p r : ℕ) → p ≢ me → p + 2 ^ r ≢ me → t.words (p + 2 ^ r) r ≡ s.words (p + 2 ^ r) r

pub Moves-Invariant :
    (n : ℕ) (value : ℕ → ℕ) (s t : System) (me : ℕ) (old new : Place)
    → Moves n value s t me old new
    → Invariant n value s
    → Invariant n value t
Moves-Invariant n value s t me old new m inv = record {
  between = λ p r lt. elim (ℕ_discrete p me) [
    | yes same ↦
        subst (λ a. Between value t a r) (sym same)
          (rw (at_me, at_other (me + 2 ^ r) (omega (arith, two_pow_pos r)))
            (m.notified r (subst (λ a. a + 2 ^ r < n) same lt)
              (rw m.was at (inv.between me r (subst (λ a. a + 2 ^ r < n) same lt)))))
    | no ne ↦ elim (ℕ_discrete (p + 2 ^ r) me) [
      | yes reads ↦
          subst (λ a. Into value t p r a) (sym reads)
            (rw (at_me, at_other p ne)
              (m.received p r reads
                (rw m.was at (subst (λ a. Into value s p r a) reads (inv.between p r lt)))))
      | no far ↦
          rw (at_other p ne, at_other (p + 2 ^ r) far, m.kept p r ne far) (inv.between p r lt)
    ]
  ];
  local = λ q lt. elim (ℕ_discrete q me) [
    | yes same ↦
        subst (λ a. Local value a (t.partial_scan a) (t.dest a) (t.place a)) (sym same)
          (rw at_me m.own)
    | no ne ↦ rw (at_other q ne, (m.others q ne).0, (m.others q ne).1) (inv.local q lt)
  ];
}
  where
    at_me : t.place me ≡ new
    at_me = m.placed me ∙ rw ((==_iff me me).1 refl) refl

    at_other : (q : ℕ) → q ≢ me → t.place q ≡ s.place q
    at_other q ne = m.placed q ∙ rw (differ q ne) refl
      where
        differ : (q : ℕ) → q ≢ me → (me == q) ≡ false
        differ q ne = ground arith
