-- ===== src/Shcoll/Scan/Moves.antt =====
-- The steps of the scan that write nothing but the place keep the invariant.
use paw.Prelude.{
  ℕ, suc, ◌+◌, ◌^◌, ◌≤◌, ◌<◌, ◌≡◌, ◌≢◌, refl, arith, Bool, true, false, ltb, leb, ◌==◌, subst, sym,
  ◌∙◌, ℕ_discrete, ap,
}
use paw.Prelude.Words.{two_pow_pos}
use paw.Shcoll.Scan.{Place, notify, await, collect, settle, System, go}
use paw.Shcoll.Scan.Window.{sum_below, window_same}
use paw.Shcoll.Scan.Invariant.{
  sent, seen, taken, Word, unsent, waiting, over, Local, Invariant, Moves-Invariant,
}

pub woken : (w x : ℕ) (b : Bool) → w ≢ 0 → Word w x b false false → Word w x b true false
woken w x _ ne (unsent e) = absurd (ne e)
woken w x _ ne (waiting _ e) = waiting true e

pub emptied : (w x : ℕ) (b : Bool) → Word w x b true false → Word 0 x b true true
emptied w x _ (waiting _ e) = over refl

pub filled : (w v x : ℕ) (c d : Bool) → (w ≡ 0 → v ≡ x + 1) → Word w x false c d → Word v x true c d
filled w v x _ _ f (unsent e) = waiting false (f e)

pub held : (w x : ℕ) (b : Bool) → Word w x b true false → w ≡ x + 1
held w x _ (waiting _ e) = e

pub differ : (q me : ℕ) → q ≢ me → (me == q) ≡ false
differ q me ne = ground arith

pub pow_far : (me r : ℕ) → me + 2 ^ r ≢ me
pow_far me r = omega (arith, two_pow_pos r)

module _ (n : ℕ) (value : ℕ → ℕ) (s : System) (me : ℕ) (lt : me < n)
    (small : sum_below value n + 1 < 2 ^ 64) (inv : Invariant n value s) where
  -- A step that goes on without an access that writes.
  pub go-Invariant :
      (old new : Place)
      → s.place me ≡ old
      → Local value me (s.partial_scan me) (s.dest me) new
      → ((r : ℕ) → me + 2 ^ r < n → sent new r ≡ sent old r)
      → ((r x : ℕ) (b : Bool)
          → 2 ^ r ≤ me
          → Word (s.words me r) x b (seen old r) (taken old r)
          → Word (s.words me r) x b (seen new r) (taken new r))
      → Invariant n value (go s me new)
  go-Invariant old new e own same read =
      Moves-Invariant n value s (go s me new) me old new
        (record {
          was = e;
          placed = λ q. refl;
          own = own;
          others = λ q ne. (refl, refl);
          received = λ p r q w. read r _ _ (omega arith) w;
          notified = λ r far w. rw (same r far) w;
          kept = λ p r ne far. refl;
        })
        inv

  pub skip_round :
      (k : ℕ) → s.place me ≡ await k → me < 2 ^ k → Invariant n value (go s me (notify (suc k)))
  skip_round k e none_before =
      let now = subst (λ a. Local value me (s.partial_scan me) (s.dest me) a) e (inv.local me lt) in
      go-Invariant (await k) (notify (suc k)) e (now ∙ sym (window_same value me k none_before))
        (λ r far. ground arith)
        (λ r x b le w.
          let same : ltb r (suc k) ≡ ltb r k = ground (arith, before r k le none_before) in
          rw same w)
    where
      before : (r k : ℕ) → 2 ^ r ≤ me → me < 2 ^ k → r ≢ k
      before r k le gt e = omega (arith, ap (λ n. 2 ^ n) e)

  pub wake :
      (k : ℕ)
      → s.place me ≡ await k
      → 2 ^ k ≤ me
      → s.words me k ≢ 0
      → Invariant n value (go s me (collect k))
  wake k e le ne =
      let now = subst (λ a. Local value me (s.partial_scan me) (s.dest me) a) e (inv.local me lt) in
      go-Invariant (await k) (collect k) e (le, now) (λ r far. refl)
        (λ r x b le w. elim (ℕ_discrete r k) [
          | yes same ↦
              let low : ltb r k ≡ false = ground arith in
              let high : leb r k ≡ true = ground arith in
              rw (low, high) (woken _ x b (rw same ne) (rw low at w))
          | no other ↦ let same : leb r k ≡ ltb r k = ground arith in rw same w
        ])

  pub next_round : (k : ℕ) → s.place me ≡ settle k → Invariant n value (go s me (notify (suc k)))
  next_round k e =
      let now = subst (λ a. Local value me (s.partial_scan me) (s.dest me) a) e (inv.local me lt) in
      go-Invariant (settle k) (notify (suc k)) e now.1 (λ r far. ground arith)
        (λ r x b le w. let same : ltb r (suc k) ≡ leb r k = ground arith in rw same w)

  pub sum_at : (p : Place) → s.place me ≡ p → Local value me (s.partial_scan me) (s.dest me) p
  sum_at p e = subst (λ a. Local value me (s.partial_scan me) (s.dest me) a) e (inv.local me lt)
