-- ===== src/Shcoll/Scan/Writes.antt =====
-- The other steps of the scan keep the invariant as well.
use paw.Prelude.{
  ℕ, suc, ◌+◌, ◌-◌, ◌^◌, ◌≤◌, ◌<◌, ◌≡◌, ◌≢◌, refl, arith, true, false, ltb, leb, ◌==◌, ==_iff,
  if◌then◌else◌, subst, sym, ◌∙◌, ℕ_discrete, dec_lt, Bool-cases, inl, inr, ◌&&◌,
}
use paw.Prelude.Words.{two_pow_mono, add64, sub64}
use paw.Shcoll.{set_at, write}
use paw.Shcoll.Scan.{Place, notify, await, collect, clear, settle, finished, System, go}
use paw.Shcoll.Scan.Unit.{unit_send, unit_step}
use paw.Shcoll.Scan.Window.{
  window, sum_below, window_twice, window_whole, window_le, sum_below_next, sum_below_mono,
}
use paw.Shcoll.Scan.Invariant.{sent, seen, taken, Into, Word, Invariant, Moves-Invariant}
use paw.Shcoll.Scan.Moves.{
  emptied, filled, held, differ, pow_far, go-Invariant, skip_round, wake, next_round, sum_at,
}

module _ (n : ℕ) (value : ℕ → ℕ) (s : System) (me : ℕ) (lt : me < n)
    (small : sum_below value n + 1 < 2 ^ 64) (inv : Invariant n value s) where
  finish :
      (k : ℕ)
      → s.place me ≡ await k
      → n ≤ 2 ^ k
      → Invariant n value (record (go s me finished) {
        dest = set_at s.dest me (sub64 (s.partial_scan me) (value me));
      })
  finish k e last =
      Moves-Invariant n value s _ me (await k) finished
        (record {
          was = e;
          placed = λ q. refl;
          own = rw ((==_iff me me).1 refl) difference;
          others = λ q ne. rw (differ q me ne) (refl, refl);
          received = λ p r q w. let now : ltb r k ≡ true = below r (omega arith) in rw now at w;
          notified = λ r far w.
              let now : leb r k ≡ true = ground (arith, below r (omega arith)) in rw now at w;
          kept = λ p r ne far. refl;
        })
        inv
    where
      below : (r : ℕ) → 2 ^ r < n → ltb r k ≡ true
      below r small_r = elim (dec_lt r k) [
        | yes less ↦ ground arith
        | no ge ↦ absurd (omega (arith, two_pow_mono k r (omega arith)))
      ]

      difference : sub64 (s.partial_scan me) (value me) ≡ sum_below value me
      difference =
          let total =
            sum_at n value s me lt small inv (await k) e ∙ window_whole value me k (omega arith) in
          omega
            (arith, total, sum_below_next value me, sum_below_mono value (me + 1) n (omega arith))

  clear_word :
      (k : ℕ)
      → s.place me ≡ clear k
      → Invariant n value (record (go s me (settle k)) { words = write s.words me k 0 })
  clear_word k e =
      Moves-Invariant n value s _ me (clear k) (settle k)
        (record {
          was = e;
          placed = λ q. refl;
          own = sum_at n value s me lt small inv (clear k) e;
          others = λ q ne. (refl, refl);
          received = λ p r q w. rw ((==_iff me me).1 refl) (taken_round p r w);
          notified = λ r far w. rw (differ (me + 2 ^ r) me (pow_far me r)) w;
          kept = λ p r ne far. rw (differ (p + 2 ^ r) me far) refl;
        })
        inv
    where
      taken_round :
          (p r : ℕ)
          → Word (s.words me r) (window value p r) (sent (s.place p) r) (leb r k) (ltb r k)
          → Word
              (if true && k == r then 0 else s.words me r)
              (window value p r)
              (sent (s.place p) r)
              (leb r k)
              (leb r k)
      taken_round p r w = elim (ℕ_discrete r k) [
        | yes same ↦
            let low : ltb r k ≡ false = ground arith in
            let high : leb r k ≡ true = ground arith in
            let here : (k == r) ≡ true = ground arith in
            rw (here, high) (emptied _ _ _ (rw (low, high) at w))
        | no other ↦
            let same : leb r k ≡ ltb r k = ground arith in
            let there : (k == r) ≡ false = ground arith in rw (there, same) (rw same at w)
      ]

  collect_word :
      (k : ℕ)
      → s.place me ≡ collect k
      → Invariant n value (record (go s me (clear k)) {
        partial_scan =
            set_at s.partial_scan me (add64 (s.partial_scan me) (sub64 (s.words me k) 1));
      })
  collect_word k e =
      Moves-Invariant n value s _ me (collect k) (clear k)
        (record {
          was = e;
          placed = λ q. refl;
          own = rw ((==_iff me me).1 refl) (le, more);
          others = λ q ne. rw (differ q me ne) (refl, refl);
          received = λ p r q w. w;
          notified = λ r far w. w;
          kept = λ p r ne far. refl;
        })
        inv
    where
      le : 2 ^ k ≤ me
      le = (sum_at n value s me lt small inv (collect k) e).0

      more : add64 (s.partial_scan me) (sub64 (s.words me k) 1) ≡ window value me (suc k)
      more =
          let p = me - 2 ^ k in
          let at : p + 2 ^ k ≡ me = omega (arith, le) in
          let low : ltb k k ≡ false = ground arith in
          let high : leb k k ≡ true = ground arith in
          let word = subst (λ q. Into value s p k q) at (inv.between p k (omega arith)) in
          let full = held _ _ _ (rw (low, high) at (rw e at word)) in
          let twice =
            subst (λ q. window value q (suc k) ≡ window value q k + window value p k) at
              (window_twice value p k) in
          omega (
            arith,
            full,
            twice,
            (sum_at n value s me lt small inv (collect k) e).1,
            window_le value n me (suc k) lt,
          )

  send_word : (k : ℕ) → s.place me ≡ notify k → Invariant n value (unit_send n me k s)
  unfolding unit_send
  send_word k e = elim (Bool-cases (ltb (me + 2 ^ k) n)) [
    | inr no_parent ↦ rw no_parent (
        go-Invariant n value s me lt small inv (notify k) (await k) e
          (sum_at n value s me lt small inv (notify k) e) (λ r far. beyond r far no_parent)
          (λ r x b le w. w))
    | inl parent ↦ rw parent (
        Moves-Invariant n value s _ me (notify k) (await k)
          (record {
            was = e;
            placed = λ q. refl;
            own = sum_at n value s me lt small inv (notify k) e;
            others = λ q ne. (refl, refl);
            received = λ p r q w. rw (differ me (me + 2 ^ k) (λ f. pow_far me k (sym f))) w;
            notified = λ r far w. sends r far w;
            kept = λ p r ne far. elsewhere p r ne;
          })
          inv)
  ]
    where
      beyond : (r : ℕ) → me + 2 ^ r < n → ltb (me + 2 ^ k) n ≡ false → leb r k ≡ ltb r k
      beyond r far no_parent = elim (ℕ_discrete r k) [
        | yes same ↦ absurd (let too_far = subst (λ a. me + 2 ^ a < n) same far in ground arith)
        | no ne ↦ ground arith
      ]

      new_word : ℕ → ℕ → ℕ
      new_word q r =
          write s.words (me + 2 ^ k) k
            (add64 (s.words (me + 2 ^ k) k) (add64 (s.partial_scan me) 1)) q r

      sends :
          (r : ℕ)
          → me + 2 ^ r < n
          → Word
              (s.words (me + 2 ^ r) r)
              (window value me r)
              (ltb r k)
              (seen (s.place (me + 2 ^ r)) r)
              (taken (s.place (me + 2 ^ r)) r)
          → Word
              (new_word (me + 2 ^ r) r)
              (window value me r)
              (leb r k)
              (seen (s.place (me + 2 ^ r)) r)
              (taken (s.place (me + 2 ^ r)) r)
      sends r far w = elim (ℕ_discrete r k) [
        | yes same ↦
            let low : ltb r k ≡ false = ground arith in
            let high : leb r k ≡ true = ground arith in
            rw high (filled _ _ _ _ _ (written r same) (rw low at w))
        | no ne ↦
            let same : leb r k ≡ ltb r k = ground arith in
            let there : (me + 2 ^ k == me + 2 ^ r && k == r) ≡ false = ground arith in
            rw (there, same) w
      ]
        where
          written :
              (r : ℕ)
              → r ≡ k
              → s.words (me + 2 ^ r) r ≡ 0
              → new_word (me + 2 ^ r) r ≡ window value me r + 1
          written r same z =
              let own =
                subst (λ a. s.partial_scan me ≡ window value me a) (sym same)
                  (sum_at n value s me lt small inv (notify k) e) in
              let here : (me + 2 ^ k == me + 2 ^ r && k == r) ≡ true = both r same in
              let z' = subst (λ a. s.words (me + 2 ^ a) a ≡ 0) same z in
              rw (here, z', own) (omega (arith, window_le value n me r lt))
            where
              both : (r : ℕ) → r ≡ k → (me + 2 ^ k == me + 2 ^ r && k == r) ≡ true
              both r same =
                  subst (λ a. (me + 2 ^ k == me + 2 ^ a && k == a) ≡ true) (sym same)
                    (rw ((==_iff (me + 2 ^ k) (me + 2 ^ k)).1 refl, (==_iff k k).1 refl))

      elsewhere : (p r : ℕ) → p ≢ me → new_word (p + 2 ^ r) r ≡ s.words (p + 2 ^ r) r
      elsewhere p r ne =
          let there : (me + 2 ^ k == p + 2 ^ r && k == r) ≡ false = apart p r ne in rw there refl
        where
          apart : (p r : ℕ) → p ≢ me → (me + 2 ^ k == p + 2 ^ r && k == r) ≡ false
          apart p r ne = elim (ℕ_discrete k r) [
            | yes same ↦
                let e : (me + 2 ^ k == p + 2 ^ r) ≡ false =
                  subst (λ a. (me + 2 ^ k == p + 2 ^ a) ≡ false) same (ground arith) in
                rw e
            | no other ↦ ground arith
          ]

  -- Each step of a PE keeps the invariant.
  pub unit_step-Invariant :
      (p : Place) → s.place me ≡ p → Invariant n value (unit_step n value me p s)
  unfolding unit_step
  unit_step-Invariant (notify k) e = send_word k e
  unit_step-Invariant (await k) e = elim (Bool-cases (ltb (2 ^ k) n)) [
    | inr last ↦ rw last (finish k e (ground arith))
    | inl more ↦ rw more (elim (Bool-cases (leb (2 ^ k) me)) [
      | inr first ↦ rw first (skip_round n value s me lt small inv k e (ground arith))
      | inl waits ↦ rw waits (elim (Bool-cases (s.words me k == 0)) [
        | inl zero_word ↦ rw zero_word inv
        | inr word ↦ rw word (wake n value s me lt small inv k e (ground arith) (ground arith))
      ])
    ])
  ]
  unit_step-Invariant (collect k) e = collect_word k e
  unit_step-Invariant (clear k) e = clear_word k e
  unit_step-Invariant (settle k) e = elim (Bool-cases (s.words me k == 0)) [
    | inl zero_word ↦ rw zero_word (next_round n value s me lt small inv k e)
    | inr word ↦ rw word inv
  ]
  unit_step-Invariant finished e = inv
