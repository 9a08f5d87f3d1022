-- ===== src/Shcoll/Exchange/Runs.antt =====
-- osss-ucx/src/shcoll/src: whole runs of an exchange that counts.
use paw.Prelude.{
  ℕ, zero, suc, ◌-◌, ◌^◌, ◌<◌, ◌≡◌, ◌≢◌, refl, sym, ap, ◌∙◌, subst, arith, false, List, [], ◌∷◌,
  ◌++◌, ◌==◌, ℕ_discrete, dec_lt,
}
use paw.Sync.{cmp_eq, compare_op}
use paw.Shcoll.{
  Act, wait_until, long_p, fence, Put, System, ActiveSet, pe_of, set_at, perform, act_next, step,
  move, done,
}
use paw.Shcoll.Sums.{total}
use paw.Shcoll.Exchange.{poke}
use paw.Shcoll.Exchange.Memory.{Apart}
use paw.Shcoll.Exchange.Invariant.{
  Phase, putting, fencing, poking, resetting, over, Schedule, IsRound, Inv,
}
use paw.Shcoll.Exchange.Steps.{for_each_end}
use paw.Shcoll.Exchange.Moves.{copy-step, fence-step, poke-step, wait-step, reset-step, todo_at}
use paw.Shcoll.Exchange.Steps.{put-step}

pub append_nonempty : (xs ys : List Act) (y : Act) → xs ++ (y ∷ ys) ≢ []
append_nonempty [] ys y e = cc
append_nonempty (x ∷ xs) ys y e = cc

pub total_zero : (f : ℕ → ℕ) (n : ℕ) → ((c : ℕ) → c < n → f c ≡ 0) → total f n ≡ 0
unfolding total
total_zero f zero none_set = refl
total_zero f (suc n) none_set =
    let rest = total_zero f n (λ c lt. none_set c (omega (arith, lt))) in
    let top = none_set n (omega arith) in omega (arith, rest, top)

module _ (peer : ℕ → ℕ → ℕ) (dest nelems : ℕ → ℕ) (src : ℕ → ℕ) (active : ActiveSet)
    (start : ℕ → ℕ → ℕ) (round : ℕ → ℕ → ℕ) (schedule : Schedule active.pe_size peer round)
    (apart : Apart dest nelems src active start) (few : active.pe_size < 2 ^ 64) where
  abbrev pub Ok : System → Type 0
  Ok s = (ph : ℕ → Phase) × Inv peer dest nelems src active start round s ph

  module _ {s : System} {ph : ℕ → Phase} (inv : Inv peer dest nelems src active start round s ph)
      (a : ℕ) (lt : a < active.pe_size) where
    after :
        {t : System}
        → (phase : Phase) × Inv peer dest nelems src active start round t (set_at ph a phase)
        → Ok t
    after h = (_, h.1)

    stays :
        (act : Act) (rest : List Act)
        → s.todo (pe_of active a) ≡ act ∷ rest
        → perform (pe_of active a) act rest s ≡ s
        → Ok (step (move (pe_of active a)) s)
    unfolding step act_next
    stays act rest todo same = (
      ph,
      subst (λ t. Inv peer dest nelems src active start round t ph)
          (sym (ap (λ l. act_next (pe_of active a) l s) todo ∙ same)) inv,
    )

    fence_stays :
        (rest : List Act) (p : Put) (ps : List Put)
        → s.pending (pe_of active a) ≡ p ∷ ps
        → perform (pe_of active a) fence rest s ≡ s
    unfolding perform
    fence_stays rest p ps e = ap (λ l. elim l [ [] ↦ done (pe_of active a) rest s | q ∷ qs ↦ s ]) e

    wait_stays :
        (rest : List Act) (v : ℕ)
        → s.sync (pe_of active a) 0 ≢ v
        → perform (pe_of active a) (wait_until 0 cmp_eq v) rest s ≡ s
    unfolding perform compare_op
    wait_stays rest v ne =
        let t : (s.sync (pe_of active a) 0 == v) ≡ false = ground (arith, ne) in rw t refl

    fence_cases :
        (l : List Put)
        → s.pending (pe_of active a) ≡ l
        → ph a ≡ fencing
        → Ok (step (move (pe_of active a)) s)
    fence_cases [] e f =
        after (fence-step peer dest nelems src active start round schedule apart few inv a lt f e)
    fence_cases (p ∷ ps) e f =
        stays fence _
          (todo_at peer dest nelems src active start round schedule apart few inv a lt fencing f)
          (fence_stays _ p ps e)

    pub member-step :
        (p : Phase) → ph a ≡ p → IsRound active.pe_size p → Ok (step (move (pe_of active a)) s)
    unfolding step act_next
    member-step (putting i) e (one, le) = elim (dec_lt i active.pe_size) [
      | yes lt_i ↦
          after
            (put-step peer dest nelems src active start round schedule apart inv a lt i e one lt_i)
      | no top ↦ after (
          copy-step peer dest nelems src active start round schedule apart few inv a lt
            (e ∙ ap putting (omega (arith, le, top))))
    ]
    member-step fencing e valid = fence_cases _ refl e
    member-step (poking i) e (one, le) = elim (dec_lt i active.pe_size) [
      | yes lt_i ↦ after (
          poke-step peer dest nelems src active start round schedule apart few inv a lt i e one
            lt_i)
      | no top ↦
          let e' : ph a ≡ poking active.pe_size = e ∙ ap poking (omega (arith, le, top)) in
          elim (ℕ_discrete (s.sync (pe_of active a) 0) (active.pe_size - 1)) [
            | yes full ↦ after (
                wait-step peer dest nelems src active start round schedule apart few inv a lt e'
                  full)
            | no short ↦
                stays (wait_until 0 cmp_eq (active.pe_size - 1)) (long_p 0 0 (pe_of active a) ∷ [])
                  (todo_at peer dest nelems src active start round schedule apart few inv a lt
                      (poking active.pe_size) e'
                    ∙ ap
                        (λ l.
                          l
                          ++ (wait_until 0 cmp_eq (active.pe_size - 1)
                              ∷ long_p 0 0 (pe_of active a)
                              ∷ []))
                        (for_each_end active.pe_size (poke peer dest nelems src active a)))
                  (wait_stays _ (active.pe_size - 1) short)
          ]
    ]
    member-step resetting e valid =
        after (reset-step peer dest nelems src active start round schedule apart few inv a lt e)
    member-step over e valid = (
      ph,
      subst (λ t. Inv peer dest nelems src active start round t ph)
          (sym (
            ap (λ l. act_next (pe_of active a) l s)
              (todo_at peer dest nelems src active start round schedule apart few inv a lt over e)))
          inv,
    )
