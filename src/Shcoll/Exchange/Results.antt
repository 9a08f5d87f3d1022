-- ===== src/Shcoll/Exchange/Results.antt =====
-- osss-ucx/src/shcoll/src: exchanges that count, from the call to the return.
use paw.Prelude.{
  ℕ, ◌^◌, ◌<◌, ◌≤◌, ◌≡◌, ◌≢◌, refl, sym, ◌∙◌, subst, arith, true, false, List, [], ◌==◌, ℕ_discrete,
  dec_lt,
}
use paw.Shcoll.{
  Act, wait_until, long_p, memcpy, fence, Put, System, ActiveSet, pe_of, set_at, perform, act_next,
  step, Turn, move, done, add_long, write,
}
use paw.Shcoll.Exchange.Memory.{Delivered, Kept, Apart}
use paw.Shcoll.Exchange.Pending.{In}
use paw.Shcoll.Exchange.Invariant.{
  Phase, putting, fencing, poking, resetting, over, Schedule, todo_of, counting, poked,
}
use paw.Shcoll.Exchange.Steps.{false-true, true-false}
use paw.Shcoll.Exchange.{counted_exchange}
use paw.Shcoll.{delivery, arrive, to_front, Reach, here, next}
use paw.Shcoll.Exchange.Runs.{Ok, append_nonempty, total_zero}
use paw.Shcoll.Exchange.Delivery.{step-Ok}
use paw.Shcoll.Alltoall.Peers.{Exchange}

-- All members are about to do their lists, the others do nothing, no put is under way, and the word
-- that counts is zero.
pub record Calls (program : ℕ → List Act) (active : ActiveSet) (s : System) : Type 0 where
  pub called : (a : ℕ) → a < active.pe_size → s.todo (pe_of active a) ≡ program a
  pub word_zero : (a : ℕ) → a < active.pe_size → s.sync (pe_of active a) 0 ≡ 0
  pub none_pending : (q : ℕ) → s.pending q ≡ []
  pub outside : (q : ℕ) → ((a : ℕ) → a < active.pe_size → pe_of active a ≢ q) → s.todo q ≡ []

-- The round of two members, from a schedule of an exchange.
round_of :
    (peer : ℕ → ℕ → ℕ → ℕ) (n : ℕ)
    → Exchange peer n
    → (a b : ℕ) → Dec (a < n)
    → Dec (b < n)
    → Dec (a ≡ b)
    → ℕ
unfolding paw.Shcoll.Alltoall.Peers.Exchange
round_of peer n exchange a b (yes lt) (yes lt_b) (no ne) = (exchange.1 a b lt lt_b ne).0
round_of peer n exchange a b (yes lt) (yes lt_b) (yes e) = 0
round_of peer n exchange a b (yes lt) (no out) same = 0
round_of peer n exchange a b (no out) in_b same = 0

round_meets :
    (peer : ℕ → ℕ → ℕ → ℕ) (n : ℕ) (exchange : Exchange peer n) (a b : ℕ) (in_a : Dec (a < n))
    (in_b : Dec (b < n)) (same : Dec (a ≡ b))
    → a < n
    → b < n
    → a ≢ b
    → (let r = round_of peer n exchange a b in_a in_b same in
        (1 ≤ r) × (r < n) × (peer r a n ≡ b) × ((j : ℕ) → 1 ≤ j → j < n → peer j a n ≡ b → j ≡ r))
unfolding paw.Shcoll.Alltoall.Peers.Exchange round_of
round_meets peer n exchange a b (yes lt) (yes lt_b) (no ne) h k d =
    let e = exchange.1 a b lt lt_b ne in (e.1, e.2, e.3, e.4)
round_meets peer n exchange a b (yes lt) (yes lt_b) (yes e) h k d = absurd (d e)
round_meets peer n exchange a b (yes lt) (no out) same h k d = absurd (out k)
round_meets peer n exchange a b (no out) in_b same h k d = absurd (out h)

pub Exchange-Schedule :
    (peer : ℕ → ℕ → ℕ → ℕ) (n : ℕ) (exchange : Exchange peer n)
    → (round : ℕ → ℕ → ℕ) × Schedule n (λ i a. peer i a n) round
unfolding paw.Shcoll.Alltoall.Peers.Exchange
Exchange-Schedule peer n exchange =
    let round =
      λ (a b : ℕ). round_of peer n exchange a b (dec_lt a n) (dec_lt b n) (ℕ_discrete a b) in
    (
      round,
      record {
        meets = λ a b lt lt_b ne.
            let m =
              round_meets peer n exchange a b (dec_lt a n) (dec_lt b n) (ℕ_discrete a b) lt lt_b
                ne in
            (m.0, m.1, m.2);
        partner = λ a i lt one lt_i.
            let (small, ne) = exchange.0 a i lt one lt_i in
            let m =
              round_meets peer n exchange a (peer i a n) (dec_lt a n) (dec_lt (peer i a n) n)
                (ℕ_discrete a (peer i a n)) lt small (λ h. ne (sym h)) in
            (small, ne, sym (m.3 i one lt_i refl));
      },
    )

module _ (peer : ℕ → ℕ → ℕ → ℕ) (dest nelems : ℕ → ℕ) (src : ℕ → ℕ) (active : ActiveSet)
    (exchange : Exchange peer active.pe_size) (few : active.pe_size < 2 ^ 64) where
  abbrev at_size : ℕ → ℕ → ℕ
  at_size i a = peer i a active.pe_size

  not_poked :
      (round : ℕ → ℕ → ℕ) (schedule : Schedule active.pe_size at_size round) (c b : ℕ)
      → c < active.pe_size
      → b < active.pe_size
      → poked active.pe_size round (putting 1) c b ≡ 0
  unfolding poked
  not_poked round schedule c b lt_c lt = elim (ℕ_discrete c b) [
    | yes e ↦ let t : (c == b) ≡ true = ground (arith, e) in rw t refl
    | no ne ↦ let one = (schedule.meets c b lt_c lt ne).0 in ground (arith, one, ne)
  ]

  Reach-Ok :
      {s t : System} (apart : Apart dest nelems src active s.bytes) (round : ℕ → ℕ → ℕ)
      (schedule : Schedule active.pe_size at_size round)
      → Calls (counted_exchange at_size dest nelems src active) active s
      → Reach s t
      → Ok at_size dest nelems src active s.bytes round schedule apart few t
  unfolding counted_exchange Kept
  Reach-Ok {s} apart round schedule calls here = (
    (λ a. putting 1),
    record {
      place = calls.called;
      valid = λ a lt. (omega arith, omega (arith, lt));
      kept = λ a b j lt lt_b lt_j. refl;
      pend = λ a x lt h. absurd (subst (In x) (calls.none_pending (pe_of active a)) h);
      sent = λ a b lt lt_b ne r.
          (let (one, small, there) = schedule.meets a b lt lt_b ne in
            absurd (omega (arith, one, r)));
      own = λ a lt h. absurd (false-true h);
      fenced = λ a b lt lt_b ne h. absurd (false-true h);
      word = λ b lt counts.
          calls.word_zero b lt
          ∙ sym (total_zero _ active.pe_size (λ c lt_c. not_poked round schedule c b lt_c lt));
      heard = λ a b lt lt_b h. absurd (true-false h);
      outside = λ q out. (calls.outside q out, calls.none_pending q);
    },
  )
  Reach-Ok {s} apart round schedule calls (next turn r) =
      step-Ok at_size dest nelems src active s.bytes round schedule apart few turn
        (Reach-Ok apart round schedule calls r)

  over_lem :
      (a : ℕ) (p : Phase)
      → todo_of at_size dest nelems src active (λ q j. 0) (λ x y. 0) a p ≡ []
      → counting p ≡ false
  over_lem a (putting i) e = absurd (append_nonempty _ _ _ e)
  over_lem a fencing e = absurd (cc)
  over_lem a (poking i) e = absurd (append_nonempty _ _ _ e)
  over_lem a resetting e = refl
  over_lem a over e = refl

  pub counted_delivers :
      {s t : System}
      → Apart dest nelems src active s.bytes
      → Calls (counted_exchange at_size dest nelems src active) active s
      → Reach s t
      → (a b : ℕ) → a < active.pe_size
      → b < active.pe_size
      → t.todo (pe_of active b) ≡ []
      → Delivered dest nelems src active s.bytes t.bytes a b
  counted_delivers {s} apart calls run a b lt lt_b returned =
      let (round, schedule) = Exchange-Schedule peer active.pe_size exchange in
      let (ph, inv) = Reach-Ok apart round schedule calls run in
      inv.heard a b lt lt_b (over_lem b (ph b) (sym (inv.place b lt_b) ∙ returned))
