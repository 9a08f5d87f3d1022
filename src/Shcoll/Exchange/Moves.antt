-- ===== src/Shcoll/Exchange/Moves.antt =====
-- osss-ucx/src/shcoll/src: the local actions of a member of an exchange that counts.
use paw.Prelude.{
  ℕ, suc, ◌+◌, ◌-◌, ◌^◌, ◌<◌, ◌≤◌, ◌≡◌, ◌≢◌, refl, sym, ap, ◌∙◌, subst, arith, true, false, List,
  [], ◌∷◌, ◌++◌, ◌==◌, if◌then◌else◌, inl, inr, ℕ_discrete,
}
use paw.Sync.{cmp_eq, compare_op}
use paw.Shcoll.{
  Act, wait_until, long_p, memcpy, fence, System, ActiveSet, pe_of, set_at, perform, act_next, step,
  move, done, add_long, write,
}
use paw.Shcoll.Indices.{pe_of-injective}
use paw.Shcoll.Barrier.Ring.{write_hit, write_miss}
use paw.Shcoll.Exchange.{put_to, poke, after_fence}
use paw.Shcoll.Exchange.Memory.{Delivered, Apart, copied-Delivered, copied-keeps, copied-Kept}
use paw.Shcoll.Exchange.Pending.{In}
use paw.Shcoll.Exchange.Counts.{total_few, total_missing_two}
use paw.Shcoll.Exchange.Invariant.{
  Phase, putting, fencing, poking, resetting, over, Schedule, todo_of, has_fenced, counting, poked,
  Inv, advance,
}
use paw.Shcoll.Exchange.Steps.{
  for_each_step, for_each_end, false-true, true-false, count, Advanced, plain, word_kept,
  count_poked, counting_before, count_kept,
}

-- A member that has poked another one has fenced.
poked-fenced :
    (n : ℕ) (round : ℕ → ℕ → ℕ) (phase : Phase) (a b : ℕ)
    → 1 ≤ round a b
    → poked n round phase a b ≡ 1
    → has_fenced phase ≡ true
unfolding poked
poked-fenced n round (putting i) a b one h = absurd (ground (arith, one, h))
poked-fenced n round fencing a b one h = absurd (ground (arith, one, h))
poked-fenced n round (poking i) a b one h = refl
poked-fenced n round resetting a b one h = refl
poked-fenced n round over a b one h = refl

poked-le : (n : ℕ) (round : ℕ → ℕ → ℕ) (phase : Phase) (a b : ℕ) → poked n round phase a b ≤ 1
unfolding poked
poked-le n round phase a b = ground arith

poked_self : (n : ℕ) (round : ℕ → ℕ → ℕ) (phase : Phase) (a : ℕ) → poked n round phase a a ≡ 0
unfolding poked
poked_self n round phase a = ground arith

poke_counts : (word old new : ℕ) → word ≡ old → new ≡ suc old → new < 2 ^ 64 → add_long word 1 ≡ new
poke_counts word old new e more small =
    let below : word + 1 < 2 ^ 64 = omega (arith, e, more, small) in omega (arith, e, more, small)

module _ (peer : ℕ → ℕ → ℕ) (dest nelems : ℕ → ℕ) (src : ℕ → ℕ) (active : ActiveSet)
    (start : ℕ → ℕ → ℕ) (round : ℕ → ℕ → ℕ) (schedule : Schedule active.pe_size peer round)
    (apart : Apart dest nelems src active start) (few : active.pe_size < 2 ^ 64) {s : System}
    {ph : ℕ → Phase} (inv : Inv peer dest nelems src active start round s ph) (a : ℕ)
    (lt : a < active.pe_size) where
  abbrev pub Next : System → Type 0
  Next = Advanced peer dest nelems src active start round schedule apart inv a lt

  -- What the member has to do, after the equation for its phase.
  pub todo_at :
      (phase : Phase)
      → ph a ≡ phase
      → s.todo (pe_of active a) ≡ todo_of peer dest nelems src active start round a phase
  todo_at phase e = inv.place a lt ∙ ap (todo_of peer dest nelems src active start round a) e

  pub from_todo :
      (act : Act) (rest : List Act)
      → s.todo (pe_of active a) ≡ act ∷ rest
      → Next (perform (pe_of active a) act rest s)
      → Next (step (move (pe_of active a)) s)
  unfolding step act_next
  from_todo act rest todo h = subst (λ l. Next (act_next (pe_of active a) l s)) (sym todo) h

  pub copy-step : ph a ≡ putting active.pe_size → Next (step (move (pe_of active a)) s)
  unfolding perform
  copy-step e =
      let rest = fence ∷ after_fence peer dest nelems src active a in
      let act = memcpy (dest a) (src a) (nelems a) in
      let todo : s.todo (pe_of active a) ≡ act ∷ rest =
        todo_at (putting active.pe_size) e
        ∙ ap (λ l. l ++ (act ∷ rest))
            (for_each_end active.pe_size (put_to peer dest nelems src active a)) in
      from_todo act rest todo (
        fencing,
        advance peer dest nelems src active start round {s = s}
            {t = perform (pe_of active a) act rest s} a fencing inv lt refl tt
            (copied-Kept dest nelems src active start apart s.bytes a a lt inv.kept)
            (λ c d. copied-keeps dest nelems src active start apart s.bytes a a c d lt lt inv.kept)
            (λ c x lt_c h. inv.pend c x lt_c h) (λ c x h. h) (λ q out. refl)
            (λ b lt_b ne r. elim (inv.sent a b lt lt_b ne (rw e r)) [
              | inl d ↦
                  inl (
                    copied-keeps dest nelems src active start apart s.bytes a a a b lt lt inv.kept
                      d)
              | inr h ↦ inr h
            ])
            (λ h. copied-Delivered dest nelems src active start s.bytes a a lt lt inv.kept)
            (λ b lt_b ne h. absurd (false-true h))
            (word_kept peer dest nelems src active start round schedule apart inv a lt
              (perform (pe_of active a) act rest s) fencing refl (rw e refl) (λ h. rw e refl))
            (λ c lt_c h. absurd (true-false h)),
      )

  pub fence-step :
      ph a ≡ fencing → s.pending (pe_of active a) ≡ [] → Next (step (move (pe_of active a)) s)
  unfolding perform
  fence-step e none_left =
      let rest = after_fence peer dest nelems src active a in
      let t = done (pe_of active a) rest s in
      let h : Next t =
        plain peer dest nelems src active start round schedule apart inv a lt t (poking 1) refl refl
          refl (omega arith, omega (arith, lt)) (rw e refl) (λ k. rw e refl)
          (λ b lt_b ne k.
            let (one, small, there) = schedule.meets a b lt lt_b ne in
            elim (inv.sent a b lt lt_b ne (rw e small)) [
              | inl d ↦ d
              | inr i ↦ absurd (subst (In _) none_left i)
            ])
          (word_kept peer dest nelems src active start round schedule apart inv a lt t (poking 1)
            refl (rw e refl) (λ k. rw e refl))
          (λ c lt_c k. absurd (true-false k)) in
      from_todo fence rest (todo_at fencing e)
        (subst (λ ps. Next (elim ps [ [] ↦ t | p ∷ more ↦ s ])) (sym none_left) h)

  -- Each word counts less than it can hold.
  count_small :
      (phases : ℕ → Phase) (b : ℕ)
      → count peer dest nelems src active start round schedule phases b ≤ active.pe_size
  count_small phases b =
      total_few _ active.pe_size (λ c lt_c. poked-le active.pe_size round (phases c) c b)

  pub poke-step :
      (i : ℕ) → ph a ≡ poking i → 1 ≤ i → i < active.pe_size → Next (step (move (pe_of active a)) s)
  unfolding perform
  poke-step i e one lt_i =
      let q = peer i a in
      let (lt_q, ne_q, back) = schedule.partner a i lt one lt_i in
      let rest = todo_of peer dest nelems src active start round a (poking (suc i)) in
      let act = poke peer dest nelems src active a i in
      let todo : s.todo (pe_of active a) ≡ act ∷ rest =
        todo_at (poking i) e
        ∙ ap
            (λ l.
              l ++ (wait_until 0 cmp_eq (active.pe_size - 1) ∷ long_p 0 0 (pe_of active a) ∷ []))
            (for_each_step active.pe_size i (poke peer dest nelems src active a) lt_i) in
      let t = perform (pe_of active a) act rest s in
      from_todo act rest todo (
        plain peer dest nelems src active start round schedule apart inv a lt t (poking (suc i))
          refl refl refl (omega arith, lt_i) (rw e refl) (λ k. rw e refl)
          (λ b lt_b ne k. inv.fenced a b lt lt_b ne (rw e refl))
          (λ b lt_b counts.
            let c =
              count_poked peer dest nelems src active start round schedule ph a i b (poking (suc i))
                lt lt_b e refl one lt_i in
            let w = inv.word b lt_b (
              counting_before peer dest nelems src active start round schedule ph a (poking (suc i))
                b (λ k. rw e refl) counts) in
            let small = count_small (set_at ph a (poking (suc i))) b in
            elim (ℕ_discrete q b) [
              | yes hit ↦
                  let t1 : (q == b) ≡ true = ground (arith, hit) in
                  let c1 = rw t1 at c in
                  let there : write s.sync (pe_of active q) 0
                        (add_long (s.sync (pe_of active q) 0) 1) (pe_of active b) 0
                      ≡ add_long (s.sync (pe_of active b) 0) 1 =
                    subst
                      (λ z.
                        write s.sync (pe_of active q) 0 (add_long (s.sync (pe_of active q) 0) 1)
                          (pe_of active z) 0
                        ≡ add_long (s.sync (pe_of active z) 0) 1)
                      hit
                      (write_hit s.sync (pe_of active q) 0
                        (add_long (s.sync (pe_of active q) 0) 1)) in
                  there
                  ∙ poke_counts (s.sync (pe_of active b) 0) _ _ w c1 (omega (arith, small, few))
              | no miss ↦
                  let t1 : (q == b) ≡ false = ground (arith, miss) in
                  let c1 = rw t1 at c in
                  write_miss s.sync (pe_of active q) 0 (add_long (s.sync (pe_of active q) 0) 1)
                    (pe_of active b) 0 (λ h. absurd (miss (pe_of-injective active q b h)))
                  ∙ w
                  ∙ sym c1
            ])
          (λ c lt_c k. absurd (true-false k)))

  -- A full count has heard from every other member.
  all_heard :
      ph a ≡ poking active.pe_size
      → s.sync (pe_of active a) 0 ≡ active.pe_size - 1
      → (c : ℕ) → c < active.pe_size
      → Delivered dest nelems src active start s.bytes c a
  all_heard e full c lt_c = elim (ℕ_discrete c a) [
    | yes same ↦
        subst (λ z. Delivered dest nelems src active start s.bytes z a) (sym same)
          (inv.own a lt (rw e refl))
    | no ne ↦
        let (one, small, there) = schedule.meets c a lt_c lt ne in
        let w = inv.word a lt (rw e refl) in
        let le = poked-le active.pe_size round (ph c) c a in
        elim (ℕ_discrete (poked active.pe_size round (ph c) c a) 0) [
          | yes zero_c ↦
              let short =
                total_missing_two (λ x. poked active.pe_size round (ph x) x a) active.pe_size c a
                  (λ d lt_d. poked-le active.pe_size round (ph d) d a) lt_c lt ne zero_c
                  (poked_self active.pe_size round (ph a) a) in
              absurd (omega (arith, short, w, full))
          | no set ↦
              inv.fenced c a lt_c lt ne
                (poked-fenced active.pe_size round (ph c) c a one (omega (arith, le, set)))
        ]
  ]

  pub wait-step :
      ph a ≡ poking active.pe_size
      → s.sync (pe_of active a) 0 ≡ active.pe_size - 1
      → Next (step (move (pe_of active a)) s)
  unfolding perform compare_op
  wait-step e full =
      let rest = long_p 0 0 (pe_of active a) ∷ [] in
      let act = wait_until 0 cmp_eq (active.pe_size - 1) in
      let todo : s.todo (pe_of active a) ≡ act ∷ rest =
        todo_at (poking active.pe_size) e
        ∙ ap (λ l. l ++ (act ∷ rest))
            (for_each_end active.pe_size (poke peer dest nelems src active a)) in
      let t = done (pe_of active a) rest s in
      let h : Next t =
        plain peer dest nelems src active start round schedule apart inv a lt t resetting refl refl
          refl tt (rw e refl) (λ k. rw e refl)
          (λ b lt_b ne k. inv.fenced a b lt lt_b ne (rw e refl))
          (word_kept peer dest nelems src active start round schedule apart inv a lt t resetting
            refl (rw e refl) (λ k. absurd (false-true k)))
          (λ c lt_c k. all_heard e full c lt_c) in
      let holds : (s.sync (pe_of active a) 0 == active.pe_size - 1) ≡ true = ground (arith, full) in
      from_todo act rest todo (subst (λ z. Next (if z then t else s)) (sym holds) h)

  pub reset-step : ph a ≡ resetting → Next (step (move (pe_of active a)) s)
  unfolding perform
  reset-step e =
      let t = perform (pe_of active a) (long_p 0 0 (pe_of active a)) [] s in
      from_todo (long_p 0 0 (pe_of active a)) [] (todo_at resetting e) (
        plain peer dest nelems src active start round schedule apart inv a lt t over refl refl refl
          tt (rw e refl) (λ k. rw e refl) (λ b lt_b ne k. inv.fenced a b lt lt_b ne (rw e refl))
          (λ b lt_b counts.
            let before =
              counting_before peer dest nelems src active start round schedule ph a over b
                (λ k. absurd (false-true k)) counts in
            let far : a ≢ b =
              (λ h. true-false (sym before ∙ subst (λ z. counting (ph z) ≡ false) h (rw e refl))) in
            write_miss s.sync (pe_of active a) 0 0 (pe_of active b) 0
              (λ h. absurd (far (pe_of-injective active a b h)))
            ∙ inv.word b lt_b before
            ∙ sym (
                count_kept peer dest nelems src active start round schedule ph a over b
                  (rw e refl)))
          (λ c lt_c k. inv.heard c a lt_c lt (rw e refl)))
