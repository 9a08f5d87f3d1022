-- ===== src/Shcoll/Exchange/Steps.antt =====
-- osss-ucx/src/shcoll/src: the actions of a member of an exchange that counts.
use paw.Prelude.{
  ℕ, suc, ◌-◌, ◌<◌, ◌≤◌, ◌≡◌, ◌≢◌, refl, sym, ap, ◌∙◌, subst, arith, true, false, List, [], ◌∷◌,
  ◌++◌, ◌==◌, if◌then◌else◌, inl, inr, ℕ_discrete, dec_lt,
}
use paw.Shcoll.{Act, memcpy, fence, System, ActiveSet, pe_of, set_at, perform, act_next, step, move}
use paw.Shcoll.Indices.{pe_of-injective}
use paw.Shcoll.Sums.{total}
use paw.Shcoll.Barrier.{for_each}
use paw.Shcoll.Barrier.Ring.{set_at_same, set_at_other}
use paw.Shcoll.Exchange.{put_to, after_fence}
use paw.Shcoll.Exchange.Memory.{Delivered, Kept, Apart}
use paw.Shcoll.Exchange.Pending.{In, added, In-added, added-old, added-new}
use paw.Shcoll.Exchange.Counts.{total_same, total_more}
use paw.Shcoll.Exchange.Invariant.{
  Phase, putting, poking, Schedule, todo_of, IsRound, sent_to, poked_to, has_copied, has_fenced,
  counting, the_put, poked, Inv, advance, at_phase,
}

pub for_each_step :
    (n i : ℕ) (f : ℕ → Act) → i < n → for_each (n - i) i f ≡ f i ∷ for_each (n - suc i) (suc i) f
for_each_step n i f lt = let e : n - i ≡ suc (n - suc i) = omega (arith, lt) in rw e refl

pub for_each_end : (n : ℕ) (f : ℕ → Act) → for_each (n - n) n f ≡ []
for_each_end n f = let e : n - n ≡ 0 = omega arith in rw e refl

pub false-true : false ≢ true
false-true h = cc

pub true-false : true ≢ false
true-false h = cc

module _ (peer : ℕ → ℕ → ℕ) (dest nelems : ℕ → ℕ) (src : ℕ → ℕ) (active : ActiveSet)
    (start : ℕ → ℕ → ℕ) (round : ℕ → ℕ → ℕ) (schedule : Schedule active.pe_size peer round) where
  abbrev pub Holds : System → (ℕ → Phase) → Type 0
  Holds = Inv peer dest nelems src active start round

  abbrev pub count : (ℕ → Phase) → ℕ → ℕ
  count ph b = total (λ c. poked active.pe_size round (ph c) c b) active.pe_size

  abbrev pub to_do : ℕ → Phase → List Act
  to_do = todo_of peer dest nelems src active start round

  pub count_kept :
      (ph : ℕ → Phase) (a : ℕ) (phase : Phase) (b : ℕ)
      → poked_to active.pe_size phase ≡ poked_to active.pe_size (ph a)
      → count (set_at ph a phase) b ≡ count ph b
  unfolding poked
  count_kept ph a phase b e = total_same _ _ active.pe_size (λ c lt.
      at_phase ph a phase
        (λ x p. poked active.pe_size round p x b ≡ poked active.pe_size round (ph x) x b) c
        (rw e refl) (λ ne. refl))

  pub counting_before :
      (ph : ℕ → Phase) (a : ℕ) (phase : Phase) (b : ℕ)
      → (counting phase ≡ true → counting (ph a) ≡ true)
      → counting (set_at ph a phase b) ≡ true
      → counting (ph b) ≡ true
  counting_before ph a phase b h =
      at_phase ph a phase (λ x p. counting p ≡ true → counting (ph x) ≡ true) b h (λ ne k. k)

  poked_now :
      (ph : ℕ → Phase) (a i b : ℕ) (phase : Phase)
      → a < active.pe_size
      → ph a ≡ poking i
      → poked_to active.pe_size phase ≡ suc i
      → 1 ≤ i
      → i < active.pe_size
      → peer i a ≡ b
      → poked active.pe_size round (set_at ph a phase a) a b
        ≡ suc (poked active.pe_size round (ph a) a b)
  unfolding poked
  poked_now ph a i b phase lt e to one lt_i hit =
      let (small, ne, back) = schedule.partner a i lt one lt_i in
      let r : round a b ≡ i = subst (λ z. round a z ≡ i) hit back in
      let far : a ≢ b = (λ h. ne (hit ∙ sym h)) in
      let apart : (a == b) ≡ false = ground (arith, far) in
      rw (set_at_same ph a phase, e, to, apart, r) (ground arith)

  poked_other :
      (ph : ℕ → Phase) (a i b : ℕ) (phase : Phase)
      → a < active.pe_size
      → b < active.pe_size
      → ph a ≡ poking i
      → poked_to active.pe_size phase ≡ suc i
      → peer i a ≢ b
      → poked active.pe_size round phase a b ≡ poked active.pe_size round (ph a) a b
  unfolding poked
  poked_other ph a i b phase lt lt_b e to miss = elim (ℕ_discrete a b) [
    | yes same ↦ let t : (a == b) ≡ true = ground (arith, same) in rw t refl
    | no ne ↦
        let (one, small, there) = schedule.meets a b lt lt_b ne in
        let r : round a b ≢ i = (λ h. miss (ap (λ z. peer z a) (sym h) ∙ there)) in
        let apart : (a == b) ≡ false = ground (arith, ne) in rw (e, to, apart) (ground (arith, r))
  ]

  pub count_poked :
      (ph : ℕ → Phase) (a i b : ℕ) (phase : Phase)
      → a < active.pe_size
      → b < active.pe_size
      → ph a ≡ poking i
      → poked_to active.pe_size phase ≡ suc i
      → 1 ≤ i
      → i < active.pe_size
      → count (set_at ph a phase) b ≡ (if peer i a == b then suc (count ph b) else count ph b)
  count_poked ph a i b phase lt lt_b e to one lt_i = elim (ℕ_discrete (peer i a) b) [
    | yes hit ↦
        let t : (peer i a == b) ≡ true = ground (arith, hit) in
        rw t (
          total_more _ _ active.pe_size a lt
            (λ c lt_c ne.
              ap (λ p. poked active.pe_size round p c b)
                (sym (set_at_other ph a c phase (λ h. ne (sym h)))))
            (poked_now ph a i b phase lt e to one lt_i hit))
    | no miss ↦
        let t : (peer i a == b) ≡ false = ground (arith, miss) in
        rw t (
          total_same _ _ active.pe_size (λ c lt_c.
            at_phase ph a phase
              (λ x p. poked active.pe_size round p x b ≡ poked active.pe_size round (ph x) x b) c
              (poked_other ph a i b phase lt lt_b e to miss) (λ ne. refl)))
  ]

  module _ (apart : Apart dest nelems src active start) {s : System} {ph : ℕ → Phase}
      (inv : Holds s ph) (a : ℕ) (lt : a < active.pe_size) where
    pub word_kept :
        (t : System) (phase : Phase)
        → t.sync ≡ s.sync
        → poked_to active.pe_size phase ≡ poked_to active.pe_size (ph a)
        → (counting phase ≡ true → counting (ph a) ≡ true)
        → (b : ℕ) → b < active.pe_size
        → counting (set_at ph a phase b) ≡ true
        → t.sync (pe_of active b) 0 ≡ count (set_at ph a phase) b
    word_kept t phase sync to before b lt_b counts =
        ap (λ f. f (pe_of active b) 0) sync
        ∙ inv.word b lt_b (counting_before ph a phase b before counts)
        ∙ sym (count_kept ph a phase b to)

    abbrev pub Advanced : System → Type 0
    Advanced t = (phase : Phase) × Holds t (set_at ph a phase)

    pub put-step :
        (i : ℕ)
        → ph a ≡ putting i
        → 1 ≤ i
        → i < active.pe_size
        → Advanced (step (move (pe_of active a)) s)
    unfolding step act_next perform
    put-step i e one lt_i =
        let me = pe_of active a in
        let rest = to_do a (putting (suc i)) in
        let act = put_to peer dest nelems src active a i in
        let todo : s.todo me ≡ act ∷ rest =
          inv.place a lt
          ∙ ap (to_do a) e
          ∙ ap
              (λ l.
                l
                ++ (memcpy (dest a) (src a) (nelems a)
                    ∷ fence
                    ∷ after_fence peer dest nelems src active a))
              (for_each_step active.pe_size i (put_to peer dest nelems src active a) lt_i) in
        let t = perform me act rest s in
        let q = peer i a in
        let (lt_q, ne_q, back) = schedule.partner a i lt one lt_i in
        let new = the_put peer dest nelems src active start round a q in
        (
          putting (suc i),
          subst (λ l. Holds (act_next me l s) (set_at ph a (putting (suc i)))) (sym todo)
              (advance peer dest nelems src active start round {s = s} {t = t} a (putting (suc i))
                inv lt refl (omega arith, lt_i) inv.kept (λ c d h. h)
                (λ c x lt_c h. elim (In-added s.pending me (pe_of active c) new x h) [
                  | inl old ↦ inv.pend c x lt_c old
                  | inr (same, is) ↦ (
                    q,
                    lt_q,
                    is
                        ∙ ap (λ z. the_put peer dest nelems src active start round z q)
                            (pe_of-injective active a c same),
                  )
                ])
                (λ c x h. added-old s.pending me (pe_of active c) new x h)
                (λ p out. set_at_other s.pending me p (s.pending me ++ (new ∷ [])) (out a lt))
                (λ b lt_b ne r. elim (dec_lt (round a b) i) [
                  | yes before ↦ elim (inv.sent a b lt lt_b ne (rw e before)) [
                    | inl d ↦ inl d
                    | inr h ↦ inr (
                        added-old s.pending me me new
                          (the_put peer dest nelems src active start round a b) h)
                  ]
                  | no now ↦
                      let (one_b, small, there) = schedule.meets a b lt lt_b ne in
                      let this : round a b ≡ i = omega (arith, r, now) in
                      let is_b : q ≡ b = ap (λ z. peer z a) (sym this) ∙ there in
                      inr (
                        subst
                          (λ z.
                            In (the_put peer dest nelems src active start round a z)
                              (added s.pending me new me))
                          is_b (added-new s.pending me new))
                ])
                (λ h. absurd (false-true h)) (λ b lt_b ne h. absurd (false-true h))
                (word_kept t (putting (suc i)) refl (rw e refl) (λ h. rw e refl))
                (λ c lt_c h. absurd (true-false h))),
        )

    -- What `advance` wants where no put is sent and memory stays.
    pub plain :
        (t : System) (phase : Phase)
        → t.todo ≡ set_at s.todo (pe_of active a) (to_do a phase)
        → t.pending ≡ s.pending
        → t.bytes ≡ s.bytes
        → IsRound active.pe_size phase
        → sent_to active.pe_size phase ≡ sent_to active.pe_size (ph a)
        → (has_copied phase ≡ true → has_copied (ph a) ≡ true)
        → ((b : ℕ)
            → b < active.pe_size
            → a ≢ b
            → has_fenced phase ≡ true
            → Delivered dest nelems src active start s.bytes a b)
        → ((b : ℕ)
            → b < active.pe_size
            → counting (set_at ph a phase b) ≡ true
            → t.sync (pe_of active b) 0 ≡ count (set_at ph a phase) b)
        → ((c : ℕ)
            → c < active.pe_size
            → counting phase ≡ false
            → Delivered dest nelems src active start s.bytes c a)
        → Advanced t
    plain t phase todo pending bytes valid same_sent copied_too fenced word heard = (
      phase,
      advance peer dest nelems src active start round {s = s} {t = t} a phase inv lt todo valid
          (subst (Kept dest nelems src active start) (sym bytes) inv.kept)
          (λ c d h. subst (λ m. Delivered dest nelems src active start m c d) (sym bytes) h)
          (λ c x lt_c h. inv.pend c x lt_c (subst (λ f. In x (f (pe_of active c))) pending h))
          (λ c x h. subst (λ f. In x (f (pe_of active c))) (sym pending) h)
          (λ q out. ap (λ f. f q) pending)
          (λ b lt_b ne r. elim (inv.sent a b lt lt_b ne (subst (λ k. round a b < k) same_sent r)) [
            | inl d ↦ inl (subst (λ m. Delivered dest nelems src active start m a b) (sym bytes) d)
            | inr h ↦ inr (
                subst
                  (λ f.
                    In (the_put peer dest nelems src active start round a b) (f (pe_of active a)))
                  (sym pending) h)
          ])
          (λ h.
            subst (λ m. Delivered dest nelems src active start m a a) (sym bytes)
              (inv.own a lt (copied_too h)))
          (λ b lt_b ne h.
            subst (λ m. Delivered dest nelems src active start m a b) (sym bytes)
              (fenced b lt_b ne h))
          word
          (λ c lt_c h.
            subst (λ m. Delivered dest nelems src active start m c a) (sym bytes) (heard c lt_c h)),
    )
