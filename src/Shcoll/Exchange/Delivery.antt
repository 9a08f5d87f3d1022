-- ===== src/Shcoll/Exchange/Delivery.antt =====
-- osss-ucx/src/shcoll/src: what an exchange that counts delivers.
use paw.Prelude.{
  ℕ, ◌^◌, ◌<◌, ◌≡◌, ◌≢◌, refl, sym, ap, ◌∙◌, subst, List, [], ◌∷◌, ◌⊎◌, inl, inr, ℕ_discrete,
}
use paw.Shcoll.{Put, System, ActiveSet, pe_of, set_at, act_next, step, Turn, move}
use paw.Shcoll.Indices.{pe_of-injective}
use paw.Shcoll.Barrier.Ring.{set_at_same, set_at_other}
use paw.Shcoll.Exchange.Memory.{
  Delivered, Apart, copied, copied-Delivered, copied-keeps, copied-Kept,
}
use paw.Shcoll.Exchange.Pending.{In}
use paw.Shcoll.Exchange.Invariant.{Phase, Schedule, the_put, Inv}
use paw.Shcoll.Exchange.Pending.{In-to_front, to_front-In}
use paw.Shcoll.{delivery, arrive, to_front}
use paw.Shcoll.Indices.{member}
use paw.Shcoll.Exchange.Runs.{Ok, member-step}

module _ (peer : ℕ → ℕ → ℕ) (dest nelems : ℕ → ℕ) (src : ℕ → ℕ) (active : ActiveSet)
    (start : ℕ → ℕ → ℕ) (round : ℕ → ℕ → ℕ) (schedule : Schedule active.pe_size peer round)
    (apart : Apart dest nelems src active start) where
  module _ {s : System} {ph : ℕ → Phase} (inv : Inv peer dest nelems src active start round s ph)
      (a : ℕ) (lt : a < active.pe_size) where
    -- The put `p` of member `a` arrives, and `ps` are the others.
    arrival :
        (b : ℕ) (ps : List Put)
        → b < active.pe_size
        → ((x : Put) → In x ps → In x (s.pending (pe_of active a)))
        → ((x : Put)
            → In x (s.pending (pe_of active a))
            → (x ≡ the_put peer dest nelems src active start round a b) ⊎ In x ps)
        → Inv peer dest nelems src active start round
            (arrive (pe_of active a) (the_put peer dest nelems src active start round a b ∷ ps) s)
            ph
    unfolding arrive
    arrival b ps lt_b fewer split =
        let grow = λ (c d : ℕ).
          copied-keeps dest nelems src active start apart s.bytes a b c d lt lt_b inv.kept in
        let left = λ (c : ℕ) (ne : a ≢ c).
          set_at_other s.pending (pe_of active a) (pe_of active c) ps
            (λ h. ne (pe_of-injective active a c h)) in
        let mine = set_at_same s.pending (pe_of active a) ps in
        record {
          place = inv.place;
          valid = inv.valid;
          kept = copied-Kept dest nelems src active start apart s.bytes a b lt inv.kept;
          pend = λ c x lt_c h. elim (ℕ_discrete a c) [
            | yes e ↦ inv.pend c x lt_c (
                subst (λ z. In x (s.pending (pe_of active z))) e
                  (fewer x (
                    subst (In x) mine (
                      subst (λ z. In x (set_at s.pending (pe_of active a) ps (pe_of active z)))
                        (sym e) h))))
            | no ne ↦ inv.pend c x lt_c (subst (In x) (left c ne) h)
          ];
          sent = λ c d lt_c lt_d far r. elim (inv.sent c d lt_c lt_d far r) [
            | inl there ↦ inl (grow c d there)
            | inr under_way ↦ elim (ℕ_discrete a c) [
              | no ne ↦ inr (
                  subst (In (the_put peer dest nelems src active start round c d)) (sym (left c ne))
                    under_way)
              | yes e ↦
                  elim (split (the_put peer dest nelems src active start round c d) (
                    subst
                      (λ z.
                        In (the_put peer dest nelems src active start round c d)
                          (s.pending (pe_of active z)))
                      (sym e) under_way)) [
                        | inl this ↦
                            let is_d : b ≡ d = pe_of-injective active b d (sym (ap Put.pe this)) in
                            inl (
                              subst
                                (λ z.
                                  Delivered dest nelems src active start
                                    (copied dest nelems src active start s.bytes a b) z d)
                                e
                                (subst
                                  (λ z.
                                    Delivered dest nelems src active start
                                      (copied dest nelems src active start s.bytes a b) a z)
                                  is_d
                                  (copied-Delivered dest nelems src active start s.bytes a b lt lt_b
                                    inv.kept)))
                        | inr later ↦ inr (
                            subst
                              (λ z.
                                In (the_put peer dest nelems src active start round c d)
                                  (set_at s.pending (pe_of active a) ps (pe_of active z)))
                              e
                              (subst (In (the_put peer dest nelems src active start round c d))
                                (sym mine) later))
                      ]
            ]
          ];
          own = λ c lt_c h. grow c c (inv.own c lt_c h);
          fenced = λ c d lt_c lt_d far h. grow c d (inv.fenced c d lt_c lt_d far h);
          word = inv.word;
          heard = λ c d lt_c lt_d h. grow c d (inv.heard c d lt_c lt_d h);
          outside = λ q out. (
            (inv.outside q out).0,
            set_at_other s.pending (pe_of active a) q ps (out a lt) ∙ (inv.outside q out).1,
          );
        }

    delivery_cases :
        (k : ℕ) (l : List Put)
        → to_front k (s.pending (pe_of active a)) ≡ l
        → Inv peer dest nelems src active start round (arrive (pe_of active a) l s) ph
    unfolding arrive
    delivery_cases k [] e = inv
    delivery_cases k (p ∷ ps) e =
        let inside = λ (x : Put) (h : In x (p ∷ ps)).
          In-to_front k x (s.pending (pe_of active a)) (subst (In x) (sym e) h) in
        let (b, lt_b, is) = inv.pend a p lt (inside p (inl refl)) in
        subst
          (λ z. Inv peer dest nelems src active start round (arrive (pe_of active a) (z ∷ ps) s) ph)
          (sym is)
          (arrival b ps lt_b (λ x h. inside x (inr h))
            (λ x h. elim (subst (In x) e (to_front-In k x (s.pending (pe_of active a)) h)) [
              | inl same ↦ inl (same ∙ is)
              | inr later ↦ inr later
            ]))

  module _ (few : active.pe_size < 2 ^ 64) where
    pub step-Ok :
        {s : System} (turn : Turn)
        → Ok peer dest nelems src active start round schedule apart few s
        → Ok peer dest nelems src active start round schedule apart few (step turn s)
    unfolding step act_next arrive
    step-Ok {s} (move q) (ph, inv) = elim (member active active.pe_size q) [
      | inl (a, lt, e) ↦
          subst
            (λ x. Ok peer dest nelems src active start round schedule apart few (step (move x) s)) e
            (member-step peer dest nelems src active start round schedule apart few inv a lt (ph a)
              refl (inv.valid a lt))
      | inr out ↦ (
        ph,
        subst (λ t. Inv peer dest nelems src active start round t ph)
            (sym (ap (λ l. act_next q l s) ((inv.outside q out).0))) inv,
      )
    ]
    step-Ok {s} (delivery q k) (ph, inv) = elim (member active active.pe_size q) [
      | inl (a, lt, e) ↦ (
        ph,
        subst (λ x. Inv peer dest nelems src active start round (step (delivery x k) s) ph) e
            (delivery_cases inv a lt k _ refl),
      )
      | inr out ↦ (
        ph,
        subst (λ t. Inv peer dest nelems src active start round t ph)
            (sym (ap (λ l. arrive q (to_front k l) s) ((inv.outside q out).1))) inv,
      )
    ]
