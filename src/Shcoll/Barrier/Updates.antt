-- ===== src/Shcoll/Barrier/Updates.antt =====
-- osss-ucx/src/shcoll/src/barrier.c: the words of `pSync` after one action of the dissemination barrier.
use paw.Prelude.{
  ℕ, suc, ◌+◌, ◌-◌, ◌*◌, ◌%◌, ◌^◌, ◌<◌, ◌≡◌, ◌≢◌, sym, ap, ap₂, ◌∙◌, arith, ℕ_discrete,
}
use paw.Shcoll.{System, ActiveSet, pe_of, write, set_at, add_long}
use paw.Shcoll.Indices.{pe_of-injective}
use paw.Shcoll.Barrier.Ring.{
  behind, past, behind-ahead, ahead-behind, ahead-lt, set_at_same, bump_lt, past_bump, write_hit,
  write_miss,
}
use paw.Shcoll.Barrier.Words.{Inv}

module _ (active : ActiveSet) where
  module _ {s : System} {pos : ℕ → ℕ} (inv : Inv active s pos) (a : ℕ)
      (lt : a < active.pe_size) where
    abbrev pub bump : ℕ → ℕ
    bump = set_at pos a (suc (pos a))

    -- The equation of a word that the action leaves as it is.
    pub words_kept :
        (t : System) (b r : ℕ)
        → b < active.pe_size
        → 2 ^ r < active.pe_size
        → t.sync (pe_of active b) r ≡ s.sync (pe_of active b) r
        → (a ≡ b → pos a ≢ 3 * r + 2)
        → (a ≡ behind active.pe_size r b → pos a ≢ 3 * r)
        → t.sync (pe_of active b) r + past (bump b) (3 * r + 2)
          ≡ past (bump (behind active.pe_size r b)) (3 * r)
    words_kept t b r lt_b lt_r e own before =
        let e1 = past_bump pos a b (3 * r + 2) own in
        let e2 = past_bump pos a (behind active.pe_size r b) (3 * r) before in
        rw (e, e1, e2) (inv.words b r lt_b lt_r)

    sent_hit :
        (t : System) (r : ℕ)
        → pos a ≡ 3 * r
        → 2 ^ r < active.pe_size
        → (let target = pe_of active ((a + 2 ^ r) % active.pe_size) in
            t.sync ≡ write s.sync target r (add_long (s.sync target r) 1))
        → (let b = (a + 2 ^ r) % active.pe_size in
            t.sync (pe_of active b) r + past (bump b) (3 * r + 2)
            ≡ past (bump (behind active.pe_size r b)) (3 * r))
    sent_hit t r at lt_r e =
        let b = (a + 2 ^ r) % active.pe_size in
        let w = inv.words b r (ahead-lt active.pe_size r a lt lt_r) lt_r in
        let back = behind-ahead active.pe_size r a lt lt_r in
        let hit = ap (λ f. f (pe_of active b) r) e ∙ write_hit s.sync (pe_of active b) r _ in
        let own = past_bump pos a b (3 * r + 2) (λ same. omega (arith, at)) in
        let me = set_at_same pos a (suc (pos a)) in
        let w' : s.sync (pe_of active b) r + past (pos b) (3 * r + 2) ≡ past (pos a) (3 * r) =
          rw back at w in
        rw (hit, own, back, me) (ground (arith, w', at))

    pub sent :
        (t : System) (r : ℕ)
        → pos a ≡ 3 * r
        → 2 ^ r < active.pe_size
        → (let target = pe_of active ((a + 2 ^ r) % active.pe_size) in
            t.sync ≡ write s.sync target r (add_long (s.sync target r) 1))
        → (b q : ℕ) → b < active.pe_size
        → 2 ^ q < active.pe_size
        → t.sync (pe_of active b) q + past (bump b) (3 * q + 2)
          ≡ past (bump (behind active.pe_size q b)) (3 * q)
    sent t r at lt_r e b q lt_b lt_q =
        let target = (a + 2 ^ r) % active.pe_size in
        let kept : ((target ≡ b → r ≢ q)
            → t.sync (pe_of active b) q + past (bump b) (3 * q + 2)
              ≡ past (bump (behind active.pe_size q b)) (3 * q)) =
          λ ne.
            words_kept t b q lt_b lt_q
              (ap (λ f. f (pe_of active b) q) e
                ∙ write_miss s.sync (pe_of active target) r _ (pe_of active b) q
                    (λ h. ne (pe_of-injective active target b h)))
              (λ same. omega (arith, at))
              (λ same h.
                let eq : r ≡ q = omega (arith, at, h) in
                ne
                  (ap₂ (λ x y. (x + 2 ^ y) % active.pe_size) same eq
                    ∙ ahead-behind active.pe_size q b lt_b lt_q)
                  eq) in
        elim (ℕ_discrete target b) [
          | no nb ↦ kept (λ h. absurd (nb h))
          | yes eb ↦ elim (ℕ_discrete r q) [
            | no nq ↦ kept (λ h. nq)
            | yes eq ↦ rw (sym eb, sym eq) (sent_hit t r at lt_r e)
          ]
        ]

    cleared_hit :
        (t : System) (r : ℕ)
        → pos a ≡ 3 * r + 2
        → 2 ^ r < active.pe_size
        → t.sync
          ≡ write s.sync (pe_of active a) r (add_long (s.sync (pe_of active a) r) (2 ^ 64 - 1))
        → t.sync (pe_of active a) r + past (bump a) (3 * r + 2)
          ≡ past (bump (behind active.pe_size r a)) (3 * r)
    cleared_hit t r at lt_r e =
        let w = inv.words a r lt lt_r in
        let o = inv.order a r lt lt_r (omega (arith, at)) in
        let hit = ap (λ f. f (pe_of active a) r) e ∙ write_hit s.sync (pe_of active a) r _ in
        let me = set_at_same pos a (suc (pos a)) in
        let there = bump_lt pos a (behind active.pe_size r a) (3 * r) o in
        rw (hit, me) (ground (arith, w, at, o, there))

    pub cleared :
        (t : System) (r : ℕ)
        → pos a ≡ 3 * r + 2
        → 2 ^ r < active.pe_size
        → t.sync
          ≡ write s.sync (pe_of active a) r (add_long (s.sync (pe_of active a) r) (2 ^ 64 - 1))
        → (b q : ℕ) → b < active.pe_size
        → 2 ^ q < active.pe_size
        → t.sync (pe_of active b) q + past (bump b) (3 * q + 2)
          ≡ past (bump (behind active.pe_size q b)) (3 * q)
    cleared t r at lt_r e b q lt_b lt_q =
        let kept : ((a ≡ b → r ≢ q)
            → t.sync (pe_of active b) q + past (bump b) (3 * q + 2)
              ≡ past (bump (behind active.pe_size q b)) (3 * q)) =
          λ ne.
            words_kept t b q lt_b lt_q
              (ap (λ f. f (pe_of active b) q) e
                ∙ write_miss s.sync (pe_of active a) r _ (pe_of active b) q
                    (λ h. ne (pe_of-injective active a b h)))
              (λ same h. ne same (omega (arith, at, h))) (λ same h. omega (arith, at, h)) in
        elim (ℕ_discrete a b) [
          | no nb ↦ kept (λ h. absurd (nb h))
          | yes eb ↦ elim (ℕ_discrete r q) [
            | no nq ↦ kept (λ h. nq)
            | yes eq ↦ rw (sym eb, sym eq) (cleared_hit t r at lt_r e)
          ]
        ]
