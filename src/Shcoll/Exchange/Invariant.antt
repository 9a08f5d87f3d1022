-- ===== src/Shcoll/Exchange/Invariant.antt =====
-- osss-ucx/src/shcoll/src: what holds all through an exchange that counts.
use paw.Prelude.{
  ℕ, ◌-◌, ◌<◌, ◌≤◌, ◌≡◌, ◌≢◌, sym, ap, ◌∙◌, subst, Bool, true, false, List, [], ◌∷◌, ◌++◌, ltb,
  ◌==◌, if◌then◌else◌, ◌⊎◌, inl, inr, ℕ_discrete,
}
use paw.Sync.{cmp_eq}
use paw.Shcoll.{Act, wait_until, long_p, memcpy, fence, Put, System, ActiveSet, pe_of, set_at}
use paw.Shcoll.Indices.{pe_of-injective}
use paw.Shcoll.Sums.{total}
use paw.Shcoll.Barrier.{for_each}
use paw.Shcoll.Barrier.Ring.{set_at_same, set_at_other}
use paw.Shcoll.Exchange.{put_to, poke, after_fence}
use paw.Shcoll.Exchange.Memory.{Delivered, Kept}
use paw.Shcoll.Exchange.Pending.{In}

-- Where a member is. The number is the next round.
pub data Phase : Type 0 where
  putting : ℕ → Phase
  fencing : Phase
  poking : ℕ → Phase
  resetting : Phase
  over : Phase

-- `round a b` is the round in which member `a` meets member `b`.
pub record Schedule (n : ℕ) (peer : ℕ → ℕ → ℕ) (round : ℕ → ℕ → ℕ) : Type 0 where
  pub meets :
      (a b : ℕ)
      → a < n
      → b < n
      → a ≢ b
      → (1 ≤ round a b) × (round a b < n) × (peer (round a b) a ≡ b)
  pub partner :
      (a i : ℕ) → a < n → 1 ≤ i → i < n → (peer i a < n) × (peer i a ≢ a) × (round a (peer i a) ≡ i)

abbrev pub IsRound : ℕ → Phase → Type 0
IsRound n (putting i) = (1 ≤ i) × (i ≤ n)
IsRound n (poking i) = (1 ≤ i) × (i ≤ n)
IsRound n _ = Unit

abbrev pub sent_to : ℕ → Phase → ℕ
sent_to n (putting i) = i
sent_to n _ = n

abbrev pub poked_to : ℕ → Phase → ℕ
poked_to n (putting i) = 1
poked_to n fencing = 1
poked_to n (poking i) = i
poked_to n _ = n

abbrev pub has_copied : Phase → Bool
has_copied (putting i) = false
has_copied _ = true

abbrev pub has_fenced : Phase → Bool
has_fenced (putting i) = false
has_fenced fencing = false
has_fenced _ = true

abbrev pub counting : Phase → Bool
counting resetting = false
counting over = false
counting _ = true

-- Whether member `a` has poked member `b`.
unfoldable pub poked : ℕ → (ℕ → ℕ → ℕ) → Phase → ℕ → ℕ → ℕ
poked n round phase a b = if a == b then 0 else if ltb (round a b) (poked_to n phase) then 1 else 0

pub at_phase :
    (ph : ℕ → Phase) (a : ℕ) (phase : Phase) (P : ℕ → Phase → Type 0) (c : ℕ)
    → P a phase
    → (a ≢ c → P c (ph c))
    → P c (set_at ph a phase c)
at_phase ph a phase P c here there = elim (ℕ_discrete a c) [
  | yes e ↦
      subst (λ x. P x (set_at ph a phase x)) e (subst (P a) (sym (set_at_same ph a phase)) here)
  | no ne ↦ subst (P c) (sym (set_at_other ph a c phase ne)) (there ne)
]

module _ (peer : ℕ → ℕ → ℕ) (dest nelems : ℕ → ℕ) (src : ℕ → ℕ) (active : ActiveSet)
    (start : ℕ → ℕ → ℕ) (round : ℕ → ℕ → ℕ) where
  abbrev pub todo_of : ℕ → Phase → List Act
  todo_of a (putting i) =
      for_each (active.pe_size - i) i (put_to peer dest nelems src active a)
      ++ (memcpy (dest a) (src a) (nelems a) ∷ fence ∷ after_fence peer dest nelems src active a)
  todo_of a fencing = fence ∷ after_fence peer dest nelems src active a
  todo_of a (poking i) =
      for_each (active.pe_size - i) i (poke peer dest nelems src active a)
      ++ (wait_until 0 cmp_eq (active.pe_size - 1) ∷ long_p 0 0 (pe_of active a) ∷ [])
  todo_of a resetting = long_p 0 0 (pe_of active a) ∷ []
  todo_of a over = []

  abbrev pub the_put : ℕ → ℕ → Put
  the_put a b = record { dest = dest a; source = src b; nbytes = nelems a; pe = pe_of active b }

  pub record Inv (s : System) (ph : ℕ → Phase) : Type 0 where
    pub place : (a : ℕ) → a < active.pe_size → s.todo (pe_of active a) ≡ todo_of a (ph a)
    pub valid : (a : ℕ) → a < active.pe_size → IsRound active.pe_size (ph a)
    pub kept : Kept dest nelems src active start s.bytes
    pub pend :
        (a : ℕ) (x : Put)
        → a < active.pe_size
        → In x (s.pending (pe_of active a))
        → (b : ℕ) × (b < active.pe_size) × (x ≡ the_put a b)
    pub sent :
        (a b : ℕ)
        → a < active.pe_size
        → b < active.pe_size
        → a ≢ b
        → round a b < sent_to active.pe_size (ph a)
        → Delivered dest nelems src active start s.bytes a b
          ⊎ In (the_put a b) (s.pending (pe_of active a))
    pub own :
        (a : ℕ)
        → a < active.pe_size
        → has_copied (ph a) ≡ true
        → Delivered dest nelems src active start s.bytes a a
    pub fenced :
        (a b : ℕ)
        → a < active.pe_size
        → b < active.pe_size
        → a ≢ b
        → has_fenced (ph a) ≡ true
        → Delivered dest nelems src active start s.bytes a b
    pub word :
        (b : ℕ)
        → b < active.pe_size
        → counting (ph b) ≡ true
        → s.sync (pe_of active b) 0
          ≡ total (λ a. poked active.pe_size round (ph a) a b) active.pe_size
    pub heard :
        (a b : ℕ)
        → a < active.pe_size
        → b < active.pe_size
        → counting (ph b) ≡ false
        → Delivered dest nelems src active start s.bytes a b
    pub outside :
        (q : ℕ)
        → ((a : ℕ) → a < active.pe_size → pe_of active a ≢ q)
        → (s.todo q ≡ []) × (s.pending q ≡ [])

  -- One action of member `a`, with which it comes to `phase`.
  pub advance :
      {s t : System} {ph : ℕ → Phase} (a : ℕ) (phase : Phase)
      → Inv s ph
      → a < active.pe_size
      → t.todo ≡ set_at s.todo (pe_of active a) (todo_of a phase)
      → IsRound active.pe_size phase
      → Kept dest nelems src active start t.bytes
      → ((c d : ℕ)
          → Delivered dest nelems src active start s.bytes c d
          → Delivered dest nelems src active start t.bytes c d)
      → ((c : ℕ) (x : Put)
          → c < active.pe_size
          → In x (t.pending (pe_of active c))
          → (b : ℕ) × (b < active.pe_size) × (x ≡ the_put c b))
      → ((c : ℕ) (x : Put) → In x (s.pending (pe_of active c)) → In x (t.pending (pe_of active c)))
      → ((q : ℕ) → ((c : ℕ) → c < active.pe_size → pe_of active c ≢ q) → t.pending q ≡ s.pending q)
      → ((b : ℕ)
          → b < active.pe_size
          → a ≢ b
          → round a b < sent_to active.pe_size phase
          → Delivered dest nelems src active start t.bytes a b
            ⊎ In (the_put a b) (t.pending (pe_of active a)))
      → (has_copied phase ≡ true → Delivered dest nelems src active start t.bytes a a)
      → ((b : ℕ)
          → b < active.pe_size
          → a ≢ b
          → has_fenced phase ≡ true
          → Delivered dest nelems src active start t.bytes a b)
      → ((b : ℕ)
          → b < active.pe_size
          → counting (set_at ph a phase b) ≡ true
          → t.sync (pe_of active b) 0
            ≡ total (λ c. poked active.pe_size round (set_at ph a phase c) c b) active.pe_size)
      → ((c : ℕ)
          → c < active.pe_size
          → counting phase ≡ false
          → Delivered dest nelems src active start t.bytes c a)
      → Inv t (set_at ph a phase)
  advance {s} {t} {ph} a phase inv lt todo valid kept grow pend stays quiet sent own fenced word
        heard =
      record {
        place = λ c lt_c.
            ap (λ f. f (pe_of active c)) todo
            ∙ at_phase ph a phase
                (λ x p.
                  set_at s.todo (pe_of active a) (todo_of a phase) (pe_of active x) ≡ todo_of x p)
                c (set_at_same s.todo (pe_of active a) (todo_of a phase))
                (λ ne.
                  set_at_other s.todo (pe_of active a) (pe_of active c) (todo_of a phase)
                    (λ e. ne (pe_of-injective active a c e))
                  ∙ inv.place c lt_c);
        valid = λ c lt_c.
            at_phase ph a phase (λ x p. IsRound active.pe_size p) c valid (λ ne. inv.valid c lt_c);
        kept = kept;
        pend = pend;
        sent = λ c b lt_c lt_b.
            at_phase ph a phase
              (λ x p.
                x ≢ b
                → round x b < sent_to active.pe_size p
                → Delivered dest nelems src active start t.bytes x b
                  ⊎ In (the_put x b) (t.pending (pe_of active x)))
              c (sent b lt_b)
              (λ ne other r. elim (inv.sent c b lt_c lt_b other r) [
                | inl d ↦ inl (grow c b d)
                | inr i ↦ inr (stays c _ i)
              ]);
        own = λ c lt_c.
            at_phase ph a phase
              (λ x p. has_copied p ≡ true → Delivered dest nelems src active start t.bytes x x) c
              own (λ ne h. grow c c (inv.own c lt_c h));
        fenced = λ c b lt_c lt_b.
            at_phase ph a phase
              (λ x p.
                x ≢ b → has_fenced p ≡ true → Delivered dest nelems src active start t.bytes x b)
              c (fenced b lt_b) (λ ne other h. grow c b (inv.fenced c b lt_c lt_b other h));
        word = word;
        heard = λ c b lt_c lt_b.
            at_phase ph a phase
              (λ x p. counting p ≡ false → Delivered dest nelems src active start t.bytes c x) b
              (heard c lt_c) (λ ne h. grow c b (inv.heard c b lt_c lt_b h));
        outside = λ q out. (
          ap (λ f. f q) todo
              ∙ set_at_other s.todo (pe_of active a) q (todo_of a phase) (out a lt)
              ∙ (inv.outside q out).0,
          quiet q out ∙ (inv.outside q out).1,
        );
      }
