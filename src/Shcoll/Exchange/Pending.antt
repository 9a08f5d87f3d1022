-- ===== src/Shcoll/Exchange/Pending.antt =====
-- osss-ucx/src/shcoll/src: lists of puts under way, and counts over the members.
use paw.Prelude.{
  ℕ, zero, suc, ◌≡◌, refl, sym, subst, List, [], ◌∷◌, ◌++◌, ◌⊎◌, inl, inr, ℕ_discrete,
}
use paw.Shcoll.{Put, to_front, set_at}
use paw.Shcoll.Barrier.Ring.{set_at_same, set_at_other}

abbrev pub In : Put → List Put → Type 0
In x [] = ⊥
In x (p ∷ ps) = (x ≡ p) ⊎ In x ps

pub In-append : (x p : Put) (ps : List Put) → In x (ps ++ (p ∷ [])) → (x ≡ p) ⊎ In x ps
In-append x p [] (inl e) = inl e
In-append x p [] (inr h) = elim h [ ]
In-append x p (q ∷ qs) (inl e) = inr (inl e)
In-append x p (q ∷ qs) (inr h) = elim (In-append x p qs h) [ inl e ↦ inl e | inr k ↦ inr (inr k) ]

pub In-first : (x p : Put) (ps : List Put) → In x ps → In x (ps ++ (p ∷ []))
In-first x p [] h = elim h [ ]
In-first x p (q ∷ qs) (inl e) = inl e
In-first x p (q ∷ qs) (inr h) = inr (In-first x p qs h)

pub In-last : (p : Put) (ps : List Put) → In p (ps ++ (p ∷ []))
In-last p [] = inl refl
In-last p (q ∷ qs) = inr (In-last p qs)

swapped : Put → List Put → List Put
swapped p r = elim r [ [] ↦ p ∷ [] | q ∷ qs ↦ q ∷ p ∷ qs ]

In-swapped : (x p : Put) (r : List Put) → In x (swapped p r) → (x ≡ p) ⊎ In x r
unfolding swapped
In-swapped x p [] (inl e) = inl e
In-swapped x p [] (inr h) = elim h [ ]
In-swapped x p (q ∷ qs) (inl e) = inr (inl e)
In-swapped x p (q ∷ qs) (inr (inl e)) = inl e
In-swapped x p (q ∷ qs) (inr (inr h)) = inr (inr h)

swapped-In : (x p : Put) (r : List Put) → (x ≡ p) ⊎ In x r → In x (swapped p r)
unfolding swapped
swapped-In x p [] (inl e) = inl e
swapped-In x p [] (inr h) = elim h [ ]
swapped-In x p (q ∷ qs) (inl e) = inr (inl e)
swapped-In x p (q ∷ qs) (inr (inl e)) = inl e
swapped-In x p (q ∷ qs) (inr (inr h)) = inr (inr h)

pub In-to_front : (k : ℕ) (x : Put) (l : List Put) → In x (to_front k l) → In x l
unfolding swapped
In-to_front zero x [] h = elim h [ ]
In-to_front (suc k) x [] h = elim h [ ]
In-to_front zero x (p ∷ ps) h = h
In-to_front (suc k) x (p ∷ ps) h = elim (In-swapped x p (to_front k ps) h) [
  | inl e ↦ inl e
  | inr later ↦ inr (In-to_front k x ps later)
]

pub to_front-In : (k : ℕ) (x : Put) (l : List Put) → In x l → In x (to_front k l)
unfolding swapped
to_front-In zero x [] h = elim h [ ]
to_front-In (suc k) x [] h = elim h [ ]
to_front-In zero x (p ∷ ps) h = h
to_front-In (suc k) x (p ∷ ps) (inl e) = swapped-In x p (to_front k ps) (inl e)
to_front-In (suc k) x (p ∷ ps) (inr h) = swapped-In x p (to_front k ps) (inr (to_front-In k x ps h))

-- The list of one PE with a put added.
abbrev pub added : (ℕ → List Put) → ℕ → Put → ℕ → List Put
added pend p x = set_at pend p (pend p ++ (x ∷ []))

pub In-added :
    (pend : ℕ → List Put) (p q : ℕ) (new x : Put)
    → In x (added pend p new q)
    → In x (pend q) ⊎ ((p ≡ q) × (x ≡ new))
In-added pend p q new x h = elim (ℕ_discrete p q) [
  | yes e ↦
      let at_p = subst (λ z. In x (added pend p new z)) (sym e) h in
      elim (In-append x new (pend p)
        (subst (In x) (set_at_same pend p (pend p ++ (new ∷ []))) at_p)) [
          | inl same ↦ inr (e, same)
          | inr old ↦ inl (subst (λ z. In x (pend z)) e old)
        ]
  | no ne ↦ inl (subst (In x) (set_at_other pend p q (pend p ++ (new ∷ [])) ne) h)
]

pub added-old :
    (pend : ℕ → List Put) (p q : ℕ) (new x : Put) → In x (pend q) → In x (added pend p new q)
added-old pend p q new x h = elim (ℕ_discrete p q) [
  | yes e ↦
      subst (λ z. In x (added pend p new z)) e
        (subst (In x) (sym (set_at_same pend p (pend p ++ (new ∷ []))))
          (In-first x new (pend p) (subst (λ z. In x (pend z)) (sym e) h)))
  | no ne ↦ subst (In x) (sym (set_at_other pend p q (pend p ++ (new ∷ [])) ne)) h
]

pub added-new : (pend : ℕ → List Put) (p : ℕ) (new : Put) → In new (added pend p new p)
added-new pend p new =
    subst (In new) (sym (set_at_same pend p (pend p ++ (new ∷ [])))) (In-last new (pend p))
