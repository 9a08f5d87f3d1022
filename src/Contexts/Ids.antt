-- ===== src/Contexts/Ids.antt =====
-- Which numbers of contexts are in use.
use paw.Prelude.{
  subst, ==_iff, zero, ap, ◌∙◌, ◌⊎◌, ℕ, suc, ◌+◌, ◌<◌, ◌≤◌, ◌≡◌, refl, sym, arith, Bool, true,
  false, List, [], ◌∷◌, ◌++◌, ltb, ◌==◌, if◌then◌else◌, Bool-cases, inl, inr,
}
use paw.Contexts.{Context, Table, get_usable_context_run, context_deregister}

abbrev pub count : ℕ → List ℕ → ℕ
count i [] = 0
count i (x ∷ xs) = if x == i then suc (count i xs) else count i xs

abbrev pub assign : (ℕ → Bool) → ℕ → Bool → ℕ → Bool
assign live i b j = if i == j then b else live j

-- Each number below `nctxts` is either in use or in the free list once, and no other is in either;
-- `live` says which are in use.
abbrev pub Accounted : ℕ → List ℕ → (ℕ → Bool) → Type 0
Accounted n free live =
    (i : ℕ) → (if live i then 1 else 0) + count i free ≡ (if ltb i n then 1 else 0)

count-append :
    (i x : ℕ) (xs : List ℕ) → count i (xs ++ (x ∷ [])) ≡ (if x == i then 1 else 0) + count i xs
count-append i x [] = ground arith
count-append i x (y ∷ xs) = ground (arith, count-append i x xs)

take_new :
    (n : ℕ) (live : ℕ → Bool)
    → Accounted n [] live
    → (live n ≡ false) × Accounted (suc n) [] (assign live n true)
take_new n live a = (ground (arith, a n), λ i. ground (arith, a i))

take_free :
    (n x : ℕ) (xs : List ℕ) (live : ℕ → Bool)
    → Accounted n (x ∷ xs) live
    → (live x ≡ false) × Accounted n xs (assign live x true)
take_free n x xs live a = (ground (arith, a x), λ i. ground (arith, a i, a x))

give_back :
    (n x : ℕ) (xs : List ℕ) (live : ℕ → Bool)
    → Accounted n xs live
    → live x ≡ true
    → Accounted n (xs ++ (x ∷ [])) (assign live x false)
give_back n x xs live a used i = ground (arith, a i, count-append i x xs)

-- The numbers are accounted for, and the table has room for all that were given out.
pub record IsReady (th : Table) (live : ℕ → Bool) : Type 0 where
  pub counted : Accounted th.nctxts th.freelist live
  pub block : 0 < th.spill_block
  pub low : th.nctxts ≤ th.spill_ctxt
  pub room : th.spill_ctxt ≤ th.places

List-cases : (xs : List ℕ) → (xs ≡ []) ⊎ ((x : ℕ) × (rest : List ℕ) × (xs ≡ x ∷ rest))
List-cases [] = inl refl
List-cases (x ∷ xs) = inr (x, xs, refl)

-- A place from the free list was given out before.
free_lt : (n x : ℕ) (xs : List ℕ) (live : ℕ → Bool) → Accounted n (x ∷ xs) live → x < n
free_lt n x xs live a = ground (arith, a x)

-- A context taken from a table whose numbers are accounted for has a number that no context in use
-- has, and a place inside the table; the numbers are accounted for again, with that one in use.
pub get_usable_context_run-IsReady :
    (slot : Context) (th : Table) (live : ℕ → Bool)
    → IsReady th live
    → let (idx, reuse, th') = get_usable_context_run slot th in
      (live idx ≡ false) × (idx < th'.places) × IsReady th' (assign live idx true)
unfolding get_usable_context_run
get_usable_context_run-IsReady slot th live r = elim (List-cases th.freelist) [
  | inl e ↦
      let (new, again) = take_new th.nctxts live (rw e at r.counted) in
      let counted : Accounted (suc th.nctxts) th.freelist (assign live th.nctxts true) =
        subst (λ free. Accounted (suc th.nctxts) free (assign live th.nctxts true)) (sym e) again in
      elim (Bool-cases (th.nctxts == th.spill_ctxt)) [
        | inl full ↦
            let same : th.nctxts ≡ th.spill_ctxt = (==_iff th.nctxts th.spill_ctxt).0 full in
            let fits : th.nctxts < th.spill_ctxt + th.spill_block = omega (arith, r.block) in
            rw (e, full, get_usable_context_run)
              (
                new,
                fits,
                record { counted = counted; block = r.block; low = fits; room = omega arith },
              )
        | inr free ↦
            let fits : th.nctxts < th.spill_ctxt = ground (arith, free, r.low) in
            rw (e, free, get_usable_context_run)
              (
                new,
                omega (arith, r.room),
                record { counted = counted; block = r.block; low = fits; room = r.room },
              )
      ]
  | inr (x, rest, e) ↦
      let a : Accounted th.nctxts (x ∷ rest) live = rw e at r.counted in
      let (new, again) = take_free th.nctxts x rest live a in
      rw (e, get_usable_context_run)
        (
          new,
          omega (arith, free_lt th.nctxts x rest live a, r.low, r.room),
          record { counted = again; block = r.block; low = r.low; room = r.room },
        )
]

-- The numbers that the next `n` calls of `get_usable_context` give out, of which each is used again.
pub reused : ℕ → Context → Table → List ℕ
reused zero slot th = []
reused (suc n) slot th =
    let (idx, reuse, th') = get_usable_context_run slot th in
    let rest = reused n slot th' in if reuse then idx ∷ rest else []

abbrev pub length : List ℕ → ℕ
length [] = 0
length (x ∷ xs) = suc (length xs)

length-append : (xs : List ℕ) (x : ℕ) → length (xs ++ (x ∷ [])) ≡ suc (length xs)
length-append [] x = refl
length-append (y ∷ xs) x = ap suc (length-append xs x)

-- The free list is used up from its head.
reused_all :
    (xs : List ℕ) (slot : Context) (th : Table) → th.freelist ≡ xs → reused (length xs) slot th ≡ xs
unfolding reused get_usable_context_run
reused_all [] slot th e = refl
reused_all (x ∷ xs) slot th e =
    rw (e, get_usable_context_run)
      (ap (◌∷◌ x) (reused_all xs slot (record th { freelist = xs }) refl))

-- Destroying a context that is in use keeps the numbers accounted for, with that one free; and as
-- many contexts taken next as were free before, and one more, are given the numbers that were free
-- before, in their order, and the number of the destroyed context last.
pub context_deregister-IsReady :
    (id : ℕ) (th : Table) (live : ℕ → Bool)
    → IsReady th live
    → live id ≡ true
    → (slot : Context)
    → IsReady (context_deregister id th) (assign live id false)
      × (reused (suc (length th.freelist)) slot (context_deregister id th)
          ≡ th.freelist ++ (id ∷ []))
unfolding context_deregister
context_deregister-IsReady id th live r used slot = (
  record {
    counted = give_back th.nctxts id th.freelist live r.counted used;
    block = r.block;
    low = r.low;
    room = r.room;
  },
  ap (λ n. reused n slot (context_deregister id th)) (sym (length-append th.freelist id))
      ∙ reused_all (th.freelist ++ (id ∷ [])) slot (context_deregister id th) refl,
)
