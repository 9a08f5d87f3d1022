-- ===== src/Shcoll/Alltoalls.antt =====
-- osss-ucx/src/shcoll/src/alltoalls.c: the exchanges of blocks whose elements stand `dst` and `sst`
-- elements apart. The places of the blocks, and the peers that are put to, are computed from the PE
-- number `me`; only the words of the peers are found by the index in the active set.
use paw.Prelude.{
  ℕ, zero, suc, ◌+◌, ◌-◌, ◌*◌, ◌/◌, ◌<◌, ◌≤◌, ◌≡◌, refl, arith, Bool, true, Option, none, some,
  List, [], ◌∷◌, ◌++◌, if◌then◌else◌, ◌↔◌, dec_lt,
}
use paw.Sync.{cmp_eq}
use paw.Shcoll.{
  Act, wait_until, long_p, atomic_inc, putmem_nbi, memcpy, fence, ActiveSet, pe_of, index_of,
}
use paw.Shcoll.Barrier.{for_each, shcoll_barrier, helper_binomial_tree}
use paw.Shcoll.Fcollect.Within.{Within, Within-append}

-- compat.h: the elements from `source` on, `sst` elements of `width` bytes apart, to places `dst`
-- elements apart.
pub iput_nbi : ℕ → ℕ → ℕ → ℕ → ℕ → ℕ → ℕ → List Act
iput_nbi width dest source dst sst zero pe = []
iput_nbi width dest source dst sst (suc nelems) pe =
    putmem_nbi dest source width pe
    ∷ iput_nbi width (dest + dst * width) (source + sst * width) dst sst nelems pe

-- The same on this PE, element `i` and those after it.
pub copy_elements : ℕ → ℕ → ℕ → ℕ → ℕ → ℕ → ℕ → List Act
copy_elements width dest source dst sst zero i = []
copy_elements width dest source dst sst (suc left) i =
    memcpy (dest + i * dst * width) (source + i * sst * width) width
    ∷ copy_elements width dest source dst sst left (suc i)

-- The two helpers on elements of `size` bits; `none` is a failed assertion.
module _ (peer : ℕ → ℕ → ℕ → ℕ) (cond : ℕ → Bool) (size dest source dst sst nelems : ℕ)
    (active : ActiveSet) (me : ℕ) where
  abbrev width : ℕ
  width = size / 8

  own_elements : List Act
  unfolding copy_elements
  own_elements =
      copy_elements width (dest + me * dst * nelems * width) (source + me * sst * nelems * width)
        dst sst nelems 0

  iput_rounds : ℕ → ℕ → List Act
  unfolding iput_nbi
  iput_rounds zero i = []
  iput_rounds (suc left) i =
      let peer_as = peer i me active.pe_size in
      iput_nbi width (dest + me * dst * nelems * width) (source + peer_as * sst * nelems * width)
        dst sst nelems (pe_of active peer_as)
      ++ iput_rounds left (suc i)

  pub alltoalls_barrier : Option (List Act)
  unfolding own_elements iput_rounds
  alltoalls_barrier =
      if cond active.pe_size
      then some (
          own_elements
          ++ (iput_rounds (active.pe_size - 1) 1 ++ shcoll_barrier helper_binomial_tree active me))
      else none

  pub alltoalls_counter : Option (List Act)
  unfolding own_elements iput_rounds
  alltoalls_counter =
      if cond active.pe_size
      then some (
          own_elements
          ++ (iput_rounds (active.pe_size - 1) 1
              ++ (fence
                  ∷ (for_each (active.pe_size - 1) 1 (λ i.
                        atomic_inc 0 (pe_of active (peer i (index_of active me) active.pe_size)))
                      ++ (wait_until 0 cmp_eq (active.pe_size - 1) ∷ long_p 0 0 me ∷ [])))))
      else none

scale : (a b c : ℕ) → a ≤ b → a * c ≤ b * c
scale a b c h = grind arith

-- Element `i` of block `me` lies within `n` blocks.
element-Inside :
    (n me i dst nelems width : ℕ)
    → me < n
    → i < nelems
    → 1 ≤ dst
    → me * dst * nelems * width + i * dst * width + width ≤ n * dst * nelems * width
element-Inside n me i dst nelems width lt lt_i pos =
    let rows = scale (me + 1) n nelems (omega arith) in
    let cells = scale (me * nelems + i + 1) (n * nelems) (dst * width) (omega arith) in
    let wide = scale 1 dst width pos in omega (arith, cells, wide)

module _ (width dest dst sst n me nelems : ℕ) (lt : me < n) (pos : 1 ≤ dst) where
  abbrev size_of : ℕ
  size_of = n * dst * nelems * width

  copy_elements-Within :
      (base source left i : ℕ)
      → base ≡ dest + me * dst * nelems * width
      → i + left ≡ nelems
      → Within dest size_of (copy_elements width base source dst sst left i)
  unfolding copy_elements
  copy_elements-Within base source zero i e f = tt
  copy_elements-Within base source (suc left) i e f = (
    (omega arith, omega (arith, element-Inside n me i dst nelems width lt (omega arith) pos)),
    copy_elements-Within base source left (suc i) e (omega arith),
  )

  iput-Within :
      (place source left i pe : ℕ)
      → place ≡ dest + me * dst * nelems * width + i * dst * width
      → i + left ≡ nelems
      → Within dest size_of (iput_nbi width place source dst sst left pe)
  unfolding iput_nbi
  iput-Within place source zero i pe e f = tt
  iput-Within place source (suc left) i pe e f = (
    (omega arith, omega (arith, element-Inside n me i dst nelems width lt (omega arith) pos)),
    iput-Within (place + dst * width) (source + sst * width) left (suc i) pe (omega arith)
        (omega arith),
  )

pokes-Within :
    (first size n i : ℕ) (target : ℕ → ℕ)
    → Within first size (for_each n i (λ j. atomic_inc 0 (target j)))
pokes-Within first size zero i target = tt
pokes-Within first size (suc n) i target = (tt, pokes-Within first size n (suc i) target)

module _ (peer : ℕ → ℕ → ℕ → ℕ) (cond : ℕ → Bool) (size dest source dst sst nelems : ℕ)
    (active : ActiveSet) (me : ℕ) where
  abbrev dest_bytes : ℕ
  dest_bytes = active.pe_size * dst * nelems * (size / 8)

  rounds-Within :
      1 ≤ dst
      → me < active.pe_size
      → (left i : ℕ)
      → Within dest dest_bytes
          (iput_rounds peer cond size dest source dst sst nelems active me left i)
  unfolding iput_rounds
  rounds-Within pos lt zero i = tt
  rounds-Within pos lt (suc left) i =
      Within-append dest dest_bytes _ _
        (iput-Within (size / 8) dest dst sst active.pe_size me nelems lt pos _ _ nelems 0 _
          (omega arith) (omega arith))
        (rounds-Within pos lt left (suc i))

  -- The first element that is copied.
  first_inside :
      (count : ℕ) (base from : ℕ) (rest : List Act)
      → 1 ≤ count
      → Within dest dest_bytes (copy_elements (size / 8) base from dst sst count 0 ++ rest)
      → base + size / 8 ≤ dest + dest_bytes
  unfolding copy_elements
  first_inside zero base from rest h w = absurd (omega arith)
  first_inside (suc count) base from rest h w = omega (arith, w.0.1)

  -- Where its assertion holds, the exchange that counts writes within the blocks of the members
  -- exactly if the PE number, not the index in the active set, is below the number of members; for
  -- `dst`, and the number and the width of the elements, not 0.
  pub alltoalls_counter-Within :
      cond active.pe_size ≡ true
      → 1 ≤ dst
      → 1 ≤ nelems
      → 8 ≤ size
      → (list : List Act) × (alltoalls_counter peer cond size dest source dst sst nelems active me
          ≡ some list)
        × (Within dest dest_bytes list ↔ (me < active.pe_size))
  unfolding alltoalls_counter own_elements
  alltoalls_counter-Within ok pos some_elements some_bytes = (_, rw ok refl, (inside, outside))
    where
      base : ℕ
      base = dest + me * dst * nelems * (size / 8)

      own : List Act
      own = copy_elements (size / 8) base (source + me * sst * nelems * (size / 8)) dst sst nelems 0

      waits : List Act
      waits = wait_until 0 cmp_eq (active.pe_size - 1) ∷ long_p 0 0 me ∷ []

      rest : List Act
      rest =
          iput_rounds peer cond size dest source dst sst nelems active me (active.pe_size - 1) 1
          ++ (fence
              ∷ (for_each (active.pe_size - 1) 1
                    (λ i. atomic_inc 0 (pe_of active (peer i (index_of active me) active.pe_size)))
                  ++ waits))

      inside : Within dest dest_bytes (own ++ rest) → me < active.pe_size
      inside w = elim (dec_lt me active.pe_size) [
        | yes lt ↦ lt
        | no ge ↦
            let at = first_inside nelems base _ rest some_elements w in
            let past = scale active.pe_size me (dst * nelems * (size / 8)) (omega arith) in
            absurd (omega (arith, past))
      ]

      outside : me < active.pe_size → Within dest dest_bytes (own ++ rest)
      outside lt =
          Within-append dest dest_bytes own rest
            (copy_elements-Within (size / 8) dest dst sst active.pe_size me nelems lt pos base _
              nelems 0 refl (omega arith))
            (Within-append dest dest_bytes _ _ (rounds-Within pos lt (active.pe_size - 1) 1) (
              tt,
              Within-append dest dest_bytes _ waits (pokes-Within dest dest_bytes _ 1 _)
                  (tt, (tt, tt)),
            ))
