-- ===== src/Shcoll/Barrier.antt =====
-- osss-ucx/src/shcoll/src/barrier.c: the barriers. SHCOLL_SYNC_VALUE is 0.
pub mod Ring
pub mod Words
pub mod Updates
pub mod Dissemination
pub mod Runs
pub mod Completion
mod Tests
use paw.Prelude.{
  ℕ, zero, suc, ◌+◌, ◌-◌, ◌*◌, ◌/◌, ◌%◌, ◌^◌, Bool, true, false, Option, none, some, List, [], ◌∷◌,
  ◌++◌, map, ltb, ◌==◌, if◌then◌else◌,
}
use paw.Sync.{Cmp, cmp_eq, cmp_ne}
use paw.Trees.{NodeInfoComplete, get_node_info_complete, NodeInfoBinomial, get_node_info_binomial}
use paw.Trees.Knomial.{NodeInfoKnomial, get_node_info_knomial}
use paw.Shcoll.{Act, wait_until, long_p, atomic_inc, fetch_add, quiet, ActiveSet, pe_of, index_of}

-- `for (i = from; ...)`, `n` rounds of one action.
abbrev pub for_each : ℕ → ℕ → (ℕ → Act) → List Act
for_each zero i f = []
for_each (suc n) i f = f i ∷ for_each n (suc i) f

pub length : List ℕ → ℕ
length [] = 0
length (x ∷ xs) = suc (length xs)

pub concat : List (List ℕ) → List ℕ
concat [] = []
concat (xs ∷ xss) = xs ++ concat xss

pub helper_linear : ActiveSet → ℕ → List Act
helper_linear active me =
    if active.pe_start == me
    then wait_until 0 cmp_eq (active.pe_size - 1)
      ∷ long_p 0 0 me
      ∷ wait_until 0 cmp_eq 0
      ∷ for_each (active.pe_size - 1) 1 (λ i. long_p 0 1 (pe_of active i))
    else atomic_inc 0 active.pe_start
      ∷ wait_until 0 cmp_ne 0
      ∷ long_p 0 0 me
      ∷ wait_until 0 cmp_eq 0
      ∷ []

-- The three tree barriers differ in the tree alone: wait for the children, poke the parent and wait
-- for its poke, clear the word, poke the children.
pub tree_actions : ActiveSet → ℕ → Option ℕ → List ℕ → List Act
unfolding length
tree_actions active me parent children =
    let npokes = length children in
    (if npokes == 0 then [] else wait_until 0 cmp_eq npokes ∷ [])
    ++ (elim parent as (λ _. List Act) [
      | none ↦ []
      | some p ↦ atomic_inc 0 (pe_of active p) ∷ wait_until 0 cmp_eq (npokes + 1) ∷ []
    ])
    ++ (long_p 0 0 me ∷ map (λ c. atomic_inc 0 (pe_of active c)) children)

-- The numbers from `first` on, `n` of them.
pub range : ℕ → ℕ → List ℕ
range first zero = []
range first (suc n) = first ∷ range (suc first) n

-- `children_begin` up to `children_end`
pub complete_children : NodeInfoComplete → List ℕ
unfolding range
complete_children info = elim info.children_begin [
  | none ↦ []
  | some first ↦ range first info.children_num
]

pub helper_complete_tree : ℕ → ActiveSet → ℕ → List Act
helper_complete_tree tree_degree active me =
    let info = get_node_info_complete active.pe_size tree_degree (index_of active me) in
    tree_actions active me info.parent (complete_children info)

pub helper_binomial_tree : ActiveSet → ℕ → List Act
helper_binomial_tree active me =
    let info = get_node_info_binomial active.pe_size (index_of active me) in
    tree_actions active me info.parent info.children

pub helper_knomial_tree : ℕ → ActiveSet → ℕ → List Act
unfolding concat
helper_knomial_tree radix active me =
    let info = get_node_info_knomial active.pe_size radix (index_of active me) in
    tree_actions active me info.parent (concat info.groups)

-- `for (round = 0, distance = 1; distance < PE_size; round++, distance <<= 1)`; the distance doubles,
-- so `PE_size` rounds are fuel enough. -1 is the word of 64 ones.
pub dissemination_rounds : ℕ → ActiveSet → ℕ → ℕ → List Act
dissemination_rounds zero active me round = []
dissemination_rounds (suc fuel) active me round =
    let target_as = (index_of active me + 2 ^ round) % active.pe_size in
    let rest =
      atomic_inc round (pe_of active target_as)
      ∷ wait_until round cmp_ne 0
      ∷ fetch_add round (2 ^ 64 - 1) me
      ∷ dissemination_rounds fuel active me (suc round) in
    if ltb (2 ^ round) active.pe_size then rest else []

pub helper_dissemination : ActiveSet → ℕ → List Act
unfolding dissemination_rounds
helper_dissemination active me = dissemination_rounds active.pe_size active me 0

-- `shcoll_barrier_<name>` and `shcoll_sync_<name>` on a helper, and the same on all `n` PEs.
pub shcoll_barrier : (ActiveSet → ℕ → List Act) → ActiveSet → ℕ → List Act
shcoll_barrier helper active me = quiet ∷ helper active me

pub shcoll_sync : (ActiveSet → ℕ → List Act) → ActiveSet → ℕ → List Act
shcoll_sync helper active me = helper active me

abbrev pub all_pes : ℕ → ActiveSet
all_pes n = record { pe_start = 0; log_stride = 0; pe_size = n }

pub shcoll_barrier_all : (ActiveSet → ℕ → List Act) → ℕ → ℕ → List Act
shcoll_barrier_all helper n me = quiet ∷ helper (all_pes n) me

pub shcoll_sync_all : (ActiveSet → ℕ → List Act) → ℕ → ℕ → List Act
shcoll_sync_all helper n me = helper (all_pes n) me
