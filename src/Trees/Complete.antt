-- ===== src/Trees/Complete.antt =====
-- osss-ucx/src/shcoll/src/util/trees.c: parents and children in the complete tree.
use paw.Prelude.{
  leb→le, sym, ◌∙◌, ap, ℕ, zero, suc, ◌+◌, ◌-◌, ◌*◌, ◌/◌, ◌<◌, ◌≤◌, ◌≡◌, ◌↔◌, refl, true, false,
  arith, none, some, leb, ltb, ◌==◌, if◌then◌else◌, Bool-cases, inl, inr,
}
use native.Mathlib.Nat.{div-eq_of_lt-le, div-add-mod, mod-lt, add_comm, suc-mul, mul_comm}
use paw.Trees.{NodeInfoComplete, get_node_info_complete}

-- The range of children holds `child`.
abbrev pub IsChild : NodeInfoComplete → ℕ → Type 0
IsChild info child =
    (first : ℕ) × (stop : ℕ) × (info.children_begin ≡ some first)
    × (info.children_end ≡ some stop)
    × (first ≤ child)
    × (child < stop)

-- `(c - 1) / d` is `n` exactly between `n * d + 1` and `n * d + 1 + d`.
le→leb : (a b : ℕ) → a ≤ b → leb a b ≡ true
le→leb a b h = ground arith

lt→not_leb : (a b : ℕ) → b < a → leb a b ≡ false
lt→not_leb a b h = ground arith

pos→not_zero : (c : ℕ) → 0 < c → (c == 0) ≡ false
pos→not_zero c h = ground arith

parent_range : (c d : ℕ) → 0 < d → 0 < c → ((c - 1) / d * d + 1 ≤ c) × (c < (c - 1) / d * d + 1 + d)
parent_range c d pos nonzero =
    omega (arith, div-add-mod (c - 1) d, mod-lt (c - 1) pos, mul_comm d ((c - 1) / d))

parent_unique : (c d n : ℕ) → n * d + 1 ≤ c → c < n * d + 1 + d → (c - 1) / d ≡ n
parent_unique c d n lo hi =
    div-eq_of_lt-le d (omega arith) (omega (arith, suc-mul n d, add_comm n 1))

some_injective : (a b : ℕ) → some a ≡ some b → a ≡ b
some_injective a b e = cc

-- What a node finds, by whether its first child is in the tree.
begin_out :
    (tree_size d n : ℕ)
    → tree_size ≤ n * d + 1
    → (get_node_info_complete tree_size d n).children_begin ≡ none
unfolding get_node_info_complete
begin_out tree_size d n h = rw (le→leb tree_size (n * d + 1) h) refl

range_in :
    (tree_size d n : ℕ)
    → n * d + 1 < tree_size
    → ((get_node_info_complete tree_size d n).children_begin ≡ some (n * d + 1))
      × ((get_node_info_complete tree_size d n).children_end
          ≡ some (if ltb tree_size (n * d + 1 + d) then tree_size else n * d + 1 + d))
unfolding get_node_info_complete
range_in tree_size d n h = rw (lt→not_leb tree_size (n * d + 1) h) (refl, refl)

parent_some :
    (tree_size d c : ℕ) → 0 < c → (get_node_info_complete tree_size d c).parent ≡ some ((c - 1) / d)
unfolding get_node_info_complete
parent_some tree_size d c h = elim (Bool-cases (leb tree_size (c * d + 1))) [
  | inl e ↦ rw (e, pos→not_zero c h) refl
  | inr e ↦ rw (e, pos→not_zero c h) refl
]

parent_none : (tree_size d : ℕ) → (get_node_info_complete tree_size d 0).parent ≡ none
unfolding get_node_info_complete
parent_none tree_size d = elim (Bool-cases (leb tree_size (0 * d + 1))) [
  | inl e ↦ rw e refl
  | inr e ↦ rw e refl
]

-- In the complete tree of `tree_size` nodes, node `n` is the parent of node `c` exactly if `c` lies in
-- the range of children of `n`.
pub complete_parent_iff :
    (tree_size d n c : ℕ)
    → 0 < d
    → n < tree_size
    → c < tree_size
    → ((get_node_info_complete tree_size d c).parent ≡ some n)
      ↔ IsChild (get_node_info_complete tree_size d n) c
complete_parent_iff tree_size d n c pos hn hc = (fwd c hc, bwd)
  where
    fwd :
        (c : ℕ)
        → c < tree_size
        → (get_node_info_complete tree_size d c).parent ≡ some n
        → IsChild (get_node_info_complete tree_size d n) c
    fwd zero hc e = cc (e, parent_none tree_size d)
    fwd (suc k) hc e =
        let same : (suc k - 1) / d ≡ n =
          some_injective _ _ (sym (parent_some tree_size d (suc k) (omega arith)) ∙ e) in
        let (lo, hi) = rw same at (parent_range (suc k) d pos (omega arith)) in
        let (eb, ee) = range_in tree_size d n (omega arith) in
        (n * d + 1, _, eb, ee, lo, ground (arith, lo, hi, hc))

    bwd :
        IsChild (get_node_info_complete tree_size d n) c
        → (get_node_info_complete tree_size d c).parent ≡ some n
    bwd (first, stop, eb, ee, lo, hi) = elim (Bool-cases (leb tree_size (n * d + 1))) [
      | inl out ↦ cc (eb, begin_out tree_size d n (leb→le _ _ out))
      | inr inside ↦
          let (fb, fe) = range_in tree_size d n (ground arith) in
          let at_first : first ≡ n * d + 1 = some_injective _ _ (sym eb ∙ fb) in
          let at_stop = some_injective _ _ (sym ee ∙ fe) in
          parent_some tree_size d c (omega arith)
          ∙ ap some (parent_unique c d n (omega (arith, at_first)) (ground (arith, at_stop, hi)))
    ]
