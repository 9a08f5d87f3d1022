-- ===== src/Trees/Rooted.antt =====
-- osss-ucx/src/shcoll/src/util/trees.c: the trees with a root beside those of root 0.
use mathlib.Core.Option
use paw.Prelude.{
  ℕ, zero, suc, ◌+◌, ◌-◌, ◌*◌, ◌/◌, ◌<◌, ◌≡◌, refl, arith, map, leb, ltb, ◌==◌, if◌then◌else◌,
  Bool-cases, inl, inr, bit_or,
}
use paw.Trees.{
  to_relative, from_relative, NodeInfoComplete, get_node_info_complete, get_node_info_complete_root,
  NodeInfoBinomial, binomial_children, binomial_children_root, get_node_info_binomial,
  get_node_info_binomial_root,
}

pub to_relative-from_relative :
    (size root x : ℕ)
    → root < size
    → x < size
    → to_relative size root (from_relative size root x) ≡ x
unfolding to_relative from_relative
to_relative-from_relative size root x r h = ground arith

wrap_lem :
    (size root x : ℕ)
    → (if leb size (x + root) then x + root - size else x + root) ≡ from_relative size root x
unfolding from_relative
wrap_lem size root x = ground arith

-- The information of a node, with every PE that it names renumbered.
abbrev pub renumber_complete : ℕ → ℕ → NodeInfoComplete → NodeInfoComplete
renumber_complete size root info = record {
  parent = Option.map (from_relative size root) info.parent;
  children_begin = Option.map (from_relative size root) info.children_begin;
  children_end = Option.map (from_relative size root) info.children_end;
  children_num = info.children_num;
}

-- The complete tree with a root is the one without, renumbered.
pub complete_root_renumbered :
    (size root d x : ℕ)
    → root < size
    → x < size
    → get_node_info_complete_root size root d (from_relative size root x)
      ≡ renumber_complete size root (get_node_info_complete size d x)
unfolding get_node_info_complete_root get_node_info_complete
complete_root_renumbered size root d x r h = elim (Bool-cases (leb size (x * d + 1))) [
  | inl e ↦ rw (to_relative-from_relative size root x r h, e) refl
  | inr e ↦ rw (to_relative-from_relative size root x r h, e, wrap_lem, wrap_lem) refl
]

abbrev pub renumber_binomial : ℕ → ℕ → NodeInfoBinomial → NodeInfoBinomial
renumber_binomial size root info = record {
  parent = Option.map (from_relative size root) info.parent;
  children = map (from_relative size root) info.children;
}

children_renumbered :
    (fuel size root node mask : ℕ)
    → binomial_children_root fuel size root node mask
      ≡ map (from_relative size root) (binomial_children fuel size node mask)
unfolding binomial_children_root binomial_children
children_renumbered zero size root node mask = refl
children_renumbered (suc fuel) size root node mask =
    let ih = children_renumbered fuel size root node (mask / 2) in
    elim (Bool-cases (mask == 0)) [
      | inl e ↦ rw e refl
      | inr e ↦ elim (Bool-cases (ltb (bit_or node mask) size)) [
        | inl c ↦ rw (e, c, ih) refl
        | inr c ↦ rw (e, c, ih) refl
      ]
    ]

-- The binomial tree with a root is the one without, renumbered.
pub binomial_root_renumbered :
    (size root x : ℕ)
    → root < size
    → x < size
    → get_node_info_binomial_root size root (from_relative size root x)
      ≡ renumber_binomial size root (get_node_info_binomial size x)
unfolding get_node_info_binomial_root get_node_info_binomial
binomial_root_renumbered size root x r h = elim (Bool-cases (x == 0)) [
  | inl e ↦ rw (to_relative-from_relative size root x r h, e, children_renumbered) refl
  | inr e ↦ rw (to_relative-from_relative size root x r h, e, children_renumbered) refl
]
