-- ===== src/Trees/Knomial.antt =====
-- osss-ucx/src/shcoll/src/util/trees.c: the k-nomial tree, whose ranges are cut in `k` parts until the
-- node is the first of its own.
pub mod Search
mod Tests
use mathlib.Core.Option
use paw.Prelude.{
  ℕ, zero, suc, ◌+◌, ◌-◌, ◌*◌, ◌/◌, ◌<◌, ◌≤◌, ◌≡◌, refl, arith, Option, none, some, List, [], ◌∷◌,
  ◌++◌, map, ltb, leb, ◌==◌, if◌then◌else◌, Bool-cases, inl, inr, ==_iff,
}
use paw.Prelude.Int.{ℤ, pos, minus_one, eq_ℤ}
use paw.Trees.{to_relative, from_relative}

-- The locals `left`, `right`, `parent` and `dist`.
pub record Range : Type 0 where
  pub left : ℕ
  pub right : ℕ
  pub parent : Option ℕ
  pub dist : ℤ

-- One round of `while (node != left)`: the part of the range that holds the node.
pub narrow : ℕ → ℕ → Range → Range
narrow k node r =
    let dist = (r.right - r.left + k - 1) / k in
    let group = (node - r.left) / dist in
    let new_right = r.left + (group + 1) * dist in
    record {
      left = r.left + group * dist;
      right = if ltb r.right new_right then r.right else new_right;
      parent = some r.left;
      dist = pos dist;
    }

pub find_range : ℕ → ℕ → ℕ → Range → Range
find_range zero k node r = r
find_range (suc fuel) k node r =
    let rest = find_range fuel k node (narrow k node r) in if node == r.left then r else rest

-- `do { ... child -= dist; } while (child > left)`, on fuel.
pub find_group : ℕ → ℕ → ℕ → ℕ → List ℕ
find_group zero left dist child = []
find_group (suc fuel) left dist child =
    let rest = find_group fuel left dist (child - dist) in
    child ∷ (if ltb left (child - dist) then rest else [])

-- `while (dist != 0)`: the groups of children, the farthest first.
pub find_groups : ℕ → ℕ → ℕ → ℕ → ℤ → List (List ℕ)
find_groups zero k left right dist = []
find_groups (suc fuel) k left right dist =
    let dist' = (right - left + k - 1) / k in
    let child = left + dist' * ((right - left - 1) / dist') in
    let rest =
      find_group (suc child) left dist' child
      ∷ find_groups fuel k left (left + dist') (pos dist') in
    if eq_ℤ dist (pos 0) then [] else if child == left then [] else rest

-- `node_info_knomial_t`: `children` is the groups one after the other, `groups_sizes` their lengths.
pub record NodeInfoKnomial : Type 0 where
  pub parent : Option ℕ
  pub groups : List (List ℕ)

abbrev pub whole : ℕ → Range
whole tree_size = record { left = 0; right = tree_size; parent = none; dist = minus_one }

pub get_node_info_knomial : ℕ → ℕ → ℕ → NodeInfoKnomial
get_node_info_knomial tree_size k node =
    let r = find_range tree_size k node (whole tree_size) in
    record { parent = r.parent; groups = find_groups (suc tree_size) k r.left r.right r.dist }

-- Every child is renumbered where it is written.
pub get_node_info_knomial_root : ℕ → ℕ → ℕ → ℕ → NodeInfoKnomial
get_node_info_knomial_root tree_size root k pe =
    let node = to_relative tree_size root pe in
    let r = find_range tree_size k node (whole tree_size) in
    record {
      parent = if node == 0 then none else Option.map (from_relative tree_size root) r.parent;
      groups =
          map (map (from_relative tree_size root))
            (find_groups (suc tree_size) k r.left r.right r.dist);
    }
