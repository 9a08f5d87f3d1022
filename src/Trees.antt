-- ===== src/Trees.antt =====
-- osss-ucx/src/shcoll/src/util/trees.c: the parent and the children of a PE in the trees that the
-- collectives send along. PE numbers, sizes and the products of them fit an int; `none` is -1.
pub mod Complete
pub mod Rooted
pub mod Knomial
mod Tests
use mathlib.Core.Option
use paw.Prelude.{
  ℕ, zero, suc, ◌+◌, ◌-◌, ◌*◌, ◌/◌, ◌^◌, Bool, true, false, Option, none, some, List, [], ◌∷◌, ◌++◌,
  map, ltb, leb, ◌==◌, if◌then◌else◌, bit_and, bit_or, min,
}

-- `root <= node ? node - root : node - root + tree_size`, and the way back.
pub to_relative : ℕ → ℕ → ℕ → ℕ
to_relative tree_size root node = if leb root node then node - root else node + tree_size - root

pub from_relative : ℕ → ℕ → ℕ → ℕ
from_relative tree_size root node =
    if ltb (node + root) tree_size then node + root else node + root - tree_size

-- `node_info_complete_t`
pub record NodeInfoComplete : Type 0 where
  pub parent : Option ℕ
  pub children_begin : Option ℕ
  pub children_end : Option ℕ
  pub children_num : ℕ

pub get_node_info_complete : ℕ → ℕ → ℕ → NodeInfoComplete
get_node_info_complete tree_size tree_degree node =
    let parent = if node == 0 then none else some ((node - 1) / tree_degree) in
    let begin = node * tree_degree + 1 in
    if leb tree_size begin
    then record { parent = parent; children_begin = none; children_end = none; children_num = 0 }
    else let stop =
        if ltb tree_size (begin + tree_degree) then tree_size else begin + tree_degree in
      record {
        parent = parent;
        children_begin = some begin;
        children_end = some stop;
        children_num = stop - begin;
      }

pub get_node_info_complete_root : ℕ → ℕ → ℕ → ℕ → NodeInfoComplete
get_node_info_complete_root tree_size root tree_degree pe =
    let node = to_relative tree_size root pe in
    let parent = if node == 0 then none else some ((node - 1) / tree_degree) in
    let parent_pe = Option.map (from_relative tree_size root) parent in
    let begin = node * tree_degree + 1 in
    if leb tree_size begin
    then record { parent = parent_pe; children_begin = none; children_end = none; children_num = 0 }
    else let stop =
        if ltb tree_size (begin + tree_degree) then tree_size else begin + tree_degree in
      record {
        parent = parent_pe;
        children_begin =
            some (if leb tree_size (begin + root) then begin + root - tree_size else begin + root);
        children_end =
            some (if leb tree_size (stop + root) then stop + root - tree_size else stop + root);
        children_num = stop - begin;
      }

-- `node_info_binomial_t`; `children_num` is the length of the list.
pub record NodeInfoBinomial : Type 0 where
  pub parent : Option ℕ
  pub children : List ℕ

-- The mask below the lowest bit of the node, or below the sign bit at the root.
pub first_mask : ℕ → ℕ
first_mask node = if node == 0 then 2 ^ 30 else bit_and node (2 ^ 32 - 1 - (node - 1)) / 2

-- `while (mask != 0)`, on fuel: a mask below `2 ^ 31` is 0 after 31 rounds.
pub binomial_children : ℕ → ℕ → ℕ → ℕ → List ℕ
binomial_children zero tree_size node mask = []
binomial_children (suc fuel) tree_size node mask =
    let child = bit_or node mask in
    let rest = binomial_children fuel tree_size node (mask / 2) in
    if mask == 0 then [] else if ltb child tree_size then child ∷ rest else rest

pub get_node_info_binomial : ℕ → ℕ → NodeInfoBinomial
get_node_info_binomial tree_size node = record {
  parent = if node == 0 then none else some (bit_and node (node - 1));
  children = binomial_children 31 tree_size node (first_mask node);
}

pub binomial_children_root : ℕ → ℕ → ℕ → ℕ → ℕ → List ℕ
unfolding from_relative
binomial_children_root zero tree_size root node mask = []
binomial_children_root (suc fuel) tree_size root node mask =
    let child = bit_or node mask in
    let rest = binomial_children_root fuel tree_size root node (mask / 2) in
    if mask == 0
    then []
    else if ltb child tree_size
    then from_relative tree_size root child ∷ rest
    else rest

pub get_node_info_binomial_root : ℕ → ℕ → ℕ → NodeInfoBinomial
get_node_info_binomial_root tree_size root pe =
    let node = to_relative tree_size root pe in
    record {
      parent =
          if node == 0 then none else some (from_relative tree_size root (bit_and node (node - 1)));
      children = binomial_children_root 31 tree_size root node (first_mask node);
    }
