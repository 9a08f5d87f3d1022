-- ===== src/Shcoll/Broadcast.antt =====
-- osss-ucx/src/shcoll/src/broadcast.c: the root's bytes to all members of an active set. In the tree
-- helpers `PE_root` is an index in the set.
pub mod Scatter
pub mod Complete
pub mod Blocks
use paw.Prelude.{
  ℕ, zero, suc, ◌+◌, ◌-◌, ◌*◌, ◌^◌, ◌%◌, ◌/◌, Bool, true, false, not, Option, none, some, List, [],
  ◌∷◌, ◌++◌, map, ltb, ◌==◌, if◌then◌else◌,
}
use paw.Sync.{Cmp, cmp_eq, cmp_ne}
use paw.Trees.{
  NodeInfoComplete, get_node_info_complete_root, NodeInfoBinomial, get_node_info_binomial_root,
}
use paw.Trees.Knomial.{NodeInfoKnomial, get_node_info_knomial_root}
use paw.Shcoll.{
  Act, wait_until, long_p, atomic_inc, putmem_nbi, getmem, fence, ActiveSet, pe_of, index_of,
  putmem_signal_nb,
}
use paw.Shcoll.Barrier.{length, concat, shcoll_barrier, helper_linear}

module _ (target source nbytes PE_root : ℕ) (active : ActiveSet) (me : ℕ) where
  pub broadcast_helper_linear : List Act
  broadcast_helper_linear =
      let root = pe_of active PE_root in
      shcoll_barrier helper_linear active me
      ++ ((if me == root then [] else getmem target source nbytes root ∷ [])
          ++ shcoll_barrier helper_linear active me)

  -- The parent's PE. -1 stands for no parent; where `PE_start` is below the stride the C code then
  -- addresses a negative PE, which is 0 here.
  pub parent_pe : Option ℕ → ℕ
  parent_pe parent = elim parent [
    | none ↦ active.pe_start - 2 ^ active.log_stride
    | some p ↦ pe_of active p
  ]

  -- A member that does not take itself for the root waits for the data and acknowledges them.
  receive : Bool → Option ℕ → List Act
  unfolding parent_pe
  receive is_root parent =
      if is_root then [] else wait_until 0 cmp_ne 0 ∷ atomic_inc 0 (parent_pe parent) ∷ []

  -- After the sends: wait for the acknowledgements of the children, and clear the word.
  acknowledged : Bool → ℕ → List Act
  acknowledged is_root children_num =
      (if children_num == 0
        then []
        else wait_until 0 cmp_eq (children_num + (if is_root then 0 else 1)) ∷ [])
      ++ (long_p 0 0 me ∷ [])

  -- `source = target` in a member that has received.
  abbrev from : Bool → ℕ
  from is_root = if is_root then source else target

  put_child : Bool → ℕ → Act
  put_child is_root child = putmem_nbi target (from is_root) nbytes (pe_of active child)

  inc_child : ℕ → Act
  inc_child child = atomic_inc 0 (pe_of active child)

  -- `child = (child + 1) % PE_size` up to `children_end`, on fuel: the loop is back at a number that it
  -- has had after `PE_size` rounds.
  pub ring_children : ℕ → ℕ → ℕ → List ℕ
  ring_children zero child stop = []
  ring_children (suc fuel) child stop =
      let rest = child ∷ ring_children fuel ((child + 1) % active.pe_size) stop in
      if child == stop then [] else rest

  pub children_of : NodeInfoComplete → List ℕ
  unfolding ring_children
  children_of node = elim node.children_begin [
    | none ↦ []
    | some first ↦ elim node.children_end [
      | none ↦ []
      | some stop ↦ ring_children active.pe_size first stop
    ]
  ]

  -- The test for the root compares the index `PE_root` with the number of this PE.
  pub broadcast_helper_complete_tree : ℕ → List Act
  unfolding receive acknowledged put_child inc_child children_of
  broadcast_helper_complete_tree tree_degree_broadcast =
      let node =
        get_node_info_complete_root active.pe_size PE_root tree_degree_broadcast
          (index_of active me) in
      let is_root = PE_root == me in
      receive is_root node.parent
      ++ ((if node.children_num == 0
            then []
            else map (put_child is_root) (children_of node)
              ++ (fence ∷ map inc_child (children_of node)))
          ++ acknowledged is_root node.children_num)

  send_each : Bool → List ℕ → List Act
  unfolding put_child inc_child
  send_each is_root [] = []
  send_each is_root (child ∷ children) =
      put_child is_root child ∷ fence ∷ inc_child child ∷ send_each is_root children

  pub broadcast_helper_binomial_tree : List Act
  unfolding receive acknowledged send_each
  broadcast_helper_binomial_tree =
      let me_as = index_of active me in
      let node = get_node_info_binomial_root active.pe_size PE_root me_as in
      let is_root = me_as == PE_root in
      receive is_root node.parent
      ++ (send_each is_root node.children ++ acknowledged is_root (length node.children))

  send_groups : Bool → List (List ℕ) → List Act
  unfolding put_child inc_child
  send_groups is_root [] = []
  send_groups is_root (group ∷ groups) =
      map (put_child is_root) group ++ (fence ∷ (map inc_child group ++ send_groups is_root groups))

  pub broadcast_helper_knomial_tree : ℕ → List Act
  unfolding receive acknowledged send_groups
  broadcast_helper_knomial_tree radix =
      let me_as = index_of active me in
      let node = get_node_info_knomial_root active.pe_size PE_root radix me_as in
      let is_root = me_as == PE_root in
      let children_num = length (concat node.groups) in
      receive is_root node.parent
      ++ ((if children_num == 0 then [] else send_groups is_root node.groups)
          ++ acknowledged is_root children_num)

  signal_children : Bool → List ℕ → List Act
  unfolding putmem_signal_nb
  signal_children is_root [] = []
  signal_children is_root (child ∷ children) =
      putmem_signal_nb target (from is_root) nbytes 0 1 (pe_of active child)
      ++ signal_children is_root children

  pub broadcast_helper_knomial_tree_signal : ℕ → List Act
  unfolding receive acknowledged signal_children
  broadcast_helper_knomial_tree_signal radix =
      let me_as = index_of active me in
      let node = get_node_info_knomial_root active.pe_size PE_root radix me_as in
      let is_root = me_as == PE_root in
      let children = concat node.groups in
      receive is_root node.parent
      ++ (signal_children is_root children ++ acknowledged is_root (length children))

-- `shcoll_broadcast<size>_<name>`: a helper on `nelems` elements of `size` bits.
pub shcoll_broadcast : (ℕ → List Act) → ℕ → ℕ → List Act
shcoll_broadcast helper size nelems = helper (size / 8 * nelems)
