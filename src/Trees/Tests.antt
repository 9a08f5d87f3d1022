-- ===== src/Trees/Tests.antt =====
-- The trees at concrete sizes.
use paw.Prelude.{◌≡◌, ◌↔◌, refl, arith, some, [], ◌∷◌}
use paw.Trees.{get_node_info_complete, get_node_info_binomial, first_mask, binomial_children}
use paw.Trees.Complete.{IsChild, complete_parent_iff}

children_of_four : get_node_info_binomial 7 4 ≡ record { parent = some 0; children = 6 ∷ 5 ∷ [] }
unfolding get_node_info_binomial first_mask binomial_children
children_of_four = refl

complete_parent_iff_example :
    ((get_node_info_complete 7 2 4).parent ≡ some 1) ↔ IsChild (get_node_info_complete 7 2 1) 4
complete_parent_iff_example = complete_parent_iff 7 2 1 4 (omega arith) (omega arith) (omega arith)
