-- ===== src/Trees/Knomial/Tests.antt =====
-- The k-nomial tree at concrete sizes.
use paw.Prelude.{ℕ, ◌<◌, ◌≡◌, ◌⊎◌, refl, arith, none, some, [], ◌∷◌}
use paw.Trees.Knomial.{find_range, find_groups, find_group, narrow, whole, get_node_info_knomial}
use paw.Trees.Knomial.Search.{knomial_parent_lt}

groups_of_root :
    get_node_info_knomial 9 3 0
    ≡ record { parent = none; groups = (6 ∷ 3 ∷ []) ∷ (2 ∷ 1 ∷ []) ∷ [] }
unfolding get_node_info_knomial find_range find_groups find_group narrow
groups_of_root = refl

knomial_parent_lt_example :
    ((find_range 9 3 5 (whole 9)).left ≡ 5)
    × (((get_node_info_knomial 9 3 5).parent ≡ none)
        ⊎ ((p : ℕ) × ((get_node_info_knomial 9 3 5).parent ≡ some p) × (p < 5)))
knomial_parent_lt_example = knomial_parent_lt 9 3 5 (omega arith) (omega arith)
