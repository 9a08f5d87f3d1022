-- ===== src/Trees/Knomial/Search.antt =====
-- The search for the range of a node in the k-nomial tree.
use mathlib.Core.Option
use paw.Prelude.{
  dec_lt, ◌≢◌, map, ℕ, zero, suc, ◌+◌, ◌-◌, ◌*◌, ◌/◌, ◌<◌, ◌≤◌, ◌≡◌, refl, sym, arith, none, some,
  ◌==◌, if◌then◌else◌, Bool-cases, inl, inr, ==_iff, ◌⊎◌,
}
use native.Mathlib.Nat.{div-add-mod, mod-lt, mul_comm, suc-mul, add_comm, div-lt_iff_lt-mul}
use paw.Trees.{from_relative}
use paw.Trees.Rooted.{to_relative-from_relative}
use paw.Trees.Knomial.{
  Range, narrow, find_range, whole, NodeInfoKnomial, get_node_info_knomial,
  get_node_info_knomial_root,
}

-- The node lies in the range, and the parent is a node before it.
pub record Inside (node : ℕ) (r : Range) : Type 0 where
  pub low : r.left ≤ node
  pub high : node < r.right
  pub above : (r.parent ≡ none) ⊎ ((p : ℕ) × (r.parent ≡ some p) × (p < node))

-- A part is shorter than the whole, and not empty.
twice_le : (m k : ℕ) → 2 ≤ k → 2 * m ≤ m * k
twice_le zero k h = omega arith
twice_le (suc m) k h = omega (arith, twice_le m k h, suc-mul m k)

part_lt : (m k : ℕ) → 2 ≤ k → 2 ≤ m → (m + k - 1) / k < m
part_lt zero k hk hm = absurd (omega arith)
part_lt (suc m) k hk hm =
    (div-lt_iff_lt-mul (omega arith)).1 (omega (arith, twice_le m k hk, suc-mul m k))

part_pos : (m k : ℕ) → 2 ≤ k → 1 ≤ m → 0 < (m + k - 1) / k
part_pos m k hk hm = elim (dec_lt 0 ((m + k - 1) / k)) [
  | yes h ↦ h
  | no h ↦
      let small : m + k - 1 < 1 * k = (div-lt_iff_lt-mul (omega arith)).0 (omega arith) in
      absurd (omega arith)
]

-- The part that holds `x` of those of length `dist`.
part_of : (x dist : ℕ) → 0 < dist → (x / dist * dist ≤ x) × (x < (x / dist + 1) * dist)
part_of x dist h = omega (
  arith,
  div-add-mod x dist,
  mod-lt x h,
  mul_comm dist (x / dist),
  suc-mul (x / dist) dist,
  add_comm (x / dist) 1,
)

narrow-Inside :
    (k node : ℕ) (r : Range) → 2 ≤ k → Inside node r → node ≢ r.left → Inside node (narrow k node r)
unfolding narrow
narrow-Inside k node r hk i ne =
    let dist = (r.right - r.left + k - 1) / k in
    let pos_dist : 0 < dist = part_pos (r.right - r.left) k hk (omega (arith, i.low, i.high)) in
    let (lo, hi) = part_of (node - r.left) dist pos_dist in
    record {
      low = omega (arith, i.low);
      high = ground (arith, i.low, i.high);
      above = inr (r.left, refl, omega (arith, i.low));
    }

-- A round makes the range shorter.
narrow-lt :
    (k node : ℕ) (r : Range)
    → 2 ≤ k
    → Inside node r
    → node ≢ r.left
    → (narrow k node r).right - (narrow k node r).left < r.right - r.left
unfolding narrow
narrow-lt k node r hk i ne =
    let dist = (r.right - r.left + k - 1) / k in
    let short : dist < r.right - r.left =
      part_lt (r.right - r.left) k hk (omega (arith, i.low, i.high)) in
    let (lo, hi) =
      part_of (node - r.left) dist
        (part_pos (r.right - r.left) k hk (omega (arith, i.low, i.high))) in
    ground (
      arith,
      i.low,
      i.high,
      suc-mul ((node - r.left) / dist) dist,
      add_comm ((node - r.left) / dist) 1,
    )

-- With as much fuel as the range is long, the search ends at a range that begins with the node.
find_range-Inside :
    (fuel k node : ℕ) (r : Range)
    → 2 ≤ k
    → Inside node r
    → r.right - r.left ≤ fuel
    → Inside node (find_range fuel k node r) × ((find_range fuel k node r).left ≡ node)
unfolding find_range
find_range-Inside zero k node r hk i h = absurd (omega (arith, i.low, i.high))
find_range-Inside (suc fuel) k node r hk i h = elim (Bool-cases (node == r.left)) [
  | inl e ↦ rw e (i, sym ((==_iff node r.left).0 e))
  | inr e ↦
      let ne : node ≢ r.left = λ q. cc (e, (==_iff node r.left).1 q) in
      rw e (
        find_range-Inside fuel k node (narrow k node r) hk (narrow-Inside k node r hk i ne)
          (omega (arith, narrow-lt k node r hk i ne)))
]

-- In the k-nomial tree, for `k` of 2 or more, the search ends at the node, and the parent found is
-- none or a node before it.
pub knomial_parent_lt :
    (tree_size k node : ℕ)
    → 2 ≤ k
    → node < tree_size
    → ((find_range tree_size k node (whole tree_size)).left ≡ node)
      × (((get_node_info_knomial tree_size k node).parent ≡ none)
          ⊎ ((p : ℕ) × ((get_node_info_knomial tree_size k node).parent ≡ some p) × (p < node)))
unfolding get_node_info_knomial
knomial_parent_lt tree_size k node hk h =
    let (i, e) =
      find_range-Inside tree_size k node (whole tree_size) hk
        (record { low = omega arith; high = h; above = inl refl }) (omega arith) in
    (e, i.above)

-- The root has no parent.
root_parent : (tree_size k : ℕ) → (find_range tree_size k 0 (whole tree_size)).parent ≡ none
unfolding find_range
root_parent zero k = refl
root_parent (suc n) k = refl

parent_unless_root :
    (size root k x : ℕ)
    → (if x == 0
        then none
        else Option.map (from_relative size root) (find_range size k x (whole size)).parent)
      ≡ Option.map (from_relative size root) (find_range size k x (whole size)).parent
parent_unless_root size root k x = elim (Bool-cases (x == 0)) [
  | inl e ↦ let zero_x : x ≡ 0 = (==_iff x 0).0 e in rw (zero_x, root_parent) refl
  | inr e ↦ rw e refl
]

abbrev pub renumber_knomial : ℕ → ℕ → NodeInfoKnomial → NodeInfoKnomial
renumber_knomial size root info = record {
  parent = Option.map (from_relative size root) info.parent;
  groups = map (map (from_relative size root)) info.groups;
}

-- The k-nomial tree with a root is the one without, renumbered.
pub knomial_root_renumbered :
    (size root k x : ℕ)
    → root < size
    → x < size
    → get_node_info_knomial_root size root k (from_relative size root x)
      ≡ renumber_knomial size root (get_node_info_knomial size k x)
unfolding get_node_info_knomial_root get_node_info_knomial
knomial_root_renumbered size root k x r h =
    rw (to_relative-from_relative size root x r h, parent_unless_root size root k x) refl
