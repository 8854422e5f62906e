-- ===== src/Tests/Topo.antt =====
-- src/topos/TopoGenerator.py: two small topologies.
use smoothie.Base.{◌+◌, ◌*◌, ◌≡◌, refl, ◌||◌, [], ◌∷◌, if◌then◌else◌, nat_eq, string_eq, pair_eq}
use smoothie.Topo.{
  gen_fat_tree, core_num, gen_spine_leaf, spine_num, join_row, join_all, join_pods, range,
}
use smoothie.Base.Error.{ok}
use smoothie.Topo.Degrees.{cal_odd_num, odd_rows, degree_sum}
use smoothie.Topo.Cells.{cell}
use smoothie.Topo.Joined.{spines, layers, pods, gen_spine_leaf_lem, gen_fat_tree_lem}

-- two leaves and a spine
three_switches : gen_spine_leaf 3 ≡ (0 ∷ 0 ∷ 1 ∷ []) ∷ (0 ∷ 0 ∷ 1 ∷ []) ∷ (1 ∷ 1 ∷ 0 ∷ []) ∷ []
unfolding gen_spine_leaf spine_num join_all join_row range
three_switches = refl

gen_spine_leaf_lem_example :
    cell (gen_spine_leaf 3) 1 2
    ≡ (if layers 0 (spines 3 * 2) (spines 3 * 2) (spines 3) 1 2 then 1 else 0)
gen_spine_leaf_lem_example = gen_spine_leaf_lem 3 1 2

gen_fat_tree_lem_example : cell (gen_fat_tree 10) 2 6 ≡ (
    if layers 0 (core_num 10) (core_num 10) (core_num 10 * 2) 2 6
      || (pods (core_num 10) (core_num 10 + core_num 10 * 2) (core_num 10) 2 6
          || pods (core_num 10) (core_num 10 + core_num 10 * 2) (core_num 10) 6 2)
    then 1
    else 0)
gen_fat_tree_lem_example = gen_fat_tree_lem 10 2 6

-- an aggregation switch and an edge switch of its pod
linked_pod : cell (gen_fat_tree 10) 2 6 ≡ 1
unfolding gen_fat_tree core_num join_pods join_all join_row range
linked_pod = refl

-- the two leaves have one link each
odd_leaves : cal_odd_num (gen_spine_leaf 3) 3 ≡ ok 2
unfolding cal_odd_num odd_rows degree_sum gen_spine_leaf spine_num join_all join_row range
odd_leaves = refl
