-- ===== src/Topo.antt =====
-- src/topos/TopoGenerator.py: the matrices of generated topologies.
pub mod Cells
pub mod Joined
pub mod Degrees
pub mod Commands
pub mod Description
use smoothie.Base.{
  ℕ, zero, suc, ◌+◌, ◌*◌, ◌/◌, List, [], ◌∷◌, arith, ltb, if◌then◌else◌, nat_eq, string_eq, pair_eq,
  get_or, set, take, drop, replicate,
}

abbrev pub Matrix : Type 0
Matrix = List (List ℕ)

-- [[0 for i in range(n)] for i in range(n)]
abbrev pub zeros : ℕ → Matrix
zeros n = replicate n (replicate n 0)

-- list(range(a, a + n))
unfoldable pub range : ℕ → ℕ → List ℕ
range a zero = []
range a (suc n) = a ∷ range (a + 1) n

-- topoList[i][j] = 1
abbrev pub put_cell : Matrix → ℕ → ℕ → Matrix
put_cell m i j = set m i (set (get_or m i []) j 1)

-- the links of one switch to those of a list, in both directions
unfoldable pub join_row : Matrix → ℕ → List ℕ → Matrix
join_row m i [] = m
join_row m i (j ∷ js) = join_row (put_cell (put_cell m i j) j i) i js

-- for i in …: for j in …
unfoldable pub join_all : Matrix → List ℕ → List ℕ → Matrix
join_all m [] js = m
join_all m (i ∷ is) js = join_all (join_row m i js) is js

-- for step in range(0, L2, 2), with the number of rounds
unfoldable pub join_pods : Matrix → ℕ → List ℕ → List ℕ → Matrix
join_pods m zero agg edg = m
join_pods m (suc n) agg edg =
    join_pods (join_all m (take 2 agg) (take 2 edg)) n (drop 2 agg) (drop 2 edg)

-- maxSNum//5 * 5, and at least 10; the core switches are a fifth of it
unfoldable pub core_num : ℕ → ℕ
core_num max_s_num = if ltb (max_s_num / 5 * 5) 10 then 2 else max_s_num / 5

-- `genFatTree`
unfoldable pub gen_fat_tree : ℕ → Matrix
gen_fat_tree max_s_num =
    let l1 = core_num max_s_num in
    let l2 = l1 * 2 in
    let core = range 0 l1 in
    let agg = range l1 l2 in
    let edg = range (l1 + l2) l2 in join_pods (join_all (zeros (l1 * 5)) core agg) l1 agg edg

-- maxSNum//3 * 3, and at least 3; the spines are a third of it
unfoldable pub spine_num : ℕ → ℕ
spine_num max_s_num = if ltb (max_s_num / 3 * 3) 3 then 1 else max_s_num / 3

-- the matrix of `genSpineLeaf`: the leaves come first
unfoldable pub gen_spine_leaf : ℕ → Matrix
gen_spine_leaf max_s_num =
    let l2 = spine_num max_s_num in
    let l1 = l2 * 2 in join_all (zeros (l2 * 3)) (range 0 l1) (range l1 l2)
