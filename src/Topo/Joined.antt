-- ===== src/Topo/Joined.antt =====
-- Which switches the generated topologies link.
use smoothie.Base.{
  ℕ, zero, suc, ◌+◌, ◌-◌, ◌*◌, ◌/◌, ◌≤◌, ◌≡◌, refl, ◌∙◌, Bool, ◌&&◌, ◌||◌, arith, ltb, leb,
  if◌then◌else◌, ◌==◌, nat_eq, string_eq, pair_eq, take, drop,
}
use smoothie.Topo.{
  Matrix, zeros, range, join_all, join_pods, core_num, gen_fat_tree, spine_num, gen_spine_leaf,
}
use smoothie.Topo.Cells.{
  cell, IsSquare, zeros-IsSquare, cell-zeros, across, join_all-IsSquare, cell-join_all, range-Below,
  contains-range,
}

-- `x` is one of `k` numbers from `a`.
abbrev pub within : ℕ → ℕ → ℕ → Bool
within a k x = leb a x && ltb x (a + k)

-- a switch of the one layer and one of the other
abbrev pub layers : ℕ → ℕ → ℕ → ℕ → ℕ → ℕ → Bool
layers a k b l x y = (within a k x && within b l y) || (within a k y && within b l x)

across-range : (a k b l x y : ℕ) → across (range a k) (range b l) x y ≡ layers a k b l x y
across-range a k b l x y =
    rw (contains-range a k x, contains-range b l y, contains-range a k y, contains-range b l x) refl

cell-layers :
    (n : ℕ) (m : Matrix) (a k b l x y : ℕ)
    → IsSquare n m
    → a + k ≤ n
    → b + l ≤ n
    → cell (join_all m (range a k) (range b l)) x y ≡ (if layers a k b l x y then 1 else cell m x y)
cell-layers n m a k b l x y v ha hb =
    cell-join_all n m (range a k) (range b l) x y v (range-Below a k n ha) (range-Below b l n hb)
    ∙ rw (across-range a k b l x y) refl

-- a third of the switches, and at least one
abbrev pub spines : ℕ → ℕ
spines n = if ltb n 3 then 1 else n / 3

spine_num_lem : (n : ℕ) → spine_num n ≡ spines n
unfolding spine_num
spine_num_lem n = ground arith

-- In a spine-leaf topology a link joins each leaf with each spine, and there is no other; a third of
-- the switches, and at least one, are spines, which come after the leaves.
pub gen_spine_leaf_lem :
    (n x y : ℕ)
    → cell (gen_spine_leaf n) x y
      ≡ (if layers 0 (spines n * 2) (spines n * 2) (spines n) x y then 1 else 0)
unfolding gen_spine_leaf
gen_spine_leaf_lem n x y =
    let l2 = spines n in
    rw (spine_num_lem n) (
      cell-layers (l2 * 3) (zeros (l2 * 3)) 0 (l2 * 2) (l2 * 2) l2 x y (zeros-IsSquare (l2 * 3))
        (omega arith) (omega arith)
      ∙ rw (cell-zeros (l2 * 3) x y) refl)

-- an aggregation switch and an edge switch of the same pod, which is a pair of each
abbrev pub pods : ℕ → ℕ → ℕ → ℕ → ℕ → Bool
pods a b k x y = within a (k * 2) x && within b (k * 2) y && (x - a) / 2 == (y - b) / 2

pods-suc :
    (a b k x y : ℕ)
    → pods a b (suc k) x y ≡ ((within a 2 x && within b 2 y) || pods (a + 2) (b + 2) k x y)
pods-suc a b k x y = ground arith

-- the first pair of a layer, and what is left
first_pair : (a k : ℕ) → take 2 (range a (suc k * 2)) ≡ range a 2
unfolding range
first_pair a k = let twice : suc k * 2 ≡ suc (suc (k * 2)) = omega arith in rw twice refl

other_pairs : (a k : ℕ) → drop 2 (range a (suc k * 2)) ≡ range (a + 2) (k * 2)
unfolding range
other_pairs a k =
    let twice : suc k * 2 ≡ suc (suc (k * 2)) = omega arith in
    let next : a + 1 + 1 ≡ a + 2 = omega arith in rw (twice, next) refl

mix :
    (p q r t : Bool) (u v : ℕ)
    → (if r || t then u else (if p || q then u else v)) ≡ (if (p || r) || (q || t) then u else v)
mix p q r t u v = ground arith

cell-join_pods :
    (n : ℕ) (m : Matrix) (k a b x y : ℕ)
    → IsSquare n m
    → a + k * 2 ≤ n
    → b + k * 2 ≤ n
    → cell (join_pods m k (range a (k * 2)) (range b (k * 2))) x y
      ≡ (if pods a b k x y || pods a b k y x then 1 else cell m x y)
unfolding join_pods
cell-join_pods n m zero a b x y v ha hb = ground arith
cell-join_pods n m (suc k) a b x y v ha hb =
    let m' = join_all m (range a 2) (range b 2) in
    let v' : IsSquare n m' =
      join_all-IsSquare n m (range a 2) (range b 2) v (range-Below a 2 n (omega (arith, ha)))
        (range-Below b 2 n (omega (arith, hb))) in
    let rest =
      cell-join_pods n m' k (a + 2) (b + 2) x y v' (omega (arith, ha)) (omega (arith, hb)) in
    let pair = cell-layers n m a 2 b 2 x y v (omega (arith, ha)) (omega (arith, hb)) in
    rw (first_pair a k, first_pair b k, other_pairs a k, other_pairs b k)
      (rest
        ∙ rw (pods-suc a b k x y, pods-suc a b k y x, pair)
            (mix (within a 2 x && within b 2 y) (within a 2 y && within b 2 x)
              (pods (a + 2) (b + 2) k x y) (pods (a + 2) (b + 2) k y x) 1 (cell m x y)))

-- In a fat tree a link joins each core switch with each aggregation switch, and each aggregation
-- switch with the two edge switches of its pod, and there is no other.
pub gen_fat_tree_lem :
    (n x y : ℕ)
    → cell (gen_fat_tree n) x y ≡ (
        if layers 0 (core_num n) (core_num n) (core_num n * 2) x y
          || (pods (core_num n) (core_num n + core_num n * 2) (core_num n) x y
              || pods (core_num n) (core_num n + core_num n * 2) (core_num n) y x)
        then 1
        else 0)
unfolding gen_fat_tree
gen_fat_tree_lem n x y =
    let l1 = core_num n in
    let size = l1 * 5 in
    let m = join_all (zeros size) (range 0 l1) (range l1 (l1 * 2)) in
    let v : IsSquare size m =
      join_all-IsSquare size (zeros size) (range 0 l1) (range l1 (l1 * 2)) (zeros-IsSquare size)
        (range-Below 0 l1 size (omega arith)) (range-Below l1 (l1 * 2) size (omega arith)) in
    let low =
      cell-layers size (zeros size) 0 l1 l1 (l1 * 2) x y (zeros-IsSquare size) (omega arith)
        (omega arith) in
    let high = cell-join_pods size m l1 l1 (l1 + l1 * 2) x y v (omega arith) (omega arith) in
    high ∙ ground (arith, low, cell-zeros size x y)
