-- ===== src/Topo/Cells.antt =====
-- The cells of a matrix after links are written into it.
use smoothie.Base.{
  ℕ, zero, suc, ◌+◌, ◌≤◌, ◌<◌, ◌≡◌, refl, sym, ◌∙◌, inl, inr, Bool, ◌&&◌, ◌||◌, List, [], ◌∷◌,
  arith, ltb, leb, if◌then◌else◌, ◌==◌, nat_eq, string_eq, pair_eq, Bool-cases, length, get_or, set,
  replicate, length-set, length-replicate, get_or-set_self, get_or-set_ne, get_or-replicate,
  contains, All,
}
use smoothie.Topo.{Matrix, zeros, range, put_cell, join_row, join_all}

abbrev pub cell : Matrix → ℕ → ℕ → ℕ
cell m x y = get_or (get_or m x []) y 0

pub record IsSquare (n : ℕ) (m : Matrix) : Type 0 where
  pub rows : length m ≡ n
  pub columns : (x : ℕ) → x < n → length (get_or m x []) ≡ n

get_or-set {ℓ} :
    {A : Type ℓ} (xs : List A) (i j : ℕ) (v d : A)
    → i < length xs
    → get_or (set xs i v) j d ≡ (if i == j then v else get_or xs j d)
get_or-set xs i j v d h = elim (Bool-cases (i == j)) [
  | inl q ↦ rw (q, sym ((nat_eq.beq_iff i j).0 q)) (get_or-set_self xs i v d h)
  | inr q ↦ rw q (get_or-set_ne xs i j v d (λ e. ground (arith, q, e, nat_eq.beq_iff i j)))
]

cell-put_cell :
    (n : ℕ) (m : Matrix) (i j x y : ℕ)
    → IsSquare n m
    → i < n
    → j < n
    → cell (put_cell m i j) x y ≡ (if i == x && j == y then 1 else cell m x y)
cell-put_cell n m i j x y v hi hj =
    let row = get_or-set m i x (set (get_or m i []) j 1) [] (omega (arith, v.rows, hi)) in
    let col = get_or-set (get_or m i []) j y 1 0 (omega (arith, v.columns i hi, hj)) in
    elim (Bool-cases (i == x)) [
      | inr q ↦ rw (q, row, q) refl
      | inl q ↦ rw (q, row, q, col, sym ((nat_eq.beq_iff i x).0 q)) refl
    ]

put_cell-IsSquare :
    (n : ℕ) (m : Matrix) (i j : ℕ) → IsSquare n m → i < n → IsSquare n (put_cell m i j)
put_cell-IsSquare n m i j v hi = record {
  rows = length-set m i (set (get_or m i []) j 1) ∙ v.rows;
  columns = λ x h.
      let row = get_or-set m i x (set (get_or m i []) j 1) [] (omega (arith, v.rows, hi)) in
      elim (Bool-cases (i == x)) [
        | inr q ↦ rw (row, q) (v.columns x h)
        | inl q ↦ rw (row, q) (length-set (get_or m i []) j 1 ∙ v.columns i hi)
      ];
}

get_or-replicate_in {ℓ} : {A : Type ℓ} (n x : ℕ) (a d : A) → x < n → get_or (replicate n a) x d ≡ a
get_or-replicate_in zero x a d h = absurd (omega arith)
get_or-replicate_in (suc n) zero a d h = refl
get_or-replicate_in (suc n) (suc x) a d h = get_or-replicate_in n x a d (omega arith)

pub zeros-IsSquare : (n : ℕ) → IsSquare n (zeros n)
zeros-IsSquare n = record {
  rows = length-replicate n (replicate n 0);
  columns = λ x h.
      rw (get_or-replicate_in {A = List ℕ} n x (replicate n 0) [] h) (length-replicate {A = ℕ} n 0);
}

row_of_zeros : (k n x y : ℕ) → cell (replicate k (replicate n 0)) x y ≡ 0
row_of_zeros zero n x y = refl
row_of_zeros (suc k) n zero y = get_or-replicate n y 0
row_of_zeros (suc k) n (suc x) y = row_of_zeros k n x y

pub cell-zeros : (n x y : ℕ) → cell (zeros n) x y ≡ 0
cell-zeros n x y = row_of_zeros n n x y

-- All numbers of the list are below `n`.
abbrev pub Below : ℕ → List ℕ → Type 0
Below n = All (λ x. x < n)

-- what two lists of switches that are linked give
abbrev pub across : List ℕ → List ℕ → ℕ → ℕ → Bool
across is js x y = (contains x is && contains y js) || (contains y is && contains x js)

abbrev beside : ℕ → List ℕ → ℕ → ℕ → Bool
beside i js x y = (i == x && contains y js) || (i == y && contains x js)

join_row-IsSquare :
    (n : ℕ) (m : Matrix) (i : ℕ) (js : List ℕ)
    → IsSquare n m
    → i < n
    → Below n js
    → IsSquare n (join_row m i js)
unfolding join_row
join_row-IsSquare n m i [] v hi b = v
join_row-IsSquare n m i (j ∷ js) v hi b =
    join_row-IsSquare n _ i js (put_cell-IsSquare n _ j i (put_cell-IsSquare n m i j v hi) b.0) hi
      b.1

cell-join_row :
    (n : ℕ) (m : Matrix) (i : ℕ) (js : List ℕ) (x y : ℕ)
    → IsSquare n m
    → i < n
    → Below n js
    → cell (join_row m i js) x y ≡ (if beside i js x y then 1 else cell m x y)
unfolding join_row
cell-join_row n m i [] x y v hi b = ground arith
cell-join_row n m i (j ∷ js) x y v hi b =
    let v1 = put_cell-IsSquare n m i j v hi in
    let v2 = put_cell-IsSquare n (put_cell m i j) j i v1 b.0 in
    let rest = cell-join_row n (put_cell (put_cell m i j) j i) i js x y v2 hi b.1 in
    let one = cell-put_cell n (put_cell m i j) j i x y v1 b.0 hi in
    let two = cell-put_cell n m i j x y v hi b.0 in rest ∙ ground (arith, one, two)

pub join_all-IsSquare :
    (n : ℕ) (m : Matrix) (is js : List ℕ)
    → IsSquare n m
    → Below n is
    → Below n js
    → IsSquare n (join_all m is js)
unfolding join_all
join_all-IsSquare n m [] js v a b = v
join_all-IsSquare n m (i ∷ is) js v a b =
    join_all-IsSquare n (join_row m i js) is js (join_row-IsSquare n m i js v a.0 b) a.1 b

pub cell-join_all :
    (n : ℕ) (m : Matrix) (is js : List ℕ) (x y : ℕ)
    → IsSquare n m
    → Below n is
    → Below n js
    → cell (join_all m is js) x y ≡ (if across is js x y then 1 else cell m x y)
unfolding join_all
cell-join_all n m [] js x y v a b = ground arith
cell-join_all n m (i ∷ is) js x y v a b =
    let rest =
      cell-join_all n (join_row m i js) is js x y (join_row-IsSquare n m i js v a.0 b) a.1 b in
    let row = cell-join_row n m i js x y v a.0 b in rest ∙ ground (arith, row)

pub range-Below : (a k n : ℕ) → a + k ≤ n → Below n (range a k)
unfolding range
range-Below a zero n h = tt
range-Below a (suc k) n h = (omega (arith, h), range-Below (a + 1) k n (omega (arith, h)))

pub contains-range : (a k x : ℕ) → contains x (range a k) ≡ (leb a x && ltb x (a + k))
unfolding range
contains-range a zero x = ground arith
contains-range a (suc k) x = ground (arith, contains-range (a + 1) k x)
