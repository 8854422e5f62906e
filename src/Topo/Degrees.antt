-- ===== src/Topo/Degrees.antt =====
-- src/topos/TopoGenerator.py: `calOddNum`, the number of switches that have an odd number of links.
use smoothie.Base.{
  ℕ, zero, suc, ◌+◌, ◌%◌, List, if◌then◌else◌, ◌==◌, nat_eq, string_eq, pair_eq, get_elem?,
}
use smoothie.Base.Error.{index_error, Result, ok, or_raise, ◌>>=◌}
use smoothie.Topo.{Matrix}

-- the sum of the first `n` cells from place `j` of a row
unfoldable pub degree_sum : List ℕ → ℕ → ℕ → Result ℕ
degree_sum row j zero = ok 0
degree_sum row j (suc n) = do
  x ← or_raise index_error (get_elem? row j)
  rest ← degree_sum row (j + 1) n
  ok (x + rest)

-- the rows from place `i`, `rows` of them
unfoldable pub odd_rows : Matrix → ℕ → ℕ → ℕ → Result ℕ
odd_rows m s_num i zero = ok 0
odd_rows m s_num i (suc rows) = do
  row ← or_raise index_error (get_elem? m i)
  degree ← degree_sum row 0 s_num
  rest ← odd_rows m s_num (i + 1) rows
  ok ((if degree % 2 == 1 then 1 else 0) + rest)

-- `calOddNum`
unfoldable pub cal_odd_num : Matrix → ℕ → Result ℕ
cal_odd_num m s_num = odd_rows m s_num 0 s_num
