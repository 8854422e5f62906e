-- ===== src/Collector/NetGraph/Paths.antt =====
-- src/int_collector_influx.py, `NetGraph.select_path`: the lighter of two candidates.
pub mod Choice
use smoothie.Base.{
  ℕ, ◌+◌, String, Option, none, some, List, [], ◌∷◌, map, arith, nat_eq, string_eq, pair_eq, length,
  get_elem?,
}
use smoothie.Base.Dict.{get, put}
use smoothie.Base.Error.{index_error, Result, ok, err, or_raise, ◌>>=◌, ◌>>◌}
use smoothie.Base.Exec.{Exec}
use smoothie.Collector.NetGraph.Env.{Env, NetGraph, Route}
use smoothie.Collector.NetGraph.Weights.{hash_list, compare_paths}

module _ (env : Env) where
  -- The candidates: those of an earlier call, or all the simple paths that have at most `detour`
  -- edges more than a shortest one, which are kept.
  unfoldable pub candidates : String → String → ℕ → Exec (NetGraph env) (List Route)
  candidates src dst detour g =
      let key = hash_list env (src ∷ dst ∷ []) in
      elim (get g.paths key) [
        | some paths ↦ (ok paths, g)
        | none ↦ elim (env.shortest_path_length src dst) [
          | err x ↦ (err x, g)
          | ok spl ↦
              let paths = map (map some) (env.all_simple_paths src dst (spl + detour)) in
              (ok paths, record g { paths = put g.paths key paths })
        ]
      ]

  -- the two paths at `ids`, compared
  unfoldable pub drawn : NetGraph env → List Route → ℕ × ℕ → Result (Option Route)
  drawn g paths ids = do
    p1 ← or_raise index_error (get_elem? paths ids.0)
    p2 ← or_raise index_error (get_elem? paths ids.1)
    r ← compare_paths env g p1 p2
    ok (some r)

  -- `random.sample` draws two places, which may depend on how many there are.
  unfoldable pub choose : NetGraph env → (ℕ → ℕ × ℕ) → List Route → Result (Option Route)
  choose g draw [] = ok none
  choose g draw (p ∷ []) = ok (some p)
  choose g draw (p ∷ q ∷ ps) = drawn g (p ∷ q ∷ ps) (draw (length (p ∷ q ∷ ps)))

  -- `select_path`
  unfoldable pub select_path :
      (ℕ → ℕ × ℕ) → String → String → ℕ → Exec (NetGraph env) (Option Route)
  select_path draw src dst detour g =
      let (found, g') = candidates src dst detour g in
      elim found [ err x ↦ (err x, g') | ok paths ↦ (choose g' draw paths, g') ]
