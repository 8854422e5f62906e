-- ===== src/Tests/Choices.antt =====
-- src/int_collector_influx.py: digests, weights and the choice of a path.
use smoothie.Base.{ℕ, ◌≡◌, refl, some, [], ◌∷◌, arith, nat_eq, string_eq, pair_eq, get_elem?}
use smoothie.Base.Dict.{get}
use smoothie.Base.Error.{ok}
use smoothie.Collector.NetGraph.Env.{Route}
use smoothie.Collector.NetGraph.Weights.{add_edge, weight_loop, weight_path, compare_paths}
use smoothie.Collector.NetGraph.Paths.{choose, drawn}
use smoothie.Collector.NetGraph.Paths.Choice.{IsAsymmetric, IsLighter, choose-IsLighter}
use smoothie.Tests.Setup.{example_env, network, direct, detour}

ltb_asymmetric : IsAsymmetric example_env
ltb_asymmetric a b h = ground arith

abbrev both_places : ℕ → ℕ × ℕ
both_places n = (0, 1)

choose_runs : choose example_env network both_places (direct ∷ detour ∷ []) ≡ ok (some detour)
unfolding choose drawn compare_paths weight_path weight_loop add_edge get
choose_runs = refl

choose-IsLighter_example :
    (p1 : Route) × (p2 : Route) × (get_elem? (direct ∷ detour ∷ []) 0 ≡ some p1)
    × (get_elem? (direct ∷ detour ∷ []) 1 ≡ some p2)
    × IsLighter example_env network p1 p2 detour
choose-IsLighter_example =
    choose-IsLighter example_env ltb_asymmetric network both_places (direct ∷ detour ∷ []) detour
      (omega arith) choose_runs
