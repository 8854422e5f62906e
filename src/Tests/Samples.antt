-- ===== src/Tests/Samples.antt =====
-- src/int_collector_influx.py, `path_infos`: a ring with one sample.
use smoothie.Base.{refl, some, List, take, ℕ, ◌≡◌, [], ◌∷◌, arith, nat_eq, string_eq, pair_eq}
use smoothie.Base.Error.{ok}
use smoothie.Collector.PathInfos.{PathInfos, init, add_weight}
use smoothie.Collector.PathInfos.Regression.{samples, sorted, insert, linreg}
use smoothie.Collector.PathInfos.Regression.Exact.{naturals, OnLine, linreg-OnLine}
use smoothie.Collector.PathInfos.Window.{Holds, init-Holds, add_weight-Holds}

add_weight-Holds_example :
    (q : PathInfos ℕ) × (add_weight (init 10) 7 100 ≡ ok q) × Holds q ((7, 100) ∷ [])
add_weight-Holds_example = add_weight-Holds (init 10) [] 7 100 (init-Holds 10 (omega arith))

-- a full ring of three samples, the oldest of them at the second place
abbrev ring : PathInfos ℕ
ring = record {
  index = 1;
  len = 3;
  size = 3;
  weights = some 7 ∷ some 3 ∷ some 5 ∷ [];
  times = 30 ∷ 10 ∷ 20 ∷ [];
  time_elapsed = 0;
  last_t = 30;
  first_t = 10;
}

abbrev ring_samples : List (ℕ × ℕ)
ring_samples = (30, 7) ∷ (10, 3) ∷ (20, 5) ∷ []

samples_run :
    samples naturals (take ring.len ring.times) (take ring.len ring.weights) ≡ ok ring_samples
unfolding samples
samples_run = refl

on_line : OnLine 2 3 0 (sorted naturals ring_samples)
unfolding sorted insert
on_line = (refl, (refl, (refl, tt)))

linreg-OnLine_example : linreg naturals ring ≡ ok (some (2, 3))
linreg-OnLine_example =
    linreg-OnLine ring 2 3 ring_samples samples_run (omega arith) (omega arith) (omega arith)
      on_line
