-- ===== src/Collector/PathInfos.antt =====
-- src/int_collector_influx.py, class `path_infos`: the last weights measured on a path, in a ring.
-- A weight is of any type; a time is a number of clock ticks.
pub mod Window
pub mod Regression
use smoothie.Base.{
  ℕ, ◌+◌, ◌%◌, min, Option, none, some, List, arith, ltb, if◌then◌else◌, ◌==◌, nat_eq, string_eq,
  pair_eq, length, get_or, set, replicate,
}
use smoothie.Base.Error.{Result, ok, guard, index_error, ◌>>◌}

pub record PathInfos {ℓ} (W : Type ℓ) : Type ℓ where
  pub index : ℕ
  pub len : ℕ
  pub size : ℕ
  pub weights : List (Option W)
  pub times : List ℕ
  pub time_elapsed : ℕ
  pub last_t : ℕ
  pub first_t : ℕ

module _ {ℓ} {W : Type ℓ} where
  -- `__init__`; the program leaves `size` at 10
  unfoldable pub init : ℕ → PathInfos W
  init size = record {
    index = 0;
    len = 0;
    size = size;
    weights = replicate size none;
    times = replicate size 0;
    time_elapsed = 0;
    last_t = 0;
    first_t = 0;
  }

  unfoldable pub get_len : PathInfos W → ℕ
  get_len p = p.len

  -- what `add_weight` leaves in `first_t`, from the times with the new one written
  first_time : PathInfos W → List ℕ → ℕ → ℕ
  first_time p times t =
      if p.len == 0
      then t
      else if p.len == p.size
      then get_or times ((p.index + 1) % p.size) 0
      else p.first_t

  written : PathInfos W → W → ℕ → PathInfos W
  written p w t =
      let times = set p.times p.index t in
      record p {
        weights = set p.weights p.index (some w);
        times = times;
        last_t = t;
        first_t = first_time p times t;
        index = (p.index + 1) % p.size;
        len = min (p.len + 1) p.size;
      }

  -- A ring of size 0 has no place to write to.
  unfoldable pub add_weight : PathInfos W → W → ℕ → Result (PathInfos W)
  unfolding written first_time
  add_weight p w t = do guard (ltb p.index (length p.weights)) index_error; ok (written p w t)
