-- ===== src/Collector/PathInfos/Regression.antt =====
-- src/int_collector_influx.py, `path_infos`: the line through the weights of a ring, in the order of
-- their times. Sums in floating point are a parameter.
pub mod Exact
use smoothie.Base.{
  ℕ, ◌+◌, ◌*◌, Bool, ◌&&◌, ◌||◌, Option, none, some, List, [], ◌∷◌, arith, ltb, if◌then◌else◌, ◌==◌,
  nat_eq, string_eq, pair_eq, take,
}
use smoothie.Base.Error.{type_error, Result, ok, err, ◌>>=◌}
use smoothie.Collector.PathInfos.{PathInfos, get_len}

-- the operations on weights that the sums use
pub record Numbers {ℓ} (W : Type ℓ) : Type ℓ where
  pub of_ℕ : ℕ → W
  pub add : W → W → W
  pub sub : W → W → W
  pub mul : W → W → W
  pub div : W → W → W
  pub is_zero : W → Bool
  pub lt : W → W → Bool

-- Sx, Sy, Sxx and Sxy; Syy is summed and not used.
pub record Sums {ℓ} (W : Type ℓ) : Type ℓ where
  pub sx : W
  pub sy : W
  pub sxx : W
  pub sxy : W

module _ {ℓ} {W : Type ℓ} (num : Numbers W) where
  -- the pairs of times and weights; a place without a weight raises in the sums.
  unfoldable pub samples : List ℕ → List (Option W) → Result (List (ℕ × W))
  samples (t ∷ ts) (some w ∷ ws) = do rest ← samples ts ws; ok ((t, w) ∷ rest)
  samples (t ∷ ts) (none ∷ ws) = err type_error
  samples ts ws = ok []

  -- pairs are compared by their times first
  before : ℕ × W → ℕ × W → Bool
  before (t, w) (u, x) = ltb t u || (t == u && num.lt w x)

  unfoldable pub insert : ℕ × W → List (ℕ × W) → List (ℕ × W)
  unfolding before
  insert p [] = p ∷ []
  insert p (q ∷ qs) = let rest = insert p qs in if before q p then q ∷ rest else p ∷ q ∷ qs

  -- sorted(…)
  unfoldable pub sorted : List (ℕ × W) → List (ℕ × W)
  sorted [] = []
  sorted (p ∷ ps) = insert p (sorted ps)

  -- for x, y in zip(X, Y): …
  unfoldable pub sums : ℕ → List (ℕ × W) → Sums W → Sums W
  sums x [] s = s
  sums x ((t, y) ∷ ps) s =
      let n = num.of_ℕ x in
      sums (x + 1) ps (record {
        sx = num.add s.sx n;
        sy = num.add s.sy y;
        sxx = num.add s.sxx (num.of_ℕ (x * x));
        sxy = num.add s.sxy (num.mul n y);
      })

  -- the line through `n` weights in order; `none` where 0 is returned in place of a pair
  unfoldable pub fit : ℕ → List (ℕ × W) → Option (W × W)
  fit n ps =
      let z = num.of_ℕ 0 in
      let s = sums 0 ps (record { sx = z; sy = z; sxx = z; sxy = z }) in
      let many = num.of_ℕ n in
      let det = num.sub (num.mul s.sxx many) (num.mul s.sx s.sx) in
      if num.is_zero det
      then none
      else some (
        num.div (num.sub (num.mul s.sxy many) (num.mul s.sy s.sx)) det,
        num.div (num.sub (num.mul s.sxx s.sy) (num.mul s.sx s.sxy)) det,
      )

  -- `linreg`
  unfoldable pub linreg : PathInfos W → Result (Option (W × W))
  linreg p = do
    let n = get_len p
    ps ← samples (take n p.times) (take n p.weights)
    ok (fit n (sorted ps))
