-- ===== src/Collector/PathInfos/Regression/Exact.antt =====
-- src/int_collector_influx.py, `linreg`: the line through weights that lie on a line that does not fall.
use mathlib.Core.Path.{subst}
use smoothie.Base.{
  ℕ, zero, suc, ◌+◌, ◌-◌, ◌*◌, ◌/◌, ◌≤◌, ◌<◌, ◌≡◌, refl, ap, ◌∙◌, Option, none, some, List, [], ◌∷◌,
  arith, ltb, if◌then◌else◌, ◌==◌, nat_eq, string_eq, pair_eq, length, take, length-take, false,
}
use smoothie.Base.Error.{Result, ok, >>=-eq-ok}
use smoothie.Collector.PathInfos.{PathInfos, get_len}
use smoothie.Collector.PathInfos.Regression.{
  Numbers, Sums, samples, insert, sorted, sums, fit, linreg,
}

-- Weights as natural numbers. A difference stops at 0 and a quotient is cut, as no float does; on a
-- line that does not fall, every difference is at least 0 and every quotient is whole.
abbrev pub naturals : Numbers ℕ
naturals = record {
  of_ℕ = λ n. n;
  add = λ x y. x + y;
  sub = λ x y. x - y;
  mul = λ x y. x * y;
  div = λ x y. x / y;
  is_zero = λ x. x == 0;
  lt = ltb;
}

-- the weights are a * k + b for the places k from `k` on
abbrev pub OnLine : ℕ → ℕ → ℕ → List (ℕ × ℕ) → Type 0
OnLine a b k [] = Unit
OnLine a b k ((t, y) ∷ ps) = (y ≡ a * k + b) × OnLine a b (k + 1) ps

-- what the sums are after `k` places
record AfterSums (a b k : ℕ) (s : Sums ℕ) : Type 0 where
  twice_x : s.sx * 2 + k ≡ k * k
  y : s.sy ≡ a * s.sx + b * k
  xy : s.sxy ≡ a * s.sxx + b * s.sx
  spread : (d : ℕ) × (s.sxx * k ≡ s.sx * s.sx + d) × (k ≤ 1 + d)

spread_step :
    (sx sxx k d : ℕ)
    → sx * 2 + k ≡ k * k
    → sxx * k ≡ sx * sx + d
    → (sxx + k * k) * (k + 1) ≡ (sx + k) * (sx + k) + (d + sxx + k * k)
spread_step sx sxx k d x e =
    let scaled : (sx * 2 + k) * k ≡ k * k * k = ap (λ n. n * k) x in grind arith

wide_step : (sxx k d : ℕ) → k ≤ 1 + d → k + 1 ≤ 1 + (d + sxx + k * k)
wide_step sxx zero d h = omega arith
wide_step sxx (suc k) d h = grind arith

twice_step : (sx k : ℕ) → sx * 2 + k ≡ k * k → (sx + k) * 2 + (k + 1) ≡ (k + 1) * (k + 1)
twice_step sx k x = grind arith

y_step :
    (a b k sx sy y : ℕ) → sy ≡ a * sx + b * k → y ≡ a * k + b → sy + y ≡ a * (sx + k) + b * (k + 1)
y_step a b k sx sy y e f = grind arith

xy_step :
    (a b k sx sxx sxy y : ℕ)
    → sxy ≡ a * sxx + b * sx
    → y ≡ a * k + b
    → sxy + k * y ≡ a * (sxx + k * k) + b * (sx + k)
xy_step a b k sx sxx sxy y e f = rw (e, f) (grind arith)

sums-AfterSums :
    (a b k : ℕ) (ps : List (ℕ × ℕ)) (s : Sums ℕ)
    → OnLine a b k ps
    → AfterSums a b k s
    → AfterSums a b (k + length ps) (sums naturals k ps s)
unfolding sums
sums-AfterSums a b k [] s h i = subst (λ n. AfterSums a b n s) (omega arith) i
sums-AfterSums a b k ((t, y) ∷ ps) s h i =
    let (d, wide, many) = i.spread in
    let next : k + 1 + length ps ≡ k + suc (length ps) = omega arith in
    subst (λ n. AfterSums a b n (sums naturals k ((t, y) ∷ ps) s)) next
      (sums-AfterSums a b (k + 1) ps _ h.1 (record {
        twice_x = twice_step s.sx k i.twice_x;
        y = y_step a b k s.sx s.sy y i.y h.0;
        xy = xy_step a b k s.sx s.sxx s.sxy y i.xy h.0;
        spread = (
          d + s.sxx + k * k,
          spread_step s.sx s.sxx k d i.twice_x wide,
          wide_step s.sxx k d many,
        );
      }))

det_lem : (sx sxx n d : ℕ) → sxx * n ≡ sx * sx + d → sxx * n - sx * sx ≡ d
det_lem sx sxx n d e = omega (arith, e)

slope_lem :
    (a b n sx sxx sy sxy d : ℕ)
    → sy ≡ a * sx + b * n
    → sxy ≡ a * sxx + b * sx
    → sxx * n ≡ sx * sx + d
    → sxy * n - sy * sx ≡ a * d
slope_lem a b n sx sxx sy sxy d y xy e =
    let whole : sxy * n ≡ sy * sx + a * d =
      (let scaled : a * (sxx * n) ≡ a * (sx * sx + d) = ap (λ m. a * m) e in
        rw (y, xy) (grind arith)) in
    omega (arith, whole)

start_lem :
    (a b n sx sxx sy sxy d : ℕ)
    → sy ≡ a * sx + b * n
    → sxy ≡ a * sxx + b * sx
    → sxx * n ≡ sx * sx + d
    → sxx * sy - sx * sxy ≡ b * d
start_lem a b n sx sxx sy sxy d y xy e =
    let whole : sxx * sy ≡ sx * sxy + b * d =
      (let scaled : b * (sxx * n) ≡ b * (sx * sx + d) = ap (λ m. b * m) e in
        rw (y, xy) (grind arith)) in
    omega (arith, whole)

times-divided : (a d : ℕ) → 0 < d → a * d / d ≡ a
times-divided a d h = grind arith

pair_lem :
    (det slope start a b d : ℕ)
    → det ≡ d
    → slope ≡ a * d
    → start ≡ b * d
    → 0 < d
    → if◌then◌else◌ {A = Option (ℕ × ℕ)} (det == 0) none (some (slope / det, start / det))
      ≡ some (a, b)
pair_lem det slope start a b d e f g h =
    let there : (d == 0) ≡ false = ground (arith, nat_eq.beq_iff d 0) in
    rw (e, f, g) (rw (there, times-divided a d h, times-divided b d h) refl)

no_sums : Sums ℕ
no_sums = record { sx = 0; sy = 0; sxx = 0; sxy = 0 }

fit-OnLine :
    (a b n : ℕ) (ps : List (ℕ × ℕ))
    → 2 ≤ n
    → length ps ≡ n
    → OnLine a b 0 ps
    → fit naturals n ps ≡ some (a, b)
unfolding fit no_sums
fit-OnLine a b n ps big len h =
    let s = sums naturals 0 ps no_sums in
    let i : AfterSums a b n s =
      subst (λ m. AfterSums a b m s) (let e : 0 + length ps ≡ n = omega (arith, len) in e)
        (sums-AfterSums a b 0 ps no_sums h (record {
          twice_x = refl;
          y = omega arith;
          xy = omega arith;
          spread = (0, refl, omega arith);
        })) in
    let (d, wide, many) = i.spread in
    let det = det_lem s.sx s.sxx n d wide in
    let slope = slope_lem a b n s.sx s.sxx s.sy s.sxy d i.y i.xy wide in
    let start = start_lem a b n s.sx s.sxx s.sy s.sxy d i.y i.xy wide in
    pair_lem _ _ _ a b d det slope start (omega (arith, many, big))

insert-length : (p : ℕ × ℕ) (ps : List (ℕ × ℕ)) → length (insert naturals p ps) ≡ suc (length ps)
unfolding insert
insert-length p [] = refl
insert-length p (q ∷ qs) = ground (arith, insert-length p qs)

length-sorted : (ps : List (ℕ × ℕ)) → length (sorted naturals ps) ≡ length ps
unfolding sorted
length-sorted [] = refl
length-sorted (p ∷ ps) = insert-length p (sorted naturals ps) ∙ ap suc (length-sorted ps)

ok_same_length :
    (ps qs : List (ℕ × ℕ)) → ◌≡◌ {A = Result (List (ℕ × ℕ))} (ok ps) (ok qs) → length qs ≡ length ps
ok_same_length ps qs h = let e : qs ≡ ps = cc in ap length e

length-samples :
    (ts : List ℕ) (ws : List (Option ℕ)) (ps : List (ℕ × ℕ))
    → samples naturals ts ws ≡ ok ps
    → length ts ≡ length ws
    → length ps ≡ length ts
unfolding samples
length-samples [] [] ps e h = ok_same_length [] ps e
length-samples [] (w ∷ ws) ps e h = absurd (omega (arith, h))
length-samples (t ∷ ts) [] ps e h = absurd (omega (arith, h))
length-samples (t ∷ ts) (none ∷ ws) ps e h = cc
length-samples (t ∷ ts) (some w ∷ ws) ps e h =
    let (rest, f, k) = >>=-eq-ok (samples naturals ts ws) _ e in
    ok_same_length ((t, w) ∷ rest) ps k ∙ ap suc (length-samples ts ws rest f (omega (arith, h)))

-- Where the weights of a ring are natural numbers and, in the order of their times, the points at 0,
-- 1, 2 and so on of a line that does not fall, with a natural slope and start, and there are at least
-- two, the regression in natural numbers gives this line.
pub linreg-OnLine :
    (p : PathInfos ℕ) (a b : ℕ) (ps : List (ℕ × ℕ))
    → samples naturals (take p.len p.times) (take p.len p.weights) ≡ ok ps
    → p.len ≤ length p.times
    → p.len ≤ length p.weights
    → 2 ≤ p.len
    → OnLine a b 0 (sorted naturals ps)
    → linreg naturals p ≡ ok (some (a, b))
unfolding linreg get_len
linreg-OnLine p a b ps e times weights big h =
    let cut =
      length-samples _ _ ps e
        (omega (arith, length-take p.len p.times, length-take p.len p.weights, times, weights)) in
    let many : length (sorted naturals ps) ≡ p.len =
      omega (arith, length-sorted ps, cut, length-take p.len p.times, times) in
    rw e (ap ok (fit-OnLine a b p.len (sorted naturals ps) big many h))
