-- ===== src/Collector/NetGraph/Paths/Choice.antt =====
-- The path that `select_path` returns.
use smoothie.Base.{
  ℕ, ◌≤◌, ◌≡◌, sym, ap, ◌∙◌, ◌⊎◌, inl, inr, true, false, some, List, [], ◌∷◌, arith, if◌then◌else◌,
  nat_eq, string_eq, pair_eq, Bool-cases, length, get_elem?,
}
use smoothie.Base.Error.{index_error, ok, or_raise, >>=-eq-ok, or_raise-eq-ok}
use smoothie.Collector.NetGraph.Env.{Env, NetGraph, Route}
use smoothie.Collector.NetGraph.Weights.{weight_path, compare_paths}
use smoothie.Collector.NetGraph.Paths.{drawn, choose}

-- float comparison: of two numbers at most one is the smaller
abbrev pub IsAsymmetric : Env → Type 0
IsAsymmetric env = (a b : env.Weight) → env.lt a b ≡ true → env.lt b a ≡ false

module _ (env : Env) where
  -- `p` is one of the pair, and neither of the two is lighter.
  pub record IsLighter (g : NetGraph env) (p1 p2 p : Route) : Type 0 where
    pub one_of : (p ≡ p1) ⊎ (p ≡ p2)
    pub w1 : env.Weight
    pub w2 : env.Weight
    pub w : env.Weight
    pub weight_p1 : weight_path env g p1 ≡ ok w1
    pub weight_p2 : weight_path env g p2 ≡ ok w2
    pub weight_p : weight_path env g p ≡ ok w
    pub not_less1 : env.lt w1 w ≡ false
    pub not_less2 : env.lt w2 w ≡ false

  irreflexive : IsAsymmetric env → (a : env.Weight) → env.lt a a ≡ false
  irreflexive asym a = elim (Bool-cases (env.lt a a)) [ inl t ↦ asym a a t | inr f ↦ f ]

  compare_paths-IsLighter :
      IsAsymmetric env
      → (g : NetGraph env) (p1 p2 p : Route) (w1 w2 : env.Weight) → weight_path env g p1 ≡ ok w1
      → weight_path env g p2 ≡ ok w2
      → (if env.lt w1 w2 then p1 else p2) ≡ p
      → IsLighter g p1 p2 p
  compare_paths-IsLighter asym g p1 p2 p w1 w2 q1 q2 e = elim (Bool-cases (env.lt w1 w2)) [
    | inl t ↦
        let same : p1 ≡ p = rw t at e in
        record {
          one_of = inl (sym same);
          w1 = w1;
          w2 = w2;
          w = w1;
          weight_p1 = q1;
          weight_p2 = q2;
          weight_p = ap (weight_path env g) (sym same) ∙ q1;
          not_less1 = irreflexive asym w1;
          not_less2 = asym w1 w2 t;
        }
    | inr f ↦
        let same : p2 ≡ p = rw f at e in
        record {
          one_of = inr (sym same);
          w1 = w1;
          w2 = w2;
          w = w2;
          weight_p1 = q1;
          weight_p2 = q2;
          weight_p = ap (weight_path env g) (sym same) ∙ q2;
          not_less1 = f;
          not_less2 = irreflexive asym w2;
        }
  ]

  compare_paths-ok :
      IsAsymmetric env
      → (g : NetGraph env) (p1 p2 p : Route) → compare_paths env g p1 p2 ≡ ok p
      → IsLighter g p1 p2 p
  unfolding compare_paths
  compare_paths-ok asym g p1 p2 p e =
      let (w1, q1, e1) = >>=-eq-ok (weight_path env g p1) _ e in
      let (w2, q2, e2) = >>=-eq-ok (weight_path env g p2) _ e1 in
      compare_paths-IsLighter asym g p1 p2 p w1 w2 q1 q2 (cc e2)

  drawn-IsLighter :
      IsAsymmetric env
      → (g : NetGraph env) (paths : List Route) (ids : ℕ × ℕ) {p : Route}
      → drawn env g paths ids ≡ ok (some p)
      → (p1 : Route) × (p2 : Route) × (get_elem? paths ids.0 ≡ some p1)
        × (get_elem? paths ids.1 ≡ some p2)
        × IsLighter g p1 p2 p
  unfolding drawn
  drawn-IsLighter asym g paths ids {p} e =
      let (p1, d1, e1) = >>=-eq-ok (or_raise index_error (get_elem? paths ids.0)) _ e in
      let (p2, d2, e2) = >>=-eq-ok (or_raise index_error (get_elem? paths ids.1)) _ e1 in
      let (r, c, e3) = >>=-eq-ok (compare_paths env g p1 p2) _ e2 in
      let same : r ≡ p = cc e3 in
      (
        p1,
        p2,
        or_raise-eq-ok index_error _ d1,
        or_raise-eq-ok index_error _ d2,
        compare_paths-ok asym g p1 p2 p (c ∙ ap ok same),
      )

  -- A choice among two or more candidates is one of the two that are drawn, and neither of them is
  -- lighter. Float comparison is asymmetric.
  pub choose-IsLighter :
      IsAsymmetric env
      → (g : NetGraph env) (draw : ℕ → ℕ × ℕ) (paths : List Route) (p : Route) → 2 ≤ length paths
      → choose env g draw paths ≡ ok (some p)
      → (p1 : Route) × (p2 : Route) × (get_elem? paths (draw (length paths)).0 ≡ some p1)
        × (get_elem? paths (draw (length paths)).1 ≡ some p2)
        × IsLighter g p1 p2 p
  unfolding choose
  choose-IsLighter asym g draw [] r h e = absurd (omega arith)
  choose-IsLighter asym g draw (p1 ∷ []) r h e = absurd (omega arith)
  choose-IsLighter asym g draw (p ∷ q ∷ ps) r h e =
      drawn-IsLighter asym g (p ∷ q ∷ ps) (draw (length (p ∷ q ∷ ps))) e
