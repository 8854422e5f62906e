-- ===== src/Collector/NetGraph/Weights/Frame.antt =====
-- The weight of a path depends on its own links only.
use smoothie.Base.{
  String, ◌≡◌, refl, sym, ap, ◌⊎◌, inl, inr, none, some, [], ◌∷◌, nat_eq, string_eq, pair_eq,
}
use smoothie.Base.Dict.{put, get-put_ne}
use smoothie.Base.Error.{ok}
use smoothie.Collector.NetGraph.Env.{Env, NetGraph, Node, Route}
use smoothie.Collector.NetGraph.Weights.{add_edge, weight_loop, weight_path}

-- The link from `a` to `b` is one of the path that goes on from `src`.
abbrev pub On : String → String → Node → Route → Type 0
On a b src [] = ⊥
On a b src (n ∷ p) = ((src ≡ some a) × (n ≡ some b)) ⊎ On a b n p

abbrev pub OnPath : String → String → Route → Type 0
OnPath a b [] = ⊥
OnPath a b (src ∷ p) = On a b src p

module _ (env : Env) (g : NetGraph env) (a b : String) (v : env.Weight) where
  abbrev changed : NetGraph env
  changed = record g { weights = put g.weights (a, b) v }

  add_edge_frame :
      (w : env.Weight) (m n : Node)
      → ¬ ((m ≡ some a) × (n ≡ some b))
      → add_edge env changed w m n ≡ add_edge env g w m n
  unfolding add_edge
  add_edge_frame w none n h = refl
  add_edge_frame w (some c) none h = refl
  add_edge_frame w (some c) (some d) h = rw (
    get-put_ne g.weights (a, b) (c, d) v
        (λ e. h (
          ap (λ (q : String × String). some (q.0)) (sym e),
          ap (λ (q : String × String). some (q.1)) (sym e),
        )),
    add_edge,
  )

  weight_loop_frame :
      (w : env.Weight) (src : Node) (p : Route)
      → ¬ On a b src p
      → weight_loop env changed w src p ≡ weight_loop env g w src p
  unfolding weight_loop
  weight_loop_frame w src [] h = refl
  weight_loop_frame w src (n ∷ p) h =
      rw (add_edge_frame w src n (λ q. h (inl q)))
        (weight_loop_frame (add_edge env g w src n) n p (λ q. h (inr q)))

  -- A new weight of a link that is not on a path leaves the weight of the path as it was.
  pub weight_path_frame :
      (p : Route) → ¬ OnPath a b p → weight_path env changed p ≡ weight_path env g p
  unfolding weight_path
  weight_path_frame [] h = refl
  weight_path_frame (src ∷ p) h = ap ok (weight_loop_frame env.zero_weight src p h)
