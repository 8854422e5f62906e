-- ===== src/Network/Start/Compile/Whole.antt =====
-- src/Network_API_l.py: `compile` for all the switches of a network.
use mathlib.Core.List.{Memᴰ}
use mathlib.Core.Path.{subst}
use smoothie.Base.{
  String, ◌≡◌, sym, ap, ◌∙◌, ◌≢◌, ◌⊎◌, inl, inr, List, [], ◌∷◌, arith, ◌==◌, nat_eq, string_eq,
  pair_eq, Bool-cases,
}
use smoothie.Base.Error.{Result, ok}
use smoothie.Base.Exec.{◌>>=◌}
use smoothie.Base.Exec.{Ensures, >>=-Ensures}
use smoothie.Network.Value.{Attrs}
use smoothie.Network.Mininet.{Mininet}
use smoothie.Network.Ids.{p4switches}
use smoothie.Network.Start.{Boot, World, on_api, for_each}
use smoothie.Network.Start.Compile.{compile_switch, compile}
use smoothie.Network.Start.Compile.Outputs.{
  Source, Built, Built-Later, Source-Later, compile_switch-Built, compile_switch-Later,
}

module _ (mn : Mininet) (w : World) (x path : String) where
  abbrev IsBuilt : Boot → Type 0
  IsBuilt = Built mn w x path

  abbrev HasSource : Boot → Type 0
  HasSource = Source mn w x path

  Built-Source : (t : Boot) → IsBuilt t → HasSource t
  Built-Source t (c, (m, src, (a, is_switch, json))) = (a, is_switch)

  -- a switch of the same name, or another
  self_or_other : (p : String × Attrs) → (p ≡ (x, p.1)) ⊎ (p.0 ≢ x)
  self_or_other (y, info) = elim (Bool-cases (y == x)) [
    | inl e ↦ inl (ap (λ n. (n, info)) ((string_eq.beq_iff y x).0 e))
    | inr e ↦ inr (λ f. ground (arith, e, f, string_eq.beq_iff y x))
  ]

  self-Built :
      (p : String × Attrs)
      → p ≡ (x, p.1)
      → Ensures HasSource (compile_switch mn w p) (λ u t. IsBuilt t)
  self-Built p e s t u h q =
      compile_switch-Built mn w x path p.1 s t u h (ap (λ n. compile_switch mn w n s) (sym e) ∙ q)

  step-Built : (p : String × Attrs) → Ensures IsBuilt (compile_switch mn w p) (λ u t. IsBuilt t)
  step-Built p s t u h e = elim (self_or_other p) [
    | inl q ↦ self-Built p q s t u (Built-Source s h) e
    | inr q ↦ subst IsBuilt (ap (λ (r : Result Unit × Boot). r.1) e) (
        Built-Later mn w x path s (compile_switch mn w p s).1 h
          (compile_switch-Later mn w x path p s q))
  ]

  step-Source :
      (p : String × Attrs) → Ensures HasSource (compile_switch mn w p) (λ u t. HasSource t)
  step-Source p s t u h e = elim (self_or_other p) [
    | inl q ↦ Built-Source t (self-Built p q s t u h e)
    | inr q ↦ subst HasSource (ap (λ (r : Result Unit × Boot). r.1) e) (
        Source-Later mn w x path s (compile_switch mn w p s).1 h
          (compile_switch-Later mn w x path p s q))
  ]

  rest-Built :
      (ps : List (String × Attrs))
      → Ensures IsBuilt (for_each ps (compile_switch mn w)) (λ u t. IsBuilt t)
  unfolding for_each
  rest-Built [] s t u h e = subst IsBuilt (ap (λ (p : Result Unit × Boot). p.1) e) h
  rest-Built (p ∷ ps) s t u h e =
      >>=-Ensures IsBuilt (compile_switch mn w p) (λ u t. IsBuilt t)
        (λ u. for_each ps (compile_switch mn w)) (λ u t. IsBuilt t) (step-Built p)
        (λ u. rest-Built ps) s t u h e

  each-Built :
      (ps : List (String × Attrs)) (info : Attrs)
      → Memᴰ (x, info) ps
      → Ensures HasSource (for_each ps (compile_switch mn w)) (λ u t. IsBuilt t)
  unfolding for_each
  each-Built [] info m s t u h e = elim m [ ]
  each-Built (p ∷ ps) info (Memᴰ.head q) s t u h e =
      >>=-Ensures HasSource (compile_switch mn w p) (λ u t. IsBuilt t)
        (λ u. for_each ps (compile_switch mn w)) (λ u t. IsBuilt t)
        (self-Built p (sym q ∙ ap (λ (n : String × Attrs). (x, n.1)) q)) (λ u. rest-Built ps) s t u
        h e
  each-Built (p ∷ ps) info (Memᴰ.tail m) s t u h e =
      >>=-Ensures HasSource (compile_switch mn w p) (λ u t. HasSource t)
        (λ u. for_each ps (compile_switch mn w)) (λ u t. IsBuilt t) (step-Source p)
        (λ u. each-Built ps info m) s t u h e

  -- When `compile` returns, a P4 switch that has a source and is no Tofino has the path of the JSON
  -- file of a compiler that is kept and was made for this source, whatever the other switches have.
  pub compile-Built :
      (ps : List (String × Attrs)) (info : Attrs) (s t : Boot)
      → p4switches mn s.api.g ≡ ok ps
      → Memᴰ (x, info) ps
      → HasSource s
      → compile mn w s ≡ (ok tt, t)
      → IsBuilt t
  unfolding compile
  compile-Built ps info s t all m src e =
      each-Built ps info m s t tt src (rw (all, compile, on_api, ◌>>=◌) at e)
