-- ===== src/Network/Start/Compile/Compiled.antt =====
-- Every compiler that is kept has compiled.
use mathlib.Core.List.{Memᴰ}
use mathlib.Core.Path.{subst}
use smoothie.Base.{
  String, ◌≡◌, sym, ap, Bool, true, false, inl, inr, Bool-cases, Option-cases, Option, none, some,
  List, [], ◌∷◌, if◌then◌else◌, nat_eq, string_eq, pair_eq, All, All-snoc,
}
use smoothie.Base.Dict.{get}
use smoothie.Base.Error.{Result, ok, Result-cases}
use smoothie.Base.Exec.{Exec, pure, lift, ◌>>=◌, ◌>>◌}
use smoothie.Base.Exec.{>>=_keeps}
use smoothie.Network.Value.{Value, text, Attrs, given}
use smoothie.Network.Mininet.{Net, Mininet}
use smoothie.Network.Ids.{p4switches, is_tofino}
use smoothie.Network.Nodes.{ask, get_node, update_node}
use smoothie.Network.Start.{Boot, World, Compiler, compiles, on_api, act, module_of, for_each}
use smoothie.Network.Start.Compile.{
  path_of, keep_compiler, compile_with, new_compiler, compiler_of, set_outputs, compile_source,
  compile_switch, compile,
}
use smoothie.Network.Start.Compile.Outputs.{Source, BuiltBy}
use smoothie.Network.Start.Compile.Whole.{compile-Built}

module _ (mn : Mininet) (w : World) where
  -- the compilation has succeeded
  abbrev pub IsDone : Compiler → Type 0
  IsDone c = w.compile c ≡ ok tt

  AllDone : Boot → Type 0
  AllDone s = All IsDone s.compilers

  Keeps : {A : Type 0} → Exec Boot A → Type 0
  unfolding AllDone
  Keeps m = (s : Boot) → AllDone s → AllDone (m s).1

  then-Keeps :
      {A B : Type 0} (m : Exec Boot A) (f : A → Exec Boot B)
      → Keeps m
      → ((a : A) → Keeps (f a))
      → Keeps (m >>= f)
  unfolding Keeps
  then-Keeps m f = >>=_keeps AllDone m f

  api-Keeps : {A : Type 0} (m : Exec Net A) → Keeps (on_api m)
  unfolding Keeps AllDone
  api-Keeps m s h = h

  lift-Keeps : {A : Type 0} (r : Result A) → Keeps (lift {S = Boot} {A = A} r)
  unfolding Keeps
  lift-Keeps r s h = h

  act-Keeps : (path : String) → Keeps (act (compiles path))
  unfolding Keeps AllDone act
  act-Keeps path s h = h

  nothing-Keeps : Keeps (pure tt)
  unfolding Keeps
  nothing-Keeps s h = h

  -- a step that is left out where the test holds
  if-Keeps : (b : Bool) (m : Exec Boot (Unit {0})) → Keeps m → Keeps (if b then pure tt else m)
  unfolding Keeps
  if-Keeps true m x = nothing-Keeps
  if-Keeps false m x = x

  runtime-Keeps :
      (name : String) (p : Option String)
      → Keeps (elim p [
        | none ↦ pure tt
        | some v ↦ on_api (update_node mn name (("p4rt_path", text v) ∷ [])) >> pure tt
      ])
  runtime-Keeps name none = nothing-Keeps
  runtime-Keeps name (some v) =
      then-Keeps (on_api (update_node mn name (("p4rt_path", text v) ∷ []))) _
        (api-Keeps (update_node mn name (("p4rt_path", text v) ∷ []))) (λ n. nothing-Keeps)

  module_of-Keeps : (name : String) (o : Attrs) → Keeps (module_of name o)
  unfolding Keeps module_of
  module_of-Keeps name o s h = elim (Option-cases (get s.modules name)) [
    | inl q ↦ rw (q, module_of) h
    | inr (m, q) ↦ rw (q, module_of) h
  ]

  compile-Keeps : (c : Compiler) → Keeps (lift (w.compile c) >> keep_compiler mn w c)
  unfolding Keeps AllDone keep_compiler
  compile-Keeps c s h = elim (Result-cases (w.compile c)) [
    | inr (x, q) ↦ rw (q) h
    | inl (u, q) ↦ rw (q) (All-snoc IsDone s.compilers c h q)
  ]

  new_compiler-Keeps : (path : String) → Keeps (new_compiler mn w path)
  unfolding new_compiler compile_with act
  new_compiler-Keeps path = then-Keeps (module_of "comp" []) _ (module_of-Keeps "comp" []) (λ made.
      then-Keeps (lift (w.new_compiler made.0 path made.1)) _
        (lift-Keeps (w.new_compiler made.0 path made.1))
        (λ c. then-Keeps (act (compiles path)) _ (act-Keeps path) (λ u. compile-Keeps c)))

  compiler_of-Keeps : (path : String) → Keeps (compiler_of mn w path)
  unfolding compiler_of Keeps
  compiler_of-Keeps path s h = elim (Bool-cases (w.is_compiled (w.realpath path) s.compilers)) [
    | inl q ↦ rw (q, compiler_of) h
    | inr q ↦ rw (q, compiler_of) (new_compiler-Keeps path s h)
  ]

  set_outputs-Keeps : (name : String) (c : Compiler) → Keeps (set_outputs mn w name c)
  unfolding set_outputs
  set_outputs-Keeps name c =
      then-Keeps (on_api (ask mn (λ g. is_tofino g name))) _
        (api-Keeps (ask mn (λ g. is_tofino g name)))
        (λ tofino. if-Keeps tofino _ (
          then-Keeps (on_api (update_node mn name (("json_path", text c.json_out) ∷ []))) _
            (api-Keeps (update_node mn name (("json_path", text c.json_out) ∷ [])))
            (λ n. runtime-Keeps name c.p4rt_out)))

  compile_source-Keeps : (name : String) (src : Option Value) → Keeps (compile_source mn w name src)
  unfolding compile_source
  compile_source-Keeps name none = nothing-Keeps
  compile_source-Keeps name (some src) =
      then-Keeps (lift (path_of src)) _ (lift-Keeps (path_of src)) (λ path.
        then-Keeps (compiler_of mn w path) _ (compiler_of-Keeps path) (set_outputs-Keeps name))

  each-Keeps : (ps : List (String × Attrs)) → Keeps (for_each ps (compile_switch mn w))
  unfolding for_each compile_switch
  each-Keeps [] = nothing-Keeps
  each-Keeps ((name, info) ∷ ps) =
      then-Keeps (compile_switch mn w (name, info)) (λ u. for_each ps (compile_switch mn w))
        (then-Keeps (on_api (get_node mn name)) _ (api-Keeps (get_node mn name))
          (λ a. compile_source-Keeps name (given a "p4_src")))
        (λ u. each-Keeps ps)

  compile_all-Keeps : Keeps (compile mn w)
  unfolding compile
  compile_all-Keeps =
      then-Keeps (on_api (ask mn (p4switches mn))) _ (api-Keeps (ask mn (p4switches mn))) each-Keeps

  member : (c : Compiler) (cs : List Compiler) → All IsDone cs → Memᴰ c cs → IsDone c
  member c [] h m = elim m [ ]
  member c (d ∷ cs) h m = elim m [
    | Memᴰ.head q ↦ subst IsDone (sym q) h.0
    | Memᴰ.tail t ↦ member c cs h.1 t
  ]

  -- Where the compilers that are kept have compiled, and `compile` returns, a P4 switch that has a
  -- source and is no Tofino has the path of the JSON file of a compiler that is kept, was made for
  -- this source, and has compiled it, whatever the other switches have.
  pub compile-Compiled :
      (x path : String) (ps : List (String × Attrs)) (info : Attrs) (s t : Boot)
      → All (λ c. w.compile c ≡ ok tt) s.compilers
      → p4switches mn s.api.g ≡ ok ps
      → Memᴰ (x, info) ps
      → Source mn w x path s
      → compile mn w s ≡ (ok tt, t)
      → (c : Compiler) × BuiltBy mn w x path c t × (w.compile c ≡ ok tt)
  unfolding Keeps AllDone
  compile-Compiled x path ps info s t done all m src e =
      let (c, built) = compile-Built mn w x path ps info s t all m src e in
      let kept =
        subst AllDone (ap (λ (r : Result Unit × Boot). r.1) e) (compile_all-Keeps s done) in
      (c, built, member c t.compilers kept built.0)
