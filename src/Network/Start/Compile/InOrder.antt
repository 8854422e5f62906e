-- ===== src/Network/Start/Compile/InOrder.antt =====
-- Compiling leaves the links in order.
use smoothie.Base.{
  String, inl, inr, Bool-cases, Option, none, some, [], ◌∷◌, nat_eq, string_eq, pair_eq,
}
use smoothie.Base.Exec.{lift}
use smoothie.Network.Value.{Value, text, given}
use smoothie.Network.Mininet.{Mininet}
use smoothie.Network.Ids.{p4switches, is_tofino}
use smoothie.Network.Nodes.{ask, get_node, update_node}
use smoothie.Network.Start.{World, Compiler, compiles, on_api, act, module_of}
use smoothie.Network.Start.Compile.{
  path_of, new_compiler, compiler_of, set_outputs, compile_source, compile_switch, compile,
}
use smoothie.Network.Start.InOrder.{
  Sound, act-Sound, module_of-Sound, then-Sound, if-Sound, for_each-Sound, option-Sound,
  get_node-Sound, update_node-Sound,
}

module _ (mn : Mininet) (w : World) where
  new_compiler-Sound : (path : String) → Sound (new_compiler mn w path)
  unfolding new_compiler
  new_compiler-Sound path = then-Sound (module_of "comp" []) _ (module_of-Sound "comp" []) (λ made.
      then-Sound (lift (w.new_compiler made.0 path made.1)) _ (λ s v. v)
        (λ c.
          then-Sound (act (compiles path)) _ (act-Sound (compiles path))
            (λ u. then-Sound (lift (w.compile c)) _ (λ s v. v) (λ u s v. v))))

  compiler_of-Sound : (path : String) → Sound (compiler_of mn w path)
  unfolding compiler_of
  compiler_of-Sound path s v = elim (Bool-cases (w.is_compiled (w.realpath path) s.compilers)) [
    | inl q ↦ rw (compiler_of, q) v
    | inr q ↦ rw (compiler_of, q) (new_compiler-Sound path s v)
  ]

  set_outputs-Sound : (name : String) (c : Compiler) → Sound (set_outputs mn w name c)
  unfolding set_outputs
  set_outputs-Sound name c =
      then-Sound (on_api (ask mn (λ g. is_tofino g name))) _ (λ s v. v)
        (λ tofino.
          if-Sound tofino _ _ (λ s v. v)
            (then-Sound (on_api (update_node mn name (("json_path", text c.json_out) ∷ []))) _
              (update_node-Sound mn name _)
              (λ n.
                option-Sound c.p4rt_out _ _ (λ s v. v)
                  (λ p.
                    then-Sound (on_api (update_node mn name (("p4rt_path", text p) ∷ []))) _
                      (update_node-Sound mn name _) (λ n s v. v)))))

  compile_source-Sound : (name : String) (src : Option Value) → Sound (compile_source mn w name src)
  unfolding compile_source
  compile_source-Sound name none = λ s v. v
  compile_source-Sound name (some src) =
      then-Sound (lift (path_of src)) _ (λ s v. v)
        (λ path.
          then-Sound (compiler_of mn w path) _ (compiler_of-Sound path) (set_outputs-Sound name))

  pub compile-Sound : Sound (compile mn w)
  unfolding compile compile_switch
  compile-Sound =
      then-Sound (on_api (ask mn (p4switches mn))) _ (λ s v. v)
        (λ switches. for_each-Sound switches (compile_switch mn w) (λ (name, info).
          then-Sound (on_api (get_node mn name)) _ (get_node-Sound mn name)
            (λ a. compile_source-Sound name (given a "p4_src"))))
