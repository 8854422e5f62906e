-- ===== src/Network/Start/Compile/Others.antt =====
-- src/Network_API_l.py: what compiling for one switch leaves to the others.
use mathlib.Core.List.{append_assoc}
use smoothie.Base.{
  String, ◌≡◌, refl, ◌∙◌, ◌≢◌, inl, inr, List, [], ◌∷◌, ◌++◌, nat_eq, string_eq, pair_eq,
  Bool-cases, Option-cases,
}
use smoothie.Base.Dict.{get}
use smoothie.Base.Exec.{Exec, pure, lift, ◌>>◌}
use smoothie.Base.Exec.{>>=_keeps}
use smoothie.Network.Value.{text, Attrs, given}
use smoothie.Network.Mininet.{Mininet}
use smoothie.Network.Ids.{is_tofino}
use smoothie.Network.Nodes.{ask, get_node, update_node}
use smoothie.Network.Nodes.Lost.{update_node_others}
use smoothie.Network.Start.{Boot, World, Compiler, compiles, act, module_of, on_api}
use smoothie.Network.Start.Compile.{
  path_of, keep_compiler, compile_with, new_compiler, compiler_of, set_outputs, compile_source,
  compile_switch,
}

module _ (mn : Mininet) (w : World) (x : String) (s : Boot) where
  -- the node `x` is as it was in `s`, and no compiler is lost
  abbrev pub Later : Boot → Type 0
  Later t =
      (get t.api.g.node x ≡ get s.api.g.node x)
      × ((more : List Compiler) × (t.compilers ≡ s.compilers ++ more))

  abbrev pub Keeps : {A : Type 0} → Exec Boot A → Type 0
  Keeps m = (t : Boot) → Later t → Later (m t).1

  module_of-Keeps : (name : String) (kwargs : Attrs) → Keeps (module_of name kwargs)
  unfolding module_of
  module_of-Keeps name kwargs t h = elim (Option-cases (get t.modules name)) [
    | inl e ↦ rw (e, module_of) h
    | inr (m, e) ↦ rw (e, module_of) h
  ]

  keep_compiler-Keeps : (c : Compiler) → Keeps (keep_compiler mn w c)
  unfolding keep_compiler
  keep_compiler-Keeps c t (e, (more, f)) = (e, (more ++ c ∷ [], rw (f, append_assoc) refl))

  new_compiler-Keeps : (path : String) → Keeps (new_compiler mn w path)
  unfolding new_compiler compile_with act
  new_compiler-Keeps path =
      >>=_keeps Later (module_of "comp" []) (compile_with mn w path) (module_of-Keeps "comp" [])
        (λ made.
          >>=_keeps Later (lift (w.new_compiler made.0 path made.1))
            (λ c. act (compiles path) >> (lift (w.compile c) >> keep_compiler mn w c)) (λ t h. h)
            (λ c.
              >>=_keeps Later (act (compiles path))
                (λ u. lift (w.compile c) >> keep_compiler mn w c) (λ t h. h)
                (λ u.
                  >>=_keeps Later (lift (w.compile c)) (λ u. keep_compiler mn w c) (λ t h. h)
                    (λ u. keep_compiler-Keeps c))))

  pub compiler_of-Keeps : (path : String) → Keeps (compiler_of mn w path)
  unfolding compiler_of
  compiler_of-Keeps path t h = elim (Bool-cases (w.is_compiled (w.realpath path) t.compilers)) [
    | inl e ↦ rw (e, compiler_of) h
    | inr e ↦ rw (e, compiler_of) (new_compiler-Keeps path t h)
  ]

  module _ (y : String) (apart : y ≢ x) where
    update-Keeps : (opts : Attrs) → Keeps (on_api (update_node mn y opts))
    update-Keeps opts t (e, more) = (update_node_others mn y opts t.api x apart ∙ e, more)

    set_outputs-Keeps : (c : Compiler) → Keeps (set_outputs mn w y c)
    unfolding set_outputs
    set_outputs-Keeps c =
        >>=_keeps Later (on_api (ask mn (λ g. is_tofino g y))) _ (λ t h. h)
          (λ tofino t h. elim (Bool-cases tofino) [
            | inl e ↦ rw e h
            | inr e ↦ rw e (
                >>=_keeps Later (on_api (update_node mn y (("json_path", text c.json_out) ∷ []))) _
                  (update-Keeps _)
                  (λ b t h. elim (Option-cases c.p4rt_out) [
                    | inl q ↦ rw q h
                    | inr (v, q) ↦ rw q (
                        >>=_keeps Later (on_api (update_node mn y (("p4rt_path", text v) ∷ [])))
                          (λ b. pure tt) (update-Keeps _) (λ b t h. h) t h)
                  ])
                  t h)
          ])

    get_node-Keeps : Keeps (on_api (get_node mn y))
    unfolding get_node
    get_node-Keeps t h = elim (Option-cases (get t.api.g.node y)) [
      | inl e ↦ rw (e, on_api, get_node) h
      | inr (a, e) ↦ rw (e, on_api, get_node) h
    ]

    pub compile_switch-Keeps : (info : Attrs) → Keeps (compile_switch mn w (y, info))
    unfolding compile_switch compile_source
    compile_switch-Keeps info = >>=_keeps Later (on_api (get_node mn y)) _ get_node-Keeps (λ a t h.
        elim (Option-cases (given a "p4_src")) [
          | inl e ↦ rw e h
          | inr (v, e) ↦ rw e (
              >>=_keeps Later (lift (path_of v)) _ (λ t h. h)
                (λ path.
                  >>=_keeps Later (compiler_of mn w path) _ (compiler_of-Keeps path)
                    set_outputs-Keeps)
                t h)
        ])
