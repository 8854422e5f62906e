-- ===== src/Network/Start/Compile.antt =====
-- src/Network_API_l.py: the P4 sources are compiled.
pub mod Outputs
pub mod Others
pub mod Whole
pub mod Compiled
pub mod InOrder
use smoothie.Base.{
  Option, String, none, some, [], ◌∷◌, ◌++◌, if◌then◌else◌, nat_eq, string_eq, pair_eq,
}
use smoothie.Base.Error.{type_error, attribute_error, Result, ok, err, or_raise}
use smoothie.Base.Exec.{Exec, pure, lift, ◌>>=◌, ◌>>◌}
use smoothie.Network.Value.{Value, text, Attrs, given}
use smoothie.Network.Mininet.{Mininet}
use smoothie.Network.Ids.{p4switches, is_tofino}
use smoothie.Network.Nodes.{ask, get_node, update_node}
use smoothie.Network.Start.{Boot, World, Compiler, compiles, on_api, act, module_of, for_each}

-- os.path.realpath takes a text.
path_of : Value → Result String
path_of (text t) = ok t
path_of _ = err type_error

module _ (mn : Mininet) (w : World) where
  -- self.compilers.append(compiler)
  keep_compiler : Compiler → Exec Boot Compiler
  keep_compiler c s = (ok c, record s { compilers = s.compilers ++ c ∷ [] })

  compile_with : String → Value × Attrs → Exec Boot Compiler
  compile_with path made = do
    c ← lift (w.new_compiler made.0 path made.1)
    act (compiles path)
    lift (w.compile c)
    keep_compiler c

  -- an object of the compiler class, which compiles and is kept
  unfoldable pub new_compiler : String → Exec Boot Compiler
  unfolding compile_with keep_compiler
  new_compiler path = do made ← module_of "comp" []; compile_with path made

  -- the compiler of a source: a new one where none has it yet
  unfoldable pub compiler_of : String → Exec Boot Compiler
  compiler_of path s =
      if w.is_compiled (w.realpath path) s.compilers
      then (or_raise attribute_error (w.get_by_src (w.realpath path) s.compilers), s)
      else new_compiler path s

  -- the paths that a switch gets
  unfoldable pub set_outputs : String → Compiler → Exec Boot (Unit {0})
  set_outputs name c = do
    tofino ← on_api (ask mn (λ g. is_tofino g name))
    if tofino then pure tt else (do
      on_api (update_node mn name (("json_path", text c.json_out) ∷ []))
      elim c.p4rt_out [
        | none ↦ pure tt
        | some p ↦ on_api (update_node mn name (("p4rt_path", text p) ∷ [])) >> pure tt
      ])

  -- the source of a switch, where it has one
  compile_source : String → Option Value → Exec Boot (Unit {0})
  unfolding path_of
  compile_source name none = pure tt
  compile_source name (some src) = do
    path ← lift (path_of src)
    c ← compiler_of path
    set_outputs name c

  unfoldable pub compile_switch : String × Attrs → Exec Boot (Unit {0})
  unfolding compile_source
  compile_switch (name, info) = do
    a ← on_api (get_node mn name)
    compile_source name (given a "p4_src")

  -- `compile`
  unfoldable pub compile : Exec Boot (Unit {0})
  compile = do switches ← on_api (ask mn (p4switches mn)); for_each switches compile_switch
