-- ===== src/Runner/Settings/Client.antt =====
-- src/AppRunner.py: which options a switch client gets from the configuration.
use smoothie.Base.{
  String, ◌≡◌, refl, sym, ap, ◌∙◌, ◌≢◌, Option, none, some, [], ◌∷◌, nat_eq, string_eq, pair_eq,
  beq_ne,
}
use smoothie.Base.Dict.{get}
use smoothie.Base.Error.{Result, ok}
use smoothie.Base.Exec.{lift}
use smoothie.Base.Exec.{>>=-eq-ok}
use smoothie.Network.Value.{Value, Attrs, cls}
use smoothie.Network.Start.{Boot, Module, module_of, set_switch_client}
use smoothie.Network.Start.Modules.{last_of, module_of-set_module}
use smoothie.Runner.{Loader}
use smoothie.Runner.Settings.{Files, ModuleConf, module_class, read_client, text_or_none}

module _ (files : Files) (load : Loader) (log_enabled : Value) (log_dir : Option String) where
  -- the options that `setSwitchClient` is called with
  abbrev kwargs : Attrs
  kwargs = ("log_enabled", log_enabled) ∷ ("log_dir", text_or_none log_dir) ∷ []

  not_last : (k : String) → "log_enabled" ≢ k → "log_dir" ≢ k → last_of kwargs k ≡ none
  not_last k a b = rw (beq_ne "log_enabled" k a, beq_ne "log_dir" k b) refl

  class_of : Option ModuleConf → Result Value
  class_of client_module = elim client_module [
    | none ↦ ok (cls "ThriftClient")
    | some m ↦ module_class files load (cls "ThriftClient") m
  ]

  -- Once the configuration of the clients is read, a client is made with the options that were there
  -- before, but for the two of the log: options of the module in the configuration do not reach it.
  pub read_client-options :
      (client_module : Option ModuleConf) (k : String) (old : Module) (s t : Boot)
      → "log_enabled" ≢ k
      → "log_dir" ≢ k
      → get s.modules "sw_cli" ≡ some old
      → read_client files load log_enabled log_dir client_module s ≡ (ok tt, t)
      → (c : Value) × (a : Attrs) × ((module_of "sw_cli" [] t).0 ≡ ok (c, a))
        × (get a k ≡ get old.kwargs k)
  unfolding read_client set_switch_client class_of get
  read_client-options client_module k old s t p q there e =
      let (c, s1, e1, h1) =
        >>=-eq-ok (lift (class_of client_module)) (λ c. set_switch_client (some c) kwargs) s e in
      let same : s1 ≡ s = ap (λ (r : Result Value × Boot). r.1) (sym e1) in
      let there1 : get s1.modules "sw_cli" ≡ some old = rw same there in
      let (a, f, g) = module_of-set_module "sw_cli" k (some c) [] kwargs old s1 there1 in
      (
        c,
        a,
        ap (λ (r : Result Unit × Boot). (module_of "sw_cli" [] r.1).0) (sym h1) ∙ f,
        g ∙ rw (not_last k p q) refl,
      )
