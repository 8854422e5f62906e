-- ===== src/Runner/Settings/Kept.antt =====
-- Reading the settings leaves the description of the network alone.
use smoothie.Base.{
  String, Bool, Option, none, some, [], if◌then◌else◌, nat_eq, string_eq, pair_eq, inl, inr,
  Option-cases,
}
use smoothie.Base.Dict.{get}
use smoothie.Base.Error.{Result, ok}
use smoothie.Base.Exec.{◌>>=◌, Exec, pure, lift}
use smoothie.Base.Exec.{>>=_keeps, if_keeps}
use smoothie.Network.Value.{Value, cls, truthy, Attrs}
use smoothie.Network.Mininet.{Net}
use smoothie.Network.Start.{Boot, act, set_module, set_compiler, set_net, set_switch_client}
use smoothie.Runner.{Loader}
use smoothie.Runner.Settings.{
  ModuleConf, FileConf, Files, ensure_dir, set_log_dir, class_or, module_class, read_compiler,
  read_client, read_settings,
}

-- What reads the settings keeps what holds of the network.
module _ (files : Files) (load : Loader) (P : Net → Type 0) where
  unfoldable pub Leaves : {A : Type 0} → Exec Boot A → Type 0
  Leaves m = (s : Boot) → P s.api → P (m s).1.api

  then-Leaves :
      {A B : Type 0} (m : Exec Boot A) (f : A → Exec Boot B)
      → Leaves m
      → ((a : A) → Leaves (f a))
      → Leaves (m >>= f)
  unfolding Leaves
  then-Leaves m f = >>=_keeps (λ s. P s.api) m f

  if-Leaves :
      {A : Type 0} (b : Bool) (m k : Exec Boot A)
      → Leaves m
      → Leaves k
      → Leaves (if b then m else k)
  unfolding Leaves
  if-Leaves b m k = if_keeps (λ s. P s.api) b m k

  lift-Leaves : {A : Type 0} (r : Result A) → Leaves (lift r)
  unfolding Leaves
  lift-Leaves r s v = v

  set_module-Leaves : (name : String) (c : Option Value) (o : Attrs) → Leaves (set_module name c o)
  unfolding Leaves set_module
  set_module-Leaves name c o s v = elim (Option-cases (get s.modules name)) [
    | inl q ↦ rw (set_module, q) v
    | inr (m, q) ↦ rw (set_module, q) v
  ]

  ensure_dir-Leaves : (d : Option String) → Leaves (ensure_dir files load d)
  unfolding Leaves ensure_dir act
  ensure_dir-Leaves none = λ s v. v
  ensure_dir-Leaves (some d) =
      if-Leaves (files.is_dir d) _ _ (λ s v. v)
        (if-Leaves (files.exists d) _ _ (λ s v. v) (λ s v. v))

  set_log_dir-Leaves : (d : Option String) → Leaves (set_log_dir files load d)
  unfolding Leaves set_log_dir act
  set_log_dir-Leaves none = λ s v. v
  set_log_dir-Leaves (some d) = λ s v. v

  read_compiler-Leaves : (m : Option ModuleConf) → Leaves (read_compiler files load m)
  unfolding read_compiler set_compiler
  read_compiler-Leaves none = set_module-Leaves "comp" _ _
  read_compiler-Leaves (some m) =
      then-Leaves (lift (module_class files load (cls "P4C") m)) _ (lift-Leaves _)
        (λ c. set_module-Leaves "comp" _ _)

  read_client-Leaves :
      (log : Value) (d : Option String) (m : Option ModuleConf)
      → Leaves (read_client files load log d m)
  unfolding read_client set_switch_client
  read_client-Leaves log d m =
      then-Leaves
        (lift (elim m [
          | none ↦ ok (cls "ThriftClient")
          | some m ↦ module_class files load (cls "ThriftClient") m
        ]))
        _ (lift-Leaves _) (λ c. set_module-Leaves "sw_cli" _ _)

  pub read_settings-Leaves :
      (fc : FileConf) (log_dir pcap_dir : Option String)
      → Leaves (read_settings files load fc log_dir pcap_dir)
  unfolding read_settings set_net
  read_settings-Leaves fc log_dir pcap_dir =
      then-Leaves (if truthy fc.enable_log then ensure_dir files load log_dir else pure tt) _
        (if-Leaves (truthy fc.enable_log) (ensure_dir files load log_dir) (pure tt)
          (ensure_dir-Leaves log_dir) (lift-Leaves (ok tt)))
        (λ u. then-Leaves (set_log_dir files load log_dir) _ (set_log_dir-Leaves log_dir) (λ u.
          then-Leaves (if truthy fc.pcap_dump then ensure_dir files load pcap_dir else pure tt) _
            (if-Leaves (truthy fc.pcap_dump) (ensure_dir files load pcap_dir) (pure tt)
              (ensure_dir-Leaves pcap_dir) (lift-Leaves (ok tt)))
            (λ u.
              then-Leaves (lift (class_or files load (cls "FRRouter") fc.router_node)) _
                (lift-Leaves _)
                (λ router.
                  then-Leaves (lift (class_or files load (cls "P4Switch") fc.switch_node)) _
                    (lift-Leaves _)
                    (λ switch.
                      then-Leaves (lift (class_or files load (cls "SRv6Host") fc.host_node)) _
                        (lift-Leaves _)
                        (λ host.
                          then-Leaves (read_compiler files load fc.compiler_module) _
                            (read_compiler-Leaves fc.compiler_module)
                            (λ u.
                              then-Leaves
                                (read_client files load fc.enable_log log_dir fc.client_module) _
                                (read_client-Leaves fc.enable_log log_dir fc.client_module)
                                (λ u.
                                  then-Leaves
                                    (lift (class_or files load (cls "P4Mininet") fc.mininet_module))
                                    _ (lift-Leaves _)
                                    (λ net.
                                      then-Leaves (set_net (some net) []) _
                                        (set_module-Leaves "net" _ _)
                                        (λ u. lift-Leaves (ok (host, (switch, router)))))))))))))
