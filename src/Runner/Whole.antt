-- ===== src/Runner/Whole.antt =====
-- The whole topology of a description leaves the links in order.
use smoothie.Base.{
  String, ◌≡◌, refl, ◌∙◌, ◌≢◌, true, false, Option, none, some, List, [], ◌∷◌, if◌then◌else◌, ◌==◌,
  nat_eq, string_eq, pair_eq, All,
}
use smoothie.Base.Dict.{Dict, get, remove}
use smoothie.Base.Error.{key_error, or_raise}
use smoothie.Base.Exec.{Exec, lift}
use smoothie.Base.Exec.{>>=_keeps, >>=_leads, if_keeps}
use smoothie.Network.Value.{Attrs, flagged}
use smoothie.Network.Mininet.{Net, Mininet}
use smoothie.Network.Flags.{
  enable_cli, disable_cli, enable_arp_tables, disable_arp_tables, enable_gw_arp, disable_gw_arp,
  exec_script,
}
use smoothie.Network.Nodes.{
  Kind, host, p4runtime_switch, p4switch, switch, router, node_setter, add_host, add_switch,
  add_p4switch, add_p4runtime_switch, add_router,
}
use smoothie.Network.Nodes.Kept.{node_setter-Keeps}
use smoothie.Network.Links.Library.{LinkLib}
use smoothie.Network.Links.Store.Updating.{InOrder}
use smoothie.Network.Links.Auto.InOrder.{Keeps, then-Keeps, if-Keeps, same_edges-InOrder}
use smoothie.Network.Cpu.Enabled.{bridge_of, enable_cpu_port-Keeps}
use smoothie.Network.Cpu.Named.{IsNamed, enable_cpu_port-IsNamed}
use smoothie.Network.Strategies.{Plan}
use smoothie.Network.Strategies.InOrder.{l2-Keeps}
use smoothie.Network.Strategies.Mixed.InOrder.{mixed-Keeps}
use smoothie.Network.Strategies.L3.InOrder.{l3-Keeps}
use smoothie.Runner.{
  Loader, JsonLink, JsonScript, Conf, flag_or, parse_hosts, parse_switch, parse_switches,
  parse_routers, parse_links, execute_scripts, run_strategy, where_given, load_topology,
}
use smoothie.Runner.InOrder.{add_links-Keeps}

-- what is there, if anything is, has `P`
abbrev pub Given {ℓ} : {A : Type ℓ} → (A → Type 0) → Option A → Type 0
Given P none = Unit
Given P (some a) = P a

no_condition {ℓ} : {A : Type ℓ} (o : Option A) → Given (λ (a : A). Unit) o
no_condition none = tt
no_condition (some a) = tt

module _ (mn : Mininet) (lib : LinkLib) (plan : Plan) (load : Loader) where
  -- the links are in order, and the bridge has its name
  abbrev IsSound : Net → Type 0
  IsSound s = InOrder s × IsNamed mn lib s

  node-IsSound :
      (k : Kind) (name : String) (o : Attrs) (s : Net)
      → IsSound s
      → IsSound (node_setter mn k name o s).1
  node-IsSound k name o =
      node_setter-Keeps mn name IsSound
        (λ s a v. (
          same_edges-InOrder s (record s { g = mn.add_node s.g name a })
              (mn.edge-add_node s.g name a) v.0,
          v.1,
        ))
        (λ s a v. v)
        (λ s v. (
          same_edges-InOrder s
              (record s { g = record { node = remove s.g.node name; edge = s.g.edge } }) refl v.0,
          v.1,
        ))
        k o

  parse_hosts-IsSound :
      (conf : Conf) (hs : Dict String Attrs) (s : Net)
      → IsSound s
      → IsSound (parse_hosts mn lib plan load conf hs s).1
  unfolding parse_hosts node_setter
  parse_hosts-IsSound conf [] s v = v
  parse_hosts-IsSound conf ((h, custom) ∷ hs) s v =
      >>=_keeps IsSound (lift _) _ (λ s v. v)
        (λ params.
          >>=_keeps IsSound (add_host mn h params) _ (node-IsSound host h params)
            (λ n. parse_hosts-IsSound conf hs))
        s v

  parse_routers-IsSound :
      (conf : Conf) (rs : Dict String Attrs) (s : Net)
      → IsSound s
      → IsSound (parse_routers mn lib plan load conf rs s).1
  unfolding parse_routers node_setter
  parse_routers-IsSound conf [] s v = v
  parse_routers-IsSound conf ((r, custom) ∷ rs) s v =
      >>=_keeps IsSound (lift _) _ (λ s v. v)
        (λ params.
          >>=_keeps IsSound (add_router mn r params) _ (node-IsSound router r params)
            (λ n. parse_routers-IsSound conf rs))
        s v

  parse_switch-IsSound :
      (name : String) (params : Attrs)
      → name ≢ "sw-cpu"
      → (s : Net) → IsSound s
      → IsSound (parse_switch mn lib plan load name params s).1
  unfolding parse_switch node_setter
  parse_switch-IsSound name params apart =
      >>=_keeps IsSound (lift (or_raise key_error (get params "cls"))) _ (λ s v. v)
        (λ c.
          >>=_keeps IsSound (lift (load.issubclass c "P4Switch")) _ (λ s v. v)
            (λ p4.
              if_keeps IsSound p4 _ _
                (>>=_keeps IsSound (lift (load.issubclass c "P4RuntimeSwitch")) _ (λ s v. v)
                  (λ rt.
                    >>=_keeps IsSound
                      (if rt
                        then add_p4runtime_switch mn name params
                        else add_p4switch mn name params)
                      _
                      (if_keeps IsSound rt _ _ (node-IsSound p4runtime_switch name params)
                        (node-IsSound p4switch name params))
                      (λ n.
                        if_keeps IsSound (flagged params "cpu_port") _ _
                          (λ s v. (
                            enable_cpu_port-Keeps mn lib name s (λ e. apart (e ∙ v.1)) v.0,
                            enable_cpu_port-IsNamed mn lib name s v.1,
                          ))
                          (λ s v. v))))
                (>>=_keeps IsSound (add_switch mn name params) _ (node-IsSound switch name params)
                  (λ n s v. v))))

  parse_switches-IsSound :
      (conf : Conf) (ss : Dict String Attrs)
      → All (λ (w : String × Attrs). w.0 ≢ "sw-cpu") ss
      → (s : Net) → IsSound s
      → IsSound (parse_switches mn lib plan load conf ss s).1
  unfolding parse_switches
  parse_switches-IsSound conf [] apart = λ s v. v
  parse_switches-IsSound conf ((w, custom) ∷ ss) apart =
      >>=_keeps IsSound (lift _) _ (λ s v. v)
        (λ params.
          >>=_keeps IsSound (parse_switch mn lib plan load w params) _
            (parse_switch-IsSound w params apart.0) (λ u. parse_switches-IsSound conf ss apart.1))

  parse_links-Keeps :
      (conf : Conf) (ls : List JsonLink)
      → All (λ l. l.node1 ≢ l.node2) ls
      → Keeps mn (parse_links mn lib plan load conf ls)
  unfolding parse_links enable_arp_tables disable_arp_tables enable_gw_arp disable_gw_arp
  parse_links-Keeps conf ls apart =
      let arp = flag_or conf.default_opts "auto_arp_tables" true in
      let gw = flag_or conf.default_opts "auto_gw_arp" true in
      then-Keeps mn (if arp then enable_arp_tables else disable_arp_tables) _
        (if-Keeps mn arp enable_arp_tables disable_arp_tables (λ s v. v) (λ s v. v))
        (λ u.
          then-Keeps mn (if gw then enable_gw_arp else disable_gw_arp) _
            (if-Keeps mn gw enable_gw_arp disable_gw_arp (λ s v. v) (λ s v. v))
            (λ u. add_links-Keeps mn lib plan load _ ls apart))

  execute_scripts-Keeps : (ss : List JsonScript) → Keeps mn (execute_scripts mn lib plan load ss)
  unfolding execute_scripts exec_script
  execute_scripts-Keeps [] = λ s v. v
  execute_scripts-Keeps (j ∷ ss) =
      then-Keeps mn (exec_script j.cmd none (elim j.reboot_run [ none ↦ false | some b ↦ b ]))
        (λ u. execute_scripts mn lib plan load ss) (λ s v. v) (λ u. execute_scripts-Keeps ss)

  run_strategy-Keeps : (o : Option String) → Keeps mn (run_strategy mn lib plan load o)
  unfolding run_strategy
  run_strategy-Keeps none = λ s v. v
  run_strategy-Keeps (some name) = if-Keeps mn (name == "l2") _ _ (l2-Keeps mn lib plan) (
      if-Keeps mn (name == "l3") _ _ (l3-Keeps mn lib plan)
        (if-Keeps mn (name == "mixed") _ _ (mixed-Keeps mn lib plan) (λ s v. v)))

  given-keeps {ℓ} :
      {A : Type ℓ} (P : Net → Type 0) (Q : A → Type 0) (o : Option A) (f : A → Exec Net (Unit {0}))
      → Given Q o
      → ((a : A) → Q a → (s : Net) → P s → P (f a s).1)
      → (s : Net) → P s
      → P (where_given mn lib plan load o f s).1
  unfolding where_given
  given-keeps P Q none f q k s v = v
  given-keeps P Q (some a) f q k s v = k a q s v

  -- Whatever a description says and whatever raises while it is read, the links are in order
  -- afterwards, if they were before, each link of the description joins two different nodes, and no
  -- switch of it is called as the bridge of the CPU ports is.
  pub load_topology-InOrder :
      (conf : Conf) (s : Net)
      → Given (All (λ l. l.node1 ≢ l.node2)) conf.links
      → Given (All (λ w. w.0 ≢ "sw-cpu")) conf.switches
      → InOrder s
      → bridge_of mn lib s ≡ "sw-cpu"
      → InOrder (load_topology mn lib plan load conf s).1
  unfolding load_topology enable_cli disable_cli
  load_topology-InOrder conf s links switches v named =
      let hosts = where_given mn lib plan load conf.hosts (parse_hosts mn lib plan load conf) in
      let switches_m =
        where_given mn lib plan load conf.switches (parse_switches mn lib plan load conf) in
      let routers =
        where_given mn lib plan load conf.routers (parse_routers mn lib plan load conf) in
      let links_m = where_given mn lib plan load conf.links (parse_links mn lib plan load conf) in
      >>=_leads IsSound IsSound InOrder hosts _
        (given-keeps IsSound (λ h. Unit) conf.hosts _ (no_condition conf.hosts)
          (λ h u. parse_hosts-IsSound conf h))
        (λ t v. v.0)
        (λ u.
          >>=_leads IsSound IsSound InOrder switches_m _
            (given-keeps IsSound (All (λ w. w.0 ≢ "sw-cpu")) conf.switches _ switches
              (λ ss apart. parse_switches-IsSound conf ss apart))
            (λ t v. v.0)
            (λ u.
              >>=_leads IsSound IsSound InOrder routers _
                (given-keeps IsSound (λ r. Unit) conf.routers _ (no_condition conf.routers)
                  (λ r u. parse_routers-IsSound conf r))
                (λ t v. v.0)
                (λ u t v.
                  then-Keeps mn links_m _
                    (given-keeps InOrder (All (λ l. l.node1 ≢ l.node2)) conf.links _ links
                      (λ ls apart. parse_links-Keeps conf ls apart))
                    (λ u.
                      then-Keeps mn (execute_scripts mn lib plan load conf.exec_scripts) _
                        (execute_scripts-Keeps conf.exec_scripts)
                        (λ u.
                          then-Keeps mn (run_strategy mn lib plan load conf.strategy) _
                            (run_strategy-Keeps conf.strategy)
                            (λ u.
                              if-Keeps mn conf.cli_enabled enable_cli disable_cli (λ s v. v)
                                (λ s v. v))))
                    t v.0)))
        s (v, named)
