-- ===== src/Network/Start/Switches.antt =====
-- src/Network_API_l.py: `program_switches`.
pub mod InOrder
use smoothie.Base.{
  String, ◌||◌, none, some, [], ◌∷◌, ◌++◌, if◌then◌else◌, ◌==◌, nat_eq, string_eq, pair_eq,
}
use smoothie.Base.Error.{ok}
use smoothie.Base.Exec.{Exec, pure, lift, ◌>>=◌, ◌>>◌}
use smoothie.Network.Value.{Attrs, given}
use smoothie.Network.Mininet.{Mininet}
use smoothie.Network.Ids.{p4switches}
use smoothie.Network.Nodes.{ask}
use smoothie.Network.Start.{
  Boot, World, Intf, configures, allows_ipv6, on_api, act, module_of, for_each, running,
}
use smoothie.Network.Start.Texts.{has_part}

module _ (mn : Mininet) (w : World) where
  -- the client of a switch that has a file of commands
  unfoldable pub configure_switch : String → Attrs → Exec Boot (Unit {0})
  configure_switch name info = elim (given info "cli_input") [
    | none ↦ pure tt
    | some cli_input ↦ (do
      (class_of, kwargs) ← module_of "sw_cli" (("cli_input", cli_input) ∷ [])
      act (configures name (given info "thrift_port"))
      lift (w.configure class_of (given info "thrift_port") name kwargs)
      (λ s. (ok tt, record s { sw_clients = s.sw_clients ++ name ∷ [] })))
  ]

  allow_ipv6 : String → Intf → Exec Boot (Unit {0})
  allow_ipv6 name i =
      if i.name == "lo" || has_part i.name "veth" then pure tt else act (allows_ipv6 name i.name)

  unfoldable pub program_switch : String × Attrs → Exec Boot (Unit {0})
  unfolding allow_ipv6
  program_switch (name, info) = do
    configure_switch name info
    s1 ← running name
    for_each s1.intfs (allow_ipv6 name)

  -- `program_switches`
  unfoldable pub program_switches : Exec Boot (Unit {0})
  program_switches = do switches ← on_api (ask mn (p4switches mn)); for_each switches program_switch
