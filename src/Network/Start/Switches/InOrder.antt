-- ===== src/Network/Start/Switches/InOrder.antt =====
-- To program the switches leaves the links in order.
use smoothie.Base.{String, ◌||◌, [], ◌∷◌, ◌==◌, nat_eq, string_eq, pair_eq}
use smoothie.Base.Exec.{lift}
use smoothie.Network.Value.{Attrs, given}
use smoothie.Network.Mininet.{Mininet}
use smoothie.Network.Ids.{p4switches}
use smoothie.Network.Nodes.{ask}
use smoothie.Network.Start.{World, Intf, configures, on_api, act, module_of, running}
use smoothie.Network.Start.Texts.{has_part}
use smoothie.Network.Start.Switches.{configure_switch, allow_ipv6, program_switch, program_switches}
use smoothie.Network.Start.InOrder.{
  Sound, act-Sound, running-Sound, module_of-Sound, then-Sound, if-Sound, for_each-Sound,
  option-Sound,
}

module _ (mn : Mininet) (w : World) where
  configure_switch-Sound : (name : String) (info : Attrs) → Sound (configure_switch mn w name info)
  unfolding configure_switch
  configure_switch-Sound name info =
      option-Sound (given info "cli_input") _ _ (λ s v. v)
        (λ cli_input.
          then-Sound (module_of "sw_cli" (("cli_input", cli_input) ∷ [])) _
            (module_of-Sound "sw_cli" (("cli_input", cli_input) ∷ []))
            (λ made.
              then-Sound (act (configures name (given info "thrift_port"))) _ (act-Sound _) (λ u.
                then-Sound (lift (w.configure made.0 (given info "thrift_port") name made.1)) _
                  (λ s v. v) (λ u s v. v))))

  allow_ipv6-Sound : (name : String) (i : Intf) → Sound (allow_ipv6 mn w name i)
  unfolding allow_ipv6
  allow_ipv6-Sound name i =
      if-Sound (i.name == "lo" || has_part i.name "veth") _ _ (λ s v. v) (act-Sound _)

  pub program_switches-Sound : Sound (program_switches mn w)
  unfolding program_switches program_switch
  program_switches-Sound =
      then-Sound (on_api (ask mn (p4switches mn))) _ (λ s v. v)
        (λ switches. for_each-Sound switches (program_switch mn w) (λ (name, info).
          then-Sound (configure_switch mn w name info) _ (configure_switch-Sound name info) (λ u.
            then-Sound (running name) _ (running-Sound name)
              (λ s1. for_each-Sound s1.intfs (allow_ipv6 mn w name) (allow_ipv6-Sound name)))))
