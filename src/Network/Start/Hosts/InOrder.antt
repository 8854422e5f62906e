-- ===== src/Network/Start/Hosts/InOrder.antt =====
-- To program the hosts leaves the links in order.
use smoothie.Base.{
  String, Bool, Option, none, some, if◌then◌else◌, ◌==◌, nat_eq, string_eq, pair_eq,
}
use smoothie.Base.Error.{index_error, or_raise}
use smoothie.Base.Exec.{Exec, pure, lift, gets}
use smoothie.Network.Value.{Attrs, flagged}
use smoothie.Network.Mininet.{Mininet}
use smoothie.Network.Ids.{hosts, nodes, is_switch}
use smoothie.Network.Nodes.{ask}
use smoothie.Network.Start.{
  Boot, World, Intf, Running, releases_dhcp, allows_ipv6, adds_ipv6, stops_offload, on_api, act,
  for_each, running,
}
use smoothie.Network.Start.Texts.{before_slash, last_word}
use smoothie.Network.Start.Hosts.{
  unless_same, fake_ip, network, v6_of, gateway_entry, gateway_node, gateway_arp,
  same_network_entry, other_host, arp_tables, dhcp_intf, intf_commands, program_host, program_hosts,
}
use smoothie.Network.Start.InOrder.{
  Sound, act-Sound, running-Sound, then-Sound, if-Sound, for_each-Sound, option-Sound,
}

unless-Sound : (a b : String) (m : Exec Boot (Unit {0})) → Sound m → Sound (unless_same a b m)
unfolding unless_same
unless-Sound a b m k = if-Sound (a == b) (pure tt) m (λ s v. v) k

module _ (mn : Mininet) (w : World) (host : String) where
  gateway_entry-Sound :
      (gw mac : String) (ip : Option String) → Sound (gateway_entry mn w host gw mac ip)
  unfolding gateway_entry
  gateway_entry-Sound gw mac none = λ s v. v
  gateway_entry-Sound gw mac (some ip) =
      if-Sound (before_slash ip == gw) _ _ (act-Sound _) (λ s v. v)

  gateway_node-Sound : (gw node : String) → Sound (gateway_node mn w host gw node)
  unfolding gateway_node
  gateway_node-Sound gw node = unless-Sound host node _ (
      then-Sound (running node) _ (running-Sound node) (λ n.
        then-Sound (on_api (ask mn (λ g. is_switch mn g node))) _ (λ s v. v)
          (λ switch. for_each-Sound n.intfs _ (λ i.
            unless-Sound i.name "lo" _
              (gateway_entry-Sound gw i.mac (if switch then fake_ip i else i.ip))))))

  gateway_arp-Sound : (h1 : Running) → Sound (gateway_arp mn w host h1)
  unfolding gateway_arp
  gateway_arp-Sound h1 =
      option-Sound h1.default_route _ _ (λ s v. v)
        (λ route.
          then-Sound (lift (or_raise index_error (last_word route))) _ (λ s v. v)
            (λ gw.
              then-Sound (gets (λ s. nodes mn s.api.g))
                (λ names. for_each names (gateway_node mn w host gw)) (λ s v. v)
                (λ names.
                  for_each-Sound names (gateway_node mn w host gw) (gateway_node-Sound gw))))

  same_network_entry-Sound :
      (net1 : String) (i2 : Intf) → Sound (same_network_entry mn w host net1 i2)
  unfolding same_network_entry
  same_network_entry-Sound net1 i2 = unless-Sound i2.name "lo" _ (
      then-Sound (lift (network w i2)) _ (λ s v. v)
        (λ net2. if-Sound (net1 == net2) _ _ (act-Sound _) (λ s v. v)))

  arp_tables-Sound : (h1 : Running) → Sound (arp_tables mn w host h1)
  unfolding arp_tables other_host
  arp_tables-Sound h1 = for_each-Sound h1.intfs _ (λ i1. unless-Sound i1.name "lo" _ (
      then-Sound (lift (network w i1)) _ (λ s v. v)
        (λ net1.
          then-Sound (on_api (ask mn (hosts mn))) _ (λ s v. v)
            (λ hs. for_each-Sound hs (other_host mn w host net1) (λ h. unless-Sound host h.0 _ (
              then-Sound (running h.0) _ (running-Sound h.0) (λ h2.
                for_each-Sound h2.intfs (same_network_entry mn w host net1)
                  (same_network_entry-Sound net1))))))))

  dhcp_intf-Sound : (i : Intf) → Sound (dhcp_intf mn w host i)
  unfolding dhcp_intf
  dhcp_intf-Sound i =
      unless-Sound i.name "lo" _
        (then-Sound (act (releases_dhcp host i.name)) _ (act-Sound _) (λ u. act-Sound _))

  intf_commands-Sound : (i : Intf) → Sound (intf_commands mn w host i)
  unfolding intf_commands
  intf_commands-Sound i = unless-Sound i.name "lo" _ (
      then-Sound (act (allows_ipv6 host i.name)) _ (act-Sound _) (λ u.
        then-Sound (lift (v6_of w i.ip)) _ (λ s v. v)
          (λ ip. then-Sound (act (adds_ipv6 host i.name ip)) _ (act-Sound _) (λ u.
            then-Sound (act (stops_offload host i.name)) _ (act-Sound _) (λ u. act-Sound _)))))

  dhcp-Sound :
      (d : Bool) (h1 : Running)
      → Sound (if d then for_each h1.intfs (dhcp_intf mn w host) else pure tt)
  dhcp-Sound d h1 = if-Sound d _ (pure tt) (for_each-Sound h1.intfs _ dhcp_intf-Sound) (λ s v. v)

  tables-Sound : (d : Bool) (h1 : Running) → Sound (if d then arp_tables mn w host h1 else pure tt)
  tables-Sound d h1 = if-Sound d _ (pure tt) (arp_tables-Sound h1) (λ s v. v)

  gateway-Sound :
      (d : Bool) (h1 : Running) → Sound (if d then gateway_arp mn w host h1 else pure tt)
  gateway-Sound d h1 = if-Sound d _ (pure tt) (gateway_arp-Sound h1) (λ s v. v)

  program_host-Sound : (info : Attrs) → Sound (program_host mn w host info)
  unfolding program_host
  program_host-Sound info = then-Sound (running host) _ (running-Sound host) (λ h1 s v.
      then-Sound (if s.api.auto_gw_arp then gateway_arp mn w host h1 else pure tt) _
        (gateway-Sound s.api.auto_gw_arp h1)
        (λ u s v.
          then-Sound (if s.api.auto_arp_tables then arp_tables mn w host h1 else pure tt) _
            (tables-Sound s.api.auto_arp_tables h1)
            (λ u.
              then-Sound
                (if flagged info "dhcp" then for_each h1.intfs (dhcp_intf mn w host) else pure tt)
                (λ u. for_each h1.intfs (intf_commands mn w host))
                (dhcp-Sound (flagged info "dhcp") h1)
                (λ u. for_each-Sound h1.intfs _ intf_commands-Sound))
            s v)
        s v)

pub program_hosts-Sound : (mn : Mininet) (w : World) → Sound (program_hosts mn w)
unfolding program_hosts
program_hosts-Sound mn w =
    then-Sound (on_api (ask mn (hosts mn))) _ (λ s v. v)
      (λ hs.
        for_each-Sound hs (λ h. program_host mn w h.0 h.1) (λ h. program_host-Sound mn w h.0 h.1))
