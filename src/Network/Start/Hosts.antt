-- ===== src/Network/Start/Hosts.antt =====
-- src/Network_API_l.py: `program_hosts`, which fills the ARP tables of the hosts and sets their
-- interfaces up.
pub mod Arp
pub mod InOrder
use Prim.Native.String.{◌++◌ as append}
use smoothie.Base.{
  ℕ, zero, suc, ◌/◌, String, Option, none, some, arith, if◌then◌else◌, ◌==◌, nat_eq, string_eq,
  pair_eq,
}
use smoothie.Base.Error.{index_error, type_error, Result, ok, err, or_raise}
use smoothie.Base.Exec.{◌>>=◌, ◌>>◌, Exec, pure, lift, gets, ◌>>◌}
use smoothie.Helper.{converttov6}
use smoothie.Network.Value.{Attrs, flagged}
use smoothie.Network.Mininet.{Mininet}
use smoothie.Network.Ids.{hosts, nodes, is_switch}
use smoothie.Network.Nodes.{ask}
use smoothie.Network.Start.{
  Boot, World, Intf, Running, sets_arp, releases_dhcp, asks_dhcp, allows_ipv6, adds_ipv6,
  stops_offload, lowers_mtu, on_api, act, for_each, running,
}
use smoothie.Network.Start.Texts.{before_slash, last_word, shown}

-- `if a == b: continue`
unfoldable pub unless_same : String → String → Exec Boot (Unit {0}) → Exec Boot (Unit {0})
unless_same a b body = if a == b then pure tt else body

-- the loops skip the loopback interface
abbrev pub unless_lo : Intf → Exec Boot (Unit {0}) → Exec Boot (Unit {0})
unless_lo i body = unless_same i.name "lo" body

-- the fake address of a switch on the link
fake_ip : Intf → Option String
fake_ip i = elim i.first [ none ↦ none | some first ↦ if first then i.sw_ip1 else i.sw_ip2 ]

-- ip_interface('{}/{}'.format(ip, prefixLen)).network.compressed
unfoldable pub network : World → Intf → Result String
network w i = w.network_of (append (shown i.ip) (append "/" (w.str i.prefix_len)))

-- converttov6(intf.ip): '2002::' + None raises.
unfoldable pub v6_of : World → Option String → Result ℕ
v6_of w none = err type_error
v6_of w (some ip) = elim (w.v4_of ip) [ ok n ↦ ok (converttov6 n) | err x ↦ err x ]

module _ (mn : Mininet) (w : World) (host : String) where
  -- an entry for the gateway, where the address is the gateway's
  unfoldable pub gateway_entry : String → String → Option String → Exec Boot (Unit {0})
  gateway_entry gw_ip mac none = pure tt
  gateway_entry gw_ip mac (some ip) =
      if before_slash ip == gw_ip then act (sets_arp host gw_ip mac) else pure tt

  gateway_node : String → String → Exec Boot (Unit {0})
  unfolding fake_ip
  gateway_node gw_ip node = unless_same host node (do
    n ← running node
    switch ← on_api (ask mn (λ g. is_switch mn g node))
    for_each n.intfs
        (λ i. unless_lo i (gateway_entry gw_ip i.mac (if switch then fake_ip i else i.ip))))

  -- the static ARP entry for the gateway
  unfoldable pub gateway_arp : Running → Exec Boot (Unit {0})
  unfolding gateway_node
  gateway_arp h1 = elim h1.default_route [
    | none ↦ pure tt
    | some route ↦ (do
      gw_ip ← lift (or_raise index_error (last_word route))
      names ← gets (λ s. nodes mn s.api.g)
      for_each names (gateway_node gw_ip))
  ]

  -- an entry for an interface of another host in the same network
  unfoldable pub same_network_entry : String → Intf → Exec Boot (Unit {0})
  same_network_entry net1 i2 = unless_lo i2 (do
    net2 ← lift (network w i2)
    if net1 == net2 then act (sets_arp host (shown i2.ip) i2.mac) else pure tt)

  unfoldable pub other_host : String → String × Attrs → Exec Boot (Unit {0})
  other_host net1 h =
      unless_same host h.0 (do h2 ← running h.0; for_each h2.intfs (same_network_entry net1))

  -- the ARP entries for all the hosts in the same network
  unfoldable pub arp_tables : Running → Exec Boot (Unit {0})
  arp_tables h1 = for_each h1.intfs (λ i1. unless_lo i1 (do
    net1 ← lift (network w i1)
    hs ← on_api (ask mn (hosts mn))
    for_each hs (other_host net1)))

  -- the commands for an interface
  dhcp_intf : Intf → Exec Boot (Unit {0})
  dhcp_intf i = unless_lo i (act (releases_dhcp host i.name) >> act (asks_dhcp host i.name))

  unfoldable pub intf_commands : Intf → Exec Boot (Unit {0})
  intf_commands i = unless_lo i (do
    act (allows_ipv6 host i.name)
    ip ← lift (v6_of w i.ip)
    act (adds_ipv6 host i.name ip)
    act (stops_offload host i.name)
    act (lowers_mtu host i.name))

  unfoldable pub program_host : Attrs → Exec Boot (Unit {0})
  unfolding dhcp_intf
  program_host info = do
    h1 ← running host
    gw ← gets (λ s. s.api.auto_gw_arp)
    (if gw then gateway_arp h1 else pure tt)
    tables ← gets (λ s. s.api.auto_arp_tables)
    (if tables then arp_tables h1 else pure tt)
    (if flagged info "dhcp" then for_each h1.intfs dhcp_intf else pure tt)
    for_each h1.intfs intf_commands

-- `program_hosts`
unfoldable pub program_hosts : Mininet → World → Exec Boot (Unit {0})
program_hosts mn w = do
  hs ← on_api (ask mn (hosts mn))
  for_each hs (λ h. program_host mn w h.0 h.1)
