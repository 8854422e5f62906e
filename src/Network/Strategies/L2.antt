-- ===== src/Network/Strategies/L2.antt =====
-- src/Network_API_l.py: the strategy l2.
pub mod Distinct
use smoothie.Base.{
  String, not, none, some, List, [], ◌∷◌, if◌then◌else◌, ◌==◌, nat_eq, string_eq, pair_eq,
}
use smoothie.Base.Dict.{Dict, put}
use smoothie.Base.Error.{assertion_error, guard}
use smoothie.Base.Exec.{Exec, pure, lift, gets, ◌>>=◌, ◌>>◌}
use Prim.Native.String.{◌++◌ as append}
use smoothie.Base.Int.{pos}
use smoothie.Network.Value.{text}
use smoothie.Network.Mininet.{Net, Mininet}
use smoothie.Network.Ids.{is_host, is_switch, nodes}
use smoothie.Network.Nodes.{ask}
use smoothie.Network.Links.Library.{Row, LinkLib}
use smoothie.Network.Links.Rows.{is_multigraph}
use smoothie.Network.Links.Setters.{set_intf_mac, set_intf_ip}
use smoothie.Network.Strategies.{
  Plan, sw_cpu, upper_byte, lower_byte, dotted, is_valid, host_number, attached, host_address,
}

module _ (mn : Mininet) (lib : LinkLib) (plan : Plan) where
  -- the reserved address of a node, where it is a host with a number
  unfoldable pub reserve_node : Dict String String → String → Exec Net (Dict String String)
  reserve_node reserved node = if node == sw_cpu then pure reserved else (do
    host ← ask mn (λ g. is_host g node)
    if host
        then (do
          valid ← lift (is_valid mn plan node)
          if valid
              then (do
                n ← lift (host_number mn plan node)
                pure (
                    put reserved node (
                      dotted "10" "0" (plan.str (pos (upper_byte n)))
                        (plan.str (pos (lower_byte n))))))
              else pure reserved)
        else (do
          switch ← ask mn (λ g. is_switch mn g node)
          lift (guard switch assertion_error)
          pure reserved))

  unfoldable pub reserve_nodes : Dict String String → List String → Exec Net (Dict String String)
  reserve_nodes reserved [] = pure reserved
  reserve_nodes reserved (n ∷ ns) = do more ← reserve_node reserved n; reserve_nodes more ns

  -- the addresses of the link between a host and its switch
  unfoldable pub set_addresses : String → String → String → String → Exec Net (Unit {0})
  set_addresses host switch ip mask = do
    set_intf_mac mn lib host switch (text (plan.mac_of ip 0)) none
    set_intf_mac mn lib switch host (text (plan.mac_of ip 1)) none
    set_intf_ip mn lib host switch (append ip mask) none
    pure tt

  -- a round: what the generator has left, and the addresses that are assigned
  unfoldable pub l2_link :
      Dict String String → Row → List String → List String → Exec Net (List String × List String)
  l2_link reserved r ips assigned = do
    at ← ask mn (attached mn plan r.node1 r.node2)
    elim at [
      | none ↦ pure (ips, assigned)
      | some (host, switch) ↦
          (lift (host_address mn plan reserved assigned ips host) >>= λ (ip, left).
          (set_addresses host switch ip "/16" >> pure (left, ip ∷ assigned)))
    ]

  unfoldable pub l2_links :
      Dict String String → List Row → List String → List String → Exec Net (Unit {0})
  l2_links reserved [] ips assigned = pure tt
  l2_links reserved (r ∷ rs) ips assigned = do
    (left, more) ← l2_link reserved r ips assigned
    l2_links reserved rs left more

  -- `l2`
  unfoldable pub l2 : Exec Net (Unit {0})
  l2 = do
    ns ← gets (λ s. nodes mn s.g)
    reserved ← reserve_nodes [] ns
    many ← ask mn (is_multigraph mn lib)
    lift (guard (not many) assertion_error)
    rows ← gets (λ s. lib.links s.g)
    l2_links reserved rows (plan.hosts_of "10.0.0.0/16") []
