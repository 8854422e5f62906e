-- ===== src/Network/Strategies/Mixed.antt =====
-- src/Network_API_l.py: the strategy mixed, and what l3 has in common with it.
pub mod InOrder
use smoothie.Base.{
  ◌/◌, String, false, not, ◌||◌, none, some, List, [], ◌∷◌, arith, if◌then◌else◌, ◌==◌, nat_eq,
  string_eq, pair_eq, contains,
}
use smoothie.Base.Dict.{Dict, get, put}
use smoothie.Base.Error.{error, assertion_error, key_error, or_raise, guard}
use smoothie.Base.Exec.{Exec, pure, raise, lift, gets, ◌>>=◌, ◌>>◌}
use Prim.Native.String.{◌++◌ as append}
use smoothie.Base.Int.{ℤ, pos}
use smoothie.Network.Value.{Value, text, number, given, Attrs, value_eq}
use smoothie.Network.Mininet.{Net, Mininet}
use smoothie.Network.Ids.{is_host, is_switch, is_p4switch, nodes_info, auto_switch_id, dpid_value}
use smoothie.Network.Nodes.{ask}
use smoothie.Network.Settings.{set_p4switch_id, set_switch_dpid, set_default_route}
use smoothie.Network.Links.Library.{Row, LinkLib}
use smoothie.Network.Links.Rows.{is_multigraph}
use smoothie.Network.Links.Setters.{set_intf_mac, set_intf_ip}
use smoothie.Network.Strategies.{
  Plan, sw_cpu, upper_byte, lower_byte, below_254, dotted, masked, whole, is_valid, host_number,
  attached, host_address,
}

-- what the first loop of mixed leaves: the generator and the id of each switch
pub record Subnets : Type 0 where
  pub generators : Dict String (List String)
  pub ids : Dict String Value

module _ (mn : Mininet) (lib : LinkLib) (plan : Plan) where
  -- the id of a switch, which gets one where it has none
  unfoldable pub switch_number : String × Attrs → Exec Net Value
  switch_number (node, info) = do
    p4 ← ask mn (λ g. is_p4switch g node)
    if p4
        then elim (given info "device_id") [
          | some id ↦ pure id
          | none ↦
              (ask mn (auto_switch_id mn 1) >>= λ n. (set_p4switch_id mn node n >> pure (number n)))
        ]
        else elim (given info "dpid") [
          | some dpid ↦ (lift (dpid_value dpid) >>= λ n. pure (number n))
          | none ↦
              (ask mn (auto_switch_id mn 1) >>= λ n.
              (set_switch_dpid mn node (number n) >> pure (number n)))
        ]

  -- '10.%d.%d.0/24'
  unfoldable pub subnet : ℤ → String → String
  subnet n last = dotted "10" (plan.str (pos (upper_byte n))) (plan.str (pos (lower_byte n))) last

  -- a round of the first loop of mixed
  unfoldable pub mixed_node : Subnets → String × Attrs → Exec Net Subnets
  mixed_node subnets (node, info) = if node == sw_cpu then pure subnets else (do
    switch ← ask mn (λ g. is_switch mn g node)
    if switch
        then (do
          id ← switch_number (node, info)
          n ← lift (masked id)
          pure (record {
            generators = put subnets.generators node (plan.hosts_of (subnet n "0/24"));
            ids = put subnets.ids node id;
          }))
        else (do
          host ← ask mn (λ g. is_host g node)
          lift (guard host assertion_error)
          pure subnets))

  unfoldable pub mixed_nodes : Subnets → List (String × Attrs) → Exec Net Subnets
  mixed_nodes subnets [] = pure subnets
  mixed_nodes subnets (n ∷ ns) = do more ← mixed_node subnets n; mixed_nodes more ns

  -- the reserved address of a host with a number
  unfoldable pub reserve_host : Dict String String → ℤ → String → Exec Net (Dict String String)
  reserve_host reserved n host = do
    valid ← lift (is_valid mn plan host)
    if valid
        then (do
          h ← lift (host_number mn plan host)
          lift (guard (below_254 h) assertion_error)
          pure (put reserved host (subnet n (plan.str h))))
        else pure reserved

  -- a round of the second loop of mixed
  unfoldable pub mixed_reserve_link :
      Subnets → Dict String String → Row → Exec Net (Dict String String)
  mixed_reserve_link subnets reserved r = do
    at ← ask mn (attached mn plan r.node1 r.node2)
    elim at [
      | none ↦ pure reserved
      | some (host, switch) ↦
          (lift (or_raise key_error (get subnets.ids switch)) >>= λ id.
          (lift (masked id) >>= λ n. reserve_host reserved n host))
    ]

  unfoldable pub mixed_reserve :
      Subnets → Dict String String → List Row → Exec Net (Dict String String)
  mixed_reserve subnets reserved [] = pure reserved
  mixed_reserve subnets reserved (r ∷ rs) = do
    more ← mixed_reserve_link subnets reserved r
    mixed_reserve subnets more rs

  -- the addresses of the link between a host and its switch, and the host's way out
  unfoldable pub set_gateway : String → String → String → String → Exec Net (Unit {0})
  set_gateway host switch ip gw = do
    set_intf_mac mn lib host switch (text (plan.mac_of ip 0)) none
    set_intf_mac mn lib switch host (text (plan.mac_of ip 1)) none
    set_intf_ip mn lib host switch (append ip "/24") none
    set_intf_ip mn lib switch host (append gw "/24") none
    set_default_route mn host gw

  -- a round of the third loop
  unfoldable pub mixed_link :
      Dict String String → Row → Subnets → List String → Exec Net (Subnets × List String)
  mixed_link reserved r subnets assigned = do
    at ← ask mn (attached mn plan r.node1 r.node2)
    elim at [
      | none ↦ pure (subnets, assigned)
      | some (host, switch) ↦
          (lift (or_raise key_error (get subnets.ids switch)) >>= λ id.
          (lift (masked id) >>= λ n.
          (lift (or_raise key_error (get subnets.generators switch)) >>= λ ips.
          (lift (host_address mn plan reserved assigned ips host) >>= λ (ip, left).
          (set_gateway host switch ip (subnet n "254")
            >> pure (
              record subnets { generators = put subnets.generators switch left },
              ip ∷ assigned,
            ))))))
    ]

  unfoldable pub mixed_links :
      Dict String String → List Row → Subnets → List String → Exec Net (List String)
  mixed_links reserved [] subnets assigned = pure assigned
  mixed_links reserved (r ∷ rs) subnets assigned = do
    (left, more) ← mixed_link reserved r subnets assigned
    mixed_links reserved rs left more

  -- an address of a link between switches, which must be new
  unfoldable pub claim : String → List String → Exec Net (List String)
  claim ip assigned = if contains ip assigned then raise error else pure (ip ∷ assigned)

  -- a round of the last loop of mixed and of l3: a link between two switches
  unfoldable pub switch_link : Dict String Value → Row → List String → Exec Net (List String)
  switch_link ids r assigned = if r.node1 == sw_cpu || r.node2 == sw_cpu then pure assigned else (do
    switch1 ← ask mn (λ g. is_switch mn g r.node1)
    switch2 ← (if switch1 then ask mn (λ g. is_switch mn g r.node2) else pure false)
    if switch2
        then (do
          id1 ← lift (or_raise key_error (get ids r.node1))
          id2 ← lift (or_raise key_error (get ids r.node2))
          n1 ← lift (whole plan.trunc id1)
          n2 ← lift (whole plan.trunc id2)
          with1 ← claim (dotted "20" (plan.str n1) (plan.str n2) "1/24") assigned
          with2 ← claim (dotted "20" (plan.str n1) (plan.str n2) "2/24") with1
          set_intf_ip mn lib r.node1 r.node2 (dotted "20" (plan.str n1) (plan.str n2) "1/24") none
          set_intf_ip mn lib r.node2 r.node1 (dotted "20" (plan.str n1) (plan.str n2) "2/24") none
          pure with2)
        else pure assigned)

  unfoldable pub switch_links : Dict String Value → List Row → List String → Exec Net (Unit {0})
  switch_links ids [] assigned = pure tt
  switch_links ids (r ∷ rs) assigned = do
    more ← switch_link ids r assigned
    switch_links ids rs more

  -- `mixed`
  unfoldable pub mixed : Exec Net (Unit {0})
  mixed = do
    ns ← gets (λ s. nodes_info mn s.g)
    subnets ← mixed_nodes (record { generators = []; ids = [] }) ns
    many ← ask mn (is_multigraph mn lib)
    lift (guard (not many) assertion_error)
    rows ← gets (λ s. lib.links s.g)
    reserved ← mixed_reserve subnets [] rows
    rows ← gets (λ s. lib.links s.g)
    assigned ← mixed_links reserved rows subnets []
    rows ← gets (λ s. lib.links s.g)
    switch_links subnets.ids rows assigned
