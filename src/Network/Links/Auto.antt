-- ===== src/Network/Links/Auto.antt =====
-- src/Network_API_l.py: the automatic assignment of ids, ports, names and addresses.
pub mod Fresh
pub mod InOrder
use smoothie.Base.{
  ℕ, ◌/◌, String, Bool, true, false, ◌&&◌, Option, none, some, List, [], ◌∷◌, map, arith,
  if◌then◌else◌, Eq, ◌==◌, nat_eq, string_eq, pair_eq, set, contains,
}
use smoothie.Base.Dict.{get, keys}
use smoothie.Base.Error.{
  error, assertion_error, attribute_error, key_error, type_error, value_error, stop_iteration,
  Result, ok, err, or_raise,
}
use smoothie.Base.Exec.{Exec, pure, lift, gets, ◌>>=◌, ◌>>◌}
use Prim.Native.String.{◌++◌ as append}
use smoothie.Network.Value.{Value, text, number, params, given, Attrs, value_eq}
use smoothie.Network.Mininet.{Graph, Net, Mininet}
use smoothie.Network.Ids.{
  is_node, is_host, is_switch, is_p4switch, is_p4runtime_switch, nodes_info, auto_switch_id,
  auto_grpc_port, auto_thrift_port,
}
use smoothie.Network.Nodes.{ask, update_node}
use smoothie.Network.Flags.{intf_name}
use smoothie.Network.Settings.{set_p4switch_id, set_thrift_port, set_grpc_port, set_switch_dpid}
use smoothie.Network.Links.Library.{Row, LinkLib}
use smoothie.Network.Links.Rows.{Facing, node_ports, mac_addresses, ip_addresses, auto_port_num}
use smoothie.Network.Links.Setters.{set_intf_port, set_intf_name, set_intf_mac, set_intf_ip}

-- what the assignment takes from Python and from p4utils
pub record Source : Type 0 where
  -- the texts that `rand_mac` draws for an interface, in order; the loop over them goes on for as
  -- long as they are in use, and a list that ends stands for a loop that does not
  pub rand_mac : String → String → ℕ → List String
  -- `ipv4_net.hosts()` and `ipv4_net.prefixlen`, as texts
  pub hosts : List String
  pub prefix_len : String
  -- `dpidToStr`
  pub dpid_to_str : ℕ → String
  -- `repr` of a port, and `<` of two of them
  pub repr : Value → String
  pub less : Value → Value → Result Bool

-- the first that is not in use
unfoldable pub first_free : {A : Type 0} → ⦃e : Eq A⦄ → List A → List A → Result A
first_free [] used = err stop_iteration
first_free (x ∷ xs) used = let rest = first_free xs used in if contains x used then rest else ok x

-- min(…), of at least one
unfoldable pub least : (Value → Value → Result Bool) → Value → List Value → Result Value
least less v [] = ok v
least less v (w ∷ ws) = elim (less w v) [
  | err x ↦ err x
  | ok true ↦ least less w ws
  | ok false ↦ least less v ws
]

-- info['params1']['ip']
unfoldable pub ip_param : Option Value → Result String
ip_param none = err key_error
ip_param (some (params d)) = or_raise key_error (get d "ip")
ip_param (some v) = err type_error

-- params1.get('ip'), where params1 is not None
unfoldable pub own_ip : Value → Result (Option String)
own_ip (params d) = ok (get d "ip")
own_ip v = err attribute_error

module _ (mn : Mininet) (lib : LinkLib) (src : Source) where
  -- `auto_mac_address`, for an interface: the loop goes on with the next draw.
  unfoldable pub auto_mac_address : String → String → ℕ → Graph → Result Value
  auto_mac_address node other key g =
      first_free (map text (src.rand_mac node other key)) (mac_addresses mn lib g)

  -- `auto_ip_address`
  unfoldable pub auto_ip_address : Graph → Result String
  auto_ip_address g = elim (ip_addresses mn lib g) [
    | err x ↦ err x
    | ok used ↦ elim (first_free src.hosts used) [
      | err x ↦ err x
      | ok ip ↦ ok (append ip (append "/" src.prefix_len))
    ]
  ]

  -- if value is None: the next free number is set
  unfoldable pub fill_in :
      Option Value → (Graph → Result ℕ) → (ℕ → Exec Net (Unit {0})) → Exec Net (Unit {0})
  fill_in (some v) next set = pure tt
  fill_in none next set = do n ← ask mn next; set n

  -- a round of the first loop of `auto_assignment`
  unfoldable pub assign_node : String × Attrs → Exec Net (Unit {0})
  assign_node (node, info) = do
    p4 ← ask mn (λ g. is_p4switch g node)
    if p4
        then (do
          fill_in (given info "device_id") (auto_switch_id mn 1) (set_p4switch_id mn node)
          fill_in (given info "thrift_port") (auto_thrift_port mn 9090) (set_thrift_port mn node)
          p4rt ← ask mn (λ g. is_p4runtime_switch g node)
          if p4rt
              then fill_in (given info "grpc_port") (auto_grpc_port mn 9559) (set_grpc_port mn node)
              else pure tt)
        else (do
          switch ← ask mn (λ g. is_switch mn g node)
          if switch
              then fill_in (given info "dpid") (auto_switch_id mn 1)
                  (λ id. set_switch_dpid mn node (text (src.dpid_to_str id)))
              else pure tt)

  unfoldable pub assign_nodes : List (String × Attrs) → Exec Net (Unit {0})
  assign_nodes [] = pure tt
  assign_nodes (n ∷ ns) = do assign_node n; assign_nodes ns

  -- the port of the interface, where it has none: hosts count from 0, other nodes from 1
  unfoldable pub assign_port : String → String → ℕ → Option Value → Exec Net Value
  assign_port node other key (some port) = pure port
  assign_port node other key none = do
    host ← ask mn (λ g. is_host g node)
    n ← gets (λ s. auto_port_num mn lib (if host then 0 else 1) s.g node)
    set_intf_port mn lib node other (number n) (some key)
    pure (number n)

  unfoldable pub assign_name : String → String → ℕ → Option Value → Value → Exec Net (Unit {0})
  assign_name node other key (some name) port = pure tt
  assign_name node other key none port =
      set_intf_name mn lib node other (text (intf_name src.repr node port)) (some key) >> pure tt

  unfoldable pub assign_mac : String → String → ℕ → Option Value → Exec Net (Unit {0})
  assign_mac node other key (some addr) = pure tt
  assign_mac node other key none = do
    mac ← ask mn (auto_mac_address node other key)
    set_intf_mac mn lib node other mac (some key)
    pure tt

  unfoldable pub new_ip : String → String → ℕ → Exec Net (Unit {0})
  new_ip node other key = do
    ip ← ask mn auto_ip_address
    set_intf_ip mn lib node other ip (some key)
    pure tt

  -- an address for the interface of a host that has none
  unfoldable pub assign_ip : String → String → ℕ → Option Value → Exec Net (Unit {0})
  assign_ip node other key p = do
    host ← ask mn (λ g. is_host g node)
    if host
        then elim p [
          | none ↦ new_ip node other key
          | some v ↦
              (lift (own_ip v) >>= λ ip. elim ip [
                | none ↦ new_ip node other key
                | some i ↦ pure tt
              ])
        ]
        else pure tt

  -- a round of the second loop; the options of the link are read as they were when it was listed,
  -- since no field is read again after it was set
  unfoldable pub assign_link : Row → Exec Net (Unit {0})
  assign_link r = do
    port1 ← assign_port r.node1 r.node2 r.key (given r.info "port1")
    port2 ← assign_port r.node2 r.node1 r.key (given r.info "port2")
    assign_name r.node1 r.node2 r.key (given r.info "intfName1") port1
    assign_name r.node2 r.node1 r.key (given r.info "intfName2") port2
    assign_mac r.node1 r.node2 r.key (given r.info "addr1")
    assign_mac r.node2 r.node1 r.key (given r.info "addr2")
    assign_ip r.node1 r.node2 r.key (given r.info "params1")
    assign_ip r.node2 r.node1 r.key (given r.info "params2")

  -- `get_default_intf`
  unfoldable pub get_default_intf : Graph → String → Result (Option Facing)
  get_default_intf g node =
      if is_node mn g node
      then elim (get (node_ports mn lib g) node) [
        | none ↦ ok none
        | some [] ↦ err value_error
        | some ((p, f) ∷ ports) ↦ elim (least src.less p (keys ports)) [
          | err x ↦ err x
          | ok q ↦ ok (get ((p, f) ∷ ports) q)
        ]
      ]
      else err error

  -- `is_default_intf`
  unfoldable pub is_default_intf : Graph → String → String → Option ℕ → Result Bool
  is_default_intf g node1 node2 key =
      if is_node mn g node1 && is_node mn g node2
      then elim (get_default_intf g node1) [
        | err x ↦ err x
        | ok found ↦ elim (lib.link_entry g node1 node2 key) [
          | err x ↦ err x
          | ok (e, k) ↦
              ok (elim found [
                | none ↦ false
                | some (a, b, j) ↦ a == node1 && (b == node2 && j == k)
              ])
        ]
      ]
      else err assertion_error

  -- The addresses of a host's default interface are the host's own.
  unfoldable pub update_host : String → String → Row → String → String → Exec Net (Unit {0})
  update_host node other r addr par = do
    host ← ask mn (λ g. is_host g node)
    if host
        then (do
          default ← ask mn (λ g. is_default_intf g node other (some r.key))
          if default
              then (do
                mac ← lift (or_raise key_error (get r.info addr))
                update_node mn node (("mac", mac) ∷ [])
                ip ← lift (ip_param (get r.info par))
                update_node mn node (("ip", text ip) ∷ [])
                pure tt)
              else pure tt)
        else pure tt

  unfoldable pub each_row : (Row → Exec Net (Unit {0})) → List Row → Exec Net (Unit {0})
  each_row act [] = pure tt
  each_row act (r ∷ rs) = do act r; each_row act rs

  -- a round of the third loop
  unfoldable pub update_hosts : Row → Exec Net (Unit {0})
  update_hosts r = do
    update_host r.node1 r.node2 r "addr1" "params1"
    update_host r.node2 r.node1 r "addr2" "params2"

  -- `auto_assignment`
  unfoldable pub auto_assignment : Exec Net (Unit {0})
  auto_assignment = do
    ns ← gets (λ s. nodes_info mn s.g)
    assign_nodes ns
    rows ← gets (λ s. lib.sorted_links s.g)
    each_row assign_link rows
    rows ← gets (λ s. lib.links s.g)
    each_row update_hosts rows
