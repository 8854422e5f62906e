-- ===== src/Runner.antt =====
-- src/AppRunner.py: the calls that the JSON description of a network is made into.
pub mod InOrder
pub mod Whole
pub mod Settings
use smoothie.Base.{
  ℕ, String, Bool, true, false, Option, none, some, List, [], ◌∷◌, arith, if◌then◌else◌, ◌==◌,
  nat_eq, string_eq, pair_eq,
}
use smoothie.Base.Dict.{Dict, get, put, remove, update}
use smoothie.Base.Error.{key_error, Result, ok, err, or_raise}
use smoothie.Base.Exec.{Exec, pure, lift, ◌>>=◌, ◌>>◌}
use smoothie.Network.Value.{Value, number, flag, given, truthy, flagged, Attrs, value_eq}
use smoothie.Network.Mininet.{Net, Mininet}
use smoothie.Network.Flags.{
  enable_cli, disable_cli, enable_arp_tables, disable_arp_tables, enable_gw_arp, disable_gw_arp,
  exec_script,
}
use smoothie.Network.Nodes.{add_host, add_switch, add_p4switch, add_p4runtime_switch, add_router}
use smoothie.Network.Links.Library.{LinkLib}
use smoothie.Network.Links.Store.{add_link}
use smoothie.Network.Cpu.{enable_cpu_port}
use smoothie.Network.Strategies.{Plan}
use smoothie.Network.Strategies.L2.{l2}
use smoothie.Network.Strategies.Mixed.{mixed}
use smoothie.Network.Strategies.L3.{l3}

-- a script of the description, with `reboot_run` where it is there
pub record JsonScript : Type 0 where
  pub cmd : String
  pub reboot_run : Option Bool

-- a link of the description: two nodes, and the options where they are there
pub record JsonLink : Type 0 where
  pub node1 : String
  pub node2 : String
  pub opts : Option Attrs

-- what the constructor has read: the description, and the settings made of it
pub record Conf : Type 0 where
  pub hosts : Option (Dict String Attrs)
  pub switches : Option (Dict String Attrs)
  pub routers : Option (Dict String Attrs)
  pub links : Option (List JsonLink)
  pub default_opts : Attrs
  pub strategy : Option String
  pub exec_scripts : List JsonScript
  pub cli_enabled : Bool
  pub p4_src : Value
  pub host_node : Value
  pub switch_node : Value
  pub router_node : Value
  pub log_enabled : Value
  pub log_dir : Value
  pub pcap_dump : Value
  pub pcap_dir : Value

-- what p4utils and Python give: `load_custom_object`, and `issubclass` of a class and one of p4utils
pub record Loader : Type 0 where
  pub load_custom_object : Value → Result Value
  pub issubclass : Value → String → Result Bool

-- d.get(key, default), in an `if`
flag_or : Attrs → String → Bool → Bool
flag_or d key b = elim (get d key) [ none ↦ b | some v ↦ truthy v ]

-- The options of a node: the defaults without the field of the class, and the node's own on top. The
-- class is loaded where the node has the field.
unfoldable pub node_params : Loader → String → Value → Attrs → Attrs → Result Attrs
node_params load field default_cls defaults custom = elim (get custom field) [
  | none ↦ ok (update (put defaults "cls" default_cls) custom)
  | some v ↦ elim (load.load_custom_object v) [
    | err x ↦ err x
    | ok c ↦ ok (update defaults (remove (put custom "cls" c) field))
  ]
]

-- the key of a link, among the options, where it is a number; a description has no other keys
key_of : Option Value → Option ℕ
key_of (some (number k)) = some k
key_of _ = none

module _ (mn : Mininet) (lib : LinkLib) (plan : Plan) (load : Loader) where
  -- `parse_hosts`
  unfoldable pub parse_hosts : Conf → Dict String Attrs → Exec Net (Unit {0})
  parse_hosts conf [] = pure tt
  parse_hosts conf ((host, custom) ∷ hosts) = do
    params ← lift (
        node_params load "host_node" conf.host_node
          (("log_enabled", conf.log_enabled) ∷ ("log_dir", conf.log_dir) ∷ []) custom)
    add_host mn host params
    parse_hosts conf hosts

  -- the default options of a switch
  switch_defaults : Conf → Attrs
  switch_defaults conf =
      ("p4_src", conf.p4_src)
      ∷ ("pcap_dump", conf.pcap_dump)
      ∷ ("pcap_dir", conf.pcap_dir)
      ∷ ("log_enabled", conf.log_enabled)
      ∷ ("log_dir", conf.log_dir)
      ∷ []

  -- a switch is added by the method of its class
  unfoldable pub parse_switch : String → Attrs → Exec Net (Unit {0})
  parse_switch switch params = do
    c ← lift (or_raise key_error (get params "cls"))
    p4 ← lift (load.issubclass c "P4Switch")
    if p4
        then (do
          rt ← lift (load.issubclass c "P4RuntimeSwitch")
          (if rt then add_p4runtime_switch mn switch params else add_p4switch mn switch params)
          if flagged params "cpu_port" then enable_cpu_port mn lib switch else pure tt)
        else (add_switch mn switch params >> pure tt)

  -- `parse_switches`
  unfoldable pub parse_switches : Conf → Dict String Attrs → Exec Net (Unit {0})
  unfolding switch_defaults
  parse_switches conf [] = pure tt
  parse_switches conf ((switch, custom) ∷ switches) = do
    params ← lift (node_params load "switch_node" conf.switch_node (switch_defaults conf) custom)
    parse_switch switch params
    parse_switches conf switches

  router_defaults : Attrs
  router_defaults =
      ("zebra", flag true)
      ∷ ("ospfd", flag true)
      ∷ ("staticd", flag true)
      ∷ ("bgpd", flag true)
      ∷ []

  -- `parse_routers`
  unfoldable pub parse_routers : Conf → Dict String Attrs → Exec Net (Unit {0})
  unfolding router_defaults
  parse_routers conf [] = pure tt
  parse_routers conf ((router, custom) ∷ routers) = do
    params ← lift (node_params load "router_node" conf.router_node router_defaults custom)
    add_router mn router params
    parse_routers conf routers

  -- addLink(node1, node2, **params)
  unfoldable pub add_described : String → String → Attrs → Exec Net ℕ
  unfolding key_of
  add_described node1 node2 params =
      add_link mn lib node1 node2 (given params "port1") (given params "port2")
        (key_of (given params "key")) (remove (remove (remove params "port1") "port2") "key")

  unfoldable pub add_links : Attrs → List JsonLink → Exec Net (Unit {0})
  add_links defaults [] = pure tt
  add_links defaults (l ∷ ls) = do
    add_described l.node1 l.node2 (elim l.opts [ none ↦ defaults | some o ↦ update defaults o ])
    add_links defaults ls

  -- `parse_links`: two of the defaults are options of the whole network.
  unfoldable pub parse_links : Conf → List JsonLink → Exec Net (Unit {0})
  unfolding flag_or
  parse_links conf ls = do
    (if flag_or conf.default_opts "auto_arp_tables" true
        then enable_arp_tables
        else disable_arp_tables)
    (if flag_or conf.default_opts "auto_gw_arp" true then enable_gw_arp else disable_gw_arp)
    add_links (remove (remove conf.default_opts "auto_arp_tables") "auto_gw_arp") ls

  -- `execute_scripts`
  unfoldable pub execute_scripts : List JsonScript → Exec Net (Unit {0})
  execute_scripts [] = pure tt
  execute_scripts (s ∷ ss) = do
    exec_script s.cmd none (elim s.reboot_run [ none ↦ false | some b ↦ b ])
    execute_scripts ss

  -- the assignment strategy of the description; an unknown one only warns.
  unfoldable pub run_strategy : Option String → Exec Net (Unit {0})
  run_strategy none = pure tt
  run_strategy (some name) =
      if name == "l2"
      then l2 mn lib plan
      else if name == "l3"
      then l3 mn lib plan
      else if name == "mixed"
      then mixed mn lib plan
      else pure tt

  unfoldable pub where_given {ℓ} :
      {A : Type ℓ} → Option A → (A → Exec Net (Unit {0})) → Exec Net (Unit {0})
  where_given none act = pure tt
  where_given (some a) act = act a

  -- the end of the constructor, from the topology on
  unfoldable pub load_topology : Conf → Exec Net (Unit {0})
  load_topology conf = do
    where_given conf.hosts (parse_hosts conf)
    where_given conf.switches (parse_switches conf)
    where_given conf.routers (parse_routers conf)
    where_given conf.links (parse_links conf)
    execute_scripts conf.exec_scripts
    run_strategy conf.strategy
    if conf.cli_enabled then enable_cli else disable_cli
