-- ===== src/Tests/Nodes.antt =====
-- src/Network_API_l.py: ids, ports and nodes of a network of two switches.
use smoothie.Base.{
  String, ◌≡◌, refl, false, none, some, List, [], ◌∷◌, nat_eq, string_eq, pair_eq, is_some,
  contains,
}
use smoothie.Base.Dict.{get, put, remove, has}
use smoothie.Base.Error.{error, ok, err}
use smoothie.Network.Value.{value_eq, given, Value, number, flagged, truthy, Attrs}
use smoothie.Network.Mininet.{Net}
use smoothie.Tests.Dicts.{dict_mininet, switch_at, two_switches}
use smoothie.Network.Ids.{
  is_host, is_p4switch, is_p4runtime_switch, is_switch, nodes, nodes_info, switches, p4switches,
  p4rtswitches, switch_id, switch_ids, thrift_ports, grpc_ports, auto_switch_id, auto_thrift_port,
}
use smoothie.Network.Nodes.{
  set_default, add_p4switch, add_switch, add_node, check_dpid, check_device_id, refuse_used,
  add_with_defaults, no_options, p4switch, node_kind, update_node,
}
use smoothie.Network.Nodes.Lookup.{switch_options, add_p4switch-ok}
use smoothie.Network.Nodes.Lost.{update_node_lost}

auto_switch_id_runs : auto_switch_id dict_mininet 1 two_switches.g ≡ ok 3
unfolding auto_switch_id switch_ids switches switch_id is_switch nodes_info nodes is_p4switch
    flagged truthy given get
auto_switch_id_runs = refl

auto_thrift_port_runs : auto_thrift_port dict_mininet 9090 two_switches.g ≡ ok 9092
unfolding auto_thrift_port thrift_ports grpc_ports p4switches p4rtswitches nodes_info nodes
    is_p4switch is_p4runtime_switch flagged truthy given get
auto_thrift_port_runs = refl

abbrev id_two : Attrs
id_two = ("device_id", number 2) ∷ []

abbrev id_three : Attrs
id_three = ("device_id", number 3) ∷ []

switch_ids_runs : switch_ids dict_mininet two_switches.g ≡ ok (number 1 ∷ number 2 ∷ [])
unfolding switch_ids switches switch_id is_switch nodes_info nodes is_p4switch flagged truthy given
    get
switch_ids_runs = refl

two_given : given id_two "device_id" ≡ some (number 2)
unfolding given get
two_given = refl

abbrev three_switches : Net
three_switches = record two_switches {
  g = dict_mininet.add_node two_switches.g "s3" (switch_options id_three);
}

add_p4switch_runs : add_p4switch dict_mininet "s3" id_three two_switches ≡ (ok "s3", three_switches)
unfolding add_p4switch add_switch check_device_id check_dpid refuse_used add_with_defaults
    no_options add_node switch_ids switches switch_id is_switch nodes_info nodes is_p4switch flagged
    truthy get put set_default has is_some given
add_p4switch_runs = refl

add_p4switch-ok_example :
    (◌≡◌ {A = String} "s3" "s3")
    × (three_switches ≡ record two_switches {
      g = dict_mininet.add_node two_switches.g "s3" (switch_options id_three);
    })
    × ((id : Value)
        → given id_three "device_id" ≡ some id
        → (ids : List Value) × (switch_ids dict_mininet two_switches.g ≡ ok ids)
          × (contains id ids ≡ false))
add_p4switch-ok_example =
    add_p4switch-ok dict_mininet "s3" id_three two_switches "s3" three_switches add_p4switch_runs

kind_runs : node_kind dict_mininet "s1" two_switches ≡ (ok p4switch, two_switches)
unfolding node_kind is_host is_p4runtime_switch is_p4switch flagged truthy given get is_switch
kind_runs = refl

first_there : get two_switches.g.node "s1" ≡ some (switch_at 1)
unfolding given get
first_there = refl

two_merged : given (dict_mininet.merge_dict (switch_at 1) id_two) "device_id" ≡ some (number 2)
unfolding given get put
two_merged = refl

second_left :
    switch_ids dict_mininet (record { node = remove two_switches.g.node "s1"; edge = [] })
    ≡ ok (number 2 ∷ [])
unfolding switch_ids switches switch_id is_switch nodes_info nodes is_p4switch flagged truthy given
    get remove
second_left = refl

update_node_lost_example :
    ((update_node dict_mininet "s1" id_two two_switches).0 ≡ err error)
    × (get (update_node dict_mininet "s1" id_two two_switches).1.g.node "s1" ≡ none)
update_node_lost_example =
    update_node_lost dict_mininet "s1" id_two two_switches (switch_at 1) (number 2) (number 2 ∷ [])
      kind_runs first_there two_merged second_left refl
