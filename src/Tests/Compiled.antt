-- ===== src/Tests/Compiled.antt =====
-- src/Network_API_l.py: a small network is compiled, and runs to its end.
use mathlib.Core.List.{Memᴰ}
use smoothie.Base.{
  String, ◌≡◌, refl, false, none, some, [], ◌∷◌, nat_eq, string_eq, pair_eq, is_some,
}
use smoothie.Base.Dict.{get, put, remove, has}
use smoothie.Base.Error.{ok}
use smoothie.Network.Value.{Value, text, Attrs, value_eq, flagged, truthy, given, is_params}
use smoothie.Network.Mininet.{Net}
use smoothie.Network.Ids.{
  is_host, is_p4switch, is_p4runtime_switch, is_switch, is_tofino, is_router, p4switches, nodes,
  nodes_info,
}
use smoothie.Network.Nodes.{
  update_node, node_kind, pop_node, get_node, delete_node, node_setter, add_p4switch, add_switch,
  add_node, add_with_defaults, check_dpid, check_device_id, no_options, set_default,
}
use smoothie.Network.Nodes.Stored.{Ordinary, ordinary, update_node-get}
use smoothie.Network.Start.{Boot, Compiler, module_of, act, for_each, running, set_defaults}
use smoothie.Network.Start.Compile.{compile, compile_switch, compiler_of, new_compiler, set_outputs}
use smoothie.Network.Start.Compile.Outputs.{BuiltBy}
use smoothie.Network.Start.Compile.Compiled.{compile-Compiled}
use smoothie.Network.Start.Run.{start_network}
use smoothie.Tests.Auto.{two_hosts}
use smoothie.Tests.Edges.{dict_links}
use smoothie.Tests.Dicts.{dict_mininet}
use smoothie.Network.Start.{running}
use smoothie.Tests.World.{small_world, described, fresh, switch_info}

abbrev json : Attrs
json = ("json_path", text "int.json") ∷ []

abbrev with_json : Net
with_json = (update_node dict_mininet "s1" json described).1

s1_there : get described.g.node "s1" ≡ some switch_info
unfolding get
s1_there = refl

json_runs : update_node dict_mininet "s1" json described ≡ (ok "s1", with_json)
unfolding update_node node_kind pop_node get_node delete_node node_setter add_p4switch add_switch
    add_node add_with_defaults check_dpid check_device_id no_options set_default is_host
    is_p4runtime_switch is_p4switch is_switch is_router flagged truthy given get put remove has
    is_some
json_runs = refl

source_there : get (dict_mininet.merge_dict switch_info json) "p4_src" ≡ some (text "int.p4")
unfolding get put
source_there = refl

update_node-get_example :
    (a : Attrs) × (get with_json.g.node "s1" ≡ some a)
    × ((k : String) (v : Value)
        → Ordinary k
        → get json k ≡ some v
        → is_params v ≡ false
        → get a k ≡ some v)
    × ((k : String) → Ordinary k → get json k ≡ none → get a k ≡ get switch_info k)
update_node-get_example =
    update_node-get dict_mininet "s1" json switch_info "s1" described with_json s1_there
      ("p4_src", ordinary "p4_src" refl, (text "int.p4", source_there)) json_runs

abbrev compiled : Boot
compiled = (compile dict_mininet small_world fresh).1

compile_runs : compile dict_mininet small_world fresh ≡ (ok tt, compiled)
unfolding compile compile_switch compiler_of new_compiler set_outputs module_of act for_each
    p4switches is_tofino nodes nodes_info set_defaults update_node node_kind pop_node get_node
    delete_node node_setter add_p4switch add_switch add_node add_with_defaults check_dpid
    check_device_id no_options set_default is_host is_p4runtime_switch is_p4switch is_switch
    is_router flagged truthy given get put remove has is_some
compile_runs = refl

switches_there : p4switches dict_mininet fresh.api.g ≡ ok (("s1", switch_info) ∷ [])
unfolding p4switches is_p4switch nodes nodes_info flagged truthy get
switches_there = refl

source_of_s1 : get switch_info "p4_src" ≡ some (text "int.p4")
unfolding get
source_of_s1 = refl

no_tofino : flagged switch_info "isTofino" ≡ false
unfolding flagged get
no_tofino = refl

compile-Compiled_example :
    (c : Compiler) × BuiltBy dict_mininet small_world "s1" "int.p4" c compiled
    × (small_world.compile c ≡ ok tt)
compile-Compiled_example =
    compile-Compiled dict_mininet small_world "s1" "int.p4" (("s1", switch_info) ∷ []) switch_info
      fresh compiled tt switches_there (Memᴰ.head refl)
      (switch_info, (s1_there, source_of_s1, no_tofino)) compile_runs

-- a script is run, and killed
abbrev ready : Boot
ready = record fresh {
  api = record described {
    scripts = record { cmd = "ls"; reboot_run = false; out_file = none } ∷ [];
  };
}

abbrev done : Boot
done = (start_network dict_mininet small_world dict_links two_hosts ready).1
