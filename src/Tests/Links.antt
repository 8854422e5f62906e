-- ===== src/Tests/Links.antt =====
-- src/Network_API_l.py: links of a network of two switches.
use smoothie.Base.{
  ℕ, String, ◌≡◌, refl, ap, ◌≢◌, none, some, [], ◌∷◌, arith, nat_eq, string_eq, pair_eq, is_some,
}
use smoothie.Base.Dict.{get, put, remove, has}
use smoothie.Base.Error.{attribute_error, Result, ok, err}
use smoothie.Network.Value.{given, number, text, cls, flagged, truthy, Attrs, value_eq}
use smoothie.Network.Mininet.{Net}
use smoothie.Network.Ids.{is_node, is_switch, nodes}
use smoothie.Network.Nodes.{set_default, no_options}
use smoothie.Network.Links.Library.{entry, find}
use smoothie.Network.Links.Ends.{name_at, oriented, other_end, other_ends, contains_char, replace}
use smoothie.Network.Links.Rows.{
  note_row, note_rows, node_ports, node_intfs, ip_addresses, address_of,
}
use smoothie.Network.Links.Store.{
  get_link, delete_link, pop_link, refuse_taken, check_address, link_options, insert_link, add_link,
  add_again, update_link, port_value, set_seen, drop_seen, set_edge, forget,
}
use smoothie.Network.Links.Store.Lost.{Lacks}
use smoothie.Network.Links.Store.Updating.{InOrder}
use smoothie.Network.Links.Store.Invariant.{HasPort}
use smoothie.Network.Links.Setters.{
  update_if, set_bw, is_real, is_int, set_intf_port, refuse_present,
}
use smoothie.Network.Links.Setters.Port.{set_intf_port_stored}
use mathlib.Core.Path.{subst}
use smoothie.Network.Links.Reachable.Step.{add, intf_port}
use smoothie.Network.Links.Reachable.Reach.{here, next}
use smoothie.Network.Links.Reachable.{no_links-IsLinked, Reach-InOrder}
use smoothie.Network.Links.Store.Frame.{bare, update_link_raises, delete_link_removes}
use smoothie.Network.Links.Store.Added.{Added, add_link-Added}
use smoothie.Network.Links.Store.Merged.{Merged}
use smoothie.Tests.Dicts.{dict_mininet, two_switches}
use smoothie.Tests.Edges.{dict_links}

abbrev pub link : Attrs
link =
    ("cls", cls "TCLink")
    ∷ ("weight", number 1)
    ∷ ("node1", text "s1")
    ∷ ("node2", text "s2")
    ∷ ("port1", number 1)
    ∷ ("port2", number 2)
    ∷ []

-- a link between the switches, of port 1 and port 2
abbrev pub linked : Net
linked = record two_switches {
  g = record {
    node = two_switches.g.node;
    edge = ("s1", ("s2", (0, link) ∷ []) ∷ []) ∷ ("s2", ("s1", (0, link) ∷ []) ∷ []) ∷ [];
  };
}

s1_s2 : ◌≢◌ {A = String} "s1" "s2"
s1_s2 e = ground (arith, string_eq.beq_iff "s1" "s2")

add_link_runs :
    add_link dict_mininet dict_links "s1" "s2"
      (some (number 1))
      (some (number 2))
      none
      []
      two_switches
    ≡ (ok 0, linked)
unfolding add_link node_ports node_intfs ip_addresses is_node refuse_taken check_address insert_link
    link_options port_value note_rows is_switch nodes given get put has is_some set_default
    no_options entry flagged
add_link_runs = refl

add_link-Added_example :
    Added dict_mininet dict_links "s1" "s2"
      (some (number 1))
      (some (number 2))
      none
      []
      two_switches
      0
      linked
add_link-Added_example =
    add_link-Added dict_mininet dict_links "s1" "s2" (some (number 1)) (some (number 2)) none []
      two_switches add_link_runs

-- the link is added, and then its port at the second switch is changed
abbrev first_added : Net
first_added =
    (add_link dict_mininet dict_links "s1" "s2" (some (number 1)) (some (number 2)) none []
      two_switches).1

Reach-InOrder_example :
    InOrder (set_intf_port dict_mininet dict_links "s2" "s1" (number 7) none first_added).1
Reach-InOrder_example =
    Reach-InOrder dict_mininet dict_links (no_links-IsLinked two_switches.g refl) (
      next (next here (add "s1" "s2" (some (number 1)) (some (number 2)) none [] s1_s2))
        (intf_port "s2" "s1" (number 7) none))

linked-InOrder : InOrder linked
linked-InOrder = subst InOrder (ap (λ (p : Result ℕ × Net). p.1) add_link_runs) (
    Reach-InOrder dict_mininet dict_links (no_links-IsLinked two_switches.g refl)
      (next here (add "s1" "s2" (some (number 1)) (some (number 2)) none [] s1_s2)))

link_there : find linked.g "s1" "s2" 0 ≡ some link
unfolding find entry get
link_there = refl

delete_link_removes_example :
    ((delete_link dict_mininet dict_links "s1" "s2" (some 0) linked).0 ≡ ok tt)
    × Lacks (delete_link dict_mininet dict_links "s1" "s2" (some 0) linked).1.g linked.g "s1" "s2" 0
    × (bare (delete_link dict_mininet dict_links "s1" "s2" (some 0) linked).1 ≡ bare linked)
delete_link_removes_example =
    delete_link_removes dict_mininet dict_links "s1" "s2" 0 link linked linked-InOrder link_there

-- an address that is no text
abbrev no_address : Attrs
no_address = ("sw_ip1", number 5) ∷ []

raises :
    (update_link dict_mininet dict_links "s1" "s2" (some 0) no_address linked).0
    ≡ err attribute_error
unfolding update_link add_again pop_link get_link delete_link forget set_seen drop_seen set_edge
    oriented other_ends other_end contains_char replace name_at add_link node_ports node_intfs
    ip_addresses is_node refuse_taken check_address insert_link link_options port_value note_rows
    is_switch nodes given get put remove has is_some set_default no_options entry flagged truthy
    address_of
raises = refl

update_link_raises_example :
    Lacks
      (update_link dict_mininet dict_links "s1" "s2" (some 0) no_address linked).1.g
      linked.g
      "s1"
      "s2"
      0
    × (bare (update_link dict_mininet dict_links "s1" "s2" (some 0) no_address linked).1
        ≡ bare linked)
update_link_raises_example =
    update_link_raises dict_mininet dict_links "s1" "s2" 0 link no_address linked attribute_error
      linked-InOrder link_there raises

abbrev faster : Net
faster = (set_bw dict_mininet dict_links "s1" "s2" (number 10) none linked).1

set_bw_runs : set_bw dict_mininet dict_links "s1" "s2" (number 10) none linked ≡ (ok 0, faster)
unfolding update_link add_again pop_link get_link delete_link forget set_seen drop_seen set_edge
    oriented other_ends other_end contains_char replace name_at add_link node_ports node_intfs
    ip_addresses is_node refuse_taken check_address insert_link link_options port_value note_rows
    is_switch nodes given get put remove has is_some set_default no_options entry flagged truthy
    set_bw update_if is_int is_real
set_bw_runs = refl

abbrev moved : Net
moved = (set_intf_port dict_mininet dict_links "s2" "s1" (number 7) none linked).1

set_intf_port_runs :
    set_intf_port dict_mininet dict_links "s2" "s1" (number 7) none linked ≡ (ok 0, moved)
unfolding update_link add_again pop_link get_link delete_link forget set_seen drop_seen set_edge
    oriented other_ends other_end contains_char replace name_at add_link node_ports node_intfs
    ip_addresses is_node refuse_taken check_address insert_link link_options port_value note_rows
    is_switch nodes given get put remove has is_some set_default no_options entry flagged truthy
    set_intf_port refuse_present note_row
set_intf_port_runs = refl

set_intf_port_stored_example :
    (i : Attrs) × (find moved.g "s2" "s1" 0 ≡ some i) × HasPort "s2" (number 7) i
set_intf_port_stored_example =
    set_intf_port_stored dict_mininet dict_links (number 7) refl refl "s2" "s1" none linked
      linked-InOrder set_intf_port_runs

abbrev opts_7 : Attrs
opts_7 = ("port1", number 7) ∷ []

abbrev turned : Net
turned = (update_link dict_mininet dict_links "s2" "s1" none opts_7 linked).1
