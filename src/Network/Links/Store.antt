-- ===== src/Network/Links/Store.antt =====
-- src/Network_API_l.py: adding, reading, changing and removing links.
pub mod Gate
pub mod Invariant
pub mod Edges
pub mod Adding
pub mod Removing
pub mod Updating
pub mod Changed
pub mod Deleted
pub mod Lost
pub mod Frame
pub mod Added
pub mod Merged
use smoothie.Base.{
  ℕ, String, not, ◌&&◌, Option, none, some, arith, if◌then◌else◌, ◌==◌, nat_eq, string_eq, pair_eq,
  length,
}
use smoothie.Base.Dict.{Dict, get, put, remove, has}
use smoothie.Base.Error.{error, assertion_error, key_error, Result, ok, err, or_raise, guard}
use smoothie.Base.Exec.{Exec, pure, raise, lift, gets, ◌>>=◌, ◌>>◌}
use smoothie.Network.Value.{Value, text, number, cls, nothing, given, Attrs, value_eq}
use smoothie.Network.Mininet.{Entry, Net, Mininet}
use smoothie.Network.Ids.{is_node, is_switch}
use smoothie.Network.Nodes.{ask, set_default, no_options}
use smoothie.Network.Links.Library.{LinkLib}
use smoothie.Network.Links.Ends.{name_at, oriented}
use smoothie.Network.Links.Rows.{Facing, node_ports, node_intfs, ip_addresses, address_of, ip_of}

-- the object at `edge[a][b]`, changed to `e`, as it is seen from `a`
unfoldable pub set_seen :
    Dict String (Dict String Entry) → String → String → Entry → Dict String (Dict String Entry)
set_seen edge a b e = elim (get edge a) [
  | none ↦ edge
  | some m ↦ if has m b then put edge a (put m b e) else edge
]

-- self.g.edge[a].pop(b), and then self.g.edge.pop(a) where nothing is left
unfoldable pub drop_seen :
    Dict String (Dict String Entry) → String → String → Result (Dict String (Dict String Entry))
drop_seen edge a b = elim (get edge a) [
  | none ↦ err key_error
  | some m ↦
      if has m b
      then (let left = remove m b in
          ok (if length left == 0 then remove edge a else put edge a left))
      else err key_error
]

module _ (mn : Mininet) (lib : LinkLib) where
  -- `getLink`, with the key
  unfoldable pub get_link : String → String → Option ℕ → Exec Net (Attrs × ℕ)
  get_link node1 node2 key = do
    (e, k) ← ask mn (λ g. lib.link_entry g node1 node2 key)
    info ← lift (or_raise key_error (get e k))
    pure (info, k)

  unfoldable pub set_edge : Dict String (Dict String Entry) → Net → Net
  set_edge edge s = record s { g = record { node = s.g.node; edge = edge } }

  -- what `deleteLink` does where no link is left between the nodes
  unfoldable pub forget : String → String → Exec Net (Unit {0})
  unfolding set_edge
  forget node1 node2 s = elim (drop_seen s.g.edge node1 node2) [
    | err x ↦ (err x, s)
    | ok edge ↦ elim (drop_seen edge node2 node1) [
      | err x ↦ (err x, set_edge edge s)
      | ok edge' ↦ (ok tt, set_edge edge' s)
    ]
  ]

  -- `deleteLink`: the key leaves the object that both directions name.
  unfoldable pub delete_link : String → String → Option ℕ → Exec Net (Unit {0})
  unfolding set_edge
  delete_link node1 node2 key = do
    (e, k) ← ask mn (λ g. lib.link_entry g node1 node2 key)
    lift (or_raise key_error (get e k))
    λ s. (
      ok tt,
      set_edge (set_seen (set_seen s.g.edge node1 node2 (remove e k)) node2 node1 (remove e k)) s,
    )
    if length (remove e k) == 0 then forget node1 node2 else pure tt

  -- `popLink`
  unfoldable pub pop_link : String → String → Option ℕ → Exec Net (Attrs × ℕ)
  pop_link node1 node2 key = do
    (info, k) ← get_link node1 node2 key
    a ← lift (name_at info "node1")
    b ← lift (name_at info "node2")
    delete_link a b (some k)
    pure (info, k)

  -- raises where the node has this port, or an interface of this name, already
  unfoldable pub refuse_taken :
      Dict String (Dict Value Facing) → String → Option Value → Exec Net (Unit {0})
  refuse_taken taken node none = pure tt
  refuse_taken taken node (some v) = elim (get taken node) [
    | none ↦ pure tt
    | some m ↦ if has m v then raise error else pure tt
  ]

  -- The tests of an address only warn, but they read it.
  unfoldable pub check_address : String → String → String → Attrs → Exec Net (Unit {0})
  check_address node sw_ip params_of opts = do
    switch ← ask mn (λ g. is_switch mn g node)
    if switch
        then elim (given opts sw_ip) [ none ↦ pure tt | some v ↦ (lift (address_of v) >> pure tt) ]
        else elim (given opts params_of) [ none ↦ pure tt | some v ↦ (lift (ip_of v) >> pure tt) ]

  -- the port that is stored, which may be None
  unfoldable pub port_value : Option Value → Value
  port_value none = nothing
  port_value (some v) = v

  -- the options of a new link
  unfoldable pub link_options :
      Attrs → String → String → Option Value → Option Value → Attrs → Attrs
  unfolding port_value
  link_options lopts node1 node2 port1 port2 opts =
      let opts = if no_options mn opts && not (no_options mn lopts) then lopts else opts in
      let opts = set_default (set_default opts "cls" (cls "TCLink")) "weight" (number 1) in
      let opts = put (put opts "node1" (text node1)) "node2" (text node2) in
      put (put opts "port1" (port_value port1)) "port2" (port_value port2)

  unfoldable pub insert_link :
      String → String → Option Value → Option Value → Option ℕ → Attrs → Exec Net ℕ
  insert_link node1 node2 port1 port2 key opts s =
      let (k, g) =
        lib.add_edge s.g node1 node2 key (link_options s.lopts node1 node2 port1 port2 opts) in
      (ok k, record s { g = g })

  abbrev assert_node : String → Exec Net (Unit {0})
  assert_node node s = (guard (is_node mn s.g node) assertion_error, s)

  -- `addLink`
  unfoldable pub add_link :
      String → String → Option Value → Option Value → Option ℕ → Attrs → Exec Net ℕ
  add_link node1 node2 port1 port2 key opts = do
    ports ← gets (λ s. node_ports mn lib s.g)
    intfs ← gets (λ s. node_intfs mn lib s.g)
    ask mn (ip_addresses mn lib)
    assert_node node1
    assert_node node2
    refuse_taken ports node1 port1
    refuse_taken ports node2 port2
    refuse_taken intfs node1 (given opts "intfName1")
    refuse_taken intfs node2 (given opts "intfName2")
    check_address node1 "sw_ip1" "params1" opts
    check_address node2 "sw_ip2" "params2" opts
    insert_link node1 node2 port1 port2 key opts

  -- What is left of `info` goes to `addLink`: the ports by their names, the rest as options.
  unfoldable pub add_again : String → String → ℕ → Attrs → Exec Net ℕ
  add_again node1 node2 key info =
      add_link node1 node2 (given info "port1") (given info "port2") (some key)
        (remove (remove info "port1") "port2")

  -- `updateLink`
  unfoldable pub update_link : String → String → Option ℕ → Attrs → Exec Net ℕ
  update_link node1 node2 key opts = do
    (info, k) ← pop_link node1 node2 key
    changed ← lift (oriented node1 node2 info opts)
    a ← lift (name_at info "node1")
    b ← lift (name_at info "node2")
    add_again a b k (mn.merge_dict (remove (remove info "node1") "node2") changed)
