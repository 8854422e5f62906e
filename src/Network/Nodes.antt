-- ===== src/Network/Nodes.antt =====
-- src/Network_API_l.py: adding, changing and removing nodes.
pub mod Lookup
pub mod Kept
pub mod Stored
pub mod Lost
use smoothie.Base.{
  String, Bool, true, false, not, ◌&&◌, Option, none, some, [], ◌∷◌, arith, if◌then◌else◌, nat_eq,
  string_eq, pair_eq, contains,
}
use smoothie.Base.Dict.{Dict, get, put, remove, has}
use smoothie.Base.Error.{error, key_error, Result, ok, err}
use smoothie.Base.Exec.{Exec, pure, raise, lift, ◌>>=◌, ◌>>◌}
use smoothie.Network.Value.{given, Value, number, flag, cls, Attrs, value_eq}
use smoothie.Network.Mininet.{Entry, Graph, Net, Mininet}
use smoothie.Network.Ids.{
  is_host, is_switch, is_p4switch, is_p4runtime_switch, is_router, switch_ids, dpid_value,
}

-- opts.setdefault(key, value)
unfoldable pub set_default : Attrs → String → Value → Attrs
set_default a key v = if has a key then a else put a key v

-- the classes that stand for the kinds of nodes
abbrev p4_host : Value
p4_host = cls "P4Host"

abbrev p4_switch : Value
p4_switch = cls "P4Switch"

abbrev p4_runtime_switch : Value
p4_runtime_switch = cls "P4RuntimeSwitch"

abbrev tofino : Value
tofino = cls "Tofino"

abbrev fr_router : Value
fr_router = cls "FRRouter"

-- the kind of a node says how it is added again
pub data Kind : Type 0 where
  host p4runtime_switch p4switch switch router other : Kind

module _ (mn : Mininet) where
  -- reads the graph
  abbrev pub ask {ℓ} : {A : Type ℓ} → (Graph → Result A) → Net → Result A × Net
  ask f s = (f s.g, s)

  -- `addNode` of `Topo`, with the name that it returns
  unfoldable pub add_node : String → Attrs → Exec Net String
  add_node name opts s = (ok name, record s { g = mn.add_node s.g name opts })

  -- `addHost`
  unfoldable pub add_host : String → Attrs → Exec Net String
  add_host name opts s =
      let opts = put (set_default opts "cls" p4_host) "isHost" (flag true) in
      (ok name, record s { g = mn.add_host s.g name opts })

  -- raises where the id is one of those in use
  unfoldable pub refuse_used : Value → Exec Net (Unit {0})
  refuse_used id = do ids ← ask (switch_ids mn); if contains id ids then raise error else pure tt

  -- the test of `dpid` in `addSwitch`
  unfoldable pub check_dpid : Option Value → Exec Net (Unit {0})
  check_dpid none = pure tt
  check_dpid (some dpid) = do n ← lift (dpid_value dpid); refuse_used (number n)

  unfoldable pub no_options : Attrs → Bool
  no_options [] = true
  no_options (o ∷ os) = false

  -- `if not opts and self.sopts`: the default options are taken, and the mark is put into them.
  unfoldable pub add_with_defaults : String → Attrs → Exec Net String
  add_with_defaults name opts s =
      if no_options opts && not (no_options s.sopts)
      then (let marked = put s.sopts "isSwitch" (flag true) in
          add_node name marked (record s { sopts = marked }))
      else add_node name (put opts "isSwitch" (flag true)) s

  -- `addSwitch`
  unfoldable pub add_switch : String → Attrs → Exec Net String
  add_switch name opts = do check_dpid (given opts "dpid"); add_with_defaults name opts

  -- the test of `device_id` in `addP4Switch`
  unfoldable pub check_device_id : Option Value → Exec Net (Unit {0})
  check_device_id none = pure tt
  check_device_id (some id) = refuse_used id

  -- `addP4Switch`
  unfoldable pub add_p4switch : String → Attrs → Exec Net String
  add_p4switch name opts = do
    check_device_id (given opts "device_id")
    add_switch name (put (set_default opts "cls" p4_switch) "isP4Switch" (flag true))

  -- `addP4RuntimeSwitch`
  unfoldable pub add_p4runtime_switch : String → Attrs → Exec Net String
  add_p4runtime_switch name opts =
      add_p4switch name
        (put (set_default opts "cls" p4_runtime_switch) "isP4RuntimeSwitch" (flag true))

  -- `addTofino`
  unfoldable pub add_tofino : String → Attrs → Exec Net String
  add_tofino name opts =
      add_p4switch name (put (set_default opts "cls" tofino) "isTofino" (flag true))

  -- `addRouter`
  unfoldable pub add_router : String → Attrs → Exec Net String
  add_router name opts =
      add_node name (put (set_default opts "cls" fr_router) "isRouter" (flag true))

  -- `getNode`
  unfoldable pub get_node : String → Exec Net Attrs
  get_node name s = elim (get s.g.node name) [ none ↦ (err key_error, s) | some a ↦ (ok a, s) ]

  unfoldable pub drop_neighbour :
      String → Dict String (Dict String Entry) → Dict String (Dict String Entry)
  drop_neighbour name [] = []
  drop_neighbour name ((n, m) ∷ es) = (n, remove m name) ∷ drop_neighbour name es

  -- `deleteNode`; the links go first, where they are to go.
  unfoldable pub delete_node : String → Bool → Exec Net (Unit {0})
  unfolding drop_neighbour
  delete_node name remove_links s =
      let edge = if remove_links then drop_neighbour name (remove s.g.edge name) else s.g.edge in
      if has s.g.node name
      then (ok tt, record s { g = record { node = remove s.g.node name; edge = edge } })
      else (err key_error, record s { g = record { node = s.g.node; edge = edge } })

  -- `popNode`
  unfoldable pub pop_node : String → Bool → Exec Net Attrs
  pop_node name remove_links = do node ← get_node name; delete_node name remove_links; pure node

  unfoldable pub node_setter : Kind → String → Attrs → Exec Net String
  node_setter host = add_host
  node_setter p4runtime_switch = add_p4runtime_switch
  node_setter p4switch = add_p4switch
  node_setter switch = add_switch
  node_setter router = add_router
  node_setter other = add_node

  unfoldable pub node_kind : String → Exec Net Kind
  node_kind name = do
    h ← ask (λ g. is_host g name)
    if h then pure host else do
      r ← ask (λ g. is_p4runtime_switch g name)
      if r then pure p4runtime_switch else do
        p ← ask (λ g. is_p4switch g name)
        if p then pure p4switch else do
          s ← ask (λ g. is_switch mn g name)
          if s
              then pure switch
              else do t ← ask (λ g. is_router g name); if t then pure router else pure other

  -- `updateNode`: the node is taken out, and added again with the new options.
  unfoldable pub update_node : String → Attrs → Exec Net String
  update_node name opts = do
    kind ← node_kind name
    info ← pop_node name false
    node_setter kind name (mn.merge_dict info opts)
