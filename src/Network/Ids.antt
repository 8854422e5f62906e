-- ===== src/Network/Ids.antt =====
-- src/Network_API_l.py: reading nodes, and the ids and ports that are in use.
pub mod Fresh
use Prim.Native.Char.{code}
use smoothie.Base.{
  ℕ, ◌+◌, ◌-◌, ◌*◌, String, Bool, ◌&&◌, Option, none, some, List, [], ◌∷◌, ◌++◌, map, arith, leb,
  if◌then◌else◌, ◌==◌, nat_eq, string_eq, pair_eq, contains,
}
use smoothie.Base.Dict.{get}
use smoothie.Base.Error.{type_error, value_error, Result, ok, err, or_raise, ◌>>=◌, ◌>>◌}
use smoothie.Network.Value.{
  given, real, params, nothing, Value, text, number, flag, cls, Attrs, value_eq,
}
use smoothie.Network.Mininet.{Graph, Mininet, node_flag}

-- `isHost`, `isP4Switch`, `isP4RuntimeSwitch`, `isTofino`, `isRouter`
unfoldable pub is_host : Graph → String → Result Bool
is_host g name = node_flag g name "isHost"

unfoldable pub is_p4switch : Graph → String → Result Bool
is_p4switch g name = node_flag g name "isP4Switch"

unfoldable pub is_p4runtime_switch : Graph → String → Result Bool
is_p4runtime_switch g name = node_flag g name "isP4RuntimeSwitch"

unfoldable pub is_tofino : Graph → String → Result Bool
is_tofino g name = node_flag g name "isTofino"

unfoldable pub is_router : Graph → String → Result Bool
is_router g name = node_flag g name "isRouter"

-- int(text, 16), for digits alone
hex_digit : ℕ → Option ℕ
hex_digit c =
    if leb b'0' c && leb c b'9'
    then some (c - b'0')
    else if leb b'a' c && leb c b'f'
    then some (c - b'a' + 10)
    else if leb b'A' c && leb c b'F'
    then some (c - b'A' + 10)
    else none

hex_digits : ℕ → String → Result ℕ
unfolding hex_digit
hex_digits acc String.[] = ok acc
hex_digits acc (String.◌∷◌ c s) = do
  d ← or_raise value_error (hex_digit (code c))
  hex_digits (acc * 16 + d) s

-- int(dpid, 16): a base is allowed for texts alone.
unfoldable pub dpid_value : Value → Result ℕ
unfolding hex_digits
dpid_value (text s) = if s == "" then err value_error else hex_digits 0 s
dpid_value (number n) = err type_error
dpid_value (flag b) = err type_error
dpid_value (cls s) = err type_error
dpid_value (real n) = err type_error
dpid_value (params d) = err type_error
dpid_value nothing = err type_error

module _ (mn : Mininet) where
  -- `isSwitch`
  unfoldable pub is_switch : Graph → String → Result Bool
  is_switch g name = mn.is_switch g name

  -- `isNode`
  unfoldable pub is_node : Graph → String → Bool
  is_node g name = contains name (mn.node_names g)

  -- `nodes()`, sorted
  unfoldable pub nodes : Graph → List String
  nodes g = mn.natural (mn.node_names g)

  -- the `info` that goes with a name
  info_of : Graph → String → String × Attrs
  info_of g name = (name, elim (get g.node name) [ none ↦ [] | some a ↦ a ])

  -- `nodes(withInfo=True)`
  unfoldable pub nodes_info : Graph → List (String × Attrs)
  unfolding info_of
  nodes_info g = map (info_of g) (nodes g)

  keep : (String → Result Bool) → List (String × Attrs) → Result (List (String × Attrs))
  keep test [] = ok []
  keep test ((n, a) ∷ ns) = do
    b ← test n
    rest ← keep test ns
    ok (if b then (n, a) ∷ rest else rest)

  -- `hosts`, `switches`, `p4switches`, `p4rtswitches` and `routers`, with their info
  unfoldable pub hosts : Graph → Result (List (String × Attrs))
  unfolding keep
  hosts g = keep (is_host g) (nodes_info g)

  unfoldable pub switches : Graph → Result (List (String × Attrs))
  unfolding keep
  switches g = keep (is_switch g) (nodes_info g)

  unfoldable pub p4switches : Graph → Result (List (String × Attrs))
  unfolding keep
  p4switches g = keep (is_p4switch g) (nodes_info g)

  unfoldable pub p4rtswitches : Graph → Result (List (String × Attrs))
  unfolding keep
  p4rtswitches g = keep (is_p4runtime_switch g) (nodes_info g)

  unfoldable pub routers : Graph → Result (List (String × Attrs))
  unfolding keep
  routers g = keep (is_router g) (nodes_info g)

  -- the id of one switch: `device_id`, or the number of `dpid`
  unfoldable pub switch_id : Graph → String × Attrs → Result (Option Value)
  switch_id g (switch, info) = do
    p4 ← is_p4switch g switch
    if p4 then ok (given info "device_id") else elim (given info "dpid") [
      | none ↦ ok none
      | some dpid ↦ (do n ← dpid_value dpid; ok (some (number n)))
    ]

  ids_of : Graph → List (String × Attrs) → Result (List Value)
  ids_of g [] = ok []
  ids_of g (s ∷ ss) = do
    id ← switch_id g s
    ids ← ids_of g ss
    ok (elim id [ none ↦ ids | some v ↦ v ∷ ids ])

  -- `switch_ids`
  unfoldable pub switch_ids : Graph → Result (List Value)
  unfolding ids_of
  switch_ids g = do ss ← switches g; ids_of g ss

  values_at : String → List (String × Attrs) → List Value
  values_at key [] = []
  values_at key ((n, a) ∷ ns) = elim (given a key) [
    | none ↦ values_at key ns
    | some v ↦ v ∷ values_at key ns
  ]

  -- `thrift_ports` and `grpc_ports`
  unfoldable pub thrift_ports : Graph → Result (List Value)
  unfolding values_at
  thrift_ports g = do ss ← p4switches g; ok (values_at "thrift_port" ss)

  unfoldable pub grpc_ports : Graph → Result (List Value)
  unfolding values_at
  grpc_ports g = do ss ← p4rtswitches g; ok (values_at "grpc_port" ss)

  -- `auto_switch_id`, `auto_grpc_port` and `auto_thrift_port`, from a base
  unfoldable pub auto_switch_id : ℕ → Graph → Result ℕ
  auto_switch_id base g = do ids ← switch_ids g; ok (mn.next_element ids base)

  unfoldable pub auto_grpc_port : ℕ → Graph → Result ℕ
  auto_grpc_port base g = do
    grpc ← grpc_ports g
    thrift ← thrift_ports g
    ok (mn.next_element (grpc ++ thrift) base)

  unfoldable pub auto_thrift_port : ℕ → Graph → Result ℕ
  auto_thrift_port base g = do
    thrift ← thrift_ports g
    grpc ← grpc_ports g
    ok (mn.next_element (thrift ++ grpc) base)
