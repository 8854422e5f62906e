-- ===== src/Network/Links/Rows.antt =====
-- src/Network_API_l.py: what is read off the links.
pub mod Taken
use smoothie.Base.{
  ℕ, ◌+◌, ◌/◌, String, Bool, true, false, ◌||◌, Option, none, some, List, [], ◌∷◌, ◌++◌, arith, ltb,
  if◌then◌else◌, Eq, ◌==◌, nat_eq, string_eq, pair_eq, length,
}
use smoothie.Base.Dict.{Dict, get, put, has, keys}
use smoothie.Base.Error.{attribute_error, Result, ok, err, ◌>>=◌, ◌>>◌}
use Prim.Native.Char.{code}
use smoothie.Network.Value.{Value, text, params, given, value_eq}
use smoothie.Network.Mininet.{Graph, Mininet}
use smoothie.Network.Ids.{is_switch, nodes}
use smoothie.Network.Flags.{are_neighbors}
use smoothie.Network.Links.Library.{Row, LinkLib}

-- the other end of an interface: the node, the node that it faces, and the key of the link
abbrev pub Facing : Type 0
Facing = String × String × ℕ

-- ports.setdefault(node, {})
abbrev pub set_empty {ℓ κ} :
    {K : Type ℓ} {V : Type κ} ⦃e : Eq K⦄ → Dict String (Dict K V) → String → Dict String (Dict K V)
set_empty d node = if has d node then d else put d node []

-- ports[node].update({key: value}), where the key is not None
abbrev pub note_at {ℓ κ} :
    {K : Type ℓ} {V : Type κ} ⦃e : Eq K⦄
    → Dict String (Dict K V)
    → String
    → Option K
    → V
    → Dict String (Dict K V)
note_at d node none v = d
note_at d node (some k) v = put d node (put (elim (get d node) [ none ↦ [] | some m ↦ m ]) k v)

-- a round of the loop of `node_ports` and of `node_intfs`, for the fields `field1` and `field2`
unfoldable pub note_row :
    String → String → Row → Dict String (Dict Value Facing) → Dict String (Dict Value Facing)
note_row field1 field2 r ports =
    let ports = set_empty (set_empty ports r.node1) r.node2 in
    let ports = note_at ports r.node1 (given r.info field1) (r.node1, r.node2, r.key) in
    note_at ports r.node2 (given r.info field2) (r.node2, r.node1, r.key)

unfoldable pub note_rows :
    String → String → List Row → Dict String (Dict Value Facing) → Dict String (Dict Value Facing)
note_rows field1 field2 [] ports = ports
note_rows field1 field2 (r ∷ rs) ports = note_rows field1 field2 rs (note_row field1 field2 r ports)

-- ip.split('/')[0]
unfoldable pub before_slash : String → String
before_slash String.[] = ""
before_slash (String.◌∷◌ c s) =
    let rest = before_slash s in if code c == b'/' then "" else String.◌∷◌ c rest

-- the same of a value: what is no text has no `split`
unfoldable pub address_of : Value → Result String
address_of (text s) = ok (before_slash s)
address_of v = err attribute_error

-- params.get('ip'), where `params` is not None
unfoldable pub ip_of : Value → Result (Option String)
ip_of (params d) = ok (elim (get d "ip") [ none ↦ none | some ip ↦ some (before_slash ip) ])
ip_of v = err attribute_error

-- the address at one side of a link, for a node that is no switch
unfoldable pub side_ip : Bool → Option Value → Result (List String)
side_ip true p = ok []
side_ip false none = ok []
side_ip false (some p) = do ip ← ip_of p; ok (elim ip [ none ↦ [] | some s ↦ s ∷ [] ])

module _ (mn : Mininet) (lib : LinkLib) where
  -- `node_ports`
  unfoldable pub node_ports : Graph → Dict String (Dict Value Facing)
  node_ports g = note_rows "port1" "port2" (lib.links g) []

  -- `node_intfs`
  unfoldable pub node_intfs : Graph → Dict String (Dict Value Facing)
  node_intfs g = note_rows "intfName1" "intfName2" (lib.links g) []

  add_given : Option Value → List Value → List Value
  add_given none vs = vs
  add_given (some v) vs = v ∷ vs

  macs_of : List Row → List Value
  unfolding add_given
  macs_of [] = []
  macs_of (r ∷ rs) =
      add_given (given r.info "addr1") (add_given (given r.info "addr2") (macs_of rs))

  -- `mac_addresses`
  unfoldable pub mac_addresses : Graph → List Value
  unfolding macs_of
  mac_addresses g = macs_of (lib.links g)

  unfoldable pub ips_of : Graph → List Row → Result (List String)
  ips_of g [] = ok []
  ips_of g (r ∷ rs) = do
    switch1 ← is_switch mn g r.node1
    ip1 ← side_ip switch1 (given r.info "params1")
    switch2 ← is_switch mn g r.node2
    ip2 ← side_ip switch2 (given r.info "params2")
    rest ← ips_of g rs
    ok (ip1 ++ (ip2 ++ rest))

  -- `ip_addresses`
  unfoldable pub ip_addresses : Graph → Result (List String)
  unfolding ips_of
  ip_addresses g = ips_of g (lib.links g)

  -- `auto_port_num`, from a base
  unfoldable pub auto_port_num : ℕ → Graph → String → ℕ
  auto_port_num base g node = elim (get (node_ports g) node) [
    | none ↦ base
    | some ports ↦ mn.next_element (keys ports) base
  ]

  several : Graph → String → List String → Result Bool
  several g a [] = ok false
  several g a (b ∷ bs) = do
    let rest = several g a bs
    many ←
        (if are_neighbors g a b
          then (do e ← lib.link_entry g a b none; ok (ltb 1 (length e.0)))
          else ok false)
    elim many [ true ↦ ok true | false ↦ rest ]

  any_several : Graph → List String → List String → Result Bool
  unfolding several
  any_several g bs [] = ok false
  any_several g bs (a ∷ as') = do
    here ← several g a bs
    rest ← any_several g bs as'
    ok (here || rest)

  -- `is_multigraph`
  unfoldable pub is_multigraph : Graph → Result Bool
  unfolding any_several
  is_multigraph g = any_several g (nodes mn g) (nodes mn g)
