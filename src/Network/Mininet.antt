-- ===== src/Network/Mininet.antt =====
-- The state of a network description, and what mininet and p4utils give to it. `Topo`, its graph,
-- `merge_dict` and `next_element` are parameters with the behaviour that they document.
use smoothie.Base.{
  Option, ℕ, ◌≤◌, String, ◌≡◌, ◌≢◌, Bool, false, none, some, List, [], if◌then◌else◌, ◌==◌, nat_eq,
  string_eq, pair_eq, contains,
}
use smoothie.Base.Dict.{Dict, get, has}
use smoothie.Base.Error.{key_error, Result, ok, err}
use smoothie.Network.Value.{is_params, Value, number, Attrs, value_eq, flagged}

-- what joins two nodes: the options of the links between them, by their keys
abbrev pub Entry : Type 0
Entry = Dict ℕ Attrs

-- `self.g`: the nodes with their options, and for each node its neighbours. `edge[a][b]` and
-- `edge[b][a]` are one object; a change of it is written in both places.
pub record Graph : Type 0 where
  pub node : Dict String Attrs
  pub edge : Dict String (Dict String Entry)

-- a task, as `addTask` is given it
pub record Task : Type 0 where
  pub exe : String
  pub start : ℕ
  pub duration : ℕ

-- a command of `execScript`
pub record Script : Type 0 where
  pub cmd : String
  pub reboot_run : Bool
  pub out_file : Option String

pub record Net : Type 0 where
  pub g : Graph
  -- default options of switches, of `Topo`
  pub sopts : Attrs
  pub tasks : Dict String (List Task)
  pub auto_gw_arp : Bool
  pub auto_arp_tables : Bool
  pub cli_enabled : Bool
  pub topo_file : String
  pub scripts : List Script
  -- default options of links, of `Topo`
  pub lopts : Attrs
  pub cpu_bridge : Option String

-- Topo.isSwitch: self.g.node[n].get('isSwitch', False)
abbrev pub node_flag : Graph → String → String → Result Bool
node_flag g name key = elim (get g.node name) [ none ↦ err key_error | some a ↦ ok (flagged a key) ]

pub record Mininet : Type 0 where
  -- Topo.addNode and Topo.addHost
  pub add_node : Graph → String → Attrs → Graph
  pub add_host : Graph → String → Attrs → Graph
  -- Topo.isSwitch
  pub is_switch : Graph → String → Result Bool
  -- g.nodes(), and `natural` order
  pub node_names : Graph → List String
  pub natural : List String → List String
  -- merge_dict(dst, src), which changes `dst`
  pub merge_dict : Attrs → Attrs → Attrs
  -- next_element(elements, minimum)
  pub next_element : List Value → ℕ → ℕ
  pub get-add_node :
      (g : Graph) (n m : String) (a : Attrs)
      → get (add_node g n a).node m ≡ (if n == m then some a else get g.node m)
  pub edge-add_node : (g : Graph) (n : String) (a : Attrs) → (add_node g n a).edge ≡ g.edge
  pub add_host_lem : (g : Graph) (n : String) (a : Attrs) → a ≢ [] → add_host g n a ≡ add_node g n a
  pub is_switch_lem : (g : Graph) (n : String) → is_switch g n ≡ node_flag g n "isSwitch"
  pub contains-node_names : (g : Graph) (n : String) → contains n (node_names g) ≡ has g.node n
  pub contains-natural : (ns : List String) (n : String) → contains n (natural ns) ≡ contains n ns
  -- a value that is no dictionary takes the place of the old one
  pub merge_dict_new :
      (a b : Attrs) (k : String) (v : Value)
      → get b k ≡ some v
      → is_params v ≡ false
      → get (merge_dict a b) k ≡ some v
  pub merge_dict_old :
      (a b : Attrs) (k : String) → get b k ≡ none → get (merge_dict a b) k ≡ get a k
  pub next_element_min : (vs : List Value) (m : ℕ) → m ≤ next_element vs m
  pub next_element_fresh :
      (vs : List Value) (m : ℕ) → contains (number (next_element vs m)) vs ≡ false
