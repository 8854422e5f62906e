-- ===== src/Network/Start.antt =====
-- src/Network_API_l.py: the state behind the description of a network, from the constructor to the
-- running network, and the classes that a network, a compiler and a switch client are made of.
pub mod Texts
pub mod Writes
pub mod InOrder
pub mod Modules
pub mod Compile
pub mod Hosts
pub mod Switches
pub mod Tasks
pub mod Run
use mathlib.Core.List.{Memᴰ}
use smoothie.Base.{
  ℕ, zero, suc, ◌+◌, ◌-◌, ◌/◌, String, ◌≡◌, Bool, true, Option, none, some, List, [], ◌∷◌, ◌++◌,
  map, arith, nat_eq, string_eq, pair_eq, contains,
}
use smoothie.Base.Dict.{Dict, get, put, update}
use smoothie.Base.Error.{key_error, Result, ok, err, or_raise}
use smoothie.Base.Exec.{◌>>=◌, ◌>>◌, Exec, pure}
use smoothie.Network.Value.{Value, text, Attrs, cls}
use smoothie.Network.Mininet.{Net, Task, Script}
use smoothie.Network.Nodes.{set_default}

-- self.modules[name]: a class and the options that its objects get
pub record Module : Type 0 where
  pub class_of : Value
  pub kwargs : Attrs

-- an object of a compiler class: the path of its source, and the paths of what it makes.
-- `get_p4rt_out` raises `P4InfoDisabled` where there is no such file.
pub record Compiler : Type 0 where
  pub p4_src : String
  pub json_out : String
  pub p4rt_out : Option String

-- an interface of a running node; `first` says whether it is `link.intf1`, where it has a link.
pub record Intf : Type 0 where
  pub name : String
  pub ip : Option String
  pub prefix_len : ℕ
  pub mac : String
  pub sw_ip1 : Option String
  pub sw_ip2 : Option String
  pub first : Option Bool

-- a node of the running network, with its `defaultRoute`
pub record Running : Type 0 where
  pub intfs : List Intf
  pub default_route : Option String

-- what is done outside of the program, in the order in which it is done
pub data Action : Type 0 where
  cleans starts stops saves opens_cli benchmarks collects : Action
  compiles makes_dir sets_log_dir : String → Action
  configures : String → Option Value → Action
  runs : Script → Action
  kills : ℕ → Action
  joins_collector : List String → Action
  sets_arp : String → String → String → Action
  releases_dhcp asks_dhcp allows_ipv6 stops_offload lowers_mtu : String → String → Action
  adds_ipv6 : String → String → ℕ → Action
  schedules : String → String → Option (Option Value) → Action
  sends : String → List Task → Action

pub record Boot : Type 0 where
  pub api : Net
  pub modules : Dict String Module
  pub compilers : List Compiler
  -- the switches whose clients are kept
  pub sw_clients : List String
  pub scripts_pids : List ℕ
  -- self.net: the nodes of the running network, by their names
  pub net : Option (Dict String Running)
  pub log : List Action

-- what the operating system, the clock and p4utils do
pub record World : Type 0 where
  pub realpath : String → String
  -- a class, the source that is passed to it, and the options; then its `compile`
  pub new_compiler : Value → String → Attrs → Result Compiler
  pub compile : Compiler → Result (Unit {0})
  -- is_compiled(path, compilers), and get_by_attr('p4_src', path, compilers)
  pub is_compiled : String → List Compiler → Bool
  pub get_by_src : String → List Compiler → Option Compiler
  -- `configure` of the object of a client class
  pub configure : Value → Option Value → String → Attrs → Result (Unit {0})
  pub new_net : Value → Attrs → Net → Result (Dict String Running)
  -- bool(self.net), which p4utils and mininet decide
  pub net_truth : Dict String Running → Bool
  pub run_command : String → Option String → ℕ
  pub time : ℕ
  -- `str` of a number, ip_interface(text).network.compressed, and IPv4Address of a text
  pub str : ℕ → String
  pub network_of : String → Result String
  pub v4_of : String → Result ℕ
  pub new_compiler_src :
      (class_of : Value) (path : String) (kwargs : Attrs) (c : Compiler)
      → new_compiler class_of path kwargs ≡ ok c
      → c.p4_src ≡ realpath path
  pub is_compiled_lem :
      (path : String) (cs : List Compiler)
      → is_compiled path cs ≡ contains path (map (λ (c : Compiler). c.p4_src) cs)
  pub get_by_src-is_compiled :
      (path : String) (cs : List Compiler)
      → is_compiled path cs ≡ true
      → (c : Compiler) × (get_by_src path cs ≡ some c) × (c.p4_src ≡ path) × Memᴰ c cs

-- a method of the description
abbrev pub on_api : {A : Type 0} → Exec Net A → Exec Boot A
on_api m s = let (r, api) = m s.api in (r, record s { api = api })

unfoldable pub act : Action → Exec Boot (Unit {0})
act a s = (ok tt, record s { log = s.log ++ a ∷ [] })

-- for x in xs: …
unfoldable pub for_each : {A : Type 0} → List A → (A → Exec Boot (Unit {0})) → Exec Boot (Unit {0})
for_each [] body = pure tt
for_each (x ∷ xs) body = do body x; for_each xs body

-- self.net.get(node)
unfoldable pub running : String → Exec Boot Running
running node s = (or_raise key_error (elim s.net [ none ↦ none | some nodes ↦ get nodes node ]), s)

-- what `__init__` leaves, but for the description
abbrev pub init : Net → Boot
init api = record {
  api = record api {
    cpu_bridge = none;
    cli_enabled = true;
    topo_file = "./topology.json";
    auto_gw_arp = true;
    auto_arp_tables = true;
    scripts = [];
    tasks = [];
  };
  modules =
      ("net", record { class_of = cls "P4Mininet"; kwargs = [] })
      ∷ ("comp", record { class_of = cls "P4C"; kwargs = [] })
      ∷ (
        "sw_cli",
        record { class_of = cls "ThriftClient"; kwargs = ("log_dir", text "./log") ∷ [] },
      )
      ∷ [];
  compilers = [];
  sw_clients = [];
  scripts_pids = [];
  net = none;
  log = [];
}

-- for key, value in default_kwargs.items(): kwargs.setdefault(key, value)
unfoldable pub set_defaults : Attrs → Attrs → Attrs
set_defaults kwargs [] = kwargs
set_defaults kwargs ((k, v) ∷ ds) = set_defaults (set_default kwargs k v) ds

-- `module`: the class that is called, and all the options that it is called with
unfoldable pub module_of : String → Attrs → Exec Boot (Value × Attrs)
module_of name kwargs s = elim (get s.modules name) [
  | none ↦ (err key_error, s)
  | some m ↦ (ok (m.class_of, set_defaults kwargs m.kwargs), s)
]

-- the class that is given, or the old one
abbrev pub chosen : Option Value → Value → Value
chosen none old = old
chosen (some c) old = c

-- if netClass is not None: …; the options are updated
unfoldable pub set_module : String → Option Value → Attrs → Exec Boot (Unit {0})
set_module name class_of kwargs s = elim (get s.modules name) [
  | none ↦ (err key_error, s)
  | some m ↦
      let changed : Module = record {
        class_of = chosen class_of m.class_of;
        kwargs = update m.kwargs kwargs;
      } in
      (ok tt, record s { modules = put s.modules name changed })
]

-- `setCompiler`
unfoldable pub set_compiler : Option Value → Attrs → Exec Boot (Unit {0})
set_compiler = set_module "comp"

-- `setNet`
unfoldable pub set_net : Option Value → Attrs → Exec Boot (Unit {0})
set_net = set_module "net"

-- `setSwitchClient`
unfoldable pub set_switch_client : Option Value → Attrs → Exec Boot (Unit {0})
set_switch_client = set_module "sw_cli"
