-- ===== src/Tests/Launch.antt =====
-- src/AppRunner.py and src/app.py: a description of two hosts at a switch is read, and started.
use Prim.Native.String.{◌++◌ as append}
use smoothie.Base.{
  if◌then◌else◌, ◌==◌, String, ◌≢◌, refl, Bool, true, false, none, some, [], ◌∷◌, arith, nat_eq,
  string_eq, pair_eq,
}
use smoothie.Base.Int.{pos, negsuc}
use smoothie.Base.Error.{value_error, Result, err}
use smoothie.Base.Exec.{◌>>◌}
use smoothie.Network.Value.{number, flag, text, Attrs}
use smoothie.Network.Mininet.{Net, Task}
use smoothie.Network.Links.Store.Updating.{InOrder}
use smoothie.Network.Links.Reachable.{no_links-IsLinked}
use smoothie.Network.Links.Auto.{Source}
use smoothie.Network.Start.{Boot, init}
use smoothie.Network.Start.Run.{start_network}
use smoothie.Network.Strategies.{Plan}
use smoothie.Networking.{decimal}
use smoothie.Runner.Settings.{Topology, FileConf, app_runner}
use smoothie.Runner.Settings.InOrder.{launch-InOrder}
use smoothie.Tests.Auto.{two_hosts, small_plan}
use smoothie.Tests.Dicts.{dict_mininet, two_switches}
use smoothie.Tests.Edges.{dict_links}
use smoothie.Tests.Generated.{no_dirs, loads}
use smoothie.Tests.World.{small_world}

abbrev empty : Net
empty = record two_switches { g = record { node = []; edge = [] } }

abbrev no_options : Attrs
no_options = []

abbrev topology : Topology
topology = record {
  hosts = some (("h1", no_options) ∷ ("h2", no_options) ∷ []);
  switches = some (("s1", ("cpu_port", flag true) ∷ []) ∷ []);
  routers = none;
  links = some (
      record { node1 = "h1"; node2 = "s1"; opts = none }
      ∷ record { node1 = "s1"; node2 = "h2"; opts = none }
      ∷ []);
  default_opts = [];
  strategy = some "l2";
}

abbrev conf : FileConf
conf = record {
  cli = flag true;
  enable_log = flag false;
  pcap_dump = flag false;
  p4_src = text "int.p4";
  router_node = none;
  switch_node = none;
  host_node = none;
  compiler_module = none;
  client_module = none;
  mininet_module = none;
  topology = some topology;
  exec_scripts = [];
  tasks_file = none;
}

-- a plan that tells the hosts apart; `int` is given the part of the name behind its first letter
abbrev plan : Plan
plan = record small_plan {
  int_of = λ s. if s == "1" then some (pos 1) else if s == "2" then some (pos 2) else none;
  str = λ n. elim n [ pos k ↦ decimal k | negsuc k ↦ "" ];
  mac_of = λ ip n. append ip (decimal n);
}

abbrev source : Source
source = record two_hosts {
  rand_mac = λ a b k. append a (append "-" (append b (decimal k))) ∷ [];
  hosts = "10.0.0.1" ∷ "10.0.0.2" ∷ "10.0.0.3" ∷ "10.0.0.4" ∷ [];
  repr = λ v. elim v [ number n ↦ decimal n | _ ↦ "" ];
}

-- no line is a task
abbrev parse_line : String → Result (String × (Task × Bool))
parse_line l = err value_error

-- the state behind a run, which succeeds: the switch is compiled, the network started and stopped
abbrev launched : Boot
launched =
    ((app_runner no_dirs loads dict_mininet dict_links plan parse_line conf (some "./log")
          (some "./pcap")
        >> start_network dict_mininet small_world dict_links source)
      (init empty)).1

h1_s1 : ◌≢◌ {A = String} "h1" "s1"
h1_s1 e = ground (arith, string_eq.beq_iff "h1" "s1")

s1_h2 : ◌≢◌ {A = String} "s1" "h2"
s1_h2 e = ground (arith, string_eq.beq_iff "s1" "h2")

s1_bridge : ◌≢◌ {A = String} "s1" "sw-cpu"
s1_bridge e = ground (arith, string_eq.beq_iff "s1" "sw-cpu")

launch-InOrder_example : InOrder launched.api
launch-InOrder_example =
    launch-InOrder no_dirs loads dict_mininet dict_links plan parse_line small_world source conf
      (some "./log") (some "./pcap") (init empty) (h1_s1, (s1_h2, tt)) (s1_bridge, tt)
      (no_links-IsLinked empty.g refl) refl
