-- ===== src/Tests/Start.antt =====
-- src/Network_API_l.py and src/AppRunner.py: the start of a small network.
use mathlib.Core.List.{Memᴰ}
use smoothie.Base.{
  String, ◌≡◌, refl, none, some, List, [], ◌∷◌, if◌then◌else◌, ◌==◌, nat_eq, string_eq, pair_eq,
}
use smoothie.Base.Dict.{get}
use smoothie.Base.Error.{ok}
use smoothie.Network.Value.{text, cls, Attrs, value_eq, flagged, truthy}
use smoothie.Network.Mininet.{Task}
use smoothie.Network.Ids.{hosts, is_host, nodes, nodes_info}
use smoothie.Network.Start.{Boot, Module, Intf, Running, running, module_of, set_module}
use smoothie.Network.Start.Modules.{last_of, or_else, module_of-set_module}
use smoothie.Network.Start.Writes.{Writes}
use smoothie.Network.Start.Hosts.{arp_tables, network}
use smoothie.Network.Start.Hosts.Arp.{InReach, Readable, arp_tables-InReach}
use smoothie.Network.Start.Tasks.{distribute_tasks, unix_socket}
use smoothie.Network.Start.Tasks.Sent.{after, messages, distribute_tasks_lem}
use smoothie.Tests.Dicts.{dict_mininet}
use smoothie.Tests.World.{small_world, fresh, started, host_one, host_two, switch_one, host_info}

abbrev pub client : Module
client = record { class_of = cls "ThriftClient"; kwargs = ("log_dir", text "./log") ∷ [] }

abbrev no_options : Attrs
no_options = []

abbrev other_dir : Attrs
other_dir = ("log_dir", text "/tmp") ∷ []

pub client_there : get fresh.modules "sw_cli" ≡ some client
unfolding get
client_there = refl

module_of-set_module_example :
    (a : Attrs) × ((module_of "sw_cli" [] (set_module "sw_cli" none other_dir fresh).1).0
      ≡ ok (cls "ThriftClient", a))
    × (get a "log_dir"
        ≡ or_else
            (get no_options "log_dir")
            (or_else (last_of other_dir "log_dir") (get client.kwargs "log_dir")))
module_of-set_module_example =
    module_of-set_module "sw_cli" "log_dir" none [] other_dir client fresh client_there

abbrev two : List (String × Attrs)
two = ("h1", host_info) ∷ ("h2", host_info) ∷ []

abbrev node_of : String → Running
node_of n = if n == "h1" then host_one else if n == "h2" then host_two else switch_one

abbrev net_of : Intf → String
net_of i = "10.0.1.0/24"

two_hosts_there : hosts dict_mininet started.api.g ≡ ok two
unfolding hosts is_host nodes_info nodes flagged truthy get
two_hosts_there = refl

all_running : (h : String × Attrs) → Memᴰ h two → (running h.0 started).0 ≡ ok (node_of h.0)
unfolding running get
all_running h (Memᴰ.head e) = rw e refl
all_running h (Memᴰ.tail (Memᴰ.head e)) = rw e refl
all_running h (Memᴰ.tail (Memᴰ.tail m)) = elim m [ ]

readable : (n : String) → Readable dict_mininet small_world "h1" started two node_of net_of n
unfolding network
readable n i m real = refl

arp_tables-InReach_example :
    Writes started
      (arp_tables dict_mininet small_world "h1" host_one)
      (InReach dict_mininet small_world "h1" started two node_of net_of)
arp_tables-InReach_example =
    arp_tables-InReach dict_mininet small_world "h1" started two node_of net_of two_hosts_there
      all_running (λ h m. readable h.0) (readable "h1")

abbrev ping : Task
ping = record { exe = "ping 10.0.1.2"; start = 2; duration = 10 }

abbrev busy : Boot
busy = record started { api = record started.api { tasks = ("h1", ping ∷ []) ∷ [] } }

abbrev socket_of : String → String
socket_of n = "/tmp/h1_socket"

h1_there : get busy.api.g.node "h1" ≡ some host_info
unfolding get
h1_there = refl

h1_socket : unix_socket host_info "h1" ≡ ok "/tmp/h1_socket"
unfolding unix_socket get
h1_socket = refl

distribute_tasks_lem_example : distribute_tasks dict_mininet small_world busy ≡ (
  ok tt,
  after dict_mininet small_world busy []
      (messages dict_mininet small_world socket_of busy.api.tasks),
)
distribute_tasks_lem_example =
    distribute_tasks_lem dict_mininet small_world socket_of busy
      ((host_info, h1_there, h1_socket), tt)
