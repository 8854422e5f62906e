-- ===== src/Tests/Auto.antt =====
-- src/Network_API_l.py: the automatic assignment, in a network of two switches.
use smoothie.Base.{
  List, String, ◌≡◌, refl, true, false, [], ◌∷◌, nat_eq, string_eq, pair_eq, contains,
  if◌then◌else◌, some, none, ◌==◌,
}
use smoothie.Base.Dict.{Dict, get}
use smoothie.Base.Error.{ok}
use Prim.Native.String.{◌++◌ as append}
use smoothie.Network.Value.{given, flagged, truthy, value_eq}
use smoothie.Network.Ids.{is_switch}
use smoothie.Network.Links.Rows.{ip_addresses, side_ip}
use smoothie.Network.Links.Auto.{Source, auto_ip_address, first_free}
use smoothie.Network.Links.Auto.Fresh.{Has, auto_ip_address_fresh, auto_ip_address_ends}
use smoothie.Base.Int.{pos}
use smoothie.Network.Strategies.{Plan}
use smoothie.Network.Mininet.{Net}
use smoothie.Network.Links.Store.{add_link}
use smoothie.Network.Strategies.L2.{l2_links}
use smoothie.Tests.World.{described}
use smoothie.Tests.Dicts.{dict_mininet}
use smoothie.Tests.Edges.{dict_links}
use mathlib.Core.List.{Memᴰ}
use smoothie.Network.Links.Library.{Row}
use smoothie.Tests.Links.{linked}

-- two addresses
abbrev pub two_hosts : Source
two_hosts = record {
  rand_mac = λ a b k. "00:00:00:00:00:01" ∷ [];
  hosts = "10.0.0.1" ∷ "10.0.0.2" ∷ [];
  prefix_len = "8";
  dpid_to_str = λ n. "1";
  repr = λ v. "1";
  less = λ v w. ok false;
}

ips_run : ip_addresses dict_mininet dict_links linked.g ≡ ok []
unfolding ip_addresses is_switch flagged truthy get given side_ip
ips_run = refl

address_runs : auto_ip_address dict_mininet dict_links two_hosts linked.g ≡ ok "10.0.0.1/8"
unfolding auto_ip_address first_free ip_addresses is_switch flagged truthy get given side_ip
address_runs = refl

auto_ip_address_fresh_example :
    (ip : String) × (◌≡◌ {A = String} "10.0.0.1/8" (append ip (append "/" "8")))
    × (contains ip two_hosts.hosts ≡ true)
    × ((r : Row) → Memᴰ r (dict_links.links linked.g) → ¬ Has dict_mininet dict_links linked.g r ip)
auto_ip_address_fresh_example =
    auto_ip_address_fresh dict_mininet dict_links two_hosts linked.g [] "10.0.0.1/8" ips_run
      address_runs

auto_ip_address_ends_example :
    (address : String) × (auto_ip_address dict_mininet dict_links two_hosts linked.g ≡ ok address)
auto_ip_address_ends_example =
    auto_ip_address_ends dict_mininet dict_links two_hosts linked.g [] "10.0.0.2" ips_run refl refl

-- names of hosts are read as 7
abbrev pub small_plan : Plan
small_plan = record {
  int_of = λ s. if s == "" then none else some (pos 7);
  str = λ n. "7";
  hosts_of = λ net. "10.0.0.1" ∷ "10.0.0.2" ∷ [];
  mac_of = λ ip n. "00:00:0a:00:00:01";
  trunc = λ x. ok (pos x);
  next_number = λ ns. ok (pos 1);
}

-- a host and a switch, with a link between them
abbrev host_link : Net
host_link = (add_link dict_mininet dict_links "h1" "s1" none none none [] described).1

abbrev rows : List Row
rows = record { node1 = "h1"; node2 = "s1"; key = 0; info = [] } ∷ []

abbrev one_reserved : Dict String String
one_reserved = ("h1", "10.0.0.1") ∷ []

abbrev addressed : Net
addressed = (l2_links dict_mininet dict_links small_plan one_reserved rows [] [] host_link).1
