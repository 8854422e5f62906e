-- ===== src/Tests/World.antt =====
-- A world in which every program succeeds, and a network of two hosts in one subnet.
use Prim.Native.String.{◌++◌ as append}
use mathlib.Core.List.{Memᴰ}
use smoothie.Base.{
  String, ◌≡◌, refl, inl, inr, true, Option, none, some, List, [], ◌∷◌, map, if◌then◌else◌, ◌==◌,
  nat_eq, string_eq, pair_eq, Bool-cases, contains,
}
use smoothie.Base.Dict.{Dict}
use smoothie.Base.Error.{ok}
use smoothie.Network.Value.{text, flag, Attrs}
use smoothie.Network.Mininet.{Net}
use smoothie.Network.Start.{World, Boot, Compiler, Intf, Running, init}
use smoothie.Networking.{decimal}
use smoothie.Tests.Dicts.{two_switches}

abbrev find_src : String → List Compiler → Option Compiler
find_src path [] = none
find_src path (c ∷ cs) = if c.p4_src == path then some c else find_src path cs

pub find_src_lem :
    (path : String) (cs : List Compiler)
    → contains path (map (λ (c : Compiler). c.p4_src) cs) ≡ true
    → (c : Compiler) × (find_src path cs ≡ some c) × (c.p4_src ≡ path) × Memᴰ c cs
find_src_lem path [] h = cc
find_src_lem path (c ∷ cs) h = elim (Bool-cases (c.p4_src == path)) [
  | inl e ↦ (c, rw e refl, (string_eq.beq_iff c.p4_src path).0 e, Memᴰ.head refl)
  | inr e ↦ let (k, f, src, m) = find_src_lem path cs (rw e at h) in (k, rw e f, src, Memᴰ.tail m)
]

pub same_src : (c d : Compiler) → ok c ≡ ok d → d.p4_src ≡ c.p4_src
same_src c d e = cc

abbrev pub intf : String → String → String → Intf
intf name ip mac = record {
  name = name;
  ip = some ip;
  prefix_len = 24;
  mac = mac;
  sw_ip1 = none;
  sw_ip2 = none;
  first = none;
}

abbrev pub host_one : Running
host_one = record {
  intfs = intf "lo" "127.0.0.1" "" ∷ intf "h1-eth0" "10.0.1.1" "00:00:0a:00:01:01" ∷ [];
  default_route = none;
}

abbrev pub host_two : Running
host_two = record {
  intfs = intf "h2-eth0" "10.0.1.2" "00:00:0a:00:01:02" ∷ [];
  default_route = none;
}

abbrev pub switch_one : Running
switch_one = record { intfs = intf "s1-eth1" "10.0.9.1" "" ∷ []; default_route = none }

abbrev pub up : Dict String Running
up = ("h1", host_one) ∷ ("h2", host_two) ∷ ("s1", switch_one) ∷ []

abbrev pub small_world : World
small_world = record {
  realpath = λ p. p;
  new_compiler = λ c p k. ok (record { p4_src = p; json_out = append p ".json"; p4rt_out = none });
  compile = λ c. ok tt;
  is_compiled = λ p cs. contains p (map (λ (c : Compiler). c.p4_src) cs);
  get_by_src = find_src;
  configure = λ c t s k. ok tt;
  new_net = λ c k api. ok up;
  net_truth = λ n. true;
  run_command = λ c o. 7;
  time = 5;
  str = decimal;
  network_of = λ t. ok "10.0.1.0/24";
  v4_of = λ t. ok 5;
  new_compiler_src = λ c p k r e.
      same_src (record { p4_src = p; json_out = append p ".json"; p4rt_out = none }) r e;
  is_compiled_lem = λ p cs. refl;
  get_by_src-is_compiled = find_src_lem;
}

abbrev pub host_info : Attrs
host_info = ("isHost", flag true) ∷ []

abbrev pub switch_info : Attrs
switch_info = ("isP4Switch", flag true) ∷ ("isSwitch", flag true) ∷ ("p4_src", text "int.p4") ∷ []

-- two hosts and a switch
abbrev pub described : Net
described = record two_switches {
  g = record { node = ("h1", host_info) ∷ ("h2", host_info) ∷ ("s1", switch_info) ∷ []; edge = [] };
}

abbrev pub fresh : Boot
fresh = init described

abbrev pub started : Boot
started = record fresh { net = some up }
