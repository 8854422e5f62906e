-- ===== src/Networking.antt =====
-- src/networking.py: the commands that make the network of the telemetry collector.
pub mod Mac
use Prim.Native.String.{◌++◌ as append}
use smoothie.Base.{
  ◌≤◌, ◌≡◌, refl, ap, inl, inr, Bool-cases, ℕ, zero, suc, ◌+◌, ◌-◌, ◌/◌, ◌%◌, String, List, [], ◌∷◌,
  ◌++◌, arith, ltb, if◌then◌else◌, nat_eq, string_eq, pair_eq, get_or, set,
}

-- a command in the main name space or in `ns_int`, or an interface that a switch gets
pub data Call : Type 0 where
  main ns : String → Call
  adds_intf : String → String → Call

-- the digits of '%i'; as many rounds as the number are enough.
decimal_digit : ℕ → String
decimal_digit n =
    get_or ("0" ∷ "1" ∷ "2" ∷ "3" ∷ "4" ∷ "5" ∷ "6" ∷ "7" ∷ "8" ∷ "9" ∷ []) (n % 10) ""

decimal_from : ℕ → ℕ → String
unfolding decimal_digit
decimal_from zero n = decimal_digit n
decimal_from (suc rounds) n =
    let high = decimal_from rounds (n / 10) in
    if ltb n 10 then decimal_digit n else append high (decimal_digit n)

-- More rounds than the number change nothing.
decimal_from_enough : (r s n : ℕ) → n ≤ r → n ≤ s → decimal_from r n ≡ decimal_from s n
unfolding decimal_from decimal_digit
decimal_from_enough zero zero n h k = refl
decimal_from_enough zero (suc s) n h k = let e : n ≡ 0 = omega (arith, h) in rw e refl
decimal_from_enough (suc r) zero n h k = let e : n ≡ 0 = omega (arith, k) in rw e refl
decimal_from_enough (suc r) (suc s) n h k = elim (Bool-cases (ltb n 10)) [
  | inl small ↦ rw small refl
  | inr large ↦ rw large (
      ap (λ high. append high (decimal_digit n))
        (decimal_from_enough r s (n / 10) (ground arith) (ground arith)))
]

unfoldable pub decimal : ℕ → String
unfolding decimal_from
decimal n = decimal_from n n

-- '…%i…' % id
with_id : String → ℕ → String → String
with_id before id after = append before (append (decimal id) after)

-- dp_mac
unfoldable pub dp_mac : ℕ → String
unfolding with_id decimal
dp_mac id = with_id "f6:61:c0:6a:00:0" id ""

offloads : List String
offloads =
    "rx" ∷ "tx" ∷ "sg" ∷ "tso" ∷ "ufo" ∷ "gso" ∷ "gro" ∷ "lro" ∷ "rxvlan" ∷ "txvlan" ∷ "rxhash" ∷ []

-- '/sbin/ethtool --offload … off'
offload : String → String → String
offload intf what =
    append "/sbin/ethtool --offload " (append intf (append " " (append what " off")))

each_offload : (String → List Call) → List String → List Call
each_offload calls [] = []
each_offload calls (o ∷ os) = calls o ++ each_offload calls os

-- `create_dp_cpu_link`
unfoldable pub create_dp_cpu_link : ℕ → String → String → List Call
unfolding offloads offload each_offload with_id
create_dp_cpu_link id switch bridge_name =
    let dp = with_id "veth_dp_" id "" in
    let cpu = with_id "veth_cpu_" id "" in
    main (append "ip link add name " (append dp (append " type veth peer name " cpu)))
    ∷ main (append "ip link set " (append cpu " netns ns_int"))
    ∷ main (append "ifconfig " (append dp (append " hw ether " (dp_mac id))))
    ∷ main (append "ip link set dev " (append dp " up"))
    ∷ ns (append "ip link set dev " (append cpu " up"))
    ∷ (each_offload (λ off. main (offload dp off) ∷ ns (offload cpu off) ∷ []) offloads
        ++ (ns (append "sysctl -w net.ipv6.conf." (append dp ".disable_ipv6=1"))
            ∷ ns (append "sysctl -w net.ipv6.conf." (append cpu ".disable_ipv6=1"))
            ∷ ns (append "brctl addif " (append bridge_name (append " " cpu)))
            ∷ adds_intf switch dp
            ∷ []))

-- `create_int_collector_link`
unfoldable pub create_int_collector_link : String → List Call
unfolding offloads offload each_offload
create_int_collector_link bridge_name =
    main "ip link add name int_bridge type veth peer name int_collector"
    ∷ main "ip link set int_bridge netns ns_int"
    ∷ main "ip link set int_collector netns ns_int"
    ∷ ns "ifconfig int_collector hw ether f6:61:c0:6a:14:21"
    ∷ ns "ip link set dev int_bridge up"
    ∷ ns "ip link set dev int_collector up"
    ∷ (each_offload (λ off. ns (offload "int_bridge" off) ∷ ns (offload "int_collector" off) ∷ [])
          offloads
        ++ (ns "ifconfig int_collector 10.0.0.254/24"
            ∷ ns "sysctl -w net.ipv6.conf.int_bridge.disable_ipv6=1"
            ∷ ns "sysctl -w net.ipv6.conf.int_collector.disable_ipv6=1"
            ∷ ns (append "brctl addif " (append bridge_name " int_bridge"))
            ∷ ns "sudo ip -netns ns_int link set dev lo up"
            ∷ ns "sysctl net.ipv4.ip_forward"
            ∷ ns "net.ipv4.conf.all.forwarding"
            ∷ ns "sysctl net.ipv4.conf.int_collector.rp_filter=0"
            ∷ ns "sysctl net.ipv4.conf.all.rp_filter=0"
            ∷ []))

-- `create_internet_connectivity`
unfoldable pub create_internet_connectivity : List Call
create_internet_connectivity =
    main "ip link add name internet_cont type veth peer name internet_coll"
    ∷ main "ip link set internet_coll netns ns_int"
    ∷ ns "ifconfig internet_coll 192.168.0.2/24"
    ∷ ns "ip link set dev internet_coll up"
    ∷ main "ifconfig internet_cont 192.168.0.1/24"
    ∷ main "ip link set dev internet_cont up"
    ∷ main "sysctl net.ipv4.conf.internet_cont.rp_filter=0"
    ∷ []

-- for id, switch in enumerate(switches): …
unfoldable pub dp_cpu_links : ℕ → List String → String → List Call
dp_cpu_links id [] bridge_name = []
dp_cpu_links id (s ∷ ss) bridge_name =
    create_dp_cpu_link id s bridge_name ++ dp_cpu_links (id + 1) ss bridge_name

-- `create_int_collection_network`
unfoldable pub create_int_collection_network : List String → List Call
create_int_collection_network switches =
    (main "ip netns add ns_int"
      ∷ ns "brctl addbr int_collection"
      ∷ create_int_collector_link "int_collection")
    ++ (dp_cpu_links 0 switches "int_collection"
        ++ (ns "ip link set up dev int_collection" ∷ create_internet_connectivity))

-- `start_int_collector`
unfoldable pub start_int_collector : List Call
start_int_collector =
    main
      "ip netns exec ns_int python3 ./src/int_collector_influx.py -i 6000 -H 192.168.0.1:8086 -d 1 -p 0 &"
    ∷ []

-- `create_link_to_external_interface`
unfoldable pub create_link_to_external_interface : String → String → List Call
create_link_to_external_interface switch external_interface_name =
    adds_intf switch external_interface_name ∷ []
