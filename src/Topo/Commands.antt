-- ===== src/Topo/Commands.antt =====
-- src/topos/TopoGenerator.py: the commands that the tables of a generated switch are filled with. A
-- line of a file is a value that has the numbers and addresses that stand in it.
pub mod Parts
pub mod NextHop
pub mod Prefix
use Prim.Native.String.{◌++◌ as append}
use smoothie.Base.{
  ◌≤◌, ◌≡◌, refl, ap, inl, inr, Bool-cases, ℕ, zero, suc, ◌+◌, ◌*◌, ◌/◌, ◌%◌, ◌^◌, String, Bool,
  true, false, List, [], ◌∷◌, ◌++◌, map, arith, ltb, if◌then◌else◌, ◌==◌, nat_eq, string_eq,
  pair_eq, length, get_or,
}
use smoothie.Base.Error.{◌>>=◌, Result, ok}
use smoothie.Helper.{mac_to_ipv6_linklocal, converttov6}
use smoothie.Topo.{range}

-- '{:x}' of a number below 16
hex_digit : ℕ → String
hex_digit n =
    get_or
      ("0" ∷ "1" ∷ "2" ∷ "3" ∷ "4" ∷ "5" ∷ "6" ∷ "7" ∷ "8" ∷ "9" ∷ "a" ∷ "b" ∷ "c" ∷ "d" ∷ "e" ∷ "f"
        ∷ [])
      n ""

-- '{:x}' of a number; as many rounds as the number are enough.
hex_from : ℕ → ℕ → String
unfolding hex_digit
hex_from zero n = hex_digit (n % 16)
hex_from (suc rounds) n =
    let high = hex_from rounds (n / 16) in
    if ltb n 16 then hex_digit n else append high (hex_digit (n % 16))

-- More rounds than the number change nothing.
hex_from_enough : (r s n : ℕ) → n ≤ r → n ≤ s → hex_from r n ≡ hex_from s n
unfolding hex_from hex_digit
hex_from_enough zero zero n h k = refl
hex_from_enough zero (suc s) n h k = let e : n ≡ 0 = omega (arith, h) in rw e refl
hex_from_enough (suc r) zero n h k = let e : n ≡ 0 = omega (arith, k) in rw e refl
hex_from_enough (suc r) (suc s) n h k = elim (Bool-cases (ltb n 16)) [
  | inl small ↦ rw small refl
  | inr large ↦ rw large (
      ap (λ high. append high (hex_digit (n % 16)))
        (hex_from_enough r s (n / 16) (ground arith) (ground arith)))
]

-- '{:02x}'
unfoldable pub hex02 : ℕ → String
unfolding hex_from
hex02 n = if ltb n 16 then append "0" (hex_from n n) else hex_from n n

-- `id_to_mac`
unfoldable pub id_to_mac : ℕ → ℕ → Bool → String
unfolding hex02
id_to_mac sp_id l_id is_sp = append "00:" (
    append (hex02 (if is_sp then 2 else 1))
      (append ":0a:00:" (append (hex02 sp_id) (append ":" (hex02 l_id)))))

pub data Command : Type 0 where
  set_queue_depth set_queue_rate configure_transit host_port ecmp_group srv6_end : ℕ → Command
  set_timeout activate_source : ℕ → String → Command
  configure_source send_report mc_mgrp_create mc_node_associate set_multicast_group : Command
  mirroring_add configure_sink : ℕ → ℕ → Command
  -- an address and its length, or a leaf's number in '10.0.{}.0/24' and '2002::a00:{}00/120'; then
  -- the next hop and the port
  ipv6_forward ipv4_forward : ℕ → ℕ → String → ℕ → Command
  ipv4_host : String → String → ℕ → Command
  ipv4_leaf ipv6_leaf : ℕ → String → ℕ → Command
  ecmp_nhop : ℕ → String → ℕ → Command
  drop_mac : String → Command
  mc_node_create : List ℕ → Command

-- what Python, ipaddress and p4utils make of texts; `mac_of` is ip_address_to_mac(ip) % n
pub record Texts : Type 0 where
  pub str : ℕ → String
  pub int_of : String → Result ℕ
  pub v4_of : String → Result ℕ
  pub mac_of : String → ℕ → String

-- '10.0.{}.{}'
unfoldable pub host_ip : Texts → ℕ → ℕ → String
host_ip t a b = append "10.0." (append (t.str a) (append "." (t.str b)))

abbrev Lines : Type 0
Lines = Result (List Command)

-- output += …
unfoldable pub then_lines : Lines → Lines → Lines
then_lines first rest = do a ← first; b ← rest; ok (a ++ b)

-- the lines for a port of a leaf that a host is on
host_lines : String → String → List ℕ → List Command
host_lines proportion timeout [] = []
host_lines proportion timeout (x ∷ xs) =
    set_timeout x timeout
    ∷ activate_source x proportion
    ∷ host_port x
    ∷ host_lines proportion timeout xs

-- the first lines of a leaf
leaf_head : ℕ → ℕ → String → String → List Command
unfolding host_lines
leaf_head l nbr_h proportion timeout =
    host_lines proportion timeout (range 1 nbr_h)
    ++ (configure_source
        ∷ mirroring_add 1 (l + 1)
        ∷ (map (λ x. configure_sink x (l + 1)) (range 1 nbr_h) ++ send_report ∷ []))

-- the lines for the neighbours of a spine
unfoldable pub spine_hops : ℕ → ℕ → List ℕ → Lines
spine_hops idx i [] = ok []
spine_hops idx i (n ∷ ns) = do
  let mac = id_to_mac (idx + 1) (n + 1) false
  ip ← mac_to_ipv6_linklocal mac
  rest ← spine_hops idx (i + 1) ns
  ok (
      ipv6_forward ip 128 mac (i + 1)
      ∷ ipv4_leaf (i + 1) mac (i + 1)
      ∷ ipv6_leaf (i + 1) mac (i + 1)
      ∷ rest)

-- the lines for the neighbours of a leaf
unfoldable pub leaf_hops : ℕ → ℕ → ℕ → ℕ → List ℕ → Lines
leaf_hops nbr_h idx i cnt [] = ok []
leaf_hops nbr_h idx i cnt (n ∷ ns) = do
  let mac = id_to_mac (n + 1) (idx + 1) true
  ip ← mac_to_ipv6_linklocal mac
  rest ← leaf_hops nbr_h idx (i + 1) (cnt + 1) ns
  ok (ipv6_forward ip 128 mac (i + nbr_h + 1) ∷ ecmp_nhop cnt mac (i + nbr_h + 1) ∷ rest)

-- the segments of the switch's own ports
own_sids : Bool → ℕ → List ℕ → Lines
own_sids is_spine idx [] = ok []
own_sids is_spine idx (n ∷ ns) = do
  ip ← mac_to_ipv6_linklocal (
      if is_spine
      then id_to_mac (idx + 1) (n + 1) is_spine
      else id_to_mac (n + 1) (idx + 1) is_spine)
  rest ← own_sids is_spine idx ns
  ok (srv6_end ip ∷ rest)

-- the last lines: multicast, to all the ports
multicast : ℕ → List Command
multicast l =
    drop_mac "33:33:00:00:00:16"
    ∷ drop_mac "33:33:00:00:00:02"
    ∷ drop_mac "33:33:00:00:00:fb"
    ∷ mc_mgrp_create
    ∷ mc_node_create (range 1 l)
    ∷ mc_node_associate
    ∷ set_multicast_group
    ∷ []

-- `edges` gives the second ends of G.edges(idx), in order
module _ (t : Texts) (edges : ℕ → List ℕ) where
  -- the lines for the hosts of a leaf
  unfoldable pub leaf_hosts : ℕ → List ℕ → Lines
  leaf_hosts idx [] = ok []
  leaf_hosts idx (x ∷ xs) = do
    let ip = host_ip t (idx + 1) x
    n ← t.v4_of ip
    sid ← mac_to_ipv6_linklocal (t.mac_of ip 1)
    rest ← leaf_hosts idx xs
    ok (
        ipv6_forward (converttov6 n) 128 (t.mac_of ip 0) x
        ∷ ipv4_host ip (t.mac_of ip 0) x
        ∷ srv6_end sid
        ∷ rest)

  unfoldable pub spine_lines : ℕ → Lines
  unfolding own_sids multicast
  spine_lines idx =
      then_lines (ok (set_queue_depth 64 ∷ set_queue_rate 100 ∷ configure_transit (idx + 1) ∷ [])) (
        then_lines (spine_hops idx 0 (edges idx))
          (then_lines (own_sids true idx (edges idx)) (ok (multicast (length (edges idx))))))

  unfoldable pub leaf_lines : ℕ → ℕ → ℕ → String → String → Lines
  unfolding own_sids multicast leaf_head
  leaf_lines idx nbr_h hosts_per_leaf proportion timeout =
      let l = length (edges idx) + nbr_h in
      then_lines
        (ok (
          set_queue_depth 64
          ∷ set_queue_rate 100
          ∷ (leaf_head l nbr_h proportion timeout ++ configure_transit (idx + 1) ∷ [])))
        (then_lines (leaf_hops nbr_h idx 0 0 (edges idx)) (
          then_lines
            (ok (
              ecmp_group (length (edges idx))
              ∷ ipv4_forward (10 * 2 ^ 24) 8 "00:00:00:00:00:00" (hosts_per_leaf + 1)
              ∷ []))
            (then_lines (leaf_hosts idx (range 1 hosts_per_leaf))
              (then_lines (own_sids false idx (edges idx)) (ok (multicast l))))))

-- s.startswith(prefix), for a prefix of two letters
unfoldable pub starts_with2 : String → String → Bool
starts_with2 (String.◌∷◌ a (String.◌∷◌ b s)) prefix =
    String.◌∷◌ a (String.◌∷◌ b String.[]) == prefix
starts_with2 s prefix = false

module _ (t : Texts) (edges : ℕ → List ℕ) (hosts_per_leaf : ℕ) (proportion timeout : String) where
  -- `generate_command`
  unfoldable pub generate_command : String → ℕ → Lines
  unfolding starts_with2
  generate_command s idx =
      if starts_with2 s "SP"
      then spine_lines t edges idx
      else leaf_lines t edges idx hosts_per_leaf hosts_per_leaf proportion timeout

  -- the loop of `generate_commands`: the name of each file, and what is written to it
  unfoldable pub generate_from : ℕ → List String → Result (List (String × List Command))
  generate_from i [] = ok []
  generate_from i (s ∷ ss) = do
    lines ← generate_command s i
    rest ← generate_from (i + 1) ss
    ok ((append s ".txt", lines) ∷ rest)

  -- `generate_commands`
  unfoldable pub generate_commands : List String → Result (List (String × List Command))
  unfolding generate_from
  generate_commands switches = generate_from 0 switches
