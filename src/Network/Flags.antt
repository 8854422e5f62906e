-- ===== src/Network/Flags.antt =====
-- src/Network_API_l.py: the switches of the whole network, and its neighbours.
use Prim.Native.Char.{code}
use Prim.Native.String.{◌++◌ as append}
use smoothie.Base.{
  String, [], ◌∷◌, ◌++◌, Option, ◌==◌, if◌then◌else◌, Bool, true, false, none, some, nat_eq,
  string_eq, pair_eq,
}
use smoothie.Base.Dict.{get, has}
use smoothie.Base.Exec.{Exec, ◌>>=◌, raise, pure}
use smoothie.Base.Error.{ok, error, index_error, Result, err}
use smoothie.Network.Value.{flagged}
use smoothie.Network.Ids.{is_p4switch}
use smoothie.Network.Nodes.{get_node}
use smoothie.Network.Mininet.{Script, Mininet, Graph, Net}

-- `enableCli`
unfoldable pub enable_cli : Exec Net (Unit {0})
enable_cli s = (ok tt, record s { cli_enabled = true })

-- `disableCli`
unfoldable pub disable_cli : Exec Net (Unit {0})
disable_cli s = (ok tt, record s { cli_enabled = false })

-- `enableArpTables`
unfoldable pub enable_arp_tables : Exec Net (Unit {0})
enable_arp_tables s = (ok tt, record s { auto_arp_tables = true })

-- `disableArpTables`
unfoldable pub disable_arp_tables : Exec Net (Unit {0})
disable_arp_tables s = (ok tt, record s { auto_arp_tables = false })

-- `enableGwArp`
unfoldable pub enable_gw_arp : Exec Net (Unit {0})
enable_gw_arp s = (ok tt, record s { auto_gw_arp = true })

-- `disableGwArp`
unfoldable pub disable_gw_arp : Exec Net (Unit {0})
disable_gw_arp s = (ok tt, record s { auto_gw_arp = false })

-- `areNeighbors`
unfoldable pub are_neighbors : Graph → String → String → Bool
are_neighbors g node1 node2 = elim (get g.edge node1) [ none ↦ false | some m ↦ has m node2 ]

-- `setTopologyFile`
unfoldable pub set_topology_file : String → Exec Net (Unit {0})
set_topology_file file s = (ok tt, record s { topo_file = file })

-- `execScript`
unfoldable pub exec_script : String → Option String → Bool → Exec Net (Unit {0})
exec_script cmd out_file reboot s =
    let script : Script = record { cmd = cmd; reboot_run = reboot; out_file = out_file } in
    (ok tt, record s { scripts = s.scripts ++ (script ∷ []) })

-- `intf_name`, with Python's `repr` of a number
unfoldable pub intf_name : {A : Type 0} → (A → String) → String → A → String
intf_name repr name port = append name (append "-eth" (repr port))

-- `check_host_valid_ip_from_name`; `is_int` says what Python's `int` accepts.
unfoldable pub check_host_valid_ip_from_name : (String → Bool) → String → Result Bool
check_host_valid_ip_from_name is_int String.[] = err index_error
check_host_valid_ip_from_name is_int (String.◌∷◌ c s) =
    ok (if code c == b'h' then is_int s else false)

-- `hasCpuPort`
unfoldable pub has_cpu_port : Mininet → String → Exec Net Bool
has_cpu_port mn name = do
  p4 ← (λ s. (is_p4switch s.g name, s))
  if p4 then (do a ← get_node mn name; pure (flagged a "cpu_port")) else raise error
