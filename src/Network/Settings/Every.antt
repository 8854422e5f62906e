-- ===== src/Network/Settings/Every.antt =====
-- src/Network_API_l.py: the setters of all nodes of a kind. Each name is looked up before the first
-- change.
use smoothie.Base.{String, List, [], ◌∷◌, map, nat_eq, string_eq, pair_eq}
use smoothie.Base.Error.{Result}
use smoothie.Base.Exec.{Exec, pure, ◌>>=◌, ◌>>◌}
use smoothie.Network.Value.{Attrs}
use smoothie.Network.Mininet.{Graph, Net, Mininet}
use smoothie.Network.Ids.{nodes, hosts, p4switches}
use smoothie.Network.Nodes.{ask}
use smoothie.Network.Settings.{
  enable_log, disable_log, enable_scheduler, disable_scheduler, enable_dhcp, disable_dhcp,
  set_p4_source, enable_debugger, disable_debugger, enable_pcap_dump, disable_pcap_dump,
}

unfoldable pub for_each : (String → Exec Net (Unit {0})) → List String → Exec Net (Unit {0})
for_each act [] = pure tt
for_each act (n ∷ ns) = act n >> for_each act ns

module _ (mn : Mininet) where
  unfoldable pub on_nodes : (String → Exec Net (Unit {0})) → Exec Net (Unit {0})
  on_nodes act s = for_each act (nodes mn s.g) s

  unfoldable pub on_those :
      (Graph → Result (List (String × Attrs)))
      → (String → Exec Net (Unit {0}))
      → Exec Net (Unit {0})
  on_those select act = do ns ← ask mn select; for_each act (map (λ n. n.0) ns)

  unfoldable pub on_hosts : (String → Exec Net (Unit {0})) → Exec Net (Unit {0})
  on_hosts = on_those (hosts mn)

  unfoldable pub on_p4switches : (String → Exec Net (Unit {0})) → Exec Net (Unit {0})
  on_p4switches = on_those (p4switches mn)

  -- `enableLogAll`
  unfoldable pub enable_log_all : String → Exec Net (Unit {0})
  enable_log_all log_dir = on_nodes (λ n. enable_log mn n log_dir)

  -- `disableLogAll`
  unfoldable pub disable_log_all : Exec Net (Unit {0})
  disable_log_all = on_nodes (λ n. disable_log mn n)

  -- `enableSchedulerAll`
  unfoldable pub enable_scheduler_all : String → Exec Net (Unit {0})
  enable_scheduler_all path = on_nodes (λ n. enable_scheduler mn n path)

  -- `disableSchedulerAll`
  unfoldable pub disable_scheduler_all : Exec Net (Unit {0})
  disable_scheduler_all = on_nodes (λ n. disable_scheduler mn n)

  -- `enableDhcpAll`
  unfoldable pub enable_dhcp_all : Exec Net (Unit {0})
  enable_dhcp_all = on_hosts (λ n. enable_dhcp mn n)

  -- `disableDhcpAll`
  unfoldable pub disable_dhcp_all : Exec Net (Unit {0})
  disable_dhcp_all = on_hosts (λ n. disable_dhcp mn n)

  -- `setP4SourceAll`
  unfoldable pub set_p4_source_all : String → Exec Net (Unit {0})
  set_p4_source_all p4_src = on_p4switches (λ n. set_p4_source mn n p4_src)

  -- `enableDebuggerAll`
  unfoldable pub enable_debugger_all : Exec Net (Unit {0})
  enable_debugger_all = on_p4switches (λ n. enable_debugger mn n)

  -- `disableDebuggerAll`
  unfoldable pub disable_debugger_all : Exec Net (Unit {0})
  disable_debugger_all = on_p4switches (λ n. disable_debugger mn n)

  -- `enablePcapDumpAll`
  unfoldable pub enable_pcap_dump_all : String → Exec Net (Unit {0})
  enable_pcap_dump_all pcap_dir = on_p4switches (λ n. enable_pcap_dump mn n pcap_dir)

  -- `disablePcapDumpAll`
  unfoldable pub disable_pcap_dump_all : Exec Net (Unit {0})
  disable_pcap_dump_all = on_p4switches (λ n. disable_pcap_dump mn n)
