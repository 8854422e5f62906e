-- ===== src/Network/Settings.antt =====
-- src/Network_API_l.py: the setters of one node.
pub mod Every
pub mod Tasks
pub mod TaskFile
use Prim.Native.String.{◌++◌ as append}
use smoothie.Base.{
  ℕ, String, Bool, true, false, not, [], ◌∷◌, arith, if◌then◌else◌, nat_eq, string_eq, pair_eq,
}
use smoothie.Base.Error.{error}
use smoothie.Base.Exec.{Exec, pure, raise, ◌>>=◌, ◌>>◌}
use smoothie.Network.Value.{Value, text, number, flag, Attrs}
use smoothie.Network.Mininet.{Net, Mininet}
use smoothie.Network.Ids.{is_node, is_host, is_switch, is_p4switch, is_p4runtime_switch}
use smoothie.Network.Nodes.{ask, update_node}

module _ (mn : Mininet) where
  -- `if test: updateNode(name, …) else: raise`
  unfoldable pub set_if : Bool → String → Attrs → Exec Net (Unit {0})
  set_if true name opts = update_node mn name opts >> pure tt
  set_if false name opts = raise error

  unfoldable pub set_on_node : String → Attrs → Exec Net (Unit {0})
  set_on_node name opts s = set_if (is_node mn s.g name) name opts s

  unfoldable pub set_on_host : String → Attrs → Exec Net (Unit {0})
  set_on_host name opts = do host ← ask mn (λ g. is_host g name); set_if host name opts

  unfoldable pub set_on_p4switch : String → Attrs → Exec Net (Unit {0})
  set_on_p4switch name opts = do p4 ← ask mn (λ g. is_p4switch g name); set_if p4 name opts

  -- `enableLog`
  unfoldable pub enable_log : String → String → Exec Net (Unit {0})
  enable_log name log_dir =
      set_on_node name (("log_enabled", flag true) ∷ ("log_dir", text log_dir) ∷ [])

  -- `disableLog`
  unfoldable pub disable_log : String → Exec Net (Unit {0})
  disable_log name = set_on_node name (("log_enabled", flag false) ∷ [])

  -- `enableScheduler`
  unfoldable pub enable_scheduler : String → String → Exec Net (Unit {0})
  enable_scheduler name path =
      set_on_node name (("scheduler", flag true) ∷ ("socket_path", text path) ∷ [])

  -- `disableScheduler`
  unfoldable pub disable_scheduler : String → Exec Net (Unit {0})
  disable_scheduler name = set_on_node name (("scheduler", flag false) ∷ [])

  -- `setDefaultRoute`
  unfoldable pub set_default_route : String → String → Exec Net (Unit {0})
  set_default_route name route =
      set_on_node name (("defaultRoute", text (append "via " route)) ∷ [])

  -- `enableDhcp`
  unfoldable pub enable_dhcp : String → Exec Net (Unit {0})
  enable_dhcp name = set_on_host name (("dhcp", flag true) ∷ [])

  -- `disableDhcp`
  unfoldable pub disable_dhcp : String → Exec Net (Unit {0})
  disable_dhcp name = set_on_host name (("dhcp", flag false) ∷ [])

  -- `setP4Source`
  unfoldable pub set_p4_source : String → String → Exec Net (Unit {0})
  set_p4_source name p4_src = set_on_p4switch name (("p4_src", text p4_src) ∷ [])

  -- `setP4CliInput`
  unfoldable pub set_p4_cli_input : String → String → Exec Net (Unit {0})
  set_p4_cli_input name cli_input = set_on_p4switch name (("cli_input", text cli_input) ∷ [])

  -- `setP4SwitchId`
  unfoldable pub set_p4switch_id : String → ℕ → Exec Net (Unit {0})
  set_p4switch_id name id = set_on_p4switch name (("device_id", number id) ∷ [])

  -- `setThriftPort`
  unfoldable pub set_thrift_port : String → ℕ → Exec Net (Unit {0})
  set_thrift_port name port = set_on_p4switch name (("thrift_port", number port) ∷ [])

  -- `enableDebugger`
  unfoldable pub enable_debugger : String → Exec Net (Unit {0})
  enable_debugger name = set_on_p4switch name (("enable_debugger", flag true) ∷ [])

  -- `disableDebugger`
  unfoldable pub disable_debugger : String → Exec Net (Unit {0})
  disable_debugger name = set_on_p4switch name (("enable_debugger", flag false) ∷ [])

  -- `enablePcapDump`
  unfoldable pub enable_pcap_dump : String → String → Exec Net (Unit {0})
  enable_pcap_dump name pcap_dir =
      set_on_p4switch name (("pcap_dump", flag true) ∷ ("pcap_dir", text pcap_dir) ∷ [])

  -- `disablePcapDump`
  unfoldable pub disable_pcap_dump : String → Exec Net (Unit {0})
  disable_pcap_dump name = set_on_p4switch name (("pcap_dump", flag false) ∷ [])

  -- `setSwitchDpid`: not for a P4 switch
  unfoldable pub set_switch_dpid : String → Value → Exec Net (Unit {0})
  set_switch_dpid name dpid = do
    switch ← ask mn (λ g. is_switch mn g name)
    if switch
        then (do p4 ← ask mn (λ g. is_p4switch g name); set_if (not p4) name (("dpid", dpid) ∷ []))
        else raise error

  -- `setGrpcPort`
  unfoldable pub set_grpc_port : String → ℕ → Exec Net (Unit {0})
  set_grpc_port name port = do
    p4rt ← ask mn (λ g. is_p4runtime_switch g name)
    set_if p4rt name (("grpc_port", number port) ∷ [])
