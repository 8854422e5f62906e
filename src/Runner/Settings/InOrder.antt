-- ===== src/Runner/Settings/InOrder.antt =====
-- A description that is read and started leaves the links in order.
use smoothie.Base.{String, ◌≡◌, ◌≢◌, Bool, Option, none, some, nat_eq, string_eq, pair_eq, All}
use smoothie.Base.Error.{Result}
use smoothie.Base.Exec.{◌>>◌, pure}
use smoothie.Base.Exec.{>>=_leads}
use smoothie.Network.Value.{Value}
use smoothie.Network.Mininet.{Mininet, Task}
use smoothie.Network.Links.Library.{LinkLib}
use smoothie.Network.Links.Store.Updating.{InOrder}
use smoothie.Network.Links.Auto.{Source}
use smoothie.Network.Cpu.Enabled.{bridge_of}
use smoothie.Network.Settings.TaskFile.{add_task_file}
use smoothie.Network.Strategies.{Plan}
use smoothie.Network.Start.{Boot, World, on_api}
use smoothie.Network.Start.InOrder.{IsSound, option-Sound}
use smoothie.Network.Start.Run.{start_network}
use smoothie.Network.Start.Run.InOrder.{start_network-Sound}
use smoothie.Runner.{Loader}
use smoothie.Runner.Whole.{Given, load_topology-InOrder}
use smoothie.Runner.Settings.{
  Topology, FileConf, Files, read_settings, conf_of, read_topology, app_runner,
}
use smoothie.Runner.Settings.Kept.{Leaves, read_settings-Leaves}
use smoothie.Network.Settings.TaskFile.InOrder.{add_task_file-Keeps}

module _ (files : Files) (load : Loader) (mn : Mininet) (lib : LinkLib) (plan : Plan)
    (parse_task_line : String → Result (String × (Task × Bool))) where
  topology-InOrder :
      (fc : FileConf) (log_dir pcap_dir : Option String) (classes : Value × (Value × Value))
      (o : Option Topology) (s : Boot)
      → Given (λ t. Given (All (λ l. l.node1 ≢ l.node2)) t.links) o
      → Given (λ t. Given (All (λ w. w.0 ≢ "sw-cpu")) t.switches) o
      → InOrder s.api × (bridge_of mn lib s.api ≡ "sw-cpu")
      → InOrder
          (read_topology files load mn lib plan parse_task_line
            (record fc { topology = o })
            log_dir
            pcap_dir
            classes
            s).1.api
  unfolding read_topology conf_of
  topology-InOrder fc log_dir pcap_dir classes none s links switches v = v.0
  topology-InOrder fc log_dir pcap_dir classes (some t) s links switches v =
      load_topology-InOrder mn lib plan load (conf_of files load fc t log_dir pcap_dir classes)
        s.api links switches v.0 v.1

  -- the links are in order, and the bridge has its name
  abbrev Ready : Boot → Type 0
  Ready s = InOrder s.api × (bridge_of mn lib s.api ≡ "sw-cpu")

  app_runner-InOrder :
      (fc : FileConf) (log_dir pcap_dir : Option String) (s : Boot)
      → Given (λ t. Given (All (λ l. l.node1 ≢ l.node2)) t.links) fc.topology
      → Given (λ t. Given (All (λ w. w.0 ≢ "sw-cpu")) t.switches) fc.topology
      → Ready s
      → InOrder (app_runner files load mn lib plan parse_task_line fc log_dir pcap_dir s).1.api
  unfolding app_runner Leaves
  app_runner-InOrder fc log_dir pcap_dir s links switches =
      >>=_leads Ready Ready IsSound (read_settings files load fc log_dir pcap_dir) _
        (read_settings-Leaves files load (λ n. InOrder n × (bridge_of mn lib n ≡ "sw-cpu")) fc
          log_dir pcap_dir)
        (λ t v. v.0)
        (λ classes.
          >>=_leads Ready IsSound IsSound
            (read_topology files load mn lib plan parse_task_line fc log_dir pcap_dir classes) _
            (λ t. topology-InOrder fc log_dir pcap_dir classes fc.topology t links switches)
            (λ t v. v)
            (λ u.
              option-Sound fc.tasks_file (pure tt)
                (λ lines. on_api (add_task_file mn parse_task_line lines)) (λ s v. v)
                (λ lines s v. add_task_file-Keeps mn parse_task_line lines s.api v)))
        s

  -- Whatever a description says, and whatever raises while it is read or while the network is
  -- started, programmed, used and stopped, the links are in order afterwards: no two links have the
  -- same port of a node. It is asked that they are before, that each link of the description joins
  -- two different nodes, and that no switch of it is called as the bridge of the CPU ports is.
  pub launch-InOrder :
      (w : World) (src : Source) (fc : FileConf) (log_dir pcap_dir : Option String) (s : Boot)
      → Given (λ t. Given (All (λ l. l.node1 ≢ l.node2)) t.links) fc.topology
      → Given (λ t. Given (All (λ w. w.0 ≢ "sw-cpu")) t.switches) fc.topology
      → InOrder s.api
      → bridge_of mn lib s.api ≡ "sw-cpu"
      → InOrder
          ((app_runner files load mn lib plan parse_task_line fc log_dir pcap_dir
              >> start_network mn w lib src)
            s).1.api
  unfolding app_runner
  launch-InOrder w src fc log_dir pcap_dir s links switches v named =
      >>=_leads Ready IsSound IsSound
        (app_runner files load mn lib plan parse_task_line fc log_dir pcap_dir) _
        (λ t. app_runner-InOrder fc log_dir pcap_dir t links switches) (λ t v. v)
        (λ u. start_network-Sound mn w lib src) s (v, named)
