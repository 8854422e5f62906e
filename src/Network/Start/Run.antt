-- ===== src/Network/Start/Run.antt =====
-- src/Network_API_l.py: `startNetwork` and `stopNetwork`.
pub mod InOrder
pub mod Stopped
use smoothie.Base.{
  ℕ, zero, suc, ◌+◌, String, false, none, some, [], ◌∷◌, ◌++◌, map, arith, if◌then◌else◌, nat_eq,
  string_eq, pair_eq,
}
use smoothie.Base.Error.{ok}
use smoothie.Base.Exec.{◌>>=◌, ◌>>◌, Exec, pure, lift, gets}
use smoothie.Network.Value.{nothing}
use smoothie.Network.Mininet.{Mininet, Script}
use smoothie.Network.Ids.{p4switches}
use smoothie.Network.Nodes.{ask}
use smoothie.Network.Links.Library.{LinkLib}
use smoothie.Network.Links.Auto.{Source, auto_assignment}
use smoothie.Network.Start.{
  Boot, World, cleans, starts, stops, saves, opens_cli, benchmarks, collects, runs, kills,
  joins_collector, on_api, act, module_of, for_each,
}
use smoothie.Network.Start.Compile.{compile}
use smoothie.Network.Start.Hosts.{program_hosts}
use smoothie.Network.Start.Switches.{program_switches}
use smoothie.Network.Start.Tasks.{start_schedulers, distribute_tasks}

module _ (mn : Mininet) (w : World) where
  -- a round of `exec_scripts`
  unfoldable pub run_script : Script → Exec Boot (Unit {0})
  run_script script = do
    act (runs script)
    (λ s. (
      ok tt,
      record s { scripts_pids = s.scripts_pids ++ w.run_command script.cmd script.out_file ∷ [] },
    ))

  -- `exec_scripts`
  unfoldable pub exec_scripts : Exec Boot (Unit {0})
  unfolding run_script
  exec_scripts = do scripts ← gets (λ s. s.api.scripts); for_each scripts run_script

  -- `stop_exec_scripts`
  unfoldable pub stop_exec_scripts : Exec Boot (Unit {0})
  stop_exec_scripts = do pids ← gets (λ s. s.scripts_pids); for_each pids (λ pid. act (kills pid))

  -- `stopNetwork`
  unfoldable pub stop_network : Exec Boot (Unit {0})
  stop_network = do
    stop_exec_scripts
    there ← gets (λ s. elim s.net [ none ↦ false | some net ↦ w.net_truth net ])
    if there then act stops else pure tt

  -- The network is made of the description, which is passed to its class; the shares of the CPU
  -- that its hosts get are left out.
  unfoldable pub create_net : Exec Boot (Unit {0})
  create_net = do
    (class_of, kwargs) ← module_of "net" (("controller", nothing) ∷ [])
    api ← gets (λ s. s.api)
    net ← lift (w.new_net class_of kwargs api)
    (λ s. (ok tt, record s { net = some net }))

  -- the CLI, or the benchmark
  unfoldable pub use_network : Exec Boot (Unit {0})
  use_network = do
    cli ← gets (λ s. s.api.cli_enabled)
    act (if cli then opens_cli else benchmarks)
    stop_network

  -- `startNetwork`; the port mapping is only printed.
  unfoldable pub start_network : LinkLib → Source → Exec Boot (Unit {0})
  unfolding create_net use_network
  start_network lib src = do
    act cleans
    on_api (auto_assignment mn lib src)
    compile mn w
    create_net
    switches ← on_api (ask mn (p4switches mn))
    act (joins_collector (map (λ p. p.0) switches))
    act starts
    start_schedulers mn w
    act saves
    act collects
    program_switches mn w
    program_hosts mn w
    exec_scripts
    distribute_tasks mn w
    use_network
