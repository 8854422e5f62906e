-- ===== src/Network/Start/Run/InOrder.antt =====
-- `startNetwork` leaves the links in order.
use smoothie.Base.{[], ◌∷◌, map, if◌then◌else◌, nat_eq, string_eq, pair_eq}
use smoothie.Base.Exec.{◌>>◌, lift}
use smoothie.Network.Value.{nothing}
use smoothie.Network.Mininet.{Mininet}
use smoothie.Network.Ids.{p4switches}
use smoothie.Network.Nodes.{ask}
use smoothie.Network.Links.Library.{LinkLib}
use smoothie.Network.Links.Auto.{Source, auto_assignment}
use smoothie.Network.Links.Auto.InOrder.{auto_assignment-InOrder}
use smoothie.Network.Start.{
  World, cleans, starts, saves, opens_cli, benchmarks, collects, runs, joins_collector, on_api, act,
  module_of,
}
use smoothie.Network.Start.Compile.{compile}
use smoothie.Network.Start.Hosts.{program_hosts}
use smoothie.Network.Start.Switches.{program_switches}
use smoothie.Network.Start.Tasks.{start_schedulers, distribute_tasks}
use smoothie.Network.Start.InOrder.{Sound, act-Sound, module_of-Sound, then-Sound, for_each-Sound}
use smoothie.Network.Start.Compile.InOrder.{compile-Sound}
use smoothie.Network.Start.Hosts.InOrder.{program_hosts-Sound}
use smoothie.Network.Start.Switches.InOrder.{program_switches-Sound}
use smoothie.Network.Start.Tasks.InOrder.{start_schedulers-Sound, distribute_tasks-Sound}
use smoothie.Network.Start.Run.Stopped.{stop_network_lem}
use smoothie.Network.Start.Run.{
  run_script, exec_scripts, stop_network, create_net, use_network, start_network,
}

module _ (mn : Mininet) (w : World) where
  exec_scripts-Sound : Sound (exec_scripts mn w)
  unfolding exec_scripts run_script
  exec_scripts-Sound s v =
      for_each-Sound s.api.scripts (run_script mn w)
        (λ script. then-Sound (act (runs script)) _ (act-Sound _) (λ u s v. v)) s v

  stop_network-Sound : Sound (stop_network mn w)
  stop_network-Sound s v = rw (stop_network_lem mn w s) v

  create_net-Sound : Sound (create_net mn w)
  unfolding create_net
  create_net-Sound =
      then-Sound (module_of "net" (("controller", nothing) ∷ [])) _
        (module_of-Sound "net" (("controller", nothing) ∷ []))
        (λ made s v.
          then-Sound (lift (w.new_net made.0 made.1 s.api)) _ (λ s v. v) (λ net s v. v) s v)

  use_network-Sound : Sound (use_network mn w)
  unfolding use_network
  use_network-Sound s v =
      then-Sound (act (if s.api.cli_enabled then opens_cli else benchmarks)) _ (act-Sound _)
        (λ u. stop_network-Sound) s v

  program-Sound : Sound (do
    program_switches mn w
    program_hosts mn w
    exec_scripts mn w
    distribute_tasks mn w
    use_network mn w)
  program-Sound = then-Sound (program_switches mn w) _ (program_switches-Sound mn w) (λ u.
      then-Sound (program_hosts mn w) _ (program_hosts-Sound mn w) (λ u.
        then-Sound (exec_scripts mn w) _ exec_scripts-Sound (λ u.
          then-Sound (distribute_tasks mn w) _ (distribute_tasks-Sound mn w)
            (λ u. use_network-Sound))))

  -- `startNetwork` leaves the links in order.
  pub start_network-Sound : (lib : LinkLib) (src : Source) → Sound (start_network mn w lib src)
  unfolding start_network
  start_network-Sound lib src = then-Sound (act cleans) _ (act-Sound cleans) (λ u.
      then-Sound (on_api (auto_assignment mn lib src)) _
        (λ s v. auto_assignment-InOrder mn lib src s.api v)
        (λ u. then-Sound (compile mn w) _ (compile-Sound mn w) (λ u.
          then-Sound (create_net mn w) _ create_net-Sound (λ u.
            then-Sound (on_api (ask mn (p4switches mn))) _ (λ s v. v)
              (λ switches.
                then-Sound (act (joins_collector (map (λ p. p.0) switches))) _ (act-Sound _) (λ u.
                  then-Sound (act starts) _ (act-Sound starts) (λ u.
                    then-Sound (start_schedulers mn w) _ (start_schedulers-Sound mn w) (λ u.
                      then-Sound (act saves) _ (act-Sound saves) (λ u.
                        then-Sound (act collects) _ (act-Sound collects)
                          (λ u. program-Sound))))))))))
