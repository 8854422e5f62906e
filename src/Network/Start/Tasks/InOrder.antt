-- ===== src/Network/Start/Tasks/InOrder.antt =====
-- The schedulers and their tasks leave the links in order.
use smoothie.Base.{String, List, map, nat_eq, string_eq, pair_eq}
use smoothie.Base.Dict.{put}
use smoothie.Base.Exec.{lift}
use smoothie.Network.Mininet.{Mininet, Task}
use smoothie.Network.Nodes.{get_node}
use smoothie.Network.Settings.Tasks.{has_scheduler}
use smoothie.Network.Start.{World, on_api, for_each, running}
use smoothie.Network.Start.Tasks.{
  unix_socket, shifted, start_scheduler, drop_tasks, schedule_node, start_schedulers, send_tasks,
  clear_tasks, distribute_tasks,
}
use smoothie.Network.Links.Auto.InOrder.{then-Keeps}
use smoothie.Network.Cpu.InOrder.{get_node-Keeps}
use smoothie.Network.Start.InOrder.{
  Sound, act-Sound, running-Sound, then-Sound, if-Sound, for_each-Sound, get_node-Sound,
}

module _ (mn : Mininet) (w : World) where
  has_scheduler-Sound : (n : String) → Sound (on_api (has_scheduler mn n))
  unfolding has_scheduler
  has_scheduler-Sound n s v =
      then-Keeps mn (get_node mn n) _ (get_node-Keeps mn n) (λ a s v. v) s.api v

  start_scheduler-Sound : (n : String) → Sound (start_scheduler mn w n)
  unfolding start_scheduler
  start_scheduler-Sound n =
      then-Sound (on_api (has_scheduler mn n)) _ (has_scheduler-Sound n) (λ there.
        if-Sound there _ _
          (then-Sound (on_api (get_node mn n)) _ (get_node-Sound mn n) (λ info.
            then-Sound (lift (unix_socket info n)) _ (λ s v. v)
              (λ socket. then-Sound (running n) _ (running-Sound n) (λ r. act-Sound _))))
          (λ s v. v))

  pub start_schedulers-Sound : Sound (start_schedulers mn w)
  unfolding start_schedulers schedule_node drop_tasks
  start_schedulers-Sound s v =
      for_each-Sound _ (schedule_node mn w)
        (λ n.
          then-Sound (on_api (has_scheduler mn n)) _ (has_scheduler-Sound n)
            (λ there. if-Sound there _ _ (start_scheduler-Sound n) (λ s v. v)))
        s v

  send_tasks-Sound : (n : String) (tasks : List Task) → Sound (send_tasks mn w (n, tasks))
  unfolding send_tasks
  send_tasks-Sound n tasks s v =
      then-Sound (on_api (get_node mn n)) _ (get_node-Sound mn n)
        (λ info. then-Sound (lift (unix_socket info n)) _ (λ s v. v) (λ socket. act-Sound _))
        (record s { api = record s.api { tasks = put s.api.tasks n (map (shifted w.time) tasks) } })
        v

  pub distribute_tasks-Sound : Sound (distribute_tasks mn w)
  unfolding distribute_tasks clear_tasks
  distribute_tasks-Sound s v =
      then-Sound (for_each s.api.tasks (send_tasks mn w)) (λ u. clear_tasks mn w)
        (for_each-Sound s.api.tasks (send_tasks mn w) (λ (n, tasks). send_tasks-Sound n tasks))
        (λ u s v. v) s v
