-- ===== src/Network/Start/Tasks.antt =====
-- src/Network_API_l.py: the schedulers, and the tasks that are sent to them.
pub mod Sent
pub mod InOrder
use Prim.Native.String.{◌++◌ as append}
use smoothie.Base.{
  ℕ, zero, suc, ◌+◌, ◌/◌, String, none, some, List, [], map, arith, if◌then◌else◌, nat_eq,
  string_eq, pair_eq,
}
use smoothie.Base.Dict.{get, put, remove}
use smoothie.Base.Error.{type_error, Result, ok, err}
use smoothie.Base.Exec.{◌>>=◌, ◌>>◌, Exec, pure, lift, gets}
use smoothie.Network.Value.{text, Attrs, given, flagged}
use smoothie.Network.Mininet.{Mininet, Task}
use smoothie.Network.Ids.{nodes}
use smoothie.Network.Nodes.{get_node}
use smoothie.Network.Settings.Tasks.{has_scheduler}
use smoothie.Network.Start.{Boot, World, schedules, sends, on_api, act, for_each, running}

-- getNode(node).get('unix_path', '/tmp') + '/' + node + '_socket'
unfoldable pub unix_socket : Attrs → String → Result String
unix_socket info node = elim (get info "unix_path") [
  | none ↦ ok (append "/tmp" (append "/" (append node "_socket")))
  | some v ↦ elim v [
    | text path ↦ ok (append path (append "/" (append node "_socket")))
    | _ ↦ err type_error
  ]
]

-- task.startTime += current_time
unfoldable pub shifted : ℕ → Task → Task
shifted time t = record t { start = t.start + time }

module _ (mn : Mininet) (w : World) where
  -- `start_scheduler`
  unfoldable pub start_scheduler : String → Exec Boot (Unit {0})
  start_scheduler node = do
    there ← on_api (has_scheduler mn node)
    if there
        then (do
          info ← on_api (get_node mn node)
          socket ← lift (unix_socket info node)
          running node
          act (
              schedules node socket
                (if flagged info "log_enabled" then some (given info "log_dir") else none)))
        else pure tt

  -- self.tasks.pop(node, None)
  drop_tasks : String → Exec Boot (Unit {0})
  drop_tasks node s = (ok tt, record s { api = record s.api { tasks = remove s.api.tasks node } })

  unfoldable pub schedule_node : String → Exec Boot (Unit {0})
  unfolding drop_tasks
  schedule_node node = do
    there ← on_api (has_scheduler mn node)
    if there then start_scheduler node else drop_tasks node

  -- `start_schedulers`
  unfoldable pub start_schedulers : Exec Boot (Unit {0})
  start_schedulers = do names ← gets (λ s. nodes mn s.api.g); for_each names schedule_node

  -- The tasks of a node are changed in place, and sent.
  unfoldable pub send_tasks : String × List Task → Exec Boot (Unit {0})
  send_tasks (node, tasks) = do
    let later : List Task = map (shifted w.time) tasks
    (λ s. (ok tt, record s { api = record s.api { tasks = put s.api.tasks node later } }))
    info ← on_api (get_node mn node)
    socket ← lift (unix_socket info node)
    act (sends socket later)

  -- self.tasks = {}
  clear_tasks : Exec Boot (Unit {0})
  clear_tasks s = (ok tt, record s { api = record s.api { tasks = [] } })

  -- `distribute_tasks`
  unfoldable pub distribute_tasks : Exec Boot (Unit {0})
  unfolding clear_tasks
  distribute_tasks = do tasks ← gets (λ s. s.api.tasks); for_each tasks send_tasks; clear_tasks
