-- ===== src/Network/Start/Tasks/Sent.antt =====
-- src/Network_API_l.py: where the tasks of the nodes are sent.
use smoothie.Base.{
  ◌+◌, String, ◌≡◌, refl, sym, ap, ◌∙◌, some, List, [], ◌∷◌, ◌++◌, map, nat_eq, string_eq, pair_eq,
  All,
}
use smoothie.Base.Dict.{Dict, get, put}
use mathlib.Core.List.{append-nil, append_assoc}
use smoothie.Base.Error.{Result, ok}
use smoothie.Base.Exec.{◌>>=◌, ◌>>◌}
use smoothie.Base.Exec.{>>=_ends}
use smoothie.Network.Value.{Attrs}
use smoothie.Network.Mininet.{Mininet, Task}
use smoothie.Network.Nodes.{get_node}
use smoothie.Network.Start.{Boot, World, Action, sends, on_api, act, for_each}
use smoothie.Network.Start.Tasks.{unix_socket, shifted, send_tasks, clear_tasks, distribute_tasks}

module _ (mn : Mininet) (w : World) where
  -- the task, with the current time added to its start
  abbrev pub later : Task → Task
  later t = record { exe = t.exe; start = t.start + w.time; duration = t.duration }

  -- the socket of each node, and what is sent to it
  unfoldable pub messages : (String → String) → Dict String (List Task) → List Action
  messages socket_of [] = []
  messages socket_of ((node, tasks) ∷ d) =
      sends (socket_of node) (map later tasks) ∷ messages socket_of d

  -- the node is in the description, and its socket can be named
  abbrev pub Named : (String → String) → Boot → String × List Task → Type 0
  Named socket_of s p =
      (info : Attrs) × (get s.api.g.node p.0 ≡ some info)
      × (unix_socket info p.0 ≡ ok (socket_of p.0))

  -- the state behind messages, but for the tasks
  abbrev pub after : Boot → Dict String (List Task) → List Action → Boot
  after s tasks out = record s { api = record s.api { tasks = tasks }; log = s.log ++ out }

  send_tasks_lem :
      (socket_of : String → String) (s : Boot) (node : String) (tasks : List Task)
      → Named socket_of s (node, tasks)
      → send_tasks mn w (node, tasks) s ≡ (
        ok tt,
        after s
            (put s.api.tasks node (map later tasks))
            (sends (socket_of node) (map later tasks) ∷ []),
      )
  unfolding send_tasks get_node act shifted
  send_tasks_lem socket_of s node tasks (info, there, socket) =
      rw (there, send_tasks, on_api, get_node, ◌>>=◌) (rw socket refl)

  for_each-send_tasks :
      (socket_of : String → String) (d : Dict String (List Task)) (s : Boot)
      → All (Named socket_of s) d
      → (tasks : Dict String (List Task)) × (for_each d (send_tasks mn w) s
          ≡ (ok tt, after s tasks (messages socket_of d)))
  unfolding for_each messages
  for_each-send_tasks socket_of [] s h = (s.api.tasks, rw (append-nil) refl)
  for_each-send_tasks socket_of ((node, tasks) ∷ d) s h =
      let one = send_tasks_lem socket_of s node tasks h.0 in
      let (left, rest) =
        for_each-send_tasks socket_of d
          (after s (put s.api.tasks node (map later tasks))
            (sends (socket_of node) (map later tasks) ∷ []))
          h.1 in
      (left, rw (one, ◌>>◌, ◌>>=◌) (rest ∙ rw append_assoc refl))

  -- Where every node that has tasks is in the description and its socket can be named, the tasks of
  -- each node are sent in one message to its socket, in order, with the current time added to their
  -- start; no task is left behind, and nothing else changes.
  pub distribute_tasks_lem :
      (socket_of : String → String) (s : Boot)
      → All (Named socket_of s) s.api.tasks
      → distribute_tasks mn w s ≡ (ok tt, after s [] (messages socket_of s.api.tasks))
  unfolding distribute_tasks
  distribute_tasks_lem socket_of s h =
      let (left, e) = for_each-send_tasks socket_of s.api.tasks s h in rw (e, ◌>>◌, ◌>>=◌) refl

  pub distribute_tasks-empties :
      (s t : Boot) → distribute_tasks mn w s ≡ (ok tt, t) → t.api.tasks ≡ []
  unfolding distribute_tasks clear_tasks
  distribute_tasks-empties s t h =
      >>=_ends (λ (r : Boot). r.api.tasks ≡ []) (for_each s.api.tasks (send_tasks mn w))
        (λ u. clear_tasks mn w) tt
        (λ u r t e. ap (λ (p : Result Unit × Boot). p.1.api.tasks) (sym e)) s t h
