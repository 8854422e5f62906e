-- ===== src/Network/Settings/TaskFile/InOrder.antt =====
-- A file of tasks leaves the links in order.
use smoothie.Base.{
  String, Bool, List, [], ◌∷◌, if◌then◌else◌, nat_eq, string_eq, pair_eq, inl, inr, Bool-cases,
}
use smoothie.Base.Error.{error, Result}
use smoothie.Base.Exec.{pure, raise, lift}
use smoothie.Network.Mininet.{Mininet, Task}
use smoothie.Network.Ids.{is_node}
use smoothie.Network.Nodes.{get_node}
use smoothie.Network.Links.Auto.InOrder.{Keeps, then-Keeps, if-Keeps, set_if-Keeps}
use smoothie.Network.Cpu.InOrder.{get_node-Keeps}
use smoothie.Network.Settings.{set_on_node, enable_scheduler}
use smoothie.Network.Settings.Tasks.{has_scheduler, append_task, add_task}
use smoothie.Network.Settings.TaskFile.{task_lines, add_lines, add_task_file}

module _ (mn : Mininet) where
  append_task-Keeps : (name : String) (t : Task) → Keeps mn (append_task mn name t)
  unfolding append_task
  append_task-Keeps name t s v = v

  add_task-Keeps : (name : String) (t : Task) (enable : Bool) → Keeps mn (add_task mn name t enable)
  unfolding add_task has_scheduler enable_scheduler set_on_node
  add_task-Keeps name t enable s v = elim (Bool-cases (is_node mn s.g name)) [
    | inl q ↦
        rw (add_task, q)
          (then-Keeps mn (has_scheduler mn name) _
            (then-Keeps mn (get_node mn name) _ (get_node-Keeps mn name) (λ a s v. v))
            (λ there.
              then-Keeps mn
                (if there
                  then pure tt
                  else (if enable then enable_scheduler mn name "/tmp" else raise error))
                (λ u. append_task mn name t)
                (if-Keeps mn there _ _ (λ s v. v)
                  (if-Keeps mn enable _ _ (λ s. set_if-Keeps mn (is_node mn s.g name) name _ s)
                    (λ s v. v)))
                (λ u. append_task-Keeps name t))
            s v)
    | inr q ↦ rw (add_task, q) v
  ]

  module _ (parse_task_line : String → Result (String × (Task × Bool))) where
    add_lines-Keeps : (ls : List String) → Keeps mn (add_lines mn parse_task_line ls)
    unfolding add_lines
    add_lines-Keeps [] = λ s v. v
    add_lines-Keeps (l ∷ ls) =
        then-Keeps mn (lift (parse_task_line l)) _ (λ s v. v)
          (λ p.
            then-Keeps mn (add_task mn p.0 p.1.0 p.1.1) _ (add_task-Keeps p.0 p.1.0 p.1.1)
              (λ u. add_lines-Keeps ls))

    pub add_task_file-Keeps : (ls : List String) → Keeps mn (add_task_file mn parse_task_line ls)
    unfolding add_task_file
    add_task_file-Keeps ls = add_lines-Keeps (task_lines ls)
