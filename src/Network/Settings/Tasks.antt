-- ===== src/Network/Settings/Tasks.antt =====
-- src/Network_API_l.py: the tasks of the nodes.
use smoothie.Base.{
  String, Bool, none, some, List, [], ◌∷◌, ◌++◌, if◌then◌else◌, nat_eq, string_eq, pair_eq,
}
use smoothie.Base.Dict.{get, put}
use smoothie.Base.Error.{error, ok}
use smoothie.Base.Exec.{Exec, pure, raise, ◌>>=◌, ◌>>◌}
use smoothie.Network.Value.{flagged}
use smoothie.Network.Mininet.{Net, Mininet, Task}
use smoothie.Network.Ids.{is_node}
use smoothie.Network.Nodes.{get_node}
use smoothie.Network.Settings.{enable_scheduler}

module _ (mn : Mininet) where
  -- `hasScheduler`
  unfoldable pub has_scheduler : String → Exec Net Bool
  has_scheduler name = do a ← get_node mn name; pure (flagged a "scheduler")

  -- self.tasks.setdefault(name, []), and the task behind those that are there
  unfoldable pub append_task : String → Task → Exec Net (Unit {0})
  append_task name task s =
      let old : List Task = elim (get s.tasks name) [ none ↦ [] | some ts ↦ ts ] in
      (ok tt, record s { tasks = put s.tasks name (old ++ task ∷ []) })

  -- `addTask`; the scheduler is enabled under its default path.
  unfoldable pub add_task : String → Task → Bool → Exec Net (Unit {0})
  add_task name task enable s =
      if is_node mn s.g name
      then ((do
        there ← has_scheduler name
        if there then pure tt else (if enable then enable_scheduler mn name "/tmp" else raise error)
        append_task name task)
          s)
      else raise error s
