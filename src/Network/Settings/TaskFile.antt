-- ===== src/Network/Settings/TaskFile.antt =====
-- src/Network_API_l.py: `addTaskFile`. The lines of the file, and what p4utils reads in one, are
-- parameters.
pub mod InOrder
use smoothie.Base.{
  String, Bool, true, ◌&&◌, ◌||◌, List, [], ◌∷◌, if◌then◌else◌, nat_eq, string_eq, pair_eq,
}
use smoothie.Base.Error.{Result}
use smoothie.Base.Exec.{Exec, pure, lift, ◌>>=◌, ◌>>◌}
use smoothie.Network.Mininet.{Net, Mininet, Task}
use smoothie.Network.Settings.Tasks.{add_task}
use smoothie.Network.Start.Texts.{is_space, starts_with}

-- line.strip() == ''
unfoldable pub is_blank : String → Bool
is_blank String.[] = true
is_blank (String.◌∷◌ c s) = is_space c && is_blank s

-- the lines that are no comment and not blank
unfoldable pub task_lines : List String → List String
unfolding is_blank
task_lines [] = []
task_lines (l ∷ ls) =
    let rest = task_lines ls in
    if is_blank l || starts_with l "//" || starts_with l "#" then rest else l ∷ rest

module _ (mn : Mininet) (parse_task_line : String → Result (String × (Task × Bool))) where
  unfoldable pub add_lines : List String → Exec Net (Unit {0})
  add_lines [] = pure tt
  add_lines (l ∷ ls) = do p ← lift (parse_task_line l); add_task mn p.0 p.1.0 p.1.1; add_lines ls

  -- `addTaskFile`
  unfoldable pub add_task_file : List String → Exec Net (Unit {0})
  unfolding add_lines
  add_task_file lines = add_lines (task_lines lines)
