-- ===== src/Queries/Simulate.antt =====
-- internal/cli/cmd_whatif.go and cmd_dependents.go: what would follow if a task were done, and which
-- tasks wait for it.
use terminal_todo.Base.{Eq-nat, ℕ, suc, ◌+◌, List, [], ◌∷◌, Bytes, has, any, length, if◌then◌else◌}
use terminal_todo.Base.Dict.{Dict, keys, values, modify}
use terminal_todo.Store.{Task, completed, TaskStore}
use terminal_todo.Dag.Build.{refers_to}
use terminal_todo.Dag.Ready.{Resolver, get_ready_tasks, get_blocked_tasks}

-- What a task shows of itself.
pub record TaskItem : Type 0 where
  pub id : ℕ
  pub title : Bytes

abbrev pub item_of : Task → TaskItem
item_of t = record { id = t.id; title = t.title }

pub record WhatIfDone : Type 0 where
  pub would_unblock : List TaskItem
  pub still_blocked : ℕ

-- `simTask.Status = store.StatusCompleted`, in a copy of the tasks.
abbrev pub set_completed : Task → Task
set_completed t = record t { status = completed }

-- The tasks of a list that were blocked before.
unfoldable pub were_blocked : Dict ℕ (List Bytes) → List Task → List Task
were_blocked before [] = []
were_blocked before (t ∷ ts) =
    let rest = were_blocked before ts in if has t.id (keys before) then t ∷ rest else rest

abbrev pub items_of : List Task → List TaskItem
items_of [] = []
items_of (t ∷ ts) = item_of t ∷ items_of ts

unfoldable pub newly_ready_if_done : Dict ℕ Task → ℕ → Resolver → List Task
unfolding were_blocked get_ready_tasks get_blocked_tasks
newly_ready_if_done tasks id resolver =
    were_blocked (get_blocked_tasks tasks resolver)
      (get_ready_tasks (modify id set_completed tasks) resolver)

unfoldable pub what_if_done : Dict ℕ Task → ℕ → Resolver → WhatIfDone
unfolding newly_ready_if_done
what_if_done tasks id resolver = record {
  would_unblock = items_of (newly_ready_if_done tasks id resolver);
  still_blocked = length (keys (get_blocked_tasks (modify id set_completed tasks) resolver));
}

-- One for each reference.
unfoldable pub count_refs : ℕ → List Bytes → ℕ
count_refs id [] = 0
count_refs id (dep ∷ deps) =
    let rest = count_refs id deps in if refers_to id dep then suc rest else rest

unfoldable pub count_in : List Task → ℕ → ℕ
unfolding count_refs
count_in [] id = 0
count_in (t ∷ ts) id = count_refs id t.depends + count_in ts id

-- One for each task.
unfoldable pub dependents_among : List Task → ℕ → List TaskItem
dependents_among [] id = []
dependents_among (t ∷ ts) id =
    let rest = dependents_among ts id in
    if any (refers_to id) t.depends then item_of t ∷ rest else rest

unfoldable pub count_dependents : Dict ℕ Task → ℕ → ℕ
unfolding count_in
count_dependents tasks id = count_in (values tasks) id

unfoldable pub dependents : TaskStore → ℕ → List TaskItem
unfolding dependents_among
dependents s id = dependents_among (values s.tasks) id
