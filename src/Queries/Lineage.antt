-- ===== src/Queries/Lineage.antt =====
-- internal/cli/cmd_lineage.go: `lineageDescendants` and `calculateLineageProgress`. The map of children
-- by their lineage is looked up by a walk over the tasks; sorting by the ID makes its order the same.
-- The percentage is left out: it is a float made from two of the counts.
use terminal_todo.Base.{
  Eq-nat, ℕ, zero, suc, true, false, List, [], ◌∷◌, ◌++◌, bytes_eq, length, select, has,
}
use terminal_todo.Base.Dict.{Dict, values}
use terminal_todo.Store.{Task, pending, in_progress, completed, blocked}
use terminal_todo.Lifecycle.Decompose.{local_uri}
use terminal_todo.Lifecycle.Prune.{sort_tasks}

unfoldable pub children_of : List Task → ℕ → List Task
unfolding sort_tasks
children_of tasks parent = sort_tasks (select (λ t. bytes_eq t.lineage (local_uri parent)) tasks)

-- The variables that the closure `walk` writes.
pub record Walk : Type 0 where
  pub visited : List ℕ
  pub result : List Task

abbrev pub visit : Task → Walk → Walk
visit child w = record { visited = child.id ∷ w.visited; result = w.result ++ child ∷ [] }

-- The loop over the children, with the walk below a child as a function.
unfoldable pub walk_each : (ℕ → Walk → Walk) → List Task → Walk → Walk
walk_each below [] w = w
walk_each below (child ∷ children) w = elim (has child.id w.visited) [
  | true ↦ walk_each below children w
  | false ↦ walk_each below children (below child.id (visit child w))
]

-- On fuel for the depth.
unfoldable pub walk : ℕ → List Task → ℕ → Walk → Walk
unfolding walk_each children_of
walk zero tasks parent w = w
walk (suc fuel) tasks parent w = walk_each (walk fuel tasks) (children_of tasks parent) w

unfoldable pub lineage_descendants : ℕ → Dict ℕ Task → List Task
unfolding walk
lineage_descendants root_id tasks =
    (walk (suc (length tasks)) (values tasks) root_id
      (record { visited = root_id ∷ []; result = [] })).result

pub record LineageProgress : Type 0 where
  pub total : ℕ
  pub pending_count : ℕ
  pub in_progress_count : ℕ
  pub completed_count : ℕ
  pub blocked_count : ℕ

-- The `switch` of one round.
abbrev pub count_status : Task → LineageProgress → LineageProgress
count_status t p = elim t.status [
  | pending ↦ record p { pending_count = suc p.pending_count }
  | in_progress ↦ record p { in_progress_count = suc p.in_progress_count }
  | completed ↦ record p { completed_count = suc p.completed_count }
  | blocked ↦ record p { blocked_count = suc p.blocked_count }
]

unfoldable pub count_progress : List Task → LineageProgress → LineageProgress
count_progress [] p = p
count_progress (t ∷ ts) p = count_progress ts (count_status t p)

unfoldable pub calculate_lineage_progress : List Task → LineageProgress
unfolding count_progress
calculate_lineage_progress tasks = count_progress tasks (record {
  total = length tasks;
  pending_count = 0;
  in_progress_count = 0;
  completed_count = 0;
  blocked_count = 0;
})
