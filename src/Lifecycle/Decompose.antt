-- ===== src/Lifecycle/Decompose.antt =====
-- internal/cli/coordination_ops.go: `decomposeTask`, and the sets of canonical references that
-- the operations on edges build. A Go set is a list without duplicates.
use terminal_todo.Base.{
  Eq-nat, Eq-bytes, ℕ, Bool, true, false, not, List, [], ◌∷◌, ◌++◌, none, some, Bytes,
  if◌then◌else◌, length, has,
}
use terminal_todo.Base.Text.{codes}
use terminal_todo.Base.Decimal.{format}
use terminal_todo.Store.{Task, pending, TaskStore, task_decomposed}
use terminal_todo.Store.Ops.{next_u64, add_task, add_event}
use terminal_todo.Dag.Uri.{task_uri, local_alias, canonical_dependency}
use terminal_todo.Dag.Search.{done, cycle, out_of_fuel}
use terminal_todo.Dag.Search as Search
use terminal_todo.Dag.Build.{build_from_tasks, detect_cycle}
use terminal_todo.Errors.{
  err_cycle_detected, persisted_input, Result, ok, err, ◌>>=◌, ◌>>◌, fail_if,
}
use terminal_todo.Limits.{validate_projected_cardinality, max_task_dependencies}
use terminal_todo.Lifecycle.Guards.{require_task, require_owner, require_not_completed}
use terminal_todo.Lifecycle.Leases.{write}

-- A reference that this build cannot read is kept as it is.
unfoldable pub canonical_or_self : Bytes → Bytes
unfolding canonical_dependency
canonical_or_self dep = elim (canonical_dependency dep) [ none ↦ dep | some c ↦ c ]

abbrev pub add_to_set : Bytes → List Bytes → List Bytes
add_to_set x xs = if has x xs then xs else x ∷ xs

unfoldable pub canonical_set : List Bytes → List Bytes
unfolding canonical_or_self
canonical_set [] = []
canonical_set (dep ∷ deps) = add_to_set (canonical_or_self dep) (canonical_set deps)

abbrev pub finds_cycle : Search.Outcome → Bool
finds_cycle (cycle p) = true
finds_cycle (done w) = false
finds_cycle out_of_fuel = false

pub record DecomposeSubtask : Type 0 where
  pub title : Bytes
  pub capabilities : List Bytes

abbrev pub local_uri : ℕ → Bytes
local_uri id = task_uri local_alias id

-- The references to children that are not there yet.
unfoldable pub reserve : ℕ → List DecomposeSubtask → List Bytes
reserve next_id [] = []
reserve next_id (sub ∷ subs) = local_uri next_id ∷ reserve (next_u64 next_id) subs

abbrev pub projected_deps : Task → ℕ → List DecomposeSubtask → List Bytes
projected_deps parent next_id subs = canonical_set parent.depends ++ reserve next_id subs

unfoldable pub decompose_guards : ℕ → Bytes → List DecomposeSubtask → TaskStore → Result Task
unfolding require_task require_not_completed require_owner canonical_set reserve
decompose_guards parent_id actor subtasks s = do
  parent ← require_task parent_id s
  require_not_completed parent
  require_owner parent actor
  fail_if
      (not (
        validate_projected_cardinality (length (canonical_set parent.depends))
          (length (projected_deps parent s.next_id subtasks)) max_task_dependencies))
      persisted_input
  fail_if
      (finds_cycle (
        detect_cycle (build_from_tasks s.tasks) (projected_deps parent s.next_id subtasks)
          parent_id))
      err_cycle_detected
  ok parent

abbrev pub set_child : List Bytes → ℕ → Task → Task
set_child capabilities parent_id t = record t {
  capabilities = capabilities;
  lineage = local_uri parent_id;
}

abbrev pub append_depend : ℕ → Task → Task
append_depend child t = record t { depends = t.depends ++ local_uri child ∷ [] }

-- One round of the loop over the subtasks. The child is `s.next_id`.
unfoldable pub add_child : ℕ → ℕ → DecomposeSubtask → TaskStore → TaskStore
unfolding add_task
add_child now parent_id sub s =
    write parent_id (append_depend s.next_id)
      (write s.next_id (set_child sub.capabilities parent_id) (add_task now sub.title [] s))

unfoldable pub add_children : ℕ → ℕ → List DecomposeSubtask → TaskStore → TaskStore × List ℕ
unfolding add_child
add_children now parent_id [] s = (s, [])
add_children now parent_id (sub ∷ subs) s =
    let (s', added) = add_children now parent_id subs (add_child now parent_id sub s) in
    (s', s.next_id ∷ added)

abbrev pub reset_parent : Task → Task
reset_parent t = record t { status = pending; owner = []; lease_expires = 0; block_reason = [] }

-- The store, and the parent's and the children's IDs.
unfoldable pub decompose_task :
    ℕ → Bytes → List DecomposeSubtask → ℕ → TaskStore → TaskStore × Result (ℕ × List ℕ)
unfolding decompose_guards add_children
decompose_task parent_id actor subtasks now s = elim (decompose_guards parent_id actor subtasks s) [
  | err e ↦ (s, err e)
  | ok _ ↦
      let (s', added) = add_children now parent_id subtasks s in
      (
        add_event now task_decomposed parent_id actor
            ((codes "count", format (length subtasks)) ∷ []) (write parent_id reset_parent s'),
        ok (parent_id, added),
      )
]
