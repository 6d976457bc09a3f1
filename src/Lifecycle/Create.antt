-- ===== src/Lifecycle/Create.antt =====
-- internal/cli/serve.go and cmd_add.go: the transaction in which `handleAdd` and `cmdAdd` create a task.
use terminal_todo.Base.{Eq-nat, ℕ, List, [], ◌∷◌, none, some, Bytes}
use terminal_todo.Base.Text.{codes}
use terminal_todo.Base.Dict.{Dict, lookup}
use terminal_todo.Store.{Task, TaskStore, task_created}
use terminal_todo.Store.Ops.{add_task, add_event}
use terminal_todo.Dag.Uri.{parse_local_id, parse_task_uri}
use terminal_todo.Dag.Build.{build_from_tasks, detect_cycle}
use terminal_todo.Errors.{
  Error, err_task_not_found, persisted_input, Result, ok, err, ◌>>=◌, ◌>>◌, fail_if,
}
use terminal_todo.Lifecycle.Leases.{Outcome, guarded, write}
use terminal_todo.Lifecycle.Decompose.{finds_cycle, local_uri}

-- What a caller asks for, validated. The priority is the bit pattern of a `float32`.
pub record NewTask : Type 0 where
  pub title : Bytes
  pub after : List Bytes
  pub priority : ℕ
  pub capabilities : List Bytes
  pub tags : List Bytes

-- One reference, as it is stored.
unfoldable pub final_dep : Bytes → Dict ℕ Task → Result Bytes
final_dep dep tasks = elim (parse_local_id dep) [
  | some dep_id ↦ elim (lookup dep_id tasks) [
    | none ↦ err err_task_not_found
    | some _ ↦ ok (local_uri dep_id)
  ]
  | none ↦ elim (parse_task_uri dep) [ none ↦ err persisted_input | some _ ↦ ok dep ]
]

unfoldable pub final_deps : List Bytes → Dict ℕ Task → Result (List Bytes)
unfolding final_dep
final_deps [] tasks = ok []
final_deps (dep ∷ deps) tasks = do
  final ← final_dep dep tasks
  rest ← final_deps deps tasks
  ok (final ∷ rest)

-- `on_cycle` is what a cycle is returned as: `cmdAdd` wraps `errCycleDetected`, `handleAdd` does not.
unfoldable pub create_guards : Error → NewTask → TaskStore → Result (List Bytes)
unfolding final_deps
create_guards on_cycle p s = do
  deps ← final_deps p.after s.tasks
  fail_if (finds_cycle (detect_cycle (build_from_tasks s.tasks) deps s.next_id)) on_cycle
  ok deps

abbrev pub fill_in : NewTask → Task → Task
fill_in p t = record t { priority = p.priority; capabilities = p.capabilities; tags = p.tags }

-- The new task is at the old `next_id`.
unfoldable pub create_task : Error → NewTask → ℕ → TaskStore → Outcome
unfolding create_guards add_task
create_task on_cycle p now s = guarded s (create_guards on_cycle p s) λ deps. (
  add_event now task_created s.next_id [] ((codes "title", p.title) ∷ [])
      (write s.next_id (fill_in p) (add_task now p.title deps s)),
  ok s.next_id,
)
