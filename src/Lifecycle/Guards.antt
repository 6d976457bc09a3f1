-- ===== src/Lifecycle/Guards.antt =====
-- internal/cli/coordination_errors.go: the shared guards. `now` is `now.UnixMilli()`.
use terminal_todo.Base.{
  Eq-nat, ℕ, not, ◌&&◌, ◌||◌, [], none, some, Bytes, nat_eq, ltb, leb, bytes_eq,
}
use terminal_todo.Base.Dict.{Dict}
use terminal_todo.Store.{Task, TaskStatus, in_progress, completed, blocked, status_eq, TaskStore}
use terminal_todo.Store.Ops.{get_task}
use terminal_todo.Dag.Ready.{Resolver, dependencies_complete}
use terminal_todo.Errors.{
  err_task_not_found, err_already_claimed, err_not_owner, err_dependency, err_invalid_transition,
  err_lease_not_active, err_lease_task_not_found, err_lease_not_owner, Result, ok, err, ◌>>◌,
  fail_if,
}

unfoldable pub require_task : ℕ → TaskStore → Result Task
unfolding get_task
require_task id s = elim (get_task id s) [ none ↦ err err_task_not_found | some t ↦ ok t ]

unfoldable pub require_owner : Task → Bytes → Result (Unit {0})
require_owner task actor =
    fail_if (not (bytes_eq task.owner []) && not (bytes_eq task.owner actor)) err_not_owner

unfoldable pub require_dependencies_complete : Task → Dict ℕ Task → Resolver → Result (Unit {0})
require_dependencies_complete task tasks resolver =
    fail_if (not (dependencies_complete task tasks resolver)) err_dependency

unfoldable pub require_in_progress : Task → Result (Unit {0})
require_in_progress task = fail_if (not (status_eq task.status in_progress)) err_lease_not_active

abbrev claimable : TaskStatus → Result (Unit {0})
claimable completed = err err_invalid_transition
claimable blocked = err err_dependency
claimable _ = ok tt

unfoldable pub require_claimable_status : Task → Result (Unit {0})
require_claimable_status task = claimable task.status

unfoldable pub require_lease_available : Task → Bytes → ℕ → Result (Unit {0})
require_lease_available task actor now =
    fail_if
      (not (bytes_eq task.owner [])
        && (not (bytes_eq task.owner actor) && ltb now task.lease_expires))
      err_already_claimed

unfoldable pub require_not_completed : Task → Result (Unit {0})
require_not_completed task = fail_if (status_eq task.status completed) err_invalid_transition

-- The checks that `renewLease` and `handoffTask` share.
unfoldable pub require_live_lease : ℕ → Bytes → ℕ → TaskStore → Result Task
unfolding get_task
require_live_lease id actor now s = elim (get_task id s) [
  | none ↦ err err_lease_task_not_found
  | some task ↦ do
    fail_if
        (not (status_eq task.status in_progress)
          || (bytes_eq task.owner []
              || (nat_eq task.lease_expires 0 || leb task.lease_expires now)))
        err_lease_not_active
    fail_if (not (bytes_eq task.owner actor)) err_lease_not_owner
    ok task
]
