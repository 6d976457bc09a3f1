-- ===== src/Lifecycle/Leases.antt =====
-- internal/cli/coordination_ops.go, lease.go and handoff.go: `claimTask`, `completeTask`,
-- `releaseTask`, `blockTask`, `unblockTask`, `logTask`, `renewLease` and `handoffTask`. A `*Task`
-- is the ID at which the store holds it; the result pairs the store after the call with it. A
-- `time.Duration` is in nanoseconds and positive, as the callers demand.
use terminal_todo.Base.{
  Eq-nat, Eq-bytes, ℕ, ◌+◌, ◌/◌, ◌%◌, ◌^◌, not, [], ◌∷◌, ◌++◌, Bytes, if◌then◌else◌, bytes_eq,
  length,
}
use terminal_todo.Base.Decimal.{u64_mod}
use terminal_todo.Base.Text.{codes}
use terminal_todo.Base.Time.{duration_string, timestamp_string}
use terminal_todo.Base.Dict.{Dict, insert, modify}
use terminal_todo.Store.{
  Task, pending, in_progress, completed, blocked, status_eq, TaskStore, task_claimed,
  task_completed, task_released, task_blocked, task_unblocked, task_updated, lease_renewed,
}
use terminal_todo.Store.Ops.{add_event, add_log}
use terminal_todo.Dag.Ready.{Resolver}
use terminal_todo.Errors.{
  err_invalid_transition, persisted_input, Result, ok, err, ◌>>=◌, ◌>>◌, fail_if,
}
use terminal_todo.Limits.{
  validate_projected_cardinality, projected_extra_count, max_task_extra_entries,
}
use terminal_todo.Lifecycle.Guards.{
  require_task, require_owner, require_dependencies_complete, require_in_progress,
  require_claimable_status, require_lease_available, require_not_completed, require_live_lease,
}

-- The store after an operation, and the task pointer or the error that it returns.
abbrev pub Outcome : Type 0
Outcome = TaskStore × Result ℕ

-- An operation whose guards all stand before its first write.
abbrev pub guarded {ℓ} : {A : Type ℓ} → TaskStore → Result A → (A → Outcome) → Outcome
guarded s (err e) body = (s, err e)
guarded s (ok a) body = body a

-- Writes through the task's pointer.
abbrev pub write : ℕ → (Task → Task) → TaskStore → TaskStore
write id f s = record s { tasks = modify id f s.tasks }

abbrev pub logged : ℕ → ℕ → Bytes → Bytes → TaskStore → TaskStore
logged now id actor message s = (add_log now id actor message s).0

-- `now + uint64(ttl.Milliseconds())`.
abbrev pub lease_end : ℕ → ℕ → ℕ
lease_end now ttl = (now + ttl / 1000000) % u64_mod

unfoldable pub claim_guards : ℕ → Bytes → Resolver → ℕ → TaskStore → Result Task
unfolding require_task require_claimable_status require_dependencies_complete
    require_lease_available
claim_guards id actor resolver now s = do
  task ← require_task id s
  require_claimable_status task
  require_dependencies_complete task s.tasks resolver
  require_lease_available task actor now
  ok task

abbrev pub lease_to : Bytes → ℕ → Task → Task
lease_to actor expires t = record t { owner = actor; status = in_progress; lease_expires = expires }

unfoldable pub claim_task : ℕ → Bytes → ℕ → Resolver → ℕ → TaskStore → Outcome
unfolding claim_guards
claim_task id actor ttl resolver now s = guarded s (claim_guards id actor resolver now s) λ _. (
  add_event now task_claimed id actor ((codes "ttl", duration_string ttl) ∷ [])
      (logged now id actor (codes "claimed") (write id (lease_to actor (lease_end now ttl)) s)),
  ok id,
)

unfoldable pub complete_guards : ℕ → Bytes → Resolver → TaskStore → Result Task
unfolding require_task require_not_completed require_dependencies_complete require_owner
complete_guards id actor resolver s = do
  task ← require_task id s
  require_not_completed task
  require_dependencies_complete task s.tasks resolver
  require_owner task actor
  ok task

abbrev pub finish : ℕ → Task → Task
finish now t = record t {
  status = completed;
  completed_at = now;
  owner = [];
  lease_expires = 0;
  block_reason = [];
}

unfoldable pub complete_task : ℕ → Bytes → Resolver → ℕ → TaskStore → Outcome
unfolding complete_guards
complete_task id actor resolver now s =
    guarded s (complete_guards id actor resolver s)
      λ _. (add_event now task_completed id actor [] (write id (finish now) s), ok id)

unfoldable pub release_guards : ℕ → Bytes → TaskStore → Result Task
unfolding require_task require_in_progress require_owner
release_guards id actor s = do
  task ← require_task id s
  require_in_progress task
  require_owner task actor
  ok task

abbrev pub yield_lease : Task → Task
yield_lease t = record t { owner = []; lease_expires = 0; status = pending }

-- `RetryCount++` on a `uint32`.
abbrev pub count_retry : Task → Task
count_retry t = record t { retry_count = (t.retry_count + 1) % 2 ^ 32 }

abbrev pub note_error : Bytes → Task → Task
note_error failure t = record t { last_error = failure }

abbrev pub release_log : ℕ → ℕ → Bytes → Bytes → TaskStore → TaskStore
release_log now id actor failure s =
    if bytes_eq failure []
    then logged now id actor (codes "released") s
    else logged now id actor (codes "released with error: " ++ failure)
        (write id (note_error failure) s)

unfoldable pub release_task : ℕ → Bytes → Bytes → ℕ → TaskStore → Outcome
unfolding release_guards
release_task id actor failure now s = guarded s (release_guards id actor s) λ _. (
  write id yield_lease (
      add_event now task_released id actor
        (if bytes_eq failure [] then [] else (codes "error", failure) ∷ [])
        (release_log now id actor failure (write id count_retry s))),
  ok id,
)

unfoldable pub block_guards : ℕ → Bytes → TaskStore → Result Task
unfolding require_task require_not_completed require_owner
block_guards id actor s = do
  task ← require_task id s
  require_not_completed task
  require_owner task actor
  ok task

abbrev pub block_for : Bytes → Task → Task
block_for reason t = record t {
  status = blocked;
  block_reason = reason;
  owner = [];
  lease_expires = 0;
}

unfoldable pub block_task : ℕ → Bytes → Bytes → ℕ → TaskStore → Outcome
unfolding block_guards
block_task id actor reason now s = guarded s (block_guards id actor s) λ _. (
  add_event now task_blocked id actor ((codes "reason", reason) ∷ [])
      (logged now id actor (codes "blocked: " ++ reason) (write id (block_for reason) s)),
  ok id,
)

unfoldable pub unblock_guards : ℕ → TaskStore → Result Task
unfolding require_task
unblock_guards id s = do
  task ← require_task id s
  fail_if (not (status_eq task.status blocked)) err_invalid_transition
  ok task

abbrev pub reopen : Task → Task
reopen t = record t { status = pending; block_reason = []; owner = []; lease_expires = 0 }

unfoldable pub unblock_task : ℕ → Bytes → ℕ → TaskStore → Outcome
unfolding unblock_guards
unblock_task id actor now s = guarded s (unblock_guards id s) λ _. (
  add_event now task_unblocked id actor []
      (logged now id actor (codes "unblocked") (write id reopen s)),
  ok id,
)

unfoldable pub log_guards : ℕ → Bytes → TaskStore → Result Task
unfolding require_task require_owner
log_guards id actor s = do task ← require_task id s; require_owner task actor; ok task

unfoldable pub log_task : ℕ → Bytes → Bytes → ℕ → TaskStore → Outcome
unfolding log_guards
log_task id actor message now s =
    guarded s (log_guards id actor s) λ _. (logged now id actor message s, ok id)

abbrev pub extend_lease : ℕ → Task → Task
extend_lease expires t = record t { lease_expires = expires }

unfoldable pub renew_lease : ℕ → Bytes → ℕ → ℕ → TaskStore → Outcome
unfolding require_live_lease
renew_lease id actor ttl now s = guarded s (require_live_lease id actor now s) λ task. (
  add_event now lease_renewed id actor
      ((codes "ttl", duration_string ttl)
        ∷ (codes "previous_expires", timestamp_string task.lease_expires)
        ∷ [])
      (write id (extend_lease (lease_end now ttl)) s),
  ok id,
)

-- `for key, value := range extra { task.Extra[key] = value }`
unfoldable pub merge_extra : Dict Bytes Bytes → Dict Bytes Bytes → Dict Bytes Bytes
merge_extra current [] = current
merge_extra current ((key, value) ∷ updates) = merge_extra (insert key value current) updates

abbrev pub add_extra : Dict Bytes Bytes → Task → Task
add_extra extra t = record t { extra = merge_extra t.extra extra }

unfoldable pub handoff_guards : ℕ → Bytes → Dict Bytes Bytes → ℕ → TaskStore → Result Task
unfolding require_live_lease
handoff_guards id actor extra now s = do
  task ← require_live_lease id actor now s
  fail_if
      (not (
        validate_projected_cardinality (length task.extra) (projected_extra_count task.extra extra)
          max_task_extra_entries))
      persisted_input
  ok task

unfoldable pub handoff_task : ℕ → Bytes → Dict Bytes Bytes → ℕ → TaskStore → Outcome
unfolding handoff_guards
handoff_task id actor extra now s = guarded s (handoff_guards id actor extra now s) λ _. (
  write id yield_lease (
      add_event now task_released id actor ((codes "handoff", codes "true") ∷ []) (
        logged now id actor (codes "handed off with structured context") (
          add_event now task_updated id actor ((codes "source", codes "handoff") ∷ [])
            (write id (add_extra extra) s)))),
  ok id,
)
