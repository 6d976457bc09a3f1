-- ===== src/Serve/Editing.antt =====
-- internal/cli/serve.go: `handleUpdate`, `handlePrune` and `handleCompact`.
use terminal_todo.Base.{
  Eq-nat, ℕ, ◌+◌, ◌/◌, Bool, true, false, not, ◌&&◌, List, [], Option, none, some, Bytes, nat_eq,
  if◌then◌else◌, bytes_eq, length,
}
use terminal_todo.Base.Text.{codes, trim_space}
use terminal_todo.Store.{Task, TaskStore}
use terminal_todo.Store.Transaction.{load_unlocked, update}
use terminal_todo.Errors.{Result, ok, err}
use terminal_todo.Limits.{
  validate_required_persisted_string, validate_actor, validate_dependencies, validate_capabilities,
  validate_extra, max_task_title_bytes,
}
use terminal_todo.Protocol.{new_protocol_task}
use terminal_todo.Lifecycle.Update.{TaskUpdate, update_task, is_set, is_empty}
use terminal_todo.Lifecycle.Prune.{ids_of, prune_completed_tasks}
use terminal_todo.Compaction.{CompactOptions, CompactResult, compact_task_store}
use terminal_todo.Serve.{
  Checked, refused, passed, Response, failed, result, ◌>>=◌, ◌>>◌, refuse_if, accept,
  ensure_initialized, Host, positive_duration, rpc_invalid_params, rpc_store_corrupted,
}
use terminal_todo.Serve.Params.{
  UpdateParams, PruneParams, Signed, negative, natural, CompactParams, Answer, protocol_task_of,
  pruned_of, compacted_of, receipt_of,
}
use terminal_todo.Serve.Receipt.{new_mutation_receipt, new_task_mutation_receipt}
use terminal_todo.Serve.Handlers.{
  File, Handled, before, captured, on_captured, transact, transact_with, of_task,
}
use terminal_todo.Serve.Adding.{or_nil, normalized, bad_priority}

abbrev pub nothing_to_update : UpdateParams → Bool
nothing_to_update p =
    not (is_set p.title)
    && (not (is_set p.priority)
        && (not (is_set p.capabilities)
            && (is_empty p.extra && (is_empty p.add_deps && is_empty p.remove_deps))))

abbrev pub checked_title : Option Bytes → Checked (Option Bytes)
checked_title none = passed none
checked_title (some title) = do
  accept (validate_required_persisted_string (trim_space title) max_task_title_bytes)
  passed (some (trim_space title))

-- The checks of `todo.update`, up to the change that is asked for.
unfoldable pub update_checks : Bool → UpdateParams → Checked TaskUpdate
update_checks initialized p = do
  refuse_if (nat_eq p.id 0)
  refuse_if (nothing_to_update p)
  title ← checked_title p.title
  let capabilities = normalized p.capabilities
  accept (validate_actor p.actor false)
  accept (validate_capabilities (or_nil capabilities))
  accept (validate_extra p.extra)
  accept (validate_dependencies p.add_deps)
  accept (validate_dependencies p.remove_deps)
  refuse_if (bad_priority p.priority)
  ensure_initialized initialized
  passed (record {
    title = title;
    priority = p.priority;
    set_capabilities = is_set capabilities;
    capabilities = or_nil capabilities;
    extra = p.extra;
    add_deps = p.add_deps;
    remove_deps = p.remove_deps;
  })

abbrev pub checked_keep : Option Signed → Checked (Option ℕ)
checked_keep none = passed none
checked_keep (some negative) = refused rpc_invalid_params
checked_keep (some (natural n)) = passed (some n)

-- A duration in nanoseconds, as the milliseconds that a cutoff lies back: the clock stands at a whole
-- millisecond, and the cutoff is rounded down to one.
abbrev pub whole_milliseconds : ℕ → ℕ
whole_milliseconds d = (d + 999999) / 1000000

abbrev pub checked_age : Host → Bytes → Checked ℕ
checked_age h text =
    if bytes_eq text [] then passed 0 else elim (positive_duration (h.parse_duration text)) [
      | none ↦ refused rpc_invalid_params
      | some d ↦ passed (whole_milliseconds d)
    ]

-- Whether neither of the two options is given.
abbrev pub nothing_to_compact : Option ℕ → ℕ → Bool
nothing_to_compact none age = nat_eq age 0
nothing_to_compact (some keep) age = false

unfoldable pub compact_checks : Host → Bool → CompactParams → Checked CompactOptions
compact_checks h initialized p = do
  keep ← checked_keep p.keep_events
  age ← checked_age h p.receipts_before
  refuse_if (nothing_to_compact keep age)
  ensure_initialized initialized
  passed (record { keep_events = keep; receipts_before = age; dry_run = p.dry_run })

module _ (h : Host) where
  abbrev pub update_answer : Bool → ℕ → TaskStore → Response Answer
  update_answer receipt id = of_task h id λ task.
      if receipt
      then receipt_of (new_task_mutation_receipt (codes "update") task)
      else protocol_task_of (new_protocol_task task)

  unfoldable pub handle_update : Bool → UpdateParams → File h → Handled h
  unfolding update_checks
  handle_update initialized p file =
      before h (update_checks initialized p) file
        λ u. transact h (update_task p.id p.actor u h.now) (update_answer p.receipt p.id) file

  -- The mutation never fails; it returns the removed tasks.
  abbrev pub prune_mutation : TaskStore → TaskStore × Result (List Task)
  prune_mutation s = let (s', removed) = prune_completed_tasks h.now s in (s', ok removed)

  abbrev pub prune_answer : Bool → List Task → TaskStore → Response Answer
  prune_answer receipt removed s =
      if receipt
      then result (receipt_of (new_mutation_receipt (codes "prune") (ids_of removed)))
      else result (pruned_of (length removed))

  unfoldable pub handle_prune : Bool → PruneParams → File h → Handled h
  unfolding prune_completed_tasks
  handle_prune initialized p file =
      before h (ensure_initialized initialized) file
        λ _. transact_with h prune_mutation (prune_answer p.receipt) file

  abbrev pub compact_mutation : CompactOptions → TaskStore → TaskStore × Result CompactResult
  compact_mutation o s = let (s', d) = compact_task_store o true h.now s in (s', ok d)

  abbrev pub compact_answer : CompactResult → TaskStore → Response Answer
  compact_answer d s = result (compacted_of d)

  -- Each error of the transaction is answered alike.
  abbrev pub compact_answered :
      (TaskStore → Response Answer) → File h × Result TaskStore → Handled h
  compact_answered k (file, err e) = (file, failed rpc_store_corrupted)
  compact_answered k (file, ok s) = (file, k s)

  -- A preview reads the file by `store.Load`, without a reclaim.
  abbrev pub compact_preview : CompactOptions → Result TaskStore → Response Answer
  compact_preview o (err e) = failed rpc_store_corrupted
  compact_preview o (ok s) = result (compacted_of (compact_task_store o false h.now s).1)

  abbrev pub compacted_file : CompactOptions → File h → Handled h
  compacted_file o file =
      compact_answered (on_captured h (captured h (compact_mutation o) file) compact_answer)
        (update h.codec h.fault h.now (compact_mutation o) file)

  unfoldable pub handle_compact : Bool → CompactParams → File h → Handled h
  unfolding compact_checks compact_task_store
  handle_compact initialized p file = before h (compact_checks h initialized p) file λ o.
      if o.dry_run
      then (file, compact_preview o (load_unlocked h.codec file))
      else compacted_file o file
