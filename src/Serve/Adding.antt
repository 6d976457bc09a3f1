-- ===== src/Serve/Adding.antt =====
-- internal/cli/serve.go: `handleAdd` and `handleDecompose`, the requests that create tasks; and
-- `normalizeCapabilities` of internal/cli/cmd_update.go.
use terminal_todo.Base.{
  Eq-nat, ℕ, Bool, false, not, List, [], ◌∷◌, Option, none, some, Bytes, nat_eq, ltb, if◌then◌else◌,
  bytes_eq, length,
}
use terminal_todo.Base.Text.{codes, trim_space, split}
use terminal_todo.Store.{Task, TaskStore}
use terminal_todo.Store.Ops.{get_task}
use terminal_todo.Errors.{unclassified}
use terminal_todo.Limits.{
  validate_required_persisted_string, validate_actor, validate_dependencies, validate_capabilities,
  validate_tags, normalize_persisted_values, max_task_title_bytes,
}
use terminal_todo.Protocol.{ProtocolTask, new_protocol_task}
use terminal_todo.Lifecycle.Create.{NewTask, create_task}
use terminal_todo.Lifecycle.Update.{valid_priority}
use terminal_todo.Lifecycle.Decompose.{DecomposeSubtask, decompose_task}
use terminal_todo.Compaction.{max_mutation_receipt_ids}
use terminal_todo.Serve.{
  Checked, passed, Response, result, ◌>>=◌, ◌>>◌, refuse_if, accept, ensure_initialized, Host,
  ProjectConfig,
}
use terminal_todo.Serve.Params.{AddParams, DecomposeParams, Answer, added, decomposed, receipt_of}
use terminal_todo.Serve.Receipt.{
  MutationReceipt, new_mutation_receipt, new_mutation_task_reference, task_detail_follow_up,
  lineage_detail_follow_up,
}
use terminal_todo.Serve.Handlers.{File, Handled, before, transact_with, of_task}

-- A nil slice reads as an empty one.
abbrev pub or_nil : Option (List Bytes) → List Bytes
or_nil none = []
or_nil (some values) = values

-- `normalizePersistedValues` keeps a nil slice nil.
abbrev pub normalized : Option (List Bytes) → Option (List Bytes)
normalized none = none
normalized (some values) = some (normalize_persisted_values values)

-- Whether a priority is given and out of range.
abbrev pub bad_priority : Option ℕ → Bool
bad_priority none = false
bad_priority (some p) = not (valid_priority p)

-- The loop keeps the first of equal pieces that are not blank.
unfoldable pub normalize_capabilities : Bytes → List Bytes
normalize_capabilities value = normalize_persisted_values (split b',' value)

abbrev pub default_priority : Option ProjectConfig → Option ℕ → ℕ
default_priority cfg (some p) = p
default_priority (some cfg) none = cfg.default_priority
default_priority none none = 0

abbrev pub default_capabilities : Option ProjectConfig → Option (List Bytes) → List Bytes
default_capabilities cfg (some values) = values
default_capabilities none none = []
default_capabilities (some cfg) none =
    if bytes_eq cfg.default_caps [] then [] else normalize_capabilities cfg.default_caps

-- The checks of `todo.add`, up to the task that is asked for.
unfoldable pub add_checks : Host → Bool → AddParams → Checked NewTask
unfolding normalize_capabilities
add_checks h initialized p = do
  let title = trim_space p.title
  let caps = normalized p.capabilities
  let tags = normalize_persisted_values p.tags
  accept (validate_required_persisted_string title max_task_title_bytes)
  accept (validate_dependencies p.after)
  accept (validate_capabilities (or_nil caps))
  accept (validate_tags tags)
  refuse_if (bad_priority p.priority)
  ensure_initialized initialized
  let capabilities = default_capabilities h.load_config caps
  accept (validate_capabilities capabilities)
  passed (record {
    title = title;
    after = p.after;
    priority = default_priority h.load_config p.priority;
    capabilities = capabilities;
    tags = tags;
  })

abbrev pub add_receipt : ℕ → MutationReceipt
add_receipt id = record (new_mutation_receipt (codes "add") (id ∷ [])) {
  task = some (record { id = id; status = codes "pending"; lease_expires = none; retry_count = 0 });
  detail_follow_up = task_detail_follow_up id;
}

abbrev pub add_answer : Bool → Bytes → ℕ → TaskStore → Response Answer
add_answer receipt title id s =
    if receipt then result (receipt_of (add_receipt id)) else result (added id title)

-- The subtasks as the loop of checks rewrites them.
unfoldable pub checked_subtasks : List DecomposeSubtask → Checked (List DecomposeSubtask)
checked_subtasks [] = passed []
checked_subtasks (sub ∷ subs) = do
  let title = trim_space sub.title
  let capabilities = normalize_persisted_values sub.capabilities
  accept (validate_required_persisted_string title max_task_title_bytes)
  accept (validate_capabilities capabilities)
  rest ← checked_subtasks subs
  passed (record { title = title; capabilities = capabilities } ∷ rest)

unfoldable pub decompose_checks : Bool → DecomposeParams → Checked (List DecomposeSubtask)
unfolding checked_subtasks
decompose_checks initialized p = do
  refuse_if (nat_eq p.id 0)
  refuse_if (nat_eq (length p.subtasks) 0)
  refuse_if (ltb max_mutation_receipt_ids (length p.subtasks))
  accept (validate_actor p.actor false)
  subtasks ← checked_subtasks p.subtasks
  ensure_initialized initialized
  passed subtasks

-- The children, through the pointers that the mutation returned.
unfoldable pub protocol_tasks_at : List ℕ → TaskStore → Option (List ProtocolTask)
unfolding get_task
protocol_tasks_at [] s = some []
protocol_tasks_at (id ∷ ids) s =
    let rest = protocol_tasks_at ids s in
    elim (get_task id s) [
      | none ↦ none
      | some task ↦ elim rest [ none ↦ none | some ts ↦ some (new_protocol_task task ∷ ts) ]
    ]

abbrev pub decompose_receipt : Task → List ℕ → MutationReceipt
decompose_receipt parent ids = record (new_mutation_receipt (codes "decompose") ids) {
  task = some (new_mutation_task_reference parent);
  detail_follow_up = lineage_detail_follow_up parent.id;
}

module _ (h : Host) where
  unfoldable pub handle_add : Bool → AddParams → File h → Handled h
  unfolding add_checks
  handle_add initialized p file = before h (add_checks h initialized p) file λ task.
      transact_with h (create_task unclassified task h.now) (add_answer p.receipt task.title) file

  abbrev pub decompose_answer : Bool → ℕ × List ℕ → TaskStore → Response Answer
  decompose_answer receipt (parent_id, ids) s = elim (protocol_tasks_at ids s) [
    | none ↦ Response.crashed
    | some subtasks ↦
        of_task h parent_id
          (λ parent.
            if receipt
            then receipt_of (decompose_receipt parent ids)
            else decomposed (new_protocol_task parent) subtasks)
          s
  ]

  unfoldable pub handle_decompose : Bool → DecomposeParams → File h → Handled h
  unfolding decompose_checks
  handle_decompose initialized p file = before h (decompose_checks initialized p) file λ subtasks.
      transact_with h (decompose_task p.id p.actor subtasks h.now) (decompose_answer p.receipt) file
