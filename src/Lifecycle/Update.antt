-- ===== src/Lifecycle/Update.antt =====
-- internal/cli/coordination_ops.go: `updateTask` and `applyDependencyEdits`; and
-- internal/cli/priority.go. The store is passed on when an error is returned too, since
-- `updateTask` writes before its last checks.
use terminal_todo.Base.{
  Eq-nat, Eq-bytes, ℕ, ◌+◌, ◌-◌, ◌%◌, ◌^◌, Bool, true, false, not, ◌&&◌, ◌||◌, List, [], ◌∷◌,
  Option, none, some, Bytes, nat_eq, ltb, leb, if◌then◌else◌, bytes_eq, length, has, remove,
}
use terminal_todo.Base.Text.{codes, trim_space}
use terminal_todo.Base.Dict.{Dict, lookup, modify}
use terminal_todo.Store.{
  Task, TaskStore, EventType, task_updated, dependency_added, dependency_removed,
}
use terminal_todo.Store.Ops.{add_event}
use terminal_todo.Dag.Uri.{parse_local_id, canonical_dependency}
use terminal_todo.Dag.Build.{build_from_tasks, detect_cycle}
use terminal_todo.Errors.{
  invalid_args, err_task_not_found, err_cycle_detected, command_error, persisted_input, Result, ok,
  err, ◌>>=◌, ◌>>◌, fail_if,
}
use terminal_todo.Limits.{
  validate_projected_cardinality, projected_extra_count, max_task_dependencies,
  max_task_extra_entries,
}
use terminal_todo.Lifecycle.Guards.{require_task, require_owner}
use terminal_todo.Lifecycle.Leases.{write, Outcome, add_extra}
use terminal_todo.Lifecycle.Decompose.{canonical_set, finds_cycle}

-- The removals: each names an edge of the set, and is made once.
unfoldable pub remove_deps : List Bytes → List Bytes → List Bytes → Result (List Bytes)
unfolding canonical_dependency
remove_deps seen dep_set [] = ok dep_set
remove_deps seen dep_set (dep ∷ deps) = elim (canonical_dependency dep) [
  | none ↦ err persisted_input
  | some canonical ↦ elim (has canonical seen) [
    | true ↦ remove_deps seen dep_set deps
    | false ↦ elim (has canonical dep_set) [
      | false ↦ err err_task_not_found
      | true ↦ remove_deps (canonical ∷ seen) (remove canonical dep_set) deps
    ]
  ]
]

-- Whether a reference to a local task has none to refer to.
abbrev pub dangles : Bytes → Dict ℕ Task → Bool
dangles canonical tasks = elim (parse_local_id canonical) [
  | none ↦ false
  | some id ↦ elim (lookup id tasks) [ none ↦ true | some _ ↦ false ]
]

unfoldable pub add_deps : Dict ℕ Task → List Bytes → List Bytes → Result (List Bytes)
unfolding canonical_dependency
add_deps tasks dep_set [] = ok dep_set
add_deps tasks dep_set (dep ∷ deps) = elim (canonical_dependency dep) [
  | none ↦ err persisted_input
  | some canonical ↦ elim (has canonical dep_set) [
    | true ↦ add_deps tasks dep_set deps
    | false ↦ elim (dangles canonical tasks) [
      | true ↦ err err_task_not_found
      | false ↦ add_deps tasks (canonical ∷ dep_set) deps
    ]
  ]
]

-- `<=` on Go strings.
unfoldable pub bytes_leb : Bytes → Bytes → Bool
bytes_leb [] ys = true
bytes_leb (x ∷ xs) [] = false
bytes_leb (x ∷ xs) (y ∷ ys) = ltb x y || (nat_eq x y && bytes_leb xs ys)

unfoldable pub insert_string : Bytes → List Bytes → List Bytes
unfolding bytes_leb
insert_string x [] = x ∷ []
insert_string x (y ∷ ys) = if bytes_leb x y then x ∷ y ∷ ys else y ∷ insert_string x ys

-- `sort.Strings`
unfoldable pub sort_strings : List Bytes → List Bytes
unfolding insert_string
sort_strings [] = []
sort_strings (x ∷ xs) = insert_string x (sort_strings xs)

-- One event for each reference of the first list that the second lacks.
unfoldable pub edge_events :
    ℕ → EventType → ℕ → Bytes → List Bytes → List Bytes → TaskStore → TaskStore
unfolding add_event
edge_events now type id actor [] others s = s
edge_events now type id actor (dep ∷ deps) others s =
    edge_events now type id actor deps others
      (if has dep others then s else add_event now type id actor ((codes "dep", dep) ∷ []) s)

abbrev pub set_depends : List Bytes → Task → Task
set_depends deps t = record t { depends = deps }

-- What the edited task is to depend on. All checks stand here, before any write.
unfoldable pub edited_deps : ℕ → Task → List Bytes → List Bytes → TaskStore → Result (List Bytes)
unfolding canonical_set remove_deps add_deps sort_strings
edited_deps id task add remove_list s = do
  removed ← remove_deps [] (canonical_set task.depends) remove_list
  dep_set ← add_deps s.tasks removed add
  fail_if
      (not (
        validate_projected_cardinality (length task.depends) (length dep_set)
          max_task_dependencies))
      persisted_input
  fail_if
      (finds_cycle (
        detect_cycle (build_from_tasks (modify id (set_depends (sort_strings dep_set)) s.tasks)) []
          task.id))
      err_cycle_detected
  ok (sort_strings dep_set)

unfoldable pub apply_dependency_edits :
    ℕ → Task → Bytes → List Bytes → List Bytes → ℕ → TaskStore → TaskStore × Result (Unit {0})
unfolding edited_deps edge_events
apply_dependency_edits id task actor add remove_list now s =
    elim (edited_deps id task add remove_list s) [
      | err e ↦ (s, err e)
      | ok new_deps ↦
          let old = canonical_set task.depends in
          (
            write id (set_depends new_deps) (
                edge_events now dependency_removed task.id actor old new_deps
                  (edge_events now dependency_added task.id actor new_deps old s)),
            ok tt,
          )
    ]

-- The order of `float32` values, on their bit patterns: both zeros are in the middle.
abbrev pub float_key : ℕ → ℕ
float_key b = if ltb b (2 ^ 31) then 2 ^ 31 + b else 2 ^ 32 - b

abbrev pub is_nan : ℕ → Bool
is_nan b = ltb 0x7F800000 (b % 2 ^ 31)

-- `value >= 0 && value <= 1`, with neither a NaN nor an infinity.
unfoldable pub valid_priority : ℕ → Bool
valid_priority b =
    not (is_nan b) && (leb (2 ^ 31) (float_key b) && leb (float_key b) (2 ^ 31 + 0x3F800000))

-- `none` is a nil pointer.
pub record TaskUpdate : Type 0 where
  pub title : Option Bytes
  pub priority : Option ℕ
  pub set_capabilities : Bool
  pub capabilities : List Bytes
  pub extra : Dict Bytes Bytes
  pub add_deps : List Bytes
  pub remove_deps : List Bytes

-- One part of an operation behind another; an error keeps what was written.
abbrev pub and_then {ℓ κ} :
    {A : Type ℓ} {B : Type κ}
    → TaskStore × Result A
    → (TaskStore → TaskStore × Result B)
    → TaskStore × Result B
and_then (s, ok a) f = f s
and_then (s, err e) f = (s, err e)

abbrev pub is_empty {ℓ} : {A : Type ℓ} → List A → Bool
is_empty [] = true
is_empty (x ∷ xs) = false

unfoldable pub edit_edges :
    ℕ → Task → Bytes → TaskUpdate → ℕ → TaskStore → TaskStore × Result (Unit {0})
unfolding apply_dependency_edits
edit_edges id task actor u now s =
    if is_empty u.add_deps && is_empty u.remove_deps
    then (s, ok tt)
    else apply_dependency_edits id task actor u.add_deps u.remove_deps now s

abbrev pub set_title : Bytes → Task → Task
set_title title t = record t { title = title }

abbrev pub set_priority : ℕ → Task → Task
set_priority p t = record t { priority = p }

abbrev pub set_caps : List Bytes → Task → Task
set_caps caps t = record t { capabilities = caps }

unfoldable pub edit_title : ℕ → Option Bytes → TaskStore → TaskStore × Result (Unit {0})
edit_title id none s = (s, ok tt)
edit_title id (some title) s =
    if bytes_eq (trim_space title) []
    then (s, err (command_error invalid_args))
    else (write id (set_title (trim_space title)) s, ok tt)

unfoldable pub edit_priority : ℕ → Option ℕ → TaskStore → TaskStore × Result (Unit {0})
unfolding valid_priority
edit_priority id none s = (s, ok tt)
edit_priority id (some p) s =
    if not (valid_priority p)
    then (s, err (command_error invalid_args))
    else (write id (set_priority p) s, ok tt)

unfoldable pub edit_capabilities : ℕ → Bool → List Bytes → TaskStore → TaskStore × Result (Unit {0})
edit_capabilities id change caps s = (if change then write id (set_caps caps) s else s, ok tt)

-- The size is that of the task as the store holds it; no part above changed it.
unfoldable pub edit_extra : ℕ → Task → Dict Bytes Bytes → TaskStore → TaskStore × Result (Unit {0})
edit_extra id task extra s =
    if validate_projected_cardinality (length task.extra) (projected_extra_count task.extra extra)
      max_task_extra_entries
    then (write id (add_extra extra) s, ok tt)
    else (s, err persisted_input)

abbrev pub is_set {ℓ} : {A : Type ℓ} → Option A → Bool
is_set none = false
is_set (some a) = true

abbrev pub changes_metadata : TaskUpdate → Bool
changes_metadata u =
    is_set u.title || (is_set u.priority || (u.set_capabilities || not (is_empty u.extra)))

unfoldable pub update_task : ℕ → Bytes → TaskUpdate → ℕ → TaskStore → Outcome
unfolding edit_edges edit_title edit_priority edit_capabilities edit_extra require_task
    require_owner
update_task id actor u now s =
    elim (do task ← require_task id s; require_owner task actor; ok task) [
      | err e ↦ (s, err e)
      | ok task ↦ and_then (edit_edges id task actor u now s) λ s1.
          and_then (edit_title id u.title s1) λ s2. and_then (edit_priority id u.priority s2) λ s3.
            and_then (edit_capabilities id u.set_capabilities u.capabilities s3) λ s4.
              and_then (edit_extra id task u.extra s4) λ s5. (
                if changes_metadata u then add_event now task_updated task.id actor [] s5 else s5,
                ok id,
              )
    ]
