-- ===== src/Doctor.antt =====
-- internal/cli/cmd_doctor.go: `storeInvariantProblems`. A problem is its kind and what its message
-- names. The map holds tasks, so that no entry is nil, and a status is one of the four.
pub mod Entries
pub mod Writes
pub mod Steady
use terminal_todo.Base.{
  Eq-nat, ℕ, ◌≡◌, Bool, true, false, not, ◌&&◌, ◌||◌, List, [], ◌∷◌, ◌++◌, Option, none, some,
  Bytes, nat_eq, ltb, leb, if◌then◌else◌, bytes_eq,
}
use terminal_todo.Base.Dict.{Dict, lookup, values}
use terminal_todo.Store.{Task, in_progress, completed, status_eq, TaskStore}
use terminal_todo.Dag.Uri.{parse_task_uri, parse_local_id, local_alias}
use terminal_todo.Dag.Build.{build_from_tasks, detect_cycle}
use terminal_todo.Lifecycle.Decompose.{finds_cycle}
use terminal_todo.Lifecycle.Update.{valid_priority}

pub data Problem : Type 0 where
  misfiled : ℕ → ℕ → Problem
  invalid_priority incomplete_lease stray_ownership missing_completion stray_completion :
      ℕ → Problem
  invalid_dependency : ℕ → Bytes → Problem
  missing_task : ℕ → ℕ → Problem
  low_next_id : ℕ → ℕ → Problem
  cyclic_graph : Problem

-- `if b { problems = append(problems, p) }`
abbrev pub report_if : Bool → Problem → List Problem
report_if b p = if b then p ∷ [] else []

abbrev pub is_owned : Task → Bool
is_owned t = not (bytes_eq t.owner []) || not (nat_eq t.lease_expires 0)

abbrev pub lease_problems : Task → List Problem
lease_problems t =
    if status_eq t.status in_progress
    then report_if (bytes_eq t.owner [] || nat_eq t.lease_expires 0) (incomplete_lease t.id)
    else report_if (is_owned t) (stray_ownership t.id)

-- The checks of one entry that look at nothing else.
unfoldable pub field_problems : ℕ → Task → List Problem
unfolding valid_priority
field_problems key t =
    report_if (not (nat_eq key t.id)) (misfiled key t.id)
    ++ (report_if (not (valid_priority t.priority)) (invalid_priority t.id)
        ++ (lease_problems t
            ++ (report_if (status_eq t.status completed && nat_eq t.completed_at 0)
                  (missing_completion t.id)
                ++ report_if (not (status_eq t.status completed) && not (nat_eq t.completed_at 0))
                    (stray_completion t.id))))

abbrev pub missing_local : Dict ℕ Task → ℕ → ℕ → List Problem
missing_local tasks id dep_id = elim (lookup dep_id tasks) [
  | none ↦ missing_task id dep_id ∷ []
  | some _ ↦ []
]

unfoldable pub reference_problems : Dict ℕ Task → ℕ → Bytes → List Problem
reference_problems tasks id dep = elim (parse_task_uri dep) [
  | some (repository, dep_id) ↦
      if bytes_eq repository local_alias then missing_local tasks id dep_id else []
  | none ↦ elim (parse_local_id dep) [
    | some local_id ↦ missing_local tasks id local_id
    | none ↦ invalid_dependency id dep ∷ []
  ]
]

unfoldable pub depends_problems : Dict ℕ Task → ℕ → List Bytes → List Problem
unfolding reference_problems
depends_problems tasks id [] = []
depends_problems tasks id (dep ∷ deps) =
    reference_problems tasks id dep ++ depends_problems tasks id deps

unfoldable pub entries_problems : Dict ℕ Task → Dict ℕ Task → List Problem
unfolding field_problems depends_problems
entries_problems tasks [] = []
entries_problems tasks ((k, t) ∷ m) =
    field_problems k t ++ (depends_problems tasks t.id t.depends ++ entries_problems tasks m)

-- `if task.ID > maxID { maxID = task.ID }`
unfoldable pub max_id : ℕ → List Task → ℕ
max_id best [] = best
max_id best (t ∷ ts) = max_id (if ltb best t.id then t.id else best) ts

abbrev pub next_id_problems : ℕ → ℕ → List Problem
next_id_problems next_id best =
    report_if (nat_eq next_id 0 || leb next_id best) (low_next_id next_id best)

unfoldable pub store_invariant_problems : TaskStore → List Problem
unfolding entries_problems max_id build_from_tasks detect_cycle
store_invariant_problems s =
    entries_problems s.tasks s.tasks
    ++ (next_id_problems s.next_id (max_id 0 (values s.tasks))
        ++ report_if (finds_cycle (detect_cycle (build_from_tasks s.tasks) [] 0)) cyclic_graph)
