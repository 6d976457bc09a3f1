-- ===== src/Dag/Ready.antt =====
-- dag/dag.go: `DependenciesCompleteWithResolver`, `GetReadyTasksWithResolver` and
-- `GetBlockedTasksWithResolver`. A nil resolver is `none`; a task pointer is the task.
use terminal_todo.Base.{
  Eq-nat, ℕ, ◌≡◌, refl, Bool, true, false, not, ◌&&◌, List, [], ◌∷◌, ◌++◌, Option, none, some,
  arith, Bytes, select, if◌then◌else◌,
}
use terminal_todo.Base.Dict.{Dict, lookup, insert, values}
use terminal_todo.Store.{Task, pending, completed, status_eq}
use terminal_todo.Dag.Uri.{parse_local_id}

abbrev pub Resolver : Type 0
Resolver = Option (Bytes → Bool)

-- `resolver != nil && resolver(uri)`
abbrev pub resolves : Resolver → Bytes → Bool
resolves none uri = false
resolves (some r) uri = r uri

-- `depTask, ok := tasks[depID]`, there and completed.
unfoldable pub is_completed : ℕ → Dict ℕ Task → Bool
is_completed id tasks = elim (lookup id tasks) [
  | none ↦ false
  | some t ↦ status_eq t.status completed
]

-- One round of the loop over the references.
unfoldable pub dependency_complete : Dict ℕ Task → Resolver → Bytes → Bool
unfolding is_completed
dependency_complete tasks resolver uri = elim (parse_local_id uri) [
  | none ↦ resolves resolver uri
  | some id ↦ is_completed id tasks
]

unfoldable pub uris_complete : Dict ℕ Task → Resolver → List Bytes → Bool
unfolding dependency_complete
uris_complete tasks resolver [] = true
uris_complete tasks resolver (uri ∷ uris) =
    if dependency_complete tasks resolver uri then uris_complete tasks resolver uris else false

unfoldable pub dependencies_complete : Task → Dict ℕ Task → Resolver → Bool
unfolding uris_complete
dependencies_complete task tasks resolver = uris_complete tasks resolver task.depends

abbrev pub is_ready : Dict ℕ Task → Resolver → Task → Bool
is_ready tasks resolver t = status_eq t.status pending && dependencies_complete t tasks resolver

unfoldable pub ready_among : Dict ℕ Task → Resolver → List Task → List Task
unfolding dependencies_complete
ready_among tasks resolver [] = []
ready_among tasks resolver (t ∷ ts) =
    let rest = ready_among tasks resolver ts in
    if not (status_eq t.status pending)
    then rest
    else if dependencies_complete t tasks resolver
    then t ∷ rest
    else rest

unfoldable pub get_ready_tasks : Dict ℕ Task → Resolver → List Task
unfolding ready_among
get_ready_tasks tasks resolver = ready_among tasks resolver (values tasks)

-- The references of one task that are not met.
unfoldable pub unmet : Dict ℕ Task → Resolver → List Bytes → List Bytes
unfolding dependency_complete
unmet tasks resolver [] = []
unmet tasks resolver (uri ∷ uris) =
    let rest = unmet tasks resolver uris in
    if dependency_complete tasks resolver uri then rest else uri ∷ rest

-- An append to `blocked[id]`, where there is something to append.
abbrev pub put_blocked : ℕ → List Bytes → Dict ℕ (List Bytes) → Dict ℕ (List Bytes)
put_blocked id [] blocked = blocked
put_blocked id (uri ∷ uris) blocked =
    insert id (elim (lookup id blocked) [ none ↦ [] | some old ↦ old ] ++ uri ∷ uris) blocked

unfoldable pub blocked_among :
    Dict ℕ Task → Resolver → List Task → Dict ℕ (List Bytes) → Dict ℕ (List Bytes)
unfolding unmet
blocked_among tasks resolver [] blocked = blocked
blocked_among tasks resolver (t ∷ ts) blocked = blocked_among tasks resolver ts (
    if status_eq t.status completed
    then blocked
    else put_blocked t.id (unmet tasks resolver t.depends) blocked)

unfoldable pub get_blocked_tasks : Dict ℕ Task → Resolver → Dict ℕ (List Bytes)
unfolding blocked_among
get_blocked_tasks tasks resolver = blocked_among tasks resolver (values tasks) []

pub ready_among-select :
    (tasks : Dict ℕ Task) (r : Resolver) (ts : List Task)
    → ready_among tasks r ts ≡ select (is_ready tasks r) ts
unfolding ready_among
ready_among-select tasks r [] = refl
ready_among-select tasks r (t ∷ ts) = ground (arith, ready_among-select tasks r ts)
