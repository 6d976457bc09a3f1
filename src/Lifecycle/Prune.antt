-- ===== src/Lifecycle/Prune.antt =====
-- internal/cli/coordination_ops.go: `pruneCompletedTasks` and `newlyReadyAfter`.
use terminal_todo.Base.{
  Eq-nat, ℕ, Bool, false, not, ◌&&◌, List, [], ◌∷◌, none, some, Bytes, leb, if◌then◌else◌, has, any,
}
use terminal_todo.Base.Dict.{Dict}
use terminal_todo.Store.{Task, pending, completed, status_eq, TaskStore}
use terminal_todo.Store.Ops.{remove_task, get_all_tasks}
use terminal_todo.Dag.Uri.{parse_local_id}
use terminal_todo.Dag.Ready.{Resolver, dependencies_complete}
use terminal_todo.Lifecycle.Decompose.{canonical_or_self}

abbrev pub is_done : Task → Bool
is_done t = status_eq t.status completed

unfoldable pub completed_tasks : List Task → List Task
completed_tasks [] = []
completed_tasks (t ∷ ts) = if is_done t then t ∷ completed_tasks ts else completed_tasks ts

abbrev pub ids_of : List Task → List ℕ
ids_of [] = []
ids_of (t ∷ ts) = t.id ∷ ids_of ts

-- Whether a reference is a local one to a pruned task.
unfoldable pub is_pruned : List ℕ → Bytes → Bool
is_pruned ids uri = elim (parse_local_id uri) [ none ↦ false | some id ↦ has id ids ]

unfoldable pub kept_deps : List ℕ → List Bytes → List Bytes
unfolding canonical_or_self is_pruned
kept_deps ids [] = []
kept_deps ids (dep ∷ deps) =
    let kept = kept_deps ids deps in
    if is_pruned ids (canonical_or_self dep) then kept else canonical_or_self dep ∷ kept

abbrev pub prune_task : List ℕ → Task → Task
prune_task ids t = if has t.id ids then t else record t { depends = kept_deps ids t.depends }

unfoldable pub prune_edges : List ℕ → Dict ℕ Task → Dict ℕ Task
unfolding kept_deps
prune_edges ids [] = []
prune_edges ids ((k, t) ∷ m) = (k, prune_task ids t) ∷ prune_edges ids m

unfoldable pub remove_tasks : ℕ → List ℕ → TaskStore → TaskStore
unfolding remove_task
remove_tasks now [] s = s
remove_tasks now (id ∷ ids) s = remove_tasks now ids (remove_task now id s).0

-- `sort.Slice` by the ID.
unfoldable pub insert_task : Task → List Task → List Task
insert_task t [] = t ∷ []
insert_task t (u ∷ us) = if leb t.id u.id then t ∷ u ∷ us else u ∷ insert_task t us

unfoldable pub sort_tasks : List Task → List Task
unfolding insert_task
sort_tasks [] = []
sort_tasks (t ∷ ts) = insert_task t (sort_tasks ts)

-- The store, and the removed tasks.
unfoldable pub prune_completed_tasks : ℕ → TaskStore → TaskStore × List Task
unfolding completed_tasks prune_edges remove_tasks sort_tasks get_all_tasks
prune_completed_tasks now s =
    let removed = completed_tasks (get_all_tasks s) in
    let ids = ids_of removed in
    (remove_tasks now ids (record s { tasks = prune_edges ids s.tasks }), sort_tasks removed)

-- Whether a reference is a local one to a task that just completed.
abbrev pub awaited : List ℕ → Bytes → Bool
awaited ids uri = elim (parse_local_id uri) [ none ↦ false | some id ↦ has id ids ]

abbrev pub was_released : TaskStore → List ℕ → Resolver → Task → Bool
was_released s ids resolver t =
    status_eq t.status pending
    && (dependencies_complete t s.tasks resolver && any (awaited ids) t.depends)

unfoldable pub released_among : TaskStore → List ℕ → Resolver → List Task → List Task
unfolding dependencies_complete
released_among s ids resolver [] = []
released_among s ids resolver (t ∷ ts) =
    let rest = released_among s ids resolver ts in
    if not (status_eq t.status pending)
    then rest
    else if not (dependencies_complete t s.tasks resolver)
    then rest
    else if any (awaited ids) t.depends
    then t ∷ rest
    else rest

unfoldable pub newly_ready_after : TaskStore → List ℕ → Resolver → List Task
unfolding released_among sort_tasks get_all_tasks
newly_ready_after s [] resolver = []
newly_ready_after s (id ∷ ids) resolver =
    sort_tasks (released_among s (id ∷ ids) resolver (get_all_tasks s))
