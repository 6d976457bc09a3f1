-- ===== src/Serve/Views.antt =====
-- internal/cli/serve.go: the handlers of the requests that only read; `hasTag` of
-- internal/cli/cmd_status.go. Behind its checks each takes a first look at the store
-- (`loadStoreSafe`) and shows a part of it. `strings.ToLower` is a parameter.
use terminal_todo.Base.{
  Eq-nat, Eq-bytes, ℕ, Bool, true, false, ◌&&◌, ◌||◌, List, [], ◌∷◌, ◌++◌, Option, none, some,
  Bytes, nat_eq, ltb, leb, if◌then◌else◌, bytes_eq, length, select, any, map,
}
use terminal_todo.Base.Text.{codes, cut_prefix}
use terminal_todo.Store.{Task, TaskStatus, pending, in_progress, completed, blocked, TaskStore}
use terminal_todo.Store.Ops.{get_task, get_all_tasks, events_since}
use terminal_todo.Dag.Uri.{parse_local_id}
use terminal_todo.Protocol.{ProtocolTask, new_protocol_task, status_name, new_blocked_summary}
use terminal_todo.EventPage.{event_page_limit, build_event_page}
use terminal_todo.Allocation.Rank.{ranked_ready_tasks}
use terminal_todo.Allocation.Diagnose.{diagnose_allocation}
use terminal_todo.Lifecycle.Prune.{sort_tasks}
use terminal_todo.Queries.Simulate.{dependents_among, what_if_done}
use terminal_todo.Queries.Lineage.{lineage_descendants, calculate_lineage_progress}
use terminal_todo.Serve.{
  Checked, Response, failed, result, refuse_if, ◌>>◌, ensure_initialized, rpc_invalid_params,
  rpc_task_not_found,
}
use terminal_todo.Serve.Adding.{normalize_capabilities}
use terminal_todo.Serve.ViewParams.{
  StatusParams, EventsParams, WhatIfParams, DependsEntry, local_entry, missing_entry, remote_entry,
  GraphNode, GraphEdge, AvailableTask, ViewRequest, todo_status, todo_cat, todo_next, todo_my,
  todo_search, todo_depends, todo_dependents, todo_lineage, todo_events, todo_what_if, todo_graph,
  todo_export, View, tasks_envelope, cat_of, next_envelope, depends_of, dependents_of,
  lineage_envelope, events_of, event_page, what_if_of, graph_of,
}

abbrev pub protocol_tasks : List Task → List ProtocolTask
protocol_tasks = map new_protocol_task

-- The task of a request, or the answer that it is not there.
abbrev pub shown_task : ℕ → (Task → View) → TaskStore → Response View
shown_task id show s = elim (get_task id s) [
  | none ↦ failed rpc_task_not_found
  | some task ↦ result (show task)
]

unfoldable pub has_tag : List Bytes → Bytes → Bool
has_tag [] target = false
has_tag (tag ∷ tags) target = bytes_eq tag target || has_tag tags target

-- The filters that are given.
abbrev pub passes_status : StatusParams → Task → Bool
passes_status p t =
    (bytes_eq p.tag [] || has_tag t.tags p.tag) && (bytes_eq p.actor [] || bytes_eq t.owner p.actor)

unfoldable pub status_view : StatusParams → TaskStore → Response View
unfolding sort_tasks get_all_tasks has_tag
status_view p s =
    result
      (tasks_envelope (protocol_tasks (select (passes_status p) (sort_tasks (get_all_tasks s)))))

-- `<` on statuses, by their numbers.
abbrev pub status_number : TaskStatus → ℕ
status_number pending = 0
status_number in_progress = 1
status_number completed = 2
status_number blocked = 3

abbrev pub before_in_my : Task → Task → Bool
before_in_my t u =
    if nat_eq (status_number t.status) (status_number u.status)
    then leb t.id u.id
    else ltb (status_number t.status) (status_number u.status)

unfoldable pub insert_mine : Task → List Task → List Task
insert_mine t [] = t ∷ []
insert_mine t (u ∷ us) = if before_in_my t u then t ∷ u ∷ us else u ∷ insert_mine t us

unfoldable pub sort_mine : List Task → List Task
unfolding insert_mine
sort_mine [] = []
sort_mine (t ∷ ts) = insert_mine t (sort_mine ts)

unfoldable pub my_tasks : Bytes → TaskStore → List Task
unfolding sort_mine get_all_tasks
my_tasks actor s = sort_mine (select (λ t. bytes_eq t.owner actor) (get_all_tasks s))

-- `strings.Contains`.
unfoldable pub contains : Bytes → Bytes → Bool
unfolding cut_prefix
contains [] query = bytes_eq query []
contains (c ∷ s) query =
    let rest = contains s query in elim (cut_prefix query (c ∷ s)) [ none ↦ rest | some _ ↦ true ]

abbrev pub matches_query : (Bytes → Bytes) → Bytes → Task → Bool
matches_query to_lower query t =
    contains (to_lower t.title) query || any (λ tag. contains (to_lower tag) query) t.tags

unfoldable pub found_tasks : (Bytes → Bytes) → Bytes → TaskStore → List Task
unfolding contains get_all_tasks
found_tasks to_lower query s = select (matches_query to_lower (to_lower query)) (get_all_tasks s)

unfoldable pub depends_entry : TaskStore → Bytes → DependsEntry
unfolding get_task
depends_entry s dep = elim (parse_local_id dep) [
  | none ↦ remote_entry dep
  | some id ↦ elim (get_task id s) [
    | none ↦ missing_entry id dep
    | some t ↦ local_entry id t.title dep
  ]
]

abbrev pub lineage_view : ℕ → TaskStore → Response View
lineage_view id s =
    shown_task id
      (λ root.
        let descendants = lineage_descendants root.id s.tasks in
        lineage_envelope (new_protocol_task root) (protocol_tasks descendants)
          (calculate_lineage_progress (root ∷ descendants)))
      s

-- The limit is checked behind the first look.
abbrev pub paged : ℕ → Option ℕ → TaskStore → Response View
paged since none s = failed rpc_invalid_params
paged since (some limit) s = result (event_page (build_event_page s since limit))

unfoldable pub events_view : EventsParams → TaskStore → Response View
unfolding event_page_limit build_event_page events_since
events_view p s = elim p.page [
  | true ↦ paged p.since (event_page_limit p.limit) s
  | false ↦ elim p.limit [
    | some limit ↦ failed rpc_invalid_params
    | none ↦ result (events_of (events_since p.since s))
  ]
]

abbrev pub in_scenario : Bytes → Bytes → Bool
in_scenario given name = bytes_eq given [] || bytes_eq given name

abbrev pub when {ℓ} : {A : Type ℓ} → Bool → A → Option A
when true a = some a
when false a = none

unfoldable pub what_if_view : (Bytes → Bool) → WhatIfParams → TaskStore → Response View
unfolding what_if_done dependents_among get_all_tasks
what_if_view live p s =
    shown_task p.id
      (λ task.
        what_if_of p.id task.title
          (when (in_scenario p.scenario (codes "done")) (what_if_done s.tasks p.id (some live)))
          (when (in_scenario p.scenario (codes "block"))
            (length (dependents_among (get_all_tasks s) p.id))))
      s

abbrev pub node_of : Task → GraphNode
node_of t = record { id = t.id; title = t.title; status = status_name t.status }

unfoldable pub edges_into : ℕ → List Bytes → List GraphEdge
edges_into to [] = []
edges_into to (dep ∷ deps) =
    let rest = edges_into to deps in
    elim (parse_local_id dep) [ none ↦ rest | some id ↦ record { from = id; to = to } ∷ rest ]

unfoldable pub graph_edges : List Task → List GraphEdge
unfolding edges_into
graph_edges [] = []
graph_edges (t ∷ ts) = edges_into t.id t.depends ++ graph_edges ts

-- The pieces joined by commas.
unfoldable pub join_commas : List Bytes → Bytes
join_commas [] = []
join_commas (v ∷ []) = v
join_commas (v ∷ w ∷ vs) = v ++ (b',' ∷ join_commas (w ∷ vs))

abbrev pub available : Task → AvailableTask
available t = record {
  id = t.id;
  title = t.title;
  priority = t.priority;
  capabilities = t.capabilities;
}

abbrev pub joined : Option (List Bytes) → Bytes
joined none = []
joined (some values) = join_commas values

abbrev pub is_given {ℓ} : {A : Type ℓ} → Option A → Bool
is_given none = false
is_given (some a) = true

unfoldable pub next_view : (Bytes → Bool) → Option (List Bytes) → TaskStore → Response View
unfolding ranked_ready_tasks diagnose_allocation new_blocked_summary normalize_capabilities
next_view live given s =
    let capabilities = normalize_capabilities (joined given) in
    result (
      next_envelope (map available (ranked_ready_tasks s (some live) capabilities (is_given given)))
        (new_blocked_summary s.tasks (some live))
        (diagnose_allocation s (some live) [] capabilities (is_given given) 0))

-- What the parameters have to be.
unfoldable pub view_checks : Bool → ViewRequest → Checked (Unit {0})
view_checks initialized q = do refuse_if (lacks q); ensure_initialized initialized
  where
    lacks : ViewRequest → Bool
    lacks (todo_cat id) = nat_eq id 0
    lacks (todo_my actor) = bytes_eq actor []
    lacks (todo_search query) = bytes_eq query []
    lacks (todo_depends id) = nat_eq id 0
    lacks (todo_dependents id) = nat_eq id 0
    lacks (todo_lineage id) = nat_eq id 0
    lacks (todo_what_if p) = nat_eq p.id 0
    lacks _ = false

-- What is shown of the store.
unfoldable pub view_of : (Bytes → Bytes) → (Bytes → Bool) → ViewRequest → TaskStore → Response View
unfolding status_view my_tasks found_tasks depends_entry events_view what_if_view graph_edges
    next_view lineage_descendants calculate_lineage_progress
view_of to_lower live (todo_status p) s = status_view p s
view_of to_lower live (todo_cat id) s = shown_task id (λ t. cat_of (new_protocol_task t)) s
view_of to_lower live (todo_next given) s = next_view live given s
view_of to_lower live (todo_my actor) s =
    result (tasks_envelope (protocol_tasks (my_tasks actor s)))
view_of to_lower live (todo_search query) s =
    result (tasks_envelope (protocol_tasks (found_tasks to_lower query s)))
view_of to_lower live (todo_depends id) s =
    shown_task id (λ t. depends_of id t.title (map (depends_entry s) t.depends)) s
view_of to_lower live (todo_dependents id) s =
    shown_task id (λ t. dependents_of id t.title (dependents_among (get_all_tasks s) id)) s
view_of to_lower live (todo_lineage id) s = lineage_view id s
view_of to_lower live (todo_events p) s = events_view p s
view_of to_lower live (todo_what_if p) s = what_if_view live p s
view_of to_lower live todo_graph s =
    result (graph_of (map node_of (sort_tasks (get_all_tasks s))) (graph_edges (get_all_tasks s)))
view_of to_lower live todo_export s =
    result (tasks_envelope (protocol_tasks (sort_tasks (get_all_tasks s))))
