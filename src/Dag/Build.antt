-- ===== src/Dag/Build.antt =====
-- dag/dag.go: `AddEdge`, `BuildFromTasks` and `DetectCycle`, and which edges a built graph has.
use terminal_todo.Base.{
  Eq-nat, ℕ, ◌≡◌, Bool, false, ◌&&◌, ◌||◌, List, [], ◌∷◌, ◌++◌, none, some, arith, Bytes, nat_eq,
  nat_eq_iff, has, has-cons, has-nil, has-append, any, Option-cases, inl, inr,
}
use terminal_todo.Base.Dict.{Dict, lookup, insert, lookup-insert, values}
use terminal_todo.Store.{Task}
use terminal_todo.Dag.Uri.{parse_local_id}
use terminal_todo.Dag.Search.{Graph, Outcome, edges_from, search_cycle}
use terminal_todo.Dag.Search.Correct.{Decides, search_cycle-Decides}

pub add_edge : ℕ → ℕ → Graph → Graph
add_edge from to adj = insert from (edges_from from adj ++ to ∷ []) adj

-- The edges for the references of one task.
unfoldable pub add_depends : ℕ → List Bytes → Graph → Graph
unfolding add_edge
add_depends id [] adj = adj
add_depends id (uri ∷ uris) adj =
    add_depends id uris
      (elim (parse_local_id uri) [ none ↦ adj | some from ↦ add_edge from id adj ])

unfoldable pub build_tasks : List Task → Graph → Graph
unfolding add_depends
build_tasks [] adj = adj
build_tasks (t ∷ ts) adj = build_tasks ts (add_depends t.id t.depends adj)

unfoldable pub build_from_tasks : Dict ℕ Task → Graph
unfolding build_tasks
build_from_tasks tasks = build_tasks (values tasks) []

-- The search runs on a copy of the map, with the new edges added.
unfoldable pub detect_cycle : Graph → List Bytes → ℕ → Outcome
unfolding add_depends search_cycle
detect_cycle adj new_deps new_task_id = search_cycle (add_depends new_task_id new_deps adj)

-- `uri` is a reference to the local task `u`.
abbrev pub refers_to : ℕ → Bytes → Bool
refers_to u uri = elim (parse_local_id uri) [ none ↦ false | some id ↦ nat_eq id u ]

-- A task with the ID `v` refers to `u`.
abbrev pub depends_on : List Task → ℕ → ℕ → Bool
depends_on ts u v = any (λ t. nat_eq t.id v && any (refers_to u) t.depends) ts

has-add_edge :
    (from to u v : ℕ) (adj : Graph)
    → has v (edges_from u (add_edge from to adj))
      ≡ (has v (edges_from u adj) || (nat_eq from u && nat_eq to v))
unfolding add_edge edges_from
has-add_edge from to u v adj = ground (
  arith,
  lookup-insert from u (edges_from from adj ++ to ∷ []) adj,
  has-append v (edges_from from adj) (to ∷ []),
  has-cons v to [],
  has-nil v,
  nat_eq_iff from u,
)

pub has-add_depends :
    (id u v : ℕ) (uris : List Bytes) (adj : Graph)
    → has v (edges_from u (add_depends id uris adj))
      ≡ (has v (edges_from u adj) || (nat_eq id v && any (refers_to u) uris))
unfolding add_depends
has-add_depends id u v [] adj = ground arith
has-add_depends id u v (uri ∷ uris) adj = elim (Option-cases (parse_local_id uri)) [
  | inl e ↦ ground (arith, has-add_depends id u v uris adj)
  | inr (from, e) ↦
      ground
        (arith, has-add_depends id u v uris (add_edge from id adj), has-add_edge from id u v adj)
]

has-build_tasks :
    (u v : ℕ) (ts : List Task) (adj : Graph)
    → has v (edges_from u (build_tasks ts adj)) ≡ (has v (edges_from u adj) || depends_on ts u v)
unfolding build_tasks
has-build_tasks u v [] adj = ground arith
has-build_tasks u v (t ∷ ts) adj = ground (
  arith,
  has-build_tasks u v ts (add_depends t.id t.depends adj),
  has-add_depends t.id u v t.depends adj,
)

-- The graph of the tasks has the edges that the references say, and no other.
pub has-build_from_tasks :
    (u v : ℕ) (tasks : Dict ℕ Task)
    → has v (edges_from u (build_from_tasks tasks)) ≡ depends_on (values tasks) u v
unfolding build_from_tasks edges_from lookup
has-build_from_tasks u v tasks = ground (arith, has-build_tasks u v (values tasks) [], has-nil v)

-- `DetectCycle` terminates, and reports a cycle exactly when the graph with the new references has
-- one.
pub detect_cycle-Decides :
    (adj : Graph) (uris : List Bytes) (id : ℕ)
    → Decides (add_depends id uris adj) (detect_cycle adj uris id)
unfolding detect_cycle
detect_cycle-Decides adj uris id = search_cycle-Decides (add_depends id uris adj)
