-- ===== src/Dag/Search.antt =====
-- dag/dag.go: `DetectCycle`. The depth-first search over an adjacency map, on fuel; the proofs
-- stand in the children.
pub mod Relation
pub mod Contract
pub mod Correct
use terminal_todo.Base.{
  Eq-nat, ℕ, zero, suc, true, false, List, [], ◌∷◌, ◌++◌, none, some, has, remove, length,
}
use terminal_todo.Base.Dict.{Dict, lookup, keys}

-- The closure's variables: `visited`, `onStack` and `path`.
pub record Walk : Type 0 where
  pub visited : List ℕ
  pub on_stack : List ℕ
  pub path : List ℕ

pub data Outcome : Type 0 where
  done : Walk → Outcome
  cycle : List ℕ → Outcome
  out_of_fuel : Outcome

abbrev pub Graph : Type 0
Graph = Dict ℕ (List ℕ)

-- `adj[node]`, empty where there is none.
unfoldable pub edges_from : ℕ → Graph → List ℕ
edges_from node adj = elim (lookup node adj) [ none ↦ [] | some tos ↦ tos ]

abbrev pub and_then : Outcome → (Walk → Outcome) → Outcome
and_then (done w) f = f w
and_then (cycle p) f = cycle p
and_then out_of_fuel f = out_of_fuel

-- The loop over `adj[node]`, at the recursive call.
unfoldable pub visit_all : (ℕ → Walk → Outcome) → List ℕ → Walk → Outcome
visit_all visit [] w = done w
visit_all visit (next ∷ rest) w = elim (has next w.visited) [
  | false ↦ and_then (visit next w) (visit_all visit rest)
  | true ↦ elim (has next w.on_stack) [
    | true ↦ cycle (w.path ++ next ∷ [])
    | false ↦ visit_all visit rest w
  ]
]

abbrev pub enter : ℕ → Walk → Walk
enter node w = record {
  visited = node ∷ w.visited;
  on_stack = node ∷ w.on_stack;
  path = w.path ++ node ∷ [];
}

-- A slice without its last element.
unfoldable pub init : List ℕ → List ℕ
init [] = []
init (x ∷ []) = []
init (x ∷ y ∷ xs) = x ∷ init (y ∷ xs)

abbrev pub leave : ℕ → Walk → Walk
leave node w = record w { on_stack = remove node w.on_stack; path = init w.path }

unfoldable pub dfs : ℕ → Graph → ℕ → Walk → Outcome
unfolding visit_all
dfs zero adj node w = out_of_fuel
dfs (suc fuel) adj node w =
    and_then (visit_all (dfs fuel adj) (edges_from node adj) (enter node w))
      (λ w'. done (leave node w'))

-- `for node := range adj`
unfoldable pub visit_roots : (ℕ → Walk → Outcome) → List ℕ → Walk → Outcome
visit_roots visit [] w = done w
visit_roots visit (node ∷ rest) w = elim (has node w.visited) [
  | false ↦ and_then (visit node w) (visit_roots visit rest)
  | true ↦ visit_roots visit rest w
]

-- Each node that the search can meet.
abbrev pub nodes : Graph → List ℕ
nodes [] = []
nodes ((k, tos) ∷ adj) = k ∷ (tos ++ nodes adj)

abbrev pub start : Walk
start = record { visited = []; on_stack = []; path = [] }

unfoldable pub search_cycle : Graph → Outcome
unfolding dfs visit_roots
search_cycle adj = visit_roots (dfs (suc (length (nodes adj))) adj) (keys adj) start
