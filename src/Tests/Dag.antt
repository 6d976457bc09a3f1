-- ===== src/Tests/Dag.antt =====
-- Runs of dag/dag.go on small graphs and references.
use terminal_todo.Base.{
  Eq-nat, Eq-bytes, ℕ, suc, ◌+◌, ◌≡◌, ◌≤◌, ◌<◌, ◌⊎◌, ◌↔◌, refl, Bool, true, false, List, [], ◌∷◌,
  ◌++◌, Option, none, some, arith, Bytes, bytes_eq, nat_eq, ltb, has, length, select, All, take,
  map,
}
use terminal_todo.Base.Text.{codes}
use terminal_todo.Base.Decimal.{u64_mod}
use terminal_todo.Base.Dict.{Dict, lookup, keys, values}
use terminal_todo.Tests.{local_ref}
use terminal_todo.Dag.Uri.{parse_task_uri, task_uri, canonical_dependency, IsAlias}
use terminal_todo.Dag.Uri.RoundTrip.{
  parse_task_uri-task_uri, canonical_dependency-IsCanonicalFor, IsCanonicalFor,
}
use terminal_todo.Dag.Search.{edges_from, Graph, cycle}
use terminal_todo.Dag.Search.Correct.{Decides}
use terminal_todo.Dag.Build.{add_depends, detect_cycle, detect_cycle-Decides}

abbrev two_nodes : Graph
two_nodes = (1, 2 ∷ []) ∷ []

-- Task 1 would wait for task 2, which waits for task 1.
finds_cycle_example : detect_cycle two_nodes (codes "2" ∷ []) 1 ≡ cycle (1 ∷ 2 ∷ 1 ∷ [])
unfolding detect_cycle keys terminal_todo.Dag.Uri.parse_local_id terminal_todo.Base.Text.cut_prefix
    terminal_todo.Base.Decimal.parse_uint terminal_todo.Base.Dict.insert has edges_from lookup
finds_cycle_example = refl

detect_cycle-Decides_example :
    Decides (add_depends 1 (codes "2" ∷ []) two_nodes) (detect_cycle two_nodes (codes "2" ∷ []) 1)
detect_cycle-Decides_example = detect_cycle-Decides two_nodes (codes "2" ∷ []) 1

web_IsAlias : IsAlias (codes "web")
unfolding bytes_eq
web_IsAlias = (refl, refl)

parse_task_uri-task_uri_example :
    parse_task_uri (task_uri (codes "web") 12) ≡ some (codes "web", 12)
parse_task_uri-task_uri_example =
    parse_task_uri-task_uri (codes "web") 12 web_IsAlias (omega arith) (omega arith)

seven : canonical_dependency (codes "7") ≡ some (local_ref 7)
unfolding canonical_dependency terminal_todo.Dag.Uri.parse_local_id
    terminal_todo.Base.Text.cut_prefix terminal_todo.Base.Decimal.parse_uint
seven = refl

canonical_dependency-IsCanonicalFor_example : IsCanonicalFor (codes "7") (local_ref 7)
canonical_dependency-IsCanonicalFor_example =
    canonical_dependency-IsCanonicalFor (codes "7") (local_ref 7) seven
