-- ===== src/Tests/Graphs.antt =====
-- Runs of the edits of the dependency graph, and of a prune.
use terminal_todo.Base.{
  Eq-nat, Eq-bytes, ℕ, suc, ◌+◌, ◌≡◌, ◌≤◌, ◌<◌, ◌⊎◌, ◌↔◌, refl, Bool, true, false, List, [], ◌∷◌,
  ◌++◌, Option, none, some, arith, Bytes, bytes_eq, nat_eq, ltb, has, length, select, All, take,
  map,
}
use terminal_todo.Base.Text.{codes, trim_space}
use terminal_todo.Base.Decimal.{u64_mod}
use terminal_todo.Base.Dict.{Dict, lookup, keys, values}
use terminal_todo.Tests.{ann, open_task, follower, project, project-IsWellFormed}
use terminal_todo.Errors.{Error, err_cycle_detected, ok, err}
use terminal_todo.Store.Invariant.{IsWellFormed}
use terminal_todo.Store.Ops.{get_task}
use terminal_todo.Dag.Ready.{dependencies_complete}
use terminal_todo.Dag.Search.Relation.{IsAcyclic}
use terminal_todo.Lifecycle.Create.{NewTask, create_task}
use terminal_todo.Lifecycle.Creation.{Creates, create_task-Creates}
use terminal_todo.Lifecycle.Decompose.{DecomposeSubtask, decompose_task}
use terminal_todo.Lifecycle.Update.{apply_dependency_edits}
use terminal_todo.Lifecycle.Prune.{prune_completed_tasks, kept_deps}
use terminal_todo.Lifecycle.Acyclic.{graph, apply_dependency_edits-IsAcyclic}
use terminal_todo.Lifecycle.Children.{decompose_task-IsAcyclic}
use terminal_todo.Lifecycle.Pruning.{
  lookup-prune, survivor, pruned_ids, Respects, dependencies_complete-prune,
}

apply_dependency_edits-IsAcyclic_example :
    let (s', r) = apply_dependency_edits 2 open_task ann (codes "4" ∷ []) [] 200 project in
    ((e : Error) × (r ≡ err e) × (s' ≡ project)) ⊎ ((r ≡ ok tt) × IsAcyclic (graph s'))
apply_dependency_edits-IsAcyclic_example =
    apply_dependency_edits-IsAcyclic 2 open_task ann (codes "4" ∷ []) [] 200 project

abbrev halves : List DecomposeSubtask
halves =
    record { title = codes "one"; capabilities = [] }
    ∷ record { title = codes "two"; capabilities = codes "go" ∷ [] }
    ∷ []

decompose_task-IsAcyclic_example :
    let (s', r) = decompose_task 2 ann halves 200 project in
    ((e : Error) × (r ≡ err e) × (s' ≡ project)) ⊎ (IsAcyclic (graph s') × IsWellFormed s')
decompose_task-IsAcyclic_example =
    decompose_task-IsAcyclic 2 ann halves 200 project (omega arith) (omega arith)
      project-IsWellFormed

abbrev release_notes : NewTask
release_notes = record {
  title = codes "notes";
  after = codes "3" ∷ codes "todo://docs/7" ∷ [];
  priority = 0;
  capabilities = [];
  tags = [];
}

create_task-Creates_example :
    let o = create_task err_cycle_detected release_notes 200 project in
    ((e : Error) × (o ≡ (project, err e))) ⊎ Creates release_notes 200 project o
create_task-Creates_example =
    create_task-Creates err_cycle_detected release_notes 200 project (omega arith) (omega arith)
      project-IsWellFormed

-- The reference to the own repository is stored in full.
creates : (create_task err_cycle_detected release_notes 200 project).1 ≡ ok 5
unfolding create_task terminal_todo.Dag.Uri.parse_local_id terminal_todo.Base.Text.cut_prefix
    terminal_todo.Base.Decimal.parse_uint lookup terminal_todo.Dag.Uri.parse_task_uri
    terminal_todo.Base.Text.split bytes_eq terminal_todo.Dag.Build.detect_cycle keys
    terminal_todo.Base.Decimal.format terminal_todo.Base.Dict.insert
    terminal_todo.Dag.Build.build_from_tasks values has terminal_todo.Dag.Search.edges_from
creates = refl

lookup-prune_example :
    get_task 4 (prune_completed_tasks 200 project).0
    ≡ survivor (pruned_ids project) (get_task 4 project)
lookup-prune_example = lookup-prune 200 4 project project-IsWellFormed

-- No resolver: the dependencies of other repositories are open.
none-Respects : Respects none
none-Respects uri = refl

dependencies_complete-prune_example :
    dependencies_complete
      (record follower { depends = kept_deps (pruned_ids project) follower.depends })
      (prune_completed_tasks 200 project).0.tasks
      none
    ≡ dependencies_complete follower project.tasks none
dependencies_complete-prune_example =
    dependencies_complete-prune 200 none project project-IsWellFormed none-Respects follower
