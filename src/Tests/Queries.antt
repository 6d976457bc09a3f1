-- ===== src/Tests/Queries.antt =====
-- Runs of the queries of internal/cli/cmd_whatif.go.
use terminal_todo.Base.{
  Eq-nat, ℕ, ◌≡◌, refl, Bool, true, false, List, [], ◌∷◌, Option, none, some, arith, Bytes,
  bytes_eq, has,
}
use terminal_todo.Base.Text.{codes}
use terminal_todo.Base.Dict.{keys}
use terminal_todo.Tests.{ann, held, project, project-IsWellFormed}
use terminal_todo.Errors.{ok}
use terminal_todo.Store.{Task, TaskStore}
use terminal_todo.Store.Ops.{fresh_task}
use terminal_todo.Store.Invariant.{IsWellFormed}
use terminal_todo.Dag.Ready.{Resolver}
use terminal_todo.Lifecycle.Leases.{complete_task}
use terminal_todo.Lifecycle.Prune.{sort_tasks, newly_ready_after}
use terminal_todo.Queries.Simulate.{newly_ready_if_done}
use terminal_todo.Lifecycle.Decompose.{local_uri}
use terminal_todo.Queries.Lineage.{lineage_descendants}
use terminal_todo.Queries.Descendants.{AreDescendants, lineage_descendants-AreDescendants}
use terminal_todo.Queries.Prediction.{newly_ready_if_done-newly_ready_after}

-- The second task waits for the one that Ann holds.
abbrev chain : TaskStore
chain = record project {
  tasks = (1, held) ∷ (2, fresh_task 2 (codes "print") (codes "1" ∷ []) 100) ∷ [];
}

chain-IsWellFormed : IsWellFormed chain
unfolding has keys bytes_eq
chain-IsWellFormed = record {
  unique = (refl, (refl, tt));
  entries = (
    record { keyed = refl; issued = omega arith; leased = λ p. absurd (cc) },
    (record { keyed = refl; issued = omega arith; leased = λ p. (refl, refl) }, tt),
  );
  events_rise = project-IsWellFormed.events_rise;
}

completes : (complete_task 1 ann none 200 chain).1 ≡ ok 1
unfolding complete_task terminal_todo.Base.Dict.lookup terminal_todo.Dag.Ready.dependencies_complete
    bytes_eq
completes = refl

newly_ready_if_done-newly_ready_after_example :
    sort_tasks (newly_ready_if_done chain.tasks 1 none)
    ≡ newly_ready_after (complete_task 1 ann none 200 chain).0 (1 ∷ []) none
newly_ready_if_done-newly_ready_after_example =
    newly_ready_if_done-newly_ready_after 1 ann none 200 1 chain chain-IsWellFormed completes

abbrev part_of : ℕ → ℕ → Task
part_of parent id = record (fresh_task id (codes "part") [] 100) { lineage = local_uri parent }

-- Three tasks in a circle.
abbrev family : TaskStore
family = record project { tasks = (1, part_of 3 1) ∷ (2, part_of 1 2) ∷ (3, part_of 2 3) ∷ [] }

family-IsWellFormed : IsWellFormed family
unfolding has keys bytes_eq
family-IsWellFormed = record {
  unique = (refl, (refl, (refl, tt)));
  entries = (
    record { keyed = refl; issued = omega arith; leased = λ p. (refl, refl) },
    (
      record { keyed = refl; issued = omega arith; leased = λ p. (refl, refl) },
      (record { keyed = refl; issued = omega arith; leased = λ p. (refl, refl) }, tt),
    ),
  );
  events_rise = project-IsWellFormed.events_rise;
}

lineage_descendants-AreDescendants_example :
    AreDescendants family.tasks 1 (lineage_descendants 1 family.tasks)
lineage_descendants-AreDescendants_example =
    lineage_descendants-AreDescendants family.next_id family.tasks family-IsWellFormed.entries
      family-IsWellFormed.unique 1
