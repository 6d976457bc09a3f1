-- ===== src/Tests/Allocation.antt =====
-- Runs of internal/cli/allocation.go.
use terminal_todo.Base.{
  Eq-nat, Eq-bytes, ℕ, suc, ◌+◌, ◌≡◌, ◌≤◌, ◌<◌, ◌⊎◌, ◌↔◌, refl, Bool, true, false, List, [], ◌∷◌,
  ◌++◌, Option, none, some, arith, Bytes, bytes_eq, nat_eq, ltb, has, length, select, All, take,
  map,
}
use terminal_todo.Base.Text.{codes}
use terminal_todo.Base.Decimal.{u64_mod}
use terminal_todo.Base.Dict.{Dict, lookup, keys, values}
use terminal_todo.Tests.{project-IsWellFormed, ann, bob, open_task, project}
use mathlib.Core.List.{Perm}
use terminal_todo.Errors.{ok}
use terminal_todo.Store.{TaskStore, Task, in_progress}
use terminal_todo.Allocation.Rank.{ranked_ready_tasks}
use terminal_todo.Allocation.Order.{AllNumbers, InOrder, is_eligible, ranked_ready_tasks-InOrder}
use terminal_todo.Allocation.Diagnose.{diagnose_allocation}
use terminal_todo.Allocation.Counts.{Agrees, diagnose_allocation-Agrees}
use terminal_todo.Allocation.Acquire.{AcquireRequest, acquire_from_store}
use terminal_todo.Allocation.Grant.{acquire-IsHeld}
use terminal_todo.Lifecycle.Exclusion.{IsHeld}

all_numbers : AllNumbers (values project.tasks)
unfolding values
all_numbers = (refl, (refl, (refl, (refl, tt))))

ranked_ready_tasks-InOrder_example :
    InOrder (ranked_ready_tasks project none [] true)
    × Perm
        (ranked_ready_tasks project none [] true)
        (select (is_eligible project none []) (values project.tasks))
ranked_ready_tasks-InOrder_example = ranked_ready_tasks-InOrder project none [] all_numbers

diagnose_allocation-Agrees_example :
    Agrees project ann (diagnose_allocation project none ann [] true 1)
diagnose_allocation-Agrees_example = diagnose_allocation-Agrees project none ann [] true 1

abbrev request : AcquireRequest
request = record {
  actor = bob;
  request_id = codes "r2";
  fingerprint = codes "g";
  ttl = 60000000000;
  capabilities = [];
  max_load = 0;
}

abbrev project_after : TaskStore
project_after = (acquire_from_store request none 200 project).0

-- Bob's task, as he gets it.
abbrev given : Task
given = record open_task {
  owner = bob;
  status = in_progress;
  lease_expires = 60200;
  log = record { timestamp = 200; agent = bob; message = codes "acquired" } ∷ [];
}

acquires :
    acquire_from_store request none 200 project
    ≡ (project_after, ok (record { task = given; replayed = false }))
unfolding acquire_from_store lookup bytes_eq values terminal_todo.Dag.Uri.parse_local_id
    terminal_todo.Base.Text.cut_prefix terminal_todo.Base.Decimal.parse_uint
    terminal_todo.Base.Dict.modify
acquires = refl

bob_is_named : bytes_eq bob [] ≡ false
unfolding bytes_eq
bob_is_named = refl

acquire-IsHeld_example : IsHeld 60199 2 bob project_after
acquire-IsHeld_example =
    acquire-IsHeld request none 200 60199 project project_after
      (record { task = given; replayed = false }) project-IsWellFormed bob_is_named (omega arith)
      acquires refl
