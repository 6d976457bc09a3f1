-- ===== src/Tests/Lifecycle.antt =====
-- Runs of the transitions of internal/cli/coordination_ops.go, lease.go and handoff.go.
use terminal_todo.Base.{
  Eq-nat, Eq-bytes, ℕ, suc, ◌+◌, ◌≡◌, ◌≤◌, ◌<◌, ◌⊎◌, ◌↔◌, refl, Bool, true, false, List, [], ◌∷◌,
  ◌++◌, Option, none, some, arith, Bytes, bytes_eq, nat_eq, ltb, has, length, select, All, take,
  map,
}
use terminal_todo.Base.Text.{codes}
use terminal_todo.Base.Decimal.{u64_mod}
use terminal_todo.Base.Dict.{lookup}
use terminal_todo.Tests.{ann, bob, held, project, project-IsWellFormed}
use terminal_todo.Errors.{err_not_owner, ok, err}
use terminal_todo.Store.Invariant.{IsWellFormed}
use terminal_todo.Store.Ops.{get_task}
use terminal_todo.Lifecycle.Leases.{claim_task, lease_end}
use terminal_todo.Lifecycle.Invariant.{
  claim, complete, release, perform, perform-IsWellFormed, perform_atomic, Reached, here, next,
  Reached-IsWellFormed,
}
use terminal_todo.Lifecycle.Exclusion.{IsHeld, Fails, perform-Fails, claim-IsHeld}

ann_holds : IsHeld 200 1 ann project
unfolding get_task lookup bytes_eq
ann_holds = record {
  task = held;
  found = refl;
  running = refl;
  owned = refl;
  named = refl;
  live = omega arith;
}

others : bytes_eq ann bob ≡ false
unfolding bytes_eq
others = refl

perform-Fails_example : Fails project (perform none 200 (release 1 bob []) project)
perform-Fails_example = perform-Fails none 200 ann (release 1 bob []) project ann_holds others

bob_claims : (claim_task 4 bob 60000000000 none 200 project).1 ≡ ok 4
unfolding claim_task lookup terminal_todo.Dag.Ready.dependencies_complete
    terminal_todo.Dag.Uri.parse_local_id terminal_todo.Base.Text.cut_prefix
    terminal_todo.Base.Decimal.parse_uint bytes_eq
bob_claims = refl

bob_named : bytes_eq bob [] ≡ false
unfolding bytes_eq
bob_named = refl

claim-IsHeld_example : IsHeld 60199 4 bob (claim_task 4 bob 60000000000 none 200 project).0
claim-IsHeld_example =
    claim-IsHeld 4 bob 60000000000 none 200 60199 4 project bob_claims bob_named (omega arith)

perform-IsWellFormed_example : IsWellFormed (perform none 200 (complete 1 ann) project).0
perform-IsWellFormed_example =
    perform-IsWellFormed none 200 (complete 1 ann) project (omega arith) project-IsWellFormed

bob_fails : (perform none 200 (complete 1 bob) project).1 ≡ err err_not_owner
unfolding perform terminal_todo.Lifecycle.Leases.complete_task lookup
    terminal_todo.Dag.Ready.dependencies_complete bytes_eq
bob_fails = refl

perform_atomic_example : (perform none 200 (complete 1 bob) project).0 ≡ project
perform_atomic_example = perform_atomic none 200 (complete 1 bob) project err_not_owner bob_fails

two_calls :
    Reached none project
      (perform none 210 (claim 2 bob 1000000) (perform none 200 (complete 1 ann) project).0).0
unfolding perform terminal_todo.Lifecycle.Leases.complete_task lookup
    terminal_todo.Dag.Ready.dependencies_complete bytes_eq terminal_todo.Store.Ops.add_event
two_calls =
    next 210 (claim 2 bob 1000000) (next 200 (complete 1 ann) here (omega arith)) (omega arith)

Reached-IsWellFormed_example :
    IsWellFormed
      (perform none 210 (claim 2 bob 1000000) (perform none 200 (complete 1 ann) project).0).0
Reached-IsWellFormed_example = Reached-IsWellFormed project-IsWellFormed two_calls
