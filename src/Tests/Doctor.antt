-- ===== src/Tests/Doctor.antt =====
-- Runs of the checks of internal/cli/cmd_doctor.go.
use terminal_todo.Base.{
  Eq-nat, ℕ, ◌≡◌, ◌<◌, refl, Bool, true, false, List, [], ◌∷◌, Option, none, some, arith, Bytes,
  bytes_eq, has,
}
use terminal_todo.Tests.{bob, project, project-IsWellFormed}
use terminal_todo.Lifecycle.Invariant.{claim, perform}
use terminal_todo.Doctor.{store_invariant_problems}
use terminal_todo.Doctor.Entries.{IsHealthy}
use terminal_todo.Doctor.Steady.{IsTimed, perform-IsHealthy}

project-IsSilent : store_invariant_problems project ≡ []
unfolding store_invariant_problems bytes_eq terminal_todo.Dag.Uri.parse_task_uri
    terminal_todo.Base.Text.cut_prefix terminal_todo.Dag.Uri.parse_local_id
    terminal_todo.Base.Decimal.parse_uint terminal_todo.Base.Dict.lookup
    terminal_todo.Base.Dict.values terminal_todo.Base.Dict.keys terminal_todo.Base.Dict.insert has
    terminal_todo.Dag.Search.edges_from
project-IsSilent = refl

IsTimed-claim : IsTimed 600 (claim 2 bob 50)
unfolding bytes_eq
IsTimed-claim = (refl, omega arith)

project-IsHealthy : IsHealthy project
project-IsHealthy = record { unique = project-IsWellFormed.unique; silent = project-IsSilent }

perform-IsHealthy_example : IsHealthy (perform none 600 (claim 2 bob 50) project).0
perform-IsHealthy_example =
    perform-IsHealthy none 600 (claim 2 bob 50) project IsTimed-claim project-IsHealthy
