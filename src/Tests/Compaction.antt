-- ===== src/Tests/Compaction.antt =====
-- Runs of internal/cli/cmd_compact.go and mutation_receipt.go.
use terminal_todo.Base.{Eq-nat, Eq-bytes, ◌≡◌, refl, true, false, [], ◌∷◌, some, bytes_eq}
use terminal_todo.Base.Text.{codes}
use terminal_todo.Base.Dict.{lookup}
use terminal_todo.Tests.{held, receipt, project, project-IsWellFormed}
use terminal_todo.Compaction.{CompactOptions, compact_task_store, new_mutation_affected}
use terminal_todo.Compaction.Kept.{
  Compacts, compact_task_store-Compacts, compact_task_store-keeps_open,
}
use terminal_todo.Compaction.Affected.{Summarises, new_mutation_affected-Summarises}

abbrev options : CompactOptions
options = record { keep_events = some 0; receipts_before = 100; dry_run = false }

compact_task_store-Compacts_example :
    let (s', d) = compact_task_store options true 900 project in
    Compacts options project s' d × (compact_task_store options false 900 project ≡ (project, d))
compact_task_store-Compacts_example =
    compact_task_store-Compacts options 900 project project-IsWellFormed

has_receipt : lookup (codes "r1") project.acquisitions ≡ some receipt
unfolding lookup bytes_eq
has_receipt = refl

has_held : lookup 1 project.tasks ≡ some held
unfolding lookup
has_held = refl

compact_task_store-keeps_open_example :
    lookup (codes "r1") (compact_task_store options true 900 project).0.acquisitions ≡ some receipt
compact_task_store-keeps_open_example =
    compact_task_store-keeps_open options 900 project (codes "r1") receipt held has_receipt has_held
      refl

new_mutation_affected-Summarises_example :
    Summarises (3 ∷ 1 ∷ 3 ∷ []) (new_mutation_affected (3 ∷ 1 ∷ 3 ∷ []))
new_mutation_affected-Summarises_example = new_mutation_affected-Summarises (3 ∷ 1 ∷ 3 ∷ [])
