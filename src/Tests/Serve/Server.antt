-- ===== src/Tests/Serve/Server.antt =====
-- Runs of the whole server of internal/cli/serve.go.
use terminal_todo.Base.{
  bytes_eq, Eq-nat, ℕ, ◌≡◌, refl, false, true, List, [], ◌∷◌, none, some, arith, Bytes, length,
}
use terminal_todo.Base.Text.{codes}
use terminal_todo.Base.Dict.{lookup, values, keys}
use terminal_todo.Tests.{project, project-IsWellFormed}
use terminal_todo.Store.{TaskStore}
use terminal_todo.Store.Transaction.{load_unlocked, stamped}
use terminal_todo.Errors.{ok}
use terminal_todo.Dag.Build.{detect_cycle-Decides, detect_cycle}
use terminal_todo.Dag.Search.Relation.{IsAcyclic}
use terminal_todo.Lifecycle.Acyclic.{graph, no_cycle}
use terminal_todo.Lifecycle.Decompose.{finds_cycle}
use terminal_todo.Lifecycle.Edges.{IsSteady}
use terminal_todo.Store.Ops.{new_task_store}
use terminal_todo.Serve.{crashed, result, passed}
use terminal_todo.Serve.Params.{AddParams}
use terminal_todo.Serve.ViewParams.{todo_lineage}
use terminal_todo.Serve.Session.{meanwhile}
use terminal_todo.Serve.Space.{HasSpace}
use terminal_todo.Serve.Effect.{IsReady, ReadsSteady, new_task_store-IsSteady}
use terminal_todo.Serve.Server.{todo_add, handle_view, serve}
use terminal_todo.Serve.Views.{view_checks}
use terminal_todo.Serve.Looking.{Shows, handle_view-Shows}
use terminal_todo.Serve.Backup.{handle_backup, handle_restore}
use terminal_todo.Serve.Restoring.{RoundTrip, handle_restore-handle_backup, handle_restore_erases}
use terminal_todo.Serve.Whole.{serve-ReadsSteady}
use terminal_todo.Serve.Life.{
  World, after_request, after_restore, Life, started, served, brought_back, Life-BothSteady,
}
use terminal_todo.Serve.Saving.{BothSteady}
use terminal_todo.Tests.Store.{memory}
use terminal_todo.Tests.Serve.{desk, shaky, project_reads}

searched : finds_cycle (detect_cycle (graph project) [] 4) ≡ false
unfolding detect_cycle values keys lookup terminal_todo.Dag.Build.build_from_tasks
    terminal_todo.Dag.Uri.parse_local_id terminal_todo.Base.Text.cut_prefix
    terminal_todo.Base.Decimal.parse_uint terminal_todo.Base.has terminal_todo.Dag.Search.edges_from
    terminal_todo.Base.Dict.insert terminal_todo.Base.remove terminal_todo.Dag.Uri.parse_task_uri
    terminal_todo.Base.Text.split terminal_todo.Base.bytes_eq
searched = refl

project-IsAcyclic : IsAcyclic (graph project)
unfolding terminal_todo.Dag.Build.add_depends
project-IsAcyclic = no_cycle _ _ (detect_cycle-Decides (graph project) [] 4) searched

abbrev steady_project : IsSteady project
steady_project = record { well_formed = project-IsWellFormed; acyclic = project-IsAcyclic }

abbrev bobs_task : AddParams
bobs_task = record {
  title = codes "ship";
  after = codes "2" ∷ [];
  priority = none;
  capabilities = none;
  tags = [];
  receipt = true;
}

project_space : (q : AddParams) → HasSpace (todo_add q) 2 project
project_space q = record { events = omega arith; ids = omega arith }

abbrev ready_project : IsReady desk (todo_add bobs_task) 2 (some project)
ready_project = record {
  store = project;
  loaded = project_reads;
  steady = steady_project;
  space = project_space bobs_task;
}

serve-ReadsSteady_example :
    ReadsSteady desk (serve desk (todo_add bobs_task) (true, some project)).0.1
serve-ReadsSteady_example =
    serve-ReadsSteady desk (todo_add bobs_task) true (some project) ready_project

loaded_space :
    (s : TaskStore) → load_unlocked memory (some project) ≡ ok s → HasSpace (todo_add bobs_task) 2 s
loaded_space s e =
    let same : project ≡ s = cc (project_reads, e) in rw (← same) (project_space bobs_task)

abbrev at_start : World desk
at_start = ((true, some project), none)

-- A task is added on a disk that fails, and the backup is brought back, which is still missing.
abbrev at_end : World desk
at_end =
    after_restore (meanwhile desk desk) (codes "old.bin") (ok tt)
      (after_request (meanwhile desk shaky) (todo_add bobs_task) at_start)

short_life : Life desk at_start at_end
short_life =
    brought_back desk (codes "old.bin") (ok tt)
      (served shaky (todo_add bobs_task) started loaded_space)

missing_reads : load_unlocked memory none ≡ ok new_task_store
unfolding load_unlocked
missing_reads = refl

Life-BothSteady_example : BothSteady desk (at_end.0.1, at_end.1)
Life-BothSteady_example =
    Life-BothSteady desk at_start at_end
      (
        (project, project_reads, steady_project),
        (new_task_store, missing_reads, new_task_store-IsSteady),
      )
      short_life

looks : view_checks true (todo_lineage 1) ≡ passed tt
unfolding view_checks terminal_todo.Serve.ensure_initialized
looks = refl

handle_view-Shows_example :
    Shows desk project
      (todo_lineage 1)
      (some project)
      (handle_view desk true (todo_lineage 1) (some project))
handle_view-Shows_example =
    handle_view-Shows desk true (todo_lineage 1) project (some project) project_reads
      project-IsWellFormed (omega arith) refl looks

given : bytes_eq (codes "old.bin") [] ≡ false
unfolding bytes_eq
given = refl

handle_restore-handle_backup_example :
    let o = handle_backup desk true (some project) none in
    RoundTrip desk desk project o
      (handle_restore (meanwhile desk desk) true (codes "old.bin") (ok tt) (some project) o.0.1)
handle_restore-handle_backup_example =
    handle_restore-handle_backup desk desk (codes "old.bin") (some project) none (some project)
      project project project_reads project-IsWellFormed (omega arith) refl refl refl given
      project_reads project-IsWellFormed refl

handle_restore_erases_example :
    let o = handle_restore desk true (codes "old.bin") (ok tt) (some project) none in
    (o.1 ≡ result 0) × (load_unlocked memory o.0.0 ≡ ok (stamped memory 200 new_task_store))
handle_restore_erases_example =
    handle_restore_erases desk (codes "old.bin") (some project) project given project_reads
      project-IsWellFormed refl
