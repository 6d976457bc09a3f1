-- ===== src/Serve/Server.antt =====
-- internal/cli/serve.go: `dispatch` and `handleInit`. The server keeps whether the project is
-- initialized; a request takes this and the tasks file, and returns them with its answer. The requests
-- for backups are in `Serve/Backup`; those for the configuration, the links, the doctor, the agents and
-- the bootstrap are left out.
use terminal_todo.Base.{Bool, true, none, some}
use terminal_todo.Store.{TaskStore}
use terminal_todo.Store.Ops.{new_task_store}
use terminal_todo.Store.Transaction.{load_current, save}
use terminal_todo.Errors.{Result, ok, err}
use terminal_todo.Serve.{
  Response, failed, crashed, result, Host, rpc_store_corrupted, rpc_internal, rpc_method_not_found,
}
use terminal_todo.Serve.Params.{
  DoneParams, AddParams, UpdateParams, AcquireParams, DecomposeParams, PruneParams, CompactParams,
  Answer, viewed, initialized_at_root,
}
use terminal_todo.Serve.ViewParams.{ViewRequest, View}
use terminal_todo.Serve.Handlers.{File, Handled, before, Request, dispatch}
use terminal_todo.Serve.Done.{handle_done}
use terminal_todo.Serve.Adding.{handle_add, handle_decompose}
use terminal_todo.Serve.Editing.{handle_update, handle_prune, handle_compact}
use terminal_todo.Serve.Acquiring.{handle_acquire}
use terminal_todo.Serve.Views.{view_checks, view_of}

-- The requests of the tasks file. `moves` are the seven that move one task, `views` those that read.
pub data Method : Type 0 where
  todo_init : Method
  moves : Request → Method
  todo_done : DoneParams → Method
  todo_add : AddParams → Method
  todo_update : UpdateParams → Method
  todo_acquire : AcquireParams → Method
  todo_decompose : DecomposeParams → Method
  todo_prune : PruneParams → Method
  todo_compact : CompactParams → Method
  views : ViewRequest → Method
  unknown_method : Method

module _ (h : Host) where
  abbrev pub shown : Response View → Response Answer
  shown (failed c) = failed c
  shown crashed = crashed
  shown (result v) = result (viewed v)

  -- Behind the first look.
  abbrev pub looked_at : (TaskStore → Response View) → File h × Result TaskStore → Handled h
  looked_at show (file, err e) = (file, failed rpc_store_corrupted)
  looked_at show (file, ok s) = (file, shown (show s))

  unfoldable pub handle_view : Bool → ViewRequest → File h → Handled h
  unfolding view_checks view_of
  handle_view initialized q file =
      before h (view_checks initialized q) file
        λ _. looked_at (view_of h.to_lower h.live q) (load_current h.codec h.load_fault h.now file)

  -- The server between two requests: `srv.initialized`, and the tasks file.
  abbrev pub State : Type 0
  State = Bool × File h

  abbrev pub saved : Bool → File h × Result TaskStore → State × Response Answer
  saved initialized (file, err e) = ((initialized, file), failed rpc_store_corrupted)
  saved initialized (file, ok s) = ((true, file), result initialized_at_root)

  abbrev pub create_project : Bool → Result (Unit {0}) → State × Response Answer
  create_project initialized (err e) = ((initialized, none), failed rpc_internal)
  create_project initialized (ok u) =
      saved initialized (save h.codec h.fault h.now new_task_store none)

  -- A tasks file that is there is left alone.
  unfoldable pub handle_init : State → State × Response Answer
  unfolding new_task_store save
  handle_init (initialized, some bytes) = ((true, some bytes), result initialized_at_root)
  handle_init (initialized, none) = create_project initialized h.make_directory

  -- A handler that leaves the server initialized or not.
  abbrev pub with_file : Bool → Handled h → State × Response Answer
  with_file initialized (file, answer) = ((initialized, file), answer)

  unfoldable pub serve : Method → State → State × Response Answer
  unfolding handle_init dispatch handle_done handle_add handle_update handle_acquire
      handle_decompose handle_prune handle_compact handle_view
  serve todo_init (i, file) = handle_init (i, file)
  serve (moves q) (i, file) = with_file i (dispatch h i q file)
  serve (todo_done p) (i, file) = with_file i (handle_done h i p file)
  serve (todo_add p) (i, file) = with_file i (handle_add h i p file)
  serve (todo_update p) (i, file) = with_file i (handle_update h i p file)
  serve (todo_acquire p) (i, file) = with_file i (handle_acquire h i p file)
  serve (todo_decompose p) (i, file) = with_file i (handle_decompose h i p file)
  serve (todo_prune p) (i, file) = with_file i (handle_prune h i p file)
  serve (todo_compact p) (i, file) = with_file i (handle_compact h i p file)
  serve (views q) (i, file) = with_file i (handle_view i q file)
  serve unknown_method (i, file) = ((i, file), failed rpc_method_not_found)
