-- ===== src/Serve/Whole.antt =====
-- internal/cli/serve.go: the whole server keeps its tasks file in order.
use terminal_todo.Base.{
  Eq-nat, ℕ, ◌≡◌, refl, ap, inl, inr, Bool, true, false, [], none, some, if◌then◌else◌, Bytes,
}
use terminal_todo.Store.{TaskStore}
use terminal_todo.Store.Ops.{new_task_store, get_all_tasks}
use terminal_todo.Store.Transaction.{
  Fault, no_fault, before_rename, after_rename, write_store, save, update, load_current,
}
use terminal_todo.Store.Durability.{load-stamped}
use terminal_todo.Errors.{Result, ok, err, unclassified}
use terminal_todo.Compaction.{CompactOptions, unique_task_ids}
use terminal_todo.Allocation.Acquire.{AcquireRequest}
use terminal_todo.Serve.{
  Checked, refused, passed, Response, Host, ensure_initialized, snapshot_dependency_resolver,
}
use terminal_todo.Serve.Params.{DoneParams, AcquireParams, CompactParams, Answer}
use terminal_todo.Serve.ViewParams.{View}
use terminal_todo.Serve.Handlers.{File, Handled, before, Request, dispatch}
use terminal_todo.Serve.Done.{done_checks, after_done_preflight, handle_done}
use terminal_todo.Serve.Adding.{add_checks, decompose_checks, handle_add, handle_decompose}
use terminal_todo.Serve.Editing.{
  update_checks, handle_update, handle_prune, compact_mutation, compact_answered, compacted_file,
  compact_checks, handle_compact,
}
use terminal_todo.Serve.Acquiring.{acquire_checks, after_acquire_preflight, handle_acquire}
use terminal_todo.Serve.Views.{view_checks, view_of}
use terminal_todo.Serve.Checks.{length-unique_from, update_checks-add_deps, decompose_checks-length}
use terminal_todo.Serve.Course.{
  Course, stopped, ran, Looks, request_id, request_actor, dispatch-Course,
}
use terminal_todo.Serve.Server.{
  Method, todo_init, moves, todo_done, todo_add, todo_update, todo_acquire, todo_decompose,
  todo_prune, todo_compact, views, unknown_method, looked_at, handle_view, saved, create_project,
  handle_init, with_file, serve,
}
use terminal_todo.Serve.Effect.{
  Effect, kept, changed, created, IsReady, ReadsSteady, Effect-ReadsSteady, transact-Effect,
}
use terminal_todo.Serve.Mutations.{
  perform-Keeps, complete_all-Keeps, create_task-Keeps, update_task-Keeps, acquire_from_store-Keeps,
  decompose_task-Keeps, prune_mutation-Keeps, compact_mutation-Keeps,
}

module _ (h : Host) (q : Method) (file : File h) where
  -- The file, where nothing has happened yet.
  untouched : Effect h q file file
  untouched = kept file (inl refl) refl

  before-Effect {ℓ} :
      {A : Type ℓ} (checks : Checked A) (rest : A → Handled h)
      → ((a : A) → checks ≡ passed a → Effect h q file (rest a).0)
      → Effect h q file (before h checks file rest).0
  before-Effect (refused c) rest k = untouched
  before-Effect (passed a) rest k = k a refl

  -- Behind the first look.
  looked_at-Effect :
      (show : TaskStore → Response View) (o : File h × Result TaskStore)
      → Looks h file o.0
      → Effect h q file (looked_at h show o).0
  looked_at-Effect show (f, err e) looks = kept f looks refl
  looked_at-Effect show (f, ok s) looks = kept f looks refl

moves-Effect :
    (h : Host) (q : Request) (file : File h) (id : ℕ) (actor : Bytes) (o : Handled h)
    → Course h file id actor o
    → Effect h (moves q) file o.0
moves-Effect h q file id actor o (stopped f c looks e) = kept f looks (ap (λ p. p.0) e)
moves-Effect h q file id actor o (ran f r c k looks same mine shows e) =
    rw e (transact-Effect h (moves q) _ k file f looks (perform-Keeps q r h.now c))

module _ (h : Host) (file : File h) where
  done-Effect :
      (p : DoneParams) (o : File h × Result TaskStore)
      → Looks h file o.0
      → Effect h (todo_done p) file (after_done_preflight h p (unique_task_ids p.ids) o).0
  unfolding unique_task_ids
  done-Effect p (f, err e) looks = kept f looks refl
  done-Effect p (f, ok preflight) looks =
      let resolver = snapshot_dependency_resolver h.live (get_all_tasks preflight) in
      transact-Effect h (todo_done p) _ _ file f looks
        (complete_all-Keeps p (unique_task_ids p.ids) resolver h.now (length-unique_from [] p.ids))

  acquire-Effect :
      (p : AcquireParams) (plan : AcquireRequest) (o : File h × Result TaskStore)
      → Looks h file o.0
      → Effect h (todo_acquire p) file (after_acquire_preflight h p plan o).0
  acquire-Effect p plan (f, err e) looks = kept f looks refl
  acquire-Effect p plan (f, ok preflight) looks =
      let resolver = snapshot_dependency_resolver h.live (get_all_tasks preflight) in
      transact-Effect h (todo_acquire p) _ _ file f looks
        (acquire_from_store-Keeps p plan resolver h.now)

  compact_answered-file :
      (k : TaskStore → Response Answer) (o : File h × Result TaskStore)
      → (compact_answered h k o).0 ≡ o.0
  compact_answered-file k (f, err e) = refl
  compact_answered-file k (f, ok s) = refl

  compact-Effect :
      (p : CompactParams) (o : CompactOptions)
      → Effect h (todo_compact p) file (compacted_file h o file).0
  compact-Effect p o =
      changed (compact_mutation h o) file (inl refl) (compact_mutation-Keeps p h o)
        (compact_answered-file _ (update h.codec h.fault h.now (compact_mutation h o) file))

  -- A preview leaves the file alone.
  compact-choice :
      (p : CompactParams) (preview : Bool) (answer : Response Answer) (o : CompactOptions)
      → Effect h
          (todo_compact p)
          file
          (if preview then (file, answer) else compacted_file h o file).0
  compact-choice p true answer o = untouched h (todo_compact p) file
  compact-choice p false answer o = compact-Effect p o

-- A project that is created: the file is still missing, or reads as a new store.
saved-Effect :
    (h : Host) (f : Fault) (initialized : Bool)
    → Effect h todo_init none
        (saved h initialized (write_store h.codec f h.now new_task_store none)).0.1
unfolding write_store
saved-Effect h no_fault initialized = created (load-stamped h.codec h.now new_task_store)
saved-Effect h before_rename initialized = untouched h todo_init none
saved-Effect h after_rename initialized = created (load-stamped h.codec h.now new_task_store)

create_project-Effect :
    (h : Host) (initialized : Bool) (made : Result (Unit {0}))
    → Effect h todo_init none (create_project h initialized made).0.1
unfolding save
create_project-Effect h initialized (err e) = untouched h todo_init none
create_project-Effect h initialized (ok u) = saved-Effect h h.fault initialized

with_file-after :
    (h : Host) (initialized : Bool) (o : Handled h) → (with_file h initialized o).0.1 ≡ o.0
with_file-after h initialized (f, answer) = refl

-- Each request leaves the file as its first look does, or runs one transaction that keeps the store
-- as it should be, or creates the file.
pub serve-Effect :
    (h : Host) (q : Method) (initialized : Bool) (file : File h)
    → Effect h q file (serve h q (initialized, file)).0.1
unfolding serve handle_init handle_done handle_add handle_update handle_acquire handle_decompose
    handle_prune handle_compact handle_view
serve-Effect h todo_init i none = create_project-Effect h i h.make_directory
serve-Effect h todo_init i (some bytes) = untouched h todo_init (some bytes)
serve-Effect h (moves q) i file = rw (with_file-after h i (dispatch h i q file)) (
    moves-Effect h q file (request_id q) (request_actor q) (dispatch h i q file)
      (dispatch-Course h i q file))
serve-Effect h (todo_done p) i file =
    before-Effect h (todo_done p) file (done_checks i p) _
      λ u e. done-Effect h file p (load_current h.codec h.load_fault h.now file) (inr refl)
serve-Effect h (todo_add p) i file =
    before-Effect h (todo_add p) file (add_checks h i p) _ λ task e.
      transact-Effect h (todo_add p) _ _ file file (inl refl)
        (create_task-Keeps p unclassified task h.now)
serve-Effect h (todo_update p) i file =
    before-Effect h (todo_update p) file (update_checks i p) _ λ u e.
      transact-Effect h (todo_update p) _ _ file file (inl refl)
        (update_task-Keeps p u h.now (update_checks-add_deps i p u e))
serve-Effect h (todo_acquire p) i file =
    before-Effect h (todo_acquire p) file (acquire_checks h i p) _ λ plan e.
      acquire-Effect h file p plan (load_current h.codec h.load_fault h.now file) (inr refl)
serve-Effect h (todo_decompose p) i file =
    before-Effect h (todo_decompose p) file (decompose_checks i p) _ λ subtasks e.
      transact-Effect h (todo_decompose p) _ _ file file (inl refl)
        (decompose_task-Keeps p subtasks h.now (decompose_checks-length i p subtasks e))
serve-Effect h (todo_prune p) i file =
    before-Effect h (todo_prune p) file (ensure_initialized i) _
      λ u e. transact-Effect h (todo_prune p) _ _ file file (inl refl) (prune_mutation-Keeps p h)
serve-Effect h (todo_compact p) i file =
    before-Effect h (todo_compact p) file (compact_checks h i p) _
      λ o e. compact-choice h file p o.dry_run _ o
serve-Effect h (views q) i file = before-Effect h (views q) file (view_checks i q) _ λ u e.
    looked_at-Effect h (views q) file (view_of h.to_lower h.live q)
      (load_current h.codec h.load_fault h.now file) (inr refl)
serve-Effect h unknown_method i file = untouched h unknown_method file

-- A request of any kind, on a tasks file that reads as a well-formed store whose graph has no cycle,
-- with room in the counters, leaves a file that reads as a well-formed store whose graph has no
-- cycle, whatever faults there are.
pub serve-ReadsSteady :
    (h : Host) (q : Method) (initialized : Bool) (file : File h)
    → IsReady h q 2 file
    → ReadsSteady h (serve h q (initialized, file)).0.1
serve-ReadsSteady h q i file v =
    Effect-ReadsSteady h q file (serve h q (i, file)).0.1 v (serve-Effect h q i file)
