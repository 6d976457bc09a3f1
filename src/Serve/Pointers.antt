-- ===== src/Serve/Pointers.antt =====
-- internal/cli/serve.go: the task pointers that the handlers follow behind a transaction.
use terminal_todo.Base.{Eq-nat, Eq-bytes, ℕ, ◌≡◌, refl, ◌∙◌, ◌⊎◌, inl, inr}
use terminal_todo.Store.{TaskStore}
use terminal_todo.Store.Ops.{get_task}
use terminal_todo.Errors.{Error, Result, ok, err, Result-cases}
use terminal_todo.Dag.Ready.{Resolver}
use terminal_todo.Lifecycle.Invariant.{Call, perform}
use terminal_todo.Lifecycle.Exclusion.{target}
use terminal_todo.Store.Transaction.{load_unlocked, update}
use terminal_todo.Serve.{Response, failed, result, rpc_error_from_domain, Host}
use terminal_todo.Serve.Params.{Answer}
use terminal_todo.Serve.Handlers.{File, answered, transact}
use terminal_todo.Serve.Reads.{cleaned, update-Succeeds}
use terminal_todo.Serve.Course.{Shows}
use terminal_todo.Serve.Keys.{perform-target}

pub answered-err :
    (h : Host) (k : TaskStore → Response Answer) (o : File h × Result TaskStore) (e : Error)
    → o.1 ≡ err e
    → (answered h k o).1 ≡ failed (rpc_error_from_domain e)
answered-err h k (file, o) e q = rw q refl

pub answered-ok :
    (h : Host) (k : TaskStore → Response Answer) (o : File h × Result TaskStore) (x : TaskStore)
    → o.1 ≡ ok x
    → (answered h k o).1 ≡ k x
answered-ok h k (file, o) x q = rw q refl

module _ (h : Host) (r : Resolver) (c : Call) (k : TaskStore → Response Answer) (f : File h)
    (id : ℕ) where
  abbrev pub updated : File h × Result TaskStore
  updated = update h.codec h.fault h.now (perform r h.now c) f

  -- A transaction that commits is answered with a result.
  transact-result :
      (s x : TaskStore)
      → load_unlocked h.codec f ≡ ok s
      → target c ≡ id
      → Shows id k
      → updated.1 ≡ ok x
      → (a : Answer) × ((transact h (perform r h.now c) k f).1 ≡ result a)
  unfolding get_task
  transact-result s x loaded same shows q =
      let done = update-Succeeds h.codec h.fault h.now (perform r h.now c) s x f loaded q in
      let found = perform-target r h.now done.2.0 c (cleaned h.codec h.now s) done.2.1 in
      let shown = shows x found.0 (rw (done.0, ← same) found.1) in
      (shown.0, answered-ok h k updated x q ∙ shown.1)

  -- A transaction ends with an error and is answered with its code, or is answered with a result.
  pub transact-Ends :
      (s : TaskStore)
      → load_unlocked h.codec f ≡ ok s
      → target c ≡ id
      → Shows id k
      → ((e : Error) × (updated.1 ≡ err e)
          × ((transact h (perform r h.now c) k f).1 ≡ failed (rpc_error_from_domain e)))
        ⊎ ((a : Answer) × ((transact h (perform r h.now c) k f).1 ≡ result a))
  transact-Ends s loaded same shows = elim (Result-cases updated.1) [
    | inr (e, q) ↦ inl (e, q, answered-err h k updated e q)
    | inl (x, q) ↦ inr (transact-result s x loaded same shows q)
  ]
