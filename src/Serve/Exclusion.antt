-- ===== src/Serve/Exclusion.antt =====
-- internal/cli/serve.go: requests for a task that another agent holds.
use terminal_todo.Base.{
  Eq-nat, ℕ, ◌≡◌, refl, ap, subst, ◌∙◌, inl, inr, Bool, false, some, arith, Bytes, bytes_eq,
}
use mathlib.Core.Option
use terminal_todo.Store.{TaskStore}
use terminal_todo.Store.Ops.{get_task}
use terminal_todo.Store.Invariant.{IsWellFormed}
use terminal_todo.Store.Expiry.{reclaimed, lookup-clean_expired_leases}
use terminal_todo.Store.Transaction.{load_unlocked, stamped}
use terminal_todo.Errors.{ok, Result-cases}
use terminal_todo.Dag.Ready.{Resolver}
use terminal_todo.Lifecycle.Leases.{Outcome}
use terminal_todo.Lifecycle.Invariant.{Call, perform}
use terminal_todo.Lifecycle.Exclusion.{target, caller, IsHeld, Fails, perform-Fails}
use terminal_todo.Serve.{RpcCode, Response, failed, rpc_error_from_domain, Host}
use terminal_todo.Serve.Params.{Answer}
use terminal_todo.Serve.Handlers.{File, Handled, transact, Request, dispatch}
use terminal_todo.Serve.Reads.{cleaned, update-Turns, update-Succeeds}
use terminal_todo.Serve.Course.{Course, stopped, ran, request_id, request_actor, dispatch-Course}
use terminal_todo.Serve.Steady.{IsSound, Seen, Looks-Seen, answered-file}
use terminal_todo.Serve.Pointers.{updated, answered-err}

cleaned-IsHeld :
    (h : Host) (id : ℕ) (a : Bytes) (s : TaskStore)
    → IsWellFormed s
    → IsHeld h.now id a s
    → IsHeld h.now id a (stamped h.codec h.now (cleaned h.codec h.now s))
unfolding get_task
cleaned-IsHeld h id a s v held =
    let kept : Option.map (reclaimed h.now) (get_task id s) ≡ some held.task =
      ground (arith, held.found, held.live) in
    record {
      task = held.task;
      found = lookup-clean_expired_leases h.now id s v ∙ kept;
      running = held.running;
      owned = held.owned;
      named = held.named;
      live = held.live;
    }

-- The stamp of a write does not touch the tasks.
unstamped-IsHeld :
    (h : Host) (id : ℕ) (a : Bytes) (s : TaskStore)
    → IsHeld h.now id a (stamped h.codec h.now s)
    → IsHeld h.now id a s
unfolding get_task
unstamped-IsHeld h id a s held = record {
  task = held.task;
  found = held.found;
  running = held.running;
  owned = held.owned;
  named = held.named;
  live = held.live;
}

Seen-IsHeld :
    (h : Host) (id : ℕ) (a : Bytes) (s s' : TaskStore)
    → IsWellFormed s
    → IsHeld h.now id a s
    → Seen h s s'
    → IsHeld h.now id a s'
Seen-IsHeld h id a s s' v held (inl same) = rw same held
Seen-IsHeld h id a s s' v held (inr seen) = rw seen (cleaned-IsHeld h id a s v held)

-- The request is answered with an error, and the agent holds the task in the file behind it.
abbrev pub Rejects : (h : Host) → ℕ → Bytes → Handled h → Type 0
Rejects h id a o =
    ((c : RpcCode) × (o.1 ≡ failed c))
    × ((s : TaskStore) × (load_unlocked h.codec o.0 ≡ ok s) × IsHeld h.now id a s)

module _ (h : Host) (r : Resolver) (c : Call) (k : TaskStore → Response Answer) (f : File h)
    (a : Bytes) (w : IsSound h 1 f) (held : IsHeld h.now (target c) a w.store)
    (other : bytes_eq a (caller c) ≡ false) where
  abbrev mutated : Outcome
  mutated = perform r h.now c (cleaned h.codec h.now w.store)

  mutated-Fails : Fails (cleaned h.codec h.now w.store) mutated
  mutated-Fails =
      perform-Fails r h.now a c (cleaned h.codec h.now w.store)
        (unstamped-IsHeld h (target c) a _
          (cleaned-IsHeld h (target c) a w.store w.well_formed held))
        other

  updated-IsHeld :
      (s : TaskStore) × (load_unlocked h.codec (updated h r c k f (target c)).0 ≡ ok s)
      × IsHeld h.now (target c) a s
  updated-IsHeld =
      elim (update-Turns h.codec h.fault h.now (perform r h.now c) w.store f w.loaded) [
        | inl kept ↦ (w.store, rw kept w.loaded, held)
        | inr read ↦ (
          stamped h.codec h.now (cleaned h.codec h.now w.store),
          read ∙ ap (λ o. ok (stamped h.codec h.now o.0)) mutated-Fails.1,
          cleaned-IsHeld h (target c) a w.store w.well_formed held,
        )
      ]

  never_commits : (x : TaskStore) → (updated h r c k f (target c)).1 ≡ ok x → ⊥
  never_commits x q =
      let done = update-Succeeds h.codec h.fault h.now (perform r h.now c) w.store x f w.loaded q in
      absurd (cc (done.2.1, ap (λ o. o.1) mutated-Fails.1))

  transact-Rejects :
      (o : Handled h) → o ≡ transact h (perform r h.now c) k f → Rejects h (target c) a o
  transact-Rejects o e = elim (Result-cases (updated h r c k f (target c)).1) [
    | inl (x, q) ↦ absurd (never_commits x q)
    | inr (d, q) ↦ rw e (
      (rpc_error_from_domain d, answered-err h k (updated h r c k f (target c)) d q),
      rw (answered-file h k (updated h r c k f (target c))) updated-IsHeld,
    )
  ]

Course-Rejects :
    (h : Host) (file : File h) (id : ℕ) (actor a : Bytes) (o : Handled h) (v : IsSound h 2 file)
    → IsHeld h.now id a v.store
    → bytes_eq a actor ≡ false
    → Course h file id actor o
    → Rejects h id a o
Course-Rejects h file id actor a o v held other (stopped f c looks e) =
    let (w, seen) = Looks-Seen h 1 file f v looks in
    rw e
      ((c, refl), (w.store, w.loaded, Seen-IsHeld h id a v.store w.store v.well_formed held seen))
Course-Rejects h file id actor a o v held other (ran f r c k looks same mine shows e) =
    let (w, seen) = Looks-Seen h 1 file f v looks in
    let kept = Seen-IsHeld h id a v.store w.store v.well_formed held seen in
    subst (λ i. Rejects h i a o) same
      (transact-Rejects h r c k f a w (rw same kept) (rw mine other) o e)

-- While an agent holds a task of the tasks file under a lease that has not expired, each of the seven
-- requests for it by another agent is answered with an error, and the agent still holds the task in
-- the file behind it, whatever faults the writes meet.
pub dispatch-Rejects :
    (h : Host) (initialized : Bool) (q : Request) (file : File h) (a : Bytes) (v : IsSound h 2 file)
    → IsHeld h.now (request_id q) a v.store
    → bytes_eq a (request_actor q) ≡ false
    → Rejects h (request_id q) a (dispatch h initialized q file)
dispatch-Rejects h initialized q file a v held other =
    Course-Rejects h file (request_id q) (request_actor q) a (dispatch h initialized q file) v held
      other (dispatch-Course h initialized q file)
