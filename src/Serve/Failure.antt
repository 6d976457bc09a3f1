-- ===== src/Serve/Failure.antt =====
-- internal/cli/serve.go: what a request that is answered with an error leaves in the tasks file.
use terminal_todo.Base.{
  Eq-nat, ℕ, ◌≡◌, refl, sym, ap, ◌∙◌, ◌⊎◌, inl, inr, Bool, Option, none, some, Bytes, Bool-cases,
}
use mathlib.Core.Option
use terminal_todo.Store.{Task, TaskStore}
use terminal_todo.Store.Ops.{get_task, holds_expired}
use terminal_todo.Store.Invariant.{IsWellFormed}
use terminal_todo.Store.Expiry.{reclaimed, lookup-clean_expired_leases}
use terminal_todo.Store.Transaction.{after_rename, load_unlocked, stamped}
use terminal_todo.Errors.{Error, ok, err}
use terminal_todo.Dag.Ready.{Resolver}
use terminal_todo.Lifecycle.Invariant.{Call, perform, perform_atomic}
use terminal_todo.Serve.{RpcCode, Response, failed, Host}
use terminal_todo.Serve.Params.{Answer}
use terminal_todo.Serve.Handlers.{File, Handled, Request, dispatch}
use terminal_todo.Serve.Reads.{cleaned, update-Aborts}
use terminal_todo.Serve.Course.{Course, stopped, ran, request_id, request_actor, dispatch-Course}
use terminal_todo.Serve.Steady.{IsSound, Seen, Looks-Seen, answered-file}
use terminal_todo.Serve.Pointers.{updated, transact-Ends}

-- Each task is as before, or each task is as before but those whose lease has expired.
abbrev pub Rests : ℕ → TaskStore → TaskStore → Type 0
Rests now s s' =
    ((k : ℕ) → get_task k s' ≡ get_task k s)
    ⊎ ((k : ℕ) → get_task k s' ≡ Option.map (reclaimed now) (get_task k s))

reclaimed_twice :
    (now : ℕ) (o : Option Task)
    → Option.map (reclaimed now) (Option.map (reclaimed now) o) ≡ Option.map (reclaimed now) o
reclaimed_twice now none = refl
reclaimed_twice now (some t) = elim (Bool-cases (holds_expired now t)) [
  | inl expired ↦ rw expired refl
  | inr held ↦ rw (held, held) refl
]

module _ (h : Host) (s : TaskStore) (v : IsWellFormed s) where
  lookup-cleaned :
      (k : ℕ)
      → get_task k (stamped h.codec h.now (cleaned h.codec h.now s))
        ≡ Option.map (reclaimed h.now) (get_task k s)
  unfolding get_task
  lookup-cleaned k = lookup-clean_expired_leases h.now k s v

  Seen-Rests : (s' : TaskStore) → Seen h s s' → Rests h.now s s'
  Seen-Rests s' (inl same) = inl (λ k. rw same refl)
  Seen-Rests s' (inr seen) = inr (λ k. rw seen (lookup-cleaned k))

  -- A second reclaim at the same time does nothing more.
  Rests-cleaned :
      (s1 : TaskStore)
      → IsWellFormed s1
      → Rests h.now s s1
      → Rests h.now s (stamped h.codec h.now (cleaned h.codec h.now s1))
  unfolding get_task
  Rests-cleaned s1 w (inl same) =
      inr
        (λ k. lookup-clean_expired_leases h.now k s1 w ∙ ap (Option.map (reclaimed h.now)) (same k))
  Rests-cleaned s1 w (inr seen) = inr (λ k.
      lookup-clean_expired_leases h.now k s1 w
      ∙ ap (Option.map (reclaimed h.now)) (seen k)
      ∙ reclaimed_twice h.now (get_task k s))

-- The file reads as a store in which at most expired leases are gone.
abbrev pub Leaves : (h : Host) → TaskStore → File h → Type 0
Leaves h s file = (s' : TaskStore) × (load_unlocked h.codec file ≡ ok s') × Rests h.now s s'

updated-Leaves :
    (h : Host) (r : Resolver) (c : Call) (k : TaskStore → Response Answer) (f : File h) (id : ℕ)
    (s : TaskStore) (e : Error) (w : IsSound h 1 f)
    → IsWellFormed s
    → Rests h.now s w.store
    → (h.fault ≡ after_rename → ⊥)
    → (updated h r c k f id).1 ≡ err e
    → Leaves h s (updated h r c k f id).0
updated-Leaves h r c k f id s e w v rests whole stops =
    elim (update-Aborts h.codec h.fault h.now (perform r h.now c) w.store f e w.loaded whole
      stops) [
        | inl kept ↦ (w.store, rw kept w.loaded, rests)
        | inr (d, fails, read) ↦
            let same = perform_atomic r h.now c (cleaned h.codec h.now w.store) d fails in
            (
              stamped h.codec h.now (cleaned h.codec h.now w.store),
              rw same at read,
              Rests-cleaned h s v w.store w.well_formed rests,
            )
      ]

Course-Leaves :
    (h : Host) (file : File h) (id : ℕ) (actor : Bytes) (o : Handled h) (code : RpcCode)
    (v : IsSound h 2 file)
    → (h.fault ≡ after_rename → ⊥)
    → Course h file id actor o
    → o.1 ≡ failed code
    → Leaves h v.store o.0
Course-Leaves h file id actor o code v whole (stopped f c looks e) fails =
    let (w, seen) = Looks-Seen h 1 file f v looks in
    rw e (w.store, w.loaded, Seen-Rests h v.store v.well_formed w.store seen)
Course-Leaves h file id actor o code v whole (ran f r c k looks same mine shows e) fails =
    let (w, seen) = Looks-Seen h 1 file f v looks in
    let rests = Seen-Rests h v.store v.well_formed w.store seen in
    let answer = sym (ap (λ p. p.1) e) ∙ fails in
    elim (transact-Ends h r c k f id w.store w.loaded same shows) [
      | inr (a, shown) ↦ absurd (cc (shown, answer))
      | inl (d, stops, shown) ↦
          rw (e, answered-file h k (updated h r c k f id))
            (updated-Leaves h r c k f id v.store d w v.well_formed rests whole stops)
    ]

-- Where the tasks file reads as a well-formed store whose event counter has room, and the write of the
-- transaction does not fail behind its rename, each of the seven requests that move one task (claim,
-- heartbeat, release, handoff, block, unblock and log) that is answered with an error leaves a file
-- that reads as a store with each task as before, or with each as before but those whose lease has
-- expired, which are pending and free.
pub dispatch-Leaves :
    (h : Host) (initialized : Bool) (q : Request) (file : File h) (code : RpcCode)
    (v : IsSound h 2 file)
    → (h.fault ≡ after_rename → ⊥)
    → (dispatch h initialized q file).1 ≡ failed code
    → Leaves h v.store (dispatch h initialized q file).0
dispatch-Leaves h initialized q file code v whole =
    Course-Leaves h file (request_id q) (request_actor q) (dispatch h initialized q file) code v
      whole (dispatch-Course h initialized q file)
