-- ===== src/Lifecycle/Invariant.antt =====
-- internal/cli/coordination_ops.go, lease.go and handoff.go: the transitions as calls, on well-formed
-- stores.
use terminal_todo.Base.{
  Eq-nat, ℕ, ◌+◌, ◌<◌, ◌≡◌, refl, true, [], some, arith, Bytes, Bool-cases, inl, inr, bytes_eq,
}
use terminal_todo.Base.Decimal.{u64_mod}
use terminal_todo.Base.Dict.{Dict, lookup}
use terminal_todo.Store.{Task, in_progress, status_eq, TaskStore, EventType}
use terminal_todo.Store.Ops.{get_task, add_event, add_log}
use terminal_todo.Store.Invariant.{
  IsWellFormed, write-IsWellFormed, add_event-IsWellFormed, add_log-IsWellFormed,
}
use terminal_todo.Dag.Ready.{Resolver}
use terminal_todo.Errors.{Error, Result, ok, err}
use terminal_todo.Lifecycle.Guards.{require_live_lease}
use terminal_todo.Lifecycle.Leases.{
  Outcome, guarded, write, logged, claim_guards, claim_task, lease_to, lease_end, complete_guards,
  complete_task, finish, release_guards, release_task, count_retry, note_error, yield_lease,
  block_guards, block_task, block_for, unblock_guards, unblock_task, reopen, log_guards, log_task,
  renew_lease, extend_lease, handoff_guards, handoff_task, add_extra,
}

-- What the CLI, JSON-RPC and MCP surfaces ask of the store.
pub data Call : Type 0 where
  claim : ℕ → Bytes → ℕ → Call
  complete : ℕ → Bytes → Call
  release : ℕ → Bytes → Bytes → Call
  block : ℕ → Bytes → Bytes → Call
  unblock : ℕ → Bytes → Call
  log : ℕ → Bytes → Bytes → Call
  renew : ℕ → Bytes → ℕ → Call
  handoff : ℕ → Bytes → Dict Bytes Bytes → Call

unfoldable pub perform : Resolver → ℕ → Call → TaskStore → Outcome
perform r now (claim id actor ttl) s = claim_task id actor ttl r now s
perform r now (complete id actor) s = complete_task id actor r now s
perform r now (release id actor failure) s = release_task id actor failure now s
perform r now (block id actor reason) s = block_task id actor reason now s
perform r now (unblock id actor) s = unblock_task id actor now s
perform r now (log id actor message) s = log_task id actor message now s
perform r now (renew id actor ttl) s = renew_lease id actor ttl now s
perform r now (handoff id actor extra) s = handoff_task id actor extra now s

pub guarded_inv {ℓ} :
    {A : Type ℓ} (P : TaskStore → Type 0) (s : TaskStore) (g : Result A) (body : A → Outcome)
    → P s
    → ((a : A) → g ≡ ok a → P (body a).0)
    → P (guarded s g body).0
guarded_inv P s (err e) body h k = h
guarded_inv P s (ok a) body h k = k a refl

guarded_fails {ℓ} :
    {A : Type ℓ} (s : TaskStore) (g : Result A) (body : A → Outcome)
    → ((a : A) → (id : ℕ) × ((body a).1 ≡ ok id))
    → (e : Error) → (guarded s g body).1 ≡ err e
    → (guarded s g body).0 ≡ s
guarded_fails s (err e') body k e h = refl
guarded_fails s (ok a) body k e h = let (id, q) = k a in absurd (cc)

pub no_owner : (x : ℕ) → (bytes_eq [] [] ≡ true) × (◌≡◌ {A = ℕ} 0 0)
unfolding bytes_eq
no_owner x = (refl, refl)

logged-next_event_id :
    (now id : ℕ) (actor message : Bytes) (s : TaskStore)
    → (logged now id actor message s).next_event_id ≡ s.next_event_id
unfolding add_log
logged-next_event_id now id actor message s = ground arith

-- A log entry and an event behind it.
noted-IsWellFormed :
    (now id : ℕ) (actor message : Bytes) (type : EventType) (details : Dict Bytes Bytes)
    (s : TaskStore)
    → s.next_event_id + 1 < u64_mod
    → IsWellFormed s
    → IsWellFormed (add_event now type id actor details (logged now id actor message s))
noted-IsWellFormed now id actor message type details s room v =
    add_event-IsWellFormed now type id actor details (logged now id actor message s)
      (omega (arith, logged-next_event_id now id actor message s))
      (add_log-IsWellFormed now id actor message s v)

module _ (now id : ℕ) (actor : Bytes) (s : TaskStore) (room : s.next_event_id + 2 < u64_mod)
    (v : IsWellFormed s) where
  -- A write that frees the task, or leaves its lease alone.
  frees :
      (f : Task → Task)
      → ((t : Task) → (f t).id ≡ t.id)
      → ((t : Task) → (bytes_eq (f t).owner [] ≡ true) × ((f t).lease_expires ≡ 0))
      → IsWellFormed (write id f s)
  frees f same free = write-IsWellFormed id f s (λ t e h. (same t, λ p. free t)) v

  claim-IsWellFormed : (ttl : ℕ) (r : Resolver) → IsWellFormed (claim_task id actor ttl r now s).0
  unfolding claim_task
  claim-IsWellFormed ttl r = guarded_inv IsWellFormed s (claim_guards id actor r now s) _ v λ t g.
      noted-IsWellFormed now id actor _ _ _ (write id (lease_to actor (lease_end now ttl)) s)
        (omega arith)
        (write-IsWellFormed id (lease_to actor (lease_end now ttl)) s
          (λ t e h. (refl, λ p. absurd (cc))) v)

  complete-IsWellFormed : (r : Resolver) → IsWellFormed (complete_task id actor r now s).0
  unfolding complete_task
  complete-IsWellFormed r = guarded_inv IsWellFormed s (complete_guards id actor r s) _ v λ t g.
      add_event-IsWellFormed now _ id actor [] (write id (finish now) s) (omega arith)
        (frees (finish now) (λ t. refl) (λ t. no_owner 0))

  block-IsWellFormed : (reason : Bytes) → IsWellFormed (block_task id actor reason now s).0
  unfolding block_task
  block-IsWellFormed reason = guarded_inv IsWellFormed s (block_guards id actor s) _ v λ t g.
      noted-IsWellFormed now id actor _ _ _ (write id (block_for reason) s) (omega arith)
        (frees (block_for reason) (λ t. refl) (λ t. no_owner 0))

  unblock-IsWellFormed : IsWellFormed (unblock_task id actor now s).0
  unfolding unblock_task
  unblock-IsWellFormed = guarded_inv IsWellFormed s (unblock_guards id s) _ v λ t g.
      noted-IsWellFormed now id actor _ _ _ (write id reopen s) (omega arith)
        (frees reopen (λ t. refl) (λ t. no_owner 0))

  log-IsWellFormed : (message : Bytes) → IsWellFormed (log_task id actor message now s).0
  unfolding log_task
  log-IsWellFormed message =
      guarded_inv IsWellFormed s (log_guards id actor s) _ v
        λ t g. add_log-IsWellFormed now id actor message s v

  released-IsWellFormed :
      (s' : TaskStore) → IsWellFormed s' → IsWellFormed (write id yield_lease s')
  released-IsWellFormed s' w =
      write-IsWellFormed id yield_lease s' (λ t e h. (refl, λ p. no_owner 0)) w

  retried-IsWellFormed : IsWellFormed (write id count_retry s)
  retried-IsWellFormed = write-IsWellFormed id count_retry s (λ t e h. (refl, h)) v

  release-IsWellFormed : (failure : Bytes) → IsWellFormed (release_task id actor failure now s).0
  unfolding release_task
  release-IsWellFormed failure = guarded_inv IsWellFormed s (release_guards id actor s) _ v λ t g.
      elim (Bool-cases (bytes_eq failure [])) [
        | inl none_given ↦ rw none_given (
            released-IsWellFormed _ (
              noted-IsWellFormed now id actor _ _ _ (write id count_retry s) (omega arith)
                retried-IsWellFormed))
        | inr given ↦ rw given (
            released-IsWellFormed _ (
              noted-IsWellFormed now id actor _ _ _
                (write id (note_error failure) (write id count_retry s)) (omega arith)
                (write-IsWellFormed id (note_error failure) (write id count_retry s)
                  (λ t e h. (refl, h)) retried-IsWellFormed)))
      ]

  -- A live lease belongs to a task in progress.
  live_lease-status :
      (t u : Task)
      → require_live_lease id actor now s ≡ ok t
      → lookup id s.tasks ≡ some u
      → status_eq u.status in_progress ≡ true
  unfolding require_live_lease get_task
  live_lease-status t u g e = ground arith

  renew-IsWellFormed : (ttl : ℕ) → IsWellFormed (renew_lease id actor ttl now s).0
  unfolding renew_lease
  renew-IsWellFormed ttl = guarded_inv IsWellFormed s (require_live_lease id actor now s) _ v λ t g.
      add_event-IsWellFormed now _ id actor _ (write id (extend_lease (lease_end now ttl)) s)
        (omega arith)
        (write-IsWellFormed id (extend_lease (lease_end now ttl)) s
          (λ u e h. (refl, λ p. absurd (cc (live_lease-status t u g e)))) v)

  handoff-IsWellFormed :
      (extra : Dict Bytes Bytes) → IsWellFormed (handoff_task id actor extra now s).0
  unfolding handoff_task add_event
  handoff-IsWellFormed extra =
      guarded_inv IsWellFormed s (handoff_guards id actor extra now s) _ v λ t g.
        released-IsWellFormed _ (
          noted-IsWellFormed now id actor _ _ _ _ (omega arith) (
            add_event-IsWellFormed now _ id actor _ (write id (add_extra extra) s) (omega arith)
              (write-IsWellFormed id (add_extra extra) s (λ t e h. (refl, h)) v)))

-- Every transition keeps the store well formed: tasks under their own IDs, event IDs that rise, and
-- no lease on a task that is not in progress. The event counter has room for two events more.
pub perform-IsWellFormed :
    (r : Resolver) (now : ℕ) (c : Call) (s : TaskStore)
    → s.next_event_id + 2 < u64_mod
    → IsWellFormed s
    → IsWellFormed (perform r now c s).0
unfolding perform
perform-IsWellFormed r now (claim id actor ttl) s room v =
    claim-IsWellFormed now id actor s room v ttl r
perform-IsWellFormed r now (complete id actor) s room v =
    complete-IsWellFormed now id actor s room v r
perform-IsWellFormed r now (release id actor failure) s room v =
    release-IsWellFormed now id actor s room v failure
perform-IsWellFormed r now (block id actor reason) s room v =
    block-IsWellFormed now id actor s room v reason
perform-IsWellFormed r now (unblock id actor) s room v = unblock-IsWellFormed now id actor s room v
perform-IsWellFormed r now (log id actor message) s room v =
    log-IsWellFormed now id actor s room v message
perform-IsWellFormed r now (renew id actor ttl) s room v =
    renew-IsWellFormed now id actor s room v ttl
perform-IsWellFormed r now (handoff id actor extra) s room v =
    handoff-IsWellFormed now id actor s room v extra

-- A transition that fails leaves the store as it was.
pub perform_atomic :
    (r : Resolver) (now : ℕ) (c : Call) (s : TaskStore) (e : Error)
    → (perform r now c s).1 ≡ err e
    → (perform r now c s).0 ≡ s
unfolding perform claim_task complete_task release_task block_task unblock_task log_task renew_lease
    handoff_task
perform_atomic r now (claim id actor ttl) s = guarded_fails s _ _ (λ a. (id, refl))
perform_atomic r now (complete id actor) s = guarded_fails s _ _ (λ a. (id, refl))
perform_atomic r now (release id actor failure) s = guarded_fails s _ _ (λ a. (id, refl))
perform_atomic r now (block id actor reason) s = guarded_fails s _ _ (λ a. (id, refl))
perform_atomic r now (unblock id actor) s = guarded_fails s _ _ (λ a. (id, refl))
perform_atomic r now (log id actor message) s = guarded_fails s _ _ (λ a. (id, refl))
perform_atomic r now (renew id actor ttl) s = guarded_fails s _ _ (λ a. (id, refl))
perform_atomic r now (handoff id actor extra) s = guarded_fails s _ _ (λ a. (id, refl))

-- The stores that transitions reach from a new one.
pub data Reached (r : Resolver) (s : TaskStore) : TaskStore → Type 0 where
  here : Reached r s s
  next :
      {t : TaskStore} (now : ℕ) (c : Call)
      → Reached r s t
      → t.next_event_id + 2 < u64_mod
      → Reached r s (perform r now c t).0

pub Reached-IsWellFormed :
    {r : Resolver} {s t : TaskStore} → IsWellFormed s → Reached r s t → IsWellFormed t
Reached-IsWellFormed v here = v
Reached-IsWellFormed {r} v (next {t = t} now c reach room) =
    perform-IsWellFormed r now c t room (Reached-IsWellFormed v reach)
