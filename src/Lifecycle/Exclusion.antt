-- ===== src/Lifecycle/Exclusion.antt =====
-- internal/cli/coordination_ops.go, lease.go and handoff.go: the transitions and the holder of a lease.
use terminal_todo.Base.{
  Eq-nat, ℕ, ◌<◌, ◌≡◌, refl, true, false, [], some, arith, Bytes, nat_eq_iff, inl, inr, bytes_eq,
}
use terminal_todo.Base.Text.{codes}
use terminal_todo.Base.Dict.{Dict, modify, lookup-modify}
use terminal_todo.Store.{Task, in_progress, status_eq, TaskStore}
use terminal_todo.Store.Ops.{get_task, add_event, add_log, push_log}
use terminal_todo.Dag.Ready.{Resolver}
use terminal_todo.Errors.{Error, Result, ok, err, Result-cases}
use terminal_todo.Lifecycle.Leases.{
  Outcome, guarded, claim_guards, claim_task, lease_to, lease_end, complete_guards, complete_task,
  release_guards, release_task, block_guards, block_task, unblock_guards, unblock_task, log_guards,
  log_task, renew_lease, handoff_guards, handoff_task,
}
use terminal_todo.Lifecycle.Guards.{require_live_lease}
use terminal_todo.Lifecycle.Invariant.{
  Call, claim, complete, release, block, unblock, log, renew, handoff, perform,
}

abbrev pub target : Call → ℕ
target (claim id actor ttl) = id
target (complete id actor) = id
target (release id actor failure) = id
target (block id actor reason) = id
target (unblock id actor) = id
target (log id actor message) = id
target (renew id actor ttl) = id
target (handoff id actor extra) = id

abbrev pub caller : Call → Bytes
caller (claim id actor ttl) = actor
caller (complete id actor) = actor
caller (release id actor failure) = actor
caller (block id actor reason) = actor
caller (unblock id actor) = actor
caller (log id actor message) = actor
caller (renew id actor ttl) = actor
caller (handoff id actor extra) = actor

-- The call ends with an error and changes nothing.
abbrev pub Fails : TaskStore → Outcome → Type 0
Fails s o = (e : Error) × (o ≡ (s, err e))

guarded-Fails {ℓ} :
    {A : Type ℓ} (s : TaskStore) (g : Result A) (body : A → Outcome)
    → ((a : A) → g ≡ ok a → ⊥)
    → Fails s (guarded s g body)
guarded-Fails s (err e) body h = (e, refl)
guarded-Fails s (ok a) body h = absurd (h a refl)

-- A task that an agent holds under a lease that has not expired.
pub record IsHeld (now id : ℕ) (owner : Bytes) (s : TaskStore) : Type 0 where
  pub task : Task
  pub found : get_task id s ≡ some task
  pub running : status_eq task.status in_progress ≡ true
  pub owned : task.owner ≡ owner
  pub named : bytes_eq owner [] ≡ false
  pub live : now < task.lease_expires

module _ (r : Resolver) (now id : ℕ) (a b : Bytes) (s : TaskStore) (held : IsHeld now id a s)
    (other : bytes_eq a b ≡ false) where
  owned_by : (bytes_eq held.task.owner [] ≡ false) × (bytes_eq held.task.owner b ≡ false)
  owned_by = (rw held.owned held.named, rw held.owned other)

  claim_rejects : (t : Task) → claim_guards id b r now s ≡ ok t → ⊥
  unfolding claim_guards
  claim_rejects t g = ground (arith, held.found, owned_by.0, owned_by.1, held.live)

  complete_rejects : (t : Task) → complete_guards id b r s ≡ ok t → ⊥
  unfolding complete_guards
  complete_rejects t g = ground (arith, held.found, owned_by.0, owned_by.1)

  release_rejects : (t : Task) → release_guards id b s ≡ ok t → ⊥
  unfolding release_guards
  release_rejects t g = ground (arith, held.found, owned_by.0, owned_by.1)

  block_rejects : (t : Task) → block_guards id b s ≡ ok t → ⊥
  unfolding block_guards
  block_rejects t g = ground (arith, held.found, owned_by.0, owned_by.1)

  unblock_rejects : (t : Task) → unblock_guards id s ≡ ok t → ⊥
  unfolding unblock_guards
  unblock_rejects t g = ground (arith, held.found, held.running)

  log_rejects : (t : Task) → log_guards id b s ≡ ok t → ⊥
  unfolding log_guards
  log_rejects t g = ground (arith, held.found, owned_by.0, owned_by.1)

  live_lease_rejects : (t : Task) → require_live_lease id b now s ≡ ok t → ⊥
  unfolding require_live_lease
  live_lease_rejects t g = ground (arith, held.found, owned_by.0, owned_by.1)

  handoff_rejects :
      (extra : Dict Bytes Bytes) (t : Task) → handoff_guards id b extra now s ≡ ok t → ⊥
  unfolding handoff_guards
  handoff_rejects extra t g = ground (arith, held.found, owned_by.0, owned_by.1)

-- While an agent holds a task under a live lease, every call of another agent on the task fails and
-- leaves the store as it was.
pub perform-Fails :
    (r : Resolver) (now : ℕ) (a : Bytes) (c : Call) (s : TaskStore)
    → IsHeld now (target c) a s
    → bytes_eq a (caller c) ≡ false
    → Fails s (perform r now c s)
unfolding perform claim_task complete_task release_task block_task unblock_task log_task renew_lease
    handoff_task
perform-Fails r now a (claim id b ttl) s h o =
    guarded-Fails s _ _ (claim_rejects r now id a b s h o)
perform-Fails r now a (complete id b) s h o =
    guarded-Fails s _ _ (complete_rejects r now id a b s h o)
perform-Fails r now a (release id b failure) s h o =
    guarded-Fails s _ _ (release_rejects r now id a b s h o)
perform-Fails r now a (block id b reason) s h o =
    guarded-Fails s _ _ (block_rejects r now id a b s h o)
perform-Fails r now a (unblock id b) s h o =
    guarded-Fails s _ _ (unblock_rejects r now id a b s h o)
perform-Fails r now a (log id b message) s h o =
    guarded-Fails s _ _ (log_rejects r now id a b s h o)
perform-Fails r now a (renew id b ttl) s h o =
    guarded-Fails s _ _ (live_lease_rejects r now id a b s h o)
perform-Fails r now a (handoff id b extra) s h o =
    guarded-Fails s _ _ (handoff_rejects r now id a b s h o extra)

abbrev leased_task : ℕ → Bytes → ℕ → Task → Task
leased_task now actor ttl t =
    push_log now actor (codes "claimed") (lease_to actor (lease_end now ttl) t)

claim-lookup :
    (id : ℕ) (actor : Bytes) (ttl : ℕ) (r : Resolver) (now : ℕ) (s : TaskStore) (t : Task)
    → claim_guards id actor r now s ≡ ok t
    → get_task id (claim_task id actor ttl r now s).0 ≡ some (leased_task now actor ttl t)
unfolding claim_task claim_guards get_task add_event add_log
claim-lookup id actor ttl r now s t g = ground (
  arith,
  lookup-modify id id (lease_to actor (lease_end now ttl)) s.tasks,
  lookup-modify id id (push_log now actor (codes "claimed"))
      (modify id (lease_to actor (lease_end now ttl)) s.tasks),
  nat_eq_iff id id,
)

claim-rejected :
    (id : ℕ) (actor : Bytes) (ttl : ℕ) (r : Resolver) (now : ℕ) (s : TaskStore) (e : Error)
    → claim_guards id actor r now s ≡ err e
    → (claim_task id actor ttl r now s).1 ≡ err e
unfolding claim_task
claim-rejected id actor ttl r now s e g = rw (g, claim_task)

-- A claim that succeeds gives the caller the task, until its lease ends.
pub claim-IsHeld :
    (id : ℕ) (actor : Bytes) (ttl : ℕ) (r : Resolver) (now later i : ℕ) (s : TaskStore)
    → (claim_task id actor ttl r now s).1 ≡ ok i
    → bytes_eq actor [] ≡ false
    → later < lease_end now ttl
    → IsHeld later id actor (claim_task id actor ttl r now s).0
claim-IsHeld id actor ttl r now later i s success named live =
    elim (Result-cases (claim_guards id actor r now s)) [
      | inl (t, g) ↦ record {
        task = leased_task now actor ttl t;
        found = claim-lookup id actor ttl r now s t g;
        running = refl;
        owned = refl;
        named = named;
        live = live;
      }
      | inr (e, g) ↦ absurd (claim_err e g)
    ]
  where
    claim_err : (e : Error) → claim_guards id actor r now s ≡ err e → ⊥
    claim_err e g = cc (claim-rejected id actor ttl r now s e g)
