-- ===== src/Serve/Keys.antt =====
-- internal/cli/coordination_ops.go, lease.go and handoff.go: a transition that succeeds has found its
-- task, which stays in the store.
use terminal_todo.Base.{
  Eq-nat, Eq-bytes, ℕ, ◌≡◌, refl, ◌∙◌, inl, inr, true, [], ◌∷◌, some, Option-cases, arith, Bytes,
  has, bytes_eq, Bool-cases, nat_eq,
}
use terminal_todo.Base.Dict.{Dict, lookup, keys, modify, keys-modify, lookup-keys}
use terminal_todo.Base.Text.{codes}
use terminal_todo.Store.{Task, TaskStore, task_updated}
use terminal_todo.Store.Ops.{get_task, add_event, add_log, push_log}
use terminal_todo.Errors.{Result, ok, err}
use terminal_todo.Dag.Ready.{Resolver}
use terminal_todo.Lifecycle.Leases.{
  Outcome, guarded, write, claim_guards, claim_task, complete_guards, complete_task, release_guards,
  release_task, release_log, block_guards, block_task, unblock_guards, unblock_task, log_guards,
  log_task, renew_lease, handoff_guards, handoff_task, logged, note_error, count_retry, yield_lease,
  finish, extend_lease, lease_end, add_extra,
}
use terminal_todo.Lifecycle.Guards.{require_task, require_live_lease}
use terminal_todo.Lifecycle.Invariant.{
  Call, claim, complete, release, block, unblock, log, renew, handoff, perform,
}
use terminal_todo.Lifecycle.Exclusion.{target}

-- The same keys.
abbrev Keeps : Dict ℕ Task → Dict ℕ Task → Type 0
Keeps m m' = keys m' ≡ keys m

write-Keeps :
    (id : ℕ) (f : Task → Task) (m m' : Dict ℕ Task) → Keeps m m' → Keeps m (modify id f m')
write-Keeps id f m m' k = keys-modify id f m' ∙ k

logged-Keeps :
    (now id : ℕ) (actor message : Bytes) (m : Dict ℕ Task) (s : TaskStore)
    → Keeps m s.tasks
    → Keeps m (logged now id actor message s).tasks
unfolding add_log keys
logged-Keeps now id actor message m s k = elim (Option-cases (get_task id s)) [
  | inl e ↦ rw (e, logged, add_log) k
  | inr (t, e) ↦ rw (e, logged, add_log) (keys-modify id (push_log now actor message) s.tasks ∙ k)
]

release_log-Keeps :
    (now id : ℕ) (actor failure : Bytes) (m : Dict ℕ Task) (s : TaskStore)
    → Keeps m s.tasks
    → Keeps m (release_log now id actor failure s).tasks
release_log-Keeps now id actor failure m s k = elim (Bool-cases (bytes_eq failure [])) [
  | inl none_given ↦ rw none_given (logged-Keeps now id actor _ m s k)
  | inr given ↦ rw given (
      logged-Keeps now id actor _ m (write id (note_error failure) s)
        (write-Keeps id (note_error failure) m s.tasks k))
]

guarded-Keeps {ℓ} :
    {A : Type ℓ} (s : TaskStore) (g : Result A) (body : A → Outcome)
    → ((a : A) → Keeps s.tasks (body a).0.tasks)
    → Keeps s.tasks (guarded s g body).0.tasks
guarded-Keeps s (err e) body k = refl
guarded-Keeps s (ok a) body k = k a

-- A write to the task with a log entry behind it.
noted-Keeps :
    (now id : ℕ) (actor message : Bytes) (f : Task → Task) (s : TaskStore)
    → Keeps s.tasks (logged now id actor message (write id f s)).tasks
noted-Keeps now id actor message f s =
    logged-Keeps now id actor message s.tasks (write id f s) (write-Keeps id f s.tasks s.tasks refl)

perform-Keeps :
    (r : Resolver) (now : ℕ) (c : Call) (s : TaskStore) → Keeps s.tasks (perform r now c s).0.tasks
unfolding perform claim_task complete_task release_task block_task unblock_task log_task renew_lease
    handoff_task add_event
perform-Keeps r now (claim id actor ttl) s = guarded-Keeps s _ _ λ t. noted-Keeps now id actor _ _ s
perform-Keeps r now (complete id actor) s =
    guarded-Keeps s _ _ λ t. write-Keeps id (finish now) s.tasks s.tasks refl
perform-Keeps r now (release id actor failure) s = guarded-Keeps s _ _ λ t.
    write-Keeps id yield_lease s.tasks _ (
      release_log-Keeps now id actor failure s.tasks (write id count_retry s)
        (write-Keeps id count_retry s.tasks s.tasks refl))
perform-Keeps r now (block id actor reason) s =
    guarded-Keeps s _ _ λ t. noted-Keeps now id actor _ _ s
perform-Keeps r now (unblock id actor) s = guarded-Keeps s _ _ λ t. noted-Keeps now id actor _ _ s
perform-Keeps r now (log id actor message) s =
    guarded-Keeps s _ _ λ t. logged-Keeps now id actor message s.tasks s refl
perform-Keeps r now (renew id actor ttl) s =
    guarded-Keeps s _ _ λ t. write-Keeps id (extend_lease (lease_end now ttl)) s.tasks s.tasks refl
perform-Keeps r now (handoff id actor extra) s = guarded-Keeps s _ _ λ t.
    write-Keeps id yield_lease s.tasks _ (
      logged-Keeps now id actor _ s.tasks
        (add_event now task_updated id actor ((codes "source", codes "handoff") ∷ [])
          (write id (add_extra extra) s))
        (write-Keeps id (add_extra extra) s.tasks s.tasks refl))

abbrev Found : ℕ → TaskStore → Type 0
Found id s = (t : Task) × (get_task id s ≡ some t)

guarded-Found {ℓ} :
    {A : Type ℓ} (id i : ℕ) (s : TaskStore) (g : Result A) (body : A → Outcome)
    → ((a : A) → g ≡ ok a → Found id s)
    → (guarded s g body).1 ≡ ok i
    → Found id s
guarded-Found id i s (err e) body k h = absurd (cc h)
guarded-Found id i s (ok a) body k h = k a refl

module _ (id : ℕ) (actor : Bytes) (s : TaskStore) (t : Task) where
  claim-Found : (r : Resolver) (now : ℕ) → claim_guards id actor r now s ≡ ok t → Found id s
  unfolding claim_guards require_task
  claim-Found r now g = (t, ground arith)

  complete-Found : (r : Resolver) → complete_guards id actor r s ≡ ok t → Found id s
  unfolding complete_guards require_task
  complete-Found r g = (t, ground arith)

  release-Found : release_guards id actor s ≡ ok t → Found id s
  unfolding release_guards require_task
  release-Found g = (t, ground arith)

  block-Found : block_guards id actor s ≡ ok t → Found id s
  unfolding block_guards require_task
  block-Found g = (t, ground arith)

  unblock-Found : unblock_guards id s ≡ ok t → Found id s
  unfolding unblock_guards require_task
  unblock-Found g = (t, ground arith)

  log-Found : log_guards id actor s ≡ ok t → Found id s
  unfolding log_guards require_task
  log-Found g = (t, ground arith)

  live_lease-Found : (now : ℕ) → require_live_lease id actor now s ≡ ok t → Found id s
  unfolding require_live_lease
  live_lease-Found now g = (t, ground arith)

  handoff-Found :
      (now : ℕ) (extra : Dict Bytes Bytes) → handoff_guards id actor extra now s ≡ ok t → Found id s
  unfolding handoff_guards require_live_lease
  handoff-Found now extra g = (t, ground arith)

perform-Found :
    (r : Resolver) (now i : ℕ) (c : Call) (s : TaskStore)
    → (perform r now c s).1 ≡ ok i
    → Found (target c) s
unfolding perform claim_task complete_task release_task block_task unblock_task log_task renew_lease
    handoff_task
perform-Found r now i (claim id actor ttl) s =
    guarded-Found id i s _ _ λ t. claim-Found id actor s t r now
perform-Found r now i (complete id actor) s =
    guarded-Found id i s _ _ λ t. complete-Found id actor s t r
perform-Found r now i (release id actor failure) s =
    guarded-Found id i s _ _ λ t. release-Found id actor s t
perform-Found r now i (block id actor reason) s =
    guarded-Found id i s _ _ λ t. block-Found id actor s t
perform-Found r now i (unblock id actor) s =
    guarded-Found id i s _ _ λ t. unblock-Found id actor s t
perform-Found r now i (log id actor message) s =
    guarded-Found id i s _ _ λ t. log-Found id actor s t
perform-Found r now i (renew id actor ttl) s =
    guarded-Found id i s _ _ λ t. live_lease-Found id actor s t now
perform-Found r now i (handoff id actor extra) s =
    guarded-Found id i s _ _ λ t. handoff-Found id actor s t now extra

keys-Found : (k : ℕ) (m : Dict ℕ Task) → has k (keys m) ≡ true → (t : Task) × (lookup k m ≡ some t)
unfolding lookup keys has
keys-Found k [] h = absurd (cc)
keys-Found k ((j, t) ∷ m) h = elim (Bool-cases (nat_eq j k)) [
  | inl here ↦ (t, ground arith)
  | inr there ↦ let rest = keys-Found k m (ground arith) in (rest.0, ground (arith, rest.1))
]

-- The task of a transition that succeeds is in the store behind it.
pub perform-target :
    (r : Resolver) (now i : ℕ) (c : Call) (s : TaskStore)
    → (perform r now c s).1 ≡ ok i
    → Found (target c) (perform r now c s).0
unfolding get_task
perform-target r now i c s h =
    let found = perform-Found r now i c s h in
    keys-Found (target c) (perform r now c s).0.tasks
      (rw (perform-Keeps r now c s) (lookup-keys (target c) s.tasks {v = found.0} found.1))
