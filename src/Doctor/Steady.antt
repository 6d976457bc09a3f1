-- ===== src/Doctor/Steady.antt =====
-- internal/cli/cmd_doctor.go against the transitions of coordination_ops.go, lease.go and handoff.go.
use terminal_todo.Base.{
  Eq-nat, ℕ, ◌<◌, ◌≡◌, refl, false, [], Bytes, arith, Bool-cases, inl, inr, bytes_eq,
}
use terminal_todo.Base.Dict.{Dict}
use terminal_todo.Store.{TaskStore}
use terminal_todo.Store.Ops.{get_task}
use terminal_todo.Dag.Ready.{Resolver}
use terminal_todo.Lifecycle.Leases.{
  claim_guards, claim_task, lease_to, lease_end, complete_guards, complete_task, finish,
  release_guards, release_task, count_retry, note_error, block_guards, block_task, block_for,
  unblock_guards, unblock_task, reopen, log_guards, log_task, renew_lease, extend_lease,
  handoff_guards, handoff_task, add_extra,
}
use terminal_todo.Lifecycle.Guards.{require_live_lease}
use terminal_todo.Lifecycle.Invariant.{
  Call, claim, complete, release, block, unblock, log, renew, handoff, perform,
}
use terminal_todo.Doctor.{field_problems}
use terminal_todo.Doctor.Entries.{IsHealthy}
use terminal_todo.Doctor.Writes.{
  event-IsHealthy, logged-IsHealthy, changed-IsHealthy, guarded-holds, event-IsOpen, aside-IsOpen,
  logged-IsOpen, yield-IsHealthy, found-IsOpen,
}

-- What a call has to bring: a claim names its agent, and the times that it sets are not 0.
abbrev pub IsTimed : ℕ → Call → Type 0
IsTimed now (claim id actor ttl) = (bytes_eq actor [] ≡ false) × (0 < lease_end now ttl)
IsTimed now (complete id actor) = 0 < now
IsTimed now (renew id actor ttl) = 0 < lease_end now ttl
IsTimed now _ = Unit {0}

module _ (now id : ℕ) (actor : Bytes) (s : TaskStore) (h : IsHealthy s) where
  claim-IsHealthy :
      (ttl : ℕ) (r : Resolver)
      → IsTimed now (claim id actor ttl)
      → IsHealthy (claim_task id actor ttl r now s).0
  unfolding claim_task claim_guards get_task
  claim-IsHealthy ttl r (named, later) =
      guarded-holds IsHealthy s (claim_guards id actor r now s) _ h λ t g.
        event-IsHealthy now _ id actor _ _ (
          logged-IsHealthy now id actor _ _ (
            changed-IsHealthy id (lease_to actor (lease_end now ttl)) s t (λ x. (refl, refl))
              (ground arith) (λ fit. (fit.0, fit.1, ground arith, ground arith)) h))

  complete-IsHealthy : (r : Resolver) → 0 < now → IsHealthy (complete_task id actor r now s).0
  unfolding complete_task complete_guards get_task bytes_eq
  complete-IsHealthy r later = guarded-holds IsHealthy s (complete_guards id actor r s) _ h λ t g.
      event-IsHealthy now _ id actor _ _ (
        changed-IsHealthy id (finish now) s t (λ x. (refl, refl)) (ground arith)
          (λ fit. (fit.0, fit.1, ground arith, ground arith)) h)

  release-IsHealthy : (failure : Bytes) → IsHealthy (release_task id actor failure now s).0
  unfolding release_task release_guards get_task field_problems
  release-IsHealthy failure = guarded-holds IsHealthy s (release_guards id actor s) _ h λ t g.
      let o = found-IsOpen id s t (ground arith) (ground arith) h in
      let counted = aside-IsOpen id count_retry s (λ x. (refl, refl)) (λ x q. q) (λ x. refl) o in
      elim (Bool-cases (bytes_eq failure [])) [
        | inl quiet ↦ rw quiet (
            yield-IsHealthy id _
              (event-IsOpen now _ id actor _ _ (logged-IsOpen now id actor _ _ counted)))
        | inr loud ↦ rw loud (
            yield-IsHealthy id _ (
              event-IsOpen now _ id actor _ _ (
                logged-IsOpen now id actor _ _ (
                  aside-IsOpen id (note_error failure) _ (λ x. (refl, refl)) (λ x q. q) (λ x. refl)
                    counted))))
      ]

  block-IsHealthy : (reason : Bytes) → IsHealthy (block_task id actor reason now s).0
  unfolding block_task block_guards get_task bytes_eq
  block-IsHealthy reason = guarded-holds IsHealthy s (block_guards id actor s) _ h λ t g.
      event-IsHealthy now _ id actor _ _ (
        logged-IsHealthy now id actor _ _ (
          changed-IsHealthy id (block_for reason) s t (λ x. (refl, refl)) (ground arith)
            (λ fit. (fit.0, fit.1, ground arith, ground arith)) h))

  unblock-IsHealthy : IsHealthy (unblock_task id actor now s).0
  unfolding unblock_task unblock_guards get_task bytes_eq
  unblock-IsHealthy = guarded-holds IsHealthy s (unblock_guards id s) _ h λ t g.
      event-IsHealthy now _ id actor _ _ (
        logged-IsHealthy now id actor _ _ (
          changed-IsHealthy id reopen s t (λ x. (refl, refl)) (ground arith)
            (λ fit. (fit.0, fit.1, ground arith, ground arith)) h))

  log-IsHealthy : (message : Bytes) → IsHealthy (log_task id actor message now s).0
  unfolding log_task
  log-IsHealthy message =
      guarded-holds IsHealthy s (log_guards id actor s) _ h
        λ t g. logged-IsHealthy now id actor message s h

  renew-IsHealthy : (ttl : ℕ) → 0 < lease_end now ttl → IsHealthy (renew_lease id actor ttl now s).0
  unfolding renew_lease require_live_lease get_task
  renew-IsHealthy ttl later =
      guarded-holds IsHealthy s (require_live_lease id actor now s) _ h λ t g.
        event-IsHealthy now _ id actor _ _ (
          changed-IsHealthy id (extend_lease (lease_end now ttl)) s t (λ x. (refl, refl))
            (ground arith) (λ fit. (fit.0, fit.1, ground arith, ground arith)) h)

  handoff-IsHealthy : (extra : Dict Bytes Bytes) → IsHealthy (handoff_task id actor extra now s).0
  unfolding handoff_task handoff_guards require_live_lease get_task field_problems
  handoff-IsHealthy extra =
      guarded-holds IsHealthy s (handoff_guards id actor extra now s) _ h λ t g.
        let o = found-IsOpen id s t (ground arith) (ground arith) h in
        yield-IsHealthy id _ (
          event-IsOpen now _ id actor _ _ (
            logged-IsOpen now id actor _ _ (
              event-IsOpen now _ id actor _ _ (
                aside-IsOpen id (add_extra extra) s (λ x. (refl, refl)) (λ x q. q) (λ x. refl) o))))

-- A store in which the doctor finds no problem has none after any of the eight transitions, on
-- success and on error, if a claim names its agent and the times that a call sets are not 0.
pub perform-IsHealthy :
    (r : Resolver) (now : ℕ) (c : Call) (s : TaskStore)
    → IsTimed now c
    → IsHealthy s
    → IsHealthy (perform r now c s).0
unfolding perform
perform-IsHealthy r now (claim id actor ttl) s p h = claim-IsHealthy now id actor s h ttl r p
perform-IsHealthy r now (complete id actor) s p h = complete-IsHealthy now id actor s h r p
perform-IsHealthy r now (release id actor failure) s p h =
    release-IsHealthy now id actor s h failure
perform-IsHealthy r now (block id actor reason) s p h = block-IsHealthy now id actor s h reason
perform-IsHealthy r now (unblock id actor) s p h = unblock-IsHealthy now id actor s h
perform-IsHealthy r now (log id actor message) s p h = log-IsHealthy now id actor s h message
perform-IsHealthy r now (renew id actor ttl) s p h = renew-IsHealthy now id actor s h ttl p
perform-IsHealthy r now (handoff id actor extra) s p h = handoff-IsHealthy now id actor s h extra
