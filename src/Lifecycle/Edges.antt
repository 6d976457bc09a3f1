-- ===== src/Lifecycle/Edges.antt =====
-- internal/cli/coordination_ops.go, lease.go and handoff.go: operations that add no edge to the
-- dependency graph.
use terminal_todo.Base.{
  Eq-nat, ℕ, ◌≡◌, refl, sym, ◌∙◌, true, List, [], ◌∷◌, arith, Bytes, Option-cases, Bool-cases, inl,
  inr, bytes_eq, ap,
}
use terminal_todo.Base.Dict.{Dict, values}
use terminal_todo.Store.{Task, TaskStore, EventType, lease_expired}
use terminal_todo.Store.Ops.{
  get_task, add_event, add_log, push_log, reset_lease, expired_ids, sort_ids, expire_one,
  expire_all, clean_expired_leases,
}
use terminal_todo.Store.Invariant.{IsWellFormed}
use terminal_todo.Dag.Ready.{Resolver}
use terminal_todo.Dag.Build.{depends_on, has-build_from_tasks}
use terminal_todo.Dag.Search.Relation.{IsAcyclic, IsAcyclic-mono}
use terminal_todo.Lifecycle.Leases.{
  write, logged, claim_guards, complete_guards, release_guards, block_guards, unblock_guards,
  log_guards, handoff_guards, claim_task, lease_to, lease_end, complete_task, finish, release_task,
  count_retry, note_error, yield_lease, block_task, block_for, unblock_task, reopen, log_task,
  renew_lease, extend_lease, handoff_task, add_extra,
}
use terminal_todo.Lifecycle.Guards.{require_live_lease}
use terminal_todo.Lifecycle.Acyclic.{graph, depends_on-modify}
use terminal_todo.Lifecycle.Invariant.{
  Call, claim, complete, release, block, unblock, log, renew, handoff, perform, guarded_inv,
}

-- A well-formed store whose dependency graph has no cycle.
pub record IsSteady (s : TaskStore) : Type 0 where
  pub well_formed : IsWellFormed s
  pub acyclic : IsAcyclic (graph s)

-- Each edge of the second store is one of the first.
pub record FewerEdges (s s' : TaskStore) : Type 0 where
  pub fewer :
      (u v : ℕ) → depends_on (values s'.tasks) u v ≡ true → depends_on (values s.tasks) u v ≡ true

pub FewerEdges-IsAcyclic :
    {s s' : TaskStore} → FewerEdges s s' → IsAcyclic (graph s) → IsAcyclic (graph s')
FewerEdges-IsAcyclic {s} {s'} f acyclic =
    IsAcyclic-mono
      (λ u v e.
        has-build_from_tasks u v s.tasks
        ∙ f.fewer u v (sym (has-build_from_tasks u v s'.tasks) ∙ e))
      acyclic

pub FewerEdges-same : {s s' : TaskStore} → s'.tasks ≡ s.tasks → FewerEdges s s'
FewerEdges-same e = record { fewer = λ u v h. ap (λ m. depends_on (values m) u v) (sym e) ∙ h }

pub FewerEdges-refl : (s : TaskStore) → FewerEdges s s
FewerEdges-refl s = record { fewer = λ u v h. h }

pub FewerEdges-trans : {s t u : TaskStore} → FewerEdges s t → FewerEdges t u → FewerEdges s u
FewerEdges-trans f g = record { fewer = λ u v h. f.fewer u v (g.fewer u v h) }

module _ {s s' : TaskStore} (f : FewerEdges s s') where
  pub event-FewerEdges :
      (now : ℕ) (type : EventType) (id : ℕ) (actor : Bytes) (details : Dict Bytes Bytes)
      → FewerEdges s (add_event now type id actor details s')
  unfolding add_event
  event-FewerEdges now type id actor details = record { fewer = f.fewer }

  pub write-FewerEdges :
      (id : ℕ) (g : Task → Task)
      → ((t : Task) → ((g t).id ≡ t.id) × ((g t).depends ≡ t.depends))
      → FewerEdges s (write id g s')
  write-FewerEdges id g same = record {
    fewer = λ u v h. f.fewer u v (sym (depends_on-modify id g s'.tasks u v same) ∙ h);
  }

  pub logged-FewerEdges :
      (now id : ℕ) (actor message : Bytes) → FewerEdges s (logged now id actor message s')
  unfolding add_log
  logged-FewerEdges now id actor message = elim (Option-cases (get_task id s')) [
    | inl e ↦ rw (logged, e, add_log) f
    | inr (t, e) ↦
        rw (logged, e, add_log)
          (record {
            fewer = (write-FewerEdges id (push_log now actor message) (λ t. (refl, refl))).fewer;
          })
  ]

module _ (now id : ℕ) (actor : Bytes) (s : TaskStore) where
  kept : FewerEdges s s
  kept = FewerEdges-refl s

  -- A write, a log entry and an event behind it.
  written :
      (type : EventType) (details : Dict Bytes Bytes) (message : Bytes) (g : Task → Task)
      → ((t : Task) → ((g t).id ≡ t.id) × ((g t).depends ≡ t.depends))
      → FewerEdges s
          (add_event now type id actor details (logged now id actor message (write id g s)))
  written type details message g same =
      event-FewerEdges (logged-FewerEdges (write-FewerEdges kept id g same) now id actor message)
        now type id actor details

  released : (failure : Bytes) → FewerEdges s (release_task id actor failure now s).0
  unfolding release_task
  released failure = guarded_inv (FewerEdges s) s (release_guards id actor s) _ kept λ t g.
      let retried = write-FewerEdges kept id count_retry (λ t. (refl, refl)) in
      elim (Bool-cases (bytes_eq failure [])) [
        | inl e ↦ rw e (
            write-FewerEdges
              (event-FewerEdges (logged-FewerEdges retried now id actor _) now _ id actor _) id
              yield_lease (λ t. (refl, refl)))
        | inr e ↦ rw e (
            write-FewerEdges
              (event-FewerEdges
                (logged-FewerEdges
                  (write-FewerEdges retried id (note_error failure) (λ t. (refl, refl))) now id
                  actor _)
                now _ id actor _)
              id yield_lease (λ t. (refl, refl)))
      ]

  handed_off : (extra : Dict Bytes Bytes) → FewerEdges s (handoff_task id actor extra now s).0
  unfolding handoff_task
  handed_off extra =
      guarded_inv (FewerEdges s) s (handoff_guards id actor extra now s) _ kept λ t g.
        write-FewerEdges
          (event-FewerEdges
            (logged-FewerEdges
              (event-FewerEdges (write-FewerEdges kept id (add_extra extra) (λ t. (refl, refl))) now
                _ id actor _)
              now id actor _)
            now _ id actor _)
          id yield_lease (λ t. (refl, refl))

pub perform-FewerEdges :
    (r : Resolver) (now : ℕ) (c : Call) (s : TaskStore) → FewerEdges s (perform r now c s).0
unfolding perform claim_task complete_task block_task unblock_task log_task renew_lease
perform-FewerEdges r now (claim id actor ttl) s =
    guarded_inv (FewerEdges s) s (claim_guards id actor r now s) _ (kept now id actor s)
      λ t g. written now id actor s _ _ _ (lease_to actor (lease_end now ttl)) (λ t. (refl, refl))
perform-FewerEdges r now (complete id actor) s =
    guarded_inv (FewerEdges s) s (complete_guards id actor r s) _ (kept now id actor s) λ t g.
      event-FewerEdges (write-FewerEdges (kept now id actor s) id (finish now) (λ t. (refl, refl)))
        now _ id actor _
perform-FewerEdges r now (release id actor failure) s = released now id actor s failure
perform-FewerEdges r now (block id actor reason) s =
    guarded_inv (FewerEdges s) s (block_guards id actor s) _ (kept now id actor s)
      λ t g. written now id actor s _ _ _ (block_for reason) (λ t. (refl, refl))
perform-FewerEdges r now (unblock id actor) s =
    guarded_inv (FewerEdges s) s (unblock_guards id s) _ (kept now id actor s)
      λ t g. written now id actor s _ _ _ reopen (λ t. (refl, refl))
perform-FewerEdges r now (log id actor message) s =
    guarded_inv (FewerEdges s) s (log_guards id actor s) _ (kept now id actor s)
      λ t g. logged-FewerEdges (kept now id actor s) now id actor message
perform-FewerEdges r now (renew id actor ttl) s =
    guarded_inv (FewerEdges s) s (require_live_lease id actor now s) _ (kept now id actor s) λ t g.
      event-FewerEdges
        (write-FewerEdges (kept now id actor s) id (extend_lease (lease_end now ttl))
          (λ t. (refl, refl)))
        now _ id actor _
perform-FewerEdges r now (handoff id actor extra) s = handed_off now id actor s extra

expire_one-FewerEdges : (now id : ℕ) (s : TaskStore) → FewerEdges s (expire_one now id s)
unfolding expire_one
expire_one-FewerEdges now id s = elim (Option-cases (get_task id s)) [
  | inl e ↦ rw (e, expire_one) (FewerEdges-refl s)
  | inr (t, e) ↦
      rw (e, expire_one)
        (event-FewerEdges (write-FewerEdges (FewerEdges-refl s) id reset_lease (λ t. (refl, refl)))
          now lease_expired t.id t.owner _)
]

expire_all-FewerEdges :
    (now : ℕ) (ids : List ℕ) (s : TaskStore) → FewerEdges s (expire_all now ids s)
unfolding expire_all
expire_all-FewerEdges now [] s = FewerEdges-refl s
expire_all-FewerEdges now (id ∷ ids) s =
    FewerEdges-trans (expire_one-FewerEdges now id s)
      (expire_all-FewerEdges now ids (expire_one now id s))

-- A reclaim leaves the edges alone.
pub clean-FewerEdges : (now : ℕ) (s : TaskStore) → FewerEdges s (clean_expired_leases now s).0
unfolding clean_expired_leases
clean-FewerEdges now s =
    let ids = sort_ids (expired_ids now (values s.tasks)) in
    FewerEdges-trans (expire_all-FewerEdges now ids s) (FewerEdges-same (ground arith))
