-- ===== src/Allocation/Steady.antt =====
-- internal/cli/allocation.go: `acquireFromStore` on well-formed stores without a cycle.
use terminal_todo.Base.{
  Eq-nat, Eq-bytes, ℕ, true, ◌+◌, ◌<◌, refl, List, [], ◌∷◌, Option, none, some, arith, Option-cases,
  Bool-cases, inl, inr, bytes_eq, not, ◌||◌,
}
use terminal_todo.Base.Text.{codes}
use terminal_todo.Base.Decimal.{u64_mod}
use terminal_todo.Base.Dict.{lookup}
use terminal_todo.Store.{Task, TaskStore, AcquisitionReceipt, task_claimed}
use terminal_todo.Store.Ops.{get_task, add_log}
use terminal_todo.Store.Invariant.{write-IsWellFormed, add_event-IsWellFormed, add_log-IsWellFormed}
use terminal_todo.Dag.Ready.{Resolver}
use terminal_todo.Lifecycle.Leases.{write, logged, lease_to, lease_end}
use terminal_todo.Lifecycle.Edges.{
  IsSteady, FewerEdges-refl, FewerEdges-IsAcyclic, write-FewerEdges, logged-FewerEdges,
  event-FewerEdges,
}
use terminal_todo.Allocation.Rank.{ranked_ready_tasks}
use terminal_todo.Allocation.Diagnose.{diagnose_allocation}
use terminal_todo.Allocation.Acquire.{
  AcquireRequest, acquire_operation, is_at_capacity, lease_acquired, claim_details, give_out,
  give_first, replay, acquire_from_store,
}

module _ (r : AcquireRequest) (now : ℕ) (s : TaskStore) (room : s.next_event_id + 1 < u64_mod)
    (v : IsSteady s) where
  lease_acquired-IsSteady : (id : ℕ) → IsSteady (lease_acquired r id now s)
  unfolding lease_acquired add_log
  lease_acquired-IsSteady id =
      let f = lease_to r.actor (lease_end now r.ttl) in
      let leased = write-IsWellFormed id f s (λ t e h. (refl, λ p. absurd (cc))) v.well_formed in
      record {
        well_formed =
            add_event-IsWellFormed now task_claimed id r.actor (claim_details r)
              (logged now id r.actor (codes "acquired") (write id f s)) (ground arith)
              (add_log-IsWellFormed now id r.actor _ (write id f s) leased);
        acyclic =
            FewerEdges-IsAcyclic
              (event-FewerEdges
                (logged-FewerEdges (write-FewerEdges (FewerEdges-refl s) id f (λ t. (refl, refl)))
                  now id r.actor (codes "acquired"))
                now task_claimed id r.actor (claim_details r))
              v.acyclic;
      }

  give_out-IsSteady :
      (s' : TaskStore) (o : Option Task) → IsSteady s' → IsSteady (give_out r now s' o).0
  give_out-IsSteady s' none w = w
  give_out-IsSteady s' (some t) w = record {
    well_formed = record {
      unique = w.well_formed.unique;
      entries = w.well_formed.entries;
      events_rise = w.well_formed.events_rise;
    };
    acyclic = w.acyclic;
  }

  give_first-IsSteady : (ts : List Task) → IsSteady (give_first r now s ts).0
  give_first-IsSteady [] = v
  give_first-IsSteady (t ∷ ts) =
      give_out-IsSteady (lease_acquired r t.id now s) (get_task t.id (lease_acquired r t.id now s))
        (lease_acquired-IsSteady t.id)

  replay-IsSteady : (receipt : AcquisitionReceipt) → IsSteady (replay r s receipt).0
  replay-IsSteady receipt =
      elim (Bool-cases (
        not (bytes_eq receipt.operation acquire_operation)
        || not (bytes_eq receipt.fingerprint r.fingerprint))) [ inl e ↦ rw e v | inr e ↦ rw e v ]

  -- An acquire request keeps the store well formed and its graph without a cycle.
  pub acquire_from_store-IsSteady :
      (resolver : Resolver) → IsSteady (acquire_from_store r resolver now s).0
  unfolding acquire_from_store
  acquire_from_store-IsSteady resolver = elim (Option-cases (lookup r.request_id s.acquisitions)) [
    | inr (receipt, e) ↦ rw (e, acquire_from_store) (replay-IsSteady receipt)
    | inl e ↦
        elim (Bool-cases (
          is_at_capacity
            (diagnose_allocation s resolver r.actor r.capabilities true r.max_load).reason)) [
              | inl full ↦ rw (e, full, acquire_from_store) v
              | inr free ↦
                  rw (e, free, acquire_from_store)
                    (give_first-IsSteady (ranked_ready_tasks s resolver r.capabilities true))
            ]
  ]
