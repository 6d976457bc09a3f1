-- ===== src/Allocation/Counts.antt =====
-- internal/cli/allocation.go: the counters and the reason of `diagnoseAllocation`, and
-- `computeAgentLoad` of internal/cli/agents.go.
use terminal_todo.Base.{
  ◌⊎◌, Eq-nat, ℕ, suc, ◌+◌, ◌≤◌, ◌<◌, ◌≡◌, refl, ◌∙◌, Bool, true, false, List, [], ◌∷◌, Option,
  none, some, arith, Bytes, length, bytes_eq, Bool-cases, inl, inr,
}
use terminal_todo.Base.Dict.{values}
use terminal_todo.Store.{Task, TaskStatus, pending, in_progress, completed, blocked, TaskStore}
use terminal_todo.Dag.Ready.{Resolver}
use terminal_todo.Allocation.Diagnose.{
  Counts, count_by, count_tasks, no_counts, diagnose_allocation, reason_for, worker_of,
  AllocationDiagnostics, AllocationWorkerDiagnostics, AllocationReason, worker_at_capacity, ready,
  no_pending_work, dependencies_incomplete, capabilities_unavailable, work_owned_by_others,
  work_in_progress,
}
use terminal_todo.Allocation.Acquire.{load_among, compute_agent_load}

module _ (s : TaskStore) (r : Resolver) (actor : Bytes) where
  abbrev run : List Task → Counts → Counts
  run = count_tasks s r actor

  count-total :
      (ts : List Task) (c : Counts)
      → let d = run ts c in
        d.pending_count + d.in_progress_count + d.blocked_count + d.completed_count
        ≡ c.pending_count + c.in_progress_count + c.blocked_count + c.completed_count + length ts
  unfolding count_tasks
  count-total [] c = omega arith
  count-total (t ∷ ts) c =
      count_step t.status t ts c (count-total ts (count_by t.status s r actor t c))
    where
      count_step :
          (st : TaskStatus) (t : Task) (ts : List Task) (c : Counts)
          → (let d = run ts (count_by st s r actor t c) in
              let c' = count_by st s r actor t c in
              d.pending_count + d.in_progress_count + d.blocked_count + d.completed_count
              ≡ c'.pending_count
                + c'.in_progress_count
                + c'.blocked_count
                + c'.completed_count
                + length ts)
          → (let d = run ts (count_by st s r actor t c) in
              d.pending_count + d.in_progress_count + d.blocked_count + d.completed_count
              ≡ c.pending_count
                + c.in_progress_count
                + c.blocked_count
                + c.completed_count
                + suc (length ts))
      count_step pending t ts c h = omega arith
      count_step in_progress t ts c h = omega arith
      count_step blocked t ts c h = omega arith
      count_step completed t ts c h = omega arith

  count-owned :
      (ts : List Task) (c : Counts)
      → c.in_progress_count ≡ c.owned_by_actor + c.owned_by_others
      → c.dependency_blocked ≤ c.pending_count
      → c.retried_pending ≤ c.pending_count
      → let d = run ts c in
        (d.in_progress_count ≡ d.owned_by_actor + d.owned_by_others)
        × (d.dependency_blocked ≤ d.pending_count)
        × (d.retried_pending ≤ d.pending_count)
  unfolding count_tasks
  count-owned [] c h p q = (h, p, q)
  count-owned (t ∷ ts) c h p q =
      let k = count_keeps t.status t c h p q in
      count-owned ts (count_by t.status s r actor t c) k.0 k.1 k.2
    where
      count_keeps :
          (st : TaskStatus) (t : Task) (c : Counts)
          → c.in_progress_count ≡ c.owned_by_actor + c.owned_by_others
          → c.dependency_blocked ≤ c.pending_count
          → c.retried_pending ≤ c.pending_count
          → let d = count_by st s r actor t c in
            (d.in_progress_count ≡ d.owned_by_actor + d.owned_by_others)
            × (d.dependency_blocked ≤ d.pending_count)
            × (d.retried_pending ≤ d.pending_count)
      count_keeps pending t c h p q = ground arith
      count_keeps in_progress t c h p q = ground arith
      count_keeps blocked t c h p q = ground arith
      count_keeps completed t c h p q = ground arith

  count-load :
      (ts : List Task) (c : Counts)
      → bytes_eq actor [] ≡ false
      → (run ts c).owned_by_actor ≡ c.owned_by_actor + load_among actor ts
  unfolding count_tasks load_among
  count-load [] c n = omega arith
  count-load (t ∷ ts) c n =
      load_step t.status t ts c n (count-load ts (count_by t.status s r actor t c) n) refl
    where
      load_step :
          (st : TaskStatus) (t : Task) (ts : List Task) (c : Counts)
          → bytes_eq actor [] ≡ false
          → (run ts (count_by st s r actor t c)).owned_by_actor
            ≡ (count_by st s r actor t c).owned_by_actor + load_among actor ts
          → t.status ≡ st
          → (run ts (count_by st s r actor t c)).owned_by_actor
            ≡ c.owned_by_actor + load_among actor (t ∷ ts)
      load_step pending t ts c n h e = rw (e, load_among) (ground arith)
      load_step in_progress t ts c n h e = rw (e, load_among) (ground arith)
      load_step blocked t ts c n h e = rw (e, load_among) (ground arith)
      load_step completed t ts c n h e = rw (e, load_among) (ground arith)

-- The load of a worker, by its diagnosis.
abbrev pub WorkerAgrees :
    TaskStore → Bytes → AllocationDiagnostics → Option AllocationWorkerDiagnostics → Type 0
WorkerAgrees s actor d none = bytes_eq actor [] ≡ true
WorkerAgrees s actor d (some w) =
    (w.current_load ≡ compute_agent_load s actor)
    × (d.queue.in_progress_count ≡ w.owned + w.owned_by_others)

-- At the limit: the diagnosis names the worker, which has a limit, and its load is at least that.
abbrev pub AtCapacity : Option AllocationWorkerDiagnostics → Type 0
AtCapacity none = ⊥
AtCapacity (some w) = (0 < w.max_load) × (w.max_load ≤ w.current_load)

abbrev pub BelowCapacity : Option AllocationWorkerDiagnostics → Type 0
BelowCapacity none = Unit {0}
BelowCapacity (some w) = (w.max_load ≡ 0) ⊎ (w.current_load < w.max_load)

-- The work in progress of others than the worker, which is all of it if none is named.
abbrev pub work_of_others : AllocationDiagnostics → Option AllocationWorkerDiagnostics → ℕ
work_of_others d none = d.queue.in_progress_count
work_of_others d (some w) = w.owned_by_others

abbrev pub IsNamed : Option AllocationWorkerDiagnostics → Type 0
IsNamed none = ⊥
IsNamed (some w) = Unit {0}

-- What the counters, the limit and the load say where a reason is given.
abbrev pub ReasonAgrees : AllocationDiagnostics → AllocationReason → Type 0
ReasonAgrees d worker_at_capacity = AtCapacity d.worker
ReasonAgrees d ready = BelowCapacity d.worker × (0 < d.queue.compatible_ready)
ReasonAgrees d dependencies_incomplete =
    BelowCapacity d.worker
    × (d.queue.compatible_ready ≡ 0)
    × (0 < d.queue.pending_count)
    × (d.queue.ready_count ≡ 0)
ReasonAgrees d capabilities_unavailable =
    BelowCapacity d.worker
    × (d.queue.compatible_ready ≡ 0)
    × (0 < d.queue.pending_count)
    × (0 < d.queue.ready_count)
ReasonAgrees d work_owned_by_others =
    BelowCapacity d.worker
    × (d.queue.compatible_ready ≡ 0)
    × (d.queue.pending_count ≡ 0)
    × IsNamed d.worker
    × (0 < work_of_others d d.worker)
ReasonAgrees d work_in_progress =
    BelowCapacity d.worker
    × (d.queue.compatible_ready ≡ 0)
    × (d.queue.pending_count ≡ 0)
    × (d.worker ≡ none)
    × (0 < work_of_others d d.worker)
ReasonAgrees d no_pending_work =
    BelowCapacity d.worker
    × (d.queue.compatible_ready ≡ 0)
    × (d.queue.pending_count ≡ 0)
    × (work_of_others d d.worker ≡ 0)

-- What ties the counters of a diagnosis to the tasks and to each other.
pub record Agrees (s : TaskStore) (actor : Bytes) (d : AllocationDiagnostics) : Type 0 where
  pub all_counted :
      d.queue.pending_count + d.queue.in_progress_count + d.queue.blocked_count
        + d.queue.completed_count
      ≡ length (values s.tasks)
  pub waiting : d.queue.dependency_blocked ≤ d.queue.pending_count
  pub retried : d.queue.retried_pending ≤ d.queue.pending_count
  pub load : WorkerAgrees s actor d d.worker
  pub explained : ReasonAgrees d d.reason

WorkerAgrees-worker_of :
    (s : TaskStore) (r : Resolver) (actor : Bytes) (d : AllocationDiagnostics) (max_load : ℕ)
    → let c = count_tasks s r actor (values s.tasks) no_counts in
      d.queue.in_progress_count ≡ c.in_progress_count
      → WorkerAgrees s actor d (worker_of actor max_load c)
unfolding compute_agent_load
WorkerAgrees-worker_of s r actor d max_load e = elim (Bool-cases (bytes_eq actor [])) [
  | inl n ↦ rw n n
  | inr n ↦ rw n (
    omega (arith, count-load s r actor (values s.tasks) no_counts n),
    e
        ∙ (count-owned s r actor (values s.tasks) no_counts (omega arith) (omega arith)
            (omega arith)).0,
  )
]

ReasonAgrees-reason_for :
    (actor : Bytes) (max_load ready_count compatible : ℕ) (c : Counts) (d : AllocationDiagnostics)
    → d.queue.ready_count ≡ ready_count
    → d.queue.compatible_ready ≡ compatible
    → d.queue.pending_count ≡ c.pending_count
    → d.queue.in_progress_count ≡ c.in_progress_count
    → d.worker ≡ worker_of actor max_load c
    → ReasonAgrees d (reason_for actor max_load ready_count compatible c)
unfolding reason_for
ReasonAgrees-reason_for actor max_load ready_count compatible c d e f g h w = rw w (ground arith)

-- The counters of a diagnosis cover every task once; a named worker's load is the one that
-- `computeAgentLoad` counts and, with the work of others, makes up all work in progress; each reason
-- is given only where the counters say so.
pub diagnose_allocation-Agrees :
    (s : TaskStore) (r : Resolver) (actor : Bytes) (capabilities : List Bytes)
    (filter_capabilities : Bool) (max_load : ℕ)
    → Agrees s actor (diagnose_allocation s r actor capabilities filter_capabilities max_load)
unfolding diagnose_allocation reason_for compute_agent_load
diagnose_allocation-Agrees s r actor caps f max_load =
    let tasks = values s.tasks in
    let owned = count-owned s r actor tasks no_counts (omega arith) (omega arith) (omega arith) in
    record {
      all_counted = omega (arith, count-total s r actor tasks no_counts);
      waiting = owned.1;
      retried = owned.2;
      load =
          WorkerAgrees-worker_of s r actor (diagnose_allocation s r actor caps f max_load) max_load
            refl;
      explained =
          ReasonAgrees-reason_for actor max_load _ _ (count_tasks s r actor tasks no_counts)
            (diagnose_allocation s r actor caps f max_load) refl refl refl refl refl;
    }
