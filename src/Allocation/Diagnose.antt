-- ===== src/Allocation/Diagnose.antt =====
-- internal/cli/allocation.go: `diagnoseAllocation`. The set of required capabilities and of
-- blockers is a list without duplicates.
use terminal_todo.Base.{
  Eq-bytes, Eq-nat, ℕ, suc, ◌-◌, Bool, true, false, not, ◌&&◌, List, [], ◌∷◌, Option, none, some,
  Bytes, nat_eq, ltb, leb, if◌then◌else◌, bytes_eq, has, length,
}
use terminal_todo.Base.Dict.{Dict, values}
use terminal_todo.Store.{Task, TaskStatus, pending, in_progress, completed, blocked, TaskStore}
use terminal_todo.Dag.Ready.{Resolver, dependency_complete, dependencies_complete}
use terminal_todo.Lifecycle.Decompose.{add_to_set}
use terminal_todo.Allocation.Compact.{bounded_allocation_diagnostic_values}
use terminal_todo.Allocation.Rank.{matches_capabilities, ranked_ready_tasks}

pub data AllocationReason : Type 0 where
  ready no_pending_work dependencies_incomplete capabilities_unavailable : AllocationReason
  work_owned_by_others work_in_progress worker_at_capacity : AllocationReason

pub record AllocationQueueDiagnostics : Type 0 where
  pub pending_count : ℕ
  pub ready_count : ℕ
  pub compatible_ready : ℕ
  pub dependency_blocked : ℕ
  pub dependency_blockers : List Bytes
  pub dependency_blockers_total : ℕ
  pub dependency_blockers_truncated : Bool
  pub capability_mismatch : ℕ
  pub missing_capabilities : List Bytes
  pub missing_capabilities_total : ℕ
  pub missing_capabilities_truncated : Bool
  pub in_progress_count : ℕ
  pub blocked_count : ℕ
  pub completed_count : ℕ
  pub retried_pending : ℕ

pub record AllocationWorkerDiagnostics : Type 0 where
  pub current_load : ℕ
  pub max_load : ℕ
  pub owned : ℕ
  pub owned_by_others : ℕ

pub record AllocationDiagnostics : Type 0 where
  pub reason : AllocationReason
  pub requested_capabilities : List Bytes
  pub requested_capabilities_total : ℕ
  pub requested_capabilities_truncated : Bool
  pub queue : AllocationQueueDiagnostics
  pub worker : Option AllocationWorkerDiagnostics

-- A Go set from a list.
unfoldable pub to_set : List Bytes → List Bytes
to_set [] = []
to_set (x ∷ xs) = add_to_set x (to_set xs)

-- The required capabilities of one task that are not provided, put into a set.
unfoldable pub add_missing : List Bytes → List Bytes → List Bytes → List Bytes
add_missing provided [] missing = missing
add_missing provided (c ∷ required) missing =
    add_missing provided required (if has c provided then missing else add_to_set c missing)

unfoldable pub missing_among : List Bytes → List Task → List Bytes → List Bytes
unfolding matches_capabilities add_missing
missing_among provided [] missing = missing
missing_among provided (t ∷ ts) missing = missing_among provided ts (
    if matches_capabilities t.capabilities provided
    then missing
    else add_missing provided t.capabilities missing)

-- The references of one task that are not met, put into a set.
unfoldable pub add_blockers : Dict ℕ Task → Resolver → List Bytes → List Bytes → List Bytes
unfolding dependency_complete
add_blockers tasks resolver [] blockers = blockers
add_blockers tasks resolver (dep ∷ deps) blockers =
    add_blockers tasks resolver deps
      (if dependency_complete tasks resolver dep then blockers else add_to_set dep blockers)

-- The counters of the loop over the tasks.
pub record Counts : Type 0 where
  pub pending_count : ℕ
  pub dependency_blocked : ℕ
  pub blockers : List Bytes
  pub retried_pending : ℕ
  pub in_progress_count : ℕ
  pub owned_by_actor : ℕ
  pub owned_by_others : ℕ
  pub blocked_count : ℕ
  pub completed_count : ℕ

abbrev count_pending : TaskStore → Resolver → Task → Counts → Counts
count_pending s resolver t c =
    let waits = not (dependencies_complete t s.tasks resolver) in
    record c {
      pending_count = suc c.pending_count;
      dependency_blocked = if waits then suc c.dependency_blocked else c.dependency_blocked;
      blockers = if waits then add_blockers s.tasks resolver t.depends c.blockers else c.blockers;
      retried_pending = if ltb 0 t.retry_count then suc c.retried_pending else c.retried_pending;
    }

abbrev pub is_owned_by : Bytes → Task → Bool
is_owned_by actor t = not (bytes_eq actor []) && bytes_eq t.owner actor

abbrev count_in_progress : Bytes → Task → Counts → Counts
count_in_progress actor t c =
    let mine = is_owned_by actor t in
    record c {
      in_progress_count = suc c.in_progress_count;
      owned_by_actor = if mine then suc c.owned_by_actor else c.owned_by_actor;
      owned_by_others = if mine then c.owned_by_others else suc c.owned_by_others;
    }

unfoldable pub count_by : TaskStatus → TaskStore → Resolver → Bytes → Task → Counts → Counts
unfolding add_blockers dependencies_complete
count_by pending s resolver actor t c = count_pending s resolver t c
count_by in_progress s resolver actor t c = count_in_progress actor t c
count_by blocked s resolver actor t c = record c { blocked_count = suc c.blocked_count }
count_by completed s resolver actor t c = record c { completed_count = suc c.completed_count }

unfoldable pub count_tasks : TaskStore → Resolver → Bytes → List Task → Counts → Counts
unfolding count_by
count_tasks s resolver actor [] c = c
count_tasks s resolver actor (t ∷ ts) c =
    count_tasks s resolver actor ts (count_by t.status s resolver actor t c)

abbrev pub no_counts : Counts
no_counts = record {
  pending_count = 0;
  dependency_blocked = 0;
  blockers = [];
  retried_pending = 0;
  in_progress_count = 0;
  owned_by_actor = 0;
  owned_by_others = 0;
  blocked_count = 0;
  completed_count = 0;
}

-- The switch at the end.
unfoldable pub reason_for : Bytes → ℕ → ℕ → ℕ → Counts → AllocationReason
reason_for actor max_load ready_count compatible c =
    let named = not (bytes_eq actor []) in
    if named && (ltb 0 max_load && leb max_load c.owned_by_actor)
    then worker_at_capacity
    else if ltb 0 compatible
    then ready
    else if ltb 0 c.pending_count && nat_eq ready_count 0
    then dependencies_incomplete
    else if ltb 0 c.pending_count
    then capabilities_unavailable
    else if named && ltb 0 c.owned_by_others
    then work_owned_by_others
    else if not named && ltb 0 c.in_progress_count
    then work_in_progress
    else no_pending_work

abbrev pub worker_of : Bytes → ℕ → Counts → Option AllocationWorkerDiagnostics
worker_of actor max_load c =
    if bytes_eq actor []
    then none
    else some (record {
      current_load = c.owned_by_actor;
      max_load = max_load;
      owned = c.owned_by_actor;
      owned_by_others = c.owned_by_others;
    })

unfoldable pub diagnose_allocation :
    TaskStore → Resolver → Bytes → List Bytes → Bool → ℕ → AllocationDiagnostics
unfolding to_set bounded_allocation_diagnostic_values ranked_ready_tasks missing_among count_tasks
    reason_for
diagnose_allocation s resolver actor capabilities filter_capabilities max_load =
    let requested = bounded_allocation_diagnostic_values (to_set capabilities) in
    let ready_tasks = ranked_ready_tasks s resolver capabilities false in
    let compatible =
      if filter_capabilities
      then ranked_ready_tasks s resolver capabilities true
      else ready_tasks in
    let missing =
      bounded_allocation_diagnostic_values
        (if filter_capabilities then missing_among capabilities ready_tasks [] else []) in
    let c = count_tasks s resolver actor (values s.tasks) no_counts in
    let blockers = bounded_allocation_diagnostic_values c.blockers in
    record {
      reason = reason_for actor max_load (length ready_tasks) (length compatible) c;
      requested_capabilities = requested.items;
      requested_capabilities_total = requested.total;
      requested_capabilities_truncated = requested.truncated;
      queue = record {
        pending_count = c.pending_count;
        ready_count = length ready_tasks;
        compatible_ready = length compatible;
        dependency_blocked = c.dependency_blocked;
        dependency_blockers = blockers.items;
        dependency_blockers_total = blockers.total;
        dependency_blockers_truncated = blockers.truncated;
        capability_mismatch = length ready_tasks - length compatible;
        missing_capabilities = missing.items;
        missing_capabilities_total = missing.total;
        missing_capabilities_truncated = missing.truncated;
        in_progress_count = c.in_progress_count;
        blocked_count = c.blocked_count;
        completed_count = c.completed_count;
        retried_pending = c.retried_pending;
      };
      worker = worker_of actor max_load c;
    }
