-- ===== src/Allocation/Acquire.antt =====
-- internal/cli/allocation.go: `acquireFromStore`, `cloneTask` and `validateAcquireRequestID`;
-- internal/cli/agents.go: `computeAgentLoad`.
use terminal_todo.Base.{
  Eq-nat, Eq-bytes, ℕ, suc, Bool, true, false, not, ◌&&◌, ◌||◌, List, [], ◌∷◌, Option, none, some,
  Bytes, ltb, if◌then◌else◌, bytes_eq, length,
}
use terminal_todo.Base.Text.{codes, trim_space}
use terminal_todo.Base.Time.{duration_string}
use terminal_todo.Base.Dict.{Dict, lookup, insert, values}
use terminal_todo.Store.{Task, in_progress, status_eq, TaskStore, AcquisitionReceipt, task_claimed}
use terminal_todo.Store.Ops.{get_task, add_event, add_log}
use terminal_todo.Dag.Ready.{Resolver}
use terminal_todo.Errors.{
  err_acquire_request_conflict, err_agent_at_capacity, err_no_ready_tasks, unclassified, Result, ok,
  err, ◌>>◌, fail_if,
}
use terminal_todo.Lifecycle.Leases.{write, logged, lease_end, lease_to}
use terminal_todo.Allocation.Rank.{ranked_ready_tasks}
use terminal_todo.Allocation.Diagnose.{AllocationReason, worker_at_capacity, diagnose_allocation}

unfoldable pub validate_acquire_request_id : Bytes → Result (Unit {0})
validate_acquire_request_id request_id = do
  fail_if (bytes_eq (trim_space request_id) []) unclassified
  fail_if (ltb 128 (length request_id)) unclassified

abbrev pub acquire_operation : Bytes
acquire_operation = codes "acquire.v1"

abbrev pub is_at_capacity : AllocationReason → Bool
is_at_capacity worker_at_capacity = true
is_at_capacity _ = false

-- The parts of a request behind the transaction's opening.
pub record AcquireRequest : Type 0 where
  pub actor : Bytes
  pub request_id : Bytes
  pub fingerprint : Bytes
  pub ttl : ℕ
  pub capabilities : List Bytes
  pub max_load : ℕ

-- `(*store.Task, bool)`: a task by value, and whether it is a replay.
pub record Acquired : Type 0 where
  pub task : Task
  pub replayed : Bool

abbrev pub claim_details : AcquireRequest → Dict Bytes Bytes
claim_details r =
    (codes "ttl", duration_string r.ttl)
    ∷ (codes "mode", codes "acquire")
    ∷ (codes "request_id", r.request_id)
    ∷ []

-- The store with the task leased, before the receipt.
unfoldable pub lease_acquired : AcquireRequest → ℕ → ℕ → TaskStore → TaskStore
unfolding add_event add_log
lease_acquired r id now s =
    add_event now task_claimed id r.actor (claim_details r) (
      logged now id r.actor (codes "acquired")
        (write id (lease_to r.actor (lease_end now r.ttl)) s))

abbrev pub receipt_for : AcquireRequest → ℕ → Task → AcquisitionReceipt
receipt_for r now t = record {
  request_id = r.request_id;
  operation = acquire_operation;
  fingerprint = r.fingerprint;
  actor = r.actor;
  created = now;
  task = t;
}

-- The task that `s'` holds, given out with its receipt. The ID comes from the store.
abbrev pub give_out : AcquireRequest → ℕ → TaskStore → Option Task → TaskStore × Result Acquired
give_out r now s' none = (s', err unclassified)
give_out r now s' (some t) = (
  record s' { acquisitions = insert r.request_id (receipt_for r now t) s'.acquisitions },
  ok (record { task = t; replayed = false }),
)

abbrev pub give_first : AcquireRequest → ℕ → TaskStore → List Task → TaskStore × Result Acquired
give_first r now s [] = (s, err err_no_ready_tasks)
give_first r now s (t ∷ ts) =
    let s' = lease_acquired r t.id now s in give_out r now s' (get_task t.id s')

abbrev pub replay : AcquireRequest → TaskStore → AcquisitionReceipt → TaskStore × Result Acquired
replay r s receipt =
    if not (bytes_eq receipt.operation acquire_operation)
      || not (bytes_eq receipt.fingerprint r.fingerprint)
    then (s, err err_acquire_request_conflict)
    else (s, ok (record { task = receipt.task; replayed = true }))

-- The text of the error at the limit, which is made from the load and the limit of the diagnosed
-- worker, is left out with all texts; a diagnosis at the limit has a worker.
unfoldable pub acquire_from_store :
    AcquireRequest → Resolver → ℕ → TaskStore → TaskStore × Result Acquired
unfolding get_task lease_acquired diagnose_allocation ranked_ready_tasks
acquire_from_store r resolver now s = elim (lookup r.request_id s.acquisitions) [
  | some receipt ↦ replay r s receipt
  | none ↦
      let diagnostics = diagnose_allocation s resolver r.actor r.capabilities true r.max_load in
      if is_at_capacity diagnostics.reason
      then (s, err err_agent_at_capacity)
      else give_first r now s (ranked_ready_tasks s resolver r.capabilities true)
]

unfoldable pub load_among : Bytes → List Task → ℕ
load_among agent_name [] = 0
load_among agent_name (t ∷ ts) =
    let rest = load_among agent_name ts in
    if bytes_eq t.owner agent_name && status_eq t.status in_progress then suc rest else rest

unfoldable pub compute_agent_load : TaskStore → Bytes → ℕ
unfolding load_among
compute_agent_load s agent_name = load_among agent_name (values s.tasks)
