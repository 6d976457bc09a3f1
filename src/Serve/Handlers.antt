-- ===== src/Serve/Handlers.antt =====
-- internal/cli/serve.go: the handlers of the seven requests that move one task through its lifecycle.
-- The tasks file is the encoded store, or missing.
use terminal_todo.Base.{
  Eq-nat, ℕ, Bool, true, false, [], ◌∷◌, Option, none, some, Bytes, bytes_eq, nat_eq, length,
  if◌then◌else◌,
}
use terminal_todo.Base.Text.{codes}
use terminal_todo.Base.Time.{timestamp_string}
use terminal_todo.Store.{Task, TaskStore}
use terminal_todo.Store.Ops.{get_task, clean_expired_leases}
use terminal_todo.Store.Transaction.{load_unlocked, update, load_current}
use terminal_todo.Errors.{Result, ok, err}
use terminal_todo.Limits.{
  validate_persisted_string, validate_required_persisted_string, validate_actor, validate_extra,
  max_reason_bytes, max_error_bytes, max_log_message_bytes,
}
use terminal_todo.Protocol.{new_protocol_task}
use terminal_todo.Lifecycle.Leases.{
  claim_task, release_task, block_task, unblock_task, log_task, renew_lease, handoff_task,
}
use terminal_todo.Serve.{
  Checked, refused, passed, rpc_store_corrupted, rpc_error_from_domain, Response, failed, crashed,
  result, ◌>>=◌, ◌>>◌, refuse_if, unless_err, accept, ensure_initialized, Host, parse_lease_ttl,
  claim_resolver,
}
use terminal_todo.Serve.Params.{
  ClaimParams, HeartbeatParams, ReleaseParams, HandoffParams, BlockParams, UnblockParams, LogParams,
  ClaimResult, Answer, claimed, moved, noted, task_envelope, receipt_of,
}
use terminal_todo.Serve.Receipt.{
  MutationReceipt, new_mutation_receipt, new_task_mutation_receipt, task_detail_follow_up,
}

module _ (h : Host) where
  -- The file behind a handler, and what it returns.
  abbrev pub File : Type 0
  File = Option h.codec.Data

  abbrev pub Handled : Type 0
  Handled = File × Response Answer

  -- The checks in front of a transaction.
  abbrev pub before {ℓ} : {A : Type ℓ} → Checked A → File → (A → Handled) → Handled
  before (refused c) file rest = (file, failed c)
  before (passed a) file rest = rest a

  abbrev pub answered : (TaskStore → Response Answer) → File × Result TaskStore → Handled
  answered k (file, err e) = (file, failed (rpc_error_from_domain e))
  answered k (file, ok s) = (file, k s)

  -- `updateStoreSafe`, and what is answered from the committed store.
  abbrev pub transact :
      {A : Type 0}
      → (TaskStore → TaskStore × Result A)
      → (TaskStore → Response Answer)
      → File
      → Handled
  transact mutate k file = answered k (update h.codec h.fault h.now mutate file)

  -- What the mutation left in a variable of the handler.
  abbrev pub captured : {A : Type 0} → (TaskStore → TaskStore × Result A) → File → Option A
  captured mutate file = elim (load_unlocked h.codec file) [
    | err e ↦ none
    | ok s ↦ elim (mutate (clean_expired_leases h.now s).0).1 [ err e ↦ none | ok a ↦ some a ]
  ]

  abbrev pub on_captured :
      {A : Type 0} → Option A → (A → TaskStore → Response Answer) → TaskStore → Response Answer
  on_captured none k s = crashed
  on_captured (some a) k s = k a s

  abbrev pub transact_with :
      {A : Type 0}
      → (TaskStore → TaskStore × Result A)
      → (A → TaskStore → Response Answer)
      → File
      → Handled
  transact_with mutate k file = transact mutate (on_captured (captured mutate file) k) file

  -- Through the task pointer that the mutation returned.
  abbrev pub of_task : ℕ → (Task → Answer) → TaskStore → Response Answer
  of_task id show s = elim (get_task id s) [ none ↦ crashed | some task ↦ result (show task) ]

  abbrev pub receipt_or : Bool → Bytes → ℕ → Answer → TaskStore → Response Answer
  receipt_or wanted operation id plain s =
      if wanted
      then of_task id (λ task. receipt_of (new_task_mutation_receipt operation task)) s
      else result plain

  -- The checks of a claim and of a heartbeat, up to the TTL.
  abbrev pub lease_checks : Bool → ℕ → Bytes → Bytes → Checked ℕ
  lease_checks initialized id actor ttl = do
    refuse_if (nat_eq id 0)
    refuse_if (bytes_eq actor [])
    accept (validate_actor actor true)
    ensure_initialized initialized
    d ← parse_lease_ttl h ttl
    unless_err rpc_store_corrupted (h.touch_agent actor)
    passed d

  abbrev claim_result : ClaimParams → Task → ClaimResult
  claim_result p task = record {
    id = p.id;
    owner = p.actor;
    expires = timestamp_string task.lease_expires;
    retry_count = task.retry_count;
    last_error = task.last_error;
  }

  abbrev claim_receipt : ClaimResult → MutationReceipt
  claim_receipt r = record (new_mutation_receipt (codes "claim") (r.id ∷ [])) {
    task = some (record {
      id = r.id;
      status = codes "in_progress";
      lease_expires = some r.expires;
      retry_count = r.retry_count;
    });
    detail_follow_up = task_detail_follow_up r.id;
  }

  abbrev pub claim_answer : ClaimParams → TaskStore → Response Answer
  claim_answer p = of_task p.id λ task.
      if p.receipt
      then receipt_of (claim_receipt (claim_result p task))
      else claimed (claim_result p task)

  abbrev pub after_preflight : ClaimParams → ℕ → File × Result TaskStore → Handled
  after_preflight p ttl (file, err e) = (file, failed rpc_store_corrupted)
  after_preflight p ttl (file, ok preflight) =
      transact (claim_task p.id p.actor ttl (claim_resolver h.live p.id preflight) h.now)
        (claim_answer p) file

  unfoldable pub handle_claim : Bool → ClaimParams → File → Handled
  handle_claim initialized p file =
      before (lease_checks initialized p.id p.actor p.ttl) file
        λ ttl. after_preflight p ttl (load_current h.codec h.load_fault h.now file)

  unfoldable pub handle_heartbeat : Bool → HeartbeatParams → File → Handled
  handle_heartbeat initialized p file =
      before (lease_checks initialized p.id p.actor p.ttl) file
        λ ttl. transact (renew_lease p.id p.actor ttl h.now) (heartbeat_answer p) file
    where
      heartbeat_answer : HeartbeatParams → TaskStore → Response Answer
      heartbeat_answer p = of_task p.id λ task.
          if p.receipt
          then receipt_of (new_task_mutation_receipt (codes "heartbeat") task)
          else task_envelope (new_protocol_task task)

  unfoldable pub handle_release : Bool → ReleaseParams → File → Handled
  handle_release initialized p file = before (release_checks initialized p) file λ _.
      transact (release_task p.id p.actor p.error h.now)
        (receipt_or p.receipt (codes "release") p.id (moved p.id (codes "pending"))) file
    where
      release_checks : Bool → ReleaseParams → Checked (Unit {0})
      release_checks initialized p = do
        refuse_if (nat_eq p.id 0)
        refuse_if (bytes_eq p.actor [])
        accept (validate_actor p.actor true)
        accept (validate_persisted_string p.error max_error_bytes)
        ensure_initialized initialized

  unfoldable pub handle_handoff : Bool → HandoffParams → File → Handled
  handle_handoff initialized p file = before (handoff_checks initialized p) file λ _.
      transact (handoff_task p.id p.actor p.extra h.now)
        (receipt_or p.receipt (codes "handoff") p.id (moved p.id (codes "pending"))) file
    where
      handoff_checks : Bool → HandoffParams → Checked (Unit {0})
      handoff_checks initialized p = do
        refuse_if (nat_eq p.id 0)
        accept (validate_actor p.actor true)
        refuse_if (nat_eq (length p.extra) 0)
        accept (validate_extra p.extra)
        ensure_initialized initialized

  unfoldable pub handle_block : Bool → BlockParams → File → Handled
  handle_block initialized p file = before (block_checks initialized p) file λ _.
      transact (block_task p.id p.actor p.reason h.now)
        (receipt_or p.receipt (codes "block") p.id (moved p.id (codes "blocked"))) file
    where
      block_checks : Bool → BlockParams → Checked (Unit {0})
      block_checks initialized p = do
        refuse_if (nat_eq p.id 0)
        accept (validate_required_persisted_string p.reason max_reason_bytes)
        accept (validate_actor p.actor false)
        ensure_initialized initialized

  unfoldable pub handle_unblock : Bool → UnblockParams → File → Handled
  handle_unblock initialized p file = before (unblock_checks initialized p) file λ _.
      transact (unblock_task p.id p.actor h.now)
        (receipt_or p.receipt (codes "unblock") p.id (moved p.id (codes "pending"))) file
    where
      unblock_checks : Bool → UnblockParams → Checked (Unit {0})
      unblock_checks initialized p = do
        refuse_if (nat_eq p.id 0)
        accept (validate_actor p.actor false)
        ensure_initialized initialized

  unfoldable pub handle_log : Bool → LogParams → File → Handled
  handle_log initialized p file = before (log_checks initialized p) file λ _.
      transact (log_task p.id p.actor p.message h.now)
        (receipt_or p.receipt (codes "log") p.id (noted p.id)) file
    where
      log_checks : Bool → LogParams → Checked (Unit {0})
      log_checks initialized p = do
        refuse_if (nat_eq p.id 0)
        accept (validate_required_persisted_string p.message max_log_message_bytes)
        accept (validate_actor p.actor false)
        ensure_initialized initialized

-- The requests, as `dispatch` hands them on.
pub data Request : Type 0 where
  todo_claim : ClaimParams → Request
  todo_heartbeat : HeartbeatParams → Request
  todo_release : ReleaseParams → Request
  todo_handoff : HandoffParams → Request
  todo_block : BlockParams → Request
  todo_unblock : UnblockParams → Request
  todo_log : LogParams → Request

unfoldable pub dispatch : (h : Host) → Bool → Request → File h → Handled h
unfolding handle_claim handle_heartbeat handle_release handle_handoff handle_block handle_unblock
    handle_log
dispatch h initialized (todo_claim p) file = handle_claim h initialized p file
dispatch h initialized (todo_heartbeat p) file = handle_heartbeat h initialized p file
dispatch h initialized (todo_release p) file = handle_release h initialized p file
dispatch h initialized (todo_handoff p) file = handle_handoff h initialized p file
dispatch h initialized (todo_block p) file = handle_block h initialized p file
dispatch h initialized (todo_unblock p) file = handle_unblock h initialized p file
dispatch h initialized (todo_log p) file = handle_log h initialized p file
