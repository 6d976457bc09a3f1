-- ===== src/Serve/Acquiring.antt =====
-- internal/cli/serve.go: `handleAcquire`; `newAcquirePlan` of internal/cli/coordination_ops.go, and
-- `agentAllocationProfile` and `acquireFingerprint` of internal/cli/allocation.go.
use terminal_todo.Base.{
  Eq-nat, Eq-bytes, ℕ, Bool, true, ◌++◌, List, [], Option, none, some, Bytes, if◌then◌else◌,
  bytes_eq,
}
use terminal_todo.Base.Text.{codes}
use terminal_todo.Base.Time.{duration_string}
use terminal_todo.Base.Dict.{lookup}
use terminal_todo.Store.{TaskStore}
use terminal_todo.Store.Ops.{get_all_tasks}
use terminal_todo.Store.Transaction.{load_current}
use terminal_todo.Errors.{Result, ok, err}
use terminal_todo.Limits.{validate_actor, validate_capabilities}
use terminal_todo.Protocol.{new_protocol_task}
use terminal_todo.Lifecycle.Update.{sort_strings}
use terminal_todo.Allocation.Acquire.{
  AcquireRequest, Acquired, acquire_from_store, validate_acquire_request_id,
}
use terminal_todo.Serve.{
  Checked, refused, passed, Response, failed, result, ◌>>=◌, ◌>>◌, refuse_if, unless_err, accept,
  ensure_initialized, Host, AgentCard, positive_duration, parse_default_ttl, rpc_invalid_params,
  rpc_store_corrupted, snapshot_dependency_resolver,
}
use terminal_todo.Serve.Params.{AcquireParams, Answer, acquired_of, receipt_of}
use terminal_todo.Serve.Receipt.{MutationReceipt, new_task_mutation_receipt}
use terminal_todo.Serve.Handlers.{File, Handled, before, transact_with}
use terminal_todo.Serve.Adding.{or_nil, normalized}

-- The lease, and how it is named in the fingerprint.
abbrev pub plan_ttl : Host → Bytes → Bytes → Checked (ℕ × Bytes)
plan_ttl h default_ttl explicit =
    if bytes_eq explicit []
    then passed (parse_default_ttl h default_ttl, codes "default")
    else elim (positive_duration (h.parse_duration explicit)) [
      | none ↦ refused rpc_invalid_params
      | some d ↦ passed (d, codes "explicit:" ++ duration_string d)
    ]

abbrev pub capabilities_mode : Option (List Bytes) → Bytes
capabilities_mode none = codes "registered"
capabilities_mode (some values) = codes "explicit"

-- An agent that is not registered reads as an empty card.
abbrev pub card_of : Option AgentCard → AgentCard
card_of none = record { capabilities = []; max_load = 0 }
card_of (some card) = card

unfoldable pub agent_allocation_profile :
    Host → Bytes → Option (List Bytes) → Option (List Bytes × ℕ)
unfolding lookup
agent_allocation_profile h actor explicit = elim h.load_agent_registry [
  | none ↦ none
  | some agents ↦
      let card = card_of (lookup actor agents) in
      some (elim explicit [ none ↦ card.capabilities | some values ↦ values ], card.max_load)
]

unfoldable pub acquire_fingerprint : Host → Bytes → Bytes → Bytes → List Bytes → Bytes
unfolding sort_strings
acquire_fingerprint h actor ttl_mode mode capabilities =
    h.digest actor ttl_mode mode (sort_strings capabilities)

-- Every error is answered as invalid parameters.
unfoldable pub new_acquire_plan : Host → AcquireParams → Checked AcquireRequest
unfolding agent_allocation_profile acquire_fingerprint
new_acquire_plan h p = elim h.load_config [
  | none ↦ refused rpc_invalid_params
  | some cfg ↦ do
    (ttl, ttl_mode) ← plan_ttl h cfg.default_ttl p.ttl
    let explicit = normalized p.capabilities
    accept (validate_capabilities (or_nil explicit))
    elim (agent_allocation_profile h p.actor explicit) [
      | none ↦ refused rpc_invalid_params
      | some (capabilities, max_load) ↦ passed (record {
        actor = p.actor;
        request_id = p.request_id;
        fingerprint =
            acquire_fingerprint h p.actor ttl_mode (capabilities_mode explicit) (or_nil explicit);
        ttl = ttl;
        capabilities = capabilities;
        max_load = max_load;
      })
    ]
]

unfoldable pub acquire_checks : Host → Bool → AcquireParams → Checked AcquireRequest
unfolding new_acquire_plan
acquire_checks h initialized p = do
  refuse_if (bytes_eq p.actor [])
  accept (validate_actor p.actor true)
  accept (validate_acquire_request_id p.request_id)
  ensure_initialized initialized
  unless_err rpc_store_corrupted (h.touch_agent p.actor)
  new_acquire_plan h p

abbrev pub acquire_receipt : Acquired → MutationReceipt
acquire_receipt a = record (new_task_mutation_receipt (codes "acquire") a.task) {
  replayed = some a.replayed;
}

abbrev pub acquire_answer : AcquireParams → Acquired → TaskStore → Response Answer
acquire_answer p a s =
    if p.receipt
    then result (receipt_of (acquire_receipt a))
    else result (acquired_of p.request_id a.replayed (new_protocol_task a.task))

module _ (h : Host) where
  abbrev pub after_acquire_preflight :
      AcquireParams → AcquireRequest → File h × Result TaskStore → Handled h
  after_acquire_preflight p plan (file, err e) = (file, failed rpc_store_corrupted)
  after_acquire_preflight p plan (file, ok preflight) =
      let resolver = snapshot_dependency_resolver h.live (get_all_tasks preflight) in
      transact_with h (acquire_from_store plan resolver h.now) (acquire_answer p) file

  unfoldable pub handle_acquire : Bool → AcquireParams → File h → Handled h
  unfolding acquire_checks
  handle_acquire initialized p file =
      before h (acquire_checks h initialized p) file
        λ plan. after_acquire_preflight p plan (load_current h.codec h.load_fault h.now file)
