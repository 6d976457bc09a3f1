-- ===== src/Serve.antt =====
-- internal/cli/serve.go: what the JSON-RPC handlers share. An `*rpcError` is its code; the message and
-- the data are left out. The `id` and the JSON around a request are the transport's.
pub mod Receipt
pub mod Params
pub mod Handlers
pub mod Room
pub mod Reads
pub mod Course
pub mod Steady
pub mod Session
pub mod Keys
pub mod Pointers
pub mod Failure
pub mod Exclusion
pub mod Grant
pub mod Done
pub mod Completion
pub mod Adding
pub mod Editing
pub mod Acquiring
pub mod ViewParams
pub mod Views
pub mod Server
pub mod Space
pub mod Effect
pub mod Mutations
pub mod Checks
pub mod Looking
pub mod Backup
pub mod Restoring
pub mod Whole
pub mod Saving
pub mod Life
use terminal_todo.Base.{
  ℕ, Bool, true, false, not, ◌++◌, List, [], ◌∷◌, Option, none, some, Bytes, Eq-bytes, bytes_eq,
  nat_eq, if◌then◌else◌, has, ◌&&◌, ◌*◌,
}
use terminal_todo.Base.Decimal.{u64_mod}
use terminal_todo.Base.Dict.{Dict}
use terminal_todo.Errors.{
  ErrorCode, task_not_found, not_initialized, invalid_args, cycle_detected, already_claimed,
  not_owner, dependency, store_corrupted, lock_contention, schema_version, no_work,
  agent_at_capacity, idempotency_conflict, lease_not_active, invalid_transition, Error, Result, ok,
  err, is_persisted_input_failure, classify_coordination_error,
}
use terminal_todo.Store.{Task, TaskStore}
use terminal_todo.Store.Ops.{get_task}
use terminal_todo.Store.Transaction.{Codec, Fault, update, load_current}
use terminal_todo.Dag.Uri.{parse_local_id}
use terminal_todo.Dag.Ready.{Resolver}

-- Each number, of -32700 and so on, by its name.
pub data RpcCode : Type 0 where
  rpc_parse rpc_invalid_request rpc_method_not_found rpc_invalid_params rpc_internal : RpcCode
  rpc_task_not_found rpc_not_initialized rpc_cycle_detected rpc_already_claimed rpc_not_owner :
      RpcCode
  rpc_dependency rpc_store_corrupted rpc_lock_contention rpc_schema_version rpc_no_work : RpcCode
  rpc_agent_capacity rpc_idempotency_conflict rpc_lease_not_active rpc_invalid_transition : RpcCode

unfoldable pub rpc_code_for_error_code : ErrorCode → RpcCode
rpc_code_for_error_code task_not_found = rpc_task_not_found
rpc_code_for_error_code not_initialized = rpc_not_initialized
rpc_code_for_error_code cycle_detected = rpc_cycle_detected
rpc_code_for_error_code already_claimed = rpc_already_claimed
rpc_code_for_error_code not_owner = rpc_not_owner
rpc_code_for_error_code dependency = rpc_dependency
rpc_code_for_error_code store_corrupted = rpc_store_corrupted
rpc_code_for_error_code lock_contention = rpc_lock_contention
rpc_code_for_error_code schema_version = rpc_schema_version
rpc_code_for_error_code no_work = rpc_no_work
rpc_code_for_error_code agent_at_capacity = rpc_agent_capacity
rpc_code_for_error_code idempotency_conflict = rpc_idempotency_conflict
rpc_code_for_error_code lease_not_active = rpc_lease_not_active
rpc_code_for_error_code invalid_transition = rpc_invalid_transition
rpc_code_for_error_code invalid_args = rpc_invalid_params

unfoldable pub rpc_error_from_domain : Error → RpcCode
unfolding is_persisted_input_failure classify_coordination_error rpc_code_for_error_code
rpc_error_from_domain e =
    if is_persisted_input_failure e
    then rpc_invalid_params
    else elim (classify_coordination_error e) [
      | some c ↦ rpc_code_for_error_code c
      | none ↦ rpc_store_corrupted
    ]

infixl 5 ◌>>=◌ ◌>>◌
-- What the checks in front of a transaction end in: an `*rpcError`, or a value.
pub data Checked {ℓ} (A : Type ℓ) : Type ℓ where
  refused : RpcCode → Checked A
  passed : A → Checked A

-- What a handler returns: an `*rpcError`, or a result. `crashed` is a nil pointer that was followed.
pub data Response {ℓ} (A : Type ℓ) : Type ℓ where
  failed : RpcCode → Response A
  crashed : Response A
  result : A → Response A

-- `if err != nil { return nil, err }` between two steps.
abbrev pub ◌>>=◌ {κ ℓ} : {A : Type κ} {B : Type ℓ} → Checked A → (A → Checked B) → Checked B
refused c >>= k = refused c
passed a >>= k = k a

abbrev pub ◌>>◌ {ℓ} : {B : Type ℓ} → Checked (Unit {0}) → Checked B → Checked B
step >> rest = step >>= λ _. rest

-- An early return, taken if the test holds.
abbrev pub refuse_if : Bool → Checked (Unit {0})
refuse_if true = refused rpc_invalid_params
refuse_if false = passed tt

-- An early return with the given code, taken if there is an error.
abbrev pub unless_err : RpcCode → Result (Unit {0}) → Checked (Unit {0})
unless_err c (err e) = refused c
unless_err c (ok u) = passed u

abbrev pub accept : Result (Unit {0}) → Checked (Unit {0})
accept r = unless_err rpc_invalid_params r

-- `ensureInitialized`, of a server with this `initialized`.
unfoldable pub ensure_initialized : Bool → Checked (Unit {0})
ensure_initialized initialized = if initialized then passed tt else refused rpc_not_initialized

-- The configuration. The priority is the bit pattern of a `float32`.
pub record ProjectConfig : Type 0 where
  pub default_ttl : Bytes
  pub default_priority : ℕ
  pub default_caps : Bytes

-- What the allocation reads of an `AgentCard`; an agent without one has no capabilities and no limit.
-- A limit below 0 acts as 0, which is none.
pub record AgentCard : Type 0 where
  pub capabilities : List Bytes
  pub max_load : ℕ

-- What surrounds the server while it handles one request: the encoding of the tasks file, the clock,
-- the faults of its two writes to that file, the configuration (or an error), `time.ParseDuration` (in
-- nanoseconds, with `none` for an error and for a negative duration), how the write of the agents' file
-- ends and what it reads as, the SHA-256 of an encoded acquire request, the live resolver of references
-- to other repositories, `strings.ToLower`, and how the creation of the project's directory ends.
pub record Host : Type 1 where
  pub codec : Codec
  pub now : ℕ
  pub load_fault : Fault
  pub fault : Fault
  pub load_config : Option ProjectConfig
  pub parse_duration : Bytes → Option ℕ
  pub touch_agent : Bytes → Result (Unit {0})
  pub load_agent_registry : Option (Dict Bytes AgentCard)
  pub digest : Bytes → Bytes → Bytes → List Bytes → Bytes
  pub live : Bytes → Bool
  pub to_lower : Bytes → Bytes
  pub make_directory : Result (Unit {0})

-- A positive duration.
abbrev pub positive_duration : Option ℕ → Option ℕ
positive_duration none = none
positive_duration (some d) = if nat_eq d 0 then none else some d

-- `15 * time.Minute`
abbrev pub fallback_ttl : ℕ
fallback_ttl = 15 * 60 * 1000000000

unfoldable pub parse_default_ttl : Host → Bytes → ℕ
parse_default_ttl h default_ttl = elim (positive_duration (h.parse_duration default_ttl)) [
  | none ↦ fallback_ttl
  | some d ↦ d
]

-- `parseLeaseTTL`, with the codes that its callers answer its two errors with.
unfoldable pub parse_lease_ttl : Host → Bytes → Checked ℕ
unfolding parse_default_ttl
parse_lease_ttl h explicit = elim h.load_config [
  | none ↦ refused rpc_store_corrupted
  | some cfg ↦
      if bytes_eq explicit []
      then passed (parse_default_ttl h cfg.default_ttl)
      else elim (positive_duration (h.parse_duration explicit)) [
        | none ↦ refused rpc_invalid_params
        | some d ↦ passed d
      ]
]

-- The references to other repositories that the snapshot has resolved.
unfoldable pub remote_among : List Bytes → List Bytes
remote_among [] = []
remote_among (dep ∷ deps) =
    let rest = remote_among deps in elim (parse_local_id dep) [ none ↦ dep ∷ rest | some _ ↦ rest ]

unfoldable pub remote_refs : List Task → List Bytes
unfolding remote_among
remote_refs [] = []
remote_refs (t ∷ ts) = remote_among t.depends ++ remote_refs ts

unfoldable pub snapshot_dependency_resolver : (Bytes → Bool) → List Task → Resolver
unfolding remote_refs
snapshot_dependency_resolver live tasks = some (λ uri. has uri (remote_refs tasks) && live uri)

-- The resolver that `handleClaim` takes from its first look at the store.
unfoldable pub claim_resolver : (Bytes → Bool) → ℕ → TaskStore → Resolver
unfolding snapshot_dependency_resolver get_task
claim_resolver live id preflight = elim (get_task id preflight) [
  | none ↦ none
  | some task ↦ snapshot_dependency_resolver live (task ∷ [])
]
