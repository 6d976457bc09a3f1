-- ===== src/Errors.antt =====
-- internal/cli/errors.go, coordination_errors.go and the sentinels of lease.go, allocation.go and
-- input_limits.go: the errors that an operation raises, and their protocol codes. An error is the
-- chain that `errors.Is` and `errors.As` see; its message is left out.
use terminal_todo.Base.{Bool, true, false, Option, none, some, Bytes, ◌≡◌, refl, ◌⊎◌, inl, inr}
use terminal_todo.Base.Text.{codes}

pub data ErrorCode : Type 0 where
  task_not_found not_initialized invalid_args cycle_detected already_claimed not_owner : ErrorCode
  dependency store_corrupted lock_contention schema_version no_work agent_at_capacity : ErrorCode
  idempotency_conflict lease_not_active invalid_transition : ErrorCode

pub data Error : Type 0 where
  err_task_not_found err_already_claimed err_not_owner err_dependency : Error
  err_cycle_detected err_invalid_transition : Error
  err_lease_task_not_found err_lease_not_active err_lease_not_owner : Error
  err_no_ready_tasks err_agent_at_capacity err_acquire_request_conflict : Error
  -- `lifecycleCommandError`
  command_error : ErrorCode → Error
  -- `persistedInputError`
  persisted_input : Error
  -- Any other error, such as one of the file system.
  unclassified : Error

infixl 5 ◌>>=◌ ◌>>◌
-- A result beside Go's `error`: the error is set, or the value counts.
pub data Result {ℓ} (A : Type ℓ) : Type ℓ where
  err : Error → Result A
  ok : A → Result A

-- `if err != nil { return err }` between two steps.
abbrev pub ◌>>=◌ {κ ℓ} : {A : Type κ} {B : Type ℓ} → Result A → (A → Result B) → Result B
err e >>= k = err e
ok a >>= k = k a

-- An early return with an error, taken if the test holds.
abbrev pub fail_if : Bool → Error → Result (Unit {0})
fail_if true e = err e
fail_if false e = ok tt

pub Result-cases {ℓ} :
    {A : Type ℓ} (r : Result A) → ((a : A) × (r ≡ ok a)) ⊎ ((e : Error) × (r ≡ err e))
Result-cases (ok a) = inl (a, refl)
Result-cases (err e) = inr (e, refl)

abbrev pub ◌>>◌ {ℓ} : {B : Type ℓ} → Result (Unit {0}) → Result B → Result B
step >> rest = step >>= λ _. rest

unfoldable pub is_persisted_input_failure : Error → Bool
is_persisted_input_failure persisted_input = true
is_persisted_input_failure _ = false

-- `none` is the second result `false`.
unfoldable pub classify_coordination_error : Error → Option ErrorCode
classify_coordination_error (command_error c) = some c
classify_coordination_error err_task_not_found = some task_not_found
classify_coordination_error err_lease_task_not_found = some task_not_found
classify_coordination_error err_already_claimed = some already_claimed
classify_coordination_error err_not_owner = some not_owner
classify_coordination_error err_lease_not_owner = some not_owner
classify_coordination_error err_dependency = some dependency
classify_coordination_error err_cycle_detected = some cycle_detected
classify_coordination_error err_lease_not_active = some lease_not_active
classify_coordination_error err_invalid_transition = some invalid_transition
classify_coordination_error err_no_ready_tasks = some no_work
classify_coordination_error err_agent_at_capacity = some agent_at_capacity
classify_coordination_error err_acquire_request_conflict = some idempotency_conflict
classify_coordination_error persisted_input = none
classify_coordination_error unclassified = none

-- The code that `updateStore` ends the command with.
unfoldable pub update_store_code : Error → ErrorCode
unfolding is_persisted_input_failure classify_coordination_error
update_store_code e = elim (is_persisted_input_failure e) [
  | true ↦ invalid_args
  | false ↦ elim (classify_coordination_error e) [ some c ↦ c | none ↦ store_corrupted ]
]

-- The text of a code.
unfoldable pub code_text : ErrorCode → Bytes
code_text task_not_found = codes "TASK_NOT_FOUND"
code_text not_initialized = codes "NOT_INITIALIZED"
code_text invalid_args = codes "INVALID_ARGS"
code_text cycle_detected = codes "CYCLE_DETECTED"
code_text already_claimed = codes "ALREADY_CLAIMED"
code_text not_owner = codes "NOT_OWNER"
code_text dependency = codes "DEPENDENCY_ERROR"
code_text store_corrupted = codes "STORE_CORRUPTED"
code_text lock_contention = codes "LOCK_CONTENTION"
code_text schema_version = codes "SCHEMA_VERSION"
code_text no_work = codes "NO_WORK"
code_text agent_at_capacity = codes "AGENT_AT_CAPACITY"
code_text idempotency_conflict = codes "IDEMPOTENCY_CONFLICT"
code_text lease_not_active = codes "LEASE_NOT_ACTIVE"
code_text invalid_transition = codes "INVALID_TRANSITION"
