-- ===== src/Store.antt =====
-- store/store.go: the persisted state. A record for each struct, an association list for each map.
-- A nil slice or map is the empty one. `uint64` and `uint32` fields are numbers; arithmetic on
-- them wraps where it is written. The priority is the bit pattern of the `float32`.

pub mod Ops
pub mod Migration
pub mod Transaction
pub mod Invariant
pub mod Expiry
pub mod Expiries
pub mod Reclaim
pub mod History
pub mod Durability
pub mod Atomic
use terminal_todo.Base.{ℕ, Bytes, List, Bool, true, false}
use terminal_todo.Base.Dict.{Dict}

pub data TaskStatus : Type 0 where
  pending in_progress completed blocked : TaskStatus

pub data EventType : Type 0 where
  task_created task_completed task_claimed task_released task_blocked task_unblocked : EventType
  task_updated task_decomposed task_removed dependency_added dependency_removed : EventType
  lease_expired lease_renewed : EventType

pub record Event : Type 0 where
  pub id : ℕ
  pub timestamp : ℕ
  pub type : EventType
  pub task_id : ℕ
  pub actor : Bytes
  pub details : Dict Bytes Bytes

pub record LogEntry : Type 0 where
  pub timestamp : ℕ
  pub agent : Bytes
  pub message : Bytes

pub record Task : Type 0 where
  pub id : ℕ
  pub title : Bytes
  pub status : TaskStatus
  pub depends : List Bytes
  pub created : ℕ
  pub completed_at : ℕ
  pub capabilities : List Bytes
  pub owner : Bytes
  pub lease_expires : ℕ
  pub priority : ℕ
  pub lineage : Bytes
  pub tags : List Bytes
  pub retry_count : ℕ
  pub last_error : Bytes
  pub block_reason : Bytes
  pub log : List LogEntry
  pub extra : Dict Bytes Bytes

pub record AcquisitionReceipt : Type 0 where
  pub request_id : Bytes
  pub operation : Bytes
  pub fingerprint : Bytes
  pub actor : Bytes
  pub created : ℕ
  pub task : Task

pub record TaskStore : Type 0 where
  pub schema_version : ℕ
  pub tasks : Dict ℕ Task
  pub next_id : ℕ
  pub last_modified : ℕ
  pub next_event_id : ℕ
  pub events : List Event
  pub acquisitions : Dict Bytes AcquisitionReceipt

abbrev pub current_schema_version : ℕ
current_schema_version = 4

-- `==` on statuses.
abbrev pub status_eq : TaskStatus → TaskStatus → Bool
status_eq pending pending = true
status_eq in_progress in_progress = true
status_eq completed completed = true
status_eq blocked blocked = true
status_eq _ _ = false
