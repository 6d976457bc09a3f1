-- ===== src/Serve/Params.antt =====
-- internal/cli/serve.go: the decoded parameters of the requests, and what is answered.
use terminal_todo.Base.{ℕ, Bool, List, Option, Bytes}
use terminal_todo.Base.Dict.{Dict}
use terminal_todo.Protocol.{ProtocolTask}
use terminal_todo.Compaction.{CompactResult}
use terminal_todo.Lifecycle.Decompose.{DecomposeSubtask}
use terminal_todo.Serve.Receipt.{MutationReceipt}
use terminal_todo.Serve.ViewParams.{View}

pub record ClaimParams : Type 0 where
  pub id : ℕ
  pub actor : Bytes
  pub ttl : Bytes
  pub receipt : Bool

pub record HeartbeatParams : Type 0 where
  pub id : ℕ
  pub actor : Bytes
  pub ttl : Bytes
  pub receipt : Bool

pub record ReleaseParams : Type 0 where
  pub id : ℕ
  pub actor : Bytes
  pub error : Bytes
  pub receipt : Bool

pub record HandoffParams : Type 0 where
  pub id : ℕ
  pub actor : Bytes
  pub extra : Dict Bytes Bytes
  pub receipt : Bool

pub record BlockParams : Type 0 where
  pub id : ℕ
  pub reason : Bytes
  pub actor : Bytes
  pub receipt : Bool

pub record UnblockParams : Type 0 where
  pub id : ℕ
  pub actor : Bytes
  pub receipt : Bool

pub record LogParams : Type 0 where
  pub id : ℕ
  pub message : Bytes
  pub actor : Bytes
  pub receipt : Bool

pub record DoneParams : Type 0 where
  pub ids : List ℕ
  pub actor : Bytes
  pub receipt : Bool

-- An `Option` of a list tells a nil slice from an empty one, where the handler does.
pub record AddParams : Type 0 where
  pub title : Bytes
  pub after : List Bytes
  pub priority : Option ℕ
  pub capabilities : Option (List Bytes)
  pub tags : List Bytes
  pub receipt : Bool

pub record UpdateParams : Type 0 where
  pub id : ℕ
  pub title : Option Bytes
  pub priority : Option ℕ
  pub capabilities : Option (List Bytes)
  pub actor : Bytes
  pub extra : Dict Bytes Bytes
  pub add_deps : List Bytes
  pub remove_deps : List Bytes
  pub receipt : Bool

pub record AcquireParams : Type 0 where
  pub actor : Bytes
  pub request_id : Bytes
  pub ttl : Bytes
  pub capabilities : Option (List Bytes)
  pub receipt : Bool

pub record DecomposeParams : Type 0 where
  pub id : ℕ
  pub subtasks : List DecomposeSubtask
  pub actor : Bytes
  pub receipt : Bool

pub record PruneParams : Type 0 where
  pub receipt : Bool

-- An `int`: all negative values are refused alike.
pub data Signed : Type 0 where
  negative : Signed
  natural : ℕ → Signed

pub record CompactParams : Type 0 where
  pub keep_events : Option Signed
  pub receipts_before : Bytes
  pub dry_run : Bool

pub record ClaimResult : Type 0 where
  pub id : ℕ
  pub owner : Bytes
  pub expires : Bytes
  pub retry_count : ℕ
  pub last_error : Bytes

pub data Answer : Type 0 where
  claimed : ClaimResult → Answer
  -- `releaseResult`, `blockResult` and `unblockResult`
  moved : ℕ → Bytes → Answer
  noted : ℕ → Answer
  task_envelope : ProtocolTask → Answer
  receipt_of : MutationReceipt → Answer
  -- The completed IDs, and those that became ready.
  done_of : List ℕ → List ℕ → Answer
  -- The ID and the title of a new task.
  added : ℕ → Bytes → Answer
  protocol_task_of : ProtocolTask → Answer
  -- The request, whether it is a replay, and the task.
  acquired_of : Bytes → Bool → ProtocolTask → Answer
  decomposed : ProtocolTask → List ProtocolTask → Answer
  pruned_of : ℕ → Answer
  compacted_of : CompactResult → Answer
  viewed : View → Answer
  initialized_at_root : Answer
