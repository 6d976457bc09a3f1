-- ===== src/Serve/ViewParams.antt =====
-- internal/cli/serve.go: the decoded parameters of the requests that only read, and what they are
-- answered with; `availableTask` and `nextEnvelope` of internal/cli/protocol.go.
use terminal_todo.Base.{ℕ, Bool, List, Option, Bytes}
use terminal_todo.Store.{Event}
use terminal_todo.Protocol.{ProtocolTask, BlockedSummary}
use terminal_todo.EventPage.{EventsEnvelope}
use terminal_todo.Allocation.Diagnose.{AllocationDiagnostics}
use terminal_todo.Queries.Simulate.{TaskItem, WhatIfDone}
use terminal_todo.Queries.Lineage.{LineageProgress}

pub record StatusParams : Type 0 where
  pub tag : Bytes
  pub actor : Bytes

pub record EventsParams : Type 0 where
  pub since : ℕ
  pub limit : Option ℕ
  pub page : Bool

pub record WhatIfParams : Type 0 where
  pub id : ℕ
  pub scenario : Bytes

-- An entry with no task is a reference to another repository; one with no title is not found.
pub data DependsEntry : Type 0 where
  local_entry : ℕ → Bytes → Bytes → DependsEntry
  missing_entry : ℕ → Bytes → DependsEntry
  remote_entry : Bytes → DependsEntry

pub record GraphNode : Type 0 where
  pub id : ℕ
  pub title : Bytes
  pub status : Bytes

pub record GraphEdge : Type 0 where
  pub from : ℕ
  pub to : ℕ

-- The reason is the same text for all.
pub record AvailableTask : Type 0 where
  pub id : ℕ
  pub title : Bytes
  pub priority : ℕ
  pub capabilities : List Bytes

-- The requests. A negative limit of events is refused like the limit 0.
pub data ViewRequest : Type 0 where
  todo_status : StatusParams → ViewRequest
  todo_cat : ℕ → ViewRequest
  todo_next : Option (List Bytes) → ViewRequest
  todo_my : Bytes → ViewRequest
  todo_search : Bytes → ViewRequest
  todo_depends : ℕ → ViewRequest
  todo_dependents : ℕ → ViewRequest
  todo_lineage : ℕ → ViewRequest
  todo_events : EventsParams → ViewRequest
  todo_what_if : WhatIfParams → ViewRequest
  todo_graph : ViewRequest
  todo_export : ViewRequest

pub data View : Type 0 where
  tasks_envelope : List ProtocolTask → View
  cat_of : ProtocolTask → View
  next_envelope : List AvailableTask → BlockedSummary → AllocationDiagnostics → View
  depends_of : ℕ → Bytes → List DependsEntry → View
  dependents_of : ℕ → Bytes → List TaskItem → View
  lineage_envelope : ProtocolTask → List ProtocolTask → LineageProgress → View
  events_of : List Event → View
  event_page : EventsEnvelope → View
  -- What follows if the task is done, and how many tasks wait if it is blocked.
  what_if_of : ℕ → Bytes → Option WhatIfDone → Option ℕ → View
  graph_of : List GraphNode → List GraphEdge → View
