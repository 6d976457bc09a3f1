-- ===== src/Protocol.antt =====
-- internal/cli/protocol.go: the views of tasks and events that the protocol shows.
use terminal_todo.Base.{
  Eq-nat, Eq-bytes, ℕ, List, [], ◌∷◌, Option, none, some, Bytes, ltb, if◌then◌else◌, has, map,
  length,
}
use terminal_todo.Base.Text.{codes}
use terminal_todo.Base.Time.{timestamp_string}
use terminal_todo.Base.Dict.{Dict, keys, values}
use terminal_todo.Store.{
  Task, TaskStatus, pending, in_progress, completed, blocked, status_eq, Event, EventType, LogEntry,
}
use terminal_todo.Dag.Ready.{Resolver, get_blocked_tasks}
use terminal_todo.Lifecycle.Decompose.{add_to_set}
use terminal_todo.Lifecycle.Update.{sort_strings}

abbrev pub protocol_version : Bytes
protocol_version = codes "1"

pub record ProtocolLogEntry : Type 0 where
  pub timestamp : Bytes
  pub agent : Bytes
  pub message : Bytes

pub record ProtocolEvent : Type 0 where
  pub id : ℕ
  pub timestamp : Bytes
  pub type : EventType
  pub task_id : ℕ
  pub actor : Bytes
  pub details : Dict Bytes Bytes

pub record ProtocolMetadata : Type 0 where
  pub capabilities : List Bytes
  pub owner : Bytes
  pub lease_expires : Option Bytes
  pub priority : ℕ
  pub lineage : Bytes
  pub tags : List Bytes
  pub retry_count : ℕ
  pub last_error : Bytes
  pub block_reason : Bytes
  pub log : List ProtocolLogEntry
  pub extra : Dict Bytes Bytes

pub record ProtocolTask : Type 0 where
  pub id : ℕ
  pub title : Bytes
  pub status : Bytes
  pub depends : List Bytes
  pub created : Bytes
  pub completed_at : Option Bytes
  pub metadata : ProtocolMetadata

unfoldable pub status_name : TaskStatus → Bytes
status_name pending = codes "pending"
status_name in_progress = codes "in_progress"
status_name completed = codes "completed"
status_name blocked = codes "blocked"

unfoldable pub new_protocol_log_entry : LogEntry → ProtocolLogEntry
unfolding timestamp_string
new_protocol_log_entry e = record {
  timestamp = timestamp_string e.timestamp;
  agent = e.agent;
  message = e.message;
}

-- A time that is set: `nil` for 0.
abbrev pub optional_timestamp : ℕ → Option Bytes
optional_timestamp ms = if ltb 0 ms then some (timestamp_string ms) else none

unfoldable pub new_protocol_task : Task → ProtocolTask
unfolding status_name new_protocol_log_entry timestamp_string
new_protocol_task t = record {
  id = t.id;
  title = t.title;
  status = status_name t.status;
  depends = t.depends;
  created = timestamp_string t.created;
  completed_at = optional_timestamp t.completed_at;
  metadata = record {
    capabilities = t.capabilities;
    owner = t.owner;
    lease_expires = optional_timestamp t.lease_expires;
    priority = t.priority;
    lineage = t.lineage;
    tags = t.tags;
    retry_count = t.retry_count;
    last_error = t.last_error;
    block_reason = t.block_reason;
    log = map new_protocol_log_entry t.log;
    extra = t.extra;
  };
}

unfoldable pub new_protocol_event : Event → ProtocolEvent
unfolding timestamp_string
new_protocol_event e = record {
  id = e.id;
  timestamp = timestamp_string e.timestamp;
  type = e.type;
  task_id = e.task_id;
  actor = e.actor;
  details = e.details;
}

pub record BlockedSummary : Type 0 where
  pub count : ℕ
  pub primary_blockers : List Bytes

-- The blockers of all entries, as a set.
unfoldable pub unique_blockers : List (List Bytes) → List Bytes
unique_blockers [] = []
unique_blockers (bs ∷ rest) = add_all bs (unique_blockers rest)
  where
    add_all : List Bytes → List Bytes → List Bytes
    add_all [] set = set
    add_all (b ∷ bs) set = add_to_set b (add_all bs set)

-- The tasks of the map that are counted, as a set of their keys behind those counted before.
unfoldable pub count_blocked : Dict ℕ Task → List ℕ → List ℕ
count_blocked [] counted = counted
count_blocked ((k, t) ∷ m) counted = count_blocked m (
    if status_eq t.status blocked
    then (if has k counted then counted else k ∷ counted)
    else counted)

unfoldable pub new_blocked_summary : Dict ℕ Task → Resolver → BlockedSummary
unfolding get_blocked_tasks unique_blockers count_blocked sort_strings
new_blocked_summary tasks resolver =
    let waiting = get_blocked_tasks tasks resolver in
    record {
      count = length (count_blocked tasks (keys waiting));
      primary_blockers = sort_strings (unique_blockers (values waiting));
    }
