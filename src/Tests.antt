-- ===== src/Tests.antt =====
-- Stores and tasks to try the operations of store/, dag/ and internal/cli/ on.
pub mod Dag
pub mod Lifecycle
pub mod Graphs
pub mod Store
pub mod Allocation
pub mod Compaction
pub mod EventPage
pub mod Queries
pub mod Doctor
pub mod Serve
use terminal_todo.Base.{
  Eq-nat, ℕ, ◌≡◌, refl, Bool, true, false, List, [], ◌∷◌, Option, none, some, arith, Bytes,
  bytes_eq, has,
}
use terminal_todo.Base.Text.{codes}
use terminal_todo.Base.Dict.{keys}
use terminal_todo.Store.{
  Task, pending, in_progress, completed, TaskStore, current_schema_version, Event, task_created,
  AcquisitionReceipt,
}
use terminal_todo.Store.Ops.{fresh_task}
use terminal_todo.Store.Invariant.{IsWellFormed, IsEntry}
use terminal_todo.Dag.Uri.{task_uri, local_alias}

abbrev pub ann : Bytes
ann = codes "ann"

abbrev pub bob : Bytes
bob = codes "bob"

abbrev pub local_ref : ℕ → Bytes
local_ref id = task_uri local_alias id

-- Ann works on the task until 500.
abbrev pub held : Task
held = record (fresh_task 1 (codes "parse") [] 100) {
  status = in_progress;
  owner = ann;
  lease_expires = 500;
}

abbrev pub open_task : Task
open_task = fresh_task 2 (codes "print") [] 100

abbrev pub finished : Task
finished = record (fresh_task 3 (codes "plan") [] 100) { status = completed; completed_at = 120 }

-- It waits for the finished task.
abbrev pub follower : Task
follower = fresh_task 4 (codes "test") (codes "3" ∷ []) 100

abbrev pub created_event : Event
created_event = record {
  id = 1;
  timestamp = 100;
  type = task_created;
  task_id = 1;
  actor = ann;
  details = [];
}

abbrev pub receipt : AcquisitionReceipt
receipt = record {
  request_id = codes "r1";
  operation = codes "acquire.v1";
  fingerprint = codes "f";
  actor = ann;
  created = 100;
  task = held;
}

abbrev pub project : TaskStore
project = record {
  schema_version = current_schema_version;
  tasks = (1, held) ∷ (2, open_task) ∷ (3, finished) ∷ (4, follower) ∷ [];
  next_id = 5;
  last_modified = 100;
  next_event_id = 2;
  events = created_event ∷ [];
  acquisitions = (codes "r1", receipt) ∷ [];
}

pub project-IsWellFormed : IsWellFormed project
unfolding has keys bytes_eq
project-IsWellFormed = record {
  unique = (refl, (refl, (refl, (refl, tt))));
  entries = (
    record { keyed = refl; issued = omega arith; leased = λ p. absurd (cc) },
    (
      record { keyed = refl; issued = omega arith; leased = λ p. (refl, refl) },
      (
        record { keyed = refl; issued = omega arith; leased = λ p. (refl, refl) },
        (record { keyed = refl; issued = omega arith; leased = λ p. (refl, refl) }, tt),
      ),
    ),
  );
  events_rise = (omega arith, omega arith);
}
