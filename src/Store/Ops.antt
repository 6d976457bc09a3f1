-- ===== src/Store/Ops.antt =====
-- store/store.go: the operations on a store in memory. `now` is what the project clock reads, in
-- milliseconds; it does not move inside one operation. IDs and counters wrap as `uint64` does.
use terminal_todo.Base.{
  Eq-nat, Eq-bytes, ℕ, ◌+◌, ◌%◌, Bool, true, false, not, ◌&&◌, List, [], ◌∷◌, ◌++◌, Option, none,
  some, Bytes, nat_eq, ltb, leb, if◌then◌else◌, length, any,
}
use terminal_todo.Base.Decimal.{u64_mod}
use terminal_todo.Base.Text.{codes}
use terminal_todo.Base.Dict.{Dict, lookup, insert, delete, modify, values}
use terminal_todo.Store.{
  Task, pending, in_progress, status_eq, EventType, lease_expired, Event, AcquisitionReceipt,
  TaskStore, current_schema_version,
}

-- `n++` on a `uint64`.
abbrev pub next_u64 : ℕ → ℕ
next_u64 n = (n + 1) % u64_mod

unfoldable pub new_task_store : TaskStore
new_task_store = record {
  schema_version = current_schema_version;
  tasks = [];
  next_id = 1;
  last_modified = 0;
  next_event_id = 1;
  events = [];
  acquisitions = [];
}

abbrev pub fresh_task : ℕ → Bytes → List Bytes → ℕ → Task
fresh_task id title depends now = record {
  id = id;
  title = title;
  status = pending;
  depends = depends;
  created = now;
  completed_at = 0;
  capabilities = [];
  owner = [];
  lease_expires = 0;
  priority = 0;
  lineage = [];
  tags = [];
  retry_count = 0;
  last_error = [];
  block_reason = [];
  log = [];
  extra = [];
}

-- The new task is the one that the store then holds at the old `next_id`.
unfoldable pub add_task : ℕ → Bytes → List Bytes → TaskStore → TaskStore
add_task now title depends s = record s {
  tasks = insert s.next_id (fresh_task s.next_id title depends now) s.tasks;
  next_id = next_u64 s.next_id;
  last_modified = now;
}

unfoldable pub get_task : ℕ → TaskStore → Option Task
get_task id s = lookup id s.tasks

unfoldable pub add_event : ℕ → EventType → ℕ → Bytes → Dict Bytes Bytes → TaskStore → TaskStore
add_event now type task_id actor details s = record s {
  events =
      s.events
      ++ record {
        id = s.next_event_id;
        timestamp = now;
        type = type;
        task_id = task_id;
        actor = actor;
        details = details;
      }
        ∷ [];
  next_event_id = next_u64 s.next_event_id;
  last_modified = now;
}

-- The first event with a larger ID, and all behind it.
unfoldable pub events_after : ℕ → List Event → List Event
events_after id [] = []
events_after id (e ∷ es) = if ltb id e.id then e ∷ es else events_after id es

unfoldable pub events_since : ℕ → TaskStore → List Event
unfolding events_after
events_since id s = if nat_eq id 0 then s.events else events_after id s.events

abbrev pub push_log : ℕ → Bytes → Bytes → Task → Task
push_log now agent message t = record t {
  log = t.log ++ record { timestamp = now; agent = agent; message = message } ∷ [];
}

-- Whether the task is there, and the store after the call.
unfoldable pub add_log : ℕ → ℕ → Bytes → Bytes → TaskStore → TaskStore × Bool
unfolding get_task
add_log now id agent message s = elim (get_task id s) [
  | none ↦ (s, false)
  | some _ ↦ (
    record s { tasks = modify id (push_log now agent message) s.tasks; last_modified = now },
    true,
  )
]

unfoldable pub drop_receipts : ℕ → Dict Bytes AcquisitionReceipt → Dict Bytes AcquisitionReceipt
drop_receipts id [] = []
drop_receipts id ((k, r) ∷ rs) =
    if nat_eq r.task.id id then drop_receipts id rs else (k, r) ∷ drop_receipts id rs

unfoldable pub remove_task : ℕ → ℕ → TaskStore → TaskStore × Bool
unfolding get_task drop_receipts
remove_task now id s = elim (get_task id s) [
  | none ↦ (s, false)
  | some _ ↦ (
    record s {
      tasks = delete id s.tasks;
      acquisitions = drop_receipts id s.acquisitions;
      last_modified = now;
    },
    true,
  )
]

unfoldable pub get_all_tasks : TaskStore → List Task
get_all_tasks s = values s.tasks

abbrev pub lease_is_expired : ℕ → ℕ → Bool
lease_is_expired expiry now = not (nat_eq expiry 0) && leb expiry now

abbrev pub holds_expired : ℕ → Task → Bool
holds_expired now t = status_eq t.status in_progress && lease_is_expired t.lease_expires now

unfoldable pub has_expired_leases : ℕ → TaskStore → Bool
has_expired_leases now s = any (holds_expired now) (values s.tasks)

-- The IDs that `CleanExpiredLeases` collects.
unfoldable pub expired_ids : ℕ → List Task → List ℕ
expired_ids now [] = []
expired_ids now (t ∷ ts) =
    let rest = expired_ids now ts in if holds_expired now t then t.id ∷ rest else rest

-- `sort.Slice` by `<`, on IDs.
unfoldable pub insert_id : ℕ → List ℕ → List ℕ
insert_id n [] = n ∷ []
insert_id n (m ∷ ms) = if leb n m then n ∷ m ∷ ms else m ∷ insert_id n ms

unfoldable pub sort_ids : List ℕ → List ℕ
unfolding insert_id
sort_ids [] = []
sort_ids (n ∷ ns) = insert_id n (sort_ids ns)

abbrev pub reset_lease : Task → Task
reset_lease t = record t { status = pending; owner = []; lease_expires = 0 }

abbrev pub owner_key : Bytes
owner_key = codes "owner"

-- The reset of one task, with its event. The ID is a collected `task.ID`. Where it is the key of no
-- task, because a task stands under another key than its ID, the source dereferences a nil task and
-- panics; here the store is left alone, and this says nothing about the source. In a well-formed store
-- there is no such ID.
unfoldable pub expire_one : ℕ → ℕ → TaskStore → TaskStore
unfolding get_task add_event
expire_one now id s = elim (get_task id s) [
  | none ↦ s
  | some t ↦
      add_event now lease_expired t.id t.owner ((owner_key, t.owner) ∷ [])
        (record s { tasks = modify id reset_lease s.tasks })
]

unfoldable pub expire_all : ℕ → List ℕ → TaskStore → TaskStore
unfolding expire_one
expire_all now [] s = s
expire_all now (id ∷ ids) s = expire_all now ids (expire_one now id s)

-- The store, and how many leases were reclaimed.
unfoldable pub clean_expired_leases : ℕ → TaskStore → TaskStore × ℕ
unfolding expired_ids sort_ids expire_all
clean_expired_leases now s =
    let ids = sort_ids (expired_ids now (values s.tasks)) in
    let s' = expire_all now ids s in
    (if ltb 0 (length ids) then record s' { last_modified = now } else s', length ids)
