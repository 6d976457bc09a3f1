-- ===== src/Tests/EventPage.antt =====
-- Runs of the event pages of internal/cli/event_protocol.go.
use terminal_todo.Base.{Eq-nat, ℕ, ◌≡◌, [], ◌∷◌, some, arith, map, select}
use terminal_todo.Tests.{project, project-IsWellFormed, created_event}
use terminal_todo.Store.{Event, TaskStore, task_claimed}
use terminal_todo.Store.Invariant.{IsWellFormed}
use terminal_todo.Store.History.{is_after}
use terminal_todo.Protocol.{new_protocol_event}
use terminal_todo.EventPage.{build_event_page}
use terminal_todo.EventPage.Follow.{follow, follow-select}
use terminal_todo.EventPage.Gap.{GapSays, build_event_page-GapSays}

abbrev claimed_event : ℕ → Event
claimed_event id = record created_event { id = id; type = task_claimed }

-- The events 1, 2, 5 and 6 are left.
abbrev busy : TaskStore
busy = record project {
  next_event_id = 7;
  events = created_event ∷ claimed_event 2 ∷ claimed_event 5 ∷ claimed_event 6 ∷ [];
}

busy-IsWellFormed : IsWellFormed busy
busy-IsWellFormed = record {
  unique = project-IsWellFormed.unique;
  entries = project-IsWellFormed.entries;
  events_rise = (omega arith, (omega arith, (omega arith, (omega arith, omega arith))));
}

follow-select_example :
    follow 5 busy 2 1 ≡ some (map new_protocol_event (select (is_after 1) busy.events))
follow-select_example = follow-select 5 busy 2 1 busy-IsWellFormed (omega arith) (omega arith)

build_event_page-GapSays_example :
    let c = (build_event_page busy 2 1).cursor in
    GapSays 2 busy.next_event_id busy.events c.retention_gap
build_event_page-GapSays_example =
    build_event_page-GapSays busy 2 1 busy-IsWellFormed (omega arith) (omega arith)
