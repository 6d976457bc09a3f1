-- ===== src/EventPage.antt =====
-- internal/cli/event_protocol.go: pages of the event history.
pub mod Follow
pub mod Gap
use terminal_todo.Base.{
  Eq-nat, ℕ, zero, suc, ◌+◌, ◌-◌, ◌≤◌, ◌<◌, ◌≡◌, Bool, true, false, ◌&&◌, List, [], ◌∷◌, Option,
  none, some, Bytes, ltb, leb, nat_eq, if◌then◌else◌, length, take, drop, map,
}
use terminal_todo.Base.Decimal.{u64_mod}
use terminal_todo.Store.{Event, TaskStore}
use terminal_todo.Protocol.{ProtocolEvent, new_protocol_event}

abbrev pub default_event_page_limit : ℕ
default_event_page_limit = 100

abbrev pub max_event_page_limit : ℕ
max_event_page_limit = 1000

-- `none` is the error. The argument is `nil`, or an `int` that is not negative: a negative one is
-- refused like 0.
unfoldable pub event_page_limit : Option ℕ → Option ℕ
event_page_limit none = some default_event_page_limit
event_page_limit (some value) =
    if ltb value 1 then none else if ltb max_event_page_limit value then none else some value

pub record EventRetentionGap : Type 0 where
  pub from : ℕ
  pub through : ℕ

pub record EventCursor : Type 0 where
  pub requested_since : ℕ
  pub next_since : ℕ
  pub oldest_available : ℕ
  pub latest_event_id : ℕ
  pub has_more : Bool
  pub history_gap : Bool
  pub retention_gap : Option EventRetentionGap

pub record EventsEnvelope : Type 0 where
  pub events : List ProtocolEvent
  pub limit : ℕ
  pub returned : ℕ
  pub cursor : EventCursor

-- `sort.SliceStable` by the ID.
unfoldable pub insert_event : Event → List Event → List Event
insert_event e [] = e ∷ []
insert_event e (f ∷ fs) = if leb e.id f.id then e ∷ f ∷ fs else f ∷ insert_event e fs

unfoldable pub sort_events : List Event → List Event
unfolding insert_event
sort_events [] = []
sort_events (e ∷ es) = insert_event e (sort_events es)

-- `sort.Search`: the first index with a larger ID, or the length.
unfoldable pub search_after : ℕ → List Event → ℕ
search_after after [] = 0
search_after after (e ∷ es) = if ltb after e.id then 0 else suc (search_after after es)

abbrev pub first_id : List Event → ℕ
first_id [] = 0
first_id (e ∷ es) = e.id

-- The ID of the last event, or the one given.
abbrev pub last_id : ℕ → List Event → ℕ
last_id id [] = id
last_id id (e ∷ es) = last_id e.id es

abbrev pub latest_event_id_of : TaskStore → ℕ
latest_event_id_of s = if ltb 0 s.next_event_id then s.next_event_id - 1 else 0

-- The switch over what stands at `start`, in the events from there on.
abbrev pub gap_at : ℕ → ℕ → List Event → Option EventRetentionGap
gap_at missing_from latest [] =
    if leb missing_from latest
    then some (record { from = missing_from; through = latest })
    else none
gap_at missing_from latest (e ∷ es) =
    if ltb missing_from e.id
    then some (record { from = missing_from; through = e.id - 1 })
    else none

abbrev pub gap_after : ℕ → ℕ → List Event → Option EventRetentionGap
gap_after after latest rest =
    if ltb after (u64_mod - 1) then gap_at (after + 1) latest rest else none

abbrev pub is_gap : Option EventRetentionGap → Bool
is_gap none = false
is_gap (some g) = true

abbrev pub smaller : ℕ → ℕ → ℕ
smaller a b = if ltb b a then b else a

-- The page of the sorted events.
unfoldable pub page_of : List Event → ℕ → ℕ → ℕ → EventsEnvelope
unfolding search_after new_protocol_event
page_of events latest after limit =
    let start = search_after after events in
    let selected = take limit (drop start events) in
    let gap = gap_after after latest (drop start events) in
    record {
      events = map new_protocol_event selected;
      limit = limit;
      returned = length selected;
      cursor = record {
        requested_since = after;
        next_since = last_id after selected;
        oldest_available = first_id events;
        latest_event_id = latest;
        has_more = ltb (smaller (start + limit) (length events)) (length events);
        history_gap = is_gap gap;
        retention_gap = gap;
      };
    }

unfoldable pub build_event_page : TaskStore → ℕ → ℕ → EventsEnvelope
unfolding page_of sort_events
build_event_page s after limit = page_of (sort_events s.events) (latest_event_id_of s) after limit
