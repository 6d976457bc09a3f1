-- ===== src/Store/History.antt =====
-- store/store.go: `EventsSince` over a rising history; `runMigrations` and the version check.
use terminal_todo.Base.{
  Eq-nat, ℕ, zero, suc, ◌+◌, ◌≤◌, ◌<◌, ◌≡◌, refl, Bool, List, [], ◌∷◌, arith, ltb, if◌then◌else◌,
  select, All,
}
use terminal_todo.Base.Decimal.{u64_mod}
use terminal_todo.Store.{TaskStore, Event}
use terminal_todo.Store.Ops.{next_u64, events_after, events_since}
use terminal_todo.Store.Migration.{
  max_event_id, next_event_id_of, migrate_events, migration, run_from, run_migrations, upgrade,
}
use terminal_todo.Store.Invariant.{EventsRise, IsWellFormed}
use terminal_todo.Errors.{ok}

abbrev pub is_after : ℕ → Event → Bool
is_after id e = ltb id e.id

pub rises-select :
    (id low : ℕ) (es : List Event) (high : ℕ)
    → id < low
    → EventsRise low es high
    → select (is_after id) es ≡ es
rises-select id low [] high h r = refl
rises-select id low (e ∷ es) high h r = ground (arith, rises-select id (suc e.id) es high)

events_after-select :
    (id low : ℕ) (es : List Event) (high : ℕ)
    → EventsRise low es high
    → events_after id es ≡ select (is_after id) es
unfolding events_after
events_after-select id low [] high r = refl
events_after-select id low (e ∷ es) high r =
    ground (arith, events_after-select id (suc e.id) es high, rises-select id (suc e.id) es high)

-- Polling returns exactly the events with a larger ID, in order.
pub events_since-select :
    (id : ℕ) (s : TaskStore) → IsWellFormed s → events_since id s ≡ select (is_after id) s.events
unfolding events_since
events_since-select id s v = ground (
  arith,
  events_after-select id 1 s.events s.next_event_id v.events_rise,
  rises-select id 1 s.events s.next_event_id,
)

max-le : (best : ℕ) (es : List Event) → best ≤ max_event_id best es
unfolding max_event_id
max-le best [] = omega arith
max-le best (e ∷ es) = ground (arith, max-le (if ltb best e.id then e.id else best) es)

max-All : (best : ℕ) (es : List Event) → All (λ e. e.id ≤ max_event_id best es) es
unfolding max_event_id
max-All best [] = tt
max-All best (e ∷ es) =
    let best' = if ltb best e.id then e.id else best in
    (ground (arith, max-le best' es), max-All best' es)

-- What an upgrade from before the event counter gives.
pub record HasCounter (s s' : TaskStore) : Type 0 where
  pub version : s'.schema_version ≡ 4
  pub same_tasks : s'.tasks ≡ s.tasks
  pub same_events : s'.events ≡ s.events
  pub same_receipts : s'.acquisitions ≡ s.acquisitions
  pub same_ids : s'.next_id ≡ s.next_id
  pub ahead : All (λ e. e.id < s'.next_event_id) s.events
  pub positive : 0 < s'.next_event_id

ahead-weaken : (es : List Event) (m n : ℕ) → m < n → All (λ e. e.id ≤ m) es → All (λ e. e.id < n) es
ahead-weaken [] m n h a = tt
ahead-weaken (e ∷ es) m n h (p, a) = (omega arith, ahead-weaken es m n h a)

next_u64-suc : (n : ℕ) → n + 1 < u64_mod → next_u64 n ≡ n + 1
next_u64-suc n h = omega arith

next-ahead :
    (es : List Event)
    → max_event_id 0 es + 1 < u64_mod
    → All (λ e. e.id < next_event_id_of es) es × (0 < next_event_id_of es)
next-ahead [] h = (tt, omega arith)
next-ahead (e ∷ es) h =
    let n = next_u64-suc (max_event_id 0 (e ∷ es)) h in
    (
      ahead-weaken (e ∷ es) (max_event_id 0 (e ∷ es)) _ (omega (arith, n)) (max-All 0 (e ∷ es)),
      omega (arith, n),
    )

abbrev upgraded : TaskStore → TaskStore
upgraded s = record s { schema_version = 4; next_event_id = next_event_id_of s.events }

-- An upgrade of a store without event counter, of schema 0 or 1, succeeds, keeps the tasks, the
-- events, the receipts and the next task ID, and starts the counter above all events.
pub upgrade-HasCounter :
    (s : TaskStore)
    → s.schema_version < 2
    → s.next_event_id ≡ 0
    → max_event_id 0 s.events + 1 < u64_mod
    → (s' : TaskStore) × (upgrade s ≡ ok s') × HasCounter s s'
unfolding upgrade run_migrations run_from migration migrate_events
upgrade-HasCounter s h z m = (
  upgraded s,
  upgrade_at s.schema_version h refl z,
  record {
    version = refl;
    same_tasks = refl;
    same_events = refl;
    same_receipts = refl;
    same_ids = refl;
    ahead = (next-ahead s.events m).0;
    positive = (next-ahead s.events m).1;
  },
)
  where
    upgrade_at :
        (v : ℕ) → v < 2 → s.schema_version ≡ v → s.next_event_id ≡ 0 → upgrade s ≡ ok (upgraded s)
    upgrade_at zero h e z = rw (e, z) refl
    upgrade_at (suc zero) h e z = rw (e, z) refl
    upgrade_at (suc (suc v)) h e z = ground arith
