-- ===== src/Store/Migration.antt =====
-- store/store.go: `migrations` and `runMigrations`. A migration that only makes a nil slice or map
-- empty changes nothing here.
use terminal_todo.Base.{
  ℕ, zero, suc, ◌-◌, List, [], ◌∷◌, Option, none, some, nat_eq, ltb, if◌then◌else◌,
}
use terminal_todo.Store.{TaskStore, Event, current_schema_version}
use terminal_todo.Store.Ops.{next_u64}
use terminal_todo.Errors.{Result, ok, err, unclassified}

-- `if e.ID > max { max = e.ID }`
unfoldable pub max_event_id : ℕ → List Event → ℕ
max_event_id best [] = best
max_event_id best (e ∷ es) = max_event_id (if ltb best e.id then e.id else best) es

abbrev pub next_event_id_of : List Event → ℕ
next_event_id_of [] = 1
next_event_id_of (e ∷ es) = next_u64 (max_event_id 0 (e ∷ es))

unfoldable pub migrate_events : TaskStore → TaskStore
unfolding max_event_id
migrate_events s = record s {
  next_event_id = if nat_eq s.next_event_id 0 then next_event_id_of s.events else s.next_event_id;
  schema_version = 2;
}

-- `migrations[v]`
unfoldable pub migration : ℕ → Option (TaskStore → TaskStore)
unfolding migrate_events
migration zero = some (λ s. record s { schema_version = 1 })
migration (suc zero) = some migrate_events
migration (suc (suc zero)) = some (λ s. record s { schema_version = 3 })
migration (suc (suc (suc zero))) = some (λ s. record s { schema_version = 4 })
migration _ = none

-- `for v := s.SchemaVersion; v < CurrentSchemaVersion; v++`, by the rounds left.
unfoldable pub run_from : ℕ → ℕ → TaskStore → Result TaskStore
unfolding migration
run_from zero v s = ok s
run_from (suc rounds) v s = elim (migration v) [
  | none ↦ err unclassified
  | some migrate ↦ run_from rounds (suc v) (migrate s)
]

unfoldable pub run_migrations : TaskStore → Result TaskStore
unfolding run_from
run_migrations s = run_from (current_schema_version - s.schema_version) s.schema_version s

-- The check of the version in `loadUnlocked`.
unfoldable pub upgrade : TaskStore → Result TaskStore
unfolding run_migrations
upgrade s =
    if ltb s.schema_version current_schema_version
    then run_migrations s
    else if ltb current_schema_version s.schema_version
    then err unclassified
    else ok s
