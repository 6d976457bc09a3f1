-- ===== src/Tests/Store.antt =====
-- Runs of store/store.go.
use terminal_todo.Base.{Eq-nat, Eq-bytes, ◌+◌, ◌≡◌, ◌<◌, refl, none, some, arith, select}
use terminal_todo.Base.Decimal.{u64_mod}
use terminal_todo.Tests.{ann, project, project-IsWellFormed}
use mathlib.Core.Option
use terminal_todo.Errors.{ok}
use terminal_todo.Store.{TaskStore}
use terminal_todo.Store.Ops.{get_task, events_since, clean_expired_leases}
use terminal_todo.Store.Expiry.{reclaimed, lookup-clean_expired_leases}
use terminal_todo.Store.Migration.{upgrade, max_event_id}
use terminal_todo.Store.History.{is_after, events_since-select, HasCounter, upgrade-HasCounter}
use terminal_todo.Store.Transaction.{Codec, before_rename, load_unlocked, update}
use terminal_todo.Store.Reclaim.{Reclaims}
use terminal_todo.Store.Atomic.{IsAtomic, update-IsAtomic}
use terminal_todo.Lifecycle.Invariant.{perform, claim}

-- A file that holds the store itself.
abbrev pub memory : Codec
memory = record {
  Data = TaskStore;
  marshal = λ s. s;
  unmarshal = λ s. some s;
  unmarshal-marshal = λ s. refl;
}

lookup-clean_expired_leases_example :
    get_task 1 (clean_expired_leases 600 project).0
    ≡ Option.map (reclaimed 600) (get_task 1 project)
lookup-clean_expired_leases_example = lookup-clean_expired_leases 600 1 project project-IsWellFormed

events_since-select_example : events_since 0 project ≡ select (is_after 0) project.events
events_since-select_example = events_since-select 0 project project-IsWellFormed

-- The project as version 1 stored it.
abbrev old_project : TaskStore
old_project = record project { schema_version = 1; next_event_id = 0 }

few_events : max_event_id 0 old_project.events + 1 < u64_mod
unfolding max_event_id
few_events = omega arith

upgrade-HasCounter_example :
    (s' : TaskStore) × (upgrade old_project ≡ ok s') × HasCounter old_project s'
upgrade-HasCounter_example = upgrade-HasCounter old_project (omega arith) refl few_events

project_loads : load_unlocked memory (some project) ≡ ok project
unfolding load_unlocked
project_loads = refl

-- The disk fails before the rename, when Ann's lease is over.
update-IsAtomic_example :
    (x : TaskStore) × Reclaims 600 project x
    × IsAtomic memory before_rename 600 project
        (some project)
        (perform none 600 (claim 1 ann 60) x)
        (update memory before_rename 600 (perform none 600 (claim 1 ann 60)) (some project))
update-IsAtomic_example =
    update-IsAtomic memory before_rename 600 (perform none 600 (claim 1 ann 60)) (some project)
      project project_loads project-IsWellFormed (omega arith)
