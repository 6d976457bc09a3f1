-- ===== src/Serve/Space.antt =====
-- internal/cli/serve.go: the IDs that a request can hand out.
use mathlib.Core.Option
use terminal_todo.Base.{
  Eq-nat, ℕ, suc, ◌+◌, ◌*◌, ◌<◌, ◌≡◌, refl, ap, ◌∙◌, List, [], ◌∷◌, Option, none, some, arith,
  length, Option-cases, inl, inr,
}
use terminal_todo.Base.Decimal.{u64_mod}
use terminal_todo.Base.Dict.{lookup, values}
use terminal_todo.Store.{Task, TaskStore}
use terminal_todo.Store.Ops.{
  get_task, add_event, expired_ids, sort_ids, expire_one, expire_all, clean_expired_leases,
}
use terminal_todo.Store.Invariant.{IsWellFormed}
use terminal_todo.Store.Expiry.{
  reclaimed, lookup-clean_expired_leases, clean_expired_leases-IsWellFormed,
}
use terminal_todo.Lifecycle.Editing.{edit_events}
use terminal_todo.Lifecycle.Edges.{IsSteady, FewerEdges-IsAcyclic, clean-FewerEdges}
use terminal_todo.Serve.Params.{UpdateParams}
use terminal_todo.Serve.Room.{clean-count, clean-length, clean-next_event_id}
use terminal_todo.Serve.Server.{
  Method, todo_init, moves, todo_done, todo_add, todo_update, todo_acquire, todo_decompose,
}

-- How many events an update can make.
abbrev pub update_events : UpdateParams → Option Task → ℕ
update_events p none = 0
update_events p (some t) = edit_events t p.add_deps + 1

-- How many events a request can make, beside those of a reclaim.
abbrev pub events_of : Method → TaskStore → ℕ
events_of (moves q) s = 2
events_of (todo_done p) s = length p.ids + 2
events_of (todo_add p) s = 1
events_of (todo_update p) s = update_events p (get_task p.id s)
events_of (todo_acquire p) s = 1
events_of (todo_decompose p) s = 1
events_of _ s = 0

-- How many tasks a request can create.
abbrev pub tasks_of : Method → ℕ
tasks_of (todo_add p) = 1
tasks_of (todo_decompose p) = length p.subtasks
tasks_of _ = 0

-- The counters have room for the request, and for this many reclaims of all leases.
pub record HasSpace (q : Method) (reclaims : ℕ) (s : TaskStore) : Type 0 where
  pub events : s.next_event_id + reclaims * length s.tasks + events_of q s < u64_mod
  pub ids : s.next_id + tasks_of q < u64_mod

expire_all-next_id :
    (now : ℕ) (ids : List ℕ) (s : TaskStore) → (expire_all now ids s).next_id ≡ s.next_id
unfolding expire_all expire_one add_event
expire_all-next_id now [] s = refl
expire_all-next_id now (id ∷ ids) s =
    expire_all-next_id now ids (expire_one now id s) ∙ elim (Option-cases (get_task id s)) [
      | inl e ↦ rw (e, expire_one) refl
      | inr (t, e) ↦ rw (e, expire_one) refl
    ]

clean-next_id : (now : ℕ) (s : TaskStore) → (clean_expired_leases now s).0.next_id ≡ s.next_id
unfolding clean_expired_leases
clean-next_id now s =
    ground (arith, expire_all-next_id now (sort_ids (expired_ids now (values s.tasks))) s)

update_events-reclaimed :
    (p : UpdateParams) (now : ℕ) (o : Option Task)
    → update_events p (Option.map (reclaimed now) o) ≡ update_events p o
update_events-reclaimed p now none = refl
update_events-reclaimed p now (some t) = ground arith

events_of-same :
    (q : Method) (s s' : TaskStore) → s'.tasks ≡ s.tasks → events_of q s' ≡ events_of q s
unfolding get_task
events_of-same (todo_update p) s s' e = ap (λ m. update_events p (lookup p.id m)) e
events_of-same todo_init s s' e = refl
events_of-same _ s s' e = refl

-- A reclaim leaves alone what the request will make.
clean-events_of :
    (q : Method) (now : ℕ) (s : TaskStore)
    → IsWellFormed s
    → events_of q (clean_expired_leases now s).0 ≡ events_of q s
clean-events_of (todo_update p) now s v =
    ap (update_events p) (lookup-clean_expired_leases now p.id s v)
    ∙ update_events-reclaimed p now (get_task p.id s)
clean-events_of todo_init now s v = refl
clean-events_of _ now s v = refl

pub HasSpace-same :
    (q : Method) (n : ℕ) (s s' : TaskStore)
    → s'.tasks ≡ s.tasks
    → s'.next_id ≡ s.next_id
    → s'.next_event_id ≡ s.next_event_id
    → HasSpace q n s
    → HasSpace q n s'
HasSpace-same q n s s' e i c room = record {
  events = rw (events_of-same q s s' e, c, e) room.events;
  ids = rw i room.ids;
}

pub cleaned-IsSteady :
    (q : Method) (n now : ℕ) (s : TaskStore)
    → HasSpace q (suc n) s
    → IsSteady s
    → IsSteady (clean_expired_leases now s).0 × HasSpace q n (clean_expired_leases now s).0
cleaned-IsSteady q n now s room v =
    let events = room.events in
    let fits : s.next_event_id + length s.tasks + n * length s.tasks + events_of q s < u64_mod =
      omega arith in
    (
      record {
        well_formed =
            clean_expired_leases-IsWellFormed now s (omega (arith, clean-count now s))
              v.well_formed;
        acyclic = FewerEdges-IsAcyclic (clean-FewerEdges now s) v.acyclic;
      },
      record {
        events =
            rw (clean-length now s, clean-events_of q now s v.well_formed)
              (omega (arith, clean-next_event_id now s (omega arith)));
        ids = rw (clean-next_id now s) room.ids;
      },
    )
