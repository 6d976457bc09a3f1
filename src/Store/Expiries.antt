-- ===== src/Store/Expiries.antt =====
-- store/store.go: the events and the counters behind the reclaim of several tasks.
use terminal_todo.Base.{
  Eq-nat, ℕ, suc, ◌+◌, ◌<◌, ◌≡◌, refl, sym, ap, ◌∙◌, true, false, List, [], ◌∷◌, ◌++◌, some, arith,
  nat_eq, nat_eq_iff, has, has-cons, length, All,
}
use terminal_todo.Base.Text.{codes}
use terminal_todo.Base.Decimal.{u64_mod}
use terminal_todo.Base.Dict.{lookup}
use terminal_todo.Store.{Task, TaskStore, Event, lease_expired}
use terminal_todo.Store.Ops.{get_task, add_event, expire_one, expire_all}
use terminal_todo.Store.Invariant.{EventsRise}
use terminal_todo.Store.Expiry.{lookup-expire_one}

-- The event tells that the lease of this owner on a task of the store has expired.
pub record IsExpiry (now : ℕ) (s : TaskStore) (e : Event) : Type 0 where
  pub task : Task
  pub found : lookup e.task_id s.tasks ≡ some task
  pub type : e.type ≡ lease_expired
  pub timestamp : e.timestamp ≡ now
  pub actor : e.actor ≡ task.owner
  pub details : e.details ≡ (codes "owner", task.owner) ∷ []

abbrev pub Distinct : List ℕ → Type 0
Distinct [] = Unit {0}
Distinct (n ∷ ns) = (has n ns ≡ false) × Distinct ns

abbrev pub task_ids : List Event → List ℕ
task_ids [] = []
task_ids (e ∷ es) = e.task_id ∷ task_ids es

-- What a reclaim of these tasks leaves of the rest of the store.
pub record Frees (now : ℕ) (ids : List ℕ) (s x : TaskStore) : Type 0 where
  pub next_id : x.next_id ≡ s.next_id
  pub acquisitions : x.acquisitions ≡ s.acquisitions
  pub news : List Event
  pub events : x.events ≡ s.events ++ news
  pub told : All (IsExpiry now s) news
  pub names : task_ids news ≡ ids
  pub rise : EventsRise s.next_event_id news x.next_event_id
  pub next_event_id : x.next_event_id ≡ s.next_event_id + length news

abbrev pub AllFound : TaskStore → List ℕ → Type 0
AllFound s ids = (k : ℕ) → has k ids ≡ true → (t : Task) × (lookup k s.tasks ≡ some t) × (t.id ≡ k)

-- The events about other tasks say the same of the store before this task was freed.
told_before :
    (now id : ℕ) (s : TaskStore) (es : List Event)
    → has id (task_ids es) ≡ false
    → All (IsExpiry now (expire_one now id s)) es
    → All (IsExpiry now s) es
told_before now id s [] h a = tt
told_before now id s (e ∷ es) h a =
    let other : nat_eq id e.task_id ≡ false =
      ground (arith, has-cons id e.task_id (task_ids es), nat_eq_iff id e.task_id) in
    let rest : has id (task_ids es) ≡ false = ground (arith, has-cons id e.task_id (task_ids es)) in
    (
      record {
        task = a.0.task;
        found = sym (unchanged e.task_id other) ∙ a.0.found;
        type = a.0.type;
        timestamp = a.0.timestamp;
        actor = a.0.actor;
        details = a.0.details;
      },
      told_before now id s es rest a.1,
    )
  where
    unchanged :
        (k : ℕ) → nat_eq id k ≡ false → lookup k (expire_one now id s).tasks ≡ lookup k s.tasks
    unchanged k other = lookup-expire_one now id k s ∙ rw other refl

append_assoc : (es ds fs : List Event) → (es ++ ds) ++ fs ≡ es ++ (ds ++ fs)
append_assoc [] ds fs = refl
append_assoc (e ∷ es) ds fs = ap (λ xs. e ∷ xs) (append_assoc es ds fs)

pub append_nil : (es : List Event) → es ≡ es ++ []
append_nil [] = refl
append_nil (e ∷ es) = ap (λ xs. e ∷ xs) (append_nil es)

-- The event and the counters behind the reclaim of one task.
record FreesOne (now id : ℕ) (s x : TaskStore) : Type 0 where
  next_id : x.next_id ≡ s.next_id
  acquisitions : x.acquisitions ≡ s.acquisitions
  event : Event
  events : x.events ≡ s.events ++ event ∷ []
  told : IsExpiry now s event
  name : event.task_id ≡ id
  numbered : event.id ≡ s.next_event_id
  next_event_id : x.next_event_id ≡ suc s.next_event_id

expire_one-FreesOne :
    (now id : ℕ) (s : TaskStore) (t : Task)
    → lookup id s.tasks ≡ some t
    → t.id ≡ id
    → s.next_event_id + 1 < u64_mod
    → FreesOne now id s (expire_one now id s)
unfolding expire_one add_event get_task
expire_one-FreesOne now id s t e keyed room =
    rw (e, expire_one)
      (record {
        next_id = refl;
        acquisitions = refl;
        event = _;
        events = refl;
        told = record {
          task = t;
          found = ap (λ k. lookup k s.tasks) keyed ∙ e;
          type = refl;
          timestamp = refl;
          actor = refl;
          details = refl;
        };
        name = keyed;
        numbered = refl;
        next_event_id = omega arith;
      })

found_behind :
    (now id : ℕ) (s : TaskStore) (ids : List ℕ)
    → has id ids ≡ false
    → AllFound s (id ∷ ids)
    → AllFound (expire_one now id s) ids
found_behind now id s ids fresh found k h =
    let other : nat_eq id k ≡ false = ground (arith, nat_eq_iff id k) in
    let (t, e, keyed) = found k (ground (arith, has-cons k id ids)) in
    (t, lookup-expire_one now id k s ∙ rw other e, keyed)

pub expire_all-Frees :
    (now : ℕ) (ids : List ℕ) (s : TaskStore)
    → s.next_event_id + length ids < u64_mod
    → Distinct ids
    → AllFound s ids
    → Frees now ids s (expire_all now ids s)
unfolding expire_all
expire_all-Frees now [] s room d found = record {
  next_id = refl;
  acquisitions = refl;
  news = [];
  events = append_nil s.events;
  told = tt;
  names = refl;
  rise = omega arith;
  next_event_id = omega arith;
}
expire_all-Frees now (id ∷ ids) s room d found =
    let (t, e, keyed) = found id (ground (arith, has-cons id id ids, nat_eq_iff id id)) in
    let one = expire_one-FreesOne now id s t e keyed (omega arith) in
    let next : (expire_one now id s).next_event_id ≡ suc s.next_event_id = one.next_event_id in
    let rest =
      expire_all-Frees now ids (expire_one now id s) (omega arith) d.1
        (found_behind now id s ids d.0 found) in
    record {
      next_id = rest.next_id ∙ one.next_id;
      acquisitions = rest.acquisitions ∙ one.acquisitions;
      news = one.event ∷ rest.news;
      events =
          rest.events
          ∙ ap (λ es. es ++ rest.news) one.events
          ∙ append_assoc s.events (one.event ∷ []) rest.news;
      told = (one.told, told_before now id s rest.news (rw rest.names d.0) rest.told);
      names = rw (one.name, rest.names) refl;
      rise = (omega (arith, one.numbered), rw (one.numbered, ← next) rest.rise);
      next_event_id = omega (arith, rest.next_event_id, next);
    }
