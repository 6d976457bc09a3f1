-- ===== src/Store/Invariant.antt =====
-- store/store.go: the well-formed stores, and the store's own operations on them.
use terminal_todo.Base.{
  Eq-nat, ℕ, suc, ◌+◌, ◌≤◌, ◌<◌, ◌≡◌, refl, ◌∙◌, true, false, List, [], ◌∷◌, ◌++◌, some, arith,
  Bytes, nat_eq, nat_eq_iff, has, Bool-cases, inl, inr, bytes_eq, subst, Option-cases, has-cons,
}
use terminal_todo.Base.Decimal.{u64_mod}
use terminal_todo.Base.Dict.{
  Dict, KeysUnique, keys, lookup, insert, delete, modify, KeysUnique-insert, KeysUnique-delete,
  KeysUnique-modify,
}
use terminal_todo.Store.{Task, in_progress, status_eq, EventType, Event, TaskStore}
use terminal_todo.Store.Ops.{
  next_u64, new_task_store, fresh_task, add_task, get_task, add_event, push_log, add_log,
  remove_task,
}

-- A task that is not in progress has no owner and no lease.
abbrev pub HoldsNoLease : Task → Type 0
HoldsNoLease t =
    status_eq t.status in_progress ≡ false → (bytes_eq t.owner [] ≡ true) × (t.lease_expires ≡ 0)

-- An entry of the task map: under its own ID, which was handed out before.
pub record IsEntry (next_id key : ℕ) (t : Task) : Type 0 where
  pub keyed : t.id ≡ key
  pub issued : key < next_id
  pub leased : HoldsNoLease t

abbrev pub AllEntries : ℕ → Dict ℕ Task → Type 0
AllEntries next_id [] = Unit {0}
AllEntries next_id ((k, t) ∷ m) = IsEntry next_id k t × AllEntries next_id m

-- The event IDs rise along the list and stay below `next_event_id`.
abbrev pub EventsRise : ℕ → List Event → ℕ → Type 0
EventsRise low [] high = low ≤ high
EventsRise low (e ∷ es) high = (low ≤ e.id) × EventsRise (suc e.id) es high

pub record IsWellFormed (s : TaskStore) : Type 0 where
  pub unique : KeysUnique s.tasks
  pub entries : AllEntries s.next_id s.tasks
  pub events_rise : EventsRise 1 s.events s.next_event_id

EventsRise-snoc :
    (low high : ℕ) (es : List Event) (e : Event)
    → EventsRise low es high
    → e.id ≡ high
    → EventsRise low (es ++ e ∷ []) (suc high)
EventsRise-snoc low high [] e h q = (omega arith, omega arith)
EventsRise-snoc low high (x ∷ es) e h q = (h.0, EventsRise-snoc (suc x.id) high es e h.1 q)

AllEntries-mono : (n n' : ℕ) (m : Dict ℕ Task) → n ≤ n' → AllEntries n m → AllEntries n' m
AllEntries-mono n n' [] h a = tt
AllEntries-mono n n' ((k, t) ∷ m) h a = (
  record { keyed = a.0.keyed; issued = omega arith; leased = a.0.leased },
  AllEntries-mono n n' m h a.1,
)

AllEntries-insert :
    (n k : ℕ) (t : Task) (m : Dict ℕ Task)
    → IsEntry n k t
    → AllEntries n m
    → AllEntries n (insert k t m)
unfolding insert
AllEntries-insert n k t [] e a = (e, tt)
AllEntries-insert n k t ((j, u) ∷ m) e a = ground (arith, AllEntries-insert n k t m e a.1)

AllEntries-delete : (n k : ℕ) (m : Dict ℕ Task) → AllEntries n m → AllEntries n (delete k m)
unfolding delete
AllEntries-delete n k [] a = tt
AllEntries-delete n k ((j, u) ∷ m) a = ground (arith, AllEntries-delete n k m a.1)

-- A write to the task at `k` that leaves the ID alone and keeps the lease rule.
abbrev pub KeepsEntry : ℕ → (Task → Task) → Dict ℕ Task → Type 0
KeepsEntry k f m =
    (t : Task) → lookup k m ≡ some t → HoldsNoLease t → ((f t).id ≡ t.id) × HoldsNoLease (f t)

KeepsEntry-tail :
    (k j : ℕ) (t : Task) (f : Task → Task) (m : Dict ℕ Task)
    → nat_eq j k ≡ false
    → KeepsEntry k f ((j, t) ∷ m)
    → KeepsEntry k f m
unfolding lookup
KeepsEntry-tail k j t f m miss h u e = h u (rw miss e)

AllEntries-modify_absent :
    (n k : ℕ) (f : Task → Task) (m : Dict ℕ Task)
    → has k (keys m) ≡ false
    → AllEntries n m
    → AllEntries n (modify k f m)
unfolding modify keys
AllEntries-modify_absent n k f [] h a = tt
AllEntries-modify_absent n k f ((j, t) ∷ m) h a =
    let miss : nat_eq j k ≡ false = ground (arith, has-cons k j (keys m)) in
    rw miss (a.0, AllEntries-modify_absent n k f m (ground (arith, has-cons k j (keys m))) a.1)

pub AllEntries-modify :
    (n k : ℕ) (f : Task → Task) (m : Dict ℕ Task)
    → KeysUnique m
    → KeepsEntry k f m
    → AllEntries n m
    → AllEntries n (modify k f m)
unfolding modify lookup
AllEntries-modify n k f [] u h a = tt
AllEntries-modify n k f ((j, t) ∷ m) u h a = elim (Bool-cases (nat_eq j k)) [
  | inl hit ↦
      let kept = h t (rw hit) a.0.leased in
      let absent : has k (keys m) ≡ false = rw (← (nat_eq_iff j k).0 hit) u.0 in
      rw hit (
        record { keyed = kept.0 ∙ a.0.keyed; issued = a.0.issued; leased = kept.1 },
        AllEntries-modify_absent n k f m absent a.1,
      )
  | inr miss ↦ rw miss (a.0, AllEntries-modify n k f m u.1 (KeepsEntry-tail k j t f m miss h) a.1)
]

pub write-IsWellFormed :
    (k : ℕ) (f : Task → Task) (s : TaskStore)
    → KeepsEntry k f s.tasks
    → IsWellFormed s
    → IsWellFormed (record s { tasks = modify k f s.tasks })
write-IsWellFormed k f s h v = record {
  unique = KeysUnique-modify k f s.tasks v.unique;
  entries = AllEntries-modify s.next_id k f s.tasks v.unique h v.entries;
  events_rise = v.events_rise;
}

pub new_task_store-IsWellFormed : IsWellFormed new_task_store
unfolding new_task_store
new_task_store-IsWellFormed = record { unique = tt; entries = tt; events_rise = omega arith }

next_u64-suc : (n : ℕ) → n + 1 < u64_mod → next_u64 n ≡ suc n
next_u64-suc n h = omega arith

pub add_event-IsWellFormed :
    (now : ℕ) (type : EventType) (id : ℕ) (actor : Bytes) (details : Dict Bytes Bytes)
    (s : TaskStore)
    → s.next_event_id + 1 < u64_mod
    → IsWellFormed s
    → IsWellFormed (add_event now type id actor details s)
unfolding add_event
add_event-IsWellFormed now type id actor details s room v = record {
  unique = v.unique;
  entries = v.entries;
  events_rise =
      rw (next_u64-suc s.next_event_id room)
        (EventsRise-snoc 1 s.next_event_id s.events _ v.events_rise refl);
}

pub add_log-IsWellFormed :
    (now id : ℕ) (agent message : Bytes) (s : TaskStore)
    → IsWellFormed s
    → IsWellFormed (add_log now id agent message s).0
unfolding add_log
add_log-IsWellFormed now id agent message s v =
    ground (arith, write-IsWellFormed id (push_log now agent message) s (λ t e h. (refl, h)) v)

pub add_task-IsWellFormed :
    (now : ℕ) (title : Bytes) (depends : List Bytes) (s : TaskStore)
    → s.next_id + 1 < u64_mod
    → IsWellFormed s
    → IsWellFormed (add_task now title depends s)
unfolding add_task
add_task-IsWellFormed now title depends s room v = record {
  unique = KeysUnique-insert s.next_id _ s.tasks v.unique;
  entries = rw (next_u64-suc s.next_id room) (
      AllEntries-insert (suc s.next_id) s.next_id (fresh_task s.next_id title depends now) s.tasks
        (record {
          keyed = refl;
          issued = omega arith;
          leased = λ h. (unfold bytes_eq in refl, refl);
        })
        (AllEntries-mono s.next_id (suc s.next_id) s.tasks (omega arith) v.entries));
  events_rise = v.events_rise;
}

pub remove_task-IsWellFormed :
    (now id : ℕ) (s : TaskStore) → IsWellFormed s → IsWellFormed (remove_task now id s).0
unfolding remove_task
remove_task-IsWellFormed now id s v = elim (Option-cases (get_task id s)) [
  | inl e ↦ rw (e, remove_task) v
  | inr (t, e) ↦
      rw (e, remove_task)
        (record {
          unique = KeysUnique-delete id s.tasks v.unique;
          entries = AllEntries-delete s.next_id id s.tasks v.entries;
          events_rise = v.events_rise;
        })
]

-- The task that a lookup finds is an entry.
pub lookup-IsEntry :
    (n k : ℕ) (m : Dict ℕ Task) (t : Task) → AllEntries n m → lookup k m ≡ some t → IsEntry n k t
unfolding lookup
lookup-IsEntry n k [] t a e = absurd (cc)
lookup-IsEntry n k ((j, u) ∷ m) t a e = elim (Bool-cases (nat_eq j k)) [
  | inl hit ↦
      let q : u ≡ t = ground arith in
      subst (IsEntry n k) q (subst (λ i. IsEntry n i u) ((nat_eq_iff j k).0 hit) a.0)
  | inr miss ↦ lookup-IsEntry n k m t a.1 (ground arith)
]
