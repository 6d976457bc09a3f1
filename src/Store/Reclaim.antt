-- ===== src/Store/Reclaim.antt =====
-- store/store.go: all that `CleanExpiredLeases` changes of a store.
use mathlib.Core.Option
use terminal_todo.Base.{
  Eq-nat, ℕ, ◌+◌, ◌<◌, ◌≡◌, refl, ◌∙◌, Bool, true, false, List, [], ◌∷◌, ◌++◌, Option, none, some,
  arith, nat_eq_iff, ltb, has, has-nil, has-cons, length, All, any, Option-cases, inl, inr,
  if◌then◌else◌,
}
use terminal_todo.Base.Decimal.{u64_mod}
use terminal_todo.Base.Dict.{Dict, KeysUnique, keys, values, lookup}
use terminal_todo.Store.{Task, TaskStore, Event}
use terminal_todo.Store.Ops.{
  get_task, holds_expired, expired_ids, insert_id, sort_ids, expire_all, has_expired_leases,
  clean_expired_leases,
}
use terminal_todo.Store.Invariant.{IsWellFormed, AllEntries, EventsRise}
use terminal_todo.Store.Expiry.{
  reclaimed, has-insert_id, has-sort_ids, has-expired_absent, has-expired_ids,
  lookup-clean_expired_leases,
}
use terminal_todo.Store.Transaction.{Codec, stamped}
use terminal_todo.Store.Expiries.{
  IsExpiry, Distinct, task_ids, Frees, AllFound, append_nil, expire_all-Frees,
}

abbrev pub has_lapsed : ℕ → Option Task → Bool
has_lapsed now none = false
has_lapsed now (some t) = holds_expired now t

-- The second store is the first one with its expired leases reclaimed: each task is as it was, or
-- free again where its lease has expired; the counter of IDs and the receipts are the same; behind
-- the old events there is one event for each expired lease, which names the task and its owner, and
-- the counter of events is as much higher.
pub record Reclaims (now : ℕ) (s x : TaskStore) : Type 0 where
  pub tasks : (k : ℕ) → get_task k x ≡ Option.map (reclaimed now) (get_task k s)
  pub next_id : x.next_id ≡ s.next_id
  pub acquisitions : x.acquisitions ≡ s.acquisitions
  pub news : List Event
  pub events : x.events ≡ s.events ++ news
  pub told : All (IsExpiry now s) news
  pub once : Distinct (task_ids news)
  pub named : (k : ℕ) → has k (task_ids news) ≡ has_lapsed now (get_task k s)
  pub rise : EventsRise s.next_event_id news x.next_event_id
  pub next_event_id : x.next_event_id ≡ s.next_event_id + length news

Distinct-insert_id :
    (n : ℕ) (ns : List ℕ) → has n ns ≡ false → Distinct ns → Distinct (insert_id n ns)
unfolding insert_id
Distinct-insert_id n [] h d = (h, tt)
Distinct-insert_id n (m ∷ ms) h d = ground (
  arith,
  has-cons n m ms,
  nat_eq_iff n m,
  nat_eq_iff m n,
  has-insert_id m n ms,
  Distinct-insert_id n ms,
)

Distinct-sort_ids : (ns : List ℕ) → Distinct ns → Distinct (sort_ids ns)
unfolding sort_ids
Distinct-sort_ids [] d = tt
Distinct-sort_ids (n ∷ ns) d =
    Distinct-insert_id n (sort_ids ns) (has-sort_ids n ns ∙ d.0) (Distinct-sort_ids ns d.1)

Distinct-expired_ids :
    (now n : ℕ) (m : Dict ℕ Task)
    → AllEntries n m
    → KeysUnique m
    → Distinct (expired_ids now (values m))
unfolding expired_ids values
Distinct-expired_ids now n [] a u = tt
Distinct-expired_ids now n ((j, t) ∷ m) a u =
    ground
      (arith, a.0.keyed, has-expired_absent now n j m a.1 u.0, Distinct-expired_ids now n m a.1 u.1)

entry_keyed :
    (n k : ℕ) (m : Dict ℕ Task) (t : Task) → AllEntries n m → lookup k m ≡ some t → t.id ≡ k
unfolding lookup
entry_keyed n k [] t a e = absurd (cc)
entry_keyed n k ((j, u) ∷ m) t a e =
    ground (arith, a.0.keyed, nat_eq_iff j k, entry_keyed n k m t a.1)

lookup-none : (k : ℕ) (m : Dict ℕ Task) → lookup k m ≡ none → has k (keys m) ≡ false
unfolding lookup keys
lookup-none k [] e = has-nil k
lookup-none k ((j, t) ∷ m) e = ground (arith, has-cons k j (keys m), lookup-none k m)

has-expired :
    (now k : ℕ) (s : TaskStore)
    → IsWellFormed s
    → has k (sort_ids (expired_ids now (values s.tasks))) ≡ has_lapsed now (get_task k s)
unfolding get_task
has-expired now k s v =
    has-sort_ids k (expired_ids now (values s.tasks)) ∙ elim (Option-cases (lookup k s.tasks)) [
      | inl e ↦
          rw e (has-expired_absent now s.next_id k s.tasks v.entries (lookup-none k s.tasks e))
      | inr (t, e) ↦ rw e (has-expired_ids now s.next_id k s.tasks t v.entries v.unique e)
    ]

expired_found :
    (now : ℕ) (s : TaskStore)
    → IsWellFormed s
    → AllFound s (sort_ids (expired_ids now (values s.tasks)))
unfolding get_task
expired_found now s v k h = elim (Option-cases (lookup k s.tasks)) [
  | inl e ↦ let gone = has-expired now k s v in absurd (cc (gone, h, e))
  | inr (t, e) ↦ (t, e, entry_keyed s.next_id k s.tasks t v.entries e)
]

-- The reclaim of a well-formed store whose counter of events has room.
pub clean_expired_leases-Reclaims :
    (now : ℕ) (s : TaskStore)
    → IsWellFormed s
    → s.next_event_id + (clean_expired_leases now s).1 < u64_mod
    → Reclaims now s (clean_expired_leases now s).0
unfolding clean_expired_leases
clean_expired_leases-Reclaims now s v room =
    let ids = sort_ids (expired_ids now (values s.tasks)) in
    stamp (ltb 0 (length ids)) ids (expire_all now ids s)
      (λ k. lookup-clean_expired_leases now k s v) (λ k. has-expired now k s v)
      (Distinct-sort_ids _ (Distinct-expired_ids now s.next_id s.tasks v.entries v.unique))
      (expire_all-Frees now ids s room
        (Distinct-sort_ids _ (Distinct-expired_ids now s.next_id s.tasks v.entries v.unique))
        (expired_found now s v))
  where
    stamp :
        (b : Bool) (ids : List ℕ) (x : TaskStore)
        → ((k : ℕ)
            → get_task k (if b then record x { last_modified = now } else x)
              ≡ Option.map (reclaimed now) (get_task k s))
        → ((k : ℕ) → has k ids ≡ has_lapsed now (get_task k s))
        → Distinct ids
        → Frees now ids s x
        → Reclaims now s (if b then record x { last_modified = now } else x)
    stamp true ids x same which once f = record {
      tasks = same;
      next_id = f.next_id;
      acquisitions = f.acquisitions;
      news = f.news;
      events = f.events;
      told = f.told;
      once = rw f.names once;
      named = rw f.names which;
      rise = f.rise;
      next_event_id = f.next_event_id;
    }
    stamp false ids x same which once f = record {
      tasks = same;
      next_id = f.next_id;
      acquisitions = f.acquisitions;
      news = f.news;
      events = f.events;
      told = f.told;
      once = rw f.names once;
      named = rw f.names which;
      rise = f.rise;
      next_event_id = f.next_event_id;
    }

none_expired :
    (now k : ℕ) (m : Dict ℕ Task) (t : Task)
    → any (holds_expired now) (values m) ≡ false
    → lookup k m ≡ some t
    → holds_expired now t ≡ false
unfolding values lookup
none_expired now k [] t h e = absurd (cc)
none_expired now k ((j, u) ∷ m) t h e = ground (arith, none_expired now k m t)

-- A store without an expired lease is as a reclaim leaves it.
pub fresh-Reclaims : (now : ℕ) (s : TaskStore) → has_expired_leases now s ≡ false → Reclaims now s s
unfolding has_expired_leases get_task
fresh-Reclaims now s h = record {
  tasks = λ k. elim (Option-cases (lookup k s.tasks)) [
    | inl e ↦ rw e refl
    | inr (t, e) ↦ rw (e, none_expired now k s.tasks t h e) refl
  ];
  next_id = refl;
  acquisitions = refl;
  news = [];
  events = append_nil s.events;
  told = tt;
  once = tt;
  named = λ k. has-nil k ∙ elim (Option-cases (lookup k s.tasks)) [
    | inl e ↦ rw e refl
    | inr (t, e) ↦ rw (e, none_expired now k s.tasks t h e) refl
  ];
  rise = omega arith;
  next_event_id = omega arith;
}

-- Also when it is written.
pub Reclaims-stamped :
    (codec : Codec) (now : ℕ) (s x : TaskStore)
    → Reclaims now s x
    → Reclaims now s (stamped codec now x)
unfolding get_task
Reclaims-stamped codec now s x r = record {
  tasks = r.tasks;
  next_id = r.next_id;
  acquisitions = r.acquisitions;
  news = r.news;
  events = r.events;
  told = r.told;
  once = r.once;
  named = r.named;
  rise = r.rise;
  next_event_id = r.next_event_id;
}
