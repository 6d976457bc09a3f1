-- ===== src/Store/Expiry.antt =====
-- store/store.go: `CleanExpiredLeases` against a look at each task.
use terminal_todo.Base.{
  not, ◌&&◌, leb, Eq-nat, ℕ, ◌+◌, ◌≤◌, ◌<◌, ◌≡◌, refl, Bool, true, false, ◌||◌, List, [], ◌∷◌, some,
  arith, nat_eq, nat_eq_iff, ltb, if◌then◌else◌, has, Option-cases, inl, inr, has-nil, has-cons,
  length, bytes_eq,
}
use mathlib.Core.Option
use terminal_todo.Base.Dict.{Dict, KeysUnique, keys, values, lookup, lookup-modify}
use terminal_todo.Base.Decimal.{u64_mod}
use terminal_todo.Store.{pending, in_progress, status_eq, Task, TaskStore, lease_expired}
use terminal_todo.Store.Ops.{
  get_task, add_event, reset_lease, owner_key, holds_expired, expired_ids, insert_id, sort_ids,
  expire_one, expire_all, clean_expired_leases,
}
use terminal_todo.Store.Invariant.{
  IsWellFormed, AllEntries, write-IsWellFormed, add_event-IsWellFormed,
}

-- The task after the reclaim: one in progress whose lease has an end that has come is pending again,
-- with no owner and no lease.
abbrev pub reclaimed : ℕ → Task → Task
reclaimed now t =
    if status_eq t.status in_progress && (not (nat_eq t.lease_expires 0) && leb t.lease_expires now)
    then record t { status = pending; owner = []; lease_expires = 0 }
    else t

pub lookup-expire_one :
    (now id k : ℕ) (s : TaskStore)
    → lookup k (expire_one now id s).tasks
      ≡ (if nat_eq id k then Option.map reset_lease (lookup k s.tasks) else lookup k s.tasks)
unfolding expire_one
lookup-expire_one now id k s =
    ground (arith, nat_eq_iff id k, lookup-modify id k reset_lease s.tasks)

lookup-expire_all :
    (now k : ℕ) (ids : List ℕ) (s : TaskStore)
    → lookup k (expire_all now ids s).tasks
      ≡ (if has k ids then Option.map reset_lease (lookup k s.tasks) else lookup k s.tasks)
unfolding expire_all
lookup-expire_all now k [] s = ground (arith, has-nil k)
lookup-expire_all now k (id ∷ ids) s = ground (
  arith,
  lookup-expire_all now k ids (expire_one now id s),
  lookup-expire_one now id k s,
  has-cons k id ids,
)

pub has-insert_id : (k n : ℕ) (ms : List ℕ) → has k (insert_id n ms) ≡ (nat_eq n k || has k ms)
unfolding insert_id
has-insert_id k n [] = has-cons k n []
has-insert_id k n (m ∷ ms) = ground (
  arith,
  has-cons k n (m ∷ ms),
  has-cons k m ms,
  has-cons k m (insert_id n ms),
  has-insert_id k n ms,
)

pub has-sort_ids : (k : ℕ) (ns : List ℕ) → has k (sort_ids ns) ≡ has k ns
unfolding sort_ids
has-sort_ids k [] = refl
has-sort_ids k (n ∷ ns) =
    ground (arith, has-insert_id k n (sort_ids ns), has-sort_ids k ns, has-cons k n ns)

pub has-expired_absent :
    (now n k : ℕ) (m : Dict ℕ Task)
    → AllEntries n m
    → has k (keys m) ≡ false
    → has k (expired_ids now (values m)) ≡ false
unfolding expired_ids values keys
has-expired_absent now n k [] a h = has-nil k
has-expired_absent now n k ((j, t) ∷ m) a h = ground (
  arith,
  a.0.keyed,
  has-cons k j (keys m),
  has-cons k t.id (expired_ids now (values m)),
  has-expired_absent now n k m a.1,
)

pub has-expired_ids :
    (now n k : ℕ) (m : Dict ℕ Task) (t : Task)
    → AllEntries n m
    → KeysUnique m
    → lookup k m ≡ some t
    → has k (expired_ids now (values m)) ≡ holds_expired now t
unfolding expired_ids values lookup
has-expired_ids now n k [] t a u e = absurd (cc)
has-expired_ids now n k ((j, x) ∷ m) t a u e = ground (
  arith,
  a.0.keyed,
  nat_eq_iff j k,
  has-cons k x.id (expired_ids now (values m)),
  has-expired_ids now n k m t a.1 u.1,
  has-expired_absent now n j m a.1 u.0,
)

clean-tasks :
    (now : ℕ) (s : TaskStore)
    → (clean_expired_leases now s).0.tasks
      ≡ (expire_all now (sort_ids (expired_ids now (values s.tasks))) s).tasks
unfolding clean_expired_leases
clean-tasks now s = ground arith

-- After the reclaim each task is as before, but those whose lease has expired are pending again,
-- with no owner and no lease; no task comes or goes.
pub lookup-clean_expired_leases :
    (now k : ℕ) (s : TaskStore)
    → IsWellFormed s
    → get_task k (clean_expired_leases now s).0 ≡ Option.map (reclaimed now) (get_task k s)
unfolding get_task
lookup-clean_expired_leases now k s v =
    let ids = expired_ids now (values s.tasks) in
    rw (clean-tasks now s, lookup-expire_all now k (sort_ids ids) s, has-sort_ids k ids)
      (elim (Option-cases (lookup k s.tasks)) [
        | inl e ↦ ground arith
        | inr (t, e) ↦
            ground (arith, has-expired_ids now s.next_id k s.tasks t v.entries v.unique e)
      ])

expire_one-IsWellFormed :
    (now id : ℕ) (s : TaskStore)
    → s.next_event_id + 1 < u64_mod
    → IsWellFormed s
    → IsWellFormed (expire_one now id s)
unfolding expire_one
expire_one-IsWellFormed now id s room v = elim (Option-cases (get_task id s)) [
  | inl e ↦ rw (e, expire_one) v
  | inr (t, e) ↦
      rw (e, expire_one)
        (add_event-IsWellFormed now lease_expired t.id t.owner ((owner_key, t.owner) ∷ []) _ room (
          write-IsWellFormed id reset_lease s
            (λ u f h. (refl, λ p. (unfold bytes_eq in refl, refl))) v))
]

pub expire_one-next_event_id :
    (now id : ℕ) (s : TaskStore)
    → s.next_event_id + 1 < u64_mod
    → (expire_one now id s).next_event_id ≤ s.next_event_id + 1
unfolding expire_one add_event
expire_one-next_event_id now id s room = ground arith

expire_all-IsWellFormed :
    (now : ℕ) (ids : List ℕ) (s : TaskStore)
    → s.next_event_id + length ids < u64_mod
    → IsWellFormed s
    → IsWellFormed (expire_all now ids s)
unfolding expire_all
expire_all-IsWellFormed now [] s room v = v
expire_all-IsWellFormed now (id ∷ ids) s room v =
    expire_all-IsWellFormed now ids (expire_one now id s)
      (omega (arith, expire_one-next_event_id now id s (omega arith)))
      (expire_one-IsWellFormed now id s (omega arith) v)

-- The reclaim keeps the store well formed, as long as the event IDs do not wrap.
pub clean_expired_leases-IsWellFormed :
    (now : ℕ) (s : TaskStore)
    → s.next_event_id + (clean_expired_leases now s).1 < u64_mod
    → IsWellFormed s
    → IsWellFormed (clean_expired_leases now s).0
unfolding clean_expired_leases
clean_expired_leases-IsWellFormed now s room v =
    stamp now (ltb 0 _) _ (expire_all-IsWellFormed now _ s room v)
  where
    stamp :
        (now : ℕ) (b : Bool) (s' : TaskStore)
        → IsWellFormed s'
        → IsWellFormed (if b then record s' { last_modified = now } else s')
    stamp now true s' w = record {
      unique = w.unique;
      entries = w.entries;
      events_rise = w.events_rise;
    }
    stamp now false s' w = w
