-- ===== src/Serve/Room.antt =====
-- store/store.go: how many events a reclaim adds.
use terminal_todo.Base.{
  Eq-nat, ℕ, suc, ◌+◌, ◌≤◌, ◌<◌, ◌≡◌, refl, List, [], ◌∷◌, arith, length, Option-cases, inl, inr,
  ◌∙◌, ap,
}
use terminal_todo.Base.Decimal.{u64_mod}
use terminal_todo.Base.Dict.{Dict, values, modify}
use terminal_todo.Store.{Task, TaskStore}
use terminal_todo.Store.Ops.{
  get_task, add_event, reset_lease, expired_ids, insert_id, sort_ids, expire_one, expire_all,
  clean_expired_leases,
}
use terminal_todo.Store.Expiry.{expire_one-next_event_id}

length-insert_id : (n : ℕ) (ns : List ℕ) → length (insert_id n ns) ≡ suc (length ns)
unfolding insert_id
length-insert_id n [] = refl
length-insert_id n (m ∷ ms) = ground (arith, length-insert_id n ms)

length-sort_ids : (ns : List ℕ) → length (sort_ids ns) ≡ length ns
unfolding sort_ids
length-sort_ids [] = refl
length-sort_ids (n ∷ ns) = length-insert_id n (sort_ids ns) ∙ ap suc (length-sort_ids ns)

length-expired_ids : (now : ℕ) (m : Dict ℕ Task) → length (expired_ids now (values m)) ≤ length m
unfolding expired_ids values
length-expired_ids now [] = omega arith
length-expired_ids now ((k, t) ∷ m) = ground (arith, length-expired_ids now m)

length-modify : (id : ℕ) (f : Task → Task) (m : Dict ℕ Task) → length (modify id f m) ≡ length m
unfolding modify
length-modify id f [] = refl
length-modify id f ((k, t) ∷ m) = ap suc (length-modify id f m)

length-expire_one :
    (now id : ℕ) (s : TaskStore) → length (expire_one now id s).tasks ≡ length s.tasks
unfolding expire_one add_event
length-expire_one now id s = elim (Option-cases (get_task id s)) [
  | inl e ↦ rw (e, expire_one) refl
  | inr (t, e) ↦ rw (e, expire_one) (length-modify id reset_lease s.tasks)
]

length-expire_all :
    (now : ℕ) (ids : List ℕ) (s : TaskStore) → length (expire_all now ids s).tasks ≡ length s.tasks
unfolding expire_all
length-expire_all now [] s = refl
length-expire_all now (id ∷ ids) s =
    length-expire_all now ids (expire_one now id s) ∙ length-expire_one now id s

expire_all-next_event_id :
    (now : ℕ) (ids : List ℕ) (s : TaskStore)
    → s.next_event_id + length ids < u64_mod
    → (expire_all now ids s).next_event_id ≤ s.next_event_id + length ids
unfolding expire_all
expire_all-next_event_id now [] s room = omega arith
expire_all-next_event_id now (id ∷ ids) s room =
    let one = expire_one-next_event_id now id s (omega arith) in
    omega (arith, one, expire_all-next_event_id now ids (expire_one now id s) (omega (arith, one)))

pub clean-count : (now : ℕ) (s : TaskStore) → (clean_expired_leases now s).1 ≤ length s.tasks
unfolding clean_expired_leases
clean-count now s =
    omega
      (arith, length-sort_ids (expired_ids now (values s.tasks)), length-expired_ids now s.tasks)

pub clean-length :
    (now : ℕ) (s : TaskStore) → length (clean_expired_leases now s).0.tasks ≡ length s.tasks
unfolding clean_expired_leases
clean-length now s =
    ground (arith, length-expire_all now (sort_ids (expired_ids now (values s.tasks))) s)

-- A reclaim counts its events.
pub clean-next_event_id :
    (now : ℕ) (s : TaskStore)
    → s.next_event_id + length s.tasks < u64_mod
    → (clean_expired_leases now s).0.next_event_id ≤ s.next_event_id + length s.tasks
unfolding clean_expired_leases
clean-next_event_id now s room =
    let ids = sort_ids (expired_ids now (values s.tasks)) in
    let few : length ids ≤ length s.tasks = clean-count now s in
    ground (arith, expire_all-next_event_id now ids s (omega (arith, few)), few)
