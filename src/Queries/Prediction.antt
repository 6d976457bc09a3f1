-- ===== src/Queries/Prediction.antt =====
-- internal/cli/cmd_whatif.go against `completeTask` and `newlyReadyAfter` of coordination_ops.go.
use terminal_todo.Base.{
  Eq-nat, ℕ, ◌≡◌, refl, sym, ap, ◌∙◌, Bool, true, false, not, ◌&&◌, ◌||◌, List, [], ◌∷◌, some,
  arith, Bytes, nat_eq, nat_eq_iff, if◌then◌else◌, Bool-cases, Option-cases, inl, inr, any, all,
  select, has, has-cons, has-nil,
}
use terminal_todo.Base.Dict.{
  Dict, lookup, modify, keys, values, KeysUnique, lookup-modify, lookup-keys,
}
use terminal_todo.Store.{Task, completed, status_eq, TaskStore}
use terminal_todo.Store.Ops.{get_task, get_all_tasks, add_event}
use terminal_todo.Store.Invariant.{IsWellFormed, lookup-IsEntry}
use terminal_todo.Errors.{Error, ok, err, Result-cases}
use terminal_todo.Dag.Uri.{parse_local_id}
use terminal_todo.Dag.Ready.{
  Resolver, is_completed, dependency_complete, uris_complete, dependencies_complete, is_ready,
  ready_among-select, get_ready_tasks, get_blocked_tasks,
}
use terminal_todo.Lifecycle.Leases.{complete_task, complete_guards, finish}
use terminal_todo.Lifecycle.Prune.{
  awaited, was_released, released_among, newly_ready_after, sort_tasks,
}
use terminal_todo.Queries.Blocking.{
  waits, has-blocked_among, were_blocked-select, released_among-select, select-select, any-entry,
}
use terminal_todo.Queries.Simulate.{set_completed, newly_ready_if_done}

module _ (m : Dict ℕ Task) (r : Resolver) (id : ℕ) (f : Task → Task) where
  awaited_complete :
      (t : Task) (u : Bytes)
      → lookup id m ≡ some t
      → status_eq t.status completed ≡ false
      → status_eq (f t).status completed ≡ true
      → (dependency_complete (modify id f m) r u
          ≡ (dependency_complete m r u || awaited (id ∷ []) u))
        × ((awaited (id ∷ []) u && dependency_complete m r u) ≡ false)
  unfolding dependency_complete is_completed
  awaited_complete t u e o d = elim (Option-cases (parse_local_id u)) [
    | inl q ↦ rw (q, dependency_complete) (ground arith, ground arith)
    | inr (i, q) ↦ elim (Bool-cases (nat_eq id i)) [
      | inr other ↦
          rw (q, dependency_complete)
            (
              ground (arith, lookup-modify id i f m, has-cons i id [], has-nil i),
              ground (arith, has-cons i id [], has-nil i),
            )
      | inl same ↦
          let here : lookup i m ≡ some t =
            ap (λ k. lookup k m) (sym ((nat_eq_iff id i).0 same)) ∙ e in
          rw (q, dependency_complete)
            (ground (arith, lookup-modify id i f m, has-cons i id [], has-nil i), ground arith)
    ]
  ]

  uris_complete-released :
      (t : Task) (us : List Bytes)
      → lookup id m ≡ some t
      → status_eq t.status completed ≡ false
      → status_eq (f t).status completed ≡ true
      → (uris_complete (modify id f m) r us
          ≡ all (λ u. dependency_complete m r u || awaited (id ∷ []) u) us)
        × ((uris_complete (modify id f m) r us && not (uris_complete m r us))
            ≡ (uris_complete (modify id f m) r us && any (awaited (id ∷ [])) us))
  unfolding uris_complete
  uris_complete-released t [] e o d = (refl, refl)
  uris_complete-released t (u ∷ us) e o d =
      let one = awaited_complete t u e o d in
      let rest = uris_complete-released t us e o d in
      (ground (arith, one.0, rest.0), ground (arith, one.0, one.1, rest.1))

module _ (id : ℕ) (f g : Task → Task) (p q : Task → Bool) where
  -- Two tests that agree on an entry, and on its two versions if it is that of `id`: then neither
  -- takes it.
  abbrev AgreeAt : Bool → Task → Type 0
  AgreeAt true t = (p (f t) ≡ false) × (q (g t) ≡ false)
  AgreeAt false t = p t ≡ q t

  abbrev Agree : Dict ℕ Task → Type 0
  Agree [] = Unit {0}
  Agree ((k, t) ∷ m) = AgreeAt (nat_eq k id) t × Agree m

  Agree-lookup :
      (m : Dict ℕ Task)
      → KeysUnique m
      → ((k : ℕ) (t : Task) → lookup k m ≡ some t → AgreeAt (nat_eq k id) t)
      → Agree m
  Agree-lookup [] u h = tt
  Agree-lookup ((k, t) ∷ m) u h =
      (h k t (first_found k t m), Agree-lookup m u.1 (λ j x e. h j x (later_found k t j x m u.0 e)))
    where
      first_found : (k : ℕ) (t : Task) (m : Dict ℕ Task) → lookup k ((k, t) ∷ m) ≡ some t
      first_found k t m = unfold lookup in ground arith

      later_found :
          (k : ℕ) (t : Task) (j : ℕ) (x : Task) (m : Dict ℕ Task)
          → has k (keys m) ≡ false
          → lookup j m ≡ some x
          → lookup j ((k, t) ∷ m) ≡ some x
      later_found k t j x m u e =
          let there = lookup-keys j m {v = x} e in
          let other : nat_eq k j ≡ false = ground (arith, nat_eq_iff k j) in
          unfold lookup in rw other e

  select-Agree :
      (m : Dict ℕ Task)
      → Agree m
      → select p (values (modify id f m)) ≡ select q (values (modify id g m))
  unfolding values modify
  select-Agree [] a = refl
  select-Agree ((k, t) ∷ m) a = elim (Bool-cases (nat_eq k id)) [
    | inl e ↦ let h = rw e at (a.0) in rw (e, h.0, h.1) (select-Agree m a.1)
    | inr e ↦
        let h = rw e at (a.0) in rw (e, h) (ap (λ l. if q t then t ∷ l else l) (select-Agree m a.1))
  ]

pub done_entry :
    (id : ℕ) (actor : Bytes) (r : Resolver) (s : TaskStore) (t : Task)
    → complete_guards id actor r s ≡ ok t
    → (lookup id s.tasks ≡ some t) × (status_eq t.status completed ≡ false)
unfolding complete_guards get_task
done_entry id actor r s t g = (ground arith, ground arith)

pub complete-tasks :
    (id : ℕ) (actor : Bytes) (r : Resolver) (now : ℕ) (s : TaskStore) (t : Task)
    → complete_guards id actor r s ≡ ok t
    → (complete_task id actor r now s).0.tasks ≡ modify id (finish now) s.tasks
unfolding complete_task add_event
complete-tasks id actor r now s t g = rw (g, complete_task) refl

pub complete-guarded :
    (id : ℕ) (actor : Bytes) (r : Resolver) (now : ℕ) (s : TaskStore) (e : Error)
    → complete_guards id actor r s ≡ err e
    → (complete_task id actor r now s).1 ≡ err e
unfolding complete_task
complete-guarded id actor r now s e g = rw (g, complete_task) refl

module _ (r : Resolver) (now id : ℕ) (s : TaskStore) (t0 : Task) (v : IsWellFormed s)
    (found : lookup id s.tasks ≡ some t0)
    (open_before : status_eq t0.status completed ≡ false) where
  abbrev simulated : Dict ℕ Task
  simulated = modify id set_completed s.tasks

  abbrev predicted : Task → Bool
  predicted t = is_ready simulated r t && has t.id (keys (get_blocked_tasks s.tasks r))

  abbrev happened : TaskStore → Task → Bool
  happened after t = was_released after (id ∷ []) r t

  blocked-waits :
      (k : ℕ) (t : Task)
      → lookup k s.tasks ≡ some t
      → has t.id (keys (get_blocked_tasks s.tasks r)) ≡ waits s.tasks r t
  unfolding get_blocked_tasks keys has
  blocked-waits k t h =
      let keyed = (lookup-IsEntry s.next_id k s.tasks t v.entries h).keyed in
      rw keyed (
        ground (
          arith,
          has-blocked_among k s.tasks r (values s.tasks) [],
          any-entry (waits s.tasks r) s.next_id k s.tasks t v.entries v.unique h,
        ))

  agree-at :
      (after : TaskStore)
      → after.tasks ≡ modify id (finish now) s.tasks
      → (k : ℕ) (t : Task) → lookup k s.tasks ≡ some t
      → AgreeAt id set_completed (finish now) predicted (happened after) (nat_eq k id) t
  unfolding dependencies_complete
  agree-at after e k t h = elim (Bool-cases (nat_eq k id)) [
    | inl same ↦ rw same (refl, refl)
    | inr other ↦
        let sim =
          uris_complete-released s.tasks r id set_completed t0 t.depends found open_before refl in
        let real =
          uris_complete-released s.tasks r id (finish now) t0 t.depends found open_before refl in
        rw other (
          ground (
            arith,
            ap (λ m. dependencies_complete t m r) e,
            sim.0,
            sim.1,
            real.0,
            real.1,
            blocked-waits k t h,
          ))
  ]

  -- What a client is told before a completion is what the completion then does.
  predicted-happens :
      (after : TaskStore)
      → after.tasks ≡ modify id (finish now) s.tasks
      → newly_ready_if_done s.tasks id r ≡ released_among after (id ∷ []) r (values after.tasks)
  unfolding newly_ready_if_done get_ready_tasks
  predicted-happens after e =
      rw (were_blocked-select, ready_among-select, select-select, released_among-select)
        (select-Agree id set_completed (finish now) predicted (happened after) s.tasks (
            Agree-lookup id set_completed (finish now) predicted (happened after) s.tasks v.unique
              (agree-at after e))
          ∙ ap (λ m. select (happened after) (values m)) (sym e))

-- Where a completion succeeds, what-if names beforehand exactly the tasks that the completion then
-- reports as newly ready.
pub newly_ready_if_done-newly_ready_after :
    (id : ℕ) (actor : Bytes) (r : Resolver) (now i : ℕ) (s : TaskStore)
    → IsWellFormed s
    → (complete_task id actor r now s).1 ≡ ok i
    → sort_tasks (newly_ready_if_done s.tasks id r)
      ≡ newly_ready_after (complete_task id actor r now s).0 (id ∷ []) r
unfolding newly_ready_after get_all_tasks
newly_ready_if_done-newly_ready_after id actor r now i s v success =
    elim (Result-cases (complete_guards id actor r s)) [
      | inr (e, g) ↦ absurd (cc (complete-guarded id actor r now s e g))
      | inl (t, g) ↦
          let entry = done_entry id actor r s t g in
          ap sort_tasks (
            predicted-happens r now id s t v entry.0 entry.1 (complete_task id actor r now s).0
              (complete-tasks id actor r now s t g))
    ]
