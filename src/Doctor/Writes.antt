-- ===== src/Doctor/Writes.antt =====
-- internal/cli/cmd_doctor.go against the writes that the transitions are made of.
use terminal_todo.Base.{
  Eq-nat, ℕ, ◌≡◌, refl, subst, Bool, true, false, not, ◌||◌, [], some, Bytes, nat_eq, nat_eq_iff,
  if◌then◌else◌, arith, Option-cases, inl, inr, bytes_eq,
}
use terminal_todo.Base.Dict.{Dict, lookup, lookup-modify}
use terminal_todo.Store.{Task, in_progress, completed, status_eq, TaskStore, EventType}
use terminal_todo.Store.Ops.{get_task, add_event, add_log, push_log}
use terminal_todo.Errors.{Result, ok, err}
use terminal_todo.Lifecycle.Leases.{Outcome, guarded, write, logged, yield_lease}
use terminal_todo.Lifecycle.Update.{valid_priority}
use terminal_todo.Doctor.{field_problems, is_owned, store_invariant_problems}
use terminal_todo.Doctor.Entries.{IsHealthy, KeepsGraph, write-IsHealthy, fields-silent}

-- The fields as the doctor wants them.
abbrev pub lease_fits : Task → Bool
lease_fits t =
    if status_eq t.status in_progress
    then not (bytes_eq t.owner [] || nat_eq t.lease_expires 0)
    else not (is_owned t)

abbrev pub completion_fits : Task → Bool
completion_fits t =
    if status_eq t.status completed then not (nat_eq t.completed_at 0) else nat_eq t.completed_at 0

abbrev pub Fits : ℕ → Task → Type 0
Fits k t =
    (nat_eq k t.id ≡ true)
    × (valid_priority t.priority ≡ true)
    × (lease_fits t ≡ true)
    × (completion_fits t ≡ true)

pub fields-Fits : (k : ℕ) (t : Task) → field_problems k t ≡ [] → Fits k t
unfolding field_problems
fields-Fits k t h = (ground arith, ground arith, ground arith, ground arith)

pub Fits-fields : (k : ℕ) (t : Task) → Fits k t → field_problems k t ≡ []
unfolding field_problems
Fits-fields k t h = ground arith

pub event-IsHealthy :
    (now : ℕ) (type : EventType) (id : ℕ) (actor : Bytes) (details : Dict Bytes Bytes)
    (s : TaskStore)
    → IsHealthy s
    → IsHealthy (add_event now type id actor details s)
unfolding add_event store_invariant_problems
event-IsHealthy now type id actor details s h = record { unique = h.unique; silent = h.silent }

pub stamp-IsHealthy :
    (now : ℕ) (s : TaskStore) → IsHealthy s → IsHealthy (record s { last_modified = now })
unfolding store_invariant_problems
stamp-IsHealthy now s h = record { unique = h.unique; silent = h.silent }

-- A write that leaves alone what the doctor looks at.
pub aside-IsHealthy :
    (id : ℕ) (f : Task → Task) (s : TaskStore)
    → KeepsGraph f
    → ((t : Task) → field_problems id t ≡ [] → field_problems id (f t) ≡ [])
    → IsHealthy s
    → IsHealthy (write id f s)
aside-IsHealthy id f s keeps same h =
    write-IsHealthy id f keeps s (λ t e. same t (fields-silent id t s h e)) h

pub logged-IsHealthy :
    (now id : ℕ) (actor message : Bytes) (s : TaskStore)
    → IsHealthy s
    → IsHealthy (logged now id actor message s)
unfolding add_log field_problems
logged-IsHealthy now id actor message s h = elim (Option-cases (get_task id s)) [
  | inl e ↦ rw (e, logged, add_log) h
  | inr (t, e) ↦
      rw (e, logged, add_log)
        (stamp-IsHealthy now (write id (push_log now actor message) s)
          (aside-IsHealthy id (push_log now actor message) s (λ t. (refl, refl)) (λ t q. q) h))
]

pub changed-IsHealthy :
    (id : ℕ) (f : Task → Task) (s : TaskStore) (t : Task)
    → KeepsGraph f
    → lookup id s.tasks ≡ some t
    → (Fits id t → Fits id (f t))
    → IsHealthy s
    → IsHealthy (write id f s)
changed-IsHealthy id f s t keeps found fit h =
    write-IsHealthy id f keeps s
      (λ x e.
        let same : t ≡ x = ground arith in
        subst (λ y. field_problems id (f y) ≡ []) same
          (Fits-fields id (f t) (fit (fields-Fits id t (fields-silent id t s h found)))))
      h

pub guarded-holds {ℓ} :
    {A : Type ℓ} (P : TaskStore → Type 0) (s : TaskStore) (g : Result A) (body : A → Outcome)
    → P s
    → ((a : A) → g ≡ ok a → P (body a).0)
    → P (guarded s g body).0
guarded-holds P s (err e) body h k = h
guarded-holds P s (ok a) body h k = k a refl

-- A healthy store whose task at `id` is not completed, if there is one.
pub record IsOpen (id : ℕ) (s : TaskStore) : Type 0 where
  pub healthy : IsHealthy s
  pub not_done : (x : Task) → lookup id s.tasks ≡ some x → status_eq x.status completed ≡ false

pub event-IsOpen :
    (now : ℕ) (type : EventType) (id : ℕ) (actor : Bytes) (details : Dict Bytes Bytes)
    (s : TaskStore)
    → IsOpen id s
    → IsOpen id (add_event now type id actor details s)
unfolding add_event
event-IsOpen now type id actor details s o = record {
  healthy = event-IsHealthy now type id actor details s o.healthy;
  not_done = o.not_done;
}

pub aside-IsOpen :
    (id : ℕ) (f : Task → Task) (s : TaskStore)
    → KeepsGraph f
    → ((t : Task) → field_problems id t ≡ [] → field_problems id (f t) ≡ [])
    → ((t : Task) → (f t).status ≡ t.status)
    → IsOpen id s
    → IsOpen id (write id f s)
aside-IsOpen id f s keeps same status o = record {
  healthy = aside-IsHealthy id f s keeps same o.healthy;
  not_done = λ x e. elim (Option-cases (lookup id s.tasks)) [
    | inl q ↦ absurd (ground (arith, lookup-modify id id f s.tasks))
    | inr (t, q) ↦
        ground (arith, lookup-modify id id f s.tasks, nat_eq_iff id id, o.not_done t q, status t)
  ];
}

pub logged-IsOpen :
    (now id : ℕ) (actor message : Bytes) (s : TaskStore)
    → IsOpen id s
    → IsOpen id (logged now id actor message s)
unfolding add_log field_problems
logged-IsOpen now id actor message s o = elim (Option-cases (get_task id s)) [
  | inl e ↦ rw (e, logged, add_log) o
  | inr (t, e) ↦
      rw (e, logged, add_log)
        (let w =
            aside-IsOpen id (push_log now actor message) s (λ t. (refl, refl)) (λ t q. q)
              (λ t. refl) o in
          record {
            healthy = stamp-IsHealthy now (write id (push_log now actor message) s) w.healthy;
            not_done = w.not_done;
          })
]

pub yield-IsHealthy : (id : ℕ) (s : TaskStore) → IsOpen id s → IsHealthy (write id yield_lease s)
unfolding bytes_eq
yield-IsHealthy id s o =
    write-IsHealthy id yield_lease (λ t. (refl, refl)) s
      (λ x e.
        let fit = fields-Fits id x (fields-silent id x s o.healthy e) in
        let not_done = o.not_done x e in
        Fits-fields id (yield_lease x) (fit.0, fit.1, refl, ground arith))
      o.healthy

pub found-IsOpen :
    (id : ℕ) (s : TaskStore) (t : Task)
    → lookup id s.tasks ≡ some t
    → status_eq t.status in_progress ≡ true
    → IsHealthy s
    → IsOpen id s
found-IsOpen id s t found running h = record { healthy = h; not_done = λ x e. ground arith }
