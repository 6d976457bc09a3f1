-- ===== src/Lifecycle/Updating.antt =====
-- internal/cli/coordination_ops.go: `updateTask` on well-formed stores without a cycle.
use terminal_todo.Base.{
  Eq-nat, Eq-bytes, ℕ, ◌+◌, ◌<◌, ◌≡◌, refl, inl, inr, Bool, true, false, List, [], Option, none,
  some, arith, Bytes, bytes_eq, length, Bool-cases, if◌then◌else◌, ◌&&◌,
}
use terminal_todo.Base.Text.{trim_space}
use terminal_todo.Base.Decimal.{u64_mod}
use terminal_todo.Base.Dict.{Dict}
use terminal_todo.Store.{Task, TaskStore, task_updated}
use terminal_todo.Store.Ops.{get_task, add_event}
use terminal_todo.Store.Invariant.{write-IsWellFormed, add_event-IsWellFormed}
use terminal_todo.Errors.{Result, ok, err, Result-cases, ◌>>◌, ◌>>=◌}
use terminal_todo.Limits.{
  validate_projected_cardinality, projected_extra_count, max_task_extra_entries,
}
use terminal_todo.Lifecycle.Guards.{require_task, require_owner}
use terminal_todo.Lifecycle.Leases.{write, add_extra}
use terminal_todo.Lifecycle.Update.{
  valid_priority, TaskUpdate, and_then, is_empty, edit_edges, set_title, set_priority, set_caps,
  edit_title, edit_priority, edit_capabilities, edit_extra, changes_metadata, update_task,
}
use terminal_todo.Lifecycle.Edges.{
  IsSteady, FewerEdges-IsAcyclic, FewerEdges-refl, write-FewerEdges,
}
use terminal_todo.Lifecycle.Editing.{IsMidway, edit_events, apply_dependency_edits-IsMidway}

-- A part behind another, where an error ends the update.
and_then-IsSteady {ℓ κ} :
    {A : Type ℓ} {B : Type κ} (n : ℕ) (m : TaskStore × Result A)
    (f : TaskStore → TaskStore × Result B)
    → IsMidway n m.0
    → ((s : TaskStore) → IsMidway n s → IsSteady (f s).0)
    → IsSteady (and_then m f).0
and_then-IsSteady n (s, ok a) f p k = k s p
and_then-IsSteady n (s, err e) f p k = record { well_formed = p.well_formed; acyclic = p.acyclic }

write-IsMidway :
    (n id : ℕ) (f : Task → Task) (s : TaskStore)
    → ((t : Task) → ((f t).id ≡ t.id) × ((f t).depends ≡ t.depends))
    → ((t : Task)
        → ((f t).status ≡ t.status)
          × ((f t).owner ≡ t.owner)
          × ((f t).lease_expires ≡ t.lease_expires))
    → IsMidway n s
    → IsMidway n (write id f s)
write-IsMidway n id f s same held m = record {
  well_formed =
      write-IsWellFormed id f s
        (λ t e h. (
          (same t).0,
          λ p. (
            rw ((held t).1) (h (rw ((held t).0) at p)).0,
            rw ((held t).2) (h (rw ((held t).0) at p)).1,
          ),
        ))
        m.well_formed;
  counted = m.counted;
  acyclic = FewerEdges-IsAcyclic (write-FewerEdges (FewerEdges-refl s) id f same) m.acyclic;
}

module _ (n id : ℕ) (s : TaskStore) (m : IsMidway n s) where
  edit_title-IsMidway : (title : Option Bytes) → IsMidway n (edit_title id title s).0
  unfolding edit_title
  edit_title-IsMidway none = m
  edit_title-IsMidway (some title) = elim (Bool-cases (bytes_eq (trim_space title) [])) [
    | inl e ↦ rw e m
    | inr e ↦ rw e (
        write-IsMidway n id (set_title (trim_space title)) s (λ t. (refl, refl))
          (λ t. (refl, refl, refl)) m)
  ]

  edit_priority-IsMidway : (priority : Option ℕ) → IsMidway n (edit_priority id priority s).0
  unfolding edit_priority
  edit_priority-IsMidway none = m
  edit_priority-IsMidway (some p) = elim (Bool-cases (valid_priority p)) [
    | inl e ↦
        rw e
          (write-IsMidway n id (set_priority p) s (λ t. (refl, refl)) (λ t. (refl, refl, refl)) m)
    | inr e ↦ rw e m
  ]

  edit_capabilities-IsMidway :
      (change : Bool) (caps : List Bytes) → IsMidway n (edit_capabilities id change caps s).0
  unfolding edit_capabilities
  edit_capabilities-IsMidway true caps =
      write-IsMidway n id (set_caps caps) s (λ t. (refl, refl)) (λ t. (refl, refl, refl)) m
  edit_capabilities-IsMidway false caps = m

  edit_extra-IsMidway :
      (task : Task) (extra : Dict Bytes Bytes) → IsMidway n (edit_extra id task extra s).0
  unfolding edit_extra
  edit_extra-IsMidway task extra =
      elim (Bool-cases (
        validate_projected_cardinality (length task.extra) (projected_extra_count task.extra extra)
          max_task_extra_entries)) [
            | inl e ↦ rw e (
                write-IsMidway n id (add_extra extra) s (λ t. (refl, refl))
                  (λ t. (refl, refl, refl)) m)
            | inr e ↦ rw e m
          ]

update-noted :
    (n now id : ℕ) (actor : Bytes) (change : Bool) (s : TaskStore)
    → n + 1 < u64_mod
    → IsMidway n s
    → IsSteady (if change then add_event now task_updated id actor [] s else s)
unfolding add_event
update-noted n now id actor true s room m = record {
  well_formed =
      add_event-IsWellFormed now task_updated id actor [] s (omega (arith, m.counted))
        m.well_formed;
  acyclic = m.acyclic;
}
update-noted n now id actor false s room m = record {
  well_formed = m.well_formed;
  acyclic = m.acyclic;
}

-- The task of an update, behind its guards.
abbrev update_guards : ℕ → Bytes → TaskStore → Result Task
update_guards id actor s = do task ← require_task id s; require_owner task actor; ok task

module _ (id : ℕ) (actor : Bytes) (u : TaskUpdate) (now : ℕ) (s : TaskStore) (v : IsSteady s) where
  edit_edges-IsMidway :
      (task : Task)
      → s.next_event_id + edit_events task u.add_deps < u64_mod
      → IsMidway
          (s.next_event_id + edit_events task u.add_deps)
          (edit_edges id task actor u now s).0
  unfolding edit_edges
  edit_edges-IsMidway task room =
      elim (Bool-cases (is_empty u.add_deps && is_empty u.remove_deps)) [
        | inl e ↦
            rw e
              (record { well_formed = v.well_formed; counted = omega arith; acyclic = v.acyclic })
        | inr e ↦ rw e (
            apply_dependency_edits-IsMidway id task actor u.add_deps u.remove_deps now s room
              v.well_formed v.acyclic)
      ]

  guards-found : (task : Task) → update_guards id actor s ≡ ok task → get_task id s ≡ some task
  unfolding require_task
  guards-found task e = ground arith

  -- An update keeps the store well formed and its graph without a cycle, also where it fails behind a
  -- part of its writes. The event counter has room for the events of the edges and one more.
  pub update_task-IsSteady :
      ((t : Task)
        → get_task id s ≡ some t
        → s.next_event_id + edit_events t u.add_deps + 1 < u64_mod)
      → IsSteady (update_task id actor u now s).0
  unfolding update_task
  update_task-IsSteady room = elim (Result-cases (update_guards id actor s)) [
    | inr (e, g) ↦ rw (g, update_task) v
    | inl (task, g) ↦
        let n = s.next_event_id + edit_events task u.add_deps in
        let fits = room task (guards-found task g) in
        let start = edit_edges-IsMidway task (omega arith) in
        rw (g, update_task)
          (and_then-IsSteady n (edit_edges id task actor u now s) _ start λ s1 m1.
            and_then-IsSteady n (edit_title id u.title s1) _
              (edit_title-IsMidway n id s1 m1 u.title)
              λ s2 m2.
                and_then-IsSteady n (edit_priority id u.priority s2) _
                  (edit_priority-IsMidway n id s2 m2 u.priority)
                  λ s3 m3.
                    let s4 = (edit_capabilities id u.set_capabilities u.capabilities s3).0 in
                    let m4 =
                      edit_capabilities-IsMidway n id s3 m3 u.set_capabilities u.capabilities in
                    and_then-IsSteady {B = ℕ} n (edit_extra id task u.extra s4) _
                      (edit_extra-IsMidway n id s4 m4 task u.extra)
                      λ s5 m5. update-noted n now task.id actor (changes_metadata u) s5 fits m5)
  ]
