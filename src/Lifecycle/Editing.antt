-- ===== src/Lifecycle/Editing.antt =====
-- internal/cli/coordination_ops.go: the events and the graph of `applyDependencyEdits`.
use terminal_todo.Base.{
  Eq-nat, Eq-bytes, ℕ, ◌+◌, ◌*◌, ◌≤◌, ◌<◌, refl, inl, inr, List, [], ◌∷◌, arith, Bytes, length, has,
  Bool-cases, if◌then◌else◌,
}
use terminal_todo.Base.Text.{codes}
use terminal_todo.Base.Decimal.{u64_mod}
use terminal_todo.Base.Dict.{Dict}
use terminal_todo.Store.{Task, TaskStore, EventType, dependency_added}
use terminal_todo.Store.Ops.{add_event}
use terminal_todo.Store.Invariant.{IsWellFormed, write-IsWellFormed, add_event-IsWellFormed}
use terminal_todo.Dag.Search.Relation.{IsAcyclic}
use terminal_todo.Errors.{Result-cases}
use terminal_todo.Lifecycle.Decompose.{canonical_set}
use terminal_todo.Lifecycle.Update.{edge_events, set_depends, edited_deps, apply_dependency_edits}
use terminal_todo.Lifecycle.Acyclic.{graph, apply_dependency_edits-IsAcyclic}
use terminal_todo.Lifecycle.Lengths.{length-canonical_set, length-edited_deps}

-- A well-formed store without a cycle, whose event counter has not passed `n`.
pub record IsMidway (n : ℕ) (s : TaskStore) : Type 0 where
  pub well_formed : IsWellFormed s
  pub counted : s.next_event_id ≤ n
  pub acyclic : IsAcyclic (graph s)

-- A well-formed store and the bound of its event counter.
record Grows (n : ℕ) (s : TaskStore) : Type 0 where
  well_formed : IsWellFormed s
  counted : s.next_event_id ≤ n

add_event-Grows :
    (n now : ℕ) (type : EventType) (id : ℕ) (actor : Bytes) (details : Dict Bytes Bytes)
    (s : TaskStore)
    → n + 1 < u64_mod
    → Grows n s
    → Grows (n + 1) (add_event now type id actor details s)
unfolding add_event
add_event-Grows n now type id actor details s room g = record {
  well_formed =
      add_event-IsWellFormed now type id actor details s (omega (arith, g.counted)) g.well_formed;
  counted = omega (arith, g.counted);
}

edge_events-Grows :
    (n now : ℕ) (type : EventType) (id : ℕ) (actor : Bytes) (deps others : List Bytes)
    (s : TaskStore)
    → n + length deps < u64_mod
    → Grows n s
    → Grows (n + length deps) (edge_events now type id actor deps others s)
unfolding edge_events
edge_events-Grows n now type id actor [] others s room g = record {
  well_formed = g.well_formed;
  counted = omega (arith, g.counted);
}
edge_events-Grows n now type id actor (dep ∷ deps) others s room g =
    let s' =
      if has dep others then s else add_event now type id actor ((codes "dep", dep) ∷ []) s in
    let one : Grows (n + 1) s' = elim (Bool-cases (has dep others)) [
      | inl e ↦ rw e (record { well_formed = g.well_formed; counted = omega (arith, g.counted) })
      | inr e ↦ rw e (add_event-Grows n now type id actor _ s (omega arith) g)
    ] in
    let rest = edge_events-Grows (n + 1) now type id actor deps others s' (omega arith) one in
    record { well_formed = rest.well_formed; counted = omega (arith, rest.counted) }

-- How many events an edit can make: one for each reference of the task, and one for each that it is
-- to have.
abbrev pub edit_events : Task → List Bytes → ℕ
edit_events task add = 2 * length task.depends + length add

module _ (id : ℕ) (task : Task) (actor : Bytes) (add remove_list : List Bytes) (now : ℕ)
    (s : TaskStore) (room : s.next_event_id + edit_events task add < u64_mod) (v : IsWellFormed s)
    (acyclic : IsAcyclic (graph s)) where
  apply_dependency_edits-Grows :
      Grows
        (s.next_event_id + edit_events task add)
        (apply_dependency_edits id task actor add remove_list now s).0
  unfolding apply_dependency_edits
  apply_dependency_edits-Grows = elim (Result-cases (edited_deps id task add remove_list s)) [
    | inr (e, g) ↦
        rw (g, apply_dependency_edits) (record { well_formed = v; counted = omega arith })
    | inl (deps, g) ↦
        let few = length-edited_deps id task add remove_list s deps g in
        let old = canonical_set task.depends in
        let few_old = length-canonical_set task.depends in
        let here : Grows s.next_event_id s = record { well_formed = v; counted = omega arith } in
        let added : Grows (s.next_event_id + length deps)
            (edge_events now dependency_added task.id actor deps old s) =
          edge_events-Grows s.next_event_id now _ task.id actor deps old s (omega (arith, few))
            here in
        let both =
          edge_events-Grows (s.next_event_id + length deps) now _ task.id actor old deps _
            (omega (arith, few, few_old)) added in
        rw (g, apply_dependency_edits)
          (record {
            well_formed =
                write-IsWellFormed id (set_depends deps) _ (λ t e h. (refl, h)) both.well_formed;
            counted = omega (arith, both.counted, few, few_old);
          })
  ]

  pub apply_dependency_edits-IsMidway :
      IsMidway
        (s.next_event_id + edit_events task add)
        (apply_dependency_edits id task actor add remove_list now s).0
  apply_dependency_edits-IsMidway =
      let g = apply_dependency_edits-Grows in
      record {
        well_formed = g.well_formed;
        counted = g.counted;
        acyclic = elim (apply_dependency_edits-IsAcyclic id task actor add remove_list now s) [
          | inl (e, failed, same) ↦ rw same acyclic
          | inr (done, fine) ↦ fine
        ];
      }
