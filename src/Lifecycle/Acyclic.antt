-- ===== src/Lifecycle/Acyclic.antt =====
-- internal/cli/coordination_ops.go: `applyDependencyEdits` and cycles of the graph.
use terminal_todo.Base.{
  Eq-nat, Eq-bytes, ℕ, ◌≡◌, refl, ◌∙◌, true, false, ◌&&◌, ◌||◌, List, [], ◌∷◌, ◌++◌, arith, Bytes,
  nat_eq, nat_eq_iff, if◌then◌else◌, inl, inr, ◌⊎◌, any, has,
}
use terminal_todo.Base.Text.{codes}
use terminal_todo.Base.Dict.{Dict, modify, insert, values}
use terminal_todo.Store.{Task, TaskStore, EventType}
use terminal_todo.Store.Ops.{add_event}
use terminal_todo.Store.Invariant.{AllEntries}
use terminal_todo.Dag.Search.{Graph, done, cycle, out_of_fuel}
use terminal_todo.Dag.Search as Search
use terminal_todo.Dag.Search.Correct.{Decides}
use terminal_todo.Dag.Search.Relation.{IsAcyclic}
use terminal_todo.Dag.Build.{
  add_depends, build_from_tasks, detect_cycle, detect_cycle-Decides, refers_to, depends_on,
}
use terminal_todo.Errors.{Error, ok, err, Result-cases}
use terminal_todo.Lifecycle.Decompose.{finds_cycle, append_depend, local_uri}
use terminal_todo.Lifecycle.Update.{set_depends, edited_deps, edge_events, apply_dependency_edits}

-- The local dependency graph of a store.
abbrev pub graph : TaskStore → Graph
graph s = build_from_tasks s.tasks

pub no_cycle :
    (adj : Graph) (o : Search.Outcome) → Decides adj o → finds_cycle o ≡ false → IsAcyclic adj
no_cycle adj (done w) d h = d
no_cycle adj (cycle p) d h = absurd (cc)
no_cycle adj out_of_fuel d h = absurd d

edited_deps-checked :
    (id : ℕ) (task : Task) (add remove_list : List Bytes) (s : TaskStore) (deps : List Bytes)
    → edited_deps id task add remove_list s ≡ ok deps
    → finds_cycle
        (detect_cycle (build_from_tasks (modify id (set_depends deps) s.tasks)) [] task.id)
      ≡ false
unfolding edited_deps
edited_deps-checked id task add remove_list s deps h = ground arith

edited_deps-IsAcyclic :
    (id : ℕ) (task : Task) (add remove_list : List Bytes) (s : TaskStore) (deps : List Bytes)
    → edited_deps id task add remove_list s ≡ ok deps
    → IsAcyclic (build_from_tasks (modify id (set_depends deps) s.tasks))
unfolding add_depends
edited_deps-IsAcyclic id task add remove_list s deps h =
    no_cycle _ _ (detect_cycle-Decides _ [] task.id)
      (edited_deps-checked id task add remove_list s deps h)

edge_events-tasks :
    (now : ℕ) (type : EventType) (id : ℕ) (actor : Bytes) (deps others : List Bytes) (s : TaskStore)
    → (edge_events now type id actor deps others s).tasks ≡ s.tasks
unfolding edge_events add_event
edge_events-tasks now type id actor [] others s = refl
edge_events-tasks now type id actor (dep ∷ deps) others s =
    let s' =
      if has dep others then s else add_event now type id actor ((codes "dep", dep) ∷ []) s in
    edge_events-tasks now type id actor deps others s' ∙ ground arith

-- An edit of the references that succeeds leaves the graph without a cycle; one that fails leaves
-- the store as it was.
pub apply_dependency_edits-IsAcyclic :
    (id : ℕ) (task : Task) (actor : Bytes) (add remove_list : List Bytes) (now : ℕ) (s : TaskStore)
    → let (s', r) = apply_dependency_edits id task actor add remove_list now s in
      ((e : Error) × (r ≡ err e) × (s' ≡ s)) ⊎ ((r ≡ ok tt) × IsAcyclic (graph s'))
unfolding apply_dependency_edits
apply_dependency_edits-IsAcyclic id task actor add remove_list now s =
    elim (Result-cases (edited_deps id task add remove_list s)) [
      | inr (e, g) ↦ rw (g, apply_dependency_edits) (inl (e, refl, refl))
      | inl (deps, g) ↦
          rw (g, apply_dependency_edits)
            (inr (
              refl,
              rw (edge_events-tasks, edge_events-tasks)
                  (edited_deps-IsAcyclic id task add remove_list s deps g),
            ))
    ]

-- Writes that leave the ID and the references alone.
pub depends_on-modify :
    (k : ℕ) (f : Task → Task) (m : Dict ℕ Task) (u v : ℕ)
    → ((t : Task) → ((f t).id ≡ t.id) × ((f t).depends ≡ t.depends))
    → depends_on (values (modify k f m)) u v ≡ depends_on (values m) u v
unfolding values modify
depends_on-modify k f [] u v h = refl
depends_on-modify k f ((j, t) ∷ m) u v h =
    ground (arith, depends_on-modify k f m u v h, (h t).0, (h t).1)

pub depends_on-insert :
    (k : ℕ) (t : Task) (m : Dict ℕ Task) (u v : ℕ)
    → t.depends ≡ []
    → depends_on (values (insert k t m)) u v ≡ true
    → depends_on (values m) u v ≡ true
unfolding values insert
depends_on-insert k t [] u v e h = ground arith
depends_on-insert k t ((j, x) ∷ m) u v e h = ground (arith, depends_on-insert k t m u v e)

pub any-append :
    (u : ℕ) (xs ys : List Bytes)
    → any (refers_to u) (xs ++ ys) ≡ (any (refers_to u) xs || any (refers_to u) ys)
any-append u [] ys = refl
any-append u (x ∷ xs) ys = ground (arith, any-append u xs ys)

-- A reference more on the task at `k` is at most an edge more.
pub depends_on-append :
    (n k child : ℕ) (m : Dict ℕ Task) (u v : ℕ)
    → AllEntries n m
    → depends_on (values (modify k (append_depend child) m)) u v ≡ true
    → (depends_on (values m) u v || (nat_eq k v && refers_to u (local_uri child))) ≡ true
unfolding values modify
depends_on-append n k child [] u v a h = ground arith
depends_on-append n k child ((j, t) ∷ m) u v a h = ground (
  arith,
  a.0.keyed,
  nat_eq_iff j k,
  any-append u t.depends (local_uri child ∷ []),
  depends_on-append n k child m u v a.1,
)
