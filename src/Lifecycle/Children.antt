-- ===== src/Lifecycle/Children.antt =====
-- internal/cli/coordination_ops.go: `decomposeTask` on well-formed stores, and cycles of the graph.
use terminal_todo.Base.{
  Eq-nat, Eq-bytes, ℕ, ◌+◌, ◌<◌, ◌≡◌, refl, sym, ap, ◌∙◌, true, false, ◌&&◌, ◌||◌, List, [], ◌∷◌,
  arith, Bytes, nat_eq, inl, inr, ◌⊎◌, any, subst, length,
}
use terminal_todo.Base.Decimal.{u64_mod}
use terminal_todo.Base.Dict.{insert, values}
use terminal_todo.Store.{Task, TaskStore}
use terminal_todo.Store.Ops.{next_u64, add_event, add_task, fresh_task}
use terminal_todo.Store.Invariant.{
  IsWellFormed, add_task-IsWellFormed, write-IsWellFormed, add_event-IsWellFormed,
}
use terminal_todo.Dag.Search.Relation.{Edge, IsAcyclic, IsAcyclic-mono}
use terminal_todo.Dag.Build.{
  add_depends, detect_cycle, detect_cycle-Decides, refers_to, depends_on, has-add_depends,
  has-build_from_tasks,
}
use terminal_todo.Errors.{Error, ok, err, Result-cases}
use terminal_todo.Lifecycle.Leases.{write}
use terminal_todo.Lifecycle.Decompose.{
  finds_cycle, DecomposeSubtask, reserve, projected_deps, canonical_set, decompose_guards,
  set_child, append_depend, add_child, add_children, reset_parent, decompose_task, local_uri,
}
use terminal_todo.Lifecycle.Invariant.{no_owner}
use terminal_todo.Lifecycle.Acyclic.{
  graph, no_cycle, depends_on-modify, depends_on-insert, any-append, depends_on-append,
}

module _ (now parent : ℕ) where
  -- The store with the child, before the parent refers to it.
  abbrev with_child : DecomposeSubtask → TaskStore → TaskStore
  with_child sub s =
      write s.next_id (set_child sub.capabilities parent) (add_task now sub.title [] s)

  with_child-IsWellFormed :
      (sub : DecomposeSubtask) (s : TaskStore)
      → s.next_id + 1 < u64_mod
      → IsWellFormed s
      → IsWellFormed (with_child sub s)
  with_child-IsWellFormed sub s room v =
      write-IsWellFormed s.next_id (set_child sub.capabilities parent) (add_task now sub.title [] s)
        (λ t e h. (refl, h)) (add_task-IsWellFormed now sub.title [] s room v)

  add_child-IsWellFormed :
      (sub : DecomposeSubtask) (s : TaskStore)
      → s.next_id + 1 < u64_mod
      → IsWellFormed s
      → IsWellFormed (add_child now parent sub s)
  unfolding add_child
  add_child-IsWellFormed sub s room v =
      write-IsWellFormed parent (append_depend s.next_id) (with_child sub s) (λ t e h. (refl, h))
        (with_child-IsWellFormed sub s room v)

  add_child-counters :
      (sub : DecomposeSubtask) (s : TaskStore)
      → ((add_child now parent sub s).next_id ≡ next_u64 s.next_id)
        × ((add_child now parent sub s).next_event_id ≡ s.next_event_id)
  unfolding add_child
  add_child-counters sub s = (refl, refl)

  add_child-edges :
      (sub : DecomposeSubtask) (s : TaskStore) (u v : ℕ)
      → s.next_id + 1 < u64_mod
      → IsWellFormed s
      → depends_on (values (add_child now parent sub s).tasks) u v ≡ true
      → (depends_on (values s.tasks) u v || (nat_eq parent v && refers_to u (local_uri s.next_id)))
        ≡ true
  unfolding add_child add_task
  add_child-edges sub s u v room w h =
      let child = fresh_task s.next_id sub.title [] now in
      let before = with_child-IsWellFormed sub s room w in
      let appended =
        depends_on-append _ parent s.next_id (with_child sub s).tasks u v before.entries h in
      let same =
        depends_on-modify s.next_id (set_child sub.capabilities parent)
          (insert s.next_id child s.tasks) u v (λ t. (refl, refl)) in
      ground (arith, depends_on-insert s.next_id child s.tasks u v refl)

  add_children-IsWellFormed :
      (subs : List DecomposeSubtask) (s : TaskStore)
      → s.next_id + length subs < u64_mod
      → IsWellFormed s
      → IsWellFormed (add_children now parent subs s).0
  unfolding add_children
  add_children-IsWellFormed [] s room w = w
  add_children-IsWellFormed (sub ∷ subs) s room w =
      add_children-IsWellFormed subs (add_child now parent sub s)
        (omega (arith, (add_child-counters sub s).0)) (add_child-IsWellFormed sub s (omega arith) w)

  add_children-next_event_id :
      (subs : List DecomposeSubtask) (s : TaskStore)
      → (add_children now parent subs s).0.next_event_id ≡ s.next_event_id
  unfolding add_children
  add_children-next_event_id [] s = refl
  add_children-next_event_id (sub ∷ subs) s =
      add_children-next_event_id subs (add_child now parent sub s) ∙ (add_child-counters sub s).1

  add_children-edges :
      (subs : List DecomposeSubtask) (s : TaskStore) (u v : ℕ)
      → s.next_id + length subs < u64_mod
      → IsWellFormed s
      → depends_on (values (add_children now parent subs s).0.tasks) u v ≡ true
      → (depends_on (values s.tasks) u v
          || (nat_eq parent v && any (refers_to u) (reserve s.next_id subs)))
        ≡ true
  unfolding add_children reserve
  add_children-edges [] s u v room w h = ground arith
  add_children-edges (sub ∷ subs) s u v room w h =
      let s' = add_child now parent sub s in
      let rest =
        add_children-edges subs s' u v (omega (arith, (add_child-counters sub s).0))
          (add_child-IsWellFormed sub s (omega arith) w) h in
      let rest' =
        subst
          (λ n.
            (depends_on (values s'.tasks) u v
              || (nat_eq parent v && any (refers_to u) (reserve n subs)))
            ≡ true)
          (add_child-counters sub s).0 rest in
      ground (arith, add_child-edges sub s u v (omega arith) w)

decompose-checked :
    (parent : ℕ) (actor : Bytes) (subs : List DecomposeSubtask) (s : TaskStore) (t : Task)
    → decompose_guards parent actor subs s ≡ ok t
    → finds_cycle (detect_cycle (graph s) (projected_deps t s.next_id subs) parent) ≡ false
unfolding decompose_guards
decompose-checked parent actor subs s t h = ground arith

-- The graph that the guards search has each edge of the store that the operation makes.
decompose-edges :
    (parent : ℕ) (actor : Bytes) (subs : List DecomposeSubtask) (now : ℕ) (s : TaskStore) (t : Task)
    → s.next_id + length subs < u64_mod
    → IsWellFormed s
    → decompose_guards parent actor subs s ≡ ok t
    → (u v : ℕ) → Edge (graph (decompose_task parent actor subs now s).0) u v
    → Edge (add_depends parent (projected_deps t s.next_id subs) (graph s)) u v
unfolding decompose_task add_event
decompose-edges parent actor subs now s t room w g u v h =
    let s' = (add_children now parent subs s).0 in
    let made : depends_on (values (write parent reset_parent s').tasks) u v ≡ true =
      sym (has-build_from_tasks u v (write parent reset_parent s').tasks)
      ∙ (rw (g, decompose_task) at h) in
    ground (
      arith,
      depends_on-modify parent reset_parent s'.tasks u v (λ x. (refl, refl)),
      add_children-edges now parent subs s u v room w,
      has-add_depends parent u v (projected_deps t s.next_id subs) (graph s),
      has-build_from_tasks u v s.tasks,
      any-append u (canonical_set t.depends) (reserve s.next_id subs),
    )

decompose-IsWellFormed :
    (parent : ℕ) (actor : Bytes) (subs : List DecomposeSubtask) (now : ℕ) (s : TaskStore) (t : Task)
    → s.next_id + length subs < u64_mod
    → s.next_event_id + 1 < u64_mod
    → IsWellFormed s
    → decompose_guards parent actor subs s ≡ ok t
    → IsWellFormed (decompose_task parent actor subs now s).0
unfolding decompose_task
decompose-IsWellFormed parent actor subs now s t room event_room w g =
    let s' = (add_children now parent subs s).0 in
    let children = add_children-IsWellFormed now parent subs s room w in
    rw (g, decompose_task)
      (add_event-IsWellFormed now _ parent actor _ (write parent reset_parent s')
        (omega (arith, add_children-next_event_id now parent subs s))
        (write-IsWellFormed parent reset_parent s' (λ x e h. (refl, λ q. no_owner 0)) children))

decompose-rejected :
    (parent : ℕ) (actor : Bytes) (subs : List DecomposeSubtask) (now : ℕ) (s : TaskStore)
    (e : Error)
    → decompose_guards parent actor subs s ≡ err e
    → decompose_task parent actor subs now s ≡ (s, err e)
unfolding decompose_task
decompose-rejected parent actor subs now s e g = rw (g, decompose_task)

-- A decomposition that succeeds leaves the graph without a cycle and the store well formed; one that
-- fails leaves the store as it was. The ID counters have room for the children and the event.
pub decompose_task-IsAcyclic :
    (parent : ℕ) (actor : Bytes) (subs : List DecomposeSubtask) (now : ℕ) (s : TaskStore)
    → s.next_id + length subs < u64_mod
    → s.next_event_id + 1 < u64_mod
    → IsWellFormed s
    → let (s', r) = decompose_task parent actor subs now s in
      ((e : Error) × (r ≡ err e) × (s' ≡ s)) ⊎ (IsAcyclic (graph s') × IsWellFormed s')
decompose_task-IsAcyclic parent actor subs now s room event_room w =
    elim (Result-cases (decompose_guards parent actor subs s)) [
      | inr (e, g) ↦ inl (
        e,
        ap (λ o. o.1) (decompose-rejected parent actor subs now s e g),
        ap (λ o. o.0) (decompose-rejected parent actor subs now s e g),
      )
      | inl (t, g) ↦ inr (
        IsAcyclic-mono (decompose-edges parent actor subs now s t room w g) (
            no_cycle _ _ (detect_cycle-Decides (graph s) _ parent)
              (decompose-checked parent actor subs s t g)),
        decompose-IsWellFormed parent actor subs now s t room event_room w g,
      )
    ]
