-- ===== src/Lifecycle/Creation.antt =====
-- internal/cli/serve.go and cmd_add.go: what the creation of a task leaves.
use terminal_todo.Base.{
  Eq-nat, ℕ, ◌+◌, ◌<◌, ◌≡◌, refl, sym, ◌∙◌, true, false, ◌&&◌, ◌||◌, List, [], ◌∷◌, none, some,
  arith, Bytes, nat_eq, inl, inr, ◌⊎◌, any, All, Option-cases, if◌then◌else◌,
}
use terminal_todo.Base.Decimal.{u64_mod}
use terminal_todo.Base.Dict.{Dict, lookup, insert, values, lookup-insert, lookup-modify}
use terminal_todo.Store.{Task, pending, TaskStore}
use terminal_todo.Store.Ops.{get_task, add_event, add_task, fresh_task}
use terminal_todo.Store.Invariant.{
  IsWellFormed, add_task-IsWellFormed, write-IsWellFormed, add_event-IsWellFormed,
}
use terminal_todo.Dag.Uri.{parse_local_id, parse_task_uri}
use terminal_todo.Dag.Search.Relation.{Edge, IsAcyclic, IsAcyclic-mono}
use terminal_todo.Dag.Build.{
  add_depends, detect_cycle, detect_cycle-Decides, refers_to, depends_on, has-add_depends,
  has-build_from_tasks,
}
use terminal_todo.Errors.{Error, ok, err, Result-cases}
use terminal_todo.Lifecycle.Leases.{Outcome, write}
use terminal_todo.Lifecycle.Decompose.{finds_cycle, local_uri}
use terminal_todo.Lifecycle.Acyclic.{graph, no_cycle, depends_on-modify}
use terminal_todo.Lifecycle.Create.{
  NewTask, final_dep, final_deps, create_guards, fill_in, create_task,
}

-- A task more has at most its own edges more.
depends_on-insert_edges :
    (k : ℕ) (t : Task) (m : Dict ℕ Task) (u v : ℕ)
    → t.id ≡ k
    → depends_on (values (insert k t m)) u v ≡ true
    → (depends_on (values m) u v || (nat_eq k v && any (refers_to u) t.depends)) ≡ true
unfolding values insert
depends_on-insert_edges k t [] u v e h = ground arith
depends_on-insert_edges k t ((j, x) ∷ m) u v e h =
    ground (arith, depends_on-insert_edges k t m u v e)

module _ (on_cycle : Error) (p : NewTask) (now : ℕ) (s : TaskStore) (deps : List Bytes)
    (g : create_guards on_cycle p s ≡ ok deps) where
  create-checked : finds_cycle (detect_cycle (graph s) deps s.next_id) ≡ false
  unfolding create_guards
  create-checked = ground arith

  -- The graph that the guards search has each edge that the new task makes.
  create-edges :
      (u v : ℕ)
      → Edge (graph (create_task on_cycle p now s).0) u v
      → Edge (add_depends s.next_id deps (graph s)) u v
  unfolding create_task add_event add_task
  create-edges u v h =
      let fresh = fresh_task s.next_id p.title deps now in
      let made : depends_on (values (create_task on_cycle p now s).0.tasks) u v ≡ true =
        sym (has-build_from_tasks u v (create_task on_cycle p now s).0.tasks) ∙ h in
      let made' = rw (g, create_task) at made in
      ground (
        arith,
        depends_on-modify s.next_id (fill_in p) (insert s.next_id fresh s.tasks) u v
            (λ x. (refl, refl)),
        depends_on-insert_edges s.next_id fresh s.tasks u v refl,
        has-add_depends s.next_id u v deps (graph s),
        has-build_from_tasks u v s.tasks,
      )

  abbrev created : Task
  created = fill_in p (fresh_task s.next_id p.title deps now)

  create-IsWellFormed :
      s.next_id + 1 < u64_mod
      → s.next_event_id + 1 < u64_mod
      → IsWellFormed s
      → IsWellFormed (create_task on_cycle p now s).0
  unfolding create_task add_task
  create-IsWellFormed room event_room v =
      rw (g, create_task)
        (add_event-IsWellFormed now _ s.next_id [] _
          (write s.next_id (fill_in p) (add_task now p.title deps s)) event_room
          (write-IsWellFormed s.next_id (fill_in p) (add_task now p.title deps s)
            (λ t e h. (refl, h)) (add_task-IsWellFormed now p.title deps s room v)))

  create-lookup :
      (k : ℕ)
      → get_task k (create_task on_cycle p now s).0
        ≡ (if nat_eq s.next_id k then some created else get_task k s)
  unfolding create_task get_task add_event add_task
  create-lookup k =
      rw (g, create_task)
        (ground (
          arith,
          lookup-modify s.next_id k (fill_in p)
              (insert s.next_id (fresh_task s.next_id p.title deps now) s.tasks),
          lookup-insert s.next_id k (fresh_task s.next_id p.title deps now) s.tasks,
        ))

-- A reference of a new task: a stored local one to a task that is there, or one to another repository.
abbrev pub IsFinal : TaskStore → Bytes → Type 0
IsFinal s dep =
    ((id : ℕ) × (t : Task) × (dep ≡ local_uri id) × (get_task id s ≡ some t))
    ⊎ ((alias : Bytes) × (id : ℕ) × (parse_local_id dep ≡ none)
        × (parse_task_uri dep ≡ some (alias, id)))

final_dep-IsFinal :
    (dep final : Bytes) (s : TaskStore) → final_dep dep s.tasks ≡ ok final → IsFinal s final
unfolding final_dep get_task
final_dep-IsFinal dep final s e = elim (Option-cases (parse_local_id dep)) [
  | inl remote ↦ elim (Option-cases (parse_task_uri dep)) [
    | inl broken ↦ absurd (cc (rw (remote, broken, final_dep) at e))
    | inr ((alias, id), named) ↦
        let same : dep ≡ final = ground arith in
        inr (alias, id, rw (← same) remote, rw (← same) named)
  ]
  | inr (id, here) ↦ elim (Option-cases (lookup id s.tasks)) [
    | inl missing ↦ absurd (ground arith)
    | inr (t, found) ↦ inl (id, t, ground arith, found)
  ]
]

final_deps-IsFinal :
    (after deps : List Bytes) (s : TaskStore)
    → final_deps after s.tasks ≡ ok deps
    → All (IsFinal s) deps
unfolding final_deps
final_deps-IsFinal [] deps s e = let same : [] ≡ deps = cc e in rw (← same) tt
final_deps-IsFinal (dep ∷ after) deps s e = elim (Result-cases (final_dep dep s.tasks)) [
  | inr (d, bad) ↦ absurd (ground arith)
  | inl (final, good) ↦ elim (Result-cases (final_deps after s.tasks)) [
    | inr (d, bad) ↦ absurd (ground arith)
    | inl (rest, fine) ↦
        let same : final ∷ rest ≡ deps = ground arith in
        rw (← same) (final_dep-IsFinal dep final s good, final_deps-IsFinal after rest s fine)
  ]
]

-- A stored reference names the task that the requested one names, or is the same remote reference.
abbrev pub Names : Bytes → Bytes → Type 0
Names dep final =
    ((id : ℕ) × (parse_local_id dep ≡ some id) × (final ≡ local_uri id))
    ⊎ ((parse_local_id dep ≡ none) × (final ≡ dep))

-- One stored reference for each requested one, in order.
abbrev pub AllNamed : List Bytes → List Bytes → Type 0
AllNamed [] [] = Unit {0}
AllNamed [] (final ∷ finals) = ⊥
AllNamed (dep ∷ deps) [] = ⊥
AllNamed (dep ∷ deps) (final ∷ finals) = Names dep final × AllNamed deps finals

final_dep-Names :
    (dep final : Bytes) (tasks : Dict ℕ Task) → final_dep dep tasks ≡ ok final → Names dep final
unfolding final_dep
final_dep-Names dep final tasks e = elim (Option-cases (parse_local_id dep)) [
  | inl remote ↦ elim (Option-cases (parse_task_uri dep)) [
    | inl broken ↦ absurd (cc (rw (remote, broken, final_dep) at e))
    | inr (named, ok_) ↦ inr (remote, ground arith)
  ]
  | inr (id, here) ↦ elim (Option-cases (lookup id tasks)) [
    | inl missing ↦ absurd (ground arith)
    | inr (t, found) ↦ inl (id, here, ground arith)
  ]
]

final_deps-AllNamed :
    (after deps : List Bytes) (tasks : Dict ℕ Task)
    → final_deps after tasks ≡ ok deps
    → AllNamed after deps
unfolding final_deps
final_deps-AllNamed [] deps tasks e = let same : [] ≡ deps = cc e in rw (← same) tt
final_deps-AllNamed (dep ∷ after) deps tasks e = elim (Result-cases (final_dep dep tasks)) [
  | inr (d, bad) ↦ absurd (ground arith)
  | inl (final, good) ↦ elim (Result-cases (final_deps after tasks)) [
    | inr (d, bad) ↦ absurd (ground arith)
    | inl (rest, fine) ↦
        let same : final ∷ rest ≡ deps = ground arith in
        rw (← same)
          (final_dep-Names dep final tasks good, final_deps-AllNamed after rest tasks fine)
  ]
]

-- The new task: as it was asked for, pending, free, and with nothing done yet.
abbrev pub requested : NewTask → ℕ → ℕ → List Bytes → Task
requested p now id deps = record {
  id = id;
  title = p.title;
  status = pending;
  depends = deps;
  created = now;
  completed_at = 0;
  capabilities = p.capabilities;
  owner = [];
  lease_expires = 0;
  priority = p.priority;
  lineage = [];
  tags = p.tags;
  retry_count = 0;
  last_error = [];
  block_reason = [];
  log = [];
  extra = [];
}

-- What a creation that succeeds leaves.
pub record Creates (p : NewTask) (now : ℕ) (s : TaskStore) (o : Outcome) : Type 0 where
  pub deps : List Bytes
  pub final : All (IsFinal s) deps
  pub named : AllNamed p.after deps
  pub answered : o.1 ≡ ok s.next_id
  pub tasks :
      (k : ℕ)
      → get_task k o.0
        ≡ (if nat_eq s.next_id k then some (requested p now s.next_id deps) else get_task k s)
  pub acyclic : IsAcyclic (graph o.0)
  pub well_formed : IsWellFormed o.0

create-guarded :
    (on_cycle : Error) (p : NewTask) (now : ℕ) (s : TaskStore) (e : Error)
    → create_guards on_cycle p s ≡ err e
    → create_task on_cycle p now s ≡ (s, err e)
unfolding create_task
create-guarded on_cycle p now s e g = rw (g, create_task) refl

create-answered :
    (on_cycle : Error) (p : NewTask) (now : ℕ) (s : TaskStore) (deps : List Bytes)
    → create_guards on_cycle p s ≡ ok deps
    → (create_task on_cycle p now s).1 ≡ ok s.next_id
unfolding create_task
create-answered on_cycle p now s deps g = rw (g, create_task) refl

create-final :
    (on_cycle : Error) (p : NewTask) (s : TaskStore) (deps : List Bytes)
    → create_guards on_cycle p s ≡ ok deps
    → final_deps p.after s.tasks ≡ ok deps
unfolding create_guards
create-final on_cycle p s deps g = ground arith

-- In a well-formed store whose counters have room, the creation of a task either fails and changes
-- nothing, or adds exactly one task, under the next ID, as it was asked for, pending and free, with
-- one reference for each that was asked for, to the same task; those to this repository name tasks
-- that are there. The store stays well formed, and its graph has no cycle.
pub create_task-Creates :
    (on_cycle : Error) (p : NewTask) (now : ℕ) (s : TaskStore)
    → s.next_id + 1 < u64_mod
    → s.next_event_id + 1 < u64_mod
    → IsWellFormed s
    → let o = create_task on_cycle p now s in ((e : Error) × (o ≡ (s, err e))) ⊎ Creates p now s o
create_task-Creates on_cycle p now s room event_room v =
    elim (Result-cases (create_guards on_cycle p s)) [
      | inr (e, g) ↦ inl (e, create-guarded on_cycle p now s e g)
      | inl (deps, g) ↦ inr (record {
        deps = deps;
        final = final_deps-IsFinal p.after deps s (create-final on_cycle p s deps g);
        named = final_deps-AllNamed p.after deps s.tasks (create-final on_cycle p s deps g);
        answered = create-answered on_cycle p now s deps g;
        tasks = create-lookup on_cycle p now s deps g;
        acyclic = IsAcyclic-mono (create-edges on_cycle p now s deps g) (
            no_cycle _ _ (detect_cycle-Decides (graph s) deps s.next_id)
              (create-checked on_cycle p now s deps g));
        well_formed = create-IsWellFormed on_cycle p now s deps g room event_room v;
      })
    ]
