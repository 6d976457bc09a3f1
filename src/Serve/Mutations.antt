-- ===== src/Serve/Mutations.antt =====
-- internal/cli/serve.go: the mutation of each request keeps the store well formed and its graph
-- without a cycle.
use terminal_todo.Base.{
  Eq-nat, ℕ, ◌+◌, ◌≤◌, ◌<◌, ◌≡◌, inl, inr, List, [], ◌∷◌, arith, Bytes, length,
}
use terminal_todo.Base.Decimal.{u64_mod}
use terminal_todo.Store.{TaskStore}
use terminal_todo.Store.Ops.{add_event}
use terminal_todo.Dag.Ready.{Resolver}
use terminal_todo.Errors.{Error, Result, ok, err, Result-cases}
use terminal_todo.Lifecycle.Leases.{Outcome, complete_guards, complete_task}
use terminal_todo.Lifecycle.Create.{NewTask, create_task}
use terminal_todo.Lifecycle.Creation.{create_task-Creates}
use terminal_todo.Lifecycle.Update.{TaskUpdate, update_task}
use terminal_todo.Lifecycle.Updating.{update_task-IsSteady}
use terminal_todo.Lifecycle.Decompose.{DecomposeSubtask, decompose_task}
use terminal_todo.Lifecycle.Children.{decompose_task-IsAcyclic}
use terminal_todo.Lifecycle.Pruned.{prune_completed_tasks-IsSteady}
use terminal_todo.Lifecycle.Invariant.{Call, complete, perform, perform-IsWellFormed}
use terminal_todo.Lifecycle.Edges.{
  IsSteady, FewerEdges, perform-FewerEdges, FewerEdges-IsAcyclic, FewerEdges-same,
}
use terminal_todo.Allocation.Acquire.{AcquireRequest, acquire_from_store}
use terminal_todo.Allocation.Steady.{acquire_from_store-IsSteady}
use terminal_todo.Compaction.{CompactOptions}
use terminal_todo.Compaction.Kept.{compact_task_store-Compacts}
use terminal_todo.Serve.{Host}
use terminal_todo.Serve.Params.{
  DoneParams, AddParams, UpdateParams, AcquireParams, DecomposeParams, PruneParams, CompactParams,
}
use terminal_todo.Serve.Handlers.{Request}
use terminal_todo.Serve.Done.{next_round, complete_all}
use terminal_todo.Serve.Editing.{prune_mutation, compact_mutation}
use terminal_todo.Serve.Server.{
  moves, todo_done, todo_add, todo_update, todo_acquire, todo_decompose, todo_prune, todo_compact,
}
use terminal_todo.Serve.Effect.{Keeps}

perform-IsSteady :
    (r : Resolver) (now : ℕ) (c : Call) (s : TaskStore)
    → s.next_event_id + 2 < u64_mod
    → IsSteady s
    → IsSteady (perform r now c s).0
perform-IsSteady r now c s room v = record {
  well_formed = perform-IsWellFormed r now c s room v.well_formed;
  acyclic = FewerEdges-IsAcyclic (perform-FewerEdges r now c s) v.acyclic;
}

pub perform-Keeps :
    (q : Request) (r : Resolver) (now : ℕ) (c : Call) → Keeps (moves q) (perform r now c)
perform-Keeps q r now c s room v = perform-IsSteady r now c s (omega (arith, room.events)) v

complete_task-IsSteady :
    (id : ℕ) (actor : Bytes) (r : Resolver) (now : ℕ) (s : TaskStore)
    → s.next_event_id + 2 < u64_mod
    → IsSteady s
    → IsSteady (complete_task id actor r now s).0
complete_task-IsSteady id actor r now s room v =
    unfold perform in perform-IsSteady r now (complete id actor) s room v

complete_task-next_event_id :
    (id : ℕ) (actor : Bytes) (r : Resolver) (now : ℕ) (s : TaskStore)
    → s.next_event_id + 1 < u64_mod
    → (complete_task id actor r now s).0.next_event_id ≤ s.next_event_id + 1
unfolding complete_task add_event
complete_task-next_event_id id actor r now s room =
    elim (Result-cases (complete_guards id actor r s)) [
      | inr (e, g) ↦ rw (g, complete_task) (omega arith)
      | inl (t, g) ↦ rw (g, complete_task) (omega arith)
    ]

next_round-IsSteady :
    (o : Outcome) (rest : TaskStore → TaskStore × Result (Unit {0}))
    → IsSteady o.0
    → IsSteady (rest o.0).0
    → IsSteady (next_round o rest).0
next_round-IsSteady (s, err e) rest v w = v
next_round-IsSteady (s, ok i) rest v w = w

complete_all-IsSteady :
    (ids : List ℕ) (actor : Bytes) (r : Resolver) (now : ℕ) (s : TaskStore)
    → s.next_event_id + length ids + 2 < u64_mod
    → IsSteady s
    → IsSteady (complete_all ids actor r now s).0
unfolding complete_all
complete_all-IsSteady [] actor r now s room v = v
complete_all-IsSteady (id ∷ ids) actor r now s room v =
    let o = complete_task id actor r now s in
    let first = complete_task-IsSteady id actor r now s (omega arith) v in
    let few = complete_task-next_event_id id actor r now s (omega arith) in
    next_round-IsSteady o (complete_all ids actor r now) first
      (complete_all-IsSteady ids actor r now o.0 (omega (arith, few)) first)

-- The distinct IDs are no more than the given ones.
pub complete_all-Keeps :
    (p : DoneParams) (ids : List ℕ) (r : Resolver) (now : ℕ)
    → length ids ≤ length p.ids
    → Keeps (todo_done p) (complete_all ids p.actor r now)
complete_all-Keeps p ids r now few s room v =
    complete_all-IsSteady ids p.actor r now s (omega (arith, room.events)) v

pub create_task-Keeps :
    (p : AddParams) (on_cycle : Error) (task : NewTask) (now : ℕ)
    → Keeps (todo_add p) (create_task on_cycle task now)
create_task-Keeps p on_cycle task now s room v =
    elim (create_task-Creates on_cycle task now s room.ids (omega (arith, room.events))
      v.well_formed) [
        | inl (e, failed) ↦ rw failed v
        | inr made ↦ record { well_formed = made.well_formed; acyclic = made.acyclic }
      ]

pub update_task-Keeps :
    (p : UpdateParams) (u : TaskUpdate) (now : ℕ)
    → u.add_deps ≡ p.add_deps
    → Keeps (todo_update p) (update_task p.id p.actor u now)
update_task-Keeps p u now same s room v =
    update_task-IsSteady p.id p.actor u now s v
      λ t found. let events = rw found at (room.events) in rw same (omega (arith, events))

pub acquire_from_store-Keeps :
    (p : AcquireParams) (r : AcquireRequest) (resolver : Resolver) (now : ℕ)
    → Keeps (todo_acquire p) (acquire_from_store r resolver now)
acquire_from_store-Keeps p r resolver now s room v =
    acquire_from_store-IsSteady r now s (omega (arith, room.events)) v resolver

pub decompose_task-Keeps :
    (p : DecomposeParams) (subtasks : List DecomposeSubtask) (now : ℕ)
    → length subtasks ≡ length p.subtasks
    → Keeps (todo_decompose p) (decompose_task p.id p.actor subtasks now)
decompose_task-Keeps p subtasks now same s room v =
    elim (decompose_task-IsAcyclic p.id p.actor subtasks now s (omega (arith, room.ids))
      (omega (arith, room.events)) v.well_formed) [
        | inl (e, failed, stays) ↦ rw stays v
        | inr (acyclic, well_formed) ↦ record { well_formed = well_formed; acyclic = acyclic }
      ]

pub prune_mutation-Keeps : (p : PruneParams) (h : Host) → Keeps (todo_prune p) (prune_mutation h)
prune_mutation-Keeps p h s room v = prune_completed_tasks-IsSteady h.now s v

pub compact_mutation-Keeps :
    (p : CompactParams) (h : Host) (o : CompactOptions)
    → Keeps (todo_compact p) (compact_mutation h o)
compact_mutation-Keeps p h o s room v =
    let (c, preview) = compact_task_store-Compacts o h.now s v.well_formed in
    let fewer : FewerEdges s (compact_mutation h o s).0 = FewerEdges-same c.same_tasks in
    record { well_formed = c.well_formed; acyclic = FewerEdges-IsAcyclic fewer v.acyclic }
