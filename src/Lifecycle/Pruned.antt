-- ===== src/Lifecycle/Pruned.antt =====
-- internal/cli/coordination_ops.go: `pruneCompletedTasks` on well-formed stores without a cycle.
use terminal_todo.Base.{
  Eq-nat, ℕ, ◌≡◌, refl, ap, true, List, [], ◌∷◌, arith, Bytes, Option-cases, Bool-cases, inl, inr,
  any, has,
}
use terminal_todo.Base.Dict.{Dict, KeysUnique, keys, values, delete}
use terminal_todo.Store.{Task, TaskStore}
use terminal_todo.Store.Ops.{get_task, remove_task, get_all_tasks}
use terminal_todo.Store.Invariant.{IsEntry, AllEntries, remove_task-IsWellFormed}
use terminal_todo.Dag.Build.{refers_to, depends_on}
use terminal_todo.Lifecycle.Decompose.{canonical_or_self}
use terminal_todo.Lifecycle.Prune.{
  completed_tasks, ids_of, is_pruned, kept_deps, prune_task, prune_edges, remove_tasks,
  prune_completed_tasks,
}
use terminal_todo.Lifecycle.Pruning.{canonical-parse_local_id}
use terminal_todo.Lifecycle.Edges.{IsSteady, FewerEdges, FewerEdges-refl, FewerEdges-IsAcyclic}

refers_to-canonical : (u : ℕ) (dep : Bytes) → refers_to u (canonical_or_self dep) ≡ refers_to u dep
refers_to-canonical u dep = ground (arith, canonical-parse_local_id dep)

-- A reference that is kept was there, perhaps in another spelling.
any-kept_deps :
    (u : ℕ) (ids : List ℕ) (deps : List Bytes)
    → any (refers_to u) (kept_deps ids deps) ≡ true
    → any (refers_to u) deps ≡ true
unfolding kept_deps
any-kept_deps u ids [] h = h
any-kept_deps u ids (dep ∷ deps) h = elim (Bool-cases (is_pruned ids (canonical_or_self dep))) [
  | inl e ↦ ground (arith, any-kept_deps u ids deps)
  | inr e ↦ ground (arith, any-kept_deps u ids deps, refers_to-canonical u dep)
]

module _ (ids : List ℕ) where
  keys-prune_edges : (m : Dict ℕ Task) → keys (prune_edges ids m) ≡ keys m
  unfolding keys prune_edges
  keys-prune_edges [] = refl
  keys-prune_edges ((k, t) ∷ m) = ap (◌∷◌ k) (keys-prune_edges m)

  KeysUnique-prune_edges : (m : Dict ℕ Task) → KeysUnique m → KeysUnique (prune_edges ids m)
  unfolding prune_edges
  KeysUnique-prune_edges [] u = tt
  KeysUnique-prune_edges ((k, t) ∷ m) u =
      (rw (keys-prune_edges m) u.0, KeysUnique-prune_edges m u.1)

  prune_task-IsEntry : (n k : ℕ) (t : Task) → IsEntry n k t → IsEntry n k (prune_task ids t)
  prune_task-IsEntry n k t e = elim (Bool-cases (has t.id ids)) [
    | inl gone ↦ rw gone e
    | inr stays ↦ rw stays (record { keyed = e.keyed; issued = e.issued; leased = e.leased })
  ]

  AllEntries-prune_edges :
      (n : ℕ) (m : Dict ℕ Task) → AllEntries n m → AllEntries n (prune_edges ids m)
  unfolding prune_edges
  AllEntries-prune_edges n [] a = tt
  AllEntries-prune_edges n ((k, t) ∷ m) a =
      (prune_task-IsEntry n k t a.0, AllEntries-prune_edges n m a.1)

  depends_on-prune_edges :
      (m : Dict ℕ Task) (u v : ℕ)
      → depends_on (values (prune_edges ids m)) u v ≡ true
      → depends_on (values m) u v ≡ true
  unfolding values prune_edges
  depends_on-prune_edges [] u v h = h
  depends_on-prune_edges ((k, t) ∷ m) u v h =
      ground (arith, depends_on-prune_edges m u v, any-kept_deps u ids t.depends)

depends_on-delete :
    (k : ℕ) (m : Dict ℕ Task) (u v : ℕ)
    → depends_on (values (delete k m)) u v ≡ true
    → depends_on (values m) u v ≡ true
unfolding values delete
depends_on-delete k [] u v h = h
depends_on-delete k ((j, t) ∷ m) u v h = ground (arith, depends_on-delete k m u v)

remove_task-FewerEdges : (now id : ℕ) (s : TaskStore) → FewerEdges s (remove_task now id s).0
unfolding remove_task
remove_task-FewerEdges now id s = elim (Option-cases (get_task id s)) [
  | inl e ↦ rw (e, remove_task) (FewerEdges-refl s)
  | inr (t, e) ↦ rw (e, remove_task) (record { fewer = depends_on-delete id s.tasks })
]

remove_tasks-IsSteady :
    (now : ℕ) (ids : List ℕ) (s : TaskStore) → IsSteady s → IsSteady (remove_tasks now ids s)
unfolding remove_tasks
remove_tasks-IsSteady now [] s v = v
remove_tasks-IsSteady now (id ∷ ids) s v =
    remove_tasks-IsSteady now ids (remove_task now id s).0 (record {
      well_formed = remove_task-IsWellFormed now id s v.well_formed;
      acyclic = FewerEdges-IsAcyclic (remove_task-FewerEdges now id s) v.acyclic;
    })

-- A prune keeps the store well formed and its graph without a cycle.
pub prune_completed_tasks-IsSteady :
    (now : ℕ) (s : TaskStore) → IsSteady s → IsSteady (prune_completed_tasks now s).0
unfolding prune_completed_tasks
prune_completed_tasks-IsSteady now s v =
    let ids = ids_of (completed_tasks (get_all_tasks s)) in
    let s' : TaskStore = record s { tasks = prune_edges ids s.tasks } in
    let fewer : FewerEdges s s' = record { fewer = depends_on-prune_edges ids s.tasks } in
    remove_tasks-IsSteady now ids s' (record {
      well_formed = record {
        unique = KeysUnique-prune_edges ids s.tasks v.well_formed.unique;
        entries = AllEntries-prune_edges ids s.next_id s.tasks v.well_formed.entries;
        events_rise = v.well_formed.events_rise;
      };
      acyclic = FewerEdges-IsAcyclic fewer v.acyclic;
    })
