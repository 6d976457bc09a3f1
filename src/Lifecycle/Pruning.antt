-- ===== src/Lifecycle/Pruning.antt =====
-- internal/cli/coordination_ops.go: `pruneCompletedTasks`, task by task.
use mathlib.Core.Option
use terminal_todo.Base.{
  Eq-nat, ℕ, ◌≡◌, refl, ap, ◌∙◌, false, List, [], ◌∷◌, Option, none, some, arith, Bytes, nat_eq,
  nat_eq_iff, if◌then◌else◌, Option-cases, inl, inr, has, has-cons, has-nil,
}
use terminal_todo.Base.Dict.{Dict, KeysUnique, keys, lookup, values, lookup-delete}
use terminal_todo.Store.{Task, TaskStore}
use terminal_todo.Store.Ops.{get_task, remove_task}
use terminal_todo.Store.Invariant.{AllEntries, IsWellFormed, lookup-IsEntry}
use terminal_todo.Dag.Uri.{parse_local_id, canonical_dependency}
use terminal_todo.Dag.Uri.RoundTrip.{canonical_dependency-IsCanonicalFor}
use terminal_todo.Dag.Ready.{Resolver, resolves, is_completed, uris_complete, dependencies_complete}
use terminal_todo.Lifecycle.Decompose.{canonical_or_self}
use terminal_todo.Lifecycle.Prune.{
  is_done, completed_tasks, ids_of, kept_deps, prune_task, prune_edges, remove_tasks,
  prune_completed_tasks,
}

-- The IDs that a prune removes.
abbrev pub pruned_ids : TaskStore → List ℕ
pruned_ids s = ids_of (completed_tasks (values s.tasks))

-- What is left of a task.
abbrev pub survivor : List ℕ → Option Task → Option Task
survivor ids none = none
survivor ids (some t) =
    if is_done t then none else some (record t { depends = kept_deps ids t.depends })

lookup-prune_edges :
    (ids : List ℕ) (k : ℕ) (m : Dict ℕ Task)
    → lookup k (prune_edges ids m) ≡ Option.map (prune_task ids) (lookup k m)
unfolding lookup prune_edges
lookup-prune_edges ids k [] = refl
lookup-prune_edges ids k ((j, t) ∷ m) = ground (arith, lookup-prune_edges ids k m)

lookup-remove_task :
    (now id k : ℕ) (s : TaskStore)
    → lookup k (remove_task now id s).0.tasks ≡ (if nat_eq id k then none else lookup k s.tasks)
unfolding remove_task
lookup-remove_task now id k s = ground (arith, nat_eq_iff id k, lookup-delete id k s.tasks)

lookup-remove_tasks :
    (now k : ℕ) (ids : List ℕ) (s : TaskStore)
    → lookup k (remove_tasks now ids s).tasks ≡ (if has k ids then none else lookup k s.tasks)
unfolding remove_tasks
lookup-remove_tasks now k [] s = ground (arith, has-nil k)
lookup-remove_tasks now k (id ∷ ids) s = ground (
  arith,
  lookup-remove_tasks now k ids (remove_task now id s).0,
  lookup-remove_task now id k s,
  has-cons k id ids,
)

has-completed_absent :
    (n k : ℕ) (m : Dict ℕ Task)
    → AllEntries n m
    → has k (keys m) ≡ false
    → has k (ids_of (completed_tasks (values m))) ≡ false
unfolding completed_tasks values keys
has-completed_absent n k [] a h = has-nil k
has-completed_absent n k ((j, t) ∷ m) a h = ground (
  arith,
  a.0.keyed,
  has-cons k j (keys m),
  has-cons k t.id (ids_of (completed_tasks (values m))),
  has-completed_absent n k m a.1,
)

-- Pruned are the completed tasks.
pub has-pruned_ids :
    (n k : ℕ) (m : Dict ℕ Task)
    → AllEntries n m
    → KeysUnique m
    → has k (ids_of (completed_tasks (values m))) ≡ is_completed k m
unfolding completed_tasks values lookup is_completed
has-pruned_ids n k [] a u = has-nil k
has-pruned_ids n k ((j, t) ∷ m) a u = ground (
  arith,
  a.0.keyed,
  nat_eq_iff j k,
  has-cons k t.id (ids_of (completed_tasks (values m))),
  has-pruned_ids n k m a.1 u.1,
  has-completed_absent n j m a.1 u.0,
)

status_found :
    (k : ℕ) (m : Dict ℕ Task) (t : Task) → lookup k m ≡ some t → is_completed k m ≡ is_done t
unfolding is_completed
status_found k m t e = rw (e, is_completed)

-- A prune removes exactly the completed tasks; of the others it only rewrites the references.
pub lookup-prune :
    (now k : ℕ) (s : TaskStore)
    → IsWellFormed s
    → get_task k (prune_completed_tasks now s).0 ≡ survivor (pruned_ids s) (get_task k s)
unfolding prune_completed_tasks get_task
lookup-prune now k s v =
    let ids = pruned_ids s in
    let gone = has-pruned_ids s.next_id k s.tasks v.entries v.unique in
    rw
      (
        lookup-remove_tasks now k ids (record s { tasks = prune_edges ids s.tasks }),
        lookup-prune_edges ids k s.tasks,
      )
      (elim (Option-cases (lookup k s.tasks)) [
        | inl e ↦ ground arith
        | inr (t, e) ↦
            let keyed = (lookup-IsEntry s.next_id k s.tasks t v.entries e).keyed in
            let done : has k ids ≡ is_done t = gone ∙ status_found k s.tasks t e in
            let done' : has t.id ids ≡ is_done t = ap (λ i. has i ids) keyed ∙ done in ground arith
      ])

pub canonical-parse_local_id :
    (uri : Bytes) → parse_local_id (canonical_or_self uri) ≡ parse_local_id uri
unfolding canonical_or_self
canonical-parse_local_id uri = elim (Option-cases (canonical_dependency uri)) [
  | inl e ↦ rw (e, canonical_or_self) refl
  | inr (c, e) ↦ rw (e, canonical_or_self) (canonical_dependency-IsCanonicalFor uri c e).1
]

-- A resolver that answers alike for a reference and its stored spelling.
abbrev pub Respects : Resolver → Type 0
Respects r = (uri : Bytes) → resolves r (canonical_or_self uri) ≡ resolves r uri

is_completed-prune :
    (now i : ℕ) (s : TaskStore)
    → IsWellFormed s
    → is_completed i (prune_completed_tasks now s).0.tasks ≡ false
unfolding is_completed
is_completed-prune now i s v =
    let found : lookup i (prune_completed_tasks now s).0.tasks
        ≡ survivor (pruned_ids s) (lookup i s.tasks) =
      unfold get_task in lookup-prune now i s v in
    elim (Option-cases (lookup i s.tasks)) [ inl e ↦ ground arith | inr (t, e) ↦ ground arith ]

module _ (now : ℕ) (r : Resolver) (s : TaskStore) (v : IsWellFormed s) (h : Respects r) where
  abbrev after : Dict ℕ Task
  after = (prune_completed_tasks now s).0.tasks

  uris_complete-kept :
      (uris : List Bytes)
      → uris_complete after r (kept_deps (pruned_ids s) uris) ≡ uris_complete s.tasks r uris
  unfolding uris_complete kept_deps
  uris_complete-kept [] = refl
  uris_complete-kept (uri ∷ uris) =
      let same = canonical-parse_local_id uri in
      let rest = uris_complete-kept uris in
      elim (Option-cases (parse_local_id uri)) [
        | inl e ↦ ground (arith, h uri)
        | inr (i, e) ↦ ground (
          arith,
          has-pruned_ids s.next_id i s.tasks v.entries v.unique,
          is_completed-prune now i s v,
        )
      ]

  -- A prune neither unblocks nor blocks a task that stays: its dependencies are complete afterwards
  -- just when they were before.
  pub dependencies_complete-prune :
      (t : Task)
      → dependencies_complete (record t { depends = kept_deps (pruned_ids s) t.depends }) after r
        ≡ dependencies_complete t s.tasks r
  unfolding dependencies_complete
  dependencies_complete-prune t = uris_complete-kept t.depends
