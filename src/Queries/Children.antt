-- ===== src/Queries/Children.antt =====
-- internal/cli/cmd_lineage.go: the tasks below a parent, as `lineageDescendants` collects them.
use terminal_todo.Base.{
  if◌then◌else◌, ◌++◌, ◌||◌, ◌+◌, ◌≤◌, Bool-cases, inl, inr, length, subst, tally, Eq-nat, ℕ, ◌≡◌,
  ◌∙◌, Bool, true, false, List, [], ◌∷◌, some, arith, nat_eq, nat_eq_iff, bytes_eq, bytes_eq_iff,
  has, select, All, All-mono,
}
use terminal_todo.Base.Dict.{keys, Dict, KeysUnique, lookup, values, lookup-keys}
use terminal_todo.Store.{Task}
use terminal_todo.Dag.Search.Relation.{free}
use terminal_todo.Store.Invariant.{AllEntries}
use terminal_todo.Lifecycle.Decompose.{local_uri}
use terminal_todo.Lifecycle.Prune.{insert_task, sort_tasks, ids_of}
use terminal_todo.Queries.Lineage.{children_of}

-- The task `k` names the task `parent` as what it was decomposed from.
abbrev pub IsChild : Dict ℕ Task → ℕ → ℕ → Type 0
IsChild m parent k = (t : Task) × (lookup k m ≡ some t) × (t.lineage ≡ local_uri parent)

module _ {ℓ} (P : Task → Type ℓ) where
  All-insert_task : (t : Task) (ts : List Task) → P t → All P ts → All P (insert_task t ts)
  unfolding insert_task
  All-insert_task t [] h hs = (h, tt)
  All-insert_task t (u ∷ us) h hs = ground (arith, All-insert_task t us h hs.1)

  All-sort_tasks : (ts : List Task) → All P ts → All P (sort_tasks ts)
  unfolding sort_tasks
  All-sort_tasks [] h = tt
  All-sort_tasks (t ∷ ts) h = All-insert_task t (sort_tasks ts) h.0 (All-sort_tasks ts h.1)

has-insert_task :
    (k : ℕ) (t : Task) (ts : List Task)
    → has k (ids_of (insert_task t ts)) ≡ has k (t.id ∷ ids_of ts)
unfolding insert_task has
has-insert_task k t [] = ground arith
has-insert_task k t (u ∷ us) = ground (arith, has-insert_task k t us)

has-sort_tasks : (k : ℕ) (ts : List Task) → has k (ids_of (sort_tasks ts)) ≡ has k (ids_of ts)
unfolding sort_tasks has
has-sort_tasks k [] = ground arith
has-sort_tasks k (t ∷ ts) = ground (arith, has-insert_task k t (sort_tasks ts), has-sort_tasks k ts)

All-select {ℓ} :
    (P : Task → Type ℓ) (p : Task → Bool) (ts : List Task)
    → All P ts
    → All (λ t. P t × (p t ≡ true)) (select p ts)
All-select P p [] h = tt
All-select P p (t ∷ ts) h = ground (arith, All-select P p ts h.1)

-- Every entry of the map is found under its ID.
values-found :
    (n : ℕ) (m : Dict ℕ Task)
    → AllEntries n m
    → KeysUnique m
    → All (λ t. lookup t.id m ≡ some t) (values m)
unfolding values lookup
values-found n [] a u = tt
values-found n ((k, t) ∷ m) a u = (
  ground (arith, a.0.keyed),
  All-mono _ _ (values m)
      (λ x e.
        let there = lookup-keys x.id m {v = x} e in
        let other : nat_eq k x.id ≡ false = ground (arith, nat_eq_iff k x.id, u.0) in ground arith)
      (values-found n m a.1 u.1),
)

has-select-values :
    (n k : ℕ) (t : Task) (p : Task → Bool) (m : Dict ℕ Task)
    → AllEntries n m
    → lookup k m ≡ some t
    → p t ≡ true
    → has k (ids_of (select p (values m))) ≡ true
unfolding values lookup has
has-select-values n k t p [] a e h = absurd (cc)
has-select-values n k t p ((j, u) ∷ m) a e h =
    ground (arith, a.0.keyed, has-select-values n k t p m a.1)

module _ (n : ℕ) (m : Dict ℕ Task) (a : AllEntries n m) where
  pub children_of-IsChild :
      (parent : ℕ)
      → KeysUnique m
      → All (λ t. (lookup t.id m ≡ some t) × IsChild m parent t.id) (children_of (values m) parent)
  unfolding children_of
  children_of-IsChild parent u = All-sort_tasks _ _ (
      All-mono _ _ _ (λ t h. (h.0, (t, h.0, (bytes_eq_iff t.lineage (local_uri parent)).0 h.1)))
        (All-select _ (λ t. bytes_eq t.lineage (local_uri parent)) (values m)
          (values-found n m a u)))

  pub IsChild-has :
      (parent k : ℕ) → IsChild m parent k → has k (ids_of (children_of (values m) parent)) ≡ true
  unfolding children_of
  IsChild-has parent k (t, e, q) =
      has-sort_tasks k (select (λ t. bytes_eq t.lineage (local_uri parent)) (values m))
      ∙ has-select-values n k t (λ t. bytes_eq t.lineage (local_uri parent)) m a e
          ((bytes_eq_iff t.lineage (local_uri parent)).1 q)

pub ids-snoc :
    (k : ℕ) (t : Task) (ts : List Task)
    → has k (ids_of (ts ++ t ∷ [])) ≡ (has k (ids_of ts) || nat_eq t.id k)
unfolding has
ids-snoc k t [] = ground arith
ids-snoc k t (x ∷ ts) = ground (arith, ids-snoc k t ts)

pub tally-snoc :
    (k : ℕ) (t : Task) (ts : List Task)
    → tally (nat_eq k) (ids_of (ts ++ t ∷ []))
      ≡ tally (nat_eq k) (ids_of ts) + (if nat_eq k t.id then 1 else 0)
tally-snoc k t [] = ground arith
tally-snoc k t (x ∷ ts) = ground (arith, tally-snoc k t ts)

pub tally_absent : (k : ℕ) (ks : List ℕ) → has k ks ≡ false → tally (nat_eq k) ks ≡ 0
unfolding has
tally_absent k [] h = ground arith
tally_absent k (x ∷ ks) h = ground (arith, tally_absent k ks)

pub has-ids :
    (ts : List Task) (v : List ℕ) (j : ℕ)
    → All (λ t. has t.id v ≡ true) ts
    → has j (ids_of ts) ≡ true
    → has j v ≡ true
unfolding has
has-ids [] v j h e = absurd (cc)
has-ids (t ∷ ts) v j h e = elim (Bool-cases (nat_eq t.id j)) [
  | inl q ↦ subst (λ y. has y v ≡ true) ((nat_eq_iff t.id j).0 q) h.0
  | inr q ↦ has-ids ts v j h.1 (ground arith)
]

pub free-length : (d : Dict ℕ Task) (v : List ℕ) → free (keys d) v ≤ length d
unfolding keys
free-length [] v = omega arith
free-length ((k, t) ∷ d) v = ground (arith, free-length d v)
