-- ===== src/Queries/Blocking.antt =====
-- internal/cli/cmd_whatif.go and dag/dag.go: which tasks the blocked map has, and list filters.
use terminal_todo.Base.{
  Eq-nat, ℕ, ◌≡◌, refl, Bool, false, not, ◌&&◌, ◌||◌, List, [], ◌∷◌, ◌++◌, Option, none, some,
  arith, Bytes, nat_eq, nat_eq_iff, any, select, has,
}
use terminal_todo.Base.Dict.{Dict, lookup, keys, values, KeysUnique, has-keys-insert}
use terminal_todo.Store.{Task, completed, status_eq, TaskStore}
use terminal_todo.Store.Invariant.{AllEntries}
use terminal_todo.Dag.Ready.{Resolver, uris_complete, unmet, put_blocked, blocked_among}
use terminal_todo.Lifecycle.Update.{is_empty}
use terminal_todo.Lifecycle.Prune.{was_released, released_among}
use terminal_todo.Queries.Simulate.{were_blocked}

-- A task that waits for something.
abbrev pub waits : Dict ℕ Task → Resolver → Task → Bool
waits m r t = not (status_eq t.status completed) && not (uris_complete m r t.depends)

abbrev held_by : Option (List Bytes) → List Bytes
held_by o = elim o [ none ↦ [] | some old ↦ old ]

has-put_blocked :
    (k id : ℕ) (uris : List Bytes) (b : Dict ℕ (List Bytes))
    → has k (keys (put_blocked id uris b))
      ≡ ((nat_eq id k && not (is_empty uris)) || has k (keys b))
has-put_blocked k id [] b = ground arith
has-put_blocked k id (u ∷ us) b =
    ground (arith, has-keys-insert k id (held_by (lookup id b) ++ u ∷ us) b)

unmet-empty :
    (m : Dict ℕ Task) (r : Resolver) (uris : List Bytes)
    → is_empty (unmet m r uris) ≡ uris_complete m r uris
unfolding unmet uris_complete
unmet-empty m r [] = refl
unmet-empty m r (u ∷ us) = ground (arith, unmet-empty m r us)

pub has-blocked_among :
    (k : ℕ) (m : Dict ℕ Task) (r : Resolver) (ts : List Task) (b : Dict ℕ (List Bytes))
    → has k (keys (blocked_among m r ts b))
      ≡ (any (λ t. nat_eq t.id k && waits m r t) ts || has k (keys b))
unfolding blocked_among
has-blocked_among k m r [] b = refl
has-blocked_among k m r (t ∷ ts) b = ground (
  arith,
  has-blocked_among k m r ts b,
  has-blocked_among k m r ts (put_blocked t.id (unmet m r t.depends) b),
  has-put_blocked k t.id (unmet m r t.depends) b,
  unmet-empty m r t.depends,
)

pub were_blocked-select :
    (b : Dict ℕ (List Bytes)) (ts : List Task)
    → were_blocked b ts ≡ select (λ t. has t.id (keys b)) ts
unfolding were_blocked
were_blocked-select b [] = refl
were_blocked-select b (t ∷ ts) = ground (arith, were_blocked-select b ts)

pub released_among-select :
    (s : TaskStore) (ids : List ℕ) (r : Resolver) (ts : List Task)
    → released_among s ids r ts ≡ select (was_released s ids r) ts
unfolding released_among
released_among-select s ids r [] = refl
released_among-select s ids r (t ∷ ts) = ground (arith, released_among-select s ids r ts)

pub select-select {ℓ} :
    {A : Type ℓ} (p q : A → Bool) (xs : List A)
    → select p (select q xs) ≡ select (λ x. q x && p x) xs
select-select p q [] = refl
select-select p q (x ∷ xs) = ground (arith, select-select p q xs)

-- One entry for each ID.
any-absent :
    (p : Task → Bool) (n id : ℕ) (m : Dict ℕ Task)
    → AllEntries n m
    → has id (keys m) ≡ false
    → any (λ u. nat_eq u.id id && p u) (values m) ≡ false
unfolding keys values has
any-absent p n id [] a h = refl
any-absent p n id ((k, t) ∷ m) a h =
    ground (arith, a.0.keyed, nat_eq_iff k id, any-absent p n id m a.1)

pub any-entry :
    (p : Task → Bool) (n id : ℕ) (m : Dict ℕ Task) (t : Task)
    → AllEntries n m
    → KeysUnique m
    → lookup id m ≡ some t
    → any (λ u. nat_eq u.id id && p u) (values m) ≡ p t
unfolding keys values lookup
any-entry p n id [] t a u e = absurd (cc)
any-entry p n id ((k, x) ∷ m) t a u e =
    ground
      (arith, a.0.keyed, nat_eq_iff k id, any-absent p n id m a.1, any-entry p n id m t a.1 u.1)
