-- ===== src/Allocation/Grant.antt =====
-- internal/cli/allocation.go: the task that `acquireFromStore` gives out, in the store.
use mathlib.Core.Option
use terminal_todo.Base.{
  Eq-nat, Eq-bytes, ℕ, ◌<◌, ◌≡◌, refl, sym, ap, subst, ◌∙◌, true, false, List, [], ◌∷◌, Option,
  none, some, arith, nat_eq_iff, Option-cases, Bool-cases, inl, inr, bytes_eq,
}
use terminal_todo.Base.Text.{codes}
use terminal_todo.Base.Dict.{lookup, modify, lookup-modify}
use terminal_todo.Store.{Task, TaskStore}
use terminal_todo.Store.Ops.{get_task, add_event, add_log, push_log}
use terminal_todo.Store.Invariant.{IsWellFormed, lookup-IsEntry}
use terminal_todo.Dag.Ready.{Resolver}
use terminal_todo.Errors.{ok}
use terminal_todo.Lifecycle.Leases.{lease_to, lease_end}
use terminal_todo.Lifecycle.Exclusion.{IsHeld}
use terminal_todo.Allocation.Rank.{ranked_ready_tasks}
use terminal_todo.Allocation.Diagnose.{diagnose_allocation}
use terminal_todo.Allocation.Acquire.{
  AcquireRequest, Acquired, is_at_capacity, lease_acquired, give_out, give_first,
  acquire_from_store,
}

abbrev granted : AcquireRequest → ℕ → Task → Task
granted r now t = push_log now r.actor (codes "acquired") (lease_to r.actor (lease_end now r.ttl) t)

lookup-lease_acquired :
    (r : AcquireRequest) (id now : ℕ) (s : TaskStore)
    → get_task id (lease_acquired r id now s) ≡ Option.map (granted r now) (get_task id s)
unfolding lease_acquired get_task add_event add_log
lookup-lease_acquired r id now s = elim (Option-cases (lookup id s.tasks)) [
  | inl e ↦ ground (
    arith,
    lookup-modify id id (lease_to r.actor (lease_end now r.ttl)) s.tasks,
    lookup-modify id id (push_log now r.actor (codes "acquired"))
        (modify id (lease_to r.actor (lease_end now r.ttl)) s.tasks),
    nat_eq_iff id id,
  )
  | inr (t, e) ↦ ground (
    arith,
    lookup-modify id id (lease_to r.actor (lease_end now r.ttl)) s.tasks,
    lookup-modify id id (push_log now r.actor (codes "acquired"))
        (modify id (lease_to r.actor (lease_end now r.ttl)) s.tasks),
    nat_eq_iff id id,
  )
]

module _ (r : AcquireRequest) (now later : ℕ) (s s' : TaskStore) (a : Acquired) (v : IsWellFormed s)
    (named : bytes_eq r.actor [] ≡ false) (live : later < lease_end now r.ttl) where
  give_out-given :
      (s1 : TaskStore) (o : Option Task) (x : Task)
      → o ≡ some x
      → give_out r now s1 o ≡ (s', ok a)
      → (x ≡ a.task) × (s1.tasks ≡ s'.tasks)
  give_out-given s1 none x e h = absurd (cc)
  give_out-given s1 (some t) x e h = (cc, ap (λ o. o.0.tasks) h)

  give_out-none :
      (s1 : TaskStore) (o : Option Task) → o ≡ none → give_out r now s1 o ≡ (s', ok a) → ⊥
  give_out-none s1 none e h = cc
  give_out-none s1 (some t) e h = cc

  found_again :
      (k id : ℕ) (s1 : TaskStore) (x : Task)
      → id ≡ k
      → get_task k s1 ≡ some x
      → s1.tasks ≡ s'.tasks
      → get_task id s' ≡ some x
  unfolding get_task
  found_again k id s1 x e f q = rw (e, sym q) f

  give_first-IsHeld :
      (ts : List Task) → give_first r now s ts ≡ (s', ok a) → IsHeld later a.task.id r.actor s'
  give_first-IsHeld [] h = absurd (cc)
  give_first-IsHeld (t ∷ ts) h =
      let s1 = lease_acquired r t.id now s in
      let given = lookup-lease_acquired r t.id now s in
      elim (Option-cases (get_task t.id s)) [
        | inl e ↦
            absurd
              (give_out-none s1 (get_task t.id s1) (given ∙ ap (Option.map (granted r now)) e) h)
        | inr (u, e) ↦
            let leased = given ∙ ap (Option.map (granted r now)) e in
            let (same, kept) = give_out-given s1 (get_task t.id s1) (granted r now u) leased h in
            let keyed =
              (lookup-IsEntry s.next_id t.id s.tasks u v.entries (unfold get_task in e)).keyed in
            subst (λ x. IsHeld later x.id r.actor s') same
              (record {
                task = granted r now u;
                found = found_again t.id u.id s1 (granted r now u) keyed leased kept;
                running = refl;
                owned = refl;
                named = named;
                live = live;
              })
      ]

-- A task that a request gets fresh, in a well-formed store and for a named actor, is then held by
-- the actor until the lease ends.
pub acquire-IsHeld :
    (r : AcquireRequest) (resolver : Resolver) (now later : ℕ) (s s' : TaskStore) (a : Acquired)
    → IsWellFormed s
    → bytes_eq r.actor [] ≡ false
    → later < lease_end now r.ttl
    → acquire_from_store r resolver now s ≡ (s', ok a)
    → a.replayed ≡ false
    → IsHeld later a.task.id r.actor s'
unfolding acquire_from_store
acquire-IsHeld r resolver now later s s' a v named live h fresh =
    elim (Option-cases (lookup r.request_id s.acquisitions)) [
      | inr (receipt, e) ↦ absurd (ground arith)
      | inl e ↦
          elim (Bool-cases (
            is_at_capacity
              (diagnose_allocation s resolver r.actor r.capabilities true r.max_load).reason)) [
                | inl full ↦ absurd (ground arith)
                | inr room ↦
                    give_first-IsHeld r now later s s' a v named live
                      (ranked_ready_tasks s resolver r.capabilities true) (ground arith)
              ]
    ]
