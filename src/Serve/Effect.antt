-- ===== src/Serve/Effect.antt =====
-- internal/cli/serve.go: what a request does to the tasks file.
use terminal_todo.Base.{Eq-nat, ℕ, suc, ◌≡◌, refl, inl, inr, [], arith, ◌∙◌}
use terminal_todo.Base.Dict.{values}
use terminal_todo.Store.{TaskStore}
use terminal_todo.Store.Ops.{new_task_store}
use terminal_todo.Store.Invariant.{new_task_store-IsWellFormed}
use terminal_todo.Store.Transaction.{load_unlocked, stamped, update}
use terminal_todo.Dag.Search.Relation.{one, step, IsAcyclic}
use terminal_todo.Dag.Build.{has-build_from_tasks}
use terminal_todo.Errors.{Result, ok}
use terminal_todo.Lifecycle.Acyclic.{graph}
use terminal_todo.Lifecycle.Edges.{IsSteady}
use terminal_todo.Serve.{Response, Host}
use terminal_todo.Serve.Params.{Answer}
use terminal_todo.Serve.Handlers.{File, transact}
use terminal_todo.Serve.Reads.{cleaned, stamped-IsWellFormed, load_current-Turns, update-Turns}
use terminal_todo.Serve.Course.{Looks}
use terminal_todo.Serve.Steady.{answered-file}
use terminal_todo.Serve.Server.{Method}
use terminal_todo.Serve.Space.{HasSpace, HasSpace-same, cleaned-IsSteady}

-- The file reads as a well-formed store without a cycle.
abbrev pub ReadsSteady : (h : Host) → File h → Type 0
ReadsSteady h file = (s : TaskStore) × (load_unlocked h.codec file ≡ ok s) × IsSteady s

-- And its counters have room for a request.
pub record IsReady (h : Host) (q : Method) (n : ℕ) (file : File h) : Type 0 where
  pub store : TaskStore
  pub loaded : load_unlocked h.codec file ≡ ok store
  pub steady : IsSteady store
  pub space : HasSpace q n store

-- A mutation that keeps every store as it should be for which there is room.
abbrev pub Keeps : {A : Type 0} → Method → (TaskStore → TaskStore × Result A) → Type 0
Keeps q mutate = (s : TaskStore) → HasSpace q 0 s → IsSteady s → IsSteady (mutate s).0

-- A request leaves the file as its first look does, or runs one transaction on it, or creates it.
pub data Effect (h : Host) (q : Method) (file : File h) (after : File h) : Type 1 where
  kept : (f : File h) → Looks h file f → after ≡ f → Effect h q file after
  changed :
      {A : Type 0} (mutate : TaskStore → TaskStore × Result A) (f : File h)
      → Looks h file f
      → Keeps q mutate
      → after ≡ (update h.codec h.fault h.now mutate f).0
      → Effect h q file after
  created :
      load_unlocked h.codec after ≡ ok (stamped h.codec h.now new_task_store)
      → Effect h q file after

pub stamped-IsSteady : (h : Host) (s : TaskStore) → IsSteady s → IsSteady (stamped h.codec h.now s)
stamped-IsSteady h s v = record {
  well_formed = stamped-IsWellFormed h.codec h.now s v.well_formed;
  acyclic = v.acyclic;
}

no_edges-IsAcyclic : IsAcyclic (graph new_task_store)
unfolding new_task_store values
no_edges-IsAcyclic u (one {v = v} e) = absurd (cc (has-build_from_tasks u v [], e))
no_edges-IsAcyclic u (step {v = v} e r) = absurd (cc (has-build_from_tasks u v [], e))

pub new_task_store-IsSteady : IsSteady new_task_store
new_task_store-IsSteady = record {
  well_formed = new_task_store-IsWellFormed;
  acyclic = no_edges-IsAcyclic;
}

same-IsReady :
    (h : Host) (q : Method) (n : ℕ) (file f : File h)
    → IsReady h q (suc n) file
    → f ≡ file
    → IsReady h q n f
same-IsReady h q n file f v same = record {
  store = v.store;
  loaded = rw same v.loaded;
  steady = v.steady;
  space = record { events = omega (arith, v.space.events); ids = v.space.ids };
}

-- A first look leaves a file that is as ready, for one reclaim less.
pub Looks-IsReady :
    (h : Host) (q : Method) (n : ℕ) (file f : File h)
    → IsReady h q (suc n) file
    → Looks h file f
    → IsReady h q n f
Looks-IsReady h q n file f v (inl same) = same-IsReady h q n file f v same
Looks-IsReady h q n file f v (inr same) =
    elim (load_current-Turns h.codec h.load_fault h.now v.store file v.loaded) [
      | inl stays ↦ same-IsReady h q n file f v (same ∙ stays)
      | inr read ↦
          let fine = cleaned-IsSteady q n h.now v.store v.space v.steady in
          record {
            store = stamped h.codec h.now (cleaned h.codec h.now v.store);
            loaded = rw same read;
            steady = stamped-IsSteady h (cleaned h.codec h.now v.store) fine.0;
            space = HasSpace-same q n (cleaned h.codec h.now v.store) _ refl refl refl fine.1;
          }
    ]

pub Effect-ReadsSteady :
    (h : Host) (q : Method) (file after : File h)
    → IsReady h q 2 file
    → Effect h q file after
    → ReadsSteady h after
Effect-ReadsSteady h q file after v (kept f looks same) =
    let w = Looks-IsReady h q 1 file f v looks in rw same (w.store, w.loaded, w.steady)
Effect-ReadsSteady h q file after v (changed mutate f looks keeps same) =
    let w = Looks-IsReady h q 1 file f v looks in
    let (clean, room) = cleaned-IsSteady q 0 h.now w.store w.space w.steady in
    let s = cleaned h.codec h.now w.store in
    rw same (elim (update-Turns h.codec h.fault h.now mutate w.store f w.loaded) [
      | inl stays ↦ (w.store, rw stays w.loaded, w.steady)
      | inr read ↦ (
        stamped h.codec h.now (mutate s).0,
        read,
        stamped-IsSteady h (mutate s).0 (keeps s room clean),
      )
    ])
Effect-ReadsSteady h q file after v (created read) =
    (stamped h.codec h.now new_task_store, read, stamped-IsSteady h _ new_task_store-IsSteady)

pub transact-Effect :
    {A : Type 0} (h : Host) (q : Method) (mutate : TaskStore → TaskStore × Result A)
    (k : TaskStore → Response Answer) (file f : File h)
    → Looks h file f
    → Keeps q mutate
    → Effect h q file (transact h mutate k f).0
transact-Effect h q mutate k file f looks keeps =
    changed mutate f looks keeps (answered-file h k (update h.codec h.fault h.now mutate f))
