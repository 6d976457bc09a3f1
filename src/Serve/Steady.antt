-- ===== src/Serve/Steady.antt =====
-- internal/cli/serve.go: what the tasks file reads as behind any request.
use terminal_todo.Base.{Eq-nat, ℕ, ◌+◌, ◌≡◌, refl, ◌⊎◌, inl, inr, Bool, arith, Bytes, ◌∙◌}
use terminal_todo.Store.{TaskStore}
use terminal_todo.Store.Invariant.{IsWellFormed}
use terminal_todo.Store.Transaction.{load_unlocked, stamped, update}
use terminal_todo.Errors.{Result, ok, err}
use terminal_todo.Dag.Ready.{Resolver}
use terminal_todo.Lifecycle.Invariant.{Call, perform, perform-IsWellFormed}
use terminal_todo.Serve.{Response, Host}
use terminal_todo.Serve.Params.{Answer}
use terminal_todo.Serve.Handlers.{File, Handled, answered, transact, Request, dispatch}
use terminal_todo.Serve.Reads.{
  HasRoom, cleaned, stamped-IsWellFormed, cleaned-IsWellFormed, load_current-Turns, update-Turns,
}
use terminal_todo.Serve.Course.{
  Course, stopped, ran, Looks, request_id, request_actor, dispatch-Course,
}

-- The file reads as a well-formed store with room for so many reclaims.
pub record IsSound (h : Host) (n : ℕ) (file : File h) : Type 0 where
  pub store : TaskStore
  pub loaded : load_unlocked h.codec file ≡ ok store
  pub well_formed : IsWellFormed store
  pub room : HasRoom n store

pub answered-file :
    (h : Host) (k : TaskStore → Response Answer) (o : File h × Result TaskStore)
    → (answered h k o).0 ≡ o.0
answered-file h k (file, err e) = refl
answered-file h k (file, ok s) = refl

-- A store, or what a first look leaves of it.
abbrev pub Seen : Host → TaskStore → TaskStore → Type 0
Seen h s s' = (s' ≡ s) ⊎ (s' ≡ stamped h.codec h.now (cleaned h.codec h.now s))

same-Seen :
    (h : Host) (n : ℕ) (file f : File h) (v : IsSound h (n + 1) file)
    → f ≡ file
    → (w : IsSound h n f) × Seen h v.store w.store
same-Seen h n file f v same = (
  record {
    store = v.store;
    loaded = rw same v.loaded;
    well_formed = v.well_formed;
    room = omega (arith, v.room);
  },
  inl refl,
)

-- The file behind a first look.
pub Looks-Seen :
    (h : Host) (n : ℕ) (file f : File h) (v : IsSound h (n + 1) file)
    → Looks h file f
    → (w : IsSound h n f) × Seen h v.store w.store
Looks-Seen h n file f v (inl same) = same-Seen h n file f v same
Looks-Seen h n file f v (inr same) =
    elim (load_current-Turns h.codec h.load_fault h.now v.store file v.loaded) [
      | inl kept ↦ same-Seen h n file f v (same ∙ kept)
      | inr read ↦
          let fine =
            cleaned-IsWellFormed h.codec n h.now v.store (omega (arith, v.room)) v.well_formed in
          (
            record {
              store = stamped h.codec h.now (cleaned h.codec h.now v.store);
              loaded = rw same read;
              well_formed =
                  stamped-IsWellFormed h.codec h.now (cleaned h.codec h.now v.store) fine.0;
              room = fine.1;
            },
            inr refl,
          )
    ]

-- The store that a file reads as.
abbrev pub ReadsWellFormed : (h : Host) → File h → Type 0
ReadsWellFormed h file = (s : TaskStore) × (load_unlocked h.codec file ≡ ok s) × IsWellFormed s

transact-ReadsWellFormed :
    (h : Host) (r : Resolver) (c : Call) (k : TaskStore → Response Answer) (f : File h)
    → IsSound h 1 f
    → ReadsWellFormed h (transact h (perform r h.now c) k f).0
transact-ReadsWellFormed h r c k f v =
    let fine = cleaned-IsWellFormed h.codec 0 h.now v.store v.room v.well_formed in
    let s = cleaned h.codec h.now v.store in
    rw (answered-file h k (update h.codec h.fault h.now (perform r h.now c) f))
      (elim (update-Turns h.codec h.fault h.now (perform r h.now c) v.store f v.loaded) [
        | inl kept ↦ (v.store, rw kept v.loaded, v.well_formed)
        | inr read ↦ (
          stamped h.codec h.now (perform r h.now c s).0,
          read,
          stamped-IsWellFormed h.codec h.now _
              (perform-IsWellFormed r h.now c s (omega (arith, fine.1)) fine.0),
        )
      ])

Course-ReadsWellFormed :
    (h : Host) (file : File h) (id : ℕ) (actor : Bytes) (o : Handled h)
    → IsSound h 2 file
    → Course h file id actor o
    → ReadsWellFormed h o.0
Course-ReadsWellFormed h file id actor o v (stopped f c looks e) =
    let w = (Looks-Seen h 1 file f v looks).0 in rw e (w.store, w.loaded, w.well_formed)
Course-ReadsWellFormed h file id actor o v (ran f r c k looks same mine shows e) =
    rw e (transact-ReadsWellFormed h r c k f ((Looks-Seen h 1 file f v looks).0))

-- If the tasks file reads as a well-formed store whose event counter has room, then it does so behind
-- each of the seven requests too, whatever the request holds, however it is answered, and whatever
-- faults its writes meet.
pub dispatch-ReadsWellFormed :
    (h : Host) (initialized : Bool) (q : Request) (file : File h)
    → IsSound h 2 file
    → ReadsWellFormed h (dispatch h initialized q file).0
dispatch-ReadsWellFormed h initialized q file v =
    Course-ReadsWellFormed h file (request_id q) (request_actor q) (dispatch h initialized q file) v
      (dispatch-Course h initialized q file)
