-- ===== src/Serve/Completion.antt =====
-- internal/cli/serve.go: what the answer of `handleDone` promises.
use terminal_todo.Base.{
  Eq-nat, ℕ, ◌≡◌, refl, sym, ap, subst, ◌∙◌, inl, inr, Bool, true, List, [], ◌∷◌, some, arith,
  Bytes, nat_eq, nat_eq_iff, has, has-cons, has-nil, if◌then◌else◌, Bool-cases,
}
use mathlib.Core.Option
use terminal_todo.Base.Dict.{lookup-modify}
use terminal_todo.Store.{Task, completed, status_eq, TaskStore}
use terminal_todo.Store.Ops.{get_task, get_all_tasks}
use terminal_todo.Store.Transaction.{load_unlocked, stamped, update, load_current}
use terminal_todo.Errors.{Result, ok, err, Result-cases}
use terminal_todo.Dag.Ready.{Resolver}
use terminal_todo.Lifecycle.Leases.{Outcome, complete_guards, complete_task, finish}
use terminal_todo.Queries.Prediction.{done_entry, complete-tasks, complete-guarded}
use terminal_todo.Compaction.{unique_task_ids}
use terminal_todo.Compaction.Affected.{has-unique_from}
use terminal_todo.Serve.{Checked, refused, passed, result, Host, snapshot_dependency_resolver}
use terminal_todo.Serve.Params.{DoneParams, Answer}
use terminal_todo.Serve.Handlers.{File, before, transact}
use terminal_todo.Serve.Done.{
  next_round, complete_all, done_answer, done_checks, after_done_preflight, handle_done,
}
use terminal_todo.Serve.Reads.{cleaned, update-Succeeds}
use terminal_todo.Serve.Steady.{IsSound, Looks-Seen, answered-file}
use terminal_todo.Serve.Pointers.{answered-err, answered-ok}

-- A completed task, which nobody holds.
abbrev pub IsDone : TaskStore → ℕ → Type 0
IsDone s id =
    (t : Task) × (get_task id s ≡ some t) × (status_eq t.status completed ≡ true) × (t.owner ≡ [])

module _ (id : ℕ) (actor : Bytes) (r : Resolver) (now : ℕ) (s : TaskStore) where
  complete-lookup :
      (i k : ℕ)
      → (complete_task id actor r now s).1 ≡ ok i
      → get_task k (complete_task id actor r now s).0
        ≡ (if nat_eq id k then Option.map (finish now) (get_task k s) else get_task k s)
  unfolding get_task
  complete-lookup i k success = elim (Result-cases (complete_guards id actor r s)) [
    | inr (e, g) ↦ absurd (cc (complete-guarded id actor r now s e g))
    | inl (t, g) ↦
        rw (complete-tasks id actor r now s t g)
          (ground (arith, lookup-modify id k (finish now) s.tasks))
  ]

  complete-IsDone :
      (i : ℕ)
      → (complete_task id actor r now s).1 ≡ ok i
      → IsDone (complete_task id actor r now s).0 id
  unfolding get_task
  complete-IsDone i success = elim (Result-cases (complete_guards id actor r s)) [
    | inr (e, g) ↦ absurd (cc (complete-guarded id actor r now s e g))
    | inl (t, g) ↦
        let found = (done_entry id actor r s t g).0 in
        (
          finish now t,
          ground (arith, complete-lookup i id success, found, nat_eq_iff id id),
          refl,
          refl,
        )
  ]

  -- What is done stays done.
  complete-keeps_IsDone :
      (i k : ℕ)
      → (complete_task id actor r now s).1 ≡ ok i
      → IsDone s k
      → IsDone (complete_task id actor r now s).0 k
  complete-keeps_IsDone i k success (t, found, done, free) = elim (Bool-cases (nat_eq id k)) [
    | inl same ↦ (finish now t, ground (arith, complete-lookup i k success), refl, refl)
    | inr other ↦ (t, ground (arith, complete-lookup i k success), done, free)
  ]

-- Two rounds that succeed are one behind the other.
next_round-ok :
    (o : Outcome) (rest : TaskStore → TaskStore × Result (Unit {0}))
    → (next_round o rest).1 ≡ ok tt
    → (i : ℕ) × (o.1 ≡ ok i) × (next_round o rest ≡ rest o.0)
next_round-ok (s, err e) rest h = absurd (cc h)
next_round-ok (s, ok i) rest h = (i, refl, refl)

module _ (actor : Bytes) (r : Resolver) (now : ℕ) where
  complete_all-keeps_IsDone :
      (ids : List ℕ) (s : TaskStore) (k : ℕ)
      → (complete_all ids actor r now s).1 ≡ ok tt
      → IsDone s k
      → IsDone (complete_all ids actor r now s).0 k
  unfolding complete_all
  complete_all-keeps_IsDone [] s k success done = done
  complete_all-keeps_IsDone (id ∷ ids) s k success done =
      let (i, first, both) =
        next_round-ok (complete_task id actor r now s) (complete_all ids actor r now) success in
      rw both (
        complete_all-keeps_IsDone ids (complete_task id actor r now s).0 k
          (ap (λ o. o.1) (sym both) ∙ success)
          (complete-keeps_IsDone id actor r now s i k first done))

  complete_all-IsDone :
      (ids : List ℕ) (s : TaskStore) (k : ℕ)
      → (complete_all ids actor r now s).1 ≡ ok tt
      → has k ids ≡ true
      → IsDone (complete_all ids actor r now s).0 k
  unfolding complete_all
  complete_all-IsDone [] s k success asked = absurd (cc (has-nil k, asked))
  complete_all-IsDone (id ∷ ids) s k success asked =
      let (i, first, both) =
        next_round-ok (complete_task id actor r now s) (complete_all ids actor r now) success in
      let s' = (complete_task id actor r now s).0 in
      let rest : (complete_all ids actor r now s').1 ≡ ok tt = ap (λ o. o.1) (sym both) ∙ success in
      rw both (elim (Bool-cases (nat_eq id k)) [
        | inl same ↦
            subst (IsDone (complete_all ids actor r now s').0) ((nat_eq_iff id k).0 same)
              (complete_all-keeps_IsDone ids s' id rest (complete-IsDone id actor r now s i first))
        | inr other ↦ complete_all-IsDone ids s' k rest (ground (arith, has-cons k id ids))
      ])

has-unique_task_ids : (k : ℕ) (ids : List ℕ) → has k ids ≡ true → has k (unique_task_ids ids) ≡ true
unfolding unique_task_ids
has-unique_task_ids k ids h = ground (arith, has-unique_from k [] ids, has-nil k)

-- The file reads as a store in which each requested task is done, and the answer is that of this store
-- for the distinct IDs.
abbrev pub Completes : (h : Host) → DoneParams → Answer → File h → Type 0
Completes h p a file =
    (s : TaskStore) × (load_unlocked h.codec file ≡ ok s)
    × ((k : ℕ) → has k p.ids ≡ true → IsDone s k)
    × ((r : Resolver) × (done_answer p.receipt (unique_task_ids p.ids) r s ≡ result a))

stamped-IsDone :
    (h : Host) (k : ℕ) (x s : TaskStore) → x ≡ stamped h.codec h.now s → IsDone s k → IsDone x k
unfolding get_task
stamped-IsDone h k x s same (t, found, done, free) = (t, rw same found, done, free)

transact-Completes :
    (h : Host) (p : DoneParams) (r : Resolver) (f : File h) (s : TaskStore) (a : Answer)
    → load_unlocked h.codec f ≡ ok s
    → let o =
        transact h
          (complete_all (unique_task_ids p.ids) p.actor r h.now)
          (done_answer p.receipt (unique_task_ids p.ids) r)
          f in
      o.1 ≡ result a → Completes h p a o.0
transact-Completes h p r f s a loaded shown =
    let ids = unique_task_ids p.ids in
    let mutate = complete_all ids p.actor r h.now in
    let o = update h.codec h.fault h.now mutate f in
    let k = done_answer p.receipt ids r in
    elim (Result-cases o.1) [
      | inr (e, q) ↦ absurd (cc (answered-err h k o e q, shown))
      | inl (x, q) ↦
          let done = update-Succeeds h.codec h.fault h.now mutate s x f loaded q in
          rw (answered-file h k o) (
            x,
            done.1,
            λ i asked. stamped-IsDone h i x _ done.0 (
                complete_all-IsDone p.actor r h.now ids (cleaned h.codec h.now s) i done.2.1
                  (has-unique_task_ids i p.ids asked)),
            (r, sym (answered-ok h k o x q) ∙ shown),
          )
    ]

preflight-Completes :
    (h : Host) (p : DoneParams) (o : File h × Result TaskStore) (w : IsSound h 1 o.0) (a : Answer)
    → (after_done_preflight h p (unique_task_ids p.ids) o).1 ≡ result a
    → Completes h p a (after_done_preflight h p (unique_task_ids p.ids) o).0
preflight-Completes h p (f, err e) w a shown = absurd (cc shown)
preflight-Completes h p (f, ok preflight) w a shown =
    transact-Completes h p (snapshot_dependency_resolver h.live (get_all_tasks preflight)) f w.store
      a w.loaded shown

before-Completes :
    (h : Host) (p : DoneParams) (file : File h) (v : IsSound h 2 file) (a : Answer)
    (checks : Checked (Unit {0}))
    → let o = before h checks file λ _.
      after_done_preflight h p
        (unique_task_ids p.ids)
        (load_current h.codec h.load_fault h.now file) in
      o.1 ≡ result a → Completes h p a o.0
before-Completes h p file v a (refused c) shown = absurd (cc shown)
before-Completes h p file v a (passed u) shown =
    let first = load_current h.codec h.load_fault h.now file in
    preflight-Completes h p first (Looks-Seen h 1 file first.0 v (inr refl)).0 a shown

-- Where the tasks file reads as a well-formed store whose event counter has room, and `todo.done` is
-- answered with a result, the file reads as a store in which each of the requested tasks is completed
-- and has no owner, also where an ID was given twice; the answer is the one made from that store for the
-- distinct IDs.
pub handle_done-Completes :
    (h : Host) (initialized : Bool) (p : DoneParams) (file : File h) (a : Answer)
    (v : IsSound h 2 file)
    → (handle_done h initialized p file).1 ≡ result a
    → Completes h p a (handle_done h initialized p file).0
unfolding handle_done
handle_done-Completes h initialized p file a v =
    before-Completes h p file v a (done_checks initialized p)
