-- ===== src/Serve/Restoring.antt =====
-- internal/cli/serve.go: what a restore of a backup leaves.
use terminal_todo.Base.{
  Eq-nat, ◌+◌, ◌<◌, ◌≡◌, refl, sym, ◌∙◌, true, false, none, Bytes, bytes_eq, length, [],
}
use terminal_todo.Base.Decimal.{u64_mod}
use terminal_todo.Store.{TaskStore}
use terminal_todo.Store.Ops.{new_task_store}
use terminal_todo.Store.Invariant.{IsWellFormed}
use terminal_todo.Store.Transaction.{
  no_fault, load_unlocked, stamped, write_store, update, load_current, save,
}
use terminal_todo.Store.Durability.{load-stamped}
use terminal_todo.Errors.{Result, ok, err}
use terminal_todo.Serve.{result, ensure_initialized, Host}
use terminal_todo.Serve.Handlers.{File}
use terminal_todo.Serve.Session.{meanwhile}
use terminal_todo.Store.Reclaim.{Reclaims}
use terminal_todo.Serve.Looking.{Looked, load_current-Looked}
use terminal_todo.Serve.Backup.{
  Outcome, back_up_store, handle_backup, restore_store, handle_restore,
}

-- The tasks file reads as this store, and the answer counts its tasks.
pub record Restores (h : Host) (b : TaskStore) (o : Outcome h) : Type 0 where
  pub loaded : load_unlocked h.codec o.0.0 ≡ ok (stamped h.codec h.now b)
  pub answered : o.1 ≡ result (length b.tasks)

restore_store-Restores :
    (h : Host) (file backup : File h) (existing b : TaskStore)
    → load_unlocked h.codec file ≡ ok existing
    → h.fault ≡ no_fault
    → Restores h b (restore_store h file backup (ok b))
unfolding update write_store
restore_store-Restores h file backup existing b loaded whole =
    rw (loaded, whole, update) (record { loaded = load-stamped h.codec h.now b; answered = refl })

-- A restore by an initialized server from a path that is given and whose lock opens, where the tasks
-- file reads as a well-formed store, the file of the backup reads as a store and no write fails, is
-- answered with the number of its tasks, and the tasks file reads as that store.
pub handle_restore-Restores :
    (h : Host) (path : Bytes) (file backup : File h) (existing b : TaskStore)
    → bytes_eq path [] ≡ false
    → load_unlocked h.codec file ≡ ok existing
    → IsWellFormed existing
    → load_unlocked h.codec backup ≡ ok b
    → h.fault ≡ no_fault
    → Restores h b (handle_restore h true path (ok tt) file backup)
unfolding handle_restore ensure_initialized
handle_restore-Restores h path file backup existing b given loaded v saved whole =
    rw (given, saved, handle_restore) (restore_store-Restores h file backup existing b loaded whole)

-- A restore from a path at which there is no file but in a directory where its lock opens, by an
-- initialized server whose tasks file reads as a well-formed store and where no write fails, succeeds
-- and erases all tasks, events and receipts.
pub handle_restore_erases :
    (h : Host) (path : Bytes) (file : File h) (existing : TaskStore)
    → bytes_eq path [] ≡ false
    → load_unlocked h.codec file ≡ ok existing
    → IsWellFormed existing
    → h.fault ≡ no_fault
    → let o = handle_restore h true path (ok tt) file none in
      (o.1 ≡ result 0) × (load_unlocked h.codec o.0.0 ≡ ok (stamped h.codec h.now new_task_store))
handle_restore_erases h path file existing given loaded v whole =
    let r =
      handle_restore-Restores h path file none existing new_task_store given loaded v (missing h)
        whole in
    (r.answered ∙ no_tasks, r.loaded)
  where
    missing : (h : Host) → load_unlocked h.codec none ≡ ok new_task_store
    missing h = unfold load_unlocked in refl

    no_tasks : result (length new_task_store.tasks) ≡ result 0
    no_tasks = unfold new_task_store in refl

-- What a backup leaves: the tasks file and the backup read as the same store, but for its stamp.
record BacksUp (h : Host) (s : TaskStore) (o : Outcome h) : Type 0 where
  store : TaskStore
  left : load_unlocked h.codec o.0.0 ≡ ok store
  saved : load_unlocked h.codec o.0.1 ≡ ok (stamped h.codec h.now store)
  current : Reclaims h.now s store
  answered : o.1 ≡ result (length store.tasks)

back_up_store-BacksUp :
    (h : Host) (s : TaskStore) (file backup : File h) (o : File h × Result TaskStore)
    → Looked h s file o
    → h.make_directory ≡ ok tt
    → h.fault ≡ no_fault
    → BacksUp h s (back_up_store h backup o)
unfolding save write_store
back_up_store-BacksUp h s file backup (f, err e) look made whole = absurd (cc look.answered)
back_up_store-BacksUp h s file backup (f, ok x) look made whole =
    let same : look.store ≡ x = cc (sym look.answered) in
    rw (made, whole)
      (record {
        store = x;
        left = rw (← same) look.loaded;
        saved = load-stamped h.codec h.now x;
        current = rw (← same) look.current;
        answered = refl;
      })

handle_backup-BacksUp :
    (h : Host) (s : TaskStore) (file backup : File h)
    → load_unlocked h.codec file ≡ ok s
    → IsWellFormed s
    → s.next_event_id + length s.tasks < u64_mod
    → h.load_fault ≡ no_fault
    → h.make_directory ≡ ok tt
    → h.fault ≡ no_fault
    → BacksUp h s (handle_backup h true file backup)
unfolding handle_backup ensure_initialized
handle_backup-BacksUp h s file backup loaded v room calm made whole =
    back_up_store-BacksUp h s file backup (load_current h.codec h.load_fault h.now file)
      (load_current-Looked h s file calm loaded v room) made whole

-- The store behind a backup, and behind a restore of it from the changed tasks file.
pub record RoundTrip (h e : Host) (s : TaskStore) (o o' : Outcome h) : Type 0 where
  pub store : TaskStore
  pub left : load_unlocked h.codec o.0.0 ≡ ok store
  pub current : Reclaims h.now s store
  pub back : load_unlocked h.codec o'.0.0 ≡ ok (stamped h.codec e.now (stamped h.codec h.now store))
  pub counted : (o.1 ≡ result (length store.tasks)) × (o'.1 ≡ result (length store.tasks))

-- With no faults, an initialized server whose tasks file reads as a well-formed store with room for
-- the events of a reclaim backs that store up with exactly its expired leases reclaimed, and a restore
-- of the backup at any other time, whose lock opens and whatever well-formed store the tasks file
-- reads as by then, brings exactly this store back, but for the time of its last write; both count its
-- tasks.
pub handle_restore-handle_backup :
    (h e : Host) (path : Bytes) (file backup later : File h) (s existing : TaskStore)
    → load_unlocked h.codec file ≡ ok s
    → IsWellFormed s
    → s.next_event_id + length s.tasks < u64_mod
    → h.load_fault ≡ no_fault
    → h.make_directory ≡ ok tt
    → h.fault ≡ no_fault
    → bytes_eq path [] ≡ false
    → load_unlocked h.codec later ≡ ok existing
    → IsWellFormed existing
    → e.fault ≡ no_fault
    → let o = handle_backup h true file backup in
      RoundTrip h e s o (handle_restore (meanwhile h e) true path (ok tt) later o.0.1)
handle_restore-handle_backup h e path file backup later s existing loaded v room calm made whole
      given readable sound whole' =
    let b = handle_backup-BacksUp h s file backup loaded v room calm made whole in
    let r =
      handle_restore-Restores (meanwhile h e) path later _ existing _ given readable sound b.saved
        whole' in
    record {
      store = b.store;
      left = b.left;
      current = b.current;
      back = r.loaded;
      counted = (b.answered, r.answered);
    }
