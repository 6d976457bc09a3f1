-- ===== src/Serve/Backup.antt =====
-- internal/cli/serve.go: `handleBackup` and `handleRestore`, on the tasks file and the file of a
-- backup, which is another one.
use terminal_todo.Base.{ℕ, Bool, [], Bytes, bytes_eq, length}
use terminal_todo.Store.{TaskStore}
use terminal_todo.Store.Transaction.{load_unlocked, update, load_current, save}
use terminal_todo.Errors.{Result, ok, err}
use terminal_todo.Serve.{
  refused, passed, Response, failed, result, ◌>>◌, refuse_if, ensure_initialized, Host,
  rpc_store_corrupted,
}
use terminal_todo.Serve.Handlers.{File}

module _ (h : Host) where
  -- The tasks file, the file of the backup, and how many tasks there are.
  abbrev pub Outcome : Type 0
  Outcome = (File h × File h) × Response ℕ

  abbrev pub backed_up : File h → TaskStore → File h × Result TaskStore → Outcome
  backed_up file s (backup, err e) = ((file, backup), failed rpc_store_corrupted)
  backed_up file s (backup, ok _) = ((file, backup), result (length s.tasks))

  abbrev pub in_directory : File h → File h → TaskStore → Result (Unit {0}) → Outcome
  in_directory file backup s (err e) = ((file, backup), failed rpc_store_corrupted)
  in_directory file backup s (ok u) = backed_up file s (save h.codec h.fault h.now s backup)

  abbrev pub back_up_store : File h → File h × Result TaskStore → Outcome
  back_up_store backup (file, err e) = ((file, backup), failed rpc_store_corrupted)
  back_up_store backup (file, ok s) = in_directory file backup s h.make_directory

  unfoldable pub handle_backup : Bool → File h → File h → Outcome
  unfolding save
  handle_backup initialized file backup = elim (ensure_initialized initialized) [
    | refused c ↦ ((file, backup), failed c)
    | passed _ ↦ back_up_store backup (load_current h.codec h.load_fault h.now file)
  ]

  abbrev pub restored : File h → ℕ → File h × Result TaskStore → Outcome
  restored backup count (file, err e) = ((file, backup), failed rpc_store_corrupted)
  restored backup count (file, ok s) = ((file, backup), result count)

  -- `*existing = *backup`
  abbrev pub restore_store : File h → File h → Result TaskStore → Outcome
  restore_store file backup (err e) = ((file, backup), failed rpc_store_corrupted)
  restore_store file backup (ok b) =
      restored backup (length b.tasks)
        (update h.codec h.fault h.now (λ existing. (b, ok (length b.tasks))) file)

  -- `store.Load`, by what opening and acquiring the lock beside the file gives: the file system may
  -- refuse it, as it does in a directory that is not there.
  abbrev pub load_backup : Result (Unit {0}) → File h → Result TaskStore
  load_backup (err e) backup = err e
  load_backup (ok u) backup = load_unlocked h.codec backup

  unfoldable pub handle_restore : Bool → Bytes → Result (Unit {0}) → File h → File h → Outcome
  unfolding load_unlocked update
  handle_restore initialized path opened file backup =
      elim (do refuse_if (bytes_eq path []); ensure_initialized initialized) [
        | refused c ↦ ((file, backup), failed c)
        | passed _ ↦ restore_store file backup (load_backup opened backup)
      ]
