-- ===== src/Serve/Saving.antt =====
-- internal/cli/serve.go: a backup and a restore under every fault, on the tasks file and the file of
-- the backup.
use terminal_todo.Base.{
  Eq-nat, ℕ, zero, suc, ◌≡◌, refl, Bool, true, false, Bytes, bytes_eq, [], Bool-cases, inl, inr,
  length,
}
use terminal_todo.Store.{TaskStore}
use terminal_todo.Store.Ops.{has_expired_leases, clean_expired_leases}
use terminal_todo.Store.Transaction.{
  Fault, no_fault, before_rename, after_rename, load_unlocked, stamped, write_store, reclaim,
  load_current, save,
}
use terminal_todo.Store.Durability.{load-stamped}
use terminal_todo.Errors.{Result, ok, err}
use terminal_todo.Lifecycle.Edges.{IsSteady}
use terminal_todo.Serve.{Host, ensure_initialized}
use terminal_todo.Serve.Handlers.{File}
use terminal_todo.Serve.Reads.{update-Turns}
use terminal_todo.Serve.Effect.{ReadsSteady, IsReady, Looks-IsReady, stamped-IsSteady}
use terminal_todo.Serve.Looking.{clean-zero}
use terminal_todo.Serve.Server.{todo_init}
use terminal_todo.Serve.Backup.{
  back_up_store, backed_up, in_directory, handle_backup, restored, restore_store, load_backup,
  handle_restore,
}

-- The tasks file and the backup.
abbrev pub BothSteady : (h : Host) → File h × File h → Type 0
BothSteady h files = ReadsSteady h files.0 × ReadsSteady h files.1

-- The store that a first look answers is the one that the file reads as behind it.
reclaim-loads :
    (h : Host) (n : ℕ) (s x : TaskStore) (fault : Fault) (file : File h)
    → load_unlocked h.codec file ≡ ok s
    → (clean_expired_leases h.now s).1 ≡ n
    → (reclaim h.codec fault h.now ((clean_expired_leases h.now s).0, n) file).1 ≡ ok x
    → load_unlocked h.codec
        (reclaim h.codec fault h.now ((clean_expired_leases h.now s).0, n) file).0
      ≡ ok x
unfolding write_store
reclaim-loads h zero s x fault file loaded count e =
    let same = clean-zero h.now s count in cc (loaded, same, e)
reclaim-loads h (suc n) s x no_fault file loaded count e =
    let reads = load-stamped h.codec h.now (clean_expired_leases h.now s).0 in cc (reads, e)
reclaim-loads h (suc n) s x before_rename file loaded count e = absurd (cc e)
reclaim-loads h (suc n) s x after_rename file loaded count e = absurd (cc e)

load_current-loads :
    (h : Host) (s : TaskStore) (file : File h)
    → load_unlocked h.codec file ≡ ok s
    → (x : TaskStore) → (load_current h.codec h.load_fault h.now file).1 ≡ ok x
    → load_unlocked h.codec (load_current h.codec h.load_fault h.now file).0 ≡ ok x
unfolding load_current
load_current-loads h s file loaded = elim (Bool-cases (has_expired_leases h.now s)) [
  | inl e ↦
      rw (loaded, e, load_current)
        (λ x q.
          reclaim-loads h (clean_expired_leases h.now s).1 s x h.load_fault file loaded refl q)
  | inr e ↦ rw (loaded, e, load_current) (λ x q. cc (loaded, q))
]

saved-steady :
    (h : Host) (fault : Fault) (file backup : File h) (s : TaskStore)
    → ReadsSteady h file
    → IsSteady s
    → ReadsSteady h backup
    → BothSteady h (backed_up h file s (write_store h.codec fault h.now s backup)).0
unfolding write_store
saved-steady h no_fault file backup s v w b =
    (v, (stamped h.codec h.now s, load-stamped h.codec h.now s, stamped-IsSteady h s w))
saved-steady h before_rename file backup s v w b = (v, b)
saved-steady h after_rename file backup s v w b =
    (v, (stamped h.codec h.now s, load-stamped h.codec h.now s, stamped-IsSteady h s w))

in_directory-steady :
    (h : Host) (file backup : File h) (s : TaskStore) (made : Result (Unit {0}))
    → ReadsSteady h file
    → IsSteady s
    → ReadsSteady h backup
    → BothSteady h (in_directory h file backup s made).0
unfolding save
in_directory-steady h file backup s (err e) v w b = (v, b)
in_directory-steady h file backup s (ok u) v w b = saved-steady h h.fault file backup s v w b

back_up_store-steady :
    (h : Host) (backup : File h) (o : File h × Result TaskStore)
    → ReadsSteady h o.0
    → ((x : TaskStore) → o.1 ≡ ok x → load_unlocked h.codec o.0 ≡ ok x)
    → ReadsSteady h backup
    → BothSteady h (back_up_store h backup o).0
back_up_store-steady h backup (f, err e) v reads b = (v, b)
back_up_store-steady h backup (f, ok s) (x, loaded, w) reads b =
    let same : x ≡ s = cc (loaded, reads s refl) in
    in_directory-steady h f backup s h.make_directory (x, loaded, w) (rw (← same) w) b

-- A backup, for every fault: both files read as stores without a cycle, if they did.
pub handle_backup-steady :
    (h : Host) (initialized : Bool) (file backup : File h)
    → IsReady h todo_init 2 file
    → ReadsSteady h backup
    → BothSteady h (handle_backup h initialized file backup).0
unfolding handle_backup ensure_initialized
handle_backup-steady h false file backup v b = ((v.store, v.loaded, v.steady), b)
handle_backup-steady h true file backup v b =
    let w = Looks-IsReady h todo_init 1 file _ v (inr refl) in
    back_up_store-steady h backup (load_current h.codec h.load_fault h.now file)
      (w.store, w.loaded, w.steady) (load_current-loads h v.store file v.loaded) b

restored-files :
    (h : Host) (backup : File h) (n : ℕ) (o : File h × Result TaskStore)
    → (restored h backup n o).0 ≡ (o.0, backup)
restored-files h backup n (f, err e) = refl
restored-files h backup n (f, ok s) = refl

restore_store-steady :
    (h : Host) (file backup : File h) (r : Result TaskStore)
    → ReadsSteady h file
    → ReadsSteady h backup
    → ((x : TaskStore) → r ≡ ok x → IsSteady x)
    → BothSteady h (restore_store h file backup r).0
restore_store-steady h file backup (err e) v b steady = (v, b)
restore_store-steady h file backup (ok x) v b steady =
    let (s, loaded, w) = v in
    rw (restored-files h backup (length x.tasks) _) (
      elim (update-Turns h.codec h.fault h.now (λ s. (x, ok (length x.tasks))) s file loaded) [
        | inl stays ↦ (s, rw stays loaded, w)
        | inr read ↦ (stamped h.codec h.now x, read, stamped-IsSteady h x (steady x refl))
      ],
      b,
    )

loaded-steady :
    (h : Host) (backup : File h) (opened : Result (Unit {0})) (x : TaskStore)
    → ReadsSteady h backup
    → load_backup h opened backup ≡ ok x
    → IsSteady x
loaded-steady h backup (err e) x b q = absurd (cc q)
loaded-steady h backup (ok u) x (s, loaded, w) q =
    let same : s ≡ x = cc (loaded, q) in rw (← same) w

-- A restore, for every fault: likewise.
pub handle_restore-steady :
    (h : Host) (initialized : Bool) (path : Bytes) (opened : Result (Unit {0}))
    (file backup : File h)
    → ReadsSteady h file
    → ReadsSteady h backup
    → BothSteady h (handle_restore h initialized path opened file backup).0
unfolding handle_restore ensure_initialized
handle_restore-steady h false path opened file backup v b = elim (Bool-cases (bytes_eq path [])) [
  | inl e ↦ rw (e, handle_restore) (v, b)
  | inr e ↦ rw (e, handle_restore) (v, b)
]
handle_restore-steady h true path opened file backup v b = elim (Bool-cases (bytes_eq path [])) [
  | inl e ↦ rw (e, handle_restore) (v, b)
  | inr e ↦
      rw (e, handle_restore)
        (restore_store-steady h file backup (load_backup h opened backup) v b
          (λ x q. loaded-steady h backup opened x b q))
]
