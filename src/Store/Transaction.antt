-- ===== src/Store/Transaction.antt =====
-- store/store.go: `loadUnlocked`, `writeStore`, `Update`, `LoadCurrent` and `Save` under the lock.
-- The encoding is that of the msgpack package, a parameter; the file is its bytes, or missing.
use terminal_todo.Base.{ℕ, zero, suc, ◌≡◌, Option, none, some, if◌then◌else◌}
use terminal_todo.Store.{TaskStore, current_schema_version}
use terminal_todo.Store.Ops.{new_task_store, clean_expired_leases, has_expired_leases}
use terminal_todo.Store.Migration.{upgrade}
use terminal_todo.Errors.{Result, ok, err, unclassified}

-- `msgpack.Marshal` and `msgpack.Unmarshal`, and that the second reads what the first wrote.
pub record Codec : Type 1 where
  pub Data : Type 0
  pub marshal : TaskStore → Data
  pub unmarshal : Data → Option TaskStore
  pub unmarshal-marshal : (s : TaskStore) → unmarshal (marshal s) ≡ some s

-- What the file system does with one write: it fails up to the rename, or only in the `fsync` of
-- the directory behind it.
pub data Fault : Type 0 where
  no_fault before_rename after_rename : Fault

module _ (codec : Codec) where
  open codec use {Data, marshal, unmarshal}

  unfoldable pub load_unlocked : Option Data → Result TaskStore
  unfolding new_task_store upgrade
  load_unlocked none = ok new_task_store
  load_unlocked (some bytes) = elim (unmarshal bytes) [
    | none ↦ err unclassified
    | some s ↦ upgrade s
  ]

  abbrev pub stamped : ℕ → TaskStore → TaskStore
  stamped now s = record s { schema_version = current_schema_version; last_modified = now }

  -- The file and the outcome after a write. The rename replaces the file as a whole.
  unfoldable pub write_store : Fault → ℕ → TaskStore → Option Data → Option Data × Result TaskStore
  write_store no_fault now s file = (some (marshal (stamped now s)), ok (stamped now s))
  write_store before_rename now s file = (file, err unclassified)
  write_store after_rename now s file = (some (marshal (stamped now s)), err unclassified)

  abbrev pub commit :
      {A : Type 0}
      → Fault
      → ℕ
      → ℕ
      → TaskStore × Result A
      → Option Data
      → Option Data × Result TaskStore
  commit fault now cleaned (s, ok a) file = write_store fault now s file
  commit fault now zero (s, err e) file = (file, err e)
  commit fault now (suc cleaned) (s, err e) file = ((write_store fault now s file).0, err e)

  -- `Update`: an error of `mutate` is returned, and the store is written behind it if a lease was
  -- reclaimed. (Where that write fails too, the error wraps both.)
  unfoldable pub update :
      {A : Type 0}
      → Fault
      → ℕ
      → (TaskStore → TaskStore × Result A)
      → Option Data
      → Option Data × Result TaskStore
  unfolding load_unlocked write_store clean_expired_leases
  update fault now mutate file = elim (load_unlocked file) [
    | err e ↦ (file, err e)
    | ok s ↦
        let (s', cleaned) = clean_expired_leases now s in commit fault now cleaned (mutate s') file
  ]

  abbrev pub reclaim : Fault → ℕ → TaskStore × ℕ → Option Data → Option Data × Result TaskStore
  reclaim fault now (s, zero) file = (file, ok s)
  reclaim fault now (s, suc n) file = write_store fault now s file

  -- `LoadCurrent`, where no one writes between its two locks.
  unfoldable pub load_current : Fault → ℕ → Option Data → Option Data × Result TaskStore
  unfolding load_unlocked has_expired_leases clean_expired_leases write_store
  load_current fault now file = elim (load_unlocked file) [
    | err e ↦ (file, err e)
    | ok s ↦
        if has_expired_leases now s
        then reclaim fault now (clean_expired_leases now s) file
        else (file, ok s)
  ]

  unfoldable pub save : Fault → ℕ → TaskStore → Option Data → Option Data × Result TaskStore
  unfolding write_store
  save fault now s file = write_store fault now s file
