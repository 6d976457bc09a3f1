-- ===== src/Serve/Reads.antt =====
-- internal/cli/serve.go: what the tasks file reads as behind a first look (`loadStoreSafe`) and behind a
-- transaction (`updateStoreSafe`).
use terminal_todo.Base.{
  Eq-nat, ℕ, zero, suc, ◌+◌, ◌*◌, ◌<◌, ◌≡◌, refl, ◌⊎◌, inl, inr, Bool-cases, Option, arith, length,
}
use terminal_todo.Base.Decimal.{u64_mod}
use terminal_todo.Store.{TaskStore}
use terminal_todo.Store.Ops.{clean_expired_leases, has_expired_leases}
use terminal_todo.Store.Invariant.{IsWellFormed}
use terminal_todo.Store.Expiry.{clean_expired_leases-IsWellFormed}
use terminal_todo.Store.Transaction.{
  Codec, Fault, no_fault, before_rename, after_rename, load_unlocked, stamped, write_store, commit,
  update, reclaim, load_current,
}
use terminal_todo.Store.Durability.{load-stamped}
use terminal_todo.Errors.{Error, Result, ok, err}
use terminal_todo.Serve.Room.{clean-count, clean-length, clean-next_event_id}

-- The event counter has room for this many events, and for as many reclaims of all leases.
abbrev pub HasRoom : ℕ → TaskStore → Type 0
HasRoom reclaims s = s.next_event_id + reclaims * length s.tasks + 2 < u64_mod

module _ (codec : Codec) where
  open codec use {Data}

  pub stamped-IsWellFormed :
      (now : ℕ) (s : TaskStore) → IsWellFormed s → IsWellFormed (stamped codec now s)
  stamped-IsWellFormed now s v = record {
    unique = v.unique;
    entries = v.entries;
    events_rise = v.events_rise;
  }

  -- A reclaim of a store, as it is then written.
  abbrev pub cleaned : ℕ → TaskStore → TaskStore
  cleaned now s = (clean_expired_leases now s).0

  pub cleaned-IsWellFormed :
      (n now : ℕ) (s : TaskStore)
      → HasRoom (suc n) s
      → IsWellFormed s
      → IsWellFormed (cleaned now s) × HasRoom n (cleaned now s)
  cleaned-IsWellFormed n now s room v = (
    clean_expired_leases-IsWellFormed now s (omega (arith, clean-count now s)) v,
    rw (clean-length now s) (omega (arith, clean-next_event_id now s (omega arith))),
  )

  -- The file is as it was, or reads as the given store.
  abbrev pub Turns : Option Data → TaskStore → Option Data → Type 0
  Turns file s file' = (file' ≡ file) ⊎ (load_unlocked codec file' ≡ ok s)

  write-Turns :
      (fault : Fault) (now : ℕ) (s : TaskStore) (file : Option Data)
      → Turns file (stamped codec now s) (write_store codec fault now s file).0
  unfolding write_store
  write-Turns no_fault now s file = inr (load-stamped codec now s)
  write-Turns before_rename now s file = inl refl
  write-Turns after_rename now s file = inr (load-stamped codec now s)

  reclaim-Turns :
      (fault : Fault) (now n : ℕ) (s : TaskStore) (file : Option Data)
      → Turns file (stamped codec now s) (reclaim codec fault now (s, n) file).0
  reclaim-Turns fault now zero s file = inl refl
  reclaim-Turns fault now (suc n) s file = write-Turns fault now s file

  pub load_current-Turns :
      (fault : Fault) (now : ℕ) (s : TaskStore) (file : Option Data)
      → load_unlocked codec file ≡ ok s
      → Turns file (stamped codec now (cleaned now s)) (load_current codec fault now file).0
  unfolding load_current
  load_current-Turns fault now s file loaded = elim (Bool-cases (has_expired_leases now s)) [
    | inl e ↦
        rw (loaded, e, load_current)
          (reclaim-Turns fault now (clean_expired_leases now s).1 (cleaned now s) file)
    | inr e ↦ rw (loaded, e, load_current) (inl refl)
  ]

  module _ (fault : Fault) (now : ℕ) where
    commit-Turns :
        {A : Type 0} (n : ℕ) (m : TaskStore × Result A) (file : Option Data)
        → Turns file (stamped codec now m.0) (commit codec fault now n m file).0
    commit-Turns n (s, ok i) file = write-Turns fault now s file
    commit-Turns zero (s, err e) file = inl refl
    commit-Turns (suc n) (s, err e) file = write-Turns fault now s file

    -- Behind a transaction the file is the old one, or reads as what the mutation made of the reclaimed
    -- store.
    pub update-Turns :
        {A : Type 0} (mutate : TaskStore → TaskStore × Result A) (s : TaskStore)
        (file : Option Data)
        → load_unlocked codec file ≡ ok s
        → Turns file
            (stamped codec now (mutate (cleaned now s)).0)
            (update codec fault now mutate file).0
    unfolding update
    update-Turns mutate s file loaded =
        rw (loaded, update)
          (commit-Turns (clean_expired_leases now s).1 (mutate (cleaned now s)) file)

    -- What a success of a transaction says of the mutation.
    abbrev pub Succeeds :
        {A : Type 0} → TaskStore × Result A → Option Data × Result TaskStore → TaskStore → Type 0
    Succeeds {A} m o x =
        (x ≡ stamped codec now m.0) × (load_unlocked codec o.0 ≡ ok x) × ((i : A) × (m.1 ≡ ok i))

    write-Succeeds :
        {A : Type 0} (f : Fault) (s x : TaskStore) (i : A) (file : Option Data)
        → (write_store codec f now s file).1 ≡ ok x
        → Succeeds (s, ok i) (write_store codec f now s file) x
    unfolding write_store
    write-Succeeds no_fault s x i file e =
        let same : x ≡ stamped codec now s = cc e in
        (same, rw same (load-stamped codec now s), (i, refl))
    write-Succeeds before_rename s x i file e = absurd (cc e)
    write-Succeeds after_rename s x i file e = absurd (cc e)

    commit-Succeeds :
        {A : Type 0} (n : ℕ) (m : TaskStore × Result A) (file : Option Data) (x : TaskStore)
        → (commit codec fault now n m file).1 ≡ ok x
        → Succeeds m (commit codec fault now n m file) x
    commit-Succeeds n (s, ok i) file x e = write-Succeeds fault s x i file e
    commit-Succeeds zero (s, err d) file x e = absurd (cc e)
    commit-Succeeds (suc n) (s, err d) file x e = absurd (cc e)

    pub update-Succeeds :
        {A : Type 0} (mutate : TaskStore → TaskStore × Result A) (s x : TaskStore)
        (file : Option Data)
        → load_unlocked codec file ≡ ok s
        → (update codec fault now mutate file).1 ≡ ok x
        → Succeeds (mutate (cleaned now s)) (update codec fault now mutate file) x
    unfolding update
    update-Succeeds mutate s x file loaded =
        rw (loaded, update)
          (commit-Succeeds (clean_expired_leases now s).1 (mutate (cleaned now s)) file x)

    -- What an error of a transaction says, unless its write fails behind the rename.
    abbrev pub Aborts : {A : Type 0} → Option Data → TaskStore × Result A → Option Data → Type 0
    Aborts file m file' =
        (file' ≡ file)
        ⊎ ((e : Error) × (m.1 ≡ err e) × (load_unlocked codec file' ≡ ok (stamped codec now m.0)))

    commit-Aborts :
        {A : Type 0} (f : Fault) (n : ℕ) (m : TaskStore × Result A) (file : Option Data) (e : Error)
        → (f ≡ after_rename → ⊥)
        → (commit codec f now n m file).1 ≡ err e
        → Aborts file m (commit codec f now n m file).0
    unfolding write_store
    commit-Aborts no_fault n (s, ok i) file e h q = absurd (cc q)
    commit-Aborts before_rename n (s, ok i) file e h q = inl refl
    commit-Aborts after_rename n m file e h q = absurd (h refl)
    commit-Aborts f zero (s, err d) file e h q = inl refl
    commit-Aborts before_rename (suc n) (s, err d) file e h q = inl refl
    commit-Aborts no_fault (suc n) (s, err d) file e h q = inr (d, refl, load-stamped codec now s)

    pub update-Aborts :
        {A : Type 0} (mutate : TaskStore → TaskStore × Result A) (s : TaskStore)
        (file : Option Data) (e : Error)
        → load_unlocked codec file ≡ ok s
        → (fault ≡ after_rename → ⊥)
        → (update codec fault now mutate file).1 ≡ err e
        → Aborts file (mutate (cleaned now s)) (update codec fault now mutate file).0
    unfolding update
    update-Aborts mutate s file e loaded h =
        rw (loaded, update)
          (commit-Aborts fault (clean_expired_leases now s).1 (mutate (cleaned now s)) file e h)
