-- ===== src/Store/Atomic.antt =====
-- store/store.go: what a caller of `Update` can rely on, for every codec and every fault.
use terminal_todo.Base.{
  Eq-nat, ℕ, zero, suc, ◌+◌, ◌<◌, ◌≡◌, ◌⊎◌, refl, false, List, [], ◌∷◌, Option, arith, any, length,
  inl, inr,
}
use terminal_todo.Base.Decimal.{u64_mod}
use terminal_todo.Base.Dict.{values}
use terminal_todo.Store.{Task, TaskStore}
use terminal_todo.Store.Ops.{
  holds_expired, expired_ids, sort_ids, has_expired_leases, clean_expired_leases,
}
use terminal_todo.Store.Invariant.{IsWellFormed}
use terminal_todo.Store.Reclaim.{Reclaims, clean_expired_leases-Reclaims}
use terminal_todo.Store.Transaction.{
  Codec, Fault, no_fault, before_rename, after_rename, load_unlocked, stamped, write_store, commit,
  update,
}
use terminal_todo.Store.Durability.{load-stamped}
use terminal_todo.Serve.Room.{clean-count}
use terminal_todo.Errors.{Error, Result, ok, err}

no_ids : (now : ℕ) (ts : List Task) → any (holds_expired now) ts ≡ false → expired_ids now ts ≡ []
unfolding expired_ids
no_ids now [] h = refl
no_ids now (t ∷ ts) h = ground (arith, no_ids now ts)

-- Where no lease has expired, none is reclaimed.
none_cleaned :
    (now : ℕ) (s : TaskStore)
    → has_expired_leases now s ≡ false
    → (clean_expired_leases now s).1 ≡ 0
unfolding clean_expired_leases has_expired_leases sort_ids
none_cleaned now s h = rw (no_ids now (values s.tasks) h) refl

none_and_some : (n : ℕ) → suc n ≡ 0 → ⊥
none_and_some n e = absurd (omega arith)

module _ (codec : Codec) {A : Type 0} where
  open codec use {Data}

  -- What a transaction on this store promises, where the mutation gave this store and this result.
  -- The file is the old one or reads as the new store, whole. An answered store is the new one, the
  -- mutation succeeded, and the file reads as it. An answered error is the mutation's, or a write
  -- failed. The file is the old one if the write failed before the rename, and if the mutation failed
  -- and no lease had expired. A mutation that succeeds is answered with its store if no write fails.
  pub record IsAtomic (fault : Fault) (now : ℕ) (s : TaskStore) (file : Option Data)
      (m : TaskStore × Result A) (o : Option Data × Result TaskStore) : Type 0 where
    pub whole : (o.0 ≡ file) ⊎ (load_unlocked codec o.0 ≡ ok (stamped codec now m.0))
    pub durable :
        (x : TaskStore)
        → o.1 ≡ ok x
        → (x ≡ stamped codec now m.0) × (load_unlocked codec o.0 ≡ ok x) × (a : A) × (m.1 ≡ ok a)
    pub blamed : (e : Error) → o.1 ≡ err e → (m.1 ≡ err e) ⊎ (fault ≡ no_fault → ⊥)
    pub unwritten : fault ≡ before_rename → o.0 ≡ file
    pub failed :
        (e : Error) → m.1 ≡ err e → (o.1 ≡ err e) × (has_expired_leases now s ≡ false → o.0 ≡ file)
    pub done : (a : A) → m.1 ≡ ok a → fault ≡ no_fault → o.1 ≡ ok (stamped codec now m.0)

  -- The promises behind a mutation that failed.
  refused-IsAtomic :
      (fault : Fault) (now : ℕ) (s x : TaskStore) (file after : Option Data) (d : Error)
      → (after ≡ file) ⊎ (load_unlocked codec after ≡ ok (stamped codec now x))
      → (fault ≡ before_rename → after ≡ file)
      → (has_expired_leases now s ≡ false → after ≡ file)
      → IsAtomic fault now s file (x, err d) (after, err d)
  refused-IsAtomic fault now s x file after d whole unwritten calm = record {
    whole = whole;
    durable = λ y e. absurd (cc e);
    blamed = λ e q. let same : d ≡ e = cc q in inl (rw same refl);
    unwritten = unwritten;
    failed = λ e q. let same : d ≡ e = cc q in (rw same refl, calm);
    done = λ a q r. absurd (cc q);
  }

  commit-IsAtomic :
      (fault : Fault) (now cleaned : ℕ) (s : TaskStore) (file : Option Data)
      (m : TaskStore × Result A)
      → (has_expired_leases now s ≡ false → cleaned ≡ 0)
      → IsAtomic fault now s file m (commit codec fault now cleaned m file)
  unfolding write_store
  commit-IsAtomic no_fault now c s file (x, ok a) calm = record {
    whole = inr (load-stamped codec now x);
    durable = λ y e. let reads = load-stamped codec now x in (cc e, cc (e, reads), a, refl);
    blamed = λ e q. absurd (cc q);
    unwritten = λ q. absurd (cc q);
    failed = λ e q. absurd (cc q);
    done = λ a q r. refl;
  }
  commit-IsAtomic before_rename now c s file (x, ok a) calm = record {
    whole = inl refl;
    durable = λ y e. absurd (cc e);
    blamed = λ e q. inr (λ r. absurd (cc r));
    unwritten = λ q. refl;
    failed = λ e q. absurd (cc q);
    done = λ a q r. absurd (cc r);
  }
  commit-IsAtomic after_rename now c s file (x, ok a) calm = record {
    whole = inr (load-stamped codec now x);
    durable = λ y e. absurd (cc e);
    blamed = λ e q. inr (λ r. absurd (cc r));
    unwritten = λ q. absurd (cc q);
    failed = λ e q. absurd (cc q);
    done = λ a q r. absurd (cc r);
  }
  commit-IsAtomic no_fault now zero s file (x, err d) calm =
      refused-IsAtomic no_fault now s x file file d (inl refl) (λ q. refl) (λ q. refl)
  commit-IsAtomic before_rename now zero s file (x, err d) calm =
      refused-IsAtomic before_rename now s x file file d (inl refl) (λ q. refl) (λ q. refl)
  commit-IsAtomic after_rename now zero s file (x, err d) calm =
      refused-IsAtomic after_rename now s x file file d (inl refl) (λ q. refl) (λ q. refl)
  commit-IsAtomic no_fault now (suc n) s file (x, err d) calm =
      refused-IsAtomic no_fault now s x file _ d (inr (load-stamped codec now x))
        (λ q. absurd (cc q)) (λ q. absurd (none_and_some n (calm q)))
  commit-IsAtomic before_rename now (suc n) s file (x, err d) calm =
      refused-IsAtomic before_rename now s x file _ d (inl refl) (λ q. refl)
        (λ q. absurd (none_and_some n (calm q)))
  commit-IsAtomic after_rename now (suc n) s file (x, err d) calm =
      refused-IsAtomic after_rename now s x file _ d (inr (load-stamped codec now x))
        (λ q. absurd (cc q)) (λ q. absurd (none_and_some n (calm q)))

  -- A transaction on a file that reads as a well-formed store, with room for the events of a reclaim,
  -- runs its mutation on that store with its expired leases reclaimed, and keeps its promises: for
  -- every fault, the file is the old one or reads as the new store; an answered store is what the file
  -- reads as; an error is the mutation's or that of a write; a write that fails before the rename, or
  -- a failing mutation where no lease had expired, leaves the file alone; and where the mutation
  -- succeeds and no write fails, its store is the answer.
  pub update-IsAtomic :
      (fault : Fault) (now : ℕ) (mutate : TaskStore → TaskStore × Result A) (file : Option Data)
      (s : TaskStore)
      → load_unlocked codec file ≡ ok s
      → IsWellFormed s
      → s.next_event_id + length s.tasks < u64_mod
      → (x : TaskStore) × Reclaims now s x
        × IsAtomic fault now s file (mutate x) (update codec fault now mutate file)
  unfolding update
  update-IsAtomic fault now mutate file s e v room = (
    (clean_expired_leases now s).0,
    clean_expired_leases-Reclaims now s v (omega (arith, clean-count now s)),
    rw (e, update)
        (commit-IsAtomic fault now (clean_expired_leases now s).1 s file
          (mutate (clean_expired_leases now s).0) (none_cleaned now s)),
  )
