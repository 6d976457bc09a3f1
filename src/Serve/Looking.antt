-- ===== src/Serve/Looking.antt =====
-- internal/cli/serve.go: what the requests that read answer from.
use terminal_todo.Base.{
  Eq-nat, ℕ, zero, suc, ◌+◌, ◌<◌, ◌≡◌, refl, sym, Bool, true, false, List, [], ◌∷◌, length, ltb,
  arith, if◌then◌else◌, Bool-cases, inl, inr,
}
use terminal_todo.Base.Dict.{values}
use terminal_todo.Store.{TaskStore}
use terminal_todo.Store.Ops.{
  get_task, expired_ids, sort_ids, expire_all, has_expired_leases, clean_expired_leases,
}
use terminal_todo.Store.Invariant.{IsWellFormed}
use terminal_todo.Base.Decimal.{u64_mod}
use terminal_todo.Store.Reclaim.{
  Reclaims, clean_expired_leases-Reclaims, fresh-Reclaims, Reclaims-stamped,
}
use terminal_todo.Serve.Room.{clean-count}
use terminal_todo.Store.Transaction.{
  no_fault, load_unlocked, stamped, write_store, reclaim, load_current,
}
use terminal_todo.Store.Durability.{load-stamped}
use terminal_todo.Errors.{Result, ok, err}
use terminal_todo.Serve.{passed, Host}
use terminal_todo.Serve.ViewParams.{ViewRequest}
use terminal_todo.Serve.Handlers.{File, Handled}
use terminal_todo.Serve.Views.{view_checks, view_of}
use terminal_todo.Serve.Server.{shown, looked_at, handle_view}

-- The first look: the store, as the file reads behind it.
pub record Looked (h : Host) (s : TaskStore) (file : File h) (o : File h × Result TaskStore)
    : Type 0 where
  pub store : TaskStore
  pub answered : o.1 ≡ ok store
  pub loaded : load_unlocked h.codec o.0 ≡ ok store
  pub current : Reclaims h.now s store
  pub untouched : has_expired_leases h.now s ≡ false → o.0 ≡ file

pub clean-zero :
    (now : ℕ) (s : TaskStore)
    → (clean_expired_leases now s).1 ≡ 0
    → (clean_expired_leases now s).0 ≡ s
unfolding clean_expired_leases expire_all
clean-zero now s = no_ids (sort_ids (expired_ids now (values s.tasks)))
  where
    no_ids :
        (ids : List ℕ)
        → length ids ≡ 0
        → (if ltb 0 (length ids)
            then record (expire_all now ids s) { last_modified = now }
            else expire_all now ids s)
          ≡ s
    no_ids [] h = refl
    no_ids (id ∷ ids) h = absurd (omega arith)

clean_room :
    (now : ℕ) (s : TaskStore)
    → s.next_event_id + length s.tasks < u64_mod
    → s.next_event_id + (clean_expired_leases now s).1 < u64_mod
clean_room now s room = omega (arith, clean-count now s)

reclaim-Looked :
    (h : Host) (n : ℕ) (s : TaskStore) (file : File h)
    → h.load_fault ≡ no_fault
    → load_unlocked h.codec file ≡ ok s
    → IsWellFormed s
    → s.next_event_id + length s.tasks < u64_mod
    → has_expired_leases h.now s ≡ true
    → (clean_expired_leases h.now s).1 ≡ n
    → Looked h s file
        (reclaim h.codec h.load_fault h.now ((clean_expired_leases h.now s).0, n) file)
unfolding write_store get_task
reclaim-Looked h zero s file whole loaded v room expired none_left =
    let same = clean-zero h.now s none_left in
    record {
      store = (clean_expired_leases h.now s).0;
      answered = refl;
      loaded = rw same loaded;
      current = clean_expired_leases-Reclaims h.now s v (clean_room h.now s room);
      untouched = λ fresh. refl;
    }
reclaim-Looked h (suc n) s file whole loaded v room expired left = rw whole (record {
  store = stamped h.codec h.now (clean_expired_leases h.now s).0;
  answered = refl;
  loaded = load-stamped h.codec h.now (clean_expired_leases h.now s).0;
  current =
      Reclaims-stamped h.codec h.now s _
        (clean_expired_leases-Reclaims h.now s v (clean_room h.now s room));
  untouched = λ fresh. absurd (cc (expired, fresh));
})

pub load_current-Looked :
    (h : Host) (s : TaskStore) (file : File h)
    → h.load_fault ≡ no_fault
    → load_unlocked h.codec file ≡ ok s
    → IsWellFormed s
    → s.next_event_id + length s.tasks < u64_mod
    → Looked h s file (load_current h.codec h.load_fault h.now file)
unfolding load_current
load_current-Looked h s file whole loaded v room = elim (Bool-cases (has_expired_leases h.now s)) [
  | inl e ↦ rw (loaded, e, load_current) (reclaim-Looked h _ s file whole loaded v room e refl)
  | inr e ↦
      rw (loaded, e, load_current)
        (record {
          store = s;
          answered = refl;
          loaded = loaded;
          current = fresh-Reclaims h.now s e;
          untouched = λ fresh. refl;
        })
]

-- A view is answered from the store that the file then reads as, in which no lease has expired; the
-- file is untouched where none had.
pub record Shows (h : Host) (s : TaskStore) (q : ViewRequest) (file : File h) (o : Handled h)
    : Type 0 where
  pub store : TaskStore
  pub loaded : load_unlocked h.codec o.0 ≡ ok store
  pub current : Reclaims h.now s store
  pub answered : o.1 ≡ shown h (view_of h.to_lower h.live q store)
  pub untouched : has_expired_leases h.now s ≡ false → o.0 ≡ file

looked_at-Shows :
    (h : Host) (s : TaskStore) (q : ViewRequest) (file : File h) (o : File h × Result TaskStore)
    → Looked h s file o
    → Shows h s q file (looked_at h (view_of h.to_lower h.live q) o)
looked_at-Shows h s q file (f, ok x) look =
    let same : look.store ≡ x = cc (sym look.answered) in
    record {
      store = x;
      loaded = rw (← same) look.loaded;
      current = rw (← same) look.current;
      answered = refl;
      untouched = look.untouched;
    }
looked_at-Shows h s q file (f, err e) look = absurd (cc (look.answered))

-- Each of the requests that read, once its checks are passed, on a file that reads as a well-formed
-- store whose event counter has room for a reclaim of all its tasks, and with no fault of a write,
-- answers from the store that the file reads as behind it. This is the old one with exactly the
-- expired leases reclaimed: the other tasks, the receipts and the counter of IDs are as they were, and
-- behind the old events there is one event for each expired lease, with the task and its owner. The
-- file is untouched if no lease had expired.
pub handle_view-Shows :
    (h : Host) (initialized : Bool) (q : ViewRequest) (s : TaskStore) (file : File h)
    → load_unlocked h.codec file ≡ ok s
    → IsWellFormed s
    → s.next_event_id + length s.tasks < u64_mod
    → h.load_fault ≡ no_fault
    → view_checks initialized q ≡ passed tt
    → Shows h s q file (handle_view h initialized q file)
unfolding handle_view
handle_view-Shows h i q s file loaded v room whole fine =
    rw (fine, handle_view)
      (looked_at-Shows h s q file (load_current h.codec h.load_fault h.now file)
        (load_current-Looked h s file whole loaded v room))
