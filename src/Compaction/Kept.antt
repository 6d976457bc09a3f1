-- ===== src/Compaction/Kept.antt =====
-- internal/cli/cmd_compact.go: what is left after `compactTaskStore`.
use terminal_todo.Base.{
  refl, Bool-cases, inl, inr, ◌⊎◌, ◌<◌, ltb→lt, Eq-nat, Eq-bytes, ℕ, zero, suc, ◌+◌, ◌-◌, ◌≤◌, ◌≡◌,
  Bool, true, false, ◌&&◌, List, [], ◌∷◌, Option, none, some, arith, Bytes, ltb, if◌then◌else◌,
  length, drop, length-drop,
}
use terminal_todo.Base.Dict.{Dict, lookup}
use terminal_todo.Store.{Task, completed, status_eq, TaskStore, Event, AcquisitionReceipt}
use terminal_todo.Store.Invariant.{EventsRise, IsWellFormed}
use terminal_todo.Compaction.{
  CompactOptions, CompactResult, excess, keeps_receipt, kept_receipts, removed_receipts,
  compact_events, compact_receipts, cutoff_at, compact_task_store,
}

module _ (cutoff : ℕ) (tasks : Dict ℕ Task) where
  length-kept :
      (rs : Dict Bytes AcquisitionReceipt)
      → length (kept_receipts cutoff tasks rs) + removed_receipts cutoff tasks rs ≡ length rs
  unfolding kept_receipts removed_receipts
  length-kept [] = omega arith
  length-kept ((k, r) ∷ rs) = ground (arith, length-kept rs)

  lookup-kept :
      (request : Bytes) (r : AcquisitionReceipt) (rs : Dict Bytes AcquisitionReceipt)
      → lookup request rs ≡ some r
      → keeps_receipt cutoff tasks r ≡ true
      → lookup request (kept_receipts cutoff tasks rs) ≡ some r
  unfolding kept_receipts lookup
  lookup-kept request r [] e k = absurd (cc)
  lookup-kept request r ((j, x) ∷ rs) e k = ground (arith, lookup-kept request r rs)

  keeps-open :
      (r : AcquisitionReceipt) (t : Task)
      → lookup r.task.id tasks ≡ some t
      → status_eq t.status completed ≡ false
      → keeps_receipt cutoff tasks r ≡ true
  unfolding keeps_receipt
  keeps-open r t e o = rw e (ground arith)

rises-weaken :
    (low low' : ℕ) (es : List Event) (high : ℕ)
    → low' ≤ low
    → EventsRise low es high
    → EventsRise low' es high
rises-weaken low low' [] high h r = omega arith
rises-weaken low low' (e ∷ es) high h r = (omega arith, r.1)

rises-drop :
    (n low : ℕ) (es : List Event) (high : ℕ)
    → EventsRise low es high
    → EventsRise low (drop n es) high
rises-drop zero low es high r = r
rises-drop (suc n) low [] high r = r
rises-drop (suc n) low (e ∷ es) high r =
    rises-weaken (suc e.id) low (drop n es) high (omega arith) (rises-drop n (suc e.id) es high r.1)

excess-le : (keep : Option ℕ) (es : List Event) → excess keep es ≤ length es
excess-le none es = omega arith
excess-le (some keep) es = ground arith

-- The history is whole without a limit, and where it is not longer than the limit; a longer one is
-- cut to exactly the limit.
abbrev pub IsCut : Option ℕ → List Event → List Event → Type 0
IsCut none es es' = es' ≡ es
IsCut (some keep) es es' =
    ((length es ≤ keep) × (es' ≡ es)) ⊎ ((keep < length es) × (length es' ≡ keep))

excess-IsCut : (keep : Option ℕ) (es : List Event) → IsCut keep es (drop (excess keep es) es)
excess-IsCut none es = refl
excess-IsCut (some keep) es = elim (Bool-cases (ltb keep (length es))) [
  | inl long ↦
      let l = length-drop (length es - keep) es in
      rw long (inr (ltb→lt keep (length es) long, omega (arith, ltb→lt keep (length es) long)))
  | inr short ↦ rw short (inl (ground arith, refl))
]

-- What a compaction of `s` left in `s'`, with what it reports.
pub record Compacts (o : CompactOptions) (s s' : TaskStore) (d : CompactResult) : Type 0 where
  pub well_formed : IsWellFormed s'
  pub same_tasks : s'.tasks ≡ s.tasks
  pub same_counters : (s'.next_id ≡ s.next_id) × (s'.next_event_id ≡ s.next_event_id)
  pub events_counted : length s'.events + d.events_removed ≡ length s.events
  pub events_newest : s'.events ≡ drop d.events_removed s.events
  pub events_cut : IsCut o.keep_events s.events s'.events
  pub receipts_counted : length s'.acquisitions + d.receipts_removed ≡ length s.acquisitions

-- A compaction that is applied to a well-formed store keeps it well formed, with its tasks and
-- counters; it drops the oldest events only, as many as it reports, and exactly those beyond the number
-- to keep, none where that is not set; it drops as many receipts as it reports. A preview changes
-- nothing and reports the same.
pub compact_task_store-Compacts :
    (o : CompactOptions) (now : ℕ) (s : TaskStore)
    → IsWellFormed s
    → let (s', d) = compact_task_store o true now s in
      Compacts o s s' d × (compact_task_store o false now s ≡ (s, d))
unfolding compact_task_store compact_events compact_receipts
compact_task_store-Compacts o now s v =
    let n = excess o.keep_events s.events in
    let l = length-drop n s.events in
    (
      record {
        well_formed = with_receipts (ltb 0 o.receipts_before) _ _ (record {
          unique = v.unique;
          entries = v.entries;
          events_rise = rises-drop n 1 s.events s.next_event_id v.events_rise;
        });
        same_tasks = ground arith;
        same_counters = ground arith;
        events_counted = ground (arith, l, excess-le o.keep_events s.events);
        events_newest = ground arith;
        events_cut = cut (ltb 0 o.receipts_before) o.keep_events s _;
        receipts_counted = ground (arith, length-kept (cutoff_at now o) s.tasks s.acquisitions);
      },
      ground arith,
    )
  where
    with_receipts :
        (b : Bool) (s : TaskStore) (rs : Dict Bytes AcquisitionReceipt)
        → IsWellFormed s
        → IsWellFormed (if b && true then record s { acquisitions = rs } else s)
    with_receipts true s rs v = record {
      unique = v.unique;
      entries = v.entries;
      events_rise = v.events_rise;
    }
    with_receipts false s rs v = v

    cut :
        (b : Bool) (keep : Option ℕ) (s : TaskStore) (rs : Dict Bytes AcquisitionReceipt)
        → IsCut keep s.events
            (if b && true
              then record s { events = drop (excess keep s.events) s.events; acquisitions = rs }
              else record s { events = drop (excess keep s.events) s.events }).events
    cut true keep s rs = excess-IsCut keep s.events
    cut false keep s rs = excess-IsCut keep s.events

-- A compaction never drops the receipt of a task that is still open, so that the acquire request
-- can be repeated.
pub compact_task_store-keeps_open :
    (o : CompactOptions) (now : ℕ) (s : TaskStore) (request : Bytes) (r : AcquisitionReceipt)
    (t : Task)
    → lookup request s.acquisitions ≡ some r
    → lookup r.task.id s.tasks ≡ some t
    → status_eq t.status completed ≡ false
    → lookup request (compact_task_store o true now s).0.acquisitions ≡ some r
unfolding compact_task_store compact_events compact_receipts
compact_task_store-keeps_open o now s request r t e f active = ground (
  arith,
  lookup-kept (cutoff_at now o) s.tasks request r s.acquisitions e
      (keeps-open (cutoff_at now o) s.tasks r t f active),
)
