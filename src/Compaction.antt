-- ===== src/Compaction.antt =====
-- internal/cli/cmd_compact.go: `compactTaskStore`; internal/cli/mutation_receipt.go:
-- `newMutationAffected` and `uniqueTaskIDs`.
pub mod Kept
pub mod Affected
use terminal_todo.Base.{
  Eq-nat, ℕ, zero, suc, ◌+◌, ◌-◌, ◌*◌, ◌/◌, ◌%◌, ◌≤◌, ◌<◌, ◌≡◌, refl, Bool, true, false, not, ◌&&◌,
  ◌||◌, List, [], ◌∷◌, ◌++◌, Option, none, some, arith, Bytes, nat_eq, ltb, leb, if◌then◌else◌,
  length, drop, take, has,
}
use terminal_todo.Base.Decimal.{u64_mod}
use terminal_todo.Base.Dict.{Dict, lookup}
use terminal_todo.Store.{
  Task, TaskStatus, completed, status_eq, TaskStore, Event, AcquisitionReceipt,
}
use terminal_todo.Store.Ops.{sort_ids}

-- `ReceiptsBefore` is in whole milliseconds, with 0 for the unset option.
pub record CompactOptions : Type 0 where
  pub keep_events : Option ℕ
  pub receipts_before : ℕ
  pub dry_run : Bool

pub record CompactResult : Type 0 where
  pub events_removed : ℕ
  pub receipts_removed : ℕ
  pub dry_run : Bool

-- How many events in front are dropped.
abbrev pub excess : Option ℕ → List Event → ℕ
excess none events = 0
excess (some keep) events = if ltb keep (length events) then length events - keep else 0

-- Whether a receipt is kept: a young one, and one whose task is still open.
unfoldable pub keeps_receipt : ℕ → Dict ℕ Task → AcquisitionReceipt → Bool
keeps_receipt cutoff tasks r =
    if leb cutoff r.created then true else elim (lookup r.task.id tasks) [
      | none ↦ false
      | some t ↦ not (status_eq t.status completed)
    ]

unfoldable pub kept_receipts :
    ℕ → Dict ℕ Task → Dict Bytes AcquisitionReceipt → Dict Bytes AcquisitionReceipt
unfolding keeps_receipt
kept_receipts cutoff tasks [] = []
kept_receipts cutoff tasks ((k, r) ∷ rs) =
    let kept = kept_receipts cutoff tasks rs in
    if keeps_receipt cutoff tasks r then (k, r) ∷ kept else kept

unfoldable pub removed_receipts : ℕ → Dict ℕ Task → Dict Bytes AcquisitionReceipt → ℕ
unfolding keeps_receipt
removed_receipts cutoff tasks [] = 0
removed_receipts cutoff tasks ((k, r) ∷ rs) =
    let removed = removed_receipts cutoff tasks rs in
    if keeps_receipt cutoff tasks r then removed else suc removed

unfoldable pub compact_events : CompactOptions → Bool → TaskStore → TaskStore
compact_events o apply s =
    if apply then record s { events = drop (excess o.keep_events s.events) s.events } else s

-- `uint64(now.Add(-options.ReceiptsBefore).UnixMilli())`, which wraps before the epoch.
abbrev pub cutoff_at : ℕ → CompactOptions → ℕ
cutoff_at now o = (now + u64_mod - o.receipts_before) % u64_mod

unfoldable pub compact_receipts : CompactOptions → Bool → ℕ → TaskStore → TaskStore
unfolding kept_receipts
compact_receipts o apply now s =
    if ltb 0 o.receipts_before && apply
    then record s { acquisitions = kept_receipts (cutoff_at now o) s.tasks s.acquisitions }
    else s

unfoldable pub compact_task_store :
    CompactOptions → Bool → ℕ → TaskStore → TaskStore × CompactResult
unfolding compact_events compact_receipts removed_receipts
compact_task_store o apply now s = (
  compact_receipts o apply now (compact_events o apply s),
  record {
    events_removed = excess o.keep_events s.events;
    receipts_removed =
        if ltb 0 o.receipts_before
        then removed_receipts (cutoff_at now o) s.tasks s.acquisitions
        else 0;
    dry_run = o.dry_run;
  },
)

abbrev pub max_mutation_receipt_ids : ℕ
max_mutation_receipt_ids = 20

pub record MutationAffected : Type 0 where
  pub total : ℕ
  pub ids : List ℕ
  pub truncated : Bool

-- A Go set from a list.
unfoldable pub unique_from : List ℕ → List ℕ → List ℕ
unique_from seen [] = []
unique_from seen (id ∷ ids) =
    let rest = unique_from (if has id seen then seen else id ∷ seen) ids in
    if has id seen then rest else id ∷ rest

unfoldable pub unique_task_ids : List ℕ → List ℕ
unfolding unique_from
unique_task_ids = unique_from []

unfoldable pub new_mutation_affected : List ℕ → MutationAffected
unfolding unique_task_ids sort_ids
new_mutation_affected ids =
    let sorted = sort_ids (unique_task_ids ids) in
    let bounded = take max_mutation_receipt_ids sorted in
    record {
      total = length sorted;
      ids = bounded;
      truncated = ltb (length bounded) (length sorted);
    }
