-- ===== src/EventPage/Gap.antt =====
-- internal/cli/event_protocol.go: the retention gap of a page.
use terminal_todo.Base.{
  Eq-nat, ℕ, suc, ◌+◌, ◌-◌, ◌≤◌, ◌<◌, ◌≡◌, refl, List, [], ◌∷◌, Option, none, some, ltb, leb,
  lt→ltb, select, arith, All, Bool-cases, inl, inr, ◌⊎◌,
}
use terminal_todo.Base.Decimal.{u64_mod}
use terminal_todo.Store.{Event, TaskStore}
use terminal_todo.Store.Invariant.{EventsRise, IsWellFormed}
use terminal_todo.Store.History.{is_after}
use terminal_todo.EventPage.{EventRetentionGap, build_event_page, page_of, gap_at}
use terminal_todo.EventPage.Follow.{sort_events-id, search_after-select}

-- The ID is that of an event in the list.
abbrev pub IsRetained : ℕ → List Event → Type 0
IsRetained id [] = ⊥
IsRetained id (e ∷ es) = (e.id ≡ id) ⊎ IsRetained id es

abbrev pub Outside : EventRetentionGap → Event → Type 0
Outside g e = (e.id < g.from) ⊎ (g.through < e.id)

-- What a cursor behind `after` says about a history: without a gap, the next ID is retained, or was
-- not given out yet; a gap is a range of IDs that were given out, from the next one on, none of
-- which is retained, and the ID behind it is retained or was not given out yet.
abbrev pub GapSays : ℕ → ℕ → List Event → Option EventRetentionGap → Type 0
GapSays after next_event_id es none = IsRetained (after + 1) es ⊎ (next_event_id ≤ after + 1)
GapSays after next_event_id es (some g) =
    (g.from ≡ after + 1)
    × (g.from ≤ g.through)
    × (g.through < next_event_id)
    × All (Outside g) es
    × (IsRetained (g.through + 1) es ⊎ (next_event_id ≡ g.through + 1))

says-cons :
    (after high : ℕ) (e : Event) (es : List Event) (o : Option EventRetentionGap)
    → e.id ≤ after
    → GapSays after high es o
    → GapSays after high (e ∷ es) o
says-cons after high e es none h (inl r) = inl (inr r)
says-cons after high e es none h (inr l) = inr l
says-cons after high e es (some g) h (f, le, t, out, inl r) =
    (f, le, t, (inl (omega arith), out), inl (inr r))
says-cons after high e es (some g) h (f, le, t, out, inr l) =
    (f, le, t, (inl (omega arith), out), inr l)

rises-bound : (low : ℕ) (es : List Event) (high : ℕ) → EventsRise low es high → low ≤ high
rises-bound low [] high r = r
rises-bound low (e ∷ es) high r = omega (arith, rises-bound (suc e.id) es high r.1)

Outside-high :
    (g : EventRetentionGap) (low : ℕ) (es : List Event) (high : ℕ)
    → g.through < low
    → EventsRise low es high
    → All (Outside g) es
Outside-high g low [] high h r = tt
Outside-high g low (e ∷ es) high h r =
    (inr (omega arith), Outside-high g (suc e.id) es high (omega arith) r.1)

gap-says :
    (after low : ℕ) (es : List Event) (high : ℕ)
    → EventsRise low es high
    → 0 < high
    → GapSays after high es (gap_at (after + 1) (high - 1) (select (is_after after) es))
gap-says after low [] high r p = elim (Bool-cases (leb (after + 1) (high - 1))) [
  | inl given ↦ rw given (refl, ground arith, omega arith, tt, inr (omega arith))
  | inr fresh ↦ rw fresh (inr (ground arith))
]
gap-says after low (e ∷ es) high r p = elim (Bool-cases (ltb after e.id)) [
  | inr early ↦
      rw early
        (says-cons after high e es _ (ground arith) (gap-says after (suc e.id) es high r.1 p))
  | inl later ↦ rw later (elim (Bool-cases (ltb (after + 1) e.id)) [
    | inl missing ↦ rw missing (
      refl,
      ground arith,
      omega (arith, rises-bound (suc e.id) es high r.1),
      (
        inr (ground arith),
        Outside-high (record { from = after + 1; through = e.id - 1 }) (suc e.id) es high
            (omega arith) r.1,
      ),
      inl (inl (ground arith)),
    )
    | inr here ↦ rw here (inl (inl (ground arith)))
  ])
]

-- For a well-formed store and a cursor below the largest `uint64`, the gap of a page is exactly the
-- range of the next IDs that were given out and are no longer retained, up to the first retained one
-- or the end; it is reported if and only if the next ID is one of them.
pub build_event_page-GapSays :
    (s : TaskStore) (after limit : ℕ)
    → IsWellFormed s
    → 0 < s.next_event_id
    → after < u64_mod - 1
    → let c = (build_event_page s after limit).cursor in
      GapSays after s.next_event_id s.events c.retention_gap
unfolding build_event_page page_of
build_event_page-GapSays s after limit v p h =
    rw
      (
        sort_events-id 1 s.events s.next_event_id v.events_rise,
        search_after-select after 1 s.events s.next_event_id v.events_rise,
        lt→ltb after (u64_mod - 1) h,
        lt→ltb 0 s.next_event_id p,
      )
      (gap-says after 1 s.events s.next_event_id v.events_rise p)
