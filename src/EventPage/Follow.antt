-- ===== src/EventPage/Follow.antt =====
-- internal/cli/event_protocol.go: a client that follows the cursor of the pages.
use terminal_todo.Base.{
  Eq-nat, ℕ, zero, suc, ◌≤◌, ◌<◌, ◌≡◌, refl, sym, ap, ◌∙◌, List, [], ◌∷◌, ◌++◌, Option, none, some,
  ltb, if◌then◌else◌, length, take, drop, length-drop, map, select, arith, Bool-cases, inl, inr,
}
use terminal_todo.Store.{Event, TaskStore}
use terminal_todo.Store.Invariant.{EventsRise, IsWellFormed}
use terminal_todo.Store.History.{is_after, rises-select}
use terminal_todo.Protocol.{ProtocolEvent, new_protocol_event}
use terminal_todo.EventPage.{
  EventsEnvelope, insert_event, sort_events, search_after, last_id, page_of, build_event_page,
}

insert_event-first :
    (e : Event) (es : List Event) (high : ℕ)
    → EventsRise (suc e.id) es high
    → insert_event e es ≡ e ∷ es
unfolding insert_event
insert_event-first e [] high r = refl
insert_event-first e (f ∷ fs) high r = ground arith

pub sort_events-id :
    (low : ℕ) (es : List Event) (high : ℕ) → EventsRise low es high → sort_events es ≡ es
unfolding sort_events
sort_events-id low [] high r = refl
sort_events-id low (e ∷ es) high r =
    rw (sort_events-id (suc e.id) es high r.1) (insert_event-first e es high r.1)

pub search_after-select :
    (after low : ℕ) (es : List Event) (high : ℕ)
    → EventsRise low es high
    → drop (search_after after es) es ≡ select (is_after after) es
unfolding search_after
search_after-select after low [] high r = refl
search_after-select after low (e ∷ es) high r =
    ground (
      arith,
      search_after-select after (suc e.id) es high r.1,
      rises-select after (suc e.id) es high,
    )

search_after-le : (after : ℕ) (es : List Event) → search_after after es ≤ length es
unfolding search_after
search_after-le after [] = omega arith
search_after-le after (e ∷ es) = ground (arith, search_after-le after es)

last_id-le :
    (n after low : ℕ) (es : List Event) (high : ℕ)
    → EventsRise low es high
    → after ≤ last_id after (take n (select (is_after after) es))
last_id-le zero after low es high r = omega arith
last_id-le (suc n) after low [] high r = omega arith
last_id-le (suc n) after low (e ∷ es) high r = elim (Bool-cases (ltb after e.id)) [
  | inl later ↦ ground (
    arith,
    rises-select after (suc e.id) es high,
    rises-select e.id (suc e.id) es high,
    last_id-le n e.id (suc e.id) es high r.1,
  )
  | inr early ↦ rw early (last_id-le (suc n) after (suc e.id) es high r.1)
]

skip :
    (l : ℕ) (e : Event) (es : List Event)
    → e.id ≤ l
    → select (is_after l) (e ∷ es) ≡ select (is_after l) es
skip l e es h = ground arith

-- Behind the last event of a page stand the events that the page left out.
select-last_id :
    (n after low : ℕ) (es : List Event) (high : ℕ)
    → EventsRise low es high
    → select (is_after (last_id after (take n (select (is_after after) es)))) es
      ≡ drop n (select (is_after after) es)
select-last_id zero after low es high r = refl
select-last_id (suc n) after low [] high r = refl
select-last_id (suc n) after low (e ∷ es) high r = elim (Bool-cases (ltb after e.id)) [
  | inl later ↦
      let tail = rises-select after (suc e.id) es high (ground arith) r.1 in
      let same = rises-select e.id (suc e.id) es high (omega arith) r.1 in
      let shown : select (is_after after) (e ∷ es) ≡ e ∷ es = rw (later, tail) refl in
      let ge = rw same at (last_id-le n e.id (suc e.id) es high r.1) in
      let ih = rw same at (select-last_id n e.id (suc e.id) es high r.1) in
      ap (λ l. select (is_after (last_id after (take (suc n) l))) (e ∷ es)) shown
      ∙ (skip (last_id e.id (take n es)) e es ge ∙ (ih ∙ sym (ap (drop (suc n)) shown)))
  | inr early ↦
      let hidden : select (is_after after) (e ∷ es) ≡ select (is_after after) es = rw early refl in
      let ge = last_id-le (suc n) after (suc e.id) es high r.1 in
      ap (λ l. select (is_after (last_id after (take (suc n) l))) (e ∷ es)) hidden
      ∙ (skip (last_id after (take (suc n) (select (is_after after) es))) e es (ground (arith, ge))
          ∙ (select-last_id (suc n) after (suc e.id) es high r.1 ∙ sym (ap (drop (suc n)) hidden)))
]

map-take-drop {ℓ κ} :
    {A : Type ℓ} {B : Type κ} (f : A → B) (n : ℕ) (xs : List A)
    → map f (take n xs) ++ map f (drop n xs) ≡ map f xs
map-take-drop f zero xs = refl
map-take-drop f (suc n) [] = refl
map-take-drop f (suc n) (x ∷ xs) = ap (◌∷◌ (f x)) (map-take-drop f n xs)

take-all {ℓ} : {A : Type ℓ} (n : ℕ) (xs : List A) → length xs ≤ n → take n xs ≡ xs
take-all zero [] h = refl
take-all zero (x ∷ xs) h = absurd (omega arith)
take-all (suc n) [] h = refl
take-all (suc n) (x ∷ xs) h = ap (◌∷◌ x) (take-all n xs (omega arith))

-- A client that asks for pages until there is no more, on a store that does not change: `none`
-- if it asks more often than the fuel says.
pub follow : ℕ → TaskStore → ℕ → ℕ → Option (List ProtocolEvent)
follow zero s limit after = none
follow (suc fuel) s limit after =
    let page = build_event_page s after limit in
    let rest = follow fuel s limit page.cursor.next_since in
    if page.cursor.has_more
    then elim rest [ none ↦ none | some more ↦ some (page.events ++ more) ]
    else some page.events

-- The parts of a page over a rising history.
record IsPage (s : TaskStore) (after limit : ℕ) (page : EventsEnvelope) : Type 0 where
  pub shown : page.events ≡ map new_protocol_event (take limit (select (is_after after) s.events))
  pub next : page.cursor.next_since ≡ last_id after (take limit (select (is_after after) s.events))
  pub more : page.cursor.has_more ≡ ltb limit (length (select (is_after after) s.events))

build_event_page-IsPage :
    (s : TaskStore) (after limit : ℕ)
    → IsWellFormed s
    → IsPage s after limit (build_event_page s after limit)
unfolding build_event_page page_of
build_event_page-IsPage s after limit v =
    let r = v.events_rise in
    let sorted = sort_events-id 1 s.events s.next_event_id r in
    let rest = search_after-select after 1 s.events s.next_event_id r in
    record {
      shown = rw (sorted, rest) refl;
      next = rw (sorted, rest) refl;
      more = rw sorted (
          ground (
            arith,
            ap length rest,
            search_after-le after s.events,
            length-drop (search_after after s.events) s.events,
          ));
    }

-- A client that starts at any cursor and follows the pages gets every event with a larger ID, once
-- and in order, and stops: after at most one request more than there are such events.
pub follow-select :
    (fuel : ℕ) (s : TaskStore) (limit after : ℕ)
    → IsWellFormed s
    → 0 < limit
    → length (select (is_after after) s.events) < fuel
    → follow fuel s limit after ≡ some (map new_protocol_event (select (is_after after) s.events))
unfolding follow
follow-select zero s limit after v p h = absurd (omega arith)
follow-select (suc fuel) s limit after v p h =
    let page = build_event_page-IsPage s after limit v in
    let rest = select (is_after after) s.events in
    let later = select-last_id limit after 1 s.events s.next_event_id v.events_rise in
    elim (Bool-cases (ltb limit (length rest))) [
      | inl more ↦
          let fewer = ap (λ (l : List Event). length l) later ∙ length-drop limit rest in
          let ih =
            follow-select fuel s limit (last_id after (take limit rest)) v p
              (ground (arith, fewer)) in
          rw (page.more, more, page.next, ih, page.shown, later)
            (ap some (map-take-drop new_protocol_event limit rest))
      | inr last ↦
          rw (page.more, last, page.shown)
            (ap (λ l. some (map new_protocol_event l)) (take-all limit rest (ground arith)))
    ]
