-- ===== src/Allocation/Order.antt =====
-- internal/cli/allocation.go: the order of `rankedReadyTasks`.
use mathlib.Core.List.Perm
use mathlib.Core.List.{Perm}
use terminal_todo.Base.{
  ◌⊎◌, ◌<◌, ◌≤◌, Eq-nat, ℕ, ◌≡◌, refl, sym, ap, ◌∙◌, Bool, true, false, ◌&&◌, List, [], ◌∷◌, arith,
  Bytes, nat_eq, ltb, if◌then◌else◌, Bool-cases, inl, inr, All, select,
}
use terminal_todo.Base.Dict.{values}
use terminal_todo.Store.{Task, TaskStore}
use terminal_todo.Lifecycle.Update.{float_key, is_nan}
use terminal_todo.Dag.Ready.{Resolver, is_ready, get_ready_tasks, ready_among-select}
use terminal_todo.Allocation.Rank.{
  ranks_before, insert_ranked, sort_ranked, matches_capabilities, filter_capable,
  ranked_ready_tasks,
}

-- The same test on the keys of priorities that are numbers.
key_before : ℕ → ℕ → ℕ → ℕ → Bool
key_before p i q j = if nat_eq p q then ltb i j else ltb q p

ranks_before-key :
    (t u : Task)
    → is_nan t.priority ≡ false
    → is_nan u.priority ≡ false
    → ranks_before t u ≡ key_before (float_key t.priority) t.id (float_key u.priority) u.id
unfolding key_before
ranks_before-key t u a b = rw (a, b) refl

key_before-asym : (p i q j : ℕ) → key_before p i q j ≡ true → key_before q j p i ≡ false
unfolding key_before
key_before-asym p i q j h = ground arith

key_before-neg_trans :
    (p i q j r k : ℕ)
    → key_before p i q j ≡ false
    → key_before q j r k ≡ false
    → key_before p i r k ≡ false
unfolding key_before
key_before-neg_trans p i q j r k g h = ground arith

abbrev pub AllNumbers : List Task → Type 0
AllNumbers = All (λ t. is_nan t.priority ≡ false)

-- No task of the list ranks before one that stands in front of it.
abbrev IsRanked : List Task → Type 0
IsRanked [] = Unit {0}
IsRanked (t ∷ ts) = All (λ u. ranks_before u t ≡ false) ts × IsRanked ts

-- A higher priority, or the same one and an ID that is not higher. The key orders the numbers.
abbrev pub StandsBefore : Task → Task → Type 0
StandsBefore t u =
    (float_key u.priority < float_key t.priority)
    ⊎ ((float_key t.priority ≡ float_key u.priority) × (t.id ≤ u.id))

-- By falling priority, and then by rising ID.
abbrev pub InOrder : List Task → Type 0
InOrder [] = Unit {0}
InOrder (t ∷ ts) = All (StandsBefore t) ts × InOrder ts

key_before-order : (p i q j : ℕ) → key_before q j p i ≡ false → (q < p) ⊎ ((p ≡ q) × (i ≤ j))
unfolding key_before
key_before-order p i q j h = ground arith

IsRanked-StandsBefore :
    (t : Task) (us : List Task)
    → is_nan t.priority ≡ false
    → AllNumbers us
    → All (λ u. ranks_before u t ≡ false) us
    → All (StandsBefore t) us
IsRanked-StandsBefore t [] nt n k = tt
IsRanked-StandsBefore t (u ∷ us) nt n k = (
  key_before-order (float_key t.priority) t.id (float_key u.priority) u.id
      (sym (ranks_before-key u t n.0 nt) ∙ k.0),
  IsRanked-StandsBefore t us nt n.1 k.1,
)

IsRanked-InOrder : (ts : List Task) → AllNumbers ts → IsRanked ts → InOrder ts
IsRanked-InOrder [] n k = tt
IsRanked-InOrder (t ∷ ts) n k =
    (IsRanked-StandsBefore t ts n.0 n.1 k.0, IsRanked-InOrder ts n.1 k.1)

module _ (t : Task) (nt : is_nan t.priority ≡ false) where
  All-insert_ranked :
      (P : Task → Type 0) (us : List Task) → P t → All P us → All P (insert_ranked t us)
  unfolding insert_ranked
  All-insert_ranked P [] h k = (h, tt)
  All-insert_ranked P (u ∷ us) h k = elim (Bool-cases (ranks_before u t)) [
    | inl p ↦ rw p (k.0, All-insert_ranked P us h k.1)
    | inr p ↦ rw p (h, k)
  ]

  behind :
      (u : Task) (us : List Task)
      → is_nan u.priority ≡ false
      → ranks_before u t ≡ false
      → AllNumbers us
      → All (λ y. ranks_before y u ≡ false) us
      → All (λ y. ranks_before y t ≡ false) us
  behind u [] nu h n k = tt
  behind u (y ∷ us) nu h n k = (
    ranks_before-key y t n.0 nt
        ∙ key_before-neg_trans (float_key y.priority) y.id (float_key u.priority) u.id _ _
            (sym (ranks_before-key y u n.0 nu) ∙ k.0) (sym (ranks_before-key u t nu nt) ∙ h),
    behind u us nu h n.1 k.1,
  )

  insert_ranked-IsRanked :
      (us : List Task) → AllNumbers us → IsRanked us → IsRanked (insert_ranked t us)
  unfolding insert_ranked
  insert_ranked-IsRanked [] n k = (tt, tt)
  insert_ranked-IsRanked (u ∷ us) n k = elim (Bool-cases (ranks_before u t)) [
    | inl p ↦ rw p (
      All-insert_ranked (λ y. ranks_before y u ≡ false) us
          (ranks_before-key t u nt n.0
            ∙ key_before-asym (float_key u.priority) u.id _ _
                (sym (ranks_before-key u t n.0 nt) ∙ p))
          k.0,
      insert_ranked-IsRanked us n.1 k.1,
    )
    | inr p ↦ rw p ((p, behind u us n.0 p n.1 k.0), k)
  ]

sort_ranked-AllNumbers : (ts : List Task) → AllNumbers ts → AllNumbers (sort_ranked ts)
unfolding sort_ranked
sort_ranked-AllNumbers [] n = tt
sort_ranked-AllNumbers (t ∷ ts) n =
    All-insert_ranked t n.0 (λ u. is_nan u.priority ≡ false) (sort_ranked ts) n.0
      (sort_ranked-AllNumbers ts n.1)

sort_ranked-IsRanked : (ts : List Task) → AllNumbers ts → IsRanked (sort_ranked ts)
unfolding sort_ranked
sort_ranked-IsRanked [] n = tt
sort_ranked-IsRanked (t ∷ ts) n =
    insert_ranked-IsRanked t n.0 (sort_ranked ts) (sort_ranked-AllNumbers ts n.1)
      (sort_ranked-IsRanked ts n.1)

insert_ranked-perm : (t : Task) (us : List Task) → Perm (insert_ranked t us) (t ∷ us)
unfolding insert_ranked
insert_ranked-perm t [] = Perm.refl (t ∷ [])
insert_ranked-perm t (u ∷ us) = elim (Bool-cases (ranks_before u t)) [
  | inl p ↦ rw p (Perm.trans (Perm.cons u (insert_ranked-perm t us)) (Perm.swap t u us))
  | inr p ↦ rw p (Perm.refl (t ∷ u ∷ us))
]

sort_ranked-perm : (ts : List Task) → Perm (sort_ranked ts) ts
unfolding sort_ranked
sort_ranked-perm [] = Perm.refl []
sort_ranked-perm (t ∷ ts) =
    Perm.trans (insert_ranked-perm t (sort_ranked ts)) (Perm.cons t (sort_ranked-perm ts))

-- The tasks that a worker with these capabilities may get.
abbrev pub is_eligible : TaskStore → Resolver → List Bytes → Task → Bool
is_eligible s r capabilities t =
    is_ready s.tasks r t && matches_capabilities t.capabilities capabilities

filter_capable-select :
    (s : TaskStore) (r : Resolver) (capabilities : List Bytes) (ts : List Task)
    → filter_capable capabilities (select (is_ready s.tasks r) ts)
      ≡ select (is_eligible s r capabilities) ts
unfolding filter_capable
filter_capable-select s r capabilities [] = refl
filter_capable-select s r capabilities (t ∷ ts) = elim (Bool-cases (is_ready s.tasks r t)) [
  | inl p ↦ rw p (ground (arith, filter_capable-select s r capabilities ts))
  | inr p ↦ rw p (filter_capable-select s r capabilities ts)
]

All-select : (P : Task → Type 0) (p : Task → Bool) (ts : List Task) → All P ts → All P (select p ts)
All-select P p [] h = tt
All-select P p (t ∷ ts) h = elim (Bool-cases (p t)) [
  | inl q ↦ rw q (h.0, All-select P p ts h.1)
  | inr q ↦ rw q (All-select P p ts h.1)
]

ranked-eligible :
    (s : TaskStore) (r : Resolver) (capabilities : List Bytes)
    → ranked_ready_tasks s r capabilities true
      ≡ sort_ranked (select (is_eligible s r capabilities) (values s.tasks))
unfolding ranked_ready_tasks get_ready_tasks
ranked-eligible s r capabilities = ap sort_ranked (
    ap (filter_capable capabilities) (ready_among-select s.tasks r (values s.tasks))
    ∙ filter_capable-select s r capabilities (values s.tasks))

-- The queue of a worker holds the pending tasks whose dependencies are met and whose capabilities it
-- has, each once for each entry, by falling priority and then by rising ID, if no priority is a NaN.
pub ranked_ready_tasks-InOrder :
    (s : TaskStore) (r : Resolver) (capabilities : List Bytes)
    → AllNumbers (values s.tasks)
    → InOrder (ranked_ready_tasks s r capabilities true)
      × Perm
          (ranked_ready_tasks s r capabilities true)
          (select (is_eligible s r capabilities) (values s.tasks))
ranked_ready_tasks-InOrder s r capabilities n =
    let eligible = select (is_eligible s r capabilities) (values s.tasks) in
    let numbers : AllNumbers eligible =
      All-select (λ t. is_nan t.priority ≡ false) (is_eligible s r capabilities) (values s.tasks)
        n in
    rw (ranked-eligible s r capabilities) (
      IsRanked-InOrder (sort_ranked eligible) (sort_ranked-AllNumbers eligible numbers)
          (sort_ranked-IsRanked eligible numbers),
      sort_ranked-perm eligible,
    )
