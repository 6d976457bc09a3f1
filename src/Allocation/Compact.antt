-- ===== src/Allocation/Compact.antt =====
-- internal/cli/allocation.go: `compactAllocationDiagnosticValue` and
-- `boundedAllocationDiagnosticValues`, with `strings.ToValidUTF8` and `utf8.RuneStart`.
use terminal_todo.Base.{
  ℕ, zero, suc, ◌-◌, ◌≤◌, ◌≡◌, refl, Bool, true, false, not, ◌&&◌, ◌||◌, List, [], ◌∷◌, ◌++◌, Bytes,
  ltb, leb, if◌then◌else◌, bytes_eq, length, take, drop, map, arith, length-append, leb→le, All, ap,
  ◌∙◌, Bool-cases, inl, inr, ◌⊎◌,
}
use terminal_todo.Base.Text.{codes, valid_utf8}
use terminal_todo.Lifecycle.Update.{sort_strings, insert_string}

abbrev pub max_allocation_diagnostic_items : ℕ
max_allocation_diagnostic_items = 20

abbrev pub max_allocation_diagnostic_value_bytes : ℕ
max_allocation_diagnostic_value_bytes = 96

-- The length of the rune in front, 0 where there is none.
rune_length : Bytes → ℕ
unfolding valid_utf8
rune_length [] = 0
rune_length (c ∷ s) =
    if valid_utf8 (take 1 (c ∷ s))
    then 1
    else if valid_utf8 (take 2 (c ∷ s))
    then 2
    else if valid_utf8 (take 3 (c ∷ s))
    then 3
    else if valid_utf8 (take 4 (c ∷ s))
    then 4
    else 0

-- On fuel, the length of the text. `run` says that the byte before was invalid too.
valid_from : ℕ → Bool → Bytes → Bytes
unfolding rune_length
valid_from zero run s = []
valid_from (suc fuel) run [] = []
valid_from (suc fuel) run (c ∷ s) = elim (rune_length (c ∷ s)) [
  | zero ↦ (if run then [] else 0xEF ∷ 0xBF ∷ 0xBD ∷ []) ++ valid_from fuel true s
  | suc k ↦ take (suc k) (c ∷ s) ++ valid_from fuel false (drop k s)
]

unfoldable pub to_valid_utf8 : Bytes → Bytes
unfolding valid_from
to_valid_utf8 s = valid_from (length s) false s

-- Whether no rune is cut in front of the byte at an index.
unfoldable pub starts_rune : ℕ → Bytes → Bool
starts_rune i [] = true
starts_rune zero (c ∷ s) = not (leb 0x80 c && leb c 0xBF)
starts_rune (suc i) (c ∷ s) = starts_rune i s

-- `for end > 0 && !utf8.RuneStart(value[end]) { end-- }`
unfoldable pub back_up : ℕ → Bytes → ℕ
unfolding starts_rune
back_up zero s = zero
back_up (suc end) s = elim (starts_rune (suc end) s) [ true ↦ suc end | false ↦ back_up end s ]

unfoldable pub compact_allocation_diagnostic_value : Bytes → Bytes
unfolding to_valid_utf8 back_up
compact_allocation_diagnostic_value v =
    let value = to_valid_utf8 v in
    if leb (length value) max_allocation_diagnostic_value_bytes
    then value
    else take (back_up (max_allocation_diagnostic_value_bytes - 3) value) value ++ codes "..."

-- The values, how many there were, and whether any is missing or shortened.
pub record BoundedValues : Type 0 where
  pub items : List Bytes
  pub total : ℕ
  pub truncated : Bool

abbrev any_changed : List Bytes → Bool
any_changed [] = false
any_changed (v ∷ vs) = not (bytes_eq (compact_allocation_diagnostic_value v) v) || any_changed vs

unfoldable pub bounded_allocation_diagnostic_values : List Bytes → BoundedValues
unfolding sort_strings compact_allocation_diagnostic_value
bounded_allocation_diagnostic_values values =
    let sorted = sort_strings values in
    let kept = take max_allocation_diagnostic_items sorted in
    record {
      items = map compact_allocation_diagnostic_value kept;
      total = length sorted;
      truncated = ltb max_allocation_diagnostic_items (length sorted) || any_changed kept;
    }

back_up-le : (n : ℕ) (s : Bytes) → back_up n s ≤ n
unfolding back_up
back_up-le zero s = omega arith
back_up-le (suc n) s = ground (arith, back_up-le n s)

length-take-le {ℓ} : {A : Type ℓ} (n : ℕ) (xs : List A) → length (take n xs) ≤ n
length-take-le zero xs = omega arith
length-take-le (suc n) [] = omega arith
length-take-le (suc n) (x ∷ xs) = omega (arith, length-take-le n xs)

compact_case :
    (value : Bytes) (b : Bool)
    → leb (length value) max_allocation_diagnostic_value_bytes ≡ b
    → length (
        if b
        then value
        else take (back_up (max_allocation_diagnostic_value_bytes - 3) value) value ++ codes "...")
      ≤ max_allocation_diagnostic_value_bytes
compact_case value true h = leb→le (length value) 96 h
compact_case value false h = omega (
  arith,
  length-append (take (back_up 93 value) value) (codes "..."),
  length-take-le (back_up 93 value) value,
  back_up-le 93 value,
)

-- A reported value has 96 bytes at most.
pub compact_value_bounds :
    (v : Bytes)
    → length (compact_allocation_diagnostic_value v) ≤ max_allocation_diagnostic_value_bytes
unfolding compact_allocation_diagnostic_value
compact_value_bounds v = compact_case (to_valid_utf8 v) _ refl

All-compact :
    (vs : List Bytes)
    → All
        (λ v. length v ≤ max_allocation_diagnostic_value_bytes)
        (map compact_allocation_diagnostic_value vs)
All-compact [] = tt
All-compact (v ∷ vs) = (compact_value_bounds v, All-compact vs)

length-map {ℓ κ} :
    {A : Type ℓ} {B : Type κ} (f : A → B) (xs : List A) → length (map f xs) ≡ length xs
length-map f [] = refl
length-map f (x ∷ xs) = ap suc (length-map f xs)

length-insert_string : (x : Bytes) (ys : List Bytes) → length (insert_string x ys) ≡ suc (length ys)
unfolding insert_string
length-insert_string x [] = refl
length-insert_string x (y ∷ ys) = ground (arith, length-insert_string x ys)

length-sort_strings : (xs : List Bytes) → length (sort_strings xs) ≡ length xs
unfolding sort_strings
length-sort_strings [] = refl
length-sort_strings (x ∷ xs) =
    length-insert_string x (sort_strings xs) ∙ ap suc (length-sort_strings xs)

length-take-all {ℓ} :
    {A : Type ℓ} (n : ℕ) (xs : List A) → length xs ≤ n → length (take n xs) ≡ length xs
length-take-all zero [] h = refl
length-take-all zero (x ∷ xs) h = absurd (omega arith)
length-take-all (suc n) [] h = refl
length-take-all (suc n) (x ∷ xs) h = ap suc (length-take-all n xs (omega arith))

not_above : (n m : ℕ) (b : Bool) → (ltb n m || b) ≡ false → m ≤ n
not_above n m b h = ground arith

-- A diagnostic list has 20 values at most, each of 96 bytes at most, says how many there were, and
-- says so when it leaves some out.
pub bounded_values_bounds :
    (vs : List Bytes)
    → let b = bounded_allocation_diagnostic_values vs in
      (length b.items ≤ max_allocation_diagnostic_items)
      × All (λ v. length v ≤ max_allocation_diagnostic_value_bytes) b.items
      × (b.total ≡ length vs)
      × ((b.truncated ≡ true) ⊎ (length b.items ≡ length vs))
unfolding bounded_allocation_diagnostic_values
bounded_values_bounds vs =
    let sorted = sort_strings vs in
    let kept = take 20 sorted in
    let same = length-map compact_allocation_diagnostic_value kept in
    (
      omega (arith, same, length-take-le 20 sorted),
      All-compact kept,
      length-sort_strings vs,
      elim (Bool-cases (ltb 20 (length sorted) || any_changed kept)) [
        | inl cut ↦ inl cut
        | inr whole ↦ inr (
            same
            ∙ (length-take-all 20 sorted (not_above 20 (length sorted) (any_changed kept) whole)
                ∙ length-sort_strings vs))
      ],
    )
