-- ===== src/Dag/Uri/RoundTrip.antt =====
-- dag/dag.go: `ParseTaskURI` and `ParseLocalID`, with `canonicalDependency` of
-- internal/cli/coordination_ops.go: parsing against printing.
use terminal_todo.Base.{
  ℕ, ◌<◌, ◌≡◌, refl, true, false, List, [], ◌∷◌, ◌++◌, none, some, arith, Bytes, if◌then◌else◌, all,
  Bool-cases, Option-cases, inl, inr, ◌⊎◌, ap, ◌∙◌, sym, bytes_eq, bytes_eq_iff, subst,
}
use terminal_todo.Base.Text.{
  cut_prefix, cut_prefix-append, cut_prefix_sound, split, split-two, split-two_sound, Lacks,
}
use terminal_todo.Base.Decimal.{
  format, format-ne_nil, parse_uint, u64_mod, parse_uint-format, parse_uint-lt, format-AllDigits,
  AllDigits-Lacks,
}
use terminal_todo.Dag.Uri.{
  is_alias_byte, scheme, local_alias, local_prefix, parse_id, parse_parts, parse_task_uri,
  local_uri_id, parse_local_id, task_uri, canonical_dependency, IsAlias,
}

alias-Lacks : (s : Bytes) → all is_alias_byte s ≡ true → Lacks b'/' s
alias-Lacks [] h = tt
alias-Lacks (c ∷ s) h = (ground arith, alias-Lacks s (ground arith))

format-Lacks : (n : ℕ) → Lacks b'/' (format n)
format-Lacks n = AllDigits-Lacks b'/' (format n) refl (format-AllDigits n)

parse_id-format : (id : ℕ) → 0 < id → id < u64_mod → parse_id (format id) ≡ some id
unfolding parse_id
parse_id-format id p h = ground (arith, parse_uint-format id h)

pub parse_id_bounds : (s : Bytes) (id : ℕ) → parse_id s ≡ some id → (0 < id) × (id < u64_mod)
unfolding parse_id
parse_id_bounds s id h = elim (Option-cases (parse_uint s)) [
  | inl e ↦ absurd (ground arith)
  | inr (n, e) ↦ let b = parse_uint-lt s {n = n} e in ground arith
]

-- A reference that is printed from an alias and a 64-bit ID above 0 parses to the two.
pub parse_task_uri-task_uri :
    (alias : Bytes) (id : ℕ)
    → IsAlias alias
    → 0 < id
    → id < u64_mod
    → parse_task_uri (task_uri alias id) ≡ some (alias, id)
unfolding parse_task_uri parse_parts
parse_task_uri-task_uri alias id a p h =
    rw (cut_prefix-append scheme (alias ++ b'/' ∷ format id), parse_task_uri)
      (rw (split-two b'/' alias (format id) (alias-Lacks alias a.1) (format-Lacks id), parse_parts)
        (ground (arith, parse_id-format id p h, format-ne_nil id)))

-- What stands behind the scheme of a parsed reference.
parse_parts_sound :
    (ps : List Bytes) (alias : Bytes) (id : ℕ)
    → parse_parts ps ≡ some (alias, id)
    → (ids : Bytes) × (ps ≡ alias ∷ ids ∷ []) × (parse_id ids ≡ some id) × IsAlias alias
unfolding parse_parts
parse_parts_sound [] alias id h = absurd (cc)
parse_parts_sound (a ∷ []) alias id h = absurd (cc)
parse_parts_sound (a ∷ i ∷ []) alias id h =
    (i, ground arith, ground arith, (ground arith, ground arith))
parse_parts_sound (a ∷ i ∷ p ∷ ps) alias id h = absurd (cc)

-- A reference that parses is an alias and an ID behind the scheme.
pub parse_task_uri_sound :
    (uri alias : Bytes) (id : ℕ)
    → parse_task_uri uri ≡ some (alias, id)
    → (ids : Bytes) × (uri ≡ scheme ++ (alias ++ b'/' ∷ ids))
      × (parse_id ids ≡ some id)
      × IsAlias alias
unfolding parse_task_uri
parse_task_uri_sound uri alias id h = elim (Option-cases (cut_prefix scheme uri)) [
  | inl e ↦ absurd (ground arith)
  | inr (rest, e) ↦
      let (ids, pieces, parsed, good) =
        parse_parts_sound (split b'/' rest) alias id (ground arith) in
      (
        ids,
        cut_prefix_sound scheme uri {rest = rest} e
            ∙ ap (λ r. scheme ++ r) (split-two_sound b'/' rest alias ids pieces),
        parsed,
        good,
      )
]

abbrev Bounded : ℕ → Type 0
Bounded id = (0 < id) × (id < u64_mod)

parse_task_uri_bounds :
    (uri alias : Bytes) (id : ℕ)
    → parse_task_uri uri ≡ some (alias, id)
    → IsAlias alias × Bounded id
parse_task_uri_bounds uri alias id h =
    let (ids, _, parsed, good) = parse_task_uri_sound uri alias id h in
    (good, parse_id_bounds ids id parsed)

-- A printed reference is no plain number.
parse_id-task_uri : (alias : Bytes) (id : ℕ) → parse_id (task_uri alias id) ≡ none
unfolding parse_id parse_uint
parse_id-task_uri alias id = refl

-- A printed reference is local just when its alias is `local`.
parse_local_id-task_uri :
    (alias : Bytes) (id : ℕ)
    → IsAlias alias
    → Bounded id
    → parse_local_id (task_uri alias id) ≡ (if bytes_eq alias local_alias then some id else none)
unfolding parse_local_id local_uri_id
parse_local_id-task_uri alias id a b =
    let whole = parse_task_uri-task_uri alias id a b.0 b.1 in
    let number = parse_id-task_uri alias id in
    elim (Option-cases (cut_prefix local_prefix (task_uri alias id))) [
      | inr (rest, e) ↦ ground arith
      | inl e ↦ elim (Bool-cases (bytes_eq alias local_alias)) [
        | inr other ↦ ground arith
        | inl same ↦
            let named = (bytes_eq_iff alias local_alias).0 same in
            let missing = subst (λ y. cut_prefix local_prefix (task_uri y id) ≡ none) named e in
            absurd (cc (cut_prefix-append local_prefix (format id)))
      ]
    ]

parse_local_id_bounds : (uri : Bytes) (id : ℕ) → parse_local_id uri ≡ some id → Bounded id
unfolding parse_local_id local_uri_id
parse_local_id_bounds uri id h = elim (Option-cases (local_uri_id uri)) [
  | inl e ↦ parse_id_bounds uri id (ground arith)
  | inr (n, e) ↦ elim (Option-cases (parse_task_uri uri)) [
    | inl f ↦ absurd (ground arith)
    | inr ((alias, m), f) ↦
        let b = (parse_task_uri_bounds uri alias m f).1 in (ground arith, ground arith)
  ]
]

-- A URI of the `local` repository is a local reference.
not_local :
    (uri alias : Bytes) (id : ℕ)
    → parse_task_uri uri ≡ some (alias, id)
    → parse_local_id uri ≡ none
    → bytes_eq alias local_alias ≡ false
unfolding parse_local_id local_uri_id
not_local uri alias id h none_local = elim (Bool-cases (bytes_eq alias local_alias)) [
  | inr other ↦ other
  | inl same ↦
      let (ids, shape, _, _) = parse_task_uri_sound uri alias id h in
      let named = (bytes_eq_iff alias local_alias).0 same in
      let shape' : uri ≡ local_prefix ++ ids =
        subst (λ y. uri ≡ scheme ++ (y ++ b'/' ∷ ids)) named shape in
      let cut : cut_prefix local_prefix uri ≡ some ids =
        ap (cut_prefix local_prefix) shape' ∙ cut_prefix-append local_prefix ids in
      absurd (ground arith)
]

-- The stored spelling is its own stored spelling, and refers to the same task: the same local one,
-- or the same ID in the same repository.
abbrev pub IsCanonicalFor : Bytes → Bytes → Type 0
IsCanonicalFor r c =
    (canonical_dependency c ≡ some c)
    × (parse_local_id c ≡ parse_local_id r)
    × (((id : ℕ) × (parse_local_id r ≡ some id)) ⊎ (parse_task_uri c ≡ parse_task_uri r))

local_IsAlias : IsAlias local_alias
local_IsAlias = unfold bytes_eq in (refl, refl)

canonical_local :
    (r : Bytes) (id : ℕ) → parse_local_id r ≡ some id → IsCanonicalFor r (task_uri local_alias id)
unfolding canonical_dependency
canonical_local r id h =
    let b = parse_local_id_bounds r id h in
    let l : parse_local_id (task_uri local_alias id) ≡ some id =
      unfold bytes_eq in parse_local_id-task_uri local_alias id local_IsAlias b in
    (rw (l, canonical_dependency), l ∙ sym h, inl (id, h))

canonical_remote :
    (r alias : Bytes) (id : ℕ)
    → parse_local_id r ≡ none
    → parse_task_uri r ≡ some (alias, id)
    → IsCanonicalFor r (task_uri alias id)
unfolding canonical_dependency
canonical_remote r alias id e h =
    let (good, b) = parse_task_uri_bounds r alias id h in
    let other = not_local r alias id h e in
    let whole = parse_task_uri-task_uri alias id good b.0 b.1 in
    let l : parse_local_id (task_uri alias id) ≡ none =
      parse_local_id-task_uri alias id good b ∙ rw other in
    (rw (l, whole, canonical_dependency), l ∙ sym e, inr (whole ∙ sym h))

-- `canonicalDependency` is idempotent and keeps what a reference means.
pub canonical_dependency-IsCanonicalFor :
    (r c : Bytes) → canonical_dependency r ≡ some c → IsCanonicalFor r c
unfolding canonical_dependency
canonical_dependency-IsCanonicalFor r c h = elim (Option-cases (parse_local_id r)) [
  | inr (id, e) ↦
      let q : task_uri local_alias id ≡ c = ground arith in
      subst (IsCanonicalFor r) q (canonical_local r id e)
  | inl e ↦ elim (Option-cases (parse_task_uri r)) [
    | inl f ↦ absurd (ground arith)
    | inr ((alias, id), f) ↦
        let q : task_uri alias id ≡ c = ground arith in
        subst (IsCanonicalFor r) q (canonical_remote r alias id e f)
  ]
]
