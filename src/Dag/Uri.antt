-- ===== src/Dag/Uri.antt =====
-- dag/dag.go: `ParseTaskURI` and `ParseLocalID`; and `canonicalDependency` of
-- internal/cli/coordination_ops.go, the stored spelling of a reference.
pub mod RoundTrip
use terminal_todo.Base.{
  ℕ, ◌≡◌, Bool, true, false, not, ◌&&◌, ◌||◌, List, [], ◌∷◌, ◌++◌, Option, none, some, Bytes,
  nat_eq, leb, if◌then◌else◌, all, bytes_eq,
}
use terminal_todo.Base.Text.{codes, cut_prefix, split}
use terminal_todo.Base.Decimal.{format, parse_uint}

-- A byte that a repository alias may hold.
abbrev pub is_alias_byte : ℕ → Bool
is_alias_byte r =
    (leb b'a' r && leb r b'z')
    || (leb b'A' r && leb r b'Z')
    || (leb b'0' r && leb r b'9')
    || nat_eq r b'.'
    || nat_eq r b'_'
    || nat_eq r b'-'

abbrev pub scheme : Bytes
scheme = codes "todo://"

abbrev pub local_alias : Bytes
local_alias = codes "local"

abbrev pub local_prefix : Bytes
local_prefix = codes "todo://local/"

-- `id, err := strconv.ParseUint(...)`, where an error and 0 are refused alike.
pub parse_id : Bytes → Option ℕ
parse_id s = elim (parse_uint s) [ none ↦ none | some id ↦ if nat_eq id 0 then none else some id ]

-- The two parts behind the scheme.
pub parse_parts : List Bytes → Option (Bytes × ℕ)
parse_parts (alias ∷ id ∷ []) =
    if bytes_eq alias [] || bytes_eq id []
    then none
    else if not (all is_alias_byte alias)
    then none
    else elim (parse_id id) [ none ↦ none | some n ↦ some (alias, n) ]
parse_parts _ = none

-- `none` stands for the error.
unfoldable pub parse_task_uri : Bytes → Option (Bytes × ℕ)
unfolding parse_parts parse_id
parse_task_uri uri = elim (cut_prefix scheme uri) [
  | none ↦ none
  | some rest ↦ parse_parts (split b'/' rest)
]

-- The ID of a reference into the `local` repository that has the URI form.
pub local_uri_id : Bytes → Option ℕ
local_uri_id uri = elim (cut_prefix local_prefix uri) [
  | none ↦ none
  | some _ ↦ elim (parse_task_uri uri) [
    | none ↦ none
    | some (repository, id) ↦ if bytes_eq repository local_alias then some id else none
  ]
]

unfoldable pub parse_local_id : Bytes → Option ℕ
unfolding local_uri_id parse_id
parse_local_id uri = elim (local_uri_id uri) [ some id ↦ some id | none ↦ parse_id uri ]

abbrev pub task_uri : Bytes → ℕ → Bytes
task_uri alias id = scheme ++ (alias ++ b'/' ∷ format id)

unfoldable pub canonical_dependency : Bytes → Option Bytes
canonical_dependency reference = elim (parse_local_id reference) [
  | some id ↦ some (task_uri local_alias id)
  | none ↦ elim (parse_task_uri reference) [
    | none ↦ none
    | some (alias, id) ↦ some (task_uri alias id)
  ]
]

-- What `parse_task_uri` demands of an alias.
abbrev pub IsAlias : Bytes → Type 0
IsAlias alias = (bytes_eq alias [] ≡ false) × (all is_alias_byte alias ≡ true)
