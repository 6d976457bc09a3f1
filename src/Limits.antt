-- ===== src/Limits.antt =====
-- internal/cli/input_limits.go: bounds on what a caller may persist. Every rejection is an
-- `errors.New` or `fmt.Errorf` without a sentinel.
use terminal_todo.Base.{
  Eq-bytes, ℕ, suc, ◌+◌, ◌*◌, Bool, not, ◌&&◌, List, [], ◌∷◌, none, some, Bytes, ltb, if◌then◌else◌,
  length, has, bytes_eq,
}
use terminal_todo.Base.Text.{trim_space, valid_utf8, contains_byte}
use terminal_todo.Base.Dict.{Dict, lookup}
use terminal_todo.Errors.{unclassified, Result, ok, ◌>>◌, fail_if}

abbrev pub max_task_title_bytes : ℕ
max_task_title_bytes = 1024

abbrev pub max_actor_bytes : ℕ
max_actor_bytes = 128

abbrev pub max_reason_bytes : ℕ
max_reason_bytes = 8 * 1024

abbrev pub max_error_bytes : ℕ
max_error_bytes = 8 * 1024

abbrev pub max_log_message_bytes : ℕ
max_log_message_bytes = 16 * 1024

abbrev pub max_metadata_key_bytes : ℕ
max_metadata_key_bytes = 128

abbrev pub max_metadata_value_bytes : ℕ
max_metadata_value_bytes = 16 * 1024

abbrev pub max_dependency_bytes : ℕ
max_dependency_bytes = 512

abbrev pub max_capability_bytes : ℕ
max_capability_bytes = 128

abbrev pub max_tag_bytes : ℕ
max_tag_bytes = 128

abbrev pub max_task_dependencies : ℕ
max_task_dependencies = 128

abbrev pub max_task_capabilities : ℕ
max_task_capabilities = 64

abbrev pub max_task_tags : ℕ
max_task_tags = 64

abbrev pub max_task_extra_entries : ℕ
max_task_extra_entries = 128

unfoldable pub validate_persisted_string : Bytes → ℕ → Result (Unit {0})
validate_persisted_string value max_bytes = do
  fail_if (not (valid_utf8 value)) unclassified
  fail_if (ltb max_bytes (length value)) unclassified

unfoldable pub validate_required_persisted_string : Bytes → ℕ → Result (Unit {0})
unfolding validate_persisted_string
validate_required_persisted_string value max_bytes = do
  fail_if (bytes_eq (trim_space value) []) unclassified
  validate_persisted_string value max_bytes

unfoldable pub validate_actor : Bytes → Bool → Result (Unit {0})
unfolding validate_required_persisted_string
validate_actor actor required =
    if bytes_eq actor [] && not required
    then ok tt
    else validate_required_persisted_string actor max_actor_bytes

-- The loop: `seen` holds what is in the result.
unfoldable pub normalize_from : List Bytes → List Bytes → List Bytes
normalize_from seen [] = []
normalize_from seen (v ∷ vs) =
    let value = trim_space v in
    let skip = normalize_from seen vs in
    let keep = normalize_from (value ∷ seen) vs in
    if bytes_eq value [] then skip else if has value seen then skip else value ∷ keep

unfoldable pub normalize_persisted_values : List Bytes → List Bytes
unfolding normalize_from
normalize_persisted_values = normalize_from []

unfoldable pub validate_items : List Bytes → ℕ → Result (Unit {0})
unfolding validate_persisted_string
validate_items [] max_bytes = ok tt
validate_items (v ∷ vs) max_bytes = do
  fail_if (bytes_eq (trim_space v) []) unclassified
  validate_persisted_string v max_bytes
  validate_items vs max_bytes

unfoldable pub validate_persisted_list : List Bytes → ℕ → ℕ → Result (Unit {0})
unfolding validate_items
validate_persisted_list values max_items max_item_bytes = do
  fail_if (ltb max_items (length values)) unclassified
  validate_items values max_item_bytes

unfoldable pub validate_no_commas : List Bytes → Result (Unit {0})
validate_no_commas [] = ok tt
validate_no_commas (v ∷ vs) = do fail_if (contains_byte b',' v) unclassified; validate_no_commas vs

unfoldable pub validate_capabilities : List Bytes → Result (Unit {0})
unfolding validate_persisted_list validate_no_commas
validate_capabilities values = do
  validate_persisted_list values max_task_capabilities max_capability_bytes
  validate_no_commas values

unfoldable pub validate_tags : List Bytes → Result (Unit {0})
unfolding validate_persisted_list
validate_tags values = validate_persisted_list values max_task_tags max_tag_bytes

unfoldable pub validate_dependencies : List Bytes → Result (Unit {0})
unfolding validate_persisted_list
validate_dependencies values =
    validate_persisted_list values max_task_dependencies max_dependency_bytes

unfoldable pub validate_entries : Dict Bytes Bytes → Result (Unit {0})
unfolding validate_persisted_string
validate_entries [] = ok tt
validate_entries ((key, value) ∷ m) = do
  fail_if (bytes_eq (trim_space key) []) unclassified
  validate_persisted_string key max_metadata_key_bytes
  validate_persisted_string value max_metadata_value_bytes
  validate_entries m

unfoldable pub validate_extra : Dict Bytes Bytes → Result (Unit {0})
unfolding validate_entries
validate_extra extra = do
  fail_if (ltb max_task_extra_entries (length extra)) unclassified
  validate_entries extra

-- Whether the projected size is accepted.
unfoldable pub validate_projected_cardinality : ℕ → ℕ → ℕ → Bool
validate_projected_cardinality current projected max_items =
    not (ltb max_items projected && ltb current projected)

unfoldable pub count_new : Dict Bytes Bytes → Dict Bytes Bytes → ℕ
count_new current [] = 0
count_new current ((key, value) ∷ updates) =
    let rest = count_new current updates in
    elim (lookup key current) [ none ↦ suc rest | some _ ↦ rest ]

unfoldable pub projected_extra_count : Dict Bytes Bytes → Dict Bytes Bytes → ℕ
unfolding count_new
projected_extra_count current updates = length current + count_new current updates
