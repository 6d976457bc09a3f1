-- ===== src/Allocation/Rank.antt =====
-- internal/cli/allocation.go: `rankedReadyTasks`; internal/cli/cmd_next.go: `matchesCapabilities`.
-- A `float32` is its bit pattern, compared as IEEE 754 has it: a NaN is equal to nothing and above
-- nothing. `sort.Slice` is an insertion sort by the source's test.
use terminal_todo.Base.{
  Eq-bytes, ℕ, Bool, true, false, not, ◌&&◌, List, [], ◌∷◌, Bytes, nat_eq, ltb, if◌then◌else◌, has,
}
use terminal_todo.Store.{Task, TaskStore}
use terminal_todo.Dag.Ready.{Resolver, get_ready_tasks}
use terminal_todo.Lifecycle.Update.{float_key, is_nan, is_empty}

abbrev pub float_eq : ℕ → ℕ → Bool
float_eq a b = not (is_nan a) && (not (is_nan b) && nat_eq (float_key a) (float_key b))

abbrev pub float_gt : ℕ → ℕ → Bool
float_gt a b = not (is_nan a) && (not (is_nan b) && ltb (float_key b) (float_key a))

unfoldable pub all_provided : List Bytes → List Bytes → Bool
all_provided [] agent_caps = true
all_provided (c ∷ task_caps) agent_caps =
    if not (has c agent_caps) then false else all_provided task_caps agent_caps

unfoldable pub matches_capabilities : List Bytes → List Bytes → Bool
unfolding all_provided
matches_capabilities task_caps agent_caps =
    if is_empty task_caps then true else all_provided task_caps agent_caps

-- The test that sorts the tasks: the higher priority first, then the lower ID.
abbrev pub ranks_before : Task → Task → Bool
ranks_before t u =
    if float_eq t.priority u.priority then ltb t.id u.id else float_gt t.priority u.priority

unfoldable pub insert_ranked : Task → List Task → List Task
insert_ranked t [] = t ∷ []
insert_ranked t (u ∷ us) = if ranks_before u t then u ∷ insert_ranked t us else t ∷ u ∷ us

unfoldable pub sort_ranked : List Task → List Task
unfolding insert_ranked
sort_ranked [] = []
sort_ranked (t ∷ ts) = insert_ranked t (sort_ranked ts)

unfoldable pub filter_capable : List Bytes → List Task → List Task
unfolding matches_capabilities
filter_capable capabilities [] = []
filter_capable capabilities (t ∷ ts) =
    let rest = filter_capable capabilities ts in
    if matches_capabilities t.capabilities capabilities then t ∷ rest else rest

unfoldable pub ranked_ready_tasks : TaskStore → Resolver → List Bytes → Bool → List Task
unfolding get_ready_tasks filter_capable sort_ranked
ranked_ready_tasks s resolver capabilities filter_capabilities =
    let ready = get_ready_tasks s.tasks resolver in
    sort_ranked (if filter_capabilities then filter_capable capabilities ready else ready)
