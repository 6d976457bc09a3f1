-- ===== src/Lifecycle/Lengths.antt =====
-- internal/cli/coordination_ops.go: how many references `applyDependencyEdits` makes.
use terminal_todo.Base.{
  Eq-nat, Eq-bytes, ℕ, suc, ◌+◌, ◌≤◌, ◌≡◌, refl, inl, inr, List, [], ◌∷◌, arith, Bytes, length, has,
  remove, Bool-cases, Option-cases,
}
use terminal_todo.Base.Dict.{Dict}
use terminal_todo.Store.{Task, TaskStore}
use terminal_todo.Dag.Uri.{canonical_dependency}
use terminal_todo.Errors.{ok, Result-cases}
use terminal_todo.Lifecycle.Decompose.{canonical_set}
use terminal_todo.Lifecycle.Update.{
  remove_deps, dangles, add_deps, insert_string, sort_strings, edited_deps,
}

pub length-canonical_set : (deps : List Bytes) → length (canonical_set deps) ≤ length deps
unfolding canonical_set
length-canonical_set [] = omega arith
length-canonical_set (dep ∷ deps) = ground (arith, length-canonical_set deps)

length-remove : (x : Bytes) (xs : List Bytes) → length (remove x xs) ≤ length xs
unfolding remove
length-remove x [] = omega arith
length-remove x (y ∷ ys) = ground (arith, length-remove x ys)

length-remove_deps :
    (seen dep_set deps out : List Bytes)
    → remove_deps seen dep_set deps ≡ ok out
    → length out ≤ length dep_set
unfolding remove_deps
length-remove_deps seen dep_set [] out e = ground arith
length-remove_deps seen dep_set (dep ∷ deps) out e =
    elim (Option-cases (canonical_dependency dep)) [
      | inl bad ↦ absurd (ground arith)
      | inr (c, good) ↦ ground (
        arith,
        length-remove_deps seen dep_set deps out,
        length-remove_deps (c ∷ seen) (remove c dep_set) deps out,
        length-remove c dep_set,
      )
    ]

length-add_deps :
    (tasks : Dict ℕ Task) (dep_set deps out : List Bytes)
    → add_deps tasks dep_set deps ≡ ok out
    → length out ≤ length dep_set + length deps
unfolding add_deps
length-add_deps tasks dep_set [] out e = ground arith
length-add_deps tasks dep_set (dep ∷ deps) out e = elim (Option-cases (canonical_dependency dep)) [
  | inl bad ↦ absurd (ground arith)
  | inr (c, good) ↦ elim (Bool-cases (has c dep_set)) [
    | inl old ↦ ground (arith, length-add_deps tasks dep_set deps out)
    | inr new ↦ elim (Bool-cases (dangles c tasks)) [
      | inl bad ↦ absurd (cc (rw (good, new, bad, add_deps) at e))
      | inr fine ↦
          let e' = rw (good, new, fine, add_deps) at e in
          omega (arith, length-add_deps tasks (c ∷ dep_set) deps out e')
    ]
  ]
]

length-insert_string : (x : Bytes) (xs : List Bytes) → length (insert_string x xs) ≡ suc (length xs)
unfolding insert_string
length-insert_string x [] = refl
length-insert_string x (y ∷ ys) = ground (arith, length-insert_string x ys)

length-sort_strings : (xs : List Bytes) → length (sort_strings xs) ≡ length xs
unfolding sort_strings
length-sort_strings [] = refl
length-sort_strings (x ∷ xs) =
    omega (arith, length-insert_string x (sort_strings xs), length-sort_strings xs)

pub length-edited_deps :
    (id : ℕ) (task : Task) (add remove_list : List Bytes) (s : TaskStore) (deps : List Bytes)
    → edited_deps id task add remove_list s ≡ ok deps
    → length deps ≤ length task.depends + length add
unfolding edited_deps
length-edited_deps id task add remove_list s deps e =
    elim (Result-cases (remove_deps [] (canonical_set task.depends) remove_list)) [
      | inr (x, bad) ↦ absurd (ground arith)
      | inl (removed, good) ↦ elim (Result-cases (add_deps s.tasks removed add)) [
        | inr (x, bad) ↦ absurd (ground arith)
        | inl (dep_set, fine) ↦
            let same : sort_strings dep_set ≡ deps = ground arith in
            rw (← same) (
              omega (
                arith,
                length-sort_strings dep_set,
                length-add_deps s.tasks removed add dep_set fine,
                length-remove_deps [] (canonical_set task.depends) remove_list removed good,
                length-canonical_set task.depends,
              ))
      ]
    ]
