-- ===== src/Serve/Checks.antt =====
-- internal/cli/serve.go: what the checks in front of a transaction leave alone.
use terminal_todo.Base.{
  Eq-nat, ℕ, ◌≤◌, ◌≡◌, refl, ◌⊎◌, inl, inr, Bool, List, [], ◌∷◌, arith, length, has, if◌then◌else◌,
}
use terminal_todo.Base.Text.{trim_space}
use terminal_todo.Errors.{Result, ok, err}
use terminal_todo.Limits.{
  validate_required_persisted_string, validate_capabilities, normalize_persisted_values,
  max_task_title_bytes,
}
use terminal_todo.Compaction.{unique_from}
use terminal_todo.Lifecycle.Decompose.{DecomposeSubtask}
use terminal_todo.Lifecycle.Update.{TaskUpdate}
use terminal_todo.Serve.{RpcCode, Checked, refused, passed, ◌>>◌, accept}
use terminal_todo.Serve.Params.{UpdateParams, DecomposeParams}
use terminal_todo.Serve.Adding.{checked_subtasks, decompose_checks}
use terminal_todo.Serve.Editing.{update_checks}

pub length-unique_from : (seen ids : List ℕ) → length (unique_from seen ids) ≤ length ids
unfolding unique_from
length-unique_from seen [] = omega arith
length-unique_from seen (id ∷ ids) =
    ground (arith, length-unique_from (if has id seen then seen else id ∷ seen) ids)

-- The checks leave the references to add as they are.
pub update_checks-add_deps :
    (initialized : Bool) (p : UpdateParams) (u : TaskUpdate)
    → update_checks initialized p ≡ passed u
    → u.add_deps ≡ p.add_deps
unfolding update_checks
update_checks-add_deps initialized p u e = ground arith

-- What an early return of an error leaves to do.
accept-passed {ℓ} :
    {B : Type ℓ} (r : Result (Unit {0})) (k : Checked B) (b : B)
    → (accept r >> k) ≡ passed b
    → k ≡ passed b
accept-passed (ok u) k b e = e
accept-passed (err d) k b e = absurd (cc e)

Checked-cases {ℓ} :
    {A : Type ℓ} (c : Checked A) → ((d : RpcCode) × (c ≡ refused d)) ⊎ ((a : A) × (c ≡ passed a))
Checked-cases (refused d) = inl (d, refl)
Checked-cases (passed a) = inr (a, refl)

checked_subtasks-length :
    (subs out : List DecomposeSubtask)
    → checked_subtasks subs ≡ passed out
    → length out ≡ length subs
unfolding checked_subtasks
checked_subtasks-length [] out e = ground arith
checked_subtasks-length (sub ∷ subs) out e =
    let title = validate_required_persisted_string (trim_space sub.title) max_task_title_bytes in
    let capabilities = validate_capabilities (normalize_persisted_values sub.capabilities) in
    let fine = accept-passed capabilities _ out (accept-passed title _ out e) in
    elim (Checked-cases (checked_subtasks subs)) [
      | inl (d, bad) ↦ absurd (cc (rw bad at fine))
      | inr (rest, good) ↦ ground (arith, checked_subtasks-length subs rest good)
    ]

pub decompose_checks-length :
    (initialized : Bool) (p : DecomposeParams) (subs : List DecomposeSubtask)
    → decompose_checks initialized p ≡ passed subs
    → length subs ≡ length p.subtasks
unfolding decompose_checks
decompose_checks-length initialized p subs e = elim (Checked-cases (checked_subtasks p.subtasks)) [
  | inl (d, bad) ↦ absurd (ground arith)
  | inr (rest, good) ↦
      let same : rest ≡ subs = ground arith in
      rw (← same) (checked_subtasks-length p.subtasks rest good)
]
