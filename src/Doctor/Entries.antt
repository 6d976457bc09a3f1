-- ===== src/Doctor/Entries.antt =====
-- internal/cli/cmd_doctor.go: writes to one task of a store without problems.
use terminal_todo.Base.{
  Eq-nat, ℕ, ◌≡◌, refl, ap, ◌∙◌, Bool, true, false, List, [], ◌∷◌, ◌++◌, some, Bytes, nat_eq,
  nat_eq_iff, ltb, if◌then◌else◌, arith, has, Bool-cases, Option-cases, inl, inr,
}
use terminal_todo.Base.Dict.{
  Dict, lookup, values, keys, modify, KeysUnique, KeysUnique-modify, lookup-modify, lookup-keys,
}
use terminal_todo.Store.{Task, TaskStore}
use terminal_todo.Dag.Uri.{parse_task_uri, parse_local_id}
use terminal_todo.Dag.Search.{Graph}
use terminal_todo.Dag.Build.{add_depends, build_tasks, build_from_tasks}
use terminal_todo.Lifecycle.Leases.{write}
use terminal_todo.Doctor.{
  missing_local, field_problems, reference_problems, depends_problems, entries_problems, max_id,
  store_invariant_problems,
}

pub record IsHealthy (s : TaskStore) : Type 0 where
  pub unique : KeysUnique s.tasks
  pub silent : store_invariant_problems s ≡ []

append-nil_iff {ℓ} : {A : Type ℓ} (xs ys : List A) → xs ++ ys ≡ [] → (xs ≡ []) × (ys ≡ [])
append-nil_iff [] ys h = (refl, h)
append-nil_iff (x ∷ xs) ys h = absurd (cc)

-- A write that leaves the ID and the references alone.
abbrev pub KeepsGraph : (Task → Task) → Type 0
KeepsGraph f = (t : Task) → ((f t).id ≡ t.id) × ((f t).depends ≡ t.depends)

module _ (id : ℕ) (f : Task → Task) (keeps : KeepsGraph f) where
  abbrev written : Bool → Task → Task
  written b t = if b then f t else t

  written_same :
      (b : Bool) (t : Task) → ((written b t).id ≡ t.id) × ((written b t).depends ≡ t.depends)
  written_same true t = keeps t
  written_same false t = (refl, refl)

  missing-modify :
      (tasks : Dict ℕ Task) (i j : ℕ)
      → missing_local (modify id f tasks) i j ≡ missing_local tasks i j
  missing-modify tasks i j = elim (Option-cases (lookup j tasks)) [
    | inl e ↦ ground (arith, lookup-modify id j f tasks)
    | inr (t, e) ↦ ground (arith, lookup-modify id j f tasks)
  ]

  reference-modify :
      (tasks : Dict ℕ Task) (i : ℕ) (dep : Bytes)
      → reference_problems (modify id f tasks) i dep ≡ reference_problems tasks i dep
  unfolding reference_problems
  reference-modify tasks i dep = elim (Option-cases (parse_task_uri dep)) [
    | inr ((repository, j), e) ↦ rw (e, reference_problems) (rw (missing-modify tasks i j) refl)
    | inl e ↦ elim (Option-cases (parse_local_id dep)) [
      | inl g ↦ rw (e, g, reference_problems) refl
      | inr (j, g) ↦ rw (e, g, reference_problems) (missing-modify tasks i j)
    ]
  ]

  depends-modify :
      (tasks : Dict ℕ Task) (i : ℕ) (deps : List Bytes)
      → depends_problems (modify id f tasks) i deps ≡ depends_problems tasks i deps
  unfolding depends_problems
  depends-modify tasks i [] = refl
  depends-modify tasks i (dep ∷ deps) =
      rw (reference-modify tasks i dep, depends-modify tasks i deps) refl

  max_id-modify :
      (best : ℕ) (m : Dict ℕ Task) → max_id best (values (modify id f m)) ≡ max_id best (values m)
  unfolding max_id modify values
  max_id-modify best [] = refl
  max_id-modify best ((k, t) ∷ m) =
      let same = written_same (nat_eq k id) t in
      ap (λ i. max_id (if ltb best i then i else best) (values (modify id f m))) same.0
      ∙ max_id-modify (if ltb best t.id then t.id else best) m

  build_tasks-modify :
      (m : Dict ℕ Task) (adj : Graph)
      → build_tasks (values (modify id f m)) adj ≡ build_tasks (values m) adj
  unfolding build_tasks modify values
  build_tasks-modify [] adj = refl
  build_tasks-modify ((k, t) ∷ m) adj =
      let same = written_same (nat_eq k id) t in
      ap
        (λ i.
          build_tasks (values (modify id f m))
            (add_depends i (written (nat_eq k id) t).depends adj))
        same.0
      ∙ (ap (λ d. build_tasks (values (modify id f m)) (add_depends t.id d adj)) same.1
          ∙ build_tasks-modify m (add_depends t.id t.depends adj))

  fields-written :
      (k : ℕ) (t : Task) (m : Dict ℕ Task)
      → ((x : Task) → lookup id ((k, t) ∷ m) ≡ some x → field_problems id (f x) ≡ [])
      → field_problems k t ≡ []
      → field_problems k (written (nat_eq k id) t) ≡ []
  unfolding lookup
  fields-written k t m fine silent = elim (Bool-cases (nat_eq k id)) [
    | inl e ↦
        let found = fine t (rw e refl) in
        rw ((nat_eq_iff k id).0 e, (nat_eq_iff id id).1 refl) found
    | inr e ↦ rw e silent
  ]

  later-written :
      (k : ℕ) (t : Task) (m : Dict ℕ Task)
      → has k (keys m) ≡ false
      → ((x : Task) → lookup id ((k, t) ∷ m) ≡ some x → field_problems id (f x) ≡ [])
      → (x : Task) → lookup id m ≡ some x
      → field_problems id (f x) ≡ []
  unfolding lookup
  later-written k t m u fine x e =
      let there = lookup-keys id m {v = x} e in
      let other : nat_eq k id ≡ false = ground (arith, nat_eq_iff k id) in fine x (rw other e)

  entries-modify :
      (tasks m : Dict ℕ Task)
      → KeysUnique m
      → ((t : Task) → lookup id m ≡ some t → field_problems id (f t) ≡ [])
      → entries_problems tasks m ≡ []
      → entries_problems (modify id f tasks) (modify id f m) ≡ []
  unfolding entries_problems modify
  entries-modify tasks [] u fine silent = refl
  entries-modify tasks ((k, t) ∷ m) u fine silent =
      let same = written_same (nat_eq k id) t in
      let parts = append-nil_iff (field_problems k t) _ silent in
      let parts' = append-nil_iff (depends_problems tasks t.id t.depends) _ parts.1 in
      rw
        (
          fields-written k t m fine parts.0,
          same.0,
          same.1,
          depends-modify tasks t.id t.depends,
          parts'.0,
        )
        (entries-modify tasks m u.1 (later-written k t m u.0 fine) parts'.1)

  -- The store after the write has no problem if the written fields have none.
  pub write-IsHealthy :
      (s : TaskStore)
      → ((t : Task) → lookup id s.tasks ≡ some t → field_problems id (f t) ≡ [])
      → IsHealthy s
      → IsHealthy (write id f s)
  unfolding store_invariant_problems build_from_tasks
  write-IsHealthy s fine h =
      let parts = append-nil_iff (entries_problems s.tasks s.tasks) _ h.silent in
      record {
        unique = KeysUnique-modify id f s.tasks h.unique;
        silent =
            rw
              (
                entries-modify s.tasks s.tasks h.unique fine parts.0,
                max_id-modify 0 s.tasks,
                build_tasks-modify s.tasks [],
              )
              (parts.1);
      }

-- The fields of an entry have no problem of their own.
entry-silent :
    (id : ℕ) (t : Task) (tasks m : Dict ℕ Task)
    → lookup id m ≡ some t
    → entries_problems tasks m ≡ []
    → field_problems id t ≡ []
unfolding lookup entries_problems
entry-silent id t tasks [] e h = absurd (cc)
entry-silent id t tasks ((k, x) ∷ m) e h =
    let parts = append-nil_iff (field_problems k x) _ h in
    let parts' = append-nil_iff (depends_problems tasks x.id x.depends) _ parts.1 in
    elim (Bool-cases (nat_eq k id)) [
      | inl q ↦ let same : x ≡ t = ground arith in rw (← (nat_eq_iff k id).0 q, ← same) (parts.0)
      | inr q ↦ entry-silent id t tasks m (rw q at e) parts'.1
    ]

pub fields-silent :
    (id : ℕ) (t : Task) (s : TaskStore)
    → IsHealthy s
    → lookup id s.tasks ≡ some t
    → field_problems id t ≡ []
unfolding store_invariant_problems
fields-silent id t s h e =
    entry-silent id t s.tasks s.tasks e
      (append-nil_iff (entries_problems s.tasks s.tasks) _ h.silent).0
