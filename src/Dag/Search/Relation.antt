-- ===== src/Dag/Search/Relation.antt =====
-- What a cycle of the dependency graph is, apart from the search of dag/dag.go.
use terminal_todo.Base.{
  ℕ, ◌≤◌, ◌<◌, ◌≡◌, sym, refl, inl, inr, ◌⊎◌, true, false, not, List, [], ◌∷◌, arith, Bool-cases,
  has, has-cons, has-nil, tally, Eq-nat, subst, nat_eq_iff, ◌==◌,
}
use terminal_todo.Dag.Search.{Graph, edges_from}

-- `v` depends on `u`.
abbrev pub Edge : Graph → ℕ → ℕ → Type 0
Edge adj u v = has v (edges_from u adj) ≡ true

-- A walk along one edge or more.
pub data Reach (adj : Graph) : ℕ → ℕ → Type 0 where
  one : {u v : ℕ} → Edge adj u v → Reach adj u v
  step : {u v w : ℕ} → Edge adj u v → Reach adj v w → Reach adj u w

abbrev pub HasCycle : Graph → Type 0
HasCycle adj = (u : ℕ) × Reach adj u u

abbrev pub IsAcyclic : Graph → Type 0
IsAcyclic adj = (u : ℕ) → ¬ Reach adj u u

pub Reach-snoc : {adj : Graph} {u v w : ℕ} → Reach adj u v → Edge adj v w → Reach adj u w
Reach-snoc (one e) f = step e (one f)
Reach-snoc (step e r) f = step e (Reach-snoc r f)

pub Reach-mono :
    {adj adj' : Graph} {u v : ℕ}
    → ((x y : ℕ) → Edge adj x y → Edge adj' x y)
    → Reach adj u v
    → Reach adj' u v
Reach-mono h (one {u = x} {v = y} e) = one (h x y e)
Reach-mono h (step {u = x} {v = y} e r) = step (h x y e) (Reach-mono h r)

pub IsAcyclic-mono :
    {adj adj' : Graph} → ((x y : ℕ) → Edge adj x y → Edge adj' x y) → IsAcyclic adj' → IsAcyclic adj
IsAcyclic-mono h acyclic u r = acyclic u (Reach-mono h r)

-- Each node of the list has all of its successors behind it.
abbrev pub Ordered : Graph → List ℕ → Type 0
Ordered adj [] = Unit {0}
Ordered adj (x ∷ xs) = ((v : ℕ) → Edge adj x v → has v xs ≡ true) × Ordered adj xs

Ordered-closed :
    (adj : Graph) (xs : List ℕ) (u v : ℕ)
    → Ordered adj xs
    → has u xs ≡ true
    → Edge adj u v
    → has v xs ≡ true
Ordered-closed adj [] u v o m e = absurd (cc (has-nil u))
Ordered-closed adj (x ∷ xs) u v o m e = elim (Bool-cases (x == u)) [
  | inl q ↦
      let tail : has v xs ≡ true =
        o.0 v (subst (λ y. Edge adj y v) (sym ((nat_eq_iff x u).0 q)) e) in
      ground (arith, has-cons v x xs)
  | inr q ↦
      let tail : has v xs ≡ true =
        Ordered-closed adj xs u v o.1 (ground (arith, has-cons u x xs)) e in
      ground (arith, has-cons v x xs)
]

Ordered-Reach :
    {adj : Graph} (xs : List ℕ) {u v : ℕ}
    → Ordered adj xs
    → has u xs ≡ true
    → Reach adj u v
    → has v xs ≡ true
Ordered-Reach {adj} xs o m (one {u = u} {v = v} e) = Ordered-closed adj xs u v o m e
Ordered-Reach {adj} xs o m (step {u = u} {v = v} e r) =
    Ordered-Reach xs o (Ordered-closed adj xs u v o m e) r

-- The node where a walk goes next.
pub first_step :
    {adj : Graph} {u v : ℕ} → Reach adj u v → (w : ℕ) × Edge adj u w × ((w ≡ v) ⊎ Reach adj w v)
first_step (one {v = v} e) = (v, e, inl refl)
first_step (step {v = v} e r) = (v, e, inr r)

-- No walk returns to a node of an ordered list.
pub Ordered-acyclic :
    {adj : Graph} (xs : List ℕ) (u : ℕ) → Ordered adj xs → has u xs ≡ true → ¬ Reach adj u u
Ordered-acyclic [] u o m r = absurd (cc (has-nil u))
Ordered-acyclic {adj} (x ∷ xs) u o m r = elim (Bool-cases (has u xs)) [
  | inl later ↦ Ordered-acyclic xs u o.1 later r
  | inr first ↦
      let q : x ≡ u = ground (arith, has-cons u x xs) in
      let (w, e, more) = first_step r in
      let at_w : has w xs ≡ true = o.0 w (subst (λ y. Edge adj y w) (sym q) e) in
      let back : has u xs ≡ true = elim more [
        | inl p ↦ subst (λ y. has y xs ≡ true) p at_w
        | inr r' ↦ Ordered-Reach xs o.1 at_w r'
      ] in
      cc
]

-- How many entries of a list are not visited.
abbrev pub free : List ℕ → List ℕ → ℕ
free nodes visited = tally (λ n. not (has n visited)) nodes

pub free_mono :
    (nodes v v' : List ℕ)
    → ((x : ℕ) → has x v ≡ true → has x v' ≡ true)
    → free nodes v' ≤ free nodes v
free_mono [] v v' h = omega arith
free_mono (n ∷ nodes) v v' h = ground (arith, free_mono nodes v v' h, h n)

pub free-visit :
    (nodes v : List ℕ) (n : ℕ)
    → has n nodes ≡ true
    → has n v ≡ false
    → free nodes (n ∷ v) < free nodes v
free-visit [] v n m new = absurd (cc (has-nil n))
free-visit (k ∷ nodes) v n m new = elim (Bool-cases (k == n)) [
  | inl q ↦
      let old : has k v ≡ false = rw ((nat_eq_iff k n).0 q) new in
      ground (
        arith,
        has-cons k n v,
        nat_eq_iff n k,
        free_mono nodes v (n ∷ v) (λ x h. ground (arith, has-cons x n v)),
      )
  | inr q ↦ ground (
    arith,
    has-cons k n v,
    has-cons n k nodes,
    nat_eq_iff n k,
    free-visit nodes v n (ground (arith, has-cons n k nodes)) new,
  )
]
