-- ===== src/Queries/Descendants.antt =====
-- internal/cli/cmd_lineage.go: what `lineageDescendants` finds.
use terminal_todo.Base.{
  Eq-nat, ℕ, zero, suc, ◌≤◌, ◌<◌, ◌≡◌, refl, sym, ◌∙◌, ◌⊎◌, inl, inr, true, false, ◌||◌, List, [],
  ◌∷◌, some, arith, nat_eq, nat_eq_iff, Bool-cases, has, has-cons, has-nil, All, All-append,
  All-mono, tally, length, subst,
}
use terminal_todo.Base.Dict.{Dict, KeysUnique, keys, lookup, values, lookup-keys}
use terminal_todo.Store.{Task}
use terminal_todo.Store.Invariant.{AllEntries}
use terminal_todo.Dag.Search.Relation.{free, free_mono, free-visit}
use terminal_todo.Lifecycle.Prune.{ids_of}
use terminal_todo.Queries.Lineage.{children_of, Walk, visit, walk_each, walk, lineage_descendants}
use terminal_todo.Queries.Children.{
  IsChild, children_of-IsChild, IsChild-has, ids-snoc, tally-snoc, tally_absent, has-ids,
  free-length,
}

-- A task under the root, by one step of lineage or more.
pub data IsUnder (m : Dict ℕ Task) (root : ℕ) : ℕ → Type 0 where
  child_of_root : {k : ℕ} → IsChild m root k → IsUnder m root k
  further : {parent k : ℕ} → IsUnder m root parent → IsChild m parent k → IsUnder m root k

-- Exactly the other tasks under the root, each once.
pub record AreDescendants (m : Dict ℕ Task) (root : ℕ) (ts : List Task) : Type 0 where
  pub each : All (λ t. (lookup t.id m ≡ some t) × IsUnder m root t.id) ts
  pub all : (k : ℕ) → IsUnder m root k → (nat_eq k root || has k (ids_of ts)) ≡ true
  pub once : (k : ℕ) → tally (nat_eq k) (root ∷ ids_of ts) ≤ 1

module _ (n : ℕ) (m : Dict ℕ Task) (a : AllEntries n m) (u : KeysUnique m) (root : ℕ) where
  abbrev IsAt : ℕ → Type 0
  IsAt k = (k ≡ root) ⊎ IsUnder m root k

  abbrev IsFound : Task → Type 0
  IsFound t = (lookup t.id m ≡ some t) × IsUnder m root t.id

  under : (parent k : ℕ) → IsAt parent → IsChild m parent k → IsUnder m root k
  under parent k (inl q) c = child_of_root (subst (λ p. IsChild m p k) q c)
  under parent k (inr b) c = further b c

  -- All children of a node are visited.
  abbrev Closed : ℕ → List ℕ → Type 0
  Closed x visited = All (λ t. has t.id visited ≡ true) (children_of (values m) x)

  record IsGood (w : Walk) : Type 0 where
    agrees : (k : ℕ) → has k w.visited ≡ (nat_eq k root || has k (ids_of w.result))
    each : All IsFound w.result
    once : (k : ℕ) → tally (nat_eq k) (root ∷ ids_of w.result) ≤ 1

  -- What a walk adds: nodes whose children are visited as well.
  record Grows (w w' : Walk) : Type 0 where
    good : IsGood w'
    grows : (x : ℕ) → has x w.visited ≡ true → has x w'.visited ≡ true
    closes : (x : ℕ) → has x w'.visited ≡ true → (has x w.visited ≡ true) ⊎ Closed x w'.visited

  Grows-refl : (w : Walk) → IsGood w → Grows w w
  Grows-refl w g = record { good = g; grows = λ x h. h; closes = λ x h. inl h }

  Closed-mono :
      (x : ℕ) (v v' : List ℕ)
      → ((k : ℕ) → has k v ≡ true → has k v' ≡ true)
      → Closed x v
      → Closed x v'
  Closed-mono x v v' f c = All-mono _ _ (children_of (values m) x) (λ t. f t.id) c

  Grows-trans : (w w' w'' : Walk) → Grows w w' → Grows w' w'' → Grows w w''
  Grows-trans w w' w'' g h = record {
    good = h.good;
    grows = λ x e. h.grows x (g.grows x e);
    closes = λ x e. elim (h.closes x e) [
      | inr c ↦ inr c
      | inl back ↦ elim (g.closes x back) [
        | inl b ↦ inl b
        | inr c ↦ inr (Closed-mono x w'.visited w''.visited h.grows c)
      ]
    ];
  }

  visit-IsGood :
      (t : Task) (w : Walk) → IsGood w → has t.id w.visited ≡ false → IsFound t → IsGood (visit t w)
  visit-IsGood t w g new found = record {
    agrees = λ k. ground (arith, g.agrees k, has-cons k t.id w.visited, ids-snoc k t w.result);
    each = All-append IsFound w.result (t ∷ []) g.each (found, tt);
    once = λ k. ground (
      arith,
      g.once k,
      g.agrees t.id,
      tally-snoc k t w.result,
      tally_absent t.id (ids_of w.result),
      nat_eq_iff k t.id,
    );
  }

  -- The walk below a visited task closes it.
  visited-Grows :
      (t : Task) (w w' : Walk) → Grows (visit t w) w' → Closed t.id w'.visited → Grows w w'
  visited-Grows t w w' g c = record {
    good = g.good;
    grows = λ x e. g.grows x (ground (arith, has-cons x t.id w.visited));
    closes = λ x e. elim (g.closes x e) [
      | inr closed ↦ inr closed
      | inl before ↦ elim (Bool-cases (nat_eq t.id x)) [
        | inl q ↦ inr (subst (λ y. Closed y w'.visited) ((nat_eq_iff t.id x).0 q) c)
        | inr q ↦ inl (ground (arith, has-cons x t.id w.visited))
      ]
    ];
  }

  abbrev HasFuel : ℕ → Walk → Type 0
  HasFuel fuel w = free (keys m) w.visited < fuel

  -- The contract of the walk at some fuel.
  abbrev Contract : ℕ → (ℕ → Walk → Walk) → Type 0
  Contract fuel within =
      (k : ℕ) (w : Walk)
      → IsGood w
      → IsAt k
      → HasFuel fuel w
      → Grows w (within k w) × Closed k (within k w).visited

  -- What the loop over the children does.
  abbrev Visits : Walk → List Task → Walk → Type 0
  Visits w ts w' = Grows w w' × All (λ t. has t.id w'.visited ≡ true) ts

  walk_each-old :
      (within : ℕ → Walk → Walk) (t : Task) (ts : List Task) (w : Walk)
      → has t.id w.visited ≡ true
      → walk_each within ts w ≡ walk_each within (t ∷ ts) w
  unfolding walk_each
  walk_each-old within t ts w old = rw (old, walk_each) refl

  walk_each-new :
      (within : ℕ → Walk → Walk) (t : Task) (ts : List Task) (w : Walk)
      → has t.id w.visited ≡ false
      → walk_each within ts (within t.id (visit t w)) ≡ walk_each within (t ∷ ts) w
  unfolding walk_each
  walk_each-new within t ts w new = rw (new, walk_each) refl

  walk_each-Visits :
      (fuel : ℕ) (within : ℕ → Walk → Walk) (parent : ℕ) (ts : List Task) (w : Walk)
      → Contract fuel within
      → IsAt parent
      → All (λ t. (lookup t.id m ≡ some t) × IsChild m parent t.id) ts
      → IsGood w
      → HasFuel (suc fuel) w
      → Visits w ts (walk_each within ts w)
  unfolding walk_each
  walk_each-Visits fuel within parent [] w contract at c g room = (Grows-refl w g, tt)
  walk_each-Visits fuel within parent (t ∷ ts) w contract at c g room =
      elim (Bool-cases (has t.id w.visited)) [
        | inl old ↦
            let (grown, rest) = walk_each-Visits fuel within parent ts w contract at c.1 g room in
            subst (Visits w (t ∷ ts)) (walk_each-old within t ts w old)
              (grown, (grown.grows t.id old, rest))
        | inr new ↦
            let is_under = under parent t.id at c.0.1 in
            let less = free-visit (keys m) w.visited t.id (lookup-keys t.id m c.0.0) new in
            let (inner, closed) =
              contract t.id (visit t w) (visit-IsGood t w g new (c.0.0, is_under)) (inr is_under)
                (omega arith) in
            let w' = within t.id (visit t w) in
            let step = visited-Grows t w w' inner closed in
            let (grown, rest) =
              walk_each-Visits fuel within parent ts w' contract at c.1 step.good
                (omega (arith, free_mono (keys m) w.visited w'.visited step.grows)) in
            let here =
              inner.grows t.id
                (ground (arith, has-cons t.id t.id w.visited, nat_eq_iff t.id t.id)) in
            subst (Visits w (t ∷ ts)) (walk_each-new within t ts w new)
              (Grows-trans w w' _ step grown, (grown.grows t.id here, rest))
      ]

  walk-Contract : (fuel : ℕ) → Contract fuel (walk fuel (values m))
  unfolding walk
  walk-Contract zero k w g at room = absurd (omega arith)
  walk-Contract (suc fuel) k w g at room =
      walk_each-Visits fuel (walk fuel (values m)) k (children_of (values m) k) w
        (walk-Contract fuel) at (children_of-IsChild n m a k u) g room

  abbrev outset : Walk
  outset = record { visited = root ∷ []; result = [] }

  outset-IsGood : IsGood outset
  outset-IsGood = record {
    agrees = λ k. ground (arith, has-cons k root [], has-nil k, nat_eq_iff k root);
    each = tt;
    once = λ k. ground arith;
  }

  Closed-IsChild : (x k : ℕ) (v : List ℕ) → Closed x v → IsChild m x k → has k v ≡ true
  Closed-IsChild x k v c child =
      has-ids (children_of (values m) x) v k c (IsChild-has n m a x k child)

  -- Where all children of the root and of the visited nodes are visited, all nodes under it are.
  Closed-IsUnder :
      (w : Walk) (k : ℕ)
      → Grows outset w
      → Closed root w.visited
      → IsUnder m root k
      → has k w.visited ≡ true
  Closed-IsUnder w k g c (child_of_root child) = Closed-IsChild root k w.visited c child
  Closed-IsUnder w k g c (further {parent = p} b child) =
      elim (g.closes p (Closed-IsUnder w p g c b)) [
        | inr closed ↦ Closed-IsChild p k w.visited closed child
        | inl start ↦
            let same : root ≡ p =
              ground (arith, has-cons p root [], has-nil p, nat_eq_iff root p) in
            Closed-IsChild p k w.visited (subst (λ y. Closed y w.visited) same c) child
      ]

  -- In a well-formed map of tasks, `lineageDescendants` finds exactly the tasks under the root by one
  -- step of lineage or more, the root left out, each once; the walk never runs out of fuel.
  pub lineage_descendants-AreDescendants : AreDescendants m root (lineage_descendants root m)
  unfolding lineage_descendants
  lineage_descendants-AreDescendants =
      let (g, c) =
        walk-Contract (suc (length m)) root outset outset-IsGood (inl refl)
          (omega (arith, free-length m (root ∷ []))) in
      let end = walk (suc (length m)) (values m) root outset in
      record {
        each = g.good.each;
        all = λ k b. sym (g.good.agrees k) ∙ Closed-IsUnder end k g c b;
        once = g.good.once;
      }
