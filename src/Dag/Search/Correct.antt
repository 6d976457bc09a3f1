-- ===== src/Dag/Search/Correct.antt =====
-- dag/dag.go: the whole search of `DetectCycle`, from its roots.
use terminal_todo.Base.{
  ℕ, zero, suc, ◌≤◌, ◌<◌, ◌≡◌, inl, inr, true, false, List, [], ◌∷◌, ◌++◌, arith, Bool-cases, has,
  has-cons, has-nil, has-append, Eq-nat, All, All-has, has-All, length, ◌∙◌,
}
use terminal_todo.Base.Dict.{keys, lookup, lookup-not_key}
use terminal_todo.Dag.Search.{
  Graph, Walk, Outcome, done, cycle, out_of_fuel, edges_from, visit_all, enter, dfs, visit_roots,
  nodes, start, search_cycle,
}
use terminal_todo.Dag.Search.Contract.{
  Inv, Ends, Extends-refl, Ends-cons, and_then-Ends, visit_all-Ends, enter-Inv, enter-LeadsTo,
  dfs_leaves,
}
use terminal_todo.Dag.Search.Relation.{
  Edge, Reach, HasCycle, IsAcyclic, first_step, Ordered-acyclic, free, free_mono, free-visit,
}

-- The nodes of the graph hold each key and the ends of each edge.
has-nodes_key : (adj : Graph) (k : ℕ) → has k (keys adj) ≡ true → has k (nodes adj) ≡ true
unfolding keys
has-nodes_key [] k h = absurd (cc (has-nil k))
has-nodes_key ((j, tos) ∷ adj) k h = ground (
  arith,
  has-cons k j (keys adj),
  has-cons k j (tos ++ nodes adj),
  has-append k tos (nodes adj),
  has-nodes_key adj k,
)

has-nodes_edge :
    (adj : Graph) (u v : ℕ) → has v (edges_from u adj) ≡ true → has v (nodes adj) ≡ true
unfolding edges_from lookup
has-nodes_edge [] u v h = absurd (cc (has-nil v))
has-nodes_edge ((j, tos) ∷ adj) u v h = ground (
  arith,
  has-cons v j (tos ++ nodes adj),
  has-append v tos (nodes adj),
  has-nodes_edge adj u v,
  has-nil v,
)

has-keys_edge : (adj : Graph) (u v : ℕ) → has v (edges_from u adj) ≡ true → has u (keys adj) ≡ true
unfolding edges_from
has-keys_edge adj u v h = elim (Bool-cases (has u (keys adj))) [
  | inl m ↦ m
  | inr m ↦ absurd (ground (arith, lookup-not_key u adj m, has-nil v))
]

free-le-length : (ns v : List ℕ) → free ns v ≤ length ns
free-le-length [] v = omega arith
free-le-length (n ∷ ns) v = ground (arith, free-le-length ns v)

module _ (adj : Graph) where
  edges_known :
      (node : ℕ) → All (λ v. Edge adj node v × (has v (nodes adj) ≡ true)) (edges_from node adj)
  edges_known node =
      All-has (λ v. Edge adj node v × (has v (nodes adj) ≡ true)) (edges_from node adj)
        (λ v h. (h, has-nodes_edge adj node v h))

  dfs-Ends :
      (fuel n : ℕ) (w : Walk) (f : List ℕ)
      → has n (nodes adj) ≡ true
      → has n w.visited ≡ false
      → Inv adj w f
      → ((x : ℕ) → has x w.on_stack ≡ true → Reach adj x n)
      → free (nodes adj) w.visited < fuel
      → Ends adj w f (n ∷ []) (dfs fuel adj n w)
  unfolding dfs
  dfs-Ends zero n w f m new inv leads room = absurd (omega arith)
  dfs-Ends (suc fuel) n w f m new inv leads room =
      dfs_leaves adj n w f (visit_all (dfs fuel adj) (edges_from n adj) (enter n w)) new inv (
        visit_all-Ends adj fuel (dfs fuel adj) (dfs-Ends fuel) n (edges_from n adj) (enter n w) f
          (edges_known n) (enter-Inv adj n w f inv) (enter-LeadsTo adj n w leads)
          (omega (arith, free-visit (nodes adj) w.visited n m new)))

  visit_roots-Ends :
      (fuel : ℕ) (ns : List ℕ) (w : Walk) (f : List ℕ)
      → All (λ n. has n (nodes adj) ≡ true) ns
      → Inv adj w f
      → ((x : ℕ) → has x w.on_stack ≡ false)
      → free (nodes adj) w.visited < fuel
      → Ends adj w f ns (visit_roots (dfs fuel adj) ns w)
  unfolding visit_roots
  visit_roots-Ends fuel [] w f known inv empty room = record {
    finished' = f;
    inv = inv;
    extends = Extends-refl adj w f;
    reached = tt;
  }
  visit_roots-Ends fuel (n ∷ ns) w f known inv empty room = elim (Bool-cases (has n w.visited)) [
    | inr new ↦
        rw (new, visit_roots)
          (and_then-Ends adj w f n ns (dfs fuel adj n w) (visit_roots (dfs fuel adj) ns)
            (dfs-Ends fuel n w f known.0 new inv (λ x h. absurd (cc (empty x))) room)
            λ w' f' inv' ext.
              visit_roots-Ends fuel ns w' f' known.1 inv' (λ x. ext.restores x ∙ empty x)
                (omega (arith, free_mono (nodes adj) w.visited w'.visited ext.grows)))
    | inl old ↦
        rw (old, visit_roots)
          (Ends-cons adj w f n ns w f (visit_roots (dfs fuel adj) ns w) (Extends-refl adj w f)
            (ground (arith, inv.covered n, empty n))
            (visit_roots-Ends fuel ns w f known.1 inv empty room))
  ]

  -- What each outcome of the search says of the graph.
  abbrev pub Decides : Outcome → Type 0
  Decides (done w) = IsAcyclic adj
  Decides (cycle p) = HasCycle adj
  Decides out_of_fuel = ⊥

  start-Inv : Inv adj start []
  start-Inv = record {
    ordered = tt;
    covered = λ x h. absurd (cc (has-nil x));
    stacked = λ x h. absurd (cc (has-nil x));
  }

  Ends-Decides : (o : Outcome) → Ends adj start [] (keys adj) o → Decides o
  Ends-Decides (cycle p) s = s
  Ends-Decides out_of_fuel s = s
  Ends-Decides (done w) s = λ u r.
      let (v, e, _) = first_step r in
      Ordered-acyclic s.finished' u s.inv.ordered
        (has-All (λ n. has n s.finished' ≡ true) u (keys adj) s.reached (has-keys_edge adj u v e)) r

  -- The search ends within its fuel. It reports a cycle for a graph that has one, and
  -- succeeds on a graph that has none.
  pub search_cycle-Decides : Decides (search_cycle adj)
  unfolding search_cycle
  search_cycle-Decides = Ends-Decides (search_cycle adj) (
      visit_roots-Ends (suc (length (nodes adj))) (keys adj) start []
        (All-has (λ n. has n (nodes adj) ≡ true) (keys adj) (λ k h. has-nodes_key adj k h))
        start-Inv (λ x. has-nil x) (omega (arith, free-le-length (nodes adj) [])))
