-- ===== src/Dag/Search/Contract.antt =====
-- What one call of the search of dag/dag.go does: the invariant, and the contract of a call.
use terminal_todo.Base.{
  ℕ, ◌<◌, ◌≡◌, refl, sym, ◌⊎◌, inl, inr, true, false, ◌||◌, List, [], ◌∷◌, arith, Bool-cases,
  nat_eq_iff, has, has-cons, has-remove, remove, Eq-nat, ◌==◌, All, has-All, subst, ◌∙◌, ap,
}
use terminal_todo.Dag.Search.{
  Graph, Walk, Outcome, done, cycle, out_of_fuel, edges_from, and_then, visit_all, enter, leave,
  nodes,
}
use terminal_todo.Dag.Search.Relation.{
  Edge, Reach, one, step, HasCycle, Reach-snoc, Ordered, free, free_mono,
}

module _ (adj : Graph) where
  -- `finished` holds the nodes that the search is done with, the last one first.
  pub record Inv (w : Walk) (finished : List ℕ) : Type 0 where
    pub ordered : Ordered adj finished
    pub covered : (x : ℕ) → has x w.visited ≡ true → (has x w.on_stack || has x finished) ≡ true
    pub stacked : (x : ℕ) → has x w.on_stack ≡ true → has x w.visited ≡ true

  -- What a call leaves alone, and what it only adds to.
  pub record Extends (w : Walk) (finished : List ℕ) (w' : Walk) (finished' : List ℕ) : Type 0 where
    pub keeps : (x : ℕ) → has x finished ≡ true → has x finished' ≡ true
    pub restores : (x : ℕ) → has x w'.on_stack ≡ has x w.on_stack
    pub grows : (x : ℕ) → has x w.visited ≡ true → has x w'.visited ≡ true

  pub record Success (w : Walk) (finished : List ℕ) (targets : List ℕ) (w' : Walk) : Type 0 where
    pub finished' : List ℕ
    pub inv : Inv w' finished'
    pub extends : Extends w finished w' finished'
    pub reached : All (λ v. has v finished' ≡ true) targets

  -- A call that ends well has finished its targets; else the graph has a cycle. Fuel never runs out.
  abbrev pub Ends : Walk → List ℕ → List ℕ → Outcome → Type 0
  Ends w finished targets (done w') = Success w finished targets w'
  Ends w finished targets (cycle p) = HasCycle adj
  Ends w finished targets out_of_fuel = ⊥

  pub Extends-refl : (w : Walk) (finished : List ℕ) → Extends w finished w finished
  Extends-refl w finished = record { keeps = λ x h. h; restores = λ x. refl; grows = λ x h. h }

  Extends-trans :
      (w : Walk) (f : List ℕ) (w' : Walk) (f' : List ℕ) (w'' : Walk) (f'' : List ℕ)
      → Extends w f w' f'
      → Extends w' f' w'' f''
      → Extends w f w'' f''
  Extends-trans w f w' f' w'' f'' a b = record {
    keeps = λ x h. b.keeps x (a.keeps x h);
    restores = λ x. b.restores x ∙ a.restores x;
    grows = λ x h. b.grows x (a.grows x h);
  }

  -- One target more, after a call that finished it.
  Success-cons :
      (w : Walk) (f : List ℕ) (n : ℕ) (ns : List ℕ) (w' : Walk) (f' : List ℕ) (w'' : Walk)
      → Extends w f w' f'
      → has n f' ≡ true
      → Success w' f' ns w''
      → Success w f (n ∷ ns) w''
  Success-cons w f n ns w' f' w'' a m s = record {
    finished' = s.finished';
    inv = s.inv;
    extends = Extends-trans w f w' f' w'' s.finished' a s.extends;
    reached = (s.extends.keeps n m, s.reached);
  }

  pub Ends-cons :
      (w : Walk) (f : List ℕ) (n : ℕ) (ns : List ℕ) (w' : Walk) (f' : List ℕ) (o : Outcome)
      → Extends w f w' f'
      → has n f' ≡ true
      → Ends w' f' ns o
      → Ends w f (n ∷ ns) o
  Ends-cons w f n ns w' f' (done w'') a m s = Success-cons w f n ns w' f' w'' a m s
  Ends-cons w f n ns w' f' (cycle p) a m s = s
  Ends-cons w f n ns w' f' out_of_fuel a m s = s

  pub and_then-Ends :
      (w : Walk) (f : List ℕ) (n : ℕ) (ns : List ℕ) (o : Outcome) (k : Walk → Outcome)
      → Ends w f (n ∷ []) o
      → ((w' : Walk) (f' : List ℕ) → Inv w' f' → Extends w f w' f' → Ends w' f' ns (k w'))
      → Ends w f (n ∷ ns) (and_then o k)
  and_then-Ends w f n ns (cycle p) k h rest = h
  and_then-Ends w f n ns out_of_fuel k h rest = h
  and_then-Ends w f n ns (done w') k h rest =
      Ends-cons w f n ns w' h.finished' (k w') h.extends h.reached.0
        (rest w' h.finished' h.inv h.extends)

  -- The nodes on the stack lead to `node`.
  abbrev pub Leads : Walk → ℕ → Type 0
  Leads w node = (x : ℕ) → has x w.on_stack ≡ true → Reach adj x node

  abbrev pub LeadsTo : Walk → ℕ → Type 0
  LeadsTo w node = (x : ℕ) → has x w.on_stack ≡ true → (x ≡ node) ⊎ Reach adj x node

  -- What a call demands of `fuel`.
  abbrev pub Room : ℕ → Walk → Type 0
  Room fuel w = free (nodes adj) w.visited < fuel

  -- The contract of `dfs` at some fuel.
  abbrev pub Contract : ℕ → (ℕ → Walk → Outcome) → Type 0
  Contract fuel visit =
      (n : ℕ) (w : Walk) (f : List ℕ)
      → has n (nodes adj) ≡ true
      → has n w.visited ≡ false
      → Inv w f
      → Leads w n
      → Room fuel w
      → Ends w f (n ∷ []) (visit n w)

  Edge-closes :
      (node next : ℕ) → Edge adj node next → (next ≡ node) ⊎ Reach adj next node → HasCycle adj
  Edge-closes node next e (inl q) = (node, one (subst (λ y. Edge adj node y) q e))
  Edge-closes node next e (inr r) = (node, step e r)

  Leads-next : (w : Walk) (node next : ℕ) → LeadsTo w node → Edge adj node next → Leads w next
  Leads-next w node next l e x m = elim (l x m) [
    | inl q ↦ one (subst (λ y. Edge adj y next) (sym q) e)
    | inr r ↦ Reach-snoc r e
  ]

  module _ (fuel : ℕ) (visit : ℕ → Walk → Outcome) (contract : Contract fuel visit) (node : ℕ) where
    pub visit_all-Ends :
        (ns : List ℕ) (w : Walk) (f : List ℕ)
        → All (λ v. Edge adj node v × (has v (nodes adj) ≡ true)) ns
        → Inv w f
        → LeadsTo w node
        → Room fuel w
        → Ends w f ns (visit_all visit ns w)
    unfolding visit_all
    visit_all-Ends [] w f edges inv leads room = record {
      finished' = f;
      inv = inv;
      extends = Extends-refl w f;
      reached = tt;
    }
    visit_all-Ends (next ∷ ns) w f edges inv leads room = elim (Bool-cases (has next w.visited)) [
      | inr new ↦
          rw (new, visit_all)
            (and_then-Ends w f next ns (visit next w) (visit_all visit ns)
              (contract next w f edges.0.1 new inv (Leads-next w node next leads edges.0.0) room)
              λ w' f' inv' ext.
                visit_all-Ends ns w' f' edges.1 inv' (λ x m. leads x (sym (ext.restores x) ∙ m))
                  (omega (arith, free_mono (nodes adj) w.visited w'.visited ext.grows)))
      | inl old ↦ elim (Bool-cases (has next w.on_stack)) [
        | inl here ↦ rw (old, here, visit_all) (Edge-closes node next edges.0.0 (leads next here))
        | inr off ↦
            rw (old, off, visit_all)
              (Ends-cons w f next ns w f (visit_all visit ns w) (Extends-refl w f)
                (ground (arith, inv.covered next)) (visit_all-Ends ns w f edges.1 inv leads room))
      ]
    ]

  -- The state behind `node`'s loop, with `node` finished.
  leave-Success :
      (node : ℕ) (w : Walk) (f : List ℕ) (w' : Walk)
      → has node w.visited ≡ false
      → Inv w f
      → Success (enter node w) f (edges_from node adj) w'
      → Success w f (node ∷ []) (leave node w')
  leave-Success node w f w' new inv s = record {
    finished' = node ∷ s.finished';
    inv = record {
      ordered = (
        λ v e. has-All (λ v. has v s.finished' ≡ true) v (edges_from node adj) s.reached e,
        s.inv.ordered,
      );
      covered = λ x h. ground (
        arith,
        stack x,
        has-cons x node s.finished',
        s.inv.covered x,
        s.extends.restores x,
        has-cons x node w.on_stack,
      );
      stacked = λ x h. s.inv.stacked x (ground (arith, has-remove node x w'.on_stack));
    };
    extends = record {
      keeps = λ x h. ground (arith, has-cons x node s.finished', s.extends.keeps x);
      restores = stack;
      grows = λ x h. s.extends.grows x (ground (arith, has-cons x node w.visited));
    };
    reached = (ground (arith, has-cons node node s.finished', nat_eq_iff node node), tt);
  }
    where
      stack : (x : ℕ) → has x (remove node w'.on_stack) ≡ has x w.on_stack
      stack x = ground (
        arith,
        has-remove node x w'.on_stack,
        s.extends.restores x,
        has-cons x node w.on_stack,
        nat_eq_iff node x,
        inv.stacked node,
        ap (λ y. has y w.on_stack) {x = node} {y = x},
      )

  pub enter-Inv : (node : ℕ) (w : Walk) (f : List ℕ) → Inv w f → Inv (enter node w) f
  enter-Inv node w f inv = record {
    ordered = inv.ordered;
    covered =
        λ x h. ground (arith, has-cons x node w.visited, has-cons x node w.on_stack, inv.covered x);
    stacked =
        λ x h. ground (arith, has-cons x node w.visited, has-cons x node w.on_stack, inv.stacked x);
  }

  pub enter-LeadsTo : (node : ℕ) (w : Walk) → Leads w node → LeadsTo (enter node w) node
  enter-LeadsTo node w l x h = elim (Bool-cases (node == x)) [
    | inl q ↦ inl (sym ((nat_eq_iff node x).0 q))
    | inr q ↦ inr (l x (ground (arith, has-cons x node w.on_stack)))
  ]

  pub dfs_leaves :
      (node : ℕ) (w : Walk) (f : List ℕ) (o : Outcome)
      → has node w.visited ≡ false
      → Inv w f
      → Ends (enter node w) f (edges_from node adj) o
      → Ends w f (node ∷ []) (and_then o (λ w'. done (leave node w')))
  dfs_leaves node w f (done w') new inv s = leave-Success node w f w' new inv s
  dfs_leaves node w f (cycle p) new inv s = s
  dfs_leaves node w f out_of_fuel new inv s = s
