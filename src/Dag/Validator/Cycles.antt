-- ===== src/Dag/Validator/Cycles.antt =====
-- src/compute-job-queue/dag/dag.validator.ts: the depth-first search reports no cycle in an acyclic
-- graph, so the validator accepts it.
use stell_aiverse_backend.Prelude.{
  ℕ, zero, suc, ◌+◌, ◌≤◌, ◌<◌, ◌≡◌, ◌≢◌, refl, inl, inr, true, List, [], ◌∷◌, Option, none, some,
  arith, Bool-cases, Option-cases, get_elem?, includes, keys, lookup, insert, lookup-insert,
  Distinct, count, includes-keys, lookup-included,
}
use stell_aiverse_backend.Dag.{DagDependency, valid}
use stell_aiverse_backend.Dag.Validator.{
  Graph, Colour, white, grey, black, Dfs, visit_child, dfs_round, dfs, start_at, dfs_all, all_white,
  detect_cycles, children_of, build_children, dfs_fuel, dep_errors, structural_errors, validate,
  validate_order, topological_sort,
}
use stell_aiverse_backend.Dag.Validator.Degrees.{
  occurrences, count-children_of, children_of-excluded,
}
use stell_aiverse_backend.Dag.Validator.Order.{IsAcyclic, length-topological_sort}
use stell_aiverse_backend.Dag.Validator.Rounds.{Whites, cost, start-ends}
use stell_aiverse_backend.Dag.Validator.Costs.{first, first-Whites, first-cost}

abbrev ids : List (ℕ × ℕ) → List ℕ
ids [] = []
ids ((n, i) ∷ stack) = n ∷ ids stack

-- The nodes of the stack are in the graph, and their ranks fall from the top down.
abbrev Falls : Graph → (ℕ → ℕ) → List (ℕ × ℕ) → Type 0
Falls nodes rank [] = Unit
Falls nodes rank ((n, i) ∷ stack) =
    (includes (keys nodes) n ≡ true)
    × ((m : ℕ) → includes (ids stack) m ≡ true → rank m < rank n)
    × Falls nodes rank stack

-- No cycle has been reported, and the grey nodes are those of the stack.
record Clean (nodes : Graph) (rank : ℕ → ℕ) (s : Dfs) : Type 0 where
  falls : Falls nodes rank s.stack
  greys : (id : ℕ) → lookup id s.colour ≡ some grey → includes (ids s.stack) id ≡ true
  quiet : s.errors ≡ []

count-get_elem? : (l : List ℕ) (i c : ℕ) → get_elem? l i ≡ some c → 0 < count c l
count-get_elem? [] i c h = ground arith
count-get_elem? (x ∷ l) zero c h = ground arith
count-get_elem? (x ∷ l) (suc i) c h = ground (arith, count-get_elem? l i c h)

module _ (nodes : Graph) (rank : ℕ → ℕ) (d : Distinct (keys nodes)) (a : IsAcyclic nodes rank) where
  -- A child is a node of the graph, and stands higher.
  child-higher :
      (n i c : ℕ)
      → includes (keys nodes) n ≡ true
      → get_elem? (children_of (build_children nodes) n) i ≡ some c
      → (includes (keys nodes) c ≡ true) × (rank n < rank c)
  child-higher n i c k h = elim (Bool-cases (includes (keys nodes) c)) [
    | inl m ↦
        let (deps, e) = lookup-included c nodes m in
        (
          m,
          a.lower c n deps e
              (omega (arith, count-get_elem? _ i c h, count-children_of nodes n c deps d k e)),
        )
    | inr m ↦ absurd (omega (arith, count-get_elem? _ i c h, children_of-excluded nodes n c k m))
  ]

  below_top :
      (n j m : ℕ) (rest stack : List (ℕ × ℕ))
      → stack ≡ (n, j) ∷ rest
      → Falls nodes rank stack
      → includes (ids stack) m ≡ true
      → (includes (keys nodes) n ≡ true) × (rank m ≤ rank n)
  below_top n j m rest stack e f h =
      let f' : Falls nodes rank ((n, j) ∷ rest) = rw e at f in
      let h' : includes (ids ((n, j) ∷ rest)) m ≡ true = rw e at h in (f'.0, ground (arith, f'.1 m))

  raise-Clean :
      (n i j : ℕ) (rest : List (ℕ × ℕ)) (s : Dfs)
      → s.stack ≡ (n, i) ∷ rest
      → Clean nodes rank s
      → Clean nodes rank (record s { stack = (n, j) ∷ rest })
  raise-Clean n i j rest s e v = record {
    falls = falls';
    greys =
        λ id g. (let h : includes (ids ((n, i) ∷ rest)) id ≡ true = rw e at (v.greys id g) in h);
    quiet = v.quiet;
  }
    where
      falls' : Falls nodes rank ((n, i) ∷ rest)
      falls' = rw e at (v.falls)

  visit-Clean :
      (n i j c : ℕ) (rest : List (ℕ × ℕ)) (s : Dfs)
      → get_elem? (children_of (build_children nodes) n) i ≡ some c
      → includes (keys nodes) n ≡ true
      → s.stack ≡ (n, j) ∷ rest
      → Clean nodes rank s
      → (o : Option Colour) → lookup c s.colour ≡ o
      → Clean nodes rank (visit_child o c s)
  unfolding visit_child
  visit-Clean n i j c rest s h k e v none l = v
  visit-Clean n i j c rest s h k e v (some black) l = v
  visit-Clean n i j c rest s h k e v (some grey) l =
      absurd (
        omega (arith, below_top n j c rest s.stack e v.falls (v.greys c l), child-higher n i c k h))
  visit-Clean n i j c rest s h k e v (some white) l = record {
    falls = (
      (child-higher n i c k h).0,
      (λ m im. omega (arith, below_top n j m rest s.stack e v.falls im, child-higher n i c k h)),
      v.falls,
    );
    greys = λ id g. ground (arith, v.greys id, lookup-insert c id grey s.colour);
    quiet = v.quiet;
  }

  leave-Clean :
      (n i : ℕ) (rest : List (ℕ × ℕ)) (s : Dfs)
      → s.stack ≡ (n, i) ∷ rest
      → Clean nodes rank s
      → Clean nodes rank (record s { colour = insert n black s.colour; stack = rest })
  leave-Clean n i rest s e v = record {
    falls = whole.2;
    greys = λ id g. ground (arith, on_stack id, lookup-insert n id black s.colour);
    quiet = v.quiet;
  }
    where
      whole : Falls nodes rank ((n, i) ∷ rest)
      whole = rw e at (v.falls)

      on_stack :
          (id : ℕ) → lookup id s.colour ≡ some grey → includes (ids ((n, i) ∷ rest)) id ≡ true
      on_stack id g = rw e at (v.greys id g)

  round-Clean :
      (n i : ℕ) (rest : List (ℕ × ℕ)) (s : Dfs)
      → s.stack ≡ (n, i) ∷ rest
      → Clean nodes rank s
      → Clean nodes rank (dfs_round (build_children nodes) n i rest s)
  unfolding dfs_round
  round-Clean n i rest s e v =
      elim (Option-cases (get_elem? (children_of (build_children nodes) n) i)) [
        | inl h ↦ rw (h, dfs_round) (leave-Clean n i rest s e v)
        | inr (c, h) ↦
            rw (h, dfs_round)
              (visit-Clean n i (i + 1) c rest _ h top refl (raise-Clean n i (i + 1) rest s e v) _
                refl)
      ]
    where
      whole : Falls nodes rank ((n, i) ∷ rest)
      whole = rw e at (v.falls)

      top : includes (keys nodes) n ≡ true
      top = whole.0

  dfs-Clean :
      (fuel : ℕ) (s : Dfs) (stack : List (ℕ × ℕ))
      → s.stack ≡ stack
      → Clean nodes rank s
      → Clean nodes rank (dfs fuel (build_children nodes) s)
  unfolding dfs
  dfs-Clean zero s stack e v = v
  dfs-Clean (suc fuel) s [] e v = rw (e, dfs) v
  dfs-Clean (suc fuel) s ((n, i) ∷ rest) e v =
      rw (e, dfs) (dfs-Clean fuel _ _ refl (round-Clean n i rest s e v))

  start-Clean :
      (fuel id : ℕ) (s : Dfs)
      → includes (keys nodes) id ≡ true
      → s.stack ≡ []
      → Clean nodes rank s
      → (o : Option Colour) → Clean nodes rank (start_at o fuel id (build_children nodes) s)
  unfolding start_at
  start-Clean fuel id s k e v none = v
  start-Clean fuel id s k e v (some grey) = v
  start-Clean fuel id s k e v (some black) = v
  start-Clean fuel id s k e v (some white) = dfs-Clean fuel _ ((id, 0) ∷ []) refl (record {
    falls = (k, (λ m h. ground arith), tt);
    greys = λ j g. ground (arith, no_grey j, lookup-insert id j grey s.colour);
    quiet = v.quiet;
  })
    where
      no_grey : (j : ℕ) → lookup j s.colour ≡ some grey → includes (ids []) j ≡ true
      no_grey j g = rw e at (v.greys j g)

  starts-Clean :
      (fuel : ℕ) (starts : List ℕ) (s : Dfs)
      → ((id : ℕ) → includes starts id ≡ true → includes (keys nodes) id ≡ true)
      → s.stack ≡ []
      → Clean nodes rank s
      → Whites (keys nodes) s
      → cost (build_children nodes) (keys nodes) s < fuel
      → Clean nodes rank (dfs_all fuel starts (build_children nodes) s)
  unfolding dfs_all
  starts-Clean fuel [] s k e v w m = v
  starts-Clean fuel (id ∷ starts) s k e v w m =
      let (z, c, w') =
        start-ends (build_children nodes) (keys nodes) fuel id s e w m (lookup id s.colour) refl in
      starts-Clean fuel starts _ (λ j h. k j (ground arith)) z
        (start-Clean fuel id s (k id (ground arith)) e v (lookup id s.colour)) w' (omega arith)

  all_white-grey :
      (g : Graph) (m : List (ℕ × Colour)) (id : ℕ)
      → lookup id (all_white g m) ≡ some grey
      → lookup id m ≡ some grey
  unfolding all_white
  all_white-grey [] m id h = h
  all_white-grey ((node, deps) ∷ g) m id h =
      ground (arith, all_white-grey g (insert node white m) id h, lookup-insert node id white m)

  first-Clean : Clean nodes rank (first nodes)
  unfolding lookup
  first-Clean = record {
    falls = tt;
    greys = λ id g. ground (arith, all_white-grey nodes [] id g);
    quiet = refl;
  }

  no_cycles : detect_cycles nodes ≡ []
  unfolding detect_cycles
  no_cycles =
      (starts-Clean (dfs_fuel nodes) (keys nodes) (first nodes) (λ id h. h) refl first-Clean
        (first-Whites nodes) (first-cost nodes d)).quiet

dep_errors-nil :
    (ids : List ℕ) (node : ℕ) (deps : List DagDependency)
    → ((p : ℕ) → 0 < occurrences p deps → (includes ids p ≡ true) × (p ≢ node))
    → dep_errors ids node deps ≡ []
unfolding dep_errors
dep_errors-nil ids node [] h = refl
dep_errors-nil ids node (dep ∷ deps) h =
    ground (arith, h dep.job_id, dep_errors-nil ids node deps (λ p o. h p (ground arith)))

structural_errors-nil :
    (ids : List ℕ) (g : Graph)
    → Distinct (keys g)
    → ((id : ℕ) (deps : List DagDependency) → lookup id g ≡ some deps → dep_errors ids id deps ≡ [])
    → structural_errors ids g ≡ []
unfolding structural_errors lookup
structural_errors-nil ids [] d h = refl
structural_errors-nil ids ((node, deps) ∷ g) d h = ground (
  arith,
  h node deps,
  structural_errors-nil ids g d.1
      (λ id ds e. h id ds (ground (arith, includes-keys id ds g e, d.0))),
)

no_structural_errors :
    (nodes : Graph) (rank : ℕ → ℕ)
    → Distinct (keys nodes)
    → IsAcyclic nodes rank
    → structural_errors (keys nodes) nodes ≡ []
no_structural_errors nodes rank d a = structural_errors-nil (keys nodes) nodes d λ id deps e.
    dep_errors-nil (keys nodes) id deps λ p o. (
      a.known id p deps e o,
      (λ same.
          (let low : rank p < rank id = a.lower id p deps e o in
            let same_low : rank id < rank id = rw same at (low) in omega arith)),
    )

-- A graph with a node, whose dependencies are all nodes and stand lower than what depends on them,
-- is accepted, with the order of the sort: no cycle is reported where there is none.
pub validate-IsAcyclic :
    (nodes : Graph) (rank : ℕ → ℕ)
    → nodes ≢ []
    → Distinct (keys nodes)
    → IsAcyclic nodes rank
    → validate nodes ≡ valid (topological_sort nodes)
unfolding validate validate_order
validate-IsAcyclic [] rank n d a = absurd (n refl)
validate-IsAcyclic (x ∷ nodes) rank n d a = ground (
  arith,
  no_structural_errors (x ∷ nodes) rank d a,
  no_cycles (x ∷ nodes) rank d a,
  length-topological_sort (x ∷ nodes) rank d a,
)
