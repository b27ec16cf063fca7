-- ===== src/Dag/Validator/Order.antt =====
-- src/compute-job-queue/dag/dag.validator.ts: what the validator's answer says of the graph.
use stell_aiverse_backend.Prelude.{
  ℕ, zero, suc, ◌<◌, ◌≡◌, refl, ◌∙◌, sym, inl, inr, true, List, [], ◌∷◌, some, arith, Bool-cases,
  length, includes, keys, lookup, Distinct, lookup-excluded, lookup-included,
}
use stell_aiverse_backend.Dag.{DagDependency, valid}
use stell_aiverse_backend.Dag.Validator.{Graph, Kahn, topological_sort, validate, validate_order}
use stell_aiverse_backend.Dag.Validator.Degrees.{remaining, occurrences}
use stell_aiverse_backend.Dag.Validator.Sorting.{IsOrdered, Done, unsorted, topological_sort-Done}

-- The list holds every node of the graph once and nothing else, each after all its dependencies.
pub record IsTopologicalOrder (nodes : Graph) (order : List ℕ) : Type 0 where
  pub distinct : Distinct order
  pub complete : (id : ℕ) → includes order id ≡ includes (keys nodes) id
  pub ordered : IsOrdered nodes [] order

unsorted-zero :
    (sorted ids : List ℕ) (id : ℕ)
    → unsorted sorted ids ≡ 0
    → includes ids id ≡ true
    → includes sorted id ≡ true
unsorted-zero sorted [] id z h = ground arith
unsorted-zero sorted (i ∷ ids) id z h = ground (arith, unsorted-zero sorted ids id)

Done-complete :
    (nodes : Graph) (k : Kahn) (id : ℕ)
    → Done nodes k
    → length k.sorted ≡ length nodes
    → includes k.sorted id ≡ includes (keys nodes) id
Done-complete nodes k id w n = elim (Bool-cases (includes (keys nodes) id)) [
  | inl h ↦ unsorted-zero k.sorted (keys nodes) id (omega (arith, w.counted)) h ∙ sym h
  | inr h ↦ ground (arith, w.inv.settled id, w.inv.others id, lookup-excluded id nodes h)
]

-- Where the sort has taken every node, it has put them in a topological order.
pub topological_sort-IsTopologicalOrder :
    (nodes : Graph)
    → Distinct (keys nodes)
    → length (topological_sort nodes) ≡ length nodes
    → IsTopologicalOrder nodes (topological_sort nodes)
topological_sort-IsTopologicalOrder nodes d n =
    let (k, e, w) = topological_sort-Done nodes d in
    rw e (record {
      distinct = w.inv.sorted_distinct;
      complete = λ id. Done-complete nodes k id w (rw e at n);
      ordered = w.inv.ordered;
    })

-- A graph whose dependencies are all nodes and stand lower than what depends on them.
pub record IsAcyclic (nodes : Graph) (rank : ℕ → ℕ) : Type 0 where
  pub known :
      (id p : ℕ) (deps : List DagDependency)
      → lookup id nodes ≡ some deps
      → 0 < occurrences p deps
      → includes (keys nodes) p ≡ true
  pub lower :
      (id p : ℕ) (deps : List DagDependency)
      → lookup id nodes ≡ some deps
      → 0 < occurrences p deps
      → rank p < rank id

remaining-zero :
    (sorted : List ℕ) (deps : List DagDependency)
    → ((p : ℕ) → 0 < occurrences p deps → includes sorted p ≡ true)
    → remaining sorted deps ≡ 0
remaining-zero sorted [] h = refl
remaining-zero sorted (dep ∷ deps) h =
    ground (arith, h dep.job_id, remaining-zero sorted deps (λ p o. h p (ground arith)))

-- By induction on the rank every node has been sorted.
Done-sorted :
    (nodes : Graph) (rank : ℕ → ℕ) (k : Kahn)
    → IsAcyclic nodes rank
    → Done nodes k
    → (n id : ℕ) (deps : List DagDependency) → rank id < n
    → lookup id nodes ≡ some deps
    → includes k.sorted id ≡ true
Done-sorted nodes rank k a w zero id deps r h = elim r [ ]
Done-sorted nodes rank k a w (suc n) id deps r h =
    let none_left : remaining k.sorted deps ≡ 0 = remaining-zero k.sorted deps λ p o.
      let (ds, e) = lookup-included p nodes (a.known id p deps h o) in
      Done-sorted nodes rank k a w n p ds (omega (arith, a.lower id p deps h o)) e in
    ground (arith, w.inv.degrees id deps h, w.inv.zeros id, w.empty, none_left)

all_sorted :
    (sorted : List ℕ) (ids : List ℕ)
    → ((id : ℕ) → includes ids id ≡ true → includes sorted id ≡ true)
    → unsorted sorted ids ≡ 0
all_sorted sorted [] h = refl
all_sorted sorted (i ∷ ids) h =
    ground (arith, h i, all_sorted sorted ids (λ id m. h id (ground arith)))

-- The sort takes every node of an acyclic graph.
pub length-topological_sort :
    (nodes : Graph) (rank : ℕ → ℕ)
    → Distinct (keys nodes)
    → IsAcyclic nodes rank
    → length (topological_sort nodes) ≡ length nodes
length-topological_sort nodes rank d a =
    let (k, e, w) = topological_sort-Done nodes d in
    let z : unsorted k.sorted (keys nodes) ≡ 0 = all_sorted k.sorted (keys nodes) (λ id m.
      (λ (v : (ds : List DagDependency) × (lookup id nodes ≡ some ds)).
          Done-sorted nodes rank k a w (suc (rank id)) id v.0 (omega arith) v.1)
        (lookup-included id nodes m)) in
    rw e (omega (arith, w.counted))

validate_order-valid :
    (nodes : Graph) (order : List ℕ)
    → Distinct (keys nodes)
    → validate_order nodes ≡ valid order
    → IsTopologicalOrder nodes order
unfolding validate_order
validate_order-valid nodes order d h =
    let e : topological_sort nodes ≡ order = ground arith in
    rw (← e) (topological_sort-IsTopologicalOrder nodes d (ground arith))

-- When the validator accepts a graph, the order that it returns is a topological order: it holds
-- every node once and nothing else, each node after all its dependencies.
pub validate-valid :
    (nodes : Graph) (order : List ℕ)
    → Distinct (keys nodes)
    → validate nodes ≡ valid order
    → IsTopologicalOrder nodes order
unfolding validate
validate-valid [] order d h = ground arith
validate-valid (n ∷ nodes) order d h = validate_order-valid (n ∷ nodes) order d (ground arith)
