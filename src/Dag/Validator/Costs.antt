-- ===== src/Dag/Validator/Costs.antt =====
-- src/compute-job-queue/dag/dag.validator.ts: the depth-first search starts below its fuel, and so it
-- ends.
use stell_aiverse_backend.Prelude.{
  ℕ, ◌+◌, ◌≤◌, ◌<◌, ◌≡◌, refl, ap, inl, inr, ◌⊎◌, true, false, List, [], ◌∷◌, ◌++◌, some, arith,
  Option-cases, length, length-append, includes, keys, lookup, insert, lookup-insert, Distinct,
}
use stell_aiverse_backend.Dag.{DagDependency}
use stell_aiverse_backend.Dag.Validator.{
  Graph, Colour, white, Dfs, dfs_all, all_white, children_of, push_child, push_children, link,
  no_children, build_children, edge_count, dfs_fuel,
}
use stell_aiverse_backend.Dag.Validator.Rounds.{Whites, cost, white_cost, start-ends}

-- The number of children in all the lists.
abbrev width : List (ℕ × List ℕ) → List ℕ → ℕ
width m [] = 0
width m (id ∷ ids) = length (children_of m id) + width m ids

width-push_child_excluded :
    (parent child : ℕ) (m : List (ℕ × List ℕ)) (ids : List ℕ)
    → includes ids parent ≡ false
    → width (push_child parent child m) ids ≡ width m ids
unfolding push_child
width-push_child_excluded parent child m [] h = refl
width-push_child_excluded parent child m (id ∷ ids) h = elim (Option-cases (lookup parent m)) [
  | inl e ↦ ground (arith, e, width-push_child_excluded parent child m ids)
  | inr (l, e) ↦ ground (
    arith,
    e,
    width-push_child_excluded parent child m ids,
    lookup-insert parent id (l ++ child ∷ []) m,
  )
]

width-push_child :
    (parent child : ℕ) (m : List (ℕ × List ℕ)) (ids : List ℕ)
    → Distinct ids
    → width (push_child parent child m) ids ≤ width m ids + 1
unfolding push_child
width-push_child parent child m [] d = omega arith
width-push_child parent child m (id ∷ ids) d = elim (Option-cases (lookup parent m)) [
  | inl e ↦ ground (arith, e, width-push_child parent child m ids d.1)
  | inr (l, e) ↦ ground (
    arith,
    e,
    width-push_child parent child m ids d.1,
    width-push_child_excluded parent child m ids,
    lookup-insert parent id (l ++ child ∷ []) m,
    length-append l (child ∷ []),
  )
]

width-push_children :
    (node : ℕ) (deps : List DagDependency) (m : List (ℕ × List ℕ)) (ids : List ℕ)
    → Distinct ids
    → width (push_children node deps m) ids ≤ width m ids + length deps
unfolding push_children
width-push_children node [] m ids d = omega arith
width-push_children node (dep ∷ deps) m ids d = omega (
  arith,
  width-push_children node deps (push_child dep.job_id node m) ids d,
  width-push_child dep.job_id node m ids d,
)

width-link :
    (nodes : Graph) (m : List (ℕ × List ℕ)) (ids : List ℕ)
    → Distinct ids
    → width (link nodes m) ids ≤ width m ids + edge_count nodes
unfolding link edge_count
width-link [] m ids d = omega arith
width-link ((node, deps) ∷ nodes) m ids d = omega (
  arith,
  width-link nodes (push_children node deps m) ids d,
  width-push_children node deps m ids d,
)

-- Only empty lists.
abbrev Empties : List (ℕ × List ℕ) → Type 0
Empties m = (id : ℕ) → children_of m id ≡ []

no_children-Empties :
    (nodes : Graph) (m : List (ℕ × List ℕ)) → Empties m → Empties (no_children nodes m)
unfolding no_children
no_children-Empties [] m h = h
no_children-Empties ((node, deps) ∷ nodes) m h =
    no_children-Empties nodes (insert node [] m)
      (λ id. ground (arith, h id, lookup-insert node id [] m))

width-zero : (m : List (ℕ × List ℕ)) (ids : List ℕ) → Empties m → width m ids ≡ 0
width-zero m [] h = refl
width-zero m (id ∷ ids) h = omega (arith, ap length (h id), width-zero m ids h)

width-build_children :
    (nodes : Graph)
    → Distinct (keys nodes)
    → width (build_children nodes) (keys nodes) ≤ edge_count nodes
unfolding build_children
width-build_children nodes d = omega (
  arith,
  width-link nodes (no_children nodes []) (keys nodes) d,
  width-zero (no_children nodes []) (keys nodes) (no_children-Empties nodes [] empty),
)
  where
    empty : Empties []
    empty = λ id. unfold lookup in refl

white_cost-le :
    (children : List (ℕ × List ℕ)) (colour : List (ℕ × Colour)) (ids : List ℕ)
    → white_cost children colour ids ≤ width children ids + length ids
white_cost-le children colour [] = omega arith
white_cost-le children colour (id ∷ ids) = ground (arith, white_cost-le children colour ids)

all_white-Whites :
    (nodes : Graph) (m : List (ℕ × Colour)) (id : ℕ)
    → lookup id (all_white nodes m) ≡ some white
    → (includes (keys nodes) id ≡ true) ⊎ (lookup id m ≡ some white)
unfolding all_white
all_white-Whites [] m id h = inr h
all_white-Whites ((node, deps) ∷ nodes) m id h =
    ground (arith, all_white-Whites nodes (insert node white m) id h, lookup-insert node id white m)

-- The search's first state: no stack, no errors, and every node white.
abbrev pub first : Graph → Dfs
first nodes = record { colour = all_white nodes []; stack = []; errors = [] }

pub first-Whites : (nodes : Graph) → Whites (keys nodes) (first nodes)
unfolding lookup
first-Whites nodes id h = ground (arith, all_white-Whites nodes [] id h)

length-keys : (nodes : Graph) → length (keys nodes) ≡ length nodes
length-keys [] = refl
length-keys (n ∷ nodes) = omega (arith, length-keys nodes)

-- The fuel is above the cost of the whole search.
pub first-cost :
    (nodes : Graph)
    → Distinct (keys nodes)
    → cost (build_children nodes) (keys nodes) (first nodes) < dfs_fuel nodes
first-cost nodes d = omega (
  arith,
  white_cost-le (build_children nodes) (all_white nodes []) (keys nodes),
  width-build_children nodes d,
  length-keys nodes,
)

-- The loop over the start nodes ends with an empty stack.
pub dfs_all-ends :
    (nodes : Graph) (fuel : ℕ) (starts : List ℕ) (s : Dfs)
    → s.stack ≡ []
    → Whites (keys nodes) s
    → cost (build_children nodes) (keys nodes) s < fuel
    → (dfs_all fuel starts (build_children nodes) s).stack ≡ []
unfolding dfs_all
dfs_all-ends nodes fuel [] s e w m = e
dfs_all-ends nodes fuel (id ∷ starts) s e w m =
    let (z, k, w') =
      start-ends (build_children nodes) (keys nodes) fuel id s e w m (lookup id s.colour) refl in
    dfs_all-ends nodes fuel starts _ z w' (omega arith)
