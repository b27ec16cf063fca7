-- ===== src/Dag/Validator.antt =====
-- src/compute-job-queue/dag/dag.validator.ts. `nodes` is a map, so its keys are distinct; the loops
-- follow the source's order. The two `while` loops take fuel.
pub mod Degrees
pub mod Sorting
pub mod Order
pub mod Rounds
pub mod Costs
pub mod Fuel
pub mod Ranks
pub mod Cycles
use stell_aiverse_backend.Prelude.{
  ℕ, zero, suc, ◌+◌, ◌-◌, Bool, true, false, List, [], ◌∷◌, ◌++◌, map, Option, none, some, ◌==◌,
  if◌then◌else◌, not, length, get_elem?, includes, keys, lookup, insert,
}
use mathlib.Core.List.{reverse}
use stell_aiverse_backend.Dag.{
  DagDependency, ValidationError, no_nodes, incomplete_ordering, self_dependency,
  unknown_dependency, circular_dependency, DagValidationResult, valid, invalid,
}

abbrev pub Graph : Type 0
Graph = List (ℕ × List DagDependency)

-- Structural checks: the errors of one node's dependencies, then of all nodes.
unfoldable pub dep_errors : List ℕ → ℕ → List DagDependency → List ValidationError
dep_errors node_ids node_id [] = []
dep_errors node_ids node_id (dep ∷ deps) =
    (if dep.job_id == node_id then self_dependency node_id ∷ [] else [])
    ++ ((if includes node_ids dep.job_id then [] else unknown_dependency node_id dep.job_id ∷ [])
        ++ dep_errors node_ids node_id deps)

unfoldable pub structural_errors : List ℕ → Graph → List ValidationError
structural_errors node_ids [] = []
structural_errors node_ids ((node_id, deps) ∷ nodes) =
    dep_errors node_ids node_id deps ++ structural_errors node_ids nodes

-- `children.get(id) || []`
abbrev pub children_of : List (ℕ × List ℕ) → ℕ → List ℕ
children_of children id = elim (lookup id children) [ none ↦ [] | some l ↦ l ]

-- `children.get(dep.jobId)?.push(nodeId)`
unfoldable pub push_child : ℕ → ℕ → List (ℕ × List ℕ) → List (ℕ × List ℕ)
push_child parent child m = elim (lookup parent m) [
  | none ↦ m
  | some l ↦ insert parent (l ++ child ∷ []) m
]

unfoldable pub push_children : ℕ → List DagDependency → List (ℕ × List ℕ) → List (ℕ × List ℕ)
push_children node_id [] m = m
push_children node_id (dep ∷ deps) m = push_children node_id deps (push_child dep.job_id node_id m)

unfoldable pub link : Graph → List (ℕ × List ℕ) → List (ℕ × List ℕ)
link [] m = m
link ((node_id, deps) ∷ nodes) m = link nodes (push_children node_id deps m)

unfoldable pub no_children : Graph → List (ℕ × List ℕ) → List (ℕ × List ℕ)
no_children [] m = m
no_children ((id, _) ∷ nodes) m = no_children nodes (insert id [] m)

-- Forward adjacency: parent to children.
unfoldable pub build_children : Graph → List (ℕ × List ℕ)
unfolding link no_children push_children push_child
build_children nodes = link nodes (no_children nodes [])

pub data Colour : Type 0 where
  white grey black : Colour

-- The depth-first search: the head of `stack` is its top.
pub record Dfs : Type 0 where
  pub colour : List (ℕ × Colour)
  pub stack : List (ℕ × ℕ)
  pub errors : List ValidationError

-- `slice(findIndex(id === child))`
unfoldable pub drop_until : ℕ → List ℕ → List ℕ
drop_until child [] = []
drop_until child (id ∷ ids) = if id == child then id ∷ ids else drop_until child ids

unfoldable pub cycle_path : List (ℕ × ℕ) → ℕ → List ℕ
unfolding drop_until
cycle_path stack child = drop_until child (reverse (map (λ e. e.0) stack)) ++ child ∷ []

-- One round at the child found under the top's index; `s.stack` has that index raised.
unfoldable pub visit_child : Option Colour → ℕ → Dfs → Dfs
unfolding cycle_path
visit_child (some grey) child s = record s {
  errors = s.errors ++ circular_dependency (cycle_path s.stack child) ∷ [];
}
visit_child (some white) child s = record s {
  colour = insert child grey s.colour;
  stack = (child, 0) ∷ s.stack;
}
visit_child (some black) child s = s
visit_child none child s = s

-- One round of `while (stack.length > 0)` at the top `(node_id, i)`.
unfoldable pub dfs_round : List (ℕ × List ℕ) → ℕ → ℕ → List (ℕ × ℕ) → Dfs → Dfs
unfolding visit_child
dfs_round children node_id i rest s = elim (get_elem? (children_of children node_id) i) [
  | some child ↦
      visit_child (lookup child s.colour) child (record s { stack = (node_id, i + 1) ∷ rest })
  | none ↦ record s { colour = insert node_id black s.colour; stack = rest }
]

unfoldable pub dfs : ℕ → List (ℕ × List ℕ) → Dfs → Dfs
unfolding dfs_round
dfs zero children s = s
dfs (suc fuel) children s = elim s.stack [
  | [] ↦ s
  | (node_id, i) ∷ rest ↦ dfs fuel children (dfs_round children node_id i rest s)
]

-- `for (const startId of nodes.keys())`
unfoldable pub start_at : Option Colour → ℕ → ℕ → List (ℕ × List ℕ) → Dfs → Dfs
unfolding dfs
start_at (some white) fuel start_id children s =
    dfs fuel children
      (record s { colour = insert start_id grey s.colour; stack = (start_id, 0) ∷ [] })
start_at (some grey) fuel start_id children s = s
start_at (some black) fuel start_id children s = s
start_at none fuel start_id children s = s

unfoldable pub dfs_all : ℕ → List ℕ → List (ℕ × List ℕ) → Dfs → Dfs
unfolding start_at
dfs_all fuel [] children s = s
dfs_all fuel (start_id ∷ ids) children s =
    dfs_all fuel ids children (start_at (lookup start_id s.colour) fuel start_id children s)

unfoldable pub all_white : Graph → List (ℕ × Colour) → List (ℕ × Colour)
all_white [] m = m
all_white ((id, _) ∷ nodes) m = all_white nodes (insert id white m)

-- The number of dependencies in the graph.
unfoldable pub edge_count : Graph → ℕ
edge_count [] = 0
edge_count ((_, deps) ∷ nodes) = length deps + edge_count nodes

-- A node is entered once, and has one round for each child and one to leave it.
abbrev pub dfs_fuel : Graph → ℕ
dfs_fuel nodes = length nodes + edge_count nodes + 1

unfoldable pub detect_cycles : Graph → List ValidationError
unfolding all_white dfs_all build_children edge_count
detect_cycles nodes =
    (dfs_all (dfs_fuel nodes) (keys nodes) (build_children nodes)
      (record { colour = all_white nodes []; stack = []; errors = [] })).errors

-- Kahn's algorithm.
pub record Kahn : Type 0 where
  pub in_degree : List (ℕ × ℕ)
  pub queue : List ℕ
  pub sorted : List ℕ

unfoldable pub zero_degrees : Graph → List (ℕ × ℕ) → List (ℕ × ℕ)
zero_degrees [] m = m
zero_degrees ((id, _) ∷ nodes) m = zero_degrees nodes (insert id 0 m)

unfoldable pub set_degrees : Graph → List (ℕ × ℕ) → List (ℕ × ℕ)
set_degrees [] m = m
set_degrees ((id, deps) ∷ nodes) m = set_degrees nodes (insert id (length deps) m)

-- The root nodes, with in-degree 0.
unfoldable pub roots : List (ℕ × ℕ) → List ℕ
roots [] = []
roots ((id, degree) ∷ m) = if degree == 0 then id ∷ roots m else roots m

-- `(inDegree.get(child) || 1) - 1`
abbrev pub lowered : Option ℕ → ℕ
lowered none = 1 - 1
lowered (some zero) = 1 - 1
lowered (some (suc n)) = suc n - 1

unfoldable pub relax_child : ℕ → Kahn → Kahn
relax_child child k =
    let new_degree = lowered (lookup child k.in_degree) in
    record k {
      in_degree = insert child new_degree k.in_degree;
      queue = if new_degree == 0 then k.queue ++ child ∷ [] else k.queue;
    }

unfoldable pub relax : List ℕ → Kahn → Kahn
unfolding relax_child
relax [] k = k
relax (child ∷ cs) k = relax cs (relax_child child k)

unfoldable pub kahn_round : List (ℕ × List ℕ) → ℕ → List ℕ → Kahn → Kahn
unfolding relax
kahn_round children current rest k =
    relax (children_of children current)
      (record k { queue = rest; sorted = k.sorted ++ current ∷ [] })

unfoldable pub kahn : ℕ → List (ℕ × List ℕ) → Kahn → Kahn
unfolding kahn_round
kahn zero children k = k
kahn (suc fuel) children k = elim k.queue [
  | [] ↦ k
  | current ∷ rest ↦ kahn fuel children (kahn_round children current rest k)
]

unfoldable pub initial_degrees : Graph → List (ℕ × ℕ)
unfolding zero_degrees set_degrees
initial_degrees nodes = set_degrees nodes (zero_degrees nodes [])

-- A node is taken off the queue once.
unfoldable pub topological_sort : Graph → List ℕ
unfolding initial_degrees roots kahn build_children
topological_sort nodes =
    let in_degree = initial_degrees nodes in
    (kahn (length nodes + 1) (build_children nodes)
      (record { in_degree = in_degree; queue = roots in_degree; sorted = [] })).sorted

-- The checks that follow the structural ones.
unfoldable pub validate_order : Graph → DagValidationResult
unfolding detect_cycles topological_sort
validate_order nodes = elim (detect_cycles nodes) [
  | e ∷ es ↦ invalid (e ∷ es)
  | [] ↦
      let order = topological_sort nodes in
      if length order == length nodes then valid order else invalid (incomplete_ordering ∷ [])
]

unfoldable pub validate : Graph → DagValidationResult
unfolding structural_errors dep_errors validate_order
validate [] = invalid (no_nodes ∷ [])
validate (n ∷ nodes) = elim (structural_errors (keys (n ∷ nodes)) (n ∷ nodes)) [
  | e ∷ es ↦ invalid (e ∷ es)
  | [] ↦ validate_order (n ∷ nodes)
]
