-- ===== src/Scenarios/Validation.antt =====
-- src/compute-job-queue/dag/dag.validator.ts: the validator on small graphs.
use stell_aiverse_backend.Prelude.{
  lookup, insert, ℕ, ◌≡◌, ◌<◌, refl, true, List, [], ◌∷◌, some, arith, includes, keys, Distinct,
  ◌≤◌,
}
use stell_aiverse_backend.Dag.{on_success, DagDependency, valid, invalid, circular_dependency}
use stell_aiverse_backend.Dag.Validator.{
  Graph, validate, topological_sort, dfs_all, dfs_fuel, build_children, edge_count,
}
use stell_aiverse_backend.Dag.Validator.Degrees.{occurrences}
use stell_aiverse_backend.Dag.Validator.Order.{IsTopologicalOrder, IsAcyclic, validate-valid}
use stell_aiverse_backend.Dag.Validator.Cycles.{validate-IsAcyclic}
use stell_aiverse_backend.Dag.Validator.Costs.{first}
use stell_aiverse_backend.Dag.Validator.Fuel.{dfs_all-dfs_fuel}

abbrev on : ℕ → DagDependency
on id = record { job_id = id; condition = on_success }

-- 4 waits for 2 and 3, which wait for 1.
abbrev diamond : Graph
diamond = (4, on 2 ∷ on 3 ∷ []) ∷ (2, on 1 ∷ []) ∷ (3, on 1 ∷ []) ∷ (1, []) ∷ []

diamond_order : validate diamond ≡ valid (1 ∷ 2 ∷ 3 ∷ 4 ∷ [])
unfolding validate lookup insert
diamond_order = refl

abbrev looped : Graph
looped = (1, on 3 ∷ []) ∷ (2, on 1 ∷ []) ∷ (3, on 2 ∷ []) ∷ []

looped_errors : validate looped ≡ invalid (circular_dependency (1 ∷ 2 ∷ 3 ∷ 1 ∷ []) ∷ [])
unfolding validate lookup insert
looped_errors = refl

diamond-Distinct : Distinct (keys diamond)
diamond-Distinct = (refl, (refl, (refl, (refl, tt))))

validate-valid_example : IsTopologicalOrder diamond (1 ∷ 2 ∷ 3 ∷ 4 ∷ [])
validate-valid_example = validate-valid diamond (1 ∷ 2 ∷ 3 ∷ 4 ∷ []) diamond-Distinct diamond_order

diamond-known :
    (id p : ℕ) (deps : List DagDependency)
    → lookup id diamond ≡ some deps
    → 0 < occurrences p deps
    → includes (keys diamond) p ≡ true
unfolding lookup
diamond-known id p deps h o = ground arith

diamond-lower :
    (id p : ℕ) (deps : List DagDependency)
    → lookup id diamond ≡ some deps
    → 0 < occurrences p deps
    → p < id
unfolding lookup
diamond-lower id p deps h o = ground arith

diamond-IsAcyclic : IsAcyclic diamond (λ id. id)
diamond-IsAcyclic = record { known = diamond-known; lower = diamond-lower }

validate-IsAcyclic_example : validate diamond ≡ valid (topological_sort diamond)
validate-IsAcyclic_example =
    validate-IsAcyclic diamond (λ id. id) (λ e. ground arith) diamond-Distinct diamond-IsAcyclic

looped-fuel : dfs_fuel looped ≤ 100
unfolding edge_count
looped-fuel = omega arith

dfs_all-dfs_fuel_example :
    ((dfs_all (dfs_fuel looped) (keys looped) (build_children looped) (first looped)).stack ≡ [])
    × (dfs_all 100 (keys looped) (build_children looped) (first looped)
        ≡ dfs_all (dfs_fuel looped) (keys looped) (build_children looped) (first looped))
dfs_all-dfs_fuel_example = dfs_all-dfs_fuel looped 100 (refl, (refl, (refl, tt))) looped-fuel
