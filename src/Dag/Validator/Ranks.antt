-- ===== src/Dag/Validator/Ranks.antt =====
-- src/compute-job-queue/dag/dag.validator.ts: the place in a topological order ranks the nodes.
use stell_aiverse_backend.Prelude.{
  ℕ, ◌+◌, ◌≡◌, ◌<◌, ◌⊎◌, inl, inr, true, false, List, [], ◌∷◌, ◌++◌, some, arith, ◌==◌,
  if◌then◌else◌, Bool-cases, All, All-map, includes, includes-append, lookup,
}
use stell_aiverse_backend.Dag.{DagDependency}
use stell_aiverse_backend.Dag.Validator.{Graph}
use stell_aiverse_backend.Dag.Validator.Degrees.{remaining}
use stell_aiverse_backend.Dag.Validator.Sorting.{IsOrdered}

abbrev pub position : List ℕ → ℕ → ℕ
position [] id = 0
position (x ∷ xs) id = if x == id then 0 else 1 + position xs id

abbrev Sorted : List ℕ → DagDependency → Type 0
Sorted done dep = includes done dep.job_id ≡ true

remaining-Sorted :
    (done : List ℕ) (deps : List DagDependency) → remaining done deps ≡ 0 → All (Sorted done) deps
remaining-Sorted done [] h = tt
remaining-Sorted done (dep ∷ deps) h = (ground arith, remaining-Sorted done deps (ground arith))

-- The dependency has been sorted before, or stands before `id` in the order.
abbrev pub Before : List ℕ → List ℕ → ℕ → DagDependency → Type 0
Before done order id dep =
    (includes done dep.job_id ≡ true)
    ⊎ ((includes order dep.job_id ≡ true) × (position order dep.job_id < position order id))

Before-step :
    (done xs : List ℕ) (x id : ℕ) (dep : DagDependency)
    → (x == id) ≡ false
    → Before (done ++ x ∷ []) xs id dep
    → Before done (x ∷ xs) id dep
Before-step done xs x id dep miss (inl h) = elim (Bool-cases (includes done dep.job_id)) [
  | inl d ↦ inl d
  | inr n ↦ inr (ground (arith, includes-append done (x ∷ []) dep.job_id))
]
Before-step done xs x id dep miss (inr (m, l)) = inr (ground arith)

pub IsOrdered-Before :
    (nodes : Graph) (done order : List ℕ) (id : ℕ) (deps : List DagDependency)
    → IsOrdered nodes done order
    → includes order id ≡ true
    → lookup id nodes ≡ some deps
    → All (Before done order id) deps
IsOrdered-Before nodes done [] id deps o m l = absurd (ground arith)
IsOrdered-Before nodes done (x ∷ xs) id deps o m l = elim (Bool-cases (x == id)) [
  | inl hit ↦
      let e : x ≡ id = ground arith in
      All-map (Sorted done) (Before done (x ∷ xs) id) deps (λ dep s. inl s)
        (remaining-Sorted done deps (o.0 deps (rw e l)))
  | inr miss ↦
      All-map (Before (done ++ x ∷ []) xs id) (Before done (x ∷ xs) id) deps
        (λ dep b. Before-step done xs x id dep miss b)
        (IsOrdered-Before nodes (done ++ x ∷ []) xs id deps o.1 (ground arith) l)
]
