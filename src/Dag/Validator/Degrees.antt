-- ===== src/Dag/Validator/Degrees.antt =====
-- src/compute-job-queue/dag/dag.validator.ts: the children lists and the in-degrees that the two
-- searches start from.
use stell_aiverse_backend.Prelude.{
  ℕ, ◌+◌, ◌≡◌, refl, ◌∙◌, inl, inr, ◌⊎◌, true, false, List, [], ◌∷◌, ◌++◌, Option, none, some,
  arith, ◌==◌, if◌then◌else◌, Option-cases, length, includes, includes-append, keys, lookup, insert,
  lookup-insert, Distinct, Distinct-insert, count, count-append, lookup-excluded,
}
use stell_aiverse_backend.Dag.{DagDependency}
use stell_aiverse_backend.Dag.Validator.{
  Graph, children_of, push_child, push_children, link, no_children, build_children, zero_degrees,
  set_degrees, initial_degrees, roots,
}

-- How often `p` stands among the dependencies.
abbrev pub occurrences : ℕ → List DagDependency → ℕ
occurrences p [] = 0
occurrences p (dep ∷ deps) = (if dep.job_id == p then 1 else 0) + occurrences p deps

-- The dependencies that are not yet sorted.
abbrev pub remaining : List ℕ → List DagDependency → ℕ
remaining sorted [] = 0
remaining sorted (dep ∷ deps) =
    (if includes sorted dep.job_id then 0 else 1) + remaining sorted deps

pub remaining-append :
    (sorted : List ℕ) (a : ℕ) (deps : List DagDependency)
    → includes sorted a ≡ false
    → remaining sorted deps ≡ remaining (sorted ++ a ∷ []) deps + occurrences a deps
remaining-append sorted a [] h = refl
remaining-append sorted a (dep ∷ deps) h =
    ground (arith, remaining-append sorted a deps h, includes-append sorted (a ∷ []) dep.job_id)

pub remaining-nil : (deps : List DagDependency) → remaining [] deps ≡ length deps
remaining-nil [] = refl
remaining-nil (dep ∷ deps) = omega (arith, remaining-nil deps)

-- A list of children is there, and holds `id` so often.
abbrev Holds : ℕ → ℕ → Option (List ℕ) → Type 0
Holds id n none = ⊥
Holds id n (some l) = count id l ≡ n

push_child-Holds :
    (parent child p id n : ℕ) (m : List (ℕ × List ℕ))
    → Holds id n (lookup p m)
    → Holds id
        (n + (if parent == p then (if child == id then 1 else 0) else 0))
        (lookup p (push_child parent child m))
unfolding push_child
push_child-Holds parent child p id n m h = elim (Option-cases (lookup parent m)) [
  | inl e ↦ rw (e, push_child) (ground arith)
  | inr (l, e) ↦
      rw (e, push_child)
        (rw (lookup-insert parent p (l ++ child ∷ []) m)
          (ground (arith, count-append id l (child ∷ []))))
]

push_children-Holds :
    (node p id n : ℕ) (deps : List DagDependency) (m : List (ℕ × List ℕ))
    → Holds id n (lookup p m)
    → Holds id
        (n + (if node == id then occurrences p deps else 0))
        (lookup p (push_children node deps m))
unfolding push_children
push_children-Holds node p id n [] m h = ground arith
push_children-Holds node p id n (dep ∷ deps) m h = ground (
  arith,
  push_children-Holds node p id (n + (if dep.job_id == p then (if node == id then 1 else 0) else 0))
      deps (push_child dep.job_id node m) (push_child-Holds dep.job_id node p id n m h),
)

-- The dependencies on `p` of the nodes named `id`.
abbrev total : ℕ → ℕ → Graph → ℕ
total p id [] = 0
total p id ((node, deps) ∷ nodes) =
    (if node == id then occurrences p deps else 0) + total p id nodes

link-Holds :
    (p id n : ℕ) (nodes : Graph) (m : List (ℕ × List ℕ))
    → Holds id n (lookup p m)
    → Holds id (n + total p id nodes) (lookup p (link nodes m))
unfolding link
link-Holds p id n [] m h = ground arith
link-Holds p id n ((node, deps) ∷ nodes) m h = ground (
  arith,
  link-Holds p id (n + (if node == id then occurrences p deps else 0)) nodes
      (push_children node deps m) (push_children-Holds node p id n deps m h),
)

no_children-Holds :
    (p id : ℕ) (nodes : Graph) (m : List (ℕ × List ℕ))
    → (includes (keys nodes) p ≡ true) ⊎ (lookup p m ≡ some [])
    → lookup p (no_children nodes m) ≡ some []
unfolding no_children
no_children-Holds p id [] m (inl h) = ground arith
no_children-Holds p id [] m (inr h) = h
no_children-Holds p id ((node, deps) ∷ nodes) m h =
    no_children-Holds p id nodes (insert node [] m) (ground (arith, lookup-insert node p [] m))

total-excluded :
    (p id : ℕ) (nodes : Graph) → includes (keys nodes) id ≡ false → total p id nodes ≡ 0
total-excluded p id [] h = refl
total-excluded p id ((node, deps) ∷ nodes) h = ground (arith, total-excluded p id nodes)

total-lookup :
    (p id : ℕ) (nodes : Graph) (deps : List DagDependency)
    → Distinct (keys nodes)
    → lookup id nodes ≡ some deps
    → total p id nodes ≡ occurrences p deps
unfolding lookup
total-lookup p id [] deps d h = ground arith
total-lookup p id ((node, ds) ∷ nodes) deps d h =
    ground (arith, total-excluded p id nodes, total-lookup p id nodes deps d.1)

-- A child stands in its parent's list as often as the parent among its dependencies.
pub count-children_of :
    (nodes : Graph) (p id : ℕ) (deps : List DagDependency)
    → Distinct (keys nodes)
    → includes (keys nodes) p ≡ true
    → lookup id nodes ≡ some deps
    → count id (children_of (build_children nodes) p) ≡ occurrences p deps
unfolding build_children
count-children_of nodes p id deps d hp h = ground (arith, built, total-lookup p id nodes deps d h)
  where
    built : Holds id (0 + total p id nodes) (lookup p (link nodes (no_children nodes [])))
    built =
        link-Holds p id 0 nodes (no_children nodes [])
          (ground (arith, no_children-Holds p id nodes [] (inl hp)))

-- Every child is a node of the graph.
pub children_of-excluded :
    (nodes : Graph) (p id : ℕ)
    → includes (keys nodes) p ≡ true
    → includes (keys nodes) id ≡ false
    → count id (children_of (build_children nodes) p) ≡ 0
unfolding build_children
children_of-excluded nodes p id hp h = ground (arith, built, total-excluded p id nodes h)
  where
    built : Holds id (0 + total p id nodes) (lookup p (link nodes (no_children nodes [])))
    built =
        link-Holds p id 0 nodes (no_children nodes [])
          (ground (arith, no_children-Holds p id nodes [] (inl hp)))

set_degrees-excluded :
    (id : ℕ) (nodes : Graph) (m : List (ℕ × ℕ))
    → includes (keys nodes) id ≡ false
    → lookup id (set_degrees nodes m) ≡ lookup id m
unfolding set_degrees
set_degrees-excluded id [] m h = refl
set_degrees-excluded id ((node, deps) ∷ nodes) m h = ground (
  arith,
  set_degrees-excluded id nodes (insert node (length deps) m),
  lookup-insert node id (length deps) m,
)

set_degrees-lookup :
    (id : ℕ) (deps : List DagDependency) (nodes : Graph) (m : List (ℕ × ℕ))
    → Distinct (keys nodes)
    → lookup id nodes ≡ some deps
    → lookup id (set_degrees nodes m) ≡ some (length deps)
unfolding set_degrees lookup
set_degrees-lookup id deps [] m d h = ground arith
set_degrees-lookup id deps ((node, ds) ∷ nodes) m d h = ground (
  arith,
  set_degrees-excluded id nodes (insert node (length ds) m),
  set_degrees-lookup id deps nodes (insert node (length ds) m) d.1,
  lookup-insert node id (length ds) m,
)

zero_degrees-excluded :
    (id : ℕ) (nodes : Graph) (m : List (ℕ × ℕ))
    → includes (keys nodes) id ≡ false
    → lookup id (zero_degrees nodes m) ≡ lookup id m
unfolding zero_degrees
zero_degrees-excluded id [] m h = refl
zero_degrees-excluded id ((node, deps) ∷ nodes) m h =
    ground (arith, zero_degrees-excluded id nodes (insert node 0 m), lookup-insert node id 0 m)

zero_degrees-Distinct :
    (nodes : Graph) (m : List (ℕ × ℕ)) → Distinct (keys m) → Distinct (keys (zero_degrees nodes m))
unfolding zero_degrees
zero_degrees-Distinct [] m d = d
zero_degrees-Distinct ((node, deps) ∷ nodes) m d =
    zero_degrees-Distinct nodes (insert node 0 m) (Distinct-insert node 0 m d)

set_degrees-Distinct :
    (nodes : Graph) (m : List (ℕ × ℕ)) → Distinct (keys m) → Distinct (keys (set_degrees nodes m))
unfolding set_degrees
set_degrees-Distinct [] m d = d
set_degrees-Distinct ((node, deps) ∷ nodes) m d =
    set_degrees-Distinct nodes (insert node (length deps) m)
      (Distinct-insert node (length deps) m d)

-- The search starts from the number of dependencies of each node, and has no other entry.
pub lookup-initial_degrees :
    (nodes : Graph) (id : ℕ) (deps : List DagDependency)
    → Distinct (keys nodes)
    → lookup id nodes ≡ some deps
    → lookup id (initial_degrees nodes) ≡ some (length deps)
unfolding initial_degrees
lookup-initial_degrees nodes id deps d h =
    set_degrees-lookup id deps nodes (zero_degrees nodes []) d h

pub initial_degrees-excluded :
    (nodes : Graph) (id : ℕ)
    → includes (keys nodes) id ≡ false
    → lookup id (initial_degrees nodes) ≡ none
unfolding initial_degrees lookup
initial_degrees-excluded nodes id h =
    set_degrees-excluded id nodes (zero_degrees nodes []) h ∙ zero_degrees-excluded id nodes [] h

pub initial_degrees-Distinct : (nodes : Graph) → Distinct (keys (initial_degrees nodes))
unfolding initial_degrees
initial_degrees-Distinct nodes =
    set_degrees-Distinct nodes (zero_degrees nodes []) (zero_degrees-Distinct nodes [] tt)

-- The roots are the entries with degree 0, each once.
pub includes-roots :
    (id : ℕ) (m : List (ℕ × ℕ))
    → includes (roots m) id ≡ true
    → Distinct (keys m)
    → lookup id m ≡ some 0
unfolding roots lookup
includes-roots id [] h d = ground arith
includes-roots id ((j, n) ∷ m) h d = ground (arith, includes-roots id m, lookup-excluded id m, d)

pub roots-includes :
    (id : ℕ) (m : List (ℕ × ℕ)) → lookup id m ≡ some 0 → includes (roots m) id ≡ true
unfolding roots lookup
roots-includes id [] h = ground arith
roots-includes id ((j, n) ∷ m) h = ground (arith, roots-includes id m)

roots-excluded :
    (id : ℕ) (m : List (ℕ × ℕ)) → includes (keys m) id ≡ false → includes (roots m) id ≡ false
unfolding roots
roots-excluded id [] h = refl
roots-excluded id ((j, n) ∷ m) h = ground (arith, roots-excluded id m)

pub roots-Distinct : (m : List (ℕ × ℕ)) → Distinct (keys m) → Distinct (roots m)
unfolding roots
roots-Distinct [] d = tt
roots-Distinct ((j, n) ∷ m) d = ground (arith, roots-Distinct m d.1, roots-excluded j m d.0)
