-- ===== src/Dag/Service/Starts.antt =====
-- src/compute-job-queue/dag/dag.service.ts: the workflow that `submitWorkflow` starts.
use stell_aiverse_backend.Prelude.{
  ℕ, ◌≡◌, ◌<◌, refl, ap, ◌∙◌, sym, inl, inr, true, List, [], ◌∷◌, Option, some, arith, Option-cases,
  Bool-cases, includes, keys, lookup, insert, lookup-insert, Distinct, Distinct-insert,
  includes-keys, lookup-included, ◌==◌, ==_refl, ok, All-map,
}
use stell_aiverse_backend.Dag.{DagNode, DagDependency, DagNodeStatus}
use stell_aiverse_backend.Dag.Validator.Ranks.{position, Before, IsOrdered-Before}
use stell_aiverse_backend.Dag.Validator.Order.{IsTopologicalOrder}
use stell_aiverse_backend.Dag.Requests.{
  Nodes, CreateDagNodeDto, build_dep_map, build_node, build_nodes, dependencies, Queue,
}
use stell_aiverse_backend.Dag.Readiness.{is_terminal, is_ready, ready_among}
use stell_aiverse_backend.Dag.Service.{enqueue_all}
use stell_aiverse_backend.Dag.Service.Lifecycle.{IsRanked}
use stell_aiverse_backend.Dag.Service.Shape.{shape, IsSound, enqueue_all-SameGraph}
use stell_aiverse_backend.Dag.Service.Enqueues.{Accepts, enqueue_all-Enqueued, ready_among-is_ready}
use stell_aiverse_backend.Dag.Validator.Degrees.{remaining}

-- The nodes that are built depend on what the dependency map says.
shape-build_nodes :
    (user : Option ℕ) (seen : List ℕ) (h g : List (ℕ × List DagDependency)) (m : Nodes)
    (dtos : List CreateDagNodeDto)
    → ((id : ℕ) → shape (lookup id m) ≡ lookup id h)
    → build_dep_map seen h dtos ≡ ok g
    → (id : ℕ) → shape (lookup id (build_nodes user dtos m)) ≡ lookup id g
unfolding build_nodes build_dep_map build_node
shape-build_nodes user seen h g m [] s e id =
    let same : h ≡ g = ground arith in s id ∙ ap (λ k. lookup id k) same
shape-build_nodes user seen h g m (dto ∷ dtos) s e id =
    shape-build_nodes user (dto.job_id ∷ seen) (insert dto.job_id (dependencies dto.depends_on) h) g
      (insert dto.job_id (build_node user dto) m) dtos (λ j. next j) (ground arith) id
  where
    next :
        (j : ℕ)
        → shape (lookup j (insert dto.job_id (build_node user dto) m))
          ≡ lookup j (insert dto.job_id (dependencies dto.depends_on) h)
    next j = elim (Bool-cases (dto.job_id == j)) [
      | inl hit ↦ ground (
        arith,
        lookup-insert dto.job_id j (build_node user dto) m,
        lookup-insert dto.job_id j (dependencies dto.depends_on) h,
      )
      | inr miss ↦ ground (
        arith,
        s j,
        lookup-insert dto.job_id j (build_node user dto) m,
        lookup-insert dto.job_id j (dependencies dto.depends_on) h,
      )
    ]

build_nodes-Distinct :
    (user : Option ℕ) (dtos : List CreateDagNodeDto) (m : Nodes)
    → Distinct (keys m)
    → Distinct (keys (build_nodes user dtos m))
unfolding build_nodes
build_nodes-Distinct user [] m d = d
build_nodes-Distinct user (dto ∷ dtos) m d =
    build_nodes-Distinct user dtos (insert dto.job_id (build_node user dto) m)
      (Distinct-insert dto.job_id (build_node user dto) m d)

lookup-shape :
    (nodes : Nodes) (id : ℕ) (deps : List DagDependency)
    → shape (lookup id nodes) ≡ some deps
    → (node : DagNode) × (lookup id nodes ≡ some node) × (node.depends_on ≡ deps)
lookup-shape nodes id deps h = elim (Option-cases (lookup id nodes)) [
  | inl e ↦ absurd (ground arith)
  | inr (node, e) ↦ (node, e, ground arith)
]

abbrev Below : (ℕ → ℕ) → Nodes → ℕ → DagDependency → Type 0
Below rank nodes id dep = (includes (keys nodes) dep.job_id ≡ true) × (rank dep.job_id < rank id)

-- Nodes that depend on each other as a graph with a topological order does are ranked by it.
topological-IsRanked :
    (g : List (ℕ × List DagDependency)) (order : List ℕ) (nodes : Nodes)
    → IsTopologicalOrder g order
    → ((id : ℕ) → shape (lookup id nodes) ≡ lookup id g)
    → IsRanked (position order) nodes
topological-IsRanked g order nodes t s id node l =
    let e : lookup id g ≡ some node.depends_on = ground (arith, s id) in
    let m : includes order id ≡ true = t.complete id ∙ includes-keys id node.depends_on g e in
    All-map (Before [] order id) (Below (position order) nodes id) node.depends_on
      (λ dep b. below dep b) (IsOrdered-Before g [] order id node.depends_on t.ordered m e)
  where
    below : (dep : DagDependency) → Before [] order id dep → Below (position order) nodes id dep
    below dep (inl h) = absurd (ground arith)
    below dep (inr (h, p)) =
        let (deps, e) = lookup-included dep.job_id g (sym (t.complete dep.job_id) ∙ h) in
        let (parent, e', d) = lookup-shape nodes dep.job_id deps (s dep.job_id ∙ e) in
        (includes-keys dep.job_id parent nodes e', p)

pub build_nodes-IsSound :
    (user : Option ℕ) (g : List (ℕ × List DagDependency)) (order : List ℕ)
    (dtos : List CreateDagNodeDto)
    → build_dep_map [] [] dtos ≡ ok g
    → IsTopologicalOrder g order
    → IsSound (position order) (build_nodes user dtos [])
build_nodes-IsSound user g order dtos e t = record {
  distinct = build_nodes-Distinct user dtos [] tt;
  ranked =
      topological-IsRanked g order (build_nodes user dtos []) t
        (shape-build_nodes user [] [] g [] dtos (λ id. unfold lookup in refl) e);
}

abbrev pub IsPending : Nodes → Type 0
IsPending nodes =
    (id : ℕ) (node : DagNode) → lookup id nodes ≡ some node → node.status ≡ DagNodeStatus.pending

build_nodes-IsPending :
    (user : Option ℕ) (dtos : List CreateDagNodeDto) (m : Nodes)
    → IsPending m
    → IsPending (build_nodes user dtos m)
unfolding build_nodes build_node
build_nodes-IsPending user [] m p = p
build_nodes-IsPending user (dto ∷ dtos) m p =
    build_nodes-IsPending user dtos (insert dto.job_id (build_node user dto) m) λ id node l.
      elim (Bool-cases (dto.job_id == id)) [
        | inl hit ↦
            let e : build_node user dto ≡ node =
              ground (arith, lookup-insert dto.job_id id (build_node user dto) m) in
            sym (ap (λ (n : DagNode). n.status) e)
        | inr miss ↦ p id node (ground (arith, lookup-insert dto.job_id id (build_node user dto) m))
      ]

none_remaining : (deps : List DagDependency) → remaining [] deps ≡ 0 → deps ≡ []
none_remaining [] h = refl
none_remaining (dep ∷ deps) h = ground arith

-- The first node of the order depends on nothing.
first-root :
    (g : List (ℕ × List DagDependency)) (x : ℕ) (xs : List ℕ)
    → IsTopologicalOrder g (x ∷ xs)
    → lookup x g ≡ some []
first-root g x xs t =
    let (deps, e) = lookup-included x g (sym (t.complete x) ∙ ground (arith, ==_refl x)) in
    e ∙ ap some (none_remaining deps (t.ordered.0 deps e))

-- With an accepting queue a root of the graph runs when the workflow starts.
pub start-runs :
    (queue : Queue) (wid : ℕ) (user : Option ℕ) (g : List (ℕ × List DagDependency)) (x : ℕ)
    (xs : List ℕ) (dtos : List CreateDagNodeDto)
    → Accepts queue
    → build_dep_map [] [] dtos ≡ ok g
    → IsTopologicalOrder g (x ∷ xs)
    → let nodes = build_nodes user dtos [] in
      (node : DagNode) × (lookup x (enqueue_all queue wid (ready_among nodes nodes) nodes)
        ≡ some node)
      × (node.status ≡ DagNodeStatus.running)
unfolding is_ready is_terminal
start-runs queue wid user g x xs dtos a b t =
    let nodes = build_nodes user dtos [] in
    let ids = ready_among nodes nodes in
    let sound = build_nodes-IsSound user g (x ∷ xs) dtos b t in
    let pending = build_nodes-IsPending user dtos [] (λ id node l. unfold lookup in ground arith) in
    let shaped : shape (lookup x nodes) ≡ some [] =
      shape-build_nodes user [] [] g [] dtos (λ id. unfold lookup in refl) b x
      ∙ first-root g x xs t in
    let (root, l, d) = lookup-shape nodes x [] shaped in
    let (node, l', d') =
      lookup-shape (enqueue_all queue wid ids nodes) x []
        ((enqueue_all-SameGraph queue wid ids nodes).same x ∙ shaped) in
    let ready : includes ids x ≡ true =
      ready_among-is_ready nodes nodes x root sound.distinct l ∙ ground (arith, pending x root l) in
    let after =
      enqueue_all-Enqueued queue wid a ids nodes (λ id n m k. ground (arith, pending id n k)) in
    (node, l', after.runs x node ready l')
