-- ===== src/Dag/Service/Progress.antt =====
-- src/compute-job-queue/dag/dag.service.ts, `advanceWorkflow`: what is enqueued and what is left.
use stell_aiverse_backend.Prelude.{
  ℕ, ◌≡◌, refl, ◌∙◌, sym, inl, inr, ◌⊎◌, true, false, List, [], ◌∷◌, some, arith, ◌==◌, Bool-cases,
  Option-cases, all, includes, keys, lookup, lookup-insert, Distinct, includes-keys,
  lookup-included,
}
use stell_aiverse_backend.Dag.{DagNode, DagNodeStatus}
use stell_aiverse_backend.Dag.Requests.{Nodes, Queue}
use stell_aiverse_backend.Dag.Readiness.{
  is_pending, is_satisfied, is_ready, is_unreachable, ready_among, skip_unreachable_nodes,
}
use stell_aiverse_backend.Dag.Service.{enqueue_node, enqueue_all, advance_nodes}
use stell_aiverse_backend.Dag.Service.Skips.{
  IsSettled, skipped, Skipping, skip_unreachable_nodes-IsSettled, skip_unreachable_nodes-Skipping,
}
use stell_aiverse_backend.Dag.Service.Enqueues.{
  Enqueued, Accepts, enqueue_all-Enqueued, ready_among-is_ready, is_ready-nonpending, is_ready-live,
  is_ready-ext, is_unreachable-ext,
}

-- The ready nodes of a map have been enqueued.
module _ (queue : Queue) (w : ℕ) (a : Accepts queue) (nodes : Nodes)
    (d : Distinct (keys nodes)) where
  abbrev ready : List ℕ
  ready = ready_among nodes nodes

  ready-Enqueued : Enqueued ready nodes (enqueue_all queue w ready nodes)
  ready-Enqueued = enqueue_all-Enqueued queue w a ready nodes λ id node m l.
      is_ready-live nodes node (sym (ready_among-is_ready nodes nodes id node d l) ∙ m)

  ready-done :
      (id : ℕ) (node : DagNode)
      → IsSettled nodes
      → lookup id (enqueue_all queue w ready nodes) ≡ some node
      → (is_ready (enqueue_all queue w ready nodes) node ≡ false)
        × (is_unreachable (enqueue_all queue w ready nodes) node ≡ false)
  ready-done id node s l = elim (Bool-cases (includes ready id)) [
    | inl m ↦
        is_ready-nonpending (enqueue_all queue w ready nodes) node
          (let r : node.status ≡ DagNodeStatus.running = ready-Enqueued.runs id node m l in rw r)
    | inr m ↦
        let e : lookup id nodes ≡ some node = sym (ready-Enqueued.others id m) ∙ l in
        (
          is_ready-ext nodes _ node ready-Enqueued.satisfied
              ∙ sym (ready_among-is_ready nodes nodes id node d e)
              ∙ m,
          is_unreachable-ext nodes _ node ready-Enqueued.blocked ∙ s id node e,
        )
  ]

-- When the queue accepts its jobs, an advance leaves no node behind: no pending node is ready to run,
-- and none has a dependency that can never be satisfied.
pub advance_nodes_complete :
    (queue : Queue) (w : ℕ) (nodes : Nodes) (id : ℕ) (node : DagNode)
    → Accepts queue
    → Distinct (keys nodes)
    → lookup id (advance_nodes queue w nodes) ≡ some node
    → (is_ready (advance_nodes queue w nodes) node ≡ false)
      × (is_unreachable (advance_nodes queue w nodes) node ≡ false)
unfolding advance_nodes
advance_nodes_complete queue w nodes id node a d l =
    let k = skip_unreachable_nodes-Skipping nodes in
    ready-done queue w a (skip_unreachable_nodes nodes) (k.distinct d) id node
      (skip_unreachable_nodes-IsSettled nodes) l

pub advance_nodes-Distinct :
    (queue : Queue) (w : ℕ) (nodes : Nodes)
    → Accepts queue
    → Distinct (keys nodes)
    → Distinct (keys (advance_nodes queue w nodes))
unfolding advance_nodes
advance_nodes-Distinct queue w nodes a d =
    let k = skip_unreachable_nodes-Skipping nodes in
    (ready-Enqueued queue w a (skip_unreachable_nodes nodes) (k.distinct d)).distinct (k.distinct d)

-- Enqueuing leaves the nodes that are not named alone, whatever the queue answers.
enqueue_node-others :
    (queue : Queue) (w id j : ℕ) (nodes : Nodes)
    → (id == j) ≡ false
    → lookup j (enqueue_node queue w id nodes) ≡ lookup j nodes
unfolding enqueue_node
enqueue_node-others queue w id j nodes h = grind (arith, lookup-insert)

pub enqueue_all-others :
    (queue : Queue) (w : ℕ) (ids : List ℕ) (nodes : Nodes) (j : ℕ)
    → includes ids j ≡ false
    → lookup j (enqueue_all queue w ids nodes) ≡ lookup j nodes
unfolding enqueue_all
enqueue_all-others queue w [] nodes j h = refl
enqueue_all-others queue w (id ∷ ids) nodes j h = ground (
  arith,
  enqueue_all-others queue w ids (enqueue_node queue w id nodes) j,
  enqueue_node-others queue w id j nodes,
)

is_ready-pending :
    (nodes : Nodes) (node : DagNode)
    → is_ready nodes node ≡ true
    → (is_pending node.status ≡ true) × (all (is_satisfied nodes) node.depends_on ≡ true)
unfolding is_ready
is_ready-pending nodes node h = ground arith

-- An advance moves pending nodes only, and starts a node only when each of its dependencies is met:
-- a node is afterwards as it was, or it was pending and is skipped, or it was pending and ready.
pub advance_nodes-safe :
    (queue : Queue) (w : ℕ) (nodes : Nodes) (id : ℕ) (node : DagNode)
    → Distinct (keys nodes)
    → lookup id nodes ≡ some node
    → let nodes' = advance_nodes queue w nodes in
      (lookup id nodes' ≡ some node)
      ⊎ ((is_pending node.status ≡ true)
          × ((lookup id nodes' ≡ some (skipped node))
              ⊎ (all (is_satisfied (skip_unreachable_nodes nodes)) node.depends_on ≡ true)))
unfolding advance_nodes
advance_nodes-safe queue w nodes id node d l = elim (Option-cases (lookup id nodes')) [
  | inl gone ↦
      absurd
        (ground (arith, includes-keys id node nodes l, k.same_keys id, lookup-included id nodes'))
  | inr (m, e) ↦ elim (Bool-cases (includes (ready_among nodes' nodes') id)) [
    | inl r ↦ elim (k.comes id m e) [
      | inl same ↦
          let q : m ≡ node = ground arith in
          let (p, s) =
            is_ready-pending nodes' m
              (sym (ready_among-is_ready nodes' nodes' id m (k.distinct d) e) ∙ r) in
          inr (ground arith, inr (ground arith))
      | inr (n, l', p, q) ↦
          let (p', s) =
            is_ready-pending nodes' m
              (sym (ready_among-is_ready nodes' nodes' id m (k.distinct d) e) ∙ r) in
          absurd (ground arith)
    ]
    | inr r ↦
        let o : lookup id (enqueue_all queue w (ready_among nodes' nodes') nodes') ≡ some m =
          enqueue_all-others queue w (ready_among nodes' nodes') nodes' id r ∙ e in
        elim (k.comes id m e) [
          | inl same ↦ inl (ground arith)
          | inr (n, l', p, q) ↦ inr (ground arith, inl (ground arith))
        ]
  ]
]
  where
    nodes' : Nodes
    nodes' = skip_unreachable_nodes nodes

    k : Skipping nodes nodes'
    k = skip_unreachable_nodes-Skipping nodes
