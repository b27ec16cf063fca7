-- ===== src/Dag/Service/Lifecycle.antt =====
-- src/compute-job-queue/dag/dag.service.ts: how a workflow ends, is cancelled, or hangs.
use stell_aiverse_backend.Prelude.{
  Bool, ℕ, zero, suc, ◌<◌, ◌≡◌, refl, inl, inr, true, false, ◌||◌, List, [], ◌∷◌, some, arith, ◌==◌,
  Bool-cases, ==_refl, any, all, All, All-map, includes, keys, lookup, Distinct, includes-keys,
  lookup-included,
}
use stell_aiverse_backend.Dag.{DagNode, DagNodeStatus, DagWorkflow, DagDependency}
use stell_aiverse_backend.Dag.Requests.{Nodes, Queue}
use stell_aiverse_backend.Dag.Readiness.{
  is_pending, is_terminal, is_satisfied, is_blocked, is_ready, is_unreachable, status_eq,
}
use stell_aiverse_backend.Dag.Service.{
  advance_nodes, all_done, has_status, finalize_workflow, advance_workflow, cancel_status,
  is_cancelled,
}
use stell_aiverse_backend.Dag.Service.Enqueues.{Accepts}
use stell_aiverse_backend.Dag.Service.Progress.{advance_nodes_complete, advance_nodes-Distinct}

-- Every dependency is a node that stands lower.
abbrev pub IsRanked : (ℕ → ℕ) → Nodes → Type 0
IsRanked rank nodes =
    (id : ℕ) (node : DagNode)
    → lookup id nodes ≡ some node
    → All
        (λ (dep : DagDependency).
          (includes (keys nodes) dep.job_id ≡ true) × (rank dep.job_id < rank id))
        node.depends_on

-- No node waits in the queue or runs: no event is to come.
abbrev pub IsIdle : Nodes → Type 0
IsIdle nodes =
    (id : ℕ) (node : DagNode)
    → lookup id nodes ≡ some node
    → (is_pending node.status || is_terminal node.status) ≡ true

abbrev Ended : Nodes → DagDependency → Type 0
Ended nodes dep =
    (parent : DagNode) × (lookup dep.job_id nodes ≡ some parent)
    × (is_terminal parent.status ≡ true)

-- Dependencies that have all ended are satisfied, or one of them is in the way for good.
satisfied_or_blocked :
    (nodes : Nodes) (deps : List DagDependency)
    → All (Ended nodes) deps
    → any (is_blocked nodes) deps ≡ false
    → all (is_satisfied nodes) deps ≡ true
unfolding is_blocked is_satisfied
satisfied_or_blocked nodes [] e b = refl
satisfied_or_blocked nodes (dep ∷ deps) ((parent, l, t), e) b =
    ground (arith, satisfied_or_blocked nodes deps e)

pending_moves :
    (nodes : Nodes) (node : DagNode)
    → is_pending node.status ≡ true
    → is_ready nodes node ≡ false
    → is_unreachable nodes node ≡ false
    → ¬ (All (Ended nodes) node.depends_on)
unfolding is_ready is_unreachable
pending_moves nodes node p r u e =
    let s : all (is_satisfied nodes) node.depends_on ≡ true =
      satisfied_or_blocked nodes node.depends_on e (ground arith) in
    ground arith

-- In an idle map where nothing is left to do every node has ended, by induction on the rank.
idle_ended :
    (nodes : Nodes) (rank : ℕ → ℕ)
    → IsRanked rank nodes
    → IsIdle nodes
    → ((id : ℕ) (node : DagNode)
        → lookup id nodes ≡ some node
        → (is_ready nodes node ≡ false) × (is_unreachable nodes node ≡ false))
    → (n id : ℕ) (node : DagNode) → rank id < n
    → lookup id nodes ≡ some node
    → is_terminal node.status ≡ true
idle_ended nodes rank r i c zero id node m l = elim m [ ]
idle_ended nodes rank r i c (suc n) id node m l = elim (Bool-cases (is_pending node.status)) [
  | inr q ↦ ground (arith, i id node l)
  | inl p ↦ absurd (
      pending_moves nodes node p (c id node l).0 (c id node l).1 (
        All-map _ (Ended nodes) node.depends_on
          (λ dep (k, low).
            let (parent, e) = lookup-included dep.job_id nodes k in
            (parent, e, idle_ended nodes rank r i c n dep.job_id parent (omega arith) e))
          (r id node l)))
]

pub all_done-intro :
    (nodes : Nodes)
    → Distinct (keys nodes)
    → ((id : ℕ) (node : DagNode) → lookup id nodes ≡ some node → is_terminal node.status ≡ true)
    → all_done nodes ≡ true
unfolding all_done lookup
all_done-intro [] d h = refl
all_done-intro ((j, n) ∷ nodes) d h = ground (
  arith,
  h j n,
  all_done-intro nodes d.1
      (λ id node l. h id node (ground (arith, includes-keys id node nodes l, d.0))),
)

-- No deadlock: when the queue accepts its jobs, the workflow is not cancelled, its node ids are distinct,
-- and its dependencies are nodes of it and acyclic, an advance that leaves no node queued or running has
-- ended every node, and so the workflow is finalized.
pub advance_workflow-no_deadlock :
    (queue : Queue) (rank : ℕ → ℕ) (w : DagWorkflow) (now : ℕ)
    → Accepts queue
    → Distinct (keys w.nodes)
    → IsRanked rank (advance_nodes queue w.workflow_id w.nodes)
    → IsIdle (advance_nodes queue w.workflow_id w.nodes)
    → is_cancelled w.status ≡ false
    → advance_workflow queue w now
      ≡ finalize_workflow (record w { nodes = advance_nodes queue w.workflow_id w.nodes }) now
unfolding advance_workflow
advance_workflow-no_deadlock queue rank w now a d r i c =
    let nodes = advance_nodes queue w.workflow_id w.nodes in
    let done : all_done nodes ≡ true =
      all_done-intro nodes (advance_nodes-Distinct queue w.workflow_id w.nodes a d) λ id node l.
        idle_ended nodes rank r i
          (λ j n k. advance_nodes_complete queue w.workflow_id w.nodes j n a d k) (suc (rank id)) id
          node (omega arith) l in
    rw (c, done)

-- A status is there exactly where a node has it.
has_status-excluded :
    (status : DagNodeStatus) (nodes : Nodes) (id : ℕ) (node : DagNode)
    → has_status status nodes ≡ false
    → lookup id nodes ≡ some node
    → status_eq node.status status ≡ false
unfolding has_status lookup
has_status-excluded status [] id node h l = ground arith
has_status-excluded status ((j, n) ∷ nodes) id node h l = elim (Bool-cases (j == id)) [
  | inl hit ↦ let e : n ≡ node = ground arith in rw (← e) (ground arith)
  | inr miss ↦ has_status-excluded status nodes id node (ground arith) (ground arith)
]

has_status-included :
    (status : DagNodeStatus) (nodes : Nodes)
    → Distinct (keys nodes)
    → has_status status nodes ≡ true
    → (id : ℕ) × (node : DagNode) × (lookup id nodes ≡ some node)
      × (status_eq node.status status ≡ true)
unfolding has_status lookup
has_status-included status [] d h = ground arith
has_status-included status ((j, n) ∷ nodes) d h = elim (Bool-cases (status_eq n.status status)) [
  | inl hit ↦ (j, n, rw (==_refl j), hit)
  | inr miss ↦
      let (id, node, l, e) = has_status-included status nodes d.1 (ground arith) in
      (id, node, ground (arith, includes-keys id node nodes l), e)
]

-- What `cancelWorkflow` makes of each node.
cancelled_node : DagNode → DagNode
cancelled_node node = record node { status = cancel_status node.status }

-- The statuses of a node whose job has not been started.
abbrev pub awaits_start : DagNodeStatus → Bool
awaits_start DagNodeStatus.pending = true
awaits_start DagNodeStatus.queued = true
awaits_start DagNodeStatus.running = false
awaits_start DagNodeStatus.completed = false
awaits_start DagNodeStatus.failed = false
awaits_start DagNodeStatus.skipped = false
awaits_start DagNodeStatus.cancelled = false
