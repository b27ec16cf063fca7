-- ===== src/Dag/Readiness.antt =====
-- src/compute-job-queue/dag/dag.service.ts: which nodes are ready and which can never be, `resolveReadyJobs`
-- and `skipUnreachableNodes`.
use stell_aiverse_backend.Prelude.{
  ℕ, zero, suc, ◌+◌, Bool, true, false, ◌&&◌, ◌||◌, List, [], ◌∷◌, none, some, if◌then◌else◌, not,
  length, any, all, keys, lookup, insert,
}
use stell_aiverse_backend.Dag.{
  DependencyCondition, on_success, on_failure, on_partial_success, always, DagNodeStatus,
  DagDependency, DagNode, DagWorkflow,
}
use stell_aiverse_backend.Dag.Requests.{Nodes}

-- The terminal statuses of a node.
unfoldable pub is_terminal : DagNodeStatus → Bool
is_terminal DagNodeStatus.completed = true
is_terminal DagNodeStatus.failed = true
is_terminal DagNodeStatus.skipped = true
is_terminal DagNodeStatus.cancelled = true
is_terminal DagNodeStatus.pending = false
is_terminal DagNodeStatus.queued = false
is_terminal DagNodeStatus.running = false

-- `status === …`
unfoldable pub status_eq : DagNodeStatus → DagNodeStatus → Bool
status_eq DagNodeStatus.pending DagNodeStatus.pending = true
status_eq DagNodeStatus.queued DagNodeStatus.queued = true
status_eq DagNodeStatus.running DagNodeStatus.running = true
status_eq DagNodeStatus.completed DagNodeStatus.completed = true
status_eq DagNodeStatus.failed DagNodeStatus.failed = true
status_eq DagNodeStatus.skipped DagNodeStatus.skipped = true
status_eq DagNodeStatus.cancelled DagNodeStatus.cancelled = true
status_eq _ _ = false

unfoldable pub is_condition_met : DagNodeStatus → DependencyCondition → Bool
unfolding status_eq is_terminal
is_condition_met status on_success = status_eq status DagNodeStatus.completed
is_condition_met status on_failure = status_eq status DagNodeStatus.failed
is_condition_met status on_partial_success =
    status_eq status DagNodeStatus.completed || status_eq status DagNodeStatus.failed
is_condition_met status always = is_terminal status

abbrev pub is_pending : DagNodeStatus → Bool
is_pending DagNodeStatus.pending = true
is_pending DagNodeStatus.queued = false
is_pending DagNodeStatus.running = false
is_pending DagNodeStatus.completed = false
is_pending DagNodeStatus.failed = false
is_pending DagNodeStatus.skipped = false
is_pending DagNodeStatus.cancelled = false

-- A dependency whose parent is there and in a status that meets the condition.
unfoldable pub is_satisfied : Nodes → DagDependency → Bool
unfolding is_condition_met
is_satisfied nodes dep = elim (lookup dep.job_id nodes) [
  | none ↦ false
  | some parent ↦ is_condition_met parent.status dep.condition
]

unfoldable pub is_ready : Nodes → DagNode → Bool
unfolding is_satisfied
is_ready nodes node = is_pending node.status && all (is_satisfied nodes) node.depends_on

-- The loop of `resolveReadyJobs` over the entries.
unfoldable pub ready_among : Nodes → Nodes → List ℕ
unfolding is_ready
ready_among nodes [] = []
ready_among nodes ((node_id, node) ∷ rest) =
    let more = ready_among nodes rest in if is_ready nodes node then node_id ∷ more else more

unfoldable pub resolve_ready_jobs : DagWorkflow → List ℕ
unfolding ready_among
resolve_ready_jobs w = ready_among w.nodes w.nodes

-- A dependency that can never be satisfied any more.
unfoldable pub is_blocked : Nodes → DagDependency → Bool
unfolding is_condition_met
is_blocked nodes dep = elim (lookup dep.job_id nodes) [
  | none ↦ true
  | some parent ↦ is_terminal parent.status && not (is_condition_met parent.status dep.condition)
]

unfoldable pub is_unreachable : Nodes → DagNode → Bool
unfolding is_blocked
is_unreachable nodes node = is_pending node.status && any (is_blocked nodes) node.depends_on

-- One node of the `for` loop: the nodes, and whether one has changed.
unfoldable pub skip_node : ℕ → Nodes × Bool → Nodes × Bool
unfolding is_unreachable
skip_node id (nodes, changed) = elim (lookup id nodes) [
  | none ↦ (nodes, changed)
  | some node ↦
      if is_unreachable nodes node
      then (insert id (record node { status = DagNodeStatus.skipped }) nodes, true)
      else (nodes, changed)
]

unfoldable pub skip_pass : List ℕ → Nodes × Bool → Nodes × Bool
unfolding skip_node
skip_pass [] s = s
skip_pass (id ∷ ids) s = skip_pass ids (skip_node id s)

-- `while (changed)`
unfoldable pub skip_loop : ℕ → Nodes → Nodes
unfolding skip_pass
skip_loop zero nodes = nodes
skip_loop (suc fuel) nodes =
    let (nodes', changed) = skip_pass (keys nodes) (nodes, false) in
    let rest = skip_loop fuel nodes' in if changed then rest else nodes'

-- Each round but the last skips a node.
unfoldable pub skip_unreachable_nodes : Nodes → Nodes
unfolding skip_loop
skip_unreachable_nodes nodes = skip_loop (length nodes + 1) nodes
