-- ===== src/Dag/Service.antt =====
-- src/compute-job-queue/dag/dag.service.ts: workflows in memory, one event at a time.
-- `queue` stands for `queueService.addComputeJob`: the job's id, or the text of what it throws. It is
-- awaited with no other event in between. Times and generated ids are arguments.
pub mod Skips
pub mod Enqueues
pub mod Progress
pub mod Lifecycle
pub mod Submission
pub mod Shape
pub mod Starts
pub mod Events
pub mod Cancelled
pub mod Going
use stell_aiverse_backend.Prelude.{
  ℕ, zero, suc, ◌+◌, Bool, true, false, ◌&&◌, ◌||◌, List, [], ◌∷◌, ◌++◌, map, Option, none, some,
  ◌==◌, if◌then◌else◌, not, length, any, all, includes, keys, values, lookup, insert, Result, ok,
  err,
}
use stell_aiverse_backend.Dag.{
  DependencyCondition, on_success, on_failure, on_partial_success, always, DagNodeStatus,
  DagWorkflowStatus, DagDependency, JobSpec, NodeError, job_error, failed_to_enqueue, DagNode,
  DagWorkflow, ValidationError, duplicate_node, DagValidationResult, valid, invalid,
}
use stell_aiverse_backend.Dag.Validator.{validate}
use stell_aiverse_backend.Dag.Requests.{
  CreateDagWorkflowDto, DagException, ComputeJobData, Queue, DagService, Nodes, build_dep_map,
  build_nodes, empty_sets, all_edges, all_reverse_edges, bad_request_duplicate, bad_request_invalid,
  bad_request_already, workflow_not_found,
}
use stell_aiverse_backend.Dag.Readiness.{
  is_terminal, status_eq, ready_among, resolve_ready_jobs, skip_unreachable_nodes,
}

-- `upstreamResults`
unfoldable pub upstream_results : Nodes → List DagDependency → List (ℕ × ℕ) → List (ℕ × ℕ)
upstream_results nodes [] m = m
upstream_results nodes (dep ∷ deps) m = upstream_results nodes deps (add (lookup dep.job_id nodes))
  where
    add_result : Option ℕ → List (ℕ × ℕ)
    add_result none = m
    add_result (some r) = insert dep.job_id r m

    add : Option DagNode → List (ℕ × ℕ)
    add none = m
    add (some parent) = add_result parent.result

-- What `enqueueNode` makes of the node when the queue has answered.
unfoldable pub answered : Result ℕ ℕ → DagNode → DagNode
answered (ok id) node = record node { status = DagNodeStatus.running; queue_job_id = some id }
answered (err e) node = record node {
  status = DagNodeStatus.failed;
  error = some (failed_to_enqueue e);
}

-- `jobData`, with the context that the processor reads.
unfoldable pub job_data : Nodes → ℕ → ℕ → DagNode → ComputeJobData
unfolding upstream_results
job_data nodes workflow_id node_id node = record {
  spec = node.spec;
  workflow_id = workflow_id;
  node_id = node_id;
  upstream_results = upstream_results nodes node.depends_on [];
}

unfoldable pub enqueue_node : Queue → ℕ → ℕ → Nodes → Nodes
unfolding job_data answered
enqueue_node queue workflow_id node_id nodes = elim (lookup node_id nodes) [
  | none ↦ nodes
  | some node ↦
      let queued = record node { status = DagNodeStatus.queued } in
      insert node_id (answered (queue (job_data nodes workflow_id node_id node)) queued) nodes
]

unfoldable pub enqueue_all : Queue → ℕ → List ℕ → Nodes → Nodes
unfolding enqueue_node
enqueue_all queue workflow_id [] nodes = nodes
enqueue_all queue workflow_id (id ∷ ids) nodes =
    enqueue_all queue workflow_id ids (enqueue_node queue workflow_id id nodes)

has_status : DagNodeStatus → Nodes → Bool
unfolding status_eq
has_status status nodes = any (λ e. status_eq e.1.status status) nodes

unfoldable pub final_status : Nodes → DagWorkflowStatus
unfolding has_status
final_status nodes =
    let has_failures = has_status DagNodeStatus.failed nodes in
    let has_completed = has_status DagNodeStatus.completed nodes in
    if has_failures && has_completed
    then DagWorkflowStatus.partially_completed
    else if has_failures
    then DagWorkflowStatus.failed
    else DagWorkflowStatus.completed

-- `finalizeWorkflow`: the new workflow and the event that it emits.
unfoldable pub finalize_workflow : DagWorkflow → ℕ → DagWorkflow × List (ℕ × DagWorkflowStatus)
unfolding final_status
finalize_workflow w now =
    let status = final_status w.nodes in
    (record w { status = status; completed_at = some now }, (w.workflow_id, status) ∷ [])

abbrev pub is_cancelled : DagWorkflowStatus → Bool
is_cancelled DagWorkflowStatus.cancelled = true
is_cancelled DagWorkflowStatus.pending = false
is_cancelled DagWorkflowStatus.running = false
is_cancelled DagWorkflowStatus.completed = false
is_cancelled DagWorkflowStatus.failed = false
is_cancelled DagWorkflowStatus.partially_completed = false

abbrev pub is_completed : DagWorkflowStatus → Bool
is_completed DagWorkflowStatus.completed = true
is_completed DagWorkflowStatus.pending = false
is_completed DagWorkflowStatus.running = false
is_completed DagWorkflowStatus.failed = false
is_completed DagWorkflowStatus.partially_completed = false
is_completed DagWorkflowStatus.cancelled = false

unfoldable pub all_done : Nodes → Bool
unfolding is_terminal
all_done nodes = all (λ e. is_terminal e.1.status) nodes

-- The nodes of a workflow after the skips and the enqueues of `advanceWorkflow`.
unfoldable pub advance_nodes : Queue → ℕ → Nodes → Nodes
unfolding skip_unreachable_nodes ready_among enqueue_all
advance_nodes queue workflow_id nodes =
    let nodes' = skip_unreachable_nodes nodes in
    enqueue_all queue workflow_id (ready_among nodes' nodes') nodes'

unfoldable pub advance_workflow :
    Queue → DagWorkflow → ℕ → DagWorkflow × List (ℕ × DagWorkflowStatus)
unfolding advance_nodes all_done finalize_workflow
advance_workflow queue w now =
    let w' = record w { nodes = advance_nodes queue w.workflow_id w.nodes } in
    if is_cancelled w.status
    then (w, [])
    else if all_done w'.nodes
    then finalize_workflow w' now
    else (w', [])

-- `handleNodeCompletion` and `handleNodeFailure`: what they write to the node.
unfoldable pub complete_node : ℕ → DagNode → DagNode
complete_node result node = record node { status = DagNodeStatus.completed; result = some result }

unfoldable pub fail_node : ℕ → DagNode → DagNode
fail_node error node = record node { status = DagNodeStatus.failed; error = some (job_error error) }

unfoldable pub handle_node : Queue → DagService → ℕ → ℕ → (DagNode → DagNode) → ℕ → DagService
unfolding advance_workflow
handle_node queue s workflow_id node_id write now = elim (lookup workflow_id s.workflows) [
  | none ↦ s
  | some w ↦ elim (lookup node_id w.nodes) [
    | none ↦ s
    | some node ↦
        let (w', events) =
          advance_workflow queue (record w { nodes = insert node_id (write node) w.nodes }) now in
        record s { workflows = insert workflow_id w' s.workflows; emitted = s.emitted ++ events }
  ]
]

unfoldable pub handle_node_completion : Queue → DagService → ℕ → ℕ → ℕ → ℕ → DagService
unfolding handle_node complete_node
handle_node_completion queue s workflow_id node_id result now =
    handle_node queue s workflow_id node_id (complete_node result) now

unfoldable pub handle_node_failure : Queue → DagService → ℕ → ℕ → ℕ → ℕ → DagService
unfolding handle_node fail_node
handle_node_failure queue s workflow_id node_id error now =
    handle_node queue s workflow_id node_id (fail_node error) now

-- `cancelWorkflow`: what it does to one node.
unfoldable pub cancel_status : DagNodeStatus → DagNodeStatus
cancel_status DagNodeStatus.pending = DagNodeStatus.cancelled
cancel_status DagNodeStatus.queued = DagNodeStatus.cancelled
cancel_status DagNodeStatus.running = DagNodeStatus.running
cancel_status DagNodeStatus.completed = DagNodeStatus.completed
cancel_status DagNodeStatus.failed = DagNodeStatus.failed
cancel_status DagNodeStatus.skipped = DagNodeStatus.skipped
cancel_status DagNodeStatus.cancelled = DagNodeStatus.cancelled

unfoldable pub cancel_nodes : Nodes → Nodes
unfolding cancel_status
cancel_nodes [] = []
cancel_nodes ((id, node) ∷ nodes) =
    (id, record node { status = cancel_status node.status }) ∷ cancel_nodes nodes

unfoldable pub get_workflow : DagService → ℕ → Result DagException DagWorkflow
get_workflow s workflow_id = elim (lookup workflow_id s.workflows) [
  | none ↦ err (workflow_not_found workflow_id)
  | some w ↦ ok w
]

unfoldable pub cancel_workflow : DagService → ℕ → ℕ → Result DagException (DagService × DagWorkflow)
unfolding get_workflow cancel_nodes
cancel_workflow s workflow_id now = elim (get_workflow s workflow_id) [
  | err e ↦ err e
  | ok w ↦
      let w' = record w {
        nodes = cancel_nodes w.nodes;
        status = DagWorkflowStatus.cancelled;
        completed_at = some now;
      } in
      if is_completed w.status || is_cancelled w.status
      then err (bad_request_already workflow_id w.status)
      else ok (record s { workflows = insert workflow_id w' s.workflows }, w')
]

-- The workflow that `submitWorkflow` builds, before its roots are enqueued.
unfoldable pub build_workflow :
    CreateDagWorkflowDto → List (ℕ × List DagDependency) → List ℕ → ℕ → ℕ → DagWorkflow
unfolding build_nodes empty_sets all_edges all_reverse_edges
build_workflow dto dep_map order workflow_id now = record {
  workflow_id = workflow_id;
  name = dto.name;
  nodes = build_nodes dto.user_id dto.nodes [];
  edges = all_edges dep_map (empty_sets dto.nodes []);
  reverse_edges = all_reverse_edges dep_map (empty_sets dto.nodes []);
  status = DagWorkflowStatus.running;
  topological_order = order;
  created_at = now;
  completed_at = none;
  user_id = dto.user_id;
  metadata = dto.metadata;
}

unfoldable pub start_workflow : Queue → DagWorkflow → DagWorkflow
unfolding resolve_ready_jobs enqueue_all
start_workflow queue w = record w {
  nodes = enqueue_all queue w.workflow_id (resolve_ready_jobs w) w.nodes;
}

unfoldable pub submit_workflow :
    Queue
    → DagService
    → CreateDagWorkflowDto
    → ℕ
    → ℕ
    → Result DagException (DagService × DagWorkflow)
unfolding build_dep_map build_workflow start_workflow
submit_workflow queue s dto workflow_id now = elim (build_dep_map [] [] dto.nodes) [
  | err id ↦ err (bad_request_duplicate id)
  | ok dep_map ↦ elim (validate dep_map) [
    | invalid errors ↦ err (bad_request_invalid errors)
    | valid order ↦
        let w = start_workflow queue (build_workflow dto dep_map order workflow_id now) in
        ok (record s { workflows = insert workflow_id w s.workflows }, w)
  ]
]

unfoldable pub validate_workflow : CreateDagWorkflowDto → DagValidationResult
unfolding build_dep_map
validate_workflow dto = elim (build_dep_map [] [] dto.nodes) [
  | err id ↦ invalid (duplicate_node id ∷ [])
  | ok dep_map ↦ validate dep_map
]

-- The id, name, status, number of nodes and time of each workflow.
unfoldable pub list_workflows : DagService → List (ℕ × Option ℕ × DagWorkflowStatus × ℕ × ℕ)
list_workflows s =
    map (λ e. (e.1.workflow_id, e.1.name, e.1.status, length e.1.nodes, e.1.created_at)) s.workflows
