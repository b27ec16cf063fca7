-- ===== src/Scenarios/Workflows.antt =====
-- src/compute-job-queue/dag/dag.service.ts: the service on small workflows.
use stell_aiverse_backend.Prelude.{
  lookup, insert, ℕ, ◌≡◌, ◌⊎◌, refl, true, false, List, [], ◌∷◌, none, some, arith, keys, Distinct,
  ok, err, all,
}
use stell_aiverse_backend.Dag.{
  on_success, on_failure, DagNodeStatus, DagWorkflowStatus, DagDependency, JobSpec, DagNode,
  DagWorkflow, DependencyCondition,
}
use stell_aiverse_backend.Dag.Validator.{validate}
use stell_aiverse_backend.Dag.Validator.Order.{IsTopologicalOrder}
use stell_aiverse_backend.Dag.Requests.{
  CreateDagNodeDto, CreateDagWorkflowDto, DagDependencyDto, Queue, DagService, Nodes,
}
use stell_aiverse_backend.Dag.Readiness.{
  skip_unreachable_nodes, is_ready, is_unreachable, is_satisfied, is_terminal,
}
use stell_aiverse_backend.Dag.Service.{
  submit_workflow, build_workflow, start_workflow, advance_nodes, advance_workflow,
  finalize_workflow,
}
use stell_aiverse_backend.Dag.Service.Events.{Event, submits, handle, handle_all, is_busy}
use stell_aiverse_backend.Dag.Service.Going.{idle_service, handle_all-running}
use stell_aiverse_backend.Dag.Service.Skips.{IsSettled, skipped, skip_unreachable_nodes-IsSettled}
use stell_aiverse_backend.Dag.Service.Enqueues.{Accepts}
use stell_aiverse_backend.Dag.Service.Progress.{advance_nodes_complete, advance_nodes-safe}
use stell_aiverse_backend.Dag.Service.Lifecycle.{IsRanked, IsIdle, advance_workflow-no_deadlock}
use stell_aiverse_backend.Dag.Service.Submission.{
  Refuses, submit_workflow_lem, submit_workflow-stuck, submitted_graph,
}

abbrev spec : JobSpec
spec = record {
  type_ = 0;
  payload = 0;
  user_id = none;
  priority = none;
  group_key = none;
  metadata = none;
}

abbrev dep : ℕ → DependencyCondition → DagDependency
dep id c = record { job_id = id; condition = c }

abbrev node : ℕ → List DagDependency → DagNodeStatus → DagNode
node id deps status = record {
  job_id = id;
  spec = spec;
  depends_on = deps;
  status = status;
  result = none;
  error = none;
  queue_job_id = none;
}

abbrev workflow : Nodes → DagWorkflowStatus → DagWorkflow
workflow nodes status = record {
  workflow_id = 7;
  name = none;
  nodes = nodes;
  edges = [];
  reverse_edges = [];
  status = status;
  topological_order = [];
  created_at = 0;
  completed_at = none;
  user_id = none;
  metadata = none;
}

abbrev accepting : Queue
accepting job = ok job.node_id

abbrev refusing : Queue
refusing job = err 0

accepting-Accepts : Accepts accepting
accepting-Accepts job = (job.node_id, refl)

-- 2 waits for the success of 1, and 3 for its failure.
abbrev fork : Nodes
fork =
    (1, node 1 [] DagNodeStatus.completed)
    ∷ (2, node 2 (dep 1 on_success ∷ []) DagNodeStatus.pending)
    ∷ (3, node 3 (dep 1 on_failure ∷ []) DagNodeStatus.pending)
    ∷ []

fork-Distinct : Distinct (keys fork)
fork-Distinct = (refl, (refl, (refl, tt)))

fork-after :
    lookup 3 (advance_nodes accepting 7 fork)
    ≡ some (node 3 (dep 1 on_failure ∷ []) DagNodeStatus.skipped)
unfolding advance_nodes lookup insert
fork-after = refl

advance_nodes_complete_example :
    (is_ready
        (advance_nodes accepting 7 fork)
        (node 3 (dep 1 on_failure ∷ []) DagNodeStatus.skipped)
      ≡ false)
    × (is_unreachable
          (advance_nodes accepting 7 fork)
          (node 3 (dep 1 on_failure ∷ []) DagNodeStatus.skipped)
        ≡ false)
advance_nodes_complete_example =
    advance_nodes_complete accepting 7 fork 3 (node 3 (dep 1 on_failure ∷ []) DagNodeStatus.skipped)
      accepting-Accepts fork-Distinct fork-after

fork-two : lookup 2 fork ≡ some (node 2 (dep 1 on_success ∷ []) DagNodeStatus.pending)
unfolding lookup
fork-two = refl

advance_nodes-safe_example :
    (lookup 2 (advance_nodes accepting 7 fork)
      ≡ some (node 2 (dep 1 on_success ∷ []) DagNodeStatus.pending))
    ⊎ ((true ≡ true)
        × ((lookup 2 (advance_nodes accepting 7 fork)
              ≡ some (skipped (node 2 (dep 1 on_success ∷ []) DagNodeStatus.pending)))
            ⊎ (all (is_satisfied (skip_unreachable_nodes fork)) (dep 1 on_success ∷ []) ≡ true)))
advance_nodes-safe_example =
    advance_nodes-safe accepting 7 fork 2 (node 2 (dep 1 on_success ∷ []) DagNodeStatus.pending)
      fork-Distinct fork-two

skip_unreachable_nodes-IsSettled_example : IsSettled (skip_unreachable_nodes fork)
skip_unreachable_nodes-IsSettled_example = skip_unreachable_nodes-IsSettled fork

-- 2 waits for the failure of 1, which is completed.
abbrev dead_end : Nodes
dead_end =
    (1, node 1 [] DagNodeStatus.completed)
    ∷ (2, node 2 (dep 1 on_failure ∷ []) DagNodeStatus.pending)
    ∷ []

dead_end-IsRanked : IsRanked (λ id. id) (advance_nodes accepting 7 dead_end)
unfolding advance_nodes lookup insert
dead_end-IsRanked id n h = ground arith

dead_end-IsIdle : IsIdle (advance_nodes accepting 7 dead_end)
unfolding advance_nodes lookup insert is_terminal
dead_end-IsIdle id n h = ground arith

advance_workflow-no_deadlock_example :
    advance_workflow accepting (workflow dead_end DagWorkflowStatus.running) 5
    ≡ finalize_workflow (workflow (advance_nodes accepting 7 dead_end) DagWorkflowStatus.running) 5
advance_workflow-no_deadlock_example =
    advance_workflow-no_deadlock accepting (λ id. id) (workflow dead_end DagWorkflowStatus.running)
      5 accepting-Accepts (refl, (refl, tt)) dead_end-IsRanked dead_end-IsIdle refl

abbrev service : DagWorkflowStatus → DagService
service status = record { workflows = (7, workflow fork status) ∷ []; emitted = [] }

abbrev dto_node : ℕ → List DagDependencyDto → CreateDagNodeDto
dto_node id deps = record { job_id = id; spec = spec; depends_on = some deps }

-- A submission of 1, and 2 that waits for it.
abbrev dto : CreateDagWorkflowDto
dto = record {
  name = none;
  user_id = none;
  metadata = none;
  nodes = dto_node 1 [] ∷ dto_node 2 (record { job_id = 1; condition = none } ∷ []) ∷ [];
}

abbrev idle : DagService
idle = record { workflows = []; emitted = [] }

abbrev dep_map : List (ℕ × List DagDependency)
dep_map = (1, []) ∷ (2, dep 1 on_success ∷ []) ∷ []

abbrev started : Queue → DagWorkflow
started queue = start_workflow queue (build_workflow dto dep_map (1 ∷ 2 ∷ []) 7 0)

abbrev registered : Queue → DagService
registered queue = record { workflows = insert 7 (started queue) []; emitted = [] }

submitted :
    (queue : Queue) → submit_workflow queue idle dto 7 0 ≡ ok (registered queue, started queue)
unfolding submit_workflow validate lookup insert
submitted queue = refl

submit_workflow_lem_example :
    Distinct (1 ∷ 2 ∷ [])
    × IsTopologicalOrder (submitted_graph dto.nodes) (started accepting).topological_order
    × ((started accepting).status ≡ DagWorkflowStatus.running)
    × (lookup 7 (registered accepting).workflows ≡ some (started accepting))
submit_workflow_lem_example =
    submit_workflow_lem accepting idle (registered accepting) dto 7 0 (started accepting)
      (submitted accepting)

refusing-Refuses : Refuses refusing
refusing-Refuses job = (0, refl)

submit_workflow-stuck_example :
    IsIdle (started refusing).nodes
    × ((started refusing).status ≡ DagWorkflowStatus.running)
    × ((registered refusing).emitted ≡ [])
submit_workflow-stuck_example =
    submit_workflow-stuck refusing idle (registered refusing) dto 7 0 (started refusing)
      refusing-Refuses (submitted refusing)

abbrev submissions : List (ℕ × Event)
submissions = (0, submits dto 7) ∷ []

submissions-workflow :
    lookup 7 (handle_all accepting idle_service submissions).workflows ≡ some (started accepting)
unfolding handle_all handle submit_workflow validate lookup insert
submissions-workflow = refl

handle_all-running_example :
    (id : ℕ) × (n : DagNode) × (lookup id (started accepting).nodes ≡ some n)
    × (is_busy n.status ≡ true)
unfolding start_workflow build_workflow
handle_all-running_example =
    handle_all-running accepting submissions 7 (started accepting) accepting-Accepts
      submissions-workflow refl
