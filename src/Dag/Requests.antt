-- ===== src/Dag/Requests.antt =====
-- src/compute-job-queue/dag/dag.service.ts: what a client submits, the state of the service, and the
-- nodes and edges that `submitWorkflow` builds from a submission.
use stell_aiverse_backend.Prelude.{
  ℕ, List, [], ◌∷◌, ◌++◌, map, Option, none, some, if◌then◌else◌, includes, lookup, insert, Result,
  ok, err,
}
use stell_aiverse_backend.Dag.{
  DependencyCondition, on_success, DagNodeStatus, DagWorkflowStatus, DagDependency, JobSpec,
  DagNode, DagWorkflow, ValidationError,
}

pub record DagDependencyDto : Type 0 where
  pub job_id : ℕ
  pub condition : Option DependencyCondition

pub record CreateDagNodeDto : Type 0 where
  pub job_id : ℕ
  pub spec : JobSpec
  pub depends_on : Option (List DagDependencyDto)

pub record CreateDagWorkflowDto : Type 0 where
  pub name : Option ℕ
  pub user_id : Option ℕ
  pub metadata : Option ℕ
  pub nodes : List CreateDagNodeDto

-- What the service throws.
pub data DagException : Type 0 where
  bad_request_duplicate : ℕ → DagException
  bad_request_invalid : List ValidationError → DagException
  bad_request_already : ℕ → DagWorkflowStatus → DagException
  workflow_not_found : ℕ → DagException

-- `{ ...metadata, dagContext }` with what goes to the queue.
pub record ComputeJobData : Type 0 where
  pub spec : JobSpec
  pub workflow_id : ℕ
  pub node_id : ℕ
  pub upstream_results : List (ℕ × ℕ)

abbrev pub Queue : Type 0
Queue = ComputeJobData → Result ℕ ℕ

pub record DagService : Type 0 where
  pub workflows : List (ℕ × DagWorkflow)
  -- the "dag.workflow.completed" events
  pub emitted : List (ℕ × DagWorkflowStatus)

abbrev pub Nodes : Type 0
Nodes = List (ℕ × DagNode)

to_dependency : DagDependencyDto → DagDependency
to_dependency d = record {
  job_id = d.job_id;
  condition = elim d.condition [ none ↦ on_success | some c ↦ c ];
}

-- `(node.dependsOn || []).map(…)`
unfoldable pub dependencies : Option (List DagDependencyDto) → List DagDependency
unfolding to_dependency
dependencies none = []
dependencies (some ds) = map to_dependency ds

-- The dependency map, or the first node id that is there twice.
unfoldable pub build_dep_map :
    List ℕ
    → List (ℕ × List DagDependency)
    → List CreateDagNodeDto
    → Result ℕ (List (ℕ × List DagDependency))
unfolding dependencies
build_dep_map seen m [] = ok m
build_dep_map seen m (node ∷ nodes) =
    let rest =
      build_dep_map (node.job_id ∷ seen) (insert node.job_id (dependencies node.depends_on) m)
        nodes in
    if includes seen node.job_id then err node.job_id else rest

-- `nodeDto.userId ?? dto.userId`
own_or : Option ℕ → Option ℕ → Option ℕ
own_or none d = d
own_or (some u) d = some u

unfoldable pub build_node : Option ℕ → CreateDagNodeDto → DagNode
unfolding own_or dependencies
build_node user_id dto = record {
  job_id = dto.job_id;
  spec = record spec { user_id = own_or spec.user_id user_id };
  depends_on = dependencies dto.depends_on;
  status = DagNodeStatus.pending;
  result = none;
  error = none;
  queue_job_id = none;
}
  where
    open dto use {spec}

unfoldable pub build_nodes : Option ℕ → List CreateDagNodeDto → Nodes → Nodes
unfolding build_node
build_nodes user_id [] m = m
build_nodes user_id (dto ∷ dtos) m =
    build_nodes user_id dtos (insert dto.job_id (build_node user_id dto) m)

unfoldable pub empty_sets : List CreateDagNodeDto → List (ℕ × List ℕ) → List (ℕ × List ℕ)
empty_sets [] m = m
empty_sets (dto ∷ dtos) m = empty_sets dtos (insert dto.job_id [] m)

-- `edges.get(key)?.add(value)` on a map of sets
unfoldable pub add_to_set : ℕ → ℕ → List (ℕ × List ℕ) → List (ℕ × List ℕ)
add_to_set key value m = elim (lookup key m) [
  | none ↦ m
  | some l ↦ if includes l value then m else insert key (l ++ value ∷ []) m
]

add_edges : ℕ → List DagDependency → List (ℕ × List ℕ) → List (ℕ × List ℕ)
unfolding add_to_set
add_edges node_id [] m = m
add_edges node_id (dep ∷ deps) m = add_edges node_id deps (add_to_set dep.job_id node_id m)

add_reverse_edges : ℕ → List DagDependency → List (ℕ × List ℕ) → List (ℕ × List ℕ)
unfolding add_to_set
add_reverse_edges node_id [] m = m
add_reverse_edges node_id (dep ∷ deps) m =
    add_reverse_edges node_id deps (add_to_set node_id dep.job_id m)

unfoldable pub all_edges : List (ℕ × List DagDependency) → List (ℕ × List ℕ) → List (ℕ × List ℕ)
unfolding add_edges
all_edges [] m = m
all_edges ((node_id, deps) ∷ g) m = all_edges g (add_edges node_id deps m)

unfoldable pub all_reverse_edges :
    List (ℕ × List DagDependency) → List (ℕ × List ℕ) → List (ℕ × List ℕ)
unfolding add_reverse_edges
all_reverse_edges [] m = m
all_reverse_edges ((node_id, deps) ∷ g) m = all_reverse_edges g (add_reverse_edges node_id deps m)
