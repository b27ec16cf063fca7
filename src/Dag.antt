-- ===== src/Dag.antt =====
-- src/compute-job-queue/dag/dag.interfaces.ts: the data that the validator and the service share.
-- A node id is a number: the source only compares ids. What the service hands through unread (types,
-- payloads, user ids, metadata, results, error texts) is a number too.
pub mod Validator
pub mod Requests
pub mod Readiness
pub mod Service
use stell_aiverse_backend.Prelude.{ℕ, Bool, true, false, ◌||◌, List, Option, none, some}

pub data DependencyCondition : Type 0 where
  on_success on_failure on_partial_success always : DependencyCondition

pub data DagNodeStatus : Type 0 where
  pending queued running completed failed skipped cancelled : DagNodeStatus

pub data DagWorkflowStatus : Type 0 where
  pending running completed failed partially_completed cancelled : DagWorkflowStatus

pub record DagDependency : Type 0 where
  pub job_id : ℕ
  pub condition : DependencyCondition

-- What a node hands to the queue.
pub record JobSpec : Type 0 where
  pub type_ : ℕ
  pub payload : ℕ
  pub user_id : Option ℕ
  pub priority : Option ℕ
  pub group_key : Option ℕ
  pub metadata : Option ℕ

-- Why a node has failed: the text of its job's error, or that of the queue's refusal.
pub data NodeError : Type 0 where
  job_error : ℕ → NodeError
  failed_to_enqueue : ℕ → NodeError

pub record DagNode : Type 0 where
  pub job_id : ℕ
  pub spec : JobSpec
  pub depends_on : List DagDependency
  pub status : DagNodeStatus
  pub result : Option ℕ
  pub error : Option NodeError
  pub queue_job_id : Option ℕ

pub record DagWorkflow : Type 0 where
  pub workflow_id : ℕ
  pub name : Option ℕ
  pub nodes : List (ℕ × DagNode)
  pub edges : List (ℕ × List ℕ)
  pub reverse_edges : List (ℕ × List ℕ)
  pub status : DagWorkflowStatus
  pub topological_order : List ℕ
  pub created_at : ℕ
  pub completed_at : Option ℕ
  pub user_id : Option ℕ
  pub metadata : Option ℕ

pub data ValidationError : Type 0 where
  no_nodes incomplete_ordering : ValidationError
  self_dependency duplicate_node : ℕ → ValidationError
  unknown_dependency : ℕ → ℕ → ValidationError
  circular_dependency : List ℕ → ValidationError

-- `DagValidationResult`: the order is there where the graph is valid.
pub data DagValidationResult : Type 0 where
  valid : List ℕ → DagValidationResult
  invalid : List ValidationError → DagValidationResult

pub DagNodeStatus-discrete : Discrete DagNodeStatus
DagNodeStatus-discrete = hlevel
