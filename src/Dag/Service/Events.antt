-- ===== src/Dag/Service/Events.antt =====
-- src/compute-job-queue/dag/dag.service.ts: the service under any sequence of calls and job events.
use stell_aiverse_backend.Prelude.{
  ℕ, ◌≡◌, ◌≢◌, ap, inl, inr, Bool, true, false, ◌||◌, List, [], ◌∷◌, some, arith, Bool-cases, any,
  keys, lookup, Distinct, includes-keys, ◌==◌, ==_refl, ok, err,
}
use stell_aiverse_backend.Dag.{DagNode, DagNodeStatus, DagWorkflow, DagWorkflowStatus}
use stell_aiverse_backend.Dag.Requests.{Nodes, Queue, DagService, CreateDagWorkflowDto}
use stell_aiverse_backend.Dag.Readiness.{is_pending, is_terminal}
use stell_aiverse_backend.Dag.Service.{
  submit_workflow, cancel_workflow, handle_node_completion, handle_node_failure, advance_nodes,
  advance_workflow, all_done, finalize_workflow, final_status, is_cancelled,
}
use stell_aiverse_backend.Dag.Service.Enqueues.{Accepts}
use stell_aiverse_backend.Dag.Service.Lifecycle.{IsIdle, advance_workflow-no_deadlock}
use stell_aiverse_backend.Dag.Service.Shape.{SameGraph-IsSound, advance_nodes-SameGraph, IsSound}

-- A submission under a generated id, the end of a node's job, or a cancellation.
pub data Event : Type 0 where
  submits : CreateDagWorkflowDto → ℕ → Event
  completes fails : ℕ → ℕ → ℕ → Event
  cancels : ℕ → Event

unfoldable pub handle : Queue → DagService → ℕ → Event → DagService
handle queue s now (submits dto wid) = elim (submit_workflow queue s dto wid now) [
  | err e ↦ s
  | ok (s', w) ↦ s'
]
handle queue s now (completes wid id result) = handle_node_completion queue s wid id result now
handle queue s now (fails wid id error) = handle_node_failure queue s wid id error now
handle queue s now (cancels wid) = elim (cancel_workflow s wid now) [ err e ↦ s | ok (s', w) ↦ s' ]

unfoldable pub handle_all : Queue → DagService → List (ℕ × Event) → DagService
handle_all queue s [] = s
handle_all queue s ((now, e) ∷ es) = handle_all queue (handle queue s now e) es

abbrev pub is_busy : DagNodeStatus → Bool
is_busy DagNodeStatus.queued = true
is_busy DagNodeStatus.running = true
is_busy DagNodeStatus.pending = false
is_busy DagNodeStatus.completed = false
is_busy DagNodeStatus.failed = false
is_busy DagNodeStatus.skipped = false
is_busy DagNodeStatus.cancelled = false

abbrev pub any_busy : Nodes → Bool
any_busy = any (λ e. is_busy e.1.status)

pub busy-intro :
    (nodes : Nodes) (id : ℕ) (node : DagNode)
    → lookup id nodes ≡ some node
    → is_busy node.status ≡ true
    → any_busy nodes ≡ true
unfolding lookup
busy-intro [] id node l b = ground arith
busy-intro ((j, n) ∷ nodes) id node l b = elim (Bool-cases (j == id)) [
  | inl hit ↦
      let e : n ≡ node = ground arith in ground (arith, ap (λ (m : DagNode). is_busy m.status) e)
  | inr miss ↦ ground (arith, busy-intro nodes id node)
]

pub busy-elim :
    (nodes : Nodes)
    → Distinct (keys nodes)
    → any_busy nodes ≡ true
    → (id : ℕ) × (node : DagNode) × (lookup id nodes ≡ some node) × (is_busy node.status ≡ true)
unfolding lookup
busy-elim [] d b = absurd (ground arith)
busy-elim ((j, n) ∷ nodes) d b = elim (Bool-cases (is_busy n.status)) [
  | inl h ↦ (j, n, ground (arith, ==_refl j), h)
  | inr h ↦
      let (id, node, l, k) = busy-elim nodes d.1 (ground arith) in
      (id, node, ground (arith, includes-keys id node nodes l, d.0), k)
]

idle_status :
    (status : DagNodeStatus)
    → is_busy status ≡ false
    → (is_pending status || is_terminal status) ≡ true
unfolding is_terminal
idle_status status h = ground arith

IsIdle-intro : (nodes : Nodes) → any_busy nodes ≡ false → IsIdle nodes
IsIdle-intro nodes h id node l = elim (Bool-cases (is_busy node.status)) [
  | inl b ↦ absurd (ground (arith, busy-intro nodes id node l b))
  | inr b ↦ idle_status node.status b
]

-- The graph is acyclic, and while the workflow is running one of its jobs is.
pub record IsGoing (w : DagWorkflow) : Type 0 where
  pub rank : ℕ → ℕ
  pub sound : IsSound rank w.nodes
  pub runs : w.status ≡ DagWorkflowStatus.running → any_busy w.nodes ≡ true

final_status-ended : (nodes : Nodes) → final_status nodes ≢ DagWorkflowStatus.running
unfolding final_status
final_status-ended nodes e = ground arith

pub running-live :
    (status : DagWorkflowStatus)
    → status ≡ DagWorkflowStatus.running
    → is_cancelled status ≡ true
    → ⊥
running-live status e c = ground arith

pub advance_workflow-IsGoing :
    (queue : Queue) (w : DagWorkflow) (now : ℕ) (rank : ℕ → ℕ)
    → Accepts queue
    → IsSound rank w.nodes
    → IsGoing (advance_workflow queue w now).0
unfolding advance_workflow finalize_workflow
advance_workflow-IsGoing queue w now rank a s = elim (Bool-cases (is_cancelled w.status)) [
  | inl c ↦
      rw (c, advance_workflow)
        (record { rank = rank; sound = s; runs = λ r. absurd (running-live w.status r c) })
  | inr c ↦
      let nodes = advance_nodes queue w.workflow_id w.nodes in
      let s' : IsSound rank nodes =
        SameGraph-IsSound rank w.nodes nodes (advance_nodes-SameGraph queue w.workflow_id w.nodes)
          s in
      elim (Bool-cases (any_busy nodes)) [
        | inl b ↦ elim (Bool-cases (all_done nodes)) [
          | inl d ↦ rw (c, d) (record { rank = rank; sound = s'; runs = λ r. b })
          | inr d ↦ rw (c, d) (record { rank = rank; sound = s'; runs = λ r. b })
        ]
        | inr b ↦
            rw
              (advance_workflow-no_deadlock queue rank w now a s.distinct s'.ranked
                (IsIdle-intro nodes b) c)
              (record { rank = rank; sound = s'; runs = λ r. absurd (final_status-ended nodes r) })
      ]
]
