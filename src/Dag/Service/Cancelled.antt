-- ===== src/Dag/Service/Cancelled.antt =====
-- src/compute-job-queue/dag/dag.service.ts: a workflow once it is cancelled.
use stell_aiverse_backend.Prelude.{
  ℕ, ◌≡◌, ◌⊎◌, Bool, true, false, List, [], ◌∷◌, some, ◌==◌, not, ◌&&◌, lookup,
}
use stell_aiverse_backend.Dag.{DagNode, DagNodeStatus, DagWorkflow}
use stell_aiverse_backend.Dag.Requests.{DagService}
use stell_aiverse_backend.Dag.Service.Events.{Event, submits, completes, fails, cancels}

-- The statuses that the end of a job gives.
abbrev pub is_reported : DagNodeStatus → Bool
is_reported DagNodeStatus.completed = true
is_reported DagNodeStatus.failed = true
is_reported DagNodeStatus.pending = false
is_reported DagNodeStatus.queued = false
is_reported DagNodeStatus.running = false
is_reported DagNodeStatus.skipped = false
is_reported DagNodeStatus.cancelled = false

-- Only the nodes differ, and each of them is as it was or has been reported.
abbrev pub Kept : DagWorkflow → DagWorkflow → Type 0
Kept w w' =
    (w' ≡ record w { nodes = w'.nodes })
    × ((id : ℕ) (node : DagNode)
        → lookup id w.nodes ≡ some node
        → (node' : DagNode) × (lookup id w'.nodes ≡ some node')
          × ((node' ≡ node) ⊎ (is_reported node'.status ≡ true)))

-- No submission takes the workflow's id.
abbrev pub spares : ℕ → List (ℕ × Event) → Bool
spares wid [] = true
spares wid ((now, submits dto id) ∷ es) = not (id == wid) && spares wid es
spares wid ((now, completes id node result) ∷ es) = spares wid es
spares wid ((now, fails id node error) ∷ es) = spares wid es
spares wid ((now, cancels id) ∷ es) = spares wid es

-- The workflow is there, with what it kept.
abbrev Stays : ℕ → DagWorkflow → DagService → Type 0
Stays wid w s = (w' : DagWorkflow) × (lookup wid s.workflows ≡ some w') × Kept w w'
