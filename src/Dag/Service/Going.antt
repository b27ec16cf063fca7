-- ===== src/Dag/Service/Going.antt =====
-- src/compute-job-queue/dag/dag.service.ts: with a queue that accepts its jobs no workflow hangs.
use stell_aiverse_backend.Prelude.{
  ℕ, ◌≡◌, ◌≢◌, refl, ap, inl, inr, true, List, [], ◌∷◌, some, arith, Option-cases, Bool-cases,
  includes, lookup, insert, lookup-insert, ◌==◌, ==_refl, Result, ok, err,
}
use stell_aiverse_backend.Dag.{DagNode, DagWorkflow, DagWorkflowStatus, DagDependency, valid}
use stell_aiverse_backend.Dag.Validator.{validate}
use stell_aiverse_backend.Dag.Validator.Order.{IsTopologicalOrder}
use stell_aiverse_backend.Dag.Validator.Ranks.{position}
use stell_aiverse_backend.Dag.Requests.{
  Queue, DagService, CreateDagWorkflowDto, DagException, build_dep_map, build_nodes,
}
use stell_aiverse_backend.Dag.Readiness.{ready_among}
use stell_aiverse_backend.Dag.Service.{
  submit_workflow, cancel_workflow, get_workflow, cancel_nodes, handle_node, complete_node,
  fail_node, handle_node_completion, handle_node_failure, advance_workflow, build_workflow,
  start_workflow, enqueue_all,
}
use stell_aiverse_backend.Dag.Service.Enqueues.{Accepts}
use stell_aiverse_backend.Dag.Service.Shape.{
  SameGraph-insert, SameGraph-IsSound, enqueue_all-SameGraph, cancel_nodes-SameGraph, IsSound,
}
use stell_aiverse_backend.Dag.Service.Starts.{build_nodes-IsSound, start-runs}
use stell_aiverse_backend.Dag.Service.Submission.{submit_workflow-order, submit_workflow-inversion}
use stell_aiverse_backend.Dag.Service.Events.{
  Event, submits, completes, fails, cancels, handle, handle_all, is_busy, busy-intro, busy-elim,
  IsGoing, running-live, advance_workflow-IsGoing,
}

abbrev AllGoing : DagService → Type 0
AllGoing s = (wid : ℕ) (w : DagWorkflow) → lookup wid s.workflows ≡ some w → IsGoing w

insert-AllGoing :
    (wid : ℕ) (w : DagWorkflow) (s s' : DagService)
    → s'.workflows ≡ insert wid w s.workflows
    → IsGoing w
    → AllGoing s
    → AllGoing s'
insert-AllGoing wid w s s' e g all id v l = elim (Bool-cases (wid == id)) [
  | inl hit ↦
      let same : w ≡ v = ground (arith, ap (lookup id) e, lookup-insert wid id w s.workflows) in
      rw same at g
  | inr miss ↦ all id v (ground (arith, ap (lookup id) e, lookup-insert wid id w s.workflows))
]

handle_node-AllGoing :
    (queue : Queue) (s : DagService) (wid id now : ℕ) (write : DagNode → DagNode)
    → Accepts queue
    → ((node : DagNode) → (write node).depends_on ≡ node.depends_on)
    → AllGoing s
    → AllGoing (handle_node queue s wid id write now)
unfolding handle_node
handle_node-AllGoing queue s wid id now write a k all =
    elim (Option-cases (lookup wid s.workflows)) [
      | inl e ↦ rw (e, handle_node) all
      | inr (w, e) ↦ elim (Option-cases (lookup id w.nodes)) [
        | inl e' ↦ rw (e, handle_node, e') all
        | inr (node, e') ↦
            let g = all wid w e in
            let w' : DagWorkflow = record w { nodes = insert id (write node) w.nodes } in
            let sound : IsSound g.rank w'.nodes =
              SameGraph-IsSound g.rank w.nodes w'.nodes
                (SameGraph-insert id node (write node) w.nodes e' (k node)) g.sound in
            rw (e, handle_node, e')
              (insert-AllGoing wid (advance_workflow queue w' now).0 s
                (record s { workflows = insert wid (advance_workflow queue w' now).0 s.workflows })
                refl (advance_workflow-IsGoing queue w' now g.rank a sound) all)
      ]
    ]

submit-inversion :
    (queue : Queue) (s s' : DagService) (dto : CreateDagWorkflowDto) (wid now : ℕ) (w : DagWorkflow)
    (g : List (ℕ × List DagDependency))
    → submit_workflow queue s dto wid now ≡ ok (s', w)
    → build_dep_map [] [] dto.nodes ≡ ok g
    → (validate g ≡ valid w.topological_order) × (s'.workflows ≡ insert wid w s.workflows)
unfolding submit_workflow start_workflow build_workflow
submit-inversion queue s s' dto wid now w g h b = (ground arith, ground arith)

some-order :
    (g : List (ℕ × List DagDependency)) (order : List ℕ)
    → validate g ≡ valid order
    → IsTopologicalOrder g order
    → order ≢ []
unfolding validate
some-order [] order v t e = ground arith
some-order ((id, deps) ∷ g) order v t e =
    ground (arith, ap (λ l. includes l id) e, t.complete id, ==_refl id)

start-IsGoing :
    (queue : Queue) (wid : ℕ) (w : DagWorkflow) (dto : CreateDagWorkflowDto)
    (g : List (ℕ × List DagDependency)) (order : List ℕ)
    → Accepts queue
    → build_dep_map [] [] dto.nodes ≡ ok g
    → IsTopologicalOrder g order
    → order ≢ []
    → w.nodes
      ≡ enqueue_all queue wid
          (ready_among
            (build_nodes dto.user_id dto.nodes [])
            (build_nodes dto.user_id dto.nodes []))
          (build_nodes dto.user_id dto.nodes [])
    → IsGoing w
start-IsGoing queue wid w dto g [] a b t f e = absurd (f refl)
start-IsGoing queue wid w dto g (x ∷ xs) a b t f e =
    let nodes = build_nodes dto.user_id dto.nodes [] in
    let (node, l, r) = start-runs queue wid dto.user_id g x xs dto.nodes a b t in
    record {
      rank = position (x ∷ xs);
      sound = rw e (
          SameGraph-IsSound (position (x ∷ xs)) nodes _
            (enqueue_all-SameGraph queue wid (ready_among nodes nodes) nodes)
            (build_nodes-IsSound dto.user_id g (x ∷ xs) dto.nodes b t));
      runs = λ going. rw e (busy-intro _ x node l (rw r));
    }

submit_workflow-AllGoing :
    (queue : Queue) (s s' : DagService) (dto : CreateDagWorkflowDto) (wid now : ℕ) (w : DagWorkflow)
    → Accepts queue
    → submit_workflow queue s dto wid now ≡ ok (s', w)
    → AllGoing s
    → AllGoing s'
submit_workflow-AllGoing queue s s' dto wid now w a h all =
    let (e, q) = submit_workflow-inversion queue s s' dto wid now w h in
    let (g, b, t, r, l) = submit_workflow-order queue s s' dto wid now w h in
    let (v, m) = submit-inversion queue s s' dto wid now w g h b in
    insert-AllGoing wid w s s' m
      (start-IsGoing queue wid w dto g w.topological_order a b t
        (some-order g w.topological_order v t) e)
      all

cancel_workflow-AllGoing :
    (s s' : DagService) (wid now : ℕ) (w' : DagWorkflow)
    → cancel_workflow s wid now ≡ ok (s', w')
    → AllGoing s
    → AllGoing s'
unfolding cancel_workflow get_workflow
cancel_workflow-AllGoing s s' wid now w' h all = elim (Option-cases (lookup wid s.workflows)) [
  | inl e ↦ absurd (ground arith)
  | inr (w, e) ↦
      let g = all wid w e in
      let same : s'.workflows ≡ insert wid w' s.workflows = ground arith in
      let n : w'.nodes ≡ cancel_nodes w.nodes = ground arith in
      let c : w'.status ≡ DagWorkflowStatus.cancelled = ground arith in
      insert-AllGoing wid w' s s' same
        (record {
          rank = g.rank;
          sound = rw n (
              SameGraph-IsSound g.rank w.nodes (cancel_nodes w.nodes)
                (cancel_nodes-SameGraph w.nodes) g.sound);
          runs = λ r. absurd (running-live w'.status r (rw c));
        })
        all
]

handle-AllGoing :
    (queue : Queue) (s : DagService) (now : ℕ) (e : Event)
    → Accepts queue
    → AllGoing s
    → AllGoing (handle queue s now e)
unfolding handle handle_node_completion handle_node_failure complete_node fail_node
handle-AllGoing queue s now (submits dto wid) a all = go (submit_workflow queue s dto wid now) refl
  where
    go :
        (r : Result DagException (DagService × DagWorkflow))
        → submit_workflow queue s dto wid now ≡ r
        → AllGoing (elim r [ err e ↦ s | ok (s', w) ↦ s' ])
    go (err e) h = all
    go (ok (s', w)) h = submit_workflow-AllGoing queue s s' dto wid now w a h all
handle-AllGoing queue s now (completes wid id result) a all =
    handle_node-AllGoing queue s wid id now (complete_node result) a (λ node. refl) all
handle-AllGoing queue s now (fails wid id error) a all =
    handle_node-AllGoing queue s wid id now (fail_node error) a (λ node. refl) all
handle-AllGoing queue s now (cancels wid) a all = go (cancel_workflow s wid now) refl
  where
    go :
        (r : Result DagException (DagService × DagWorkflow))
        → cancel_workflow s wid now ≡ r
        → AllGoing (elim r [ err e ↦ s | ok (s', w) ↦ s' ])
    go (err e) h = all
    go (ok (s', w)) h = cancel_workflow-AllGoing s s' wid now w h all

handle_all-AllGoing :
    (queue : Queue) (s : DagService) (es : List (ℕ × Event))
    → Accepts queue
    → AllGoing s
    → AllGoing (handle_all queue s es)
unfolding handle_all
handle_all-AllGoing queue s [] a all = all
handle_all-AllGoing queue s ((now, e) ∷ es) a all =
    handle_all-AllGoing queue (handle queue s now e) es a (handle-AllGoing queue s now e a all)

abbrev pub idle_service : DagService
idle_service = record { workflows = []; emitted = [] }

-- With a queue that accepts its jobs no workflow hangs: after any sequence of submissions, job events
-- and cancellations on a new service, a workflow that is running has a node that is queued or running.
pub handle_all-running :
    (queue : Queue) (es : List (ℕ × Event)) (wid : ℕ) (w : DagWorkflow)
    → Accepts queue
    → lookup wid (handle_all queue idle_service es).workflows ≡ some w
    → w.status ≡ DagWorkflowStatus.running
    → (id : ℕ) × (node : DagNode) × (lookup id w.nodes ≡ some node) × (is_busy node.status ≡ true)
handle_all-running queue es wid w a l r =
    let g = handle_all-AllGoing queue idle_service es a none_yet wid w l in
    busy-elim w.nodes g.sound.distinct (g.runs r)
  where
    none_yet : AllGoing idle_service
    none_yet = λ id v e. absurd (unfold lookup in ground arith)
