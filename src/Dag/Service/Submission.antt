-- ===== src/Dag/Service/Submission.antt =====
-- src/compute-job-queue/dag/dag.service.ts: what `submitWorkflow` accepts, and how a workflow whose
-- jobs the queue refuses hangs.
use stell_aiverse_backend.Prelude.{
  ◌∙◌, ap, map, ◌++◌, includes, false, ==_refl, includes-keys-insert, ℕ, ◌≡◌, refl, inl, inr, true,
  ◌||◌, List, [], ◌∷◌, Option, some, arith, ◌==◌, Bool-cases, Option-cases, keys, lookup, insert,
  lookup-insert, Distinct, Result, ok, err,
}
use mathlib.Core.List.{append-nil, append_assoc}
use stell_aiverse_backend.Dag.{DagNode, DagWorkflow, DagWorkflowStatus, DagDependency}
use stell_aiverse_backend.Dag.Validator.Order.{IsTopologicalOrder, validate-valid}
use stell_aiverse_backend.Dag.Requests.{
  Nodes, Queue, ComputeJobData, DagService, CreateDagNodeDto, CreateDagWorkflowDto, dependencies,
  build_dep_map, build_node, build_nodes,
}
use stell_aiverse_backend.Dag.Readiness.{is_pending, is_terminal, resolve_ready_jobs, ready_among}
use stell_aiverse_backend.Dag.Service.{
  build_workflow, start_workflow, submit_workflow, enqueue_node, enqueue_all, answered, job_data,
}
use stell_aiverse_backend.Dag.Service.Lifecycle.{IsIdle}

-- The ids that a client gives to the nodes, and the graph of the submission.
abbrev pub node_ids : List CreateDagNodeDto → List ℕ
node_ids = map (λ (node : CreateDagNodeDto). node.job_id)

abbrev pub submitted_graph : List CreateDagNodeDto → List (ℕ × List DagDependency)
submitted_graph = map (λ (node : CreateDagNodeDto). (node.job_id, dependencies node.depends_on))

insert-excluded :
    (id : ℕ) (deps : List DagDependency) (m : List (ℕ × List DagDependency))
    → includes (keys m) id ≡ false
    → insert id deps m ≡ m ++ (id, deps) ∷ []
unfolding insert
insert-excluded id deps [] h = refl
insert-excluded id deps ((j, ds) ∷ m) h = ground (arith, insert-excluded id deps m)

-- The map that is built is the graph of the submission, whose ids are new and distinct.
build_dep_map-graph :
    (seen : List ℕ) (m g : List (ℕ × List DagDependency)) (dtos : List CreateDagNodeDto)
    → ((id : ℕ) → includes (keys m) id ≡ includes seen id)
    → build_dep_map seen m dtos ≡ ok g
    → (g ≡ m ++ submitted_graph dtos)
      × Distinct (node_ids dtos)
      × ((id : ℕ) → includes seen id ≡ true → includes (node_ids dtos) id ≡ false)
unfolding build_dep_map
build_dep_map-graph seen m g [] same h = (ground (arith, append-nil m), tt, λ id k. refl)
build_dep_map-graph seen m g (dto ∷ dtos) same h =
    let deps = dependencies dto.depends_on in
    let new : includes seen dto.job_id ≡ false = ground arith in
    let placed : insert dto.job_id deps m ≡ m ++ (dto.job_id, deps) ∷ [] =
      insert-excluded dto.job_id deps m (same dto.job_id ∙ new) in
    let (e, d, others) =
      build_dep_map-graph (dto.job_id ∷ seen) (insert dto.job_id deps m) g dtos
        (λ id.
          includes-keys-insert dto.job_id id deps m ∙ ap (λ b. dto.job_id == id || b) (same id))
        (ground arith) in
    (
      e
          ∙ ap (λ x. x ++ submitted_graph dtos) placed
          ∙ append_assoc m ((dto.job_id, deps) ∷ []) (submitted_graph dtos),
      (others dto.job_id (ground (arith, ==_refl dto.job_id)), d),
      (λ id k. ground (arith, k, new, others id)),
    )

keys-submitted_graph : (dtos : List CreateDagNodeDto) → keys (submitted_graph dtos) ≡ node_ids dtos
keys-submitted_graph [] = refl
keys-submitted_graph (dto ∷ dtos) = ap (λ ids. dto.job_id ∷ ids) (keys-submitted_graph dtos)

-- What an accepted submission registers.
pub submit_workflow-order :
    (queue : Queue) (s s' : DagService) (dto : CreateDagWorkflowDto) (wid now : ℕ) (w : DagWorkflow)
    → submit_workflow queue s dto wid now ≡ ok (s', w)
    → (g : List (ℕ × List DagDependency)) × (build_dep_map [] [] dto.nodes ≡ ok g)
      × IsTopologicalOrder g w.topological_order
      × (w.status ≡ DagWorkflowStatus.running)
      × (lookup wid s'.workflows ≡ some w)
unfolding submit_workflow start_workflow build_workflow
submit_workflow-order queue s s' dto wid now w h = go (build_dep_map [] [] dto.nodes) refl
  where
    go :
        (r : Result ℕ (List (ℕ × List DagDependency)))
        → build_dep_map [] [] dto.nodes ≡ r
        → (g : List (ℕ × List DagDependency)) × (build_dep_map [] [] dto.nodes ≡ ok g)
          × IsTopologicalOrder g w.topological_order
          × (w.status ≡ DagWorkflowStatus.running)
          × (lookup wid s'.workflows ≡ some w)
    go (err id) e = absurd (ground arith)
    go (ok g) e =
        let (same, d, others) = build_dep_map-graph [] [] g dto.nodes (λ id. refl) e in
        let distinct : Distinct (keys g) = rw (same, keys-submitted_graph dto.nodes) d in
        (
          g,
          e,
          validate-valid g w.topological_order distinct (ground arith),
          ground arith,
          ground (arith, lookup-insert wid wid w s.workflows),
        )

-- A submission is accepted only if the ids of its nodes are distinct and their graph is acyclic: the
-- workflow is registered, it is running, and its recorded order holds every node of the submission
-- once, after its dependencies.
pub submit_workflow_lem :
    (queue : Queue) (s s' : DagService) (dto : CreateDagWorkflowDto) (wid now : ℕ) (w : DagWorkflow)
    → submit_workflow queue s dto wid now ≡ ok (s', w)
    → Distinct (node_ids dto.nodes)
      × IsTopologicalOrder (submitted_graph dto.nodes) w.topological_order
      × (w.status ≡ DagWorkflowStatus.running)
      × (lookup wid s'.workflows ≡ some w)
submit_workflow_lem queue s s' dto wid now w h =
    let (g, b, t, r, l) = submit_workflow-order queue s s' dto wid now w h in
    let (same, d, others) = build_dep_map-graph [] [] g dto.nodes (λ id. refl) b in
    (d, rw (← same) t, r, l)

-- The queue refuses every job.
abbrev pub Refuses : Queue → Type 0
Refuses queue = (job : ComputeJobData) → (e : ℕ) × (queue job ≡ err e)

insert-IsIdle :
    (id : ℕ) (node : DagNode) (nodes : Nodes)
    → (is_pending node.status || is_terminal node.status) ≡ true
    → IsIdle nodes
    → IsIdle (insert id node nodes)
insert-IsIdle id node nodes p i j n l = elim (Bool-cases (id == j)) [
  | inl hit ↦ let e : node ≡ n = ground (arith, lookup-insert id j node nodes) in rw e at p
  | inr miss ↦ i j n (ground (arith, lookup-insert id j node nodes))
]

build_nodes-IsIdle :
    (user : Option ℕ) (dtos : List CreateDagNodeDto) (m : Nodes)
    → IsIdle m
    → IsIdle (build_nodes user dtos m)
unfolding build_nodes
build_nodes-IsIdle user [] m i = i
build_nodes-IsIdle user (dto ∷ dtos) m i =
    build_nodes-IsIdle user dtos (insert dto.job_id (build_node user dto) m)
      (insert-IsIdle dto.job_id (build_node user dto) m (unfold build_node in refl) i)

enqueue_node-IsIdle :
    (queue : Queue) (w id : ℕ) (nodes : Nodes)
    → Refuses queue
    → IsIdle nodes
    → IsIdle (enqueue_node queue w id nodes)
unfolding enqueue_node is_terminal
enqueue_node-IsIdle queue w id nodes f i = elim (Option-cases (lookup id nodes)) [
  | inl e ↦ rw (e, enqueue_node) i
  | inr (node, e) ↦
      let (x, r) = f (job_data nodes w id node) in
      rw (e, enqueue_node) (insert-IsIdle id _ nodes (rw (r, answered)) i)
]

enqueue_all-IsIdle :
    (queue : Queue) (w : ℕ) (ids : List ℕ) (nodes : Nodes)
    → Refuses queue
    → IsIdle nodes
    → IsIdle (enqueue_all queue w ids nodes)
unfolding enqueue_all
enqueue_all-IsIdle queue w [] nodes f i = i
enqueue_all-IsIdle queue w (id ∷ ids) nodes f i =
    enqueue_all-IsIdle queue w ids (enqueue_node queue w id nodes) f
      (enqueue_node-IsIdle queue w id nodes f i)

pub submit_workflow-inversion :
    (queue : Queue) (s s' : DagService) (dto : CreateDagWorkflowDto) (wid now : ℕ) (w : DagWorkflow)
    → submit_workflow queue s dto wid now ≡ ok (s', w)
    → (w.nodes
        ≡ enqueue_all queue wid
            (ready_among
              (build_nodes dto.user_id dto.nodes [])
              (build_nodes dto.user_id dto.nodes []))
            (build_nodes dto.user_id dto.nodes []))
      × (s'.emitted ≡ s.emitted)
unfolding submit_workflow start_workflow build_workflow resolve_ready_jobs
submit_workflow-inversion queue s s' dto wid now w h = (ground arith, ground arith)

-- A submission that is accepted while the queue refuses every job hangs: the workflow is running, no
-- node of it is queued or running, and no event has said that it ended.
pub submit_workflow-stuck :
    (queue : Queue) (s s' : DagService) (dto : CreateDagWorkflowDto) (wid now : ℕ) (w : DagWorkflow)
    → Refuses queue
    → submit_workflow queue s dto wid now ≡ ok (s', w)
    → IsIdle w.nodes × (w.status ≡ DagWorkflowStatus.running) × (s'.emitted ≡ s.emitted)
submit_workflow-stuck queue s s' dto wid now w f h =
    let (e, q) = submit_workflow-inversion queue s s' dto wid now w h in
    let (d, o, r, l) = submit_workflow_lem queue s s' dto wid now w h in
    (
      rw e (
          enqueue_all-IsIdle queue wid _ (build_nodes dto.user_id dto.nodes []) f
            (build_nodes-IsIdle dto.user_id dto.nodes [] empty)),
      r,
      q,
    )
  where
    empty : IsIdle []
    empty = λ id node l. unfold lookup in ground arith
