-- ===== src/Dag/Service/Enqueues.antt =====
-- src/compute-job-queue/dag/dag.service.ts, `enqueueNode`: the nodes after a list of them is enqueued.
use stell_aiverse_backend.Prelude.{
  ℕ, ◌≡◌, refl, ◌∙◌, sym, ap, inl, inr, ◌⊎◌, Bool, true, false, List, [], ◌∷◌, none, some, arith,
  ◌==◌, Bool-cases, ==_refl, Option-cases, any, all, includes, keys, lookup, insert, lookup-insert,
  Distinct, includes-keys, includes-keys-insert, Distinct-insert, ok,
}
use stell_aiverse_backend.Dag.{DagNode, DagNodeStatus, DagDependency}
use stell_aiverse_backend.Dag.Requests.{Nodes, Queue, ComputeJobData}
use stell_aiverse_backend.Dag.Readiness.{
  is_pending, is_terminal, is_satisfied, is_blocked, is_ready, is_unreachable, ready_among,
}
use stell_aiverse_backend.Dag.Service.{enqueue_node, enqueue_all, job_data}

-- The queue never refuses a job.
abbrev pub Accepts : Queue → Type 0
Accepts queue = (job : ComputeJobData) → (id : ℕ) × (queue job ≡ ok id)

running_as : DagNode → ℕ → DagNode
running_as node job = record node { status = DagNodeStatus.running; queue_job_id = some job }

-- What an accepting queue does to the map: the node is running.
enqueue_node-cases :
    (queue : Queue) (w id : ℕ) (nodes : Nodes)
    → Accepts queue
    → ((lookup id nodes ≡ none) × (enqueue_node queue w id nodes ≡ nodes))
      ⊎ ((node : DagNode) × (job : ℕ) × (lookup id nodes ≡ some node)
          × (enqueue_node queue w id nodes ≡ insert id (running_as node job) nodes))
unfolding enqueue_node running_as
enqueue_node-cases queue w id nodes a = elim (Option-cases (lookup id nodes)) [
  | inl e ↦ inl (e, ground arith)
  | inr (node, e) ↦
      let (job, j) = a (job_data nodes w id node) in inr (node, job, e, ground (arith, e, j))
]

-- A node that runs, where it had not ended, satisfies and blocks what it did before: nothing.
insert-is_satisfied :
    (id job : ℕ) (node : DagNode) (nodes : Nodes) (dep : DagDependency)
    → lookup id nodes ≡ some node
    → is_terminal node.status ≡ false
    → (is_satisfied (insert id (running_as node job) nodes) dep ≡ is_satisfied nodes dep)
      × (is_blocked (insert id (running_as node job) nodes) dep ≡ is_blocked nodes dep)
unfolding is_satisfied is_blocked running_as
insert-is_satisfied id job node nodes dep h t = elim (Bool-cases (id == dep.job_id)) [
  | inl hit ↦ (
    ground (arith, lookup-insert id dep.job_id (running_as node job) nodes),
    ground (arith, lookup-insert id dep.job_id (running_as node job) nodes),
  )
  | inr miss ↦ (
    ground (arith, lookup-insert id dep.job_id (running_as node job) nodes),
    ground (arith, lookup-insert id dep.job_id (running_as node job) nodes),
  )
]

-- The nodes of the list have not ended.
abbrev pub Live : List ℕ → Nodes → Type 0
Live ids nodes =
    (id : ℕ) (node : DagNode)
    → includes ids id ≡ true
    → lookup id nodes ≡ some node
    → is_terminal node.status ≡ false

-- What holds after the nodes of the list have been enqueued.
pub record Enqueued (ids : List ℕ) (nodes nodes' : Nodes) : Type 0 where
  pub satisfied : (dep : DagDependency) → is_satisfied nodes' dep ≡ is_satisfied nodes dep
  pub blocked : (dep : DagDependency) → is_blocked nodes' dep ≡ is_blocked nodes dep
  pub others : (id : ℕ) → includes ids id ≡ false → lookup id nodes' ≡ lookup id nodes
  pub runs :
      (id : ℕ) (node : DagNode)
      → includes ids id ≡ true
      → lookup id nodes' ≡ some node
      → node.status ≡ DagNodeStatus.running
  pub same_keys : (id : ℕ) → includes (keys nodes') id ≡ includes (keys nodes) id
  pub distinct : Distinct (keys nodes) → Distinct (keys nodes')

module _ (queue : Queue) (w : ℕ) (a : Accepts queue) where
  enqueue_node-Enqueued :
      (id : ℕ) (nodes : Nodes)
      → Live (id ∷ []) nodes
      → Enqueued (id ∷ []) nodes (enqueue_node queue w id nodes)
  enqueue_node-Enqueued id nodes live = elim (enqueue_node-cases queue w id nodes a) [
    | inl (e, same) ↦ rw same (record {
      satisfied = λ dep. refl;
      blocked = λ dep. refl;
      others = λ j h. refl;
      runs = λ j node h l. ground arith;
      same_keys = λ j. refl;
      distinct = λ d. d;
    })
    | inr (node, job, e, same) ↦
        let t : is_terminal node.status ≡ false = live id node (ground (arith, ==_refl id)) e in
        rw same (record {
          satisfied = λ dep. (insert-is_satisfied id job node nodes dep e t).0;
          blocked = λ dep. (insert-is_satisfied id job node nodes dep e t).1;
          others = λ j h. ground (arith, lookup-insert id j (running_as node job) nodes);
          runs = λ j n h l.
              unfold running_as in ground (arith, lookup-insert id j (running_as node job) nodes);
          same_keys = λ j. ground (
            arith,
            includes-keys-insert id j (running_as node job) nodes,
            includes-keys id node nodes e,
          );
          distinct = Distinct-insert id (running_as node job) nodes;
        })
  ]

  pub enqueue_all-Enqueued :
      (ids : List ℕ) (nodes : Nodes)
      → Live ids nodes
      → Enqueued ids nodes (enqueue_all queue w ids nodes)
  unfolding enqueue_all is_terminal
  enqueue_all-Enqueued [] nodes live = record {
    satisfied = λ dep. refl;
    blocked = λ dep. refl;
    others = λ j h. refl;
    runs = λ j node h l. ground arith;
    same_keys = λ j. refl;
    distinct = λ d. d;
  }
  enqueue_all-Enqueued (id ∷ ids) nodes live =
      let nodes' = enqueue_node queue w id nodes in
      let f : Enqueued (id ∷ []) nodes nodes' =
        enqueue_node-Enqueued id nodes (λ j n h l. live j n (ground arith) l) in
      let later : Live ids nodes' = λ j n h l. elim (Bool-cases (id == j)) [
        | inl hit ↦ (let r : n.status ≡ DagNodeStatus.running = f.runs j n (ground arith) l in rw r)
        | inr miss ↦ live j n (ground arith) (sym (f.others j (ground arith)) ∙ l)
      ] in
      let g : Enqueued ids nodes' (enqueue_all queue w ids nodes') =
        enqueue_all-Enqueued ids nodes' later in
      record {
        satisfied = λ dep. g.satisfied dep ∙ f.satisfied dep;
        blocked = λ dep. g.blocked dep ∙ f.blocked dep;
        others = λ j h. g.others j (ground arith) ∙ f.others j (ground arith);
        runs = λ j n h l. elim (Bool-cases (includes ids j)) [
          | inl m ↦ g.runs j n m l
          | inr m ↦ f.runs j n (ground arith) (sym (g.others j m) ∙ l)
        ];
        same_keys = λ j. g.same_keys j ∙ f.same_keys j;
        distinct = λ d. g.distinct (f.distinct d);
      }

ready_among-keys :
    (nodes g : Nodes) (id : ℕ)
    → includes (ready_among nodes g) id ≡ true
    → includes (keys g) id ≡ true
unfolding ready_among
ready_among-keys nodes [] id h = ground arith
ready_among-keys nodes ((j, n) ∷ g) id h = ground (arith, ready_among-keys nodes g id)

-- The list of ready nodes holds the ready ones and no other.
pub ready_among-is_ready :
    (nodes g : Nodes) (id : ℕ) (node : DagNode)
    → Distinct (keys g)
    → lookup id g ≡ some node
    → includes (ready_among nodes g) id ≡ is_ready nodes node
unfolding ready_among lookup
ready_among-is_ready nodes [] id node d h = ground arith
ready_among-is_ready nodes ((j, n) ∷ g) id node d h = elim (Bool-cases (j == id)) [
  | inl hit ↦
      let no : includes (keys g) id ≡ false = ground arith in
      let e : n ≡ node = ground arith in
      ground (arith, ready_among-keys nodes g id, ap (is_ready nodes) e)
  | inr miss ↦ ground (arith, ready_among-is_ready nodes g id node d.1)
]

all-ext :
    (p q : DagDependency → Bool) (deps : List DagDependency)
    → ((dep : DagDependency) → p dep ≡ q dep)
    → all p deps ≡ all q deps
all-ext p q [] h = refl
all-ext p q (dep ∷ deps) h = ground (arith, h dep, all-ext p q deps h)

any-ext :
    (p q : DagDependency → Bool) (deps : List DagDependency)
    → ((dep : DagDependency) → p dep ≡ q dep)
    → any p deps ≡ any q deps
any-ext p q [] h = refl
any-ext p q (dep ∷ deps) h = ground (arith, h dep, any-ext p q deps h)

pub is_ready-nonpending :
    (nodes : Nodes) (node : DagNode)
    → is_pending node.status ≡ false
    → (is_ready nodes node ≡ false) × (is_unreachable nodes node ≡ false)
unfolding is_ready is_unreachable
is_ready-nonpending nodes node h = (ground arith, ground arith)

pub is_ready-live :
    (nodes : Nodes) (node : DagNode) → is_ready nodes node ≡ true → is_terminal node.status ≡ false
unfolding is_ready is_terminal
is_ready-live nodes node h = ground arith

pub is_ready-ext :
    (nodes nodes' : Nodes) (node : DagNode)
    → ((dep : DagDependency) → is_satisfied nodes' dep ≡ is_satisfied nodes dep)
    → is_ready nodes' node ≡ is_ready nodes node
unfolding is_ready
is_ready-ext nodes nodes' node h =
    ground (arith, all-ext (is_satisfied nodes') (is_satisfied nodes) node.depends_on h)

pub is_unreachable-ext :
    (nodes nodes' : Nodes) (node : DagNode)
    → ((dep : DagDependency) → is_blocked nodes' dep ≡ is_blocked nodes dep)
    → is_unreachable nodes' node ≡ is_unreachable nodes node
unfolding is_unreachable
is_unreachable-ext nodes nodes' node h =
    ground (arith, any-ext (is_blocked nodes') (is_blocked nodes) node.depends_on h)
