-- ===== src/Dag/Service/Shape.antt =====
-- src/compute-job-queue/dag/dag.service.ts: no operation changes which nodes a workflow has, or what
-- they depend on.
use stell_aiverse_backend.Prelude.{
  ℕ, zero, suc, ◌≡◌, ◌<◌, refl, ap, ◌∙◌, inl, inr, Bool, true, false, List, [], ◌∷◌, Option, none,
  some, arith, Option-cases, Bool-cases, includes, keys, lookup, insert, lookup-insert, Distinct,
  Distinct-insert, includes-keys, lookup-included, ◌==◌, Result, ok, err, All-map,
}
use stell_aiverse_backend.Dag.{DagNode, DagDependency}
use stell_aiverse_backend.Dag.Requests.{Nodes, Queue}
use stell_aiverse_backend.Dag.Readiness.{
  skip_node, skip_pass, skip_loop, skip_unreachable_nodes, ready_among,
}
use stell_aiverse_backend.Dag.Service.{
  enqueue_node, enqueue_all, answered, advance_nodes, cancel_nodes,
}
use stell_aiverse_backend.Dag.Service.Skips.{skipped, skip_node-cases}
use stell_aiverse_backend.Dag.Service.Lifecycle.{IsRanked}

-- What a node depends on.
abbrev pub shape : Option DagNode → Option (List DagDependency)
shape none = none
shape (some node) = some node.depends_on

pub record SameGraph (nodes nodes' : Nodes) : Type 0 where
  pub same : (id : ℕ) → shape (lookup id nodes') ≡ shape (lookup id nodes)
  pub distinct : Distinct (keys nodes) → Distinct (keys nodes')

pub SameGraph-refl : (nodes : Nodes) → SameGraph nodes nodes
SameGraph-refl nodes = record { same = λ id. refl; distinct = λ d. d }

pub SameGraph-trans : (a b c : Nodes) → SameGraph a b → SameGraph b c → SameGraph a c
SameGraph-trans a b c g h = record {
  same = λ id. h.same id ∙ g.same id;
  distinct = λ d. h.distinct (g.distinct d);
}

pub SameGraph-insert :
    (id : ℕ) (node node' : DagNode) (nodes : Nodes)
    → lookup id nodes ≡ some node
    → node'.depends_on ≡ node.depends_on
    → SameGraph nodes (insert id node' nodes)
SameGraph-insert id node node' nodes l e = record {
  same = λ j. elim (Bool-cases (id == j)) [
    | inl hit ↦ ground (arith, lookup-insert id j node' nodes)
    | inr miss ↦ ground (arith, lookup-insert id j node' nodes)
  ];
  distinct = Distinct-insert id node' nodes;
}

skip_node-SameGraph :
    (id : ℕ) (nodes : Nodes) (changed : Bool) → SameGraph nodes (skip_node id (nodes, changed)).0
skip_node-SameGraph id nodes changed = elim (skip_node-cases id nodes changed) [
  | inl (e, reachable) ↦ rw e (SameGraph-refl nodes)
  | inr (node, l, u, e) ↦ rw e (SameGraph-insert id node (skipped node) nodes l refl)
]

skip_pass-SameGraph : (ids : List ℕ) (s : Nodes × Bool) → SameGraph s.0 (skip_pass ids s).0
unfolding skip_pass
skip_pass-SameGraph [] s = SameGraph-refl s.0
skip_pass-SameGraph (id ∷ ids) s =
    SameGraph-trans s.0 (skip_node id s).0 _ (skip_node-SameGraph id s.0 s.1)
      (skip_pass-SameGraph ids (skip_node id s))

skip_loop-SameGraph : (fuel : ℕ) (nodes : Nodes) → SameGraph nodes (skip_loop fuel nodes)
unfolding skip_loop
skip_loop-SameGraph zero nodes = SameGraph-refl nodes
skip_loop-SameGraph (suc fuel) nodes =
    let s = skip_pass (keys nodes) (nodes, false) in
    let g = skip_pass-SameGraph (keys nodes) (nodes, false) in
    elim (Bool-cases s.1) [
      | inl more ↦ rw more (SameGraph-trans nodes s.0 _ g (skip_loop-SameGraph fuel s.0))
      | inr done ↦ rw done g
    ]

answered-depends_on :
    (r : Result ℕ ℕ) (node : DagNode) → (answered r node).depends_on ≡ node.depends_on
unfolding answered
answered-depends_on (ok id) node = refl
answered-depends_on (err e) node = refl

enqueue_node-SameGraph :
    (queue : Queue) (w id : ℕ) (nodes : Nodes) → SameGraph nodes (enqueue_node queue w id nodes)
unfolding enqueue_node
enqueue_node-SameGraph queue w id nodes = elim (Option-cases (lookup id nodes)) [
  | inl e ↦ rw (e, enqueue_node) (SameGraph-refl nodes)
  | inr (node, e) ↦
      rw (e, enqueue_node) (SameGraph-insert id node _ nodes e (answered-depends_on _ _))
]

pub enqueue_all-SameGraph :
    (queue : Queue) (w : ℕ) (ids : List ℕ) (nodes : Nodes)
    → SameGraph nodes (enqueue_all queue w ids nodes)
unfolding enqueue_all
enqueue_all-SameGraph queue w [] nodes = SameGraph-refl nodes
enqueue_all-SameGraph queue w (id ∷ ids) nodes =
    SameGraph-trans nodes (enqueue_node queue w id nodes) _
      (enqueue_node-SameGraph queue w id nodes)
      (enqueue_all-SameGraph queue w ids (enqueue_node queue w id nodes))

pub advance_nodes-SameGraph :
    (queue : Queue) (w : ℕ) (nodes : Nodes) → SameGraph nodes (advance_nodes queue w nodes)
unfolding advance_nodes skip_unreachable_nodes
advance_nodes-SameGraph queue w nodes =
    SameGraph-trans nodes (skip_unreachable_nodes nodes) _ (skip_loop-SameGraph _ nodes) (
      enqueue_all-SameGraph queue w
        (ready_among (skip_unreachable_nodes nodes) (skip_unreachable_nodes nodes))
        (skip_unreachable_nodes nodes))

keys-cancel_nodes : (nodes : Nodes) → keys (cancel_nodes nodes) ≡ keys nodes
unfolding cancel_nodes
keys-cancel_nodes [] = refl
keys-cancel_nodes ((id, node) ∷ nodes) = ap (λ ids. id ∷ ids) (keys-cancel_nodes nodes)

shape-cancel_nodes :
    (nodes : Nodes) (id : ℕ) → shape (lookup id (cancel_nodes nodes)) ≡ shape (lookup id nodes)
unfolding cancel_nodes lookup
shape-cancel_nodes [] id = refl
shape-cancel_nodes ((j, node) ∷ nodes) id = ground (arith, shape-cancel_nodes nodes id)

pub cancel_nodes-SameGraph : (nodes : Nodes) → SameGraph nodes (cancel_nodes nodes)
cancel_nodes-SameGraph nodes = record {
  same = shape-cancel_nodes nodes;
  distinct = λ d. rw (keys-cancel_nodes nodes) d;
}

-- The ids are distinct and the dependencies acyclic.
pub record IsSound (rank : ℕ → ℕ) (nodes : Nodes) : Type 0 where
  pub distinct : Distinct (keys nodes)
  pub ranked : IsRanked rank nodes

abbrev Below : (ℕ → ℕ) → Nodes → ℕ → DagDependency → Type 0
Below rank nodes id dep = (includes (keys nodes) dep.job_id ≡ true) × (rank dep.job_id < rank id)

included :
    (nodes nodes' : Nodes) (id : ℕ)
    → SameGraph nodes nodes'
    → includes (keys nodes) id ≡ true
    → includes (keys nodes') id ≡ true
included nodes nodes' id g h =
    let (node, e) = lookup-included id nodes h in
    elim (Option-cases (lookup id nodes')) [
      | inl e' ↦ absurd (ground (arith, g.same id))
      | inr (node', e') ↦ includes-keys id node' nodes' e'
    ]

pub SameGraph-IsSound :
    (rank : ℕ → ℕ) (nodes nodes' : Nodes)
    → SameGraph nodes nodes'
    → IsSound rank nodes
    → IsSound rank nodes'
SameGraph-IsSound rank nodes nodes' g s = record {
  distinct = g.distinct s.distinct;
  ranked = λ id node' l'. elim (Option-cases (lookup id nodes)) [
    | inl l ↦ absurd (ground (arith, g.same id))
    | inr (node, l) ↦
        let e : node.depends_on ≡ node'.depends_on = ground (arith, g.same id) in
        rw e at (
          All-map (Below rank nodes id) (Below rank nodes' id) node.depends_on
            (λ dep (k, r). (included nodes nodes' dep.job_id g k, r)) (s.ranked id node l))
  ];
}
