-- ===== src/Dag/Service/Skips.antt =====
-- src/compute-job-queue/dag/dag.service.ts, `skipUnreachableNodes`: the loop ends, and leaves no
-- pending node that can never run.
use stell_aiverse_backend.Prelude.{
  ℕ, zero, suc, ◌+◌, ◌≤◌, ◌<◌, ◌≡◌, refl, ◌∙◌, inl, inr, ◌⊎◌, Bool, true, false, List, [], ◌∷◌,
  some, arith, ◌==◌, if◌then◌else◌, Bool-cases, Option-cases, length, includes, keys, lookup,
  insert, lookup-insert, Distinct, includes-keys, includes-keys-insert, Distinct-insert,
}
use stell_aiverse_backend.Dag.{DagNode, DagNodeStatus}
use stell_aiverse_backend.Dag.Requests.{Nodes}
use stell_aiverse_backend.Dag.Readiness.{
  is_pending, is_unreachable, skip_node, skip_pass, skip_loop, skip_unreachable_nodes,
}

-- The pending nodes.
abbrev pending_count : Nodes → ℕ
pending_count [] = 0
pending_count ((id, node) ∷ nodes) = (if is_pending node.status then 1 else 0) + pending_count nodes

abbrev pub skipped : DagNode → DagNode
skipped node = record node { status = DagNodeStatus.skipped }

pending_count-insert :
    (id : ℕ) (node : DagNode) (nodes : Nodes)
    → lookup id nodes ≡ some node
    → is_pending node.status ≡ true
    → pending_count (insert id (skipped node) nodes) + 1 ≡ pending_count nodes
unfolding lookup insert
pending_count-insert id node [] h p = ground arith
pending_count-insert id node ((j, n) ∷ nodes) h p =
    ground (arith, pending_count-insert id node nodes)

-- One node of the loop: nothing changes, or a pending node that can never run is skipped.
pub skip_node-cases :
    (id : ℕ) (nodes : Nodes) (changed : Bool)
    → ((skip_node id (nodes, changed) ≡ (nodes, changed))
        × ((node : DagNode) → lookup id nodes ≡ some node → is_unreachable nodes node ≡ false))
      ⊎ ((node : DagNode) × (lookup id nodes ≡ some node)
          × (is_unreachable nodes node ≡ true)
          × (skip_node id (nodes, changed) ≡ (insert id (skipped node) nodes, true)))
unfolding skip_node
skip_node-cases id nodes changed = elim (Option-cases (lookup id nodes)) [
  | inl e ↦ inl (ground arith, λ node h. ground arith)
  | inr (node, e) ↦ elim (Bool-cases (is_unreachable nodes node)) [
    | inl u ↦ inr (node, e, u, ground arith)
    | inr u ↦ inl (ground arith, λ node' h. ground arith)
  ]
]

is_unreachable-pending :
    (nodes : Nodes) (node : DagNode)
    → is_unreachable nodes node ≡ true
    → is_pending node.status ≡ true
unfolding is_unreachable
is_unreachable-pending nodes node h = ground arith

-- A pass that reports no change has changed nothing, and every node that it met can still run; one
-- that reports a change has one pending node fewer.
skip_pass-cases :
    (ids : List ℕ) (nodes : Nodes) (changed : Bool)
    → ((skip_pass ids (nodes, changed) ≡ (nodes, changed))
        × ((id : ℕ) (node : DagNode)
            → includes ids id ≡ true
            → lookup id nodes ≡ some node
            → is_unreachable nodes node ≡ false))
      ⊎ (((skip_pass ids (nodes, changed)).1 ≡ true)
          × (pending_count (skip_pass ids (nodes, changed)).0 < pending_count nodes))
unfolding skip_pass
skip_pass-cases [] nodes changed = inl (refl, λ id node m h. ground arith)
skip_pass-cases (i ∷ ids) nodes changed = elim (skip_node-cases i nodes changed) [
  | inl (e, ok) ↦ elim (skip_pass-cases ids nodes changed) [
    | inl (e', ok') ↦
        inl (rw (e, skip_pass) e', λ id node m h. ground (arith, ok node, ok' id node))
    | inr (c, p) ↦ inr (rw (e, skip_pass) c, rw (e, skip_pass) p)
  ]
  | inr (node, l, u, e) ↦
      let less = pending_count-insert i node nodes l (is_unreachable-pending nodes node u) in
      elim (skip_pass-cases ids (insert i (skipped node) nodes) true) [
        | inl (e', ok') ↦ inr (rw (e, skip_pass) (rw e'), rw (e, skip_pass) (rw e' (omega arith)))
        | inr (c, p) ↦ inr (rw (e, skip_pass) c, rw (e, skip_pass) (omega arith))
      ]
]

-- No pending node has a dependency that can never be satisfied.
abbrev pub IsSettled : Nodes → Type 0
IsSettled nodes =
    (id : ℕ) (node : DagNode) → lookup id nodes ≡ some node → is_unreachable nodes node ≡ false

skip_loop-IsSettled :
    (fuel : ℕ) (nodes : Nodes) → pending_count nodes < fuel → IsSettled (skip_loop fuel nodes)
unfolding skip_loop
skip_loop-IsSettled zero nodes m = elim m [ ]
skip_loop-IsSettled (suc fuel) nodes m = elim (skip_pass-cases (keys nodes) nodes false) [
  | inl (e, ok) ↦ rw (e, skip_loop) (λ id node h. ok id node (includes-keys id node nodes h) h)
  | inr (c, p) ↦
      rw (c, skip_loop)
        (skip_loop-IsSettled fuel (skip_pass (keys nodes) (nodes, false)).0 (omega arith))
]

pending_count-le : (nodes : Nodes) → pending_count nodes ≤ length nodes
pending_count-le [] = omega arith
pending_count-le ((id, node) ∷ nodes) = ground (arith, pending_count-le nodes)

-- With its fuel the loop that skips leaves no pending node with a dependency that can never be
-- satisfied, whatever the nodes.
pub skip_unreachable_nodes-IsSettled : (nodes : Nodes) → IsSettled (skip_unreachable_nodes nodes)
unfolding skip_unreachable_nodes
skip_unreachable_nodes-IsSettled nodes =
    skip_loop-IsSettled (length nodes + 1) nodes (omega (arith, pending_count-le nodes))

-- What holds of two node maps where the second comes from the first by skips.
pub record Skipping (nodes nodes' : Nodes) : Type 0 where
  -- A node that is not pending stays as it is.
  pub keeps :
      (id : ℕ) (node : DagNode)
      → lookup id nodes ≡ some node
      → is_pending node.status ≡ false
      → lookup id nodes' ≡ some node
  -- A node that is there afterwards was there before, as it is or pending.
  pub comes :
      (id : ℕ) (node' : DagNode)
      → lookup id nodes' ≡ some node'
      → (lookup id nodes ≡ some node')
        ⊎ ((node : DagNode) × (lookup id nodes ≡ some node)
            × (is_pending node.status ≡ true)
            × (node' ≡ skipped node))
  pub same_keys : (id : ℕ) → includes (keys nodes') id ≡ includes (keys nodes) id
  pub distinct : Distinct (keys nodes) → Distinct (keys nodes')

Skipping-refl : (nodes : Nodes) → Skipping nodes nodes
Skipping-refl nodes = record {
  keeps = λ id node h p. h;
  comes = λ id node h. inl h;
  same_keys = λ id. refl;
  distinct = λ d. d;
}

Skipping-insert :
    (id : ℕ) (node : DagNode) (nodes : Nodes)
    → lookup id nodes ≡ some node
    → is_pending node.status ≡ true
    → Skipping nodes (insert id (skipped node) nodes)
Skipping-insert id node nodes h p = record {
  keeps = λ j n l q. ground (arith, lookup-insert id j (skipped node) nodes);
  comes = λ j n l. elim (Bool-cases (id == j)) [
    | inl hit ↦ inr (node, ground arith, p, ground (arith, lookup-insert id j (skipped node) nodes))
    | inr miss ↦ inl (ground (arith, lookup-insert id j (skipped node) nodes))
  ];
  same_keys = λ j.
      ground (arith, includes-keys-insert id j (skipped node) nodes, includes-keys id node nodes h);
  distinct = Distinct-insert id (skipped node) nodes;
}

Skipping-trans : (a b c : Nodes) → Skipping a b → Skipping b c → Skipping a c
Skipping-trans a b c f g = record {
  keeps = λ id node h p. g.keeps id node (f.keeps id node h p) p;
  comes = λ id node h. elim (g.comes id node h) [
    | inl l ↦ f.comes id node l
    | inr (m, l, p, e) ↦ elim (f.comes id m l) [
      | inl l' ↦ inr (m, l', p, e)
      | inr (n, l', p', e') ↦ inr (n, l', p', ground arith)
    ]
  ];
  same_keys = λ id. g.same_keys id ∙ f.same_keys id;
  distinct = λ d. g.distinct (f.distinct d);
}

skip_node-Skipping :
    (id : ℕ) (nodes : Nodes) (changed : Bool) → Skipping nodes (skip_node id (nodes, changed)).0
skip_node-Skipping id nodes changed = elim (skip_node-cases id nodes changed) [
  | inl (e, _) ↦ rw e (Skipping-refl nodes)
  | inr (node, l, u, e) ↦
      rw e (Skipping-insert id node nodes l (is_unreachable-pending nodes node u))
]

skip_pass-Skipping : (ids : List ℕ) (s : Nodes × Bool) → Skipping s.0 (skip_pass ids s).0
unfolding skip_pass
skip_pass-Skipping [] s = Skipping-refl s.0
skip_pass-Skipping (id ∷ ids) s =
    Skipping-trans s.0 (skip_node id s).0 (skip_pass ids (skip_node id s)).0
      (skip_node-Skipping id s.0 s.1) (skip_pass-Skipping ids (skip_node id s))

skip_loop-Skipping : (fuel : ℕ) (nodes : Nodes) → Skipping nodes (skip_loop fuel nodes)
unfolding skip_loop
skip_loop-Skipping zero nodes = Skipping-refl nodes
skip_loop-Skipping (suc fuel) nodes =
    let s = skip_pass (keys nodes) (nodes, false) in
    let first : Skipping nodes s.0 = skip_pass-Skipping (keys nodes) (nodes, false) in
    elim (Bool-cases s.1) [
      | inl c ↦
          rw (c, skip_loop)
            (Skipping-trans nodes s.0 (skip_loop fuel s.0) first (skip_loop-Skipping fuel s.0))
      | inr c ↦ rw (c, skip_loop) first
    ]

pub skip_unreachable_nodes-Skipping :
    (nodes : Nodes) → Skipping nodes (skip_unreachable_nodes nodes)
unfolding skip_unreachable_nodes
skip_unreachable_nodes-Skipping nodes = skip_loop-Skipping (length nodes + 1) nodes
