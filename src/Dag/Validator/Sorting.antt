-- ===== src/Dag/Validator/Sorting.antt =====
-- src/compute-job-queue/dag/dag.validator.ts: the invariant of Kahn's algorithm.
use stell_aiverse_backend.Prelude.{
  ℕ, zero, suc, ◌+◌, ◌<◌, ◌≡◌, refl, inl, inr, true, false, ◌||◌, List, [], ◌∷◌, ◌++◌, none, some,
  arith, if◌then◌else◌, Bool-cases, Option-cases, length, length-append, includes, includes-append,
  keys, lookup, lookup-insert, Distinct, Distinct-append, count, includes-keys, lookup-included,
}
use mathlib.Core.List.{append_assoc, append-nil}
use stell_aiverse_backend.Dag.{DagDependency}
use stell_aiverse_backend.Dag.Validator.{
  Graph, Kahn, children_of, build_children, initial_degrees, roots, lowered, relax_child, relax,
  kahn_round, kahn, topological_sort,
}
use stell_aiverse_backend.Dag.Validator.Degrees.{
  remaining, remaining-append, remaining-nil, count-children_of, children_of-excluded,
  lookup-initial_degrees, initial_degrees-excluded, initial_degrees-Distinct, includes-roots,
  roots-includes, roots-Distinct,
}

-- Each node of the list comes after all its dependencies; `done` is what stands before the list.
abbrev pub IsOrdered : Graph → List ℕ → List ℕ → Type 0
IsOrdered nodes done [] = Unit
IsOrdered nodes done (x ∷ xs) =
    ((deps : List DagDependency) → lookup x nodes ≡ some deps → remaining done deps ≡ 0)
    × IsOrdered nodes (done ++ x ∷ []) xs

IsOrdered-append :
    (nodes : Graph) (done xs : List ℕ) (c : ℕ)
    → IsOrdered nodes done xs
    → ((deps : List DagDependency) → lookup c nodes ≡ some deps → remaining (done ++ xs) deps ≡ 0)
    → IsOrdered nodes done (xs ++ c ∷ [])
IsOrdered-append nodes done [] c o h = (rw append-nil at h, tt)
IsOrdered-append nodes done (x ∷ xs) c o h =
    (o.0, IsOrdered-append nodes (done ++ x ∷ []) xs c o.1 (rw append_assoc h))

module _ (nodes : Graph) where
  -- `cs` are the children of the current node whose degrees are still to be lowered.
  pub record Inv (cs : List ℕ) (k : Kahn) : Type 0 where
    pub degrees :
        (id : ℕ) (deps : List DagDependency)
        → lookup id nodes ≡ some deps
        → lookup id k.in_degree ≡ some (remaining k.sorted deps + count id cs)
    pub others : (id : ℕ) → lookup id nodes ≡ none → lookup id k.in_degree ≡ none
    pub known : (id : ℕ) → lookup id nodes ≡ none → count id cs ≡ 0
    pub queued :
        (id : ℕ)
        → includes k.queue id ≡ true
        → (lookup id k.in_degree ≡ some 0) × (includes k.sorted id ≡ false)
    pub zeros :
        (id : ℕ)
        → lookup id k.in_degree ≡ some 0
        → (includes k.queue id || includes k.sorted id) ≡ true
    pub settled : (id : ℕ) → includes k.sorted id ≡ true → lookup id k.in_degree ≡ some 0
    pub queue_distinct : Distinct k.queue
    pub sorted_distinct : Distinct k.sorted
    pub ordered : IsOrdered nodes [] k.sorted

  -- The child's degree is still positive, so it is neither queued nor sorted.
  waiting :
      (c : ℕ) (cs : List ℕ) (k : Kahn)
      → Inv (c ∷ cs) k
      → (n : ℕ) × (lookup c k.in_degree ≡ some (suc n))
        × (includes k.queue c ≡ false)
        × (includes k.sorted c ≡ false)
  waiting c cs k v = elim (Option-cases (lookup c nodes)) [
    | inl e ↦ absurd (ground (arith, v.known c e))
    | inr (deps, e) ↦ (
      remaining k.sorted deps + count c cs,
      ground (arith, v.degrees c deps e),
      ground (arith, v.degrees c deps e, v.queued c),
      ground (arith, v.degrees c deps e, v.settled c),
    )
  ]

  relax_child-Inv : (c : ℕ) (cs : List ℕ) (k : Kahn) → Inv (c ∷ cs) k → Inv cs (relax_child c k)
  unfolding relax_child
  relax_child-Inv c cs k v = record {
    degrees = λ id deps h. ground (
      arith,
      waiting c cs k v,
      v.degrees id deps h,
      lookup-insert c id (lowered (lookup c k.in_degree)) k.in_degree,
    );
    others = λ id h. ground (
      arith,
      waiting c cs k v,
      v.others id h,
      lookup-insert c id (lowered (lookup c k.in_degree)) k.in_degree,
    );
    known = λ id h. ground (arith, v.known id h);
    queued = λ id h. ground (
      arith,
      waiting c cs k v,
      v.queued id,
      includes-append k.queue (c ∷ []) id,
      lookup-insert c id (lowered (lookup c k.in_degree)) k.in_degree,
    );
    zeros = λ id h. ground (
      arith,
      waiting c cs k v,
      v.zeros id,
      includes-append k.queue (c ∷ []) id,
      lookup-insert c id (lowered (lookup c k.in_degree)) k.in_degree,
    );
    settled = λ id h. ground (
      arith,
      waiting c cs k v,
      v.settled id h,
      lookup-insert c id (lowered (lookup c k.in_degree)) k.in_degree,
    );
    queue_distinct = ground (arith, waiting c cs k v, v.queue_distinct, Distinct-append k.queue c);
    sorted_distinct = v.sorted_distinct;
    ordered = v.ordered;
  }

  relax-Inv : (cs : List ℕ) (k : Kahn) → Inv cs k → Inv [] (relax cs k)
  unfolding relax
  relax-Inv [] k v = v
  relax-Inv (c ∷ cs) k v = relax-Inv cs (relax_child c k) (relax_child-Inv c cs k v)

  module _ (distinct : Distinct (keys nodes)) where
    -- The node taken off the queue.
    current :
        (cur : ℕ) (rest : List ℕ) (k : Kahn)
        → k.queue ≡ cur ∷ rest
        → Inv [] k
        → (deps : List DagDependency) × (lookup cur nodes ≡ some deps)
          × (remaining k.sorted deps ≡ 0)
          × (lookup cur k.in_degree ≡ some 0)
          × (includes k.sorted cur ≡ false)
          × (includes rest cur ≡ false)
          × Distinct rest
    current cur rest k e v = elim (Option-cases (lookup cur nodes)) [
      | inl h ↦ absurd (ground (arith, v.others cur h, v.queued cur))
      | inr (deps, h) ↦ (
        deps,
        h,
        ground (arith, v.queued cur, v.degrees cur deps h),
        ground (arith, v.queued cur),
        ground (arith, v.queued cur),
        split.0,
        split.1,
      )
    ]
      where
        split : (includes rest cur ≡ false) × Distinct rest
        split = rw e at (v.queue_distinct)

    taken-Inv :
        (cur : ℕ) (rest : List ℕ) (k : Kahn)
        → k.queue ≡ cur ∷ rest
        → Inv [] k
        → Inv
            (children_of (build_children nodes) cur)
            (record k { queue = rest; sorted = k.sorted ++ cur ∷ [] })
    taken-Inv cur rest k e v =
        let (ds, hd, r, z, s, f, dr) = current cur rest k e v in
        let here : includes (keys nodes) cur ≡ true = includes-keys cur ds nodes hd in
        record {
          degrees = λ id deps h. ground (
            arith,
            v.degrees id deps h,
            remaining-append k.sorted cur deps s,
            count-children_of nodes cur id deps distinct here h,
          );
          others = v.others;
          known = λ id h. elim (Bool-cases (includes (keys nodes) id)) [
            | inl m ↦ absurd (ground (arith, lookup-included id nodes m))
            | inr m ↦ children_of-excluded nodes cur id here m
          ];
          queued = λ id h. ground (arith, v.queued id, includes-append k.sorted (cur ∷ []) id);
          zeros = λ id h. ground (arith, v.zeros id h, includes-append k.sorted (cur ∷ []) id);
          settled = λ id h. ground (arith, v.settled id, includes-append k.sorted (cur ∷ []) id);
          queue_distinct = dr;
          sorted_distinct = Distinct-append k.sorted cur v.sorted_distinct s;
          ordered = IsOrdered-append nodes [] k.sorted cur v.ordered (λ deps h. ground arith);
        }

    round-Inv :
        (cur : ℕ) (rest : List ℕ) (k : Kahn)
        → k.queue ≡ cur ∷ rest
        → Inv [] k
        → Inv [] (kahn_round (build_children nodes) cur rest k)
    unfolding kahn_round
    round-Inv cur rest k e v = relax-Inv _ _ (taken-Inv cur rest k e v)

    initial-Inv : Inv [] (record {
      in_degree = initial_degrees nodes;
      queue = roots (initial_degrees nodes);
      sorted = [];
    })
    initial-Inv = record {
      degrees = λ id deps h.
          ground (arith, lookup-initial_degrees nodes id deps distinct h, remaining-nil deps);
      others = λ id h. elim (Bool-cases (includes (keys nodes) id)) [
        | inl m ↦ absurd (ground (arith, lookup-included id nodes m))
        | inr m ↦ initial_degrees-excluded nodes id m
      ];
      known = λ id h. refl;
      queued = λ id h.
          (includes-roots id (initial_degrees nodes) h (initial_degrees-Distinct nodes), refl);
      zeros = λ id h. ground (arith, roots-includes id (initial_degrees nodes) h);
      settled = λ id h. ground arith;
      queue_distinct = roots-Distinct (initial_degrees nodes) (initial_degrees-Distinct nodes);
      sorted_distinct = tt;
      ordered = tt;
    }

-- The nodes that are not yet sorted.
abbrev pub unsorted : List ℕ → List ℕ → ℕ
unsorted sorted [] = 0
unsorted sorted (id ∷ ids) = (if includes sorted id then 0 else 1) + unsorted sorted ids

unsorted-append_excluded :
    (sorted : List ℕ) (c : ℕ) (ids : List ℕ)
    → includes ids c ≡ false
    → unsorted (sorted ++ c ∷ []) ids ≡ unsorted sorted ids
unsorted-append_excluded sorted c [] h = refl
unsorted-append_excluded sorted c (id ∷ ids) h =
    ground (arith, unsorted-append_excluded sorted c ids, includes-append sorted (c ∷ []) id)

unsorted-append :
    (sorted : List ℕ) (c : ℕ) (ids : List ℕ)
    → Distinct ids
    → includes ids c ≡ true
    → includes sorted c ≡ false
    → unsorted sorted ids ≡ unsorted (sorted ++ c ∷ []) ids + 1
unsorted-append sorted c [] d h s = ground arith
unsorted-append sorted c (id ∷ ids) d h s = ground (
  arith,
  unsorted-append sorted c ids d.1,
  unsorted-append_excluded sorted c ids,
  includes-append sorted (c ∷ []) id,
)

relax-sorted : (cs : List ℕ) (k : Kahn) → (relax cs k).sorted ≡ k.sorted
unfolding relax relax_child
relax-sorted [] k = refl
relax-sorted (c ∷ cs) k = relax-sorted cs (relax_child c k)

round-sorted :
    (children : List (ℕ × List ℕ)) (cur : ℕ) (rest : List ℕ) (k : Kahn)
    → (kahn_round children cur rest k).sorted ≡ k.sorted ++ cur ∷ []
unfolding kahn_round
round-sorted children cur rest k =
    relax-sorted (children_of children cur)
      (record k { queue = rest; sorted = k.sorted ++ cur ∷ [] })

-- What the loop gives with enough fuel: the queue is empty, the invariant holds, and the nodes are
-- those sorted and those left.
pub record Done (nodes : Graph) (k : Kahn) : Type 0 where
  pub inv : Inv nodes [] k
  pub empty : k.queue ≡ []
  pub counted : length k.sorted + unsorted k.sorted (keys nodes) ≡ length nodes

kahn-Done :
    (nodes : Graph) (fuel : ℕ) (k : Kahn)
    → Distinct (keys nodes)
    → Inv nodes [] k
    → length k.sorted + unsorted k.sorted (keys nodes) ≡ length nodes
    → unsorted k.sorted (keys nodes) < fuel
    → (q : List ℕ) → k.queue ≡ q
    → Done nodes (kahn fuel (build_children nodes) k)
unfolding kahn
kahn-Done nodes zero k d v n m q e = elim m [ ]
kahn-Done nodes (suc fuel) k d v n m [] e =
    rw (e, kahn) (record { inv = v; empty = e; counted = n })
kahn-Done nodes (suc fuel) k d v n m (cur ∷ rest) e =
    let (ds, hd, r, z, s, f, dr) = current nodes d cur rest k e v in
    let k' = kahn_round (build_children nodes) cur rest k in
    let es : k'.sorted ≡ k.sorted ++ cur ∷ [] = round-sorted (build_children nodes) cur rest k in
    let fewer : unsorted k.sorted (keys nodes) ≡ unsorted k'.sorted (keys nodes) + 1 =
      rw es (unsorted-append k.sorted cur (keys nodes) d (includes-keys cur ds nodes hd) s) in
    let longer : length k'.sorted ≡ length k.sorted + 1 =
      rw es (length-append k.sorted (cur ∷ [])) in
    rw (e, kahn)
      (kahn-Done nodes fuel k' d (round-Inv nodes d cur rest k e v) (omega arith) (omega arith)
        k'.queue refl)

unsorted-nil : (nodes : Graph) → unsorted [] (keys nodes) ≡ length nodes
unsorted-nil [] = refl
unsorted-nil (n ∷ nodes) = omega (arith, unsorted-nil nodes)

-- The state in which the algorithm ends.
pub topological_sort-Done :
    (nodes : Graph)
    → Distinct (keys nodes)
    → (k : Kahn) × (topological_sort nodes ≡ k.sorted) × Done nodes k
unfolding topological_sort
topological_sort-Done nodes d = (
  kahn (length nodes + 1) (build_children nodes) (record {
    in_degree = initial_degrees nodes;
    queue = roots (initial_degrees nodes);
    sorted = [];
  }),
  refl,
  kahn-Done nodes (length nodes + 1) _ d (initial-Inv nodes d) (omega (arith, unsorted-nil nodes))
      (omega (arith, unsorted-nil nodes)) _ refl,
)
