-- ===== src/Dag/Validator/Rounds.antt =====
-- src/compute-job-queue/dag/dag.validator.ts: the depth-first search ends. Each round lowers what is
-- left to do: the white nodes with their children, and the children of the stack's nodes.
use stell_aiverse_backend.Prelude.{
  ℕ, zero, suc, ◌+◌, ◌-◌, ◌≤◌, ◌<◌, ◌≡◌, refl, inl, inr, true, List, [], ◌∷◌, Option, none, some,
  arith, Option-cases, length, get_elem?, includes, lookup, insert, lookup-insert,
}
use stell_aiverse_backend.Dag.Validator.{
  Colour, white, grey, black, Dfs, visit_child, dfs_round, dfs, start_at, children_of,
}

abbrev pub cost_if : Option Colour → ℕ → ℕ
cost_if (some white) n = n
cost_if (some grey) n = 0
cost_if (some black) n = 0
cost_if none n = 0

-- The rounds that a node takes: one for each child, and one to leave it.
abbrev pub rounds : List (ℕ × List ℕ) → ℕ → ℕ
rounds children id = length (children_of children id) + 1

abbrev pub white_cost : List (ℕ × List ℕ) → List (ℕ × Colour) → List ℕ → ℕ
white_cost children colour [] = 0
white_cost children colour (id ∷ ids) =
    cost_if (lookup id colour) (rounds children id) + white_cost children colour ids

abbrev pub stack_cost : List (ℕ × List ℕ) → List (ℕ × ℕ) → ℕ
stack_cost children [] = 0
stack_cost children ((n, i) ∷ stack) =
    (length (children_of children n) - i) + 1 + stack_cost children stack

abbrev pub cost : List (ℕ × List ℕ) → List ℕ → Dfs → ℕ
cost children ids s = white_cost children s.colour ids + stack_cost children s.stack

get_elem?-lt : (l : List ℕ) (i c : ℕ) → get_elem? l i ≡ some c → i < length l
get_elem?-lt [] i c h = ground arith
get_elem?-lt (x ∷ l) zero c h = ground arith
get_elem?-lt (x ∷ l) (suc i) c h = ground (arith, get_elem?-lt l i c h)

-- Colouring a node that is not white costs nothing more.
white_cost-black :
    (children : List (ℕ × List ℕ)) (n : ℕ) (colour : List (ℕ × Colour)) (ids : List ℕ)
    → white_cost children (insert n black colour) ids ≤ white_cost children colour ids
white_cost-black children n colour [] = omega arith
white_cost-black children n colour (id ∷ ids) =
    ground (arith, lookup-insert n id black colour, white_cost-black children n colour ids)

white_cost-grey_le :
    (children : List (ℕ × List ℕ)) (n : ℕ) (colour : List (ℕ × Colour)) (ids : List ℕ)
    → white_cost children (insert n grey colour) ids ≤ white_cost children colour ids
white_cost-grey_le children n colour [] = omega arith
white_cost-grey_le children n colour (id ∷ ids) =
    ground (arith, lookup-insert n id grey colour, white_cost-grey_le children n colour ids)

-- A white node that turns grey takes its rounds from the white ones.
white_cost-grey :
    (children : List (ℕ × List ℕ)) (c : ℕ) (colour : List (ℕ × Colour)) (ids : List ℕ)
    → lookup c colour ≡ some white
    → includes ids c ≡ true
    → white_cost children (insert c grey colour) ids + rounds children c
      ≤ white_cost children colour ids
white_cost-grey children c colour [] l h = ground arith
white_cost-grey children c colour (id ∷ ids) l h = ground (
  arith,
  lookup-insert c id grey colour,
  white_cost-grey children c colour ids l,
  white_cost-grey_le children c colour ids,
)

-- Only nodes of the graph are white.
abbrev pub Whites : List ℕ → Dfs → Type 0
Whites ids s = (id : ℕ) → lookup id s.colour ≡ some white → includes ids id ≡ true

pub dfs-nil :
    (children : List (ℕ × List ℕ)) (fuel : ℕ) (s : Dfs)
    → s.stack ≡ []
    → dfs (suc fuel) children s ≡ s
unfolding dfs
dfs-nil children fuel s e = ground arith

pub dfs-cons :
    (children : List (ℕ × List ℕ)) (fuel n i : ℕ) (rest : List (ℕ × ℕ)) (s : Dfs)
    → s.stack ≡ (n, i) ∷ rest
    → dfs (suc fuel) children s ≡ dfs fuel children (dfs_round children n i rest s)
unfolding dfs
dfs-cons children fuel n i rest s e = rw (e, dfs)

module _ (children : List (ℕ × List ℕ)) (ids : List ℕ) where
  visit-Whites :
      (c : ℕ) (s : Dfs) → Whites ids s → (o : Option Colour) → Whites ids (visit_child o c s)
  unfolding visit_child
  visit-Whites c s w none = w
  visit-Whites c s w (some black) = w
  visit-Whites c s w (some grey) = w
  visit-Whites c s w (some white) = λ id l. ground (arith, w id, lookup-insert c id grey s.colour)

  round-Whites :
      (n i : ℕ) (rest : List (ℕ × ℕ)) (s : Dfs)
      → Whites ids s
      → Whites ids (dfs_round children n i rest s)
  unfolding dfs_round
  round-Whites n i rest s w = elim (Option-cases (get_elem? (children_of children n) i)) [
    | inl h ↦ rw (h, dfs_round) (λ id l. ground (arith, w id, lookup-insert n id black s.colour))
    | inr (c, h) ↦
        rw (h, dfs_round)
          (visit-Whites c (record s { stack = (n, i + 1) ∷ rest }) w (lookup c s.colour))
  ]

  visit-cost :
      (c : ℕ) (s : Dfs) (o : Option Colour)
      → lookup c s.colour ≡ o
      → Whites ids s
      → cost children ids (visit_child o c s) ≤ cost children ids s
  unfolding visit_child
  visit-cost c s none l w = omega arith
  visit-cost c s (some black) l w = omega arith
  visit-cost c s (some grey) l w = omega arith
  visit-cost c s (some white) l w = omega (arith, white_cost-grey children c s.colour ids l (w c l))

  -- A round lowers the cost.
  round-cost :
      (n i : ℕ) (rest : List (ℕ × ℕ)) (s : Dfs)
      → s.stack ≡ (n, i) ∷ rest
      → Whites ids s
      → cost children ids (dfs_round children n i rest s) < cost children ids s
  unfolding dfs_round
  round-cost n i rest s e w = elim (Option-cases (get_elem? (children_of children n) i)) [
    | inl h ↦ rw (h, dfs_round) (rw e (omega (arith, white_cost-black children n s.colour ids)))
    | inr (c, h) ↦
        let s' : Dfs = record s { stack = (n, i + 1) ∷ rest } in
        rw (h, dfs_round)
          (rw e (
            omega (
              arith,
              visit-cost c s' (lookup c s.colour) refl w,
              get_elem?-lt (children_of children n) i c h,
            )))
  ]

  -- With fuel above the cost the search empties its stack, and the cost has not grown.
  pub dfs-ends :
      (fuel : ℕ) (s : Dfs) (stack : List (ℕ × ℕ))
      → s.stack ≡ stack
      → Whites ids s
      → cost children ids s < fuel
      → ((dfs fuel children s).stack ≡ [])
        × (cost children ids (dfs fuel children s) ≤ cost children ids s)
        × Whites ids (dfs fuel children s)
  dfs-ends zero s stack e w m = elim m [ ]
  dfs-ends (suc fuel) s [] e w m = rw (dfs-nil children fuel s e) (e, omega arith, w)
  dfs-ends (suc fuel) s ((n, i) ∷ rest) e w m =
      let s' = dfs_round children n i rest s in
      let (z, k, w') =
        dfs-ends fuel s' s'.stack refl (round-Whites n i rest s w)
          (omega (arith, round-cost n i rest s e w)) in
      rw (dfs-cons children fuel n i rest s e) (z, omega (arith, round-cost n i rest s e w), w')

  -- One round of the loop over the start nodes, from an empty stack to an empty stack.
  pub start-ends :
      (fuel id : ℕ) (s : Dfs)
      → s.stack ≡ []
      → Whites ids s
      → cost children ids s < fuel
      → (o : Option Colour) → lookup id s.colour ≡ o
      → ((start_at o fuel id children s).stack ≡ [])
        × (cost children ids (start_at o fuel id children s) ≤ cost children ids s)
        × Whites ids (start_at o fuel id children s)
  unfolding start_at
  start-ends fuel id s e w m none l = (e, omega arith, w)
  start-ends fuel id s e w m (some grey) l = (e, omega arith, w)
  start-ends fuel id s e w m (some black) l = (e, omega arith, w)
  start-ends fuel id s e w m (some white) l =
      let s' : Dfs = record s { colour = insert id grey s.colour; stack = (id, 0) ∷ [] } in
      let w' : Whites ids s' = λ j h. ground (arith, w j, lookup-insert id j grey s.colour) in
      let less : cost children ids s' ≤ cost children ids s =
        omega (arith, white_cost-grey children id s.colour ids l (w id l)) in
      let (z, k, w'') = dfs-ends fuel s' s'.stack refl w' (omega arith) in (z, omega arith, w'')
