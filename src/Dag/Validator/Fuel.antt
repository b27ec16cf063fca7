-- ===== src/Dag/Validator/Fuel.antt =====
-- src/compute-job-queue/dag/dag.validator.ts: the fuel of the depth-first search is enough.
use stell_aiverse_backend.Prelude.{
  ℕ, zero, suc, ◌≤◌, ◌<◌, ◌≡◌, refl, ◌∙◌, sym, List, [], ◌∷◌, Option, none, some, arith, keys,
  lookup, insert, Distinct,
}
use stell_aiverse_backend.Dag.Validator.{
  Graph, Colour, white, grey, black, Dfs, dfs, dfs_round, start_at, dfs_all, build_children,
  dfs_fuel,
}
use stell_aiverse_backend.Dag.Validator.Rounds.{Whites, cost, start-ends, dfs-nil, dfs-cons}
use stell_aiverse_backend.Dag.Validator.Costs.{first, first-Whites, first-cost, dfs_all-ends}

-- A loop that has ended with its fuel does the same with more.
dfs-extra :
    (children : List (ℕ × List ℕ)) (fuel more : ℕ) (s : Dfs) (stack : List (ℕ × ℕ))
    → s.stack ≡ stack
    → fuel ≤ more
    → (dfs fuel children s).stack ≡ []
    → dfs more children s ≡ dfs fuel children s
unfolding dfs
dfs-extra children zero zero s stack e l h = refl
dfs-extra children (suc fuel) zero s stack e l h = absurd (omega (arith, l))
dfs-extra children zero (suc more) s stack e l h = dfs-nil children more s h
dfs-extra children (suc fuel) (suc more) s [] e l h =
    dfs-nil children more s e ∙ sym (dfs-nil children fuel s e)
dfs-extra children (suc fuel) (suc more) s ((n, i) ∷ rest) e l h =
    let s' = dfs_round children n i rest s in
    dfs-cons children more n i rest s e
    ∙ (dfs-extra children fuel more s' s'.stack refl (omega arith)
          (rw (dfs-cons children fuel n i rest s e) at h)
        ∙ sym (dfs-cons children fuel n i rest s e))

start-extra :
    (children : List (ℕ × List ℕ)) (fuel more id : ℕ) (s : Dfs) (o : Option Colour)
    → fuel ≤ more
    → (start_at o fuel id children s).stack ≡ []
    → start_at o more id children s ≡ start_at o fuel id children s
unfolding start_at
start-extra children fuel more id s none l h = refl
start-extra children fuel more id s (some grey) l h = refl
start-extra children fuel more id s (some black) l h = refl
start-extra children fuel more id s (some white) l h =
    let s' : Dfs = record s { colour = insert id grey s.colour; stack = (id, 0) ∷ [] } in
    dfs-extra children fuel more s' s'.stack refl l h

dfs_all-extra :
    (nodes : Graph) (fuel more : ℕ) (starts : List ℕ) (s : Dfs)
    → s.stack ≡ []
    → fuel ≤ more
    → Whites (keys nodes) s
    → cost (build_children nodes) (keys nodes) s < fuel
    → dfs_all more starts (build_children nodes) s ≡ dfs_all fuel starts (build_children nodes) s
unfolding dfs_all
dfs_all-extra nodes fuel more [] s e l w m = refl
dfs_all-extra nodes fuel more (id ∷ starts) s e l w m =
    let (z, k, w') =
      start-ends (build_children nodes) (keys nodes) fuel id s e w m (lookup id s.colour) refl in
    rw (start-extra (build_children nodes) fuel more id s (lookup id s.colour) l z)
      (dfs_all-extra nodes fuel more starts _ z l w' (omega arith))

-- The depth-first search ends on every graph: with the fuel that `detect_cycles` gives it, its loops
-- end with an empty stack, and more fuel changes nothing in its result.
pub dfs_all-dfs_fuel :
    (nodes : Graph) (more : ℕ)
    → Distinct (keys nodes)
    → dfs_fuel nodes ≤ more
    → ((dfs_all (dfs_fuel nodes) (keys nodes) (build_children nodes) (first nodes)).stack ≡ [])
      × (dfs_all more (keys nodes) (build_children nodes) (first nodes)
          ≡ dfs_all (dfs_fuel nodes) (keys nodes) (build_children nodes) (first nodes))
dfs_all-dfs_fuel nodes more d l = (
  dfs_all-ends nodes (dfs_fuel nodes) (keys nodes) (first nodes) refl (first-Whites nodes)
      (first-cost nodes d),
  dfs_all-extra nodes (dfs_fuel nodes) more (keys nodes) (first nodes) refl l (first-Whites nodes)
      (first-cost nodes d),
)
