-- ===== src/BlockCoordinator/Exclusion.antt =====
-- src/indexer/services/block-coordinator.service.ts: who acquires a range that an instance indexes.
use stell_aiverse_backend.Prelude.{
  ℕ, ◌≡◌, refl, inl, inr, Bool, true, false, List, [], ◌∷◌, Option, none, some, arith, Bool-cases,
  not, all, any, keep,
}
use stell_aiverse_backend.BlockCoordinator.{
  BlockRange, BlockRangeStatus, BlockCoordinatorService, same_range, get, set, del, is_processing,
  processing, failed, pending, completed, RangeState, is_failed, is_completed, initial_status,
  store_initial, initial_ranges, range_count,
}
use stell_aiverse_backend.BlockCoordinator.Upkeep.{
  Step, initializes, acquires, releases, completes, resets, cleans, lock_expires, range_expires,
  step, run, add_acquired, released, completed_range, reset_all, is_old, reset_status,
  released_status, update_global_progress, mark_range_complete,
}
use stell_aiverse_backend.BlockCoordinator.Entries.{
  same_range_refl, get-set, get-del, is_keyed, all-keep, all-set, get-keyed,
}
use stell_aiverse_backend.BlockCoordinator.Held.{Entries, Held, avoids, acquire_block_range-Held}

processing-failed : (x : RangeState) → is_processing x ≡ true → is_failed x ≡ false
processing-failed pending h = refl
processing-failed processing h = refl
processing-failed completed h = refl
processing-failed failed h = absurd (ground arith)

processing-completed : (x : RangeState) → is_processing x ≡ true → is_completed x ≡ false
processing-completed pending h = refl
processing-completed processing h = refl
processing-completed completed h = absurd (ground arith)
processing-completed failed h = refl

reset_status-range : (v : BlockRangeStatus) → (reset_status v).range ≡ v.range
reset_status-range v = ground arith

released_status-range : (v : BlockRangeStatus) → (released_status v).range ≡ v.range
released_status-range v = ground arith

get-reset_all :
    (r : BlockRange) (status : BlockRangeStatus) (m : List (BlockRange × BlockRangeStatus))
    → get r m ≡ some status
    → is_processing status.status ≡ true
    → get r (reset_all m) ≡ some status
unfolding reset_all get
get-reset_all r status [] g p = absurd (ground arith)
get-reset_all r status ((q, v) ∷ m) g p = elim (Bool-cases (same_range q r)) [
  | inl hit ↦
      let e : v ≡ status = ground arith in rw (hit, e, processing-failed status.status p) refl
  | inr miss ↦ rw miss (get-reset_all r status m (ground arith) p)
]

all-reset_all :
    (m : List (BlockRange × BlockRangeStatus))
    → all is_keyed m ≡ true
    → all is_keyed (reset_all m) ≡ true
unfolding reset_all
all-reset_all [] h = refl
all-reset_all ((q, v) ∷ m) h = rw (reset_status-range v) (ground (arith, all-reset_all m))

get-keep :
    (r : BlockRange) (status : BlockRangeStatus) (p : BlockRangeStatus → Bool)
    (m : List (BlockRange × BlockRangeStatus))
    → get r m ≡ some status
    → p status ≡ true
    → get r (keep (λ e. p e.1) m) ≡ some status
unfolding get
get-keep r status p [] g h = g
get-keep r status p ((q, v) ∷ m) g h = elim (Bool-cases (same_range q r)) [
  | inl hit ↦ let e : v ≡ status = ground arith in rw (e, h, hit) refl
  | inr miss ↦ elim (Bool-cases (p v)) [
    | inl kept ↦ rw (kept, miss) (get-keep r status p m (ground arith) h)
    | inr gone ↦ rw gone (get-keep r status p m (ground arith) h)
  ]
]

all-del :
    (r : BlockRange) (m : List (BlockRange × BlockRangeStatus))
    → all is_keyed m ≡ true
    → all is_keyed (del r m) ≡ true
unfolding del
all-del r [] h = refl
all-del r (e ∷ m) h = ground (arith, all-del r m)

-- The step neither ends the work on the range nor stores it anew.
abbrev pub spares : BlockRange → Step → Bool
spares r (initializes size a b) =
    not (any (λ q. same_range q r) (initial_ranges size a b 0 (range_count size a b)))
spares r (acquires i preferred) = true
spares r (releases q) = not (same_range q r)
spares r (completes q) = not (same_range q r)
spares r resets = true
spares r (cleans cutoff) = true
spares r (lock_expires q) = true
spares r (range_expires q) = not (same_range q r)

module _ (r : BlockRange) (status : BlockRangeStatus) where
  Entries-set :
      (q : BlockRange) (v : BlockRangeStatus) (m : List (BlockRange × BlockRangeStatus))
      → Entries r status m
      → same_range q r ≡ false
      → same_range v.range q ≡ true
      → Entries r status (set q v m)
  Entries-set q v m (g, p, k) d e = (ground (arith, get-set q r v m), p, all-set q v m e k)

  store_initial-Entries :
      (rs : List BlockRange) (m : List (BlockRange × BlockRangeStatus))
      → Entries r status m
      → any (λ q. same_range q r) rs ≡ false
      → Entries r status (store_initial rs m)
  unfolding store_initial
  store_initial-Entries [] m h d = h
  store_initial-Entries (q ∷ rs) m h d =
      store_initial-Entries rs (set q (initial_status q) m)
        (Entries-set q (initial_status q) m h (ground arith) (same_range_refl q)) (ground arith)

  released-Entries :
      (q : BlockRange) (o : Option BlockRangeStatus) (m : List (BlockRange × BlockRangeStatus))
      → Entries r status m
      → get q m ≡ o
      → same_range q r ≡ false
      → Entries r status (released q o m)
  released-Entries q none m h e d = h
  released-Entries q (some v) m h e d =
      Entries-set q (released_status v) m h d (rw (released_status-range v) (get-keyed q v m h.2 e))

  completed_range-Entries :
      (q : BlockRange) (o : Option BlockRangeStatus) (now : ℕ)
      (m : List (BlockRange × BlockRangeStatus))
      → Entries r status m
      → get q m ≡ o
      → same_range q r ≡ false
      → Entries r status (completed_range q o now m)
  completed_range-Entries q none now m h e d = h
  completed_range-Entries q (some v) now m h e d = Entries-set q _ m h d (get-keyed q v m h.2 e)

update_global_progress-ranges :
    (s : BlockCoordinatorService) (b : ℕ) → (update_global_progress s b).ranges ≡ s.ranges
unfolding update_global_progress
update_global_progress-ranges s b = ground arith

get-del_other :
    (r q : BlockRange) (m : List (BlockRange × BlockRangeStatus))
    → same_range q r ≡ false
    → get r (del q m) ≡ get r m
get-del_other r q m d = ground (arith, get-del q r m)

is_old-processing :
    (cutoff : ℕ) (v : BlockRangeStatus) → is_processing v.status ≡ true → is_old cutoff v ≡ false
is_old-processing cutoff v h = rw (processing-completed v.status h) refl

step-Held :
    (s : BlockCoordinatorService) (r : BlockRange) (status : BlockRangeStatus) (now : ℕ) (c : Step)
    → Held r status s
    → spares r c ≡ true
    → let (s', acquired) = step s now c in Held r status s' × (avoids r acquired ≡ true)
unfolding step
step-Held s r status now (initializes size a b) h d = (
  store_initial-Entries r status (initial_ranges size a b 0 (range_count size a b)) s.ranges h
      (ground arith),
  refl,
)
step-Held s r status now (acquires i preferred) h d =
    acquire_block_range-Held s r status i now preferred h
step-Held s r status now (releases q) h d =
    (released-Entries r status q (get q s.ranges) s.ranges h refl (ground arith), refl)
step-Held s r status now (completes q) h d = (
  rw
      (
        update_global_progress-ranges
            (record s {
              ranges = completed_range q (get q s.ranges) now s.ranges;
              locks = del q s.locks;
            })
            q.to_block,
        mark_range_complete,
      )
      (completed_range-Entries r status q (get q s.ranges) now s.ranges h refl (ground arith)),
  refl,
)
step-Held s r status now resets (g, p, k) d =
    ((get-reset_all r status s.ranges g p, p, all-reset_all s.ranges k), refl)
step-Held s r status now (cleans cutoff) (g, p, k) d = (
  (
    get-keep r status (λ v. not (is_old cutoff v)) s.ranges g
        (rw (is_old-processing cutoff status p) refl),
    p,
    all-keep _ s.ranges k,
  ),
  refl,
)
step-Held s r status now (lock_expires q) h d = (h, refl)
step-Held s r status now (range_expires q) (g, p, k) d =
    ((rw (get-del_other r q s.ranges (ground arith)) g, p, all-del q s.ranges k), refl)

add_acquired-avoids :
    (r : BlockRange) (acquired : Option BlockRange) (l : List BlockRange)
    → avoids r acquired ≡ true
    → any (λ q. same_range q r) l ≡ false
    → any (λ q. same_range q r) (add_acquired acquired l) ≡ false
add_acquired-avoids r none l a h = h
add_acquired-avoids r (some q) l a h = ground arith

-- While an instance indexes a range, no instance acquires it and its entry stays as it is, under any
-- schedule of steps, locks that expire included, in which the range is not released, completed,
-- initialised again or expired, if each entry holds the range of its key.
pub run-exclusive :
    (s : BlockCoordinatorService) (r : BlockRange) (status : BlockRangeStatus)
    (cs : List (ℕ × Step))
    → Held r status s
    → all (λ c. spares r c.1) cs ≡ true
    → let (s', acquired) = run s cs in
      (get r s'.ranges ≡ some status) × (any (λ q. same_range q r) acquired ≡ false)
unfolding run
run-exclusive s r status [] (g, p, k) d = (g, refl)
run-exclusive s r status ((now, c) ∷ cs) h d =
    let (h', a) = step-Held s r status now c h (ground arith) in
    let (g, free) = run-exclusive (step s now c).0 r status cs h' (ground arith) in
    (g, add_acquired-avoids r (step s now c).1 (run (step s now c).0 cs).1 a free)
