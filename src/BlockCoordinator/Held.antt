-- ===== src/BlockCoordinator/Held.antt =====
-- src/indexer/services/block-coordinator.service.ts: an acquisition leaves a range that is being indexed.
use stell_aiverse_backend.Prelude.{
  ℕ, ◌≡◌, refl, inl, inr, Bool, true, false, ◌||◌, List, [], ◌∷◌, Option, none, some, arith,
  Bool-cases, not, all, keep, Option-cases,
}
use stell_aiverse_backend.BlockCoordinator.{
  BlockRange, BlockRangeStatus, BlockCoordinatorService, same_range, get, set, is_processing,
  is_available, try_locked, try_acquire_range, sort_ranges, acquire_first, acquire_available,
  acquire_block_range, acquired_status,
}
use stell_aiverse_backend.BlockCoordinator.Entries.{
  same_range-eq, get-set, is_keyed, all-keep, all-sort_ranges, all-set, get-keyed,
}

-- The range is being indexed, and each entry is under its key.
abbrev pub Entries : BlockRange → BlockRangeStatus → List (BlockRange × BlockRangeStatus) → Type 0
Entries r status m =
    (get r m ≡ some status) × (is_processing status.status ≡ true) × (all is_keyed m ≡ true)

abbrev pub Held : BlockRange → BlockRangeStatus → BlockCoordinatorService → Type 0
Held r status s = Entries r status s.ranges

abbrev pub avoids : BlockRange → Option BlockRange → Bool
avoids r none = true
avoids r (some q) = not (same_range q r)

-- Another range's entry changes.
Held-set :
    (r q : BlockRange) (status v : BlockRangeStatus) (s : BlockCoordinatorService)
    (locks : List (BlockRange × ℕ))
    → Held r status s
    → same_range q r ≡ false
    → same_range v.range q ≡ true
    → Held r status (record s { ranges = set q v s.ranges; locks = locks })
Held-set r q status v s locks (g, p, k) d e =
    (ground (arith, get-set q r v s.ranges), p, all-set q v s.ranges e k)

different :
    (r q : BlockRange) (status v : BlockRangeStatus) (s : BlockCoordinatorService)
    → Held r status s
    → get q s.ranges ≡ some v
    → is_processing v.status ≡ false
    → same_range q r ≡ false
different r q status v s (g, p, k) e n = elim (Bool-cases (same_range q r)) [
  | inl hit ↦ let same : q ≡ r = same_range-eq q r hit in absurd (grind arith)
  | inr miss ↦ miss
]

try_locked-Held :
    (s : BlockCoordinatorService) (r q : BlockRange) (status : BlockRangeStatus) (i now : ℕ)
    (o : Option BlockRangeStatus)
    → Held r status s
    → get q s.ranges ≡ o
    → let (s', acquired) = try_locked s q i now o in
      Held r status s' × ((not acquired || not (same_range q r)) ≡ true)
unfolding try_locked
try_locked-Held s r q status i now none h e = (h, refl)
try_locked-Held s r q status i now (some v) h e = elim (Bool-cases (is_processing v.status)) [
  | inl busy ↦ rw busy (h, refl)
  | inr idle ↦
      let d = different r q status v s h e idle in
      rw idle (
        Held-set r q status (acquired_status v i now) s (set q i s.locks) h d
            (get-keyed q v s.ranges h.2 e),
        rw d refl,
      )
]

try_acquire_range-Held :
    (s : BlockCoordinatorService) (r q : BlockRange) (status : BlockRangeStatus) (i now : ℕ)
    → Held r status s
    → let (s', acquired) = try_acquire_range s q i now in
      Held r status s' × ((not acquired || not (same_range q r)) ≡ true)
unfolding try_acquire_range
try_acquire_range-Held s r q status i now h = elim (Option-cases (get q s.locks)) [
  | inl free ↦
      rw (free, try_acquire_range) (try_locked-Held s r q status i now (get q s.ranges) h refl)
  | inr (owner, taken) ↦ rw (taken, try_acquire_range) (h, refl)
]

acquire_first-Held :
    (s : BlockCoordinatorService) (r : BlockRange) (status : BlockRangeStatus)
    (m : List (BlockRange × BlockRangeStatus)) (i now : ℕ)
    → Held r status s
    → all is_keyed m ≡ true
    → let (s', acquired) = acquire_first s m i now in Held r status s' × (avoids r acquired ≡ true)
unfolding acquire_first
acquire_first-Held s r status [] i now h k = (h, refl)
acquire_first-Held s r status ((q, v) ∷ m) i now h k =
    let (h', d) = try_acquire_range-Held s r q status i now h in
    let same : v.range ≡ q = same_range-eq v.range q (ground arith) in
    elim (Bool-cases (try_acquire_range s q i now).1) [
      | inl hit ↦ rw hit (h', rw same (ground arith))
      | inr miss ↦
          rw miss
            (acquire_first-Held (try_acquire_range s q i now).0 r status m i now h' (ground arith))
    ]

acquire_available-Held :
    (s : BlockCoordinatorService) (r : BlockRange) (status : BlockRangeStatus) (i now : ℕ)
    → Held r status s
    → let (s', acquired) = acquire_available s i now in
      Held r status s' × (avoids r acquired ≡ true)
unfolding acquire_available
acquire_available-Held s r status i now h =
    acquire_first-Held s r status (sort_ranges (keep is_available s.ranges)) i now h
      (all-sort_ranges (keep is_available s.ranges) (all-keep is_available s.ranges h.2))

pub acquire_block_range-Held :
    (s : BlockCoordinatorService) (r : BlockRange) (status : BlockRangeStatus) (i now : ℕ)
    (preferred : Option BlockRange)
    → Held r status s
    → let (s', acquired) = acquire_block_range s i preferred now in
      Held r status s' × (avoids r acquired ≡ true)
unfolding acquire_block_range
acquire_block_range-Held s r status i now none h = acquire_available-Held s r status i now h
acquire_block_range-Held s r status i now (some q) h =
    let (h', d) = try_acquire_range-Held s r q status i now h in
    elim (Bool-cases (try_acquire_range s q i now).1) [
      | inl hit ↦ rw hit (h', ground arith)
      | inr miss ↦
          rw miss (acquire_available-Held (try_acquire_range s q i now).0 r status i now h')
    ]
