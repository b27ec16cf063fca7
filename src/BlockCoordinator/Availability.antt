-- ===== src/BlockCoordinator/Availability.antt =====
-- src/indexer/services/block-coordinator.service.ts: when an instance gets no range.
use stell_aiverse_backend.Prelude.{
  ℕ, ◌≡◌, refl, inl, inr, Bool, true, false, ◌&&◌, ◌||◌, List, [], ◌∷◌, Option, none, some, arith,
  Bool-cases, not, all, any, keep, Option-cases, sym, ◌∙◌,
}
use stell_aiverse_backend.BlockCoordinator.{
  BlockRange, BlockRangeStatus, BlockCoordinatorService, RangeState, pending, processing, completed,
  failed, same_range, get, is_available, is_processing, is_pending, is_failed, try_locked,
  try_acquire_range, insert_sorted, sort_ranges, acquire_first, acquire_available,
  acquire_block_range,
}
use stell_aiverse_backend.BlockCoordinator.Entries.{same_range-eq}

try_locked-fails :
    (s : BlockCoordinatorService) (r : BlockRange) (i now : ℕ) (o : Option BlockRangeStatus)
    → (try_locked s r i now o).1 ≡ false
    → (try_locked s r i now o).0 ≡ s
unfolding try_locked
try_locked-fails s r i now none h = refl
try_locked-fails s r i now (some v) h = ground arith

try_acquire_range-fails :
    (s : BlockCoordinatorService) (r : BlockRange) (i now : ℕ)
    → (try_acquire_range s r i now).1 ≡ false
    → (try_acquire_range s r i now).0 ≡ s
unfolding try_acquire_range
try_acquire_range-fails s r i now h = elim (Option-cases (get r s.locks)) [
  | inl free ↦
      rw (free, try_acquire_range)
        (try_locked-fails s r i now (get r s.ranges) (rw (free, try_acquire_range) at h))
  | inr (owner, taken) ↦ rw (taken, try_acquire_range) refl
]

acquire_first-none :
    (s : BlockCoordinatorService) (m : List (BlockRange × BlockRangeStatus)) (i now : ℕ)
    → (acquire_first s m i now).1 ≡ none
    → all (λ e. not (try_acquire_range s e.0 i now).1) m ≡ true
unfolding acquire_first
acquire_first-none s [] i now h = refl
acquire_first-none s ((r, v) ∷ m) i now h = elim (Bool-cases (try_acquire_range s r i now).1) [
  | inl hit ↦ absurd (ground arith)
  | inr miss ↦
      let same = try_acquire_range-fails s r i now miss in
      let rest : (acquire_first s m i now).1 ≡ none =
        (let later = rw miss at h in rw same at later) in
      rw miss (acquire_first-none s m i now rest)
]

any-insert_sorted :
    (r : BlockRange) (e : BlockRange × BlockRangeStatus) (m : List (BlockRange × BlockRangeStatus))
    → any (λ e. same_range e.0 r) (insert_sorted e m)
      ≡ (same_range e.0 r || any (λ e. same_range e.0 r) m)
unfolding insert_sorted
any-insert_sorted r e [] = refl
any-insert_sorted r e (f ∷ m) = ground (arith, any-insert_sorted r e m)

any-sort_ranges :
    (r : BlockRange) (m : List (BlockRange × BlockRangeStatus))
    → any (λ e. same_range e.0 r) (sort_ranges m) ≡ any (λ e. same_range e.0 r) m
unfolding sort_ranges
any-sort_ranges r [] = refl
any-sort_ranges r (e ∷ m) =
    ground (arith, any-insert_sorted r e (sort_ranges m), any-sort_ranges r m)

any-available :
    (r : BlockRange) (v : BlockRangeStatus) (m : List (BlockRange × BlockRangeStatus))
    → get r m ≡ some v
    → is_available (r, v) ≡ true
    → any (λ e. same_range e.0 r) (keep is_available m) ≡ true
unfolding get
any-available r v [] g h = absurd (ground arith)
any-available r v ((q, w) ∷ m) g h = elim (Bool-cases (same_range q r)) [
  | inl hit ↦ let e : w ≡ v = ground arith in rw (e, h) (rw hit refl)
  | inr miss ↦ ground (arith, any-available r v m)
]

-- A range among those whose acquisition fails.
fails-any :
    (s : BlockCoordinatorService) (r : BlockRange) (m : List (BlockRange × BlockRangeStatus))
    (i now : ℕ)
    → all (λ e. not (try_acquire_range s e.0 i now).1) m ≡ true
    → any (λ e. same_range e.0 r) m ≡ true
    → (try_acquire_range s r i now).1 ≡ false
fails-any s r [] i now f a = absurd (ground arith)
fails-any s r ((q, w) ∷ m) i now f a = elim (Bool-cases (same_range q r)) [
  | inl hit ↦ rw (sym (same_range-eq q r hit)) (ground arith)
  | inr miss ↦ fails-any s r m i now (ground arith) (ground arith)
]

available-idle :
    (x : RangeState) (n : Bool)
    → (is_pending x || is_failed x && n) ≡ true
    → is_processing x ≡ false
available-idle pending n h = refl
available-idle processing n h = absurd (ground arith)
available-idle completed n h = refl
available-idle failed n h = refl

locked :
    (s : BlockCoordinatorService) (r : BlockRange) (v : BlockRangeStatus) (i now : ℕ)
    → get r s.ranges ≡ some v
    → is_processing v.status ≡ false
    → (try_acquire_range s r i now).1 ≡ false
    → (owner : ℕ) × (get r s.locks ≡ some owner)
unfolding try_acquire_range try_locked
locked s r v i now g p f = elim (Option-cases (get r s.locks)) [
  | inl free ↦
      absurd (let acquired : true ≡ false = rw (free, try_acquire_range, g, p) at f in ground arith)
  | inr taken ↦ taken
]

-- An instance that names no range goes without one only if every range that is pending, or that
-- failed with fewer than three retries, is locked.
pub acquire_block_range-none :
    (s : BlockCoordinatorService) (i now : ℕ) (r : BlockRange) (v : BlockRangeStatus)
    → (acquire_block_range s i none now).1 ≡ none
    → get r s.ranges ≡ some v
    → is_available (r, v) ≡ true
    → (owner : ℕ) × (get r s.locks ≡ some owner)
unfolding acquire_block_range acquire_available
acquire_block_range-none s i now r v n g a = locked s r v i now g (available-idle v.status _ a) (
    fails-any s r (sort_ranges (keep is_available s.ranges)) i now
      (acquire_first-none s (sort_ranges (keep is_available s.ranges)) i now n)
      (any-sort_ranges r (keep is_available s.ranges) ∙ any-available r v s.ranges g a))
