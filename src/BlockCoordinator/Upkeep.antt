-- ===== src/BlockCoordinator/Upkeep.antt =====
-- src/indexer/services/block-coordinator.service.ts: releasing, completing, resetting and removing
-- ranges, the global progress, and the steps that instances and Redis take.
use stell_aiverse_backend.Prelude.{
  ℕ, ◌+◌, Bool, false, ◌&&◌, List, [], ◌∷◌, Option, none, some, ltb, ◌==◌, if◌then◌else◌, length,
  keep, map, not,
}
use stell_aiverse_backend.BlockCoordinator.{
  BlockRange, RangeState, pending, completed, failed, BlockRangeStatus, BlockCoordinatorService,
  get, set, del, is_failed, is_processing, is_pending, is_completed, acquire_block_range,
  initialize_ranges,
}

abbrev pub released_status : BlockRangeStatus → BlockRangeStatus
released_status status =
    if is_processing status.status
    then record status { status = failed; instance_id = none }
    else status

abbrev pub released :
    BlockRange
    → Option BlockRangeStatus
    → List (BlockRange × BlockRangeStatus)
    → List (BlockRange × BlockRangeStatus)
released r none m = m
released r (some status) m = set r (released_status status) m

unfoldable pub release_block_range : BlockCoordinatorService → BlockRange → BlockCoordinatorService
unfolding get set del
release_block_range s r = record s {
  ranges = released r (get r s.ranges) s.ranges;
  locks = del r s.locks;
}

unfoldable pub get_global_progress : BlockCoordinatorService → ℕ
get_global_progress s = elim s.current [ none ↦ 0 | some b ↦ b ]

unfoldable pub update_global_progress : BlockCoordinatorService → ℕ → BlockCoordinatorService
unfolding get_global_progress
update_global_progress s completed_block =
    if ltb (get_global_progress s) completed_block
    then record s { current = some completed_block }
    else s

abbrev pub completed_range :
    BlockRange
    → Option BlockRangeStatus
    → ℕ
    → List (BlockRange × BlockRangeStatus)
    → List (BlockRange × BlockRangeStatus)
completed_range r none now m = m
completed_range r (some status) now m =
    set r (record status { status = completed; completed_at = some now }) m

unfoldable pub mark_range_complete :
    BlockCoordinatorService → BlockRange → ℕ → BlockCoordinatorService
unfolding get set del update_global_progress
mark_range_complete s r now =
    update_global_progress
      (record s { ranges = completed_range r (get r s.ranges) now s.ranges; locks = del r s.locks })
      r.to_block

unfoldable pub get_target_block : BlockCoordinatorService → ℕ
get_target_block s = elim s.target [ none ↦ 0 | some b ↦ b ]

pub record RangeStats : Type 0 where
  pub total : ℕ
  pub pending_ranges : ℕ
  pub processing_ranges : ℕ
  pub completed_ranges : ℕ
  pub failed_ranges : ℕ

abbrev pub count_state : (RangeState → Bool) → List (BlockRange × BlockRangeStatus) → ℕ
count_state p m = length (keep (λ e. p e.1.status) m)

-- The pattern `indexer:range:range-*` lists the lock keys too: such a key adds to the total and, since
-- the instance number that it holds has no status, to none of the states.
unfoldable pub get_range_stats : BlockCoordinatorService → RangeStats
get_range_stats s = record {
  total = length s.ranges + length s.locks;
  pending_ranges = count_state is_pending s.ranges;
  processing_ranges = count_state is_processing s.ranges;
  completed_ranges = count_state is_completed s.ranges;
  failed_ranges = count_state is_failed s.ranges;
}

abbrev pub is_owner : ℕ → Option ℕ → Bool
is_owner instance_id none = false
is_owner instance_id (some i) = i == instance_id

unfoldable pub get_instance_ranges : BlockCoordinatorService → ℕ → List BlockRange
get_instance_ranges s instance_id =
    map (λ e. e.1.range)
      (keep (λ e. is_owner instance_id e.1.instance_id && is_processing e.1.status) s.ranges)

abbrev pub reset_status : BlockRangeStatus → BlockRangeStatus
reset_status status =
    if is_failed status.status && ltb status.retry_count 3
    then record status { status = pending; instance_id = none }
    else status

unfoldable pub reset_all :
    List (BlockRange × BlockRangeStatus) → List (BlockRange × BlockRangeStatus)
reset_all [] = []
reset_all ((r, status) ∷ m) = (r, reset_status status) ∷ reset_all m

unfoldable pub reset_failed_ranges : BlockCoordinatorService → BlockCoordinatorService × ℕ
unfolding reset_all
reset_failed_ranges s = (
  record s { ranges = reset_all s.ranges },
  length (keep (λ e. is_failed e.1.status && ltb e.1.retry_count 3) s.ranges),
)

-- `completedTime < cutoffTime`, where there is a `completedAt`
abbrev pub completed_before : ℕ → Option ℕ → Bool
completed_before cutoff none = false
completed_before cutoff (some t) = ltb t cutoff

abbrev pub is_old : ℕ → BlockRangeStatus → Bool
is_old cutoff status = is_completed status.status && completed_before cutoff status.completed_at

unfoldable pub del_all :
    List (BlockRange × BlockRangeStatus) → List (BlockRange × ℕ) → List (BlockRange × ℕ)
unfolding del
del_all [] locks = locks
del_all ((r, status) ∷ m) locks = del_all m (del r locks)

-- Removes the ranges completed before `cutoff` with their locks.
unfoldable pub cleanup_old_ranges : BlockCoordinatorService → ℕ → BlockCoordinatorService × ℕ
unfolding del_all
cleanup_old_ranges s cutoff =
    let old = keep (λ e. is_old cutoff e.1) s.ranges in
    (
      record s {
        ranges = keep (λ e. not (is_old cutoff e.1)) s.ranges;
        locks = del_all old s.locks;
      },
      length old,
    )

-- What instances do, and the ends of the times to live of a lock and of a range.
pub data Step : Type 0 where
  initializes : ℕ → ℕ → ℕ → Step
  acquires : ℕ → Option BlockRange → Step
  releases : BlockRange → Step
  completes : BlockRange → Step
  resets : Step
  cleans : ℕ → Step
  lock_expires : BlockRange → Step
  range_expires : BlockRange → Step

abbrev no_range : BlockCoordinatorService → BlockCoordinatorService × Option BlockRange
no_range s = (s, none)

-- The state after a step, and the range that it acquires.
unfoldable pub step :
    BlockCoordinatorService → ℕ → Step → BlockCoordinatorService × Option BlockRange
unfolding acquire_block_range release_block_range mark_range_complete reset_failed_ranges
    cleanup_old_ranges initialize_ranges del
step s now (initializes size start_block end_block) =
    no_range (initialize_ranges s size start_block end_block)
step s now (acquires instance_id preferred) = acquire_block_range s instance_id preferred now
step s now (releases r) = no_range (release_block_range s r)
step s now (completes r) = no_range (mark_range_complete s r now)
step s now resets = no_range (reset_failed_ranges s).0
step s now (cleans cutoff) = no_range (cleanup_old_ranges s cutoff).0
step s now (lock_expires r) = no_range (record s { locks = del r s.locks })
step s now (range_expires r) = no_range (record s { ranges = del r s.ranges })

abbrev pub add_acquired : Option BlockRange → List BlockRange → List BlockRange
add_acquired none l = l
add_acquired (some r) l = r ∷ l

-- The state after a schedule of steps, and the ranges acquired in it, in order.
unfoldable pub run :
    BlockCoordinatorService → List (ℕ × Step) → BlockCoordinatorService × List BlockRange
unfolding step
run s [] = (s, [])
run s ((now, c) ∷ cs) =
    let (s', acquired) = step s now c in let (s'', l) = run s' cs in (s'', add_acquired acquired l)
