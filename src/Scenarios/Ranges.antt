-- ===== src/Scenarios/Ranges.antt =====
-- src/indexer/services/block-coordinator.service.ts: blocks 100 to 124 in ranges of ten.
use stell_aiverse_backend.Prelude.{
  ℕ, ◌≡◌, refl, List, [], ◌∷◌, none, some, arith, if◌then◌else◌, ◌&&◌, leb,
}
use stell_aiverse_backend.BlockCoordinator.{
  BlockRange, BlockRangeStatus, BlockCoordinatorService, initial_ranges, range_count,
  initial_status, acquired_status, acquire_block_range, get, same_range,
}
use stell_aiverse_backend.BlockCoordinator.Commands.{
  Command, sets_lock, gets, puts, dels, lock_expires,
}
use stell_aiverse_backend.BlockCoordinator.Coverage.{count_containing, initial_ranges-partition}
use stell_aiverse_backend.BlockCoordinator.Availability.{acquire_block_range-none}

abbrev first_range : BlockRange
first_range = record { from_block = 100; to_block = 109 }

abbrev second_range : BlockRange
second_range = record { from_block = 110; to_block = 119 }

abbrev first_status : BlockRangeStatus
first_status = acquired_status (initial_status first_range) 7 1000

-- Instance 7 indexes the first range, and holds its lock and that of the second.
abbrev coordinator : BlockCoordinatorService
coordinator = record {
  ranges = (first_range, first_status) ∷ (second_range, initial_status second_range) ∷ [];
  locks = (first_range, 7) ∷ (second_range, 7) ∷ [];
  current = none;
  start = some 100;
  target = some 124;
}

ranges-three :
    initial_ranges 10 100 124 0 (range_count 10 100 124)
    ≡ first_range ∷ second_range ∷ record { from_block = 120; to_block = 124 } ∷ []
unfolding initial_ranges range_count
ranges-three = refl

-- Instances 7 and 8 race for the second range: the first call has the lock, gives way to the second, and
-- writes.
abbrev race : List (ℕ × Command)
race =
    (1, sets_lock 1 7)
    ∷ (2, sets_lock 2 8)
    ∷ (3, gets 2)
    ∷ (4, gets 1)
    ∷ (5, lock_expires)
    ∷ (6, puts 1)
    ∷ (7, lock_expires)
    ∷ (8, sets_lock 3 8)
    ∷ (9, gets 3)
    ∷ (10, dels 3)
    ∷ []

initial_ranges-partition_example :
    count_containing 110 (initial_ranges 10 100 124 0 (range_count 10 100 124))
    ≡ (if leb 100 110 && leb 110 124 then 1 else 0)
initial_ranges-partition_example = initial_ranges-partition 10 100 124 110 (omega arith)

acquire_block_range-none_example : (owner : ℕ) × (get second_range coordinator.locks ≡ some owner)
unfolding get same_range acquire_block_range
acquire_block_range-none_example =
    acquire_block_range-none coordinator 8 50 second_range (initial_status second_range) refl refl
      refl
