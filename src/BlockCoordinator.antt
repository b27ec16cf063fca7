-- ===== src/BlockCoordinator.antt =====
-- src/indexer/services/block-coordinator.service.ts: ranges of blocks, handed to the instances that
-- index them. `ranges` is the values under the keys `indexer:range:range-<from>-<to>`, `locks` the
-- instances under the same keys with `:lock`, both in the order in which `redis.keys` lists them. A key is
-- the range that it names. A step runs a whole method: nothing else happens to a range between the
-- first and the last command of a method. BlockCoordinator/Commands has the commands of tryAcquireRange one
-- by one, and how they meet. Times are milliseconds and arguments.
pub mod Upkeep
pub mod Entries
pub mod Held
pub mod Exclusion
pub mod Coverage
pub mod Availability
pub mod Commands
use stell_aiverse_backend.Prelude.{
  ℕ, zero, suc, ◌+◌, ◌-◌, ◌*◌, ◌/◌, Bool, true, false, ◌&&◌, ◌||◌, List, [], ◌∷◌, Option, none,
  some, min, ltb, leb, ◌==◌, if◌then◌else◌, length, keep,
}

-- The stored `shardId` and `instanceId` of a range never change.
pub record BlockRange : Type 0 where
  pub from_block : ℕ
  pub to_block : ℕ

pub data RangeState : Type 0 where
  pending : RangeState
  processing : RangeState
  completed : RangeState
  failed : RangeState

-- `instance_id` is `none` for -1, `acquired_at` is `none` for the empty text.
pub record BlockRangeStatus : Type 0 where
  pub range : BlockRange
  pub status : RangeState
  pub instance_id : Option ℕ
  pub acquired_at : Option ℕ
  pub completed_at : Option ℕ
  pub retry_count : ℕ

pub record BlockCoordinatorService : Type 0 where
  pub ranges : List (BlockRange × BlockRangeStatus)
  pub locks : List (BlockRange × ℕ)
  pub current : Option ℕ
  pub start : Option ℕ
  pub target : Option ℕ

unfoldable pub same_range : BlockRange → BlockRange → Bool
same_range a b = a.from_block == b.from_block && a.to_block == b.to_block

-- `redis.get`, `redis.setex` and `redis.del` on keys that are ranges.
module _ {ℓ} {V : Type ℓ} where
  unfoldable pub get : BlockRange → List (BlockRange × V) → Option V
  get r [] = none
  get r ((q, v) ∷ m) = if same_range q r then some v else get r m

  unfoldable pub set : BlockRange → V → List (BlockRange × V) → List (BlockRange × V)
  set r v [] = (r, v) ∷ []
  set r v ((q, w) ∷ m) = if same_range q r then (q, v) ∷ m else (q, w) ∷ set r v m

  unfoldable pub del : BlockRange → List (BlockRange × V) → List (BlockRange × V)
  del r [] = []
  del r ((q, w) ∷ m) = let rest = del r m in if same_range q r then rest else (q, w) ∷ rest

-- `Math.ceil((endBlock - startBlock + 1) / this.rangeSize)`
unfoldable pub range_count : ℕ → ℕ → ℕ → ℕ
range_count size start_block end_block = (end_block + 1 - start_block + (size - 1)) / size

abbrev pub initial_range : ℕ → ℕ → ℕ → ℕ → BlockRange
initial_range size start_block end_block i = record {
  from_block = start_block + i * size;
  to_block = min (start_block + i * size + size - 1) end_block;
}

-- The ranges of the rounds from `i` on.
unfoldable pub initial_ranges : ℕ → ℕ → ℕ → ℕ → ℕ → List BlockRange
initial_ranges size start_block end_block i zero = []
initial_ranges size start_block end_block i (suc n) =
    initial_range size start_block end_block i ∷ initial_ranges size start_block end_block (i + 1) n

abbrev pub initial_status : BlockRange → BlockRangeStatus
initial_status r = record {
  range = r;
  status = pending;
  instance_id = none;
  acquired_at = none;
  completed_at = none;
  retry_count = 0;
}

unfoldable pub store_initial :
    List BlockRange → List (BlockRange × BlockRangeStatus) → List (BlockRange × BlockRangeStatus)
store_initial [] m = m
store_initial (r ∷ rs) m = store_initial rs (set r (initial_status r) m)

unfoldable pub initialize_ranges : BlockCoordinatorService → ℕ → ℕ → ℕ → BlockCoordinatorService
unfolding range_count initial_ranges store_initial
initialize_ranges s size start_block end_block = record s {
  ranges =
      store_initial
        (initial_ranges size start_block end_block 0 (range_count size start_block end_block))
        s.ranges;
  start = some start_block;
  target = some end_block;
}

abbrev pub is_failed : RangeState → Bool
is_failed failed = true
is_failed pending = false
is_failed processing = false
is_failed completed = false

abbrev pub is_processing : RangeState → Bool
is_processing processing = true
is_processing pending = false
is_processing failed = false
is_processing completed = false

abbrev pub is_pending : RangeState → Bool
is_pending pending = true
is_pending processing = false
is_pending failed = false
is_pending completed = false

abbrev pub is_completed : RangeState → Bool
is_completed completed = true
is_completed processing = false
is_completed failed = false
is_completed pending = false

-- The status that `tryAcquireRange` stores.
abbrev pub acquired_status : BlockRangeStatus → ℕ → ℕ → BlockRangeStatus
acquired_status status instance_id now = record status {
  status = processing;
  instance_id = some instance_id;
  acquired_at = some now;
  retry_count = if is_failed status.status then status.retry_count + 1 else status.retry_count;
}

-- Under the lock: the locks that are left, the ranges, and whether the range is acquired.
unfoldable pub try_locked :
    BlockCoordinatorService
    → BlockRange
    → ℕ
    → ℕ
    → Option BlockRangeStatus
    → BlockCoordinatorService × Bool
unfolding set
try_locked s r instance_id now none = (s, false)
try_locked s r instance_id now (some status) = if is_processing status.status then (s, false) else (
  record s {
    ranges = set r (acquired_status status instance_id now) s.ranges;
    locks = set r instance_id s.locks;
  },
  true,
)

-- The lock that is taken and given back leaves the locks as they were, since it was not there.
unfoldable pub try_acquire_range :
    BlockCoordinatorService → BlockRange → ℕ → ℕ → BlockCoordinatorService × Bool
unfolding get try_locked
try_acquire_range s r instance_id now = elim (get r s.locks) [
  | some owner ↦ (s, false)
  | none ↦ try_locked s r instance_id now (get r s.ranges)
]

abbrev pub is_available : BlockRange × BlockRangeStatus → Bool
is_available (r, status) =
    is_pending status.status || is_failed status.status && ltb status.retry_count 3

-- `pendingRanges.sort`, stable, by the first block of the stored range
unfoldable pub insert_sorted :
    BlockRange × BlockRangeStatus
    → List (BlockRange × BlockRangeStatus)
    → List (BlockRange × BlockRangeStatus)
insert_sorted e [] = e ∷ []
insert_sorted e (f ∷ m) =
    if leb e.1.range.from_block f.1.range.from_block then e ∷ f ∷ m else f ∷ insert_sorted e m

unfoldable pub sort_ranges :
    List (BlockRange × BlockRangeStatus) → List (BlockRange × BlockRangeStatus)
unfolding insert_sorted
sort_ranges [] = []
sort_ranges (e ∷ m) = insert_sorted e (sort_ranges m)

-- The loop over the sorted ranges.
unfoldable pub acquire_first :
    BlockCoordinatorService
    → List (BlockRange × BlockRangeStatus)
    → ℕ
    → ℕ
    → BlockCoordinatorService × Option BlockRange
acquire_first s [] instance_id now = (s, none)
acquire_first s ((r, status) ∷ m) instance_id now =
    let (s', acquired) = try_acquire_range s r instance_id now in
    let rest = acquire_first s' m instance_id now in
    if acquired then (s', some status.range) else rest

unfoldable pub acquire_available :
    BlockCoordinatorService → ℕ → ℕ → BlockCoordinatorService × Option BlockRange
unfolding acquire_first sort_ranges
acquire_available s instance_id now =
    acquire_first s (sort_ranges (keep is_available s.ranges)) instance_id now

unfoldable pub acquire_block_range :
    BlockCoordinatorService
    → ℕ
    → Option BlockRange
    → ℕ
    → BlockCoordinatorService × Option BlockRange
unfolding try_acquire_range acquire_available
acquire_block_range s instance_id none now = acquire_available s instance_id now
acquire_block_range s instance_id (some preferred) now =
    let (s', acquired) = try_acquire_range s preferred instance_id now in
    if acquired then (s', some preferred) else acquire_available s' instance_id now
