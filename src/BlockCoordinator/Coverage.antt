-- ===== src/BlockCoordinator/Coverage.antt =====
-- src/indexer/services/block-coordinator.service.ts: the blocks of the initial ranges.
use stell_aiverse_backend.Prelude.{
  ℕ, zero, suc, ◌+◌, ◌-◌, ◌*◌, ◌≤◌, ◌<◌, ◌≡◌, Bool, ◌&&◌, arith, ltb, leb, List, [], ◌∷◌,
  if◌then◌else◌,
}
use native.Mathlib.Nat.{lt-div-mul-add}
use stell_aiverse_backend.BlockCoordinator.{BlockRange, initial_ranges, range_count}

abbrev pub contains : ℕ → BlockRange → Bool
contains b r = leb r.from_block b && leb b r.to_block

-- The number of ranges that contain the block.
abbrev pub count_containing : ℕ → List BlockRange → ℕ
count_containing b [] = 0
count_containing b (r ∷ rs) = (if contains b r then 1 else 0) + count_containing b rs

count_containing-initial :
    (size start end_ b i n : ℕ)
    → 0 < size
    → count_containing b (initial_ranges size start end_ i n) ≡ (
        if (leb (start + i * size) b && ltb b (start + (i + n) * size)) && leb b end_ then 1 else 0)
unfolding initial_ranges
count_containing-initial size start end_ b i zero h = ground arith
count_containing-initial size start end_ b i (suc n) h =
    ground (arith, count_containing-initial size start end_ b (i + 1) n h)

range_count-enough :
    (size start end_ : ℕ)
    → 0 < size
    → start ≤ end_
    → end_ < start + range_count size start end_ * size
unfolding range_count
range_count-enough size start end_ h l =
    grind (arith, lt-div-mul-add {a = end_ + 1 - start + (size - 1)} h)

-- `initializeRanges` puts each block from the first to the last, both included, into exactly one
-- range, and no other block into any, where the size of a range is not 0.
pub initial_ranges-partition :
    (size start_block end_block b : ℕ)
    → 0 < size
    → count_containing b
        (initial_ranges size start_block end_block 0 (range_count size start_block end_block))
      ≡ (if leb start_block b && leb b end_block then 1 else 0)
initial_ranges-partition size start end_ b h = ground (
  arith,
  count_containing-initial size start end_ b 0 (range_count size start end_) h,
  range_count-enough size start end_ h,
)
