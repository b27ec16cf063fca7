-- ===== src/BlockCoordinator/Entries.antt =====
-- src/indexer/services/block-coordinator.service.ts: the stored ranges, each under its key.
use stell_aiverse_backend.Prelude.{
  ◌≡◌, refl, Bool, true, List, [], ◌∷◌, none, some, arith, if◌then◌else◌, all, keep,
}
use stell_aiverse_backend.BlockCoordinator.{
  BlockRange, BlockRangeStatus, same_range, get, set, del, insert_sorted, sort_ranges,
}

pub same_range-eq : (a b : BlockRange) → same_range a b ≡ true → a ≡ b
unfolding same_range
same_range-eq a b h = grind arith

pub same_range_refl : (a : BlockRange) → same_range a a ≡ true
unfolding same_range
same_range_refl a = ground arith

module _ {ℓ} {V : Type ℓ} where
  pub get-set :
      (r q : BlockRange) (v : V) (m : List (BlockRange × V))
      → get q (set r v m) ≡ (if same_range r q then some v else get q m)
  unfolding get set same_range
  get-set r q v [] = refl
  get-set r q v ((p, w) ∷ m) = ground (arith, get-set r q v m)

  pub get-del :
      (r q : BlockRange) (m : List (BlockRange × V))
      → get q (del r m) ≡ (if same_range r q then none else get q m)
  unfolding get del same_range
  get-del r q [] = ground arith
  get-del r q ((p, w) ∷ m) = ground (arith, get-del r q m)

-- An entry holds the range that its key names.
abbrev pub is_keyed : BlockRange × BlockRangeStatus → Bool
is_keyed (r, status) = same_range status.range r

pub all-keep :
    (p : BlockRange × BlockRangeStatus → Bool) (m : List (BlockRange × BlockRangeStatus))
    → all is_keyed m ≡ true
    → all is_keyed (keep p m) ≡ true
all-keep p [] h = refl
all-keep p (e ∷ m) h = ground (arith, all-keep p m)

all-insert_sorted :
    (e : BlockRange × BlockRangeStatus) (m : List (BlockRange × BlockRangeStatus))
    → is_keyed e ≡ true
    → all is_keyed m ≡ true
    → all is_keyed (insert_sorted e m) ≡ true
unfolding insert_sorted
all-insert_sorted e [] k h = ground arith
all-insert_sorted e (f ∷ m) k h = ground (arith, all-insert_sorted e m)

pub all-sort_ranges :
    (m : List (BlockRange × BlockRangeStatus))
    → all is_keyed m ≡ true
    → all is_keyed (sort_ranges m) ≡ true
unfolding sort_ranges
all-sort_ranges [] h = refl
all-sort_ranges (e ∷ m) h =
    all-insert_sorted e (sort_ranges m) (ground arith) (all-sort_ranges m (ground arith))

pub all-set :
    (r : BlockRange) (v : BlockRangeStatus) (m : List (BlockRange × BlockRangeStatus))
    → same_range v.range r ≡ true
    → all is_keyed m ≡ true
    → all is_keyed (set r v m) ≡ true
unfolding set same_range
all-set r v [] k h = ground arith
all-set r v ((q, w) ∷ m) k h = ground (arith, all-set r v m)

pub get-keyed :
    (r : BlockRange) (v : BlockRangeStatus) (m : List (BlockRange × BlockRangeStatus))
    → all is_keyed m ≡ true
    → get r m ≡ some v
    → same_range v.range r ≡ true
unfolding get same_range
get-keyed r v [] h e = ground arith
get-keyed r v ((q, w) ∷ m) h e = ground (arith, get-keyed r v m)
