-- ===== src/Shards.antt =====
-- src/indexer/services/shard-manager.service.ts: how blocks and shards are laid out and handed to
-- instances. The Redis calls are not modelled: the stored shards and the active instances are arguments.
-- A shard is its index, block numbers are numbers, and the shard count is a number. The end of a range
-- is not below its start.
pub mod Ranges
use stell_aiverse_backend.Prelude.{
  ℕ, zero, suc, ◌+◌, ◌-◌, ◌*◌, ◌/◌, ◌%◌, Bool, true, false, ◌||◌, List, [], ◌∷◌, Option, none, some,
  min, ltb, ◌==◌, if◌then◌else◌, not, length, includes, get_elem?, keep,
}

-- `after_block` is `endBlock + 1`, which the source can make 0. `instance_id` is `none` for -1.
pub record ShardConfig : Type 0 where
  pub shard_id : ℕ
  pub start_block : ℕ
  pub after_block : ℕ
  pub instance_id : Option ℕ
  pub is_active : Bool

unfoldable pub get_shard_for_block : ℕ → ℕ → ℕ
get_shard_for_block shard_count block_number = block_number % shard_count

-- `Math.ceil((endBlock - startBlock) / shardCount)`
unfoldable pub blocks_per_shard : ℕ → ℕ → ℕ → ℕ
blocks_per_shard shard_count start_block end_block =
    (end_block - start_block + (shard_count - 1)) / shard_count

-- The round of the loop at `i`.
unfoldable pub initial_shard : ℕ → ℕ → ℕ → ℕ → ShardConfig
initial_shard per start_block end_block i = record {
  shard_id = i;
  start_block = start_block + i * per;
  after_block = min (start_block + i * per + per) (end_block + 1);
  instance_id = none;
  is_active = false;
}

-- The rounds from `i` on.
unfoldable pub initial_shards : ℕ → ℕ → ℕ → ℕ → ℕ → List ShardConfig
unfolding initial_shard
initial_shards per start_block end_block i zero = []
initial_shards per start_block end_block i (suc n) =
    initial_shard per start_block end_block i ∷ initial_shards per start_block end_block (i + 1) n

unfoldable pub initialize_shards : ℕ → ℕ → ℕ → List ShardConfig
unfolding blocks_per_shard initial_shards
initialize_shards shard_count start_block end_block =
    initial_shards (blocks_per_shard shard_count start_block end_block) start_block end_block 0
      shard_count

abbrev on_instance : List ℕ → Option ℕ → Bool
on_instance active none = false
on_instance active (some i) = includes active i

unfoldable pub is_unassigned : List ℕ → ShardConfig → Bool
is_unassigned active s = not s.is_active || not (on_instance active s.instance_id)

-- The loop of `rebalanceShards` over the unassigned shards: the calls of `assignShardToInstance`, each
-- a shard with the instance.
unfoldable pub assignments : List ℕ → ℕ → List ShardConfig → List (ℕ × Option ℕ)
assignments active i [] = []
assignments active i (s ∷ shards) =
    (s.shard_id, get_elem? active (i % length active)) ∷ assignments active (i + 1) shards

unfoldable pub rebalance_shards : List ShardConfig → List ℕ → List (ℕ × Option ℕ)
unfolding assignments is_unassigned
rebalance_shards all_shards [] = []
rebalance_shards all_shards (a ∷ active) =
    assignments (a ∷ active) 0 (keep (is_unassigned (a ∷ active)) all_shards)

-- The configuration that `assignShardToInstance` stores once it has the lock.
unfoldable pub assigned_shard : ℕ → ℕ → ShardConfig
assigned_shard shard_id instance_id = record {
  shard_id = shard_id;
  start_block = 0;
  after_block = 1;
  instance_id = some instance_id;
  is_active = true;
}

pub record ShardStats : Type 0 where
  pub total_shards : ℕ
  pub active_shards : ℕ
  pub unassigned_shards : ℕ

unfoldable pub get_shard_stats : List ShardConfig → List ℕ → ShardStats
unfolding is_unassigned
get_shard_stats all_shards active = record {
  total_shards = length all_shards;
  active_shards = length (keep (λ s. s.is_active) all_shards);
  unassigned_shards = length (keep (is_unassigned active) all_shards);
}
