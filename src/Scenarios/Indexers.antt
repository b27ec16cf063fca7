-- ===== src/Scenarios/Indexers.antt =====
-- src/indexer/services/shard-manager.service.ts: ten blocks and three shards.
use stell_aiverse_backend.Prelude.{◌≡◌, false, any, arith}
use stell_aiverse_backend.Shards.{initialize_shards}
use stell_aiverse_backend.Shards.Ranges.{covers, initialize_shards-misses}

initialize_shards-misses_example : any (covers 109) (initialize_shards 3 100 109) ≡ false
initialize_shards-misses_example = initialize_shards-misses 3 100 3 (omega arith)
