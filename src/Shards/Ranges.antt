-- ===== src/Shards/Ranges.antt =====
-- src/indexer/services/shard-manager.service.ts: which blocks the initial ranges cover, and where
-- shards go when they are rebalanced.
use stell_aiverse_backend.Prelude.{
  ℕ, zero, suc, ◌+◌, ◌-◌, ◌*◌, ◌/◌, ◌≤◌, ◌<◌, ◌≡◌, refl, Bool, true, false, ◌&&◌, arith, ltb, leb,
  any,
}
use native.Mathlib.Nat.{lt-div-mul-add, mul-add-div, div-eq_of_lt}
use stell_aiverse_backend.Shards.{ShardConfig, blocks_per_shard, initial_shards, initialize_shards}

abbrev pub covers : ℕ → ShardConfig → Bool
covers b s = leb s.start_block b && ltb b s.after_block

covers-initial :
    (per start end_ b i n : ℕ)
    → start + i * per ≤ b
    → b < start + (i + n) * per
    → b ≤ end_
    → any (covers b) (initial_shards per start end_ i n) ≡ true
unfolding initial_shards
covers-initial per start end_ b i zero l h e = absurd (grind arith)
covers-initial per start end_ b i (suc n) l h e =
    ground (arith, covers-initial per start end_ b (i + 1) n)

misses-initial :
    (per start end_ b i n : ℕ)
    → start + (i + n) * per ≤ b
    → any (covers b) (initial_shards per start end_ i n) ≡ false
unfolding initial_shards
misses-initial per start end_ b i zero h = refl
misses-initial per start end_ b i (suc n) h =
    ground (arith, misses-initial per start end_ b (i + 1) n)

blocks_per_shard-enough :
    (n start end_ : ℕ) → 0 < n → end_ ≤ start + n * blocks_per_shard n start end_
unfolding blocks_per_shard
blocks_per_shard-enough n start end_ h =
    grind (arith, lt-div-mul-add {a = end_ - start + (n - 1)} h)

blocks_per_shard-divisible : (n start k : ℕ) → 0 < n → blocks_per_shard n start (start + n * k) ≡ k
unfolding blocks_per_shard
blocks_per_shard-divisible n start k h =
    let shifted : start + n * k - start + (n - 1) ≡ n * k + (n - 1) = omega arith in
    let small : (n - 1) / n ≡ 0 = div-eq_of_lt (omega arith) in
    let split : (n * k + (n - 1)) / n ≡ k + (n - 1) / n = mul-add-div h k (n - 1) in grind arith

-- Each block from the start of the range up to, but without, its end is in one of the shards that
-- `initialize_shards` makes, where there is a shard.
initialize_shards-covers :
    (shard_count start_block end_block b : ℕ)
    → 0 < shard_count
    → start_block ≤ b
    → b < end_block
    → any (covers b) (initialize_shards shard_count start_block end_block) ≡ true
unfolding initialize_shards
initialize_shards-covers n start end_ b h l u =
    covers-initial (blocks_per_shard n start end_) start end_ b 0 n (omega arith)
      (grind (arith, blocks_per_shard-enough n start end_ h)) (omega arith)

-- Where the shard count divides the length of the range, the range's last block is in no shard, if
-- there is a shard.
pub initialize_shards-misses :
    (shard_count start_block k : ℕ)
    → 0 < shard_count
    → any
        (covers (start_block + shard_count * k))
        (initialize_shards shard_count start_block (start_block + shard_count * k))
      ≡ false
unfolding initialize_shards
initialize_shards-misses n start k h =
    rw (blocks_per_shard-divisible n start k h)
      (misses-initial k start (start + n * k) (start + n * k) 0 n (omega arith))
