-- ===== src/Nonces.antt =====
-- src/oracle/services/nonce-management.service.ts: nonces against replay. An address is a number and
-- stands for `getAddress(address).toLowerCase()`, which throws before anything happens if the address
-- is malformed. A nonce is the number that its decimal text denotes. `table` is the rows of the nonce
-- repository by address, `nonce_cache` the cache of one service. The read and the cache write of
-- `getCurrentNonce` are two steps, since other calls may run while the database is awaited; the
-- transaction of `getAndIncrementNonce` is one step here and two in Nonces/Transactions.antt. Times are
-- milliseconds and arguments.
pub mod Transactions
pub mod Issues
pub mod Replay
use stell_aiverse_backend.Prelude.{
  ℕ, ◌+◌, ◌-◌, ◌*◌, ◌/◌, Bool, true, false, ◌&&◌, List, [], ◌∷◌, Option, none, some, ltb, ◌==◌,
  if◌then◌else◌, not, length, lookup, insert, remove,
}

pub record SubmissionNonce : Type 0 where
  pub nonce : ℕ
  pub last_used_at : Option ℕ

pub record Cached : Type 0 where
  pub nonce : ℕ
  pub last_fetch : ℕ

pub record NonceManagementService : Type 0 where
  pub table : List (ℕ × SubmissionNonce)
  pub nonce_cache : List (ℕ × Cached)

abbrev pub cache_ttl : ℕ
cache_ttl = 60000

abbrev pub row_nonce : Option SubmissionNonce → ℕ
row_nonce none = 0
row_nonce (some r) = r.nonce

-- `cached && Date.now() - cached.lastFetch < this.CACHE_TTL`
abbrev pub if_fresh : ℕ → Option Cached → Option ℕ
if_fresh now none = none
if_fresh now (some c) = if ltb (now - c.last_fetch) cache_ttl then some c.nonce else none

unfoldable pub cached_nonce : NonceManagementService → ℕ → ℕ → Option ℕ
cached_nonce s address now = if_fresh now (lookup address s.nonce_cache)

-- The database read of `getCurrentNonce`, which makes the row where there is none.
unfoldable pub fetch_nonce : NonceManagementService → ℕ → NonceManagementService × ℕ
fetch_nonce s address = elim (lookup address s.table) [
  | some row ↦ (s, row.nonce)
  | none ↦
      (record s { table = insert address (record { nonce = 0; last_used_at = none }) s.table }, 0)
]

-- The cache write that follows it.
unfoldable pub fill_cache : NonceManagementService → ℕ → ℕ → ℕ → NonceManagementService
fill_cache s address nonce now = record s {
  nonce_cache = insert address (record { nonce = nonce; last_fetch = now }) s.nonce_cache;
}

-- `getCurrentNonce` with nothing in between.
unfoldable pub get_current_nonce : NonceManagementService → ℕ → ℕ → NonceManagementService × ℕ
unfolding cached_nonce fetch_nonce fill_cache
get_current_nonce s address now = elim (cached_nonce s address now) [
  | some n ↦ (s, n)
  | none ↦ let (s', n) = fetch_nonce s address in (fill_cache s' address n now, n)
]

unfoldable pub get_and_increment_nonce : NonceManagementService → ℕ → ℕ → NonceManagementService × ℕ
get_and_increment_nonce s address now =
    let current = row_nonce (lookup address s.table) in
    (
      record {
        table = insert address (record { nonce = current + 1; last_used_at = some now }) s.table;
        nonce_cache = remove address s.nonce_cache;
      },
      current,
    )

unfoldable pub validate_nonce : NonceManagementService → ℕ → ℕ → ℕ → NonceManagementService × Bool
unfolding get_current_nonce
validate_nonce s address nonce now =
    let (s', current) = get_current_nonce s address now in (s', nonce == current)

abbrev last_use : Option SubmissionNonce → Option ℕ
last_use none = none
last_use (some r) = r.last_used_at

unfoldable pub set_nonce : NonceManagementService → ℕ → ℕ → NonceManagementService
set_nonce s address nonce = record {
  table =
      insert address (record { nonce = nonce; last_used_at = last_use (lookup address s.table) })
        s.table;
  nonce_cache = remove address s.nonce_cache;
}

unfoldable pub reset_nonce : NonceManagementService → ℕ → NonceManagementService
unfolding set_nonce
reset_nonce s address = set_nonce s address 0

unfoldable pub get_nonces_for_addresses :
    NonceManagementService → List ℕ → List (ℕ × ℕ) → List (ℕ × ℕ)
get_nonces_for_addresses s [] m = m
get_nonces_for_addresses s (a ∷ addresses) m =
    get_nonces_for_addresses s addresses (insert a (row_nonce (lookup a s.table)) m)

keep_cached : ℕ → List (ℕ × Cached) → List (ℕ × Cached)
keep_cached now [] = []
keep_cached now ((a, c) ∷ m) =
    let rest = keep_cached now m in
    if ltb cache_ttl (now - c.last_fetch) then rest else (a, c) ∷ rest

unfoldable pub clear_stale_cache : NonceManagementService → ℕ → NonceManagementService
unfolding keep_cached
clear_stale_cache s now = record s { nonce_cache = keep_cached now s.nonce_cache }

total_nonces : List (ℕ × SubmissionNonce) → ℕ
total_nonces [] = 0
total_nonces ((a, r) ∷ m) = r.nonce + total_nonces m

-- The number of addresses and the sum of the nonces; their quotient is the average.
unfoldable pub get_nonce_stats : NonceManagementService → ℕ × ℕ
unfolding total_nonces
get_nonce_stats s = (length s.table, total_nonces s.table)

-- `lastUsedAt < cutoff` in the database: false where it is null.
abbrev used_before : ℕ → Option ℕ → Bool
used_before cutoff none = false
used_before cutoff (some t) = ltb t cutoff

keep_rows : ℕ → List (ℕ × SubmissionNonce) → List (ℕ × SubmissionNonce)
keep_rows cutoff [] = []
keep_rows cutoff ((a, r) ∷ m) =
    let rest = keep_rows cutoff m in
    if used_before cutoff r.last_used_at && r.nonce == 0 then rest else (a, r) ∷ rest

unfoldable pub cleanup_old_nonces : NonceManagementService → ℕ → ℕ → NonceManagementService × ℕ
unfolding keep_rows
cleanup_old_nonces s days_inactive now =
    let kept = keep_rows (now - days_inactive * 24 * 60 * 60 * 1000) s.table in
    (record s { table = kept }, length s.table - length kept)
