-- ===== src/MemoryCache.antt =====
-- src/cache/backends/memory.backend.ts: the in-memory cache. A key, a tag, a job type and a stored
-- value are numbers: the backend only compares and hands them on. The key of the version map,
-- `${key}:version`, is the key itself. Times are milliseconds and an argument of each call.
-- `key.startsWith("cache:" + jobType + ":")`, the regular expression's test and the length of the
-- entry's JSON text are arguments of the operations that use them.
pub mod Sweeps
pub mod Reads
use stell_aiverse_backend.Prelude.{
  ℕ, ◌+◌, ◌*◌, ◌/◌, ◌≡◌, Bool, true, false, ◌&&◌, List, [], ◌∷◌, ◌++◌, map, Option, none, some, ltb,
  leb, ◌==◌, if◌then◌else◌, not, any, length, includes, lookup, insert, remove,
}

-- `rest` stands for the other fields of a version, `value` for those of an entry.
pub record CacheVersion : Type 0 where
  pub schema_version : ℕ
  pub rest : ℕ

pub record CacheEntry : Type 0 where
  pub value : ℕ
  pub tags : Option (List ℕ)

pub record MemoryCacheItem : Type 0 where
  pub entry : CacheEntry
  pub expires_at : ℕ

pub record MemoryCacheBackend : Type 0 where
  pub store : List (ℕ × MemoryCacheItem)
  pub versions : List (ℕ × CacheVersion)
  -- `config.ttl`
  pub ttl : Option ℕ

abbrev pub default_ttl : ℕ
default_ttl = 24 * 60 * 60 * 1000

-- `a || b` on numbers that may be missing
abbrev pub or_else : Option ℕ → ℕ → ℕ
or_else none d = d
or_else (some n) d = if n == 0 then d else n

-- `store.delete(key)` and `versions.delete(…)`
unfoldable pub delete : MemoryCacheBackend → ℕ → MemoryCacheBackend
delete s key = record s { store = remove key s.store; versions = remove key s.versions }

unfoldable pub delete_many : MemoryCacheBackend → List ℕ → MemoryCacheBackend
unfolding delete
delete_many s [] = s
delete_many s (key ∷ keys) = delete_many (delete s key) keys

-- The loops over the entries of the store that delete those which pass a test, and count them.
abbrev pub Test : Type 0
Test = MemoryCacheBackend → ℕ → MemoryCacheItem → Bool

unfoldable pub sweep :
    Test → List (ℕ × MemoryCacheItem) → MemoryCacheBackend × ℕ → MemoryCacheBackend × ℕ
unfolding delete
sweep test [] s = s
sweep test ((key, item) ∷ entries) (s, n) =
    sweep test entries (if test s key item then (delete s key, n + 1) else (s, n))

abbrev pub is_expired : ℕ → MemoryCacheItem → Bool
is_expired now item = leb item.expires_at now

unfoldable pub cleanup : MemoryCacheBackend → ℕ → MemoryCacheBackend × ℕ
unfolding sweep
cleanup s now = sweep (λ _ key item. is_expired now item) s.store (s, 0)

unfoldable pub set : MemoryCacheBackend → ℕ → CacheEntry → Option ℕ → ℕ → MemoryCacheBackend
set s key entry ttl_ms now = record s { store = insert key item s.store }
  where
    item : MemoryCacheItem
    item = record { entry = entry; expires_at = now + or_else ttl_ms (or_else s.ttl default_ttl) }

unfoldable pub get : MemoryCacheBackend → ℕ → ℕ → MemoryCacheBackend × Option CacheEntry
unfolding delete
get s key now = elim (lookup key s.store) [
  | none ↦ (s, none)
  | some item ↦ if is_expired now item then (delete s key, none) else (s, some item.entry)
]

unfoldable pub exists : MemoryCacheBackend → ℕ → ℕ → MemoryCacheBackend × Bool
exists s key now = elim (lookup key s.store) [
  | none ↦ (s, false)
  | some item ↦
      if is_expired now item then (record s { store = remove key s.store }, false) else (s, true)
]

unfoldable pub entries_matching : (ℕ → Bool) → ℕ → List (ℕ × MemoryCacheItem) → List CacheEntry
entries_matching matches now [] = []
entries_matching matches now ((key, item) ∷ entries) =
    let rest = entries_matching matches now entries in
    if matches key && ltb now item.expires_at then item.entry ∷ rest else rest

unfoldable pub get_by_pattern : (ℕ → Bool) → MemoryCacheBackend → ℕ → List CacheEntry
unfolding entries_matching
get_by_pattern matches s now = entries_matching matches now s.store

-- `entry.tags && entry.tags.some((tag) => tags.includes(tag))`
abbrev pub has_tag : List ℕ → Option (List ℕ) → Bool
has_tag tags none = false
has_tag tags (some ts) = any (includes tags) ts

abbrev pub is_tagged : List ℕ → ℕ → MemoryCacheItem → Bool
is_tagged tags now item = ltb now item.expires_at && has_tag tags item.entry.tags

unfoldable pub clear_by_tags : MemoryCacheBackend → List ℕ → ℕ → MemoryCacheBackend × ℕ
unfolding sweep
clear_by_tags s tags now = sweep (λ _ key item. is_tagged tags now item) s.store (s, 0)

unfoldable pub clear_by_job_type : (ℕ → Bool) → MemoryCacheBackend → MemoryCacheBackend × ℕ
unfolding sweep
clear_by_job_type of_job_type s = sweep (λ _ key item. of_job_type key) s.store (s, 0)

unfoldable pub total_size : (CacheEntry → ℕ) → ℕ → List (ℕ × MemoryCacheItem) → ℕ
total_size size now [] = 0
total_size size now ((key, item) ∷ entries) =
    (if ltb now item.expires_at then size item.entry else 0) + total_size size now entries

pub record CacheMetrics : Type 0 where
  pub size : ℕ
  pub entry_count : ℕ
  pub avg_entry_size : ℕ

-- `Math.round(total / count)`
abbrev pub rounded : ℕ → ℕ → ℕ
rounded total count = (2 * total + count) / (2 * count)

unfoldable pub get_metrics : (CacheEntry → ℕ) → MemoryCacheBackend → ℕ → CacheMetrics
unfolding total_size
get_metrics size s now = record {
  size = total_size size now s.store;
  entry_count = length s.store;
  avg_entry_size =
      if ltb 0 (length s.store) then rounded (total_size size now s.store) (length s.store) else 0;
}

unfoldable pub clear : MemoryCacheBackend → MemoryCacheBackend
clear s = record s { store = []; versions = [] }

unfoldable pub set_version : MemoryCacheBackend → ℕ → CacheVersion → MemoryCacheBackend
set_version s key version = record s { versions = insert key version s.versions }

unfoldable pub get_version : MemoryCacheBackend → ℕ → Option CacheVersion
get_version s key = lookup key s.versions

-- `version && version.schemaVersion !== currentVersion.schemaVersion`
abbrev pub is_old : ℕ → Option CacheVersion → Bool
is_old current none = false
is_old current (some v) = not (v.schema_version == current)

unfoldable pub invalidate_old_versions :
    (ℕ → Bool) → MemoryCacheBackend → CacheVersion → MemoryCacheBackend × ℕ
unfolding sweep
invalidate_old_versions of_job_type s current =
    sweep (λ s' key item. of_job_type key && is_old current.schema_version (lookup key s'.versions))
      s.store (s, 0)
