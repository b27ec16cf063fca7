-- ===== src/Scenarios/Caches.antt =====
-- src/cache/backends/memory.backend.ts: a cache of two entries.
use stell_aiverse_backend.Prelude.{lookup, ℕ, ◌≡◌, ◌⊎◌, true, false, [], ◌∷◌, none, some}
use stell_aiverse_backend.MemoryCache.{
  CacheEntry, CacheVersion, MemoryCacheItem, MemoryCacheBackend, get, set, exists,
}
use stell_aiverse_backend.MemoryCache.Reads.{get-set, exists-get}

abbrev entry : ℕ → CacheEntry
entry tag = record { value = 100; tags = some (tag ∷ []) }

abbrev version : ℕ → CacheVersion
version schema = record { schema_version = schema; rest = 0 }

-- Key 1 expires at 50, and key 2 at 90.
abbrev cache : MemoryCacheBackend
cache = record {
  store =
      (1, record { entry = entry 8; expires_at = 50 })
      ∷ (2, record { entry = entry 9; expires_at = 90 })
      ∷ [];
  versions = (1, version 3) ∷ (2, version 4) ∷ [];
  ttl = none;
}

get-set_example : (get (set cache 1 (entry 7) (some 20) 60) 1 70).1 ≡ some (entry 7)
get-set_example = get-set cache 1 1 (entry 7) (some 20) 60 70

exists-get_example :
    (((exists cache 1 60).1 ≡ true) × ((e : CacheEntry) × ((get cache 1 60).1 ≡ some e)))
    ⊎ (((exists cache 1 60).1 ≡ false)
        × ((get cache 1 60).1 ≡ none)
        × (lookup 1 (exists cache 1 60).0.store ≡ none)
        × (lookup 1 (get cache 1 60).0.store ≡ none)
        × ((exists cache 1 60).0.versions ≡ cache.versions)
        × ((item : MemoryCacheItem)
            → lookup 1 cache.store ≡ some item
            → lookup 1 (get cache 1 60).0.versions ≡ none))
exists-get_example = exists-get cache 1 60
