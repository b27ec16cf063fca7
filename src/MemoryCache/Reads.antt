-- ===== src/MemoryCache/Reads.antt =====
-- src/cache/backends/memory.backend.ts: what a read gives after a write, after time, and after a
-- cleanup; and the two reads compared.
use stell_aiverse_backend.Prelude.{
  ℕ, ◌+◌, ◌≤◌, ◌≡◌, inl, inr, ◌⊎◌, true, false, Option, none, some, arith, ltb, ◌==◌, if◌then◌else◌,
  Bool-cases, Option-cases, keys, lookup, lookup-insert, lookup-remove_self, Distinct,
}
use stell_aiverse_backend.MemoryCache.{
  MemoryCacheBackend, MemoryCacheItem, CacheEntry, get, set, exists, cleanup, is_expired, or_else,
  default_ttl, delete,
}
use stell_aiverse_backend.MemoryCache.Sweeps.{cleanup-lookup}

-- A read after a write: the entry until its time to live is over, and nothing from then on. What any
-- other key gives is not changed by the write.
pub get-set :
    (s : MemoryCacheBackend) (key j : ℕ) (entry : CacheEntry) (ttl : Option ℕ) (now later : ℕ)
    → (get (set s key entry ttl now) j later).1 ≡ (
        if key == j
        then (if ltb later (now + or_else ttl (or_else s.ttl default_ttl))
            then some entry
            else none)
        else (get s j later).1)
unfolding get set
get-set s key j entry ttl now later = elim (Bool-cases (key == j)) [
  | inl hit ↦ grind (arith, lookup-insert)
  | inr miss ↦ grind (arith, lookup-insert)
]

-- Cleaning up cannot be seen by a read: at the time of the cleanup or later, `get` gives what it
-- would have given without it.
pub get-cleanup :
    (s : MemoryCacheBackend) (now later key : ℕ)
    → Distinct (keys s.store)
    → now ≤ later
    → (get (cleanup s now).0 key later).1 ≡ (get s key later).1
unfolding get
get-cleanup s now later key d h = elim (Option-cases (lookup key s.store)) [
  | inl e ↦ ground (arith, (cleanup-lookup s now key d).0)
  | inr (item, e) ↦ ground (arith, (cleanup-lookup s now key d).0)
]

-- The two reads answer alike: `exists` says yes exactly when `get` gives an entry. Both remove an
-- expired entry, but only `get` removes its version: after `exists` the version is still there.
pub exists-get :
    (s : MemoryCacheBackend) (key now : ℕ)
    → (((exists s key now).1 ≡ true) × ((e : CacheEntry) × ((get s key now).1 ≡ some e)))
      ⊎ (((exists s key now).1 ≡ false)
          × ((get s key now).1 ≡ none)
          × (lookup key (exists s key now).0.store ≡ none)
          × (lookup key (get s key now).0.store ≡ none)
          × ((exists s key now).0.versions ≡ s.versions)
          × ((item : MemoryCacheItem)
              → lookup key s.store ≡ some item
              → lookup key (get s key now).0.versions ≡ none))
unfolding exists get delete
exists-get s key now = elim (Option-cases (lookup key s.store)) [
  | inl e ↦
      inr (
        ground arith,
        ground arith,
        ground arith,
        ground arith,
        ground arith,
        λ item h. ground arith,
      )
  | inr (item, e) ↦ elim (Bool-cases (is_expired now item)) [
    | inl x ↦ inr (
      ground arith,
      ground arith,
      ground (arith, lookup-remove_self key s.store),
      ground (arith, lookup-remove_self key s.store),
      ground arith,
      λ i h. ground (arith, lookup-remove_self key s.versions),
    )
    | inr x ↦ inl (ground arith, (item.entry, ground arith))
  ]
]
