-- ===== src/MemoryCache/Sweeps.antt =====
-- src/cache/backends/memory.backend.ts: the loops that delete what passes a test.
use stell_aiverse_backend.Prelude.{
  ℕ, ◌+◌, ◌≡◌, refl, inl, inr, ◌⊎◌, Bool, true, false, ◌&&◌, List, [], ◌∷◌, Option, none, some,
  arith, if◌then◌else◌, Bool-cases, Option-cases, includes, keys, lookup, lookup-remove, Distinct,
  lookup-excluded,
}
use stell_aiverse_backend.MemoryCache.{
  MemoryCacheBackend, MemoryCacheItem, CacheVersion, delete, sweep, cleanup, is_expired,
  clear_by_tags, is_tagged, invalidate_old_versions, is_old,
}

-- What is left of an entry that passes the test, or does not.
abbrev swept {ℓ} :
    {V : Type ℓ} → (ℕ → MemoryCacheItem → Bool) → ℕ → Option MemoryCacheItem → Option V → Option V
swept test key none o = o
swept test key (some item) o = if test key item then none else o

-- The entries named by the list are swept from the store and from the versions.
sweep-lookup :
    (test : ℕ → MemoryCacheItem → Bool) (entries : List (ℕ × MemoryCacheItem))
    (s : MemoryCacheBackend) (n key : ℕ)
    → Distinct (keys entries)
    → let s' = (sweep (λ _. test) entries (s, n)).0 in
      (lookup key s'.store ≡ swept test key (lookup key entries) (lookup key s.store))
      × (lookup key s'.versions ≡ swept test key (lookup key entries) (lookup key s.versions))
unfolding sweep lookup delete
sweep-lookup test [] s n key d = (refl, refl)
sweep-lookup test ((j, item) ∷ entries) s n key d = elim (Bool-cases (test j item)) [
  | inl hit ↦ ground (
    arith,
    sweep-lookup test entries (delete s j) (n + 1) key d.1,
    lookup-remove j key s.store,
    lookup-remove j key s.versions,
    lookup-excluded key entries,
  )
  | inr miss ↦ ground (arith, sweep-lookup test entries s n key d.1, lookup-excluded key entries)
]

-- A key that is there has an item that has not expired.
abbrev pub fresh : ℕ → Option MemoryCacheItem → Option MemoryCacheItem
fresh now none = none
fresh now (some item) = if is_expired now item then none else some item

-- A cleanup removes exactly the expired entries, with their versions: what a key holds afterwards is
-- what it held, unless that had expired.
pub cleanup-lookup :
    (s : MemoryCacheBackend) (now key : ℕ)
    → Distinct (keys s.store)
    → let s' = (cleanup s now).0 in
      (lookup key s'.store ≡ fresh now (lookup key s.store))
      × ((item : MemoryCacheItem)
          → lookup key s.store ≡ some item
          → is_expired now item ≡ true
          → lookup key s'.versions ≡ none)
unfolding cleanup
cleanup-lookup s now key d =
    let q = sweep-lookup (λ key item. is_expired now item) s.store s 0 key d in
    (ground (arith, q), λ item h e. ground (arith, q))

-- Clearing by tags removes exactly the entries that have not expired and carry one of the tags.
clear_by_tags-lookup :
    (s : MemoryCacheBackend) (tags : List ℕ) (now key : ℕ)
    → Distinct (keys s.store)
    → (lookup key (clear_by_tags s tags now).0.store ≡ none)
      ⊎ ((item : MemoryCacheItem) × (lookup key s.store ≡ some item)
          × (lookup key (clear_by_tags s tags now).0.store ≡ some item)
          × (is_tagged tags now item ≡ false))
unfolding clear_by_tags
clear_by_tags-lookup s tags now key d = elim (Option-cases (lookup key s.store)) [
  | inl e ↦
      inl (ground (arith, sweep-lookup (λ key item. is_tagged tags now item) s.store s 0 key d))
  | inr (item, e) ↦ elim (Bool-cases (is_tagged tags now item)) [
    | inl t ↦
        inl (ground (arith, sweep-lookup (λ key item. is_tagged tags now item) s.store s 0 key d))
    | inr t ↦ inr (
      item,
      e,
      ground (arith, sweep-lookup (λ key item. is_tagged tags now item) s.store s 0 key d),
      t,
    )
  ]
]

-- The test of `invalidateOldVersions` on the versions before the loop.
abbrev pub is_outdated : (ℕ → Bool) → CacheVersion → MemoryCacheBackend → ℕ → Bool
is_outdated of_job_type current s key =
    of_job_type key && is_old current.schema_version (lookup key s.versions)

invalidate-lookup :
    (of_job_type : ℕ → Bool) (current : CacheVersion) (entries : List (ℕ × MemoryCacheItem))
    (s : MemoryCacheBackend) (n key : ℕ)
    → Distinct (keys entries)
    → lookup key
        (sweep
          (λ s' key item. of_job_type key && is_old current.schema_version (lookup key s'.versions))
          entries
          (s, n)).0.store
      ≡ (if includes (keys entries) key && is_outdated of_job_type current s key
          then none
          else lookup key s.store)
unfolding sweep delete
invalidate-lookup of_job_type current [] s n key d = refl
invalidate-lookup of_job_type current ((j, item) ∷ entries) s n key d =
    elim (Bool-cases (is_outdated of_job_type current s j)) [
      | inl hit ↦ ground (
        arith,
        invalidate-lookup of_job_type current entries (delete s j) (n + 1) key d.1,
        lookup-remove j key s.store,
        lookup-remove j key s.versions,
      )
      | inr miss ↦ ground (arith, invalidate-lookup of_job_type current entries s n key d.1)
    ]

-- Invalidation removes exactly the entries of the job type whose recorded version has another schema:
-- an entry of another type, of the current schema, or with no recorded version stays.
invalidate_old_versions-lookup :
    (of_job_type : ℕ → Bool) (s : MemoryCacheBackend) (current : CacheVersion) (key : ℕ)
    → Distinct (keys s.store)
    → lookup key (invalidate_old_versions of_job_type s current).0.store
      ≡ (if is_outdated of_job_type current s key then none else lookup key s.store)
unfolding invalidate_old_versions
invalidate_old_versions-lookup of_job_type s current key d =
    ground
      (arith, invalidate-lookup of_job_type current s.store s 0 key d, lookup-excluded key s.store)
