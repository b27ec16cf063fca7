-- ===== src/Nonces/Replay.antt =====
-- src/oracle/services/nonce-management.service.ts: what the cache does to validation.
use stell_aiverse_backend.Prelude.{
  ℕ, ◌+◌, ◌-◌, ◌<◌, ◌≡◌, true, some, arith, lookup, lookup-insert, lookup-insert_self,
  lookup-remove_self,
}
use stell_aiverse_backend.Nonces.{
  NonceManagementService, row_nonce, fetch_nonce, fill_cache, get_current_nonce,
  get_and_increment_nonce, validate_nonce, cached_nonce, cache_ttl, SubmissionNonce,
}

-- With no other call in between, an issued nonce is used up: right after it has been issued,
-- validation accepts the next one and no other.
validate_nonce-increment :
    (s : NonceManagementService) (a n now later : ℕ)
    → let (s', k) = get_and_increment_nonce s a now in
      ((validate_nonce s' a n later).1 ≡ true → n ≡ k + 1)
      × ((validate_nonce s' a (k + 1) later).1 ≡ true)
unfolding validate_nonce get_current_nonce cached_nonce fetch_nonce get_and_increment_nonce
validate_nonce-increment s a n now later =
    let k = row_nonce (lookup a s.table) in
    let row : SubmissionNonce = record { nonce = k + 1; last_used_at = some now } in
    (
      (λ h. ground (arith, lookup-remove_self a s.nonce_cache, lookup-insert_self a row s.table)),
      ground (arith, lookup-remove_self a s.nonce_cache, lookup-insert_self a row s.table),
    )

fetch_nonce-row :
    (s : NonceManagementService) (a : ℕ)
    → row_nonce (lookup a (fetch_nonce s a).0.table) ≡ (fetch_nonce s a).1
unfolding fetch_nonce
fetch_nonce-row s a = grind (arith, lookup-insert)

validate_nonce-filled :
    (s : NonceManagementService) (a n k t t' : ℕ)
    → t' - t < cache_ttl
    → k ≡ n
    → (validate_nonce (fill_cache s a n t) a k t').1 ≡ true
unfolding validate_nonce get_current_nonce cached_nonce fill_cache
validate_nonce-filled s a n k t t' h e =
    ground (arith, lookup-insert_self a (record { nonce = n; last_fetch = t }) s.nonce_cache)

-- A used nonce can be accepted again. When a read of the current nonce is awaited while that nonce is
-- issued, its cache write comes last, and for the cache's time to live validation accepts the nonce
-- that has been issued.
pub validate_nonce-replay :
    (s : NonceManagementService) (a t₁ t₂ t₃ : ℕ)
    → t₃ - t₂ < cache_ttl
    → let (s₁, n) = fetch_nonce s a in
      let (s₂, used) = get_and_increment_nonce s₁ a t₁ in
      (used ≡ n) × ((validate_nonce (fill_cache s₂ a n t₂) a used t₃).1 ≡ true)
unfolding get_and_increment_nonce
validate_nonce-replay s a t₁ t₂ t₃ h = (
  fetch_nonce-row s a,
  validate_nonce-filled (get_and_increment_nonce (fetch_nonce s a).0 a t₁).0 a (fetch_nonce s a).1 _
      t₂ t₃ h (fetch_nonce-row s a),
)
