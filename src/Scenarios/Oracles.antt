-- ===== src/Scenarios/Oracles.antt =====
-- src/oracle/services/nonce-management.service.ts: an address whose next nonce is 4.
use stell_aiverse_backend.Prelude.{
  lookup, insert, remove, ℕ, ◌≡◌, refl, true, List, [], ◌∷◌, none, arith,
}
use stell_aiverse_backend.Nonces.{
  NonceManagementService, set_nonce, row_nonce, get_and_increment_nonce, validate_nonce,
  fetch_nonce, fill_cache,
}
use stell_aiverse_backend.Nonces.Transactions.{
  Step, begins, commits, fetches, fills, sets, cleans, issued,
}
use stell_aiverse_backend.Nonces.Issues.{CountsFrom, at_rest, issued-CountsFrom}
use stell_aiverse_backend.Nonces.Replay.{validate_nonce-replay}

abbrev service : NonceManagementService
service = record { table = (1, record { nonce = 4; last_used_at = none }) ∷ []; nonce_cache = [] }

-- Two transactions for address 1 meet, and two for address 2, which has no row yet; the nonce of address
-- 3 is set meanwhile.
abbrev schedule : List (ℕ × Step)
schedule =
    (1, begins 10 1)
    ∷ (2, begins 11 1)
    ∷ (3, begins 20 2)
    ∷ (4, begins 21 2)
    ∷ (5, sets 3 8)
    ∷ (6, fetches 1)
    ∷ (7, commits 10)
    ∷ (8, fills 1 4)
    ∷ (9, commits 20)
    ∷ (10, commits 21)
    ∷ (11, cleans)
    ∷ (12, begins 11 1)
    ∷ (13, commits 11)
    ∷ []

schedule-issued : issued (at_rest service) schedule ≡ (1, 4) ∷ (2, 0) ∷ (1, 5) ∷ []
unfolding issued lookup insert remove set_nonce
schedule-issued = refl

issued-CountsFrom_example :
    CountsFrom 1 (row_nonce (lookup 1 service.table)) (issued (at_rest service) schedule)
issued-CountsFrom_example = issued-CountsFrom service 1 schedule refl

validate_nonce-replay_example :
    let (s₁, n) = fetch_nonce service 1 in
    let (s₂, used) = get_and_increment_nonce s₁ 1 10 in
    (used ≡ n) × ((validate_nonce (fill_cache s₂ 1 n 11) 1 used 30).1 ≡ true)
validate_nonce-replay_example = validate_nonce-replay service 1 10 11 30 (omega arith)
