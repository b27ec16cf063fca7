-- ===== src/Scenarios/Delegations.antt =====
-- src/auth/delegation.service.ts: a wallet 5 and a delegate. The signature of a challenge, by the
-- delegator's address 11, is its nonce.
use stell_aiverse_backend.Prelude.{
  Bool, ◌&&◌, ℕ, ◌≡◌, ◌≢◌, ◌+◌, ◌<◌, ◌≤◌, ◌↔◌, ◌⊎◌, ◌==◌, if◌then◌else◌, refl, true, false, List,
  [], ◌∷◌, Option, none, some, arith, ok, err,
}
use stell_aiverse_backend.Delegation.{
  Wallet, WalletStatus, WalletType, DelegationPermission, DelegationRequest, DelegationStatus,
  Requested, Challenge, generate_delegation_challenge, sign_messages, sign_transactions, delegated,
  primary, secondary, active, authenticate, read_data, pending, unlinked, request_delegation,
  complete_delegation, revoke_delegation, verify_delegation_permission, get_delegation_status,
  is_past, is_foreign, permissions_of, max_duration, created_wallet, invalid_signature,
  signature_mismatch, delegation_not_active,
}
use stell_aiverse_backend.Delegation.Authority.{
  Holds, Signs, request_delegation-ok, verify_delegation_permission-valid_iff,
  revoke_delegation-final, complete_delegation-refused,
}

abbrev lower : ℕ → ℕ
lower address = address

is_read_only : List DelegationPermission → Bool
is_read_only (read_data ∷ []) = true
is_read_only _ = false

is_read_only_lem : (ps : List DelegationPermission) → is_read_only ps ≡ true → ps ≡ read_data ∷ []
unfolding is_read_only
is_read_only_lem [] h = ground arith
is_read_only_lem (read_data ∷ []) h = refl
is_read_only_lem (sign_messages ∷ ps) h = ground arith
is_read_only_lem (sign_transactions ∷ ps) h = ground arith
is_read_only_lem (authenticate ∷ ps) h = ground arith
is_read_only_lem (read_data ∷ p ∷ ps) h = ground arith

-- Only the challenges of wallet 5 are ever signed.
abbrev recover : Challenge → ℕ → Option ℕ
recover c signature =
    if c.delegator_address == 11
      && c.delegate_address == 11
      && c.expires_at == 500
      && c.nonce == signature
      && is_read_only c.permissions
    then some 11
    else none

abbrev wallet : WalletType → WalletStatus → Wallet
wallet type_ status = record {
  id = 5;
  address = 11;
  user_id = 1;
  type_ = type_;
  status = status;
  is_primary = false;
  delegated_by_id = some 4;
  delegation_expires_at = some 500;
  delegation_permissions = some (read_data ∷ []);
  verified_at = none;
  verification_signature = none;
}

abbrev request : DelegationRequest
request = record {
  delegator_wallet_id = 5;
  delegate_address = 22;
  permissions = read_data ∷ [];
  expires_at = 500;
}

abbrev granted : Requested
granted = record {
  challenge = generate_delegation_challenge 11 22 (read_data ∷ []) 500 77;
  created = some (created_wallet 6 22 1 (wallet secondary active) request);
}

request-granted :
    request_delegation lower recover 1 request (some (wallet secondary active)) none 6 77 100
    ≡ ok granted
unfolding request_delegation
request-granted = refl

request_delegation-ok_example :
    (d : Wallet) × (some (wallet secondary active) ≡ some d)
    × ((d.is_primary ≡ true) ⊎ (d.type_ ≡ secondary))
    × (is_foreign 1 none ≡ false)
    × (request.permissions ≢ [])
    × (100 < request.expires_at)
    × (request.expires_at ≤ 100 + max_duration)
    × ((w : Wallet)
        → granted.created ≡ some w
        → (w.status ≡ pending)
          × (w.type_ ≡ delegated)
          × (w.user_id ≡ 1)
          × (w.delegated_by_id ≡ some d.id))
request_delegation-ok_example =
    request_delegation-ok lower recover 1 request (some (wallet secondary active)) none 6 77 100
      granted request-granted

verify_delegation_permission-valid_iff_example :
    let v = verify_delegation_permission (some (wallet delegated active)) authenticate 100 in
    ((v.valid ≡ true) ↔ (
      (w : Wallet) × (some (wallet delegated active) ≡ some w)
      × (is_past 100 w.delegation_expires_at ≡ false)
      × Holds authenticate (permissions_of w)))
    × ((s : Wallet)
        → (v.saved ≡ some s) ↔ (
            (w : Wallet) × (some (wallet delegated active) ≡ some w)
            × (is_past 100 w.delegation_expires_at ≡ true)
            × (s ≡ record w { status = unlinked })))
verify_delegation_permission-valid_iff_example =
    verify_delegation_permission-valid_iff (some (wallet delegated active)) authenticate 100

active-revoked :
    revoke_delegation (some (wallet delegated active)) ≡ ok (wallet delegated WalletStatus.revoked)
unfolding revoke_delegation
active-revoked = refl

revoke_delegation-final_example :
    ((v : Wallet) × (some (wallet delegated active) ≡ some v)
      × (v.status ≡ active)
      × (wallet delegated WalletStatus.revoked ≡ record v { status = WalletStatus.revoked }))
    × (revoke_delegation (some (wallet delegated WalletStatus.revoked)) ≡ err delegation_not_active)
    × (get_delegation_status (wallet delegated WalletStatus.revoked) 900 ≡ DelegationStatus.revoked)
revoke_delegation-final_example =
    revoke_delegation-final (some (wallet delegated active)) (wallet delegated WalletStatus.revoked)
      900 active-revoked

abbrev signed : Challenge
signed = generate_delegation_challenge 11 11 (read_data ∷ []) 500 77

signed-Signs : Signs lower recover 11 signed 77
unfolding generate_delegation_challenge is_read_only
signed-Signs = (refl, λ other a h e. ground (arith, is_read_only_lem other.permissions))

complete_delegation-refused_example :
    (complete_delegation lower recover
        (some (wallet delegated pending))
        (some (wallet primary active))
        77
        78
        100
      ≡ err invalid_signature)
    ⊎ (complete_delegation lower recover
          (some (wallet delegated pending))
          (some (wallet primary active))
          77
          78
          100
        ≡ err signature_mismatch)
complete_delegation-refused_example =
    complete_delegation-refused lower recover (wallet delegated pending) (wallet primary active) 77
      500 77 78 100 refl signed-Signs (λ e. ground arith)
