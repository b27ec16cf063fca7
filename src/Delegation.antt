-- ===== src/Delegation.antt =====
-- src/auth/delegation.service.ts: delegation of signing authority between wallets. The database is
-- not modelled: what a query gives is an argument, what is saved is a result. Ids, addresses and texts
-- are numbers; `lower` stands for `toLowerCase` on addresses and `recover` for the signature library's
-- `verifyMessage` (`none` where it throws). The text of a challenge is the record of the values that
-- its template prints. Times, ids and random nonces are arguments.
pub mod Authority
use stell_aiverse_backend.Prelude.{
  ℕ, ◌+◌, ◌*◌, ◌≡◌, Bool, true, false, ◌&&◌, ◌||◌, List, [], ◌∷◌, map, Option, none, some, ltb, leb,
  ◌==◌, if◌then◌else◌, not, any, Result, ok, err, ◌>>=◌, ◌>>◌, throw_if, or_throw,
}

pub data WalletStatus : Type 0 where
  active pending unlinked revoked : WalletStatus

pub data WalletType : Type 0 where
  primary secondary hardware delegated : WalletType

pub data DelegationPermission : Type 0 where
  sign_messages sign_transactions authenticate read_data : DelegationPermission

pub record Wallet : Type 0 where
  pub id : ℕ
  pub address : ℕ
  pub user_id : ℕ
  pub type_ : WalletType
  pub status : WalletStatus
  pub is_primary : Bool
  pub delegated_by_id : Option ℕ
  pub delegation_expires_at : Option ℕ
  pub delegation_permissions : Option (List DelegationPermission)
  pub verified_at : Option ℕ
  pub verification_signature : Option ℕ

pub record DelegationRequest : Type 0 where
  pub delegator_wallet_id : ℕ
  pub delegate_address : ℕ
  pub permissions : List DelegationPermission
  pub expires_at : ℕ

pub data DelegationStatus : Type 0 where
  active expired revoked : DelegationStatus

pub record DelegationRecord : Type 0 where
  pub id : ℕ
  pub delegator_wallet_id : Option ℕ
  pub delegate_wallet_id : ℕ
  pub permissions : List DelegationPermission
  pub granted_at : Option ℕ
  pub expires_at : Option ℕ
  pub revoked_at : Option ℕ
  pub status : DelegationStatus

pub data DelegationError : Type 0 where
  delegator_not_found only_primary_or_secondary linked_to_another no_permission : DelegationError
  not_in_future exceeds_90_days pending_not_found delegator_wallet_not_found : DelegationError
  invalid_signature signature_mismatch delegation_not_found delegation_not_active : DelegationError
  wallet_not_found no_expiry : DelegationError

is_type : WalletType → WalletType → Bool
is_type primary primary = true
is_type secondary secondary = true
is_type hardware hardware = true
is_type delegated delegated = true
is_type _ _ = false

is_status : WalletStatus → WalletStatus → Bool
is_status WalletStatus.active WalletStatus.active = true
is_status pending pending = true
is_status unlinked unlinked = true
is_status WalletStatus.revoked WalletStatus.revoked = true
is_status _ _ = false

unfoldable pub same_permission : DelegationPermission → DelegationPermission → Bool
same_permission sign_messages sign_messages = true
same_permission sign_transactions sign_transactions = true
same_permission authenticate authenticate = true
same_permission read_data read_data = true
same_permission _ _ = false

abbrev is_empty : List DelegationPermission → Bool
is_empty [] = true
is_empty (p ∷ ps) = false

-- `existingWallet && existingWallet.userId !== delegatorUserId`
abbrev pub is_foreign : ℕ → Option Wallet → Bool
is_foreign user none = false
is_foreign user (some w) = not (w.user_id == user)

abbrev pub max_duration : ℕ
max_duration = 90 * 24 * 60 * 60 * 1000

-- What the template of `generateDelegationChallenge` prints.
pub record Challenge : Type 0 where
  pub delegator_address : ℕ
  pub delegate_address : ℕ
  pub permissions : List DelegationPermission
  pub expires_at : ℕ
  pub nonce : ℕ

unfoldable pub generate_delegation_challenge : ℕ → ℕ → List DelegationPermission → ℕ → ℕ → Challenge
generate_delegation_challenge delegator_address delegate_address permissions expires_at nonce =
    record {
      delegator_address = delegator_address;
      delegate_address = delegate_address;
      permissions = permissions;
      expires_at = expires_at;
      nonce = nonce;
    }

-- The answer to a request: the challenge to sign, and the wallet that was created, if any.
pub record Requested : Type 0 where
  pub challenge : Challenge
  pub created : Option Wallet

-- The new wallet of `walletRepository.create`.
unfoldable pub created_wallet : ℕ → ℕ → ℕ → Wallet → DelegationRequest → Wallet
created_wallet new_id address user delegator request = record {
  id = new_id;
  address = address;
  user_id = user;
  type_ = delegated;
  status = pending;
  is_primary = false;
  delegated_by_id = some delegator.id;
  delegation_expires_at = some request.expires_at;
  delegation_permissions = some request.permissions;
  verified_at = none;
  verification_signature = none;
}

-- `wallet.delegationPermissions || []`
abbrev pub permissions_of : Wallet → List DelegationPermission
permissions_of w = elim w.delegation_permissions [ none ↦ [] | some ps ↦ ps ]

module _ (lower : ℕ → ℕ) (recover : Challenge → ℕ → Option ℕ) where
  -- `delegator` is the user's active wallet of the request's id, `existing` the wallet with the
  -- delegate's address.
  unfoldable pub request_delegation :
      ℕ
      → DelegationRequest
      → Option Wallet
      → Option Wallet
      → ℕ
      → ℕ
      → ℕ
      → Result DelegationError Requested
  unfolding is_type created_wallet generate_delegation_challenge
  request_delegation user request delegator existing new_id nonce now = do
    d ← or_throw delegator delegator_not_found
    throw_if (not d.is_primary && not (is_type d.type_ secondary)) only_primary_or_secondary
    throw_if (is_foreign user existing) linked_to_another
    throw_if (is_empty request.permissions) no_permission
    throw_if (leb request.expires_at now) not_in_future
    throw_if (ltb (now + max_duration) request.expires_at) exceeds_90_days
    let address = lower request.delegate_address
    ok (record {
      challenge =
          generate_delegation_challenge d.address address request.permissions request.expires_at
            nonce;
      created = elim existing [
        | some w ↦ none
        | none ↦ some (created_wallet new_id address user d request)
      ];
    })

  -- `delegate` is the user's pending delegated wallet of the id, `delegator` the wallet that it names;
  -- `nonce` is drawn anew for the challenge that the signature is held against.
  unfoldable pub complete_delegation :
      Option Wallet → Option Wallet → ℕ → ℕ → ℕ → Result DelegationError (Wallet × DelegationRecord)
  unfolding generate_delegation_challenge
  complete_delegation delegate delegator signature nonce now = do
    w ← or_throw delegate pending_not_found
    d ← or_throw delegator delegator_wallet_not_found
    expires_at ← or_throw w.delegation_expires_at no_expiry
    let challenge =
        generate_delegation_challenge d.address w.address (permissions_of w) expires_at nonce
    address ← or_throw (recover challenge signature) invalid_signature
    throw_if (not (lower address == lower d.address)) signature_mismatch
    ok (
      record w {
        status = WalletStatus.active;
        verified_at = some now;
        verification_signature = some signature;
      },
      record {
        id = w.id;
        delegator_wallet_id = some d.id;
        delegate_wallet_id = w.id;
        permissions = permissions_of w;
        granted_at = some now;
        expires_at = w.delegation_expires_at;
        revoked_at = none;
        status = DelegationStatus.active;
      },
    )

-- `found` is the user's delegated wallet of the id.
unfoldable pub revoke_delegation : Option Wallet → Result DelegationError Wallet
unfolding is_status
revoke_delegation found = do
  w ← or_throw found delegation_not_found
  throw_if (not (is_status w.status WalletStatus.active)) delegation_not_active
  ok (record w { status = WalletStatus.revoked })

-- `wallet.delegationExpiresAt && wallet.delegationExpiresAt < new Date()`
abbrev pub is_past : ℕ → Option ℕ → Bool
is_past now none = false
is_past now (some t) = ltb t now

unfoldable pub get_delegation_status : Wallet → ℕ → DelegationStatus
unfolding is_status
get_delegation_status w now =
    if is_status w.status WalletStatus.revoked
    then DelegationStatus.revoked
    else if is_past now w.delegation_expires_at
    then expired
    else if is_status w.status WalletStatus.active
    then DelegationStatus.active
    else expired

-- The entry of a delegated wallet in the lists of `getUserDelegations` and `getWalletDelegations`.
unfoldable pub delegation_record : ℕ → Wallet → DelegationRecord
unfolding get_delegation_status is_status
delegation_record now w = record {
  id = w.id;
  delegator_wallet_id = w.delegated_by_id;
  delegate_wallet_id = w.id;
  permissions = permissions_of w;
  granted_at = w.verified_at;
  expires_at = w.delegation_expires_at;
  revoked_at = if is_status w.status WalletStatus.revoked then some now else none;
  status = get_delegation_status w now;
}

-- `granted` is the user's delegated wallets; the second list is always empty.
unfoldable pub get_user_delegations :
    List Wallet → ℕ → List DelegationRecord × List DelegationRecord
unfolding delegation_record
get_user_delegations granted now = (map (delegation_record now) granted, [])

-- `wallet` is the user's wallet of the id, `found` the wallets delegated by it.
unfoldable pub get_wallet_delegations :
    Option Wallet → List Wallet → ℕ → Result DelegationError (List DelegationRecord)
unfolding delegation_record
get_wallet_delegations wallet found now = do
  w ← or_throw wallet wallet_not_found
  ok (map (λ v. record (delegation_record now v) { delegator_wallet_id = some w.id }) found)

-- The answer, and the wallet that is saved where the delegation has run out.
pub record Verified : Type 0 where
  pub valid : Bool
  pub delegator_wallet_id : Option ℕ
  pub permissions : Option (List DelegationPermission)
  pub expires_at : Option ℕ
  pub saved : Option Wallet

abbrev not_valid : Verified
not_valid = record {
  valid = false;
  delegator_wallet_id = none;
  permissions = none;
  expires_at = none;
  saved = none;
}

-- `found` is the active delegated wallet with the address.
unfoldable pub verify_delegation_permission : Option Wallet → DelegationPermission → ℕ → Verified
unfolding same_permission
verify_delegation_permission none required now = not_valid
verify_delegation_permission (some w) required now =
    let permissions = permissions_of w in
    if is_past now w.delegation_expires_at
    then record not_valid { saved = some (record w { status = unlinked }) }
    else if not (any (same_permission required) permissions)
    then record not_valid {
      delegator_wallet_id = w.delegated_by_id;
      permissions = some permissions;
    }
    else record {
      valid = true;
      delegator_wallet_id = w.delegated_by_id;
      permissions = some permissions;
      expires_at = w.delegation_expires_at;
      saved = none;
    }

-- `found` is the active delegated wallets that have run out: the wallets saved, and their number.
unfoldable pub cleanup_expired_delegations : List Wallet → List Wallet
cleanup_expired_delegations [] = []
cleanup_expired_delegations (w ∷ found) =
    record w { status = unlinked } ∷ cleanup_expired_delegations found
