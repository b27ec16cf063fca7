-- ===== src/Delegation/Authority.antt =====
-- src/auth/delegation.service.ts: who holds delegated authority, when, and how a delegation is
-- completed.
use stell_aiverse_backend.Prelude.{
  ℕ, ◌+◌, ◌≤◌, ◌<◌, ◌≡◌, ◌≢◌, ◌↔◌, refl, sym, ap, inl, inr, ◌⊎◌, true, false, List, [], ◌∷◌, Option,
  none, some, arith, ◌==◌, Bool-cases, Option-cases, any, ok, err,
}
use stell_aiverse_backend.Delegation.{
  Wallet, WalletStatus, active, pending, unlinked, secondary, delegated, DelegationPermission,
  DelegationRequest, DelegationStatus, Requested, Challenge, generate_delegation_challenge,
  invalid_signature, signature_mismatch, is_foreign, is_past, same_permission, max_duration,
  permissions_of, request_delegation, complete_delegation, revoke_delegation,
  verify_delegation_permission, get_delegation_status, delegation_not_active,
}

-- A request is granted only to a primary or secondary wallet, for at least one permission, for a time
-- that is to come and at most 90 days away, and for an address that no other user has. A wallet that
-- it creates is a pending delegated wallet of the user, delegated by that wallet.
pub request_delegation-ok :
    (lower : ℕ → ℕ) (recover : Challenge → ℕ → Option ℕ) (user : ℕ) (request : DelegationRequest)
    (delegator existing : Option Wallet) (new_id nonce now : ℕ) (r : Requested)
    → request_delegation lower recover user request delegator existing new_id nonce now ≡ ok r
    → (d : Wallet) × (delegator ≡ some d)
      × ((d.is_primary ≡ true) ⊎ (d.type_ ≡ secondary))
      × (is_foreign user existing ≡ false)
      × (request.permissions ≢ [])
      × (now < request.expires_at)
      × (request.expires_at ≤ now + max_duration)
      × ((w : Wallet)
          → r.created ≡ some w
          → (w.status ≡ pending)
            × (w.type_ ≡ delegated)
            × (w.user_id ≡ user)
            × (w.delegated_by_id ≡ some d.id))
unfolding request_delegation
request_delegation-ok lower recover user request none existing new_id nonce now r h =
    absurd (ground arith)
request_delegation-ok lower recover user request (some d) existing new_id nonce now r h = (
  d,
  refl,
  ground arith,
  ground arith,
  ground arith,
  ground arith,
  ground arith,
  λ w e. ground arith,
)

-- The permission is one of the list.
abbrev pub Holds : DelegationPermission → List DelegationPermission → Type 0
Holds p [] = ⊥
Holds p (q ∷ qs) = (p ≡ q) ⊎ Holds p qs

same_permission_iff : (p q : DelegationPermission) → (same_permission p q ≡ true) ↔ (p ≡ q)
unfolding same_permission
same_permission_iff p q = (λ h. ground arith, λ e. ground arith)

any-Holds :
    (p : DelegationPermission) (qs : List DelegationPermission)
    → (any (same_permission p) qs ≡ true) ↔ Holds p qs
any-Holds p [] = (λ h. absurd (ground arith), λ h. absurd h)
any-Holds p (q ∷ qs) = (
  λ h. elim (Bool-cases (same_permission p q)) [
    | inl e ↦ inl ((same_permission_iff p q).0 e)
    | inr e ↦ inr ((any-Holds p qs).0 (ground arith))
  ],
  λ h. elim h [
    | inl e ↦ ground (arith, (same_permission_iff p q).1 e)
    | inr m ↦ ground (arith, (any-Holds p qs).1 m)
  ],
)

-- A permission is confirmed exactly when there is an active delegated wallet with the address, its
-- delegation has not run out, and the permission is among those granted. A wallet is saved exactly when
-- there is one whose delegation has run out, and it is saved as unlinked.
pub verify_delegation_permission-valid_iff :
    (found : Option Wallet) (required : DelegationPermission) (now : ℕ)
    → let v = verify_delegation_permission found required now in
      ((v.valid ≡ true) ↔ (
        (w : Wallet) × (found ≡ some w)
        × (is_past now w.delegation_expires_at ≡ false)
        × Holds required (permissions_of w)))
      × ((s : Wallet)
          → (v.saved ≡ some s) ↔ (
              (w : Wallet) × (found ≡ some w)
              × (is_past now w.delegation_expires_at ≡ true)
              × (s ≡ record w { status = unlinked })))
unfolding verify_delegation_permission
verify_delegation_permission-valid_iff none required now = (
  (λ h. absurd (ground arith), λ (w, e, p, a). absurd (ground arith)),
  λ s. (λ h. absurd (ground arith), λ (w, e, p, u). absurd (ground arith)),
)
verify_delegation_permission-valid_iff (some w) required now = (
  (
    λ h. (w, refl, ground arith, (any-Holds required (permissions_of w)).0 (ground arith)),
    λ (w', e, p, a). ground (arith, (any-Holds required (permissions_of w')).1 a),
  ),
  λ s. (λ h. (w, refl, ground arith, ground arith), λ (w', e, p, u). ground arith),
)

-- A revoked delegation stays revoked: it can be revoked once, only while active, and from then on its
-- status is "revoked", whatever the time, and it cannot be revoked again.
pub revoke_delegation-final :
    (found : Option Wallet) (w : Wallet) (now : ℕ)
    → revoke_delegation found ≡ ok w
    → ((v : Wallet) × (found ≡ some v)
        × (v.status ≡ active)
        × (w ≡ record v { status = WalletStatus.revoked }))
      × (revoke_delegation (some w) ≡ err delegation_not_active)
      × (get_delegation_status w now ≡ DelegationStatus.revoked)
unfolding revoke_delegation get_delegation_status
revoke_delegation-final none w now h = absurd (ground arith)
revoke_delegation-final (some v) w now h =
    ((v, refl, ground arith, ground arith), ground arith, ground arith)

-- What the service relies on of signatures: `signature` is that of `message` by `address`, so the
-- library recovers `address` from it with that message and with no other.
abbrev pub Signs : (ℕ → ℕ) → (Challenge → ℕ → Option ℕ) → ℕ → Challenge → ℕ → Type 0
Signs lower recover address message signature =
    (recover message signature ≡ some address)
    × ((other : Challenge) (a : ℕ)
        → recover other signature ≡ some a
        → lower a ≡ lower address
        → other ≡ message)

-- The challenge held against the signature has a nonce of its own: the delegator's signature of the
-- wallet's challenge with one nonce, the one handed out, is refused whenever the nonce drawn on
-- completion is another, if the wallet has the expiry that requestDelegation gives it.
pub complete_delegation-refused :
    (lower : ℕ → ℕ) (recover : Challenge → ℕ → Option ℕ) (w d : Wallet)
    (signature expires_at nonce nonce' now : ℕ)
    → w.delegation_expires_at ≡ some expires_at
    → Signs lower recover d.address
        (generate_delegation_challenge d.address w.address (permissions_of w) expires_at nonce)
        signature
    → nonce ≢ nonce'
    → (complete_delegation lower recover (some w) (some d) signature nonce' now
        ≡ err invalid_signature)
      ⊎ (complete_delegation lower recover (some w) (some d) signature nonce' now
          ≡ err signature_mismatch)
unfolding complete_delegation generate_delegation_challenge
complete_delegation-refused lower recover w d signature expires_at nonce nonce' now x signs differ =
    elim (Option-cases (recover challenge signature)) [
      | inl e ↦ inl (ground (arith, x, e))
      | inr (a, e) ↦ elim (Bool-cases (lower a == lower d.address)) [
        | inl same ↦
            absurd (
              differ (sym (ap (λ (c : Challenge). c.nonce) (signs.1 challenge a e (ground arith)))))
        | inr other ↦ inr (ground (arith, x, e, other))
      ]
    ]
  where
    challenge : Challenge
    challenge =
        generate_delegation_challenge d.address w.address (permissions_of w) expires_at nonce'
