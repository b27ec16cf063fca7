-- ===== src/Recovery/Completion.antt =====
-- src/auth/session-recovery.service.ts: recovery by email, the end of a recovery, and the calls that a
-- client makes.
use stell_aiverse_backend.Prelude.{
  ℕ, ◌+◌, Bool, true, false, ◌&&◌, Option, none, some, Result, ok, err, ltb, leb, ◌==◌,
  if◌then◌else◌, not, length, find_first, lookup, insert, remove,
}
use stell_aiverse_backend.Challenges.{
  Challenge, Message, issue_challenge_for_address, consume_challenge, extract_challenge_id,
}
use stell_aiverse_backend.Recovery.{
  RecoveryWallet, RecoveryUser, Method, backup_code, email_code, RecoverySession,
  SessionRecoveryService, RecoveryError, wallet_not_found, no_such_account, no_active_wallet,
  email_not_sent, invalid_session, invalid_method, too_many_attempts, invalid_verification_code,
  not_verified, invalid_signature, signature_mismatch, challenge_invalid, max_attempts,
  session_expiry, update_first, is_wallet, is_owned,
}

abbrev pub is_account : ℕ → RecoveryUser → Bool
is_account email u = u.email == email && u.email_verified

abbrev pub is_primary_of : ℕ → RecoveryWallet → Bool
is_primary_of user_id w = w.user_id == user_id && (w.is_primary && w.is_active)

abbrev pub email_session : RecoveryUser → RecoveryWallet → ℕ → RecoverySession
email_session u w now = record {
  user_id = u.id;
  wallet_id = w.wallet_id;
  method = email_code;
  method_verified = false;
  expires_at = now + session_expiry;
  attempts = 0;
  verified = false;
}

-- `is_sent` tells whether the email service, which is awaited, sends the code.
unfoldable pub initiate_email_recovery :
    SessionRecoveryService → ℕ → ℕ → Bool → ℕ → SessionRecoveryService × Result RecoveryError ℕ
initiate_email_recovery s email session_id is_sent now =
    elim (find_first (is_account email) s.users) [
      | none ↦ (s, err no_such_account)
      | some u ↦ elim (find_first (is_primary_of u.id) s.wallets) [
        | none ↦ (s, err no_active_wallet)
        | some w ↦ (
          record s { sessions = insert session_id (email_session u w now) s.sessions },
          if is_sent then ok session_id else err email_not_sent,
        )
      ]
    ]

abbrev pub live_session :
    SessionRecoveryService
    → ℕ
    → ℕ
    → Option RecoverySession
    → SessionRecoveryService × Option RecoverySession
live_session s session_id now none = (s, none)
live_session s session_id now (some r) =
    if ltb r.expires_at now
    then (record s { sessions = remove session_id s.sessions }, none)
    else (s, some r)

unfoldable pub get_valid_session :
    SessionRecoveryService → ℕ → ℕ → SessionRecoveryService × Option RecoverySession
get_valid_session s session_id now = live_session s session_id now (lookup session_id s.sessions)

abbrev pub is_by_email : Method → Bool
is_by_email email_code = true
is_by_email backup_code = false

abbrev pub with_session : SessionRecoveryService → ℕ → RecoverySession → SessionRecoveryService
with_session s session_id r = record s { sessions = insert session_id r s.sessions }

abbrev pub counted : RecoverySession → RecoverySession
counted r = record r { attempts = r.attempts + 1 }

abbrev pub confirmed : RecoverySession → RecoverySession
confirmed r = record r { attempts = r.attempts + 1; verified = true; method_verified = true }

-- The challenge for the session's wallet, once the session is verified.
abbrev pub challenge_wallet :
    SessionRecoveryService
    → Option RecoveryWallet
    → ℕ
    → ℕ
    → SessionRecoveryService × Result RecoveryError Message
challenge_wallet s none challenge_id now = (s, err wallet_not_found)
challenge_wallet s (some w) challenge_id now =
    let (challenges, message) =
      issue_challenge_for_address s.challenges w.address challenge_id now in
    (record s { challenges = challenges }, ok message)

-- `is_six_digits` is what `verifyRecoveryCode` finds out about the code.
unfoldable pub verify_session :
    SessionRecoveryService
    → ℕ
    → Bool
    → ℕ
    → ℕ
    → RecoverySession
    → SessionRecoveryService × Result RecoveryError Message
unfolding issue_challenge_for_address
verify_session s session_id is_six_digits challenge_id now r =
    if not (is_by_email r.method)
    then (s, err invalid_method)
    else if leb max_attempts r.attempts
    then (record s { sessions = remove session_id s.sessions }, err too_many_attempts)
    else if not is_six_digits
    then (with_session s session_id (counted r), err invalid_verification_code)
    else challenge_wallet (with_session s session_id (confirmed r))
        (find_first (is_wallet r.wallet_id) s.wallets) challenge_id now

abbrev pub verify_live :
    ℕ
    → Bool
    → ℕ
    → ℕ
    → SessionRecoveryService × Option RecoverySession
    → SessionRecoveryService × Result RecoveryError Message
verify_live session_id is_six_digits challenge_id now (s, none) = (s, err invalid_session)
verify_live session_id is_six_digits challenge_id now (s, some r) =
    verify_session s session_id is_six_digits challenge_id now r

unfoldable pub verify_email_recovery_code :
    SessionRecoveryService
    → ℕ
    → Bool
    → ℕ
    → ℕ
    → SessionRecoveryService × Result RecoveryError Message
unfolding get_valid_session
verify_email_recovery_code s session_id is_six_digits challenge_id now =
    verify_live session_id is_six_digits challenge_id now (get_valid_session s session_id now)

-- The token's subject and address.
pub record Token : Type 0 where
  pub sub : ℕ
  pub address : ℕ

abbrev pub mark_used : ℕ → RecoveryWallet → RecoveryWallet
mark_used now w = record w { last_used_at = some now }

abbrev pub issue_token :
    SessionRecoveryService
    → ℕ
    → ℕ
    → RecoveryWallet
    → Option Challenge
    → SessionRecoveryService × Result RecoveryError Token
issue_token s session_id now w none = (s, err challenge_invalid)
issue_token s session_id now w (some c) = (
  record s {
    wallets = update_first (is_wallet w.wallet_id) (mark_used now) s.wallets;
    sessions = remove session_id s.sessions;
  },
  ok (record { sub = w.user_id; address = w.address }),
)

-- `signer` is the address that ethers recovers from the signature of the message, `none` where it throws.
abbrev pub complete_signed :
    SessionRecoveryService
    → ℕ
    → Message
    → Option ℕ
    → ℕ
    → RecoveryWallet
    → SessionRecoveryService × Result RecoveryError Token
complete_signed s session_id message none now w = (s, err invalid_signature)
complete_signed s session_id message (some signer) now w =
    if not (signer == w.address)
    then (s, err signature_mismatch)
    else let (challenges, c) = consume_challenge s.challenges (extract_challenge_id message) now in
      issue_token (record s { challenges = challenges }) session_id now w c

abbrev pub complete_wallet :
    SessionRecoveryService
    → ℕ
    → Message
    → Option ℕ
    → ℕ
    → Option RecoveryWallet
    → SessionRecoveryService × Result RecoveryError Token
complete_wallet s session_id message signer now none = (s, err wallet_not_found)
complete_wallet s session_id message signer now (some w) =
    complete_signed s session_id message signer now w

abbrev pub complete_live :
    ℕ
    → Message
    → Option ℕ
    → ℕ
    → SessionRecoveryService × Option RecoverySession
    → SessionRecoveryService × Result RecoveryError Token
complete_live session_id message signer now (s, none) = (s, err not_verified)
complete_live session_id message signer now (s, some r) =
    if not r.verified
    then (s, err not_verified)
    else complete_wallet s session_id message signer now
        (find_first (is_wallet r.wallet_id) s.wallets)

unfoldable pub complete_recovery :
    SessionRecoveryService
    → ℕ
    → Message
    → Option ℕ
    → ℕ
    → SessionRecoveryService × Result RecoveryError Token
unfolding get_valid_session consume_challenge update_first
complete_recovery s session_id message signer now =
    complete_live session_id message signer now (get_valid_session s session_id now)

unfoldable pub cancel_recovery : SessionRecoveryService → ℕ → SessionRecoveryService
cancel_recovery s session_id = record s { sessions = remove session_id s.sessions }

pub record RecoveryStatus : Type 0 where
  pub recovery_enabled : Bool
  pub remaining_codes : ℕ
  pub by_code : Bool
  pub by_email : Bool

abbrev pub has_verified_email : Option RecoveryUser → Bool
has_verified_email none = false
has_verified_email (some u) = u.email_verified

unfoldable pub get_recovery_status :
    SessionRecoveryService → ℕ → ℕ → Result RecoveryError RecoveryStatus
get_recovery_status s wallet_id user_id = elim (find_first (is_owned wallet_id user_id) s.wallets) [
  | none ↦ err wallet_not_found
  | some w ↦ ok (record {
    recovery_enabled = w.recovery_enabled;
    remaining_codes = length w.recovery_codes;
    by_code = w.recovery_enabled;
    by_email = has_verified_email (find_first (λ u. u.id == user_id) s.users);
  })
]
