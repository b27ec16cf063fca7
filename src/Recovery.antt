-- ===== src/Recovery.antt =====
-- src/auth/session-recovery.service.ts: sessions by which the owner of a wallet gets back in. `wallets` and
-- `users` are the rows of the repositories, `sessions` the map in memory, `challenges` the state of
-- the challenge service. Hashing is a parameter. Addresses and emails are numbers that stand for
-- their lower case; random codes and ids, times, and what ethers recovers from a signature are arguments. A method is one
-- step. The audit, which only logs, and the texts of answers are left out.
pub mod Completion
pub mod Wallets
pub mod Codes
pub mod Tokens
use stell_aiverse_backend.Prelude.{
  ℕ, ◌+◌, ◌*◌, Bool, true, false, ◌&&◌, ◌||◌, List, [], ◌∷◌, Option, none, some, Result, ok, err,
  ltb, leb, ◌==◌, if◌then◌else◌, not, length, includes, keep, map, find_first, lookup, insert,
  remove,
}
use stell_aiverse_backend.Challenges.{
  Challenge, Challenges, Message, issue_challenge_for_address, consume_challenge,
  extract_challenge_id,
}

-- `recovery_codes` is the hashes in `recoveryCodeHash`, which holds them with commas in between.
pub record RecoveryWallet : Type 0 where
  pub wallet_id : ℕ
  pub user_id : ℕ
  pub address : ℕ
  pub is_active : Bool
  pub is_primary : Bool
  pub recovery_enabled : Bool
  pub recovery_codes : List ℕ
  pub last_used_at : Option ℕ

pub record RecoveryUser : Type 0 where
  pub id : ℕ
  pub email : ℕ
  pub email_verified : Bool

pub data Method : Type 0 where
  backup_code : Method
  email_code : Method

pub record RecoverySession : Type 0 where
  pub user_id : ℕ
  pub wallet_id : ℕ
  pub method : Method
  pub method_verified : Bool
  pub expires_at : ℕ
  pub attempts : ℕ
  pub verified : Bool

pub record SessionRecoveryService : Type 0 where
  pub wallets : List RecoveryWallet
  pub users : List RecoveryUser
  pub sessions : List (ℕ × RecoverySession)
  pub challenges : Challenges

pub data RecoveryError : Type 0 where
  wallet_not_found : RecoveryError
  recovery_not_enabled : RecoveryError
  invalid_recovery_code : RecoveryError
  no_such_account : RecoveryError
  no_active_wallet : RecoveryError
  email_not_sent : RecoveryError
  invalid_session : RecoveryError
  invalid_method : RecoveryError
  too_many_attempts : RecoveryError
  invalid_verification_code : RecoveryError
  not_verified : RecoveryError
  invalid_signature : RecoveryError
  signature_mismatch : RecoveryError
  challenge_invalid : RecoveryError

abbrev pub max_attempts : ℕ
max_attempts = 3

abbrev pub session_expiry : ℕ
session_expiry = 900000

-- `this.walletRepository.save(wallet)` on the row that a query found first
unfoldable pub update_first :
    (RecoveryWallet → Bool)
    → (RecoveryWallet → RecoveryWallet)
    → List RecoveryWallet
    → List RecoveryWallet
update_first p f [] = []
update_first p f (w ∷ ws) = let rest = update_first p f ws in if p w then f w ∷ ws else w ∷ rest

abbrev pub is_wallet : ℕ → RecoveryWallet → Bool
is_wallet wallet_id w = w.wallet_id == wallet_id

abbrev pub is_owned : ℕ → ℕ → RecoveryWallet → Bool
is_owned wallet_id user_id w = w.wallet_id == wallet_id && w.user_id == user_id

abbrev pub is_active_at : ℕ → RecoveryWallet → Bool
is_active_at address w = w.address == address && w.is_active

-- `codes` is the ten codes that are drawn; the answer is their hashes.
unfoldable pub generate_backup_codes :
    (ℕ → ℕ)
    → SessionRecoveryService
    → ℕ
    → ℕ
    → List ℕ
    → SessionRecoveryService × Result RecoveryError (List ℕ)
unfolding update_first
generate_backup_codes hash s wallet_id user_id codes =
    elim (find_first (is_owned wallet_id user_id) s.wallets) [
      | none ↦ (s, err wallet_not_found)
      | some w ↦ (
        record s {
          wallets =
              update_first (is_owned wallet_id user_id)
                (λ w. record w { recovery_codes = map hash codes; recovery_enabled = true })
                s.wallets;
        },
        ok (map hash codes),
      )
    ]

abbrev pub without_code : ℕ → RecoveryWallet → RecoveryWallet
without_code hashed w = record w { recovery_codes = keep (λ h. not (h == hashed)) w.recovery_codes }

-- The wallet that was found, its code used up: the session and the challenge.
abbrev pub start_session :
    SessionRecoveryService
    → ℕ
    → ℕ
    → RecoveryWallet
    → ℕ
    → ℕ
    → ℕ
    → SessionRecoveryService × Result RecoveryError Message
start_session s address hashed w session_id challenge_id now =
    let (challenges, message) = issue_challenge_for_address s.challenges address challenge_id now in
    (
      record s {
        wallets = update_first (is_active_at address) (without_code hashed) s.wallets;
        sessions =
            insert session_id
              (record {
                user_id = w.user_id;
                wallet_id = w.wallet_id;
                method = backup_code;
                method_verified = true;
                expires_at = now + session_expiry;
                attempts = 0;
                verified = true;
              })
              s.sessions;
        challenges = challenges;
      },
      ok message,
    )

unfoldable pub initiate_backup_code_recovery :
    (ℕ → ℕ)
    → SessionRecoveryService
    → ℕ
    → ℕ
    → ℕ
    → ℕ
    → ℕ
    → SessionRecoveryService × Result RecoveryError Message
unfolding update_first issue_challenge_for_address
initiate_backup_code_recovery hash s address code session_id challenge_id now =
    elim (find_first (is_active_at address) s.wallets) [
      | none ↦ (s, err recovery_not_enabled)
      | some w ↦
          if not w.recovery_enabled
          then (s, err recovery_not_enabled)
          else if not (includes w.recovery_codes (hash code))
          then (s, err invalid_recovery_code)
          else start_session s address (hash code) w session_id challenge_id now
    ]
