-- ===== src/Scenarios/Recoveries.antt =====
-- src/auth/session-recovery.service.ts: a wallet with two backup codes.
use stell_aiverse_backend.Prelude.{
  ℕ, ◌+◌, ◌≡◌, ◌≢◌, refl, true, List, [], ◌∷◌, none, some, ok, err, lookup, insert,
}
use stell_aiverse_backend.Challenges.{Message}
use stell_aiverse_backend.Recovery.{
  RecoveryWallet, SessionRecoveryService, not_verified, initiate_backup_code_recovery, backup_code,
}
use stell_aiverse_backend.Recovery.Completion.{Token, complete_recovery}
use stell_aiverse_backend.Recovery.Tokens.{IssuedFor, complete_recovery-issued}
use stell_aiverse_backend.Recovery.Codes.{
  Call, starts, completes, verifies, cancels, calls, initiate_backup_code_recovery-once,
}

-- Hashing adds 1000 here.
abbrev hash : ℕ → ℕ
hash code = code + 1000

abbrev wallet : RecoveryWallet
wallet = record {
  wallet_id = 1;
  user_id = 50;
  address = 7;
  is_active = true;
  is_primary = true;
  recovery_enabled = true;
  recovery_codes = 1003 ∷ 1004 ∷ [];
  last_used_at = none;
}

abbrev service : SessionRecoveryService
service = record { wallets = wallet ∷ []; users = []; sessions = []; challenges = [] }

abbrev started : SessionRecoveryService
started = record {
  wallets = record wallet { recovery_codes = 1004 ∷ [] } ∷ [];
  users = [];
  sessions =
      (
        20,
        record {
          user_id = 50;
          wallet_id = 1;
          method = backup_code;
          method_verified = true;
          expires_at = 900100;
          attempts = 0;
          verified = true;
        },
      )
      ∷ [];
  challenges = (30, record { created_at = 100; expires_at = 300100; address = 7 }) ∷ [];
}

abbrev to_sign : Message
to_sign = record { before = 0; challenge = some 30 }

service-started : initiate_backup_code_recovery hash service 7 3 20 30 100 ≡ (started, ok to_sign)
unfolding initiate_backup_code_recovery insert
service-started = refl

abbrev token : Token
token = record { sub = 50; address = 7 }

abbrev series : List (ℕ × Call)
series =
    (200, starts 7 4 21 31)
    ∷ (300, completes 20 to_sign (some 7))
    ∷ (400, verifies 21 true 32)
    ∷ (500, cancels 21)
    ∷ []

complete_recovery-issued_example :
    let s' = (complete_recovery started 20 to_sign (some 7) 500).0 in
    IssuedFor started 20 to_sign (some 7) 500 s' token
    × ((complete_recovery (calls hash s' series) 20 to_sign (some 7) 700).1 ≡ err not_verified)
unfolding complete_recovery lookup
complete_recovery-issued_example =
    complete_recovery-issued hash started 20 to_sign (some 7) 500 token series to_sign (some 7) 700
      refl refl

initiate_backup_code_recovery-once_example :
    (initiate_backup_code_recovery hash
      (calls hash (initiate_backup_code_recovery hash service 7 3 20 30 100).0 series)
      7
      3
      22
      33
      600).1
    ≢ ok to_sign
unfolding initiate_backup_code_recovery
initiate_backup_code_recovery-once_example =
    initiate_backup_code_recovery-once hash service 7 3 20 30 100 to_sign series 3 22 33 600 to_sign
      refl refl
