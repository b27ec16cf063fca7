-- ===== src/Recovery/Codes.antt =====
-- src/auth/session-recovery.service.ts: what becomes of a backup code over a series of calls.
use stell_aiverse_backend.Prelude.{
  ℕ, ◌≡◌, inl, inr, Bool, true, false, List, [], ◌∷◌, Option, some, Result, ok, err, includes,
  arith, find_first, lookup, Bool-cases, Option-cases, ◌∙◌, ◌≢◌,
}
use stell_aiverse_backend.Challenges.{Message}
use stell_aiverse_backend.Recovery.{
  RecoveryWallet, SessionRecoveryService, RecoveryError, is_active_at, without_code,
  initiate_backup_code_recovery,
}
use stell_aiverse_backend.Recovery.Completion.{
  initiate_email_recovery, verify_email_recovery_code, get_valid_session, complete_recovery,
  cancel_recovery, is_account, is_primary_of,
}
use stell_aiverse_backend.Recovery.Wallets.{
  is_spent, without_code-Harmless, is_spent-update_first, is_spent-without_code,
  live_session-wallets, verify_live-wallets, complete_live-Spent,
}

refused : (e : RecoveryError) (m : Message) → Path (Result RecoveryError Message) (err e) (ok m) → ⊥
refused e m h = ground arith

-- The calls of a client, other than generating new codes.
pub data Call : Type 0 where
  starts : ℕ → ℕ → ℕ → ℕ → Call
  emails : ℕ → ℕ → Bool → Call
  verifies : ℕ → Bool → ℕ → Call
  completes : ℕ → Message → Option ℕ → Call
  cancels : ℕ → Call

module _ (hash : ℕ → ℕ) where
  -- The service after a call, whether or not it throws.
  unfoldable pub call : SessionRecoveryService → ℕ → Call → SessionRecoveryService
  unfolding initiate_backup_code_recovery initiate_email_recovery verify_email_recovery_code
      complete_recovery cancel_recovery
  call s now (starts address code session_id challenge_id) =
      (initiate_backup_code_recovery hash s address code session_id challenge_id now).0
  call s now (emails email session_id is_sent) =
      (initiate_email_recovery s email session_id is_sent now).0
  call s now (verifies session_id is_six_digits challenge_id) =
      (verify_email_recovery_code s session_id is_six_digits challenge_id now).0
  call s now (completes session_id message signer) =
      (complete_recovery s session_id message signer now).0
  call s now (cancels session_id) = cancel_recovery s session_id

  unfoldable pub calls : SessionRecoveryService → List (ℕ × Call) → SessionRecoveryService
  unfolding call
  calls s [] = s
  calls s ((now, c) ∷ cs) = calls (call s now c) cs

  Spent : ℕ → ℕ → SessionRecoveryService → Type 0
  Spent address hashed s = is_spent address hashed s.wallets ≡ true

  initiate_backup_code_recovery-Spent :
      (s : SessionRecoveryService) (a h address code i c now : ℕ)
      → Spent a h s
      → Spent a h (initiate_backup_code_recovery hash s address code i c now).0
  unfolding initiate_backup_code_recovery Spent
  initiate_backup_code_recovery-Spent s a h address code i c now e =
      elim (Option-cases (find_first (is_active_at address) s.wallets)) [
        | inl missing ↦ rw (initiate_backup_code_recovery, missing) e
        | inr (w, found) ↦ elim (Bool-cases w.recovery_enabled) [
          | inr disabled ↦ rw (initiate_backup_code_recovery, found, disabled) e
          | inl enabled ↦ elim (Bool-cases (includes w.recovery_codes (hash code))) [
            | inr wrong ↦ rw (initiate_backup_code_recovery, found, enabled, wrong) e
            | inl right ↦
                rw (initiate_backup_code_recovery, found, enabled, right)
                  (is_spent-update_first a h (is_active_at address) (without_code (hash code))
                    s.wallets (without_code-Harmless (hash code)) e)
          ]
        ]
      ]

  initiate_email_recovery-Spent :
      (s : SessionRecoveryService) (a h email i now : ℕ) (sent : Bool)
      → Spent a h s
      → Spent a h (initiate_email_recovery s email i sent now).0
  unfolding initiate_email_recovery Spent
  initiate_email_recovery-Spent s a h email i now sent e =
      elim (Option-cases (find_first (is_account email) s.users)) [
        | inl nobody ↦ rw (initiate_email_recovery, nobody) e
        | inr (u, found) ↦ elim (Option-cases (find_first (is_primary_of u.id) s.wallets)) [
          | inl missing ↦ rw (initiate_email_recovery, found, missing) e
          | inr (w, primary) ↦ rw (initiate_email_recovery, found, primary) e
        ]
      ]

  verify_email_recovery_code-Spent :
      (s : SessionRecoveryService) (a h i c now : ℕ) (six : Bool)
      → Spent a h s
      → Spent a h (verify_email_recovery_code s i six c now).0
  unfolding verify_email_recovery_code get_valid_session Spent
  verify_email_recovery_code-Spent s a h i c now six e =
      let same =
        verify_live-wallets i six c now (get_valid_session s i now)
        ∙ live_session-wallets s i now (lookup i s.sessions) in
      rw (verify_email_recovery_code, same) e

  complete_recovery-Spent :
      (s : SessionRecoveryService) (a h i now : ℕ) (m : Message) (signer : Option ℕ)
      → Spent a h s
      → Spent a h (complete_recovery s i m signer now).0
  unfolding complete_recovery get_valid_session Spent
  complete_recovery-Spent s a h i now m signer e =
      complete_live-Spent a h i now m signer (get_valid_session s i now)
        (rw (live_session-wallets s i now (lookup i s.sessions)) e)

  call-Spent :
      (s : SessionRecoveryService) (a h now : ℕ) (c : Call) → Spent a h s → Spent a h (call s now c)
  unfolding call cancel_recovery Spent
  call-Spent s a h now (starts address code i c) e =
      initiate_backup_code_recovery-Spent s a h address code i c now e
  call-Spent s a h now (emails email i sent) e =
      initiate_email_recovery-Spent s a h email i now sent e
  call-Spent s a h now (verifies i six c) e = verify_email_recovery_code-Spent s a h i c now six e
  call-Spent s a h now (completes i m signer) e = complete_recovery-Spent s a h i now m signer e
  call-Spent s a h now (cancels i) e = e

  calls-Spent :
      (s : SessionRecoveryService) (a h : ℕ) (cs : List (ℕ × Call))
      → Spent a h s
      → Spent a h (calls s cs)
  unfolding calls
  calls-Spent s a h [] e = e
  calls-Spent s a h ((now, c) ∷ cs) e = calls-Spent (call s now c) a h cs (call-Spent s a h now c e)

  spent-find :
      (a h : ℕ) (ws : List RecoveryWallet) (w : RecoveryWallet)
      → is_spent a h ws ≡ true
      → find_first (is_active_at a) ws ≡ some w
      → includes w.recovery_codes h ≡ false
  spent-find a h [] w e f = absurd (ground arith)
  spent-find a h (v ∷ ws) w e f = elim (Bool-cases (is_active_at a v)) [
    | inl hit ↦
        let found = rw hit at f in
        let left = rw hit at e in
        let same : v ≡ w = ground arith in
        let out : includes v.recovery_codes h ≡ false = ground arith in rw same at out
    | inr miss ↦ spent-find a h ws w (rw miss at e) (rw miss at f)
  ]

  Spent-refused :
      (s : SessionRecoveryService) (a code i c now : ℕ) (m : Message)
      → Spent a (hash code) s
      → (initiate_backup_code_recovery hash s a code i c now).1 ≢ ok m
  unfolding initiate_backup_code_recovery Spent
  Spent-refused s a code i c now m e h =
      elim (Option-cases (find_first (is_active_at a) s.wallets)) [
        | inl missing ↦ refused _ m (rw (initiate_backup_code_recovery, missing) at h)
        | inr (w, found) ↦ elim (Bool-cases w.recovery_enabled) [
          | inr disabled ↦ refused _ m (rw (initiate_backup_code_recovery, found, disabled) at h)
          | inl enabled ↦
              let wrong = spent-find a (hash code) s.wallets w e found in
              refused _ m (rw (initiate_backup_code_recovery, found, enabled, wrong) at h)
        ]
      ]

  started-Spent :
      (s : SessionRecoveryService) (a code i c now : ℕ) (m : Message)
      → (initiate_backup_code_recovery hash s a code i c now).1 ≡ ok m
      → Spent a (hash code) (initiate_backup_code_recovery hash s a code i c now).0
  unfolding initiate_backup_code_recovery Spent
  started-Spent s a code i c now m h = elim (Option-cases (find_first (is_active_at a) s.wallets)) [
    | inl missing ↦ absurd (refused _ m (rw (initiate_backup_code_recovery, missing) at h))
    | inr (w, found) ↦ elim (Bool-cases w.recovery_enabled) [
      | inr disabled ↦
          absurd (refused _ m (rw (initiate_backup_code_recovery, found, disabled) at h))
      | inl enabled ↦ elim (Bool-cases (includes w.recovery_codes (hash code))) [
        | inr wrong ↦
            absurd (refused _ m (rw (initiate_backup_code_recovery, found, enabled, wrong) at h))
        | inl right ↦
            rw (initiate_backup_code_recovery, found, enabled, right)
              (is_spent-without_code a (hash code) s.wallets)
      ]
    ]
  ]

  -- A backup code starts one recovery of a wallet only: once it has, no code with its hash starts another
  -- at that address, whatever calls follow, unless new codes are generated.
  pub initiate_backup_code_recovery-once :
      (s : SessionRecoveryService) (address code i c now : ℕ) (m : Message) (cs : List (ℕ × Call))
      (again i' c' later : ℕ) (m' : Message)
      → (initiate_backup_code_recovery hash s address code i c now).1 ≡ ok m
      → hash again ≡ hash code
      → (initiate_backup_code_recovery hash
          (calls (initiate_backup_code_recovery hash s address code i c now).0 cs)
          address
          again
          i'
          c'
          later).1
        ≢ ok m'
  initiate_backup_code_recovery-once s address code i c now m cs again i' c' later m' h e =
      let t = (initiate_backup_code_recovery hash s address code i c now).0 in
      let spent = calls-Spent t address (hash code) cs (started-Spent s address code i c now m h) in
      Spent-refused (calls t cs) address again i' c' later m' (rw e spent)
