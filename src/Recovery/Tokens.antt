-- ===== src/Recovery/Tokens.antt =====
-- src/auth/session-recovery.service.ts: when the end of a recovery issues a token.
use stell_aiverse_backend.Prelude.{
  Bool, false, not, List, [], ◌∷◌, all, lookup-insert, lookup-remove, insert, remove, ℕ, ◌≤◌, ◌≡◌,
  refl, sym, inl, inr, ap, true, Option, none, some, Result, ok, err, ltb, ◌==◌, ==_iff, arith,
  find_first, lookup, lookup-remove_self, Bool-cases, Option-cases,
}
use stell_aiverse_backend.Challenges.{Challenge, Message, consume_challenge, extract_challenge_id}
use stell_aiverse_backend.Recovery.{
  RecoveryWallet, RecoverySession, SessionRecoveryService, RecoveryError, not_verified, is_wallet,
  initiate_backup_code_recovery,
}
use stell_aiverse_backend.Recovery.Completion.{
  initiate_email_recovery, verify_email_recovery_code, cancel_recovery, verify_live, verify_session,
  complete_wallet, counted, confirmed, Token, complete_signed, complete_live, complete_recovery,
  live_session, get_valid_session,
}
use stell_aiverse_backend.Recovery.Codes.{
  Call, starts, emails, verifies, completes, cancels, call, calls,
}

-- What holds when a token is issued for the wallet.
abbrev pub Issued :
    SessionRecoveryService
    → ℕ
    → Message
    → Option ℕ
    → ℕ
    → RecoveryWallet
    → SessionRecoveryService
    → Token
    → Type 0
Issued s session_id message signer now w s' t =
    (signer ≡ some w.address)
    × (t.sub ≡ w.user_id)
    × (t.address ≡ w.address)
    × (lookup session_id s'.sessions ≡ none)
    × ((c : Challenge) × ((consume_challenge s.challenges (extract_challenge_id message) now).1
          ≡ some c))

refused : (e : RecoveryError) (t : Token) → Path (Result RecoveryError Token) (err e) (ok t) → ⊥
refused e t h = ground arith

ok-eq : (a t : Token) → Path (Result RecoveryError Token) (ok a) (ok t) → a ≡ t
ok-eq a t h = ground arith

complete_signed-Issued :
    (s : SessionRecoveryService) (session_id : ℕ) (message : Message) (signer : Option ℕ) (now : ℕ)
    (w : RecoveryWallet) (t : Token)
    → (complete_signed s session_id message signer now w).1 ≡ ok t
    → Issued s session_id message signer now w
        (complete_signed s session_id message signer now w).0
        t
complete_signed-Issued s id m none now w t h = absurd (ground arith)
complete_signed-Issued s id m (some signer) now w t h = elim (Bool-cases (signer == w.address)) [
  | inr other ↦ absurd (refused _ _ (rw other at h))
  | inl same ↦
      let e : signer ≡ w.address = (==_iff signer w.address).0 same in
      elim (Option-cases (consume_challenge s.challenges (extract_challenge_id m) now).1) [
        | inl missing ↦ absurd (refused _ _ (rw (same, missing) at h))
        | inr (c, found) ↦
            let made =
              ok-eq (record { sub = w.user_id; address = w.address }) t (rw (same, found) at h) in
            (
              ap some e,
              ap (λ x. x.sub) (sym made),
              ap (λ x. x.address) (sym made),
              rw (same, found) (lookup-remove_self id s.sessions),
              (c, found),
            )
      ]
]

-- The session and the wallet for which the token is issued.
abbrev pub IssuedFor :
    SessionRecoveryService → ℕ → Message → Option ℕ → ℕ → SessionRecoveryService → Token → Type 0
IssuedFor s session_id message signer now s' t =
    (r : RecoverySession) × (w : RecoveryWallet) × (lookup session_id s.sessions ≡ some r)
    × (now ≤ r.expires_at)
    × (r.verified ≡ true)
    × (find_first (is_wallet r.wallet_id) s.wallets ≡ some w)
    × Issued s session_id message signer now w s' t

complete_live-IssuedFor :
    (s : SessionRecoveryService) (session_id : ℕ) (message : Message) (signer : Option ℕ) (now : ℕ)
    (o : Option RecoverySession) (t : Token)
    → lookup session_id s.sessions ≡ o
    → (complete_live session_id message signer now (live_session s session_id now o)).1 ≡ ok t
    → IssuedFor s session_id message signer now
        (complete_live session_id message signer now (live_session s session_id now o)).0
        t
complete_live-IssuedFor s id m signer now none t l h = absurd (refused _ _ h)
complete_live-IssuedFor s id m signer now (some r) t l h =
    elim (Bool-cases (ltb r.expires_at now)) [
      | inl late ↦ absurd (refused _ _ (rw late at h))
      | inr live ↦ elim (Bool-cases r.verified) [
        | inr unverified ↦ absurd (refused _ _ (rw (live, unverified) at h))
        | inl verified ↦ elim (Option-cases (find_first (is_wallet r.wallet_id) s.wallets)) [
          | inl missing ↦ absurd (refused _ _ (rw (live, verified, missing) at h))
          | inr (w, found) ↦
              let signed = rw (live, verified, found) at h in
              rw (live, verified, found)
                (
                  r,
                  w,
                  l,
                  ground arith,
                  verified,
                  found,
                  complete_signed-Issued s id m signer now w t signed,
                )
        ]
      ]
    ]

complete_recovery-gone :
    (s : SessionRecoveryService) (session_id : ℕ) (message : Message) (signer : Option ℕ) (now : ℕ)
    → lookup session_id s.sessions ≡ none
    → (complete_recovery s session_id message signer now).1 ≡ err not_verified
unfolding complete_recovery get_valid_session
complete_recovery-gone s id m signer now h = rw (complete_recovery, get_valid_session, h) refl

complete_recovery-IssuedFor :
    (s : SessionRecoveryService) (session_id : ℕ) (message : Message) (signer : Option ℕ) (now : ℕ)
    (t : Token)
    → (complete_recovery s session_id message signer now).1 ≡ ok t
    → IssuedFor s session_id message signer now
        (complete_recovery s session_id message signer now).0
        t
unfolding complete_recovery get_valid_session
complete_recovery-IssuedFor s id m signer now t h =
    complete_live-IssuedFor s id m signer now (lookup id s.sessions) t refl h

-- The call starts no session with the id.
abbrev pub is_no_start : ℕ → Call → Bool
is_no_start session_id (starts address code id challenge_id) = not (id == session_id)
is_no_start session_id (emails email id is_sent) = not (id == session_id)
is_no_start session_id (verifies id is_six_digits challenge_id) = true
is_no_start session_id (completes id message signer) = true
is_no_start session_id (cancels id) = true

-- There is no session with the id.
Gone : ℕ → SessionRecoveryService → Type 0
Gone session_id s = lookup session_id s.sessions ≡ none

module _ (session_id : ℕ) where
  initiate_backup_code_recovery-Gone :
      (hash : ℕ → ℕ) (s : SessionRecoveryService) (address code i c now : ℕ)
      → (i == session_id) ≡ false
      → Gone session_id s
      → Gone session_id (initiate_backup_code_recovery hash s address code i c now).0
  unfolding initiate_backup_code_recovery Gone
  initiate_backup_code_recovery-Gone hash s address code i c now d g = grind (arith, lookup-insert)

  initiate_email_recovery-Gone :
      (s : SessionRecoveryService) (email i now : ℕ) (sent : Bool)
      → (i == session_id) ≡ false
      → Gone session_id s
      → Gone session_id (initiate_email_recovery s email i sent now).0
  unfolding initiate_email_recovery Gone
  initiate_email_recovery-Gone s email i now sent d g = grind (arith, lookup-insert)

  cancel_recovery-Gone :
      (s : SessionRecoveryService) (i : ℕ)
      → Gone session_id s
      → Gone session_id (cancel_recovery s i)
  unfolding cancel_recovery Gone
  cancel_recovery-Gone s i g = grind (arith, lookup-remove)

  -- A session is kept out by a change of another one.
  Gone-insert :
      (s : SessionRecoveryService) (i : ℕ) (r : RecoverySession)
      → (i == session_id) ≡ false
      → Gone session_id s
      → lookup session_id (insert i r s.sessions) ≡ none
  unfolding Gone
  Gone-insert s i r d g = ground (arith, lookup-insert i session_id r s.sessions)

  Gone-remove :
      (s : SessionRecoveryService) (i : ℕ)
      → Gone session_id s
      → lookup session_id (remove i s.sessions) ≡ none
  unfolding Gone
  Gone-remove s i g = ground (arith, lookup-remove i session_id s.sessions)

  verify_session-Gone :
      (s : SessionRecoveryService) (i c now : ℕ) (six : Bool) (r : RecoverySession)
      → (i == session_id) ≡ false
      → Gone session_id s
      → Gone session_id (verify_session s i six c now r).0
  unfolding verify_session Gone
  verify_session-Gone s i c now six r d g =
      ground (
        arith,
        Gone-insert s i (counted r) d g,
        Gone-insert s i (confirmed r) d g,
        Gone-remove s i g,
      )

  -- Only a session that is there changes.
  verify_live-Gone :
      (s : SessionRecoveryService) (i c now : ℕ) (six : Bool) (o : Option RecoverySession)
      → lookup i s.sessions ≡ o
      → Gone session_id s
      → Gone session_id (verify_live i six c now (live_session s i now o)).0
  unfolding Gone
  verify_live-Gone s i c now six none l g = g
  verify_live-Gone s i c now six (some r) l g = elim (Bool-cases (i == session_id)) [
    | inl same ↦
        absurd (ground (arith, ap (λ j. lookup j s.sessions) ((==_iff i session_id).0 same)))
    | inr d ↦ elim (Bool-cases (ltb r.expires_at now)) [
      | inl late ↦ rw late (Gone-remove s i g)
      | inr live ↦ rw live (verify_session-Gone s i c now six r d g)
    ]
  ]

  complete_wallet-Gone :
      (s : SessionRecoveryService) (i now : ℕ) (m : Message) (signer : Option ℕ)
      (o : Option RecoveryWallet)
      → Gone session_id s
      → Gone session_id (complete_wallet s i m signer now o).0
  unfolding Gone
  complete_wallet-Gone s i now m signer none g = g
  complete_wallet-Gone s i now m none (some w) g = g
  complete_wallet-Gone s i now m (some by) (some w) g = elim (Bool-cases (by == w.address)) [
    | inr other ↦ rw other g
    | inl same ↦
        elim (Option-cases (consume_challenge s.challenges (extract_challenge_id m) now).1) [
          | inl missing ↦ rw (same, missing) g
          | inr (c, found) ↦ rw (same, found) (Gone-remove s i g)
        ]
  ]

  complete_live-Gone :
      (s : SessionRecoveryService) (i now : ℕ) (m : Message) (signer : Option ℕ)
      (o : Option RecoverySession)
      → Gone session_id s
      → Gone session_id (complete_live i m signer now (live_session s i now o)).0
  unfolding Gone
  complete_live-Gone s i now m signer none g = g
  complete_live-Gone s i now m signer (some r) g = elim (Bool-cases (ltb r.expires_at now)) [
    | inl late ↦ rw late (Gone-remove s i g)
    | inr live ↦ elim (Bool-cases r.verified) [
      | inr unverified ↦ rw (live, unverified) g
      | inl verified ↦
          rw (live, verified)
            (complete_wallet-Gone s i now m signer (find_first (is_wallet r.wallet_id) s.wallets) g)
    ]
  ]

  call-Gone :
      (hash : ℕ → ℕ) (s : SessionRecoveryService) (now : ℕ) (c : Call)
      → is_no_start session_id c ≡ true
      → Gone session_id s
      → Gone session_id (call hash s now c)
  unfolding call verify_email_recovery_code complete_recovery get_valid_session
  call-Gone hash s now (starts address code i c) d g =
      initiate_backup_code_recovery-Gone hash s address code i c now (ground arith) g
  call-Gone hash s now (emails email i sent) d g =
      initiate_email_recovery-Gone s email i now sent (ground arith) g
  call-Gone hash s now (verifies i six c) d g =
      verify_live-Gone s i c now six (lookup i s.sessions) refl g
  call-Gone hash s now (completes i m signer) d g =
      complete_live-Gone s i now m signer (lookup i s.sessions) g
  call-Gone hash s now (cancels i) d g = cancel_recovery-Gone s i g

  calls-Gone :
      (hash : ℕ → ℕ) (s : SessionRecoveryService) (cs : List (ℕ × Call))
      → all (λ c. is_no_start session_id c.1) cs ≡ true
      → Gone session_id s
      → Gone session_id (calls hash s cs)
  unfolding calls
  calls-Gone hash s [] n g = g
  calls-Gone hash s ((now, c) ∷ cs) n g =
      calls-Gone hash (call hash s now c) cs (ground arith)
        (call-Gone hash s now c (ground arith) g)

-- A token is issued only for a session that is there, not expired and verified, to the signer of the
-- message, who is the session's wallet, and with a challenge that is valid; it names that wallet and
-- its owner. The session is over then: after any further calls, other than generating codes, of which
-- none starts a session with its id, no other token is issued for it.
pub complete_recovery-issued :
    (hash : ℕ → ℕ) (s : SessionRecoveryService) (session_id : ℕ) (message : Message)
    (signer : Option ℕ) (now : ℕ) (t : Token) (cs : List (ℕ × Call)) (again : Message)
    (by : Option ℕ) (later : ℕ)
    → (complete_recovery s session_id message signer now).1 ≡ ok t
    → all (λ c. is_no_start session_id c.1) cs ≡ true
    → let s' = (complete_recovery s session_id message signer now).0 in
      IssuedFor s session_id message signer now s' t
      × ((complete_recovery (calls hash s' cs) session_id again by later).1 ≡ err not_verified)
complete_recovery-issued hash s id m signer now t cs again by later h n =
    let f = complete_recovery-IssuedFor s id m signer now t h in
    let s' = (complete_recovery s id m signer now).0 in
    (
      f,
      complete_recovery-gone (calls hash s' cs) id again by later
          (unfold Gone in calls-Gone id hash s' cs n f.6.3),
    )
