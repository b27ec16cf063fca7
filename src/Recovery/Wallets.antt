-- ===== src/Recovery/Wallets.antt =====
-- src/auth/session-recovery.service.ts: what the methods do to the codes of wallets.
use stell_aiverse_backend.Prelude.{
  ℕ, ◌≡◌, refl, inl, inr, Bool, true, false, List, [], ◌∷◌, Option, none, some, ◌==◌, if◌then◌else◌,
  not, includes, keep, arith, find_first, Bool-cases,
}
use stell_aiverse_backend.Challenges.{Message, Challenge, consume_challenge, extract_challenge_id}
use stell_aiverse_backend.Recovery.{
  RecoveryWallet, RecoverySession, SessionRecoveryService, update_first, is_wallet, is_active_at,
  without_code,
}
use stell_aiverse_backend.Recovery.Completion.{
  verify_session, verify_live, live_session, challenge_wallet, complete_live, complete_wallet,
  complete_signed, issue_token, mark_used, confirmed, with_session,
}

-- The active wallet with the address, if there is one, has no code with the hash.
abbrev pub is_spent : ℕ → ℕ → List RecoveryWallet → Bool
is_spent address hashed [] = true
is_spent address hashed (w ∷ ws) =
    if is_active_at address w
    then not (includes w.recovery_codes hashed)
    else is_spent address hashed ws

-- A change that keeps the address and whether the wallet is active, and adds no code.
abbrev pub Harmless : (RecoveryWallet → RecoveryWallet) → Type 0
Harmless f =
    (w : RecoveryWallet)
    → ((f w).address ≡ w.address)
      × ((f w).is_active ≡ w.is_active)
      × ((h : ℕ) → includes w.recovery_codes h ≡ false → includes (f w).recovery_codes h ≡ false)

includes-keep :
    (hashed h : ℕ) (codes : List ℕ)
    → includes codes h ≡ false
    → includes (keep (λ c. not (c == hashed)) codes) h ≡ false
includes-keep hashed h [] e = refl
includes-keep hashed h (c ∷ codes) e = ground (arith, includes-keep hashed h codes)

includes-keep_self :
    (hashed : ℕ) (codes : List ℕ) → includes (keep (λ c. not (c == hashed)) codes) hashed ≡ false
includes-keep_self hashed [] = refl
includes-keep_self hashed (c ∷ codes) = ground (arith, includes-keep_self hashed codes)

pub without_code-Harmless : (hashed : ℕ) → Harmless (without_code hashed)
without_code-Harmless hashed w = (refl, refl, λ h e. includes-keep hashed h w.recovery_codes e)

mark_used-Harmless : (now : ℕ) → Harmless (mark_used now)
mark_used-Harmless now w = (refl, refl, λ h e. e)

pub is_spent-update_first :
    (address hashed : ℕ) (p : RecoveryWallet → Bool) (f : RecoveryWallet → RecoveryWallet)
    (ws : List RecoveryWallet)
    → Harmless f
    → is_spent address hashed ws ≡ true
    → is_spent address hashed (update_first p f ws) ≡ true
unfolding update_first
is_spent-update_first address hashed p f [] m h = refl
is_spent-update_first address hashed p f (w ∷ ws) m h = elim (Bool-cases (p w)) [
  | inl hit ↦ rw (hit, (m w).0, (m w).1) (ground (arith, (m w).2 hashed))
  | inr miss ↦ ground (arith, is_spent-update_first address hashed p f ws m)
]

pub is_spent-without_code :
    (address hashed : ℕ) (ws : List RecoveryWallet)
    → is_spent address hashed (update_first (is_active_at address) (without_code hashed) ws) ≡ true
unfolding update_first
is_spent-without_code address hashed [] = refl
is_spent-without_code address hashed (w ∷ ws) =
    ground
      (arith, includes-keep_self hashed w.recovery_codes, is_spent-without_code address hashed ws)

pub live_session-wallets :
    (s : SessionRecoveryService) (i now : ℕ) (o : Option RecoverySession)
    → (live_session s i now o).0.wallets ≡ s.wallets
live_session-wallets s i now none = refl
live_session-wallets s i now (some r) = ground arith

challenge_wallet-wallets :
    (s : SessionRecoveryService) (o : Option RecoveryWallet) (c now : ℕ)
    → (challenge_wallet s o c now).0.wallets ≡ s.wallets
challenge_wallet-wallets s none c now = refl
challenge_wallet-wallets s (some w) c now = refl

verify_session-wallets :
    (s : SessionRecoveryService) (i : ℕ) (six : Bool) (c now : ℕ) (r : RecoverySession)
    → (verify_session s i six c now r).0.wallets ≡ s.wallets
unfolding verify_session
verify_session-wallets s i six c now r = ground (
  arith,
  challenge_wallet-wallets (with_session s i (confirmed r))
      (find_first (is_wallet r.wallet_id) s.wallets) c now,
)

pub verify_live-wallets :
    (i : ℕ) (six : Bool) (c now : ℕ) (p : SessionRecoveryService × Option RecoverySession)
    → (verify_live i six c now p).0.wallets ≡ p.0.wallets
verify_live-wallets i six c now (s, none) = refl
verify_live-wallets i six c now (s, some r) = verify_session-wallets s i six c now r

issue_token-Spent :
    (a h : ℕ) (s : SessionRecoveryService) (i now : ℕ) (w : RecoveryWallet) (o : Option Challenge)
    → is_spent a h s.wallets ≡ true
    → is_spent a h (issue_token s i now w o).0.wallets ≡ true
issue_token-Spent a h s i now w none e = e
issue_token-Spent a h s i now w (some c) e =
    is_spent-update_first a h (is_wallet w.wallet_id) (mark_used now) s.wallets
      (mark_used-Harmless now) e

complete_signed-Spent :
    (a h : ℕ) (s : SessionRecoveryService) (i : ℕ) (m : Message) (signer : Option ℕ) (now : ℕ)
    (w : RecoveryWallet)
    → is_spent a h s.wallets ≡ true
    → is_spent a h (complete_signed s i m signer now w).0.wallets ≡ true
complete_signed-Spent a h s i m none now w e = e
complete_signed-Spent a h s i m (some signer) now w e = elim (Bool-cases (signer == w.address)) [
  | inr other ↦ rw other e
  | inl same ↦
      let (challenges, c) = consume_challenge s.challenges (extract_challenge_id m) now in
      rw same (issue_token-Spent a h (record s { challenges = challenges }) i now w c e)
]

complete_wallet-Spent :
    (a h : ℕ) (s : SessionRecoveryService) (i : ℕ) (m : Message) (signer : Option ℕ) (now : ℕ)
    (o : Option RecoveryWallet)
    → is_spent a h s.wallets ≡ true
    → is_spent a h (complete_wallet s i m signer now o).0.wallets ≡ true
complete_wallet-Spent a h s i m signer now none e = e
complete_wallet-Spent a h s i m signer now (some w) e =
    complete_signed-Spent a h s i m signer now w e

pub complete_live-Spent :
    (a h i now : ℕ) (m : Message) (signer : Option ℕ)
    (p : SessionRecoveryService × Option RecoverySession)
    → is_spent a h p.0.wallets ≡ true
    → is_spent a h (complete_live i m signer now p).0.wallets ≡ true
complete_live-Spent a h i now m signer (s, none) e = e
complete_live-Spent a h i now m signer (s, some r) e = elim (Bool-cases r.verified) [
  | inr unverified ↦ rw unverified e
  | inl done ↦
      rw done (
        complete_wallet-Spent a h s i m signer now (find_first (is_wallet r.wallet_id) s.wallets) e)
]
