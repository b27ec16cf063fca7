-- ===== src/Challenges.antt =====
-- src/auth/challenge.service.ts: challenges that wallets sign. Addresses are numbers that stand for
-- their lower case, the random id of a challenge is an argument, and so is the time.
use stell_aiverse_backend.Prelude.{
  ℕ, ◌+◌, List, Option, none, some, ltb, if◌then◌else◌, lookup, insert, remove,
}

-- A text to sign: what follows the first `Sign this message to authenticate: ` on its last line, if
-- there is such a text and it is not empty, and the text before it.
pub record Message : Type 0 where
  pub before : ℕ
  pub challenge : Option ℕ

pub record Challenge : Type 0 where
  pub created_at : ℕ
  pub expires_at : ℕ
  pub address : ℕ

abbrev pub challenge_expiration : ℕ
challenge_expiration = 300000

-- `challenges`, by id
abbrev pub Challenges : Type 0
Challenges = List (ℕ × Challenge)

unfoldable pub issue_challenge_for_address : Challenges → ℕ → ℕ → ℕ → Challenges × Message
issue_challenge_for_address s address id now = (
  insert id
      (record { created_at = now; expires_at = now + challenge_expiration; address = address }) s,
  record { before = 0; challenge = some id },
)

abbrev pub unless_expired : Challenges → ℕ → ℕ → Option Challenge → Challenges × Option Challenge
unless_expired s id now none = (s, none)
unless_expired s id now (some c) = if ltb c.expires_at now then (remove id s, none) else (s, some c)

unfoldable pub get_challenge : Challenges → ℕ → ℕ → Challenges × Option Challenge
get_challenge s id now = unless_expired s id now (lookup id s)

abbrev pub taken_out : ℕ → Challenges × Option Challenge → Challenges × Option Challenge
taken_out id (s, none) = (s, none)
taken_out id (s, some c) = (remove id s, some c)

unfoldable pub consume_challenge : Challenges → Option ℕ → ℕ → Challenges × Option Challenge
unfolding get_challenge
consume_challenge s none now = (s, none)
consume_challenge s (some id) now = taken_out id (get_challenge s id now)

abbrev pub extract_challenge_id : Message → Option ℕ
extract_challenge_id m = m.challenge
