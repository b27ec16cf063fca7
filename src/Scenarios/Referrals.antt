-- ===== src/Scenarios/Referrals.antt =====
-- src/referral/reward.service.ts: user 7, brought in by user 3, registers twice.
use stell_aiverse_backend.Prelude.{
  if◌then◌else◌, all, true, ℕ, ◌≡◌, List, [], ◌∷◌, lookup, none, some, ◌==◌,
}
use stell_aiverse_backend.ReferralRewards.{
  Payout, recorded, unrecorded, RewardTrigger, registration, first_transaction, referrer, referee,
  ReferralReward, Users,
}
use stell_aiverse_backend.ReferralRewards.Once.{granted, handle_triggers-granted}
use stell_aiverse_backend.ReferralRewards.Statuses.{handle_triggers, is_settled}

abbrev users : Users
users = (3, none) ∷ (7, some 3) ∷ []

-- The second entry of the audit log is refused.
abbrev payout : ReferralReward → Payout
payout r = if r.id == 1 then unrecorded else recorded

abbrev calls : List (RewardTrigger × ℕ)
calls = (registration, 3) ∷ (registration, 7) ∷ (first_transaction, 7) ∷ (registration, 7) ∷ []

handle_triggers-granted_example :
    (granted registration 7 (handle_triggers users payout calls [])
      ≡ (referrer, 3, 10) ∷ (referee, 3, 5) ∷ [])
    × (all (is_settled payout) (handle_triggers users payout calls []) ≡ true)
unfolding lookup
handle_triggers-granted_example = handle_triggers-granted users payout registration 7 calls
