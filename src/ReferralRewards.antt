-- ===== src/ReferralRewards.antt =====
-- src/referral/reward.service.ts: the rewards for bringing in a user. The table of rewards is the list
-- of its rows, oldest first, and a row's id, which the database draws, is the number of rows before it.
-- `payout` says what comes of a reward's payout: its awarded status is saved and
-- `auditLogService.recordVerification` takes its entry, or one of the two throws. The save in the catch
-- block, and the save of a new reward, succeed. A trigger is handled to its end before the next one.
pub mod Statuses
pub mod Once
use stell_aiverse_backend.Prelude.{
  ℕ, Bool, true, false, ◌&&◌, ◌||◌, List, [], ◌∷◌, ◌++◌, Option, none, some, ◌==◌, if◌then◌else◌,
  any, length, lookup,
}

pub data RewardType : Type 0 where
  credits tokens feature_unlock : RewardType

pub data RewardStatus : Type 0 where
  pending awarded failed : RewardStatus

pub data RewardTrigger : Type 0 where
  registration first_transaction : RewardTrigger

pub data Party : Type 0 where
  referrer referee : Party

-- What `calculateRewards` says of a reward.
pub record RewardData : Type 0 where
  pub referrer_id : ℕ
  pub referee_id : ℕ
  pub reward_type : RewardType
  pub amount : ℕ
  pub trigger_event : RewardTrigger
  pub party : Party

pub record ReferralReward : Type 0 where
  pub id : ℕ
  pub reward : RewardData
  pub status : RewardStatus

-- `referredById` of each user
abbrev pub Users : Type 0
Users = List (ℕ × Option ℕ)

abbrev pub same_trigger : RewardTrigger → RewardTrigger → Bool
same_trigger registration registration = true
same_trigger first_transaction first_transaction = true
same_trigger registration first_transaction = false
same_trigger first_transaction registration = false

unfoldable pub calculate_rewards : RewardTrigger → ℕ → ℕ → List RewardData
calculate_rewards registration by id =
    record {
      referrer_id = by;
      referee_id = id;
      reward_type = credits;
      amount = 10;
      trigger_event = registration;
      party = referrer;
    }
    ∷ record {
      referrer_id = by;
      referee_id = id;
      reward_type = credits;
      amount = 5;
      trigger_event = registration;
      party = referee;
    }
    ∷ []
calculate_rewards first_transaction by id = []

-- `save` of a reward that is in the table, with a new status.
unfoldable pub save_status : ℕ → RewardStatus → List ReferralReward → List ReferralReward
save_status id status [] = []
save_status id status (r ∷ rows) =
    (if r.id == id then record r { status = status } else r) ∷ save_status id status rows

-- How the `try` block of `processPayout` ends.
pub data Payout : Type 0 where
  recorded unrecorded unsaved : Payout

abbrev pub pay : Payout → ℕ → List ReferralReward → List ReferralReward
pay recorded id rows = save_status id awarded rows
pay unrecorded id rows = save_status id failed (save_status id awarded rows)
pay unsaved id rows = save_status id failed rows

unfoldable pub process_payout :
    (ReferralReward → Payout) → ReferralReward → List ReferralReward → List ReferralReward
unfolding save_status
process_payout payout r rows = pay (payout (record r { status = awarded })) r.id rows

unfoldable pub create_reward :
    (ReferralReward → Payout) → RewardData → List ReferralReward → List ReferralReward
unfolding process_payout
create_reward payout data_of rows =
    let r : ReferralReward = record { id = length rows; reward = data_of; status = pending } in
    process_payout payout r (rows ++ r ∷ [])

unfoldable pub create_rewards :
    (ReferralReward → Payout) → List RewardData → List ReferralReward → List ReferralReward
unfolding create_reward
create_rewards payout [] rows = rows
create_rewards payout (d ∷ ds) rows = create_rewards payout ds (create_reward payout d rows)

-- The reward is of the trigger and the referee.
abbrev pub is_reward_of : RewardTrigger → ℕ → ReferralReward → Bool
is_reward_of event id r = r.reward.referee_id == id && same_trigger r.reward.trigger_event event

-- From `if (!referee || !referee.referredById)` on.
unfoldable pub reward_referrer :
    (ReferralReward → Payout)
    → RewardTrigger
    → ℕ
    → Option (Option ℕ)
    → List ReferralReward
    → List ReferralReward
unfolding create_rewards calculate_rewards
reward_referrer payout event id none rows = rows
reward_referrer payout event id (some none) rows = rows
reward_referrer payout event id (some (some by)) rows =
    if any (is_reward_of event id) rows
    then rows
    else create_rewards payout (calculate_rewards event by id) rows

unfoldable pub handle_trigger :
    Users
    → (ReferralReward → Payout)
    → RewardTrigger
    → ℕ
    → List ReferralReward
    → List ReferralReward
unfolding reward_referrer
handle_trigger users payout event id rows = reward_referrer payout event id (lookup id users) rows

-- `getRewardsForUser`, the newest first
unfoldable pub get_rewards_for_user : ℕ → List ReferralReward → List ReferralReward
get_rewards_for_user id [] = []
get_rewards_for_user id (r ∷ rows) =
    get_rewards_for_user id rows
    ++ (if r.reward.referrer_id == id || r.reward.referee_id == id then r ∷ [] else [])
