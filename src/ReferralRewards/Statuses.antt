-- ===== src/ReferralRewards/Statuses.antt =====
-- src/referral/reward.service.ts: how the payouts of a series of triggers end.
use stell_aiverse_backend.Prelude.{
  Bool-cases, inl, inr, ℕ, ◌≡◌, ◌≤◌, refl, ◌∙◌, ap, Bool, true, false, List, [], ◌∷◌, ◌++◌, Option,
  none, some, arith, ltb, all, any, lookup, length, length-append, ==_refl,
}
use stell_aiverse_backend.ReferralRewards.{
  calculate_rewards, awarded, failed, pending, Payout, recorded, unrecorded, unsaved, pay,
  reward_referrer, RewardTrigger, RewardStatus, RewardData, ReferralReward, Users, is_reward_of,
  save_status, process_payout, create_reward, create_rewards, handle_trigger,
}

unfoldable pub handle_triggers :
    Users
    → (ReferralReward → Payout)
    → List (RewardTrigger × ℕ)
    → List ReferralReward
    → List ReferralReward
unfolding handle_trigger
handle_triggers users payout [] rows = rows
handle_triggers users payout ((event, id) ∷ calls) rows =
    handle_triggers users payout calls (handle_trigger users payout event id rows)

abbrev pub is_paid : RewardStatus → Bool
is_paid awarded = true
is_paid failed = false
is_paid RewardStatus.pending = false

abbrev pub is_unpaid : RewardStatus → Bool
is_unpaid failed = true
is_unpaid awarded = false
is_unpaid RewardStatus.pending = false

-- The status is the one that the payout calls for.
abbrev pub calls_for : Payout → RewardStatus → Bool
calls_for recorded status = is_paid status
calls_for unrecorded status = is_unpaid status
calls_for unsaved status = is_unpaid status

abbrev pub is_settled : (ReferralReward → Payout) → ReferralReward → Bool
is_settled payout r = calls_for (payout (record r { status = awarded })) r.status

abbrev is_below : ℕ → ReferralReward → Bool
is_below n r = ltb r.id n

-- The rows have the ids below their number, and their payouts have ended.
abbrev pub IsPaid : (ReferralReward → Payout) → List ReferralReward → Type 0
IsPaid payout rows =
    (all (is_below (length rows)) rows ≡ true) × (all (is_settled payout) rows ≡ true)

save_status-last :
    (status : RewardStatus) (r : ReferralReward) (rows : List ReferralReward)
    → all (is_below r.id) rows ≡ true
    → save_status r.id status (rows ++ r ∷ []) ≡ rows ++ record r { status = status } ∷ []
unfolding save_status
save_status-last status r [] h = ground (arith, ==_refl r.id)
save_status-last status r (q ∷ rows) h = ground (arith, h, save_status-last status r rows)

all-below :
    (n m : ℕ) (rows : List ReferralReward)
    → n ≤ m
    → all (is_below n) rows ≡ true
    → all (is_below m) rows ≡ true
all-below n m [] l h = refl
all-below n m (r ∷ rows) l h = ground (arith, l, h, all-below n m rows)

all-append :
    (p : ReferralReward → Bool) (r : ReferralReward) (rows : List ReferralReward)
    → all p rows ≡ true
    → p r ≡ true
    → all p (rows ++ r ∷ []) ≡ true
all-append p r [] h e = ground (arith, e)
all-append p r (q ∷ rows) h e = ground (arith, h, e, all-append p r rows)

-- The status that a payout leaves.
abbrev left_status : Payout → RewardStatus
left_status recorded = awarded
left_status unrecorded = failed
left_status unsaved = failed

pay-last :
    (p : Payout) (r : ReferralReward) (rows : List ReferralReward)
    → all (is_below r.id) rows ≡ true
    → pay p r.id (rows ++ r ∷ []) ≡ rows ++ record r { status = left_status p } ∷ []
pay-last recorded r rows h = save_status-last awarded r rows h
pay-last unrecorded r rows h =
    ap (save_status r.id failed) (save_status-last awarded r rows h)
    ∙ save_status-last failed (record r { status = awarded }) rows h
pay-last unsaved r rows h = save_status-last failed r rows h

calls_for-left_status : (p : Payout) → calls_for p (left_status p) ≡ true
calls_for-left_status recorded = refl
calls_for-left_status unrecorded = refl
calls_for-left_status unsaved = refl

module _ (payout : ReferralReward → Payout) where
  create_reward-IsPaid :
      (d : RewardData) (rows : List ReferralReward)
      → IsPaid payout rows
      → IsPaid payout (create_reward payout d rows)
  unfolding create_reward process_payout
  create_reward-IsPaid d rows (b, s) =
      let r : ReferralReward = record { id = length rows; reward = d; status = pending } in
      let p = payout (record r { status = awarded }) in
      let r' : ReferralReward = record r { status = left_status p } in
      rw (pay-last p r rows b) (
        all-append (is_below (length (rows ++ r' ∷ []))) r' rows
            (all-below (length rows) (length (rows ++ r' ∷ [])) rows
              (omega (arith, length-append rows (r' ∷ []))) b)
            (ground (arith, length-append rows (r' ∷ []))),
        all-append (is_settled payout) r' rows s (calls_for-left_status p),
      )

  create_rewards-IsPaid :
      (ds : List RewardData) (rows : List ReferralReward)
      → IsPaid payout rows
      → IsPaid payout (create_rewards payout ds rows)
  unfolding create_rewards
  create_rewards-IsPaid [] rows h = h
  create_rewards-IsPaid (d ∷ ds) rows h =
      create_rewards-IsPaid ds (create_reward payout d rows) (create_reward-IsPaid d rows h)

  reward_referrer-IsPaid :
      (event : RewardTrigger) (id : ℕ) (by : Option (Option ℕ)) (rows : List ReferralReward)
      → IsPaid payout rows
      → IsPaid payout (reward_referrer payout event id by rows)
  unfolding reward_referrer
  reward_referrer-IsPaid event id none rows h = h
  reward_referrer-IsPaid event id (some none) rows h = h
  reward_referrer-IsPaid event id (some (some by)) rows h =
      elim (Bool-cases (any (is_reward_of event id) rows)) [
        | inl again ↦ rw again h
        | inr first ↦ rw first (create_rewards-IsPaid (calculate_rewards event by id) rows h)
      ]

pub handle_triggers-IsPaid :
    (users : Users) (payout : ReferralReward → Payout) (calls : List (RewardTrigger × ℕ))
    (rows : List ReferralReward)
    → IsPaid payout rows
    → IsPaid payout (handle_triggers users payout calls rows)
unfolding handle_triggers
handle_triggers-IsPaid users payout [] rows h = h
handle_triggers-IsPaid users payout ((e, i) ∷ calls) rows h =
    handle_triggers-IsPaid users payout calls (reward_referrer payout e i (lookup i users) rows)
      (reward_referrer-IsPaid payout e i (lookup i users) rows h)
