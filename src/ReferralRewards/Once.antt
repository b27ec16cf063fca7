-- ===== src/ReferralRewards/Once.antt =====
-- src/referral/reward.service.ts: what the triggers of a referee come to.
use stell_aiverse_backend.Prelude.{
  all, ℕ, ◌≡◌, refl, Bool, true, false, List, [], ◌∷◌, ◌++◌, Option, none, some, arith, ◌==◌, ◌&&◌,
  ◌||◌, if◌then◌else◌, any, lookup, length, ◌∙◌, ap, Bool-cases, inl, inr, ==_refl, ==_iff, ◌⊎◌,
}
use mathlib.Core.List.{append_assoc, append-nil}
use stell_aiverse_backend.ReferralRewards.{
  calculate_rewards, credits, Payout, recorded, unrecorded, unsaved, pay, awarded, failed,
  reward_referrer, RewardTrigger, registration, first_transaction, RewardStatus, Party, referrer,
  referee, RewardData, ReferralReward, Users, same_trigger, is_reward_of, save_status,
  process_payout, create_reward, create_rewards,
}
use stell_aiverse_backend.ReferralRewards.Statuses.{
  handle_triggers, is_settled, handle_triggers-IsPaid,
}

-- The party, the referrer and the amount of each reward of the trigger and the referee.
abbrev pub granted : RewardTrigger → ℕ → List ReferralReward → List (Party × ℕ × ℕ)
granted event id [] = []
granted event id (r ∷ rows) =
    if is_reward_of event id r
    then (r.reward.party, r.reward.referrer_id, r.reward.amount) ∷ granted event id rows
    else granted event id rows

abbrev pub due : RewardTrigger → ℕ → List (Party × ℕ × ℕ)
due registration by = (referrer, by, 10) ∷ (referee, by, 5) ∷ []
due first_transaction by = []

-- What is due for a user whose row is given, if there is one: the user may have a referrer.
abbrev pub due_of : RewardTrigger → Option (Option ℕ) → List (Party × ℕ × ℕ)
due_of event none = []
due_of event (some none) = []
due_of event (some (some by)) = due event by

-- The trigger occurs in the list for the referee.
abbrev pub is_triggered : RewardTrigger → ℕ → List (RewardTrigger × ℕ) → Bool
is_triggered event id [] = false
is_triggered event id ((e, i) ∷ calls) =
    i == id && same_trigger e event || is_triggered event id calls

granted-save_status :
    (event : RewardTrigger) (id i : ℕ) (status : RewardStatus) (rows : List ReferralReward)
    → granted event id (save_status i status rows) ≡ granted event id rows
unfolding save_status
granted-save_status event id i status [] = refl
granted-save_status event id i status (r ∷ rows) =
    ground (arith, granted-save_status event id i status rows)

granted-append :
    (event : RewardTrigger) (id : ℕ) (r : ReferralReward) (rows : List ReferralReward)
    → granted event id (rows ++ r ∷ []) ≡ granted event id rows ++ granted event id (r ∷ [])
granted-append event id r [] = refl
granted-append event id r (q ∷ rows) = ground (arith, granted-append event id r rows)

any-granted :
    (event : RewardTrigger) (id : ℕ) (rows : List ReferralReward)
    → granted event id rows ≡ []
    → any (is_reward_of event id) rows ≡ false
any-granted event id [] h = refl
any-granted event id (r ∷ rows) h = ground (arith, any-granted event id rows, h)

any-not_granted :
    (event : RewardTrigger) (id : ℕ) (rows : List ReferralReward) (p : Party × ℕ × ℕ)
    (ps : List (Party × ℕ × ℕ))
    → granted event id rows ≡ p ∷ ps
    → any (is_reward_of event id) rows ≡ true
any-not_granted event id [] p ps h = ground (arith, h)
any-not_granted event id (r ∷ rows) p ps h = ground (arith, any-not_granted event id rows p ps, h)

abbrev granted_by : RewardTrigger → ℕ → RewardData → List (Party × ℕ × ℕ)
granted_by event id d =
    if d.referee_id == id && same_trigger d.trigger_event event
    then (d.party, d.referrer_id, d.amount) ∷ []
    else []

granted-pay :
    (p : Payout) (event : RewardTrigger) (id i : ℕ) (rows : List ReferralReward)
    → granted event id (pay p i rows) ≡ granted event id rows
granted-pay recorded event id i rows = granted-save_status event id i awarded rows
granted-pay unrecorded event id i rows =
    granted-save_status event id i failed (save_status i awarded rows)
    ∙ granted-save_status event id i awarded rows
granted-pay unsaved event id i rows = granted-save_status event id i failed rows

granted-create_reward :
    (payout : ReferralReward → Payout) (event : RewardTrigger) (id : ℕ) (d : RewardData)
    (rows : List ReferralReward)
    → granted event id (create_reward payout d rows)
      ≡ granted event id rows ++ granted_by event id d
unfolding create_reward process_payout
granted-create_reward payout event id d rows =
    let r : ReferralReward = record {
      id = length rows;
      reward = d;
      status = RewardStatus.pending;
    } in
    granted-pay (payout (record r { status = awarded })) event id r.id (rows ++ r ∷ [])
    ∙ granted-append event id r rows

due_of-first_transaction : (by : Option (Option ℕ)) → due_of first_transaction by ≡ []
due_of-first_transaction none = refl
due_of-first_transaction (some none) = refl
due_of-first_transaction (some (some by)) = refl

nothing_due : (b : Bool) (by : ℕ) → (if b then due first_transaction by else []) ≡ []
nothing_due true by = refl
nothing_due false by = refl

same_trigger_refl : (e : RewardTrigger) → same_trigger e e ≡ true
same_trigger_refl registration = refl
same_trigger_refl first_transaction = refl

granted-create_rewards :
    (payout : ReferralReward → Payout) (event e : RewardTrigger) (id by i : ℕ)
    (rows : List ReferralReward)
    → granted event id (create_rewards payout (calculate_rewards e by i) rows)
      ≡ granted event id rows ++ (if i == id && same_trigger e event then due e by else [])
unfolding create_rewards calculate_rewards
granted-create_rewards payout event registration id by i rows =
    let first : RewardData = record {
      referrer_id = by;
      referee_id = i;
      reward_type = credits;
      amount = 10;
      trigger_event = registration;
      party = referrer;
    } in
    let second : RewardData = record first { amount = 5; party = referee } in
    granted-create_reward payout event id second (create_reward payout first rows)
    ∙ ap (λ x. x ++ granted_by event id second) (granted-create_reward payout event id first rows)
    ∙ append_assoc (granted event id rows) (granted_by event id first) (granted_by event id second)
    ∙ ap (λ x. granted event id rows ++ x) (ground arith)
granted-create_rewards payout event first_transaction id by i rows =
    rw
      (
        nothing_due (i == id && same_trigger first_transaction event) by,
        append-nil (granted event id rows),
      )
      refl

same_trigger-≡ : (e event : RewardTrigger) → same_trigger e event ≡ true → e ≡ event
same_trigger-≡ registration registration h = refl
same_trigger-≡ first_transaction first_transaction h = refl
same_trigger-≡ registration first_transaction h = ground (arith, h)
same_trigger-≡ first_transaction registration h = ground (arith, h)

module _ (payout : ReferralReward → Payout) (event : RewardTrigger) (id : ℕ) where
  -- Another trigger, or another referee.
  reward_referrer-other :
      (e : RewardTrigger) (i : ℕ) (by : Option (Option ℕ)) (rows : List ReferralReward)
      → (i == id && same_trigger e event) ≡ false
      → granted event id (reward_referrer payout e i by rows) ≡ granted event id rows
  unfolding reward_referrer
  reward_referrer-other e i none rows h = refl
  reward_referrer-other e i (some none) rows h = refl
  reward_referrer-other e i (some (some by)) rows h = ground (
    arith,
    granted-create_rewards payout event e id by i rows,
    append-nil (granted event id rows),
    h,
  )

  reward_referrer-again :
      (by : Option (Option ℕ)) (rows : List ReferralReward)
      → any (is_reward_of event id) rows ≡ true
      → reward_referrer payout event id by rows ≡ rows
  unfolding reward_referrer
  reward_referrer-again none rows h = refl
  reward_referrer-again (some none) rows h = refl
  reward_referrer-again (some (some by)) rows h = rw h refl

  reward_referrer-first :
      (by : Option (Option ℕ)) (rows : List ReferralReward)
      → granted event id rows ≡ []
      → granted event id (reward_referrer payout event id by rows) ≡ due_of event by
  unfolding reward_referrer
  reward_referrer-first none rows h = h
  reward_referrer-first (some none) rows h = h
  reward_referrer-first (some (some by)) rows h =
      rw
        (
          any-granted event id rows h,
          granted-create_rewards payout event event id by id rows,
          h,
          ==_refl id,
          same_trigger_refl event,
        )
        refl

reward_referrer-due :
    (payout : ReferralReward → Payout) (event : RewardTrigger) (id : ℕ) (by : Option (Option ℕ))
    (rows : List ReferralReward)
    → granted event id rows ≡ due_of event by
    → granted event id (reward_referrer payout event id by rows) ≡ due_of event by
reward_referrer-due payout event id none rows h = reward_referrer-first payout event id none rows h
reward_referrer-due payout event id (some none) rows h =
    reward_referrer-first payout event id (some none) rows h
reward_referrer-due payout registration id (some (some by)) rows h =
    rw
      (reward_referrer-again payout registration id (some (some by)) rows
        (any-not_granted registration id rows (referrer, by, 10) ((referee, by, 5) ∷ []) h))
      h
reward_referrer-due payout first_transaction id (some (some by)) rows h =
    reward_referrer-first payout first_transaction id (some (some by)) rows h

-- The call is of the trigger and the referee, or it is another.
match-cases :
    (event e : RewardTrigger) (id i : ℕ)
    → ((i ≡ id) × (e ≡ event)) ⊎ ((i == id && same_trigger e event) ≡ false)
match-cases event e id i = elim (Bool-cases (i == id)) [
  | inl hit ↦ elim (Bool-cases (same_trigger e event)) [
    | inl same ↦ inl ((==_iff i id).0 hit, same_trigger-≡ e event same)
    | inr other ↦ inr (ground (arith, hit, other))
  ]
  | inr miss ↦ inr (ground (arith, miss))
]

handle_triggers-due :
    (users : Users) (payout : ReferralReward → Payout) (event : RewardTrigger) (id : ℕ)
    (calls : List (RewardTrigger × ℕ)) (rows : List ReferralReward)
    → granted event id rows ≡ due_of event (lookup id users)
    → granted event id (handle_triggers users payout calls rows) ≡ due_of event (lookup id users)
unfolding handle_triggers
handle_triggers-due users payout event id [] rows h = h
handle_triggers-due users payout event id ((e, i) ∷ calls) rows h =
    handle_triggers-due users payout event id calls
      (reward_referrer payout e i (lookup i users) rows)
      (elim (match-cases event e id i) [
        | inl (same_id, same_event) ↦
            rw (same_id, same_event) (reward_referrer-due payout event id (lookup id users) rows h)
        | inr other ↦ reward_referrer-other payout event id e i (lookup i users) rows other ∙ h
      ])

handle_triggers-again :
    (users : Users) (payout : ReferralReward → Payout) (event : RewardTrigger) (id : ℕ)
    (calls : List (RewardTrigger × ℕ)) (rows : List ReferralReward)
    → granted event id rows ≡ []
    → granted event id (handle_triggers users payout calls rows)
      ≡ (if is_triggered event id calls then due_of event (lookup id users) else [])
unfolding handle_triggers
handle_triggers-again users payout event id [] rows h = h
handle_triggers-again users payout event id ((e, i) ∷ calls) rows h =
    let next = reward_referrer payout e i (lookup i users) rows in
    elim (match-cases event e id i) [
      | inl (same_id, same_event) ↦
          let first : granted event id next ≡ due_of event (lookup id users) =
            rw (same_id, same_event)
              (reward_referrer-first payout event id (lookup id users) rows h) in
          ground (
            arith,
            handle_triggers-due users payout event id calls next first,
            same_id,
            same_event,
            same_trigger_refl event,
          )
      | inr other ↦ rw other (
          handle_triggers-again users payout event id calls next
            (reward_referrer-other payout event id e i (lookup i users) rows other ∙ h))
    ]

-- Over any sequence of triggers from an empty table, a trigger rewards a referee at most once: a
-- registration that occurs for a user with a referrer grants 10 to that referrer and 5 to the user,
-- however often it occurs, and anything else grants nothing. Each reward ends as awarded where its
-- payout was saved and recorded, and as failed where it was not.
pub handle_triggers-granted :
    (users : Users) (payout : ReferralReward → Payout) (event : RewardTrigger) (id : ℕ)
    (calls : List (RewardTrigger × ℕ))
    → (granted event id (handle_triggers users payout calls [])
        ≡ (if is_triggered event id calls then due_of event (lookup id users) else []))
      × (all (is_settled payout) (handle_triggers users payout calls []) ≡ true)
handle_triggers-granted users payout event id calls = (
  handle_triggers-again users payout event id calls [] refl,
  (handle_triggers-IsPaid users payout calls [] (refl, refl)).1,
)
