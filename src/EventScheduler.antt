-- ===== src/EventScheduler.antt =====
-- src/scheduling/event-scheduler.service.ts and its entities: events that start, end and recur.
-- `events` and `participations` are the rows of the two repositories in the order of their ids.
-- Times are milliseconds, and each reading of the clock is an argument. Names, rewards and what else an
-- event only carries along are not modelled, and writes to the repositories do not fail. The saves of a
-- method go one after another and nothing else writes in between.
pub mod Campaigns
pub mod Lifecycle
pub mod Recurrence
pub mod Rewards
pub mod Openings
pub mod Once
use stell_aiverse_backend.Prelude.{
  ℕ, ◌+◌, ◌-◌, Bool, true, false, ◌&&◌, ◌||◌, List, [], ◌∷◌, ◌++◌, Option, none, some, Result, ok,
  err, ltb, leb, ◌==◌, if◌then◌else◌, not, length, includes, keep,
}

pub data EventType : Type 0 where
  limited_time_bonus : EventType
  seasonal_campaign : EventType
  anniversary_reward : EventType
  time_sensitive_challenge : EventType
  recurring_reward : EventType

pub data EventStatus : Type 0 where
  draft : EventStatus
  scheduled : EventStatus
  active : EventStatus
  paused : EventStatus
  completed : EventStatus
  cancelled : EventStatus

pub data RecurrenceType : Type 0 where
  once : RecurrenceType
  daily : RecurrenceType
  weekly : RecurrenceType
  monthly : RecurrenceType
  yearly : RecurrenceType
  custom : RecurrenceType

-- A list that is absent is empty: the source treats both alike.
pub record TargetingConfig : Type 0 where
  pub excluded_users : List ℕ
  pub included_users : List ℕ

-- `has_config` tells whether `recurrenceConfig` is there; `instance_number` is 0 where `metadata` has none.
pub record TimeBasedEvent : Type 0 where
  pub id : ℕ
  pub kind : EventType
  pub status : EventStatus
  pub start_date : ℕ
  pub end_date : ℕ
  pub recurrence_type : RecurrenceType
  pub has_config : Bool
  pub targeting_config : Option TargetingConfig
  pub max_participants : ℕ
  pub current_participants : ℕ
  pub instance_number : ℕ

pub data ParticipationStatus : Type 0 where
  registered : ParticipationStatus
  taking_part : ParticipationStatus
  finished : ParticipationStatus
  expired : ParticipationStatus
  withdrawn : ParticipationStatus

pub record EventParticipation : Type 0 where
  pub id : ℕ
  pub event_id : ℕ
  pub user_id : ℕ
  pub status : ParticipationStatus
  pub completed_at : Option ℕ

-- `rewarded` is the participations for which `processRewardEvent` has been called, last call first.
pub record EventSchedulerService : Type 0 where
  pub events : List TimeBasedEvent
  pub participations : List EventParticipation
  pub rewarded : List ℕ

abbrev pub is_scheduled : EventStatus → Bool
is_scheduled scheduled = true
is_scheduled draft = false
is_scheduled active = false
is_scheduled paused = false
is_scheduled completed = false
is_scheduled cancelled = false

abbrev pub is_active : EventStatus → Bool
is_active active = true
is_active draft = false
is_active scheduled = false
is_active paused = false
is_active completed = false
is_active cancelled = false

abbrev pub is_completed : EventStatus → Bool
is_completed completed = true
is_completed draft = false
is_completed scheduled = false
is_completed active = false
is_completed paused = false
is_completed cancelled = false

abbrev pub is_taking_part : ParticipationStatus → Bool
is_taking_part taking_part = true
is_taking_part registered = false
is_taking_part finished = false
is_taking_part expired = false
is_taking_part withdrawn = false

-- `activateEvent` on the events that the first query finds.
unfoldable pub activate_due : ℕ → List TimeBasedEvent → List TimeBasedEvent
activate_due now [] = []
activate_due now (e ∷ es) =
    (if is_scheduled e.status && ltb e.start_date now then record e { status = active } else e)
    ∷ activate_due now es

unfoldable pub is_due : ℕ → TimeBasedEvent → Bool
is_due now e = is_active e.status && ltb e.end_date now

-- `completeEvent` on the events that the second query finds, up to their saves.
unfoldable pub complete_due : ℕ → List TimeBasedEvent → List TimeBasedEvent
unfolding is_due
complete_due now [] = []
complete_due now (e ∷ es) =
    (if is_due now e then record e { status = completed } else e) ∷ complete_due now es

-- `pays` tells whether the reward pipeline, which is awaited, accepts the reward of a participation.
module _ (pays : ℕ → Bool) where
  -- The loop of `processEventCompletion` over the participations.
  unfoldable pub finish_all : ℕ → ℕ → List EventParticipation → List EventParticipation
  finish_all now event_id [] = []
  finish_all now event_id (p ∷ ps) =
      (if (p.event_id == event_id && is_taking_part p.status) && pays p.id
        then record p { status = finished; completed_at = some now }
        else p)
      ∷ finish_all now event_id ps

  -- The participations whose reward is asked for, in order, put in front of the calls before.
  unfoldable pub ask_rewards : ℕ → List EventParticipation → List ℕ → List ℕ
  ask_rewards event_id [] asked = asked
  ask_rewards event_id (p ∷ ps) asked =
      ask_rewards event_id ps
        (if p.event_id == event_id && is_taking_part p.status then p.id ∷ asked else asked)

  unfoldable pub process_event_completion : EventSchedulerService → ℕ → ℕ → EventSchedulerService
  unfolding finish_all ask_rewards
  process_event_completion s now event_id = record s {
    participations = finish_all now event_id s.participations;
    rewarded = ask_rewards event_id s.participations s.rewarded;
  }

  unfoldable pub complete_all :
      EventSchedulerService → ℕ → List TimeBasedEvent → EventSchedulerService
  unfolding process_event_completion
  complete_all s now [] = s
  complete_all s now (e ∷ es) = complete_all (process_event_completion s now e.id) now es

  -- Each completed event is saved before its participations are processed; the other events' saves do
  -- not touch participations, so all saves stand first.
  unfoldable pub check_and_update_event_statuses : EventSchedulerService → ℕ → EventSchedulerService
  unfolding activate_due is_due complete_due complete_all
  check_and_update_event_statuses s now =
      let activated = activate_due now s.events in
      complete_all (record s { events = complete_due now activated }) now
        (keep (is_due now) activated)

-- The three readings of the clock in a round of the loop, and the id of an event that it creates.
pub record Round : Type 0 where
  pub first_now : ℕ
  pub second_now : ℕ
  pub third_now : ℕ
  pub new_id : ℕ

-- `next_date` moves a date on by a day, a week, a month or a year of the calendar.
module _ (next_date : RecurrenceType → ℕ → ℕ) where
  abbrev pub if_after : ℕ → ℕ → Option ℕ
  if_after now d = if ltb now d then some d else none

  abbrev pub next_of : RecurrenceType → ℕ → ℕ → Option ℕ
  next_of once end_date now = none
  next_of daily end_date now = if_after now (next_date daily end_date)
  next_of weekly end_date now = if_after now (next_date weekly end_date)
  next_of monthly end_date now = if_after now (next_date monthly end_date)
  next_of yearly end_date now = if_after now (next_date yearly end_date)
  next_of custom end_date now = none

  unfoldable pub calculate_next_occurrence : TimeBasedEvent → ℕ → Option ℕ
  calculate_next_occurrence e now =
      if e.has_config then next_of e.recurrence_type e.end_date now else none

  -- The event that is saved, under the id that the database gives it.
  unfoldable pub create_recurring_event_instance :
      List TimeBasedEvent → TimeBasedEvent → ℕ → ℕ → List TimeBasedEvent
  unfolding calculate_next_occurrence
  create_recurring_event_instance events e new_id now = elim (calculate_next_occurrence e now) [
    | none ↦ events
    | some next_start ↦
        events
        ++ record e {
          id = new_id;
          status = scheduled;
          start_date = next_start;
          end_date = next_start + (e.end_date - e.start_date);
          current_participants = 0;
          instance_number = e.instance_number + 1;
        }
          ∷ []
  ]

  abbrev pub is_reached : Option ℕ → ℕ → Bool
  is_reached none now = false
  is_reached (some d) now = leb d now

  unfoldable pub process_recurring_event :
      List TimeBasedEvent → TimeBasedEvent → Round → List TimeBasedEvent
  unfolding calculate_next_occurrence create_recurring_event_instance
  process_recurring_event events e r =
      if is_reached (calculate_next_occurrence e r.first_now) r.second_now
      then create_recurring_event_instance events e r.new_id r.third_now
      else events

  unfoldable pub process_each :
      List TimeBasedEvent → List TimeBasedEvent → (TimeBasedEvent → Round) → List TimeBasedEvent
  unfolding process_recurring_event
  process_each events [] rounds = events
  process_each events (e ∷ es) rounds =
      process_each (process_recurring_event events e (rounds e)) es rounds

  -- `found` tells which events the query gives: its `{ $ne: … }` is left to the database library.
  unfoldable pub process_recurring_events :
      (TimeBasedEvent → Bool)
      → EventSchedulerService
      → (TimeBasedEvent → Round)
      → EventSchedulerService
  unfolding process_each
  process_recurring_events found s rounds = record s {
    events = process_each s.events (keep found s.events) rounds;
  }
