-- ===== src/Scenarios/Events.antt =====
-- src/scheduling/event-scheduler.service.ts: a daily event that has ended, with two participations.
use stell_aiverse_backend.Prelude.{
  ℕ, ◌+◌, ◌≡◌, refl, Bool, true, List, [], ◌∷◌, none, arith, map, Distinct, ◌==◌,
}
use stell_aiverse_backend.EventScheduler.{
  EventSchedulerService, TimeBasedEvent, EventParticipation, EventStatus, active, completed,
  scheduled, daily, limited_time_bonus, taking_part, RecurrenceType, Round,
  process_recurring_events, check_and_update_event_statuses,
}
use stell_aiverse_backend.EventScheduler.Recurrence.{process_recurring_events-none}
use stell_aiverse_backend.EventScheduler.Lifecycle.{
  event_at, check_and_update_event_statuses-events,
}
use stell_aiverse_backend.EventScheduler.Once.{
  Change, checks, resolves, terminates, extends, changes, changes-once,
}

abbrev event : ℕ → EventStatus → ℕ → ℕ → TimeBasedEvent
event id status start_date end_date = record {
  id = id;
  kind = limited_time_bonus;
  status = status;
  start_date = start_date;
  end_date = end_date;
  recurrence_type = daily;
  has_config = true;
  targeting_config = none;
  max_participants = 0;
  current_participants = 0;
  instance_number = 0;
}

abbrev participation : ℕ → ℕ → EventParticipation
participation id event_id = record {
  id = id;
  event_id = event_id;
  user_id = 40 + id;
  status = taking_part;
  completed_at = none;
}

abbrev service : EventSchedulerService
service = record {
  events = event 1 active 100 200 ∷ event 2 scheduled 150 160 ∷ event 3 completed 10 20 ∷ [];
  participations = participation 5 1 ∷ participation 6 2 ∷ [];
  rewarded = [];
}

-- A day has 50 units of time here.
abbrev next_day : RecurrenceType → ℕ → ℕ
next_day k date = date + 50

abbrev rounds : TimeBasedEvent → Round
rounds e = record { first_now = 60; second_now = 71; third_now = 72; new_id = 9 }

abbrev is_third : TimeBasedEvent → Bool
is_third e = e.id == 3

process_recurring_events-none_example :
    process_recurring_events next_day is_third service rounds ≡ service
process_recurring_events-none_example =
    process_recurring_events-none next_day is_third service rounds (λ e. (omega arith, omega arith))

abbrev pays_five : ℕ → Bool
pays_five id = id == 5

check_and_update_event_statuses-events_example :
    (check_and_update_event_statuses pays_five service 201).events
    ≡ map (event_at 201) service.events
check_and_update_event_statuses-events_example =
    check_and_update_event_statuses-events pays_five service 201

abbrev series : List Change
series = checks 155 ∷ extends 1 300 ∷ resolves 1 500 ∷ checks 301 ∷ terminates 2 ∷ checks 400 ∷ []

changes-once_example : Distinct (changes pays_five service series).rewarded
changes-once_example =
    changes-once pays_five service series (refl, (refl, (refl, tt))) (refl, (refl, tt)) refl
