-- ===== src/EventScheduler/Campaigns.antt =====
-- src/scheduling/event-scheduler.service.ts: who takes part in an event, and the campaigns that
-- administrators create, extend and end.
use stell_aiverse_backend.Prelude.{
  ℕ, Bool, true, ◌&&◌, ◌||◌, List, [], ◌∷◌, ◌++◌, Option, none, some, Result, ok, err, ltb, leb,
  ◌==◌, if◌then◌else◌, not, length, includes, keep, find_first,
}
use stell_aiverse_backend.EventScheduler.{
  TimeBasedEvent, TargetingConfig, EventSchedulerService, EventType, limited_time_bonus,
  seasonal_campaign, anniversary_reward, time_sensitive_challenge, recurring_reward, scheduled,
  paused, cancelled, yearly, is_scheduled, is_active,
}

-- `event.maxParticipants > 0 && event.currentParticipants >= event.maxParticipants`
abbrev pub is_full : TimeBasedEvent → Bool
is_full e = ltb 0 e.max_participants && leb e.max_participants e.current_participants

abbrev pub is_targeted : TargetingConfig → ℕ → Bool
is_targeted c user_id =
    not (includes c.excluded_users user_id)
    && not (ltb 0 (length c.included_users) && not (includes c.included_users user_id))

unfoldable pub check_user_eligibility : TimeBasedEvent → ℕ → Bool
check_user_eligibility e user_id = elim e.targeting_config [
  | none ↦ true
  | some c ↦ is_targeted c user_id && not (is_full e)
]

unfoldable pub get_active_events_for_user : EventSchedulerService → ℕ → ℕ → List TimeBasedEvent
unfolding check_user_eligibility
get_active_events_for_user s user_id now =
    keep (λ e. check_user_eligibility e user_id)
      (keep (λ e. is_active e.status && (ltb e.start_date now && ltb now e.end_date)) s.events)

abbrev pub priority : EventType → ℕ
priority seasonal_campaign = 3
priority anniversary_reward = 2
priority limited_time_bonus = 1
priority time_sensitive_challenge = 1
priority recurring_reward = 1

abbrev pub overlaps : ℕ → ℕ → TimeBasedEvent → Bool
overlaps start_date end_date e =
    (is_active e.status || is_scheduled e.status)
    && (ltb e.start_date end_date && ltb start_date e.end_date)

unfoldable pub resolve_conflicts : ℕ → ℕ → List TimeBasedEvent → List TimeBasedEvent
resolve_conflicts start_date end_date [] = []
resolve_conflicts start_date end_date (e ∷ es) =
    (if overlaps start_date end_date e && ltb (priority e.kind) 2
      then record e { status = paused }
      else e)
    ∷ resolve_conflicts start_date end_date es

unfoldable pub create_seasonal_campaign :
    EventSchedulerService → ℕ → ℕ → ℕ → Option TargetingConfig → EventSchedulerService
unfolding resolve_conflicts
create_seasonal_campaign s new_id start_date end_date targeting = record s {
  events =
      resolve_conflicts start_date end_date s.events
      ++ record {
        id = new_id;
        kind = seasonal_campaign;
        status = scheduled;
        start_date = start_date;
        end_date = end_date;
        recurrence_type = yearly;
        has_config = true;
        targeting_config = targeting;
        max_participants = 0;
        current_participants = 0;
        instance_number = 0;
      }
        ∷ [];
}

-- `this_year` and `next_year` are the signup date moved to this year and to the next, `day_after` the
-- date one day on.
unfoldable pub create_anniversary_event :
    EventSchedulerService → ℕ → ℕ → ℕ → ℕ → (ℕ → ℕ) → ℕ → EventSchedulerService
create_anniversary_event s new_id user_id this_year next_year day_after now =
    let anniversary = if ltb this_year now then next_year else this_year in
    record s {
      events =
          s.events
          ++ record {
            id = new_id;
            kind = anniversary_reward;
            status = scheduled;
            start_date = anniversary;
            end_date = day_after anniversary;
            recurrence_type = yearly;
            has_config = true;
            targeting_config = some (record { excluded_users = []; included_users = user_id ∷ [] });
            max_participants = 0;
            current_participants = 0;
            instance_number = 0;
          }
            ∷ [];
    }

pub data EventNotFound : Type 0 where
  entity_not_found : EventNotFound

abbrev pub change_event :
    (TimeBasedEvent → TimeBasedEvent) → ℕ → List TimeBasedEvent → List TimeBasedEvent
change_event f event_id [] = []
change_event f event_id (e ∷ es) =
    let rest = change_event f event_id es in if e.id == event_id then f e ∷ es else e ∷ rest

abbrev pub save_found :
    EventSchedulerService
    → (TimeBasedEvent → TimeBasedEvent)
    → ℕ
    → Option TimeBasedEvent
    → Result EventNotFound EventSchedulerService
save_found s f event_id none = err entity_not_found
save_found s f event_id (some e) = ok (record s { events = change_event f event_id s.events })

-- `findOneOrFail`, the change and the save.
abbrev pub save_changed :
    EventSchedulerService
    → (TimeBasedEvent → TimeBasedEvent)
    → ℕ
    → Result EventNotFound EventSchedulerService
save_changed s f event_id = save_found s f event_id (find_first (λ e. e.id == event_id) s.events)

unfoldable pub terminate_event :
    EventSchedulerService → ℕ → Result EventNotFound EventSchedulerService
terminate_event s event_id = save_changed s (λ e. record e { status = cancelled }) event_id

unfoldable pub extend_event :
    EventSchedulerService → ℕ → ℕ → Result EventNotFound EventSchedulerService
extend_event s event_id new_end_date =
    save_changed s (λ e. record e { end_date = new_end_date }) event_id
