-- ===== src/EventScheduler/Lifecycle.antt =====
-- src/scheduling/event-scheduler.service.ts: what the check of every minute does to events.
use stell_aiverse_backend.Prelude.{
  ℕ, ◌≡◌, refl, ap, Bool, ◌&&◌, List, [], ◌∷◌, arith, ltb, map, keep, if◌then◌else◌, ◌∙◌,
}
use stell_aiverse_backend.EventScheduler.{
  EventSchedulerService, TimeBasedEvent, EventStatus, draft, scheduled, active, paused, completed,
  cancelled, is_scheduled, is_due, activate_due, complete_due, complete_all,
  process_event_completion, check_and_update_event_statuses,
}

-- The status that an event with these dates has once the time is `now`.
abbrev pub status_at : ℕ → EventStatus → ℕ → ℕ → EventStatus
status_at now scheduled start_date end_date =
    if ltb start_date now then (if ltb end_date now then completed else active) else scheduled
status_at now active start_date end_date = if ltb end_date now then completed else active
status_at now draft start_date end_date = draft
status_at now paused start_date end_date = paused
status_at now completed start_date end_date = completed
status_at now cancelled start_date end_date = cancelled

abbrev pub event_at : ℕ → TimeBasedEvent → TimeBasedEvent
event_at now e = record e { status = status_at now e.status e.start_date e.end_date }

pub complete_all-events :
    (pays : ℕ → Bool) (s : EventSchedulerService) (now : ℕ) (es : List TimeBasedEvent)
    → (complete_all pays s now es).events ≡ s.events
unfolding complete_all process_event_completion
complete_all-events pays s now [] = refl
complete_all-events pays s now (e ∷ es) =
    complete_all-events pays (process_event_completion pays s now e.id) now es

activated : ℕ → TimeBasedEvent → TimeBasedEvent
activated now e =
    if is_scheduled e.status && ltb e.start_date now then record e { status = active } else e

one-event :
    (now : ℕ) (e : TimeBasedEvent) (k : EventStatus)
    → e.status ≡ k
    → (if is_due now (activated now e)
        then record (activated now e) { status = completed }
        else activated now e)
      ≡ event_at now e
unfolding is_due activated
one-event now e draft h = rw h refl
one-event now e scheduled h = rw h (ground arith)
one-event now e active h = rw h (ground arith)
one-event now e paused h = rw h refl
one-event now e completed h = rw h refl
one-event now e cancelled h = rw h refl

complete-activate :
    (now : ℕ) (es : List TimeBasedEvent)
    → complete_due now (activate_due now es) ≡ map (event_at now) es
unfolding complete_due activate_due activated
complete-activate now [] = refl
complete-activate now (e ∷ es) =
    rw (complete-activate now es)
      (ap (λ x. x ∷ map (event_at now) es) (one-event now e e.status refl))

-- The check moves each event to the status that its dates call for at the time of the check: a
-- scheduled event that has begun is active, or completed if it has ended as well, an active one that
-- has ended is completed, and the others stay. It changes nothing else of the events.
pub check_and_update_event_statuses-events :
    (pays : ℕ → Bool) (s : EventSchedulerService) (now : ℕ)
    → (check_and_update_event_statuses pays s now).events ≡ map (event_at now) s.events
unfolding check_and_update_event_statuses
check_and_update_event_statuses-events pays s now =
    complete_all-events pays (record s { events = complete_due now (activate_due now s.events) })
      now (keep (is_due now) (activate_due now s.events))
    ∙ complete-activate now s.events
