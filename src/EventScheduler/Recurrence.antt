-- ===== src/EventScheduler/Recurrence.antt =====
-- src/scheduling/event-scheduler.service.ts: what becomes of events that recur.
use stell_aiverse_backend.Prelude.{
  Bool, ℕ, ◌≤◌, ◌≡◌, refl, inl, inr, true, List, [], ◌∷◌, none, arith, keep, Bool-cases, ap,
}
use stell_aiverse_backend.EventScheduler.{
  EventSchedulerService, TimeBasedEvent, RecurrenceType, once, daily, weekly, monthly, yearly,
  custom, Round, next_of, is_reached, calculate_next_occurrence, create_recurring_event_instance,
  process_recurring_event, process_each, process_recurring_events,
}

-- The readings of the clock in a round come one after another.
abbrev pub InOrder : Round → Type 0
InOrder r = (r.first_now ≤ r.second_now) × (r.second_now ≤ r.third_now)

next_of-reached :
    (next : RecurrenceType → ℕ → ℕ) (k : RecurrenceType) (d first second third : ℕ)
    → second ≤ third
    → is_reached next (next_of next k d first) second ≡ true
    → next_of next k d third ≡ none
next_of-reached next once d t₁ t₂ t₃ h r = refl
next_of-reached next daily d t₁ t₂ t₃ h r = ground arith
next_of-reached next weekly d t₁ t₂ t₃ h r = ground arith
next_of-reached next monthly d t₁ t₂ t₃ h r = ground arith
next_of-reached next yearly d t₁ t₂ t₃ h r = ground arith
next_of-reached next custom d t₁ t₂ t₃ h r = refl

calculate_next_occurrence-reached :
    (next : RecurrenceType → ℕ → ℕ) (e : TimeBasedEvent) (first second third : ℕ)
    → second ≤ third
    → is_reached next (calculate_next_occurrence next e first) second ≡ true
    → calculate_next_occurrence next e third ≡ none
unfolding calculate_next_occurrence
calculate_next_occurrence-reached next e t₁ t₂ t₃ h r = elim (Bool-cases e.has_config) [
  | inl there ↦
      rw there (next_of-reached next e.recurrence_type e.end_date t₁ t₂ t₃ h (rw there at r))
  | inr missing ↦ rw missing refl
]

process_recurring_event-none :
    (next : RecurrenceType → ℕ → ℕ) (events : List TimeBasedEvent) (e : TimeBasedEvent) (r : Round)
    → InOrder r
    → process_recurring_event next events e r ≡ events
unfolding process_recurring_event
process_recurring_event-none next events e r (h, k) =
    elim (Bool-cases
      (is_reached next (calculate_next_occurrence next e r.first_now) r.second_now)) [
        | inl hit ↦
            let gone =
              calculate_next_occurrence-reached next e r.first_now r.second_now r.third_now k hit in
            rw (hit, create_recurring_event_instance, gone) refl
        | inr miss ↦ rw miss refl
      ]

process_each-none :
    (next : RecurrenceType → ℕ → ℕ) (events es : List TimeBasedEvent)
    (rounds : TimeBasedEvent → Round)
    → ((e : TimeBasedEvent) → InOrder (rounds e))
    → process_each next events es rounds ≡ events
unfolding process_each
process_each-none next events [] rounds h = refl
process_each-none next events (e ∷ es) rounds h =
    rw (process_recurring_event-none next events e (rounds e) (h e))
      (process_each-none next events es rounds h)

-- The job for recurring events creates no event, whatever the calendar and whichever events its query
-- gives, if the readings of the clock in each round of its loop do not go back: an occurrence is `null`
-- unless it lies ahead of the first reading, and it is created only if the later readings find it both
-- reached and ahead.
pub process_recurring_events-none :
    (next : RecurrenceType → ℕ → ℕ) (found : TimeBasedEvent → Bool) (s : EventSchedulerService)
    (rounds : TimeBasedEvent → Round)
    → ((e : TimeBasedEvent) → InOrder (rounds e))
    → process_recurring_events next found s rounds ≡ s
unfolding process_recurring_events
process_recurring_events-none next found s rounds h =
    ap (λ events. record s { events = events })
      (process_each-none next s.events (keep found s.events) rounds h)
