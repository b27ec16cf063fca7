-- ===== src/EventScheduler/Once.antt =====
-- src/scheduling/event-scheduler.service.ts: how often rewards are asked for over a series of checks
-- and of administrators' changes.
use stell_aiverse_backend.Prelude.{
  ℕ, ◌≡◌, refl, ◌∙◌, inl, inr, Bool, true, false, ◌&&◌, ◌||◌, List, [], ◌∷◌, arith, ◌==◌, keep,
  includes, Distinct, Bool-cases, Result, ok, err, find_first, Option, none, some,
}
use stell_aiverse_backend.EventScheduler.{
  EventSchedulerService, TimeBasedEvent, is_scheduled, is_active, is_due, activate_due,
  complete_due, check_and_update_event_statuses, cancelled,
}
use stell_aiverse_backend.EventScheduler.Campaigns.{
  resolve_conflicts, terminate_event, extend_event, EventNotFound, change_event, save_found,
}
use stell_aiverse_backend.EventScheduler.Lifecycle.{complete_all-events}
use stell_aiverse_backend.EventScheduler.Rewards.{
  event_ids, participation_ids, is_open, Fair, Fair-fewer,
}
use stell_aiverse_backend.EventScheduler.Openings.{
  complete_all-Fair, ids-activate_due, ids-complete_due, Distinct-keep, is_open-activate_due,
  closed-due, open_or_due,
}

-- Event ids are distinct, and no reward was asked for in an event that is still open.
abbrev pub Safe : EventSchedulerService → Type 0
Safe s = Distinct (event_ids s.events) × Fair (is_open s.events) s

check-Safe :
    (pays : ℕ → Bool) (s : EventSchedulerService) (now : ℕ)
    → Safe s
    → Fair
        (is_open (complete_due now (activate_due now s.events)))
        (check_and_update_event_statuses pays s now)
unfolding check_and_update_event_statuses Fair
check-Safe pays s now (d, f) =
    let es = activate_due now s.events in
    let de : Distinct (event_ids es) = rw (ids-activate_due now s.events) d in
    let t : EventSchedulerService = record s { events = complete_due now es } in
    complete_all-Fair pays (complete_due now es) (keep (is_due now) es) t now
      (Distinct-keep (is_due now) es de) (λ i k. closed-due now es i de k)
      (Fair-fewer (is_open s.events)
        (λ i. is_open (complete_due now es) i || includes (event_ids (keep (is_due now) es)) i) t
        (λ i k. is_open-activate_due now s.events i (open_or_due now es i k)) f)

resolve-open :
    (a b : ℕ) (es : List TimeBasedEvent) (i : ℕ)
    → is_open (resolve_conflicts a b es) i ≡ true
    → is_open es i ≡ true
unfolding resolve_conflicts
resolve-open a b [] i h = h
resolve-open a b (e ∷ es) i h = ground (arith, resolve-open a b es i)

ids-resolve :
    (a b : ℕ) (es : List TimeBasedEvent) → event_ids (resolve_conflicts a b es) ≡ event_ids es
unfolding resolve_conflicts
ids-resolve a b [] = refl
ids-resolve a b (e ∷ es) = ground (arith, ids-resolve a b es)

-- A change that keeps ids and opens no event.
abbrev Mild : (TimeBasedEvent → TimeBasedEvent) → Type 0
Mild f =
    (e : TimeBasedEvent)
    → ((f e).id ≡ e.id)
      × ((is_scheduled (f e).status || is_active (f e).status) ≡ true
          → (is_scheduled e.status || is_active e.status) ≡ true)

or_and :
    (x y y' z : Bool) → (y ≡ true → y' ≡ true) → ((x && y) || z) ≡ true → ((x && y') || z) ≡ true
or_and true y y' true f h = ground arith
or_and true y y' false f h = ground (arith, f)
or_and false y y' z f h = h

change-open :
    (f : TimeBasedEvent → TimeBasedEvent) (id : ℕ) (es : List TimeBasedEvent) (i : ℕ)
    → Mild f
    → is_open (change_event f id es) i ≡ true
    → is_open es i ≡ true
change-open f id [] i m h = h
change-open f id (e ∷ es) i m h = elim (Bool-cases (e.id == id)) [
  | inl hit ↦
      let (same, mild) = m e in or_and (e.id == i) _ _ (is_open es i) mild (rw (hit, same) at h)
  | inr miss ↦ ground (arith, change-open f id es i m)
]

ids-change :
    (f : TimeBasedEvent → TimeBasedEvent) (id : ℕ) (es : List TimeBasedEvent)
    → Mild f
    → event_ids (change_event f id es) ≡ event_ids es
ids-change f id [] m = refl
ids-change f id (e ∷ es) m = elim (Bool-cases (e.id == id)) [
  | inl hit ↦ rw (hit, (m e).0) refl
  | inr miss ↦ rw (miss, ids-change f id es m) refl
]

-- What happens to events: the check of every minute, and administrators' changes.
pub data Change : Type 0 where
  checks : ℕ → Change
  resolves : ℕ → ℕ → Change
  terminates : ℕ → Change
  extends : ℕ → ℕ → Change

-- A call that throws changes nothing.
abbrev pub kept_or :
    EventSchedulerService → Result EventNotFound EventSchedulerService → EventSchedulerService
kept_or s (err e) = s
kept_or s (ok t) = t

unfoldable pub change : (ℕ → Bool) → EventSchedulerService → Change → EventSchedulerService
unfolding check_and_update_event_statuses resolve_conflicts terminate_event extend_event
change pays s (checks now) = check_and_update_event_statuses pays s now
change pays s (resolves a b) = record s { events = resolve_conflicts a b s.events }
change pays s (terminates id) = kept_or s (terminate_event s id)
change pays s (extends id end_date) = kept_or s (extend_event s id end_date)

unfoldable pub changes : (ℕ → Bool) → EventSchedulerService → List Change → EventSchedulerService
unfolding change
changes pays s [] = s
changes pays s (c ∷ cs) = changes pays (change pays s c) cs

events-Safe :
    (s : EventSchedulerService) (es : List TimeBasedEvent)
    → event_ids es ≡ event_ids s.events
    → ((i : ℕ) → is_open es i ≡ true → is_open s.events i ≡ true)
    → Safe s
    → Safe (record s { events = es })
unfolding Fair
events-Safe s es same fewer (d, f) =
    (rw same d, Fair-fewer (is_open s.events) (is_open es) (record s { events = es }) fewer f)

save_found-Safe :
    (s : EventSchedulerService) (f : TimeBasedEvent → TimeBasedEvent) (id : ℕ)
    (o : Option TimeBasedEvent)
    → Mild f
    → Safe s
    → Safe (kept_or s (save_found s f id o))
save_found-Safe s f id none m h = h
save_found-Safe s f id (some e) m h =
    events-Safe s (change_event f id s.events) (ids-change f id s.events m)
      (λ i. change-open f id s.events i m) h

check-events :
    (pays : ℕ → Bool) (s : EventSchedulerService) (now : ℕ)
    → (check_and_update_event_statuses pays s now).events
      ≡ complete_due now (activate_due now s.events)
unfolding check_and_update_event_statuses
check-events pays s now =
    let es = activate_due now s.events in
    complete_all-events pays (record s { events = complete_due now es }) now (keep (is_due now) es)

check-keeps :
    (pays : ℕ → Bool) (s : EventSchedulerService) (now : ℕ)
    → Safe s
    → Safe (check_and_update_event_statuses pays s now)
check-keeps pays s now h =
    let ids = ids-complete_due now (activate_due now s.events) ∙ ids-activate_due now s.events in
    (
      rw (check-events pays s now, ids) h.0,
      Fair-fewer (is_open (complete_due now (activate_due now s.events)))
          (is_open (check_and_update_event_statuses pays s now).events)
          (check_and_update_event_statuses pays s now) (λ i k. rw (check-events pays s now) at k)
          (check-Safe pays s now h),
    )

change-Safe :
    (pays : ℕ → Bool) (s : EventSchedulerService) (c : Change) → Safe s → Safe (change pays s c)
unfolding change terminate_event extend_event
change-Safe pays s (checks now) h = check-keeps pays s now h
change-Safe pays s (resolves a b) h =
    events-Safe s (resolve_conflicts a b s.events) (ids-resolve a b s.events)
      (λ i. resolve-open a b s.events i) h
change-Safe pays s (terminates id) h =
    save_found-Safe s (λ e. record e { status = cancelled }) id
      (find_first (λ e. e.id == id) s.events) (λ e. (refl, λ k. absurd (ground arith))) h
change-Safe pays s (extends id end_date) h =
    save_found-Safe s (λ e. record e { end_date = end_date }) id
      (find_first (λ e. e.id == id) s.events) (λ e. (refl, λ k. k)) h

changes-Safe :
    (pays : ℕ → Bool) (s : EventSchedulerService) (cs : List Change)
    → Safe s
    → Safe (changes pays s cs)
unfolding changes
changes-Safe pays s [] h = h
changes-Safe pays s (c ∷ cs) h = changes-Safe pays (change pays s c) cs (change-Safe pays s c h)

excluded : (asked : List ℕ) (id : ℕ) → asked ≡ [] → includes asked id ≡ false
excluded asked id e = rw e refl

Fair-start :
    (s : EventSchedulerService)
    → Distinct (participation_ids s.participations)
    → s.rewarded ≡ []
    → Fair (is_open s.events) s
unfolding Fair
Fair-start s p e = (p, rw e tt, λ id k. absurd (ground (arith, excluded s.rewarded id e)))

asked_once : (events : ℕ → Bool) (s : EventSchedulerService) → Fair events s → Distinct s.rewarded
unfolding Fair
asked_once events s f = f.1

-- Over any series of checks, resolved conflicts, ends and extensions of events, the reward of no
-- participation is asked for twice, whatever the reward pipeline answers, if no two events and no two
-- participations share an id and nothing has been asked for before.
pub changes-once :
    (pays : ℕ → Bool) (s : EventSchedulerService) (cs : List Change)
    → Distinct (event_ids s.events)
    → Distinct (participation_ids s.participations)
    → s.rewarded ≡ []
    → Distinct (changes pays s cs).rewarded
changes-once pays s cs d p e =
    asked_once (is_open (changes pays s cs).events) (changes pays s cs)
      (changes-Safe pays s cs (d, Fair-start s p e)).1
