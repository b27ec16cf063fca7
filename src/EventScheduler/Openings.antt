-- ===== src/EventScheduler/Openings.antt =====
-- src/scheduling/event-scheduler.service.ts: which events are open once the due ones are completed.
use stell_aiverse_backend.Prelude.{
  ℕ, ◌≡◌, refl, inl, inr, Bool, true, false, ◌||◌, List, [], ◌∷◌, arith, ◌==◌, keep, includes,
  Distinct, Bool-cases, ==_refl,
}
use stell_aiverse_backend.EventScheduler.{
  EventSchedulerService, TimeBasedEvent, is_due, activate_due, complete_due, complete_all,
  process_event_completion,
}
use stell_aiverse_backend.EventScheduler.Rewards.{
  event_ids, is_open, Fair, Fair-fewer, process_event_completion-Fair,
}

pub complete_all-Fair :
    (pays : ℕ → Bool) (es due : List TimeBasedEvent) (s : EventSchedulerService) (now : ℕ)
    → Distinct (event_ids due)
    → ((i : ℕ) → includes (event_ids due) i ≡ true → is_open es i ≡ false)
    → Fair (λ i. is_open es i || includes (event_ids due) i) s
    → Fair (is_open es) (complete_all pays s now due)
unfolding complete_all
complete_all-Fair pays es [] s now d c h = Fair-fewer _ (is_open es) s (λ i k. rw k refl) h
complete_all-Fair pays es (e ∷ due) s now (n, d) c h =
    complete_all-Fair pays es due (process_event_completion pays s now e.id) now d
      (λ i k. c i (rw k (ground arith)))
      (process_event_completion-Fair pays (λ i. is_open es i || includes (event_ids (e ∷ due)) i)
        (λ i. is_open es i || includes (event_ids due) i) s now e.id
        (rw (==_refl e.id) (ground arith)) (rw (c e.id (rw (==_refl e.id) refl), n) refl)
        (λ i k. ground arith) h)

pub ids-activate_due :
    (now : ℕ) (es : List TimeBasedEvent) → event_ids (activate_due now es) ≡ event_ids es
unfolding activate_due
ids-activate_due now [] = refl
ids-activate_due now (e ∷ es) = ground (arith, ids-activate_due now es)

pub ids-complete_due :
    (now : ℕ) (es : List TimeBasedEvent) → event_ids (complete_due now es) ≡ event_ids es
unfolding complete_due
ids-complete_due now [] = refl
ids-complete_due now (e ∷ es) = ground (arith, ids-complete_due now es)

includes-keep :
    (p : TimeBasedEvent → Bool) (es : List TimeBasedEvent) (i : ℕ)
    → includes (event_ids es) i ≡ false
    → includes (event_ids (keep p es)) i ≡ false
includes-keep p [] i h = refl
includes-keep p (e ∷ es) i h = ground (arith, includes-keep p es i)

pub Distinct-keep :
    (p : TimeBasedEvent → Bool) (es : List TimeBasedEvent)
    → Distinct (event_ids es)
    → Distinct (event_ids (keep p es))
Distinct-keep p [] d = tt
Distinct-keep p (e ∷ es) (n, d) = elim (Bool-cases (p e)) [
  | inl kept ↦ rw kept (includes-keep p es e.id n, Distinct-keep p es d)
  | inr gone ↦ rw gone (Distinct-keep p es d)
]

pub is_open-activate_due :
    (now : ℕ) (es : List TimeBasedEvent) (i : ℕ)
    → is_open (activate_due now es) i ≡ true
    → is_open es i ≡ true
unfolding activate_due
is_open-activate_due now [] i h = h
is_open-activate_due now (e ∷ es) i h = ground (arith, is_open-activate_due now es i)

is_open-complete_due :
    (now : ℕ) (es : List TimeBasedEvent) (i : ℕ)
    → is_open (complete_due now es) i ≡ true
    → is_open es i ≡ true
unfolding complete_due
is_open-complete_due now [] i h = h
is_open-complete_due now (e ∷ es) i h = ground (arith, is_open-complete_due now es i)

is_open-due :
    (now : ℕ) (es : List TimeBasedEvent) (i : ℕ)
    → includes (event_ids (keep (is_due now) es)) i ≡ true
    → is_open es i ≡ true
unfolding is_due
is_open-due now [] i h = absurd (ground arith)
is_open-due now (e ∷ es) i h = ground (arith, is_open-due now es i)

is_open-excluded :
    (es : List TimeBasedEvent) (i : ℕ) → includes (event_ids es) i ≡ false → is_open es i ≡ false
is_open-excluded [] i h = refl
is_open-excluded (e ∷ es) i h = ground (arith, is_open-excluded es i)

pub closed-due :
    (now : ℕ) (es : List TimeBasedEvent) (i : ℕ)
    → Distinct (event_ids es)
    → includes (event_ids (keep (is_due now) es)) i ≡ true
    → is_open (complete_due now es) i ≡ false
unfolding complete_due
closed-due now [] i d h = refl
closed-due now (e ∷ es) i (n, d) h = elim (Bool-cases (e.id == i)) [
  | inl same ↦
      let here : e.id ≡ i = ground arith in
      let out : includes (event_ids es) i ≡ false = rw here at n in
      let gone : includes (event_ids (complete_due now es)) i ≡ false =
        rw (ids-complete_due now es) out in
      let rest = is_open-excluded (complete_due now es) i gone in
      elim (Bool-cases (is_due now e)) [
        | inl due ↦ rw (due, rest) (ground arith)
        | inr early ↦ absurd (ground (arith, includes-keep (is_due now) es i out))
      ]
  | inr other ↦ elim (Bool-cases (is_due now e)) [
    | inl due ↦ rw (due, other, closed-due now es i d (rw other at (rw due at h))) refl
    | inr early ↦ rw (early, other, closed-due now es i d (rw early at h)) refl
  ]
]

pub open_or_due :
    (now : ℕ) (es : List TimeBasedEvent) (i : ℕ)
    → (is_open (complete_due now es) i || includes (event_ids (keep (is_due now) es)) i) ≡ true
    → is_open es i ≡ true
open_or_due now es i h = elim (Bool-cases (is_open (complete_due now es) i)) [
  | inl still ↦ is_open-complete_due now es i still
  | inr no_more ↦ is_open-due now es i (rw no_more at h)
]
