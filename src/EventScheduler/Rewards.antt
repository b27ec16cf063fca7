-- ===== src/EventScheduler/Rewards.antt =====
-- src/scheduling/event-scheduler.service.ts: whose rewards the completion of an event asks for.
use stell_aiverse_backend.Prelude.{
  ℕ, ◌≡◌, refl, inl, inr, Bool, true, false, ◌&&◌, ◌||◌, List, [], ◌∷◌, arith, ◌==◌, not, all, any,
  includes, Distinct, Bool-cases, ==_refl,
}
use stell_aiverse_backend.EventScheduler.{
  EventSchedulerService, TimeBasedEvent, EventParticipation, is_scheduled, is_active,
  is_taking_part, finish_all, ask_rewards, process_event_completion,
}

abbrev pub event_ids : List TimeBasedEvent → List ℕ
event_ids [] = []
event_ids (e ∷ es) = e.id ∷ event_ids es

abbrev pub participation_ids : List EventParticipation → List ℕ
participation_ids [] = []
participation_ids (p ∷ ps) = p.id ∷ participation_ids ps

-- An event with the id is still to be completed.
abbrev pub is_open : List TimeBasedEvent → ℕ → Bool
is_open es id = any (λ e. e.id == id && (is_scheduled e.status || is_active e.status)) es

-- No participation with the id takes part in an event of the set.
abbrev pub is_blocked : (ℕ → Bool) → List EventParticipation → ℕ → Bool
is_blocked events ps id =
    all (λ p. not (p.id == id && (is_taking_part p.status && events p.event_id))) ps

-- Those whose reward was asked for are out of the events of the set.
abbrev pub Blocked : (ℕ → Bool) → List EventParticipation → List ℕ → Type 0
Blocked events ps asked = (id : ℕ) → includes asked id ≡ true → is_blocked events ps id ≡ true

is_blocked-fewer :
    (events fewer : ℕ → Bool) (ps : List EventParticipation) (id : ℕ)
    → ((i : ℕ) → fewer i ≡ true → events i ≡ true)
    → is_blocked events ps id ≡ true
    → is_blocked fewer ps id ≡ true
is_blocked-fewer events fewer [] id f h = refl
is_blocked-fewer events fewer (p ∷ ps) id f h =
    ground (arith, f p.event_id, is_blocked-fewer events fewer ps id f)

is_blocked-excluded :
    (events : ℕ → Bool) (ps : List EventParticipation) (id : ℕ)
    → includes (participation_ids ps) id ≡ false
    → is_blocked events ps id ≡ true
is_blocked-excluded events [] id h = refl
is_blocked-excluded events (p ∷ ps) id h = ground (arith, is_blocked-excluded events ps id)

is_blocked-finish_all :
    (pays : ℕ → Bool) (events : ℕ → Bool) (now event_id : ℕ) (ps : List EventParticipation) (id : ℕ)
    → is_blocked events ps id ≡ true
    → is_blocked events (finish_all pays now event_id ps) id ≡ true
unfolding finish_all
is_blocked-finish_all pays events now event_id [] id h = refl
is_blocked-finish_all pays events now event_id (p ∷ ps) id h =
    ground (arith, is_blocked-finish_all pays events now event_id ps id)

ids-finish_all :
    (pays : ℕ → Bool) (now event_id : ℕ) (ps : List EventParticipation)
    → participation_ids (finish_all pays now event_id ps) ≡ participation_ids ps
unfolding finish_all
ids-finish_all pays now event_id [] = refl
ids-finish_all pays now event_id (p ∷ ps) = ground (arith, ids-finish_all pays now event_id ps)

abbrev is_asked : ℕ → List EventParticipation → ℕ → Bool
is_asked event_id ps id =
    any (λ p. p.id == id && (p.event_id == event_id && is_taking_part p.status)) ps

includes-ask_rewards :
    (pays : ℕ → Bool) (event_id : ℕ) (ps : List EventParticipation) (asked : List ℕ) (id : ℕ)
    → includes (ask_rewards pays event_id ps asked) id
      ≡ (is_asked event_id ps id || includes asked id)
unfolding ask_rewards
includes-ask_rewards pays event_id [] asked id = refl
includes-ask_rewards pays event_id (p ∷ ps) asked id =
    elim (Bool-cases (p.event_id == event_id && is_taking_part p.status)) [
      | inl hit ↦ rw (hit, includes-ask_rewards pays event_id ps (p.id ∷ asked) id) (ground arith)
      | inr miss ↦ rw (miss, includes-ask_rewards pays event_id ps asked id) (ground arith)
    ]

asked-included :
    (event_id : ℕ) (ps : List EventParticipation) (id : ℕ)
    → is_asked event_id ps id ≡ true
    → includes (participation_ids ps) id ≡ true
asked-included event_id [] id h = h
asked-included event_id (p ∷ ps) id h = ground (arith, asked-included event_id ps id)

asked-blocked :
    (events : ℕ → Bool) (event_id : ℕ) (ps : List EventParticipation) (id : ℕ)
    → events event_id ≡ false
    → Distinct (participation_ids ps)
    → is_asked event_id ps id ≡ true
    → is_blocked events ps id ≡ true
asked-blocked events event_id [] id n d h = refl
asked-blocked events event_id (p ∷ ps) id n (d, ds) h = elim (Bool-cases (p.id == id)) [
  | inl same ↦
      let e : p.id ≡ id = ground arith in
      let rest = is_blocked-excluded events ps id (rw e at d) in
      elim (Bool-cases (p.event_id == event_id)) [
        | inl here ↦
            let k : p.event_id ≡ event_id = ground arith in
            let out : events p.event_id ≡ false = rw k n in ground (arith, rest, out)
        | inr elsewhere ↦
            let there : is_asked event_id ps id ≡ true = ground arith in
            let held : includes (participation_ids ps) id ≡ false = rw e at d in
            absurd (ground (arith, asked-included event_id ps id there, held))
      ]
  | inr other ↦ ground (arith, asked-blocked events event_id ps id n ds)
]

other_fresh :
    (event_id : ℕ) (p : EventParticipation) (ps : List EventParticipation) (asked : List ℕ) (id : ℕ)
    → includes (participation_ids ps) p.id ≡ false
    → is_asked event_id ps id ≡ true
    → includes asked id ≡ false
    → includes (p.id ∷ asked) id ≡ false
other_fresh event_id p ps asked id d h f = elim (Bool-cases (p.id == id)) [
  | inl same ↦
      let e : p.id ≡ id = ground arith in
      let held : includes (participation_ids ps) id ≡ false = rw e at d in
      absurd (ground (arith, asked-included event_id ps id h, held))
  | inr other ↦ rw other f
]

-- Before the loop each participation of the event that takes part has not been asked for.
Distinct-ask_rewards :
    (pays : ℕ → Bool) (event_id : ℕ) (ps : List EventParticipation) (asked : List ℕ)
    → Distinct (participation_ids ps)
    → Distinct asked
    → ((id : ℕ) → is_asked event_id ps id ≡ true → includes asked id ≡ false)
    → Distinct (ask_rewards pays event_id ps asked)
unfolding ask_rewards
Distinct-ask_rewards pays event_id [] asked d a f = a
Distinct-ask_rewards pays event_id (p ∷ ps) asked (d, ds) a f =
    elim (Bool-cases (p.event_id == event_id && is_taking_part p.status)) [
      | inl hit ↦
          let fresh : includes asked p.id ≡ false = f p.id (rw (==_refl p.id, hit) refl) in
          rw hit (
            Distinct-ask_rewards pays event_id ps (p.id ∷ asked) ds (fresh, a)
              (λ id h. other_fresh event_id p ps asked id d h (f id (rw h (ground arith)))))
      | inr miss ↦
          rw miss
            (Distinct-ask_rewards pays event_id ps asked ds a (λ id h. f id (rw h (ground arith))))
    ]

blocked-asked :
    (bad : ℕ → Bool) (event_id : ℕ) (ps : List EventParticipation) (id : ℕ)
    → bad event_id ≡ true
    → is_blocked bad ps id ≡ true
    → is_asked event_id ps id ≡ true
    → ⊥
blocked-asked bad event_id [] id b h k = ground arith
blocked-asked bad event_id (p ∷ ps) id b h k = elim (Bool-cases (p.event_id == event_id)) [
  | inl here ↦
      let e : p.event_id ≡ event_id = ground arith in
      let in_set : bad p.event_id ≡ true = rw e b in
      ground (arith, blocked-asked bad event_id ps id b)
  | inr elsewhere ↦ blocked-asked bad event_id ps id b (ground arith) (ground arith)
]

-- What the loop over the events that are due needs: `bad` holds of the events that are due or open.
unfoldable pub Fair : (ℕ → Bool) → EventSchedulerService → Type 0
Fair bad s =
    Distinct (participation_ids s.participations)
    × Distinct s.rewarded
    × Blocked bad s.participations s.rewarded

includes-Blocked :
    (bad : ℕ → Bool) (event_id : ℕ) (ps : List EventParticipation) (asked : List ℕ) (id : ℕ)
    → bad event_id ≡ true
    → Blocked bad ps asked
    → is_asked event_id ps id ≡ true
    → includes asked id ≡ false
includes-Blocked bad event_id ps asked id b h k = elim (Bool-cases (includes asked id)) [
  | inl hit ↦ absurd (blocked-asked bad event_id ps id b (h id hit) k)
  | inr miss ↦ miss
]

pub process_event_completion-Fair :
    (pays : ℕ → Bool) (bad fewer : ℕ → Bool) (s : EventSchedulerService) (now event_id : ℕ)
    → bad event_id ≡ true
    → fewer event_id ≡ false
    → ((i : ℕ) → fewer i ≡ true → bad i ≡ true)
    → Fair bad s
    → Fair fewer (process_event_completion pays s now event_id)
unfolding Fair process_event_completion
process_event_completion-Fair pays bad fewer s now event_id b f sub (d, r, h) = (
  rw (ids-finish_all pays now event_id s.participations) d,
  Distinct-ask_rewards pays event_id s.participations s.rewarded d r
      (λ id k. includes-Blocked bad event_id s.participations s.rewarded id b h k),
  λ id k.
      is_blocked-finish_all pays fewer now event_id s.participations id
        (elim (Bool-cases (is_asked event_id s.participations id)) [
          | inl hit ↦ asked-blocked fewer event_id s.participations id f d hit
          | inr miss ↦
              let before : includes s.rewarded id ≡ true =
                rw (includes-ask_rewards pays event_id s.participations s.rewarded id, miss) at k in
              is_blocked-fewer bad fewer s.participations id sub (h id before)
        ]),
)

pub Fair-fewer :
    (events fewer : ℕ → Bool) (s : EventSchedulerService)
    → ((i : ℕ) → fewer i ≡ true → events i ≡ true)
    → Fair events s
    → Fair fewer s
unfolding Fair
Fair-fewer events fewer s f (d, r, h) =
    (d, r, λ id k. is_blocked-fewer events fewer s.participations id f (h id k))
