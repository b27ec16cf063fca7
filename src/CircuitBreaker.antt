-- ===== src/CircuitBreaker.antt =====
-- src/compute-bridge/router/circuit-breaker.service.ts: a circuit breaker for each AI provider.
-- Providers are numbers (an enum that is only compared), times are milliseconds and an argument of
-- each call, and a listener is the number under which it was added. `deliveries` is the list of the
-- listener calls made so far; a listener that throws is caught and changes nothing here.
pub mod Machine
pub mod Invariant
use stell_aiverse_backend.Prelude.{
  ℕ, ◌+◌, ◌*◌, Bool, true, false, List, [], ◌∷◌, ◌++◌, map, Option, none, some, min, leb, ◌==◌,
  if◌then◌else◌, keep, not, includes, lookup, insert,
}

pub data CircuitBreakerState : Type 0 where
  closed open_ half_open : CircuitBreakerState

pub record InternalCircuitBreakerState : Type 0 where
  pub state : CircuitBreakerState
  pub failure_count : ℕ
  pub success_count : ℕ
  pub last_failure_time : ℕ
  pub next_attempt_time : ℕ
  pub current_backoff : ℕ

pub record CircuitBreakerConfig : Type 0 where
  pub failure_threshold : ℕ
  pub recovery_timeout : ℕ
  pub success_threshold : ℕ
  pub backoff_multiplier : ℕ
  pub max_backoff_time : ℕ

-- `given` is the error text that the caller passed.
pub data Reason : Type 0 where
  recovery_timeout_elapsed success_threshold_reached failure_threshold_reached : Reason
  failure_in_half_open manual_reset : Reason
  given : ℕ → Reason

pub record CircuitBreakerEvent : Type 0 where
  pub provider : ℕ
  pub state : CircuitBreakerState
  pub timestamp : ℕ
  pub reason : Reason

pub record CircuitBreakerService : Type 0 where
  pub circuit_breakers : List (ℕ × InternalCircuitBreakerState)
  pub event_listeners : List ℕ
  pub deliveries : List (ℕ × CircuitBreakerEvent)

abbrev pub get_failure_threshold : ℕ → ℕ
get_failure_threshold provider = 5

abbrev pub get_success_threshold : ℕ → ℕ
get_success_threshold provider = 3

abbrev pub get_recovery_timeout : ℕ → ℕ
get_recovery_timeout provider = 30000

abbrev pub get_config : ℕ → Option CircuitBreakerConfig
get_config provider = none

unfoldable pub initialize_circuit_breaker :
    CircuitBreakerService → ℕ → CircuitBreakerConfig → ℕ → CircuitBreakerService
initialize_circuit_breaker s provider config now = record s {
  circuit_breakers = insert provider breaker s.circuit_breakers;
}
  where
    breaker : InternalCircuitBreakerState
    breaker = record {
      state = closed;
      failure_count = 0;
      success_count = 0;
      last_failure_time = now;
      next_attempt_time = now;
      current_backoff = config.recovery_timeout;
    }

-- `breaker.x = …` on the object that the map holds for `provider`.
abbrev pub write_breaker :
    CircuitBreakerService → ℕ → InternalCircuitBreakerState → CircuitBreakerService
write_breaker s provider b = record s { circuit_breakers = insert provider b s.circuit_breakers }

unfoldable pub emit_event :
    CircuitBreakerService → ℕ → CircuitBreakerState → ℕ → Reason → CircuitBreakerService
emit_event s provider new_state now reason = record s {
  deliveries = s.deliveries ++ map (λ listener. (listener, event)) s.event_listeners;
}
  where
    event : CircuitBreakerEvent
    event = record { provider = provider; state = new_state; timestamp = now; reason = reason }

pub transition_to_closed : CircuitBreakerService → ℕ → ℕ → Reason → CircuitBreakerService
unfolding emit_event
transition_to_closed s provider now reason = elim (lookup provider s.circuit_breakers) [
  | none ↦ s
  | some b ↦
      emit_event
        (write_breaker s provider (record b {
          state = closed;
          failure_count = 0;
          success_count = 0;
          current_backoff = get_recovery_timeout provider;
        }))
        provider closed now reason
]

pub transition_to_open : CircuitBreakerService → ℕ → ℕ → Reason → CircuitBreakerService
unfolding emit_event
transition_to_open s provider now reason = elim (lookup provider s.circuit_breakers) [
  | none ↦ s
  | some b ↦
      emit_event
        (write_breaker s provider (record b {
          state = open_;
          success_count = 0;
          next_attempt_time = now + b.current_backoff;
        }))
        provider open_ now reason
]

pub transition_to_half_open : CircuitBreakerService → ℕ → ℕ → Reason → CircuitBreakerService
unfolding emit_event
transition_to_half_open s provider now reason = elim (lookup provider s.circuit_breakers) [
  | none ↦ s
  | some b ↦
      emit_event (write_breaker s provider (record b { state = half_open; success_count = 0 }))
        provider half_open now reason
]

-- The new backoff: a configuration with a multiplier other than 0 scales and caps it.
pub next_backoff : Option CircuitBreakerConfig → ℕ → ℕ
next_backoff none backoff = backoff
next_backoff (some c) backoff =
    if c.backoff_multiplier == 0
    then backoff
    else min (backoff * c.backoff_multiplier)
        (if c.max_backoff_time == 0 then backoff * 2 else c.max_backoff_time)

pub update_backoff : CircuitBreakerService → ℕ → ℕ → CircuitBreakerService
unfolding next_backoff
update_backoff s provider now = elim (lookup provider s.circuit_breakers) [
  | none ↦ s
  | some b ↦
      let backoff = next_backoff (get_config provider) b.current_backoff in
      write_breaker s provider
        (record b { current_backoff = backoff; next_attempt_time = now + backoff })
]

-- `switch (breaker.state)` of `canExecute`.
can_execute_in :
    CircuitBreakerState
    → InternalCircuitBreakerState
    → CircuitBreakerService
    → ℕ
    → ℕ
    → CircuitBreakerService × Bool
unfolding transition_to_half_open
can_execute_in closed b s provider now = (s, true)
can_execute_in open_ b s provider now =
    if leb b.next_attempt_time now
    then (transition_to_half_open s provider now recovery_timeout_elapsed, true)
    else (s, false)
can_execute_in half_open b s provider now = (s, true)

unfoldable pub can_execute : CircuitBreakerService → ℕ → ℕ → CircuitBreakerService × Bool
unfolding can_execute_in
can_execute s provider now = elim (lookup provider s.circuit_breakers) [
  | none ↦ (s, true)
  | some b ↦ can_execute_in b.state b s provider now
]

-- `switch (breaker.state)` of `recordSuccess`; `b` has its counter raised and is in the map.
success_in :
    CircuitBreakerState
    → InternalCircuitBreakerState
    → CircuitBreakerService
    → ℕ
    → ℕ
    → CircuitBreakerService
unfolding transition_to_closed
success_in closed b s provider now = write_breaker s provider (record b { failure_count = 0 })
success_in half_open b s provider now =
    if leb (get_success_threshold provider) b.success_count
    then transition_to_closed s provider now success_threshold_reached
    else s
success_in open_ b s provider now = s

unfoldable pub record_success : CircuitBreakerService → ℕ → ℕ → CircuitBreakerService
unfolding success_in
record_success s provider now = elim (lookup provider s.circuit_breakers) [
  | none ↦ s
  | some b ↦
      let b' = record b { success_count = b.success_count + 1 } in
      success_in b.state b' (write_breaker s provider b') provider now
]

-- `error || text`: the caller's error is `none` where it is undefined or empty.
abbrev pub reason_or : Option ℕ → Reason → Reason
reason_or none r = r
reason_or (some e) r = given e

-- `switch (breaker.state)` of `recordFailure`.
failure_in :
    CircuitBreakerState
    → InternalCircuitBreakerState
    → CircuitBreakerService
    → ℕ
    → Option ℕ
    → ℕ
    → CircuitBreakerService
unfolding transition_to_open update_backoff
failure_in closed b s provider error now =
    if leb (get_failure_threshold provider) b.failure_count
    then transition_to_open s provider now (reason_or error failure_threshold_reached)
    else s
failure_in half_open b s provider error now =
    transition_to_open s provider now (reason_or error failure_in_half_open)
failure_in open_ b s provider error now = update_backoff s provider now

unfoldable pub record_failure : CircuitBreakerService → ℕ → Option ℕ → ℕ → CircuitBreakerService
unfolding failure_in
record_failure s provider error now = elim (lookup provider s.circuit_breakers) [
  | none ↦ s
  | some b ↦
      let b' = record b { failure_count = b.failure_count + 1; last_failure_time = now } in
      failure_in b.state b' (write_breaker s provider b') provider error now
]

unfoldable pub reset_circuit_breaker : CircuitBreakerService → ℕ → ℕ → CircuitBreakerService
unfolding transition_to_closed
reset_circuit_breaker s provider now = elim (lookup provider s.circuit_breakers) [
  | none ↦ s
  | some b ↦ transition_to_closed s provider now manual_reset
]

unfoldable pub get_state : CircuitBreakerService → ℕ → Option CircuitBreakerState
get_state s provider = elim (lookup provider s.circuit_breakers) [
  | none ↦ none
  | some b ↦ some b.state
]

unfoldable pub get_all_states : CircuitBreakerService → List (ℕ × CircuitBreakerState)
get_all_states s = map (λ e. (e.0, e.1.state)) s.circuit_breakers

abbrev pub is_available : CircuitBreakerState → Bool
is_available open_ = false
is_available closed = true
is_available half_open = true

unfoldable pub get_available_providers : CircuitBreakerService → List ℕ
get_available_providers s = map (λ e. e.0) (keep (λ e. is_available e.1.state) s.circuit_breakers)

-- The listeners are a `Set`: adding one that is there changes nothing.
unfoldable pub add_event_listener : CircuitBreakerService → ℕ → CircuitBreakerService
add_event_listener s listener =
    if includes s.event_listeners listener
    then s
    else record s { event_listeners = s.event_listeners ++ listener ∷ [] }

unfoldable pub remove_event_listener : CircuitBreakerService → ℕ → CircuitBreakerService
remove_event_listener s listener = record s {
  event_listeners = keep (λ l. not (l == listener)) s.event_listeners;
}

-- The calls that change the service.
pub data Call : Type 0 where
  initialize : ℕ → CircuitBreakerConfig → Call
  executes : ℕ → Call
  succeeds : ℕ → Call
  fails : ℕ → Option ℕ → Call
  resets : ℕ → Call
  listens forgets : ℕ → Call

unfoldable pub step : CircuitBreakerService → ℕ → Call → CircuitBreakerService
step s now (initialize p c) = initialize_circuit_breaker s p c now
step s now (executes p) = (can_execute s p now).0
step s now (succeeds p) = record_success s p now
step s now (fails p e) = record_failure s p e now
step s now (resets p) = reset_circuit_breaker s p now
step s now (listens l) = add_event_listener s l
step s now (forgets l) = remove_event_listener s l

unfoldable pub run : CircuitBreakerService → List (ℕ × Call) → CircuitBreakerService
run s [] = s
run s ((now, c) ∷ cs) = run (step s now c) cs

abbrev pub target : Call → Option ℕ
target (initialize p c) = some p
target (executes p) = some p
target (succeeds p) = some p
target (fails p e) = some p
target (resets p) = some p
target (listens l) = none
target (forgets l) = none

unfoldable pub new_service : CircuitBreakerService
new_service = record { circuit_breakers = []; event_listeners = []; deliveries = [] }
