-- ===== src/Scenarios/Breakers.antt =====
-- src/compute-bridge/router/circuit-breaker.service.ts: the circuit of one provider, 1.
use stell_aiverse_backend.Prelude.{
  lookup, insert, ℕ, ◌≡◌, ◌<◌, ◌↔◌, ◌⊎◌, refl, true, false, List, [], ◌∷◌, none, some, arith,
}
use stell_aiverse_backend.CircuitBreaker.{
  CircuitBreakerService, CircuitBreakerConfig, CircuitBreakerState, closed, open_, Call, fails,
  initialize, step, run, can_execute, new_service, initialize_circuit_breaker, record_failure,
}
use stell_aiverse_backend.CircuitBreaker.Machine.{Breaker, next, step-next}
use stell_aiverse_backend.CircuitBreaker.Invariant.{
  IsValid, failures, recovery, run-IsValid, can_execute-false_iff, run-failures_open, run-recovery,
  run-HasBackoff,
}

abbrev breaker : CircuitBreakerState → ℕ → ℕ → ℕ → Breaker
breaker state failures attempt backoff = record {
  state = state;
  failure_count = failures;
  success_count = 0;
  last_failure_time = 0;
  next_attempt_time = attempt;
  current_backoff = backoff;
}

abbrev service : Breaker → CircuitBreakerService
service b = record { circuit_breakers = (1, b) ∷ []; event_listeners = []; deliveries = [] }

abbrev config : CircuitBreakerConfig
config = record {
  failure_threshold = 2;
  recovery_timeout = 1000;
  success_threshold = 1;
  backoff_multiplier = 2;
  max_backoff_time = 8000;
}

abbrev calls : List (ℕ × Call)
calls = (0, initialize 1 config) ∷ (5, fails 1 none) ∷ (6, fails 1 none) ∷ []

-- Two failures do not open the circuit, whose configuration has the threshold 2.
calls-breaker :
    lookup 1 (run new_service calls).circuit_breakers
    ≡ some (record (breaker closed 2 0 1000) { last_failure_time = 6 })
unfolding run new_service step lookup insert initialize_circuit_breaker record_failure
calls-breaker = refl

step-next_example :
    lookup 1 (step (service (breaker closed 4 0 1000)) 8 (fails 1 none)).circuit_breakers
    ≡ next 1 8 (fails 1 none) (lookup 1 (service (breaker closed 4 0 1000)).circuit_breakers)
step-next_example = step-next (service (breaker closed 4 0 1000)) 1 8 (fails 1 none)

run-IsValid_example : IsValid (record (breaker closed 2 0 1000) { last_failure_time = 6 })
run-IsValid_example =
    run-IsValid calls 1 (record (breaker closed 2 0 1000) { last_failure_time = 6 }) calls-breaker

can_execute-false_iff_example :
    ((can_execute (service (breaker open_ 5 900 1000)) 1 800).1 ≡ false) ↔ (
      (b : Breaker) × (lookup 1 (service (breaker open_ 5 900 1000)).circuit_breakers ≡ some b)
      × (b.state ≡ open_)
      × (800 < b.next_attempt_time))
can_execute-false_iff_example = can_execute-false_iff (service (breaker open_ 5 900 1000)) 1 800

run-failures_open_example :
    (b' : Breaker) × (lookup 1
        (run
          (service (breaker closed 2 0 1000))
          (failures 1 ((7, some 41) ∷ (8, none) ∷ (9, some 42) ∷ []))).circuit_breakers
      ≡ some b')
    × (b'.state ≡ open_)
    × (b'.next_attempt_time ≡ 1009)
unfolding lookup
run-failures_open_example =
    run-failures_open (service (breaker closed 2 0 1000)) 1 9 (some 42)
      ((7, some 41) ∷ (8, none) ∷ []) (breaker closed 2 0 1000) refl refl refl

run-recovery_example :
    ((can_execute (service (breaker open_ 5 900 1000)) 1 950).1 ≡ true)
    × (lookup 1
          (run (service (breaker open_ 5 900 1000)) (recovery 1 950 951 952 953)).circuit_breakers
        ≡ some (breaker closed 0 900 30000))
unfolding lookup
run-recovery_example =
    run-recovery (service (breaker open_ 5 900 1000)) 1 950 951 952 953 (breaker open_ 5 900 1000)
      refl refl (omega arith)

abbrev failing : List (ℕ × Call)
failing = (10, fails 1 none) ∷ []

abbrev failed_once : Breaker
failed_once = record (breaker open_ 6 1010 1000) { last_failure_time = 10 }

failing-breaker :
    lookup 1 (run (service (breaker open_ 5 900 1000)) failing).circuit_breakers ≡ some failed_once
unfolding run step lookup insert record_failure
failing-breaker = refl

run-HasBackoff_example :
    (failed_once.current_backoff ≡ (breaker open_ 5 900 1000).current_backoff)
    ⊎ (failed_once.current_backoff ≡ 30000)
unfolding lookup
run-HasBackoff_example =
    run-HasBackoff (service (breaker open_ 5 900 1000)) 1 (breaker open_ 5 900 1000) failed_once
      failing refl refl failing-breaker
